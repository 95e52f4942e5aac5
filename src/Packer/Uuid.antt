-- ===== src/Packer/Uuid.antt =====
-- packer/uuid.go. MD5 is Go's crypto/md5, a parameter here.
use twclient.Prelude.{ℕ, zero, suc, ◌+◌, ◌%◌, ◌<◌, ◌≡◌, ◌≢◌, refl, arith, ◌∙◌, bit_and, bit_or}
use twclient.Prelude.{List, [], ◌∷◌, ◌++◌, length, get_or, set, copy, replicate, length-set}
use twclient.Prelude.{ℕ_discrete, ◌==◌, if◌then◌else◌}
use twclient.Prelude.Bits.{and_0f, and_3f, or_30, or_80}

abbrev pub teeworlds_namespace : List ℕ
teeworlds_namespace =
    0xe0 ∷ 0x5d ∷ 0xda ∷ 0xaa ∷ 0xc4 ∷ 0xe6 ∷ 0x4c ∷ 0xfb ∷ 0xb6 ∷ 0x42 ∷ 0x5d ∷ 0x48 ∷ 0xe8 ∷ 0x0c
    ∷ 0x00 ∷ 0x29 ∷ []

-- Version 3 into byte 6 and variant 1 into byte 8.
stamp : List ℕ → List ℕ
stamp uuid =
    let versioned = set uuid 6 (bit_or (bit_and (get_or uuid 6 0) 0x0f) 0x30) in
    set versioned 8 (bit_or (bit_and (get_or versioned 8 0) 0x3f) 0x80)

pub calculate_uuid : (List ℕ → List ℕ) → List ℕ → List ℕ
unfolding stamp
calculate_uuid md5 name = stamp (copy (replicate 16 0) (md5 (teeworlds_namespace ++ name)))

get_or-set_self : (xs : List ℕ) (i v : ℕ) → i < length xs → get_or (set xs i v) i 0 ≡ v
get_or-set_self [] i v h = absurd (omega arith)
get_or-set_self (x ∷ xs) zero v h = refl
get_or-set_self (x ∷ xs) (suc i) v h = get_or-set_self xs i v (omega arith)

get_or-set_ne : (xs : List ℕ) (i j v : ℕ) → i ≢ j → get_or (set xs i v) j 0 ≡ get_or xs j 0
get_or-set_ne [] i j v h = refl
get_or-set_ne (x ∷ xs) zero zero v h = absurd (h refl)
get_or-set_ne (x ∷ xs) zero (suc j) v h = refl
get_or-set_ne (x ∷ xs) (suc i) zero v h = refl
get_or-set_ne (x ∷ xs) (suc i) (suc j) v h = get_or-set_ne xs i j v (λ e. h (omega arith))

pub copy_full : (dst src : List ℕ) → length src ≡ length dst → copy dst src ≡ src
copy_full [] [] h = refl
copy_full [] (s ∷ src) h = absurd (omega arith)
copy_full (d ∷ dst) [] h = absurd (omega arith)
copy_full (d ∷ dst) (s ∷ src) h = λ i. s ∷ copy_full dst src (omega arith) i

stamp_fields :
    (uuid : List ℕ)
    → length uuid ≡ 16
    → get_or uuid 6 0 < 256
    → get_or uuid 8 0 < 256
    → (length (stamp uuid) ≡ 16)
      × (get_or (stamp uuid) 6 0 ≡ 0x30 + get_or uuid 6 0 % 16)
      × (get_or (stamp uuid) 8 0 ≡ 0x80 + get_or uuid 8 0 % 64)
      × ((i : ℕ) → i ≢ 6 → i ≢ 8 → get_or (stamp uuid) i 0 ≡ get_or uuid i 0)
unfolding stamp
stamp_fields uuid h b6 b8 =
    let v6 = bit_or (bit_and (get_or uuid 6 0) 0x0f) 0x30 in
    let versioned = set uuid 6 v6 in
    let v8 = bit_or (bit_and (get_or versioned 8 0) 0x3f) 0x80 in
    let same8 = get_or-set_ne uuid 6 8 v6 (omega arith) in
    (
      length-set versioned 8 v8 ∙ length-set uuid 6 v6 ∙ h,
      get_or-set_ne versioned 8 6 v8 (omega arith)
          ∙ get_or-set_self uuid 6 v6 (omega arith)
          ∙ rw (and_0f (get_or uuid 6 0) (omega arith)) (or_30 (get_or uuid 6 0)),
      get_or-set_self versioned 8 v8 (omega (arith, length-set uuid 6 v6))
          ∙ rw (same8, and_3f (get_or uuid 8 0) b8) (or_80 (get_or uuid 8 0)),
      λ i n6 n8.
          get_or-set_ne versioned 8 i v8 (λ e. n8 (omega arith))
          ∙ get_or-set_ne uuid 6 i v6 (λ e. n6 (omega arith)),
    )

-- Byte `i` of the UUID that is made of a digest.
abbrev pub uuid_byte : List ℕ → ℕ → ℕ
uuid_byte digest i =
    if i == 6
    then 0x30 + get_or digest 6 0 % 16
    else if i == 8
    then 0x80 + get_or digest 8 0 % 64
    else get_or digest i 0

stamp_byte :
    (digest : List ℕ) (i : ℕ)
    → length digest ≡ 16
    → get_or digest 6 0 < 256
    → get_or digest 8 0 < 256
    → get_or (stamp digest) i 0 ≡ uuid_byte digest i
stamp_byte digest i h b6 b8 =
    let (_, at6, at8, others) = stamp_fields digest h b6 b8 in
    elim (ℕ_discrete i 6) [
      | yes e ↦ rw e at6
      | no n6 ↦ elim (ℕ_discrete i 8) [ yes e ↦ rw e at8 | no n8 ↦ others i n6 n8 ∙ ground arith ]
    ]

-- Of a 16-byte digest the UUID keeps every byte but two: byte 6 has version 3 in its high half and
-- byte 8 has the variant bits 10 on top, and both keep the digest's bits below.
pub calculate_uuid_bytes :
    (md5 : List ℕ → List ℕ) (name : List ℕ) (i : ℕ)
    → length (md5 (teeworlds_namespace ++ name)) ≡ 16
    → get_or (md5 (teeworlds_namespace ++ name)) 6 0 < 256
    → get_or (md5 (teeworlds_namespace ++ name)) 8 0 < 256
    → (length (calculate_uuid md5 name) ≡ 16)
      × (get_or (calculate_uuid md5 name) i 0 ≡ uuid_byte (md5 (teeworlds_namespace ++ name)) i)
unfolding calculate_uuid
calculate_uuid_bytes md5 name i h b6 b8 =
    let digest = md5 (teeworlds_namespace ++ name) in
    rw (copy_full (replicate 16 0) digest h)
      ((stamp_fields digest h b6 b8).0, stamp_byte digest i h b6 b8)
