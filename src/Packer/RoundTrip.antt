-- ===== src/Packer/RoundTrip.antt =====
-- What the packing functions write, the `Unpacker` reads back, whatever follows.
use twclient.Prelude.{ℕ, zero, suc, min, ◌+◌, ◌-◌, ◌^◌, ◌≤◌, ◌<◌, ◌≡◌, refl, sym, ap, arith, ◌∙◌}
use native.Mathlib.Nat.{zero-add, suc-add}
use twclient.Prelude.{
  List, [], ◌∷◌, ◌++◌, length, drop, take, get_or, append_assoc, length-append, length-drop,
}
use twclient.Prelude.{Bool, true, false, not, some, ◌==◌, ◌≢◌}
use twclient.Prelude.Int.{ℤ, pos, negsuc, pos_part, neg_part, IsInt32, shr_ℤ, low_bits_ℤ}
use twclient.Packer.Varint.{Varint}
use twclient.Packer.Reader.{Unpacker, ok}
use twclient.Packer.Unpack.{
  remaining_data, next_byte, advance, next_raw, index_nul, take_string, next_string_sanitized,
  next_int, next_msg_and_sys, accept_int,
}
use twclient.Packer.Sanitize.{sanitize}
use twclient.Packer.Pack.{clamp32, append_int, msg_id_word, append_msg_id, pack_string, pack_msg_id}

-- The unpacker stands inside its data, and `bytes` are what it still has to read.
pub record Holds (u : Unpacker) (bytes : List ℕ) : Type 0 where
  pub inside : u.idx ≤ length u.data_bytes
  pub left : remaining_data u ≡ bytes

-- No byte of a Go string that is packed may be NUL.
abbrev pub NoNul : List ℕ → Type 0
NoNul [] = Unit {0}
NoNul (b ∷ s) = (b ≢ 0) × NoNul s

drop-nil : (k : ℕ) → drop {A = ℕ} k [] ≡ []
drop-nil zero = refl
drop-nil (suc k) = refl

pub drop-add : (m n : ℕ) (xs : List ℕ) → drop (n + m) xs ≡ drop m (drop n xs)
drop-add m zero xs = rw zero-add
drop-add m (suc n) [] = rw suc-add (sym (drop-nil m))
drop-add m (suc n) (x ∷ xs) = rw suc-add (drop-add m n xs)

pub drop-append_self : (xs ys : List ℕ) → drop (length xs) (xs ++ ys) ≡ ys
drop-append_self [] ys = refl
drop-append_self (x ∷ xs) ys = drop-append_self xs ys

pub take-append_self : (xs ys : List ℕ) → take (length xs) (xs ++ ys) ≡ xs
take-append_self [] ys = refl
take-append_self (x ∷ xs) ys = ap (λ t. x ∷ t) (take-append_self xs ys)

pub Holds-length :
    (u : Unpacker) (xs : List ℕ) → Holds u xs → length u.data_bytes ≡ u.idx + length xs
Holds-length u xs h =
    omega (arith, h.inside, length-drop u.idx u.data_bytes, ap (length {A = ℕ}) h.left)

pub get_or-drop : (xs : List ℕ) (n : ℕ) → get_or xs n 0 ≡ get_or (drop n xs) 0 0
get_or-drop [] zero = refl
get_or-drop [] (suc n) = refl
get_or-drop (x ∷ xs) zero = refl
get_or-drop (x ∷ xs) (suc n) = get_or-drop xs n

pub get_or-drop_add : (xs : List ℕ) (n k : ℕ) → get_or xs (n + k) 0 ≡ get_or (drop n xs) k 0
get_or-drop_add xs zero k = rw zero-add
get_or-drop_add [] (suc n) k = refl
get_or-drop_add (x ∷ xs) (suc n) k = rw suc-add (get_or-drop_add xs n k)

-- Reading past a prefix leaves what follows it.
pub Holds-advance :
    (u : Unpacker) (xs ys : List ℕ) → Holds u (xs ++ ys) → Holds (advance (length xs) u) ys
Holds-advance u xs ys h = record {
  inside = omega (arith, Holds-length u (xs ++ ys) h, length-append xs ys);
  left =
      drop-add (length xs) u.idx u.data_bytes
      ∙ ap (drop (length xs)) h.left
      ∙ drop-append_self xs ys;
}

index_nul-append : (s ys : List ℕ) → NoNul s → index_nul (s ++ 0 ∷ ys) ≡ some (length s)
unfolding index_nul
index_nul-append [] ys h = refl
index_nul-append (b ∷ s) ys (hb, hs) = ground (arith, index_nul-append s ys hs)

module _ (u : Unpacker) (bytes : List ℕ) where
  -- Bytes written as they are, such as a digest or a map chunk, are read back by their number.
  pub next_raw_back :
      (xs : List ℕ)
      → Holds u (xs ++ bytes)
      → next_raw (pos (length xs)) u ≡ (ok xs, advance (length xs) u)
  unfolding next_raw
  next_raw_back xs h = ground (
    arith,
    ap (take (length xs)) h.left ∙ take-append_self xs bytes,
    Holds-length u (xs ++ bytes) h,
    length-append xs bytes,
  )

  pub next_byte_back : (b : ℕ) → Holds u (b ∷ bytes) → next_byte u ≡ (ok b, advance 1 u)
  unfolding next_byte
  next_byte_back b h = ground (
    arith,
    Holds-length u (b ∷ bytes) h,
    get_or-drop u.data_bytes u.idx,
    ap (λ t. get_or t 0 0) h.left,
  )

  -- A packed string is read back sanitized, and what follows its NUL is left.
  pub next_string_back :
      (flags : ℕ) (s : List ℕ)
      → NoNul s
      → Holds u (pack_string s ++ bytes)
      → (next_string_sanitized flags u ≡ (ok (sanitize flags s), advance (length s + 1) u))
        × Holds (advance (length s + 1) u) bytes
  unfolding next_string_sanitized pack_string take_string
  next_string_back flags s hs h =
      let split : remaining_data u ≡ s ++ 0 ∷ bytes = h.left ∙ append_assoc s (0 ∷ []) bytes in
      (
        ap (λ o. take_string flags o u) (ap index_nul split ∙ index_nul-append s bytes hs)
            ∙ ap (λ t. (ok (sanitize flags t), advance (length s + 1) u))
                (ap (take (length s)) split ∙ take-append_self s (0 ∷ bytes)),
        rw (length-append s (0 ∷ [])) at (Holds-advance u (s ++ 0 ∷ []) bytes h),
      )

clamp32_fits : (v : ℤ) → IsInt32 (clamp32 v) × (IsInt32 v → clamp32 v ≡ v)
unfolding clamp32
clamp32_fits (pos n) = (ground arith, ground arith)
clamp32_fits (negsuc n) = (ground arith, ground arith)

-- The 32-bit integer that is nearest to an integer.
abbrev pub nearest : ℤ → ℤ
nearest (pos n) = pos (min n (2 ^ 31 - 1))
nearest (negsuc n) = negsuc (min n (2 ^ 31 - 1))

clamp32-nearest : (v : ℤ) → clamp32 v ≡ nearest v
unfolding clamp32
clamp32-nearest (pos n) = ground arith
clamp32-nearest (negsuc n) = ground arith

-- The message ids whose packed word fits 32 bits.
abbrev pub IsMsgId : ℤ → Type 0
IsMsgId v = (pos_part v < 2 ^ 30) × (neg_part v ≤ 2 ^ 30)

pub msg_id_word_back :
    (id : ℤ) (system : Bool)
    → IsMsgId id
    → IsInt32 (msg_id_word id system)
      × (shr_ℤ (msg_id_word id system) 1 ≡ id)
      × (not (low_bits_ℤ (msg_id_word id system) 1 == 0) ≡ system)
unfolding msg_id_word
msg_id_word_back (pos n) true h = (ground arith, ground arith, ground arith)
msg_id_word_back (pos n) false h = (ground arith, ground arith, ground arith)
msg_id_word_back (negsuc n) true h = (ground arith, ground arith, ground arith)
msg_id_word_back (negsuc n) false h = (ground arith, ground arith, ground arith)

accept_int_pos :
    (v : ℤ) (k : ℕ) (u : Unpacker) → 0 < k → accept_int v (pos k) u ≡ (ok v, advance k u)
unfolding accept_int
accept_int_pos v zero u h = absurd (omega arith)
accept_int_pos v (suc k) u h = refl

module _ (vi : Varint) where
  -- The bytes of `AppendInt`, after the clamp.
  abbrev pub int_bytes : ℤ → List ℕ
  int_bytes v = append_int vi [] v

  module _ (u : Unpacker) (bytes : List ℕ) where
    -- Every integer is read back clamped, and what follows it is left.
    pub next_int_back :
        (v : ℤ)
        → Holds u (int_bytes v ++ bytes)
        → (next_int vi u ≡ (ok (clamp32 v), advance (length (int_bytes v)) u))
          × Holds (advance (length (int_bytes v)) u) bytes
    unfolding next_int append_int
    next_int_back v h =
        let read : vi.decode (remaining_data u) ≡ (clamp32 v, pos (length (int_bytes v))) =
          ap vi.decode h.left ∙ vi.decode-append_to (clamp32 v) bytes (clamp32_fits v).0 in
        (
          ground (
            arith,
            read,
            accept_int_pos (clamp32 v) (length (int_bytes v)) u,
            Holds-length u (int_bytes v ++ bytes) h,
            length-append (int_bytes v) bytes,
            vi.encoding_nonempty (clamp32 v),
          ),
          Holds-advance u (int_bytes v) bytes h,
        )

    -- Every packed integer is read back as the nearest 32-bit integer, and what follows it is left.
    pub next_int-nearest :
        (v : ℤ)
        → Holds u (int_bytes v ++ bytes)
        → (next_int vi u ≡ (ok (nearest v), advance (length (int_bytes v)) u))
          × Holds (advance (length (int_bytes v)) u) bytes
    next_int-nearest v h =
        let (read, left) = next_int_back v h in
        (read ∙ ap (λ t. (ok t, advance (length (int_bytes v)) u)) (clamp32-nearest v), left)

    -- The word of a message id of 31 bits is read back.
    pub next_word_back :
        (id : ℤ) (system : Bool)
        → IsMsgId id
        → Holds u (pack_msg_id vi id system ++ bytes)
        → (next_int vi u
            ≡ (ok (msg_id_word id system), advance (length (pack_msg_id vi id system)) u))
          × Holds (advance (length (pack_msg_id vi id system)) u) bytes
    unfolding pack_msg_id append_msg_id
    next_word_back id system h holds =
        let word = msg_id_word id system in
        let (read, left) = next_int_back word holds in
        (
          read
              ∙ ap (λ t. (ok t, advance (length (int_bytes word)) u))
                  ((clamp32_fits word).1 (msg_id_word_back id system h).0),
          left,
        )

    -- A message id of 31 bits and its system flag are read back as they were packed.
    pub next_msg_and_sys_back :
        (id : ℤ) (system : Bool)
        → IsMsgId id
        → Holds u (pack_msg_id vi id system ++ bytes)
        → (next_msg_and_sys vi u ≡ (ok (id, system), advance (length (pack_msg_id vi id system)) u))
          × Holds (advance (length (pack_msg_id vi id system)) u) bytes
    unfolding next_msg_and_sys pack_msg_id append_msg_id
    next_msg_and_sys_back id system h holds =
        let word = msg_id_word id system in
        let facts = msg_id_word_back id system h in
        let (read, left) = next_int_back word holds in
        (rw (read, (clamp32_fits word).1 facts.0, facts.1, facts.2), left)

  -- What is left of the reading of a 32-bit integer.
  pub next_int_exact :
      (v : ℤ) (u : Unpacker) (bytes : List ℕ)
      → IsInt32 v
      → Holds u (int_bytes v ++ bytes)
      → (next_int vi u ≡ (ok v, advance (length (int_bytes v)) u))
        × Holds (advance (length (int_bytes v)) u) bytes
  next_int_exact v u bytes h holds =
      let (read, left) = next_int_back u bytes v holds in
      (read ∙ ap (λ t. (ok t, advance (length (int_bytes v)) u)) ((clamp32_fits v).1 h), left)

  pub length-int_bytes : (v : ℤ) → length (int_bytes v) ≡ length (vi.append_to [] (clamp32 v))
  unfolding append_int
  length-int_bytes v = refl
