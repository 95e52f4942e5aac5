-- ===== src/Samples/Integers.antt =====
-- A concrete variable-length integer: six bits and the sign in the first byte, seven bits in each
-- byte that follows, and bit 7 where another byte comes. It stands for the package varint wherever
-- a theorem is applied to one.
use mathlib.Core.Path.{ap₂}
use twclient.Prelude.{
  lt→ltb, ℕ, zero, suc, ◌+◌, ◌*◌, ◌^◌, ◌-◌, ◌/◌, ◌%◌, ◌≤◌, ◌<◌, ◌≡◌, refl, ap, ◌∙◌, arith, List, [],
  ◌∷◌, ◌++◌, length, false, ltb, if◌then◌else◌, Option, none, some,
}
use twclient.Prelude.Int.{pos_part, ℤ, pos, negsuc, IsInt32}
use twclient.Packer.Varint.{Varint}

abbrev value_of : Option (ℕ × ℕ) → ℕ
value_of none = 0
value_of (some (v, n)) = v

abbrev count_of : Option (ℕ × ℕ) → ℕ
count_of none = 0
count_of (some (v, n)) = n

abbrev more : ℕ → Option (ℕ × ℕ) → Option (ℕ × ℕ)
more b none = none
more b (some (v, n)) = some (b - 128 + 128 * v, suc n)

unfoldable pub read_groups : ℕ → List ℕ → Option (ℕ × ℕ)
read_groups f [] = none
read_groups zero (b ∷ bytes) = some (b, 1)
read_groups (suc f) (b ∷ bytes) =
    let rest = read_groups f bytes in if ltb b 128 then some (b, 1) else more b rest

unfoldable pub write_groups : ℕ → ℕ → List ℕ
write_groups zero m = m ∷ []
write_groups (suc f) m =
    let rest = write_groups f (m / 128) in if ltb m 128 then m ∷ [] else (m % 128 + 128) ∷ rest

abbrev cap : ℕ → ℕ
cap zero = 128
cap (suc f) = 128 * cap f

more_back :
    (m n : ℕ) (r : Option (ℕ × ℕ))
    → r ≡ some (m / 128, n)
    → more (m % 128 + 128) r ≡ some (m, suc n)
more_back m n r e = ap (more (m % 128 + 128)) e ∙ ap (λ v. some (v, suc n)) (omega arith)

groups_back :
    (f m : ℕ) (rest : List ℕ)
    → m < cap f
    → read_groups f (write_groups f m ++ rest) ≡ some (m, length (write_groups f m))
unfolding read_groups write_groups
groups_back zero m rest h = refl
groups_back (suc f) m rest h = ground (
  arith,
  more_back m (length (write_groups f (m / 128))) (read_groups f (write_groups f (m / 128) ++ rest))
      (groups_back f (m / 128) rest (omega arith)),
)

more_count : (b k : ℕ) (r : Option (ℕ × ℕ)) → count_of r ≤ k → count_of (more b r) ≤ suc k
more_count b k none h = omega arith
more_count b k (some (v, n)) h = omega (arith, h)

groups_count : (f : ℕ) (bytes : List ℕ) → count_of (read_groups f bytes) ≤ length bytes
unfolding read_groups
groups_count f [] = omega arith
groups_count zero (b ∷ bytes) = omega arith
groups_count (suc f) (b ∷ bytes) =
    ground (arith, more_count b (length bytes) (read_groups f bytes) (groups_count f bytes))

abbrev signed : ℕ → ℕ → ℤ
signed zero m = pos m
signed (suc _) m = negsuc m

abbrev magnitude : ℤ → ℕ
magnitude (pos n) = n
magnitude (negsuc n) = n

abbrev sign : ℤ → ℕ
sign (pos n) = 0
sign (negsuc n) = 1

abbrev with_first : ℕ → Option (ℕ × ℕ) → ℤ × ℤ
with_first b none = (pos 0, pos 0)
with_first b (some (v, n)) = (signed (b / 64 % 2) (b % 64 + 64 * v), pos (suc n))

unfoldable pub read : List ℕ → ℤ × ℤ
read [] = (pos 0, pos 0)
read (b ∷ bytes) =
    if ltb b 128 then (signed (b / 64 % 2) (b % 64), pos 1) else with_first b (read_groups 3 bytes)

unfoldable pub write : ℤ → List ℕ
write v =
    if ltb (magnitude v) 64
    then (magnitude v + 64 * sign v) ∷ []
    else (magnitude v % 64 + 64 * sign v + 128) ∷ write_groups 3 (magnitude v / 64)

signed_back : (v : ℤ) → signed (sign v) (magnitude v) ≡ v
signed_back (pos n) = refl
signed_back (negsuc n) = refl

signed_at : (v : ℤ) (s m : ℕ) → s ≡ sign v → m ≡ magnitude v → signed s m ≡ v
signed_at v s m hs hm = ap₂ signed hs hm ∙ signed_back v

sign-le : (v : ℤ) → sign v ≤ 1
sign-le (pos n) = omega arith
sign-le (negsuc n) = omega arith

magnitude_bound : (v : ℤ) → IsInt32 v → magnitude v < 2 ^ 31
magnitude_bound (pos n) h = ground (arith, h)
magnitude_bound (negsuc n) h = ground (arith, h)

not_below : (m : ℕ) → 128 ≤ m → ltb m 128 ≡ false
not_below m h = ground arith

read_short :
    (v : ℤ) (rest : List ℕ)
    → magnitude v < 64
    → read ((magnitude v + 64 * sign v) ∷ rest) ≡ (v, pos 1)
unfolding read
read_short v rest h = rw (lt→ltb (magnitude v + 64 * sign v) 128 (omega (arith, sign-le v))) (
    ap (λ (z : ℤ). (z, pos 1))
      (signed_at v ((magnitude v + 64 * sign v) / 64 % 2) ((magnitude v + 64 * sign v) % 64)
        (omega (arith, sign-le v)) (omega (arith, sign-le v))))

read_long :
    (v : ℤ) (rest : List ℕ) (n : ℕ)
    → read_groups 3 rest ≡ some (magnitude v / 64, n)
    → read ((magnitude v % 64 + 64 * sign v + 128) ∷ rest) ≡ (v, pos (suc n))
unfolding read
read_long v rest n e = rw (not_below (magnitude v % 64 + 64 * sign v + 128) (omega arith)) (
    ap (with_first (magnitude v % 64 + 64 * sign v + 128)) e
    ∙ ap (λ (z : ℤ). (z, pos (suc n)))
        (signed_at v ((magnitude v % 64 + 64 * sign v + 128) / 64 % 2)
          ((magnitude v % 64 + 64 * sign v + 128) % 64 + 64 * (magnitude v / 64))
          (omega (arith, sign-le v)) (omega (arith, sign-le v))))

pub read-write :
    (v : ℤ) (rest : List ℕ) → IsInt32 v → read (write v ++ rest) ≡ (v, pos (length (write v)))
unfolding write
read-write v rest h = ground (
  arith,
  read_short v rest,
  read_long v (write_groups 3 (magnitude v / 64) ++ rest)
      (length (write_groups 3 (magnitude v / 64)))
      (groups_back 3 (magnitude v / 64) rest (omega (arith, magnitude_bound v h))),
)

pub write-nonempty : (v : ℤ) → 0 < length (write v)
unfolding write
write-nonempty v = ground arith

with_first_count :
    (b k : ℕ) (r : Option (ℕ × ℕ)) → count_of r ≤ k → pos_part (with_first b r).1 ≤ suc k
with_first_count b k none h = omega arith
with_first_count b k (some (v, n)) h = omega (arith, h)

read_count : (bytes : List ℕ) → pos_part (read bytes).1 ≤ length bytes
unfolding read
read_count [] = omega arith
read_count (b ∷ bytes) =
    ground (arith, with_first_count b (length bytes) (read_groups 3 bytes) (groups_count 3 bytes))

pub read-bounds : (bytes : List ℕ) (v : ℤ) (n : ℕ) → read bytes ≡ (v, pos n) → n ≤ length bytes
read-bounds bytes v n e = omega (arith, read_count bytes, ap (λ (r : ℤ × ℤ). pos_part r.1) e)

-- The instance.
abbrev pub sample_varint : Varint
sample_varint = record {
  decode = read;
  append_to = λ dst v. dst ++ write v;
  decode_bounds = read-bounds;
  append_to_dst = λ dst v. refl;
  encoding_nonempty = write-nonempty;
  decode-append_to = read-write;
}
