-- ===== src/Prelude/Int.antt =====
-- Signed integers over the native numbers. `negsuc n` is -(n + 1).
-- A Go `int` is 64 bits wide: `add64` and `sub64` wrap.
use Prim.Native.Nat.{ℕ, suc, ◌+◌, ◌-◌, ◌*◌, ◌/◌, ◌%◌, ◌^◌, ◌≤◌, ◌<◌}
use mathlib.Core.Path.{◌≡◌}
use mathlib.Core.Bool.{Bool, true, false}
use native.Mathlib.Omega.{arith}
use twclient.Prelude.Tests.{ltb, leb, if◌then◌else◌, ◌==◌}

pub data ℤ : Type 0 where
  pos : ℕ → ℤ
  negsuc : ℕ → ℤ

abbrev pub pos_part : ℤ → ℕ
pos_part (pos n) = n
pos_part (negsuc n) = 0

abbrev pub neg_part : ℤ → ℕ
neg_part (pos n) = 0
neg_part (negsuc n) = suc n

-- a - b, as an integer.
abbrev pub sub_ℕ : ℕ → ℕ → ℤ
sub_ℕ a b = if leb b a then pos (a - b) else negsuc (b - a - 1)

infixl 65 ◌+ℤ◌ ◌-ℤ◌
infix 50 ◌≤ℤ◌
unfoldable pub ◌+ℤ◌ : ℤ → ℤ → ℤ
a +ℤ b = sub_ℕ (pos_part a + pos_part b) (neg_part a + neg_part b)

unfoldable pub ◌-ℤ◌ : ℤ → ℤ → ℤ
a -ℤ b = sub_ℕ (pos_part a + neg_part b) (neg_part a + pos_part b)

abbrev pub ◌≤ℤ◌ : ℤ → ℤ → Type 0
a ≤ℤ b = pos_part a + neg_part b ≤ pos_part b + neg_part a

abbrev pub ltb_ℤ : ℤ → ℤ → Bool
ltb_ℤ a b = ltb (pos_part a + neg_part b) (pos_part b + neg_part a)

abbrev pub leb_ℤ : ℤ → ℤ → Bool
leb_ℤ a b = leb (pos_part a + neg_part b) (pos_part b + neg_part a)

abbrev pub eq_ℤ : ℤ → ℤ → Bool
eq_ℤ (pos m) (pos n) = m == n
eq_ℤ (negsuc m) (negsuc n) = m == n
eq_ℤ (pos m) (negsuc n) = false
eq_ℤ (negsuc m) (pos n) = false

pub eq_ℤ→eq : (a b : ℤ) → eq_ℤ a b ≡ true → a ≡ b
eq_ℤ→eq (pos m) (pos n) h = ground arith
eq_ℤ→eq (negsuc m) (negsuc n) h = ground arith
eq_ℤ→eq (pos m) (negsuc n) h = ground arith
eq_ℤ→eq (negsuc m) (pos n) h = ground arith

pub eq_ℤ-refl : (a : ℤ) → eq_ℤ a a ≡ true
eq_ℤ-refl (pos m) = ground arith
eq_ℤ-refl (negsuc m) = ground arith

-- `v >> k` (arithmetic shift) and `v & (2^k - 1)` of a two's complement integer.
abbrev pub shr_ℤ : ℤ → ℕ → ℤ
shr_ℤ (pos n) k = pos (n / 2 ^ k)
shr_ℤ (negsuc n) k = negsuc (n / 2 ^ k)

abbrev pub low_bits_ℤ : ℤ → ℕ → ℕ
low_bits_ℤ (pos n) k = n % 2 ^ k
low_bits_ℤ (negsuc n) k = 2 ^ k - 1 - n % 2 ^ k

-- `v << 1`, on an unbounded integer.
abbrev pub double_ℤ : ℤ → ℤ
double_ℤ (pos n) = pos (2 * n)
double_ℤ (negsuc n) = negsuc (2 * n + 1)

-- `v | 1`.
abbrev pub or_one_ℤ : ℤ → ℤ
or_one_ℤ (pos n) = pos (n / 2 * 2 + 1)
or_one_ℤ (negsuc n) = negsuc (n / 2 * 2)

-- The integer of a 64-bit pattern, and the wrap of an integer to 64 bits.
abbrev pub signed64 : ℕ → ℤ
signed64 w = if ltb w (2 ^ 63) then pos w else negsuc (2 ^ 64 - 1 - w)

abbrev pub wrap64 : ℤ → ℤ
wrap64 v = signed64 (low_bits_ℤ v 64)

abbrev pub IsInt64 : ℤ → Type 0
IsInt64 v = (pos_part v < 2 ^ 63) × (neg_part v ≤ 2 ^ 63)

abbrev pub IsInt32 : ℤ → Type 0
IsInt32 v = (pos_part v < 2 ^ 31) × (neg_part v ≤ 2 ^ 31)

unfoldable pub add64 : ℤ → ℤ → ℤ
unfolding ◌+ℤ◌
add64 a b = wrap64 (a +ℤ b)

unfoldable pub sub64 : ℤ → ℤ → ℤ
unfolding ◌-ℤ◌
sub64 a b = wrap64 (a -ℤ b)

pub add64-sub64 : (a b : ℤ) → IsInt64 a → IsInt64 b → add64 b (sub64 a b) ≡ a
unfolding add64 sub64
add64-sub64 (pos m) (pos n) ha hb = ground arith
add64-sub64 (pos m) (negsuc n) ha hb = ground arith
add64-sub64 (negsuc m) (pos n) ha hb = ground arith
add64-sub64 (negsuc m) (negsuc n) ha hb = ground arith

-- Where the true sum or difference fits 64 bits, the wrapping one is it.
pub add64-zero : (a : ℤ) → IsInt64 a → add64 (pos 0) a ≡ a
unfolding add64
add64-zero (pos m) h = ground arith
add64-zero (negsuc m) h = ground arith
