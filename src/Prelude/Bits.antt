-- ===== src/Prelude/Bits.antt =====
-- `bit_and` and `bit_or` with the masks of the wire formats, as arithmetic. Each fact is about a
-- small range of numbers and is checked by evaluation on all of it.
use Prim.Native.Nat.{
  digits, min, bit_and-bitwise, ℕ, zero, suc, ◌+◌, ◌-◌, ◌*◌, ◌/◌, ◌%◌, ◌≤◌, ◌<◌, bit_and, bit_or,
}
use mathlib.Core.Path.{◌≡◌, refl}
use mathlib.Core.Bool.{Bool, true, false, not}
use native.Mathlib.Omega.{arith}
use twclient.Prelude.Tests.{◌==◌, if◌then◌else◌}

-- `x & ^m`: the bits of `x` that `m` does not have.
unfoldable pub and_not : ℕ → ℕ → ℕ
and_not x m = x - bit_and x m

-- Two functions have the same values at 0, …, n - 1.
module _ (f g : ℕ → ℕ) where
  same_below : ℕ → Bool
  same_below zero = true
  same_below (suc n) = if f n == g n then same_below n else false

  agree : (n : ℕ) → same_below n ≡ true → (x : ℕ) → x < n → f x ≡ g x
  unfolding same_below
  agree zero e x h = absurd (omega (arith, h))
  agree (suc n) e x h =
      let below : same_below n ≡ true → x < n → f x ≡ g x = λ t lt. agree n t x lt in
      ground (arith, below, e)

pub and_03 : (x : ℕ) → x < 256 → bit_and x 0x03 ≡ x % 4
unfolding same_below
and_03 = agree (λ x. bit_and x 0x03) (λ x. x % 4) 256 refl

pub and_3f : (x : ℕ) → x < 256 → bit_and x 0x3f ≡ x % 64
unfolding same_below
and_3f = agree (λ x. bit_and x 0x3f) (λ x. x % 64) 256 refl

pub and_40 : (x : ℕ) → x < 256 → bit_and x 0x40 ≡ x / 64 % 2 * 64
unfolding same_below
and_40 = agree (λ x. bit_and x 0x40) (λ x. x / 64 % 2 * 64) 256 refl

pub and_0f : (x : ℕ) → x < 4096 → bit_and x 0x0f ≡ x % 16
unfolding same_below
and_0f = agree (λ x. bit_and x 0x0f) (λ x. x % 16) 4096 refl

pub and_3f_wide : (x : ℕ) → x < 4096 → bit_and x 0x3f ≡ x % 64
unfolding same_below
and_3f_wide = agree (λ x. bit_and x 0x3f) (λ x. x % 64) 4096 refl

pub and_fc : (x : ℕ) → x < 256 → bit_and x 0xfc ≡ x / 4 * 4
unfolding same_below
and_fc = agree (λ x. bit_and x 0xfc) (λ x. x / 4 * 4) 256 refl

-- A byte is the `|` of its top bits and its low bits.
pub or_high2 : (x : ℕ) → x < 256 → bit_or (x / 64 * 64) (x % 64) ≡ x
unfolding same_below
or_high2 = agree (λ x. bit_or (x / 64 * 64) (x % 64)) (λ x. x) 256 refl

pub or_low4 : (x : ℕ) → x < 256 → bit_or (x % 16) (x / 16 * 16) ≡ x
unfolding same_below
or_low4 = agree (λ x. bit_or (x % 16) (x / 16 * 16)) (λ x. x) 256 refl

pub or_low6 : (x : ℕ) → x < 256 → bit_or (x % 64) (x / 64 * 64) ≡ x
unfolding same_below
or_low6 = agree (λ x. bit_or (x % 64) (x / 64 * 64)) (λ x. x) 256 refl

pub or_high6 : (x : ℕ) → x < 256 → bit_or (x / 4 * 4) (x % 4) ≡ x
unfolding same_below
or_high6 = agree (λ x. bit_or (x / 4 * 4) (x % 4)) (λ x. x) 256 refl

pub or_30 : (x : ℕ) → bit_or (x % 16) 0x30 ≡ 0x30 + x % 16
unfolding same_below
or_30 x = agree (λ y. bit_or y 0x30) (λ y. 0x30 + y) 16 refl (x % 16) (omega arith)

pub or_80 : (x : ℕ) → bit_or (x % 64) 0x80 ≡ 0x80 + x % 64
unfolding same_below
or_80 x = agree (λ y. bit_or y 0x80) (λ y. 0x80 + y) 64 refl (x % 64) (omega arith)

-- The bits 6 to 9 and the bits 0 to 7 of a sequence number, which overlap.
pub or_seq : (x : ℕ) → x < 1024 → bit_or (x / 64 * 64) (x % 256) ≡ x
unfolding same_below
or_seq = agree (λ x. bit_or (x / 64 * 64) (x % 256)) (λ x. x) 1024 refl

-- The bits 8 and 9 and the bits 0 to 7.
pub or_ack : (x : ℕ) → x < 1024 → bit_or (x / 256 * 256) (x % 256) ≡ x
unfolding same_below
or_ack = agree (λ x. bit_or (x / 256 * 256) (x % 256)) (λ x. x) 1024 refl

pub or_size4 : (x : ℕ) → x < 1024 → bit_or (x / 16 * 16) (x % 16) ≡ x
unfolding same_below
or_size4 = agree (λ x. bit_or (x / 16 * 16) (x % 16)) (λ x. x) 1024 refl

pub or_size6 : (x : ℕ) → x < 4096 → bit_or (x / 64 * 64) (x % 64) ≡ x
unfolding same_below
or_size6 = agree (λ x. bit_or (x / 64 * 64) (x % 64)) (λ x. x) 4096 refl

pub and_ff : (x : ℕ) → x < 4096 → bit_and x 0xff ≡ x % 256
unfolding same_below
and_ff = agree (λ x. bit_and x 0xff) (λ x. x % 256) 4096 refl

pub and_bit1 : (x : ℕ) → x < 256 → bit_and x 1 ≡ x / 1 % 2 * 1
unfolding same_below
and_bit1 = agree (λ x. bit_and x 1) (λ x. x / 1 % 2 * 1) 256 refl

pub and_bit2 : (x : ℕ) → x < 256 → bit_and x 2 ≡ x / 2 % 2 * 2
unfolding same_below
and_bit2 = agree (λ x. bit_and x 2) (λ x. x / 2 % 2 * 2) 256 refl

pub and_bit4 : (x : ℕ) → x < 256 → bit_and x 4 ≡ x / 4 % 2 * 4
unfolding same_below
and_bit4 = agree (λ x. bit_and x 4) (λ x. x / 4 % 2 * 4) 256 refl

pub and_bit8 : (x : ℕ) → x < 256 → bit_and x 8 ≡ x / 8 % 2 * 8
unfolding same_below
and_bit8 = agree (λ x. bit_and x 8) (λ x. x / 8 % 2 * 8) 256 refl

pub and_bit16 : (x : ℕ) → x < 256 → bit_and x 16 ≡ x / 16 % 2 * 16
unfolding same_below
and_bit16 = agree (λ x. bit_and x 16) (λ x. x / 16 % 2 * 16) 256 refl

pub and_bit32 : (x : ℕ) → x < 256 → bit_and x 32 ≡ x / 32 % 2 * 32
unfolding same_below
and_bit32 = agree (λ x. bit_and x 32) (λ x. x / 32 % 2 * 32) 256 refl

pub and_bit64 : (x : ℕ) → x < 256 → bit_and x 64 ≡ x / 64 % 2 * 64
unfolding same_below
and_bit64 = agree (λ x. bit_and x 64) (λ x. x / 64 % 2 * 64) 256 refl

pub and_bit128 : (x : ℕ) → x < 256 → bit_and x 128 ≡ x / 128 % 2 * 128
unfolding same_below
and_bit128 = agree (λ x. bit_and x 128) (λ x. x / 128 % 2 * 128) 256 refl

-- A flag as a bit.
unfoldable pub bit : Bool → ℕ
bit true = 1
bit false = 0

pub bit-le : (b : Bool) → bit b ≤ 1
unfolding bit
bit-le true = omega arith
bit-le false = omega arith

-- The test `x&k != 0` on a masked bit gives the flag back.
pub bit_test : (b : Bool) (x k : ℕ) → x ≡ bit b → 0 < k → not (x * k == 0) ≡ b
unfolding bit
bit_test true x k e h = ground arith
bit_test false x k e h = ground arith

and_digits-le : (n a b : ℕ) → digits (λ b. 0) min n a b ≤ b
and_digits-le zero a b = omega arith
and_digits-le (suc n) zero b = omega arith
and_digits-le (suc n) (suc a) b = omega (arith, and_digits-le n (suc a / 2) (b / 2))

pub bit_and-le : (a b : ℕ) → bit_and a b ≤ b
bit_and-le a b = omega (arith, bit_and-bitwise a b, and_digits-le a a b)

pub and_1f : (x : ℕ) → x < 32 → bit_and x 0x1f ≡ x
unfolding same_below
and_1f = agree (λ x. bit_and x 0x1f) (λ x. x) 32 refl
