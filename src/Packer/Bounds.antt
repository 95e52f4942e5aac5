-- ===== src/Packer/Bounds.antt =====
-- No method of `Unpacker` moves its index past the end of the data, and none touches the data.
use twclient.Prelude.{ℕ, zero, suc, ◌≤◌, ◌≡◌, refl, arith, List, [], ◌∷◌, length}
use native.Mathlib.Nat.{le_trans}
use twclient.Prelude.{◌∙◌, ◌<◌, length-drop, Option, none, some, Option-cases, inl, inr, ◌==◌}
use twclient.Prelude.{not, Bool}
use twclient.Prelude.Int.{ℤ, pos, negsuc, shr_ℤ, low_bits_ℤ}
use twclient.Packer.Varint.{Varint}
use twclient.Packer.Reader.{Unpacker, Read, Result, ok, err, continue, ◌>>=◌, pure}
use twclient.Packer.Unpack.{
  remaining_data, next_byte, next_raw, index_nul, next_string_sanitized, next_int, next_msg_and_sys,
  accept_int, take_string,
}

-- The index stays within the data.
abbrev pub InBounds : Unpacker → Type 0
InBounds u = u.idx ≤ length u.data_bytes

-- A step from `u` to `v` keeps the data and does not go back.
pub record Follows (u v : Unpacker) : Type 0 where
  pub same_data : v.data_bytes ≡ u.data_bytes
  pub onward : u.idx ≤ v.idx
  pub inside : InBounds v

-- A reader that keeps to the data, from any place inside of it.
abbrev pub Sound : {A : Type 0} → Read A → Type 0
Sound m = (u : Unpacker) → InBounds u → Follows u (m u).1

pub index_nul-lt : (bs : List ℕ) (i : ℕ) → index_nul bs ≡ some i → i < length bs
unfolding index_nul
index_nul-lt [] i h = ground arith
index_nul-lt (b ∷ bs) i h = elim (Option-cases (index_nul bs)) [
  | inl e ↦ ground arith
  | inr (j, e) ↦ ground (arith, index_nul-lt bs j e)
]

pub next_byte-Sound : Sound next_byte
unfolding next_byte
next_byte-Sound u h = ground arith

pub next_raw-Sound : (size : ℤ) → Sound (next_raw size)
unfolding next_raw
next_raw-Sound (pos n) u h = ground arith
next_raw-Sound (negsuc n) u h = ground arith

take_string-Follows :
    (flags : ℕ) (o : Option ℕ) (u : Unpacker)
    → InBounds u
    → ((i : ℕ) → o ≡ some i → i < length (remaining_data u))
    → Follows u (take_string flags o u).1
unfolding take_string
take_string-Follows flags none u h k = ground arith
take_string-Follows flags (some i) u h k = ground (arith, k i refl, length-drop u.idx u.data_bytes)

pub next_string_sanitized-Sound : (flags : ℕ) → Sound (next_string_sanitized flags)
unfolding next_string_sanitized
next_string_sanitized-Sound flags u h =
    take_string-Follows flags (index_nul (remaining_data u)) u h (index_nul-lt (remaining_data u))

accept_int-Follows :
    (val n : ℤ) (u : Unpacker)
    → InBounds u
    → ((k : ℕ) → n ≡ pos k → k ≤ length (remaining_data u))
    → Follows u (accept_int val n u).1
unfolding accept_int
accept_int-Follows val (pos zero) u h k = ground arith
accept_int-Follows val (pos (suc n)) u h k =
    ground (arith, k (suc n) refl, length-drop u.idx u.data_bytes)
accept_int-Follows val (negsuc n) u h k = ground arith

pub >>=-Sound :
    {A B : Type 0} (m : Read A) (f : A → Read B)
    → Sound m
    → ((a : A) → Sound (f a))
    → Sound (m >>= f)
>>=-Sound {A} {B} m f hm hf u h = go (m u) (hm u h)
  where
    go : (r : Result A × Unpacker) → Follows u r.1 → Follows u (continue {A = A} {B = B} r f).1
    go (ok a, v) s =
        let t = hf a v s.inside in
        record {
          same_data = t.same_data ∙ s.same_data;
          onward = le_trans s.onward t.onward;
          inside = t.inside;
        }
    go (err e, v) s = s

pub pure-Sound : {A : Type 0} (a : A) → Sound (pure a)
pure-Sound a u h = ground arith

module _ (vi : Varint) where
  pub next_int-Sound : Sound (next_int vi)
  unfolding next_int
  next_int-Sound u h = ground (
    arith,
    accept_int-Follows (vi.decode (remaining_data u)).0 (vi.decode (remaining_data u)).1 u h
        (λ k e. vi.decode_bounds (remaining_data u) (vi.decode (remaining_data u)).0 k (Σ_path' e)),
  )
    where
      Σ_path' :
          {k : ℕ}
          → (vi.decode (remaining_data u)).1 ≡ pos k
          → vi.decode (remaining_data u) ≡ ((vi.decode (remaining_data u)).0, pos k)
      Σ_path' e = λ i. ((vi.decode (remaining_data u)).0, e i)

  pub next_msg_and_sys-Sound : Sound (next_msg_and_sys vi)
  unfolding next_msg_and_sys
  next_msg_and_sys-Sound =
      >>=-Sound (next_int vi) (λ raw. pure (shr_ℤ raw 1, not (low_bits_ℤ raw 1 == 0)))
        next_int-Sound (λ raw. pure-Sound {A = ℤ × Bool} (shr_ℤ raw 1, not (low_bits_ℤ raw 1 == 0)))
