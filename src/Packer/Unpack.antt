-- ===== src/Packer/Unpack.antt =====
-- The methods of `Unpacker` in packer/packer.go. `u.data[u.idx:]` is `remaining_data u`; a slice
-- past the end would panic in Go, which Packer/Bounds excludes but for `NextRaw` with a size that is
-- not of 32 bits.
use twclient.Prelude.{ℕ, zero, suc, ◌+◌, ◌-◌, ◌^◌, List, [], ◌∷◌, length, take, drop, get_or, ltb}
use twclient.Prelude.{Bool, not, ◌==◌, if◌then◌else◌, Option, none, some}
use twclient.Prelude.Int.{ℤ, pos, negsuc, shr_ℤ, low_bits_ℤ}
use twclient.Packer.Varint.{Varint}
use twclient.Packer.Reader.{Unpacker, Read, Result, ok, err, ◌>>=◌, pure}
use twclient.Packer.Reader.{
  no_byte, negative_size, short_raw, slice_panic, no_int, bad_int, unterminated,
}
use twclient.Packer.Sanitize.{sanitize, sanitize_default}

-- `NewUnpacker`, `Reset` and `ResetView`: they differ only in who owns the bytes.
unfoldable pub new_unpacker : List ℕ → Unpacker
new_unpacker bytes = record { data_bytes = bytes; idx = 0 }

abbrev pub remaining_size : Unpacker → ℕ
remaining_size u = length u.data_bytes - u.idx

abbrev pub remaining_data : Unpacker → List ℕ
remaining_data u = drop u.idx u.data_bytes

abbrev pub advance : ℕ → Unpacker → Unpacker
advance n u = record u { idx = u.idx + n }

unfoldable pub rest : Unpacker → List ℕ × Unpacker
rest u = (remaining_data u, record u { idx = length u.data_bytes })

unfoldable pub next_byte : Read ℕ
next_byte u =
    if ltb (remaining_size u) 1
    then (err no_byte, u)
    else (ok (get_or u.data_bytes u.idx 0), advance 1 u)

-- `u.data[u.idx : u.idx+size]`. An `int` has 64 bits: a sum from 2^63 on wraps to a negative one, so
-- it is not above the length, and the slice panics. The length itself is below 2^63.
unfoldable pub next_raw : ℤ → Read (List ℕ)
next_raw (negsuc _) u = (err negative_size, u)
next_raw (pos size) u =
    if ltb (length u.data_bytes) (u.idx + size)
    then (if ltb (u.idx + size) (2 ^ 63) then (err short_raw, u) else (err slice_panic, u))
    else (ok (take size (remaining_data u)), advance size u)

-- `bytes.IndexByte(rem, 0)`
unfoldable pub index_nul : List ℕ → Option ℕ
index_nul [] = none
index_nul (b ∷ bs) =
    if b == 0 then some 0 else elim (index_nul bs) [ none ↦ none | some i ↦ some (suc i) ]

unfoldable pub take_string : ℕ → Option ℕ → Read (List ℕ)
take_string flags none u = (err unterminated, u)
take_string flags (some nul) u =
    (ok (sanitize flags (take nul (remaining_data u))), advance (nul + 1) u)

unfoldable pub next_string_sanitized : ℕ → Read (List ℕ)
unfolding take_string
next_string_sanitized flags u = take_string flags (index_nul (remaining_data u)) u

unfoldable pub next_string : Read (List ℕ)
next_string = next_string_sanitized sanitize_default

-- What `NextInt` does with the pair that `varint.Varint` returns.
unfoldable pub accept_int : ℤ → ℤ → Read ℤ
accept_int val (pos (suc n)) u = (ok val, advance (suc n) u)
accept_int val (pos zero) u = (err bad_int, u)
accept_int val (negsuc _) u = (err bad_int, u)

module _ (vi : Varint) where
  unfoldable pub next_int : Read ℤ
  unfolding accept_int
  next_int u =
      if ltb (remaining_size u) 1
      then (err no_int, u)
      else let (val, n) = vi.decode (remaining_data u) in accept_int val n u

  unfoldable pub next_msg_and_sys : Read (ℤ × Bool)
  next_msg_and_sys = do raw ← next_int; pure (shr_ℤ raw 1, not (low_bits_ℤ raw 1 == 0))

  -- `UnpackInt`: the same, on a slice.
  unfoldable pub unpack_int : List ℕ → Result ℤ
  unfolding accept_int new_unpacker
  unpack_int bytes = let (val, n) = vi.decode bytes in (accept_int val n (new_unpacker bytes)).0
