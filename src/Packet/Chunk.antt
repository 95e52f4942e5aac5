-- ===== src/Packet/Chunk.antt =====
-- packet/chunk.go: chunk headers, and the splitting of a packet payload into chunks. `split` is 4
-- for protocol 0.6 and 6 for 0.7. Sizes and sequence numbers are never negative.
pub mod Fields
pub mod RoundTrip
pub mod Agreement
use twclient.Prelude.{ℕ, zero, suc, ◌+◌, ◌-◌, ◌*◌, ◌/◌, ◌%◌, ◌^◌, bit_and, bit_or}
use twclient.Prelude.{List, [], ◌∷◌, ◌++◌, length, get_or, Bool, true, false, not, ◌||◌, ltb, ◌==◌}
use twclient.Prelude.{if◌then◌else◌, Option, none, some}
use twclient.Prelude.Int.{pos}
use twclient.Prelude.Bits.{and_not}
use twclient.Packer.Reader.{Unpacker, Read, Result, ok, err, continue, ◌>>=◌, pure}
use twclient.Packer.Unpack.{new_unpacker, remaining_size, rest, next_byte, next_raw}

pub record ChunkFlags : Type 0 where
  pub vital : Bool
  pub resend : Bool

pub record ChunkHeader : Type 0 where
  pub flags : ChunkFlags
  pub size : ℕ
  pub seq : ℕ

pub record Chunk : Type 0 where
  pub header : ChunkHeader
  pub payload : List ℕ

abbrev pub flag_bits : ChunkFlags → ℕ
flag_bits f = let v = if f.resend then bit_or 0 2 else 0 in if f.vital then bit_or v 1 else v

unfoldable pub header_size : ChunkHeader → ℕ
header_size h = if h.flags.vital then 3 else 2

-- `(1 << split) - 1`
abbrev pub size_low_mask : ℕ → ℕ
size_low_mask split = 2 ^ split - 1

unfoldable pub pack_byte0 : ℕ → ChunkHeader → ℕ
pack_byte0 split h =
    bit_or (bit_and (flag_bits h.flags) 0x03 * 64 % 256) (bit_and (h.size / 2 ^ split) 0x3f % 256)

unfoldable pub pack_byte1 : ℕ → ChunkHeader → ℕ
unfolding and_not
pack_byte1 split h =
    let low = bit_and h.size (size_low_mask split) % 256 in
    if h.flags.vital
    then bit_or low (bit_and (and_not (h.seq / 4) (size_low_mask split)) 0xff % 256)
    else low

unfoldable pub pack : ℕ → ChunkHeader → List ℕ
unfolding pack_byte0 pack_byte1
pack split h =
    if h.flags.vital
    then pack_byte0 split h ∷ pack_byte1 split h ∷ (bit_and h.seq 0xff % 256) ∷ []
    else pack_byte0 split h ∷ pack_byte1 split h ∷ []

-- `flagBits := (raw[0] >> 6) & 0x03`, and what is read from it.
unfoldable pub read_flags : ℕ → ChunkFlags
read_flags b0 =
    let bits = bit_and (b0 / 64) 0x03 in
    record { vital = not (bit_and bits 1 == 0); resend = not (bit_and bits 2 == 0) }

unfoldable pub read_size : ℕ → ℕ → ℕ → ℕ
read_size split b0 b1 = bit_or (bit_and b0 0x3f * 2 ^ split) (bit_and b1 (size_low_mask split))

unfoldable pub read_seq : ℕ → ℕ → ℕ → ℕ
unfolding and_not
read_seq split b1 b2 = bit_or (bit_and (and_not b1 (size_low_mask split)) 0xff * 4) b2

-- `Unpack` on a fresh header.
unfoldable pub unpack : ℕ → Read ChunkHeader
unpack split = do
  raw ← next_raw (pos 2)
  let flags = read_flags (get_or raw 0 0)
  let size = read_size split (get_or raw 0 0) (get_or raw 1 0)
  if flags.vital
      then (do
        b ← next_byte
        pure (record { flags = flags; size = size; seq = read_seq split (get_or raw 1 0) b }))
      else pure (record { flags = flags; size = size; seq = 0 })

-- `UnpackRaw` on a fresh header; `none` is an error.
unfoldable pub unpack_raw : ℕ → List ℕ → Option ChunkHeader
unpack_raw split bytes =
    let b0 = get_or bytes 0 0 in
    let b1 = get_or bytes 1 0 in
    let flags = read_flags b0 in
    let size = read_size split b0 b1 in
    if ltb (length bytes) 2
    then none
    else if flags.vital
    then if ltb (length bytes) 3
      then none
      else some (record { flags = flags; size = size; seq = read_seq split b1 (get_or bytes 2 0) })
    else some (record { flags = flags; size = size; seq = 0 })

-- The rest of the packet, where the size in the header is none: the last chunk, unless it is empty.
unfoldable pub last_chunk : ChunkHeader → List ℕ × Unpacker → List Chunk
last_chunk h (left, u) =
    if ltb 0 (length left) then record { header = h; payload = left } ∷ [] else []

unfoldable pub chunk_then :
    ChunkHeader → Result (List ℕ) × Unpacker → (Unpacker → List Chunk) → List Chunk
chunk_then h (err e, u) more = []
chunk_then h (ok bytes, u) more = record { header = h; payload = bytes } ∷ more u

unfoldable pub header_then : Result ChunkHeader × Unpacker → (Unpacker → List Chunk) → List Chunk
unfolding last_chunk chunk_then
header_then (err e, u) more = []
header_then (ok h, u) more =
    if h.size == 0 || ltb (remaining_size u) h.size
    then last_chunk h (rest u)
    else chunk_then h (next_raw (pos h.size) u) more

-- The loop of `UnpackChunks`; its result is the chunks that are still appended.
unfoldable pub unpack_loop : ℕ → ℕ → Unpacker → List Chunk
unpack_loop split zero u = []
unpack_loop split (suc fuel) u =
    if ltb 0 (remaining_size u) then header_then (unpack split u) (unpack_loop split fuel) else []

-- Each round takes two bytes at least, so the payload's length is fuel enough.
unfoldable pub unpack_chunks : ℕ → List ℕ → List Chunk
unpack_chunks split payload = unpack_loop split (length payload) (new_unpacker payload)
