-- ===== src/Packet/Ack.antt =====
-- `CountVitalChunks` of packet/helpers.go: the acknowledgement counter of a connection after the
-- chunks of one packet.
pub mod Wire
use twclient.Prelude.{
  ℕ, zero, suc, ◌+◌, ◌-◌, ◌*◌, ◌/◌, ◌%◌, ◌^◌, ◌≤◌, ◌<◌, ◌≡◌, refl, arith, bit_and, bit_or,
}
use twclient.Prelude.{
  List, [], ◌∷◌, length, get_or, Bool, true, false, not, ◌&&◌, ltb, leb, ◌==◌, if◌then◌else◌,
}
use twclient.Prelude.Bits.{and_not}
use twclient.Packet.Chunk.{size_low_mask}

abbrev pub max_sequence : ℕ
max_sequence = 1024

-- `flagBits&1 != 0`
abbrev pub is_vital : ℕ → Bool
is_vital b0 = not (bit_and (bit_and (b0 / 64) 0x03) 1 == 0)

-- The size field of the header in the bytes `b0` and `b1`.
abbrev pub size_field : ℕ → ℕ → ℕ → ℕ
size_field split b0 b1 = bit_or (bit_and b0 0x3f * 2 ^ split) (bit_and b1 (size_low_mask split))

-- The ack counter moves only to the sequence number that comes next.
unfoldable pub next_ack : ℕ → ℕ → ℕ
next_ack ack seq = if seq == (ack + 1) % max_sequence then seq else ack

-- One header at `offset`: the new ack counter.
unfoldable pub step_ack : ℕ → List ℕ → ℕ → ℕ → ℕ
unfolding and_not
step_ack split payload offset ack =
    let b1 = get_or payload (offset + 1) 0 in
    if is_vital (get_or payload offset 0) && leb (offset + 3) (length payload)
    then next_ack ack (
        bit_or (bit_and (and_not b1 (size_low_mask split)) 0xff * 4)
          (get_or payload (offset + 2) 0))
    else ack

unfoldable pub step_offset : ℕ → List ℕ → ℕ → ℕ
step_offset split payload offset =
    let b0 = get_or payload offset 0 in
    offset + ((if is_vital b0 then 3 else 2) + size_field split b0 (get_or payload (offset + 1) 0))

-- The loop; the first argument is the number of rounds left of `numChunks`.
unfoldable pub count_loop : ℕ → ℕ → List ℕ → ℕ → ℕ → ℕ
count_loop zero split payload offset ack = ack
count_loop (suc n) split payload offset ack =
    let more =
      count_loop n split payload (step_offset split payload offset)
        (step_ack split payload offset ack) in
    if ltb offset (length payload) && leb (offset + 2) (length payload) then more else ack

unfoldable pub count_vital_chunks : List ℕ → ℕ → ℕ → ℕ → ℕ
count_vital_chunks payload num_chunks current_ack split =
    count_loop num_chunks split payload 0 current_ack
