-- ===== src/Samples/Messages.antt =====
-- The scans for messages on a packet of three chunks.
use twclient.Prelude.{◌≡◌, refl, arith, inr, some, List, [], ◌∷◌, true, false}
use twclient.Prelude.Int.{pos}
use twclient.Packet.Chunk.{Chunk}
use twclient.Packet.Chunk.RoundTrip.{AllSendable, wire}
use twclient.Packet.Messages.{
  extract_sys_msg_payload, extract_all_sys_msg_payloads, contains_sys_msg, contains_game_msg,
}
use twclient.Packet.Messages.Found.{Message, Carry, extract_sys_msg_payload-wire, contains_msg-wire}
use twclient.Packer.Pack.{pack_msg_id, append_msg_id, append_int, msg_id_word, clamp32}
use twclient.Samples.Integers.{sample_varint, write}

-- System message 2 with two bytes, game message 2, and system message 2 with none.
abbrev chunks : List Chunk
chunks =
    (record {
      header = record { flags = record { vital = true; resend = false }; size = 3; seq = 9 };
      payload = 5 ∷ 70 ∷ 71 ∷ [];
    })
    ∷ (record {
      header = record { flags = record { vital = false; resend = false }; size = 1; seq = 0 };
      payload = 4 ∷ [];
    })
    ∷ (record {
      header = record { flags = record { vital = true; resend = true }; size = 1; seq = 10 };
      payload = 5 ∷ [];
    })
    ∷ []

chunks-AllSendable : AllSendable 6 chunks
chunks-AllSendable = (
  (record {
    fits = record { size_fits = omega arith; seq_fits = omega arith };
    size_right = refl;
    nonempty = omega arith;
  }),
  (
    (record {
      fits = record { size_fits = omega arith; seq_fits = omega arith };
      size_right = refl;
      nonempty = omega arith;
    }),
    (
      (record {
        fits = record { size_fits = omega arith; seq_fits = omega arith };
        size_right = refl;
        nonempty = omega arith;
      }),
      tt,
    ),
  ),
)

abbrev messages : List Message
messages =
    (record { id = pos 2; system = true; body = 70 ∷ 71 ∷ [] })
    ∷ (record { id = pos 2; system = false; body = [] })
    ∷ (record { id = pos 2; system = true; body = [] })
    ∷ []

chunks-Carry : Carry sample_varint chunks messages
unfolding pack_msg_id append_msg_id msg_id_word append_int clamp32 write
chunks-Carry = (
  refl,
  (omega arith, omega arith),
  (refl, (omega arith, omega arith), (refl, (omega arith, omega arith), tt)),
)

extract_sys_msg_payload-wire_example :
    (extract_sys_msg_payload sample_varint (wire 6 chunks) (pos 2) 6 ≡ some (70 ∷ 71 ∷ []))
    × (extract_all_sys_msg_payloads sample_varint (wire 6 chunks) (pos 2) 6 ≡ (70 ∷ 71 ∷ []) ∷ [])
extract_sys_msg_payload-wire_example =
    extract_sys_msg_payload-wire sample_varint (pos 2) 6 chunks messages (inr refl)
      chunks-AllSendable chunks-Carry

contains_msg-wire_example :
    (contains_sys_msg (wire 6 chunks) (pos 2) 6 ≡ true)
    × (contains_game_msg (wire 6 chunks) (pos 2) 6 ≡ true)
contains_msg-wire_example =
    contains_msg-wire 6 chunks 2 (inr refl) chunks-AllSendable
      (omega arith, (omega arith, (omega arith, tt))) (omega arith)
