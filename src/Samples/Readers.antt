-- ===== src/Samples/Readers.antt =====
-- A reader that gets a packet with two messages, and one whose loop meets a packet that cannot be
-- read.
use twclient.Prelude.{ℕ, ◌≡◌, refl, arith, List, [], ◌∷◌, length, replicate, true, false, none}
use twclient.Prelude.Int.{◌≤ℤ◌}
use twclient.Packer.Pack.{pack_string}
use twclient.Packer.RoundTrip.{NoNul}
use twclient.Packet.Chunk.{Chunk}
use twclient.Packet.Chunk.RoundTrip.{wire, AllSendable}
use twclient.Packet.Snap.Store.{new_snap_storage}
use twclient.Network.{Failure, arrives, Conn, done}
use twclient.Net6.Messages.{split}
use twclient.Net6.Events.Decoded.{ServerMessage, says_motd, says_broadcast, sent_fields, written}
use twclient.Net6.Session.WellFormed.{IsSession}
use twclient.Net6.Reader.{Reader, send_all, process_payload}
use twclient.Net6.Reader.Loop.{Round, read_loop}
use twclient.Net6.Reader.Invariant.{read_loop-Onward}
use twclient.Net6.Reader.Delivers.{first_byte, Carry, all_events, messages_delivered}
use twclient.Samples.Integers.{sample_varint}
use twclient.Samples.Sessions.{huff, refuses, fresh, fresh-IsSession}

abbrev md5 : List ℕ → List ℕ
md5 bytes = replicate 16 7

abbrev reason_of : Failure → List ℕ
reason_of e = 101 ∷ []

abbrev reader : Reader ℕ
reader = record {
  session = fresh;
  snaps = record { storage = new_snap_storage []; scratch = []; assembly = none };
  events = [];
}

abbrev conn : Conn
conn = record { arrivals = []; sent = [] }

abbrev rounds : List Round
rounds =
    record { keep_alive_due = true; reack_due = true; arrival = arrives (7 ∷ []) }
    ∷ record { keep_alive_due = false; reack_due = false; arrival = arrives [] }
    ∷ []

read_loop-Onward_example :
    IsSession
      (read_loop refuses sample_varint 128 md5 reason_of huff rounds (reader, conn)).1.0.session
    × (reader.session.last_acked_snap
        ≤ℤ (read_loop refuses sample_varint 128 md5 reason_of huff rounds
            (reader, conn)).1.0.session.last_acked_snap)
read_loop-Onward_example =
    read_loop-Onward refuses sample_varint 128 md5 reason_of huff rounds reader conn fresh-IsSession

abbrev messages : List ServerMessage
messages = says_motd (104 ∷ 105 ∷ []) ∷ says_broadcast (111 ∷ []) ∷ []

abbrev chunk_of : ServerMessage → Chunk
chunk_of m =
    let bytes = first_byte m ∷ written sample_varint (sent_fields m) [] in
    record {
      header = record {
        flags = record { vital = false; resend = false };
        size = length bytes;
        seq = 0;
      };
      payload = bytes;
    }

abbrev chunks : List Chunk
chunks = chunk_of (says_motd (104 ∷ 105 ∷ [])) ∷ chunk_of (says_broadcast (111 ∷ [])) ∷ []

text_NoNul : NoNul (104 ∷ 105 ∷ [])
text_NoNul = ((λ e. absurd (omega arith)), ((λ e. absurd (omega arith)), tt))

o_NoNul : NoNul (111 ∷ [])
o_NoNul = ((λ e. absurd (omega arith)), tt)

chunks-Carry : Carry sample_varint chunks messages
chunks-Carry = (refl, tt, (text_NoNul, tt), (refl, tt, (o_NoNul, tt), tt))

chunks-AllSendable : AllSendable split chunks
unfolding pack_string
chunks-AllSendable = (
  record {
    fits = record { size_fits = omega arith; seq_fits = omega arith };
    size_right = refl;
    nonempty = omega arith;
  },
  (
    record {
      fits = record { size_fits = omega arith; seq_fits = omega arith };
      size_right = refl;
      nonempty = omega arith;
    },
    tt,
  ),
)

messages_delivered_example :
    process_payload refuses sample_varint 128 md5 (wire split chunks) (reader, conn)
    ≡ (done tt, (record reader { events = send_all 128 (all_events messages) [] }, conn))
messages_delivered_example =
    messages_delivered refuses sample_varint 128 md5 chunks messages reader conn chunks-AllSendable
      chunks-Carry
