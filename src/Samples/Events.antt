-- ===== src/Samples/Events.antt =====
-- A vote that a server calls, as its event, and channels for two events that get more.
use twclient.Prelude.{◌+◌, ◌≤◌, ◌≡◌, ℕ, arith, List, [], ◌∷◌, ◌++◌}
use twclient.Prelude.Int.{pos}
use twclient.Packer.RoundTrip.{NoNul}
use twclient.Net6.Events.Decoded.{
  ServerMessage, says_vote_set, sent_fields, events_of, decoded, written, server_message_decoded,
}
use twclient.Packet.EventQueue.Interleaved.{
  left_events, dropped_count, excess, line, IsQueue, interleave-line,
}
use twclient.Packet.EventQueue.{
  Queue, resting, Turn, reader, client, interleave, Op, sends, polls, run,
}
use twclient.Packet.EventQueue.Refines.{newest, run_log, run-run_log}
use twclient.Samples.Integers.{sample_varint}

abbrev vote : ServerMessage
vote = says_vote_set (pos 25) (107 ∷ []) (98 ∷ 98 ∷ [])

server_message_decoded_example :
    decoded sample_varint vote (written sample_varint (sent_fields vote) (9 ∷ [])) ≡ events_of vote
server_message_decoded_example =
    server_message_decoded sample_varint vote (9 ∷ []) (tt, (desc_NoNul, (reason_NoNul, tt)))
  where
    desc_NoNul : NoNul (107 ∷ [])
    desc_NoNul = ((λ e. absurd (omega arith)), tt)

    reason_NoNul : NoNul (98 ∷ 98 ∷ [])
    reason_NoNul = ((λ e. absurd (omega arith)), ((λ e. absurd (omega arith)), tt))

-- A channel with room for two, that is full, and a reader with one more event, whose receive comes
-- after a poll.
abbrev crowded : Queue ℕ
crowded = record { to_send = 3 ∷ []; phase = resting; channel = 1 ∷ 2 ∷ [] }

abbrev turns : List Turn
turns = reader ∷ client ∷ reader ∷ reader ∷ client ∷ []

interleave-line_example :
    (left_events (interleave 2 turns crowded).0 ++ line (interleave 2 turns crowded).1
      ≡ line crowded)
    × IsQueue 2 (interleave 2 turns crowded).1
    × (dropped_count (interleave 2 turns crowded).0 + excess 2 (interleave 2 turns crowded).1
        ≤ excess 2 crowded)
interleave-line_example = interleave-line 2 turns crowded (omega arith) (omega arith)

abbrev ops : List (Op ℕ)
ops = sends 1 ∷ sends 2 ∷ sends 3 ∷ polls ∷ sends 4 ∷ polls ∷ []

run-run_log_example :
    ((run 2 ops (newest 2 [])).0 ≡ (run_log 2 ops []).0)
    × ((run 2 ops (newest 2 [])).1 ≡ newest 2 (run_log 2 ops []).1)
run-run_log_example = run-run_log 2 ops [] (omega arith)
