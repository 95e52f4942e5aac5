-- ===== src/Net6/Reader/Loop.antt =====
-- readLoop of net6/reader.go. The timers and the socket are a list of rounds; where it ends, the
-- context is over. The decompression and the texts of the errors are parameters.
use twclient.Prelude.{ℕ, List, [], ◌∷◌, Bool, true, false, if◌then◌else◌, Option, none, some, ltb}
use twclient.Prelude.Int.{pos, ltb_ℤ}
use twclient.Packer.Varint.{Varint}
use twclient.Packet.ServerEvent.{closed_by}
use twclient.Network.{
  Act, done, Failure, Arrival, arrives, elapses, breaks, io_error, bad_header, ret, then_do,
}
use twclient.Net6.Header.{Header}
use twclient.Net6.Session.{
  Parsed, bad_packet, no_payload, parsed_payload, server_closed, parse_payload, ack_chunks,
  send_keep_alive,
}
use twclient.Net6.Reader.{Reader, emit_all, ignoring, send_ack_packet, process_payload}

-- A round of the loop: which timers are due, and what the wait for a packet comes to.
pub record Round : Type 0 where
  pub keep_alive_due : Bool
  pub reack_due : Bool
  pub arrival : Arrival

-- Whether the loop goes on.
pub data Next : Type 0 where
  goes_on stops : Next

module _ {M : Type 0} (refuses : List (List ℕ) → List ℕ → Bool) (vi : Varint) (capacity : ℕ)
    (md5 : List ℕ → List ℕ) where
  -- An error that is no timeout is told to the client, and the loop ends.
  unfoldable pub close_with : List ℕ → Act (Reader M) Next
  close_with reason = then_do (emit_all capacity (closed_by reason ∷ [])) (λ _. ret stops)

  abbrev pub acked : Header → List ℕ → Reader M → Reader M
  acked hdr payload r =
      if ltb 0 hdr.num_chunks then record r { session = ack_chunks hdr payload r.session } else r

  -- A control message that closes the connection ends the loop.
  unfoldable pub or_close : List ℕ → Option (List ℕ) → Act (Reader M) Next
  or_close payload (some reason) w = close_with reason w
  or_close payload none w =
      then_do (process_payload refuses vi capacity md5 payload) (λ _. ret goes_on) w

  unfoldable pub on_payload : Header → List ℕ → Act (Reader M) Next
  on_payload hdr payload w =
      if hdr.flags.control
      then or_close payload (server_closed payload) w
      else then_do (process_payload refuses vi capacity md5 payload) (λ _. ret goes_on) w

  -- `reason_of` is the text of an error.
  module _ (reason_of : Failure → List ℕ) (huff : List ℕ → Option (List ℕ)) where
    unfoldable pub on_parsed : Parsed → Act (Reader M) Next
    on_parsed bad_packet (r, c) = close_with (reason_of bad_header) (r, c)
    on_parsed (no_payload hdr) (r, c) = (done goes_on, (r, c))
    on_parsed (parsed_payload hdr payload) (r, c) = on_payload hdr payload (acked hdr payload r, c)

    unfoldable pub on_arrival : Arrival → Act (Reader M) Next
    on_arrival elapses (r, c) = (done goes_on, (r, c))
    on_arrival breaks (r, c) = close_with (reason_of io_error) (r, c)
    on_arrival (arrives resp) (r, c) = on_parsed (parse_payload huff r.session resp) (r, c)

    unfoldable pub keep_alive_if : Bool → Act (Reader M) (Unit {0})
    keep_alive_if false = ret tt
    keep_alive_if true = ignoring (send_keep_alive refuses)

    -- The newest acknowledgement is sent again, if there was one.
    unfoldable pub reack_if : Bool → Act (Reader M) (Unit {0})
    reack_if false (r, c) = (done tt, (r, c))
    reack_if true (r, c) =
        if ltb_ℤ (pos 0) r.session.last_acked_snap
        then send_ack_packet refuses vi capacity r.session.last_acked_snap (r, c)
        else (done tt, (r, c))

    unfoldable pub read_round : Round → Act (Reader M) Next
    read_round rd =
        then_do (keep_alive_if rd.keep_alive_due)
          (λ _. then_do (reack_if rd.reack_due) (λ _. on_arrival rd.arrival))

    unfoldable pub after_round : Next → Act (Reader M) (Unit {0}) → Act (Reader M) (Unit {0})
    after_round goes_on more w = more w
    after_round stops more w = (done tt, w)

    -- After the last round the context is over.
    unfoldable pub read_loop : List Round → Act (Reader M) (Unit {0})
    read_loop [] = ret tt
    read_loop (rd ∷ rds) = then_do (read_round rd) (λ next. after_round next (read_loop rds))
