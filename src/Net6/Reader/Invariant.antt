-- ===== src/Net6/Reader/Invariant.antt =====
-- So does the loop, whatever comes.
use twclient.Prelude.{
  ℕ, List, [], ◌∷◌, Bool, true, false, Option, none, some, ltb, Bool-cases, inl, inr,
}
use twclient.Prelude.Int.{◌≤ℤ◌}
use twclient.Packer.Varint.{Varint}
use twclient.Packet.Chunk.{unpack_chunks}
use twclient.Network.{Act, Conn, done, Failure, Arrival, arrives, elapses, breaks, ret}
use twclient.Net6.Header.{Header}
use twclient.Net6.Session.{Parsed, bad_packet, no_payload, parsed_payload, server_closed}
use twclient.Net6.Session.WellFormed.{IsSession}
use twclient.Net6.Reader.{Reader, emit_all, process_payload}
use twclient.Net6.Messages.{split}
use twclient.Net6.Reader.Loop.{
  Round, Next, goes_on, stops, close_with, acked, or_close, on_payload, on_parsed, on_arrival,
  keep_alive_if, reack_if, read_round, after_round, read_loop,
}
use twclient.Net6.Reader.Onward.{
  Onward, Onward-refl, GoesOn, stays, after-From, then_do-GoesOn, if-From,
}
use twclient.Net6.Reader.Keeps.{
  process_chunks-GoesOn, send_ack_packet-GoesOn, send_keep_alive-Goes, ack_chunks-Onward,
}

module _ {M : Type 0} (refuses : List (List ℕ) → List ℕ → Bool) (vi : Varint) (capacity : ℕ)
    (md5 : List ℕ → List ℕ) where
  close_with-GoesOn : (reason : List ℕ) → GoesOn {M = M} (close_with refuses vi capacity md5 reason)
  unfolding close_with emit_all
  close_with-GoesOn reason (r, c) = record { onward = Onward-refl r.session }

  or_close-GoesOn :
      (payload : List ℕ) (o : Option (List ℕ))
      → GoesOn {M = M} (or_close refuses vi capacity md5 payload o)
  unfolding or_close process_payload
  or_close-GoesOn payload (some reason) w = close_with-GoesOn reason w
  or_close-GoesOn payload none w =
      then_do-GoesOn (process_payload refuses vi capacity md5 payload) (λ _. ret goes_on)
        (process_chunks-GoesOn refuses vi capacity md5 (unpack_chunks split payload))
        (λ _ v. stays (done goes_on) v.0 v.1) w

  on_payload-GoesOn :
      (hdr : Header) (payload : List ℕ)
      → GoesOn {M = M} (on_payload refuses vi capacity md5 hdr payload)
  unfolding on_payload process_payload
  on_payload-GoesOn hdr payload w =
      if-From hdr.flags.control w.0.session _ _ (or_close-GoesOn payload (server_closed payload) w)
        (then_do-GoesOn (process_payload refuses vi capacity md5 payload) (λ _. ret goes_on)
          (process_chunks-GoesOn refuses vi capacity md5 (unpack_chunks split payload))
          (λ _ v. stays (done goes_on) v.0 v.1) w)

  acked-Onward :
      (hdr : Header) (payload : List ℕ) (r : Reader M)
      → Onward r.session (acked refuses vi capacity md5 hdr payload r).session
  acked-Onward hdr payload r = elim (Bool-cases (ltb 0 hdr.num_chunks)) [
    | inl h ↦ rw h (ack_chunks-Onward refuses hdr payload r.session)
    | inr h ↦ rw h (Onward-refl r.session)
  ]

  module _ (reason_of : Failure → List ℕ) (huff : List ℕ → Option (List ℕ)) where
    on_parsed-GoesOn :
        (p : Parsed) → GoesOn {M = M} (on_parsed refuses vi capacity md5 reason_of huff p)
    unfolding on_parsed
    on_parsed-GoesOn bad_packet (r, c) = close_with-GoesOn _ (r, c)
    on_parsed-GoesOn (no_payload hdr) (r, c) = stays (done goes_on) r c
    on_parsed-GoesOn (parsed_payload hdr payload) (r, c) =
        after-From r.session _ _ (acked-Onward hdr payload r)
          (on_payload-GoesOn hdr payload (acked refuses vi capacity md5 hdr payload r, c))

    on_arrival-GoesOn :
        (a : Arrival) → GoesOn {M = M} (on_arrival refuses vi capacity md5 reason_of huff a)
    unfolding on_arrival
    on_arrival-GoesOn elapses (r, c) = stays (done goes_on) r c
    on_arrival-GoesOn breaks (r, c) = close_with-GoesOn _ (r, c)
    on_arrival-GoesOn (arrives resp) (r, c) = on_parsed-GoesOn _ (r, c)

    keep_alive_if-GoesOn :
        (b : Bool) → GoesOn {M = M} (keep_alive_if refuses vi capacity md5 reason_of huff b)
    unfolding keep_alive_if
    keep_alive_if-GoesOn false (r, c) = stays (done tt) r c
    keep_alive_if-GoesOn true (r, c) = record {
      onward = send_keep_alive-Goes refuses (r.session, c);
    }

    reack_if-GoesOn :
        (b : Bool) → GoesOn {M = M} (reack_if refuses vi capacity md5 reason_of huff b)
    unfolding reack_if
    reack_if-GoesOn false (r, c) = stays (done tt) r c
    reack_if-GoesOn true (r, c) =
        if-From _ r.session _ _ (send_ack_packet-GoesOn refuses vi capacity _ (r, c))
          (stays (done tt) r c)

    read_round-GoesOn :
        (rd : Round) → GoesOn {M = M} (read_round refuses vi capacity md5 reason_of huff rd)
    unfolding read_round
    read_round-GoesOn rd =
        then_do-GoesOn _ _ (keep_alive_if-GoesOn rd.keep_alive_due) (λ _.
          then_do-GoesOn _ _ (reack_if-GoesOn rd.reack_due) (λ _. on_arrival-GoesOn rd.arrival))

    after_round-GoesOn :
        (next : Next) (more : Act (Reader M) (Unit {0}))
        → GoesOn more
        → GoesOn (after_round refuses vi capacity md5 reason_of huff next more)
    unfolding after_round
    after_round-GoesOn goes_on more h w = h w
    after_round-GoesOn stops more h w = stays (done tt) w.0 w.1

    read_loop-GoesOn :
        (rds : List Round) → GoesOn {M = M} (read_loop refuses vi capacity md5 reason_of huff rds)
    unfolding read_loop
    read_loop-GoesOn [] w = stays (done tt) w.0 w.1
    read_loop-GoesOn (rd ∷ rds) w =
        then_do-GoesOn (read_round refuses vi capacity md5 reason_of huff rd) _
          (read_round-GoesOn rd)
          (λ next.
            after_round-GoesOn next (read_loop refuses vi capacity md5 reason_of huff rds)
              (read_loop-GoesOn rds))
          w

    -- In whatever rounds packets come and timers are due, and whatever the packets hold and
    -- writes fail, the background reader leaves a last acknowledged tick that is not below the
    -- one before, and keeps the invariant of the session.
    pub read_loop-Onward :
        (rds : List Round) (r : Reader M) (c : Conn)
        → IsSession r.session
        → IsSession (read_loop refuses vi capacity md5 reason_of huff rds (r, c)).1.0.session
          × (r.session.last_acked_snap
              ≤ℤ (read_loop refuses vi capacity md5 reason_of huff rds
                  (r, c)).1.0.session.last_acked_snap)
    read_loop-Onward rds r c i =
        let goes = (read_loop-GoesOn rds (r, c)).onward in (goes.still i, goes.not_back)
