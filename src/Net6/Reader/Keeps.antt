-- ===== src/Net6/Reader/Keeps.antt =====
-- Every step of net6/reader.go leaves a session that goes on from the one before.
use twclient.Prelude.{
  ℕ, arith, List, [], ◌∷◌, Bool, false, Option, none, some, Bool-cases, inl, inr, ◌≡◌,
}
use twclient.Prelude.Int.{ℤ, eq_ℤ, pos, ◌≤ℤ◌, leb_ℤ}
use twclient.Packer.Varint.{Varint}
use twclient.Packer.Reader.{Result, ok, err}
use twclient.Packet.Chunk.{Chunk}
use twclient.Packet.MapChange.{MapInfo, parse_map_change_payload}
use twclient.Packet.Assembly.{Snaps, Decoded, ignored, decoded, panicked}
use twclient.Packet.ServerEvent.{ServerEvent, snapshot}
use twclient.Network.{done, send_raw}
use twclient.Net6.Header.{Header}
use twclient.Net6.Session.{
  Session, next_seq, ack_chunks, send_vital_msg, send_chunks, send_keep_alive, send_ctrl,
  send_packet,
}
use twclient.Net6.Session.Login.{with_capabilities, with_map_info, store_capabilities}
use twclient.Net6.Session.WellFormed.{
  next_seq-IsSession, ack_chunks-IsSession, with_map_info-IsSession, store_capabilities-IsSession,
}
use twclient.Net6.Reader.{
  emit_all, ignoring, send_ack_packet, ack_snap, deliver, on_map_change, process_ex_capabilities,
  switch_uuid, process_ex, process_sys, process_data, process_chunks,
}
use twclient.Net6.Reader.Tables.{sys_events}
use twclient.Net6.SnapSize.{snap_item_size}
use twclient.Net6.Messages.{sys_ping_reply}
use twclient.Packet.Assembly.{process_snap_single, process_snap_empty, process_snap_multi}
use twclient.Net6.Reader.Onward.{
  Onward, Onward-refl, Onward-trans, Goes, GoesOn, stays, after-From, then_do-GoesOn, if-From,
  emit_all-GoesOn,
}

module _ {M : Type 0} (refuses : List (List ℕ) → List ℕ → Bool) where
  send_raw-Goes : (pkt : List ℕ) → Goes {M = M} (send_raw refuses pkt)
  unfolding send_raw
  send_raw-Goes pkt (s, c) = ground (arith, Onward-refl s)

  next_seq-Onward : (s : Session M) → Onward s (next_seq s).1
  unfolding next_seq
  next_seq-Onward s = record { not_back = omega arith; still = next_seq-IsSession s }

  pub ack_chunks-Onward :
      (hdr : Header) (payload : List ℕ) (s : Session M) → Onward s (ack_chunks hdr payload s)
  unfolding ack_chunks
  ack_chunks-Onward hdr payload s = record {
    not_back = omega arith;
    still = ack_chunks-IsSession hdr payload s;
  }

  send_vital_msg-Goes : (payload : List ℕ) → Goes {M = M} (send_vital_msg refuses payload)
  unfolding send_vital_msg send_chunks
  send_vital_msg-Goes payload (s, c) =
      Onward-trans _ _ _ (next_seq-Onward s) (send_raw-Goes _ ((next_seq s).1, c))

  pub send_keep_alive-Goes : Goes {M = M} (send_keep_alive refuses)
  unfolding send_keep_alive send_ctrl send_packet
  send_keep_alive-Goes (s, c) = send_raw-Goes _ (s, c)

  module _ (vi : Varint) (capacity : ℕ) where
    pub send_ack_packet-GoesOn :
        (tick : ℤ) → GoesOn {M = M} (send_ack_packet refuses vi capacity tick)
    unfolding send_ack_packet
    send_ack_packet-GoesOn tick (r, c) = record { onward = send_raw-Goes _ (r.session, c) }

    -- A tick that is not below the last one takes its place.
    newer-Onward :
        (tick : ℤ) (s : Session M)
        → leb_ℤ tick s.last_acked_snap ≡ false
        → Onward s (record s { last_acked_snap = tick })
    newer-Onward tick s h = record {
      not_back = ground (arith, h);
      still = λ i. record {
        sequence_small = i.sequence_small;
        ack_small = i.ack_small;
        security_token_length = i.security_token_length;
        server_token_length = i.server_token_length;
      };
    }

    ack_snap-GoesOn : (tick : ℤ) → GoesOn {M = M} (ack_snap refuses vi capacity tick)
    unfolding ack_snap
    ack_snap-GoesOn tick (r, c) = elim (Bool-cases (leb_ℤ tick r.session.last_acked_snap)) [
      | inl h ↦ rw h (stays (done tt) r c)
      | inr h ↦
          rw h (after-From _ _ _ (newer-Onward tick r.session h) (send_ack_packet-GoesOn tick _))
    ]

    deliver-GoesOn : (d : Decoded × Snaps) → GoesOn {M = M} (deliver refuses vi capacity d)
    unfolding deliver
    deliver-GoesOn (ignored, snaps) (r, c) = record { onward = Onward-refl r.session }
    deliver-GoesOn (panicked, snaps) (r, c) = record { onward = Onward-refl r.session }
    deliver-GoesOn (decoded tick snap, snaps) (r, c) =
        then_do-GoesOn (ack_snap refuses vi capacity tick)
          (λ _. emit_all capacity (snapshot snap ∷ [])) (ack_snap-GoesOn tick)
          (λ _. emit_all-GoesOn capacity (snapshot snap ∷ [])) (record r { snaps = snaps }, c)

    on_map_change-GoesOn :
        (info : Result MapInfo) → GoesOn {M = M} (on_map_change refuses vi capacity info)
    unfolding on_map_change emit_all with_map_info
    on_map_change-GoesOn (err e) (r, c) = stays (done tt) r c
    on_map_change-GoesOn (ok info) (r, c) = record {
      onward = record {
        not_back = omega arith;
        still = with_map_info-IsSession (ok info) r.session;
      };
    }

    with_capabilities-not_back :
        (first second : Result ℤ) (s : Session M)
        → s.last_acked_snap ≤ℤ (with_capabilities first second s).last_acked_snap
    unfolding with_capabilities
    with_capabilities-not_back (err e) second s = omega arith
    with_capabilities-not_back (ok version) (err e) s = omega arith
    with_capabilities-not_back (ok version) (ok flags) s = ground arith

    process_ex_capabilities-GoesOn :
        (body : List ℕ) → GoesOn {M = M} (process_ex_capabilities refuses vi capacity body)
    unfolding process_ex_capabilities emit_all store_capabilities
    process_ex_capabilities-GoesOn body (r, c) = record {
      onward = record {
        not_back = with_capabilities-not_back _ _ r.session;
        still = store_capabilities-IsSession vi body r.session;
      };
    }

    module _ (md5 : List ℕ → List ℕ) where
      switch_uuid-GoesOn :
          (uuid body : List ℕ) (o : Option (List ServerEvent))
          → GoesOn {M = M} (switch_uuid refuses vi capacity md5 uuid body o)
      unfolding switch_uuid
      switch_uuid-GoesOn uuid body (some evs) w = emit_all-GoesOn capacity evs w
      switch_uuid-GoesOn uuid body none w =
          if-From _ w.0.session _ _ (process_ex_capabilities-GoesOn body w)
            (stays (done tt) w.0 w.1)

      process_ex-GoesOn :
          (bytes : List ℕ) → GoesOn {M = M} (process_ex refuses vi capacity md5 bytes)
      unfolding process_ex
      process_ex-GoesOn bytes w =
          if-From _ w.0.session _ _ (stays (done tt) w.0 w.1) (switch_uuid-GoesOn _ _ _ w)

      ping-GoesOn : GoesOn {M = M} (ignoring (send_vital_msg refuses (sys_ping_reply vi)))
      ping-GoesOn (r, c) = record {
        onward = send_vital_msg-Goes (sys_ping_reply vi) (r.session, c);
      }

      process_sys-GoesOn :
          (msg_id : ℤ) (bytes : List ℕ)
          → GoesOn {M = M} (process_sys refuses vi capacity md5 msg_id bytes)
      unfolding process_sys
      process_sys-GoesOn msg_id bytes (r, c) =
          if-From (eq_ℤ msg_id (pos 7)) r.session _ _
            (deliver-GoesOn (process_snap_single vi snap_item_size bytes r.snaps) (r, c))
            (if-From (eq_ℤ msg_id (pos 6)) r.session _ _
              (deliver-GoesOn (process_snap_empty vi snap_item_size bytes r.snaps) (r, c))
              (if-From (eq_ℤ msg_id (pos 5)) r.session _ _
                (deliver-GoesOn (process_snap_multi vi snap_item_size bytes r.snaps) (r, c))
                (if-From (eq_ℤ msg_id (pos 22)) r.session _ _ (ping-GoesOn (r, c)) (
                  if-From (eq_ℤ msg_id (pos 0)) r.session _ _ (process_ex-GoesOn bytes (r, c)) (
                    if-From (eq_ℤ msg_id (pos 2)) r.session _ _
                      (on_map_change-GoesOn (parse_map_change_payload vi bytes) (r, c))
                      (emit_all-GoesOn capacity (sys_events vi msg_id bytes) (r, c)))))))

      process_data-GoesOn :
          (bytes : List ℕ) → GoesOn {M = M} (process_data refuses vi capacity md5 bytes)
      unfolding process_data
      process_data-GoesOn [] w = stays (done tt) w.0 w.1
      process_data-GoesOn (b ∷ bytes) w =
          if-From _ w.0.session _ _ (process_sys-GoesOn _ bytes w) (emit_all-GoesOn capacity _ w)

      pub process_chunks-GoesOn :
          (chs : List Chunk) → GoesOn {M = M} (process_chunks refuses vi capacity md5 chs)
      unfolding process_chunks
      process_chunks-GoesOn [] w = stays (done tt) w.0 w.1
      process_chunks-GoesOn (ch ∷ chs) w =
          then_do-GoesOn (process_data refuses vi capacity md5 ch.payload)
            (λ _. process_chunks refuses vi capacity md5 chs) (process_data-GoesOn ch.payload)
            (λ _. process_chunks-GoesOn chs) w
