-- ===== src/Net6/Reader.antt =====
-- What the background reader of net6/reader.go does with the payload of a packet, and processEx of
-- net6/events_ex.go. MD5 is a parameter. A send whose error is dropped leaves what it changed.
pub mod Names
pub mod Tables
pub mod Loop
pub mod Onward
pub mod Keeps
pub mod Invariant
pub mod Delivers
use twclient.Prelude.{
  ℕ, ◌+◌, ◌/◌, ◌%◌, ◌-◌, ◌<◌, List, [], ◌∷◌, ◌++◌, length, replicate, take, drop, Bool, true, false,
  not, if◌then◌else◌, Option, none, some, ltb, ◌==◌,
}
use twclient.Prelude.Int.{ℤ, pos, negsuc, eq_ℤ, leb_ℤ, ltb_ℤ, shr_ℤ, low_bits_ℤ, add64}
use twclient.Packer.Varint.{Varint}
use twclient.Packer.Reader.{Result, ok, err}
use twclient.Packer.Unpack.{new_unpacker, next_int}
use twclient.Packer.Pack.{pack_int}
use twclient.Packer.Uuid.{calculate_uuid}
use twclient.Packet.Chunk.{Chunk, unpack_chunks}
use twclient.Packet.MapChange.{MapInfo, parse_map_change_payload}
use twclient.Packet.Capabilities.{ServerCapabilities, parse_server_capabilities}
use twclient.Packet.ServerEvent.{ServerEvent, snapshot, map_change, server_capabilities, closed_by}
use twclient.Packet.EventQueue.{send_event}
use twclient.Packet.Assembly.{
  Snaps, Decoded, ignored, decoded, panicked, process_snap_single, process_snap_empty,
  process_snap_multi,
}
use twclient.Network.{
  Act, Conn, Outcome, done, failed, Failure, crashed, Arrival, arrives, elapses, breaks, io_error,
  bad_header, ret, then_do, send_raw,
}
use twclient.Net6.Header.{Header, pack}
use twclient.Net6.SnapSize.{snap_item_size}
use twclient.Net6.Messages.{split, wrap_chunk, sys_input, sys_ping_reply}
use twclient.Net6.Session.{
  Session, eq_bytes, Parsed, bad_packet, no_payload, parsed_payload, server_closed,
  append_security_token, session_header, parse_payload, ack_chunks, send_vital_msg, send_keep_alive,
}
use twclient.Net6.Session.Login.{with_map_info, store_capabilities, capabilities_name}
use twclient.Net6.Events.{
  process_chat, process_broadcast, process_motd, process_kill_msg, process_sound_global,
  process_tune_params, process_weapon_pickup, process_emoticon, process_vote_set,
  process_vote_status, process_vote_option_add, process_vote_option_remove,
  process_vote_option_list_add, process_vote_clear_options, process_dd_race_time, process_record,
  process_rcon_line, process_rcon_auth_status, process_rcon_cmd_add, process_rcon_cmd_rem,
  process_server_error, process_input_timing,
}
use twclient.Net6.Extended.{
  process_ex_teams_state, process_ex_kill_msg_team, process_ex_your_vote, process_ex_race_finish,
  process_ex_command_info, process_ex_command_info_remove, process_ex_change_info_cooldown,
  process_ex_map_sound_global,
}
use twclient.Net6.Reader.Names.{
  name_sv_teams_state, name_sv_dd_race_time, name_sv_record, name_sv_kill_msg_team,
  name_sv_your_vote, name_sv_race_finish, name_sv_command_info, name_sv_command_info_remove,
  name_sv_change_info_cooldown, name_sv_map_sound_global,
}
use twclient.Net6.Reader.Tables.{
  raw_id, is_sys, sys_events, game_events, ex_events, capability_events,
}

-- The session, the snapshots, and the events that the client has not polled yet.
pub record Reader (M : Type 0) : Type 0 where
  pub session : Session M
  pub snaps : Snaps
  pub events : List ServerEvent

abbrev pub send_all : ℕ → List ServerEvent → List ServerEvent → List ServerEvent
send_all capacity [] ch = ch
send_all capacity (ev ∷ evs) ch = send_all capacity evs (send_event capacity ch ev)

-- `EmptyInputSize` and `EmptyInput` of packet/input.go
abbrev pub empty_input_size : ℤ
empty_input_size = pos 40

abbrev pub empty_input : List ℕ
empty_input = replicate 10 0

module _ {M : Type 0} where
  unfoldable pub emit_all : ℕ → List ServerEvent → Act (Reader M) (Unit {0})
  emit_all capacity evs (r, c) =
      (done tt, (record r { events = send_all capacity evs r.events }, c))

  -- `_ = s.send…`: the error is dropped.
  abbrev pub ignoring : Act (Session M) (Unit {0}) → Act (Reader M) (Unit {0})
  ignoring act (r, c) =
      let (s, c1) = (act (r.session, c)).1 in (done tt, (record r { session = s }, c1))

  module _ (refuses : List (List ℕ) → List ℕ → Bool) (vi : Varint) (capacity : ℕ) where
    unfoldable pub send_ack_packet : ℤ → Act (Reader M) (Unit {0})
    send_ack_packet tick = ignoring (λ (s, c).
        let chunk =
          wrap_chunk (sys_input vi tick (add64 tick (pos 1)) empty_input_size empty_input) in
        send_raw refuses (append_security_token s (pack (session_header s 1) ++ chunk)) (s, c))

    unfoldable pub ack_snap : ℤ → Act (Reader M) (Unit {0})
    ack_snap tick (r, c) =
        if leb_ℤ tick r.session.last_acked_snap
        then (done tt, (r, c))
        else send_ack_packet tick
            (record r { session = record r.session { last_acked_snap = tick } }, c)

    -- The snapshot is acknowledged and delivered.
    unfoldable pub deliver : Decoded × Snaps → Act (Reader M) (Unit {0})
    deliver (ignored, snaps) (r, c) = (done tt, (record r { snaps = snaps }, c))
    deliver (panicked, snaps) (r, c) = (failed crashed, (record r { snaps = snaps }, c))
    deliver (decoded tick snap, snaps) (r, c) =
        then_do (ack_snap tick) (λ _. emit_all capacity (snapshot snap ∷ []))
          (record r { snaps = snaps }, c)

    unfoldable pub on_map_change : Result MapInfo → Act (Reader M) (Unit {0})
    on_map_change (err e) (r, c) = (done tt, (r, c))
    on_map_change (ok info) (r, c) =
        emit_all capacity (map_change info ∷ [])
          (record r { session = with_map_info (ok info) r.session }, c)

    unfoldable pub process_ex_capabilities : List ℕ → Act (Reader M) (Unit {0})
    process_ex_capabilities body (r, c) =
        let (first, u) = next_int vi (new_unpacker body) in
        emit_all capacity (capability_events first (next_int vi u).0)
          (record r { session = store_capabilities vi body r.session }, c)

    module _ (md5 : List ℕ → List ℕ) where
      unfoldable pub switch_uuid :
          List ℕ → List ℕ → Option (List ServerEvent) → Act (Reader M) (Unit {0})
      switch_uuid uuid body (some evs) w = emit_all capacity evs w
      switch_uuid uuid body none w =
          if eq_bytes uuid (calculate_uuid md5 capabilities_name)
          then process_ex_capabilities body w
          else (done tt, w)

      unfoldable pub process_ex : List ℕ → Act (Reader M) (Unit {0})
      process_ex bytes w =
          if ltb (length bytes) 16
          then (done tt, w)
          else switch_uuid (take 16 bytes) (drop 16 bytes)
              (ex_events vi md5 (take 16 bytes) (drop 16 bytes)) w

      unfoldable pub process_sys : ℤ → List ℕ → Act (Reader M) (Unit {0})
      process_sys msg_id bytes (r, c) =
          if eq_ℤ msg_id (pos 7)
          then deliver (process_snap_single vi snap_item_size bytes r.snaps) (r, c)
          else if eq_ℤ msg_id (pos 6)
          then deliver (process_snap_empty vi snap_item_size bytes r.snaps) (r, c)
          else if eq_ℤ msg_id (pos 5)
          then deliver (process_snap_multi vi snap_item_size bytes r.snaps) (r, c)
          else if eq_ℤ msg_id (pos 22)
          then ignoring (send_vital_msg refuses (sys_ping_reply vi)) (r, c)
          else if eq_ℤ msg_id (pos 0)
          then process_ex bytes (r, c)
          else if eq_ℤ msg_id (pos 2)
          then on_map_change (parse_map_change_payload vi bytes) (r, c)
          else emit_all capacity (sys_events vi msg_id bytes) (r, c)

      -- A chunk without a byte is passed over.
      unfoldable pub process_data : List ℕ → Act (Reader M) (Unit {0})
      process_data [] w = (done tt, w)
      process_data (b ∷ bytes) w =
          let raw = raw_id b in
          if is_sys raw
          then process_sys (shr_ℤ raw 1) bytes w
          else emit_all capacity (game_events vi (shr_ℤ raw 1) bytes) w

      unfoldable pub process_chunks : List Chunk → Act (Reader M) (Unit {0})
      process_chunks [] = ret tt
      process_chunks (ch ∷ chs) = then_do (process_data ch.payload) (λ _. process_chunks chs)

      unfoldable pub process_payload : List ℕ → Act (Reader M) (Unit {0})
      process_payload payload = process_chunks (unpack_chunks split payload)
