-- ===== src/Net6/Reader/Delivers.antt =====
-- The messages of a packet of a 0.6 server reach the channel as their events, in order.
use twclient.Prelude.{ℕ, ◌≡◌, refl, sym, ap, ◌∙◌, List, [], ◌∷◌, ◌++◌, map, Bool, inl}
use twclient.Packer.Varint.{Varint}
use twclient.Packet.Chunk.{Chunk}
use twclient.Packet.Chunk.RoundTrip.{wire, arrived, AllSendable, unpack_chunks-wire}
use twclient.Packet.Fields.{AllCanSend}
use twclient.Packet.ServerEvent.{ServerEvent}
use twclient.Network.{Act, Conn, done, and_then}
use twclient.Net6.Events.Decoded.{
  ServerMessage, says_chat, says_broadcast, says_motd, says_kill_msg, says_sound_global,
  says_weapon_pickup, says_emoticon, says_vote_set, says_vote_status, says_vote_option_add,
  says_vote_option_remove, says_rcon_line, says_rcon_auth_status, says_rcon_cmd_add,
  says_rcon_cmd_rem, says_server_error, says_ex_kill_msg_team, says_ex_your_vote,
  says_ex_race_finish, says_ex_command_info, says_ex_command_info_remove,
  says_ex_change_info_cooldown, says_ex_map_sound_global, says_input_timing, says_record,
  says_dd_race_time, sent_fields, events_of, written, server_message_decoded,
}
use twclient.Net6.Messages.{split}
use twclient.Net6.Reader.{
  Reader, send_all, emit_all, process_sys, process_data, process_chunks, process_payload,
}
use twclient.Net6.Reader.Tables.{raw_id, is_sys, sys_events, game_events}

-- A message that a number names and no UUID does, among those that are read as a whole and only
-- turned into events: not a snapshot, a map change, a ping, a list of vote options, or tune parameters.
abbrev pub Plain : ServerMessage → Type 0
Plain (says_chat _ _ _) = Unit {0}
Plain (says_broadcast _) = Unit {0}
Plain (says_motd _) = Unit {0}
Plain (says_kill_msg _ _ _ _) = Unit {0}
Plain (says_sound_global _) = Unit {0}
Plain (says_weapon_pickup _) = Unit {0}
Plain (says_emoticon _ _) = Unit {0}
Plain (says_vote_set _ _ _) = Unit {0}
Plain (says_vote_status _ _ _ _) = Unit {0}
Plain (says_vote_option_add _) = Unit {0}
Plain (says_vote_option_remove _) = Unit {0}
Plain (says_rcon_line _) = Unit {0}
Plain (says_rcon_auth_status _) = Unit {0}
Plain (says_rcon_cmd_add _ _ _) = Unit {0}
Plain (says_rcon_cmd_rem _) = Unit {0}
Plain (says_server_error _) = Unit {0}
Plain (says_ex_kill_msg_team _ _) = ⊥
Plain (says_ex_your_vote _) = ⊥
Plain (says_ex_race_finish _ _) = ⊥
Plain (says_ex_command_info _ _ _) = ⊥
Plain (says_ex_command_info_remove _) = ⊥
Plain (says_ex_change_info_cooldown _) = ⊥
Plain (says_ex_map_sound_global _) = ⊥
Plain (says_input_timing _ _) = Unit {0}
Plain (says_record _ _) = Unit {0}
Plain (says_dd_race_time _ _ _) = Unit {0}

-- The number shifted left, and the bit of a system message.
abbrev pub first_byte : ServerMessage → ℕ
first_byte (says_chat _ _ _) = 6
first_byte (says_broadcast _) = 4
first_byte (says_motd _) = 2
first_byte (says_kill_msg _ _ _ _) = 8
first_byte (says_sound_global _) = 10
first_byte (says_weapon_pickup _) = 18
first_byte (says_emoticon _ _) = 20
first_byte (says_vote_set _ _ _) = 30
first_byte (says_vote_status _ _ _ _) = 32
first_byte (says_vote_option_add _) = 26
first_byte (says_vote_option_remove _) = 28
first_byte (says_rcon_line _) = 23
first_byte (says_rcon_auth_status _) = 21
first_byte (says_rcon_cmd_add _ _ _) = 51
first_byte (says_rcon_cmd_rem _) = 53
first_byte (says_server_error _) = 49
first_byte (says_ex_kill_msg_team _ _) = 1
first_byte (says_ex_your_vote _) = 1
first_byte (says_ex_race_finish _ _) = 1
first_byte (says_ex_command_info _ _ _) = 1
first_byte (says_ex_command_info_remove _) = 1
first_byte (says_ex_change_info_cooldown _) = 1
first_byte (says_ex_map_sound_global _) = 1
first_byte (says_input_timing _ _) = 19
first_byte (says_record _ _) = 54
first_byte (says_dd_race_time _ _ _) = 52

-- The chunks carry these messages.
abbrev pub Carry : Varint → List Chunk → List ServerMessage → Type 0
Carry vi [] [] = Unit {0}
Carry vi [] (m ∷ ms) = ⊥
Carry vi (c ∷ cs) [] = ⊥
Carry vi (c ∷ cs) (m ∷ ms) =
    (c.payload ≡ first_byte m ∷ written vi (sent_fields m) [])
    × Plain m
    × AllCanSend (sent_fields m)
    × Carry vi cs ms

abbrev pub all_events : List ServerMessage → List ServerEvent
all_events [] = []
all_events (m ∷ ms) = events_of m ++ all_events ms

send_all-append :
    (capacity : ℕ) (evs more ch : List ServerEvent)
    → send_all capacity (evs ++ more) ch ≡ send_all capacity more (send_all capacity evs ch)
send_all-append capacity [] more ch = refl
send_all-append capacity (ev ∷ evs) more ch = send_all-append capacity evs more _

module _ {M : Type 0} (refuses : List (List ℕ) → List ℕ → Bool) (vi : Varint) (capacity : ℕ)
    (md5 : List ℕ → List ℕ) where
  message_delivered :
      (m : ServerMessage) (rest : List ℕ) (w : Reader M × Conn)
      → Plain m
      → AllCanSend (sent_fields m)
      → process_data refuses vi capacity md5 (first_byte m ∷ written vi (sent_fields m) rest) w
        ≡ emit_all capacity (events_of m) w
  unfolding process_data process_sys raw_id is_sys sys_events game_events
  message_delivered (says_chat x0 x1 x2) rest w p h =
      ap (λ evs. emit_all capacity evs w) (server_message_decoded vi (says_chat x0 x1 x2) rest h)
  message_delivered (says_broadcast x0) rest w p h =
      ap (λ evs. emit_all capacity evs w) (server_message_decoded vi (says_broadcast x0) rest h)
  message_delivered (says_motd x0) rest w p h =
      ap (λ evs. emit_all capacity evs w) (server_message_decoded vi (says_motd x0) rest h)
  message_delivered (says_kill_msg x0 x1 x2 x3) rest w p h =
      ap (λ evs. emit_all capacity evs w)
        (server_message_decoded vi (says_kill_msg x0 x1 x2 x3) rest h)
  message_delivered (says_sound_global x0) rest w p h =
      ap (λ evs. emit_all capacity evs w) (server_message_decoded vi (says_sound_global x0) rest h)
  message_delivered (says_weapon_pickup x0) rest w p h =
      ap (λ evs. emit_all capacity evs w) (server_message_decoded vi (says_weapon_pickup x0) rest h)
  message_delivered (says_emoticon x0 x1) rest w p h =
      ap (λ evs. emit_all capacity evs w) (server_message_decoded vi (says_emoticon x0 x1) rest h)
  message_delivered (says_vote_set x0 x1 x2) rest w p h =
      ap (λ evs. emit_all capacity evs w)
        (server_message_decoded vi (says_vote_set x0 x1 x2) rest h)
  message_delivered (says_vote_status x0 x1 x2 x3) rest w p h =
      ap (λ evs. emit_all capacity evs w)
        (server_message_decoded vi (says_vote_status x0 x1 x2 x3) rest h)
  message_delivered (says_vote_option_add x0) rest w p h =
      ap (λ evs. emit_all capacity evs w)
        (server_message_decoded vi (says_vote_option_add x0) rest h)
  message_delivered (says_vote_option_remove x0) rest w p h =
      ap (λ evs. emit_all capacity evs w)
        (server_message_decoded vi (says_vote_option_remove x0) rest h)
  message_delivered (says_rcon_line x0) rest w p h =
      ap (λ evs. emit_all capacity evs w) (server_message_decoded vi (says_rcon_line x0) rest h)
  message_delivered (says_rcon_auth_status x0) rest w p h =
      ap (λ evs. emit_all capacity evs w)
        (server_message_decoded vi (says_rcon_auth_status x0) rest h)
  message_delivered (says_rcon_cmd_add x0 x1 x2) rest w p h =
      ap (λ evs. emit_all capacity evs w)
        (server_message_decoded vi (says_rcon_cmd_add x0 x1 x2) rest h)
  message_delivered (says_rcon_cmd_rem x0) rest w p h =
      ap (λ evs. emit_all capacity evs w) (server_message_decoded vi (says_rcon_cmd_rem x0) rest h)
  message_delivered (says_server_error x0) rest w p h =
      ap (λ evs. emit_all capacity evs w) (server_message_decoded vi (says_server_error x0) rest h)
  message_delivered (says_ex_kill_msg_team x0 x1) rest w p h = absurd p
  message_delivered (says_ex_your_vote x0) rest w p h = absurd p
  message_delivered (says_ex_race_finish x0 x1) rest w p h = absurd p
  message_delivered (says_ex_command_info x0 x1 x2) rest w p h = absurd p
  message_delivered (says_ex_command_info_remove x0) rest w p h = absurd p
  message_delivered (says_ex_change_info_cooldown x0) rest w p h = absurd p
  message_delivered (says_ex_map_sound_global x0) rest w p h = absurd p
  message_delivered (says_input_timing x0 x1) rest w p h =
      ap (λ evs. emit_all capacity evs w)
        (server_message_decoded vi (says_input_timing x0 x1) rest h)
  message_delivered (says_record x0 x1) rest w p h =
      ap (λ evs. emit_all capacity evs w) (server_message_decoded vi (says_record x0 x1) rest h)
  message_delivered (says_dd_race_time x0 x1 x2) rest w p h =
      ap (λ evs. emit_all capacity evs w)
        (server_message_decoded vi (says_dd_race_time x0 x1 x2) rest h)

  process_chunks-messages :
      (cs : List Chunk) (ms : List ServerMessage) (w : Reader M × Conn)
      → Carry vi cs ms
      → process_chunks refuses vi capacity md5 (map arrived cs) w
        ≡ emit_all capacity (all_events ms) w
  unfolding process_chunks emit_all
  process_chunks-messages [] [] w h = refl
  process_chunks-messages [] (m ∷ ms) w h = absurd h
  process_chunks-messages (c ∷ cs) [] w h = absurd h
  process_chunks-messages (c ∷ cs) (m ∷ ms) (r, k) (e, p, s, h) =
      let rest : Act (Reader M) (Unit {0}) =
        process_chunks refuses vi capacity md5 (map arrived cs) in
      ap (λ bytes. and_then (process_data refuses vi capacity md5 bytes (r, k)) (λ _. rest)) e
      ∙ ap (λ x. and_then x (λ _. rest)) (message_delivered m [] (r, k) p s)
      ∙ process_chunks-messages cs ms
          (record r { events = send_all capacity (events_of m) r.events }, k) h
      ∙ ap (λ evs. (done tt, (record r { events = evs }, k)))
          (sym (send_all-append capacity (events_of m) (all_events ms) r.events))

  -- A packet of sendable chunks, each with one of the messages that are read as a whole, turned into
  -- events alone and named by a number, and whose strings have no NUL, adds the events of the
  -- messages, in order, to the channel of the reader, and changes nothing else of it. Snapshots, the
  -- map change, the ping, lists of vote options, their clearing, tune parameters and the messages
  -- that a UUID names are not among them.
  pub messages_delivered :
      (cs : List Chunk) (ms : List ServerMessage) (r : Reader M) (c : Conn)
      → AllSendable split cs
      → Carry vi cs ms
      → process_payload refuses vi capacity md5 (wire split cs) (r, c)
        ≡ (done tt, (record r { events = send_all capacity (all_events ms) r.events }, c))
  unfolding process_payload emit_all
  messages_delivered cs ms r c s h =
      ap (λ l. process_chunks refuses vi capacity md5 l (r, c))
        (unpack_chunks-wire split cs (inl refl) s)
      ∙ process_chunks-messages cs ms (r, c) h
