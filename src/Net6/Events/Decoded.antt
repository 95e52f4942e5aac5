-- ===== src/Net6/Events/Decoded.antt =====
-- What a server writes into the fields of a message, the decoders of net6/events.go and
-- net6/events_ex.go turn into the event with these values.
use twclient.Prelude.{
  ℕ, zero, suc, ◌≡◌, refl, ap, ◌∙◌, arith, List, [], ◌∷◌, ◌++◌, true, false, not, ◌==◌,
  if◌then◌else◌,
}
use twclient.Prelude.Int.{ℤ, pos, negsuc, eq_ℤ}
use twclient.Packer.Varint.{Varint}
use twclient.Packer.Reader.{Unpacker, Read, continue}
use twclient.Packer.Unpack.{new_unpacker, next_int, next_string}
use twclient.Packer.Sanitize.{sanitize, sanitize_default}
use twclient.Packer.Pack.{clamp32, pack_int, pack_string}
use twclient.Packer.RoundTrip.{Holds, NoNul, next_int_back, next_string_back}
use twclient.Packet.Fields.{Field, int_field, str_field, AllCanSend, field_bytes}
use twclient.Packet.ServerEvent.{
  ServerEvent, broadcast, chat, checkpoint, server_msg, whisper, change_info_cooldown, command_info,
  command_info_remove, emoticon, input_timing, kill, kill_msg_team, map_sound_global, motd,
  race_finish, rcon_auth, rcon_cmd, rcon_cmd_add, rcon_cmd_remove, rcon_line, record_times,
  server_error, sound_global, vote_option, vote_option_add, vote_option_remove, vote_set,
  vote_status, weapon_pickup, your_vote,
}
use twclient.Net6.Events.{
  emitted, chat_event, race_events, process_chat, process_broadcast, process_motd, process_kill_msg,
  process_sound_global, process_weapon_pickup, process_emoticon, process_vote_set,
  process_vote_status, process_vote_option_add, process_vote_option_remove, process_rcon_line,
  process_rcon_auth_status, process_rcon_cmd_add, process_rcon_cmd_rem, process_server_error,
  process_input_timing, process_record, process_dd_race_time, read_chat, read_broadcast, read_motd,
  read_kill_msg, read_sound_global, read_weapon_pickup, read_emoticon, read_vote_set,
  read_vote_status, read_vote_option_add, read_vote_option_remove, read_rcon_line,
  read_rcon_auth_status, read_rcon_cmd_add, read_rcon_cmd_rem, read_server_error, read_input_timing,
  read_record, read_dd_race_time,
}
use twclient.Net6.Extended.{
  process_ex_kill_msg_team, process_ex_your_vote, process_ex_race_finish, process_ex_command_info,
  process_ex_command_info_remove, process_ex_change_info_cooldown, process_ex_map_sound_global,
  read_ex_kill_msg_team, read_ex_your_vote, read_ex_race_finish, read_ex_command_info,
  read_ex_command_info_remove, read_ex_change_info_cooldown, read_ex_map_sound_global,
}

-- The messages that are read as a whole, with the values of their fields.
pub data ServerMessage : Type 0 where
  says_chat : ℤ → ℤ → List ℕ → ServerMessage
  says_broadcast : List ℕ → ServerMessage
  says_motd : List ℕ → ServerMessage
  says_kill_msg : ℤ → ℤ → ℤ → ℤ → ServerMessage
  says_sound_global : ℤ → ServerMessage
  says_weapon_pickup : ℤ → ServerMessage
  says_emoticon : ℤ → ℤ → ServerMessage
  says_vote_set : ℤ → List ℕ → List ℕ → ServerMessage
  says_vote_status : ℤ → ℤ → ℤ → ℤ → ServerMessage
  says_vote_option_add : List ℕ → ServerMessage
  says_vote_option_remove : List ℕ → ServerMessage
  says_rcon_line : List ℕ → ServerMessage
  says_rcon_auth_status : ℤ → ServerMessage
  says_rcon_cmd_add : List ℕ → List ℕ → List ℕ → ServerMessage
  says_rcon_cmd_rem : List ℕ → ServerMessage
  says_server_error : List ℕ → ServerMessage
  says_ex_kill_msg_team : ℤ → ℤ → ServerMessage
  says_ex_your_vote : ℤ → ServerMessage
  says_ex_race_finish : ℤ → ℤ → ServerMessage
  says_ex_command_info : List ℕ → List ℕ → List ℕ → ServerMessage
  says_ex_command_info_remove : List ℕ → ServerMessage
  says_ex_change_info_cooldown : ℤ → ServerMessage
  says_ex_map_sound_global : ℤ → ServerMessage
  says_input_timing : ℤ → ℤ → ServerMessage
  says_record : ℤ → ℤ → ServerMessage
  says_dd_race_time : ℤ → ℤ → ℤ → ServerMessage

abbrev pub sent_fields : ServerMessage → List Field
sent_fields (says_chat team cid msg) = int_field team ∷ int_field cid ∷ str_field msg ∷ []
sent_fields (says_broadcast text) = str_field text ∷ []
sent_fields (says_motd text) = str_field text ∷ []
sent_fields (says_kill_msg killer victim weapon mode_special) =
    int_field killer ∷ int_field victim ∷ int_field weapon ∷ int_field mode_special ∷ []
sent_fields (says_sound_global sound_id) = int_field sound_id ∷ []
sent_fields (says_weapon_pickup weapon) = int_field weapon ∷ []
sent_fields (says_emoticon cid emote) = int_field cid ∷ int_field emote ∷ []
sent_fields (says_vote_set timeout desc reason) =
    int_field timeout ∷ str_field desc ∷ str_field reason ∷ []
sent_fields (says_vote_status yes_votes no_votes pass total) =
    int_field yes_votes ∷ int_field no_votes ∷ int_field pass ∷ int_field total ∷ []
sent_fields (says_vote_option_add desc) = str_field desc ∷ []
sent_fields (says_vote_option_remove desc) = str_field desc ∷ []
sent_fields (says_rcon_line line) = str_field line ∷ []
sent_fields (says_rcon_auth_status authed) = int_field authed ∷ []
sent_fields (says_rcon_cmd_add name help params) =
    str_field name ∷ str_field help ∷ str_field params ∷ []
sent_fields (says_rcon_cmd_rem name) = str_field name ∷ []
sent_fields (says_server_error msg) = str_field msg ∷ []
sent_fields (says_ex_kill_msg_team team first) = int_field team ∷ int_field first ∷ []
sent_fields (says_ex_your_vote voted) = int_field voted ∷ []
sent_fields (says_ex_race_finish client_id time_centis) =
    int_field client_id ∷ int_field time_centis ∷ []
sent_fields (says_ex_command_info name args help) =
    str_field name ∷ str_field args ∷ str_field help ∷ []
sent_fields (says_ex_command_info_remove name) = str_field name ∷ []
sent_fields (says_ex_change_info_cooldown wait_until) = int_field wait_until ∷ []
sent_fields (says_ex_map_sound_global sound_id) = int_field sound_id ∷ []
sent_fields (says_input_timing intended_tick time_left) =
    int_field intended_tick ∷ int_field time_left ∷ []
sent_fields (says_record server_best player_best) =
    int_field server_best ∷ int_field player_best ∷ []
sent_fields (says_dd_race_time time_centis check_centis finish_val) =
    int_field time_centis ∷ int_field check_centis ∷ int_field finish_val ∷ []

abbrev pub clean_string : List ℕ → List ℕ
clean_string s = sanitize sanitize_default s

-- Who says something: team 2 has a whisper to the client `cid`, team 3 one from it, and on any
-- other team the client -1 is the server.
abbrev pub said : ℤ → ℤ → List ℕ → ServerEvent
said team (pos c) msg =
    if eq_ℤ team (pos 2)
    then whisper (negsuc 0) (pos c) msg
    else if eq_ℤ team (pos 3)
    then whisper (pos c) (negsuc 0) msg
    else chat team (pos c) msg
said team (negsuc c) msg =
    if eq_ℤ team (pos 2)
    then whisper (negsuc 0) (negsuc c) msg
    else if eq_ℤ team (pos 3)
    then whisper (negsuc c) (negsuc 0) msg
    else if c == 0
    then server_msg msg
    else chat team (negsuc c) msg

-- A finish is told if there is one or the time is not 0, and a checkpoint if it is not 0.
abbrev pub at_finish : ℤ → ℤ → List ServerEvent
at_finish time (pos (suc f)) = race_finish time true ∷ []
at_finish time (negsuc f) = race_finish time true ∷ []
at_finish time (pos zero) = if eq_ℤ time (pos 0) then [] else race_finish time false ∷ []

abbrev pub at_checkpoint : ℤ → List ServerEvent
at_checkpoint diff = if eq_ℤ diff (pos 0) then [] else checkpoint diff ∷ []

chat_event-said : (team cid : ℤ) (msg : List ℕ) → chat_event team cid msg ≡ said team cid msg
unfolding chat_event
chat_event-said (pos t) (pos c) msg = ground arith
chat_event-said (pos t) (negsuc c) msg = ground arith
chat_event-said (negsuc t) (pos c) msg = ground arith
chat_event-said (negsuc t) (negsuc c) msg = ground arith

race_events-at :
    (time diff finish : ℤ)
    → race_events time diff finish ≡ at_finish time finish ++ at_checkpoint diff
unfolding race_events
race_events-at time diff (pos (suc f)) = ground arith
race_events-at time diff (negsuc f) = ground arith
race_events-at time diff (pos zero) = ground arith

-- The events, with the integers clamped and the strings sanitized.
abbrev pub events_of : ServerMessage → List ServerEvent
events_of (says_chat team cid msg) = said (clamp32 team) (clamp32 cid) (clean_string msg) ∷ []
events_of (says_broadcast text) = broadcast (clean_string text) ∷ []
events_of (says_motd text) = motd (clean_string text) ∷ []
events_of (says_kill_msg killer victim weapon mode_special) =
    kill (clamp32 killer) (clamp32 victim) (clamp32 weapon) (clamp32 mode_special) ∷ []
events_of (says_sound_global sound_id) = sound_global (clamp32 sound_id) ∷ []
events_of (says_weapon_pickup weapon) = weapon_pickup (clamp32 weapon) ∷ []
events_of (says_emoticon cid emote) = emoticon (clamp32 cid) (clamp32 emote) ∷ []
events_of (says_vote_set timeout desc reason) =
    vote_set (clamp32 timeout) (clean_string desc) (clean_string reason) ∷ []
events_of (says_vote_status yes_votes no_votes pass total) =
    vote_status (clamp32 yes_votes) (clamp32 no_votes) (clamp32 pass) (clamp32 total) ∷ []
events_of (says_vote_option_add desc) = vote_option vote_option_add (clean_string desc) ∷ []
events_of (says_vote_option_remove desc) = vote_option vote_option_remove (clean_string desc) ∷ []
events_of (says_rcon_line line) = rcon_line (clean_string line) ∷ []
events_of (says_rcon_auth_status authed) =
    rcon_auth (not (eq_ℤ (clamp32 authed) (pos 0))) (clamp32 authed) ∷ []
events_of (says_rcon_cmd_add name help params) =
    rcon_cmd rcon_cmd_add (clean_string name) (clean_string help) (clean_string params) ∷ []
events_of (says_rcon_cmd_rem name) = rcon_cmd rcon_cmd_remove (clean_string name) [] [] ∷ []
events_of (says_server_error msg) = server_error (clean_string msg) ∷ []
events_of (says_ex_kill_msg_team team first) = kill_msg_team (clamp32 team) (clamp32 first) ∷ []
events_of (says_ex_your_vote voted) = your_vote (clamp32 voted) ∷ []
events_of (says_ex_race_finish _ time_centis) = race_finish (clamp32 time_centis) true ∷ []
events_of (says_ex_command_info name args help) =
    command_info (clean_string name) (clean_string help) (clean_string args) ∷ []
events_of (says_ex_command_info_remove name) = command_info_remove (clean_string name) ∷ []
events_of (says_ex_change_info_cooldown wait_until) = change_info_cooldown (clamp32 wait_until) ∷ []
events_of (says_ex_map_sound_global sound_id) = map_sound_global (clamp32 sound_id) ∷ []
events_of (says_input_timing intended_tick time_left) =
    input_timing (clamp32 intended_tick) (clamp32 time_left) ∷ []
events_of (says_record server_best player_best) =
    record_times (clamp32 server_best) (clamp32 player_best) ∷ []
events_of (says_dd_race_time time_centis check_centis finish_val) =
    at_finish (clamp32 time_centis) (clamp32 finish_val) ++ at_checkpoint (clamp32 check_centis)

module _ (vi : Varint) where
  -- The decoder of a message.
  abbrev pub decoded : ServerMessage → List ℕ → List ServerEvent
  decoded (says_chat _ _ _) = process_chat vi
  decoded (says_broadcast _) = process_broadcast
  decoded (says_motd _) = process_motd
  decoded (says_kill_msg _ _ _ _) = process_kill_msg vi
  decoded (says_sound_global _) = process_sound_global vi
  decoded (says_weapon_pickup _) = process_weapon_pickup vi
  decoded (says_emoticon _ _) = process_emoticon vi
  decoded (says_vote_set _ _ _) = process_vote_set vi
  decoded (says_vote_status _ _ _ _) = process_vote_status vi
  decoded (says_vote_option_add _) = process_vote_option_add
  decoded (says_vote_option_remove _) = process_vote_option_remove
  decoded (says_rcon_line _) = process_rcon_line
  decoded (says_rcon_auth_status _) = process_rcon_auth_status vi
  decoded (says_rcon_cmd_add _ _ _) = process_rcon_cmd_add
  decoded (says_rcon_cmd_rem _) = process_rcon_cmd_rem
  decoded (says_server_error _) = process_server_error
  decoded (says_ex_kill_msg_team _ _) = process_ex_kill_msg_team vi
  decoded (says_ex_your_vote _) = process_ex_your_vote vi
  decoded (says_ex_race_finish _ _) = process_ex_race_finish vi
  decoded (says_ex_command_info _ _ _) = process_ex_command_info
  decoded (says_ex_command_info_remove _) = process_ex_command_info_remove
  decoded (says_ex_change_info_cooldown _) = process_ex_change_info_cooldown vi
  decoded (says_ex_map_sound_global _) = process_ex_map_sound_global vi
  decoded (says_input_timing _ _) = process_input_timing vi
  decoded (says_record _ _) = process_record vi
  decoded (says_dd_race_time _ _ _) = process_dd_race_time vi

  -- Fields as they are written, and what follows them.
  abbrev pub written : List Field → List ℕ → List ℕ
  written [] rest = rest
  written (f ∷ fs) rest = field_bytes vi f ++ written fs rest

  int_step :
      (v : ℤ) (rest : List ℕ) (u : Unpacker) (f : ℤ → Read (List ServerEvent))
      (es : List ServerEvent)
      → Holds u (pack_int vi v ++ rest)
      → ((w : Unpacker) → Holds w rest → emitted (f (clamp32 v) w) ≡ es)
      → emitted (continue (next_int vi u) f) ≡ es
  unfolding pack_int
  int_step v rest u f es h k =
      let (e, left) = next_int_back vi u rest v h in ap (λ r. emitted (continue r f)) e ∙ k _ left

  str_step :
      (s rest : List ℕ) (u : Unpacker) (f : List ℕ → Read (List ServerEvent))
      (es : List ServerEvent)
      → NoNul s
      → Holds u (pack_string s ++ rest)
      → ((w : Unpacker) → Holds w rest → emitted (f (clean_string s) w) ≡ es)
      → emitted (continue (next_string u) f) ≡ es
  unfolding next_string
  str_step s rest u f es hs h k =
      let (e, left) = next_string_back u rest sanitize_default s hs h in
      ap (λ r. emitted (continue r f)) e ∙ k _ left

  start : (bytes : List ℕ) → Holds (new_unpacker bytes) bytes
  unfolding new_unpacker
  start bytes = record { inside = omega arith; left = refl }

  -- Every message that is read as a whole, whatever follows its fields, is decoded to its event: the
  -- integers clamped to 32 bits and the strings, which have no NUL, sanitized.
  pub server_message_decoded :
      (m : ServerMessage) (rest : List ℕ)
      → AllCanSend (sent_fields m)
      → decoded m (written (sent_fields m) rest) ≡ events_of m
  unfolding process_chat process_broadcast process_motd process_kill_msg process_sound_global
      process_weapon_pickup process_emoticon process_vote_set process_vote_status
      process_vote_option_add process_vote_option_remove process_rcon_line process_rcon_auth_status
      process_rcon_cmd_add process_rcon_cmd_rem process_server_error process_ex_kill_msg_team
      process_ex_your_vote process_ex_race_finish process_ex_command_info
      process_ex_command_info_remove process_ex_change_info_cooldown process_ex_map_sound_global
      process_input_timing process_record process_dd_race_time read_chat read_broadcast read_motd
      read_kill_msg read_sound_global read_weapon_pickup read_emoticon read_vote_set
      read_vote_status read_vote_option_add read_vote_option_remove read_rcon_line
      read_rcon_auth_status read_rcon_cmd_add read_rcon_cmd_rem read_server_error
      read_ex_kill_msg_team read_ex_your_vote read_ex_race_finish read_ex_command_info
      read_ex_command_info_remove read_ex_change_info_cooldown read_ex_map_sound_global
      read_input_timing read_record read_dd_race_time
  server_message_decoded (says_chat team cid msg) rest (_, (_, (h2, _))) =
      int_step team _ _ _ _ (start _) (λ w k0.
        int_step cid _ _ _ _ k0
          (λ w k1. str_step msg _ _ _ _ h2 k1 (λ w k2. ap (λ e. e ∷ []) (chat_event-said _ _ _))))
  server_message_decoded (says_broadcast text) rest (h0, _) =
      str_step text _ _ _ _ h0 (start _) (λ w k0. refl)
  server_message_decoded (says_motd text) rest (h0, _) =
      str_step text _ _ _ _ h0 (start _) (λ w k0. refl)
  server_message_decoded (says_kill_msg killer victim weapon mode_special) rest
        (_, (_, (_, (_, _)))) =
      int_step killer _ _ _ _ (start _) (λ w k0. int_step victim _ _ _ _ k0 (λ w k1.
        int_step weapon _ _ _ _ k1 (λ w k2. int_step mode_special _ _ _ _ k2 (λ w k3. refl))))
  server_message_decoded (says_sound_global sound_id) rest (_, _) =
      int_step sound_id _ _ _ _ (start _) (λ w k0. refl)
  server_message_decoded (says_weapon_pickup weapon) rest (_, _) =
      int_step weapon _ _ _ _ (start _) (λ w k0. refl)
  server_message_decoded (says_emoticon cid emote) rest (_, (_, _)) =
      int_step cid _ _ _ _ (start _) (λ w k0. int_step emote _ _ _ _ k0 (λ w k1. refl))
  server_message_decoded (says_vote_set timeout desc reason) rest (_, (h1, (h2, _))) =
      int_step timeout _ _ _ _ (start _)
        (λ w k0. str_step desc _ _ _ _ h1 k0 (λ w k1. str_step reason _ _ _ _ h2 k1 (λ w k2. refl)))
  server_message_decoded (says_vote_status yes_votes no_votes pass total) rest
        (_, (_, (_, (_, _)))) =
      int_step yes_votes _ _ _ _ (start _) (λ w k0.
        int_step no_votes _ _ _ _ k0
          (λ w k1. int_step pass _ _ _ _ k1 (λ w k2. int_step total _ _ _ _ k2 (λ w k3. refl))))
  server_message_decoded (says_vote_option_add desc) rest (h0, _) =
      str_step desc _ _ _ _ h0 (start _) (λ w k0. refl)
  server_message_decoded (says_vote_option_remove desc) rest (h0, _) =
      str_step desc _ _ _ _ h0 (start _) (λ w k0. refl)
  server_message_decoded (says_rcon_line line) rest (h0, _) =
      str_step line _ _ _ _ h0 (start _) (λ w k0. refl)
  server_message_decoded (says_rcon_auth_status authed) rest (_, _) =
      int_step authed _ _ _ _ (start _) (λ w k0. refl)
  server_message_decoded (says_rcon_cmd_add name help params) rest (h0, (h1, (h2, _))) =
      str_step name _ _ _ _ h0 (start _)
        (λ w k0. str_step help _ _ _ _ h1 k0 (λ w k1. str_step params _ _ _ _ h2 k1 (λ w k2. refl)))
  server_message_decoded (says_rcon_cmd_rem name) rest (h0, _) =
      str_step name _ _ _ _ h0 (start _) (λ w k0. refl)
  server_message_decoded (says_server_error msg) rest (h0, _) =
      str_step msg _ _ _ _ h0 (start _) (λ w k0. refl)
  server_message_decoded (says_ex_kill_msg_team team first) rest (_, (_, _)) =
      int_step team _ _ _ _ (start _) (λ w k0. int_step first _ _ _ _ k0 (λ w k1. refl))
  server_message_decoded (says_ex_your_vote voted) rest (_, _) =
      int_step voted _ _ _ _ (start _) (λ w k0. refl)
  server_message_decoded (says_ex_race_finish client_id time_centis) rest (_, (_, _)) =
      int_step client_id _ _ _ _ (start _) (λ w k0. int_step time_centis _ _ _ _ k0 (λ w k1. refl))
  server_message_decoded (says_ex_command_info name args help) rest (h0, (h1, (h2, _))) =
      str_step name _ _ _ _ h0 (start _)
        (λ w k0. str_step args _ _ _ _ h1 k0 (λ w k1. str_step help _ _ _ _ h2 k1 (λ w k2. refl)))
  server_message_decoded (says_ex_command_info_remove name) rest (h0, _) =
      str_step name _ _ _ _ h0 (start _) (λ w k0. refl)
  server_message_decoded (says_ex_change_info_cooldown wait_until) rest (_, _) =
      int_step wait_until _ _ _ _ (start _) (λ w k0. refl)
  server_message_decoded (says_ex_map_sound_global sound_id) rest (_, _) =
      int_step sound_id _ _ _ _ (start _) (λ w k0. refl)
  server_message_decoded (says_input_timing intended_tick time_left) rest (_, (_, _)) =
      int_step intended_tick _ _ _ _ (start _)
        (λ w k0. int_step time_left _ _ _ _ k0 (λ w k1. refl))
  server_message_decoded (says_record server_best player_best) rest (_, (_, _)) =
      int_step server_best _ _ _ _ (start _)
        (λ w k0. int_step player_best _ _ _ _ k0 (λ w k1. refl))
  server_message_decoded (says_dd_race_time time_centis check_centis finish_val) rest
        (_, (_, (_, _))) =
      int_step time_centis _ _ _ _ (start _) (λ w k0.
        int_step check_centis _ _ _ _ k0
          (λ w k1. int_step finish_val _ _ _ _ k1 (λ w k2. race_events-at _ _ _)))
