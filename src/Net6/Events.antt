-- ===== src/Net6/Events.antt =====
-- The decoders of net6/events.go, and those of net6/reader.go that read one message: the events that
-- a method emits for the bytes of a message. A message that cannot be read to its end emits none, but
-- for the options that a list gave before.
pub mod Decoded
use twclient.Prelude.{
  ℕ, zero, suc, ◌+◌, ◌-◌, ◌^◌, List, [], ◌∷◌, ◌++◌, length, map, Bool, true, false, not, ◌&&◌, ◌||◌,
  if◌then◌else◌, Option, none, some, ltb,
}
use twclient.Prelude.Int.{ℤ, pos, negsuc, eq_ℤ, low_bits_ℤ}
use twclient.Packer.Varint.{Varint}
use twclient.Packer.Reader.{Unpacker, Read, Result, ok, err, ◌>>=◌, pure}
use twclient.Packer.Unpack.{new_unpacker, next_int, next_string}
use twclient.Packet.ServerEvent.{
  ServerEvent, broadcast, change_info_cooldown, chat, checkpoint, command_info, command_info_remove,
  emoticon, input_timing, kill, kill_msg_team, map_sound_global, motd, race_finish, rcon_auth,
  rcon_cmd, rcon_cmd_add, rcon_cmd_remove, rcon_line, record_times, server_error, server_msg,
  sound_global, teams_state, tune_params, vote_option, vote_option_add, vote_option_clear,
  vote_option_remove, vote_set, vote_status, weapon_pickup, whisper, your_vote,
}

-- The events of a message that is read as a whole.
abbrev pub emitted : Result (List ServerEvent) × Unpacker → List ServerEvent
emitted (ok events, u) = events
emitted (err e, u) = []

abbrev pub team_whisper_send : ℤ
team_whisper_send = pos 2

abbrev pub team_whisper_recv : ℤ
team_whisper_recv = pos 3

-- `int32(v)`
unfoldable pub to_int32 : ℤ → ℤ
to_int32 v = let w = low_bits_ℤ v 32 in if ltb w (2 ^ 31) then pos w else negsuc (2 ^ 32 - 1 - w)

unfoldable pub chat_event : ℤ → ℤ → List ℕ → ServerEvent
chat_event team cid msg =
    if eq_ℤ team team_whisper_recv
    then whisper cid (negsuc 0) msg
    else if eq_ℤ team team_whisper_send
    then whisper (negsuc 0) cid msg
    else if eq_ℤ cid (negsuc 0)
    then server_msg msg
    else chat team cid msg

-- The events of a race time: the finish, where there is one, and the checkpoint.
unfoldable pub race_events : ℤ → ℤ → ℤ → List ServerEvent
race_events time_centis check_centis finish_val =
    let finish = not (eq_ℤ finish_val (pos 0)) in
    let first =
      if finish || not (eq_ℤ time_centis (pos 0))
      then race_finish time_centis finish ∷ []
      else [] in
    first ++ (if eq_ℤ check_centis (pos 0) then [] else checkpoint check_centis ∷ [])

unfoldable pub process_vote_clear_options : List ServerEvent
process_vote_clear_options = vote_option vote_option_clear [] ∷ []

unfoldable pub read_broadcast : Read (List ServerEvent)
read_broadcast = do text ← next_string; pure (broadcast text ∷ [])

unfoldable pub process_broadcast : List ℕ → List ServerEvent
process_broadcast bytes = emitted (read_broadcast (new_unpacker bytes))

unfoldable pub read_motd : Read (List ServerEvent)
read_motd = do text ← next_string; pure (motd text ∷ [])

unfoldable pub process_motd : List ℕ → List ServerEvent
process_motd bytes = emitted (read_motd (new_unpacker bytes))

unfoldable pub read_vote_option_add : Read (List ServerEvent)
read_vote_option_add = do desc ← next_string; pure (vote_option vote_option_add desc ∷ [])

unfoldable pub process_vote_option_add : List ℕ → List ServerEvent
process_vote_option_add bytes = emitted (read_vote_option_add (new_unpacker bytes))

unfoldable pub read_vote_option_remove : Read (List ServerEvent)
read_vote_option_remove = do desc ← next_string; pure (vote_option vote_option_remove desc ∷ [])

unfoldable pub process_vote_option_remove : List ℕ → List ServerEvent
process_vote_option_remove bytes = emitted (read_vote_option_remove (new_unpacker bytes))

unfoldable pub read_rcon_line : Read (List ServerEvent)
read_rcon_line = do line ← next_string; pure (rcon_line line ∷ [])

unfoldable pub process_rcon_line : List ℕ → List ServerEvent
process_rcon_line bytes = emitted (read_rcon_line (new_unpacker bytes))

unfoldable pub read_rcon_cmd_add : Read (List ServerEvent)
read_rcon_cmd_add = do
  name ← next_string
  help ← next_string
  params ← next_string
  pure (rcon_cmd rcon_cmd_add name help params ∷ [])

unfoldable pub process_rcon_cmd_add : List ℕ → List ServerEvent
process_rcon_cmd_add bytes = emitted (read_rcon_cmd_add (new_unpacker bytes))

unfoldable pub read_rcon_cmd_rem : Read (List ServerEvent)
read_rcon_cmd_rem = do name ← next_string; pure (rcon_cmd rcon_cmd_remove name [] [] ∷ [])

unfoldable pub process_rcon_cmd_rem : List ℕ → List ServerEvent
process_rcon_cmd_rem bytes = emitted (read_rcon_cmd_rem (new_unpacker bytes))

unfoldable pub read_server_error : Read (List ServerEvent)
read_server_error = do msg ← next_string; pure (server_error msg ∷ [])

unfoldable pub process_server_error : List ℕ → List ServerEvent
process_server_error bytes = emitted (read_server_error (new_unpacker bytes))

-- The loop `for range n` over the descriptions.
unfoldable pub read_options : ℕ → Unpacker → List ServerEvent
read_options zero u = []
read_options (suc n) u =
    let (r, v) = next_string u in
    let rest = read_options n v in
    elim r [ ok desc ↦ vote_option vote_option_add desc ∷ rest | err e ↦ [] ]

-- A negative number of options is none.
unfoldable pub options_from : Result ℤ × Unpacker → List ServerEvent
options_from (ok (pos n), u) = read_options n u
options_from (ok (negsuc n), u) = []
options_from (err e, u) = []

module _ (vi : Varint) where
  unfoldable pub read_chat : Read (List ServerEvent)
  read_chat = do
    team ← next_int vi
    cid ← next_int vi
    msg ← next_string
    pure (chat_event team cid msg ∷ [])

  unfoldable pub process_chat : List ℕ → List ServerEvent
  process_chat bytes = emitted (read_chat (new_unpacker bytes))

  unfoldable pub read_kill_msg : Read (List ServerEvent)
  read_kill_msg = do
    killer ← next_int vi
    victim ← next_int vi
    weapon ← next_int vi
    mode_special ← next_int vi
    pure (kill killer victim weapon mode_special ∷ [])

  unfoldable pub process_kill_msg : List ℕ → List ServerEvent
  process_kill_msg bytes = emitted (read_kill_msg (new_unpacker bytes))

  unfoldable pub read_sound_global : Read (List ServerEvent)
  read_sound_global = do sound_id ← next_int vi; pure (sound_global sound_id ∷ [])

  unfoldable pub process_sound_global : List ℕ → List ServerEvent
  process_sound_global bytes = emitted (read_sound_global (new_unpacker bytes))

  unfoldable pub read_weapon_pickup : Read (List ServerEvent)
  read_weapon_pickup = do weapon ← next_int vi; pure (weapon_pickup weapon ∷ [])

  unfoldable pub process_weapon_pickup : List ℕ → List ServerEvent
  process_weapon_pickup bytes = emitted (read_weapon_pickup (new_unpacker bytes))

  unfoldable pub read_emoticon : Read (List ServerEvent)
  read_emoticon = do cid ← next_int vi; emote ← next_int vi; pure (emoticon cid emote ∷ [])

  unfoldable pub process_emoticon : List ℕ → List ServerEvent
  process_emoticon bytes = emitted (read_emoticon (new_unpacker bytes))

  unfoldable pub read_vote_set : Read (List ServerEvent)
  read_vote_set = do
    timeout ← next_int vi
    desc ← next_string
    reason ← next_string
    pure (vote_set timeout desc reason ∷ [])

  unfoldable pub process_vote_set : List ℕ → List ServerEvent
  process_vote_set bytes = emitted (read_vote_set (new_unpacker bytes))

  unfoldable pub read_vote_status : Read (List ServerEvent)
  read_vote_status = do
    yes_votes ← next_int vi
    no_votes ← next_int vi
    pass ← next_int vi
    total ← next_int vi
    pure (vote_status yes_votes no_votes pass total ∷ [])

  unfoldable pub process_vote_status : List ℕ → List ServerEvent
  process_vote_status bytes = emitted (read_vote_status (new_unpacker bytes))

  unfoldable pub read_rcon_auth_status : Read (List ServerEvent)
  read_rcon_auth_status = do
    authed ← next_int vi
    pure (rcon_auth (not (eq_ℤ authed (pos 0))) authed ∷ [])

  unfoldable pub process_rcon_auth_status : List ℕ → List ServerEvent
  process_rcon_auth_status bytes = emitted (read_rcon_auth_status (new_unpacker bytes))

  unfoldable pub read_input_timing : Read (List ServerEvent)
  read_input_timing = do
    intended_tick ← next_int vi
    time_left ← next_int vi
    pure (input_timing intended_tick time_left ∷ [])

  unfoldable pub process_input_timing : List ℕ → List ServerEvent
  process_input_timing bytes = emitted (read_input_timing (new_unpacker bytes))

  unfoldable pub read_record : Read (List ServerEvent)
  read_record = do
    server_best ← next_int vi
    player_best ← next_int vi
    pure (record_times server_best player_best ∷ [])

  unfoldable pub process_record : List ℕ → List ServerEvent
  process_record bytes = emitted (read_record (new_unpacker bytes))

  unfoldable pub read_dd_race_time : Read (List ServerEvent)
  read_dd_race_time = do
    time_centis ← next_int vi
    check_centis ← next_int vi
    finish_val ← next_int vi
    pure (race_events time_centis check_centis finish_val)

  unfoldable pub process_dd_race_time : List ℕ → List ServerEvent
  process_dd_race_time bytes = emitted (read_dd_race_time (new_unpacker bytes))

  -- All the integers up to the first that cannot be read. Each takes a byte at least, so one more
  -- round than there are bytes is enough.
  unfoldable pub read_ints : ℕ → Unpacker → List ℤ
  read_ints zero u = []
  read_ints (suc fuel) u =
      let (r, v) = next_int vi u in
      let rest = read_ints fuel v in elim r [ ok n ↦ n ∷ rest | err e ↦ [] ]

  unfoldable pub process_tune_params : List ℕ → List ServerEvent
  process_tune_params bytes =
      tune_params (map to_int32 (read_ints (suc (length bytes)) (new_unpacker bytes))) ∷ []

  unfoldable pub process_vote_option_list_add : List ℕ → List ServerEvent
  process_vote_option_list_add bytes = options_from (next_int vi (new_unpacker bytes))
