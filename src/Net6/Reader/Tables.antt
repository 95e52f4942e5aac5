-- ===== src/Net6/Reader/Tables.antt =====
-- The switches of processPayload of net6/reader.go over the ids of the messages whose decoders change
-- nothing, and the ids themselves.
use twclient.Prelude.{
  ℕ, ◌/◌, ◌%◌, List, [], ◌∷◌, Bool, not, if◌then◌else◌, Option, none, some, ◌==◌,
}
use twclient.Prelude.Int.{ℤ, pos, negsuc, eq_ℤ, leb_ℤ, low_bits_ℤ}
use twclient.Packer.Varint.{Varint}
use twclient.Packer.Reader.{Result, ok, err}
use twclient.Packer.Uuid.{calculate_uuid}
use twclient.Packet.Capabilities.{parse_server_capabilities}
use twclient.Packet.ServerEvent.{ServerEvent, server_capabilities}
use twclient.Net6.Session.{eq_bytes}
use twclient.Net6.Events.{
  process_chat, process_broadcast, process_motd, process_kill_msg, process_sound_global,
  process_tune_params, process_weapon_pickup, process_emoticon, process_vote_set,
  process_vote_status, process_vote_option_add, process_vote_option_remove,
  process_vote_option_list_add, process_vote_clear_options, process_dd_race_time, process_record,
  process_rcon_line, process_rcon_auth_status, process_rcon_cmd_add, process_rcon_cmd_rem,
  process_server_error, process_input_timing,
}
use twclient.Net6.Extended.{
  process_ex_teams_state, process_ex_kill_msg_team, process_ex_your_vote, process_ex_race_finish,
  process_ex_command_info, process_ex_command_info_remove, process_ex_change_info_cooldown,
  process_ex_map_sound_global,
}
use twclient.Net6.Reader.Names.{
  name_sv_teams_state, name_sv_dd_race_time, name_sv_record, name_sv_kill_msg_team,
  name_sv_your_vote, name_sv_race_finish, name_sv_command_info, name_sv_command_info_remove,
  name_sv_change_info_cooldown, name_sv_map_sound_global,
}

-- The message id and whether it is a system message, of the first byte.
unfoldable pub raw_id : ℕ → ℤ
raw_id b = if b / 64 % 2 == 0 then pos (b % 64) else negsuc (b % 64)

unfoldable pub is_sys : ℤ → Bool
is_sys raw = not (low_bits_ℤ raw 1 == 0)

-- The events of a message that changes nothing but the channel.
unfoldable pub sys_events : Varint → ℤ → List ℕ → List ServerEvent
sys_events vi msg_id bytes =
    if eq_ℤ msg_id (pos 9)
    then process_input_timing vi bytes
    else if eq_ℤ msg_id (pos 11)
    then process_rcon_line bytes
    else if eq_ℤ msg_id (pos 10)
    then process_rcon_auth_status vi bytes
    else if eq_ℤ msg_id (pos 25)
    then process_rcon_cmd_add bytes
    else if eq_ℤ msg_id (pos 26)
    then process_rcon_cmd_rem bytes
    else if eq_ℤ msg_id (pos 24)
    then process_server_error bytes
    else []

unfoldable pub game_events : Varint → ℤ → List ℕ → List ServerEvent
game_events vi msg_id bytes =
    if eq_ℤ msg_id (pos 3)
    then process_chat vi bytes
    else if eq_ℤ msg_id (pos 2)
    then process_broadcast bytes
    else if eq_ℤ msg_id (pos 1)
    then process_motd bytes
    else if eq_ℤ msg_id (pos 4)
    then process_kill_msg vi bytes
    else if eq_ℤ msg_id (pos 5)
    then process_sound_global vi bytes
    else if eq_ℤ msg_id (pos 6)
    then process_tune_params vi bytes
    else if eq_ℤ msg_id (pos 9)
    then process_weapon_pickup vi bytes
    else if eq_ℤ msg_id (pos 10)
    then process_emoticon vi bytes
    else if eq_ℤ msg_id (pos 15)
    then process_vote_set vi bytes
    else if eq_ℤ msg_id (pos 16)
    then process_vote_status vi bytes
    else if eq_ℤ msg_id (pos 13)
    then process_vote_option_add bytes
    else if eq_ℤ msg_id (pos 14)
    then process_vote_option_remove bytes
    else if eq_ℤ msg_id (pos 12)
    then process_vote_option_list_add vi bytes
    else if eq_ℤ msg_id (pos 11)
    then process_vote_clear_options
    else if eq_ℤ msg_id (pos 26)
    then process_dd_race_time vi bytes
    else if eq_ℤ msg_id (pos 27)
    then process_record vi bytes
    else []

-- The events of an extended message, but for the capabilities, if its UUID is known.
unfoldable pub ex_events : Varint → (List ℕ → List ℕ) → List ℕ → List ℕ → Option (List ServerEvent)
ex_events vi md5 uuid body =
    if eq_bytes uuid (calculate_uuid md5 name_sv_teams_state)
    then some (process_ex_teams_state vi body)
    else if eq_bytes uuid (calculate_uuid md5 name_sv_dd_race_time)
    then some (process_dd_race_time vi body)
    else if eq_bytes uuid (calculate_uuid md5 name_sv_record)
    then some (process_record vi body)
    else if eq_bytes uuid (calculate_uuid md5 name_sv_kill_msg_team)
    then some (process_ex_kill_msg_team vi body)
    else if eq_bytes uuid (calculate_uuid md5 name_sv_your_vote)
    then some (process_ex_your_vote vi body)
    else if eq_bytes uuid (calculate_uuid md5 name_sv_race_finish)
    then some (process_ex_race_finish vi body)
    else if eq_bytes uuid (calculate_uuid md5 name_sv_command_info)
    then some (process_ex_command_info body)
    else if eq_bytes uuid (calculate_uuid md5 name_sv_command_info_remove)
    then some (process_ex_command_info_remove body)
    else if eq_bytes uuid (calculate_uuid md5 name_sv_change_info_cooldown)
    then some (process_ex_change_info_cooldown vi body)
    else if eq_bytes uuid (calculate_uuid md5 name_sv_map_sound_global)
    then some (process_ex_map_sound_global vi body)
    else none

-- The capabilities, if they were stored.
unfoldable pub capability_events : Result ℤ → Result ℤ → List ServerEvent
capability_events (err e) second = []
capability_events (ok version) (err e) = []
capability_events (ok version) (ok flags) =
    if leb_ℤ version (pos 0)
    then []
    else server_capabilities (parse_server_capabilities version flags) ∷ []
