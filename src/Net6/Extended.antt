-- ===== src/Net6/Extended.antt =====
-- The decoders of net6/events_ex.go, for the messages that a UUID names.
use twclient.Prelude.{ℕ, suc, List, [], ◌∷◌, length, true, if◌then◌else◌}
use twclient.Prelude.Int.{ℤ, pos, eq_ℤ}
use twclient.Packer.Varint.{Varint}
use twclient.Packer.Reader.{Read, ◌>>=◌, pure}
use twclient.Packer.Unpack.{new_unpacker, next_int, next_string}
use twclient.Packet.ServerEvent.{
  ServerEvent, change_info_cooldown, command_info, command_info_remove, kill_msg_team,
  map_sound_global, race_finish, teams_state, your_vote,
}
use twclient.Net6.Events.{emitted, read_ints}

-- The number of each client whose team is not 0, from the client `cid` on.
unfoldable pub memberships : ℕ → List ℤ → List (ℕ × ℤ)
memberships cid [] = []
memberships cid (v ∷ vs) =
    let rest = memberships (suc cid) vs in if eq_ℤ v (pos 0) then rest else (cid, v) ∷ rest

unfoldable pub read_ex_command_info : Read (List ServerEvent)
read_ex_command_info = do
  name ← next_string
  args ← next_string
  help ← next_string
  pure (command_info name help args ∷ [])

unfoldable pub process_ex_command_info : List ℕ → List ServerEvent
process_ex_command_info bytes = emitted (read_ex_command_info (new_unpacker bytes))

unfoldable pub read_ex_command_info_remove : Read (List ServerEvent)
read_ex_command_info_remove = do name ← next_string; pure (command_info_remove name ∷ [])

unfoldable pub process_ex_command_info_remove : List ℕ → List ServerEvent
process_ex_command_info_remove bytes = emitted (read_ex_command_info_remove (new_unpacker bytes))

module _ (vi : Varint) where
  unfoldable pub read_ex_kill_msg_team : Read (List ServerEvent)
  read_ex_kill_msg_team = do
    team ← next_int vi
    first ← next_int vi
    pure (kill_msg_team team first ∷ [])

  unfoldable pub process_ex_kill_msg_team : List ℕ → List ServerEvent
  process_ex_kill_msg_team bytes = emitted (read_ex_kill_msg_team (new_unpacker bytes))

  unfoldable pub read_ex_your_vote : Read (List ServerEvent)
  read_ex_your_vote = do voted ← next_int vi; pure (your_vote voted ∷ [])

  unfoldable pub process_ex_your_vote : List ℕ → List ServerEvent
  process_ex_your_vote bytes = emitted (read_ex_your_vote (new_unpacker bytes))

  unfoldable pub read_ex_race_finish : Read (List ServerEvent)
  read_ex_race_finish = do
    client_id ← next_int vi
    time_centis ← next_int vi
    pure (race_finish time_centis true ∷ [])

  unfoldable pub process_ex_race_finish : List ℕ → List ServerEvent
  process_ex_race_finish bytes = emitted (read_ex_race_finish (new_unpacker bytes))

  unfoldable pub read_ex_change_info_cooldown : Read (List ServerEvent)
  read_ex_change_info_cooldown = do
    wait_until ← next_int vi
    pure (change_info_cooldown wait_until ∷ [])

  unfoldable pub process_ex_change_info_cooldown : List ℕ → List ServerEvent
  process_ex_change_info_cooldown bytes =
      emitted (read_ex_change_info_cooldown (new_unpacker bytes))

  unfoldable pub read_ex_map_sound_global : Read (List ServerEvent)
  read_ex_map_sound_global = do sound_id ← next_int vi; pure (map_sound_global sound_id ∷ [])

  unfoldable pub process_ex_map_sound_global : List ℕ → List ServerEvent
  process_ex_map_sound_global bytes = emitted (read_ex_map_sound_global (new_unpacker bytes))

  unfoldable pub process_ex_teams_state : List ℕ → List ServerEvent
  process_ex_teams_state bytes =
      teams_state (memberships 0 (read_ints vi (suc (length bytes)) (new_unpacker bytes))) ∷ []
