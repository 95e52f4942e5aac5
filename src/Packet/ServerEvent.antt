-- ===== src/Packet/ServerEvent.antt =====
-- The events of packet/event.go and packet/events_server.go that a 0.6 reader delivers, one
-- constructor for each struct, with its fields in their order; a map is a list of pairs.
use twclient.Prelude.{ℕ, List, Bool}
use twclient.Prelude.Int.{ℤ}
use twclient.Packet.Capabilities.{ServerCapabilities}
use twclient.Packet.MapChange.{MapInfo}
use twclient.Packet.Snap.{Snapshot}

pub data VoteOptionOp : Type 0 where
  vote_option_clear vote_option_add vote_option_remove : VoteOptionOp

pub data RconCmdOp : Type 0 where
  rcon_cmd_add rcon_cmd_remove : RconCmdOp

pub data ServerEvent : Type 0 where
  chat : ℤ → ℤ → List ℕ → ServerEvent
  server_msg : List ℕ → ServerEvent
  whisper : ℤ → ℤ → List ℕ → ServerEvent
  broadcast : List ℕ → ServerEvent
  motd : List ℕ → ServerEvent
  kill : ℤ → ℤ → ℤ → ℤ → ServerEvent
  emoticon : ℤ → ℤ → ServerEvent
  weapon_pickup : ℤ → ServerEvent
  sound_global : ℤ → ServerEvent
  tune_params : List ℤ → ServerEvent
  vote_set : ℤ → List ℕ → List ℕ → ServerEvent
  vote_status : ℤ → ℤ → ℤ → ℤ → ServerEvent
  vote_option : VoteOptionOp → List ℕ → ServerEvent
  your_vote : ℤ → ServerEvent
  rcon_line : List ℕ → ServerEvent
  rcon_auth : Bool → ℤ → ServerEvent
  rcon_cmd : RconCmdOp → List ℕ → List ℕ → List ℕ → ServerEvent
  server_error : List ℕ → ServerEvent
  teams_state : List (ℕ × ℤ) → ServerEvent
  kill_msg_team : ℤ → ℤ → ServerEvent
  command_info : List ℕ → List ℕ → List ℕ → ServerEvent
  command_info_remove : List ℕ → ServerEvent
  change_info_cooldown : ℤ → ServerEvent
  map_sound_global : ℤ → ServerEvent
  server_capabilities : ServerCapabilities → ServerEvent
  input_timing : ℤ → ℤ → ServerEvent
  race_finish : ℤ → Bool → ServerEvent
  checkpoint : ℤ → ServerEvent
  record_times : ℤ → ℤ → ServerEvent
  map_change : MapInfo → ServerEvent
  snapshot : Snapshot → ServerEvent
  closed_by : List ℕ → ServerEvent
