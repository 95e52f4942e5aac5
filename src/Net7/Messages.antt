-- ===== src/Net7/Messages.antt =====
-- net7/messages.go: the payloads of the messages that a 0.7 client sends, and the wrapping of a
-- payload in a chunk. A string is its list of bytes and has no NUL; a token is its four bytes.
pub mod RoundTrip
use twclient.Prelude.{
  ℕ, ◌+◌, List, [], ◌∷◌, ◌++◌, Bool, true, false, length, if◌then◌else◌, replicate, copy_at, set,
  if◌then◌else◌,
}
use twclient.Prelude.Int.{ℤ, pos, negsuc}
use twclient.Packer.Varint.{Varint}
use twclient.Packer.Pack.{pack_int, pack_bool, pack_string, pack_msg_id, append_int, append_msg_id}
use twclient.Packet.Chunk.{pack}
use twclient.Packet.Token.{Token, vital_header, plain_header}

abbrev pub msg_ctrl_keep_alive : ℕ
msg_ctrl_keep_alive = 0x00

abbrev pub msg_ctrl_connect : ℕ
msg_ctrl_connect = 0x01

abbrev pub msg_ctrl_accept : ℕ
msg_ctrl_accept = 0x02

abbrev pub msg_ctrl_close : ℕ
msg_ctrl_close = 0x04

abbrev pub msg_ctrl_token : ℕ
msg_ctrl_token = 0x05

abbrev pub anti_reflection_size : ℕ
anti_reflection_size = 508

unfoldable pub ctrl_token : Token → Bool → List ℕ
ctrl_token response_token with_padding =
    let plain = (msg_ctrl_token ∷ []) ++ response_token in
    if with_padding then plain ++ replicate anti_reflection_size 0 else plain

unfoldable pub ctrl_connect : Token → List ℕ
ctrl_connect response_token =
    copy_at (set (replicate (1 + 4 + anti_reflection_size) 0) 0 msg_ctrl_connect) 1 4 response_token

unfoldable pub ctrl_accept : List ℕ
ctrl_accept = msg_ctrl_accept ∷ []

unfoldable pub ctrl_keep_alive : List ℕ
ctrl_keep_alive = msg_ctrl_keep_alive ∷ []

unfoldable pub ctrl_close : List ℕ → List ℕ
ctrl_close [] = msg_ctrl_close ∷ []
ctrl_close (c ∷ reason) = (msg_ctrl_close ∷ []) ++ pack_string (c ∷ reason)

-- "0.7 802f1be60a05665f"
abbrev pub net_version : List ℕ
net_version =
    48 ∷ 46 ∷ 55 ∷ 32 ∷ 56 ∷ 48 ∷ 50 ∷ 102 ∷ 49 ∷ 98 ∷ 101 ∷ 54 ∷ 48 ∷ 97 ∷ 48 ∷ 53 ∷ 54 ∷ 54 ∷ 53
    ∷ 102 ∷ []

abbrev pub msg_sys_info : ℤ
msg_sys_info = pos 1

abbrev pub msg_sys_ready : ℤ
msg_sys_ready = pos 18

abbrev pub msg_sys_enter_game : ℤ
msg_sys_enter_game = pos 19

abbrev pub msg_sys_input : ℤ
msg_sys_input = pos 20

abbrev pub msg_sys_rcon_cmd : ℤ
msg_sys_rcon_cmd = pos 21

abbrev pub msg_sys_rcon_auth : ℤ
msg_sys_rcon_auth = pos 22

abbrev pub msg_sys_request_map_data : ℤ
msg_sys_request_map_data = pos 23

abbrev pub msg_sys_ping : ℤ
msg_sys_ping = pos 26

abbrev pub msg_sys_ping_reply : ℤ
msg_sys_ping_reply = pos 27

abbrev pub msg_game_cl_say : ℤ
msg_game_cl_say = pos 24

abbrev pub msg_game_cl_set_team : ℤ
msg_game_cl_set_team = pos 25

abbrev pub msg_game_cl_set_spectator_mode : ℤ
msg_game_cl_set_spectator_mode = pos 26

abbrev pub msg_game_cl_start_info : ℤ
msg_game_cl_start_info = pos 27

abbrev pub msg_game_cl_kill : ℤ
msg_game_cl_kill = pos 28

abbrev pub msg_game_cl_emoticon : ℤ
msg_game_cl_emoticon = pos 30

abbrev pub msg_game_cl_vote : ℤ
msg_game_cl_vote = pos 31

abbrev pub msg_game_cl_call_vote : ℤ
msg_game_cl_call_vote = pos 32

abbrev pub split : ℕ
split = 6

unfoldable pub wrap_vital_chunk : List ℕ → ℕ → List ℕ
wrap_vital_chunk payload seq = pack split (vital_header payload seq) ++ payload

unfoldable pub wrap_chunk : List ℕ → List ℕ
wrap_chunk payload = pack split (plain_header payload) ++ payload

-- `for i := range 6 { data = append(data, pack(xs[i])...) }`; an array of six is a list of six.
abbrev pub append_each : {A : Type 0} → (A → List ℕ) → List ℕ → List A → List ℕ
append_each pack_one bytes [] = bytes
append_each pack_one bytes (x ∷ xs) = append_each pack_one (bytes ++ pack_one x) xs

-- The spectator mode is 2 for a player and 0 for the free view.
unfoldable pub spec_mode : ℤ → ℤ
spec_mode (pos n) = pos 2
spec_mode (negsuc n) = pos 0

module _ (vi : Varint) where
  unfoldable pub sys_info : List ℕ → List ℕ → List ℕ
  sys_info version password =
      (pack_msg_id vi msg_sys_info true ++ pack_string version) ++ pack_string password

  unfoldable pub sys_ready : List ℕ
  sys_ready = pack_msg_id vi msg_sys_ready true

  unfoldable pub sys_enter_game : List ℕ
  sys_enter_game = pack_msg_id vi msg_sys_enter_game true

  unfoldable pub sys_input : ℤ → ℤ → ℤ → List ℕ → List ℕ
  sys_input ack_game_tick pred_tick input_size input_data =
      let data0 = append_msg_id vi [] msg_sys_input true in
      let data1 = append_int vi data0 ack_game_tick in
      let data2 = append_int vi data1 pred_tick in
      let data3 = append_int vi data2 input_size in data3 ++ input_data

  unfoldable pub sys_ping : List ℕ
  sys_ping = pack_msg_id vi msg_sys_ping true

  unfoldable pub sys_ping_reply : List ℕ
  sys_ping_reply = pack_msg_id vi msg_sys_ping_reply true

  unfoldable pub sys_rcon_auth : List ℕ → List ℕ
  sys_rcon_auth password = pack_msg_id vi msg_sys_rcon_auth true ++ pack_string password

  unfoldable pub sys_rcon_cmd : List ℕ → List ℕ
  sys_rcon_cmd cmd = pack_msg_id vi msg_sys_rcon_cmd true ++ pack_string cmd

  unfoldable pub sys_request_map_data : List ℕ
  sys_request_map_data = pack_msg_id vi msg_sys_request_map_data true

  unfoldable pub game_cl_say : Bool → List ℕ → List ℕ
  game_cl_say team message =
      (pack_msg_id vi msg_game_cl_say false ++ pack_bool vi team) ++ pack_string message

  unfoldable pub game_cl_start_info :
      List ℕ → List ℕ → ℤ → List (List ℕ) → List Bool → List ℤ → List ℕ
  game_cl_start_info name clan country skin_parts use_custom_colors color_body =
      let head =
        ((pack_msg_id vi msg_game_cl_start_info false ++ pack_string name) ++ pack_string clan)
        ++ pack_int vi country in
      let parts = append_each pack_string head skin_parts in
      let colored = append_each (pack_bool vi) parts use_custom_colors in
      append_each (pack_int vi) colored color_body

  unfoldable pub game_cl_set_team : ℤ → List ℕ
  game_cl_set_team team = pack_msg_id vi msg_game_cl_set_team false ++ pack_int vi team

  unfoldable pub game_cl_kill : List ℕ
  game_cl_kill = pack_msg_id vi msg_game_cl_kill false

  unfoldable pub game_cl_emoticon : ℤ → List ℕ
  game_cl_emoticon emoticon = pack_msg_id vi msg_game_cl_emoticon false ++ pack_int vi emoticon

  unfoldable pub game_cl_vote : ℤ → List ℕ
  game_cl_vote vote = pack_msg_id vi msg_game_cl_vote false ++ pack_int vi vote

  -- The force flag is 0.
  unfoldable pub game_cl_call_vote : List ℕ → List ℕ → List ℕ → List ℕ
  game_cl_call_vote vote_type value reason =
      (((pack_msg_id vi msg_game_cl_call_vote false ++ pack_string vote_type) ++ pack_string value)
        ++ pack_string reason)
      ++ pack_int vi (pos 0)

  unfoldable pub game_cl_set_spectator_mode : ℤ → List ℕ
  game_cl_set_spectator_mode spectator_id =
      (pack_msg_id vi msg_game_cl_set_spectator_mode false ++ pack_int vi (spec_mode spectator_id))
      ++ pack_int vi spectator_id
