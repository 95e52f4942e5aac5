-- ===== src/Net6/Messages.antt =====
-- net6/messages.go: the payloads of the messages that a 0.6 client sends, and the wrapping of a
-- payload in a chunk. A string is its list of bytes and has no NUL; a token is its four bytes.
pub mod RoundTrip
use twclient.Prelude.{
  ℕ, List, [], ◌∷◌, ◌++◌, Bool, true, false, length, replicate, copy, copy_at, get_or, set, bit_and,
  bit_or,
}
use twclient.Prelude.Int.{ℤ, pos, negsuc}
use twclient.Packer.Varint.{Varint}
use twclient.Packer.Pack.{pack_int, pack_bool, pack_string, pack_msg_id, append_int, append_msg_id}
use twclient.Packet.Chunk.{pack}
use twclient.Packet.Token.{Token, vital_header, plain_header}
use twclient.Packer.Uuid.{calculate_uuid}

abbrev pub msg_ctrl_keep_alive : ℕ
msg_ctrl_keep_alive = 0x00

abbrev pub msg_ctrl_connect : ℕ
msg_ctrl_connect = 0x01

abbrev pub msg_ctrl_connect_accept : ℕ
msg_ctrl_connect_accept = 0x02

abbrev pub msg_ctrl_accept : ℕ
msg_ctrl_accept = 0x03

abbrev pub msg_ctrl_close : ℕ
msg_ctrl_close = 0x04

unfoldable pub ctrl_connect : Token → List ℕ
ctrl_connect client_token = copy_at (set (replicate 513 0) 0 msg_ctrl_connect) 5 4 client_token

unfoldable pub ctrl_connect_accept : Token → List ℕ
ctrl_connect_accept server_token =
    copy_at (set (replicate 5 0) 0 msg_ctrl_connect_accept) 1 4 server_token

unfoldable pub ctrl_keep_alive : List ℕ
ctrl_keep_alive = msg_ctrl_keep_alive ∷ []

unfoldable pub ctrl_close : List ℕ → List ℕ
ctrl_close [] = msg_ctrl_close ∷ []
ctrl_close (c ∷ reason) = (msg_ctrl_close ∷ []) ++ pack_string (c ∷ reason)

-- "0.6 626fce9a778df4d4"
abbrev pub net_version : List ℕ
net_version =
    48 ∷ 46 ∷ 54 ∷ 32 ∷ 54 ∷ 50 ∷ 54 ∷ 102 ∷ 99 ∷ 101 ∷ 57 ∷ 97 ∷ 55 ∷ 55 ∷ 56 ∷ 100 ∷ 102 ∷ 52
    ∷ 100 ∷ 52 ∷ []

-- "clientver@ddnet.tw"
abbrev pub client_ver_name : List ℕ
client_ver_name =
    99 ∷ 108 ∷ 105 ∷ 101 ∷ 110 ∷ 116 ∷ 118 ∷ 101 ∷ 114 ∷ 64 ∷ 100 ∷ 100 ∷ 110 ∷ 101 ∷ 116 ∷ 46 ∷ 116
    ∷ 119 ∷ []

abbrev pub ddnet_version : ℤ
ddnet_version = pos 19070

-- "DDNet 19.0.7 (tw-protocol/go)"
abbrev pub ddnet_version_str : List ℕ
ddnet_version_str =
    68 ∷ 68 ∷ 78 ∷ 101 ∷ 116 ∷ 32 ∷ 49 ∷ 57 ∷ 46 ∷ 48 ∷ 46 ∷ 55 ∷ 32 ∷ 40 ∷ 116 ∷ 119 ∷ 45 ∷ 112
    ∷ 114 ∷ 111 ∷ 116 ∷ 111 ∷ 99 ∷ 111 ∷ 108 ∷ 47 ∷ 103 ∷ 111 ∷ 41 ∷ []

-- The version and the variant of a random UUID.
unfoldable pub stamp_random : List ℕ → List ℕ
stamp_random conn_uuid =
    let versioned = set conn_uuid 6 (bit_or (bit_and (get_or conn_uuid 6 0) 0x0f) 0x40) in
    set versioned 8 (bit_or (bit_and (get_or versioned 8 0) 0x3f) 0x80)

abbrev pub msg_sys_ex : ℤ
msg_sys_ex = pos 0

abbrev pub msg_sys_info : ℤ
msg_sys_info = pos 1

abbrev pub msg_sys_ready : ℤ
msg_sys_ready = pos 14

abbrev pub msg_sys_enter_game : ℤ
msg_sys_enter_game = pos 15

abbrev pub msg_sys_input : ℤ
msg_sys_input = pos 16

abbrev pub msg_sys_rcon_cmd : ℤ
msg_sys_rcon_cmd = pos 17

abbrev pub msg_sys_rcon_auth : ℤ
msg_sys_rcon_auth = pos 18

abbrev pub msg_sys_request_map_data : ℤ
msg_sys_request_map_data = pos 19

abbrev pub msg_sys_ping : ℤ
msg_sys_ping = pos 22

abbrev pub msg_sys_ping_reply : ℤ
msg_sys_ping_reply = pos 23

abbrev pub msg_game_cl_say : ℤ
msg_game_cl_say = pos 17

abbrev pub msg_game_cl_set_team : ℤ
msg_game_cl_set_team = pos 18

abbrev pub msg_game_cl_set_spectator_mode : ℤ
msg_game_cl_set_spectator_mode = pos 19

abbrev pub msg_game_cl_start_info : ℤ
msg_game_cl_start_info = pos 20

abbrev pub msg_game_cl_change_info : ℤ
msg_game_cl_change_info = pos 21

abbrev pub msg_game_cl_kill : ℤ
msg_game_cl_kill = pos 22

abbrev pub msg_game_cl_emoticon : ℤ
msg_game_cl_emoticon = pos 23

abbrev pub msg_game_cl_vote : ℤ
msg_game_cl_vote = pos 24

abbrev pub msg_game_cl_call_vote : ℤ
msg_game_cl_call_vote = pos 25

abbrev pub split : ℕ
split = 4

unfoldable pub wrap_vital_chunk : List ℕ → ℕ → List ℕ
wrap_vital_chunk payload seq = pack split (vital_header payload seq) ++ payload

unfoldable pub wrap_chunk : List ℕ → List ℕ
wrap_chunk payload = pack split (plain_header payload) ++ payload

module _ (vi : Varint) where
  -- `md5` makes the UUID of the name "clientver@ddnet.tw"; `random` is what `rand.Read` gives.
  unfoldable pub sys_client_ver : (List ℕ → List ℕ) → List ℕ → List ℕ
  sys_client_ver md5 random =
      (((pack_msg_id vi msg_sys_ex true ++ calculate_uuid md5 client_ver_name)
          ++ stamp_random (copy (replicate 16 0) random))
        ++ pack_int vi ddnet_version)
      ++ pack_string ddnet_version_str

  unfoldable pub sys_info : List ℕ → List ℕ → List ℕ
  sys_info version password =
      (pack_msg_id vi msg_sys_info true ++ pack_string version) ++ pack_string password

  unfoldable pub sys_ready : List ℕ
  sys_ready = pack_msg_id vi msg_sys_ready true

  unfoldable pub sys_enter_game : List ℕ
  sys_enter_game = pack_msg_id vi msg_sys_enter_game true

  unfoldable pub sys_input : ℤ → ℤ → ℤ → List ℕ → List ℕ
  sys_input ack_game_tick pred_tick input_size input_data =
      let data0 = append_msg_id vi [] msg_sys_input true in
      let data1 = append_int vi data0 ack_game_tick in
      let data2 = append_int vi data1 pred_tick in
      let data3 = append_int vi data2 input_size in data3 ++ input_data

  unfoldable pub sys_ping : List ℕ
  sys_ping = pack_msg_id vi msg_sys_ping true

  unfoldable pub sys_ping_reply : List ℕ
  sys_ping_reply = pack_msg_id vi msg_sys_ping_reply true

  -- An empty login name, the password, and the request for the list of commands.
  unfoldable pub sys_rcon_auth : List ℕ → List ℕ
  sys_rcon_auth password =
      ((pack_msg_id vi msg_sys_rcon_auth true ++ pack_string []) ++ pack_string password)
      ++ pack_int vi (pos 1)

  unfoldable pub sys_rcon_cmd : List ℕ → List ℕ
  sys_rcon_cmd cmd = pack_msg_id vi msg_sys_rcon_cmd true ++ pack_string cmd

  unfoldable pub sys_request_map_data : ℤ → List ℕ
  sys_request_map_data chunk_idx =
      pack_msg_id vi msg_sys_request_map_data true ++ pack_int vi chunk_idx

  unfoldable pub game_cl_say : Bool → List ℕ → List ℕ
  game_cl_say team message =
      (pack_msg_id vi msg_game_cl_say false ++ pack_bool vi team) ++ pack_string message

  unfoldable pub game_cl_start_info : List ℕ → List ℕ → ℤ → List ℕ → Bool → ℤ → ℤ → List ℕ
  game_cl_start_info name clan country skin use_custom_color color_body color_feet =
      ((((((pack_msg_id vi msg_game_cl_start_info false ++ pack_string name) ++ pack_string clan)
              ++ pack_int vi country)
            ++ pack_string skin)
          ++ pack_bool vi use_custom_color)
        ++ pack_int vi color_body)
      ++ pack_int vi color_feet

  unfoldable pub game_cl_change_info : List ℕ → List ℕ → ℤ → List ℕ → Bool → ℤ → ℤ → List ℕ
  game_cl_change_info name clan country skin use_custom_color color_body color_feet =
      ((((((pack_msg_id vi msg_game_cl_change_info false ++ pack_string name) ++ pack_string clan)
              ++ pack_int vi country)
            ++ pack_string skin)
          ++ pack_bool vi use_custom_color)
        ++ pack_int vi color_body)
      ++ pack_int vi color_feet

  unfoldable pub game_cl_set_team : ℤ → List ℕ
  game_cl_set_team team = pack_msg_id vi msg_game_cl_set_team false ++ pack_int vi team

  unfoldable pub game_cl_kill : List ℕ
  game_cl_kill = pack_msg_id vi msg_game_cl_kill false

  unfoldable pub game_cl_emoticon : ℤ → List ℕ
  game_cl_emoticon emoticon = pack_msg_id vi msg_game_cl_emoticon false ++ pack_int vi emoticon

  unfoldable pub game_cl_vote : ℤ → List ℕ
  game_cl_vote vote = pack_msg_id vi msg_game_cl_vote false ++ pack_int vi vote

  unfoldable pub game_cl_call_vote : List ℕ → List ℕ → List ℕ → List ℕ
  game_cl_call_vote vote_type value reason =
      ((pack_msg_id vi msg_game_cl_call_vote false ++ pack_string vote_type) ++ pack_string value)
      ++ pack_string reason

  unfoldable pub game_cl_set_spectator_mode : ℤ → List ℕ
  game_cl_set_spectator_mode spectator_id =
      pack_msg_id vi msg_game_cl_set_spectator_mode false ++ pack_int vi spectator_id
