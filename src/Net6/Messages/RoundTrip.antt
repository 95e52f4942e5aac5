-- ===== src/Net6/Messages/RoundTrip.antt =====
-- Every message that a 0.6 client builds is read back by the `Unpacker` of packer/packer.go.
use twclient.Prelude.{
  ℕ, ◌≡◌, ap, sym, ◌∙◌, arith, List, [], ◌∷◌, ◌++◌, map, append_assoc, append-nil, Bool, true,
  false, replicate, copy, ◌<◌, length, length-append,
}
use twclient.Prelude.Int.{ℤ, pos}
use twclient.Packer.Varint.{Varint}
use twclient.Packer.Reader.{ok}
use twclient.Packer.Unpack.{new_unpacker}
use twclient.Packer.Pack.{append_int, append_msg_id, pack_msg_id, clamp32, msg_id_word}
use twclient.Packer.Uuid.{calculate_uuid}
use twclient.Packer.RoundTrip.{IsMsgId}
use twclient.Packet.Fields.{
  Field, int_field, str_field, raw_field, bool_field, kind_of, arrived_field, AllCanSend,
  fields_bytes, read_message, read_message_back, pack_bool-field, append_int-pack_int,
}
use twclient.Net6.Messages.{
  game_cl_call_vote, game_cl_change_info, game_cl_emoticon, game_cl_kill, game_cl_say,
  game_cl_set_spectator_mode, game_cl_set_team, game_cl_start_info, game_cl_vote,
  msg_game_cl_call_vote, msg_game_cl_change_info, msg_game_cl_emoticon, msg_game_cl_kill,
  msg_game_cl_say, msg_game_cl_set_spectator_mode, msg_game_cl_set_team, msg_game_cl_start_info,
  msg_game_cl_vote, msg_sys_enter_game, msg_sys_ex, msg_sys_info, msg_sys_input, msg_sys_ping,
  msg_sys_ping_reply, msg_sys_rcon_auth, msg_sys_rcon_cmd, msg_sys_ready, msg_sys_request_map_data,
  sys_client_ver, sys_enter_game, sys_info, sys_input, sys_ping, sys_ping_reply, sys_rcon_auth,
  sys_rcon_cmd, sys_ready, sys_request_map_data, client_ver_name, ddnet_version, ddnet_version_str,
  stamp_random,
}

pub data ClientMessage : Type 0 where
  info : List ℕ → List ℕ → ClientMessage
  client_ver : (List ℕ → List ℕ) → List ℕ → ClientMessage
  ready : ClientMessage
  enter_game : ClientMessage
  input : ℤ → ℤ → ℤ → List ℕ → ClientMessage
  ping : ClientMessage
  ping_reply : ClientMessage
  rcon_auth : List ℕ → ClientMessage
  rcon_cmd : List ℕ → ClientMessage
  request_map_data : ℤ → ClientMessage
  say : Bool → List ℕ → ClientMessage
  start_info : List ℕ → List ℕ → ℤ → List ℕ → Bool → ℤ → ℤ → ClientMessage
  change_info : List ℕ → List ℕ → ℤ → List ℕ → Bool → ℤ → ℤ → ClientMessage
  set_team : ℤ → ClientMessage
  kill : ClientMessage
  emoticon : ℤ → ClientMessage
  vote : ℤ → ClientMessage
  call_vote : List ℕ → List ℕ → List ℕ → ClientMessage
  spectate : ℤ → ClientMessage

module _ (vi : Varint) where
  -- The bytes that the builder of a message gives.
  unfoldable pub payload_of : ClientMessage → List ℕ
  payload_of (info version password) = sys_info vi version password
  payload_of (client_ver md5 random) = sys_client_ver vi md5 random
  payload_of ready = sys_ready vi
  payload_of enter_game = sys_enter_game vi
  payload_of (input ack_game_tick pred_tick input_size input_data) =
      sys_input vi ack_game_tick pred_tick input_size input_data
  payload_of ping = sys_ping vi
  payload_of ping_reply = sys_ping_reply vi
  payload_of (rcon_auth password) = sys_rcon_auth vi password
  payload_of (rcon_cmd cmd) = sys_rcon_cmd vi cmd
  payload_of (request_map_data chunk_idx) = sys_request_map_data vi chunk_idx
  payload_of (say team message) = game_cl_say vi team message
  payload_of (start_info name clan country skin use_custom_color color_body color_feet) =
      game_cl_start_info vi name clan country skin use_custom_color color_body color_feet
  payload_of (change_info name clan country skin use_custom_color color_body color_feet) =
      game_cl_change_info vi name clan country skin use_custom_color color_body color_feet
  payload_of (set_team team) = game_cl_set_team vi team
  payload_of kill = game_cl_kill vi
  payload_of (emoticon e) = game_cl_emoticon vi e
  payload_of (vote v) = game_cl_vote vi v
  payload_of (call_vote vote_type value reason) = game_cl_call_vote vi vote_type value reason
  payload_of (spectate spectator_id) = game_cl_set_spectator_mode vi spectator_id

abbrev pub id_of : ClientMessage → ℤ
id_of (info _ _) = msg_sys_info
id_of (client_ver _ _) = msg_sys_ex
id_of ready = msg_sys_ready
id_of enter_game = msg_sys_enter_game
id_of (input _ _ _ _) = msg_sys_input
id_of ping = msg_sys_ping
id_of ping_reply = msg_sys_ping_reply
id_of (rcon_auth _) = msg_sys_rcon_auth
id_of (rcon_cmd _) = msg_sys_rcon_cmd
id_of (request_map_data _) = msg_sys_request_map_data
id_of (say _ _) = msg_game_cl_say
id_of (start_info _ _ _ _ _ _ _) = msg_game_cl_start_info
id_of (change_info _ _ _ _ _ _ _) = msg_game_cl_change_info
id_of (set_team _) = msg_game_cl_set_team
id_of kill = msg_game_cl_kill
id_of (emoticon _) = msg_game_cl_emoticon
id_of (vote _) = msg_game_cl_vote
id_of (call_vote _ _ _) = msg_game_cl_call_vote
id_of (spectate _) = msg_game_cl_set_spectator_mode

abbrev pub is_system : ClientMessage → Bool
is_system (info _ _) = true
is_system (client_ver _ _) = true
is_system ready = true
is_system enter_game = true
is_system (input _ _ _ _) = true
is_system ping = true
is_system ping_reply = true
is_system (rcon_auth _) = true
is_system (rcon_cmd _) = true
is_system (request_map_data _) = true
is_system (say _ _) = false
is_system (start_info _ _ _ _ _ _ _) = false
is_system (change_info _ _ _ _ _ _ _) = false
is_system (set_team _) = false
is_system kill = false
is_system (emoticon _) = false
is_system (vote _) = false
is_system (call_vote _ _ _) = false
is_system (spectate _) = false

abbrev pub fields_of : ClientMessage → List Field
fields_of (info version password) = str_field version ∷ str_field password ∷ []
fields_of (client_ver md5 random) =
    raw_field (calculate_uuid md5 client_ver_name)
    ∷ raw_field (stamp_random (copy (replicate 16 0) random))
    ∷ int_field ddnet_version
    ∷ str_field ddnet_version_str
    ∷ []
fields_of ready = []
fields_of enter_game = []
fields_of (input ack_game_tick pred_tick input_size input_data) =
    int_field ack_game_tick ∷ int_field pred_tick ∷ int_field input_size ∷ raw_field input_data ∷ []
fields_of ping = []
fields_of ping_reply = []
fields_of (rcon_auth password) = str_field [] ∷ str_field password ∷ int_field (pos 1) ∷ []
fields_of (rcon_cmd cmd) = str_field cmd ∷ []
fields_of (request_map_data chunk_idx) = int_field chunk_idx ∷ []
fields_of (say team message) = bool_field team ∷ str_field message ∷ []
fields_of (start_info name clan country skin use_custom_color color_body color_feet) =
    str_field name
    ∷ str_field clan
    ∷ int_field country
    ∷ str_field skin
    ∷ bool_field use_custom_color
    ∷ int_field color_body
    ∷ int_field color_feet
    ∷ []
fields_of (change_info name clan country skin use_custom_color color_body color_feet) =
    str_field name
    ∷ str_field clan
    ∷ int_field country
    ∷ str_field skin
    ∷ bool_field use_custom_color
    ∷ int_field color_body
    ∷ int_field color_feet
    ∷ []
fields_of (set_team team) = int_field team ∷ []
fields_of kill = []
fields_of (emoticon e) = int_field e ∷ []
fields_of (vote v) = int_field v ∷ []
fields_of (call_vote vote_type value reason) =
    str_field vote_type ∷ str_field value ∷ str_field reason ∷ []
fields_of (spectate spectator_id) = int_field spectator_id ∷ []

id_of-IsMsgId : (m : ClientMessage) → IsMsgId (id_of m)
id_of-IsMsgId (info _ _) = (omega arith, omega arith)
id_of-IsMsgId (client_ver _ _) = (omega arith, omega arith)
id_of-IsMsgId ready = (omega arith, omega arith)
id_of-IsMsgId enter_game = (omega arith, omega arith)
id_of-IsMsgId (input _ _ _ _) = (omega arith, omega arith)
id_of-IsMsgId ping = (omega arith, omega arith)
id_of-IsMsgId ping_reply = (omega arith, omega arith)
id_of-IsMsgId (rcon_auth _) = (omega arith, omega arith)
id_of-IsMsgId (rcon_cmd _) = (omega arith, omega arith)
id_of-IsMsgId (request_map_data _) = (omega arith, omega arith)
id_of-IsMsgId (say _ _) = (omega arith, omega arith)
id_of-IsMsgId (start_info _ _ _ _ _ _ _) = (omega arith, omega arith)
id_of-IsMsgId (change_info _ _ _ _ _ _ _) = (omega arith, omega arith)
id_of-IsMsgId (set_team _) = (omega arith, omega arith)
id_of-IsMsgId kill = (omega arith, omega arith)
id_of-IsMsgId (emoticon _) = (omega arith, omega arith)
id_of-IsMsgId (vote _) = (omega arith, omega arith)
id_of-IsMsgId (call_vote _ _ _) = (omega arith, omega arith)
id_of-IsMsgId (spectate _) = (omega arith, omega arith)

module _ (vi : Varint) where
  sys_input_fields :
      (ack_game_tick pred_tick input_size : ℤ) (input_data : List ℕ)
      → sys_input vi ack_game_tick pred_tick input_size input_data
        ≡ pack_msg_id vi msg_sys_input true
          ++ fields_bytes vi (
              int_field ack_game_tick
              ∷ int_field pred_tick
              ∷ int_field input_size
              ∷ raw_field input_data
              ∷ [])
  unfolding sys_input pack_msg_id
  sys_input_fields ack_game_tick pred_tick input_size input_data =
      simp (append_int-pack_int vi, append_assoc, append-nil)

  -- A builder writes the id and then the fields.
  payload_of-fields :
      (m : ClientMessage)
      → payload_of vi m ≡ pack_msg_id vi (id_of m) (is_system m) ++ fields_bytes vi (fields_of m)
  unfolding payload_of game_cl_call_vote game_cl_change_info game_cl_emoticon game_cl_kill
      game_cl_say game_cl_set_spectator_mode game_cl_set_team game_cl_start_info game_cl_vote
      sys_client_ver sys_enter_game sys_info sys_input sys_ping sys_ping_reply sys_rcon_auth
      sys_rcon_cmd sys_ready sys_request_map_data
  payload_of-fields (info version password) = simp (sys_info, append_assoc, append-nil)
  payload_of-fields (client_ver md5 random) = simp (sys_client_ver, append_assoc, append-nil)
  payload_of-fields ready = sym (append-nil _)
  payload_of-fields enter_game = sym (append-nil _)
  payload_of-fields (input ack_game_tick pred_tick input_size input_data) =
      sys_input_fields ack_game_tick pred_tick input_size input_data
  payload_of-fields ping = sym (append-nil _)
  payload_of-fields ping_reply = sym (append-nil _)
  payload_of-fields (rcon_auth password) = simp (sys_rcon_auth, append_assoc, append-nil)
  payload_of-fields (rcon_cmd cmd) = simp (sys_rcon_cmd, append-nil)
  payload_of-fields (request_map_data chunk_idx) = simp (sys_request_map_data, append-nil)
  payload_of-fields (say team message) =
      simp (game_cl_say, pack_bool-field vi, append_assoc, append-nil)
  payload_of-fields (start_info name clan country skin use_custom_color color_body color_feet) =
      simp (game_cl_start_info, pack_bool-field vi, append_assoc, append-nil)
  payload_of-fields (change_info name clan country skin use_custom_color color_body color_feet) =
      simp (game_cl_change_info, pack_bool-field vi, append_assoc, append-nil)
  payload_of-fields (set_team team) = simp (game_cl_set_team, append-nil)
  payload_of-fields kill = sym (append-nil _)
  payload_of-fields (emoticon e) = simp (game_cl_emoticon, append-nil)
  payload_of-fields (vote v) = simp (game_cl_vote, append-nil)
  payload_of-fields (call_vote vote_type value reason) =
      simp (game_cl_call_vote, append_assoc, append-nil)
  payload_of-fields (spectate spectator_id) = simp (game_cl_set_spectator_mode, append-nil)

  -- The id takes a byte at least.
  pub payload_of-nonempty : (m : ClientMessage) → 0 < length (payload_of vi m)
  unfolding pack_msg_id append_msg_id append_int
  payload_of-nonempty m = omega (
    arith,
    ap length (payload_of-fields m),
    length-append (pack_msg_id vi (id_of m) (is_system m)) (fields_bytes vi (fields_of m)),
    vi.encoding_nonempty (clamp32 (msg_id_word (id_of m) (is_system m))),
  )

  -- The payload of every message, whatever follows it, is read back by `NextMsgAndSys` and one read
  -- for each of its fields: the id, the system flag and the fields, integers clamped to 32 bits and
  -- strings sanitized. No string of the message has a NUL.
  pub client_message_back :
      (m : ClientMessage) (bytes : List ℕ)
      → AllCanSend (fields_of m)
      → (read_message vi (map kind_of (fields_of m)) (new_unpacker (payload_of vi m ++ bytes))).0
        ≡ ok ((id_of m, is_system m), map arrived_field (fields_of m))
  unfolding new_unpacker
  client_message_back m bytes h =
      let written =
        ap (λ t. t ++ bytes) (payload_of-fields m)
        ∙ append_assoc (pack_msg_id vi (id_of m) (is_system m)) (fields_bytes vi (fields_of m))
            bytes in
      read_message_back vi (id_of m) (is_system m) (fields_of m)
        (new_unpacker (payload_of vi m ++ bytes)) bytes (id_of-IsMsgId m) h
        (record { inside = omega arith; left = written })
