-- ===== src/Net6/Session/Login.antt =====
-- The login of net6/session.go: `Handshake`, the two waits, and `Login`. The pending step of a wait
-- is sent again whenever an interval elapses.
use twclient.Prelude.{
  ℕ, zero, suc, ◌+◌, List, [], ◌∷◌, ◌++◌, length, take, drop, set, replicate, copy, copy_at, Bool,
  true, ◌&&◌, ltb, leb, ◌==◌, if◌then◌else◌, Option, none, some, get_or,
}
use twclient.Prelude.Int.{ℤ, pos, leb_ℤ}
use twclient.Packer.Varint.{Varint}
use twclient.Packer.Reader.{Result, ok, err}
use twclient.Packer.Unpack.{new_unpacker, next_int}
use twclient.Packer.Uuid.{calculate_uuid}
use twclient.Packet.MapChange.{MapInfo, parse_map_change_payload}
use twclient.Packet.Messages.{
  extract_sys_msg_payload, extract_all_sys_msg_payloads, contains_sys_msg,
}
use twclient.Packet.Capabilities.{parse_server_capabilities}
use twclient.Packet.Login.{LoginOption, LoginConfig, apply_login_options}
use twclient.Network.{
  Conn, Act, Outcome, and_then, then_do, update, ret, fail, send_raw, recv_resending, failed, done,
  deadline, bad_header, too_short, not_accept, server_closed_with,
}
use twclient.Net6.Header.{Header, unpack, size}
use twclient.Net6.Messages.{
  split, msg_ctrl_connect, msg_ctrl_connect_accept, msg_ctrl_accept, net_version, msg_sys_ex,
  sys_client_ver, sys_info, sys_ready, sys_enter_game, game_cl_start_info, wrap_vital_chunk,
}
use twclient.Net6.Builder.{build_ctrl_packet_no_token}
use twclient.Net6.Session.{
  Session, eq_bytes, Parsed, bad_packet, no_payload, parsed_payload, server_closed, next_seq,
  has_security_token, parse_payload, ack_chunks, send_chunks,
}

-- "TKEN"
abbrev pub security_token_magic : List ℕ
security_token_magic = 84 ∷ 75 ∷ 69 ∷ 78 ∷ []

-- "capabilities@ddnet.tw"
abbrev pub capabilities_name : List ℕ
capabilities_name =
    99 ∷ 97 ∷ 112 ∷ 97 ∷ 98 ∷ 105 ∷ 108 ∷ 105 ∷ 116 ∷ 105 ∷ 101 ∷ 115 ∷ 64 ∷ 100 ∷ 100 ∷ 110 ∷ 101
    ∷ 116 ∷ 46 ∷ 116 ∷ 119 ∷ []

abbrev pub msg_sys_map_change : ℤ
msg_sys_map_change = pos 2

abbrev pub msg_sys_con_ready : ℤ
msg_sys_con_ready = pos 4

unfoldable pub connect_payload : List ℕ → List ℕ
connect_payload client_token =
    let magic = copy_at (set (replicate 513 0) 0 msg_ctrl_connect) 1 4 security_token_magic in
    copy_at magic 5 4 client_token

unfoldable pub accept_payload : List ℕ → List ℕ
accept_payload security_token = copy_at (set (replicate 5 0) 0 msg_ctrl_accept) 1 4 security_token

-- What a wait does with a packet: go on, end, or fail since the server closed the connection.
pub data Step (M : Type 0) : Type 0 where
  again : Session M → Step M
  arrived : Session M → Step M
  closed : List ℕ → Session M → Step M

module _ {M : Type 0} where
  -- The tokens in the payload of a CONNECTACCEPT: after the magic, or after the message byte.
  unfoldable pub take_tokens : List ℕ → Session M → Session M
  take_tokens payload s =
      let security_token = copy s.security_token (take 4 (drop 5 payload)) in
      if leb 9 (length payload) && eq_bytes (take 4 (drop 1 payload)) security_token_magic
      then record s { security_token = security_token; server_token = security_token }
      else if leb 5 (length payload)
      then record s { server_token = copy s.server_token (take 4 (drop 1 payload)) }
      else s

  unfoldable pub read_accept : List ℕ → Option Header → Act (Session M) (Unit {0})
  unfolding take_tokens
  read_accept resp none = fail bad_header
  read_accept resp (some hdr) =
      if ltb (length resp) (size hdr + 1)
      then fail too_short
      else if get_or resp (size hdr) 0 == msg_ctrl_connect_accept
      then update (take_tokens (drop (size hdr) resp))
      else fail not_accept

  -- What a wait does with the control messages and with packets that it cannot read.
  unfoldable pub on_chunks : (Header → List ℕ → Session M → Step M) → Parsed → Session M → Step M
  on_chunks chunks bad_packet s = again s
  on_chunks chunks (no_payload hdr) s = again s
  on_chunks chunks (parsed_payload hdr payload) s =
      if hdr.flags.control
      then elim (server_closed payload) [ some reason ↦ closed reason s | none ↦ again s ]
      else chunks hdr payload (ack_chunks hdr payload s)

  unfoldable pub con_ready_chunks : Header → List ℕ → Session M → Step M
  con_ready_chunks hdr payload s =
      if contains_sys_msg payload msg_sys_con_ready split then arrived s else again s

  unfoldable pub con_ready_step : (List ℕ → Option (List ℕ)) → List ℕ → Session M → Step M
  unfolding on_chunks
  con_ready_step huff resp s = on_chunks con_ready_chunks (parse_payload huff s resp) s

  abbrev pub after_step :
      Step M → Conn → Act (Session M) (Unit {0}) → Outcome (Unit {0}) × (Session M × Conn)
  after_step (again s) c more = more (s, c)
  after_step (arrived s) c more = (done tt, (s, c))
  after_step (closed reason s) c more = (failed (server_closed_with reason), (s, c))

  -- The loop of `recvUntilMapChange` and `recvUntilConReady`. Each round takes an arrival; where
  -- none is left the context is over.
  unfoldable pub recv_until :
      ℕ → (List ℕ → Session M → Step M) → Act (Session M) (Unit {0}) → Act (Session M) (Unit {0})
  recv_until zero step resend w = fail deadline w
  recv_until (suc fuel) step resend w =
      and_then (recv_resending resend w)
        (λ resp (s, c). after_step (step resp s) c (recv_until fuel step resend))

  unfoldable pub recv_until_enough :
      (List ℕ → Session M → Step M) → Act (Session M) (Unit {0}) → Act (Session M) (Unit {0})
  recv_until_enough step resend (s, c) = recv_until (suc (length c.arrivals)) step resend (s, c)

  -- `WrapVitalChunk(payload, s.NextSeq())`, and then the rest.
  abbrev pub with_vital_chunk :
      {A : Type 0} → List ℕ → (List ℕ → Act (Session M) A) → Act (Session M) A
  with_vital_chunk payload next (s, c) =
      let (seq, s1) = next_seq s in next (wrap_vital_chunk payload seq) (s1, c)

  -- One pending step: it is sent, and sent again in the wait that follows.
  abbrev pub send_and_wait :
      Act (Session M) (Unit {0})
      → (Act (Session M) (Unit {0}) → Act (Session M) (Unit {0}))
      → Act (Session M) (Unit {0})
  send_and_wait send wait = then_do send (λ _. wait send)

  -- The version and the flags, as they were read; a version below 1 is refused.
  unfoldable pub with_capabilities : Result ℤ → Result ℤ → Session M → Session M
  with_capabilities (err e) second s = s
  with_capabilities (ok version) (err e) s = s
  with_capabilities (ok version) (ok flags) s =
      if leb_ℤ version (pos 0)
      then s
      else record s { caps = parse_server_capabilities version flags }

  -- A map change that cannot be parsed ends the wait too, and changes nothing.
  unfoldable pub with_map_info : Result MapInfo → Session M → Session M
  with_map_info (ok info) s = record s { map_info = info; parsed = none }
  with_map_info (err e) s = s

  module _ (vi : Varint) where
    unfoldable pub store_capabilities : List ℕ → Session M → Session M
    store_capabilities body s =
        let (first, u) = next_int vi (new_unpacker body) in
        with_capabilities first (next_int vi u).0 s

    module _ (md5 : List ℕ → List ℕ) where
      unfoldable pub maybe_parse_capabilities : List ℕ → Session M → Session M
      maybe_parse_capabilities ex_payload s =
          if ltb (length ex_payload) 16
          then s
          else if eq_bytes (take 16 ex_payload) (calculate_uuid md5 capabilities_name)
          then store_capabilities (drop 16 ex_payload) s
          else s

      unfoldable pub all_capabilities : List (List ℕ) → Session M → Session M
      all_capabilities [] s = s
      all_capabilities (ex ∷ exs) s = all_capabilities exs (maybe_parse_capabilities ex s)

      unfoldable pub take_map_change : Option (List ℕ) → Session M → Step M
      take_map_change none s = again s
      take_map_change (some bytes) s = arrived (with_map_info (parse_map_change_payload vi bytes) s)

      unfoldable pub map_change_chunks : Header → List ℕ → Session M → Step M
      map_change_chunks hdr payload s =
          take_map_change (extract_sys_msg_payload vi payload msg_sys_map_change split)
            (all_capabilities (extract_all_sys_msg_payloads vi payload msg_sys_ex split) s)

      unfoldable pub map_change_step : (List ℕ → Option (List ℕ)) → List ℕ → Session M → Step M
      unfolding on_chunks
      map_change_step huff resp s = on_chunks map_change_chunks (parse_payload huff s resp) s

module _ {M : Type 0} (huff : List ℕ → Option (List ℕ))
    (refuses : List (List ℕ) → List ℕ → Bool) where
  -- `Handshake`: CONNECT until an answer comes, then ACCEPT if there is a security token.
  unfoldable pub handshake : Act (Session M) (Unit {0})
  handshake (s, c) =
      let connect =
        send_raw refuses (build_ctrl_packet_no_token 0 (connect_payload s.client_token)) in
      then_do connect
        (λ _. then_do (recv_resending connect) (λ resp.
          then_do (read_accept resp (unpack resp)) (λ _ w.
            if has_security_token w.0
            then send_raw refuses (build_ctrl_packet_no_token 0 (accept_payload w.0.security_token))
                w
            else ret tt w)))
        (s, c)

  module _ (vi : Varint) (md5 : List ℕ → List ℕ) where
    unfoldable pub recv_until_map_change : Act (Session M) (Unit {0}) → Act (Session M) (Unit {0})
    recv_until_map_change resend = recv_until_enough (map_change_step vi md5 huff) resend

    unfoldable pub recv_until_con_ready : Act (Session M) (Unit {0}) → Act (Session M) (Unit {0})
    recv_until_con_ready resend = recv_until_enough (con_ready_step huff) resend

    -- The end of `Login`: what is sent once the server is ready.
    unfoldable pub enter_game : Act (Session M) (Unit {0})
    enter_game = with_vital_chunk (sys_enter_game vi) (λ chunk. send_chunks refuses 1 chunk)

    unfoldable pub start_and_enter : List ℕ → List ℕ → LoginConfig → Act (Session M) (Unit {0})
    start_and_enter name clan cfg =
        with_vital_chunk
          (game_cl_start_info vi name clan cfg.country cfg.skin true (pos 65408) (pos 65408))
          (λ chunk. then_do (send_chunks refuses 1 chunk) (λ _. enter_game))

    -- READY, until the server is, and then the rest.
    unfoldable pub ready_up : List ℕ → List ℕ → LoginConfig → Act (Session M) (Unit {0})
    ready_up name clan cfg = with_vital_chunk (sys_ready vi) (λ chunk.
        then_do (send_and_wait (send_chunks refuses 1 chunk) recv_until_con_ready)
          (λ _. start_and_enter name clan cfg))

    -- CLIENTVER and INFO in one packet, until the map change comes, and then the rest. `random` is
    -- what `rand.Read` gives to `SysClientVer`.
    unfoldable pub send_info : List ℕ → List ℕ → List ℕ → LoginConfig → Act (Session M) (Unit {0})
    send_info random name clan cfg =
        with_vital_chunk (sys_client_ver vi md5 random) (λ client_ver_chunk.
          with_vital_chunk (sys_info vi net_version cfg.password) (λ info_chunk.
            then_do
              (send_and_wait (send_chunks refuses 2 (client_ver_chunk ++ info_chunk))
                recv_until_map_change)
              (λ _. ready_up name clan cfg)))

    unfoldable pub login :
        List ℕ → List ℕ → List ℕ → List (Option LoginOption) → Act (Session M) (Unit {0})
    login random name clan opts =
        then_do handshake (λ _. send_info random name clan (apply_login_options opts))
