-- ===== src/Net6/Session.antt =====
-- The state of a `Session` of net6/session.go, what it sends, and how it reads a packet. `huff` is
-- `DecompressTo` of the package huffman, which gives none on an error. A mutex is held around each
-- change, so a method is one step. `M` is the type of parsed maps.
pub mod Login
pub mod Wire
pub mod WellFormed
pub mod Invariant
pub mod Completes
pub mod Download
pub mod Waiting
use twclient.Prelude.{
  ℕ, ◌+◌, ◌-◌, ◌%◌, List, [], ◌∷◌, ◌++◌, length, take, drop, Bool, true, false, not, ◌&&◌, leb,
  ◌==◌, if◌then◌else◌, Option, none, some,
}
use twclient.Prelude.Int.{ℤ, ltb_ℤ}
use twclient.Packer.Varint.{Varint}
use twclient.Packet.Token.{Token}
use twclient.Packet.Ack.{max_sequence, count_vital_chunks}
use twclient.Packet.MapChange.{MapInfo}
use twclient.Packet.Capabilities.{ServerCapabilities}
use twclient.Network.{Act, send_raw}
use twclient.Net6.Header.{Header, token_zero, pack, unpack, size}
use twclient.Net6.Messages.{
  split, msg_ctrl_close, ctrl_keep_alive, wrap_vital_chunk, wrap_chunk, sys_input,
}
use twclient.Net6.Builder.{no_flags, build_ctrl_packet_no_token}

pub record Session (M : Type 0) : Type 0 where
  pub client_token : Token
  pub server_token : Token
  pub security_token : List ℕ
  pub ack : ℕ
  pub sequence : ℕ
  pub last_acked_snap : ℤ
  pub map_info : MapInfo
  pub parsed : Option M
  pub caps : ServerCapabilities

abbrev pub security_token_unknown : List ℕ
security_token_unknown = 0xff ∷ 0xff ∷ 0xff ∷ 0xff ∷ []

-- `==` on byte arrays.
unfoldable pub eq_bytes : List ℕ → List ℕ → Bool
eq_bytes [] [] = true
eq_bytes [] (b ∷ t) = false
eq_bytes (a ∷ s) [] = false
eq_bytes (a ∷ s) (b ∷ t) = a == b && eq_bytes s t

-- What `parsePayload` returns: an error, a header without payload, or both.
pub data Parsed : Type 0 where
  bad_packet : Parsed
  no_payload : Header → Parsed
  parsed_payload : Header → List ℕ → Parsed

-- `serverClosed`: the reason, if the control payload is a close.
unfoldable pub server_closed : List ℕ → Option (List ℕ)
server_closed [] = none
server_closed (b ∷ reason) = if b == msg_ctrl_close then some reason else none

module _ {M : Type 0} where
  unfoldable pub next_seq : Session M → ℕ × Session M
  next_seq s = let seq = (s.sequence + 1) % max_sequence in (seq, record s { sequence = seq })

  unfoldable pub has_security_token : Session M → Bool
  has_security_token s = not (eq_bytes s.security_token security_token_unknown)

  unfoldable pub append_security_token : Session M → List ℕ → List ℕ
  append_security_token s pkt = if has_security_token s then pkt ++ s.security_token else pkt

  unfoldable pub strip_security_token : Session M → List ℕ → List ℕ
  strip_security_token s payload =
      if has_security_token s && leb 4 (length payload)
      then take (length payload - 4) payload
      else payload

  abbrev pub session_header : Session M → ℕ → Header
  session_header s num_chunks = record {
    flags = no_flags;
    ack = s.ack;
    num_chunks = num_chunks;
    token = token_zero;
  }

  unfoldable pub build_chunk_packet : Session M → ℕ → List ℕ → List ℕ
  build_chunk_packet s num_chunks chunk_data =
      append_security_token s (pack (session_header s num_chunks) ++ chunk_data)

  -- Of the packet whose header is read: its payload.
  unfoldable pub payload_of_packet :
      (List ℕ → Option (List ℕ)) → Session M → List ℕ → Option Header → Parsed
  payload_of_packet huff s resp none = bad_packet
  payload_of_packet huff s resp (some hdr) =
      let raw = drop (size hdr) resp in
      let payload =
        if hdr.flags.compression && not hdr.flags.control
        then elim (huff raw) [ some d ↦ d | none ↦ raw ]
        else raw in
      if leb (length resp) (size hdr)
      then no_payload hdr
      else parsed_payload hdr (strip_security_token s payload)

  unfoldable pub parse_payload : (List ℕ → Option (List ℕ)) → Session M → List ℕ → Parsed
  parse_payload huff s resp = payload_of_packet huff s resp (unpack resp)

  -- The acknowledgement of the chunks of a packet.
  unfoldable pub ack_chunks : Header → List ℕ → Session M → Session M
  ack_chunks hdr payload s = record s {
    ack = count_vital_chunks payload hdr.num_chunks s.ack split;
  }

  module _ (refuses : List (List ℕ) → List ℕ → Bool) where
    unfoldable pub send_packet : List ℕ → Act (Session M) (Unit {0})
    send_packet pkt (s, c) = send_raw refuses (append_security_token s pkt) (s, c)

    unfoldable pub send_ctrl : List ℕ → Act (Session M) (Unit {0})
    send_ctrl payload (s, c) = send_packet (build_ctrl_packet_no_token s.ack payload) (s, c)

    unfoldable pub send_chunks : ℕ → List ℕ → Act (Session M) (Unit {0})
    send_chunks num_chunks chunk_data (s, c) =
        send_raw refuses (build_chunk_packet s num_chunks chunk_data) (s, c)

    unfoldable pub send_vital_msg : List ℕ → Act (Session M) (Unit {0})
    send_vital_msg payload (s, c) =
        let (seq, s1) = next_seq s in send_chunks 1 (wrap_vital_chunk payload seq) (s1, c)

    unfoldable pub send_non_vital_msg : List ℕ → Act (Session M) (Unit {0})
    send_non_vital_msg payload = send_chunks 1 (wrap_chunk payload)

    unfoldable pub send_keep_alive : Act (Session M) (Unit {0})
    send_keep_alive = send_ctrl ctrl_keep_alive

    -- The tick is never below that of the last acknowledged snapshot.
    unfoldable pub send_input : Varint → ℤ → ℤ → ℤ → List ℕ → Act (Session M) (Unit {0})
    send_input vi tick pred_tick input_size input_data (s, c) =
        let latest = s.last_acked_snap in
        let acked = if ltb_ℤ tick latest then latest else tick in
        send_non_vital_msg (sys_input vi acked pred_tick input_size input_data) (s, c)
