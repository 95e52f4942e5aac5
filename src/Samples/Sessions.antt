-- ===== src/Samples/Sessions.antt =====
-- A login of protocol 0.6 with a server that has a token: CONNECTACCEPT after one lost CONNECT, a
-- packet that cannot be read, an interval, the map change, and CON_READY.
use twclient.Prelude.{
  ℕ, ◌≡◌, ◌<◌, refl, arith, List, [], ◌∷◌, ◌++◌, map, length, replicate, Bool, true, false, Option,
  none,
}
use twclient.Prelude.Int.{pos}
use twclient.Packer.Reader.{ok}
use twclient.Packer.Unpack.{new_unpacker}
use twclient.Packer.Sanitize.{sanitize, sanitize_default}
use twclient.Packer.Pack.{pack_string, pack_int}
use twclient.Packet.Chunk.{unpack_chunks}
use twclient.Packet.MapChange.{MapInfo, zero_hash}
use twclient.Packet.Capabilities.{no_capabilities}
use twclient.Packet.Fields.{kind_of, arrived_field, read_message}
use twclient.Network.{Arrival, arrives, elapses, Conn, Act, done}
use twclient.Net6.Header.{unpack, Header, token_zero}
use twclient.Net6.Builder.{no_flags}
use twclient.Net6.Messages.{wrap_vital_chunk}
use twclient.Net6.Messages.RoundTrip.{
  ClientMessage, say, payload_of, id_of, is_system, fields_of, client_message_back,
}
use twclient.Net6.Session.{
  Session, parse_payload, parsed_payload, session_header, build_chunk_packet, next_seq,
  security_token_unknown, send_chunks,
}
use twclient.Net6.Session.Login.{
  Step, again, arrived, closed, read_accept, con_ready_chunks, map_change_step, con_ready_step,
  after_step, recv_until_enough, login,
}
use twclient.Net6.Session.Wire.{vital_chunk, sent_message_back}
use twclient.Net6.Session.WellFormed.{IsSession}
use twclient.Net6.Session.Invariant.{login-IsSession}
use twclient.Net6.Session.Waiting.{
  Waits, here, lapse, pass, written_after, recv_until-Waits, Decides,
}
use twclient.Net6.Session.Completes.{Ends, login_completes}
use twclient.Samples.Integers.{sample_varint}

-- No packet is compressed, and every write succeeds.
abbrev pub huff : List ℕ → Option (List ℕ)
huff bytes = none

abbrev pub refuses : List (List ℕ) → List ℕ → Bool
refuses sent pkt = false

abbrev md5 : List ℕ → List ℕ
md5 bytes = replicate 16 7

abbrev pub fresh : Session ℕ
fresh = record {
  client_token = 9 ∷ 9 ∷ 9 ∷ 9 ∷ [];
  server_token = 0 ∷ 0 ∷ 0 ∷ 0 ∷ [];
  security_token = security_token_unknown;
  ack = 0;
  sequence = 0;
  last_acked_snap = pos 0;
  map_info = record {
    name = [];
    crc = pos 0;
    size = pos 0;
    sha256 = zero_hash;
    num_chunks_per_request = pos 0;
  };
  parsed = none;
  caps = no_capabilities;
}

abbrev token : List ℕ
token = 1 ∷ 2 ∷ 3 ∷ 4 ∷ []

abbrev with_token : Session ℕ
with_token = record fresh { server_token = token; security_token = token }

pub fresh-IsSession : IsSession fresh
fresh-IsSession = record {
  sequence_small = omega arith;
  ack_small = omega arith;
  security_token_length = refl;
  server_token_length = refl;
}

-- Say "hi" to the team.
abbrev say_hi : ClientMessage
say_hi = say true (104 ∷ 105 ∷ [])

client_message_back_example :
    (read_message sample_varint
      (map kind_of (fields_of say_hi))
      (new_unpacker (payload_of sample_varint say_hi ++ 7 ∷ []))).0
    ≡ ok ((id_of say_hi, is_system say_hi), map arrived_field (fields_of say_hi))
client_message_back_example =
    client_message_back sample_varint say_hi (7 ∷ [])
      (tt, (((λ e. absurd (omega arith)), ((λ e. absurd (omega arith)), tt)), tt))

abbrev after_info : Session ℕ
after_info = record with_token { sequence = 2 }

abbrev map_known : Session ℕ
map_known = record after_info {
  ack = 1;
  map_info = record {
    name = sanitize sanitize_default (97 ∷ []);
    crc = pos 1;
    size = pos 2;
    sha256 = zero_hash;
    num_chunks_per_request = pos 0;
  };
}

abbrev after_ready : Session ℕ
after_ready = record map_known { sequence = 3 }

abbrev server_ready : Session ℕ
server_ready = record after_ready { ack = 2 }

-- CONNECTACCEPT with "TKEN" and the token.
abbrev accept_packet : List ℕ
accept_packet = 16 ∷ 0 ∷ 0 ∷ 2 ∷ 84 ∷ 75 ∷ 69 ∷ 78 ∷ token

-- A vital chunk with the map change: "a", 1, 2.
abbrev map_change_packet : List ℕ
map_change_packet = 0 ∷ 0 ∷ 1 ∷ 64 ∷ 5 ∷ 1 ∷ 5 ∷ 97 ∷ 0 ∷ 1 ∷ 2 ∷ token

abbrev con_ready_packet : List ℕ
con_ready_packet = 0 ∷ 0 ∷ 1 ∷ 64 ∷ 1 ∷ 2 ∷ 9 ∷ token

-- CLOSE, with the reason "b".
abbrev close_packet : List ℕ
close_packet = 16 ∷ 0 ∷ 0 ∷ 4 ∷ 98 ∷ token

accept_read :
    (c : Conn)
    → read_accept accept_packet (unpack accept_packet) (fresh, c) ≡ (done tt, (with_token, c))
unfolding read_accept unpack twclient.Net6.Header.unpack_flags twclient.Net6.Header.size
    twclient.Net6.Session.eq_bytes
accept_read c = refl

map_change_ends :
    map_change_step sample_varint md5 huff map_change_packet after_info ≡ arrived map_known
unfolding map_change_step parse_payload twclient.Net6.Session.payload_of_packet unpack
    twclient.Net6.Header.unpack_flags twclient.Net6.Header.size
    twclient.Net6.Session.Login.on_chunks twclient.Net6.Session.server_closed
    twclient.Net6.Session.ack_chunks twclient.Net6.Session.strip_security_token
    twclient.Net6.Session.has_security_token twclient.Net6.Session.eq_bytes
    twclient.Packet.Ack.count_vital_chunks twclient.Packet.Ack.count_loop
    twclient.Packet.Ack.step_ack twclient.Packet.Ack.next_ack twclient.Packet.Ack.step_offset
    twclient.Prelude.Bits.and_not twclient.Net6.Session.Login.map_change_chunks
    twclient.Net6.Session.Login.take_map_change twclient.Net6.Session.Login.with_map_info
    twclient.Net6.Session.Login.all_capabilities
    twclient.Net6.Session.Login.maybe_parse_capabilities
    twclient.Net6.Session.Login.store_capabilities twclient.Net6.Session.Login.with_capabilities
    twclient.Packet.Messages.extract_sys_msg_payload twclient.Packet.Messages.extract_loop
    twclient.Packet.Messages.payload_at twclient.Packet.Messages.message_payload
    twclient.Packet.Messages.extract_all_loop twclient.Packet.Messages.extract_all_sys_msg_payloads
    twclient.Packer.Unpack.next_int twclient.Packer.Unpack.accept_int
    twclient.Packer.Unpack.index_nul twclient.Packer.Unpack.next_raw
    twclient.Packer.Unpack.next_string twclient.Packer.Unpack.next_string_sanitized
    twclient.Packer.Unpack.take_string new_unpacker
    twclient.Packet.MapChange.parse_map_change_payload twclient.Packet.MapChange.read_extensions
    twclient.Packet.MapChange.read_map_change twclient.Samples.Integers.read
    twclient.Samples.Integers.read_groups
map_change_ends = refl

con_ready_ends : con_ready_step huff con_ready_packet after_ready ≡ arrived server_ready
unfolding con_ready_step twclient.Net6.Session.Login.con_ready_chunks
    twclient.Packet.Messages.contains_sys_msg twclient.Packet.Messages.contains_msg
    twclient.Packet.Messages.contains_loop twclient.Packet.Messages.is_message parse_payload
    twclient.Net6.Session.payload_of_packet unpack twclient.Net6.Header.unpack_flags
    twclient.Net6.Header.size twclient.Net6.Session.Login.on_chunks
    twclient.Net6.Session.server_closed twclient.Net6.Session.ack_chunks
    twclient.Net6.Session.strip_security_token twclient.Net6.Session.has_security_token
    twclient.Net6.Session.eq_bytes twclient.Packet.Ack.count_vital_chunks
    twclient.Packet.Ack.count_loop twclient.Packet.Ack.step_ack twclient.Packet.Ack.next_ack
    twclient.Packet.Ack.step_offset twclient.Prelude.Bits.and_not
con_ready_ends = refl

junk_passes : con_ready_step huff [] after_ready ≡ again after_ready
unfolding con_ready_step parse_payload twclient.Net6.Session.payload_of_packet unpack
    twclient.Net6.Header.unpack_flags twclient.Net6.Header.size
    twclient.Net6.Session.Login.on_chunks twclient.Net6.Session.server_closed
    twclient.Net6.Session.ack_chunks twclient.Net6.Session.strip_security_token
    twclient.Net6.Session.has_security_token twclient.Net6.Session.eq_bytes
    twclient.Packet.Ack.count_vital_chunks twclient.Packet.Ack.count_loop
    twclient.Packet.Ack.step_ack twclient.Packet.Ack.next_ack twclient.Packet.Ack.step_offset
    twclient.Prelude.Bits.and_not
junk_passes = refl

say_hi_small : length (payload_of sample_varint say_hi) < 1024
unfolding payload_of twclient.Net6.Messages.game_cl_say twclient.Packer.Pack.pack_msg_id
    twclient.Packer.Pack.append_msg_id twclient.Packer.Pack.append_int
    twclient.Samples.Integers.write twclient.Packer.Pack.clamp32 twclient.Packer.Pack.msg_id_word
    twclient.Packer.Pack.pack_bool twclient.Packer.Pack.append_bool twclient.Packer.Pack.pack_string
say_hi_small = omega arith

sent_message_back_example :
    (parse_payload huff with_token
        (build_chunk_packet with_token 1 (wrap_vital_chunk (payload_of sample_varint say_hi) 7))
      ≡ parsed_payload
          (session_header with_token 1)
          (wrap_vital_chunk (payload_of sample_varint say_hi) 7))
    × (unpack_chunks 4 (wrap_vital_chunk (payload_of sample_varint say_hi) 7)
        ≡ vital_chunk (payload_of sample_varint say_hi) 7 ∷ [])
    × ((read_message sample_varint
          (map kind_of (fields_of say_hi))
          (new_unpacker (payload_of sample_varint say_hi))).0
        ≡ ok ((id_of say_hi, is_system say_hi), map arrived_field (fields_of say_hi)))
sent_message_back_example =
    sent_message_back with_token with_token sample_varint huff 7 say_hi (omega arith) (omega arith)
      say_hi_small (tt, (((λ e. absurd (omega arith)), ((λ e. absurd (omega arith)), tt)), tt)) refl
      refl

abbrev login_arrivals : List Arrival
login_arrivals =
    elapses
    ∷ arrives accept_packet
    ∷ arrives map_change_packet
    ∷ elapses
    ∷ arrives []
    ∷ arrives con_ready_packet
    ∷ arrives []
    ∷ []

login-IsSession_example :
    IsSession
      (login huff refuses sample_varint md5
        (replicate 16 5)
        (97 ∷ [])
        []
        []
        (fresh, record { arrivals = login_arrivals; sent = [] })).1.0
login-IsSession_example =
    login-IsSession huff refuses sample_varint md5 (replicate 16 5) (97 ∷ []) [] [] fresh
      (record { arrivals = login_arrivals; sent = [] }) fresh-IsSession

abbrev resend : Act (Session ℕ) (Unit {0})
resend = send_chunks refuses 1 (5 ∷ [])

abbrev pause : List Arrival
pause = elapses ∷ arrives [] ∷ []

pause-Waits : Waits (con_ready_step huff) pause after_ready after_ready
pause-Waits =
    lapse (arrives [] ∷ []) after_ready after_ready
      (pass [] [] after_ready after_ready after_ready junk_passes (here after_ready))

recv_until-Waits_example :
    Decides
      (con_ready_step huff con_ready_packet after_ready)
      (record {
        arrivals = [];
        sent =
            written_after
              (con_ready_step huff)
              refuses
              (λ sent pkt. refl)
              1
              (5 ∷ [])
              pause
              after_ready
              after_ready
              pause-Waits
              [];
      })
      (recv_until_enough (con_ready_step huff) resend)
      (recv_until_enough
        (con_ready_step huff)
        resend
        (after_ready, record { arrivals = pause ++ arrives con_ready_packet ∷ []; sent = [] }))
recv_until-Waits_example =
    recv_until-Waits (con_ready_step huff) refuses (λ sent pkt. refl) 1 (5 ∷ []) pause
      con_ready_packet [] [] after_ready after_ready pause-Waits

abbrev close_header : Header
close_header = record {
  flags = record no_flags { control = true };
  ack = 0;
  num_chunks = 0;
  token = token_zero;
}

login_completes_example :
    Ends
      (login huff refuses sample_varint md5
        (replicate 16 5)
        (97 ∷ [])
        []
        []
        (fresh, record { arrivals = login_arrivals; sent = [] }))
      tt
      (next_seq (next_seq server_ready).1).1
      (arrives [] ∷ [])
unfolding next_seq
login_completes_example =
    login_completes refuses (λ sent pkt. refl) huff sample_varint md5 (replicate 16 5) (97 ∷ []) []
      [] 1 accept_packet map_change_packet con_ready_packet [] pause (arrives [] ∷ []) [] fresh
      with_token after_info map_known after_ready server_ready accept_read (here after_info)
      map_change_ends pause-Waits con_ready_ends
