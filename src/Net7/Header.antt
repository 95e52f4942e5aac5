-- ===== src/Net7/Header.antt =====
-- net7/header.go. `ack` and `num_chunks` are never negative; a token is its four bytes.
use twclient.Prelude.{◌-◌}
use twclient.Prelude.{
  ℕ, ◌+◌, ◌*◌, ◌/◌, ◌%◌, ◌≤◌, ◌<◌, ◌≡◌, refl, sym, ap, arith, ◌∙◌, bit_and, bit_or,
}
use twclient.Prelude.{
  List, [], ◌∷◌, ◌++◌, length, get_or, take, drop, Bool, false, not, ltb, ◌==◌, if◌then◌else◌,
  Option, none, some, length-append,
}
use twclient.Packer.RoundTrip.{take-append_self}
use twclient.Prelude.Bits.{
  and_03, and_ff, and_fc, or_high6, or_ack, bit, bit-le, bit_test, and_bit1, and_bit2, and_bit4,
  and_bit8,
}

pub record Flags : Type 0 where
  pub connless : Bool
  pub compression : Bool
  pub resend : Bool
  pub control : Bool

pub record Header : Type 0 where
  pub flags : Flags
  pub ack : ℕ
  pub num_chunks : ℕ
  pub token : List ℕ
  pub response_token : List ℕ

-- `TokenZero`, which is also the token of a fresh header.
abbrev pub token_zero : List ℕ
token_zero = 0 ∷ 0 ∷ 0 ∷ 0 ∷ []

-- The `flags |= …` of `Pack`, for packets that are not connless.
unfoldable pub flag_bits : Flags → ℕ
flag_bits f =
    let a = if f.control then bit_or 0 1 else 0 in
    let b = if f.resend then bit_or a 2 else a in if f.compression then bit_or b 4 else b

-- A connless packet has its own layout: flags and version 1 in the first byte, then both tokens.
unfoldable pub pack : Header → List ℕ
pack h =
    if h.flags.connless
    then (bit_or (bit_and (8 * 4) 0xfc) (bit_and 1 0x03) % 256) ∷ (h.token ++ h.response_token)
    else (bit_or (bit_and (flag_bits h.flags * 4) 0xfc) (bit_and (h.ack / 256) 0x03) % 256)
      ∷ (bit_and h.ack 0xff % 256)
      ∷ (h.num_chunks % 256)
      ∷ h.token

unfoldable pub unpack_flags : ℕ → Flags
unpack_flags b0 =
    let bits = b0 / 4 in
    record {
      connless = not (bit_and bits 8 == 0);
      compression = not (bit_and bits 4 == 0);
      resend = not (bit_and bits 2 == 0);
      control = not (bit_and bits 1 == 0);
    }

-- `Unpack` on a fresh header; `none` is an error. The response token is not read.
unfoldable pub unpack : List ℕ → Option Header
unpack bytes =
    if ltb (length bytes) 7
    then none
    else some (record {
      flags = unpack_flags (get_or bytes 0 0);
      ack = bit_or (bit_and (get_or bytes 0 0) 0x03 * 256) (get_or bytes 1 0);
      num_chunks = get_or bytes 2 0;
      token = take 4 (drop 3 bytes);
      response_token = token_zero;
    })

flag_bits_sum : (f : Flags) → flag_bits f ≡ bit f.compression * 4 + bit f.resend * 2 + bit f.control
unfolding flag_bits bit
flag_bits_sum f = ground arith

Flags-eq :
    (f g : Flags)
    → f.connless ≡ g.connless
    → f.compression ≡ g.compression
    → f.resend ≡ g.resend
    → f.control ≡ g.control
    → f ≡ g
Flags-eq f g a b c d i = record { connless = a i; compression = b i; resend = c i; control = d i }

ruleset bits = (arith, flag_bits_sum, bit-le)

-- The two low bits of the first byte do not matter to the flags.
unpack_flags_back :
    (f : Flags) (y : ℕ) → y < 4 → f.connless ≡ false → unpack_flags (flag_bits f * 4 + y) ≡ f
unfolding unpack_flags bit
unpack_flags_back f y small plain = rw same (
    Flags-eq _ f
      (rw (and_bit8 x fits) (bit_test false (x / 8 % 2) 8 (omega bits) (omega arith)) ∙ sym plain)
      (rw (and_bit4 x fits) (bit_test f.compression (x / 4 % 2) 4 (omega bits) (omega arith)))
      (rw (and_bit2 x fits) (bit_test f.resend (x / 2 % 2) 2 (omega bits) (omega arith)))
      (rw (and_bit1 x fits) (bit_test f.control (x / 1 % 2) 1 (omega bits) (omega arith))))
  where
    x : ℕ
    x = flag_bits f

    fits : x < 256
    fits = omega bits

    same : (flag_bits f * 4 + y) / 4 ≡ flag_bits f
    same = omega arith

-- The headers that the format can hold.
pub record Fits (h : Header) : Type 0 where
  pub ack_fits : h.ack < 1024
  pub chunks_fit : h.num_chunks < 256
  pub token_fits : length h.token ≡ 4
  pub response_fits : length h.response_token ≡ 4

byte0 :
    (h : Header)
    → Fits h
    → bit_or (bit_and (flag_bits h.flags * 4) 0xfc) (bit_and (h.ack / 256) 0x03) % 256
      ≡ flag_bits h.flags * 4 + h.ack / 256
byte0 h v = ground (
  arith,
  flag_bits_sum h.flags,
  bit-le h.flags.compression,
  bit-le h.flags.resend,
  bit-le h.flags.control,
  and_fc (flag_bits h.flags * 4) (omega bits),
  and_03 (h.ack / 256) (omega arith),
  or_high6 (flag_bits h.flags * 4 + h.ack / 256) (omega bits),
)

pack_bytes :
    (h : Header)
    → Fits h
    → h.flags.connless ≡ false
    → pack h ≡ (flag_bits h.flags * 4 + h.ack / 256) ∷ (h.ack % 256) ∷ h.num_chunks ∷ h.token
unfolding pack
pack_bytes h v plain =
    ground (arith, byte0 h v, and_ff h.ack (omega (arith, v.ack_fits)), v.chunks_fit)

ack_back :
    (f : Flags) (a : ℕ)
    → a < 1024
    → bit_or (bit_and (flag_bits f * 4 + a / 256) 0x03 * 256) (a % 256) ≡ a
ack_back f a h =
    rw (and_03 (flag_bits f * 4 + a / 256) (omega bits)) (ground (arith, low, or_ack a h))
  where
    low : (flag_bits f * 4 + a / 256) % 4 ≡ a / 256
    low = omega arith

Header-eq :
    {f g : Flags} {a b m n : ℕ} {s t r : List ℕ}
    → f ≡ g
    → a ≡ b
    → m ≡ n
    → s ≡ t
    → ◌≡◌ {A = Header}
        (record { flags = f; ack = a; num_chunks = m; token = s; response_token = r })
        (record { flags = g; ack = b; num_chunks = n; token = t; response_token = r })
Header-eq {r = r} p q e w i = record {
  flags = p i;
  ack = q i;
  num_chunks = e i;
  token = w i;
  response_token = r;
}

unpack_bytes :
    (b0 b1 b2 : ℕ) (rest : List ℕ)
    → 4 ≤ length rest
    → unpack (b0 ∷ b1 ∷ b2 ∷ rest)
      ≡ some (record {
        flags = unpack_flags b0;
        ack = bit_or (bit_and b0 0x03 * 256) b1;
        num_chunks = b2;
        token = take 4 rest;
        response_token = token_zero;
      })
unfolding unpack
unpack_bytes b0 b1 b2 rest h = ground arith

take_token : (token payload : List ℕ) → length token ≡ 4 → take 4 (token ++ payload) ≡ token
take_token token payload h = rw (← h) (take-append_self token payload)

-- A packed header of a connected packet, with any payload behind it, is read back: the flags, the
-- ack below 1024, the number of chunks below 256 and the token. The response token is not sent.
pub plain_header_back :
    (h : Header) (payload : List ℕ)
    → Fits h
    → h.flags.connless ≡ false
    → unpack (pack h ++ payload) ≡ some (record h { response_token = token_zero })
plain_header_back h payload v plain =
    ap (λ l. unpack (l ++ payload)) (pack_bytes h v plain)
    ∙ unpack_bytes (flag_bits h.flags * 4 + h.ack / 256) (h.ack % 256) h.num_chunks
        (h.token ++ payload) (omega (arith, v.token_fits, length-append h.token payload))
    ∙ ap some (
        Header-eq (unpack_flags_back h.flags (h.ack / 256) (omega (arith, v.ack_fits)) plain)
          (ack_back h.flags h.ack v.ack_fits) refl (take_token h.token payload v.token_fits))

-- `packet.MaxPacketSize` and `MaxPayloadSize`.
abbrev pub max_packet_size : ℕ
max_packet_size = 1400

abbrev pub max_payload_size : ℕ
max_payload_size = max_packet_size - 6

-- A header takes 9 bytes on a connless packet and 7 on any other.
pub length-pack : (h : Header) → Fits h → length (pack h) ≡ (if h.flags.connless then 9 else 7)
unfolding pack
length-pack h v =
    ground (arith, length-append h.token h.response_token, v.token_fits, v.response_fits)

-- A connected packet with the largest payload that `MaxPayloadSize` admits is one byte longer than
-- `MaxPacketSize`.
pub full_packet_too_long :
    (h : Header) (payload : List ℕ)
    → Fits h
    → h.flags.connless ≡ false
    → length payload ≡ max_payload_size
    → length (pack h ++ payload) ≡ max_packet_size + 1
full_packet_too_long h payload v plain full = omega (
  arith,
  length-append (pack h) payload,
  ap {B = ℕ} (λ b. if b then 9 else 7) plain,
  length-pack h v,
)
