-- ===== src/Net6/Header.antt =====
-- net6/header.go. `ack` and `num_chunks` are never negative; a token is its four bytes.
use mathlib.Core.Path.{subst}
use twclient.Prelude.{
  ℕ, ◌+◌, ◌*◌, ◌/◌, ◌%◌, ◌≤◌, ◌<◌, ◌≡◌, refl, sym, ap, arith, ◌∙◌, bit_and, bit_or,
}
use twclient.Prelude.{
  List, [], ◌∷◌, ◌++◌, length, get_or, take, drop, Bool, true, false, not, ltb, ◌==◌, if◌then◌else◌,
  Option, none, some, length-append,
}
use twclient.Packer.RoundTrip.{take-append_self}
use twclient.Prelude.Bits.{
  and_03, and_ff, and_fc, or_high6, or_ack, bit, bit-le, bit_test, and_bit8, and_bit16, and_bit32,
  and_bit64, and_bit128,
}

pub record Flags : Type 0 where
  pub compression : Bool
  pub resend : Bool
  pub connless : Bool
  pub control : Bool
  pub token_flag : Bool

pub record Header : Type 0 where
  pub flags : Flags
  pub ack : ℕ
  pub num_chunks : ℕ
  pub token : List ℕ

-- `TokenZero`, which is also the token of a fresh header.
abbrev pub token_zero : List ℕ
token_zero = 0 ∷ 0 ∷ 0 ∷ 0 ∷ []

unfoldable pub size : Header → ℕ
size h = if h.flags.token_flag then 7 else 3

-- The `flags |= …` of `Pack`.
unfoldable pub flag_byte : Flags → ℕ
flag_byte f =
    let a = if f.compression then bit_or 0 0x80 else 0 in
    let b = if f.resend then bit_or a 0x40 else a in
    let c = if f.connless then bit_or b 0x20 else b in
    let d = if f.control then bit_or c 0x10 else c in if f.token_flag then bit_or d 0x08 else d

unfoldable pub pack : Header → List ℕ
pack h =
    let b0 = bit_or (bit_and (flag_byte h.flags) 0xfc) (bit_and (h.ack / 256) 0x03 % 256) in
    let b1 = bit_and h.ack 0xff % 256 in
    let b2 = h.num_chunks % 256 in
    if h.flags.token_flag then b0 ∷ b1 ∷ b2 ∷ h.token else b0 ∷ b1 ∷ b2 ∷ []

unfoldable pub unpack_flags : ℕ → Flags
unpack_flags b = record {
  compression = not (bit_and b 0x80 == 0);
  resend = not (bit_and b 0x40 == 0);
  connless = not (bit_and b 0x20 == 0);
  control = not (bit_and b 0x10 == 0);
  token_flag = not (bit_and b 0x08 == 0);
}

-- The fields that `Unpack` sets before it looks for a token.
abbrev pub read_header : List ℕ → Header
read_header bytes = record {
  flags = unpack_flags (get_or bytes 0 0);
  ack = bit_or (bit_and (get_or bytes 0 0) 0x03 * 256) (get_or bytes 1 0);
  num_chunks = get_or bytes 2 0;
  token = token_zero;
}

-- `Unpack` on a fresh header; `none` is an error.
unfoldable pub unpack : List ℕ → Option Header
unpack bytes =
    let h = read_header bytes in
    if ltb (length bytes) 3
    then none
    else if h.flags.token_flag
    then if ltb (length bytes) 7 then none else some (record h { token = take 4 (drop 3 bytes) })
    else some h

flag_byte_bits :
    (f : Flags)
    → flag_byte f
      ≡ bit f.compression * 128
        + bit f.resend * 64
        + bit f.connless * 32
        + bit f.control * 16
        + bit f.token_flag * 8
unfolding flag_byte bit
flag_byte_bits f = ground arith

Flags-eq :
    (f g : Flags)
    → f.compression ≡ g.compression
    → f.resend ≡ g.resend
    → f.connless ≡ g.connless
    → f.control ≡ g.control
    → f.token_flag ≡ g.token_flag
    → f ≡ g
Flags-eq f g a b c d e i = record {
  compression = a i;
  resend = b i;
  connless = c i;
  control = d i;
  token_flag = e i;
}

module _ (f : Flags) (y : ℕ) (small : y < 4) where
  fits : flag_byte f + y < 256
  fits = omega (
    arith,
    flag_byte_bits f,
    bit-le f.compression,
    bit-le f.resend,
    bit-le f.connless,
    bit-le f.control,
    bit-le f.token_flag,
  )

  ruleset bits = (arith, flag_byte_bits, bit-le)

  -- Of the byte with the flags, the two low bits do not matter.
  unpack_flags_back : unpack_flags (flag_byte f + y) ≡ f
  unfolding unpack_flags
  unpack_flags_back =
      let x = flag_byte f + y in
      Flags-eq (unpack_flags x) f
        (rw (and_bit128 x fits)
          (bit_test f.compression (x / 128 % 2) 128 (omega bits) (omega arith)))
        (rw (and_bit64 x fits) (bit_test f.resend (x / 64 % 2) 64 (omega bits) (omega arith)))
        (rw (and_bit32 x fits) (bit_test f.connless (x / 32 % 2) 32 (omega bits) (omega arith)))
        (rw (and_bit16 x fits) (bit_test f.control (x / 16 % 2) 16 (omega bits) (omega arith)))
        (rw (and_bit8 x fits) (bit_test f.token_flag (x / 8 % 2) 8 (omega bits) (omega arith)))

-- The header as it arrives: without its flag the token is not sent.
abbrev pub received : Header → Header
received h = record h { token = if h.flags.token_flag then h.token else token_zero }

-- The headers that the format can hold.
pub record Fits (h : Header) : Type 0 where
  pub ack_fits : h.ack < 1024
  pub chunks_fit : h.num_chunks < 256
  pub token_fits : length h.token ≡ 4

byte0 :
    (h : Header)
    → Fits h
    → bit_or (bit_and (flag_byte h.flags) 0xfc) (bit_and (h.ack / 256) 0x03 % 256)
      ≡ flag_byte h.flags + h.ack / 256
byte0 h v = ground (
  arith,
  flag_byte_bits h.flags,
  bit-le h.flags.compression,
  bit-le h.flags.resend,
  bit-le h.flags.connless,
  bit-le h.flags.control,
  bit-le h.flags.token_flag,
  and_fc (flag_byte h.flags) (omega bits),
  and_03 (h.ack / 256) (omega arith),
  or_high6 (flag_byte h.flags + h.ack / 256) (omega bits),
)

Header-eq :
    {f g : Flags} {a b m n : ℕ} {s t : List ℕ}
    → f ≡ g
    → a ≡ b
    → m ≡ n
    → s ≡ t
    → ◌≡◌ {A = Header}
        (record { flags = f; ack = a; num_chunks = m; token = s })
        (record { flags = g; ack = b; num_chunks = n; token = t })
Header-eq p q r w i = record { flags = p i; ack = q i; num_chunks = r i; token = w i }

module _ (b0 b1 b2 : ℕ) (rest : List ℕ) where
  unpack_token :
      (unpack_flags b0).token_flag ≡ true
      → 4 ≤ length rest
      → unpack (b0 ∷ b1 ∷ b2 ∷ rest)
        ≡ some (record (read_header (b0 ∷ b1 ∷ b2 ∷ rest)) { token = take 4 rest })
  unfolding unpack
  unpack_token t h = ground arith

  unpack_no_token :
      (unpack_flags b0).token_flag ≡ false
      → unpack (b0 ∷ b1 ∷ b2 ∷ rest) ≡ some (read_header (b0 ∷ b1 ∷ b2 ∷ rest))
  unfolding unpack
  unpack_no_token t = ground arith

pack_bytes :
    (h : Header)
    → Fits h
    → pack h
      ≡ (flag_byte h.flags + h.ack / 256)
        ∷ (h.ack % 256)
        ∷ h.num_chunks
        ∷ (if h.flags.token_flag then h.token else [])
unfolding pack
pack_bytes h v = ground (arith, byte0 h v, and_ff h.ack (omega (arith, v.ack_fits)), v.chunks_fit)

ack_back :
    (f : Flags) (a : ℕ)
    → a < 1024
    → bit_or (bit_and (flag_byte f + a / 256) 0x03 * 256) (a % 256) ≡ a
ack_back f a h =
    rw (and_03 (flag_byte f + a / 256) (fits f (a / 256) (omega arith)))
      (ground (arith, low, or_ack a h))
  where
    low : (flag_byte f + a / 256) % 4 ≡ a / 256
    low = omega (arith, flag_byte_bits f)

take_token : (token payload : List ℕ) → length token ≡ 4 → take 4 (token ++ payload) ≡ token
take_token token payload h = rw (← h) (take-append_self token payload)

module _ (h : Header) (payload : List ℕ) (v : Fits h) where
  b0 : ℕ
  b0 = flag_byte h.flags + h.ack / 256

  flags_back : unpack_flags b0 ≡ h.flags
  unfolding b0
  flags_back = unpack_flags_back h.flags (h.ack / 256) (omega (arith, v.ack_fits))

  -- What `packed_header_back` states, with the test of the token flag set apart.
  abbrev Arrives : Bool → Type 0
  unfolding b0
  Arrives with_token =
      unpack ((b0 ∷ (h.ack % 256) ∷ h.num_chunks ∷ (if with_token then h.token else [])) ++ payload)
      ≡ some (record h { token = if with_token then h.token else token_zero })

  arrives : (t : Bool) → h.flags.token_flag ≡ t → Arrives t
  unfolding b0
  arrives true t =
      unpack_token b0 (h.ack % 256) h.num_chunks (h.token ++ payload)
        (ap (λ (f : Flags). f.token_flag) flags_back ∙ t)
        (omega (arith, v.token_fits, length-append h.token payload))
      ∙ ap some (
          Header-eq flags_back (ack_back h.flags h.ack v.ack_fits) refl
            (take_token h.token payload v.token_fits))
  arrives false t =
      unpack_no_token b0 (h.ack % 256) h.num_chunks payload
        (ap (λ (f : Flags). f.token_flag) flags_back ∙ t)
      ∙ ap some (Header-eq flags_back (ack_back h.flags h.ack v.ack_fits) refl refl)

  -- A packed header, with any payload behind it, is read back: the flags, the ack below 1024, the
  -- number of chunks below 256 and, if the token flag is set, the token.
  pub packed_header_back : unpack (pack h ++ payload) ≡ some (received h)
  unfolding b0
  packed_header_back =
      subst (λ l. unpack (l ++ payload) ≡ some (received h)) (sym (pack_bytes h v))
        (arrives h.flags.token_flag refl)
