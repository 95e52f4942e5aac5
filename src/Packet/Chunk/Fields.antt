-- ===== src/Packet/Chunk/Fields.antt =====
-- The bytes of a packed chunk header, and its three fields as they are read back, for the splits 4
-- and 6 of the two protocols.
use twclient.Prelude.{ℕ, ◌+◌, ◌*◌, ◌/◌, ◌%◌, ◌<◌, ◌≡◌, refl, arith, ◌∙◌, bit_and, bit_or}
use twclient.Prelude.{Bool, true, false, if◌then◌else◌}
use twclient.Prelude.Bits.{
  and_3f, and_0f, and_3f_wide, and_ff, or_high2, or_low4, or_low6, or_size4, or_size6, or_seq,
  or_ack,
}
use twclient.Packet.Chunk.{
  ChunkFlags, ChunkHeader, flag_bits, pack_byte0, pack_byte1, read_flags, read_size, read_seq,
}

-- The bits of the flags, vital first.
abbrev pub flag_word : Bool → Bool → ℕ
flag_word vital resend = (if resend then 2 else 0) + (if vital then 1 else 0)

pub flag_word-lt : (vital resend : Bool) → flag_word vital resend < 4
flag_word-lt true true = omega arith
flag_word-lt true false = omega arith
flag_word-lt false true = omega arith
flag_word-lt false false = omega arith

flags_packed :
    (vital resend : Bool)
    → bit_and (flag_bits (record { vital = vital; resend = resend })) 0x03 * 64 % 256
      ≡ flag_word vital resend * 64
flags_packed true true = refl
flags_packed true false = refl
flags_packed false true = refl
flags_packed false false = refl

or_flags : (f y : ℕ) → f < 4 → y < 64 → bit_or (f * 64) y ≡ f * 64 + y
or_flags f y hf hy = ground (arith, or_high2 (f * 64 + y) (omega arith))

flags_from :
    (vital resend : Bool)
    → read_flags (flag_word vital resend * 64) ≡ record { vital = vital; resend = resend }
unfolding read_flags
flags_from true true = refl
flags_from true false = refl
flags_from false true = refl
flags_from false false = refl

-- The six low bits of the first byte do not matter to the flags.
pub read_flags_back :
    (f : ChunkFlags) (y : ℕ) → y < 64 → read_flags (flag_word f.vital f.resend * 64 + y) ≡ f
read_flags_back f y h =
    same_top (flag_word f.vital f.resend * 64 + y) (flag_word f.vital f.resend * 64) (omega arith)
    ∙ flags_from f.vital f.resend
  where
    same_top : (a b : ℕ) → a / 64 ≡ b / 64 → read_flags a ≡ read_flags b
    same_top a b e = unfold read_flags in rw e refl

module _ (h : ChunkHeader) where
  pub byte0_split4 :
      h.size < 1024 → pack_byte0 4 h ≡ flag_word h.flags.vital h.flags.resend * 64 + h.size / 16
  unfolding pack_byte0
  byte0_split4 fits = ground (
    arith,
    flags_packed h.flags.vital h.flags.resend,
    flag_word-lt h.flags.vital h.flags.resend,
    and_3f_wide (h.size / 16) (omega arith),
    or_flags (flag_word h.flags.vital h.flags.resend) (h.size / 16),
  )

  pub byte0_split6 :
      h.size < 4096 → pack_byte0 6 h ≡ flag_word h.flags.vital h.flags.resend * 64 + h.size / 64
  unfolding pack_byte0
  byte0_split6 fits = ground (
    arith,
    flags_packed h.flags.vital h.flags.resend,
    flag_word-lt h.flags.vital h.flags.resend,
    and_3f_wide (h.size / 64) (omega arith),
    or_flags (flag_word h.flags.vital h.flags.resend) (h.size / 64),
  )

  pub byte1_plain4 : h.size < 1024 → h.flags.vital ≡ false → pack_byte1 4 h ≡ h.size % 16
  unfolding pack_byte1
  byte1_plain4 fits v = ground (arith, and_0f h.size (omega arith))

  pub byte1_plain6 : h.size < 4096 → h.flags.vital ≡ false → pack_byte1 6 h ≡ h.size % 64
  unfolding pack_byte1
  byte1_plain6 fits v = ground (arith, and_3f_wide h.size (omega arith))

  pub byte1_vital4 :
      h.size < 1024
      → h.seq < 4096
      → h.flags.vital ≡ true
      → pack_byte1 4 h ≡ h.size % 16 + h.seq / 64 % 16 * 16
  unfolding pack_byte1
  byte1_vital4 fits seq v = ground (
    arith,
    and_0f h.size (omega arith),
    and_0f (h.seq / 4) (omega arith),
    and_ff (h.seq / 64 * 16) (omega arith),
    or_low4 (h.size % 16 + h.seq / 64 % 16 * 16) (omega arith),
  )

  pub byte1_vital6 :
      h.size < 4096
      → h.seq < 4096
      → h.flags.vital ≡ true
      → pack_byte1 6 h ≡ h.size % 64 + h.seq / 256 % 4 * 64
  unfolding pack_byte1
  byte1_vital6 fits seq v = ground (
    arith,
    and_3f_wide h.size (omega arith),
    and_3f_wide (h.seq / 4) (omega arith),
    and_ff (h.seq / 256 * 64) (omega arith),
    or_low6 (h.size % 64 + h.seq / 256 % 4 * 64) (omega arith),
  )

pub read_size4 :
    (f x b1 : ℕ)
    → f < 4
    → x < 1024
    → b1 < 256
    → b1 % 16 ≡ x % 16
    → read_size 4 (f * 64 + x / 16) b1 ≡ x
unfolding read_size
read_size4 f x b1 hf hx hb e =
    ground (arith, and_3f (f * 64 + x / 16) (omega arith), and_0f b1 (omega arith), or_size4 x hx)

pub read_size6 :
    (f x b1 : ℕ)
    → f < 4
    → x < 4096
    → b1 < 256
    → b1 % 64 ≡ x % 64
    → read_size 6 (f * 64 + x / 64) b1 ≡ x
unfolding read_size
read_size6 f x b1 hf hx hb e =
    ground (arith, and_3f (f * 64 + x / 64) (omega arith), and_3f b1 hb, or_size6 x hx)

pub read_seq4 : (s q : ℕ) → q < 16 → read_seq 4 (q + s / 64 % 16 * 16) (s % 256) ≡ s % 1024
unfolding read_seq
read_seq4 s q hq = ground (
  arith,
  and_0f (q + s / 64 % 16 * 16) (omega arith),
  and_ff (s / 64 % 16 * 16) (omega arith),
  or_seq (s % 1024) (omega arith),
)

pub read_seq6 : (s q : ℕ) → q < 64 → read_seq 6 (q + s / 256 % 4 * 64) (s % 256) ≡ s % 1024
unfolding read_seq
read_seq6 s q hq = ground (
  arith,
  and_3f (q + s / 256 % 4 * 64) (omega arith),
  and_ff (s / 256 % 4 * 64) (omega arith),
  or_ack (s % 1024) (omega arith),
)
