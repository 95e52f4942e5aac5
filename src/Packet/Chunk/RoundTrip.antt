-- ===== src/Packet/Chunk/RoundTrip.antt =====
-- A packed header is unpacked to itself, and so is a whole packet of chunks.
use mathlib.Core.Path.{subst}
use twclient.Prelude.{
  ℕ, zero, suc, ◌+◌, ◌*◌, ◌/◌, ◌%◌, ◌^◌, ◌≤◌, ◌<◌, ◌≡◌, ◌⊎◌, inl, inr, refl, sym, ap, arith, ◌∙◌,
}
use twclient.Prelude.{List, [], ◌∷◌, ◌++◌, map, length, length-append, Bool, true, false}
use twclient.Prelude.{Bool-cases, lt→ltb, if◌then◌else◌}
use twclient.Prelude.Int.{pos}
use twclient.Prelude.Bits.{and_ff}
use twclient.Packer.Reader.{Unpacker, ok}
use twclient.Packer.Unpack.{new_unpacker, remaining_size, advance, next_raw}
use twclient.Packer.RoundTrip.{Holds, Holds-advance, Holds-length, next_raw_back, next_byte_back}
use twclient.Packet.Chunk.{
  ChunkFlags, ChunkHeader, Chunk, header_size, pack_byte0, pack_byte1, pack, read_flags, read_size,
  read_seq, unpack, header_then, chunk_then, unpack_loop, unpack_chunks,
}
use twclient.Packet.Chunk.Fields.{
  flag_word, flag_word-lt, read_flags_back, byte0_split4, byte0_split6, byte1_plain4, byte1_plain6,
  byte1_vital4, byte1_vital6, read_size4, read_size6, read_seq4, read_seq6,
}

-- The splits in use: 4 for protocol 0.6, 6 for 0.7.
abbrev pub IsSplit : ℕ → Type 0
IsSplit split = (split ≡ 4) ⊎ (split ≡ 6)

-- The header whose size the format can hold. The comment in the source gives a sequence number 12
-- bits.
pub record Fits (split : ℕ) (h : ChunkHeader) : Type 0 where
  pub size_fits : h.size < 64 * 2 ^ split
  pub seq_fits : h.seq < 4096

-- What arrives of a header: ten bits of the sequence number, and only on a vital chunk.
abbrev pub received : ChunkHeader → ChunkHeader
received h = record h { seq = if h.flags.vital then h.seq % 1024 else 0 }

-- The bytes of a header hold its fields.
pub record Encodes (split : ℕ) (h : ChunkHeader) : Type 0 where
  pub flags_back : read_flags (pack_byte0 split h) ≡ h.flags
  pub size_back : read_size split (pack_byte0 split h) (pack_byte1 split h) ≡ h.size
  pub seq_back :
      h.flags.vital ≡ true → read_seq split (pack_byte1 split h) (h.seq % 256) ≡ h.seq % 1024

module _ (h : ChunkHeader) where
  encodes4 : Fits 4 h → Encodes 4 h
  encodes4 fits = elim (Bool-cases h.flags.vital) [
    | inl v ↦
        let b1 = byte1_vital4 h fits.size_fits fits.seq_fits v in
        record {
          flags_back =
              rw b0 (read_flags_back h.flags (h.size / 16) (omega (arith, fits.size_fits)));
          size_back =
              rw (b0, b1) (read_size4 _ h.size _ f4 fits.size_fits (omega arith) (omega arith));
          seq_back = λ _. rw b1 (read_seq4 h.seq (h.size % 16) (omega arith));
        }
    | inr p ↦
        let b1 = byte1_plain4 h fits.size_fits p in
        record {
          flags_back =
              rw b0 (read_flags_back h.flags (h.size / 16) (omega (arith, fits.size_fits)));
          size_back =
              rw (b0, b1) (read_size4 _ h.size _ f4 fits.size_fits (omega arith) (omega arith));
          seq_back = λ v. cc;
        }
  ]
    where
      b0 : pack_byte0 4 h ≡ flag_word h.flags.vital h.flags.resend * 64 + h.size / 16
      b0 = byte0_split4 h fits.size_fits

      f4 : flag_word h.flags.vital h.flags.resend < 4
      f4 = flag_word-lt h.flags.vital h.flags.resend

  encodes6 : Fits 6 h → Encodes 6 h
  encodes6 fits = elim (Bool-cases h.flags.vital) [
    | inl v ↦
        let b1 = byte1_vital6 h fits.size_fits fits.seq_fits v in
        record {
          flags_back =
              rw b0 (read_flags_back h.flags (h.size / 64) (omega (arith, fits.size_fits)));
          size_back =
              rw (b0, b1) (read_size6 _ h.size _ f4 fits.size_fits (omega arith) (omega arith));
          seq_back = λ _. rw b1 (read_seq6 h.seq (h.size % 64) (omega arith));
        }
    | inr p ↦
        let b1 = byte1_plain6 h fits.size_fits p in
        record {
          flags_back =
              rw b0 (read_flags_back h.flags (h.size / 64) (omega (arith, fits.size_fits)));
          size_back =
              rw (b0, b1) (read_size6 _ h.size _ f4 fits.size_fits (omega arith) (omega arith));
          seq_back = λ v. cc;
        }
  ]
    where
      b0 : pack_byte0 6 h ≡ flag_word h.flags.vital h.flags.resend * 64 + h.size / 64
      b0 = byte0_split6 h fits.size_fits

      f4 : flag_word h.flags.vital h.flags.resend < 4
      f4 = flag_word-lt h.flags.vital h.flags.resend

pub encodes : (split : ℕ) (h : ChunkHeader) → IsSplit split → Fits split h → Encodes split h
encodes split h (inl e) = subst (λ k. Fits k h → Encodes k h) (sym e) (encodes4 h)
encodes split h (inr e) = subst (λ k. Fits k h → Encodes k h) (sym e) (encodes6 h)

-- Reading two or three bytes that are given.
module _ (split : ℕ) (u : Unpacker) (b0 b1 : ℕ) (bytes : List ℕ) where
  unpack_plain :
      Holds u (b0 ∷ b1 ∷ bytes)
      → (read_flags b0).vital ≡ false
      → unpack split u ≡ (
        ok (record { flags = read_flags b0; size = read_size split b0 b1; seq = 0 }),
        advance 2 u,
      )
  unfolding unpack
  unpack_plain holds v = rw (next_raw_back u bytes (b0 ∷ b1 ∷ []) holds, v) refl

  unpack_vital :
      (b2 : ℕ)
      → Holds u (b0 ∷ b1 ∷ b2 ∷ bytes)
      → (read_flags b0).vital ≡ true
      → unpack split u ≡ (
        ok (record {
          flags = read_flags b0;
          size = read_size split b0 b1;
          seq = read_seq split b1 b2;
        }),
        advance 3 u,
      )
  unfolding unpack
  unpack_vital b2 holds v =
      let after = Holds-advance u (b0 ∷ b1 ∷ []) (b2 ∷ bytes) holds in
      rw
        (
          next_raw_back u (b2 ∷ bytes) (b0 ∷ b1 ∷ []) holds,
          v,
          next_byte_back (advance 2 u) bytes b2 after,
        )
        (ground arith)

header-eq :
    {f g : ChunkFlags} {m n s t : ℕ}
    → f ≡ g
    → m ≡ n
    → s ≡ t
    → ◌≡◌ {A = ChunkHeader}
        (record { flags = f; size = m; seq = s })
        (record { flags = g; size = n; seq = t })
header-eq p q r i = record { flags = p i; size = q i; seq = r i }

pub pack_vital :
    (split : ℕ) (h : ChunkHeader)
    → h.seq < 4096
    → h.flags.vital ≡ true
    → pack split h ≡ pack_byte0 split h ∷ pack_byte1 split h ∷ (h.seq % 256) ∷ []
unfolding pack
pack_vital split h fits v = ground (arith, and_ff h.seq fits)

pub pack_plain :
    (split : ℕ) (h : ChunkHeader)
    → h.flags.vital ≡ false
    → pack split h ≡ pack_byte0 split h ∷ pack_byte1 split h ∷ []
unfolding pack
pack_plain split h v = ground arith

module _ (split : ℕ) (u : Unpacker) (h : ChunkHeader) (bytes : List ℕ) where
  -- What `chunk_header_back` states, with the test of the vital flag set apart.
  abbrev ReadBack : Bool → Type 0
  ReadBack vital =
      (unpack split u ≡ (
        ok (record h { seq = if vital then h.seq % 1024 else 0 }),
        advance (if vital then 3 else 2) u,
      ))
      × Holds (advance (if vital then 3 else 2) u) bytes

  ReadBack-vital :
      Encodes split h
      → h.seq < 4096
      → h.flags.vital ≡ true
      → Holds u (pack split h ++ bytes)
      → ReadBack true
  ReadBack-vital e fits v holds =
      let b0 = pack_byte0 split h in
      let b1 = pack_byte1 split h in
      let b2 = h.seq % 256 in
      let whole : Holds u (b0 ∷ b1 ∷ b2 ∷ bytes) =
        subst (λ t. Holds u (t ++ bytes)) (pack_vital split h fits v) holds in
      (
        unpack_vital split u b0 b1 bytes b2 whole
              (ap (λ (f : ChunkFlags). f.vital) e.flags_back ∙ v)
            ∙ ap (λ t. (ok t, advance 3 u)) (header-eq e.flags_back e.size_back (e.seq_back v)),
        Holds-advance u (b0 ∷ b1 ∷ b2 ∷ []) bytes whole,
      )

  ReadBack-plain :
      Encodes split h → h.flags.vital ≡ false → Holds u (pack split h ++ bytes) → ReadBack false
  ReadBack-plain e v holds =
      let b0 = pack_byte0 split h in
      let b1 = pack_byte1 split h in
      let whole : Holds u (b0 ∷ b1 ∷ bytes) =
        subst (λ t. Holds u (t ++ bytes)) (pack_plain split h v) holds in
      (
        unpack_plain split u b0 b1 bytes whole (ap (λ (f : ChunkFlags). f.vital) e.flags_back ∙ v)
            ∙ ap (λ t. (ok t, advance 2 u)) (header-eq e.flags_back e.size_back refl),
        Holds-advance u (b0 ∷ b1 ∷ []) bytes whole,
      )

  -- For the splits 4 and 6, a packed header whose size the format can hold and whose sequence number
  -- is below 4096 is read back, but for the bits of the sequence number above the tenth, and what
  -- follows it is left.
  pub chunk_header_back :
      IsSplit split
      → Fits split h
      → Holds u (pack split h ++ bytes)
      → (unpack split u ≡ (ok (received h), advance (header_size h) u))
        × Holds (advance (header_size h) u) bytes
  unfolding header_size
  chunk_header_back s fits holds = elim (Bool-cases h.flags.vital) [
    | inl v ↦ subst ReadBack (sym v) (ReadBack-vital (encodes split h s fits) fits.seq_fits v holds)
    | inr v ↦ subst ReadBack (sym v) (ReadBack-plain (encodes split h s fits) v holds)
  ]

-- Chunks as they follow one another in a packet.
abbrev pub wire : ℕ → List Chunk → List ℕ
wire split [] = []
wire split (c ∷ cs) = pack split c.header ++ (c.payload ++ wire split cs)

-- A chunk that can be sent: its size is that of its payload, which is not empty.
pub record Sendable (split : ℕ) (c : Chunk) : Type 0 where
  pub fits : Fits split c.header
  pub size_right : c.header.size ≡ length c.payload
  pub nonempty : 0 < length c.payload

abbrev pub AllSendable : ℕ → List Chunk → Type 0
AllSendable split [] = Unit {0}
AllSendable split (c ∷ cs) = Sendable split c × AllSendable split cs

abbrev pub arrived : Chunk → Chunk
arrived c = record c { header = received c.header }

header_then_whole :
    (h : ChunkHeader) (u : Unpacker) (payload bytes : List ℕ) (more : Unpacker → List Chunk)
    → h.size ≡ length payload
    → 0 < length payload
    → Holds u (payload ++ bytes)
    → header_then (ok h, u) more
      ≡ record { header = h; payload = payload } ∷ more (advance (length payload) u)
unfolding header_then chunk_then
header_then_whole h u payload bytes more size nonempty holds = ground (
  arith,
  Holds-length u (payload ++ bytes) holds,
  length-append payload bytes,
  ap (λ n. next_raw (pos n) u) size ∙ next_raw_back u bytes payload holds,
)

length-pack : (split : ℕ) (h : ChunkHeader) → 2 ≤ length (pack split h)
unfolding pack
length-pack split h = ground arith

unpack_loop_step :
    (split fuel : ℕ) (u : Unpacker)
    → 0 < remaining_size u
    → unpack_loop split (suc fuel) u ≡ header_then (unpack split u) (unpack_loop split fuel)
unfolding unpack_loop
unpack_loop_step split fuel u h = rw (lt→ltb 0 (remaining_size u) h)

pub length-wire :
    (split : ℕ) (c : Chunk) (cs : List Chunk)
    → length (wire split cs) + 2 ≤ length (wire split (c ∷ cs))
length-wire split c cs = omega (
  arith,
  length-pack split c.header,
  length-append (pack split c.header) (c.payload ++ wire split cs),
  length-append c.payload (wire split cs),
)

unpack_loop-wire :
    (split fuel : ℕ) (cs : List Chunk) (u : Unpacker)
    → IsSplit split
    → AllSendable split cs
    → length (wire split cs) ≤ fuel
    → Holds u (wire split cs)
    → unpack_loop split fuel u ≡ map arrived cs
unpack_loop-wire split zero [] u s h enough holds = unfold unpack_loop in refl
unpack_loop-wire split (suc fuel) [] u s h enough holds =
    unfold unpack_loop in ground (arith, Holds-length u [] holds)
unpack_loop-wire split zero (c ∷ cs) u s h enough holds =
    absurd (omega (arith, length-wire split c cs))
unpack_loop-wire split (suc fuel) (c ∷ cs) u s (hc, hcs) enough holds =
    let (read, after) =
      chunk_header_back split u c.header (c.payload ++ wire split cs) s hc.fits holds in
    let v = advance (header_size c.header) u in
    let some_left : 0 < remaining_size u =
      omega (arith, length-wire split c cs, Holds-length u (wire split (c ∷ cs)) holds) in
    unpack_loop_step split fuel u some_left
    ∙ ap (λ r. header_then r (unpack_loop split fuel)) read
    ∙ header_then_whole (received c.header) v c.payload (wire split cs) (unpack_loop split fuel)
        hc.size_right hc.nonempty after
    ∙ ap (λ t. arrived c ∷ t)
        (unpack_loop-wire split fuel cs (advance (length c.payload) v) s hcs
          (omega (arith, length-wire split c cs)) (Holds-advance v c.payload (wire split cs) after))

-- A packet of sendable chunks is split into these chunks, in order, with nothing left over.
pub unpack_chunks-wire :
    (split : ℕ) (cs : List Chunk)
    → IsSplit split
    → AllSendable split cs
    → unpack_chunks split (wire split cs) ≡ map arrived cs
unfolding unpack_chunks new_unpacker
unpack_chunks-wire split cs s h =
    unpack_loop-wire split (length (wire split cs)) cs _ s h (omega arith)
      (record { inside = omega arith; left = refl })
