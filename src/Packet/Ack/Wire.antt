-- ===== src/Packet/Ack/Wire.antt =====
-- `CountVitalChunks` on packets of well-formed chunks, and on any bytes at all.
use mathlib.Core.Path.{subst, ap₂}
use twclient.Prelude.{
  ℕ, zero, suc, ◌+◌, ◌%◌, ◌≤◌, ◌<◌, ◌≡◌, refl, sym, ap, ◌∙◌, arith, inl, inr, ◌⊎◌,
}
use twclient.Prelude.{
  List, [], ◌∷◌, ◌++◌, length, get_or, Bool, true, false, Bool-cases, if◌then◌else◌, ◌==◌,
}
use twclient.Packer.Reader.{Unpacker}
use twclient.Packer.Unpack.{advance}
use twclient.Packer.RoundTrip.{Holds, Holds-advance, Holds-length, get_or-drop, get_or-drop_add}
use twclient.Packet.Chunk.{
  ChunkFlags, ChunkHeader, Chunk, header_size, pack_byte0, pack_byte1, pack, read_flags, read_size,
  read_seq,
}
use twclient.Packet.Chunk.RoundTrip.{
  IsSplit, Encodes, encodes, pack_vital, pack_plain, wire, AllSendable, length-wire,
  chunk_header_back,
}
use twclient.Packet.Ack.{
  max_sequence, next_ack, step_ack, step_offset, count_loop, count_vital_chunks,
}

-- A sequence number is taken if it follows the counter, among the numbers below 1024.
abbrev pub take_next : ℕ → ℕ → ℕ
take_next ack seq = if seq == (ack + 1) % 1024 then seq else ack

-- What the counter should be after the first `n` of some chunks: a vital chunk moves it when its
-- sequence number is the next one, and no other chunk does.
abbrev pub ack_after : ℕ → List Chunk → ℕ → ℕ
ack_after zero cs ack = ack
ack_after (suc n) [] ack = ack
ack_after (suc n) (c ∷ cs) ack =
    ack_after n cs (if c.header.flags.vital then take_next ack (c.header.seq % 1024) else ack)

module _ (split : ℕ) (u : Unpacker) (h : ChunkHeader) (bytes : List ℕ) (ack : ℕ) where
  -- One round of the loop on the header that `u` stands at.
  abbrev Round : Bool → Type 0
  Round vital =
      (step_ack split u.data_bytes u.idx ack
        ≡ (if vital then take_next ack (h.seq % 1024) else ack))
      × (step_offset split u.data_bytes u.idx ≡ u.idx + ((if vital then 3 else 2) + h.size))

  Round-vital :
      Encodes split h
      → h.seq < 4096
      → h.flags.vital ≡ true
      → Holds u (pack split h ++ bytes)
      → Round true
  unfolding step_ack step_offset read_flags read_size read_seq next_ack
  Round-vital e fits v holds =
      let b0 = pack_byte0 split h in
      let b1 = pack_byte1 split h in
      let whole : Holds u (b0 ∷ b1 ∷ (h.seq % 256) ∷ bytes) =
        subst (λ t. Holds u (t ++ bytes)) (pack_vital split h fits v) holds in
      let g0 : get_or u.data_bytes u.idx 0 ≡ b0 =
        get_or-drop u.data_bytes u.idx ∙ ap (λ t. get_or t 0 0) whole.left in
      let g1 : get_or u.data_bytes (u.idx + 1) 0 ≡ b1 =
        get_or-drop_add u.data_bytes u.idx 1 ∙ ap (λ t. get_or t 1 0) whole.left in
      let g2 : get_or u.data_bytes (u.idx + 2) 0 ≡ h.seq % 256 =
        get_or-drop_add u.data_bytes u.idx 2 ∙ ap (λ t. get_or t 2 0) whole.left in
      let flag = ap (λ (f : ChunkFlags). f.vital) e.flags_back ∙ v in
      (
        rw (g0, g1, g2, flag, e.seq_back v)
            (ground (arith, Holds-length u (b0 ∷ b1 ∷ (h.seq % 256) ∷ bytes) whole)),
        rw (g0, g1, flag, e.size_back) refl,
      )

  Round-plain :
      Encodes split h → h.flags.vital ≡ false → Holds u (pack split h ++ bytes) → Round false
  unfolding step_ack step_offset read_flags read_size
  Round-plain e v holds =
      let b0 = pack_byte0 split h in
      let b1 = pack_byte1 split h in
      let whole : Holds u (b0 ∷ b1 ∷ bytes) =
        subst (λ t. Holds u (t ++ bytes)) (pack_plain split h v) holds in
      let g0 : get_or u.data_bytes u.idx 0 ≡ b0 =
        get_or-drop u.data_bytes u.idx ∙ ap (λ t. get_or t 0 0) whole.left in
      let g1 : get_or u.data_bytes (u.idx + 1) 0 ≡ b1 =
        get_or-drop_add u.data_bytes u.idx 1 ∙ ap (λ t. get_or t 1 0) whole.left in
      let flag = ap (λ (f : ChunkFlags). f.vital) e.flags_back ∙ v in
      (rw (g0, flag) refl, rw (g0, g1, flag, e.size_back) refl)

  round_lem : Encodes split h → h.seq < 4096 → Holds u (pack split h ++ bytes) → Round h.flags.vital
  round_lem e fits holds = elim (Bool-cases h.flags.vital) [
    | inl v ↦ subst Round (sym v) (Round-vital e fits v holds)
    | inr v ↦ subst Round (sym v) (Round-plain e v holds)
  ]

count_loop_step :
    (n split : ℕ) (payload : List ℕ) (offset ack : ℕ)
    → offset + 2 ≤ length payload
    → count_loop (suc n) split payload offset ack
      ≡ count_loop n split payload
          (step_offset split payload offset)
          (step_ack split payload offset ack)
unfolding count_loop
count_loop_step n split payload offset ack h = ground arith

count_loop_end :
    (n split : ℕ) (payload : List ℕ) (offset ack : ℕ)
    → length payload ≤ offset
    → count_loop n split payload offset ack ≡ ack
unfolding count_loop
count_loop_end zero split payload offset ack h = refl
count_loop_end (suc n) split payload offset ack h = ground arith

count_loop-wire :
    (n split : ℕ) (cs : List Chunk) (u : Unpacker) (ack : ℕ)
    → IsSplit split
    → AllSendable split cs
    → Holds u (wire split cs)
    → count_loop n split u.data_bytes u.idx ack ≡ ack_after n cs ack
count_loop-wire zero split cs u ack s h holds = unfold count_loop in refl
count_loop-wire (suc n) split [] u ack s h holds =
    count_loop_end (suc n) split u.data_bytes u.idx ack (omega (arith, Holds-length u [] holds))
count_loop-wire (suc n) split (c ∷ cs) u ack s (hc, hcs) holds =
    let v = advance (header_size c.header) u in
    let w = advance (length c.payload) v in
    let after =
      (chunk_header_back split u c.header (c.payload ++ wire split cs) s hc.fits holds).1 in
    let (acked, moved) =
      round_lem split u c.header (c.payload ++ wire split cs) ack (encodes split c.header s hc.fits)
        hc.fits.seq_fits holds in
    let there : step_offset split u.data_bytes u.idx ≡ w.idx =
      moved ∙ unfold header_size in omega (arith, hc.size_right) in
    count_loop_step n split u.data_bytes u.idx ack
      (omega (arith, length-wire split c cs, Holds-length u (wire split (c ∷ cs)) holds))
    ∙ ap₂ (count_loop n split u.data_bytes) there acked
    ∙ count_loop-wire n split cs w
        (if c.header.flags.vital then take_next ack (c.header.seq % 1024) else ack) s hcs
        (Holds-advance v c.payload (wire split cs) after)

-- On a packet of sendable chunks the counter is that of its first `n` chunks: it takes each vital
-- chunk that comes next in sequence, and passes over the resent, the reordered and the others.
pub count_vital_chunks-wire :
    (split n : ℕ) (cs : List Chunk) (ack : ℕ)
    → IsSplit split
    → AllSendable split cs
    → count_vital_chunks (wire split cs) n ack split ≡ ack_after n cs ack
unfolding count_vital_chunks
count_vital_chunks-wire split n cs ack s h =
    count_loop-wire n split cs (record { data_bytes = wire split cs; idx = 0 }) ack s h
      (record { inside = omega arith; left = refl })

-- `k` steps onward from `ack` in the space of sequence numbers.
abbrev pub onward : ℕ → ℕ → ℕ
onward ack k = (ack + k) % max_sequence

step_ack-onward :
    (split : ℕ) (payload : List ℕ) (offset ack : ℕ)
    → (step_ack split payload offset ack ≡ ack) ⊎ (step_ack split payload offset ack ≡ onward ack 1)
unfolding step_ack next_ack
step_ack-onward split payload offset ack = ground arith

count_loop_cases :
    (n split : ℕ) (payload : List ℕ) (offset ack : ℕ)
    → (count_loop (suc n) split payload offset ack ≡ ack)
      ⊎ (count_loop (suc n) split payload offset ack
          ≡ count_loop n split payload
              (step_offset split payload offset)
              (step_ack split payload offset ack))
unfolding count_loop
count_loop_cases n split payload offset ack = ground arith

count_loop-onward :
    (n split : ℕ) (payload : List ℕ) (offset ack : ℕ)
    → ack < max_sequence
    → (k : ℕ) × (k ≤ n) × (count_loop n split payload offset ack ≡ onward ack k)
count_loop-onward zero split payload offset ack h =
    (0, omega arith, unfold count_loop in omega arith)
count_loop-onward (suc n) split payload offset ack h =
    elim (count_loop_cases n split payload offset ack) [
      | inl stop ↦ (0, omega arith, stop ∙ omega arith)
      | inr go ↦
          let acked = step_ack split payload offset ack in
          elim (step_ack-onward split payload offset ack) [
            | inl same ↦
                let (k, le, eq) =
                  count_loop-onward n split payload (step_offset split payload offset) acked
                    (rw same h) in
                (k, omega arith, go ∙ eq ∙ ap (λ a. onward a k) same)
            | inr next ↦
                let (k, le, eq) =
                  count_loop-onward n split payload (step_offset split payload offset) acked
                    (omega arith) in
                (k + 1, omega arith, go ∙ eq ∙ ap (λ a. onward a k) next ∙ omega arith)
          ]
    ]

-- Whatever the bytes of a packet, its `n` chunks move the counter onward by at most `n`.
pub count_vital_chunks-onward :
    (payload : List ℕ) (n ack split : ℕ)
    → ack < max_sequence
    → (k : ℕ) × (k ≤ n) × (count_vital_chunks payload n ack split ≡ onward ack k)
unfolding count_vital_chunks
count_vital_chunks-onward payload n ack split h = count_loop-onward n split payload 0 ack h
