-- ===== src/Packet/Messages/Wire.antt =====
-- On a packet of sendable chunks the scans find the messages of its chunks, in order.
use mathlib.Core.Path.{ap₂}
use twclient.Prelude.{
  Bool, if◌then◌else◌, ℕ, zero, suc, ◌+◌, ◌%◌, ◌≤◌, ◌<◌, ◌≡◌, refl, ap, ◌∙◌, arith, List, [], ◌∷◌,
  ◌++◌, length, get_or, take, drop, length-append, true, false, ltb, leb, lt→ltb, Bool-cases, inl,
  inr, Option, none,
}
use twclient.Prelude.Int.{ℤ}
use twclient.Packer.Varint.{Varint}
use twclient.Packer.Reader.{Unpacker}
use twclient.Packer.Unpack.{advance}
use twclient.Packer.RoundTrip.{
  Holds, Holds-advance, Holds-length, get_or-drop, get_or-drop_add, take-append_self,
}
use twclient.Packet.Chunk.{
  ChunkFlags, ChunkHeader, Chunk, header_size, pack_byte0, pack_byte1, pack, read_flags, read_size,
}
use twclient.Packet.Chunk.RoundTrip.{
  IsSplit, encodes, pack_vital, pack_plain, wire, Sendable, AllSendable, length-wire,
  chunk_header_back,
}
use twclient.Packet.Ack.{is_vital, size_field, step_offset}
use twclient.Packet.Messages.{
  is_message, contains_loop, contains_msg, contains_sys_msg, contains_game_msg, first_of,
  keep_nonempty, message_payload, payload_at, extract_loop, extract_sys_msg_payload,
  extract_all_loop, extract_all_sys_msg_payloads,
}

le→leb : (m n : ℕ) → m ≤ n → leb m n ≡ true
le→leb m n h = ground (arith, h)

pack_head :
    (split : ℕ) (h : ChunkHeader)
    → h.seq < 4096
    → (tail : List ℕ) × (pack split h ≡ pack_byte0 split h ∷ pack_byte1 split h ∷ tail)
pack_head split h fits = elim (Bool-cases h.flags.vital) [
  | inl v ↦ ((h.seq % 256) ∷ [], pack_vital split h fits v)
  | inr v ↦ ([], pack_plain split h v)
]

module _ (split : ℕ) (u : Unpacker) (c : Chunk) (cs : List Chunk) where
  abbrev b0 : ℕ
  b0 = get_or u.data_bytes u.idx 0

  abbrev b1 : ℕ
  b1 = get_or u.data_bytes (u.idx + 1) 0

  -- The first two bytes at `u` give the flag and the size of the chunk.
  head_fields :
      IsSplit split
      → Sendable split c
      → Holds u (wire split (c ∷ cs))
      → (is_vital b0 ≡ c.header.flags.vital) × (size_field split b0 b1 ≡ c.header.size)
  unfolding read_flags read_size
  head_fields s hc holds =
      let e = encodes split c.header s hc.fits in
      let bytes = c.payload ++ wire split cs in
      let (tail, p) = pack_head split c.header hc.fits.seq_fits in
      let left = holds.left ∙ ap (λ t. t ++ bytes) p in
      let g0 : b0 ≡ pack_byte0 split c.header =
        get_or-drop u.data_bytes u.idx ∙ ap (λ t. get_or t 0 0) left in
      let g1 : b1 ≡ pack_byte1 split c.header =
        get_or-drop_add u.data_bytes u.idx 1 ∙ ap (λ t. get_or t 1 0) left in
      (
        ap is_vital g0 ∙ ap (λ (f : ChunkFlags). f.vital) e.flags_back,
        ap₂ (size_field split) g0 g1 ∙ e.size_back,
      )

  after_head :
      IsSplit split
      → Sendable split c
      → Holds u (wire split (c ∷ cs))
      → Holds (advance (header_size c.header) u) (c.payload ++ wire split cs)
  after_head s hc holds =
      (chunk_header_back split u c.header (c.payload ++ wire split cs) s hc.fits holds).1

  step_offset-wire :
      IsSplit split
      → Sendable split c
      → Holds u (wire split (c ∷ cs))
      → step_offset split u.data_bytes u.idx
        ≡ (advance (length c.payload) (advance (header_size c.header) u)).idx
  unfolding step_offset header_size
  step_offset-wire s hc holds =
      let (vital, size) = head_fields s hc holds in rw (vital, size) (omega (arith, hc.size_right))

  payload_at-wire :
      (vi : Varint) (target : ℤ)
      → IsSplit split
      → Sendable split c
      → Holds u (wire split (c ∷ cs))
      → payload_at vi target split u.data_bytes u.idx ≡ message_payload vi target c.payload
  unfolding payload_at header_size
  payload_at-wire vi target s hc holds =
      let (vital, size) = head_fields s hc holds in
      let after = after_head s hc holds in
      let start = u.idx + header_size c.header in
      let room : start + c.header.size ≤ length u.data_bytes = omega (
        arith,
        hc.size_right,
        Holds-length (advance (header_size c.header) u) (c.payload ++ wire split cs) after,
        after.inside,
        length-append c.payload (wire split cs),
      ) in
      let slice : take c.header.size (drop start u.data_bytes) ≡ c.payload =
        ap (λ n. take n (drop start u.data_bytes)) hc.size_right
        ∙ ap (take (length c.payload)) after.left
        ∙ take-append_self c.payload (wire split cs) in
      rw
        (
          payload_at,
          vital,
          size,
          lt→ltb start (length u.data_bytes) (omega (arith, hc.size_right, hc.nonempty, room)),
          le→leb (start + c.header.size) (length u.data_bytes) room,
          lt→ltb 0 c.header.size (omega (arith, hc.size_right, hc.nonempty)),
          slice,
        )
        refl

  two_bytes :
      Holds u (wire split (c ∷ cs))
      → (ltb u.idx (length u.data_bytes) ≡ true) × (leb (u.idx + 2) (length u.data_bytes) ≡ true)
  two_bytes holds =
      let room = Holds-length u (wire split (c ∷ cs)) holds in
      (
        lt→ltb u.idx (length u.data_bytes) (omega (arith, length-wire split c cs, room)),
        le→leb (u.idx + 2) (length u.data_bytes) (omega (arith, length-wire split c cs, room)),
      )

get_or-append : (xs ys : List ℕ) → 0 < length xs → get_or (xs ++ ys) 0 0 ≡ get_or xs 0 0
get_or-append [] ys h = absurd (omega (arith, h))
get_or-append (x ∷ xs) ys h = refl

-- Some chunk starts with the byte of that message.
abbrev pub any_message : ℤ → Bool → List Chunk → Bool
any_message target want_system [] = false
any_message target want_system (c ∷ cs) =
    if is_message target want_system (get_or c.payload 0 0)
    then true
    else any_message target want_system cs

-- The payload of the first chunk that is a system message of that type.
abbrev pub first_message : Varint → ℤ → List Chunk → Option (List ℕ)
first_message vi target [] = none
first_message vi target (c ∷ cs) =
    first_of (message_payload vi target c.payload) (first_message vi target cs)

-- The payloads of all of them that are not empty.
abbrev pub all_messages : Varint → ℤ → List Chunk → List (List ℕ)
all_messages vi target [] = []
all_messages vi target (c ∷ cs) =
    keep_nonempty (message_payload vi target c.payload) ++ all_messages vi target cs

module _ (vi : Varint) (target : ℤ) (split : ℕ) (s : IsSplit split) where
  next_chunk :
      (u : Unpacker) (c : Chunk) (cs : List Chunk)
      → Sendable split c
      → Holds u (wire split (c ∷ cs))
      → Holds (advance (length c.payload) (advance (header_size c.header) u)) (wire split cs)
  next_chunk u c cs hc holds =
      Holds-advance (advance (header_size c.header) u) c.payload (wire split cs)
        (after_head split u c cs s hc holds)

  ended : (u : Unpacker) → Holds u [] → ltb u.idx (length u.data_bytes) ≡ false
  ended u holds = ground (arith, Holds-length u [] holds)

  extract_loop-wire :
      (fuel : ℕ) (cs : List Chunk) (u : Unpacker)
      → AllSendable split cs
      → length (wire split cs) ≤ fuel
      → Holds u (wire split cs)
      → (extract_loop vi fuel target split u.data_bytes u.idx ≡ first_message vi target cs)
        × (extract_all_loop vi fuel target split u.data_bytes u.idx ≡ all_messages vi target cs)
  unfolding extract_loop extract_all_loop
  extract_loop-wire zero [] u h enough holds = (refl, refl)
  extract_loop-wire (suc fuel) [] u h enough holds =
      ((rw (ended u holds) refl), (rw (ended u holds) refl))
  extract_loop-wire zero (c ∷ cs) u h enough holds = absurd (omega (arith, length-wire split c cs))
  extract_loop-wire (suc fuel) (c ∷ cs) u (hc, hcs) enough holds =
      let w = advance (length c.payload) (advance (header_size c.header) u) in
      let (one, all) =
        extract_loop-wire fuel cs w hcs (omega (arith, length-wire split c cs))
          (next_chunk u c cs hc holds) in
      let (inside, room) = two_bytes split u c cs holds in
      let there = step_offset-wire split u c cs s hc holds in
      let here = payload_at-wire split u c cs vi target s hc holds in
      ((rw (inside, room, there, here, one) refl), (rw (inside, room, there, here, all) refl))

  -- The scans of a packet of sendable chunks are those of the list of its chunks.
  pub extract_sys_msg_payload-chunks :
      (cs : List Chunk)
      → AllSendable split cs
      → (extract_sys_msg_payload vi (wire split cs) target split ≡ first_message vi target cs)
        × (extract_all_sys_msg_payloads vi (wire split cs) target split ≡ all_messages vi target cs)
  unfolding extract_sys_msg_payload extract_all_sys_msg_payloads
  extract_sys_msg_payload-chunks cs h =
      extract_loop-wire (length (wire split cs)) cs (record { data_bytes = wire split cs; idx = 0 })
        h (omega arith) (record { inside = omega arith; left = refl })

module _ (split : ℕ) (s : IsSplit split) (target : ℤ) (want_system : Bool) where
  contains_loop-wire :
      (fuel : ℕ) (cs : List Chunk) (u : Unpacker)
      → AllSendable split cs
      → length (wire split cs) ≤ fuel
      → Holds u (wire split cs)
      → contains_loop fuel target want_system split u.data_bytes u.idx
        ≡ any_message target want_system cs
  unfolding contains_loop header_size
  contains_loop-wire zero [] u h enough holds = refl
  contains_loop-wire (suc fuel) [] u h enough holds = ground (arith, Holds-length u [] holds)
  contains_loop-wire zero (c ∷ cs) u h enough holds = absurd (omega (arith, length-wire split c cs))
  contains_loop-wire (suc fuel) (c ∷ cs) u (hc, hcs) enough holds =
      let v = advance (header_size c.header) u in
      let after = after_head split u c cs s hc holds in
      let rest = c.payload ++ wire split cs in
      let w = advance (length c.payload) v in
      let more =
        contains_loop-wire fuel cs w hcs (omega (arith, length-wire split c cs))
          (Holds-advance v c.payload (wire split cs) after) in
      let (inside, room) = two_bytes split u c cs holds in
      let (vital, size) = head_fields split u c cs s hc holds in
      let there = step_offset-wire split u c cs s hc holds in
      let start = u.idx + header_size c.header in
      let data_inside : ltb start (length u.data_bytes) ≡ true =
        lt→ltb start (length u.data_bytes) (
          omega (
            arith,
            hc.nonempty,
            after.inside,
            Holds-length v rest after,
            length-append c.payload (wire split cs),
          )) in
      let first : get_or u.data_bytes start 0 ≡ get_or c.payload 0 0 =
        get_or-drop u.data_bytes start
        ∙ ap (λ t. get_or t 0 0) after.left
        ∙ get_or-append c.payload (wire split cs) hc.nonempty in
      rw (inside, room, vital, there, data_inside, first, more) refl

-- The tests of a packet of sendable chunks are those of the list of its chunks.
pub contains_msg-chunks :
    (split : ℕ) (cs : List Chunk) (target : ℤ)
    → IsSplit split
    → AllSendable split cs
    → (contains_sys_msg (wire split cs) target split ≡ any_message target true cs)
      × (contains_game_msg (wire split cs) target split ≡ any_message target false cs)
unfolding contains_sys_msg contains_game_msg contains_msg
contains_msg-chunks split cs target s h = (at_start true, at_start false)
  where
    at_start :
        (want_system : Bool)
        → contains_loop (length (wire split cs)) target want_system split (wire split cs) 0
          ≡ any_message target want_system cs
    at_start want_system =
        contains_loop-wire split s target want_system (length (wire split cs)) cs
          (record { data_bytes = wire split cs; idx = 0 }) h (omega arith)
          (record { inside = omega arith; left = refl })
