-- ===== src/Packet/Messages/Found.antt =====
-- Which messages the scans of packet/helpers.go find among those that a peer packed.
use mathlib.Core.Path.{subst}
use twclient.Prelude.{
  ℕ, ◌+◌, ◌*◌, ◌%◌, ◌<◌, ◌≡◌, refl, ap, ◌∙◌, arith, List, [], ◌∷◌, ◌++◌, length, get_or, Bool, true,
  false, ◌&&◌, ◌==◌, if◌then◌else◌, Option, none, some, lt→ltb, ltb,
}
use twclient.Prelude.Bits.{and_3f, and_40}
use twclient.Prelude.Int.{ℤ, pos, eq_ℤ}
use twclient.Packer.Varint.{Varint}
use twclient.Packer.Reader.{Unpacker, ok}
use twclient.Packer.Unpack.{new_unpacker, next_raw, remaining_size}
use twclient.Packer.Pack.{msg_id_word, pack_msg_id}
use twclient.Packer.RoundTrip.{
  Holds, Holds-length, IsMsgId, msg_id_word_back, next_word_back, next_raw_back,
}
use twclient.Packet.Chunk.{Chunk}
use twclient.Packet.Chunk.RoundTrip.{IsSplit, AllSendable, wire}
use twclient.Packet.Messages.{
  raw_or_nil, after_id, keep_nonempty, first_of, is_message, message_payload, contains_sys_msg,
  contains_game_msg, extract_sys_msg_payload, extract_all_sys_msg_payloads,
}
use twclient.Packet.Messages.Wire.{
  any_message, first_message, all_messages, extract_sys_msg_payload-chunks, contains_msg-chunks,
}

-- A message as a peer packs it: its id, its flag, and the bytes behind them.
pub record Message : Type 0 where
  pub id : ℤ
  pub system : Bool
  pub body : List ℕ

abbrev pub is_of : ℤ → Message → Bool
is_of target m = m.system && eq_ℤ m.id target

-- The body of the first system message with the id.
abbrev pub first_body : ℤ → List Message → Option (List ℕ)
first_body target [] = none
first_body target (m ∷ ms) = if is_of target m then some m.body else first_body target ms

abbrev pub behind : List ℕ → List (List ℕ) → List (List ℕ)
behind [] bodies = bodies
behind (b ∷ body) bodies = (b ∷ body) ∷ bodies

-- The bodies of all system messages with the id that are not empty.
abbrev pub all_bodies : ℤ → List Message → List (List ℕ)
all_bodies target [] = []
all_bodies target (m ∷ ms) =
    let more = all_bodies target ms in if is_of target m then behind m.body more else more

-- The chunks carry these messages.
abbrev pub Carry : Varint → List Chunk → List Message → Type 0
Carry vi [] [] = Unit {0}
Carry vi [] (m ∷ ms) = ⊥
Carry vi (c ∷ cs) [] = ⊥
Carry vi (c ∷ cs) (m ∷ ms) =
    (c.payload ≡ pack_msg_id vi m.id m.system ++ m.body) × IsMsgId m.id × Carry vi cs ms

append_nil : (xs : List ℕ) → xs ≡ xs ++ []
append_nil [] = refl
append_nil (x ∷ xs) = ap (λ t. x ∷ t) (append_nil xs)

-- What is left of an unpacker, read as a whole.
rest_back :
    (u : Unpacker) (body : List ℕ)
    → Holds u body
    → (if ltb 0 (remaining_size u) then raw_or_nil (next_raw (pos (remaining_size u)) u) else [])
      ≡ body
rest_back u [] h =
    let empty : remaining_size u ≡ 0 = omega (arith, Holds-length u [] h) in rw empty refl
rest_back u (b ∷ body) h =
    let size : remaining_size u ≡ length (b ∷ body) = omega (arith, Holds-length u (b ∷ body) h) in
    let some_left : ltb 0 (length (b ∷ body)) ≡ true = lt→ltb 0 (length (b ∷ body)) (omega arith) in
    rw (size, some_left, next_raw_back u [] (b ∷ body) (subst (Holds u) (append_nil (b ∷ body)) h))
      refl

first_of-if :
    (b : Bool) (body : List ℕ) (more : Option (List ℕ))
    → first_of (if b then some body else none) more ≡ (if b then some body else more)
first_of-if true body more = refl
first_of-if false body more = refl

keep_nonempty-if :
    (b : Bool) (body : List ℕ) (more : List (List ℕ))
    → keep_nonempty (if b then some body else none) ++ more ≡ (if b then behind body more else more)
keep_nonempty-if true [] more = refl
keep_nonempty-if true (x ∷ body) more = refl
keep_nonempty-if false body more = refl

module _ (vi : Varint) (target : ℤ) where
  after_word :
      (m : Message) (u : Unpacker)
      → IsMsgId m.id
      → Holds u m.body
      → after_id target (ok (msg_id_word m.id m.system), u)
        ≡ (if is_of target m then some m.body else none)
  after_word m u h holds =
      let (_, id, flag) = msg_id_word_back m.id m.system h in
      rw (flag, id, rest_back u m.body holds) refl

  message_payload-message :
      (m : Message) (bytes : List ℕ)
      → bytes ≡ pack_msg_id vi m.id m.system ++ m.body
      → IsMsgId m.id
      → message_payload vi target bytes ≡ (if is_of target m then some m.body else none)
  unfolding message_payload new_unpacker
  message_payload-message m bytes e h =
      let u = new_unpacker bytes in
      let holds : Holds u (pack_msg_id vi m.id m.system ++ m.body) = record {
        inside = omega arith;
        left = e;
      } in
      let (read, left) = next_word_back vi u m.body m.id m.system h holds in
      ap (after_id target) read ∙ after_word m _ h left

  found :
      (cs : List Chunk) (ms : List Message)
      → Carry vi cs ms
      → (first_message vi target cs ≡ first_body target ms)
        × (all_messages vi target cs ≡ all_bodies target ms)
  found [] [] h = (refl, refl)
  found [] (m ∷ ms) h = absurd h
  found (c ∷ cs) [] h = absurd h
  found (c ∷ cs) (m ∷ ms) (e, h, hs) =
      let (one, all) = found cs ms hs in
      let here = message_payload-message m c.payload e h in
      (
        ap (λ o. first_of o (first_message vi target cs)) here
            ∙ first_of-if (is_of target m) m.body (first_message vi target cs)
            ∙ ap (λ o. if is_of target m then some m.body else o) one,
        ap (λ o. keep_nonempty o ++ all_messages vi target cs) here
            ∙ keep_nonempty-if (is_of target m) m.body (all_messages vi target cs)
            ∙ ap (λ l. if is_of target m then behind m.body l else l) all,
      )

  -- On a packet of sendable chunks that carry messages with ids of 31 bits, for the splits 4 and 6,
  -- `ExtractSysMsgPayload` returns the body of the first system message with the id, or nil where there
  -- is none, and `ExtractAllSysMsgPayloads` those of all of them, in order, that are not empty. A game
  -- message with the id is passed over.
  pub extract_sys_msg_payload-wire :
      (split : ℕ) (cs : List Chunk) (ms : List Message)
      → IsSplit split
      → AllSendable split cs
      → Carry vi cs ms
      → (extract_sys_msg_payload vi (wire split cs) target split ≡ first_body target ms)
        × (extract_all_sys_msg_payloads vi (wire split cs) target split ≡ all_bodies target ms)
  extract_sys_msg_payload-wire split cs ms s h c =
      let (one, all) = extract_sys_msg_payload-chunks vi target split s cs h in
      let (first, rest) = found cs ms c in (one ∙ first, all ∙ rest)

-- The first byte of a chunk.
abbrev pub head_byte : Chunk → ℕ
head_byte c = get_or c.payload 0 0

abbrev pub AllBytes : List Chunk → Type 0
AllBytes [] = Unit {0}
AllBytes (c ∷ cs) = (head_byte c < 256) × AllBytes cs

-- Some chunk starts with this byte, but for its topmost bit.
abbrev pub any_head : ℕ → List Chunk → Bool
any_head b [] = false
any_head b (c ∷ cs) = if head_byte c % 128 == b then true else any_head b cs

is_message-sys : (n b : ℕ) → n < 32 → b < 256 → is_message (pos n) true b ≡ (b % 128 == 2 * n + 1)
unfolding is_message
is_message-sys n b h k = rw (and_40 b k, and_3f b k) (ground arith)

is_message-game : (n b : ℕ) → n < 32 → b < 256 → is_message (pos n) false b ≡ (b % 128 == 2 * n)
unfolding is_message
is_message-game n b h k = rw (and_40 b k, and_3f b k) (ground arith)

any_message-head :
    (n : ℕ) (cs : List Chunk)
    → n < 32
    → AllBytes cs
    → (any_message (pos n) true cs ≡ any_head (2 * n + 1) cs)
      × (any_message (pos n) false cs ≡ any_head (2 * n) cs)
any_message-head n [] h k = (refl, refl)
any_message-head n (c ∷ cs) h (k, ks) =
    let (sys, game) = any_message-head n cs h ks in
    (
      (rw (is_message-sys n (head_byte c) h k, sys) refl),
      (rw (is_message-game n (head_byte c) h k, game) refl),
    )

-- On a packet of sendable chunks, for the splits 4 and 6, and an id below 32, `ContainsSysMsg` tells
-- whether the first byte of some chunk is twice the id and one, and `ContainsGameMsg` whether it is
-- twice the id; the topmost bit of the byte, which says that more bytes of the id follow, makes no
-- difference.
pub contains_msg-wire :
    (split : ℕ) (cs : List Chunk) (n : ℕ)
    → IsSplit split
    → AllSendable split cs
    → AllBytes cs
    → n < 32
    → (contains_sys_msg (wire split cs) (pos n) split ≡ any_head (2 * n + 1) cs)
      × (contains_game_msg (wire split cs) (pos n) split ≡ any_head (2 * n) cs)
contains_msg-wire split cs n s h b small =
    let (sys, game) = contains_msg-chunks split cs (pos n) s h in
    let (one, two) = any_message-head n cs small b in (sys ∙ one, game ∙ two)
