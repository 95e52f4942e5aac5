-- ===== src/Packet/EventQueue.antt =====
-- `SendEvent` of packet/event.go: the buffered channel between a reader and its client, as the list
-- of the events in it, the oldest first. `SendEvent` is up to three operations on the channel, each
-- of them one step, and a client may poll between them.
pub mod Refines
pub mod Interleaved
use twclient.Prelude.{
  ℕ, List, [], ◌∷◌, ◌++◌, length, Bool, true, false, ltb, if◌then◌else◌, Option, none, some,
}

-- What a reader and a client do, in any order, where no poll comes within a `SendEvent`.
pub data Op (E : Type 0) : Type 0 where
  sends : E → Op E
  polls : Op E

-- Where the reader stands: between two calls, or within one, after the send that found no room, or
-- after the receive that follows it.
pub data Phase (E : Type 0) : Type 0 where
  resting : Phase E
  full : E → Phase E
  drained : E → Phase E

-- The events that the reader has still to send, where it stands, and the channel.
pub record Queue (E : Type 0) : Type 0 where
  pub to_send : List E
  pub phase : Phase E
  pub channel : List E

-- Whose turn it is to do one operation.
pub data Turn : Type 0 where
  reader client : Turn

-- How an event left the channel.
pub data Taken (E : Type 0) : Type 0 where
  polled : E → Taken E
  dropped : E → Taken E

module _ {E : Type 0} where
  -- A send that does not block: whether the channel had room, and the channel.
  unfoldable pub try_send : ℕ → List E → E → Bool × List E
  try_send capacity ch ev = if ltb (length ch) capacity then (true, ch ++ ev ∷ []) else (false, ch)

  -- A receive: the oldest event, if there is one, and what is left.
  unfoldable pub poll : List E → Option E × List E
  poll [] = (none, [])
  poll (ev ∷ ch) = (some ev, ch)

  abbrev pub noted : (E → Taken E) → Option E → List (Taken E)
  noted how none = []
  noted how (some ev) = how ev ∷ []

  -- The next operation of the reader. A send that finds no room again gives the event up.
  unfoldable pub reader_turn : ℕ → List E → Phase E → List E → List (Taken E) × Queue E
  unfolding try_send poll
  reader_turn capacity [] resting ch = ([], record { to_send = []; phase = resting; channel = ch })
  reader_turn capacity (ev ∷ evs) resting ch =
      let (sent, ch1) = try_send capacity ch ev in
      ([], record { to_send = evs; phase = if sent then resting else full ev; channel = ch1 })
  reader_turn capacity evs (full ev) ch =
      let (oldest, ch1) = poll ch in
      (noted dropped oldest, record { to_send = evs; phase = drained ev; channel = ch1 })
  reader_turn capacity evs (drained ev) ch =
      let (sent, ch1) = try_send capacity ch ev in
      ([], record { to_send = evs; phase = resting; channel = ch1 })

  unfoldable pub turn : ℕ → Turn → Queue E → List (Taken E) × Queue E
  unfolding reader_turn poll
  turn capacity reader q = reader_turn capacity q.to_send q.phase q.channel
  turn capacity client q =
      let (result, ch1) = poll q.channel in (noted polled result, record q { channel = ch1 })

  -- `SendEvent` without a poll in between: it takes three turns at most, and further ones do nothing.
  unfoldable pub send_event : ℕ → List E → E → List E
  unfolding turn
  send_event capacity ch ev =
      let start : Queue E = record { to_send = ev ∷ []; phase = resting; channel = ch } in
      let q1 = (turn capacity reader start).1 in
      let q2 = (turn capacity reader q1).1 in (turn capacity reader q2).1.channel

  -- The results of the polls, and the channel in the end.
  unfoldable pub run : ℕ → List (Op E) → List E → List (Option E) × List E
  unfolding send_event poll
  run capacity [] ch = ([], ch)
  run capacity (sends ev ∷ ops) ch = run capacity ops (send_event capacity ch ev)
  run capacity (polls ∷ ops) ch =
      let (result, left) = poll ch in
      let (more, last) = run capacity ops left in (result ∷ more, last)

  unfoldable pub interleave : ℕ → List Turn → Queue E → List (Taken E) × Queue E
  unfolding turn
  interleave capacity [] q = ([], q)
  interleave capacity (t ∷ ts) q =
      let (taken, q1) = turn capacity t q in
      let (more, last) = interleave capacity ts q1 in (taken ++ more, last)
