-- ===== src/Packet/EventQueue/Interleaved.antt =====
-- The operations of `SendEvent` and the polls of a client, in any order.
use twclient.Prelude.{
  ℕ, ◌+◌, ◌-◌, ◌≤◌, ◌<◌, ◌≡◌, refl, ap, ◌∙◌, arith, List, [], ◌∷◌, ◌++◌, append_assoc, length,
  length-append, ltb, lt→ltb, suc, Bool-cases, inl, inr,
}
use twclient.Packet.EventQueue.{
  Phase, resting, full, drained, Queue, Turn, reader, client, Taken, polled, dropped, try_send,
  poll, reader_turn, turn, interleave,
}

module _ {E : Type 0} where
  abbrev pub event_of : Taken E → E
  event_of (polled ev) = ev
  event_of (dropped ev) = ev

  abbrev pub left_events : List (Taken E) → List E
  left_events [] = []
  left_events (t ∷ ts) = event_of t ∷ left_events ts

  -- The event that a `SendEvent` under way has still to send.
  abbrev pub pending : Phase E → List E
  pending resting = []
  pending (full ev) = ev ∷ []
  pending (drained ev) = ev ∷ []

  -- All events in their order: those in the channel, the pending one, and those still to send.
  abbrev pub line : Queue E → List E
  line q = q.channel ++ (pending q.phase ++ q.to_send)

  -- Within a call, after the receive, there is room.
  abbrev pub HasRoom : ℕ → Phase E → ℕ → Type 0
  HasRoom capacity resting n = n ≤ capacity
  HasRoom capacity (full ev) n = n ≤ capacity
  HasRoom capacity (drained ev) n = n < capacity

  abbrev pub IsQueue : ℕ → Queue E → Type 0
  IsQueue capacity q = HasRoom capacity q.phase (length q.channel)

  abbrev pub dropped_count : List (Taken E) → ℕ
  dropped_count [] = 0
  dropped_count (polled ev ∷ ts) = dropped_count ts
  dropped_count (dropped ev ∷ ts) = suc (dropped_count ts)

  -- How many of `n` events, in the channel and still to send, do not fit; the pending one counts.
  abbrev pub above : ℕ → Phase E → ℕ → ℕ
  above capacity resting n = n - capacity
  above capacity (full ev) n = suc (n - capacity)
  above capacity (drained ev) n = suc n - capacity

  abbrev pub excess : ℕ → Queue E → ℕ
  excess capacity q = above capacity q.phase (length q.channel + length q.to_send)

  -- One operation takes events from the front of the line and leaves the rest as it is.
  Kept : ℕ → Queue E → List (Taken E) × Queue E → Type 0
  Kept capacity q r =
      (left_events r.0 ++ line r.1 ≡ line q)
      × IsQueue capacity r.1
      × (dropped_count r.0 + excess capacity r.1 ≤ excess capacity q)

  reader_turn-Kept :
      (capacity : ℕ) (evs : List E) (phase : Phase E) (ch : List E)
      → 0 < capacity
      → HasRoom capacity phase (length ch)
      → Kept capacity
          (record { to_send = evs; phase = phase; channel = ch })
          (reader_turn capacity evs phase ch)
  unfolding Kept reader_turn try_send poll
  reader_turn-Kept capacity [] resting ch c h = (refl, h, omega arith)
  reader_turn-Kept capacity (ev ∷ evs) resting ch c h =
      elim (Bool-cases (ltb (length ch) capacity)) [
        | inl t ↦ rw t (
          append_assoc ch (ev ∷ []) evs,
          ground (arith, t, length-append ch (ev ∷ [])),
          omega (arith, length-append ch (ev ∷ [])),
        )
        | inr t ↦ rw t (refl, h, ground (arith, t))
      ]
  reader_turn-Kept capacity evs (full ev) [] c h = (refl, c, omega arith)
  reader_turn-Kept capacity evs (full ev) (x ∷ ch) c h = (refl, omega arith, omega arith)
  reader_turn-Kept capacity evs (drained ev) ch c h =
      rw (try_send, lt→ltb (length ch) capacity h)
        (
          append_assoc ch (ev ∷ []) evs,
          omega (arith, length-append ch (ev ∷ [])),
          omega (arith, length-append ch (ev ∷ [])),
        )

  HasRoom-less :
      (capacity : ℕ) (phase : Phase E) (n : ℕ)
      → HasRoom capacity phase (suc n)
      → HasRoom capacity phase n
  HasRoom-less capacity resting n h = omega arith
  HasRoom-less capacity (full ev) n h = omega arith
  HasRoom-less capacity (drained ev) n h = omega arith

  above_mono :
      (capacity : ℕ) (phase : Phase E) (m n : ℕ)
      → m ≤ n
      → 0 + above capacity phase m ≤ above capacity phase n
  above_mono capacity resting m n h = omega arith
  above_mono capacity (full ev) m n h = omega arith
  above_mono capacity (drained ev) m n h = omega arith

  poll-Kept :
      (capacity : ℕ) (evs : List E) (phase : Phase E) (ch : List E)
      → HasRoom capacity phase (length ch)
      → Kept capacity
          (record { to_send = evs; phase = phase; channel = ch })
          (turn capacity client (record { to_send = evs; phase = phase; channel = ch }))
  unfolding Kept turn poll
  poll-Kept capacity evs phase [] h = (refl, h, omega arith)
  poll-Kept capacity evs phase (x ∷ ch) h = (
    refl,
    HasRoom-less capacity phase (length ch) h,
    above_mono capacity phase (length ch + length evs) _ (omega arith),
  )

  turn-Kept :
      (capacity : ℕ) (t : Turn) (q : Queue E)
      → 0 < capacity
      → IsQueue capacity q
      → Kept capacity q (turn capacity t q)
  unfolding Kept turn
  turn-Kept capacity reader q c h = reader_turn-Kept capacity q.to_send q.phase q.channel c h
  turn-Kept capacity client q c h = poll-Kept capacity q.to_send q.phase q.channel h

  left_events-append :
      (s t : List (Taken E)) → left_events (s ++ t) ≡ left_events s ++ left_events t
  left_events-append [] t = refl
  left_events-append (x ∷ s) t = ap (λ l. event_of x ∷ l) (left_events-append s t)

  dropped_count-append :
      (s t : List (Taken E)) → dropped_count (s ++ t) ≡ dropped_count s + dropped_count t
  dropped_count-append [] t = omega arith
  dropped_count-append (polled ev ∷ s) t = dropped_count-append s t
  dropped_count-append (dropped ev ∷ s) t = omega (arith, dropped_count-append s t)

  -- In whatever order the operations of the sends and the polls come, also a poll within a
  -- `SendEvent`, the events leave the channel in the order in which they are sent, each of them polled
  -- by the client or dropped by the reader, and none is lost otherwise or twice there: those that left,
  -- then those in the channel, then those still to send are the events that there were. The channel
  -- never holds more than its capacity, which is one at least, and no more events are dropped than
  -- there were above the capacity in the channel and to send.
  pub interleave-line :
      (capacity : ℕ) (ts : List Turn) (q : Queue E)
      → 0 < capacity
      → IsQueue capacity q
      → (left_events (interleave capacity ts q).0 ++ line (interleave capacity ts q).1 ≡ line q)
        × IsQueue capacity (interleave capacity ts q).1
        × (dropped_count (interleave capacity ts q).0 + excess capacity (interleave capacity ts q).1
            ≤ excess capacity q)
  unfolding interleave Kept
  interleave-line capacity [] q c h = (refl, h, omega arith)
  interleave-line capacity (t ∷ ts) q c h =
      let (here, sound, few) = turn-Kept capacity t q c h in
      let q1 = (turn capacity t q).1 in
      let taken = (turn capacity t q).0 in
      let (more, last, fewer) = interleave-line capacity ts q1 c sound in
      (
        ap (λ l. l ++ line (interleave capacity ts q1).1)
              (left_events-append taken (interleave capacity ts q1).0)
            ∙ append_assoc (left_events taken) _ _
            ∙ ap (λ l. left_events taken ++ l) more
            ∙ here,
        last,
        omega (arith, few, fewer, dropped_count-append taken (interleave capacity ts q1).0),
      )
