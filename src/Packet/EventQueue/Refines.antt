-- ===== src/Packet/EventQueue/Refines.antt =====
-- Where no poll comes within a `SendEvent`, the channel behaves as a log of all events of which only
-- the newest are kept.
use mathlib.Core.Path.{subst}
use twclient.Prelude.{ltb→lt, true, false, Bool, if◌then◌else◌}
use twclient.Prelude.{
  ℕ, zero, suc, ◌-◌, ◌≤◌, ◌<◌, ◌≡◌, refl, sym, ap, ◌∙◌, arith, List, [], ◌∷◌, ◌++◌, length, drop,
  length-append, length-drop, ltb, Option, Bool-cases, inl, inr,
}
use twclient.Packet.EventQueue.{
  Queue, resting, full, reader, Op, sends, polls, try_send, send_event, turn, reader_turn, poll,
  run,
}

module _ {E : Type 0} where
  -- The newest events of a log, as many as the channel holds.
  abbrev pub newest : ℕ → List E → List E
  newest capacity log = drop (length log - capacity) log

  -- The specification: a send adds to the log, and a poll forgets all but the newest events and
  -- takes the oldest of these.
  unfoldable pub run_log : ℕ → List (Op E) → List E → List (Option E) × List E
  unfolding poll
  run_log capacity [] log = ([], log)
  run_log capacity (sends ev ∷ ops) log = run_log capacity ops (log ++ ev ∷ [])
  run_log capacity (polls ∷ ops) log =
      let (polled, left) = poll (newest capacity log) in
      let (more, last) = run_log capacity ops left in (polled ∷ more, last)

  drop_one : (k : ℕ) (xs : List E) → drop 1 (drop k xs) ≡ drop (suc k) xs
  drop_one zero xs = refl
  drop_one (suc k) [] = refl
  drop_one (suc k) (x ∷ xs) = drop_one k xs

  drop-append : (k : ℕ) (xs ys : List E) → k ≤ length xs → drop k (xs ++ ys) ≡ drop k xs ++ ys
  drop-append zero xs ys h = refl
  drop-append (suc k) [] ys h = absurd (omega arith)
  drop-append (suc k) (x ∷ xs) ys h = drop-append k xs ys (omega arith)

  newest_all : (capacity : ℕ) (log : List E) → length log ≤ capacity → newest capacity log ≡ log
  newest_all capacity log h =
      let none_dropped : length log - capacity ≡ 0 = omega arith in
      ap (λ k. drop k log) none_dropped

  length-newest : (capacity : ℕ) (log : List E) → length (newest capacity log) ≤ capacity
  length-newest capacity log = omega (arith, length-drop (length log - capacity) log)

  try_send-room :
      (capacity : ℕ) (ch : List E) (ev : E)
      → length ch < capacity
      → try_send capacity ch ev ≡ (true, ch ++ ev ∷ [])
  unfolding try_send
  try_send-room capacity ch ev h = ground (arith, h)

  try_send-full :
      (capacity : ℕ) (ch : List E) (ev : E)
      → length ch ≡ capacity
      → try_send capacity ch ev ≡ (false, ch)
  unfolding try_send
  try_send-full capacity ch ev e = ground (arith, e)

  -- The two turns that follow the first send.
  after_first : ℕ → E → Bool × List E → List E
  after_first capacity ev (sent, ch) =
      let q : Queue E = record {
        to_send = [];
        phase = if sent then resting else full ev;
        channel = ch;
      } in
      (turn capacity reader (turn capacity reader q).1).1.channel

  send_room :
      (capacity : ℕ) (ch : List E) (ev : E)
      → length ch < capacity
      → send_event capacity ch ev ≡ ch ++ ev ∷ []
  unfolding send_event turn reader_turn after_first
  send_room capacity ch ev h = ap (after_first capacity ev) (try_send-room capacity ch ev h)

  send_full :
      (capacity : ℕ) (ch : List E) (ev : E)
      → 0 < capacity
      → length ch ≡ capacity
      → send_event capacity ch ev ≡ drop 1 ch ++ ev ∷ []
  unfolding send_event turn reader_turn poll after_first
  send_full capacity [] ev h e = absurd (omega arith)
  send_full capacity (x ∷ ch) ev h e =
      ap (after_first capacity ev) (try_send-full capacity (x ∷ ch) ev e)
      ∙ ap (λ r. r.1) (try_send-room capacity ch ev (omega arith))

  -- A send keeps the newest.
  send_event-newest :
      (capacity : ℕ) (log : List E) (ev : E)
      → 0 < capacity
      → send_event capacity (newest capacity log) ev ≡ newest capacity (log ++ ev ∷ [])
  send_event-newest capacity log ev h = elim (Bool-cases (ltb (length log) capacity)) [
    | inl t ↦
        let room : length log < capacity = omega (arith, ltb→lt (length log) capacity t) in
        ap (λ ch. send_event capacity ch ev) (newest_all capacity log (omega arith))
        ∙ send_room capacity log ev room
        ∙ sym (newest_all capacity (log ++ ev ∷ []) (omega (arith, length-append log (ev ∷ []))))
    | inr t ↦
        let k = length log - capacity in
        let full : capacity ≤ length log = ground (arith, t) in
        let next : length (log ++ ev ∷ []) - capacity ≡ suc k =
          omega (arith, length-append log (ev ∷ [])) in
        send_full capacity (newest capacity log) ev h (omega (arith, length-drop k log))
        ∙ ap (λ t. t ++ ev ∷ []) (drop_one k log)
        ∙ sym (drop-append (suc k) log (ev ∷ []) (omega arith))
        ∙ ap (λ n. drop n (log ++ ev ∷ [])) (sym next)
  ]

  left_small : (capacity : ℕ) (ch : List E) → length ch ≤ capacity → length (poll ch).1 ≤ capacity
  unfolding poll
  left_small capacity [] h = h
  left_small capacity (ev ∷ ch) h = omega arith

  -- Whatever a reader sends and whenever a client polls between two calls of `SendEvent`, though not
  -- within one, the client sees the same events, and the channel is left with the same ones, as if
  -- all events were kept and each poll forgot all but the newest, of which it takes the oldest. The
  -- channel has room for one event at least.
  pub run-run_log :
      (capacity : ℕ) (ops : List (Op E)) (log : List E)
      → 0 < capacity
      → ((run capacity ops (newest capacity log)).0 ≡ (run_log capacity ops log).0)
        × ((run capacity ops (newest capacity log)).1
            ≡ newest capacity (run_log capacity ops log).1)
  unfolding run run_log
  run-run_log capacity [] log h = (refl, refl)
  run-run_log capacity (sends ev ∷ ops) log h =
      subst
        (λ ch.
          ((run capacity ops ch).0 ≡ (run_log capacity ops (log ++ ev ∷ [])).0)
          × ((run capacity ops ch).1 ≡ newest capacity (run_log capacity ops (log ++ ev ∷ [])).1))
        (sym (send_event-newest capacity log ev h)) (run-run_log capacity ops (log ++ ev ∷ []) h)
  run-run_log capacity (polls ∷ ops) log h =
      let left = (poll (newest capacity log)).1 in
      let small = left_small capacity (newest capacity log) (length-newest capacity log) in
      let (seen, last) =
        subst
          (λ ch.
            ((run capacity ops ch).0 ≡ (run_log capacity ops left).0)
            × ((run capacity ops ch).1 ≡ newest capacity (run_log capacity ops left).1))
          (newest_all capacity left small) (run-run_log capacity ops left h) in
      ((λ i. (poll (newest capacity log)).0 ∷ seen i), last)
