-- ===== src/Net6/Session/Waiting.antt =====
-- The waits of a login: the fuel of their loop is enough, and what they wait for ends them.
use twclient.Prelude.{
  ℕ, zero, suc, ◌<◌, ◌≡◌, refl, sym, ap, ◌∙◌, arith, List, [], ◌∷◌, ◌++◌, length, Bool, false,
  Option,
}
use twclient.Network.{
  Arrival, arrives, elapses, breaks, Conn, Act, Outcome, done, failed, and_then, resending,
  recv_resending, send_raw, server_closed_with,
}
use mathlib.Core.Path.{subst}
use twclient.Net6.Header.{Header}
use twclient.Net6.Session.{parse_payload, Session, send_chunks, build_chunk_packet}
use twclient.Net6.Session.Login.{
  Step, again, arrived, closed, on_chunks, after_step, recv_until, recv_until_enough,
}

-- Where a wait ends with a packet, fewer arrivals are left.
abbrev Shorter : {S A : Type 0} → ℕ → Outcome A × (S × Conn) → Type 0
Shorter n (done a, (s, c)) = length c.arrivals < n
Shorter n (failed e, w) = Unit {0}

Shorter-weaken :
    {S A : Type 0} (n : ℕ) (r : Outcome A × (S × Conn)) → Shorter n r → Shorter (suc n) r
Shorter-weaken n (done a, (s, c)) h = omega arith
Shorter-weaken n (failed e, w) h = tt

and_then-Shorter :
    {S A B : Type 0} (n : ℕ) (r : Outcome A × (S × Conn)) (f : A → Act S B)
    → ((a : A) (w : S × Conn) → Shorter n (f a w))
    → Shorter (suc n) (and_then r f)
and_then-Shorter n (done a, w) f h = Shorter-weaken n (f a w) (h a w)
and_then-Shorter n (failed e, w) f h = tt

module _ {S : Type 0} (resend : Act S (Unit {0})) where
  resending-Shorter :
      (later : List Arrival) (w : S × Conn) → Shorter (length later) (resending resend later w)
  unfolding resending
  resending-Shorter [] w = tt
  resending-Shorter (arrives p ∷ later) w = omega arith
  resending-Shorter (elapses ∷ later) (s, c) =
      and_then-Shorter (length later) (resend (s, record c { arrivals = later })) _
        (λ a. resending-Shorter later)
  resending-Shorter (breaks ∷ later) w = tt

module _ {M : Type 0} (step : List ℕ → Session M → Step M)
    (resend : Act (Session M) (Unit {0})) where
  after_step_cong :
      (r : Step M) (c : Conn) (f g : Act (Session M) (Unit {0}))
      → ((s : Session M) → f (s, c) ≡ g (s, c))
      → after_step r c f ≡ after_step r c g
  after_step_cong (again s) c f g h = h s
  after_step_cong (arrived s) c f g h = refl
  after_step_cong (closed reason s) c f g h = refl

  -- Two ways to go on that agree where fewer arrivals are left.
  round_cong :
      (n : ℕ) (r : Outcome (List ℕ) × (Session M × Conn)) (f g : Act (Session M) (Unit {0}))
      → Shorter n r
      → ((v : Session M × Conn) → length v.1.arrivals < n → f v ≡ g v)
      → and_then r (λ resp v. after_step (step resp v.0) v.1 f)
        ≡ and_then r (λ resp v. after_step (step resp v.0) v.1 g)
  round_cong n (done resp, (s, c)) f g h same =
      after_step_cong (step resp s) c f g (λ t. same (t, c) h)
  round_cong n (failed e, w) f g h same = refl

  -- Any two fuels above the number of arrivals give the same.
  recv_until_fuel :
      (m n : ℕ) (w : Session M × Conn)
      → length w.1.arrivals < m
      → length w.1.arrivals < n
      → recv_until m step resend w ≡ recv_until n step resend w
  unfolding recv_until recv_resending
  recv_until_fuel zero n w hm hn = absurd (omega arith)
  recv_until_fuel (suc m) zero w hm hn = absurd (omega arith)
  recv_until_fuel (suc m) (suc n) (s, c) hm hn =
      round_cong (length c.arrivals) (resending resend c.arrivals (s, c)) _ _
        (resending-Shorter resend c.arrivals (s, c))
        (λ v h. recv_until_fuel m n v (omega arith) (omega arith))

  -- The wait never runs out of fuel: it is the loop of the source, which receives a packet, does
  -- with it what `step` says, and goes on, or ends, or fails with the reason of a close.
  pub recv_until-loop :
      (w : Session M × Conn)
      → recv_until_enough step resend w
        ≡ and_then
            (recv_resending resend w)
            (λ resp v. after_step (step resp v.0) v.1 (recv_until_enough step resend))
  unfolding recv_until_enough recv_until recv_resending
  recv_until-loop (s, c) =
      round_cong (length c.arrivals) (resending resend c.arrivals (s, c)) _ _
        (resending-Shorter resend c.arrivals (s, c))
        (λ v h. recv_until_fuel (length c.arrivals) (suc (length v.1.arrivals)) v h (omega arith))

module _ {M : Type 0} (step : List ℕ → Session M → Step M) where
  -- Arrivals that do not end a wait: intervals without a packet, and packets that the wait passes
  -- over, which may change the session.
  pub data Waits : List Arrival → Session M → Session M → Type 0 where
    here : (s : Session M) → Waits [] s s
    lapse : (later : List Arrival) (s t : Session M) → Waits later s t → Waits (elapses ∷ later) s t
    pass :
        (p : List ℕ) (later : List Arrival) (s s1 t : Session M)
        → step p s ≡ again s1
        → Waits later s1 t
        → Waits (arrives p ∷ later) s t

module _ {M : Type 0} where
  -- What a wait comes to by a decision: it goes on, or returns, or fails with the reason.
  abbrev pub Decides :
      Step M → Conn → Act (Session M) (Unit {0}) → Outcome (Unit {0}) × (Session M × Conn) → Type 0
  Decides (again u) c more r = r ≡ more (u, c)
  Decides (arrived u) c more r = r ≡ (done tt, (u, c))
  Decides (closed reason u) c more r = r ≡ (failed (server_closed_with reason), (u, c))

  after_step-Decides :
      (d : Step M) (c : Conn) (more : Act (Session M) (Unit {0}))
      → Decides d c more (after_step d c more)
  after_step-Decides (again u) c more = refl
  after_step-Decides (arrived u) c more = refl
  after_step-Decides (closed reason u) c more = refl

module _ {M : Type 0} (step : List ℕ → Session M → Step M) (refuses : List (List ℕ) → List ℕ → Bool)
    (writes : (sent : List (List ℕ)) (pkt : List ℕ) → refuses sent pkt ≡ false) (num_chunks : ℕ)
    (chunk_data : List ℕ) where
  -- What was written at the end of such a wait: one more packet for each interval.
  abbrev pub written_after :
      (before : List Arrival) (s t : Session M)
      → Waits step before s t
      → List (List ℕ)
      → List (List ℕ)
  written_after _ s _ (here _) sent = sent
  written_after _ s t (lapse later _ _ w) sent =
      written_after later s t w (sent ++ build_chunk_packet s num_chunks chunk_data ∷ [])
  written_after _ s t (pass p later _ s1 _ e w) sent = written_after later s1 t w sent

  abbrev resend : Act (Session M) (Unit {0})
  resend = send_chunks refuses num_chunks chunk_data

  resend_writes :
      (s : Session M) (c : Conn)
      → send_chunks refuses num_chunks chunk_data (s, c) ≡ (
        done tt,
        (s, record c { sent = c.sent ++ build_chunk_packet s num_chunks chunk_data ∷ [] }),
      )
  unfolding send_chunks send_raw
  resend_writes s c = rw (writes c.sent (build_chunk_packet s num_chunks chunk_data)) refl

  -- A wait that has passed over what came before does with the next packet what `step` says.
  recv_until-after :
      (before : List Arrival) (p : List ℕ) (after : List Arrival) (sent : List (List ℕ))
      (s t : Session M) (w : Waits step before s t)
      → recv_until_enough step resend
          (s, record { arrivals = before ++ arrives p ∷ after; sent = sent })
        ≡ after_step
            (step p t)
            (record { arrivals = after; sent = written_after before s t w sent })
            (recv_until_enough step resend)
  unfolding recv_resending resending
  recv_until-after _ p after sent s _ (here _) =
      recv_until-loop step resend (s, record { arrivals = arrives p ∷ after; sent = sent })
  recv_until-after _ p after sent s t (lapse later _ _ w) =
      let rest = later ++ arrives p ∷ after in
      let written = sent ++ build_chunk_packet s num_chunks chunk_data ∷ [] in
      recv_until-loop step resend (s, record { arrivals = elapses ∷ rest; sent = sent })
      ∙ ap
          (λ r.
            and_then (and_then r (λ _. resending resend rest))
              (λ resp v. after_step (step resp v.0) v.1 (recv_until_enough step resend)))
          (resend_writes s (record { arrivals = rest; sent = sent }))
      ∙ sym (recv_until-loop step resend (s, record { arrivals = rest; sent = written }))
      ∙ recv_until-after later p after written s t w
  recv_until-after _ p after sent s t (pass q later _ s1 _ e w) =
      let c : Conn = record { arrivals = later ++ arrives p ∷ after; sent = sent } in
      recv_until-loop step resend
        (s, record { arrivals = arrives q ∷ (later ++ arrives p ∷ after); sent = sent })
      ∙ ap (λ r. after_step r c (recv_until_enough step resend)) e
      ∙ recv_until-after later p after sent s1 t w

  -- A wait, after any intervals without a packet, in each of which the pending chunks are written
  -- once more, and any packets that it passes over, does with the next packet what `step` says: it
  -- returns, or fails at once with the reason of a close, or goes on. No write fails.
  pub recv_until-Waits :
      (before : List Arrival) (p : List ℕ) (after : List Arrival) (sent : List (List ℕ))
      (s t : Session M) (w : Waits step before s t)
      → Decides
          (step p t)
          (record { arrivals = after; sent = written_after before s t w sent })
          (recv_until_enough step resend)
          (recv_until_enough step resend
            (s, record { arrivals = before ++ arrives p ∷ after; sent = sent }))
  recv_until-Waits before p after sent s t w =
      let c : Conn = record { arrivals = after; sent = written_after before s t w sent } in
      subst (Decides (step p t) c (recv_until_enough step resend))
        (sym (recv_until-after before p after sent s t w))
        (after_step-Decides (step p t) c (recv_until_enough step resend))

  -- So a wait ends with the packet that it is for.
  pub wait_ends :
      (before : List Arrival) (p : List ℕ) (after : List Arrival) (sent : List (List ℕ))
      (s t u : Session M) (w : Waits step before s t)
      → step p t ≡ arrived u
      → recv_until_enough step resend
          (s, record { arrivals = before ++ arrives p ∷ after; sent = sent })
        ≡ (done tt, (u, record { arrivals = after; sent = written_after before s t w sent }))
  wait_ends before p after sent s t u w e =
      let c : Conn = record { arrivals = after; sent = written_after before s t w sent } in
      recv_until-after before p after sent s t w
      ∙ ap (λ r. after_step r c (recv_until_enough step resend)) e

module _ {M : Type 0} (huff : List ℕ → Option (List ℕ))
    (chunks : Header → List ℕ → Session M → Step M) where
  -- A step of a login: control messages are its own affair, and chunks go to `chunks`.
  abbrev pub login_step : List ℕ → Session M → Step M
  login_step resp s = on_chunks chunks (parse_payload huff s resp) s
