-- ===== src/Net6/Session/Completes.antt =====
-- A login comes to its end: where the server answers each step, `Login` returns without an error.
use mathlib.Core.Path.{subst}
use twclient.Prelude.{
  ℕ, zero, suc, ◌≡◌, refl, sym, List, ◌∷◌, ◌++◌, replicate, Bool, false, Bool-cases, inl, inr,
  Option,
}
use twclient.Packer.Varint.{Varint}
use twclient.Packet.Login.{LoginOption, LoginConfig, apply_login_options}
use twclient.Network.{
  Arrival, arrives, elapses, Conn, Act, Outcome, done, failed, and_then, send_raw, resending,
  recv_resending,
}
use twclient.Net6.Header.{unpack}
use twclient.Net6.Builder.{build_ctrl_packet_no_token}
use twclient.Net6.Session.{Session, next_seq, has_security_token, send_chunks, build_chunk_packet}
use twclient.Net6.Session.Login.{
  Step, arrived, connect_payload, accept_payload, read_accept, con_ready_step, map_change_step,
  recv_until_enough, recv_until_map_change, recv_until_con_ready, handshake, send_and_wait,
  enter_game, start_and_enter, ready_up, send_info, login,
}
use twclient.Net6.Session.Waiting.{Waits, wait_ends}

module _ {M : Type 0} where
  -- An action has returned `a` without an error, with the session `t` and the arrivals `later` left.
  abbrev pub Ends :
      {A : Type 0} → Outcome A × (Session M × Conn) → A → Session M → List Arrival → Type 0
  Ends (done b, (s, c)) a t later = (b ≡ a) × (s ≡ t) × (c.arrivals ≡ later)
  Ends (failed e, w) a t later = ⊥

  -- What follows an action that has ended.
  Ends-and_then :
      {A B : Type 0} (r : Outcome A × (Session M × Conn)) (next : A → Act (Session M) B) (a : A)
      (b : B) (t u : Session M) (mid later : List Arrival)
      → Ends r a t mid
      → ((sent : List (List ℕ))
          → Ends (next a (t, record { arrivals = mid; sent = sent })) b u later)
      → Ends (and_then r next) b u later
  Ends-and_then (done a', (s, c)) next a b t u mid later (ha, hs, hc) h =
      subst (λ x. Ends (next x (s, c)) b u later) (sym ha)
        (subst (λ x. Ends (next a (x, c)) b u later) (sym hs)
          (subst (λ l. Ends (next a (t, record { arrivals = l; sent = c.sent })) b u later) (sym hc)
            (h c.sent)))
  Ends-and_then (failed e, w) next a b t u mid later h g = absurd h

  Ends-eq :
      {A : Type 0} (r : Outcome A × (Session M × Conn)) (a : A) (t : Session M) (c : Conn)
      → r ≡ (done a, (t, c))
      → Ends r a t c.arrivals
  Ends-eq r a t c e = subst (λ x. Ends x a t c.arrivals) (sym e) (refl, refl, refl)

  module _ (refuses : List (List ℕ) → List ℕ → Bool)
      (writes : (sent : List (List ℕ)) (pkt : List ℕ) → refuses sent pkt ≡ false) where
    send_raw-Ends :
        (pkt : List ℕ) (s : Session M) (later : List Arrival) (sent : List (List ℕ))
        → Ends (send_raw refuses pkt (s, record { arrivals = later; sent = sent })) tt s later
    unfolding send_raw
    send_raw-Ends pkt s later sent = rw (writes sent pkt) (refl, refl, refl)

    send_chunks-Ends :
        (n : ℕ) (bytes : List ℕ) (s : Session M) (later : List Arrival) (sent : List (List ℕ))
        → Ends
            (send_chunks refuses n bytes (s, record { arrivals = later; sent = sent }))
            tt
            s
            later
    unfolding send_chunks
    send_chunks-Ends n bytes s = send_raw-Ends (build_chunk_packet s n bytes) s

    -- CONNECT is sent again in every interval until an answer comes.
    resending-Ends :
        (k : ℕ) (pkt p : List ℕ) (later : List Arrival) (s : Session M) (c : Conn)
        → Ends
            (resending (send_raw refuses pkt) (replicate k elapses ++ arrives p ∷ later) (s, c))
            p
            s
            later
    unfolding resending
    resending-Ends zero pkt p later s c = (refl, refl, refl)
    resending-Ends (suc k) pkt p later s c =
        Ends-and_then _ _ tt p s s (replicate k elapses ++ arrives p ∷ later) later
          (send_raw-Ends pkt s (replicate k elapses ++ arrives p ∷ later) c.sent)
          (λ sent. resending-Ends k pkt p later s _)

    -- A pending step and its wait, where the arrivals `before` do not end it and `p` does.
    step_and_wait-Ends :
        (step : List ℕ → Session M → Step M) (n : ℕ) (bytes : List ℕ) (before : List Arrival)
        (p : List ℕ) (after : List Arrival) (sent : List (List ℕ)) (s t u : Session M)
        → Waits step before s t
        → step p t ≡ arrived u
        → Ends
            (send_and_wait
              (send_chunks refuses n bytes)
              (recv_until_enough step)
              (s, record { arrivals = before ++ arrives p ∷ after; sent = sent }))
            tt
            u
            after
    step_and_wait-Ends step n bytes before p after sent s t u w e =
        Ends-and_then _ _ tt tt s u (before ++ arrives p ∷ after) after
          (send_chunks-Ends n bytes s (before ++ arrives p ∷ after) sent)
          (λ written.
            Ends-eq _ tt u _
              (wait_ends step refuses writes n bytes before p after written s t u w e))

    module _ (huff : List ℕ → Option (List ℕ)) where
      -- The answer to CONNECT gives the tokens, and ACCEPT is sent if there is a security token.
      handshake-Ends :
          (k : ℕ) (p : List ℕ) (later : List Arrival) (sent : List (List ℕ)) (s t : Session M)
          → ((c : Conn) → read_accept p (unpack p) (s, c) ≡ (done tt, (t, c)))
          → Ends
              (handshake huff refuses
                (s, record { arrivals = replicate k elapses ++ arrives p ∷ later; sent = sent }))
              tt
              t
              later
      unfolding handshake recv_resending
      handshake-Ends k p later sent s t e =
          let pkt = build_ctrl_packet_no_token 0 (connect_payload s.client_token) in
          Ends-and_then _ _ tt tt s t (replicate k elapses ++ arrives p ∷ later) later
            (send_raw-Ends pkt s (replicate k elapses ++ arrives p ∷ later) sent)
            (λ sent1.
              Ends-and_then _ _ p tt s t later later (resending-Ends k pkt p later s _) (λ sent2.
                Ends-and_then _ _ tt tt t t later later
                  (Ends-eq _ tt t _ (e (record { arrivals = later; sent = sent2 })))
                  (λ sent3.
                    let accept = build_ctrl_packet_no_token 0 (accept_payload t.security_token) in
                    elim (Bool-cases (has_security_token t)) [
                      | inl b ↦ rw b (send_raw-Ends accept t later sent3)
                      | inr b ↦ rw b (refl, refl, refl)
                    ])))

      module _ (vi : Varint) (md5 : List ℕ → List ℕ) where
        enter_game-Ends :
            (s : Session M) (later : List Arrival) (sent : List (List ℕ))
            → Ends
                (enter_game huff refuses vi md5 (s, record { arrivals = later; sent = sent }))
                tt
                (next_seq s).1
                later
        unfolding enter_game
        enter_game-Ends s later sent = send_chunks-Ends 1 _ (next_seq s).1 later sent

        start_and_enter-Ends :
            (name clan : List ℕ) (cfg : LoginConfig) (s : Session M) (later : List Arrival)
            (sent : List (List ℕ))
            → Ends
                (start_and_enter huff refuses vi md5 name clan cfg
                  (s, record { arrivals = later; sent = sent }))
                tt
                (next_seq (next_seq s).1).1
                later
        unfolding start_and_enter
        start_and_enter-Ends name clan cfg s later sent =
            Ends-and_then _ _ tt tt (next_seq s).1 _ later later
              (send_chunks-Ends 1 _ (next_seq s).1 later sent)
              (λ written. enter_game-Ends (next_seq s).1 later written)

        ready_up-Ends :
            (name clan : List ℕ) (cfg : LoginConfig) (before : List Arrival) (p : List ℕ)
            (after : List Arrival) (sent : List (List ℕ)) (s t u : Session M)
            → Waits (con_ready_step huff) before (next_seq s).1 t
            → con_ready_step huff p t ≡ arrived u
            → Ends
                (ready_up huff refuses vi md5 name clan cfg
                  (s, record { arrivals = before ++ arrives p ∷ after; sent = sent }))
                tt
                (next_seq (next_seq u).1).1
                after
        unfolding ready_up recv_until_con_ready
        ready_up-Ends name clan cfg before p after sent s t u w e =
            Ends-and_then _ _ tt tt u _ after after
              (step_and_wait-Ends (con_ready_step huff) 1 _ before p after sent (next_seq s).1 t u w
                e)
              (λ written. start_and_enter-Ends name clan cfg u after written)

        -- Where every write succeeds and the server answers each step, a login returns without an
        -- error, whatever else arrives in between that the waits pass over. First, after any number
        -- of intervals, comes an answer to CONNECT that is accepted; then a packet that ends the wait
        -- for the map change, and one that ends the wait for CON_READY. What arrives later is left,
        -- and the session is the one that the last packet makes, two sequence numbers further.
        pub login_completes :
            (random name clan : List ℕ) (opts : List (Option LoginOption)) (k : ℕ)
            (p0 p1 p2 : List ℕ) (before1 before2 after : List Arrival) (sent : List (List ℕ))
            (s0 s1 t1 u1 t2 u2 : Session M)
            → ((c : Conn) → read_accept p0 (unpack p0) (s0, c) ≡ (done tt, (s1, c)))
            → Waits (map_change_step vi md5 huff) before1 (next_seq (next_seq s1).1).1 t1
            → map_change_step vi md5 huff p1 t1 ≡ arrived u1
            → Waits (con_ready_step huff) before2 (next_seq u1).1 t2
            → con_ready_step huff p2 t2 ≡ arrived u2
            → Ends
                (login huff refuses vi md5 random name clan opts (
                  s0,
                  record {
                    arrivals =
                        replicate k elapses
                        ++ arrives p0 ∷ (before1 ++ arrives p1 ∷ (before2 ++ arrives p2 ∷ after));
                    sent = sent;
                  },
                ))
                tt
                (next_seq (next_seq u2).1).1
                after
        unfolding login send_info recv_until_map_change
        login_completes random name clan opts k p0 p1 p2 before1 before2 after sent s0 s1 t1 u1 t2
              u2 accepted w1 e1 w2 e2 =
            let cfg = apply_login_options opts in
            let last = before2 ++ arrives p2 ∷ after in
            Ends-and_then _ _ tt tt s1 _ (before1 ++ arrives p1 ∷ last) after
              (handshake-Ends k p0 (before1 ++ arrives p1 ∷ last) sent s0 s1 accepted)
              (λ sent1.
                Ends-and_then _ _ tt tt u1 _ last after
                  (step_and_wait-Ends (map_change_step vi md5 huff) 2 _ before1 p1 last sent1
                    (next_seq (next_seq s1).1).1 t1 u1 w1 e1)
                  (λ sent2. ready_up-Ends name clan cfg before2 p2 after sent2 u1 t2 u2 w2 e2))
