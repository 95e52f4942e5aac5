-- ===== src/Net6/Session/Invariant.antt =====
-- No action of a login breaks the invariant of a session.
use twclient.Prelude.{ℕ, zero, suc, arith, List, [], ◌∷◌, ◌++◌, length, Bool, true, Option}
use twclient.Packer.Varint.{Varint}
use twclient.Prelude.Int.{pos}
use twclient.Network.{
  Arrival, arrives, elapses, breaks, Conn, Act, then_do, send_raw, resending, recv_resending,
}
use twclient.Net6.Header.{unpack}
use twclient.Packet.Login.{LoginOption, LoginConfig, apply_login_options}
use twclient.Net6.Messages.{
  net_version, sys_client_ver, sys_info, sys_ready, sys_enter_game, game_cl_start_info,
}
use twclient.Net6.Builder.{build_ctrl_packet_no_token}
use twclient.Net6.Session.{Session, has_security_token, send_chunks}
use twclient.Net6.Session.Login.{
  connect_payload, enter_game, start_and_enter, ready_up, send_info, Step, again, arrived, closed,
  read_accept, con_ready_step, after_step, recv_until, recv_until_enough, map_change_step,
  handshake, recv_until_map_change, recv_until_con_ready, login, with_vital_chunk, send_and_wait,
}
use twclient.Net6.Session.WellFormed.{
  IsSession, Keeps, and_then-IsSession, then_do-Keeps, if_result-IsSession, with_vital_chunk-Keeps,
  read_accept-Keeps, StepIsSession, con_ready_step-StepIsSession, map_change_step-StepIsSession,
}

module _ {M : Type 0} where
  module _ (refuses : List (List ℕ) → List ℕ → Bool) where
    send_raw-Keeps : (pkt : List ℕ) → Keeps {M = M} (send_raw refuses pkt)
    unfolding send_raw
    send_raw-Keeps pkt (s, c) i = ground (arith, i)

    send_chunks-Keeps : (n : ℕ) (bytes : List ℕ) → Keeps {M = M} (send_chunks refuses n bytes)
    unfolding send_chunks
    send_chunks-Keeps n bytes (s, c) i = send_raw-Keeps _ (s, c) i

  module _ (resend : Act (Session M) (Unit {0})) (keeps : Keeps resend) where
    resending-Keeps : (later : List Arrival) → Keeps {M = M} (resending resend later)
    unfolding resending
    resending-Keeps [] w i = i
    resending-Keeps (arrives p ∷ later) w i = i
    resending-Keeps (elapses ∷ later) (s, c) i =
        and_then-IsSession (resend (s, record c { arrivals = later })) (λ _. resending resend later)
          (λ _. resending-Keeps later) (keeps (s, record c { arrivals = later }) i)
    resending-Keeps (breaks ∷ later) w i = i

    recv_resending-Keeps : Keeps {M = M} (recv_resending resend)
    unfolding recv_resending
    recv_resending-Keeps (s, c) i = resending-Keeps c.arrivals (s, c) i

    module _ (step : List ℕ → Session M → Step M)
        (sound : (resp : List ℕ) (s : Session M) → IsSession s → StepIsSession (step resp s)) where
      after_step-IsSession :
          (r : Step M) (c : Conn) (more : Act (Session M) (Unit {0}))
          → Keeps more
          → StepIsSession r
          → IsSession (after_step r c more).1.0
      after_step-IsSession (again s) c more h i = h (s, c) i
      after_step-IsSession (arrived s) c more h i = i
      after_step-IsSession (closed reason s) c more h i = i

      recv_until-Keeps : (fuel : ℕ) → Keeps {M = M} (recv_until fuel step resend)
      unfolding recv_until
      recv_until-Keeps zero w i = i
      recv_until-Keeps (suc fuel) w i =
          and_then-IsSession (recv_resending resend w) _
            (λ resp (s, c) j.
              after_step-IsSession (step resp s) c (recv_until fuel step resend)
                (recv_until-Keeps fuel) (sound resp s j))
            (recv_resending-Keeps w i)

      recv_until_enough-Keeps : Keeps {M = M} (recv_until_enough step resend)
      unfolding recv_until_enough
      recv_until_enough-Keeps (s, c) i = recv_until-Keeps (suc (length c.arrivals)) (s, c) i

  -- Neither a login nor a part of it breaks the invariant.
  module _ (huff : List ℕ → Option (List ℕ)) (refuses : List (List ℕ) → List ℕ → Bool) where
    handshake-Keeps : Keeps {M = M} (handshake huff refuses)
    unfolding handshake
    handshake-Keeps (s, c) i =
        let connect : Act (Session M) (Unit {0}) =
          send_raw refuses (build_ctrl_packet_no_token 0 (connect_payload s.client_token)) in
        let sends = send_raw-Keeps refuses in
        then_do-Keeps connect _ (sends _)
          (λ _.
            then_do-Keeps (recv_resending connect) _ (recv_resending-Keeps connect (sends _))
              (λ resp.
                then_do-Keeps (read_accept resp (unpack resp)) _
                  (read_accept-Keeps resp (unpack resp))
                  (λ _ w j. if_result-IsSession (has_security_token w.0) _ _ (sends _ w j) j)))
          (s, c) i

    module _ (vi : Varint) (md5 : List ℕ → List ℕ) where
      -- One pending step and its wait.
      step_and_wait-Keeps :
          (step : List ℕ → Session M → Step M)
          → ((resp : List ℕ) (s : Session M) → IsSession s → StepIsSession (step resp s))
          → (n : ℕ) (bytes : List ℕ)
          → Keeps {M = M} (send_and_wait (send_chunks refuses n bytes) (recv_until_enough step))
      step_and_wait-Keeps step sound n bytes =
          let sends = send_chunks-Keeps refuses n bytes in
          then_do-Keeps (send_chunks refuses n bytes) _ sends
            (λ _. recv_until_enough-Keeps (send_chunks refuses n bytes) sends step sound)

      enter_game-Keeps : Keeps {M = M} (enter_game huff refuses vi md5)
      unfolding enter_game
      enter_game-Keeps =
          with_vital_chunk-Keeps (sys_enter_game vi) (send_chunks refuses 1)
            (send_chunks-Keeps refuses 1)

      start_and_enter-Keeps :
          (name clan : List ℕ) (cfg : LoginConfig)
          → Keeps {M = M} (start_and_enter huff refuses vi md5 name clan cfg)
      unfolding start_and_enter
      start_and_enter-Keeps name clan cfg =
          with_vital_chunk-Keeps
            (game_cl_start_info vi name clan cfg.country cfg.skin true (pos 65408) (pos 65408))
            (λ chunk. then_do (send_chunks refuses 1 chunk) (λ _. enter_game huff refuses vi md5))
            (λ chunk.
              then_do-Keeps (send_chunks refuses 1 chunk) (λ _. enter_game huff refuses vi md5)
                (send_chunks-Keeps refuses 1 chunk) (λ _. enter_game-Keeps))

      ready_up-Keeps :
          (name clan : List ℕ) (cfg : LoginConfig)
          → Keeps {M = M} (ready_up huff refuses vi md5 name clan cfg)
      unfolding ready_up recv_until_con_ready
      ready_up-Keeps name clan cfg =
          let waits : List ℕ → Act (Session M) (Unit {0}) = λ chunk.
            send_and_wait (send_chunks refuses 1 chunk) (recv_until_enough (con_ready_step huff)) in
          with_vital_chunk-Keeps (sys_ready vi)
            (λ chunk.
              then_do (waits chunk) (λ _. start_and_enter huff refuses vi md5 name clan cfg))
            (λ chunk.
              then_do-Keeps (waits chunk) (λ _. start_and_enter huff refuses vi md5 name clan cfg)
                (step_and_wait-Keeps (con_ready_step huff) (con_ready_step-StepIsSession huff) 1
                  chunk)
                (λ _. start_and_enter-Keeps name clan cfg))

      send_info-Keeps :
          (random name clan : List ℕ) (cfg : LoginConfig)
          → Keeps {M = M} (send_info huff refuses vi md5 random name clan cfg)
      unfolding send_info recv_until_map_change
      send_info-Keeps random name clan cfg =
          let step = map_change_step vi md5 huff in
          let waits : List ℕ → Act (Session M) (Unit {0}) =
            λ chunks. send_and_wait (send_chunks refuses 2 chunks) (recv_until_enough step) in
          let rest = ready_up huff refuses vi md5 name clan cfg in
          with_vital_chunk-Keeps (sys_client_ver vi md5 random)
            (λ b.
              with_vital_chunk (sys_info vi net_version cfg.password)
                (λ d. then_do (waits (b ++ d)) (λ _. rest)))
            (λ b.
              with_vital_chunk-Keeps (sys_info vi net_version cfg.password)
                (λ d. then_do (waits (b ++ d)) (λ _. rest))
                (λ d.
                  then_do-Keeps (waits (b ++ d)) (λ _. rest)
                    (step_and_wait-Keeps step (map_change_step-StepIsSession vi md5 huff) 2
                      (b ++ d))
                    (λ _. ready_up-Keeps name clan cfg)))

      -- Whatever the server sends and whatever writes fail, a login leaves a session whose sequence
      -- number and ack are below 1024 and whose tokens have four bytes, if they were so before.
      pub login-IsSession :
          (random name clan : List ℕ) (opts : List (Option LoginOption)) (s : Session M) (c : Conn)
          → IsSession s
          → IsSession (login huff refuses vi md5 random name clan opts (s, c)).1.0
      unfolding login
      login-IsSession random name clan opts s c =
          let cfg = apply_login_options opts in
          then_do-Keeps (handshake huff refuses)
            (λ _. send_info huff refuses vi md5 random name clan cfg) handshake-Keeps
            (λ _. send_info-Keeps random name clan cfg) (s, c)
