-- ===== src/Network.antt =====
-- network/conn.go: the connection under a session. The operating system and the clock are not
-- modelled: what the waits of a session come to, in order, is a list of arrivals, and where it ends
-- the context is over. `S` is the state of the session, `refuses` tells which writes fail.
use twclient.Prelude.{List, [], ◌∷◌, ◌++◌, ℕ, Bool, if◌then◌else◌}

pub data Arrival : Type 0 where
  -- A packet, as `Read` gives it.
  arrives : List ℕ → Arrival
  -- The interval of the wait is over and no packet came.
  elapses : Arrival
  -- Any other error of `Read`.
  breaks : Arrival

pub record Conn : Type 0 where
  pub arrivals : List Arrival
  -- The packets written so far, the oldest first.
  pub sent : List (List ℕ)

-- The errors, without their text but for the reason of a close.
pub data Failure : Type 0 where
  deadline timed_out io_error send_failed : Failure
  bad_header too_short not_accept : Failure
  no_map_info no_map_data bad_map_data bad_map : Failure
  -- A panic.
  crashed : Failure
  server_closed_with : List ℕ → Failure

pub data Outcome (A : Type 0) : Type 0 where
  done : A → Outcome A
  failed : Failure → Outcome A

-- What a method of a session does: it returns, and leaves a session and a connection.
abbrev pub Act : Type 0 → Type 0 → Type 0
Act S A = S × Conn → Outcome A × (S × Conn)

abbrev pub and_then :
    {S A B : Type 0} → Outcome A × (S × Conn) → (A → Act S B) → Outcome B × (S × Conn)
and_then (done a, w) f = f a w
and_then (failed e, w) f = (failed e, w)

module _ {S : Type 0} where
  abbrev pub ret : {A : Type 0} → A → Act S A
  ret a w = (done a, w)

  abbrev pub fail : {A : Type 0} → Failure → Act S A
  fail e w = (failed e, w)

  -- `if err := first(); err != nil { return err }`, and what follows.
  abbrev pub then_do : {A B : Type 0} → Act S A → (A → Act S B) → Act S B
  then_do first next w = and_then (first w) next

  -- A change of the session alone.
  abbrev pub update : (S → S) → Act S (Unit {0})
  update f (s, c) = (done tt, (f s, c))

  unfoldable pub first_arrival : List Arrival → Act S (List ℕ)
  first_arrival [] (s, c) = (failed deadline, (s, c))
  first_arrival (arrives p ∷ later) (s, c) = (done p, (s, record c { arrivals = later }))
  first_arrival (elapses ∷ later) (s, c) = (failed timed_out, (s, record c { arrivals = later }))
  first_arrival (breaks ∷ later) (s, c) = (failed io_error, (s, record c { arrivals = later }))

  unfoldable pub recv_context : Act S (List ℕ)
  recv_context (s, c) = first_arrival c.arrivals (s, c)

  module _ (refuses : List (List ℕ) → List ℕ → Bool) where
    unfoldable pub send_raw : List ℕ → Act S (Unit {0})
    send_raw bytes (s, c) =
        if refuses c.sent bytes
        then (failed send_failed, (s, c))
        else (done tt, (s, record c { sent = c.sent ++ bytes ∷ [] }))

  -- `RecvResending`, over the arrivals; `resend` writes and reads nothing.
  unfoldable pub resending : Act S (Unit {0}) → List Arrival → Act S (List ℕ)
  resending resend [] (s, c) = (failed deadline, (s, record c { arrivals = [] }))
  resending resend (arrives p ∷ later) (s, c) = (done p, (s, record c { arrivals = later }))
  resending resend (elapses ∷ later) (s, c) =
      and_then (resend (s, record c { arrivals = later })) (λ _. resending resend later)
  resending resend (breaks ∷ later) (s, c) = (failed io_error, (s, record c { arrivals = later }))

  unfoldable pub recv_resending : Act S (Unit {0}) → Act S (List ℕ)
  recv_resending resend (s, c) = resending resend c.arrivals (s, c)
