-- ===== src/Net6/Reader/Onward.antt =====
-- Neither the loop of the background reader nor a part of it breaks the invariant of the session, or
-- takes an acknowledged tick back.
use twclient.Prelude.{ℕ, arith, List, Bool, true, false, if◌then◌else◌}
use twclient.Prelude.Int.{◌≤ℤ◌}
use twclient.Packet.ServerEvent.{ServerEvent}
use twclient.Network.{Act, Conn, Outcome, done, failed, then_do, and_then}
use twclient.Net6.Session.{Session}
use twclient.Net6.Session.WellFormed.{IsSession}
use twclient.Net6.Reader.{Reader, emit_all}

module _ {M : Type 0} where
  -- What a step leaves of a session.
  pub record Onward (s t : Session M) : Type 0 where
    pub not_back : s.last_acked_snap ≤ℤ t.last_acked_snap
    pub still : IsSession s → IsSession t

  pub Onward-refl : (s : Session M) → Onward s s
  Onward-refl s = record { not_back = omega arith; still = λ i. i }

  pub Onward-trans : (s t u : Session M) → Onward s t → Onward t u → Onward s u
  Onward-trans s t u a b = record {
    not_back = omega (arith, a.not_back, b.not_back);
    still = λ i. b.still (a.still i);
  }

  -- The session of a result is one that a step leaves.
  pub record From {A : Type 0} (s : Session M) (r : Outcome A × (Reader M × Conn)) : Type 0 where
    pub onward : Onward s r.1.0.session

  -- An action of a session, and one of a reader, that keeps to that.
  abbrev pub Goes : {A : Type 0} → Act (Session M) A → Type 0
  Goes act = (w : Session M × Conn) → Onward w.0 (act w).1.0

  abbrev pub GoesOn : {A : Type 0} → Act (Reader M) A → Type 0
  GoesOn act = (w : Reader M × Conn) → From w.0.session (act w)

  pub stays : {A : Type 0} (o : Outcome A) (r : Reader M) (c : Conn) → From r.session (o, (r, c))
  stays o r c = record { onward = Onward-refl r.session }

  pub after-From :
      {A : Type 0} (s t : Session M) (r : Outcome A × (Reader M × Conn))
      → Onward s t
      → From t r
      → From s r
  after-From s t r i f = record { onward = Onward-trans s t _ i f.onward }

  and_then-From :
      {A B : Type 0} (s : Session M) (r : Outcome A × (Reader M × Conn)) (f : A → Act (Reader M) B)
      → ((a : A) → GoesOn (f a))
      → From s r
      → From s (and_then r f)
  and_then-From s (done a, w) f h i = after-From s w.0.session (f a w) i.onward (h a w)
  and_then-From s (failed e, w) f h i = record { onward = i.onward }

  pub then_do-GoesOn :
      {A B : Type 0} (first : Act (Reader M) A) (next : A → Act (Reader M) B)
      → GoesOn first
      → ((a : A) → GoesOn (next a))
      → GoesOn (then_do first next)
  then_do-GoesOn first next h g w = and_then-From w.0.session (first w) next g (h w)

  pub if-From :
      {A : Type 0} (b : Bool) (s : Session M) (x y : Outcome A × (Reader M × Conn))
      → From s x
      → From s y
      → From s (if b then x else y)
  if-From true s x y i j = i
  if-From false s x y i j = j

  pub emit_all-GoesOn : (capacity : ℕ) (evs : List ServerEvent) → GoesOn (emit_all capacity evs)
  unfolding emit_all
  emit_all-GoesOn capacity evs (r, c) = record { onward = Onward-refl r.session }
