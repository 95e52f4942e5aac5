-- ===== src/Packet/MapCache/Steps.antt =====
-- The cache under any interleaving of the calls of its sessions.
use twclient.Prelude.{
  ℕ, ◌<◌, ◌≡◌, ◌≢◌, refl, sym, ap, ◌∙◌, arith, List, [], ◌∷◌, Bool, true, false, ◌==◌,
  if◌then◌else◌, Option, none, some, Bool-cases, Option-cases, ◌⊎◌, ==_iff, inl, inr,
}
use mathlib.Core.Path.{subst}
use twclient.Packet.MapCache.{
  Key, eq_key, resume, MapCache, waits, new_map_cache, register, get_or_wait, resume, close,
  put_failed, put,
}

eq_key→eq : (j k : Key) → eq_key j k ≡ true → j ≡ k
unfolding eq_key
eq_key→eq [] [] h = refl
eq_key→eq [] (b ∷ k) h = ground (arith, h)
eq_key→eq (a ∷ j) [] h = ground (arith, h)
eq_key→eq (a ∷ j) (b ∷ k) h = ground (arith, h, eq_key→eq j k)

pub eq_key_refl : (k : Key) → eq_key k k ≡ true
unfolding eq_key
eq_key_refl [] = refl
eq_key_refl (a ∷ j) = ground (arith, eq_key_refl j)

abbrev pub was_closed : ℕ → List ℕ → Bool
was_closed ch [] = false
was_closed ch (c ∷ closed) = if c == ch then true else was_closed ch closed

-- No channel is closed twice, which is a panic.
abbrev pub ClosedOnce : List ℕ → Type 0
ClosedOnce [] = Unit {0}
ClosedOnce (c ∷ closed) = (was_closed c closed ≡ false) × ClosedOnce closed

given_some :
    (b : Bool) (n : ℕ) (p : Option ℕ) (ch : ℕ)
    → (if b then some n else p) ≡ some ch
    → ((b ≡ true) × (n ≡ ch)) ⊎ (p ≡ some ch)
given_some true n p ch h = inl (refl, ground (arith, h))
given_some false n p ch h = inr h

given_none :
    (b : Bool) (p : Option ℕ) (ch : ℕ)
    → (if b then none else p) ≡ some ch
    → (b ≡ false) × (p ≡ some ch)
given_none true p ch h = ground (arith, h)
given_none false p ch h = (refl, h)

was_closed-close :
    (o : Option ℕ) (ch : ℕ) (closed : List ℕ)
    → was_closed ch (close o closed) ≡ true
    → (o ≡ some ch) ⊎ (was_closed ch closed ≡ true)
was_closed-close none ch closed h = inr h
was_closed-close (some x) ch closed h = elim (Bool-cases (x == ch)) [
  | inl e ↦ inl (ap some ((==_iff x ch).0 e))
  | inr e ↦ inr (ground (arith, h, e))
]

ClosedOnce-close :
    (o : Option ℕ) (closed : List ℕ)
    → ClosedOnce closed
    → ((x : ℕ) → o ≡ some x → was_closed x closed ≡ false)
    → ClosedOnce (close o closed)
ClosedOnce-close none closed h f = h
ClosedOnce-close (some x) closed h f = (f x refl, h)

not_true : (b : Bool) → b ≢ true → b ≡ false
not_true true h = absurd (h refl)
not_true false h = refl

true_not_false : (b : Bool) → b ≡ true → b ≢ false
true_not_false b t h = ground (arith, t, h)

module _ {M : Type 0} where
  -- A call of one of the methods, by any session.
  pub data Step (c : MapCache M) : MapCache M → Type 0 where
    looks : (k : Key) → Step c (get_or_wait k c).1
    stores : (k : Key) (m : M) → Step c (put k m c)
    fails : (k : Key) → Step c (put_failed k c)

  pub data Reachable : MapCache M → Type 0 where
    start : Reachable new_map_cache
    next : (c d : MapCache M) → Reachable c → Step c d → Reachable d

  pub record IsSound (c : MapCache M) : Type 0 where
    pub known : (j : Key) (ch : ℕ) → c.pending j ≡ some ch → ch < c.next_channel
    pub still_open : (j : Key) (ch : ℕ) → c.pending j ≡ some ch → was_closed ch c.closed ≡ false
    pub apart : (i j : Key) (ch : ℕ) → c.pending i ≡ some ch → c.pending j ≡ some ch → i ≡ j
    pub missing : (j : Key) (ch : ℕ) → c.pending j ≡ some ch → c.maps j ≡ none
    pub old : (ch : ℕ) → was_closed ch c.closed ≡ true → ch < c.next_channel
    pub once : ClosedOnce c.closed

  new_map_cache-IsSound : IsSound new_map_cache
  unfolding new_map_cache
  new_map_cache-IsSound = record {
    known = λ j ch h. ground (arith, h);
    still_open = λ j ch h. refl;
    apart = λ i j ch h g. ground (arith, h);
    missing = λ j ch h. refl;
    old = λ ch h. ground (arith, h);
    once = tt;
  }

  register-IsSound :
      (k : Key) (c : MapCache M) → IsSound c → c.maps k ≡ none → IsSound (register k c)
  unfolding register
  register-IsSound k c s free = record {
    known = λ j ch h. elim (given_some (eq_key k j) c.next_channel (c.pending j) ch h) [
      | inl (e, q) ↦ omega (arith, q)
      | inr p ↦ omega (arith, s.known j ch p)
    ];
    still_open = λ j ch h. elim (given_some (eq_key k j) c.next_channel (c.pending j) ch h) [
      | inl (e, q) ↦ not_true (was_closed ch c.closed) (λ t. absurd (omega (arith, q, s.old ch t)))
      | inr p ↦ s.still_open j ch p
    ];
    apart = λ i j ch h g. elim (given_some (eq_key k i) c.next_channel (c.pending i) ch h) [
      | inl (e, q) ↦ elim (given_some (eq_key k j) c.next_channel (c.pending j) ch g) [
        | inl (e', q') ↦ sym (eq_key→eq k i e) ∙ eq_key→eq k j e'
        | inr p' ↦ absurd (omega (arith, q, s.known j ch p'))
      ]
      | inr p ↦ elim (given_some (eq_key k j) c.next_channel (c.pending j) ch g) [
        | inl (e', q') ↦ absurd (omega (arith, q', s.known i ch p))
        | inr p' ↦ s.apart i j ch p p'
      ]
    ];
    missing = λ j ch h. elim (given_some (eq_key k j) c.next_channel (c.pending j) ch h) [
      | inl (e, q) ↦ sym (ap c.maps (eq_key→eq k j e)) ∙ free
      | inr p ↦ s.missing j ch p
    ];
    old = λ ch h. omega (arith, s.old ch h);
    once = s.once;
  }

  -- The part that `Put` and `PutFailed` share.
  release-IsSound :
      (k : Key) (maps : Key → Option M) (c : MapCache M)
      → IsSound c
      → ((j : Key) → eq_key k j ≡ false → maps j ≡ c.maps j)
      → IsSound (record c {
        maps = maps;
        pending = λ j. if eq_key k j then none else c.pending j;
        closed = close (c.pending k) c.closed;
      })
  release-IsSound k maps c s same = record {
    known = λ j ch h. s.known j ch (given_none (eq_key k j) (c.pending j) ch h).1;
    still_open = λ j ch h.
        let (e, p) = given_none (eq_key k j) (c.pending j) ch h in
        not_true (was_closed ch (close (c.pending k) c.closed)) (λ t.
          elim (was_closed-close (c.pending k) ch c.closed t) [
            | inl q ↦
                true_not_false (eq_key k j)
                  (subst (λ i. eq_key k i ≡ true) (s.apart k j ch q p) (eq_key_refl k)) e
            | inr w ↦ true_not_false (was_closed ch c.closed) w (s.still_open j ch p)
          ]);
    apart = λ i j ch h g.
        s.apart i j ch (given_none (eq_key k i) (c.pending i) ch h).1
          (given_none (eq_key k j) (c.pending j) ch g).1;
    missing = λ j ch h.
        let (e, p) = given_none (eq_key k j) (c.pending j) ch h in same j e ∙ s.missing j ch p;
    old = λ ch h. elim (was_closed-close (c.pending k) ch c.closed h) [
      | inl q ↦ s.known k ch q
      | inr w ↦ s.old ch w
    ];
    once = ClosedOnce-close (c.pending k) c.closed s.once (λ x q. s.still_open k x q);
  }

  put-IsSound : (k : Key) (m : M) (c : MapCache M) → IsSound c → IsSound (put k m c)
  unfolding put
  put-IsSound k m c s =
      release-IsSound k (λ j. if eq_key k j then some m else c.maps j) c s
        (λ j e. ap (λ b. if b then some m else c.maps j) e)

  put_failed-IsSound : (k : Key) (c : MapCache M) → IsSound c → IsSound (put_failed k c)
  unfolding put_failed
  put_failed-IsSound k c s = release-IsSound k c.maps c s (λ j e. refl)

  -- The three outcomes of `GetOrWait`.
  get_or_wait_cases :
      (k : Key) (c : MapCache M)
      → ((get_or_wait k c).1 ≡ c) ⊎ ((c.maps k ≡ none) × ((get_or_wait k c).1 ≡ register k c))
  unfolding get_or_wait
  get_or_wait_cases k c = elim (Option-cases (c.maps k)) [
    | inr (m, e) ↦ inl (rw (get_or_wait, e) refl)
    | inl e ↦ elim (Option-cases (c.pending k)) [
      | inr (ch, e') ↦ inl (rw (get_or_wait, e, e') refl)
      | inl e' ↦ inr (e, (rw (get_or_wait, e, e') refl))
    ]
  ]

  waits_at :
      (k : Key) (c : MapCache M) (ch : ℕ)
      → (get_or_wait k c).0 ≡ waits ch
      → (c.maps k ≡ none) × (c.pending k ≡ some ch)
  unfolding get_or_wait
  waits_at k c ch h = elim (Option-cases (c.maps k)) [
    | inr (m, e) ↦ ground (arith, h, e)
    | inl e ↦ elim (Option-cases (c.pending k)) [
      | inr (x, e') ↦ (e, ground (arith, h, e, e'))
      | inl e' ↦ ground (arith, h, e, e')
    ]
  ]

  Step-IsSound : (c d : MapCache M) → Step c d → IsSound c → IsSound d
  Step-IsSound c _ (looks k) s = elim (get_or_wait_cases k c) [
    | inl e ↦ subst IsSound (sym e) s
    | inr (free, e) ↦ subst IsSound (sym e) (register-IsSound k c s free)
  ]
  Step-IsSound c _ (stores k m) s = put-IsSound k m c s
  Step-IsSound c _ (fails k) s = put_failed-IsSound k c s

  -- Whatever the order of the calls that sessions make of a new cache, no channel is closed twice,
  -- a channel that sessions may wait on is open and belongs to one key, and that key has no map.
  pub Reachable-IsSound : (c : MapCache M) → Reachable c → IsSound c
  Reachable-IsSound _ start = new_map_cache-IsSound
  Reachable-IsSound d (next c _ r t) = Step-IsSound c d t (Reachable-IsSound c r)

  -- A session that waits is woken by `Put` and by `PutFailed` of its key. After `Put` it has the
  -- map; after `PutFailed` it has none, and no session is registered for the key.
  pub waiter_woken :
      (k : Key) (c : MapCache M) (ch : ℕ) (m : M)
      → (get_or_wait k c).0 ≡ waits ch
      → (was_closed ch (put k m c).closed ≡ true)
        × (resume k (put k m c) ≡ (some m, true))
        × (was_closed ch (put_failed k c).closed ≡ true)
        × (resume k (put_failed k c) ≡ (none, false))
        × ((put_failed k c).pending k ≡ none)
  unfolding put put_failed resume
  waiter_woken k c ch m h =
      let (free, q) = waits_at k c ch h in
      let same : (ch == ch) ≡ true = (==_iff ch ch).1 refl in
      (
        (rw (q, same) refl),
        (rw (resume, eq_key_refl k) refl),
        (rw (q, same) refl),
        (rw (resume, free) refl),
        (rw (eq_key_refl k) refl),
      )
