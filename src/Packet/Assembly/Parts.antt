-- ===== src/Packet/Assembly/Parts.antt =====
-- Parts that come in any order, each once, make the snapshot of all of them.
use mathlib.Core.Path.{subst, ap₂}
use mathlib.Core.Option.{some-injective}
use twclient.Prelude.{
  ℕ, zero, suc, ◌+◌, ◌^◌, ◌-◌, ◌<◌, ◌≡◌, ◌≢◌, ◌⊎◌, inl, inr, refl, sym, ap, ◌∙◌, arith, List, [],
  ◌∷◌, ◌++◌, map, length, set, replicate, get_elem?, length-set, get_elem?-set_self,
  get_elem?-set_ne, length-replicate, some, ℕ_discrete, Option, none, Bool-cases,
}
use twclient.Prelude.Int.{ℤ, pos, eq_ℤ, eq_ℤ→eq, eq_ℤ-refl, add64}
use twclient.Packer.Varint.{Varint}
use twclient.Packet.Snap.{Snapshot, Outcome, ok, err, panic}
use twclient.Packet.Snap.Store.{SnapStorage, process_snap}
use twclient.Packet.Assembly.{
  finish_decode, decoded, panicked, SnapAssemblyState, Snaps, Decoded, ignored, concat,
  fresh_assembly, current_assembly, add_part, clear_after, decode_into, with_part, take_part,
}

-- 0, …, n - 1, from `start` on.
abbrev pub upto : ℕ → ℕ → List ℕ
upto start zero = []
upto start (suc n) = start ∷ upto (suc start) n

-- The index stands in the list.
abbrev pub IsIn : ℕ → List ℕ → Type 0
IsIn i [] = ⊥
IsIn i (j ∷ order) = (i ≡ j) ⊎ IsIn i order

module _ (part : ℕ → List ℕ) where
  -- The parts after those of `order` were put in their places.
  abbrev pub fill : List ℕ → List (List ℕ) → List (List ℕ)
  fill [] ps = ps
  fill (i ∷ order) ps = fill order (set ps i (part i))

  length-fill : (order : List ℕ) (ps : List (List ℕ)) → length (fill order ps) ≡ length ps
  length-fill [] ps = refl
  length-fill (i ∷ order) ps = length-fill order (set ps i (part i)) ∙ length-set ps i (part i)

  -- A place that has its part keeps it.
  fill_keeps :
      (order : List ℕ) (ps : List (List ℕ)) (i : ℕ)
      → i < length ps
      → get_elem? ps i ≡ some (part i)
      → get_elem? (fill order ps) i ≡ some (part i)
  fill_keeps [] ps i h e = e
  fill_keeps (j ∷ order) ps i h e = elim (ℕ_discrete j i) [
    | yes q ↦ fill_keeps order (set ps j (part j)) i (omega (arith, length-set ps j (part j))) (
        subst (λ k. get_elem? (set ps k (part k)) i ≡ some (part i)) (sym q)
          (get_elem?-set_self ps i (part i) h))
    | no n ↦
        fill_keeps order (set ps j (part j)) i (omega (arith, length-set ps j (part j)))
          (get_elem?-set_ne ps (part j) n ∙ e)
  ]

  -- A part that came is in its place.
  fill_puts :
      (order : List ℕ) (ps : List (List ℕ)) (i : ℕ)
      → i < length ps
      → IsIn i order
      → get_elem? (fill order ps) i ≡ some (part i)
  fill_puts [] ps i h m = absurd m
  fill_puts (j ∷ order) ps i h (inl e) =
      fill_keeps order (set ps j (part j)) i (omega (arith, length-set ps j (part j))) (
        subst (λ k. get_elem? (set ps k (part k)) i ≡ some (part i)) e
          (get_elem?-set_self ps i (part i) h))
  fill_puts (j ∷ order) ps i h (inr m) =
      fill_puts order (set ps j (part j)) i (omega (arith, length-set ps j (part j))) m

  -- A list with these elements is the list of all parts.
  parts_eq :
      (n start : ℕ) (ps : List (List ℕ))
      → length ps ≡ n
      → ((i : ℕ) → i < n → get_elem? ps i ≡ some (part (start + i)))
      → ps ≡ map part (upto start n)
  parts_eq zero start [] h g = refl
  parts_eq zero start (p ∷ ps) h g = absurd (omega arith)
  parts_eq (suc n) start [] h g = absurd (omega arith)
  parts_eq (suc n) start (p ∷ ps) h g =
      ap₂ ◌∷◌
        (some-injective _ _ (subst (λ k. some p ≡ some (part k)) (omega arith) (g 0 (omega arith))))
        (parts_eq n (suc start) ps (omega (arith, h)) (λ i b.
          subst (λ k. get_elem? ps i ≡ some (part k)) (omega arith) (g (suc i) (omega (arith, b)))))

  pub fill_all :
      (n : ℕ) (order : List ℕ)
      → ((i : ℕ) → i < n → IsIn i order)
      → fill order (replicate n []) ≡ map part (upto 0 n)
  fill_all n order covers =
      parts_eq n 0 (fill order (replicate n []))
        (length-fill order (replicate n []) ∙ length-replicate n [])
        (λ i h.
          fill_puts order (replicate n []) i (omega (arith, h, length-replicate {A = List ℕ} n []))
            (covers i h)
          ∙ ap (λ k. some (part k)) (omega arith))

abbrev pub asm : ℤ → ℤ → ℕ → ℕ → List (List ℕ) → SnapAssemblyState
asm tick delta_tick n r ps = record {
  tick = tick;
  delta_tick = delta_tick;
  num_parts = pos n;
  received = pos r;
  parts = ps;
}

add64-suc : (r : ℕ) → r < 2 ^ 31 → add64 (pos r) (pos 1) ≡ pos (suc r)
unfolding add64
add64-suc r h = ground arith

add_part_lem :
    (tick delta_tick : ℤ) (n r i : ℕ) (ps : List (List ℕ)) (bytes : List ℕ)
    → i < n
    → r < 2 ^ 31
    → add_part (pos i) bytes (asm tick delta_tick n r ps)
      ≡ asm tick delta_tick n (suc r) (set ps i bytes)
unfolding add_part
add_part_lem tick delta_tick n r i ps bytes hi hr = ground (arith, add64-suc r hr)

current_assembly-asm :
    (tick delta_tick : ℤ) (n r : ℕ) (ps : List (List ℕ))
    → current_assembly tick delta_tick (pos n) (some (asm tick delta_tick n r ps))
      ≡ some (asm tick delta_tick n r ps)
unfolding current_assembly
current_assembly-asm tick delta_tick n r ps = ground (arith, eq_ℤ-refl tick)

module _ (vi : Varint) (size_fn : ℤ → ℤ) where
  with_part_early :
      (tick delta_tick : ℤ) (n r i : ℕ) (ps : List (List ℕ)) (bytes : List ℕ) (st : Snaps)
      → i < n
      → r < 2 ^ 31
      → suc r ≢ n
      → with_part vi size_fn tick delta_tick
          (pos n)
          (pos i)
          bytes
          (some (asm tick delta_tick n r ps))
          st
        ≡ (ignored, record st { assembly = some (asm tick delta_tick n (suc r) (set ps i bytes)) })
  unfolding with_part
  with_part_early tick delta_tick n r i ps bytes st hi hr h =
      rw (add_part_lem tick delta_tick n r i ps bytes hi hr) (ground arith)

  with_part_last :
      (tick delta_tick : ℤ) (n r i : ℕ) (ps : List (List ℕ)) (bytes : List ℕ) (st : Snaps)
      → i < n
      → r < 2 ^ 31
      → suc r ≡ n
      → with_part vi size_fn tick delta_tick
          (pos n)
          (pos i)
          bytes
          (some (asm tick delta_tick n r ps))
          st
        ≡ clear_after (
            decode_into vi size_fn tick delta_tick
              (concat (set ps i bytes))
              (record st { assembly = some (asm tick delta_tick n n (set ps i bytes)) }))
  unfolding with_part
  with_part_last tick delta_tick n r i ps bytes st hi hr h =
      subst
        (λ k.
          with_part vi size_fn tick delta_tick (pos k) (pos i) bytes
            (some (asm tick delta_tick k r ps)) st
          ≡ clear_after (
              decode_into vi size_fn tick delta_tick (concat (set ps i bytes))
                (record st { assembly = some (asm tick delta_tick k k (set ps i bytes)) })))
        h
        (rw (add_part_lem tick delta_tick (suc r) r i ps bytes (omega (arith, hi, h)) hr)
          (ground arith))

  take_part_lem :
      (tick delta_tick : ℤ) (n i : ℕ) (bytes : List ℕ) (a : SnapAssemblyState) (st : Snaps)
      → 1 < n
      → current_assembly tick delta_tick (pos n) st.assembly ≡ some a
      → take_part vi size_fn tick delta_tick (pos n) (pos i) bytes st
        ≡ with_part vi size_fn tick delta_tick (pos n) (pos i) bytes (some a) st
  unfolding take_part
  take_part_lem tick delta_tick n i bytes a st h e = ground (arith, e)

module _ (vi : Varint) (size_fn : ℤ → ℤ) (part : ℕ → List ℕ) (tick delta_tick : ℤ) (n : ℕ) where
  -- The parts of a snapshot, taken in the order in which they come.
  abbrev pub take_parts : List ℕ → Snaps → List Decoded × Snaps
  take_parts [] st = ([], st)
  take_parts (i ∷ order) st =
      let r = take_part vi size_fn tick delta_tick (pos n) (pos i) (part i) st in
      let rest = take_parts order r.1 in (r.0 ∷ rest.0, rest.1)

  -- Nothing for all but the last, and the snapshot of the parts in their places for it.
  abbrev whole : List (List ℕ) → Snaps → Decoded × Snaps
  whole ps st = clear_after (
      decode_into vi size_fn tick delta_tick (concat ps)
        (record st { assembly = some (asm tick delta_tick n n ps) }))

  take_parts_from :
      (m r : ℕ) (order : List ℕ) (ps : List (List ℕ)) (st : Snaps)
      → 1 < n
      → n < 2 ^ 31
      → length order ≡ suc m
      → r + suc m ≡ n
      → ((i : ℕ) → IsIn i order → i < n)
      → current_assembly tick delta_tick (pos n) st.assembly ≡ some (asm tick delta_tick n r ps)
      → take_parts order st ≡ (
        replicate m ignored ++ ((whole (fill part order ps) st).0 ∷ []),
        (whole (fill part order ps) st).1,
      )
  take_parts_from zero r (i ∷ []) ps st h1 h31 hl hn hi e =
      ap (λ x. (x.0 ∷ [], x.1))
        (take_part_lem vi size_fn tick delta_tick n i (part i) (asm tick delta_tick n r ps) st h1 e
          ∙ with_part_last vi size_fn tick delta_tick n r i ps (part i) st (hi i (inl refl))
              (omega arith) (omega arith))
  take_parts_from (suc m) r (i ∷ order) ps st h1 h31 hl hn hi e =
      ap (λ x. (x.0 ∷ (take_parts order x.1).0, (take_parts order x.1).1))
        (take_part_lem vi size_fn tick delta_tick n i (part i) (asm tick delta_tick n r ps) st h1 e
          ∙ with_part_early vi size_fn tick delta_tick n r i ps (part i) st (hi i (inl refl))
              (omega arith) (λ q. omega arith))
      ∙ ap (λ x. (ignored ∷ x.0, x.1))
          (take_parts_from m (suc r) order (set ps i (part i))
            (record st { assembly = some (asm tick delta_tick n (suc r) (set ps i (part i))) }) h1
            h31 (omega (arith, hl)) (omega arith) (λ j b. hi j (inr b))
            (current_assembly-asm tick delta_tick n (suc r) (set ps i (part i))))
  take_parts_from zero r (i ∷ j ∷ order) ps st h1 h31 hl hn hi e = absurd (omega (arith, hl))
  take_parts_from zero r [] ps st h1 h31 hl hn hi e = absurd (omega (arith, hl))
  take_parts_from (suc m) r [] ps st h1 h31 hl hn hi e = absurd (omega (arith, hl))

  -- The bytes of the parts from `start` on, one behind the other.
  abbrev pub joined : ℕ → ℕ → List ℕ
  joined start zero = []
  joined start (suc k) = part start ++ joined (suc start) k

  concat-joined : (k start : ℕ) → concat (map part (upto start k)) ≡ joined start k
  concat-joined zero start = refl
  concat-joined (suc k) start = ap (λ t. part start ++ t) (concat-joined k (suc start))

  -- What the last part comes to: a snapshot, and then no assembly is left, or an error or a panic of
  -- the decoding, and then the assembly stays as it is.
  abbrev pub delivered : List ℤ → Outcome (Snapshot × List ℤ) × SnapStorage → Decoded × Snaps
  delivered scratch (ok (snap, df), ss) =
      (decoded tick snap, record { storage = ss; scratch = df; assembly = none })
  delivered scratch (err e, ss) = (
    ignored,
    record {
      storage = ss;
      scratch = scratch;
      assembly = some (asm tick delta_tick n n (map part (upto 0 n)));
    },
  )
  delivered scratch (panic, ss) = (
    panicked,
    record {
      storage = ss;
      scratch = scratch;
      assembly = some (asm tick delta_tick n n (map part (upto 0 n)));
    },
  )

  abbrev pub outcome : Snaps → Decoded × Snaps
  outcome st =
      delivered st.scratch
        (process_snap vi size_fn st.storage tick delta_tick (joined 0 n) st.scratch)

  clear_after-delivered :
      (r : Outcome (Snapshot × List ℤ) × SnapStorage) (st : Snaps)
      → clear_after (
          finish_decode tick
            (record st { assembly = some (asm tick delta_tick n n (map part (upto 0 n))) })
            r)
        ≡ delivered st.scratch r
  unfolding clear_after finish_decode
  clear_after-delivered (ok (snap, df), ss) st = refl
  clear_after-delivered (err e, ss) st = refl
  clear_after-delivered (panic, ss) st = refl

  whole-outcome : (st : Snaps) → whole (map part (upto 0 n)) st ≡ outcome st
  unfolding decode_into
  whole-outcome st =
      ap
        (λ bytes. clear_after (
          finish_decode tick
            (record st { assembly = some (asm tick delta_tick n n (map part (upto 0 n))) })
            (process_snap vi size_fn st.storage tick delta_tick bytes st.scratch)))
        (concat-joined n 0)
      ∙ clear_after-delivered _ st

  -- No assembly goes on: there is none, or it is of another tick or of another number of parts.
  abbrev pub IsNew : Option SnapAssemblyState → Type 0
  IsNew none = Unit {0}
  IsNew (some a) = (a.tick ≢ tick) ⊎ (a.num_parts ≢ pos n)

  current_assembly-new :
      (o : Option SnapAssemblyState)
      → IsNew o
      → current_assembly tick delta_tick (pos n) o ≡ some (asm tick delta_tick n 0 (replicate n []))
  unfolding current_assembly fresh_assembly
  current_assembly-new none h = refl
  current_assembly-new (some a) (inl h) = elim (Bool-cases (eq_ℤ a.tick tick)) [
    | inl e ↦ absurd (h (eq_ℤ→eq a.tick tick e))
    | inr e ↦ rw e refl
  ]
  current_assembly-new (some a) (inr h) = elim (Bool-cases (eq_ℤ a.num_parts (pos n))) [
    | inl e ↦ absurd (h (eq_ℤ→eq a.num_parts (pos n) e))
    | inr e ↦ ground (arith, e)
  ]

  -- If the parts of a snapshot, more than one and fewer than 2^31, come each once and in any order,
  -- and no assembly of this tick and number of parts goes on, then all but the last do nothing but
  -- wait, and the last decodes the bytes of all parts in the order of their indices: a snapshot
  -- leaves no assembly, and an error leaves the complete one.
  pub snapshot_of_parts :
      (order : List ℕ) (st : Snaps)
      → 1 < n
      → n < 2 ^ 31
      → length order ≡ n
      → ((i : ℕ) → IsIn i order → i < n)
      → ((i : ℕ) → i < n → IsIn i order)
      → IsNew st.assembly
      → take_parts order st ≡ (replicate (n - 1) ignored ++ ((outcome st).0 ∷ []), (outcome st).1)
  snapshot_of_parts order st h1 h31 hl within covers new =
      subst
        (λ ps.
          take_parts order st
          ≡ (replicate (n - 1) ignored ++ ((whole ps st).0 ∷ []), (whole ps st).1))
        (fill_all part n order covers)
        (take_parts_from (n - 1) 0 order (replicate n []) st h1 h31 (omega (arith, hl))
          (omega arith) within (current_assembly-new st.assembly new))
      ∙ ap (λ x. (replicate (n - 1) ignored ++ (x.0 ∷ []), x.1)) (whole-outcome st)
