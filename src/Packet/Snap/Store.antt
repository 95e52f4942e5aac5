-- ===== src/Packet/Snap/Store.antt =====
-- `SnapStorage` of packet/snap.go: the window of snapshots that later deltas may name. The map of
-- snapshots is a list of pairs in which a tick stands once.
use mathlib.Core.Path.{subst}
use mathlib.Core.Logic.{◌≢◌}
use twclient.Prelude.{
  ℕ, ◌≡◌, refl, sym, ap, ◌∙◌, arith, List, [], ◌∷◌, length, Bool, true, false, if◌then◌else◌,
  Option, none, some, Bool-cases, inl, inr,
}
use twclient.Prelude.Int.{ℤ, pos, pos_part, neg_part, eq_ℤ, eq_ℤ→eq, ltb_ℤ, ◌≤ℤ◌, sub64}
use twclient.Packer.Varint.{Varint}
use twclient.Packet.Snap.{Snapshot, Outcome, ok, err, panic, apply_delta}

abbrev pub Snaps : Type 0
Snaps = List (ℤ × Snapshot)

pub record SnapStorage : Type 0 where
  pub snaps : Snaps
  pub max_snaps : ℤ
  pub last_tick : ℤ

abbrev pub default_max_snaps : ℤ
default_max_snaps = pos 16

abbrev pub min_max_snaps : ℤ
min_max_snaps = pos 3

-- `WithMaxSnaps`
unfoldable pub clamp_max_snaps : ℤ → ℤ
clamp_max_snaps n =
    if ltb_ℤ (pos 0) n
    then if ltb_ℤ n min_max_snaps then min_max_snaps else n
    else default_max_snaps

unfoldable pub with_max_snaps : ℤ → SnapStorage → SnapStorage
with_max_snaps n ss = record ss { max_snaps = clamp_max_snaps n }

unfoldable pub apply_options : List (Option (SnapStorage → SnapStorage)) → SnapStorage → SnapStorage
apply_options [] ss = ss
apply_options (none ∷ opts) ss = apply_options opts ss
apply_options (some opt ∷ opts) ss = apply_options opts (opt ss)

-- `NewSnapStorage`; a nil option is none.
unfoldable pub new_snap_storage : List (Option (SnapStorage → SnapStorage)) → SnapStorage
new_snap_storage opts =
    apply_options opts (record { snaps = []; max_snaps = default_max_snaps; last_tick = pos 0 })

-- `ss.Snaps[tick]`
unfoldable pub lookup : ℤ → Snaps → Option Snapshot
lookup t [] = none
lookup t ((s, snap) ∷ snaps) = if eq_ℤ s t then some snap else lookup t snaps

unfoldable pub remove : ℤ → Snaps → Snaps
remove t [] = []
remove t ((s, snap) ∷ snaps) = if eq_ℤ s t then remove t snaps else (s, snap) ∷ remove t snaps

-- `delete` for every tick below `bound`
unfoldable pub purge : ℤ → Snaps → Snaps
purge bound [] = []
purge bound ((s, snap) ∷ snaps) =
    if ltb_ℤ s bound then purge bound snaps else (s, snap) ∷ purge bound snaps

-- `ss.Snaps[tick] = snap` and the two purges after it.
unfoldable pub store : SnapStorage → ℤ → ℤ → Snapshot → SnapStorage
unfolding remove purge
store ss tick delta_tick snap =
    let added = (tick, snap) ∷ remove tick ss.snaps in
    let live = if ltb_ℤ delta_tick (pos 0) then added else purge (sub64 tick delta_tick) added in
    record ss {
      snaps =
          if ltb_ℤ ss.max_snaps (pos (length live))
          then purge (sub64 tick ss.max_snaps) live
          else live;
      last_tick = tick;
    }

-- The base of a delta: the stored snapshot, or an empty one.
unfoldable pub base_of : SnapStorage → ℤ → ℤ → Snapshot
unfolding lookup
base_of ss tick delta_tick =
    let base_tick = sub64 tick delta_tick in
    let empty : Snapshot = record { tick = base_tick; items = [] } in
    if ltb_ℤ delta_tick (pos 0)
    then empty
    else elim (lookup base_tick ss.snaps) [ some snap ↦ snap | none ↦ empty ]

-- `ProcessSnap`: on success the decoded snapshot and the scratch buffer come back beside the new
-- storage, and on an error the storage is as it was.
abbrev pub stored :
    SnapStorage → ℤ → ℤ → Outcome (Snapshot × List ℤ) → Outcome (Snapshot × List ℤ) × SnapStorage
stored ss tick delta_tick (ok (snap, df)) = (ok (snap, df), store ss tick delta_tick snap)
stored ss tick delta_tick (err e) = (err e, ss)
stored ss tick delta_tick panic = (panic, ss)

module _ (vi : Varint) where
  unfoldable pub process_snap :
      (ℤ → ℤ) → SnapStorage → ℤ → ℤ → List ℕ → List ℤ → Outcome (Snapshot × List ℤ) × SnapStorage
  unfolding base_of store
  process_snap size_fn ss tick delta_tick bytes df =
      stored ss tick delta_tick (apply_delta vi (base_of ss tick delta_tick) tick bytes size_fn df)

-- Every tick of the list satisfies `P`.
abbrev pub AllTicks : (ℤ → Type 0) → Snaps → Type 0
AllTicks P [] = Unit {0}
AllTicks P ((s, snap) ∷ snaps) = P s × AllTicks P snaps

purge-AllTicks : (bound : ℤ) (snaps : Snaps) → AllTicks (λ t. bound ≤ℤ t) (purge bound snaps)
unfolding purge
purge-AllTicks bound [] = tt
purge-AllTicks bound ((s, snap) ∷ snaps) = elim (Bool-cases (ltb_ℤ s bound)) [
  | inl e ↦ rw e (purge-AllTicks bound snaps)
  | inr e ↦ rw e (ground arith, purge-AllTicks bound snaps)
]

other_tick : (s bound t : ℤ) → ltb_ℤ s bound ≡ true → bound ≤ℤ t → eq_ℤ s t ≡ false
other_tick s bound t h k = elim (Bool-cases (eq_ℤ s t)) [
  | inl e ↦ absurd (ground (arith, ap pos_part (eq_ℤ→eq s t e), ap neg_part (eq_ℤ→eq s t e)))
  | inr e ↦ e
]

lookup-purge :
    (bound t : ℤ) (snaps : Snaps) → bound ≤ℤ t → lookup t (purge bound snaps) ≡ lookup t snaps
unfolding purge lookup
lookup-purge bound t [] h = refl
lookup-purge bound t ((s, snap) ∷ snaps) h = elim (Bool-cases (ltb_ℤ s bound)) [
  | inl e ↦ rw (e, other_tick s bound t e h) (lookup-purge bound t snaps h)
  | inr e ↦ rw (e, lookup-purge bound t snaps h) refl
]

lookup-remove_ne :
    (s t : ℤ) (snaps : Snaps) → eq_ℤ s t ≡ false → lookup t (remove s snaps) ≡ lookup t snaps
unfolding remove lookup
lookup-remove_ne s t [] h = refl
lookup-remove_ne s t ((r, snap) ∷ snaps) h = elim (Bool-cases (eq_ℤ r s)) [
  | inl e ↦ rw (e, ap (λ x. eq_ℤ x t) (eq_ℤ→eq r s e) ∙ h) (lookup-remove_ne s t snaps h)
  | inr e ↦ rw (e, lookup-remove_ne s t snaps h) refl
]

lookup-add :
    (s t : ℤ) (snap : Snapshot) (snaps : Snaps)
    → lookup t ((s, snap) ∷ remove s snaps) ≡ (if eq_ℤ s t then some snap else lookup t snaps)
unfolding lookup
lookup-add s t snap snaps = elim (Bool-cases (eq_ℤ s t)) [
  | inl e ↦ rw e refl
  | inr e ↦ rw (e, lookup-remove_ne s t snaps e) refl
]

purge_keeps :
    (P : ℤ → Type 0) (bound : ℤ) (snaps : Snaps) → AllTicks P snaps → AllTicks P (purge bound snaps)
unfolding purge
purge_keeps P bound [] h = tt
purge_keeps P bound ((s, snap) ∷ snaps) (h, hs) = elim (Bool-cases (ltb_ℤ s bound)) [
  | inl e ↦ rw e (purge_keeps P bound snaps hs)
  | inr e ↦ rw e (h, purge_keeps P bound snaps hs)
]

if_purge_keeps :
    (P : ℤ → Type 0) (b : Bool) (bound : ℤ) (snaps : Snaps)
    → AllTicks P snaps
    → AllTicks P (if b then purge bound snaps else snaps)
if_purge_keeps P true bound snaps h = purge_keeps P bound snaps h
if_purge_keeps P false bound snaps h = h

lookup_if_purge :
    (b : Bool) (bound t : ℤ) (snaps : Snaps)
    → bound ≤ℤ t
    → lookup t (if b then purge bound snaps else snaps) ≡ lookup t snaps
lookup_if_purge true bound t snaps h = lookup-purge bound t snaps h
lookup_if_purge false bound t snaps h = refl

module _ (ss : SnapStorage) (tick delta_tick : ℤ) (snap : Snapshot) (h : pos 0 ≤ℤ delta_tick) where
  abbrev live_snaps : Snaps
  live_snaps = purge (sub64 tick delta_tick) ((tick, snap) ∷ remove tick ss.snaps)

  store_live : store ss tick delta_tick snap ≡ record ss {
    snaps =
        if ltb_ℤ ss.max_snaps (pos (length live_snaps))
        then purge (sub64 tick ss.max_snaps) live_snaps
        else live_snaps;
    last_tick = tick;
  }
  unfolding store
  store_live = rw not_negative refl
    where
      not_negative : ltb_ℤ delta_tick (pos 0) ≡ false
      not_negative = ground arith

  store_window : AllTicks (λ t. sub64 tick delta_tick ≤ℤ t) (store ss tick delta_tick snap).snaps
  store_window =
      subst (λ (s : SnapStorage). AllTicks (λ t. sub64 tick delta_tick ≤ℤ t) s.snaps)
        (sym store_live)
        (if_purge_keeps (λ t. sub64 tick delta_tick ≤ℤ t)
          (ltb_ℤ ss.max_snaps (pos (length live_snaps))) (sub64 tick ss.max_snaps) live_snaps
          (purge-AllTicks (sub64 tick delta_tick) ((tick, snap) ∷ remove tick ss.snaps)))

  lookup-store :
      (t : ℤ)
      → sub64 tick delta_tick ≤ℤ t
      → sub64 tick ss.max_snaps ≤ℤ t
      → lookup t (store ss tick delta_tick snap).snaps
        ≡ (if eq_ℤ tick t then some snap else lookup t ss.snaps)
  lookup-store t in_delta in_cap =
      ap (λ (s : SnapStorage). lookup t s.snaps) store_live
      ∙ lookup_if_purge (ltb_ℤ ss.max_snaps (pos (length live_snaps))) (sub64 tick ss.max_snaps) t
          live_snaps in_cap
      ∙ lookup-purge (sub64 tick delta_tick) t ((tick, snap) ∷ remove tick ss.snaps) in_delta
      ∙ lookup-add tick t snap ss.snaps

stored_ok :
    (ss : SnapStorage) (tick delta_tick : ℤ) (o : Outcome (Snapshot × List ℤ)) (snap : Snapshot)
    (df : List ℤ)
    → (stored ss tick delta_tick o).0 ≡ ok (snap, df)
    → (stored ss tick delta_tick o).1 ≡ store ss tick delta_tick snap
stored_ok ss tick delta_tick (ok (s, d)) snap df e = ap (store ss tick delta_tick) (snap_of e)
  where
    snap_of : ◌≡◌ {A = Outcome (Snapshot × List ℤ)} (ok (s, d)) (ok (snap, df)) → s ≡ snap
    snap_of p = cc
stored_ok ss tick delta_tick (err x) snap df e = cc
stored_ok ss tick delta_tick panic snap df e = cc

stored_failed :
    (ss : SnapStorage) (tick delta_tick : ℤ) (o : Outcome (Snapshot × List ℤ))
    → ((r : Snapshot × List ℤ) → (stored ss tick delta_tick o).0 ≢ ok r)
    → (stored ss tick delta_tick o).1 ≡ ss
stored_failed ss tick delta_tick (ok r) h = absurd (h r refl)
stored_failed ss tick delta_tick (err x) h = refl
stored_failed ss tick delta_tick panic h = refl

module _ (vi : Varint) (size_fn : ℤ → ℤ) (ss : SnapStorage) (tick delta_tick : ℤ) where
  -- A delta against a snapshot that is decoded notes its tick and drops what is older than the
  -- base. Of the ticks from the base on and within the cap, its own is found with the new snapshot,
  -- and each other one with what it had.
  pub process_snap_stores :
      (bytes : List ℕ) (df df' : List ℤ) (snap : Snapshot) (t : ℤ)
      → pos 0 ≤ℤ delta_tick
      → (process_snap vi size_fn ss tick delta_tick bytes df).0 ≡ ok (snap, df')
      → sub64 tick delta_tick ≤ℤ t
      → sub64 tick ss.max_snaps ≤ℤ t
      → let after = (process_snap vi size_fn ss tick delta_tick bytes df).1 in
        (after.last_tick ≡ tick)
        × AllTicks (λ s. sub64 tick delta_tick ≤ℤ s) after.snaps
        × (lookup t after.snaps ≡ (if eq_ℤ tick t then some snap else lookup t ss.snaps))
  unfolding process_snap
  process_snap_stores bytes df df' snap t h e in_delta in_cap =
      let o = apply_delta vi (base_of ss tick delta_tick) tick bytes size_fn df in
      subst
        (λ (after : SnapStorage).
          (after.last_tick ≡ tick)
          × AllTicks (λ s. sub64 tick delta_tick ≤ℤ s) after.snaps
          × (lookup t after.snaps ≡ (if eq_ℤ tick t then some snap else lookup t ss.snaps)))
        (sym (stored_ok ss tick delta_tick o snap df' e))
        (
          ap (λ (s : SnapStorage). s.last_tick) (store_live ss tick delta_tick snap h),
          store_window ss tick delta_tick snap h,
          lookup-store ss tick delta_tick snap h t in_delta in_cap,
        )

  -- A call that fails or panics leaves the storage as it was.
  pub process_snap_failed :
      (bytes : List ℕ) (df : List ℤ)
      → ((r : Snapshot × List ℤ) → (process_snap vi size_fn ss tick delta_tick bytes df).0 ≢ ok r)
      → (process_snap vi size_fn ss tick delta_tick bytes df).1 ≡ ss
  unfolding process_snap
  process_snap_failed bytes df =
      stored_failed ss tick delta_tick
        (apply_delta vi (base_of ss tick delta_tick) tick bytes size_fn df)
