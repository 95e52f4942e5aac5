-- ===== src/Packet/Snap/Window.antt =====
-- The window of a new `SnapStorage`, whatever its options.
use mathlib.Core.Option
use twclient.Prelude.{◌≡◌, refl, arith, List, [], ◌∷◌, map, Option, none, some}
use twclient.Prelude.Int.{ℤ, ◌≤ℤ◌}
use twclient.Packet.Snap.Store.{
  SnapStorage, min_max_snaps, clamp_max_snaps, with_max_snaps, apply_options, new_snap_storage,
}

clamp_max_snaps_bound : (n : ℤ) → min_max_snaps ≤ℤ clamp_max_snaps n
unfolding clamp_max_snaps
clamp_max_snaps_bound n = ground arith

-- Options that are nil or a `WithMaxSnaps` of any number.
abbrev pub windows : List (Option ℤ) → List (Option (SnapStorage → SnapStorage))
windows = map (Option.map with_max_snaps)

apply_options_bound :
    (ns : List (Option ℤ)) (ss : SnapStorage)
    → min_max_snaps ≤ℤ ss.max_snaps
    → (min_max_snaps ≤ℤ (apply_options (windows ns) ss).max_snaps)
      × ((apply_options (windows ns) ss).snaps ≡ ss.snaps)
unfolding apply_options with_max_snaps
apply_options_bound [] ss h = (h, refl)
apply_options_bound (none ∷ ns) ss h = apply_options_bound ns ss h
apply_options_bound (some n ∷ ns) ss h =
    apply_options_bound ns (record ss { max_snaps = clamp_max_snaps n }) (clamp_max_snaps_bound n)

-- A new storage holds no snapshot, and its window is at least 3, whatever numbers `WithMaxSnaps` is
-- called with and wherever a nil option stands.
pub new_snap_storage_bound :
    (ns : List (Option ℤ))
    → (min_max_snaps ≤ℤ (new_snap_storage (windows ns)).max_snaps)
      × ((new_snap_storage (windows ns)).snaps ≡ [])
unfolding new_snap_storage
new_snap_storage_bound ns = apply_options_bound ns _ (omega arith)
