-- ===== src/Samples/Snapshots.antt =====
-- packet/snap.go at concrete snapshots.
use twclient.Prelude.{ℕ, ◌≡◌, refl, arith, List, [], ◌∷◌, map, if◌then◌else◌, none, some}
use twclient.Prelude.Int.{ℤ, pos, negsuc, eq_ℤ, ◌≤ℤ◌, sub64}
use twclient.Packer.Unpack.{next_int, new_unpacker}
use twclient.Packet.Snap.{
  decode_delta, read_deleted, read_updates, push, SnapItem, Snapshot, ItemKey, Outcome, ok, panic,
  find, member, merge, carry, deleted_key, base_fields, sum_fields, read_body, apply_delta,
}
use Prim.Native.Nat.{max}
use twclient.Packet.Snap.Merge.{or_else}
use twclient.Packet.Snap.Count.{count, any}
use twclient.Packet.Snap.Encode.{AllSendable, wire_delta}
use twclient.Packet.Snap.Exact.{apply_delta_exact, against}
use twclient.Packet.Snap.Hostile.{read_body_stale, negative_size_delta, apply_delta_panics}
use twclient.Packet.Snap.Store.{SnapStorage, AllTicks, lookup, process_snap, process_snap_stores}
use twclient.Samples.Integers.{sample_varint, read}

abbrev character : SnapItem
character = record { type_id = pos 9; id = pos 1; fields = pos 10 ∷ negsuc 4 ∷ [] }

abbrev flag : SnapItem
flag = record { type_id = pos 5; id = pos 0; fields = pos 3 ∷ [] }

abbrev moved : SnapItem
moved = record { type_id = pos 9; id = pos 1; fields = pos 12 ∷ pos 7 ∷ [] }

abbrev base_items : List SnapItem
base_items = character ∷ flag ∷ []

abbrev base_snapshot : Snapshot
base_snapshot = record { tick = pos 100; items = base_items }

-- The key of `flag` as the wire has it.
abbrev deleted_words : List ℤ
deleted_words = pos 327680 ∷ []

-- No size is known.
abbrev no_sizes : ℤ → ℤ
no_sizes _ = negsuc 0

moved_sendable : AllSendable no_sizes (map (against base_items) (moved ∷ []))
unfolding base_fields find sub64
moved_sendable = (
  (record {
    type_fits = (omega arith, omega arith);
    id_fits = (omega arith, omega arith);
    deltas_fit = ((omega arith, omega arith), ((omega arith, omega arith), tt));
    size_fits = omega arith;
    size_agrees = tt;
  }),
  tt,
)

apply_delta_exact_example :
    (snap : Snapshot) × (df' : List ℤ) × (apply_delta sample_varint base_snapshot
        (pos 102)
        (wire_delta sample_varint no_sizes deleted_words (map (against base_items) (moved ∷ [])))
        no_sizes
        (pos 55 ∷ [])
      ≡ ok (snap, df'))
    × (snap.tick ≡ pos 102)
    × ((k : ItemKey)
        → find k snap.items
          ≡ or_else
              (find k (moved ∷ []))
              (if member k (map deleted_key deleted_words) then none else find k base_items))
    × ((k : ItemKey)
        → count k snap.items
          ≡ max
              (if member k (map deleted_key deleted_words) then 0 else count k base_items)
              (any (count k (moved ∷ []))))
apply_delta_exact_example =
    apply_delta_exact sample_varint no_sizes base_items (pos 100) (pos 102) deleted_words
      (moved ∷ []) (pos 55 ∷ [])
      (
        ((omega arith, omega arith), ((omega arith, omega arith), tt)),
        (((omega arith, omega arith), tt), tt),
      )
      (((omega arith, omega arith), ((omega arith, omega arith), tt)), tt)
      ((omega arith, omega arith), tt) (omega arith) moved_sendable (omega arith)

read_body_stale_example :
    read_body sample_varint base_items
      (record { type_id = pos 9; id = pos 1 })
      (pos 2)
      (pos 100 ∷ pos 200 ∷ [])
      (record { data_bytes = []; idx = 0 })
    ≡ (
      ok (
        record {
          type_id = pos 9;
          id = pos 1;
          fields =
              sum_fields 2
                (base_fields (record { type_id = pos 9; id = pos 1 }) base_items)
                (pos 100 ∷ pos 200 ∷ []);
        },
        pos 100 ∷ pos 200 ∷ [],
      ),
      record { data_bytes = []; idx = 0 },
    )
read_body_stale_example =
    read_body_stale sample_varint base_items (record { type_id = pos 9; id = pos 1 }) 2
      (pos 100 ∷ pos 200 ∷ []) (record { data_bytes = []; idx = 0 })
      (record { inside = omega arith; left = refl }) (omega arith)

apply_delta_panics_example :
    apply_delta sample_varint base_snapshot
      (pos 102)
      (negative_size_delta sample_varint (pos 40) (pos 1) 6 [])
      no_sizes
      []
    ≡ panic
apply_delta_panics_example =
    apply_delta_panics sample_varint no_sizes base_snapshot (pos 102) (pos 40) (pos 1) 6 0 [] []
      (omega arith, omega arith) (omega arith, omega arith) (omega arith) refl

abbrev storage : SnapStorage
storage = record {
  snaps = (pos 100, base_snapshot) ∷ (pos 90, base_snapshot) ∷ [];
  max_snaps = pos 16;
  last_tick = pos 100;
}

-- A delta without a change.
abbrev idle_delta : List ℕ
idle_delta = 0 ∷ 0 ∷ 0 ∷ []

abbrev idle_snapshot : Snapshot
idle_snapshot = record { tick = pos 102; items = base_items }

abbrev idle_result : Outcome (Snapshot × List ℤ) × SnapStorage
idle_result = process_snap sample_varint no_sizes storage (pos 102) (pos 2) idle_delta []

delta_window : sub64 (pos 102) (pos 2) ≤ℤ pos 100
unfolding sub64
delta_window = omega arith

cap_window : sub64 (pos 102) (pos 16) ≤ℤ pos 100
unfolding sub64
cap_window = omega arith

idle_decodes : idle_result.0 ≡ ok (idle_snapshot, [])
unfolding process_snap apply_delta decode_delta next_int new_unpacker read read_deleted read_updates
    merge carry sub64 member push
idle_decodes = refl

process_snap_stores_example :
    (idle_result.1.last_tick ≡ pos 102)
    × AllTicks (λ s. sub64 (pos 102) (pos 2) ≤ℤ s) idle_result.1.snaps
    × (lookup (pos 100) idle_result.1.snaps
        ≡ (if eq_ℤ (pos 102) (pos 100) then some idle_snapshot else lookup (pos 100) storage.snaps))
process_snap_stores_example =
    process_snap_stores sample_varint no_sizes storage (pos 102) (pos 2) idle_delta [] []
      idle_snapshot (pos 100) (omega arith) idle_decodes delta_window cap_window
