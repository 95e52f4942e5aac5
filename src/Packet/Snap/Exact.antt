-- ===== src/Packet/Snap/Exact.antt =====
-- What the server sends as differences to its base, `applyDelta` gives back.
use mathlib.Core.Path.{ap₂}
use twclient.Prelude.{
  ◌^◌, ◌<◌, ◌≡◌, refl, ap, ◌∙◌, arith, List, [], ◌∷◌, map, length, length-map, Bool, true, false,
  Option, none, some, if◌then◌else◌,
}
use Prim.Native.Nat.{max}
use twclient.Packet.Snap.Merge.{or_else, find_merged}
use twclient.Packet.Snap.Count.{count, any, count_merged}
use twclient.Prelude.Int.{ℤ, pos, add64-sub64}
use twclient.Packer.Varint.{Varint}
use twclient.Packet.Snap.{
  SnapItem, Snapshot, ItemKey, key_eq, find, member, key, ok, base_fields, sum_fields, deleted_key,
  apply_delta,
}
use twclient.Packet.Snap.Encode.{AllInt32, AllInt64, AllSendable, wire_delta, diff}
use twclient.Packet.Snap.Reads.{decoded, after_updates}
use twclient.Packet.Snap.Decode.{apply_delta-wire, patched}

-- The fields of an update, sent as their differences to the base, arrive as they are.
diff_back :
    (base target : List ℤ)
    → AllInt64 base
    → AllInt64 target
    → sum_fields (length (diff base target)) base (diff base target) ≡ target
unfolding sum_fields
diff_back [] [] hb ht = refl
diff_back (b ∷ base) [] hb ht = refl
diff_back [] (t ∷ target) hb (h, ht) =
    ap₂ ◌∷◌ (add64-sub64 t (pos 0) h (omega arith, omega arith)) (diff_back [] target tt ht)
diff_back (b ∷ base) (t ∷ target) (k, hb) (h, ht) =
    ap₂ ◌∷◌ (add64-sub64 t b h k) (diff_back base target hb ht)

-- Fields that fit a Go `int`, on every item.
abbrev pub ItemsInt64 : List SnapItem → Type 0
ItemsInt64 [] = Unit {0}
ItemsInt64 (item ∷ items) = AllInt64 item.fields × ItemsInt64 items

abbrev opt_fields : Option (List ℤ) → List ℤ
opt_fields o = elim o [ some f ↦ f | none ↦ [] ]

later_or-AllInt64 :
    (o : Option (List ℤ)) (same : Bool) (fields : List ℤ)
    → AllInt64 fields
    → AllInt64 (opt_fields o)
    → AllInt64 (opt_fields (elim o [ some f ↦ some f | none ↦ if same then some fields else none ]))
later_or-AllInt64 (some f) same fields h ho = ho
later_or-AllInt64 none true fields h ho = h
later_or-AllInt64 none false fields h ho = tt

base_fields-AllInt64 :
    (k : ItemKey) (items : List SnapItem) → ItemsInt64 items → AllInt64 (base_fields k items)
unfolding base_fields find
base_fields-AllInt64 k [] h = tt
base_fields-AllInt64 k (item ∷ items) (h, hs) =
    later_or-AllInt64 (find k items) (key_eq (key item) k) item.fields h
      (base_fields-AllInt64 k items hs)

-- An item as the server sends it against a base.
abbrev pub against : List SnapItem → SnapItem → SnapItem
against base target = record target { fields = diff (base_fields (key target) base) target.fields }

decoded-against :
    (base targets : List SnapItem)
    → ItemsInt64 base
    → ItemsInt64 targets
    → map (decoded base) (map (against base) targets) ≡ targets
decoded-against base [] hb ht = refl
decoded-against base (t ∷ targets) hb (h, hs) =
    ap₂ {C = List SnapItem} (λ f ts. record t { fields = f } ∷ ts)
      (diff_back (base_fields (key t) base) t.fields (base_fields-AllInt64 (key t) base hb) h)
      (decoded-against base targets hb hs)

module _ (vi : Varint) (size_fn : ℤ → ℤ) (base : List SnapItem) (base_tick tick : ℤ) where
  -- What the server sends as differences to the base arrives as it was: the decoded snapshot has
  -- the fields of the last sent item of a key, the base's item where the key was neither sent nor
  -- deleted. A key stands in it as often as in the base, if it was not deleted, or once, if it was
  -- sent and would stand nowhere; so no item is left over or repeated. What the scratch buffer `df`
  -- held before makes no difference.
  pub apply_delta_exact :
      (deleted : List ℤ) (targets : List SnapItem) (df : List ℤ)
      → ItemsInt64 base
      → ItemsInt64 targets
      → AllInt32 deleted
      → length deleted < 2 ^ 31
      → AllSendable size_fn (map (against base) targets)
      → length targets < 2 ^ 31
      → (snap : Snapshot) × (df' : List ℤ) × (apply_delta vi
            (record { tick = base_tick; items = base })
            tick
            (wire_delta vi size_fn deleted (map (against base) targets))
            size_fn
            df
          ≡ ok (snap, df'))
        × (snap.tick ≡ tick)
        × ((k : ItemKey)
            → find k snap.items
              ≡ or_else
                  (find k targets)
                  (if member k (map deleted_key deleted) then none else find k base))
        × ((k : ItemKey)
            → count k snap.items
              ≡ max
                  (if member k (map deleted_key deleted) then 0 else count k base)
                  (any (count k targets)))
  apply_delta_exact deleted targets df hb ht hd nd hu nu =
      let upds = map (against base) targets in
      (
        patched vi size_fn base tick deleted upds,
        after_updates upds df,
        apply_delta-wire vi size_fn base tick base_tick deleted upds df hd nd hu
            (omega (arith, length-map targets (against base))),
        refl,
        λ k.
            find_merged k (map deleted_key deleted) base (map (decoded base) upds)
            ∙ ap
                (λ ts.
                  or_else (find k ts)
                    (if member k (map deleted_key deleted) then none else find k base))
                (decoded-against base targets hb ht),
        λ k.
            count_merged k (map deleted_key deleted) base (map (decoded base) upds)
            ∙ ap
                (λ ts.
                  max (if member k (map deleted_key deleted) then 0 else count k base)
                    (any (count k ts)))
                (decoded-against base targets hb ht),
      )
