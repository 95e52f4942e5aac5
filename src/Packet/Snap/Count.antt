-- ===== src/Packet/Snap/Count.antt =====
-- How often a key stands in a merged snapshot.
use mathlib.Core.Path.{subst}
use Prim.Native.Nat.{max}
use twclient.Prelude.{
  ℕ, zero, suc, ◌+◌, ◌<◌, ◌≡◌, refl, sym, ap, ◌∙◌, arith, List, [], ◌∷◌, ◌++◌, Bool, true, false,
  if◌then◌else◌, none, some, not, ◌&&◌, ◌==◌, Option-cases, inl, inr,
}
use twclient.Prelude.Int.{ℤ}
use twclient.Packet.Snap.{
  SnapItem, ItemKey, key, key_eq, member, Merged, no_items, push, carry, set_fields, merge_update,
  merge,
}
use twclient.Packet.Snap.Merge.{
  last_pos, Indexed, carry-Indexed, merge_update-Indexed, merge_update_new, merge_update_old,
  key_eq→eq, member_same,
}

-- The number of items with key `k`.
abbrev pub count : ItemKey → List SnapItem → ℕ
count k [] = 0
count k (item ∷ items) = (if key_eq (key item) k then 1 else 0) + count k items

-- One, if there is any.
abbrev pub any : ℕ → ℕ
any n = if n == 0 then 0 else 1

count-append :
    (k : ItemKey) (items : List SnapItem) (item : SnapItem)
    → count k (items ++ item ∷ []) ≡ count k items + (if key_eq (key item) k then 1 else 0)
count-append k [] item = omega arith
count-append k (x ∷ items) item = omega (arith, count-append k items item)

count-set_fields :
    (k : ItemKey) (items : List SnapItem) (j : ℕ) (fields : List ℤ)
    → count k (set_fields items j fields) ≡ count k items
unfolding set_fields
count-set_fields k [] j fields = refl
count-set_fields k (x ∷ items) zero fields = refl
count-set_fields k (x ∷ items) (suc j) fields = omega (arith, count-set_fields k items j fields)

last_pos-count-none :
    (k : ItemKey) (items : List SnapItem) → last_pos k items ≡ none → count k items ≡ 0
unfolding last_pos
last_pos-count-none k [] h = refl
last_pos-count-none k (x ∷ items) h = elim (Option-cases (last_pos k items)) [
  | inl e ↦ ground (arith, last_pos-count-none k items e)
  | inr (n, e) ↦ absurd (ground arith)
]

last_pos-count-some :
    (k : ItemKey) (items : List SnapItem) (n : ℕ) → last_pos k items ≡ some n → 0 < count k items
unfolding last_pos
last_pos-count-some k [] n h = absurd (ground arith)
last_pos-count-some k (x ∷ items) n h = elim (Option-cases (last_pos k items)) [
  | inl e ↦ ground arith
  | inr (m, e) ↦ ground (arith, last_pos-count-some k items m e)
]

count-push :
    (k : ItemKey) (b : Bool) (m : Merged) (item : SnapItem)
    → count k (if b then m else push m item).items
      ≡ count k m.items + (if not b && key_eq (key item) k then 1 else 0)
count-push k true m item = omega arith
count-push k false m item = unfold push in count-append k m.items item

added :
    (b : Bool) (n : ℕ) → (b ≡ true → n ≡ 0) → n + (if b then 1 else 0) ≡ max n (if b then 1 else 0)
added true n h = omega (arith, h refl)
added false n h = omega arith

kept : (b : Bool) (n : ℕ) → (b ≡ true → 0 < n) → n ≡ max n (if b then 1 else 0)
kept true n h = omega (arith, h refl)
kept false n h = omega arith

any-add :
    (b : Bool) (n c : ℕ)
    → max (max n (if b then 1 else 0)) (any c) ≡ max n (any ((if b then 1 else 0) + c))
any-add true n c = ground arith
any-add false n c = ground arith

-- An update adds an item for its key only where there was none.
count-merge_update :
    (k : ItemKey) (m : Merged) (upd : SnapItem)
    → Indexed m
    → count k (merge_update m upd).items
      ≡ max (count k m.items) (if key_eq (key upd) k then 1 else 0)
count-merge_update k m upd h = elim (Option-cases (m.idx (key upd))) [
  | inl e ↦
      let none_there : key_eq (key upd) k ≡ true → count k m.items ≡ 0 = λ same.
        subst (λ t. count t m.items ≡ 0) (key_eq→eq (key upd) k same)
          (last_pos-count-none (key upd) m.items (sym (h (key upd)) ∙ e)) in
      ap (λ (t : Merged). count k t.items) (merge_update_new m upd e)
      ∙ count-push k false m upd
      ∙ added (key_eq (key upd) k) (count k m.items) none_there
  | inr (j, e) ↦
      let some_there : key_eq (key upd) k ≡ true → 0 < count k m.items = λ same.
        subst (λ t. 0 < count t m.items) (key_eq→eq (key upd) k same)
          (last_pos-count-some (key upd) m.items j (sym (h (key upd)) ∙ e)) in
      ap (λ (t : Merged). count k t.items) (merge_update_old m upd j e)
      ∙ count-set_fields k m.items j upd.fields
      ∙ kept (key_eq (key upd) k) (count k m.items) some_there
]

count-merge :
    (k : ItemKey) (upds : List SnapItem) (m : Merged)
    → Indexed m
    → count k (merge upds m).items ≡ max (count k m.items) (any (count k upds))
unfolding merge
count-merge k [] m h = omega arith
count-merge k (upd ∷ upds) m h =
    count-merge k upds (merge_update m upd) (merge_update-Indexed m upd h)
    ∙ ap (λ n. max n (any (count k upds))) (count-merge_update k m upd h)
    ∙ any-add (key_eq (key upd) k) (count k m.items) (count k upds)

count-carry :
    (k : ItemKey) (deleted : List ItemKey) (items : List SnapItem) (m : Merged)
    → count k (carry deleted items m).items
      ≡ count k m.items + (if member k deleted then 0 else count k items)
unfolding carry
count-carry k deleted [] m = ground arith
count-carry k deleted (item ∷ items) m = ground (
  arith,
  count-carry k deleted items (if member (key item) deleted then m else push m item),
  count-push k (member (key item) deleted) m item,
  member_same (key item) k deleted,
)

-- A key stands as often as in the base, where it is not deleted, and once if it was updated and
-- stood nowhere.
pub count_merged :
    (k : ItemKey) (deleted : List ItemKey) (base upds : List SnapItem)
    → count k (merge upds (carry deleted base no_items)).items
      ≡ max (if member k deleted then 0 else count k base) (any (count k upds))
count_merged k deleted base upds =
    count-merge k upds (carry deleted base no_items)
      (carry-Indexed deleted base no_items (λ j. unfold last_pos in refl))
    ∙ ap (λ n. max n (any (count k upds))) (count-carry k deleted base no_items ∙ omega arith)
