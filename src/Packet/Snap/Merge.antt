-- ===== src/Packet/Snap/Merge.antt =====
-- The merge of a snapshot's items through `idx`.
use mathlib.Core.Path.{subst}
use twclient.Prelude.{
  ℕ, zero, suc, ◌≡◌, refl, sym, ap, ◌∙◌, arith, List, [], ◌∷◌, ◌++◌, length, Bool, true, false,
  ◌&&◌, if◌then◌else◌, Option, none, some, not, Bool-cases, Option-cases, inl, inr,
}
use twclient.Prelude.Int.{ℤ, eq_ℤ→eq, eq_ℤ-refl}
use twclient.Packet.Snap.{
  SnapItem, ItemKey, key, key_eq, find, member, Merged, no_items, push, carry, set_fields,
  merge_update, merge,
}

pub key_eq→eq : (j k : ItemKey) → key_eq j k ≡ true → j ≡ k
key_eq→eq j k h i = record {
  type_id = eq_ℤ→eq j.type_id k.type_id (ground arith) i;
  id = eq_ℤ→eq j.id k.id (ground arith) i;
}

pub key_eq_refl : (k : ItemKey) → key_eq k k ≡ true
key_eq_refl k = ground (arith, eq_ℤ-refl k.type_id, eq_ℤ-refl k.id)

-- The place of the last item with key `k`.
unfoldable pub last_pos : ItemKey → List SnapItem → Option ℕ
last_pos k [] = none
last_pos k (item ∷ items) = elim (last_pos k items) [
  | some n ↦ some (suc n)
  | none ↦ if key_eq (key item) k then some 0 else none
]

-- `idx` has the place of every key.
abbrev pub Indexed : Merged → Type 0
Indexed m = (k : ItemKey) → m.idx k ≡ last_pos k m.items

find-none : (k : ItemKey) (items : List SnapItem) → last_pos k items ≡ none → find k items ≡ none
unfolding find last_pos
find-none k [] h = refl
find-none k (item ∷ items) h = elim (Option-cases (last_pos k items)) [
  | inl e ↦ ground (arith, find-none k items e)
  | inr (n, e) ↦ ground arith
]

find-append :
    (k : ItemKey) (items : List SnapItem) (item : SnapItem)
    → find k (items ++ item ∷ []) ≡ (if key_eq (key item) k then some item.fields else find k items)
unfolding find
find-append k [] item = refl
find-append k (x ∷ items) item = ground (arith, find-append k items item)

last_pos-append :
    (k : ItemKey) (items : List SnapItem) (item : SnapItem)
    → last_pos k (items ++ item ∷ [])
      ≡ (if key_eq (key item) k then some (length items) else last_pos k items)
unfolding last_pos
last_pos-append k [] item = refl
last_pos-append k (x ∷ items) item = ground (arith, last_pos-append k items item)

last_pos-set_fields :
    (k : ItemKey) (items : List SnapItem) (j : ℕ) (fields : List ℤ)
    → last_pos k (set_fields items j fields) ≡ last_pos k items
unfolding last_pos set_fields
last_pos-set_fields k [] j fields = refl
last_pos-set_fields k (x ∷ items) zero fields = refl
last_pos-set_fields k (x ∷ items) (suc j) fields =
    ground (arith, last_pos-set_fields k items j fields)

last_pos_zero :
    (j : ItemKey) (x : SnapItem) (items : List SnapItem)
    → last_pos j (x ∷ items) ≡ some 0
    → (last_pos j items ≡ none) × (key_eq (key x) j ≡ true)
unfolding last_pos
last_pos_zero j x items h = elim (Option-cases (last_pos j items)) [
  | inl e ↦ (e, ground arith)
  | inr (n, e) ↦ absurd (ground arith)
]

last_pos-suc :
    (j : ItemKey) (x : SnapItem) (items : List SnapItem) (n : ℕ)
    → last_pos j (x ∷ items) ≡ some (suc n)
    → last_pos j items ≡ some n
unfolding last_pos
last_pos-suc j x items n h = elim (Option-cases (last_pos j items)) [
  | inl e ↦ absurd (ground arith)
  | inr (m, e) ↦ ground arith
]

find-set_head :
    (k j : ItemKey) (x : SnapItem) (items : List SnapItem) (fields : List ℤ)
    → last_pos j items ≡ none
    → key_eq (key x) j ≡ true
    → find k (record x { fields = fields } ∷ items)
      ≡ (if key_eq j k then some fields else find k (x ∷ items))
unfolding find
find-set_head k j x items fields h e = elim (Bool-cases (key_eq j k)) [
  | inl same ↦
      let jk = key_eq→eq j k same in
      ground (
        arith,
        ap (λ t. find t items) (sym jk) ∙ find-none j items h,
        ap (key_eq (key x)) (sym jk) ∙ e,
      )
  | inr other ↦ let xj = key_eq→eq (key x) j e in ground (arith, ap (λ t. key_eq t k) xj ∙ other)
]

find-set_fields :
    (k j : ItemKey) (items : List SnapItem) (n : ℕ) (fields : List ℤ)
    → last_pos j items ≡ some n
    → find k (set_fields items n fields) ≡ (if key_eq j k then some fields else find k items)
unfolding find set_fields
find-set_fields k j [] n fields h = unfold last_pos in cc
find-set_fields k j (x ∷ items) zero fields h =
    let (none_left, here) = last_pos_zero j x items h in
    find-set_head k j x items fields none_left here
find-set_fields k j (x ∷ items) (suc n) fields h =
    let below = last_pos-suc j x items n h in
    ground (arith, find-set_fields k j items n fields below)

pub push-Indexed : (m : Merged) (item : SnapItem) → Indexed m → Indexed (push m item)
unfolding push
push-Indexed m item h k = ground (arith, last_pos-append k m.items item, h k)

if-Indexed :
    (b : Bool) (m : Merged) (item : SnapItem) → Indexed m → Indexed (if b then m else push m item)
if-Indexed true m item h = h
if-Indexed false m item h = push-Indexed m item h

pub carry-Indexed :
    (deleted : List ItemKey) (items : List SnapItem) (m : Merged)
    → Indexed m
    → Indexed (carry deleted items m)
unfolding carry
carry-Indexed deleted [] m h = h
carry-Indexed deleted (item ∷ items) m h =
    carry-Indexed deleted items (if member (key item) deleted then m else push m item)
      (if-Indexed (member (key item) deleted) m item h)

pub merge_update_new :
    (m : Merged) (upd : SnapItem) → m.idx (key upd) ≡ none → merge_update m upd ≡ push m upd
unfolding merge_update
merge_update_new m upd e = rw (e, merge_update)

pub merge_update_old :
    (m : Merged) (upd : SnapItem) (j : ℕ)
    → m.idx (key upd) ≡ some j
    → merge_update m upd ≡ record m { items = set_fields m.items j upd.fields }
unfolding merge_update
merge_update_old m upd j e = rw (e, merge_update)

pub merge_update-Indexed : (m : Merged) (upd : SnapItem) → Indexed m → Indexed (merge_update m upd)
merge_update-Indexed m upd h = elim (Option-cases (m.idx (key upd))) [
  | inl e ↦ subst Indexed (sym (merge_update_new m upd e)) (push-Indexed m upd h)
  | inr (j, e) ↦
      subst Indexed (sym (merge_update_old m upd j e))
        (λ k. h k ∙ sym (last_pos-set_fields k m.items j upd.fields))
]

find-merge_update :
    (k : ItemKey) (m : Merged) (upd : SnapItem)
    → Indexed m
    → find k (merge_update m upd).items
      ≡ (if key_eq (key upd) k then some upd.fields else find k m.items)
find-merge_update k m upd h = elim (Option-cases (m.idx (key upd))) [
  | inl e ↦
      ap (λ (t : Merged). find k t.items) (merge_update_new m upd e)
      ∙ unfold push in find-append k m.items upd
  | inr (j, e) ↦
      ap (λ (t : Merged). find k t.items) (merge_update_old m upd j e)
      ∙ find-set_fields k (key upd) m.items j upd.fields (sym (h (key upd)) ∙ e)
]

-- The fields of the last item with key `k`, if there is one, and else what was there.
abbrev pub or_else : {A : Type 0} → Option A → Option A → Option A
or_else (some f) old = some f
or_else none old = old

find-merge :
    (k : ItemKey) (upds : List SnapItem) (m : Merged)
    → Indexed m
    → find k (merge upds m).items ≡ or_else (find k upds) (find k m.items)
unfolding merge find
find-merge k [] m h = refl
find-merge k (upd ∷ upds) m h = ground (
  arith,
  find-merge k upds (merge_update m upd) (merge_update-Indexed m upd h),
  find-merge_update k m upd h,
)

find-push :
    (k : ItemKey) (b : Bool) (m : Merged) (item : SnapItem)
    → find k (if b then m else push m item).items
      ≡ (if not b && key_eq (key item) k then some item.fields else find k m.items)
find-push k true m item = refl
find-push k false m item = unfold push in find-append k m.items item

pub member_same :
    (j k : ItemKey) (keys : List ItemKey) → key_eq j k ≡ true → member j keys ≡ member k keys
member_same j k keys h = ap (λ t. member t keys) (key_eq→eq j k h)

find-carry :
    (k : ItemKey) (deleted : List ItemKey) (items : List SnapItem) (m : Merged)
    → find k (carry deleted items m).items
      ≡ or_else (if member k deleted then none else find k items) (find k m.items)
unfolding carry find
find-carry k deleted [] m = ground arith
find-carry k deleted (item ∷ items) m = ground (
  arith,
  find-carry k deleted items (if member (key item) deleted then m else push m item),
  find-push k (member (key item) deleted) m item,
  member_same (key item) k deleted,
)

-- In the merged snapshot an item is what its last update says; an item that no update names is
-- that of the base, unless its key is deleted.
pub find_merged :
    (k : ItemKey) (deleted : List ItemKey) (base upds : List SnapItem)
    → find k (merge upds (carry deleted base no_items)).items
      ≡ or_else (find k upds) (if member k deleted then none else find k base)
find_merged k deleted base upds =
    find-merge k upds (carry deleted base no_items) (carry-Indexed deleted base no_items empty)
    ∙ ap (or_else (find k upds)) (find-carry k deleted base no_items ∙ or_else_none)
  where
    empty : Indexed no_items
    empty = unfold last_pos in λ j. refl

    or_else_none :
        or_else (if member k deleted then none else find k base) (find k [])
        ≡ (if member k deleted then none else find k base)
    or_else_none = unfold find in ground arith
