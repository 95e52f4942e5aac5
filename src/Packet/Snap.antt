-- ===== src/Packet/Snap.antt =====
-- packet/snap.go: delta snapshots. `Outcome` has a case for a Go panic: a negative size from the
-- stream makes `s.df[:n]` one.
pub mod Merge
pub mod Count
pub mod Encode
pub mod Reads
pub mod Decode
pub mod Exact
pub mod Store
pub mod Hostile
pub mod Window
use twclient.Prelude.{
  ℕ, zero, suc, ◌+◌, ◌-◌, ◌%◌, ◌/◌, List, [], ◌∷◌, ◌++◌, map, length, set, take, replicate, Bool,
  true, false, ◌&&◌, ltb, leb, if◌then◌else◌, Option, none, some,
}
use twclient.Prelude.Int.{ℤ, pos, negsuc, eq_ℤ, ltb_ℤ, add64, shr_ℤ, low_bits_ℤ}
use twclient.Packer.Varint.{Varint}
use twclient.Packer.Reader.{Unpacker, Read, Result, Error}
use twclient.Packer.Reader
use twclient.Packer.Unpack.{new_unpacker, next_int}

pub record SnapItem : Type 0 where
  pub type_id : ℤ
  pub id : ℤ
  pub fields : List ℤ

pub record Snapshot : Type 0 where
  pub tick : ℤ
  pub items : List SnapItem

pub record ItemKey : Type 0 where
  pub type_id : ℤ
  pub id : ℤ

abbrev pub key : SnapItem → ItemKey
key item = record { type_id = item.type_id; id = item.id }

abbrev pub key_eq : ItemKey → ItemKey → Bool
key_eq j k = eq_ℤ j.type_id k.type_id && eq_ℤ j.id k.id

pub data Outcome (A : Type 0) : Type 0 where
  ok : A → Outcome A
  err : Error → Outcome A
  panic : Outcome A

abbrev pub Decode : Type 0 → Type 0
Decode A = Unpacker → Outcome A × Unpacker

abbrev pub continue : {A B : Type 0} → Outcome A × Unpacker → (A → Decode B) → Outcome B × Unpacker
continue (ok a, u) f = f a u
continue (err e, u) f = (err e, u)
continue (panic, u) f = (panic, u)

infixl 5 ◌>>=◌ ◌>>◌
abbrev pub ◌>>=◌ : {A B : Type 0} → Decode A → (A → Decode B) → Decode B
◌>>=◌ m f u = continue (m u) f

abbrev pub ◌>>◌ : {A B : Type 0} → Decode A → Decode B → Decode B
m >> n = m >>= λ _. n

abbrev pub pure : {A : Type 0} → A → Decode A
pure a u = (ok a, u)

abbrev pub lifted : {A : Type 0} → Result A × Unpacker → Outcome A × Unpacker
lifted (Reader.ok a, u) = (ok a, u)
lifted (Reader.err e, u) = (err e, u)

abbrev pub lift : {A : Type 0} → Read A → Decode A
lift m u = lifted (m u)

-- The fields of the last item with key `k`.
unfoldable pub find : ItemKey → List SnapItem → Option (List ℤ)
find k [] = none
find k (item ∷ items) = elim (find k items) [
  | some f ↦ some f
  | none ↦ if key_eq (key item) k then some item.fields else none
]

-- `baseMap[k]`: a later item of a key overwrites an earlier one, and a missing key has no fields.
unfoldable pub base_fields : ItemKey → List SnapItem → List ℤ
base_fields k items = elim (find k items) [ some f ↦ f | none ↦ [] ]

unfoldable pub member : ItemKey → List ItemKey → Bool
member k [] = false
member k (j ∷ keys) = if key_eq j k then true else member k keys

-- The items of the result, and `idx`, the map from a key to the place of its item.
pub record Merged : Type 0 where
  pub items : List SnapItem
  pub idx : ItemKey → Option ℕ

abbrev pub no_items : Merged
no_items = record { items = []; idx = λ k. none }

-- `idx[k] = len(result.Items)` and the `append` that follows.
unfoldable pub push : Merged → SnapItem → Merged
push m item = record {
  items = m.items ++ item ∷ [];
  idx = λ k. if key_eq (key item) k then some (length m.items) else m.idx k;
}

-- The loop that carries the base items forward.
unfoldable pub carry : List ItemKey → List SnapItem → Merged → Merged
carry deleted [] m = m
carry deleted (item ∷ items) m =
    carry deleted items (if member (key item) deleted then m else push m item)

-- `result.Items[j].Fields = fields`
unfoldable pub set_fields : List SnapItem → ℕ → List ℤ → List SnapItem
set_fields [] j fields = []
set_fields (item ∷ items) zero fields = record item { fields = fields } ∷ items
set_fields (item ∷ items) (suc j) fields = item ∷ set_fields items j fields

-- One round of pass 2.
unfoldable pub merge_update : Merged → SnapItem → Merged
merge_update m upd = elim (m.idx (key upd)) [
  | some j ↦ record m { items = set_fields m.items j upd.fields }
  | none ↦ push m upd
]

unfoldable pub merge : List SnapItem → Merged → Merged
merge [] m = m
merge (upd ∷ upds) m = merge upds (merge_update m upd)

-- `deltaBuf`: the buffer is not cleared, it holds what the last item or the last call left in it.
unfoldable pub delta_buf : ℕ → List ℤ → List ℤ
delta_buf n df = if ltb (length df) n then replicate n (pos 0) else df

-- `b + deltaFields[f]` for `f` below `size`.
unfoldable pub sum_fields : ℕ → List ℤ → List ℤ → List ℤ
sum_fields zero base df = []
sum_fields (suc n) base [] = []
sum_fields (suc n) [] (d ∷ df) = add64 (pos 0) d ∷ sum_fields n [] df
sum_fields (suc n) (b ∷ base) (d ∷ df) = add64 b d ∷ sum_fields n base df

unfoldable pub deleted_key : ℤ → ItemKey
deleted_key word = record {
  type_id = pos (low_bits_ℤ (shr_ℤ word 16) 16);
  id = pos (low_bits_ℤ word 16);
}

unfoldable pub after_field :
    Result ℤ × Unpacker → List ℤ → (ℤ → Unpacker → List ℤ × Unpacker) → List ℤ × Unpacker
after_field (Reader.ok v, u) df more = more v u
after_field (Reader.err e, u) df more = (df, u)

module _ (vi : Varint) where
  unfoldable pub read_deleted : ℕ → Decode (List ItemKey)
  read_deleted zero = pure []
  read_deleted (suc n) = do
    word ← lift (next_int vi)
    keys ← read_deleted n
    pure (deleted_key word ∷ keys)

  -- The loop that reads the delta fields: `n` rounds from `f` on. It stops at the first error and
  -- leaves the rest of the buffer as it was.
  unfoldable pub fill : ℕ → ℕ → List ℤ → Unpacker → List ℤ × Unpacker
  unfolding after_field
  fill zero f df u = (df, u)
  fill (suc n) f df u = after_field (next_int vi u) df (λ v u'. fill n (suc f) (set df f v) u')

  -- A size that is not known is read from the stream.
  unfoldable pub item_size : ℤ → Decode ℤ
  item_size (pos n) = pure (pos n)
  item_size (negsuc _) = lift (next_int vi)

  unfoldable pub read_body : List SnapItem → ItemKey → ℤ → List ℤ → Decode (SnapItem × List ℤ)
  unfolding fill delta_buf sum_fields
  read_body base k (negsuc _) df u = (panic, u)
  read_body base k (pos n) df u =
      let (df', u') = fill n 0 (delta_buf n df) u in
      (
        ok (
          record { type_id = k.type_id; id = k.id; fields = sum_fields n (base_fields k base) df' },
          df',
        ),
        u',
      )

  -- One round of pass 1.
  unfoldable pub read_update : (ℤ → ℤ) → List SnapItem → List ℤ → Decode (SnapItem × List ℤ)
  read_update size_fn base df = do
    type_id ← lift (next_int vi)
    id ← lift (next_int vi)
    size ← item_size (size_fn type_id)
    read_body base (record { type_id = type_id; id = id }) size df

  unfoldable pub read_updates :
      ℕ → (ℤ → ℤ) → List SnapItem → List ℤ → Decode (List SnapItem × List ℤ)
  read_updates zero size_fn base df = pure ([], df)
  read_updates (suc n) size_fn base df = do
    (upd, df') ← read_update size_fn base df
    (upds, df'') ← read_updates n size_fn base df'
    pure (upd ∷ upds, df'')

  -- A loop over a negative count makes no round.
  unfoldable pub rounds : ℤ → ℕ
  rounds (pos n) = n
  rounds (negsuc _) = 0

  unfoldable pub decode_delta : Snapshot → ℤ → (ℤ → ℤ) → List ℤ → Decode (Snapshot × List ℤ)
  unfolding rounds
  decode_delta base tick size_fn df = do
    num_deleted ← lift (next_int vi)
    num_updated ← lift (next_int vi)
    lift (next_int vi)
    deleted ← read_deleted (rounds num_deleted)
    (upds, df') ← read_updates (rounds num_updated) size_fn base.items df
    pure (
      record { tick = tick; items = (merge upds (carry deleted base.items no_items)).items },
      df',
    )

  -- `applyDelta`. `df` is the field buffer of the scratch that the pool hands out; it comes back.
  -- `size_fn` is `λ _. negsuc 0` where the source has nil.
  unfoldable pub apply_delta :
      Snapshot → ℤ → List ℕ → (ℤ → ℤ) → List ℤ → Outcome (Snapshot × List ℤ)
  apply_delta base tick bytes size_fn df =
      if ltb 0 (length bytes)
      then (decode_delta base tick size_fn df (new_unpacker bytes)).0
      else ok (record { tick = tick; items = base.items }, df)
