-- ===== src/Packet/Snap/Encode.antt =====
-- The wire form of a snapshot delta, as the server sends it: an independent description that the
-- decoder of packet/snap.go is held against. Each function takes the bytes that follow.
use twclient.Prelude.{ℕ, ◌^◌, ◌<◌, ◌≡◌, List, [], ◌∷◌, ◌++◌, length}
use twclient.Prelude.Int.{ℤ, pos, negsuc, IsInt32, IsInt64, sub64}
use twclient.Packer.Varint.{Varint}
use twclient.Packer.RoundTrip.{int_bytes}
use twclient.Packet.Snap.{SnapItem}

-- An item with differences for fields is sent with its size where the size table does not have it.
abbrev pub wire_size : (Varint) → ℤ → List ℤ → List ℕ → List ℕ
wire_size vi (pos n) deltas rest = rest
wire_size vi (negsuc _) deltas rest = int_bytes vi (pos (length deltas)) ++ rest

-- The size that the table has is that of the item.
abbrev pub SizeAgrees : ℤ → List ℤ → Type 0
SizeAgrees (pos n) deltas = n ≡ length deltas
SizeAgrees (negsuc _) deltas = Unit {0}

abbrev pub AllInt32 : List ℤ → Type 0
AllInt32 [] = Unit {0}
AllInt32 (v ∷ vs) = IsInt32 v × AllInt32 vs

abbrev pub AllInt64 : List ℤ → Type 0
AllInt64 [] = Unit {0}
AllInt64 (v ∷ vs) = IsInt64 v × AllInt64 vs

-- An update that the wire can carry.
pub record Sendable (size_fn : ℤ → ℤ) (upd : SnapItem) : Type 0 where
  pub type_fits : IsInt32 upd.type_id
  pub id_fits : IsInt32 upd.id
  pub deltas_fit : AllInt32 upd.fields
  pub size_fits : length upd.fields < 2 ^ 31
  pub size_agrees : SizeAgrees (size_fn upd.type_id) upd.fields

abbrev pub AllSendable : (ℤ → ℤ) → List SnapItem → Type 0
AllSendable size_fn [] = Unit {0}
AllSendable size_fn (upd ∷ upds) = Sendable size_fn upd × AllSendable size_fn upds

module _ (vi : Varint) where
  abbrev pub wire_ints : List ℤ → List ℕ → List ℕ
  wire_ints [] rest = rest
  wire_ints (v ∷ vs) rest = int_bytes vi v ++ wire_ints vs rest

  abbrev pub wire_update : (ℤ → ℤ) → SnapItem → List ℕ → List ℕ
  wire_update size_fn upd rest =
      int_bytes vi upd.type_id
      ++ (int_bytes vi upd.id
          ++ wire_size vi (size_fn upd.type_id) upd.fields (wire_ints upd.fields rest))

  abbrev pub wire_updates : (ℤ → ℤ) → List SnapItem → List ℕ → List ℕ
  wire_updates size_fn [] rest = rest
  wire_updates size_fn (upd ∷ upds) rest = wire_update size_fn upd (wire_updates size_fn upds rest)

  -- The counts, a word that is not used, the deleted keys and the updates.
  abbrev pub wire_delta : (ℤ → ℤ) → List ℤ → List SnapItem → List ℕ
  wire_delta size_fn deleted upds =
      int_bytes vi (pos (length deleted))
      ++ (int_bytes vi (pos (length upds))
          ++ (int_bytes vi (pos 0) ++ wire_ints deleted (wire_updates size_fn upds [])))

-- The differences that take the fields of `base` to those of `target`; what `base` lacks is 0.
abbrev pub diff : List ℤ → List ℤ → List ℤ
diff base [] = []
diff [] (t ∷ target) = sub64 t (pos 0) ∷ diff [] target
diff (b ∷ base) (t ∷ target) = sub64 t b ∷ diff base target
