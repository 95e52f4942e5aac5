-- ===== src/Packet/Snap/Reads.antt =====
-- Reading the parts of a delta in the wire form, and the fields that the scratch buffer then gives.
use twclient.Prelude.{
  ℕ, suc, ◌^◌, ◌≤◌, ◌<◌, ◌≡◌, refl, sym, ap, ◌∙◌, arith, List, [], ◌∷◌, ◌++◌, map, length, set,
  drop, length-replicate, length-append, append_assoc,
}
use twclient.Prelude.Int.{ℤ, pos, negsuc, IsInt32, add64}
use twclient.Packer.Varint.{Varint}
use twclient.Packer.Reader.{Unpacker}
use twclient.Packer.Unpack.{advance, next_int}
use twclient.Packer.RoundTrip.{Holds, int_bytes, next_int_exact}
use twclient.Packet.Snap.{
  SnapItem, key, ok, Decode, continue, ◌>>=◌, lift, lifted, pure, base_fields, delta_buf,
  sum_fields, deleted_key, after_field, read_deleted, fill, item_size,
}
use twclient.Packet.Snap.Encode.{wire_size, SizeAgrees, AllInt32, wire_ints}

-- The buffer after the fields `ds` are written from `f` on.
unfoldable pub written : ℕ → List ℤ → List ℤ → List ℤ
written f [] df = df
written f (d ∷ ds) df = written (suc f) ds (set df f d)

set-append :
    (pre : List ℤ) (x d : ℤ) (suf : List ℤ)
    → set (pre ++ x ∷ suf) (length pre) d ≡ (pre ++ d ∷ []) ++ suf
set-append [] x d suf = refl
set-append (p ∷ pre) x d suf = ap (λ t. p ∷ t) (set-append pre x d suf)

written-append :
    (pre ds suf : List ℤ)
    → length ds ≤ length suf
    → written (length pre) ds (pre ++ suf) ≡ pre ++ (ds ++ drop (length ds) suf)
unfolding written
written-append pre [] suf h = refl
written-append pre (d ∷ ds) [] h = absurd (omega arith)
written-append pre (d ∷ ds) (x ∷ suf) h =
    ap (written (suc (length pre)) ds) (set-append pre x d suf)
    ∙ ap (λ n. written n ds ((pre ++ d ∷ []) ++ suf)) (sym longer)
    ∙ written-append (pre ++ d ∷ []) ds suf (omega arith)
    ∙ append_assoc pre (d ∷ []) (ds ++ drop (length ds) suf)
  where
    longer : length (pre ++ d ∷ []) ≡ suc (length pre)
    longer = omega (arith, length-append pre (d ∷ []))

sum_fields-append :
    (base ds rest : List ℤ)
    → sum_fields (length ds) base (ds ++ rest) ≡ sum_fields (length ds) base ds
unfolding sum_fields
sum_fields-append base [] rest = refl
sum_fields-append [] (d ∷ ds) rest = ap (λ t. add64 (pos 0) d ∷ t) (sum_fields-append [] ds rest)
sum_fields-append (b ∷ base) (d ∷ ds) rest =
    ap (λ t. add64 b d ∷ t) (sum_fields-append base ds rest)

pub delta_buf_room : (n : ℕ) (df : List ℤ) → n ≤ length (delta_buf n df)
unfolding delta_buf
delta_buf_room n df = ground (arith, length-replicate n (pos 0))

-- Whatever the buffer held, only the fields that were read are used.
pub sum_written :
    (base ds df : List ℤ)
    → length ds ≤ length df
    → sum_fields (length ds) base (written 0 ds df) ≡ sum_fields (length ds) base ds
sum_written base ds df h =
    ap (sum_fields (length ds) base) (written-append [] ds df h)
    ∙ sum_fields-append base ds (drop (length ds) df)

-- An update as it is decoded against the items of the base.
abbrev pub decoded : List SnapItem → SnapItem → SnapItem
decoded base upd = record upd {
  fields = sum_fields (length upd.fields) (base_fields (key upd) base) upd.fields;
}

module _ (vi : Varint) where
  -- A step that reads all of `bytes` but `rest`, and yields `a`.
  abbrev pub Reads : {A : Type 0} → Decode A → Unpacker → A → List ℕ → Type 0
  Reads m u a rest = (v : Unpacker) × (m u ≡ (ok a, v)) × Holds v rest

  pub Reads-bind :
      {A B : Type 0} (m : Decode A) (f : A → Decode B) (u : Unpacker) (a : A) (b : B)
      (mid rest : List ℕ) (r : Reads m u a mid)
      → Reads (f a) r.0 b rest
      → Reads (m >>= f) u b rest
  Reads-bind m f u a b mid rest (v, read, left) (w, then_read, done) =
      (w, ap (λ t. continue t f) read ∙ then_read, done)

  pub Reads-int :
      (i : ℤ) (u : Unpacker) (rest : List ℕ)
      → IsInt32 i
      → Holds u (int_bytes vi i ++ rest)
      → Reads (lift (next_int vi)) u i rest
  Reads-int i u rest h holds =
      let (read, left) = next_int_exact vi i u rest h holds in
      (advance (length (int_bytes vi i)) u, ap lifted read, left)

  pub fill_lem :
      (f : ℕ) (ds df : List ℤ) (u : Unpacker) (rest : List ℕ)
      → AllInt32 ds
      → Holds u (wire_ints vi ds rest)
      → (v : Unpacker) × (fill vi (length ds) f df u ≡ (written f ds df, v)) × Holds v rest
  unfolding fill written
  fill_lem f [] df u rest h holds = (u, refl, holds)
  fill_lem f (d ∷ ds) df u rest (hd, hds) holds =
      let (read, left) = next_int_exact vi d u (wire_ints vi ds rest) hd holds in
      let w = advance (length (int_bytes vi d)) u in
      let (v, filled, after) = fill_lem (suc f) ds (set df f d) w rest hds left in
      (
        v,
        ap (λ r. after_field r df (λ x u'. fill vi (length ds) (suc f) (set df f x) u')) read
            ∙ filled,
        after,
      )

  pub Reads-deleted :
      (keys : List ℤ) (u : Unpacker) (rest : List ℕ)
      → AllInt32 keys
      → Holds u (wire_ints vi keys rest)
      → Reads (read_deleted vi (length keys)) u (map deleted_key keys) rest
  unfolding read_deleted
  Reads-deleted [] u rest h holds = (u, refl, holds)
  Reads-deleted (k ∷ keys) u rest (hk, hks) holds =
      let first = Reads-int k u (wire_ints vi keys rest) hk holds in
      let (v, read, left) = Reads-deleted keys first.0 rest hks first.2 in
      Reads-bind (lift (next_int vi)) _ u k (map deleted_key (k ∷ keys)) (wire_ints vi keys rest)
        rest first (v, ap (λ t. continue t (λ ks. pure (deleted_key k ∷ ks))) read, left)

  pub Reads-size :
      (size : ℤ) (ds : List ℤ) (u : Unpacker) (rest : List ℕ)
      → SizeAgrees size ds
      → length ds < 2 ^ 31
      → Holds u (wire_size vi size ds rest)
      → Reads (item_size vi size) u (pos (length ds)) rest
  unfolding item_size
  Reads-size (pos n) ds u rest agrees fits holds = (u, ap (λ t. (ok (pos t), u)) agrees, holds)
  Reads-size (negsuc _) ds u rest agrees fits holds =
      Reads-int (pos (length ds)) u rest (fits, omega arith) holds

-- The buffer after an update, and after all of them.
unfoldable pub after_update : SnapItem → List ℤ → List ℤ
unfolding written
after_update upd df = written 0 upd.fields (delta_buf (length upd.fields) df)

unfoldable pub after_updates : List SnapItem → List ℤ → List ℤ
after_updates [] df = df
after_updates (upd ∷ upds) df = after_updates upds (after_update upd df)
