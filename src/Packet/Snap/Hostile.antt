-- ===== src/Packet/Snap/Hostile.antt =====
-- `applyDelta` on deltas that no honest server sends.
use twclient.Prelude.{
  ℕ, zero, suc, ◌^◌, ◌≤◌, ◌<◌, ◌≡◌, refl, sym, ap, ◌∙◌, arith, List, [], ◌∷◌, ◌++◌, length, set,
  length-append, lt→ltb,
}
use mathlib.Core.Path.{subst}
use twclient.Prelude.Int.{ℤ, pos, negsuc, IsInt32}
use twclient.Packer.Varint.{Varint}
use twclient.Packer.Reader.{Unpacker, no_int}
use twclient.Packer.Reader
use twclient.Packer.Unpack.{next_int, new_unpacker}
use twclient.Packer.RoundTrip.{Holds, Holds-length, int_bytes, length-int_bytes}
use twclient.Packer.Pack.{clamp32}
use twclient.Packet.Snap.{
  SnapItem, Snapshot, ItemKey, Outcome, ok, err, panic, Decode, continue, ◌>>=◌, lift, pure,
  base_fields, delta_buf, sum_fields, carry, merge, no_items, fill, after_field, item_size,
  read_body, read_deleted, read_update, read_updates, rounds, decode_delta, apply_delta,
}
use twclient.Packet.Snap.Reads.{Reads, Reads-int}

module _ (vi : Varint) where
  next_int_empty : (u : Unpacker) → Holds u [] → next_int vi u ≡ (Reader.err no_int, u)
  unfolding next_int
  next_int_empty u h = ground (arith, Holds-length u [] h)

  fill_empty : (n f : ℕ) (df : List ℤ) (u : Unpacker) → Holds u [] → fill vi n f df u ≡ (df, u)
  unfolding fill
  fill_empty zero f df u h = refl
  fill_empty (suc n) f df u h =
      ap (λ r. after_field r df (λ v u'. fill vi n (suc f) (set df f v) u')) (next_int_empty u h)

  -- An update whose fields are missing from the end of the delta is no error: its fields are the
  -- base's plus whatever an earlier item or an earlier call left in the scratch buffer.
  pub read_body_stale :
      (base : List SnapItem) (k : ItemKey) (n : ℕ) (df : List ℤ) (u : Unpacker)
      → Holds u []
      → n ≤ length df
      → read_body vi base k (pos n) df u ≡ (
        ok (
          record { type_id = k.type_id; id = k.id; fields = sum_fields n (base_fields k base) df },
          df,
        ),
        u,
      )
  unfolding read_body delta_buf
  read_body_stale base k n df u holds room =
      ap
        (λ (r : List ℤ × Unpacker). (
          ok (
            record {
              type_id = k.type_id;
              id = k.id;
              fields = sum_fields n (base_fields k base) r.0;
            },
            r.0,
          ),
          r.1,
        ))
        (ap (λ d. fill vi n 0 d u) kept ∙ fill_empty n 0 df u holds)
    where
      kept : delta_buf n df ≡ df
      kept = ground arith

  Panics_bind :
      {A B : Type 0} (m : Decode A) (f : A → Decode B) (u : Unpacker) (a : A) (mid : List ℕ)
      (r : Reads vi m u a mid)
      → (f a r.0).0 ≡ panic
      → ((m >>= f) u).0 ≡ panic
  Panics_bind {A} {B} m f u a mid (v, read, left) h =
      ap (λ t. (continue {A = A} {B = B} t f).0) read ∙ h

  -- One update with a negative size.
  abbrev pub negative_size_delta : ℤ → ℤ → ℕ → List ℕ → List ℕ
  negative_size_delta type_id id size rest =
      int_bytes vi (pos 0)
      ++ (int_bytes vi (pos 1)
          ++ (int_bytes vi (pos 0)
              ++ (int_bytes vi type_id
                  ++ (int_bytes vi id ++ (int_bytes vi (negsuc size) ++ rest)))))

  module _ (size_fn : ℤ → ℤ) (base : Snapshot) (tick type_id id : ℤ) (size n : ℕ) where
    panics_update :
        (rest : List ℕ) (df : List ℤ) (u : Unpacker)
        → IsInt32 type_id
        → IsInt32 id
        → size < 2 ^ 31
        → size_fn type_id ≡ negsuc n
        → Holds u
            (int_bytes vi type_id ++ (int_bytes vi id ++ (int_bytes vi (negsuc size) ++ rest)))
        → (read_update vi size_fn base.items df u).0 ≡ panic
    unfolding read_update read_body item_size
    panics_update rest df u ht hi hs unknown holds =
        let w6 = int_bytes vi (negsuc size) ++ rest in
        let w5 = int_bytes vi id ++ w6 in
        let r4 = Reads-int vi type_id u w5 ht holds in
        let r5 = Reads-int vi id r4.0 w6 hi r4.2 in
        let r6 = Reads-int vi (negsuc size) r5.0 rest (omega arith, omega arith) r5.2 in
        Panics_bind (lift (next_int vi)) _ u type_id w5 r4 (
          Panics_bind (lift (next_int vi)) _ r4.0 id w6 r5 (
            subst
              (λ x.
                ((item_size vi x >>= λ s.
                read_body vi base.items (record { type_id = type_id; id = id }) s df)
                  r5.0).0
                ≡ panic)
              (sym unknown) (Panics_bind (lift (next_int vi)) _ r5.0 (negsuc size) rest r6 refl)))

    Panics_first :
        {A B : Type 0} (m : Decode A) (f : A → Decode B) (u : Unpacker)
        → (m u).0 ≡ panic
        → ((m >>= f) u).0 ≡ panic
    Panics_first {A} {B} m f u h = stops (m u) h
      where
        stops : (r : Outcome A × Unpacker) → r.0 ≡ panic → (continue {A = A} {B = B} r f).0 ≡ panic
        stops (ok a, w) e = ground arith
        stops (err a, w) e = ground arith
        stops (panic, w) e = refl

    panics_from :
        (rest : List ℕ) (df : List ℤ) (u : Unpacker)
        → IsInt32 type_id
        → IsInt32 id
        → size < 2 ^ 31
        → size_fn type_id ≡ negsuc n
        → Holds u (negative_size_delta type_id id size rest)
        → (decode_delta vi base tick size_fn df u).0 ≡ panic
    unfolding decode_delta read_deleted read_updates rounds
    panics_from rest df u ht hi hs unknown holds =
        let w6 = int_bytes vi (negsuc size) ++ rest in
        let w5 = int_bytes vi id ++ w6 in
        let w4 = int_bytes vi type_id ++ w5 in
        let w3 = int_bytes vi (pos 0) ++ w4 in
        let w2 = int_bytes vi (pos 1) ++ w3 in
        let r1 = Reads-int vi (pos 0) u w2 (omega arith, omega arith) holds in
        let r2 = Reads-int vi (pos 1) r1.0 w3 (omega arith, omega arith) r1.2 in
        let r3 = Reads-int vi (pos 0) r2.0 w4 (omega arith, omega arith) r2.2 in
        Panics_bind (lift (next_int vi)) _ u (pos 0) w2 r1 (
          Panics_bind (lift (next_int vi)) _ r1.0 (pos 1) w3 r2 (
            Panics_bind (lift (next_int vi)) _ r2.0 (pos 0) w4 r3 (
              Panics_first {A = List SnapItem × List ℤ} (read_updates vi 1 size_fn base.items df)
                (λ x. pure {A = Snapshot × List ℤ} (
                  record { tick = tick; items = (merge x.0 (carry [] base.items no_items)).items },
                  x.1,
                ))
                r3.0
                (Panics_first (read_update vi size_fn base.items df)
                  (λ x. pure {A = List SnapItem × List ℤ} ([], x.1) >>= λ x'.
                    pure {A = List SnapItem × List ℤ} (x.0 ∷ x'.0, x'.1))
                  r3.0 (panics_update rest df r3.0 ht hi hs unknown r3.2)))))

    -- A delta whose one update has a type without a known size and a negative size on the wire
    -- makes `applyDelta` panic.
    pub apply_delta_panics :
        (rest : List ℕ) (df : List ℤ)
        → IsInt32 type_id
        → IsInt32 id
        → size < 2 ^ 31
        → size_fn type_id ≡ negsuc n
        → apply_delta vi base tick (negative_size_delta type_id id size rest) size_fn df ≡ panic
    unfolding apply_delta new_unpacker
    apply_delta_panics rest df ht hi hs unknown =
        let bytes = negative_size_delta type_id id size rest in
        let some_bytes : 0 < length bytes = omega (
          arith,
          vi.encoding_nonempty (clamp32 (pos 0)),
          length-int_bytes vi (pos 0),
          length-append (int_bytes vi (pos 0)) (
              int_bytes vi (pos 1)
              ++ (int_bytes vi (pos 0)
                  ++ (int_bytes vi type_id
                      ++ (int_bytes vi id ++ (int_bytes vi (negsuc size) ++ rest))))),
        ) in
        rw (lt→ltb 0 (length bytes) some_bytes) (
          panics_from rest df (record { data_bytes = bytes; idx = 0 }) ht hi hs unknown
            (record { inside = omega arith; left = refl }))
