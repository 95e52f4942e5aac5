-- ===== src/Packet/Snap/Decode.antt =====
-- `applyDelta` on a delta in the wire form.
use twclient.Prelude.{
  ℕ, ◌^◌, ◌<◌, ◌≡◌, refl, ap, ◌∙◌, arith, List, [], ◌∷◌, ◌++◌, map, length, length-append, lt→ltb,
}
use twclient.Prelude.Int.{ℤ, pos}
use twclient.Packer.Varint.{Varint}
use twclient.Packer.Reader.{Unpacker}
use twclient.Packer.Unpack.{next_int, new_unpacker}
use twclient.Packer.RoundTrip.{Holds, int_bytes, length-int_bytes}
use twclient.Packer.Pack.{clamp32}
use twclient.Packet.Snap.{
  SnapItem, Snapshot, key, Outcome, ok, continue, lift, pure, base_fields, no_items, carry, merge,
  delta_buf, sum_fields, deleted_key, read_deleted, item_size, read_body, read_update, read_updates,
  decode_delta, apply_delta,
}
use twclient.Packet.Snap.Encode.{
  wire_size, AllInt32, Sendable, AllSendable, wire_ints, wire_update, wire_updates, wire_delta,
}
use twclient.Packet.Snap.Reads.{
  Reads, Reads-bind, Reads-int, Reads-deleted, Reads-size, decoded, written, sum_written,
  delta_buf_room, fill_lem, after_update, after_updates,
}

module _ (vi : Varint) (size_fn : ℤ → ℤ) (base : List SnapItem) where
  Reads-body :
      (upd : SnapItem) (df : List ℤ) (u : Unpacker) (rest : List ℕ)
      → AllInt32 upd.fields
      → Holds u (wire_ints vi upd.fields rest)
      → Reads vi
          (read_body vi base (key upd) (pos (length upd.fields)) df)
          u
          (decoded base upd, after_update upd df)
          rest
  unfolding read_body after_update
  Reads-body upd df u rest h holds =
      let n = length upd.fields in
      let old = base_fields (key upd) base in
      let (v, filled, left) = fill_lem vi 0 upd.fields (delta_buf n df) u rest h holds in
      (
        v,
        ap
              (λ (r : List ℤ × Unpacker).
                (ok (record upd { fields = sum_fields n old r.0 }, r.0), r.1))
              filled
            ∙ ap (λ t. (ok (record upd { fields = t }, written 0 upd.fields (delta_buf n df)), v))
                (sum_written old upd.fields (delta_buf n df) (delta_buf_room n df)),
        left,
      )

  Reads-update :
      (upd : SnapItem) (df : List ℤ) (u : Unpacker) (rest : List ℕ)
      → Sendable size_fn upd
      → Holds u (wire_update vi size_fn upd rest)
      → Reads vi (read_update vi size_fn base df) u (decoded base upd, after_update upd df) rest
  unfolding read_update
  Reads-update upd df u rest h holds =
      let deltas = wire_ints vi upd.fields rest in
      let sized = wire_size vi (size_fn upd.type_id) upd.fields deltas in
      let result : SnapItem × List ℤ = (decoded base upd, after_update upd df) in
      let r1 = Reads-int vi upd.type_id u (int_bytes vi upd.id ++ sized) h.type_fits holds in
      let r2 = Reads-int vi upd.id r1.0 sized h.id_fits r1.2 in
      let r3 =
        Reads-size vi (size_fn upd.type_id) upd.fields r2.0 deltas h.size_agrees h.size_fits r2.2 in
      let r4 = Reads-body upd df r3.0 rest h.deltas_fit r3.2 in
      Reads-bind vi (lift (next_int vi)) _ u upd.type_id result (int_bytes vi upd.id ++ sized) rest
        r1
        (Reads-bind vi (lift (next_int vi)) _ r1.0 upd.id result sized rest r2 (
          Reads-bind vi (item_size vi (size_fn upd.type_id)) _ r2.0 (pos (length upd.fields)) result
            deltas rest r3 r4))

  Reads-updates :
      (upds : List SnapItem) (df : List ℤ) (u : Unpacker) (rest : List ℕ)
      → AllSendable size_fn upds
      → Holds u (wire_updates vi size_fn upds rest)
      → Reads vi
          (read_updates vi (length upds) size_fn base df)
          u
          (map (decoded base) upds, after_updates upds df)
          rest
  unfolding read_updates after_updates
  Reads-updates [] df u rest h holds = (u, refl, holds)
  Reads-updates (upd ∷ upds) df u rest (h, hs) holds =
      let tail = wire_updates vi size_fn upds rest in
      let first = Reads-update upd df u tail h holds in
      let (v, read, left) = Reads-updates upds (after_update upd df) first.0 rest hs first.2 in
      Reads-bind vi (read_update vi size_fn base df) _ u (decoded base upd, after_update upd df)
        (map (decoded base) (upd ∷ upds), after_updates upds (after_update upd df)) tail rest first
        (
          v,
          ap
              (λ t.
                continue {A = List SnapItem × List ℤ} {B = List SnapItem × List ℤ} t
                  (λ x. pure (decoded base upd ∷ x.0, x.1)))
              read,
          left,
        )

  -- The snapshot that a delta with these deleted keys and updates stands for.
  abbrev pub patched : ℤ → List ℤ → List SnapItem → Snapshot
  patched tick deleted upds = record {
    tick = tick;
    items = (merge (map (decoded base) upds) (carry (map deleted_key deleted) base no_items)).items;
  }

  module _ (tick base_tick : ℤ) (deleted : List ℤ) (upds : List SnapItem) (df : List ℤ) where
    Reads-delta :
        (u : Unpacker)
        → AllInt32 deleted
        → length deleted < 2 ^ 31
        → AllSendable size_fn upds
        → length upds < 2 ^ 31
        → Holds u (wire_delta vi size_fn deleted upds)
        → Reads vi
            (decode_delta vi (record { tick = base_tick; items = base }) tick size_fn df)
            u
            (patched tick deleted upds, after_updates upds df)
            []
    unfolding decode_delta
    Reads-delta u hd nd hu nu holds =
        let updates = wire_updates vi size_fn upds [] in
        let keys = wire_ints vi deleted updates in
        let zero_word = int_bytes vi (pos 0) ++ keys in
        let counted = int_bytes vi (pos (length upds)) ++ zero_word in
        let result : Snapshot × List ℤ = (patched tick deleted upds, after_updates upds df) in
        let r1 = Reads-int vi (pos (length deleted)) u counted (nd, omega arith) holds in
        let r2 = Reads-int vi (pos (length upds)) r1.0 zero_word (nu, omega arith) r1.2 in
        let r3 = Reads-int vi (pos 0) r2.0 keys (omega arith, omega arith) r2.2 in
        let r4 = Reads-deleted vi deleted r3.0 updates hd r3.2 in
        let (v, read, left) = Reads-updates upds df r4.0 [] hu r4.2 in
        Reads-bind vi (lift (next_int vi)) _ u (pos (length deleted)) result counted [] r1 (
          Reads-bind vi (lift (next_int vi)) _ r1.0 (pos (length upds)) result zero_word [] r2 (
            Reads-bind vi (lift (next_int vi)) _ r2.0 (pos 0) result keys [] r3 (
              Reads-bind vi (read_deleted vi (length deleted)) _ r3.0 (map deleted_key deleted)
                result updates [] r4
                (
                  v,
                  ap
                      (λ t. continue {A = List SnapItem × List ℤ} {B = Snapshot × List ℤ} t (λ x.
                        pure (
                          record {
                            tick = tick;
                            items =
                                (merge x.0 (carry (map deleted_key deleted) base no_items)).items;
                          },
                          x.1,
                        )))
                      read,
                  left,
                ))))

    -- A delta in the wire form is decoded to the base with the deleted items dropped and the
    -- updates merged in, whatever the scratch buffer held before.
    pub apply_delta-wire :
        AllInt32 deleted
        → length deleted < 2 ^ 31
        → AllSendable size_fn upds
        → length upds < 2 ^ 31
        → apply_delta vi
            (record { tick = base_tick; items = base })
            tick
            (wire_delta vi size_fn deleted upds)
            size_fn
            df
          ≡ ok (patched tick deleted upds, after_updates upds df)
    unfolding apply_delta new_unpacker
    apply_delta-wire hd nd hu nu =
        let bytes = wire_delta vi size_fn deleted upds in
        let (v, read, left) =
          Reads-delta (record { data_bytes = bytes; idx = 0 }) hd nd hu nu
            (record { inside = omega arith; left = refl }) in
        let some_bytes : 0 < length bytes = omega (
          arith,
          vi.encoding_nonempty (clamp32 (pos (length deleted))),
          length-int_bytes vi (pos (length deleted)),
          length-append (int_bytes vi (pos (length deleted))) (
              int_bytes vi (pos (length upds))
              ++ (int_bytes vi (pos 0) ++ wire_ints vi deleted (wire_updates vi size_fn upds []))),
        ) in
        rw (lt→ltb 0 (length bytes) some_bytes)
          (ap (λ (r : Outcome (Snapshot × List ℤ) × Unpacker). r.0) read)
