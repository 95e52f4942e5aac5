-- ===== src/Packet/Assembly.antt =====
-- The snapshot messages of net6/reader.go, which net7/reader.go reads in the same way, and
-- `SnapAssemblyState` of packet/snap.go. A snapshot comes whole, or in parts in any order.
pub mod Parts
use twclient.Prelude.{
  ℕ, List, [], ◌∷◌, ◌++◌, set, replicate, Bool, ◌&&◌, if◌then◌else◌, Option, none, some,
}
use twclient.Prelude.Int.{ℤ, pos, negsuc, eq_ℤ, ltb_ℤ, add64}
use twclient.Packer.Varint.{Varint}
use twclient.Packer.Reader.{Unpacker, Read, Result, ◌>>=◌, pure}
use twclient.Packer.Reader as Reader
use twclient.Packer.Unpack.{new_unpacker, next_int, next_raw}
use twclient.Packet.Snap.{Snapshot, Outcome, ok, err, panic}
use twclient.Packet.Snap.Store.{SnapStorage, process_snap}

pub record SnapAssemblyState : Type 0 where
  pub tick : ℤ
  pub delta_tick : ℤ
  pub num_parts : ℤ
  pub received : ℤ
  pub parts : List (List ℕ)

-- The storage, its scratch buffer, and the snapshot that is being put together.
pub record Snaps : Type 0 where
  pub storage : SnapStorage
  pub scratch : List ℤ
  pub assembly : Option SnapAssemblyState

-- What a message comes to: nothing, a snapshot to acknowledge and deliver, or a panic.
pub data Decoded : Type 0 where
  ignored : Decoded
  decoded : ℤ → Snapshot → Decoded
  panicked : Decoded

unfoldable pub finish_decode :
    ℤ → Snaps → Outcome (Snapshot × List ℤ) × SnapStorage → Decoded × Snaps
finish_decode tick st (ok (snap, df), ss) =
    (decoded tick snap, record st { storage = ss; scratch = df })
finish_decode tick st (err e, ss) = (ignored, record st { storage = ss })
finish_decode tick st (panic, ss) = (panicked, record st { storage = ss })

-- `append(full, p...)` over the parts
abbrev pub concat : List (List ℕ) → List ℕ
concat [] = []
concat (p ∷ ps) = p ++ concat ps

-- `make([][]byte, numParts)` panics where the number is negative.
unfoldable pub fresh_assembly : ℤ → ℤ → ℤ → Option SnapAssemblyState
fresh_assembly tick delta_tick (negsuc n) = none
fresh_assembly tick delta_tick (pos n) = some (record {
  tick = tick;
  delta_tick = delta_tick;
  num_parts = pos n;
  received = pos 0;
  parts = replicate n [];
})

-- The assembly goes on if it is of the same tick and number of parts.
unfoldable pub current_assembly : ℤ → ℤ → ℤ → Option SnapAssemblyState → Option SnapAssemblyState
current_assembly tick delta_tick num_parts none = fresh_assembly tick delta_tick num_parts
current_assembly tick delta_tick num_parts (some a) =
    if eq_ℤ a.tick tick && eq_ℤ a.num_parts num_parts
    then some a
    else fresh_assembly tick delta_tick num_parts

-- A part that came before is counted again.
unfoldable pub add_part : ℤ → List ℕ → SnapAssemblyState → SnapAssemblyState
add_part (negsuc i) bytes a = a
add_part (pos i) bytes a =
    if ltb_ℤ (pos i) a.num_parts
    then record a { parts = set a.parts i bytes; received = add64 a.received (pos 1) }
    else a

-- The assembly is dropped once its snapshot is decoded.
unfoldable pub clear_after : Decoded × Snaps → Decoded × Snaps
clear_after (decoded tick snap, st) = (decoded tick snap, record st { assembly = none })
clear_after (ignored, st) = (ignored, st)
clear_after (panicked, st) = (panicked, st)

module _ (vi : Varint) (size_fn : ℤ → ℤ) where
  unfoldable pub decode_into : ℤ → ℤ → List ℕ → Snaps → Decoded × Snaps
  decode_into tick delta_tick bytes st =
      finish_decode tick st (process_snap vi size_fn st.storage tick delta_tick bytes st.scratch)

  -- A part, and the snapshot if it was the last.
  unfoldable pub with_part :
      ℤ → ℤ → ℤ → ℤ → List ℕ → Option SnapAssemblyState → Snaps → Decoded × Snaps
  with_part tick delta_tick num_parts part_index bytes none st = (panicked, st)
  with_part tick delta_tick num_parts part_index bytes (some a) st =
      let b = add_part part_index bytes a in
      if eq_ℤ b.received num_parts
      then clear_after
          (decode_into tick delta_tick (concat b.parts) (record st { assembly = some b }))
      else (ignored, record st { assembly = some b })

  unfoldable pub take_part : ℤ → ℤ → ℤ → ℤ → List ℕ → Snaps → Decoded × Snaps
  take_part tick delta_tick num_parts part_index bytes st =
      if eq_ℤ num_parts (pos 1)
      then decode_into tick delta_tick bytes st
      else with_part tick delta_tick num_parts part_index bytes
          (current_assembly tick delta_tick num_parts st.assembly) st

  -- A message that cannot be read changes nothing.
  abbrev pub if_whole :
      {A : Type 0} → Result A × Unpacker → (A → Snaps → Decoded × Snaps) → Snaps → Decoded × Snaps
  if_whole (Reader.ok a, u) f st = f a st
  if_whole (Reader.err e, u) f st = (ignored, st)

  unfoldable pub read_single : Read (ℤ × (ℤ × List ℕ))
  read_single = do
    tick ← next_int vi
    delta_tick ← next_int vi
    crc ← next_int vi
    part_size ← next_int vi
    bytes ← next_raw part_size
    pure (tick, (delta_tick, bytes))

  unfoldable pub read_empty : Read (ℤ × ℤ)
  read_empty = do tick ← next_int vi; delta_tick ← next_int vi; pure (tick, delta_tick)

  unfoldable pub read_multi : Read (ℤ × (ℤ × (ℤ × (ℤ × List ℕ))))
  read_multi = do
    tick ← next_int vi
    delta_tick ← next_int vi
    num_parts ← next_int vi
    part_index ← next_int vi
    crc ← next_int vi
    part_size ← next_int vi
    bytes ← next_raw part_size
    pure (tick, (delta_tick, (num_parts, (part_index, bytes))))

  unfoldable pub process_snap_single : List ℕ → Snaps → Decoded × Snaps
  process_snap_single bytes =
      if_whole (read_single (new_unpacker bytes))
        (λ (tick, (delta_tick, raw)). decode_into tick delta_tick raw)

  unfoldable pub process_snap_empty : List ℕ → Snaps → Decoded × Snaps
  process_snap_empty bytes =
      if_whole (read_empty (new_unpacker bytes))
        (λ (tick, delta_tick). decode_into tick delta_tick [])

  unfoldable pub process_snap_multi : List ℕ → Snaps → Decoded × Snaps
  process_snap_multi bytes =
      if_whole (read_multi (new_unpacker bytes))
        (λ (tick, (delta_tick, (num_parts, (part_index, raw)))).
          take_part tick delta_tick num_parts part_index raw)
