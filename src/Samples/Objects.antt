-- ===== src/Samples/Objects.antt =====
-- Decoded objects, inputs and new storages at concrete values.
use mathlib.Core.Option
use twclient.Prelude.{◌≡◌, List, [], ◌∷◌, if◌then◌else◌, none, some}
use twclient.Prelude.Int.{ℤ, pos, negsuc}
use twclient.Packet.Snap.{SnapItem, Snapshot}
use twclient.Packet.Input.{
  RawInput, raw, new_player_input_from_raw, in_ranges, raw-new_player_input_from_raw,
}
use twclient.Packet.Objects.{SnapObjects}
use twclient.Net6.SnapDecode as Decode6
use twclient.Net6.SnapDecode.Total as Total6
use twclient.Net7.SnapDecode as Decode7
use twclient.Net7.SnapDecode.Total as Total7

-- A character with its fields, one without, a pickup and an unknown item.
abbrev items : List SnapItem
items =
    (record {
      type_id = pos 9;
      id = pos 3;
      fields =
          pos 1
          ∷ pos 2
          ∷ pos 3
          ∷ pos 4
          ∷ pos 5
          ∷ pos 6
          ∷ pos 7
          ∷ pos 8
          ∷ pos 9
          ∷ pos 10
          ∷ pos 11
          ∷ pos 12
          ∷ pos 13
          ∷ pos 14
          ∷ pos 15
          ∷ pos 16
          ∷ pos 17
          ∷ pos 18
          ∷ pos 19
          ∷ pos 20
          ∷ pos 21
          ∷ pos 22
          ∷ [];
    })
    ∷ (record { type_id = pos 9; id = pos 4; fields = pos 1 ∷ [] })
    ∷ (record { type_id = pos 4; id = pos 0; fields = pos 1 ∷ pos 2 ∷ pos 3 ∷ pos 0 ∷ [] })
    ∷ (record { type_id = negsuc 7; id = pos 0; fields = [] })
    ∷ []

abbrev snapshot : Snapshot
snapshot = record { tick = pos 50; items = items }

decode_snap6_total_example :
    (objects : SnapObjects) × (Decode6.decode_snap snapshot ≡ some objects)
    × ((id : ℤ) → objects.characters id ≡ Total6.last_character id items)
    × (objects.tick ≡ pos 50)
decode_snap6_total_example = Total6.decode_snap6_total snapshot

decode_snap7_total_example :
    (objects : SnapObjects) × (Decode7.decode_snap snapshot ≡ some objects)
    × ((id : ℤ) → objects.characters id ≡ Total7.last_character id items)
    × (objects.tick ≡ pos 50)
decode_snap7_total_example = Total7.decode_snap7_total snapshot

abbrev raw_input : RawInput
raw_input = record {
  f0 = negsuc 0;
  f1 = pos 100;
  f2 = negsuc 30;
  f3 = pos 1;
  f4 = pos 7;
  f5 = pos 0;
  f6 = pos 17;
  f7 = pos 6;
  f8 = pos 0;
  f9 = pos 1;
}

raw-new_player_input_from_raw_example :
    Option.map raw (new_player_input_from_raw raw_input)
    ≡ (if in_ranges raw_input then some raw_input else none)
raw-new_player_input_from_raw_example = raw-new_player_input_from_raw raw_input
