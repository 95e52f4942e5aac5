-- ===== src/Samples/Assembly.antt =====
-- A snapshot in two parts, of which the second comes first.
use twclient.Prelude.{◌≡◌, ℕ, zero, suc, ◌<◌, inl, inr, refl, arith, List, [], ◌∷◌, none}
use twclient.Prelude.Int.{ℤ, pos}
use twclient.Packet.Snap.Store.{new_snap_storage}
use twclient.Packet.Assembly.{Snaps, ignored}
use twclient.Packet.Assembly.Parts.{IsIn, take_parts, outcome, snapshot_of_parts}
use twclient.Samples.Integers.{sample_varint}

abbrev no_sizes : ℤ → ℤ
no_sizes t = pos 0

-- The empty delta, of which each part has a piece.
abbrev part : ℕ → List ℕ
part zero = 0 ∷ 0 ∷ []
part (suc i) = 0 ∷ []

abbrev start : Snaps
start = record { storage = new_snap_storage []; scratch = []; assembly = none }

within : (i : ℕ) → IsIn i (1 ∷ 0 ∷ []) → i < 2
within i (inl e) = omega (arith, e)
within i (inr (inl e)) = omega (arith, e)
within i (inr (inr m)) = absurd m

covers : (i : ℕ) → i < 2 → IsIn i (1 ∷ 0 ∷ [])
covers zero h = inr (inl refl)
covers (suc zero) h = inl refl
covers (suc (suc i)) h = absurd (omega (arith, h))

snapshot_of_parts_example :
    take_parts sample_varint no_sizes part (pos 50) (pos 50) 2 (1 ∷ 0 ∷ []) start ≡ (
      ignored ∷ (outcome sample_varint no_sizes part (pos 50) (pos 50) 2 start).0 ∷ [],
      (outcome sample_varint no_sizes part (pos 50) (pos 50) 2 start).1,
    )
snapshot_of_parts_example =
    snapshot_of_parts sample_varint no_sizes part (pos 50) (pos 50) 2 (1 ∷ 0 ∷ []) start
      (omega arith) (omega arith) refl within covers tt
