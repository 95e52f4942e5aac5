-- ===== src/Packet/Chunk/Agreement.antt =====
-- The two readers of a chunk header, `Unpack` and `UnpackRaw`, agree.
use twclient.Prelude.{ℕ, ◌≡◌, refl, arith, List, [], ◌∷◌, Bool-cases, inl, inr, Option, none, some}
use twclient.Packer.Reader.{Result, ok, err}
use twclient.Packer.Unpack.{new_unpacker, next_byte, next_raw}
use twclient.Packet.Chunk.{read_flags, unpack, unpack_raw}

abbrev pub to_option : {A : Type 0} → Result A → Option A
to_option (ok a) = some a
to_option (err e) = none

-- On any bytes `UnpackRaw` gives the header that `Unpack` reads at their start, and an error where
-- `Unpack` gives one.
pub unpack_raw-unpack :
    (split : ℕ) (bytes : List ℕ)
    → unpack_raw split bytes ≡ to_option (unpack split (new_unpacker bytes)).0
unfolding unpack_raw unpack new_unpacker next_raw next_byte
unpack_raw-unpack split [] = refl
unpack_raw-unpack split (b0 ∷ []) = refl
unpack_raw-unpack split (b0 ∷ b1 ∷ []) = elim (Bool-cases (read_flags b0).vital) [
  | inl v ↦ rw v refl
  | inr v ↦ rw v refl
]
unpack_raw-unpack split (b0 ∷ b1 ∷ b2 ∷ bytes) = ground arith
