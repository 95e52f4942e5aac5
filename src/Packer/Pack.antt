-- ===== src/Packer/Pack.antt =====
-- The packing functions of packer/packer.go. `int` is 64 bits wide: `msgID << 1` wraps.
use twclient.Prelude.{ℕ, List, [], ◌∷◌, ◌++◌, Bool, if◌then◌else◌}
use twclient.Prelude.Int.{ℤ, pos, negsuc, ltb_ℤ, double_ℤ, or_one_ℤ, wrap64}
use twclient.Packer.Varint.{Varint}

-- The 32-bit clamp of `AppendInt`.
unfoldable pub clamp32 : ℤ → ℤ
clamp32 num =
    if ltb_ℤ (pos 0x7fff_ffff) num
    then pos 0x7fff_ffff
    else if ltb_ℤ num (negsuc 0x7fff_ffff)
    then negsuc 0x7fff_ffff
    else num

unfoldable pub append_str : List ℕ → List ℕ → List ℕ
append_str dst s = (dst ++ s) ++ 0 ∷ []

unfoldable pub pack_string : List ℕ → List ℕ
unfolding append_str
pack_string s = append_str [] s

-- `id := msgID << 1; if system { id |= 1 }`
unfoldable pub msg_id_word : ℤ → Bool → ℤ
msg_id_word msg_id system = let id = wrap64 (double_ℤ msg_id) in if system then or_one_ℤ id else id

module _ (vi : Varint) where
  unfoldable pub append_int : List ℕ → ℤ → List ℕ
  append_int dst num = vi.append_to dst (clamp32 num)

  unfoldable pub append_bool : List ℕ → Bool → List ℕ
  append_bool dst v = if v then append_int dst (pos 1) else append_int dst (pos 0)

  unfoldable pub append_msg_id : List ℕ → ℤ → Bool → List ℕ
  append_msg_id dst msg_id system = append_int dst (msg_id_word msg_id system)

  unfoldable pub pack_int : ℤ → List ℕ
  pack_int num = append_int [] num

  unfoldable pub pack_bool : Bool → List ℕ
  pack_bool v = append_bool [] v

  unfoldable pub pack_msg_id : ℤ → Bool → List ℕ
  pack_msg_id msg_id system = append_msg_id [] msg_id system
