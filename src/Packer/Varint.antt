-- ===== src/Packer/Varint.antt =====
-- The package github.com/teeworlds-go/varint, which packer/packer.go calls: its two functions, and
-- what its documentation says of them. It is no part of the repository, so it is a parameter.
use twclient.Prelude.{ℕ, ◌≤◌, ◌<◌, ◌≡◌, List, [], ◌++◌, length}
use twclient.Prelude.Int.{ℤ, pos, IsInt32}

pub record Varint : Type 0 where
  -- `varint.Varint(data)`: the value and the number of bytes read, which is not positive on failure.
  pub decode : List ℕ → ℤ × ℤ
  -- `varint.AppendVarint(dst, v)`
  pub append_to : List ℕ → ℤ → List ℕ
  -- No more bytes are read than there are.
  pub decode_bounds :
      (bytes : List ℕ) (v : ℤ) (n : ℕ) → decode bytes ≡ (v, pos n) → n ≤ length bytes
  -- The encoding goes behind `dst`, and takes at least one byte.
  pub append_to_dst : (dst : List ℕ) (v : ℤ) → append_to dst v ≡ dst ++ append_to [] v
  pub encoding_nonempty : (v : ℤ) → 0 < length (append_to [] v)
  -- A 32-bit integer is read back, whatever follows it.
  pub decode-append_to :
      (v : ℤ) (rest : List ℕ)
      → IsInt32 v
      → decode (append_to [] v ++ rest) ≡ (v, pos (length (append_to [] v)))
