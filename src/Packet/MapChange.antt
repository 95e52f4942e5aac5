-- ===== src/Packet/MapChange.antt =====
-- `ParseMapChangePayload` of packet/helpers.go and `MapInfo` of packet/event.go.
pub mod Wire
use twclient.Prelude.{ℕ, ◌≡◌, List, [], ◌∷◌, copy, replicate}
use twclient.Prelude.Int.{ℤ, pos}
use twclient.Packer.Varint.{Varint}
use twclient.Packer.Reader.{Unpacker, Read, Result, ok, err, ◌>>=◌}
use twclient.Packer.Unpack.{new_unpacker, next_string, next_int, next_raw}

pub record MapInfo : Type 0 where
  pub name : List ℕ
  pub crc : ℤ
  pub size : ℤ
  pub sha256 : List ℕ
  pub num_chunks_per_request : ℤ

abbrev pub zero_hash : List ℕ
zero_hash = replicate 32 0

-- `if v, err := …; err == nil { … }`: on an error the information stays as it is.
abbrev pub if_read :
    {A : Type 0} → Result A × Unpacker → MapInfo → (A → Unpacker → MapInfo) → MapInfo
if_read (ok a, u) info f = f a u
if_read (err e, u) info f = info

module _ (vi : Varint) where
  -- The extensions: the number of chunks in a request, the size of a chunk and the hash.
  unfoldable pub read_extensions : MapInfo → Unpacker → MapInfo
  read_extensions info u = if_read (next_int vi u) info (λ per_request u1.
      if_read (next_int vi u1) (record info { num_chunks_per_request = per_request })
        (λ chunk_size u2.
          if_read (next_raw (pos 32) u2) (record info { num_chunks_per_request = per_request })
            (λ raw u3. record info {
              num_chunks_per_request = per_request;
              sha256 = copy zero_hash raw;
            })))

  unfoldable pub read_map_change : Read MapInfo
  unfolding read_extensions
  read_map_change = do
    name ← next_string
    crc ← next_int vi
    size ← next_int vi
    (λ u. (
      ok (
          read_extensions
            (record {
              name = name;
              crc = crc;
              size = size;
              sha256 = zero_hash;
              num_chunks_per_request = pos 0;
            })
            u),
      u,
    ))

  unfoldable pub parse_map_change_payload : List ℕ → Result MapInfo
  parse_map_change_payload bytes = (read_map_change (new_unpacker bytes)).0
