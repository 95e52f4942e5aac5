-- ===== src/Samples/Downloads.antt =====
-- A download of a map at a concrete connection.
use twclient.Prelude.{[], ◌∷◌, length, none, some, refl}
use twclient.Prelude.Int.{pos}
use twclient.Packet.MapChange.{zero_hash}
use twclient.Packet.MapCache.{map_cache_key, new_map_cache}
use twclient.Packet.MapCache.Steps.{Reachable-IsSound, start}
use twclient.Network.{elapses}
use twclient.Net6.Session.{Session}
use twclient.Net6.Session.Download.{download_map}
use twclient.Net6.Session.Download.Release.{Settled, download_map-Settled}
use twclient.Prelude.{ℕ}
use twclient.Samples.Integers.{sample_varint}
use twclient.Samples.Sessions.{huff, refuses, fresh}

-- A download that fails, since a wait is over at once.
abbrev named : Session ℕ
named = record fresh {
  map_info = record {
    name = 97 ∷ [];
    crc = pos 1;
    size = pos 2;
    sha256 = zero_hash;
    num_chunks_per_request = pos 0;
  };
}

download_map-Settled_example : Settled (map_cache_key (λ hash. hash) (97 ∷ []) zero_hash) (
    download_map sample_varint huff refuses
      (λ bytes. some (length bytes))
      none
      (λ hash. hash)
      (λ cache. cache)
      ((named, new_map_cache), record { arrivals = elapses ∷ []; sent = [] }))
download_map-Settled_example =
    download_map-Settled sample_varint huff refuses (λ bytes. some (length bytes)) none
      (λ hash. hash) (λ cache. cache) named new_map_cache
      (record { arrivals = elapses ∷ []; sent = [] }) 97 [] refl
      (Reachable-IsSound new_map_cache start) (Reachable-IsSound new_map_cache start)
