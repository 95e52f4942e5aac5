-- ===== src/Samples/Maps.antt =====
-- The map cache and the map change message at concrete values.
use twclient.Prelude.{ℕ, ◌≡◌, refl, arith, List, [], ◌∷◌, replicate, true, false, none, some}
use twclient.Prelude.Int.{pos, negsuc}
use twclient.Packer.Reader.{ok}
use twclient.Packer.RoundTrip.{NoNul}
use twclient.Packet.MapCache.{
  register, eq_key, Key, MapCache, waits, new_map_cache, get_or_wait, put, put_failed, resume,
}
use twclient.Packet.MapCache.Steps.{
  Reachable, start, next, looks, fails, IsSound, Reachable-IsSound, was_closed, waiter_woken,
}
use twclient.Packet.MapChange.{parse_map_change_payload}
use twclient.Packet.MapChange.Wire.{
  plain_info, map_change_bytes, extension_bytes, parse_map_change_payload_back,
}
use twclient.Samples.Integers.{sample_varint}

-- "ctf1:"
abbrev map_key : Key
map_key = 99 ∷ 116 ∷ 102 ∷ 49 ∷ 58 ∷ []

abbrev one_downloads : MapCache ℕ
one_downloads = (get_or_wait map_key new_map_cache).1

-- The first session downloads, the second waits, and the first fails.
abbrev after_failure : MapCache ℕ
after_failure = put_failed map_key (get_or_wait map_key one_downloads).1

abbrev failure_reached : Reachable after_failure
failure_reached =
    next (get_or_wait map_key one_downloads).1 after_failure
      (next one_downloads (get_or_wait map_key one_downloads).1
        (next new_map_cache one_downloads start (looks map_key)) (looks map_key))
      (fails map_key)

Reachable-IsSound_example : IsSound after_failure
Reachable-IsSound_example = Reachable-IsSound after_failure failure_reached

second_waits : (get_or_wait map_key one_downloads).0 ≡ waits 0
unfolding get_or_wait new_map_cache register eq_key
second_waits = refl

waiter_woken_example :
    (was_closed 0 (put map_key 7 one_downloads).closed ≡ true)
    × (resume map_key (put map_key 7 one_downloads) ≡ (some 7, true))
    × (was_closed 0 (put_failed map_key one_downloads).closed ≡ true)
    × (resume map_key (put_failed map_key one_downloads) ≡ (none, false))
    × ((put_failed map_key one_downloads).pending map_key ≡ none)
waiter_woken_example = waiter_woken map_key one_downloads 0 7 second_waits

abbrev map_name : List ℕ
map_name = 99 ∷ 116 ∷ 102 ∷ 49 ∷ []

map_name-NoNul : NoNul map_name
map_name-NoNul = (
  (λ e. ground (arith, e)),
  ((λ e. ground (arith, e)), ((λ e. ground (arith, e)), ((λ e. ground (arith, e)), tt))),
)

abbrev hash : List ℕ
hash = replicate 32 171

parse_map_change_payload_back_example :
    (parse_map_change_payload sample_varint (
        map_change_bytes sample_varint map_name
          (negsuc 99)
          (pos 4000)
          (extension_bytes sample_varint (pos 2) (pos 1384) hash (0 ∷ [])))
      ≡ ok (record (plain_info sample_varint map_name (negsuc 99) (pos 4000)) {
        num_chunks_per_request = pos 2;
        sha256 = hash;
      }))
    × (parse_map_change_payload sample_varint
          (map_change_bytes sample_varint map_name (negsuc 99) (pos 4000) [])
        ≡ ok (plain_info sample_varint map_name (negsuc 99) (pos 4000)))
parse_map_change_payload_back_example =
    parse_map_change_payload_back sample_varint map_name (negsuc 99) (pos 4000) (pos 2) (pos 1384)
      hash (0 ∷ []) map_name-NoNul (omega arith, omega arith) (omega arith, omega arith)
      (omega arith, omega arith) (omega arith, omega arith) refl
