-- ===== src/Packet/MapCache.antt =====
-- packet/mapcache.go. Each method holds the mutex while it changes the maps, so it is one step; a
-- wait on a channel is the end of a step. A channel is a number, and `closed` lists those that were
-- closed. `M` is the type of parsed maps and `hex` the encoding of a hash.
pub mod Steps
use twclient.Prelude.{
  ℕ, zero, suc, ◌+◌, ◌≡◌, List, [], ◌∷◌, ◌++◌, Bool, true, false, ◌&&◌, ◌==◌, if◌then◌else◌, Option,
  none, some,
}

abbrev pub Key : Type 0
Key = List ℕ

-- `mapCacheKey`
unfoldable pub map_cache_key : (List ℕ → List ℕ) → List ℕ → List ℕ → Key
map_cache_key hex name sha256 = (name ++ 58 ∷ []) ++ hex sha256

unfoldable pub eq_key : Key → Key → Bool
eq_key [] [] = true
eq_key [] (b ∷ k) = false
eq_key (a ∷ j) [] = false
eq_key (a ∷ j) (b ∷ k) = if a == b then eq_key j k else false

pub record MapCache (M : Type 0) : Type 0 where
  pub maps : Key → Option M
  pub pending : Key → Option ℕ
  pub next_channel : ℕ
  pub closed : List ℕ

-- What `GetOrWait` comes to while it holds the mutex.
pub data Lookup (M : Type 0) : Type 0 where
  cached : M → Lookup M
  waits : ℕ → Lookup M
  downloads : Lookup M

-- `if ch != nil { close(ch) }`
abbrev pub close : Option ℕ → List ℕ → List ℕ
close none closed = closed
close (some ch) closed = ch ∷ closed

module _ {M : Type 0} where
  unfoldable pub new_map_cache : MapCache M
  new_map_cache = record { maps = λ k. none; pending = λ k. none; next_channel = 0; closed = [] }

  unfoldable pub get : Key → MapCache M → Option M
  get k c = c.maps k

  unfoldable pub register : Key → MapCache M → MapCache M
  register k c = record c {
    pending = λ j. if eq_key k j then some c.next_channel else c.pending j;
    next_channel = c.next_channel + 1;
  }

  unfoldable pub get_or_wait : Key → MapCache M → Lookup M × MapCache M
  get_or_wait k c = elim (c.maps k) [
    | some m ↦ (cached m, c)
    | none ↦ elim (c.pending k) [ some ch ↦ (waits ch, c) | none ↦ (downloads, register k c) ]
  ]

  -- What a waiting `GetOrWait` returns when its channel is closed.
  unfoldable pub resume : Key → MapCache M → Option M × Bool
  resume k c = elim (c.maps k) [ some m ↦ (some m, true) | none ↦ (none, false) ]

  unfoldable pub put_failed : Key → MapCache M → MapCache M
  put_failed k c = record c {
    pending = λ j. if eq_key k j then none else c.pending j;
    closed = close (c.pending k) c.closed;
  }

  unfoldable pub put : Key → M → MapCache M → MapCache M
  put k m c = record c {
    maps = λ j. if eq_key k j then some m else c.maps j;
    pending = λ j. if eq_key k j then none else c.pending j;
    closed = close (c.pending k) c.closed;
  }

  -- `ParseAndPut`; `parsed` is what the map parser returns.
  unfoldable pub parse_and_put : Key → Option M → MapCache M → Option M × MapCache M
  parse_and_put k none c = (none, put_failed k c)
  parse_and_put k (some m) c = (some m, put k m c)
