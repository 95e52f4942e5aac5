-- ===== src/Net6/Session/Download/Release.antt =====
-- A download leaves no one waiting: however it ends, its key is pending no more.
use mathlib.Core.Path.{subst}
use twclient.Prelude.{
  ℕ, ◌≡◌, refl, sym, arith, List, ◌∷◌, Bool, true, false, Option, none, some, Option-cases, inl,
  inr, ◌⊎◌,
}
use twclient.Packer.Varint.{Varint}
use twclient.Packet.MapChange.{MapInfo}
use twclient.Packet.MapCache.{
  Key, map_cache_key, MapCache, Lookup, cached, waits, downloads, get_or_wait, register, resume,
  put, put_failed, parse_and_put,
}
use twclient.Packet.MapCache.Steps.{IsSound, eq_key_refl}
use twclient.Network.{Conn, Outcome, done, failed}
use twclient.Net6.Session.{Session}
use twclient.Net6.Session.Download.{
  with_parsed, finish_map, released, try_http, download, take_cached, after_wait, look_up,
  download_map, after_http, for_name,
}

module _ {M : Type 0} where
  -- The map that was returned is the one that the cache has.
  abbrev pub Delivered : Key → Outcome M → MapCache M → Type 0
  Delivered key (done m) cache = cache.maps key ≡ some m
  Delivered key (failed e) cache = Unit {0}

  -- No session is registered for the key, and what was returned is in the cache.
  abbrev pub Settled : Key → Outcome M × ((Session M × MapCache M) × Conn) → Type 0
  Settled key (o, ((s, cache), c)) = (cache.pending key ≡ none) × Delivered key o cache

  module _ (key : Key) (parse : List ℕ → Option M) where
    with_parsed-Settled :
        (s : Session M) (cache : MapCache M) (c : Conn) (o : Option M)
        → Settled key (with_parsed key s c (parse_and_put key o cache))
    unfolding with_parsed parse_and_put put put_failed
    with_parsed-Settled s cache c none = (rw (eq_key_refl key) refl, tt)
    with_parsed-Settled s cache c (some m) = (rw (eq_key_refl key) refl, rw (eq_key_refl key) refl)

    finish_map-Settled :
        (bytes : List ℕ) (w : (Session M × MapCache M) × Conn)
        → Settled key (finish_map key parse bytes w)
    unfolding finish_map
    finish_map-Settled bytes ((s, cache), c) = with_parsed-Settled s cache c (parse bytes)

    released-Settled :
        (r : Outcome (List ℕ) × (Session M × Conn)) (cache : MapCache M)
        → Settled key (released key parse r cache)
    unfolding released put_failed
    released-Settled (done bytes, (s, c)) cache = finish_map-Settled bytes ((s, cache), c)
    released-Settled (failed e, (s, c)) cache = (rw (eq_key_refl key) refl, tt)

  -- A key that the cache has is not pending.
  known-free :
      (key : Key) (cache : MapCache M) (m : M)
      → IsSound cache
      → cache.maps key ≡ some m
      → cache.pending key ≡ none
  known-free key cache m sound e = elim (Option-cases (cache.pending key)) [
    | inl p ↦ p
    | inr (ch, p) ↦ ground (arith, sound.missing key ch p, e)
  ]

  resume_cases :
      (key : Key) (c : MapCache M)
      → (resume key c ≡ (none, false))
        ⊎ ((m : M) × (c.maps key ≡ some m) × (resume key c ≡ (some m, true)))
  unfolding resume
  resume_cases key c = elim (Option-cases (c.maps key)) [
    | inl e ↦ inl (rw (resume, e) refl)
    | inr (m, e) ↦ inr (m, e, (rw (resume, e) refl))
  ]

  lookup_cases :
      (key : Key) (c : MapCache M)
      → ((m : M) × (c.maps key ≡ some m) × (get_or_wait key c ≡ (cached m, c)))
        ⊎ (((ch : ℕ) × (get_or_wait key c ≡ (waits ch, c)))
            ⊎ (get_or_wait key c ≡ (downloads, register key c)))
  unfolding get_or_wait register
  lookup_cases key c = elim (Option-cases (c.maps key)) [
    | inr (m, e) ↦ inl (m, e, (rw (get_or_wait, e) refl))
    | inl e ↦ elim (Option-cases (c.pending key)) [
      | inr (ch, p) ↦ inr (inl (ch, (rw (get_or_wait, e, p) refl)))
      | inl p ↦ inr (inr (rw (get_or_wait, e, p) refl))
    ]
  ]

  module _ (vi : Varint) (huff : List ℕ → Option (List ℕ)) (refuses : List (List ℕ) → List ℕ → Bool)
      (parse : List ℕ → Option M) (http : Option (MapInfo → Option (List ℕ))) where
    after_http-Settled :
        (key : Key) (o : Option (List ℕ)) (w : (Session M × MapCache M) × Conn)
        → Settled key (after_http vi huff refuses parse http key o w)
    unfolding after_http
    after_http-Settled key (some bytes) w = finish_map-Settled key parse bytes w
    after_http-Settled key none ((s, cache), c) = released-Settled key parse _ cache

    download-Settled :
        (key : Key) (w : (Session M × MapCache M) × Conn)
        → Settled key (download vi huff refuses parse http key w)
    unfolding download
    download-Settled key ((s, cache), c) =
        after_http-Settled key (try_http http s.map_info) ((s, cache), c)

    after_wait-Settled :
        (key : Key) (s : Session M) (cache : MapCache M) (c : Conn)
        → IsSound cache
        → Settled key (after_wait vi huff refuses parse http key (resume key cache) ((s, cache), c))
    unfolding after_wait take_cached
    after_wait-Settled key s cache c sound = elim (resume_cases key cache) [
      | inl e ↦
          subst (λ r. Settled key (after_wait vi huff refuses parse http key r ((s, cache), c)))
            (sym e) (download-Settled key ((s, cache), c))
      | inr (m, h, e) ↦
          subst (λ r. Settled key (after_wait vi huff refuses parse http key r ((s, cache), c)))
            (sym e) (known-free key cache m sound h, h)
    ]

    look_up-Settled :
        (key : Key) (woken : MapCache M → MapCache M) (s : Session M) (cache : MapCache M)
        (c : Conn)
        → IsSound cache
        → IsSound (woken cache)
        → Settled key
            (look_up vi huff refuses parse http key woken (get_or_wait key cache) ((s, cache), c))
    unfolding look_up take_cached
    look_up-Settled key woken s cache c sound sound_after =
        let at = λ (r : Lookup M × MapCache M).
          Settled key (look_up vi huff refuses parse http key woken r ((s, cache), c)) in
        elim (lookup_cases key cache) [
          | inl (m, h, e) ↦ subst at (sym e) (known-free key cache m sound h, h)
          | inr (inl (ch, e)) ↦
              subst at (sym e) (after_wait-Settled key s (woken cache) c sound_after)
          | inr (inr e) ↦ subst at (sym e) (download-Settled key ((s, register key cache), c))
        ]

    -- However a download ends, with a map or with an error of the connection, of the server or of
    -- the parser, no session is registered for the map any more, so none that comes later waits for
    -- it; and a map that is returned is the one that the cache has. The name of the map is known, and
    -- the cache is sound before, and when a wait on another session is over.
    pub download_map-Settled :
        (hex : List ℕ → List ℕ) (woken : MapCache M → MapCache M) (s : Session M)
        (cache : MapCache M) (c : Conn) (b : ℕ) (name : List ℕ)
        → s.map_info.name ≡ b ∷ name
        → IsSound cache
        → IsSound (woken cache)
        → Settled
            (map_cache_key hex s.map_info.name s.map_info.sha256)
            (download_map vi huff refuses parse http hex woken ((s, cache), c))
    unfolding download_map for_name
    download_map-Settled hex woken s cache c b name e sound sound_after =
        let key = map_cache_key hex s.map_info.name s.map_info.sha256 in
        subst (λ n. Settled key (for_name vi huff refuses parse http n key woken ((s, cache), c)))
          (sym e) (look_up-Settled key woken s cache c sound sound_after)
