-- ===== src/Packet/MapChange/Wire.antt =====
-- A map change message as the servers send it, with and without the extensions, is parsed.
use twclient.Prelude.{ℕ, ◌+◌, ◌≡◌, refl, sym, ap, ◌∙◌, arith, List, [], ◌++◌, length}
use twclient.Prelude.Int.{ℤ, pos, IsInt32}
use twclient.Packer.Varint.{Varint}
use twclient.Packer.Reader.{Unpacker, ok, err, no_int}
use twclient.Packer.Unpack.{advance, new_unpacker, next_string, next_int, next_raw}
use twclient.Packer.Pack.{pack_string}
use twclient.Packer.Sanitize.{sanitize, sanitize_default}
use twclient.Packer.RoundTrip.{
  Holds, Holds-length, NoNul, int_bytes, next_int_exact, next_string_back, next_raw_back,
}
use twclient.Packer.Uuid.{copy_full}
use twclient.Packet.MapChange.{
  MapInfo, zero_hash, read_extensions, read_map_change, parse_map_change_payload,
}

module _ (vi : Varint) where
  next_int_none : (u : Unpacker) → Holds u [] → next_int vi u ≡ (err no_int, u)
  unfolding next_int
  next_int_none u h = ground (arith, Holds-length u [] h)

  read_extensions_none :
      (info : MapInfo) (u : Unpacker) → Holds u [] → read_extensions vi info u ≡ info
  unfolding read_extensions
  read_extensions_none info u h = rw (next_int_none u h) refl

  module _ (per_request chunk_size : ℤ) (hash rest : List ℕ) where
    abbrev pub extension_bytes : List ℕ
    extension_bytes = int_bytes vi per_request ++ (int_bytes vi chunk_size ++ (hash ++ rest))

    read_extensions_back :
        (info : MapInfo) (u : Unpacker)
        → IsInt32 per_request
        → IsInt32 chunk_size
        → length hash ≡ 32
        → Holds u extension_bytes
        → read_extensions vi info u
          ≡ record info { num_chunks_per_request = per_request; sha256 = hash }
    unfolding read_extensions
    read_extensions_back info u hp hc hh holds =
        let (r1, l1) =
          next_int_exact vi per_request u (int_bytes vi chunk_size ++ (hash ++ rest)) hp holds in
        let (r2, l2) = next_int_exact vi chunk_size _ (hash ++ rest) hc l1 in
        let u2 =
          advance (length (int_bytes vi chunk_size))
            (advance (length (int_bytes vi per_request)) u) in
        let r3 : next_raw (pos 32) u2 ≡ (ok hash, advance (length hash) u2) =
          ap (λ n. next_raw (pos n) u2) (sym hh) ∙ next_raw_back u2 rest hash l2 in
        rw (r1, r2, r3, copy_full zero_hash hash hh) refl

  -- The message, up to its extensions.
  abbrev pub map_change_bytes : List ℕ → ℤ → ℤ → List ℕ → List ℕ
  map_change_bytes name crc size rest =
      pack_string name ++ (int_bytes vi crc ++ (int_bytes vi size ++ rest))

  module _ (name : List ℕ) (crc size : ℤ) where
    -- What is known without the extensions.
    abbrev pub plain_info : MapInfo
    plain_info = record {
      name = sanitize sanitize_default name;
      crc = crc;
      size = size;
      sha256 = zero_hash;
      num_chunks_per_request = pos 0;
    }

    parse_with :
        (rest : List ℕ) (info : MapInfo)
        → NoNul name
        → IsInt32 crc
        → IsInt32 size
        → ((u : Unpacker) → Holds u rest → read_extensions vi plain_info u ≡ info)
        → parse_map_change_payload vi (map_change_bytes name crc size rest) ≡ ok info
    unfolding parse_map_change_payload read_map_change next_string new_unpacker
    parse_with rest info hn hc hs more =
        let u0 : Unpacker = record { data_bytes = map_change_bytes name crc size rest; idx = 0 } in
        let (r1, l1) =
          next_string_back u0 (int_bytes vi crc ++ (int_bytes vi size ++ rest)) sanitize_default
            name hn (record { inside = omega arith; left = refl }) in
        let u1 = advance (length name + 1) u0 in
        let (r2, l2) = next_int_exact vi crc u1 (int_bytes vi size ++ rest) hc l1 in
        let (r3, l3) = next_int_exact vi size _ rest hs l2 in
        rw (parse_map_change_payload, read_map_change, next_string, new_unpacker, r1, r2, r3)
          (ap ok (more _ l3))

    -- A map change message is parsed: with the extensions, whatever follows them, it gives the hash
    -- and the number of chunks in a request, and without them a zero hash and no number. The
    -- integers are of 32 bits, and the name, which has no NUL, arrives sanitized.
    pub parse_map_change_payload_back :
        (per_request chunk_size : ℤ) (hash rest : List ℕ)
        → NoNul name
        → IsInt32 crc
        → IsInt32 size
        → IsInt32 per_request
        → IsInt32 chunk_size
        → length hash ≡ 32
        → (parse_map_change_payload vi
              (map_change_bytes name crc size (extension_bytes per_request chunk_size hash rest))
            ≡ ok (record plain_info { num_chunks_per_request = per_request; sha256 = hash }))
          × (parse_map_change_payload vi (map_change_bytes name crc size []) ≡ ok plain_info)
    parse_map_change_payload_back per_request chunk_size hash rest hn hc hs hp hk hh = (
      parse_with (extension_bytes per_request chunk_size hash rest) _ hn hc hs
          (λ u h. read_extensions_back per_request chunk_size hash rest plain_info u hp hk hh h),
      parse_with [] plain_info hn hc hs (λ u h. read_extensions_none plain_info u h),
    )
