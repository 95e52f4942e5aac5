-- ===== src/Net6/Session/Download.antt =====
-- `DownloadMap` of net6/session.go, with the map cache that sessions share. `parse` is the parser of
-- the package twmap, `http` the download over HTTP where a base address is set, and `woken` what
-- other sessions make of the cache while this one waits. The progress callback is left out.
pub mod Release
use twclient.Prelude.{
  ℕ, zero, suc, ◌+◌, ◌-◌, ◌/◌, List, [], ◌∷◌, ◌++◌, Bool, true, false, not, if◌then◌else◌, Option,
  none, some,
}
use twclient.Prelude.Int.{ℤ, pos, negsuc, eq_ℤ}
use twclient.Packer.Varint.{Varint}
use twclient.Packer.Reader.{Read, Result, ok, err, ◌>>=◌, pure}
use twclient.Packer.Unpack.{new_unpacker, next_int, next_raw}
use twclient.Packet.MapChange.{MapInfo, zero_hash}
use twclient.Packet.MapCache.{
  Key, map_cache_key, MapCache, Lookup, cached, waits, downloads, get_or_wait, resume, put_failed,
  parse_and_put,
}
use twclient.Packet.Messages.{extract_sys_msg_payload}
use twclient.Network.{
  Conn, Act, Outcome, done, failed, Failure, deadline, bad_header, no_map_info, no_map_data,
  bad_map_data, bad_map, and_then, then_do, ret, fail, recv_context,
}
use twclient.Net6.Messages.{split, sys_request_map_data, wrap_vital_chunk}
use twclient.Net6.Session.{
  Session, eq_bytes, Parsed, bad_packet, no_payload, parsed_payload, next_seq, parse_payload,
  ack_chunks, send_chunks,
}

abbrev pub msg_sys_map_data : ℤ
msg_sys_map_data = pos 3

-- `udpMapChunkRetries`
abbrev pub udp_map_chunk_retries : ℕ
udp_map_chunk_retries = 3

-- `(info.Size / 896) + 2`, and 0 where that is negative: the loop then ends at once.
unfoldable pub max_chunks : ℤ → ℕ
max_chunks (pos n) = n / 896 + 2
max_chunks (negsuc n) = 2 - suc n / 896

-- `ctx.Err() == nil`
unfoldable pub context_alive : Failure → Bool
context_alive deadline = false
context_alive e = true

-- The number of the last chunk, and the bytes of this one.
unfoldable pub read_map_data : Varint → Read (ℤ × List ℕ)
read_map_data vi = do
  last ← next_int vi
  crc ← next_int vi
  chunk ← next_int vi
  chunk_size ← next_int vi
  bytes ← next_raw chunk_size
  pure (last, bytes)

module _ {M : Type 0} where
  -- The message in a packet, if there is one; else the next packet.
  unfoldable pub chunk_or_next :
      Varint → Option (List ℕ) → Act (Session M) (ℤ × List ℕ) → Act (Session M) (ℤ × List ℕ)
  chunk_or_next vi none more = more
  chunk_or_next vi (some bytes) more = elim (read_map_data vi (new_unpacker bytes)).0 [
    | ok r ↦ ret r
    | err e ↦ fail bad_map_data
  ]

  unfoldable pub on_map_data :
      Varint → Parsed → Act (Session M) (ℤ × List ℕ) → Act (Session M) (ℤ × List ℕ)
  on_map_data vi bad_packet more w = fail bad_header w
  on_map_data vi (no_payload hdr) more w = more w
  on_map_data vi (parsed_payload hdr payload) more (s, c) =
      chunk_or_next vi (extract_sys_msg_payload vi payload msg_sys_map_data split) more
        (ack_chunks hdr payload s, c)

  -- `recvMapDataChunk`; the first argument is the number of packets that it still looks at.
  unfoldable pub recv_map_data_chunk :
      ℕ → Varint → (List ℕ → Option (List ℕ)) → Act (Session M) (ℤ × List ℕ)
  recv_map_data_chunk zero vi huff w = fail no_map_data w
  recv_map_data_chunk (suc n) vi huff w =
      then_do recv_context
        (λ resp (s, c).
          on_map_data vi (parse_payload huff s resp) (recv_map_data_chunk n vi huff) (s, c))
        w

  -- After a chunk: on an error, another request of the same one while the context is alive.
  abbrev pub received :
      {A : Type 0}
      → Outcome (ℤ × List ℕ) × (Session M × Conn)
      → (Failure → Act (Session M) A)
      → (ℤ → List ℕ → Act (Session M) A)
      → Outcome A × (Session M × Conn)
  received (done (last, bytes), w) retry next = next last bytes w
  received (failed e, w) retry next = if context_alive e then retry e w else (failed e, w)

  module _ (vi : Varint) (huff : List ℕ → Option (List ℕ))
      (refuses : List (List ℕ) → List ℕ → Bool) where
    -- One round of the loop: the request, and what becomes of the answer.
    abbrev pub request_chunk :
        {A : Type 0}
        → ℕ
        → (Failure → Act (Session M) A)
        → (ℤ → List ℕ → Act (Session M) A)
        → Act (Session M) A
    request_chunk idx retry next (s, c) =
        let (seq, s1) = next_seq s in
        then_do (send_chunks refuses 1 (wrap_vital_chunk (sys_request_map_data vi (pos idx)) seq))
          (λ _ w. received (recv_map_data_chunk 20 vi huff w) retry next) (s1, c)

    -- The loop, with the number of chunks that may still come, the retries left for this one, its
    -- index and the bytes so far.
    unfoldable pub fetch_chunks : ℕ → ℕ → ℕ → List ℕ → Act (Session M) (List ℕ)
    fetch_chunks zero budget idx bytes w = ret bytes w
    fetch_chunks (suc n) zero idx bytes w =
        request_chunk idx fail
          (λ last more v.
            if eq_ℤ last (pos 0)
            then fetch_chunks n udp_map_chunk_retries (suc idx) (bytes ++ more) v
            else ret (bytes ++ more) v)
          w
    fetch_chunks (suc n) (suc budget) idx bytes w =
        request_chunk idx (λ e. fetch_chunks (suc n) budget idx bytes)
          (λ last more v.
            if eq_ℤ last (pos 0)
            then fetch_chunks n udp_map_chunk_retries (suc idx) (bytes ++ more) v
            else ret (bytes ++ more) v)
          w

module _ {M : Type 0} (key : Key) where
  -- What `ParseAndPut` returned: the parsed map goes into the session.
  unfoldable pub with_parsed :
      Session M → Conn → Option M × MapCache M → Outcome M × ((Session M × MapCache M) × Conn)
  with_parsed s c (none, cache) = (failed bad_map, ((s, cache), c))
  with_parsed s c (some m, cache) = (done m, ((record s { parsed = some m }, cache), c))

  unfoldable pub finish_map : (List ℕ → Option M) → List ℕ → Act (Session M × MapCache M) M
  unfolding with_parsed
  finish_map parse bytes ((s, cache), c) = with_parsed s c (parse_and_put key (parse bytes) cache)

  -- The end of the loop over UDP: on an error the cache is told.
  unfoldable pub released :
      (List ℕ → Option M)
      → Outcome (List ℕ) × (Session M × Conn)
      → MapCache M
      → Outcome M × ((Session M × MapCache M) × Conn)
  released parse (done bytes, (s, c)) cache = finish_map parse bytes ((s, cache), c)
  released parse (failed e, (s, c)) cache = (failed e, ((s, put_failed key cache), c))

-- `httpDownloadMap`, tried where there is an address and the hash is known.
unfoldable pub try_http : Option (MapInfo → Option (List ℕ)) → MapInfo → Option (List ℕ)
try_http none info = none
try_http (some http) info = if eq_bytes info.sha256 zero_hash then none else http info

module _ {M : Type 0} (vi : Varint) (huff : List ℕ → Option (List ℕ))
    (refuses : List (List ℕ) → List ℕ → Bool) (parse : List ℕ → Option M)
    (http : Option (MapInfo → Option (List ℕ))) where
  -- Over UDP, where HTTP gave nothing.
  unfoldable pub after_http : Key → Option (List ℕ) → Act (Session M × MapCache M) M
  after_http key (some bytes) w = finish_map key parse bytes w
  after_http key none ((s, cache), c) =
      released key parse
        (fetch_chunks vi huff refuses (max_chunks s.map_info.size) udp_map_chunk_retries 0 []
          (s, c))
        cache

  unfoldable pub download : Key → Act (Session M × MapCache M) M
  unfolding after_http
  download key ((s, cache), c) = after_http key (try_http http s.map_info) ((s, cache), c)

  -- A map from the cache.
  unfoldable pub take_cached : M → Act (Session M × MapCache M) M
  take_cached m ((s, cache), c) = (done m, ((record s { parsed = some m }, cache), c))

  -- After a wait: the map, if the cache has it now; else this session downloads it too.
  unfoldable pub after_wait : Key → Option M × Bool → Act (Session M × MapCache M) M
  after_wait key (some m, true) w = take_cached m w
  after_wait key (some m, false) w = download key w
  after_wait key (none, found) w = download key w

  unfoldable pub look_up :
      Key → (MapCache M → MapCache M) → Lookup M × MapCache M → Act (Session M × MapCache M) M
  look_up key woken (cached m, found) ((s, cache), c) = take_cached m ((s, found), c)
  look_up key woken (downloads, found) ((s, cache), c) = download key ((s, found), c)
  look_up key woken (waits ch, found) ((s, cache), c) =
      after_wait key (resume key (woken found)) ((s, woken found), c)

  -- With the name of the map, which is not empty once a map change came.
  unfoldable pub for_name :
      List ℕ → Key → (MapCache M → MapCache M) → Act (Session M × MapCache M) M
  for_name [] key woken w = (failed no_map_info, w)
  for_name (b ∷ name) key woken ((s, cache), c) =
      look_up key woken (get_or_wait key cache) ((s, cache), c)

  unfoldable pub download_map :
      (List ℕ → List ℕ) → (MapCache M → MapCache M) → Act (Session M × MapCache M) M
  unfolding for_name
  download_map hex woken ((s, cache), c) =
      let info = s.map_info in
      for_name info.name (map_cache_key hex info.name info.sha256) woken ((s, cache), c)
