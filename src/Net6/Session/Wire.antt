-- ===== src/Net6/Session/Wire.antt =====
-- A packet that one session builds is what another reads, with or without a security token.
use twclient.Prelude.{
  ℕ, ◌-◌, ◌<◌, ◌≡◌, refl, sym, ap, ◌∙◌, arith, inl, inr, List, [], ◌∷◌, ◌++◌, map, length, take,
  append_assoc, append-nil, length-append, true, false, Bool-cases, Option, some,
}
use twclient.Packer.Varint.{Varint}
use twclient.Packer.RoundTrip.{take-append_self}
use twclient.Packet.Chunk.{Chunk, unpack_chunks}
use twclient.Packet.Chunk.{pack as pack_chunk}
use twclient.Packet.Chunk.RoundTrip.{wire, Sendable, length-wire, unpack_chunks-wire}
use twclient.Packet.Token.{vital_header}
use twclient.Net6.Header.{pack, size, packed_header_back}
use twclient.Packer.Reader.{ok}
use twclient.Packer.Unpack.{new_unpacker}
use twclient.Packet.Fields.{kind_of, arrived_field, AllCanSend, read_message}
use twclient.Net6.Messages.RoundTrip.{
  ClientMessage, payload_of, id_of, is_system, fields_of, payload_of-nonempty, client_message_back,
}
use twclient.Net6.Messages.{wrap_vital_chunk}
use twclient.Net6.Session.{
  Session, parsed_payload, has_security_token, append_security_token, strip_security_token,
  session_header, build_chunk_packet, payload_of_packet, parse_payload,
}

strip_appended :
    (xs token : List ℕ) → length token ≡ 4 → take (length (xs ++ token) - 4) (xs ++ token) ≡ xs
strip_appended xs token h =
    ap (λ n. take n (xs ++ token)) (omega (arith, length-append xs token))
    ∙ take-append_self xs token

abbrev pub vital_chunk : List ℕ → ℕ → Chunk
vital_chunk payload seq = record { header = vital_header payload seq; payload = payload }

wrap_wire :
    (payload : List ℕ) (seq : ℕ)
    → wrap_vital_chunk payload seq ≡ wire 4 (vital_chunk payload seq ∷ [])
unfolding wrap_vital_chunk
wrap_wire payload seq =
    ap (λ t. pack_chunk 4 (vital_header payload seq) ++ t) (sym (append-nil payload))

wrap_nonempty : (payload : List ℕ) (seq : ℕ) → 0 < length (wrap_vital_chunk payload seq)
wrap_nonempty payload seq =
    omega (arith, ap length (wrap_wire payload seq), length-wire 4 (vital_chunk payload seq) [])

wrapped_chunk_back :
    (payload : List ℕ) (seq : ℕ)
    → seq < 1024
    → length payload < 1024
    → 0 < length payload
    → unpack_chunks 4 (wrap_vital_chunk payload seq) ≡ vital_chunk payload seq ∷ []
wrapped_chunk_back payload seq small fits nonempty =
    let c = vital_chunk payload seq in
    let sendable : Sendable 4 c = record {
      fits = record { size_fits = omega arith; seq_fits = omega arith };
      size_right = refl;
      nonempty = nonempty;
    } in
    ap (unpack_chunks 4) (wrap_wire payload seq)
    ∙ unpack_chunks-wire 4 (c ∷ []) (inl refl) (sendable, tt)
    ∙ ap (λ n. record c { header = record c.header { seq = n } } ∷ []) (omega arith)

module _ {M : Type 0} (s r : Session M) where
  strip_none :
      (payload : List ℕ)
      → has_security_token r ≡ has_security_token s
      → has_security_token s ≡ false
      → strip_security_token r payload ≡ payload
  unfolding strip_security_token
  strip_none payload same f = rw (same, f) refl

  -- The token that the sender appends is the one that the receiver takes off.
  strip-append :
      (payload : List ℕ)
      → length s.security_token ≡ 4
      → has_security_token r ≡ has_security_token s
      → has_security_token s ≡ true
      → strip_security_token r (payload ++ s.security_token) ≡ payload
  unfolding strip_security_token
  strip-append payload h same t =
      rw (same, t)
        (ground (
          arith,
          strip_appended payload s.security_token h,
          length-append payload s.security_token,
        ))

  -- A packet without compression, once its header is read.
  payload_after_header :
      (huff : List ℕ → Option (List ℕ)) (n b0 b1 b2 : ℕ) (payload : List ℕ)
      → 0 < length payload
      → payload_of_packet huff r (b0 ∷ b1 ∷ b2 ∷ payload) (some (session_header s n))
        ≡ parsed_payload (session_header s n) (strip_security_token r payload)
  unfolding payload_of_packet size
  payload_after_header huff n b0 b1 b2 payload h = ground arith

  -- The header, packed, and any payload behind it.
  parse_packed :
      (huff : List ℕ → Option (List ℕ)) (n : ℕ) (payload : List ℕ)
      → s.ack < 1024
      → n < 256
      → 0 < length payload
      → parse_payload huff r (pack (session_header s n) ++ payload)
        ≡ parsed_payload (session_header s n) (strip_security_token r payload)
  unfolding parse_payload pack
  parse_packed huff n payload ack few h =
      ap (payload_of_packet huff r (pack (session_header s n) ++ payload)) (
        packed_header_back (session_header s n) payload
          (record { ack_fits = ack; chunks_fit = few; token_fits = refl }))
      ∙ payload_after_header huff n _ _ _ payload h

  -- A packet of chunks that one session builds is parsed by another to its header and these chunks,
  -- where either both or neither have a security token. The token has four bytes, the ack is below
  -- 1024, and there are fewer than 256 chunks and at least one.
  pub parse_payload-build_chunk_packet :
      (huff : List ℕ → Option (List ℕ)) (n : ℕ) (chunk_data : List ℕ)
      → s.ack < 1024
      → n < 256
      → 0 < length chunk_data
      → length s.security_token ≡ 4
      → has_security_token r ≡ has_security_token s
      → parse_payload huff r (build_chunk_packet s n chunk_data)
        ≡ parsed_payload (session_header s n) chunk_data
  unfolding build_chunk_packet append_security_token
  parse_payload-build_chunk_packet huff n chunk_data ack few h token same =
      let head = pack (session_header s n) in
      elim (Bool-cases (has_security_token s)) [
        | inl t ↦ rw t (
            ap (parse_payload huff r) (append_assoc head chunk_data s.security_token)
            ∙ parse_packed huff n (chunk_data ++ s.security_token) ack few
                (omega (arith, length-append chunk_data s.security_token))
            ∙ ap (parsed_payload (session_header s n)) (strip-append chunk_data token same t))
        | inr f ↦ rw f (
            parse_packed huff n chunk_data ack few h
            ∙ ap (parsed_payload (session_header s n)) (strip_none chunk_data same f))
      ]

  -- A message that one session sends in a vital chunk is what another reads: the packet is parsed to
  -- its header and the chunk, the chunk is split off, and its payload is read back to the id, the
  -- flag and the fields of the message.
  pub sent_message_back :
      (vi : Varint) (huff : List ℕ → Option (List ℕ)) (seq : ℕ) (m : ClientMessage)
      → s.ack < 1024
      → seq < 1024
      → length (payload_of vi m) < 1024
      → AllCanSend (fields_of m)
      → length s.security_token ≡ 4
      → has_security_token r ≡ has_security_token s
      → (parse_payload huff r (build_chunk_packet s 1 (wrap_vital_chunk (payload_of vi m) seq))
          ≡ parsed_payload (session_header s 1) (wrap_vital_chunk (payload_of vi m) seq))
        × (unpack_chunks 4 (wrap_vital_chunk (payload_of vi m) seq)
            ≡ vital_chunk (payload_of vi m) seq ∷ [])
        × ((read_message vi (map kind_of (fields_of m)) (new_unpacker (payload_of vi m))).0
            ≡ ok ((id_of m, is_system m), map arrived_field (fields_of m)))
  sent_message_back vi huff seq m ack small fits can token same =
      let payload = payload_of vi m in
      let some_bytes = payload_of-nonempty vi m in
      let nonempty = wrap_nonempty payload seq in
      (
        parse_payload-build_chunk_packet huff 1 (wrap_vital_chunk payload seq) ack (omega arith)
            (omega arith) token same,
        wrapped_chunk_back payload seq small fits some_bytes,
        ap (λ t. (read_message vi (map kind_of (fields_of m)) (new_unpacker t)).0)
              (sym (append-nil payload))
            ∙ client_message_back vi m [] can,
      )
