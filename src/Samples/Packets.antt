-- ===== src/Samples/Packets.antt =====
-- Packet headers and chunks at concrete values.
use twclient.Prelude.{
  ℕ, ◌+◌, ◌≤◌, ◌≡◌, refl, arith, inl, List, [], ◌∷◌, ◌++◌, map, length, replicate, true, false,
  some,
}
use twclient.Packer.Reader.{Unpacker, ok}
use twclient.Packer.Unpack.{advance}
use twclient.Packer.RoundTrip.{Holds}
use twclient.Packet.Chunk.{ChunkFlags, ChunkHeader, Chunk, header_size}
use twclient.Packet.Chunk
use twclient.Packet.Chunk.RoundTrip.{
  Fits, AllSendable, received, arrived, wire, chunk_header_back, unpack_chunks-wire,
}
use twclient.Packet.Chunk.{unpack_chunks}
use twclient.Packet.Chunk.Agreement.{to_option, unpack_raw-unpack}
use twclient.Packer.Unpack.{new_unpacker}
use twclient.Packet.Ack.{count_vital_chunks, next_ack}
use twclient.Packet.Ack.Wire.{ack_after, onward, count_vital_chunks-wire, count_vital_chunks-onward}
use twclient.Net6.Header as Header6
use twclient.Net7.Header as Header7

abbrev vital_header : ChunkHeader
vital_header = record { flags = record { vital = true; resend = false }; size = 3; seq = 1025 }

abbrev plain_header : ChunkHeader
plain_header = record { flags = record { vital = false; resend = true }; size = 1; seq = 0 }

abbrev vital_fits : Fits 4 vital_header
vital_fits = record { size_fits = omega arith; seq_fits = omega arith }

abbrev vital_bytes : List ℕ
vital_bytes = Chunk.pack 4 vital_header ++ (1 ∷ 2 ∷ 3 ∷ [])

abbrev vital_unpacker : Unpacker
vital_unpacker = record { data_bytes = vital_bytes; idx = 0 }

chunk_header_back_example :
    (Chunk.unpack 4 vital_unpacker
      ≡ (ok (received vital_header), advance (header_size vital_header) vital_unpacker))
    × Holds (advance (header_size vital_header) vital_unpacker) (1 ∷ 2 ∷ 3 ∷ [])
chunk_header_back_example =
    chunk_header_back 4 vital_unpacker vital_header (1 ∷ 2 ∷ 3 ∷ []) (inl refl) vital_fits
      (record { inside = omega arith; left = refl })

abbrev two_chunks : List Chunk
two_chunks =
    (record { header = vital_header; payload = 1 ∷ 2 ∷ 3 ∷ [] })
    ∷ (record { header = plain_header; payload = 9 ∷ [] })
    ∷ []

abbrev two_sendable : AllSendable 4 two_chunks
two_sendable = (
  (record { fits = vital_fits; size_right = refl; nonempty = omega arith }),
  (
    (record {
      fits = record { size_fits = omega arith; seq_fits = omega arith };
      size_right = refl;
      nonempty = omega arith;
    }),
    tt,
  ),
)

unpack_chunks-wire_example : unpack_chunks 4 (wire 4 two_chunks) ≡ map arrived two_chunks
unpack_chunks-wire_example = unpack_chunks-wire 4 two_chunks (inl refl) two_sendable

count_vital_chunks-wire_example :
    count_vital_chunks (wire 4 two_chunks) 2 0 4 ≡ ack_after 2 two_chunks 0
count_vital_chunks-wire_example = count_vital_chunks-wire 4 2 two_chunks 0 (inl refl) two_sendable

count_vital_chunks-onward_example :
    (k : ℕ) × (k ≤ 2) × (count_vital_chunks (wire 4 two_chunks) 2 1023 4 ≡ onward 1023 k)
count_vital_chunks-onward_example =
    count_vital_chunks-onward (wire 4 two_chunks) 2 1023 4 (omega arith)

-- The first vital chunk is the one awaited.
counts_one : ack_after 2 two_chunks 0 ≡ 1
unfolding next_ack
counts_one = refl

abbrev token_header : Header6.Header
token_header = record {
  flags = record {
    compression = false;
    resend = true;
    connless = false;
    control = false;
    token_flag = true;
  };
  ack = 1023;
  num_chunks = 2;
  token = 1 ∷ 2 ∷ 3 ∷ 4 ∷ [];
}

packed_header_back_example :
    Header6.unpack (Header6.pack token_header ++ (5 ∷ [])) ≡ some (Header6.received token_header)
packed_header_back_example =
    Header6.packed_header_back token_header (5 ∷ [])
      (record { ack_fits = omega arith; chunks_fit = omega arith; token_fits = refl })

abbrev seven_header : Header7.Header
seven_header = record {
  flags = record { connless = false; compression = true; resend = false; control = true };
  ack = 700;
  num_chunks = 255;
  token = 1 ∷ 2 ∷ 3 ∷ 4 ∷ [];
  response_token = 9 ∷ 9 ∷ 9 ∷ 9 ∷ [];
}

abbrev seven_fits : Header7.Fits seven_header
seven_fits = record {
  ack_fits = omega arith;
  chunks_fit = omega arith;
  token_fits = refl;
  response_fits = refl;
}

plain_header_back_example :
    Header7.unpack (Header7.pack seven_header ++ (5 ∷ []))
    ≡ some (record seven_header { response_token = Header7.token_zero })
plain_header_back_example = Header7.plain_header_back seven_header (5 ∷ []) seven_fits refl

full_packet_too_long_example :
    length (Header7.pack seven_header ++ replicate 1394 0) ≡ Header7.max_packet_size + 1
full_packet_too_long_example =
    Header7.full_packet_too_long seven_header (replicate 1394 0) seven_fits refl refl

unpack_raw-unpack_example :
    Chunk.unpack_raw 4 vital_bytes ≡ to_option (Chunk.unpack 4 (new_unpacker vital_bytes)).0
unpack_raw-unpack_example = unpack_raw-unpack 4 vital_bytes
