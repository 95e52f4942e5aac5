-- ===== src/Packet/Token.antt =====
-- The four bytes of a `Token` of packet/packet.go, and the chunk headers that `WrapVitalChunk` and
-- `WrapChunk` of net6/messages.go and net7/messages.go make.
use twclient.Prelude.{ℕ, List, true, false, length}
use twclient.Packet.Chunk.{ChunkHeader}

abbrev pub Token : Type 0
Token = List ℕ

abbrev pub vital_header : List ℕ → ℕ → ChunkHeader
vital_header payload seq = record {
  flags = record { vital = true; resend = false };
  size = length payload;
  seq = seq;
}

abbrev pub plain_header : List ℕ → ChunkHeader
plain_header payload = record {
  flags = record { vital = false; resend = false };
  size = length payload;
  seq = 0;
}
