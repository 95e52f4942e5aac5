-- ===== src/Lib.antt =====
-- A model of twclient, a client library for the Teeworlds protocols 0.6 and 0.7: from the packets of
-- a connection to the objects that a client sees, and the messages that it sends.
--
-- A packet is a header (net6/header.go, net7/header.go) and a payload of chunks (packet/chunk.go).
-- Sessions count the vital chunks to acknowledge them (packet/helpers.go) and read the messages in
-- the chunks with an unpacker (packer/packer.go). A snapshot message carries a delta to a stored
-- snapshot (packet/snap.go); its items are decoded into objects that do not depend on the protocol
-- (net6/snap_decode.go, net7/snap_decode.go). Inputs go the other way (packet/input.go).
--
-- Prelude        names and lemmas that the modules share: lists, Go integers, bit masks
-- Packer         packer/: Unpacker and the Pack and Append functions, in Reader, Unpack, Sanitize,
--                Pack and Uuid; Bounds and RoundTrip hold the theorems
-- Packet.Chunk   packet/chunk.go: ChunkHeader.Pack, Unpack, UnpackRaw and UnpackChunks
-- Packet.Ack     packet/helpers.go: CountVitalChunks
-- Packet.Snap    packet/snap.go: applyDelta; in Store and Window SnapStorage
-- Packet.Assembly  the snapshot messages of net6/reader.go, whole or in parts
-- Packet.Input   packet/input.go: the setters, NewPlayerInputFromRaw, Raw
-- Packet.Messages  packet/helpers.go: ContainsSysMsg, ContainsGameMsg, ExtractSysMsgPayload and
--                  ExtractAllSysMsgPayloads; Found has what they find
-- Packet.MapCache   packet/mapcache.go as steps that any sessions take, in any order
-- Packet.MapChange  packet/helpers.go: ParseMapChangePayload
-- Packet.Objects packet/snapobj.go: the canonical objects
-- Packet.Fields  what the peer reads of a message: a vocabulary for the builders of net6 and net7
-- Packet.Login, Packet.Capabilities, Packet.Token  packet/login.go, capabilities.go, packet.go
-- Network        network/conn.go: SendRaw, RecvContext and RecvResending, over a list of arrivals
-- Net6, Net7     net6/ and net7/: Header, SnapSize (SnapItemSize), SnapDecode (DecodeSnap)
--                and Messages (messages.go)
-- Net6.Builder   net6/builder.go
-- Net6.Session   net6/session.go: the state, sending and parsePayload; in Login Handshake, the two
--                waits and Login; in Download DownloadMap. Wire has the round trip of a packet,
--                WellFormed and Invariant the invariant, Waiting and Completes what makes a login end
-- Net6.Reader    net6/reader.go: processPayload, processEx and the acknowledgements; in Tables the
--                switches over message ids, in Names the names of UUIDs, in Loop readLoop. Onward,
--                Keeps and Invariant have what every step of it keeps, Delivers what a client gets
-- Net6.Events, Net6.Extended  net6/events.go and events_ex.go: the decoders of server messages
-- Net6.ClientInfo  net6/clientinfo.go
-- Packet.ServerEvent, Packet.EventQueue  packet/events_server.go, and SendEvent of packet/event.go
--                as up to three steps, between which a client may poll
-- Samples        the theorems at concrete inputs, and a concrete variable-length integer
--
-- A byte is a number; a Go int is a signed integer, and sums that can overflow wrap at 64 bits. A
-- method that returns an error is a function to Result or Option; a panic of applyDelta is a case
-- of Outcome, one of DecodeSnap is none, and one of NextRaw is the error slice_panic. A Go
-- map is a function or a list of pairs.
-- UnpackChunks and the scans for messages loop on fuel, which is the length of the payload: a chunk
-- takes two bytes at least, so the fuel is enough. The other loops are structural recursion.
--
-- The package varint and MD5 are parameters, the first with what its documentation says of it as
-- laws (Packer.Varint); so are Huffman decompression and random bytes. A session and its
-- connection are passed from step to step (Network.Act). The waits of a login loop on fuel, one more
-- than there are arrivals: each round takes one. The
-- loop of a reader is structural recursion on its rounds: which timers are due, and what arrives.
-- Not modelled are sockets, goroutines, the sessions and the readers of 0.7, the physics, which is
-- floating point, and the recorders.
pub mod Net6
pub mod Net7
pub mod Network
pub mod Packer
pub mod Packet
pub mod Prelude
pub mod Samples
