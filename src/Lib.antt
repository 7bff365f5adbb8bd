-- ===== src/Lib.antt =====
-- GameTunnel: a server that joins game clients to a virtual LAN, the wire format of its packets, and the
-- clients. This library models the parts that decide what is on the wire, who is in a room, and what a
-- client does with what it receives.
--
-- The parts and their files. `Base`, `Bytes`, `Words` and `Map` are shared: tests and lemmas on native
-- numbers and lists, byte slices with Go's out-of-range panic as a result, machine words as lists of
-- bits, and maps as association lists.
-- `Checksum` and `Utf8` stand for hash/crc32 and for the rune count of unicode/utf8.
--
--   Protocol.Packet      internal/protocol/protocol.go: the frame with its checksum, the versions
--   Protocol.Register    internal/protocol/messages.go, RegisterPayload; likewise AssignIp and Kick
--   Protocol.Probe       internal/protocol/messages.go, pings, and messages_nat.go: NAT probes
--   Protocol.Auth        internal/protocol/messages_auth.go: challenge and response
--   Protocol.Data        internal/protocol/messages_data.go: relayed packets, the buffer that is
--                        written in place and the object that is decoded into again
--   Protocol.Rebind      internal/protocol/messages_rebind.go
--   Protocol.Disconnect  internal/protocol/errors.go: the client's reading of a kick
--   Protocol.AddrText    internal/protocol/messages_peer.go: addresses as text, and what the decoder
--                        of the peer list uses of net and strconv
--   Protocol.PeerInfo    internal/protocol/messages_peer.go: the list of peers
--   Protocol.Messages    the messages, written and read
--   Protocol.Safe        the decoders on any input
--   Crypto               internal/crypto/crypto.go: encrypted packets; Window, Session and Senders
--                        are about the replay window, whole sessions and several senders
--   Client.Backoff       internal/client/reconnect.go: the pauses between attempts to reconnect
--   Client.SendLimiter   internal/client/ratelimit.go: the token bucket of the client, with
--                        the steps of concurrent callers
--   Client.Tunnel        internal/client/tunnel_types.go, tunnel.go: the state of the client program
--   Client.Route         internal/client/route.go: packets of the client and where they go; Delivered
--                        and Sealed follow them through the server
--   Client.Peers         internal/client/recv_peer.go and peer.go: the table of peers
--   Client.Broadcast     internal/client/recv_data.go: rewriteBroadcast
--   Client.Register      internal/client/register.go: the answers to a registration; Answering follows
--                        a challenge from the server to the client and back
--   Client.Receive       internal/client/recv.go, recv_data.go, recv_peer.go, holepunch.go: what a
--                        datagram does
--   Tcp                  internal/netutil/tcptransport.go: frames over TCP
--   Net                  internal/netutil/ipkey.go and the types of package net it rests on
--   Server.Bitmap        internal/server/room.go: markIPUsed, markIPFree, nextAvailableIP
--   Server.Room          internal/server/room.go, client.go: the state; its children are
--     Helpers            what the handlers call: checkRegRate, decrementIPConnCount,
--                        doRegisterClient, resolveRestoredClient (room_status.go) and others
--     Register           internal/server/room_auth.go: handleRegister, stage by stage
--     Auth               internal/server/room_auth.go: handleAuthResponse, stage by stage
--     Lifecycle          internal/server/room_lifecycle.go, and the events of a room
--     Relay              internal/server/room_relay.go: handleRelay, tryMigrateAddrMap
--     Create             NewRoom
--     Seats              the table of clients, the map of addresses and the bitmap agree: the steps
--                        that handlers are made of in Moves and Seating, then handler by handler
--     Invariant, Admission, Password, Accounting, Relaying   the limits of a room, who comes to be
--                        its client, what its counters do, and for whom it relays
--   Server.Dispatch      internal/server/server.go: handlePacket for a single room
--   Server.SendQueue     internal/server/sendqueue.go: senders and the loop as interleaved steps
--   Server.PacketRate    internal/server/ratelimit.go: the packets of an address per second
--   Server.Subnets       internal/server/subnet.go: the subnet of a new room
--   Server.Rooms         internal/server/server.go and keepalive_server.go: the rooms of a server,
--                        handleRegisterMultiRoom, handleRebind and the cleanups
--
-- How they interact: a room receives payloads, decodes them with Protocol, changes its state and
-- returns the messages that it sends as a list of outputs. A client is an object on a heap that the
-- table of clients and the map of addresses point to, since the program shares it between both. A
-- handler takes the clock and the random bytes as an argument, and key derivation and HMAC checks
-- are parameters, as is the bandwidth limiter. Each handler runs whole, as under the lock of the room.
-- A run is a list of events: registrations, responses, keepalives, relayed packets, disconnects,
-- cleanups and ticks. A server holds its rooms on a heap, as two maps of it share them, and passes
-- registrations on to them; the send queue takes what rooms and server send. The client passes a
-- datagram through Protocol to a handler, which returns the next state of the tunnel and its outputs:
-- what goes to the TUN device and the sockets, and which hole punches start. Packets built by
-- Client.Route are what Server.Dispatch and Server.Room.Relay take in.
--
-- Bounds: lengths in messages are uint16 and wrap; a word of the bitmap is a list of 64 bits and the
-- scan of its free bits has 64 rounds, one for each bit it can clear. Iterating over a Go map is
-- modelled by the order of the association list, one of the orders that Go may take.
--
-- Loops: the loop of the send queue is a state machine with one event for each receive, so it needs no
-- fuel; decimal numbers have at most 20 digits, and a header sum of 30 words is folded twice; the
-- search for a subnet has 255 rounds, one for each third byte.
--
-- Not modelled: sockets, timers, the bursts and retries of hole punches, the routing of packets to one
-- of several rooms, the ping history of a room, the probing of NATs, persistence, the status page and
-- the TUN device, which are input and output or stand beside the session logic. The
-- bandwidth limiter, which computes in floating point, and the AEAD, key derivation and HMAC of
-- third-party packages are parameters, and so are the text of IPv6 addresses in package net and what
-- a buffer of the pool holds from its last use. The checks of NewRoom on its subnet are not modelled;
-- a room has the three bytes of a /24 network.
pub mod Base
pub mod Bytes
pub mod Checksum
pub mod Utf8
pub mod Map
pub mod Words
pub mod Net
pub mod Tcp
pub mod Crypto
pub mod Protocol
pub mod Client
pub mod Server
mod Examples
