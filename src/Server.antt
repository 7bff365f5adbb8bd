-- ===== src/Server.antt =====
-- internal/server: rooms, their clients and the relay.
pub mod Bitmap
pub mod Room
pub mod SendQueue
pub mod PacketRate
pub mod Subnets
pub mod Rooms
pub mod Dispatch
