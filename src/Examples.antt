-- ===== src/Examples.antt =====
-- The theorems at concrete inputs.
mod Messages
mod Packets
mod Rooms
mod Relays
mod Seats
mod Queues
mod Clients
mod Received
mod Joins
