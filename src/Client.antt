-- ===== src/Client.antt =====
-- internal/client: how often the client tries to reconnect and how much it sends, its peers, where its
-- packets go, and what it does with what it receives.
pub mod Backoff
pub mod SendLimiter
pub mod Tunnel
pub mod Route
pub mod Peers
pub mod Broadcast
pub mod Receive
pub mod Register
