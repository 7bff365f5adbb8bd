-- ===== src/Protocol.antt =====
-- internal/protocol: the wire format between client and server, one module per message.
pub mod Register
pub mod Kick
pub mod AssignIp
pub mod Data
pub mod Packet
pub mod Auth
pub mod Rebind
pub mod Disconnect
pub mod Safe
pub mod AddrText
pub mod PeerInfo
pub mod Probe
pub mod Messages
