-- ===== src/Server/Room/Seats.antt =====
-- Who holds which address of a room: the table of clients, the map of addresses and the bitmap agree.
pub mod Moves
pub mod Seating
pub mod Registering
pub mod Locked
pub mod Responding
pub mod Leaving
pub mod Moving
pub mod Running
use gametunnel.Base.{
  ℕ, suc, ◌≤◌, ◌<◌, ◌≡◌, ◌≢◌, refl, sym, ap, ◌∙◌, true, false, Option, none, some, List, arith,
}
use gametunnel.Net.{Ip, UdpAddr, RateKey, ip_key, ipv4, addr_to_rate_key}
use gametunnel.Map.{Map, lookup, bytes_key, Distinct}
use gametunnel.Server.Bitmap.{Word, is_used, IsShaped}
use gametunnel.Server.Room.{Client, Ref, Room, Subnet, is_pending, rate_key}

-- The client under a key of the table: it is registered, its address is the one of the key, lies in
-- the pool of the subnet, and is marked in the bitmap.
pub record Seat (subnet : Subnet) (bm : List Word) (c : Client) (k : List ℕ) : Type 0 where
  pub octet : ℕ
  pub low : 2 ≤ octet
  pub high : octet < 255
  pub vip : c.virtual_ip ≡ ipv4 subnet.b0 subnet.b1 subnet.b2 octet
  pub key : k ≡ ip_key c.virtual_ip
  pub used : is_used bm octet ≡ true
  pub settled : is_pending c ≡ false

-- The client under a key of the map of addresses: unless it waits for its challenge, the key is that
-- of its address, and it is the client in the table under its address inside the network.
abbrev pub Entry : Map (List ℕ) Ref → Client → RateKey → Ref → Type 0
Entry clients c k p =
    is_pending c ≡ false
    → ((a : UdpAddr) × (c.public_addr ≡ some a) × (addr_to_rate_key a ≡ k))
      × (lookup (ip_key c.virtual_ip) clients ≡ some p)

pub record Table (subnet : Subnet) (bm : List Word) (heap : Ref → Client) (next : Ref)
    (clients : Map (List ℕ) Ref) (addrs : Map RateKey Ref) : Type 0 where
  pub shaped : IsShaped bm
  pub clients_distinct : Distinct clients
  pub addrs_distinct : Distinct addrs
  pub seats :
      (k : List ℕ) (p : Ref) → lookup k clients ≡ some p → (p < next) × Seat subnet bm (heap p) k
  pub entries :
      (k : RateKey) (p : Ref) → lookup k addrs ≡ some p → (p < next) × Entry clients (heap p) k p

abbrev pub IsSeated : Room → Type 0
IsSeated r = Table r.subnet r.ip_bitmap r.heap r.next_ref r.clients r.addr_map
