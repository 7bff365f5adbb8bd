-- ===== src/Client/Peers.antt =====
-- The client's table of peers: handlePeerInfo of internal/client/recv_peer.go and cleanStalePeers of
-- internal/client/peer.go.
pub mod Table
pub mod Reach
use gametunnel.Base.{
  ℕ, ◌-◌, Bool, true, false, not, ◌&&◌, Option, none, some, List, [], ◌∷◌, ◌++◌, ltb, ◌==◌,
  if◌then◌else◌,
}
use gametunnel.Bytes.{ok, err, panic}
use gametunnel.Net.{Ip, UdpAddr, ip_key, ip_equal, to16, same_endpoint}
use gametunnel.Map.{Map, lookup, insert, bytes_key}
use gametunnel.Protocol.AddrText.{Ipv6Text}
use gametunnel.Protocol.PeerInfo.{PeerInfoEntry, unmarshal_peer_info}
use gametunnel.Client.Tunnel.{Tunnel, Peer, Session}

abbrev pub Peers : Type 0
Peers = Map (List ℕ) Peer

-- The table, and the addresses of the peers that are new or have moved.
pub record PeerUpdate : Type 0 where
  pub peers : Peers
  pub new_ips : List Ip
  pub changed_ips : List Ip

unfoldable pub mark_stale : Peers → Peers
mark_stale [] = []
mark_stale ((k, p) ∷ m) = (k, record p { stale = true }) ∷ mark_stale m

unfoldable pub sweep_stale : Peers → Peers
sweep_stale [] = []
sweep_stale ((k, p) ∷ m) = let rest = sweep_stale m in if p.stale then rest else (k, p) ∷ rest

-- The public address in its 16-byte form, where it has one.
unfoldable pub wide_addr : Option UdpAddr → Option UdpAddr
wide_addr none = none
wide_addr (some a) = elim (to16 a.ip) [
  | none ↦ some a
  | some ip ↦ some (record { ip = ip; port = a.port })
]

-- Both addresses are known, and they differ.
unfoldable pub addr_changed : Option UdpAddr → Option UdpAddr → Bool
unfolding same_endpoint
addr_changed (some a) (some b) = not (same_endpoint a b)
addr_changed _ _ = false

unfoldable pub is_own : Option Ip → Ip → Bool
is_own none ip = false
is_own (some own) ip = ip_equal ip own

unfoldable pub refresh_peer : ℕ → PeerInfoEntry → Peer → Peer
unfolding wide_addr addr_changed
refresh_peer now e p = record p {
  stale = false;
  direct_reach =
      if addr_changed p.public_addr (wide_addr e.public_addr) then false else p.direct_reach;
  public_addr = wide_addr e.public_addr;
  username = e.username;
  nat_type = e.nat_type;
  last_seen = now;
}

unfoldable pub new_peer : ℕ → PeerInfoEntry → Peer
unfolding wide_addr
new_peer now e = record {
  virtual_ip = e.virtual_ip;
  public_addr = wide_addr e.public_addr;
  username = e.username;
  nat_type = e.nat_type;
  direct_reach = false;
  last_seen = now;
  last_punch_back = 0;
  stale = false;
}

unfoldable pub update_entry : ℕ → Option Ip → PeerInfoEntry → PeerUpdate → PeerUpdate
unfolding is_own refresh_peer new_peer
update_entry now own e u =
    if is_own own e.virtual_ip then u else elim (lookup (ip_key e.virtual_ip) u.peers) [
      | some p ↦ record u {
        peers = insert (ip_key e.virtual_ip) (refresh_peer now e p) u.peers;
        changed_ips =
            if addr_changed p.public_addr (wide_addr e.public_addr)
            then u.changed_ips ++ e.virtual_ip ∷ []
            else u.changed_ips;
      }
      | none ↦ record u {
        peers = insert (ip_key e.virtual_ip) (new_peer now e) u.peers;
        new_ips = u.new_ips ++ e.virtual_ip ∷ [];
      }
    ]

unfoldable pub update_entries : ℕ → Option Ip → List PeerInfoEntry → PeerUpdate → PeerUpdate
unfolding update_entry
update_entries now own [] u = u
update_entries now own (e ∷ es) u = update_entries now own es (update_entry now own e u)

-- The next table, and the peers to punch holes for.
unfoldable pub apply_peers : ℕ → Option Ip → List PeerInfoEntry → Peers → Peers × List Ip
unfolding update_entries mark_stale sweep_stale
apply_peers now own es peers =
    let u =
      update_entries now own es
        (record { peers = mark_stale peers; new_ips = []; changed_ips = [] }) in
    (sweep_stale u.peers, u.new_ips ++ u.changed_ips)

unfoldable pub handle_peer_info : Ipv6Text → ℕ → List ℕ → Tunnel → Tunnel × List Ip
unfolding apply_peers
handle_peer_info v6 now payload t = elim (unmarshal_peer_info v6 payload) [
  | ok es ↦
      let (peers, punched) = apply_peers now t.session.virtual_ip es t.peers in
      (record t { peers = peers }, punched)
  | err e ↦ (t, [])
  | panic ↦ (t, [])
]

-- 90 seconds.
abbrev pub stale_peer_grace_period : ℕ
stale_peer_grace_period = 90_000_000_000

unfoldable pub fresh_peers : ℕ → Peers → Peers
fresh_peers now [] = []
fresh_peers now ((k, p) ∷ m) =
    let rest = fresh_peers now m in
    if not (p.last_seen == 0) && ltb stale_peer_grace_period (now - p.last_seen)
    then rest
    else (k, p) ∷ rest

unfoldable pub clean_stale_peers : ℕ → Tunnel → Tunnel
unfolding fresh_peers
clean_stale_peers now t = record t { peers = fresh_peers now t.peers }
