-- ===== src/Protocol/PeerInfo.antt =====
-- internal/protocol/messages_peer.go: the list of peers. A NAT type is a byte.
pub mod Entries
pub mod RoundTrip
pub mod Safety
use gametunnel.Base.{
  ℕ, zero, suc, ◌+◌, Bool, true, false, not, ◌||◌, Option, none, some, List, [], ◌∷◌, ◌++◌, ltb,
  ◌==◌, if◌then◌else◌, length, drop, map,
}
use gametunnel.Bytes.{
  Result, ok, err, too_many_peers, fail_if, ◌>>=◌, ◌>>◌, need, u16_at, slice, put_u16,
}
use gametunnel.Net.{Ip, UdpAddr, to4}
use gametunnel.Protocol.AddrText.{Ipv6Text, append_addr_str, parse_addr}

pub record PeerInfoEntry : Type 0 where
  pub virtual_ip : Ip
  pub public_addr : Option UdpAddr
  pub username : List ℕ
  pub nat_type : ℕ

abbrev pub type_peer_info : ℕ
type_peer_info = 3

-- The bytes of `ip.To4()`, none for nil.
abbrev pub v4_bytes : Ip → List ℕ
v4_bytes ip = elim (to4 ip) [ none ↦ [] | some v ↦ v ]

-- The peers with an IPv4 address inside the network, in their order.
unfoldable pub valid_peers : List PeerInfoEntry → List PeerInfoEntry
valid_peers [] = []
valid_peers (e ∷ es) =
    let rest = valid_peers es in elim (to4 e.virtual_ip) [ none ↦ rest | some v ↦ e ∷ rest ]

unfoldable pub has_nat_info : List PeerInfoEntry → Bool
has_nat_info [] = false
has_nat_info (e ∷ es) = not (e.nat_type == 0) || has_nat_info es

module _ (v6 : Ipv6Text) where
  abbrev pub addr_text : Option UdpAddr → List ℕ
  addr_text none = []
  addr_text (some a) = append_addr_str v6 [] a

  unfoldable pub entry_bytes : PeerInfoEntry → List ℕ
  entry_bytes e =
      v4_bytes e.virtual_ip
      ++ (put_u16 (length (addr_text e.public_addr))
          ++ (addr_text e.public_addr ++ (put_u16 (length e.username) ++ e.username)))

  unfoldable pub entries_bytes : List PeerInfoEntry → List ℕ
  unfolding entry_bytes
  entries_bytes [] = []
  entries_bytes (e ∷ es) = entry_bytes e ++ entries_bytes es

  unfoldable pub marshal_peer_info : List PeerInfoEntry → List ℕ
  unfolding valid_peers has_nat_info entries_bytes
  marshal_peer_info peers =
      let valid = valid_peers peers in
      put_u16 (length valid)
      ++ (entries_bytes valid ++ (if has_nat_info valid then map (λ e. e.nat_type) valid else []))

  abbrev pub entry_of : List ℕ → List ℕ → List ℕ → PeerInfoEntry
  entry_of vip addr user = record {
    virtual_ip = vip;
    public_addr = if length addr == 0 then none else parse_addr v6 addr;
    username = user;
    nat_type = 0;
  }

  -- The loop over the entries: what they are, and the offset behind them.
  unfoldable pub unmarshal_entries : ℕ → List ℕ → ℕ → Result (List PeerInfoEntry × ℕ)
  unmarshal_entries zero buf off = ok ([], off)
  unmarshal_entries (suc n) buf off = do
    need buf (off + 6)
    vip ← slice buf off (off + 4)
    addr_len ← u16_at buf (off + 4)
    need buf (off + 6 + addr_len + 2)
    addr ← slice buf (off + 6) (off + 6 + addr_len)
    user_len ← u16_at buf (off + 6 + addr_len)
    need buf (off + 6 + addr_len + 2 + user_len)
    user ← slice buf (off + 6 + addr_len + 2) (off + 6 + addr_len + 2 + user_len)
    (entries, last) ← unmarshal_entries n buf (off + 6 + addr_len + 2 + user_len)
    ok (entry_of vip addr user ∷ entries, last)

-- `for i := 0; i < count && i < natLen; i++`, over the bytes behind the entries.
unfoldable pub with_nat_types : List PeerInfoEntry → List ℕ → List PeerInfoEntry
with_nat_types [] bs = []
with_nat_types (e ∷ es) [] = e ∷ es
with_nat_types (e ∷ es) (b ∷ bs) = record e { nat_type = b } ∷ with_nat_types es bs

unfoldable pub unmarshal_peer_info : Ipv6Text → List ℕ → Result (List PeerInfoEntry)
unfolding unmarshal_entries with_nat_types
unmarshal_peer_info v6 buf = do
  need buf 2
  count ← u16_at buf 0
  fail_if (ltb 256 count) too_many_peers
  (entries, off) ← unmarshal_entries v6 count buf 2
  ok (with_nat_types entries (drop off buf))
