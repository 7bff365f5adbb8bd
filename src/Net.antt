-- ===== src/Net.antt =====
-- net.IP and net.UDPAddr, as far as the program uses them, and internal/netutil/ipkey.go.
use gametunnel.Base.{
  Bool, false, ℕ, ◌%◌, ◌≡◌, ◌&&◌, List, [], ◌∷◌, ◌++◌, Option, none, some, arith, ◌==◌,
  if◌then◌else◌, length, take, drop, replicate, bytes_eq, length-drop,
}

-- The bytes of a net.IP: 4 or 16 of them, or none.
abbrev pub Ip : Type 0
Ip = List ℕ

-- The first twelve bytes of an IPv4 address in its 16-byte form.
abbrev pub v4_prefix : List ℕ
v4_prefix = 0 ∷ 0 ∷ 0 ∷ 0 ∷ 0 ∷ 0 ∷ 0 ∷ 0 ∷ 0 ∷ 0 ∷ 0xff ∷ 0xff ∷ []

-- net.IP.To4, net.IPv4.
unfoldable pub to4 : Ip → Option Ip
to4 ip =
    if length ip == 4
    then some ip
    else if length ip == 16 && bytes_eq (take 12 ip) v4_prefix
    then some (drop 12 ip)
    else none

unfoldable pub ipv4 : ℕ → ℕ → ℕ → ℕ → Ip
ipv4 a b c d = v4_prefix ++ (a ∷ b ∷ c ∷ d ∷ [])

pub length-to4 : (ip v : Ip) → to4 ip ≡ some v → length v ≡ 4
unfolding to4
length-to4 ip v h = ground (arith, length-drop 12 ip)

pub record IpNet : Type 0 where
  pub ip : Ip
  pub mask : List ℕ

pub record UdpAddr : Type 0 where
  pub ip : Ip
  pub port : ℕ

-- A [16]byte key; `copy(k[:], ip)` fills the array from the left.
unfoldable pub ip_key : Ip → List ℕ
ip_key ip =
    if length ip == 4 then v4_prefix ++ ip else take 16 ip ++ drop (length ip) (replicate 16 0)

pub record RateKey : Type 0 where
  pub ip : List ℕ
  pub port : ℕ  -- uint16

unfoldable pub addr_to_rate_key : UdpAddr → RateKey
unfolding ip_key
addr_to_rate_key a = record { ip = ip_key a.ip; port = a.port % 65536 }

pub to4_four : (ip : Ip) → length ip ≡ 4 → to4 ip ≡ some ip
unfolding to4
to4_four ip h = ground arith

-- addrToConnIPKey of internal/server/room.go: `copy(k[:], addr.IP.To16())`.
unfoldable pub conn_ip_key : UdpAddr → List ℕ
conn_ip_key a =
    if length a.ip == 4
    then v4_prefix ++ a.ip
    else if length a.ip == 16
    then a.ip
    else replicate 16 0

-- `net.IP.Equal`: an IPv4 address and its 16-byte form are the same.
unfoldable pub ip_equal : Ip → Ip → Bool
ip_equal x y =
    if length x == length y
    then bytes_eq x y
    else if length x == 4 && length y == 16
    then bytes_eq v4_prefix (take 12 y) && bytes_eq x (drop 12 y)
    else if length x == 16 && length y == 4
    then bytes_eq v4_prefix (take 12 x) && bytes_eq y (drop 12 x)
    else false

-- `net.IP.To16`.
unfoldable pub to16 : Ip → Option Ip
to16 ip =
    if length ip == 4 then some (v4_prefix ++ ip) else if length ip == 16 then some ip else none

-- `a.IP.Equal(b.IP) && a.Port == b.Port`
unfoldable pub same_endpoint : UdpAddr → UdpAddr → Bool
unfolding ip_equal
same_endpoint a b = ip_equal a.ip b.ip && a.port == b.port

-- `net.IP.IsLoopback`.
unfoldable pub is_loopback : Ip → Bool
unfolding to4
is_loopback ip = elim (to4 ip) [
  | some v ↦ elim v [ [] ↦ false | b ∷ bs ↦ b == 127 ]
  | none ↦ bytes_eq ip (replicate 15 0 ++ 1 ∷ [])
]
