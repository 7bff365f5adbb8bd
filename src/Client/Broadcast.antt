-- ===== src/Client/Broadcast.antt =====
-- rewriteBroadcast of internal/client/recv_data.go: a packet for 255.255.255.255 goes to the broadcast
-- address of the subnet, with a new header checksum. `stale` is what the buffer of the pool holds behind
-- the packet, which the sum reads where the header length of the packet exceeds the packet.
pub mod Checksum
use Prim.Native.Nat.{bit_or}
use gametunnel.Base.{
  ℕ, zero, suc, ◌+◌, ◌-◌, ◌*◌, ◌/◌, ◌%◌, Bool, true, false, ◌&&◌, ◌||◌, Option, none, some, List,
  [], ◌∷◌, ◌++◌, ltb, ◌==◌, if◌then◌else◌, length, take, drop, bytes_eq,
}
use gametunnel.Bytes.{Result, ok, err, panic, ◌>>=◌}
use gametunnel.Net.{IpNet, to4}
use gametunnel.Client.Route.{broadcast_of}

-- The big-endian words of an even number of bytes.
unfoldable pub word_sum : List ℕ → ℕ
word_sum [] = 0
word_sum (b ∷ []) = 0
word_sum (b ∷ c ∷ bs) = b * 256 + c + word_sum bs

-- `for sum>>16 != 0`. A sum of 30 words is folded in two rounds.
unfoldable pub fold_sum : ℕ → ℕ → ℕ
fold_sum zero sum = sum
fold_sum (suc fuel) sum =
    let rest = fold_sum fuel (sum % 65536 + sum / 65536) in if sum / 65536 == 0 then sum else rest

-- The low four bits of the first byte, in words of four bytes.
abbrev pub header_len_of : List ℕ → ℕ
header_len_of [] = 0
header_len_of (b ∷ bs) = b % 16 * 4

abbrev pub ip_version : List ℕ → ℕ
ip_version [] = 0
ip_version (b ∷ bs) = b / 16

-- The packet with other bytes for its checksum and its destination.
unfoldable pub with_fields : List ℕ → List ℕ → List ℕ → List ℕ
with_fields sum dst pkt = take 10 pkt ++ (sum ++ (take 4 (drop 12 pkt) ++ (dst ++ drop 20 pkt)))

-- `^uint16(sum)`
unfoldable pub header_checksum : List ℕ → List ℕ → ℕ
unfolding word_sum fold_sum
header_checksum out stale = 65535 - fold_sum 2 (word_sum (take (header_len_of out) (out ++ stale)))

unfoldable pub redirect : List ℕ → List ℕ → List ℕ → List ℕ
unfolding with_fields header_checksum
redirect stale bcast pkt =
    let c = header_checksum (with_fields (0 ∷ 0 ∷ []) bcast pkt) stale in
    with_fields ((c / 256) ∷ (c % 256) ∷ []) bcast pkt

unfoldable pub is_limited_broadcast : List ℕ → Option IpNet → Bool
is_limited_broadcast pkt none = false
is_limited_broadcast pkt (some subnet) =
    (if ltb (length pkt) 20 then false else true)
    && (ip_version pkt == 4
        && ((if length subnet.mask == 0 then false else true)
            && bytes_eq (take 4 (drop 16 pkt)) (255 ∷ 255 ∷ 255 ∷ 255 ∷ [])))

unfoldable pub rewrite_broadcast : List ℕ → List ℕ → Option IpNet → Result (List ℕ)
unfolding redirect is_limited_broadcast
rewrite_broadcast stale pkt none = ok pkt
rewrite_broadcast stale pkt (some subnet) =
    if is_limited_broadcast pkt (some subnet)
    then elim (to4 subnet.ip) [
      | none ↦ ok pkt
      | some sub ↦ broadcast_of sub subnet.mask >>= λ bcast. ok (redirect stale bcast pkt)
    ]
    else ok pkt
