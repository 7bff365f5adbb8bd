-- ===== src/Protocol/PeerInfo/Safety.antt =====
-- The decoder of peer lists on any input.
use gametunnel.Base.{ℕ, zero, suc, Bool, true, false, List, ltb, arith}
use gametunnel.Bytes.{
  Result, IsSafe, IsSafe-need, IsSafe-slice, IsSafe-u16_at, IsSafe-ok, IsSafe->>=, fail_if, ◌>>◌,
  too_many_peers,
}
use gametunnel.Protocol.AddrText.{Ipv6Text}
use gametunnel.Protocol.PeerInfo.{unmarshal_entries, unmarshal_peer_info}

unmarshal_entries-IsSafe :
    (v6 : Ipv6Text) (n : ℕ) (buf : List ℕ) (off : ℕ) → IsSafe (unmarshal_entries v6 n buf off)
unfolding unmarshal_entries
unmarshal_entries-IsSafe v6 zero buf off = IsSafe-ok _
unmarshal_entries-IsSafe v6 (suc n) buf off = IsSafe-need buf _ _ λ long.
    IsSafe-slice buf _ _ _ (omega arith) (omega arith) λ vip.
      IsSafe-u16_at buf _ _ (omega arith) λ addr_len. IsSafe-need buf _ _ λ fits.
        IsSafe-slice buf _ _ _ (omega arith) (omega arith) λ addr.
          IsSafe-u16_at buf _ _ (omega arith) λ user_len. IsSafe-need buf _ _ λ whole.
            IsSafe-slice buf _ _ _ (omega arith) (omega arith)
              λ user. IsSafe->>= (unmarshal_entries-IsSafe v6 n buf _) λ rest. IsSafe-ok _

fail_if-IsSafe {ℓ} :
    {A : Type ℓ} (b : Bool) (k : Result A) → IsSafe k → IsSafe (fail_if b too_many_peers >> k)
fail_if-IsSafe true k h = λ p. cc
fail_if-IsSafe false k h = h

-- On no input does the decoder of peer lists read out of range.
pub unmarshal_peer_info-IsSafe :
    (v6 : Ipv6Text) (buf : List ℕ) → IsSafe (unmarshal_peer_info v6 buf)
unfolding unmarshal_peer_info
unmarshal_peer_info-IsSafe v6 buf = IsSafe-need buf _ _ λ long.
    IsSafe-u16_at buf 0 _ (omega arith) λ count.
      fail_if-IsSafe (ltb 256 count) _
        (IsSafe->>= (unmarshal_entries-IsSafe v6 count buf 2) λ found. IsSafe-ok _)
