-- ===== src/Protocol/Probe.antt =====
-- Pings of internal/protocol/messages.go, and the NAT probes of internal/protocol/messages_nat.go. What
-- net.ResolveUDPAddr makes of a text is an argument.
use gametunnel.Base.{
  ℕ, ◌+◌, ◌∙◌, length-append, ◌^◌, ◌<◌, ◌≡◌, refl, ap, sym, append-nil, Option, none, some, List,
  [], ◌∷◌, ◌++◌, length, ◌==◌, if◌then◌else◌, arith,
}
use gametunnel.Bytes.{
  Result, ok, byte_at-drop, u16_at-drop, slice-drop, drop_next, need_met, slice_at, ◌>>=◌, ◌>>◌,
  need, byte_at, u16_at, slice, put_u16, u16, IsSafe, IsSafe-need, IsSafe-byte_at, IsSafe-u16_at,
  IsSafe-slice, IsSafe-ok, byte_at_within,
}
use gametunnel.Net.{UdpAddr}
use gametunnel.Words.{put_le, le_of, length-put_le, le_of-put_le}
use gametunnel.Protocol.AddrText.{Ipv6Text, append_addr_str}

-- The timestamp is an int64, here by its 64 bits.
unfoldable pub marshal_ping : ℕ → List ℕ
marshal_ping timestamp = put_le 8 timestamp

unfoldable pub unmarshal_ping : List ℕ → Result ℕ
unmarshal_ping buf = do need buf 8; stamp ← slice buf 0 8; ok (le_of stamp)

unfoldable pub marshal_nat_probe : ℕ → List ℕ
marshal_nat_probe probe_id = probe_id ∷ []

unfoldable pub unmarshal_nat_probe : List ℕ → Result ℕ
unmarshal_nat_probe buf = do need buf 1; byte_at buf 0

pub record NatResponsePayload : Type 0 where
  pub probe_id : ℕ
  pub nat_type : ℕ
  pub observed_addr : Option UdpAddr
  pub alt_addr : Option UdpAddr

abbrev pub addr_bytes : Ipv6Text → Option UdpAddr → List ℕ
addr_bytes v6 none = []
addr_bytes v6 (some a) = append_addr_str v6 [] a

unfoldable pub marshal_nat_response : Ipv6Text → NatResponsePayload → List ℕ
marshal_nat_response v6 r =
    let observed = addr_bytes v6 r.observed_addr in
    let alt = addr_bytes v6 r.alt_addr in
    r.probe_id
    ∷ r.nat_type
    ∷ (put_u16 (u16 (length observed)) ++ (observed ++ (put_u16 (u16 (length alt)) ++ alt)))

abbrev pub parse_addr_bytes : (List ℕ → Option UdpAddr) → List ℕ → Option UdpAddr
parse_addr_bytes resolve text = if length text == 0 then none else resolve text

unfoldable pub unmarshal_nat_response :
    (List ℕ → Option UdpAddr) → List ℕ → Result NatResponsePayload
unmarshal_nat_response resolve buf = do
  need buf 4
  probe_id ← byte_at buf 0
  nat_type ← byte_at buf 1
  addr_len ← u16_at buf 2
  need buf (4 + addr_len + 2)
  observed ← slice buf 4 (4 + addr_len)
  alt_len ← u16_at buf (4 + addr_len)
  need buf (4 + addr_len + 2 + alt_len)
  alt ← slice buf (4 + addr_len + 2) (4 + addr_len + 2 + alt_len)
  ok (record {
    probe_id = probe_id;
    nat_type = nat_type;
    observed_addr = parse_addr_bytes resolve observed;
    alt_addr = parse_addr_bytes resolve alt;
  })

-- On no input does the decoder of pings read out of range.
pub unmarshal_ping-IsSafe : (buf : List ℕ) → IsSafe (unmarshal_ping buf)
unfolding unmarshal_ping
unmarshal_ping-IsSafe buf =
    IsSafe-need buf _ _
      λ long. IsSafe-slice buf 0 8 _ (omega arith) (omega arith) λ stamp. IsSafe-ok _

-- On no input does the decoder of probes read out of range.
pub unmarshal_nat_probe-IsSafe : (buf : List ℕ) → IsSafe (unmarshal_nat_probe buf)
unfolding unmarshal_nat_probe
unmarshal_nat_probe-IsSafe buf = IsSafe-need buf _ _ λ long. byte_at_within buf 0 (omega arith)

-- On no input does the decoder of the answers to probes read out of range.
pub unmarshal_nat_response-IsSafe :
    (resolve : List ℕ → Option UdpAddr) (buf : List ℕ) → IsSafe (unmarshal_nat_response resolve buf)
unfolding unmarshal_nat_response
unmarshal_nat_response-IsSafe resolve buf = IsSafe-need buf _ _ λ long.
    IsSafe-byte_at buf 0 _ (omega arith) λ probe_id.
      IsSafe-byte_at buf 1 _ (omega arith) λ nat_type.
        IsSafe-u16_at buf 2 _ (omega arith) λ addr_len. IsSafe-need buf _ _ λ fits.
          IsSafe-slice buf _ _ _ (omega arith) (omega arith) λ observed.
            IsSafe-u16_at buf _ _ (omega arith) λ alt_len.
              IsSafe-need buf _ _
                λ whole. IsSafe-slice buf _ _ _ (omega arith) (omega arith) λ alt. IsSafe-ok _

-- A ping is read as it was written.
pub unmarshal_ping-marshal_ping :
    (timestamp : ℕ) → timestamp < 256 ^ 8 → unmarshal_ping (marshal_ping timestamp) ≡ ok timestamp
unfolding unmarshal_ping marshal_ping
unmarshal_ping-marshal_ping timestamp h =
    let long : length (put_le 8 timestamp) ≡ 8 = length-put_le 8 timestamp in
    rw
      (
        need_met (put_le 8 timestamp) 8 (omega (arith, long)),
        slice_at (put_le 8 timestamp) 0 8 (put_le 8 timestamp) [] (omega arith)
            (omega (arith, long)) (sym (append-nil (put_le 8 timestamp))),
      )
      (ap ok (le_of-put_le 8 timestamp h))

-- A NAT probe is read as it was written.
pub unmarshal_nat_probe-marshal_nat_probe :
    (probe_id : ℕ) → unmarshal_nat_probe (marshal_nat_probe probe_id) ≡ ok probe_id
unfolding unmarshal_nat_probe marshal_nat_probe need byte_at
unmarshal_nat_probe-marshal_nat_probe probe_id = refl

-- The answer to a probe as it is written, around the two texts.
abbrev response : ℕ → ℕ → List ℕ → List ℕ → List ℕ
response probe_id nat_type o a =
    probe_id ∷ nat_type ∷ (put_u16 (length o) ++ (o ++ (put_u16 (length a) ++ a)))

read_response :
    (resolve : List ℕ → Option UdpAddr) (probe_id nat_type : ℕ) (o a : List ℕ)
    → length o < 65536
    → length a < 65536
    → unmarshal_nat_response resolve (response probe_id nat_type o a)
      ≡ ok (record {
        probe_id = probe_id;
        nat_type = nat_type;
        observed_addr = parse_addr_bytes resolve o;
        alt_addr = parse_addr_bytes resolve a;
      })
unfolding unmarshal_nat_response
read_response resolve probe_id nat_type o a ho ha =
    let buf = response probe_id nat_type o a in
    let size : length buf ≡ 4 + length o + 2 + length a =
      omega (arith, length-append o (put_u16 (length a) ++ a)) in
    let at_alt_len = drop_next buf 4 o (put_u16 (length a) ++ a) refl in
    let at_alt = drop_next buf (4 + length o) (put_u16 (length a)) a at_alt_len in
    rw
      (
        need_met buf 4 (omega (arith, size)),
        byte_at-drop buf 0 probe_id _ refl,
        byte_at-drop buf 1 nat_type _ refl,
        u16_at-drop buf 2 (length o) _ ho refl,
        need_met buf (4 + length o + 2) (omega (arith, size)),
        slice-drop buf 4 o _ (omega arith) refl,
        u16_at-drop buf (4 + length o) (length a) _ ha at_alt_len,
        need_met buf (4 + length o + 2 + length a) (omega (arith, size)),
        slice-drop buf (4 + length o + 2) a [] (omega (arith, size)) (at_alt ∙ sym (append-nil a)),
      )
      refl

-- The answer to a probe is read as it was written, where the text of each address is short and leads
-- back to it, and an address that is missing has none.
pub unmarshal_nat_response-marshal_nat_response :
    (v6 : Ipv6Text) (resolve : List ℕ → Option UdpAddr) (r : NatResponsePayload)
    → length (addr_bytes v6 r.observed_addr) < 65536
    → length (addr_bytes v6 r.alt_addr) < 65536
    → parse_addr_bytes resolve (addr_bytes v6 r.observed_addr) ≡ r.observed_addr
    → parse_addr_bytes resolve (addr_bytes v6 r.alt_addr) ≡ r.alt_addr
    → unmarshal_nat_response resolve (marshal_nat_response v6 r) ≡ ok r
unfolding marshal_nat_response
unmarshal_nat_response-marshal_nat_response v6 resolve r ho ha po pa =
    let o = addr_bytes v6 r.observed_addr in
    let a = addr_bytes v6 r.alt_addr in
    let eo : u16 (length o) ≡ length o = omega arith in
    let ea : u16 (length a) ≡ length a = omega arith in
    rw (eo, ea, read_response resolve r.probe_id r.nat_type o a ho ha, po, pa) refl
