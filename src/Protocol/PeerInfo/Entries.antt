-- ===== src/Protocol/PeerInfo/Entries.antt =====
-- The entries of a list of peers, as they stand in its buffer.
use gametunnel.Base.{
  ℕ, suc, ◌+◌, ◌≤◌, ◌<◌, ◌^◌, ◌≡◌, refl, ap, sym, ◌∙◌, false, Option, none, some, List, [], ◌∷◌,
  ◌++◌, map, ◌==◌, if◌then◌else◌, length, drop, inl, inr, arith, All, Option-cases, length-drop,
  subst, append_assoc, length-append,
}
use gametunnel.Bytes.{ok, need_met, u16_at-drop, slice_at, drop_at, drop_next, put_u16, IsByte}
use gametunnel.Net.{Ip, UdpAddr, to4, length-to4, ipv4, v4_prefix}
use gametunnel.Protocol.AddrText.{Ipv6Text, append_addr_str, parse_addr}
use gametunnel.Protocol.AddrText.RoundTrip.{parse_addr-append_addr_str, length-append_addr_str}
use gametunnel.Protocol.PeerInfo.{
  PeerInfoEntry, v4_bytes, valid_peers, addr_text, entries_bytes, entry_of, unmarshal_entries,
}

-- A public address that the text can carry: none, or IPv4.
abbrev pub IsPlain : Option UdpAddr → Type 0
IsPlain none = Unit {0}
IsPlain (some a) =
    (b0 b1 b2 b3 : ℕ) × (to4 a.ip ≡ some (b0 ∷ b1 ∷ b2 ∷ b3 ∷ []))
    × All IsByte (b0 ∷ b1 ∷ b2 ∷ b3 ∷ [])
    × (a.port < 2 ^ 63)

pub record IsWritable (e : PeerInfoEntry) : Type 0 where
  pub user_fits : length e.username < 65536
  pub plain : IsPlain e.public_addr

-- How an address and a peer come out: four bytes inside the network, sixteen outside.
abbrev pub received_addr : Option UdpAddr → Option UdpAddr
received_addr none = none
received_addr (some a) = some (record a { ip = v4_prefix ++ v4_bytes a.ip })

abbrev pub received : PeerInfoEntry → PeerInfoEntry
received e = record e {
  virtual_ip = v4_bytes e.virtual_ip;
  public_addr = received_addr e.public_addr;
}

-- The same without its NAT type.
abbrev pub received_plain : PeerInfoEntry → PeerInfoEntry
received_plain e = record (received e) { nat_type = 0 }

abbrev pub HasV4 : PeerInfoEntry → Type 0
HasV4 e = (v : List ℕ) × (to4 e.virtual_ip ≡ some v)

valid_skip :
    (e : PeerInfoEntry) (es : List PeerInfoEntry)
    → to4 e.virtual_ip ≡ none
    → valid_peers (e ∷ es) ≡ valid_peers es
unfolding valid_peers
valid_skip e es n = rw (n, valid_peers) refl

valid_keep :
    (e : PeerInfoEntry) (es : List PeerInfoEntry) (v : List ℕ)
    → to4 e.virtual_ip ≡ some v
    → valid_peers (e ∷ es) ≡ e ∷ valid_peers es
unfolding valid_peers
valid_keep e es v h = rw (h, valid_peers) refl

pub valid_peers-HasV4 : (es : List PeerInfoEntry) → All HasV4 (valid_peers es)
valid_peers-HasV4 [] = subst (All HasV4) (sym none_valid) tt
  where
    none_valid : valid_peers [] ≡ []
    none_valid = unfold valid_peers in refl
valid_peers-HasV4 (e ∷ es) = elim (Option-cases (to4 e.virtual_ip)) [
  | inl n ↦ subst (All HasV4) (sym (valid_skip e es n)) (valid_peers-HasV4 es)
  | inr (v, h) ↦ subst (All HasV4) (sym (valid_keep e es v h)) ((v, h), valid_peers-HasV4 es)
]

v4_bytes_lem : (ip v : Ip) → to4 ip ≡ some v → v4_bytes ip ≡ v
v4_bytes_lem ip v h = ground (arith, h)

as_received :
    (a : UdpAddr) (b0 b1 b2 b3 : ℕ)
    → to4 a.ip ≡ some (b0 ∷ b1 ∷ b2 ∷ b3 ∷ [])
    → some (record { ip = ipv4 b0 b1 b2 b3; port = a.port }) ≡ received_addr (some a)
unfolding ipv4
as_received a b0 b1 b2 b3 e =
    ap (λ v. some (record { ip = v4_prefix ++ v; port = a.port })) (sym (v4_bytes_lem a.ip _ e))

-- One entry of the buffer, with what follows it.
module _ (off : ℕ) (buf vip addr user rest : List ℕ) (hv : length vip ≡ 4)
    (ha : length addr < 65536) (hu : length user < 65536) (within : off ≤ length buf)
    (at : drop off buf
      ≡ vip ++ (put_u16 (length addr) ++ (addr ++ (put_u16 (length user) ++ (user ++ rest))))) where
  at_addr_len :
      drop (off + 4) buf
      ≡ put_u16 (length addr) ++ (addr ++ (put_u16 (length user) ++ (user ++ rest)))
  at_addr_len = drop_at buf off (off + 4) vip _ (omega (arith, hv)) at

  at_addr : drop (off + 6) buf ≡ addr ++ (put_u16 (length user) ++ (user ++ rest))
  at_addr = drop_at buf (off + 4) (off + 6) (put_u16 (length addr)) _ (omega arith) at_addr_len

  at_user_len : drop (off + 6 + length addr) buf ≡ put_u16 (length user) ++ (user ++ rest)
  at_user_len = drop_next buf (off + 6) addr _ at_addr

  at_user : drop (off + 6 + length addr + 2) buf ≡ user ++ rest
  at_user = drop_next buf (off + 6 + length addr) (put_u16 (length user)) _ at_user_len

  room : off + 4 + 2 + length addr + 2 + length user + length rest ≡ length buf
  room = omega (
    arith,
    hv,
    length-drop off buf,
    ap (length {A = ℕ}) at,
    length-append vip
        (put_u16 (length addr) ++ (addr ++ (put_u16 (length user) ++ (user ++ rest)))),
    length-append addr (put_u16 (length user) ++ (user ++ rest)),
    length-append user rest,
  )

  abbrev next_off : ℕ
  next_off = off + 6 + length addr + 2 + length user

  at_next : drop next_off buf ≡ rest
  at_next = drop_next buf (off + 6 + length addr + 2) user rest at_user

  next_within : next_off ≤ length buf
  next_within = omega (arith, room)

  entry_read :
      (v6 : Ipv6Text) (n : ℕ) (es : List PeerInfoEntry) (last : ℕ)
      → unmarshal_entries v6 n buf next_off ≡ ok (es, last)
      → unmarshal_entries v6 (suc n) buf off ≡ ok (entry_of v6 vip addr user ∷ es, last)
  unfolding unmarshal_entries
  entry_read v6 n es last tail =
      rw
        (
          need_met buf (off + 6) (omega (arith, room)),
          slice_at buf off (off + 4) vip _ within (omega (arith, hv)) at,
          u16_at-drop buf (off + 4) (length addr) _ ha at_addr_len,
          need_met buf (off + 6 + length addr + 2) (omega (arith, room)),
          slice_at buf (off + 6) (off + 6 + length addr) addr _ (omega (arith, room)) refl at_addr,
          u16_at-drop buf (off + 6 + length addr) (length user) _ hu at_user_len,
          need_met buf (off + 6 + length addr + 2 + length user) (omega (arith, room)),
          slice_at buf (off + 6 + length addr + 2) (off + 6 + length addr + 2 + length user) user
              rest (omega (arith, room)) refl at_user,
          tail,
        )
        refl

module _ (v6 : Ipv6Text) where
  length-addr_text : (a : Option UdpAddr) → IsPlain a → length (addr_text v6 a) < 65536
  length-addr_text none h = omega arith
  length-addr_text (some a) (b0, b1, b2, b3, e, _, _) =
      omega (arith, (length-append_addr_str v6 a b0 b1 b2 b3 e).1)

  read_addr :
      (a : Option UdpAddr)
      → IsPlain a
      → (if length (addr_text v6 a) == 0 then none else parse_addr v6 (addr_text v6 a))
        ≡ received_addr a
  read_addr none h = refl
  read_addr (some a) (b0, b1, b2, b3, e, bytes, port) =
      let filled : (length (append_addr_str v6 [] a) == 0) ≡ false =
        ground (arith, length-append_addr_str v6 a b0 b1 b2 b3 e) in
      rw filled
        (parse_addr-append_addr_str v6 a b0 b1 b2 b3 e bytes port ∙ as_received a b0 b1 b2 b3 e)

  entries_cons :
      (e : PeerInfoEntry) (es : List PeerInfoEntry) (rest v : List ℕ)
      → to4 e.virtual_ip ≡ some v
      → entries_bytes v6 (e ∷ es) ++ rest
        ≡ v
          ++ (put_u16 (length (addr_text v6 e.public_addr))
              ++ (addr_text v6 e.public_addr
                  ++ (put_u16 (length e.username)
                      ++ (e.username ++ (entries_bytes v6 es ++ rest)))))
  unfolding entries_bytes
  entries_cons e es rest v h = rw (v4_bytes_lem e.virtual_ip v h) (simp append_assoc)

  entry_received :
      (e : PeerInfoEntry) (v : List ℕ)
      → IsPlain e.public_addr
      → to4 e.virtual_ip ≡ some v
      → entry_of v6 v (addr_text v6 e.public_addr) e.username ≡ received_plain e
  entry_received e v w h = cc (read_addr e.public_addr w, v4_bytes_lem e.virtual_ip v h)

  -- The entries of the buffer, and the offset behind them.
  pub entries_read :
      (es : List PeerInfoEntry) (buf rest : List ℕ) (off : ℕ)
      → All HasV4 es
      → All IsWritable es
      → off ≤ length buf
      → drop off buf ≡ entries_bytes v6 es ++ rest
      → (last : ℕ) × (unmarshal_entries v6 (length es) buf off ≡ ok (map received_plain es, last))
        × (drop last buf ≡ rest)
  entries_read [] buf rest off h w l at =
      (off, unfold unmarshal_entries in refl, at ∙ unfold entries_bytes in refl)
  entries_read (e ∷ es) buf rest off ((v, h), hs) (w, ws) l at =
      let hv = length-to4 _ v h in
      let ha = length-addr_text e.public_addr w.plain in
      let at' = at ∙ entries_cons e es rest v h in
      let addr = addr_text v6 e.public_addr in
      let tail = entries_bytes v6 es ++ rest in
      let (last, read, behind) =
        entries_read es buf rest (next_off off buf v addr e.username tail hv ha w.user_fits l at')
          hs ws (next_within off buf v addr e.username tail hv ha w.user_fits l at')
          (at_next off buf v addr e.username tail hv ha w.user_fits l at') in
      (
        last,
        entry_read off buf v addr e.username tail hv ha w.user_fits l at' v6 (length es)
              (map received_plain es) last read
            ∙ ap (λ x. ok (x ∷ map received_plain es, last)) (entry_received e v w.plain h),
        behind,
      )
