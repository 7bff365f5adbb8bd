-- ===== src/Protocol/PeerInfo/RoundTrip.antt =====
-- The list of peers is read back; and what a client of a room with a password reads.
use gametunnel.Base.{
  ℕ, ◌≤◌, ◌≡◌, refl, ap, sym, ◌∙◌, true, false, List, [], ◌∷◌, ◌++◌, map, ltb, if◌then◌else◌,
  length, drop, Bool-cases, inl, inr, arith, All, append-nil, append_assoc,
}
use gametunnel.Bytes.{u16_at, ok, need_met, u16_at-drop, put_u16}
use gametunnel.Checksum.{crc32, put_u32}
use gametunnel.Protocol.Packet.{Message, encode, encode_checked, decode}
use gametunnel.Protocol.Packet.RoundTrip.{decode-encode}
use gametunnel.Protocol.AddrText.{Ipv6Text}
use gametunnel.Protocol.PeerInfo.{
  PeerInfoEntry, valid_peers, has_nat_info, entries_bytes, type_peer_info, marshal_peer_info,
  unmarshal_entries, with_nat_types, unmarshal_peer_info,
}
use gametunnel.Protocol.PeerInfo.Entries.{
  IsWritable, received, received_plain, valid_peers-HasV4, entries_read,
}

-- A NAT section for every entry.
with_nat_types-map :
    (es : List PeerInfoEntry) (rest : List ℕ)
    → with_nat_types (map received_plain es) (map (λ e. e.nat_type) es ++ rest) ≡ map received es
unfolding with_nat_types
with_nat_types-map [] rest = refl
with_nat_types-map (e ∷ es) rest = ap (◌∷◌ (received e)) (with_nat_types-map es rest)

with_nat_types-nil : (es : List PeerInfoEntry) → with_nat_types es [] ≡ es
unfolding with_nat_types
with_nat_types-nil [] = refl
with_nat_types-nil (e ∷ es) = refl

-- Without NAT types nothing is lost.
received-without_nat :
    (es : List PeerInfoEntry) → has_nat_info es ≡ false → map received_plain es ≡ map received es
unfolding has_nat_info
received-without_nat [] h = refl
received-without_nat (e ∷ es) h = ground (arith, received-without_nat es)

unmarshal_parts :
    (v6 : Ipv6Text) (buf behind : List ℕ) (count last : ℕ) (es : List PeerInfoEntry)
    → 2 ≤ length buf
    → u16_at buf 0 ≡ ok count
    → count ≤ 256
    → unmarshal_entries v6 count buf 2 ≡ ok (es, last)
    → drop last buf ≡ behind
    → unmarshal_peer_info v6 buf ≡ ok (with_nat_types es behind)
unfolding unmarshal_peer_info
unmarshal_parts v6 buf behind count last es l c few read at =
    let within : ltb 256 count ≡ false = ground arith in
    rw (need_met buf 2 l, c, within, read, at) refl

-- The bytes of the NAT types, where there are any.
abbrev nat_section : List PeerInfoEntry → List ℕ
nat_section es = if has_nat_info es then map (λ e. e.nat_type) es else []

module _ (v6 : Ipv6Text) (peers : List PeerInfoEntry) (w : All IsWritable (valid_peers peers))
    (few : length (valid_peers peers) ≤ 256) where
  abbrev valid : List PeerInfoEntry
  valid = valid_peers peers

  marshal_parts :
      (rest : List ℕ)
      → marshal_peer_info v6 peers ++ rest
        ≡ put_u16 (length valid) ++ (entries_bytes v6 valid ++ (nat_section valid ++ rest))
  unfolding marshal_peer_info
  marshal_parts rest = simp append_assoc

  -- Whatever stands behind the message is taken for NAT types.
  unmarshal_with_rest :
      (rest : List ℕ)
      → unmarshal_peer_info v6 (marshal_peer_info v6 peers ++ rest)
        ≡ ok (with_nat_types (map received_plain valid) (nat_section valid ++ rest))
  unmarshal_with_rest rest =
      let buf = put_u16 (length valid) ++ (entries_bytes v6 valid ++ (nat_section valid ++ rest)) in
      let (last, read, behind) =
        entries_read v6 valid buf (nat_section valid ++ rest) 2 (valid_peers-HasV4 peers) w
          (omega arith) refl in
      ap (unmarshal_peer_info v6) (marshal_parts rest)
      ∙ unmarshal_parts v6 buf (nat_section valid ++ rest) (length valid) last
          (map received_plain valid) (omega arith)
          (u16_at-drop buf 0 (length valid) _ (omega arith) refl) few read behind

  -- The list of peers is read back, for at most 256 peers with an IPv4 address inside the network whose
  -- names have fewer than 65536 bytes and whose public addresses are on IPv4 or unknown: those peers, in
  -- their order, with their names and NAT types, the addresses inside the network in 4 bytes and the
  -- public ones in 16.
  pub unmarshal_peer_info-marshal_peer_info :
      unmarshal_peer_info v6 (marshal_peer_info v6 peers) ≡ ok (map received (valid_peers peers))
  unmarshal_peer_info-marshal_peer_info = elim (Bool-cases (has_nat_info valid)) [
    | inl t ↦
        ap (unmarshal_peer_info v6) (sym (append-nil _))
        ∙ unmarshal_with_rest []
        ∙ ap (λ bs. ok (with_nat_types (map received_plain valid) bs)) (section_of t)
        ∙ ap ok (with_nat_types-map valid [])
    | inr f ↦
        ap (unmarshal_peer_info v6) (sym (append-nil _))
        ∙ unmarshal_with_rest []
        ∙ ap (λ bs. ok (with_nat_types (map received_plain valid) bs)) (no_section f)
        ∙ ap ok (with_nat_types-nil (map received_plain valid) ∙ received-without_nat valid f)
  ]
    where
      section_of :
          has_nat_info valid ≡ true → nat_section valid ++ [] ≡ map (λ e. e.nat_type) valid ++ []
      section_of t = rw t refl

      no_section : has_nat_info valid ≡ false → nat_section valid ++ [] ≡ []
      no_section f = rw f refl

  behind_entries : (bs : List ℕ) → has_nat_info valid ≡ false → nat_section valid ++ bs ≡ bs
  behind_entries bs f = rw f refl

  -- A client of a room with a password decodes the packet without cutting its checksum off. If no peer
  -- has a NAT type, it takes the four bytes of the checksum for the NAT types of the first four peers.
  pub unmarshal_peer_info-with_checksum :
      has_nat_info (valid_peers peers) ≡ false
      → (m : Message) × (decode (encode_checked type_peer_info (marshal_peer_info v6 peers)) ≡ ok m)
        × (unmarshal_peer_info v6 m.payload
            ≡ ok (
                with_nat_types
                  (map received (valid_peers peers))
                  (put_u32 (crc32 (encode type_peer_info (marshal_peer_info v6 peers))))))
  unfolding encode_checked encode
  unmarshal_peer_info-with_checksum f =
      let crc = put_u32 (crc32 (encode type_peer_info (marshal_peer_info v6 peers))) in
      (
        _,
        decode-encode type_peer_info (marshal_peer_info v6 peers ++ crc),
        unmarshal_with_rest crc
            ∙ ap (λ es. ok (with_nat_types es (nat_section valid ++ crc)))
                (received-without_nat valid f)
            ∙ ap (λ bs. ok (with_nat_types (map received valid) bs)) (behind_entries crc f),
      )
