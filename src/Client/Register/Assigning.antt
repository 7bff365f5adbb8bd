-- ===== src/Client/Register/Assigning.antt =====
-- The address assignment of a room, as a client takes it.
use gametunnel.Base.{
  ℕ, ◌<◌, ◌≡◌, refl, ap, sym, ◌∙◌, true, some, List, [], ◌∷◌, length, inr, arith, bytes_eq_refl,
  append-nil,
}
use gametunnel.Bytes.{ok}
use gametunnel.Net.{to4, to4_four}
use gametunnel.Protocol.Packet.{app_version, is_compatible}
use gametunnel.Protocol.AssignIp.{
  AssignIpPayload, marshal_assign_ip, unmarshal_assign_ip, unmarshal_assign_ip-marshal_assign_ip,
}
use gametunnel.Server.Room.{Subnet}
use gametunnel.Client.Route.Agree.{IsBytes, net_of, byte-bit_and_ones, byte-bit_and_zero}
use gametunnel.Client.Tunnel.{Tunnel, CryptoState}
use gametunnel.Client.Register.{
  Handshake, mask_ip, net_contains, init_ciphers, assigned_net, fits_net, joined, assign_checked,
  handle_assign_ip,
}

-- The assignment that a room with this network sends for the address with this last byte.
abbrev pub assignment : Subnet → ℕ → List ℕ → AssignIpPayload
assignment s o token = record {
  virtual_ip = s.b0 ∷ s.b1 ∷ s.b2 ∷ o ∷ [];
  subnet_mask = 255 ∷ 255 ∷ 255 ∷ 0 ∷ [];
  server_ip = s.b0 ∷ s.b1 ∷ s.b2 ∷ 1 ∷ [];
  version = app_version;
  session_token = token;
}

same_version : is_compatible app_version app_version ≡ true
unfolding is_compatible
same_version = refl

assigned_net-assignment :
    (s : Subnet) (o : ℕ) (token : List ℕ)
    → IsBytes s
    → o < 256
    → assigned_net (assignment s o token) ≡ net_of s
unfolding assigned_net mask_ip
assigned_net-assignment s o token h byte =
    rw
      (
        byte-bit_and_ones s.b0 h.b0_byte,
        byte-bit_and_ones s.b1 h.b1_byte,
        byte-bit_and_ones s.b2 h.b2_byte,
        byte-bit_and_zero o byte,
      )
      refl

fits_net-net_of :
    (s : Subnet) (o : ℕ)
    → IsBytes s
    → o < 256
    → fits_net (net_of s) (s.b0 ∷ s.b1 ∷ s.b2 ∷ o ∷ []) ≡ true
unfolding fits_net net_contains mask_ip to4
fits_net-net_of s o h byte =
    rw
      (
        byte-bit_and_ones s.b0 h.b0_byte,
        byte-bit_and_ones s.b1 h.b1_byte,
        byte-bit_and_ones s.b2 h.b2_byte,
        byte-bit_and_zero o byte,
      )
      (bytes_eq_refl (s.b0 ∷ s.b1 ∷ s.b2 ∷ 0 ∷ []))

assign_checked-assignment :
    (hs : Handshake) (s : Subnet) (o : ℕ) (token : List ℕ) (c : CryptoState) (t : Tunnel)
    → IsBytes s
    → o < 256
    → init_ciphers hs t.session ≡ inr c
    → assign_checked hs (assignment s o token) t ≡ inr (joined (assignment s o token) c t)
unfolding assign_checked
assign_checked-assignment hs s o token c t h byte ready =
    let net = assigned_net-assignment s o token h byte in
    let own : fits_net (assigned_net (assignment s o token)) (s.b0 ∷ s.b1 ∷ s.b2 ∷ o ∷ []) ≡ true =
      ap (λ n. fits_net n (s.b0 ∷ s.b1 ∷ s.b2 ∷ o ∷ [])) net ∙ fits_net-net_of s o h byte in
    let server : fits_net (assigned_net (assignment s o token)) (s.b0 ∷ s.b1 ∷ s.b2 ∷ 1 ∷ [])
        ≡ true =
      ap (λ n. fits_net n (s.b0 ∷ s.b1 ∷ s.b2 ∷ 1 ∷ [])) net
      ∙ fits_net-net_of s 1 h (omega arith) in
    rw (same_version, own, server, ready) refl

handle_assign_ip_read :
    (hs : Handshake) (buf : List ℕ) (a : AssignIpPayload) (t : Tunnel)
    → unmarshal_assign_ip buf ≡ ok a
    → handle_assign_ip hs buf t ≡ assign_checked hs a t
unfolding handle_assign_ip
handle_assign_ip_read hs buf a t e = rw (handle_assign_ip, e) refl

-- The assignment that a room sends makes the client join, where its ciphers can be made: it is written,
-- and a client that reads it keeps the address, the token and the network of the room.
pub handle_assign_ip-assignment :
    (hs : Handshake) (s : Subnet) (o : ℕ) (token : List ℕ) (c : CryptoState) (t : Tunnel)
    → IsBytes s
    → o < 256
    → length token ≡ 16
    → init_ciphers hs t.session ≡ inr c
    → (buf : List ℕ) × (t' : Tunnel) × (marshal_assign_ip (assignment s o token) ≡ some buf)
      × (handle_assign_ip hs buf t ≡ inr t')
      × (t'.session.virtual_ip ≡ some (s.b0 ∷ s.b1 ∷ s.b2 ∷ o ∷ []))
      × (t'.session.session_token ≡ token)
      × (t'.session.cached_subnet ≡ some (net_of s))
      × (t'.crypto ≡ c)
unfolding joined
handle_assign_ip-assignment hs s o token c t h byte len ready =
    let (buf, written, read) =
      unmarshal_assign_ip-marshal_assign_ip (assignment s o token) _ _ _ [] (to4_four _ refl)
        (to4_four _ refl) (to4_four _ refl) len (omega arith) in
    let read' : unmarshal_assign_ip buf ≡ ok (assignment s o token) =
      ap unmarshal_assign_ip (sym (append-nil buf)) ∙ read in
    (
      buf,
      joined (assignment s o token) c t,
      written,
      handle_assign_ip_read hs buf (assignment s o token) t read'
          ∙ assign_checked-assignment hs s o token c t h byte ready,
      refl,
      refl,
      ap (λ n. some n) (assigned_net-assignment s o token h byte),
      refl,
    )
