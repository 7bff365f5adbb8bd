-- ===== src/Client/Receive/Reached.antt =====
-- How a peer comes to be reached directly.
use gametunnel.Base.{
  ℕ, ◌≡◌, refl, ap, sym, ◌∙◌, Bool, true, false, some, List, [], ◌∷◌, ◌⊎◌, inl, inr, ltb, ◌==◌,
  if◌then◌else◌, length, take, Bool-cases, Option-cases, arith,
}
use gametunnel.Net.{UdpAddr, ip_key}
use gametunnel.Map.{lookup, bytes_key, Distinct}
use gametunnel.Protocol.Packet.{Message}
use gametunnel.Client.Tunnel.{Tunnel, Peer, try_rate_limit_hole_punch}
use gametunnel.Client.Peers.{handle_peer_info}
use gametunnel.Client.Peers.Table.{reached}
use gametunnel.Client.Peers.Reach.{apply_peers-reached, reached-insert}
use gametunnel.Protocol.Data.{DataPayload, unmarshal_data}
use gametunnel.Protocol.PeerInfo.{unmarshal_peer_info, type_peer_info}
use gametunnel.Protocol.Kick.{unmarshal_kick}
use gametunnel.Protocol.Disconnect.{is_fatal, new_disconnect_error}
use gametunnel.Server.Room.Relay.{type_data}
use gametunnel.Client.Receive.{
  Outside, conn_closed, decode_received, type_hole_punch, type_ping, type_rebind_ack, type_kick,
  store_peer, decrypt_write_and_release, known_sender, direct_payload, direct_token_ok,
  handle_direct_hole_punch, handle_direct_data, handle_data_from_server, handle_hole_punch_received,
  handle_kick, handle_server_message, handle_server_data, from_server, receive_from_server,
}
use gametunnel.Client.Receive.Confirms.{
  IsSender, Confirms, same_peers, stored-Confirms, decrypt_write-peers, Confirms-then,
  of_result-Confirms,
}

module _ (out : Outside) (from : UdpAddr) where
  accepted-Confirms :
      (d : DataPayload) (t : Tunnel) (p : Peer)
      → known_sender d.src_ip from t ≡ some p
      → (accepted : Bool)
      → Confirms from t
          (if accepted
            then decrypt_write_and_release out d.bytes
                (store_peer (ip_key d.src_ip) (record p { direct_reach = true }) t)
            else (t, [])).0
  accepted-Confirms d t p s true =
      let t' = store_peer (ip_key d.src_ip) (record p { direct_reach = true }) t in
      Confirms-then from t t' (decrypt_write_and_release out d.bytes t').0
        (decrypt_write-peers out d.bytes t')
        (stored-Confirms d.src_ip from t p (record p { direct_reach = true }) s)
  accepted-Confirms d t p s false = same_peers from t t refl

  direct_payload-Confirms :
      (payload : List ℕ) (d : DataPayload) (t : Tunnel)
      → Confirms from t (direct_payload out from payload d t).0
  unfolding direct_payload
  direct_payload-Confirms payload d t = elim (Bool-cases (length d.bytes == 0)) [
    | inl z ↦ rw (direct_payload, z) (same_peers from t t refl)
    | inr z ↦ elim (Option-cases (known_sender d.src_ip from t)) [
      | inl n ↦ rw (direct_payload, z, n) (same_peers from t t refl)
      | inr (p, s) ↦
          rw (direct_payload, z, s)
            (of_result-Confirms from t _ (t, []) (direct_token_ok payload t) refl
              (accepted-Confirms d t p s))
    ]
  ]

  punch-Confirms :
      (now : ℕ) (payload : List ℕ) (t : Tunnel)
      → Confirms from t (handle_direct_hole_punch now from payload t).0
  unfolding handle_direct_hole_punch
  punch-Confirms now payload t = elim (Bool-cases (ltb (length payload) 4)) [
    | inl z ↦ rw (handle_direct_hole_punch, z) (same_peers from t t refl)
    | inr z ↦ elim (Option-cases (known_sender (take 4 payload) from t)) [
      | inl n ↦ rw (handle_direct_hole_punch, z, n) (same_peers from t t refl)
      | inr (p, s) ↦ elim (Bool-cases (try_rate_limit_hole_punch now p).1) [
        | inl a ↦
            rw (handle_direct_hole_punch, z, s, a) (stored-Confirms (take 4 payload) from t p _ s)
        | inr a ↦ rw (handle_direct_hole_punch, z, s, a) (same_peers from t t refl)
      ]
    ]
  ]

  direct-Confirms : (m : Message) (t : Tunnel) → Confirms from t (handle_direct_data out from m t).0
  unfolding handle_direct_data
  direct-Confirms m t = elim (Bool-cases (m.typ == type_hole_punch)) [
    | inl p ↦ rw (handle_direct_data, p) (punch-Confirms out.now m.payload t)
    | inr p ↦ elim (Bool-cases (m.typ == type_data)) [
      | inr q ↦ rw (handle_direct_data, p, q) (same_peers from t t refl)
      | inl q ↦
          rw (handle_direct_data, p, q)
            (of_result-Confirms from t _ (t, []) (unmarshal_data m.payload) refl
              λ d. direct_payload-Confirms m.payload d t)
    ]
  ]

  peer_info-Confirms :
      (payload : List ℕ) (t : Tunnel)
      → Distinct t.peers
      → Confirms from t (handle_peer_info out.v6 out.now payload t).0
  unfolding handle_peer_info
  peer_info-Confirms payload t d =
      of_result-Confirms from t _ (t, []) (unmarshal_peer_info out.v6 payload) refl
        λ es k h. inl (apply_peers-reached out.now t.session.virtual_ip es t.peers k d h)

  server_data-Confirms :
      (payload : List ℕ) (t : Tunnel) → Confirms from t (handle_data_from_server out payload t).0
  unfolding handle_data_from_server
  server_data-Confirms payload t =
      of_result-Confirms from t _ (t, []) (unmarshal_data payload) refl
        λ d. elim (Bool-cases (length d.bytes == 0)) [
          | inl z ↦ rw z (same_peers from t t refl)
          | inr z ↦ rw z (
              same_peers from t (decrypt_write_and_release out d.bytes t).0
                (decrypt_write-peers out d.bytes t))
        ]

  kept_reach :
      (now : ℕ) (p : Peer) → (try_rate_limit_hole_punch now p).0.direct_reach ≡ p.direct_reach
  unfolding try_rate_limit_hole_punch
  kept_reach now p = ground arith

  received-Confirms :
      (now : ℕ) (payload : List ℕ) (t : Tunnel)
      → Confirms from t (handle_hole_punch_received now payload t).0
  unfolding handle_hole_punch_received
  received-Confirms now payload t = elim (Bool-cases (ltb (length payload) 4)) [
    | inl z ↦ rw (handle_hole_punch_received, z) (same_peers from t t refl)
    | inr z ↦ elim (Option-cases (lookup (ip_key (take 4 payload)) t.peers)) [
      | inl n ↦ rw (handle_hole_punch_received, z, n) (same_peers from t t refl)
      | inr (p, s) ↦ elim (Option-cases p.public_addr) [
        | inl n ↦ rw (handle_hole_punch_received, z, s, n) (same_peers from t t refl)
        | inr (a, at) ↦ elim (Bool-cases (try_rate_limit_hole_punch now p).1) [
          | inr stop ↦ rw (handle_hole_punch_received, z, s, at, stop) (same_peers from t t refl)
          | inl go ↦
              rw (handle_hole_punch_received, z, s, at, go)
                λ k h. inl (elim (reached-insert (ip_key (take 4 payload)) k _ t.peers h) [
                  | inl (e, d) ↦
                      ap (λ k. reached (lookup k t.peers)) (sym e)
                      ∙ ap reached s
                      ∙ sym (kept_reach now p)
                      ∙ d
                  | inr old ↦ old
                ])
        ]
      ]
    ]
  ]

  kick-Confirms : (payload : List ℕ) (t : Tunnel) → Confirms from t (handle_kick payload t).0
  unfolding handle_kick
  kick-Confirms payload t =
      of_result-Confirms from t _ (t, conn_closed ∷ []) (unmarshal_kick payload) refl
        λ kick. elim (Bool-cases (is_fatal (new_disconnect_error kick))) [
          | inl f ↦ rw f (same_peers from t (record t { cancel_kicks = true }) refl)
          | inr f ↦ rw f (same_peers from t t refl)
        ]

  message-Confirms :
      (m : Message) (t : Tunnel)
      → Distinct t.peers
      → Confirms from t (handle_server_message out m t).0
  unfolding handle_server_message
  message-Confirms m t d = elim (Bool-cases (m.typ == type_peer_info)) [
    | inl a ↦ rw (handle_server_message, a) (peer_info-Confirms m.payload t d)
    | inr a ↦ elim (Bool-cases (m.typ == type_data)) [
      | inl b ↦ rw (handle_server_message, a, b) (server_data-Confirms m.payload t)
      | inr b ↦ elim (Bool-cases (m.typ == type_ping)) [
        | inl c ↦ rw (handle_server_message, a, b, c) (same_peers from t t refl)
        | inr c ↦ elim (Bool-cases (m.typ == type_hole_punch)) [
          | inl e ↦ rw (handle_server_message, a, b, c, e) (received-Confirms out.now m.payload t)
          | inr e ↦ elim (Bool-cases (m.typ == type_rebind_ack)) [
            | inl f ↦ rw (handle_server_message, a, b, c, e, f) (same_peers from t t refl)
            | inr f ↦ elim (Bool-cases (m.typ == type_kick)) [
              | inl g ↦ rw (handle_server_message, a, b, c, e, f, g) (kick-Confirms m.payload t)
              | inr g ↦ rw (handle_server_message, a, b, c, e, f, g) (same_peers from t t refl)
            ]
          ]
        ]
      ]
    ]
  ]

-- Whatever datagram comes in, a peer that counts as directly reached afterwards did so before, or is
-- one from whose public address the datagram came.
pub receive_from_server-reached :
    (out : Outside) (server from : UdpAddr) (bytes : List ℕ) (t : Tunnel) (k : List ℕ)
    → Distinct t.peers
    → reached (lookup k (receive_from_server out server from bytes t).0.peers) ≡ true
    → (reached (lookup k t.peers) ≡ true) ⊎ IsSender k from t
unfolding receive_from_server handle_server_data
receive_from_server-reached out server from bytes t k d =
    of_result-Confirms from t _ (t, []) (decode_received bytes t) refl (step t d) k
  where
    step :
        (t : Tunnel)
        → Distinct t.peers
        → (m : Message)
        → Confirms from t
            (if from_server from server m.typ
              then handle_server_data out m t
              else handle_direct_data out from m t).0
    step t d m = elim (Bool-cases (from_server from server m.typ)) [
      | inl s ↦ rw s (message-Confirms out from m (record t { last_server_response = out.now }) d)
      | inr s ↦ rw s (direct-Confirms out from m t)
    ]
