-- ===== src/Server/Room/Seats/Responding.antt =====
-- handleAuthResponse keeps the table of the clients, the map of the addresses and the bitmap together.
use gametunnel.Base.{
  ℕ, ◌-◌, ◌<◌, ◌≡◌, refl, sym, ◌∙◌, true, ◌&&◌, Option, none, some, List, [], ◌∷◌, arith, ltb, ◌==◌,
  if◌then◌else◌, length, Bool-cases, Option-cases, inl, inr, bytes_eq,
}
use gametunnel.Bytes.{Result, ok, err, panic}
use gametunnel.Net.{UdpAddr, RateKey, addr_to_rate_key}
use gametunnel.Map.{Map, lookup, Distinct, lookup-head, lookup-tail, bytes_key}
use gametunnel.Server.Room.{Room, Client, Ref, Env, Crypto, Output, rate_key, is_pending}
use gametunnel.Server.Room.Invariant.{CheckResult-cases}
use gametunnel.Protocol.Register.{RegisterPayload}
use gametunnel.Protocol.Auth.{AuthResponsePayload, unmarshal_auth_response}
use gametunnel.Server.Room.Helpers.{
  CheckResult, check_ok, check_room_full, check_duplicate, check_capacity_and_duplicate,
  do_register_client,
}
use gametunnel.Server.Room.Auth.{
  Found, Located, pending, mismatch, missing, locate, scan_pending, reject_response, take_pending,
  admit, by_scan_or, get_auth_key, check_response, respond_located, handle_auth_response,
  challenge_lifetime,
}
use gametunnel.Server.Room.Seats.{IsSeated}
use gametunnel.Server.Room.Seats.Moves.{store-Table, unlist-Table, list-Table, store_self}
use gametunnel.Server.Room.Seats.Seating.{true_ne_false}
use gametunnel.Server.Room.Seats.Registering.{do_register_client-IsSeated}

-- What the lookups found is an object of the room that waits for its answer.
record IsWaiting (r : Room) (p : Ref) : Type 0 where
  waits : is_pending (r.heap p) ≡ true
  allocated : p < r.next_ref

-- The result of a scan stands in the map and waits.
scan_pending-some :
    (heap : Ref → Client) (room_id username : List ℕ) (m : Map RateKey Ref) (k : RateKey) (p : Ref)
    → Distinct m
    → scan_pending heap room_id username m ≡ some (k, p)
    → (lookup k m ≡ some p) × (is_pending (heap p) ≡ true)
unfolding scan_pending
scan_pending-some heap room_id username [] k p d h = absurd (let q : none ≡ some (k, p) = h in cc)
scan_pending-some heap room_id username ((j, q) ∷ m) k p d h =
    elim (Bool-cases (
      is_pending (heap q)
      && bytes_eq (heap q).auth_room_id room_id
      && bytes_eq (heap q).username username)) [
        | inl t ↦
            let e : some (j, q) ≡ some (k, p) = (rw t at h) in
            let same_ref : q ≡ p = cc in
            let same_key : j ≡ k = cc in
            (rw (← same_ref, ← same_key) (lookup-head j q m), rw (← same_ref) (ground arith))
        | inr f ↦
            let (l, w) = scan_pending-some heap room_id username m k p d.1 (rw f at h) in
            (lookup-tail j k q p m d l, w)
      ]

abbrev IsLocated : Room → Located → Type 0
IsLocated r (pending f) = IsWaiting r f.ref
IsLocated r (mismatch p) = Unit {0}
IsLocated r missing = Unit {0}

locate-IsLocated :
    (from : UdpAddr) (resp : AuthResponsePayload) (r : Room)
    → IsSeated r
    → IsLocated r (locate (addr_to_rate_key from) resp r)
unfolding locate
locate-IsLocated from resp r v = elim (Option-cases (lookup (addr_to_rate_key from) r.addr_map)) [
  | inl e ↦ rw (e, locate) (scanned missing tt _ refl)
  | inr (p, e) ↦ elim (Bool-cases (is_pending (r.heap p))) [
    | inl t ↦
        rw (e, locate, t)
          (record { waits = t; allocated = (v.entries (addr_to_rate_key from) p e).0 })
    | inr t ↦ rw (e, locate, t) (scanned (mismatch p) tt _ refl)
  ]
]
  where
    scanned :
        (other : Located)
        → IsLocated r other
        → (found : Option (RateKey × Ref))
        → scan_pending r.heap resp.room_id resp.username r.addr_map ≡ found
        → IsLocated r (by_scan_or other found)
    scanned other h none e = h
    scanned other h (some (k, p)) e =
        let (l, w) =
          scan_pending-some r.heap resp.room_id resp.username r.addr_map k p v.addrs_distinct e in
        record { waits = w; allocated = (v.entries k p l).0 }

take_pending-IsSeated :
    (from : UdpAddr) (f : Found) (r : Room)
    → IsWaiting r f.ref
    → IsSeated r
    → IsSeated (take_pending from f r)
unfolding take_pending
take_pending-IsSeated from f r w v = elim (Bool-cases f.by_scan) [
  | inr t ↦ rw t (unlist-Table v f.key)
  | inl t ↦
      let c = record (r.heap f.ref) { public_addr = some from } in
      let moved = store-Table (unlist-Table v f.key) f.ref c (record {
        same_vip = refl;
        same_state = refl;
        same_addr = λ settled. absurd (true_ne_false (sym w.waits ∙ settled));
      }) in
      rw t (
        list-Table moved (addr_to_rate_key from) f.ref w.allocated (
          rw (store_self f.ref c r.heap)
            (λ settled. absurd (true_ne_false (sym w.waits ∙ settled)))))
]

admit-IsSeated :
    (env : Env) (from : UdpAddr) (f : Found) (r : Room)
    → IsWaiting r f.ref
    → IsSeated r
    → IsSeated (admit env from f r).0
unfolding admit
admit-IsSeated env from f r w v =
    let c = r.heap f.ref in
    let reg : RegisterPayload = record {
      room_id = c.auth_room_id;
      username = c.username;
      version = c.client_version;
    } in
    let u =
      do_register_client-IsSeated env reg from (take_pending from f r)
        (take_pending-IsSeated from f r w v) in
    elim (Option-cases (do_register_client env reg from (take_pending from f r)).1) [
      | inl e ↦ rw (e, admit) u
      | inr (vip, e) ↦ rw (e, admit) u
    ]

reject_response-IsSeated :
    (from : UdpAddr) (c : Client) (result : CheckResult) (r : Room)
    → IsSeated r
    → IsSeated (reject_response from c result r).0
unfolding reject_response
reject_response-IsSeated from c check_ok r v = v
reject_response-IsSeated from c check_room_full r v = v
reject_response-IsSeated from c check_duplicate r v = v

check_response-IsSeated :
    (crypto : Crypto) (env : Env) (resp : AuthResponsePayload) (from : UdpAddr) (f : Found)
    (r : Room)
    → IsWaiting r f.ref
    → IsSeated r
    → IsSeated (check_response crypto env resp from f r).0
unfolding check_response
check_response-IsSeated crypto env resp from f r w v =
    let c = r.heap f.ref in
    let u = unlist-Table v f.key in
    elim (Bool-cases (ltb challenge_lifetime (env.now - c.challenge_at))) [
      | inl t ↦ rw t u
      | inr t ↦ rw t (elim (Option-cases (get_auth_key crypto r c.auth_room_id)) [
        | inl e ↦ rw e u
        | inr (key, e) ↦
            rw e
              (elim (Bool-cases (
                crypto.verify_hmac key resp.hmac c.challenge resp.room_id resp.username
                  c.public_addr)) [
                    | inr bad ↦ rw bad u
                    | inl good ↦
                        rw good
                          (elim (CheckResult-cases
                            (check_capacity_and_duplicate resp.username resp.room_id r)) [
                              | inl k ↦ rw k (admit-IsSeated env from f r w v)
                              | inr (inl k) ↦
                                  rw k (reject_response-IsSeated from c check_room_full r v)
                              | inr (inr k) ↦
                                  rw k (reject_response-IsSeated from c check_duplicate r v)
                            ])
                  ])
      ])
    ]

responded-IsSeated :
    (crypto : Crypto) (env : Env) (resp : AuthResponsePayload) (from : UdpAddr) (r : Room)
    → IsSeated r
    → (l : Located) → IsLocated r l
    → IsSeated (respond_located crypto env resp from r l).0
unfolding respond_located
responded-IsSeated crypto env resp from r v missing w = v
responded-IsSeated crypto env resp from r v (mismatch p) w = unlist-Table v (addr_to_rate_key from)
responded-IsSeated crypto env resp from r v (pending f) w =
    check_response-IsSeated crypto env resp from f r w v

pub handle_auth_response-IsSeated :
    (crypto : Crypto) (env : Env) (payload : List ℕ) (from : UdpAddr) (r : Room)
    → IsSeated r
    → IsSeated (handle_auth_response crypto env payload from r).0
unfolding handle_auth_response
handle_auth_response-IsSeated crypto env payload from r v = go (unmarshal_auth_response payload)
  where
    go :
        (res : Result AuthResponsePayload)
        → IsSeated
            (elim res as (λ _. Room × List Output) [
              | ok resp ↦
                  if length resp.hmac == 32
                  then respond_located crypto env resp from r
                      (locate (addr_to_rate_key from) resp r)
                  else (r, [])
              | err e ↦ (r, [])
              | panic ↦ (r, [])
            ]).0
    go (ok resp) = elim (Bool-cases (length resp.hmac == 32)) [
      | inl t ↦
          rw t (responded-IsSeated crypto env resp from r v _ (locate-IsLocated from resp r v))
      | inr t ↦ rw t v
    ]
    go (err e) = v
    go panic = v
