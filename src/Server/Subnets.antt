-- ===== src/Server/Subnets.antt =====
-- internal/server/subnet.go: the subnet of a new room. What net.IPNet.Contains and net.IP.Equal say is
-- an argument; the list of local subnets is one that the server read at its start.
use gametunnel.Base.{
  ℕ, zero, suc, ◌+◌, ◌≤◌, ◌<◌, ◌≡◌, Bool, true, false, ◌||◌, Option, none, some, List, [], ◌∷◌, All,
  arith, ltb, leb, if◌then◌else◌, Bool-cases, Option-cases, inl, inr,
}
use gametunnel.Net.{Ip, IpNet, ipv4}
use gametunnel.Server.Room.{Subnet}

-- Of the packages net: does a network contain an address, and are two addresses the same?
pub record NetOps : Type 0 where
  pub contains : IpNet → Ip → Bool
  pub equal : Ip → Ip → Bool

-- The /24 with this third byte.
unfoldable pub candidate_at : Subnet → ℕ → IpNet
candidate_at base idx = record { ip = ipv4 base.b0 base.b1 idx 0; mask = 255 ∷ 255 ∷ 255 ∷ 0 ∷ [] }

-- The highest third byte in use: that of the base, but at least 1, or that of a room.
unfoldable pub max_index : ℕ → List Subnet → ℕ
max_index top [] = top
max_index top (s ∷ rooms) = max_index (if ltb top s.b2 then s.b2 else top) rooms

at_least_one : (n : ℕ) → n ≤ (if ltb n 1 then 1 else n)
at_least_one n = ground arith

max_index-le :
    (top m : ℕ) (rooms : List Subnet)
    → max_index top rooms ≤ m
    → (top ≤ m) × All (λ s. s.b2 ≤ m) rooms
unfolding max_index
max_index-le top m [] h = (h, tt)
max_index-le top m (s ∷ rooms) h = elim (Bool-cases (ltb top s.b2)) [
  | inl t ↦ let (l, a) = max_index-le s.b2 m rooms (rw t at h) in (ground arith, (l, a))
  | inr t ↦ let (l, a) = max_index-le top m rooms (rw t at h) in (l, (ground arith, a))
]

module _ (ops : NetOps) where
  unfoldable pub subnet_overlaps_any : IpNet → List IpNet → Bool
  subnet_overlaps_any candidate [] = false
  subnet_overlaps_any candidate (other ∷ others) =
      let rest = subnet_overlaps_any candidate others in
      if ops.equal candidate.ip other.ip
      then true
      else if ops.contains candidate other.ip || ops.contains other candidate.ip
      then true
      else rest

  -- `for nextIdx := maxIdx + 1; nextIdx <= 254; nextIdx++`
  pub scan_subnets : ℕ → Subnet → List IpNet → ℕ → Option ℕ
  unfolding subnet_overlaps_any candidate_at
  scan_subnets zero base locals idx = none
  scan_subnets (suc fuel) base locals idx =
      let rest = scan_subnets fuel base locals (idx + 1) in
      if leb idx 254
      then if subnet_overlaps_any (candidate_at base idx) locals then rest else some idx
      else none

  -- The third byte of the subnet that a new room gets: 255 rounds are enough.
  unfoldable pub allocate_subnet : Option Subnet → List Subnet → List IpNet → Option ℕ
  unfolding max_index scan_subnets
  allocate_subnet none rooms locals = none
  allocate_subnet (some base) rooms locals =
      scan_subnets 255 base locals (max_index (if ltb base.b2 1 then 1 else base.b2) rooms + 1)

  scan_subnets-some :
      (fuel : ℕ) (base : Subnet) (locals : List IpNet) (idx r : ℕ)
      → scan_subnets fuel base locals idx ≡ some r
      → (idx ≤ r)
        × (r ≤ 254)
        × (subnet_overlaps_any (candidate_at base r) locals ≡ false)
        × ((j : ℕ) → idx ≤ j → j < r → subnet_overlaps_any (candidate_at base j) locals ≡ true)
  unfolding scan_subnets
  scan_subnets-some zero base locals idx r h = absurd (let q : none ≡ some r = h in cc)
  scan_subnets-some (suc fuel) base locals idx r h = elim (Bool-cases (leb idx 254)) [
    | inr t ↦ absurd (let q : none ≡ some r = (rw t at h) in cc)
    | inl t ↦ elim (Bool-cases (subnet_overlaps_any (candidate_at base idx) locals)) [
      | inr f ↦
          let q : some idx ≡ some r = (rw (t, f) at h) in
          let e : idx ≡ r = cc in
          (omega (arith, e), ground arith, rw (← e) f, λ j l k. absurd (omega (arith, l, k, e)))
      | inl f ↦
          let (a, b, c, d) = scan_subnets-some fuel base locals (idx + 1) r (rw (t, f) at h) in
          (
            omega (arith, a),
            b,
            c,
            λ j l k. elim (Bool-cases (ltb idx j)) [
              | inl g ↦ d j (ground arith) k
              | inr g ↦ let e : idx ≡ j = ground arith in rw (← e) f
            ],
          )
    ]
  ]

  -- A subnet that the server gives to a new room lies above the base's and above those of all its
  -- rooms, so no room has it; it is at most 254, overlaps no local network, and every subnet that was
  -- passed over, between the highest in use and it, does.
  pub allocate_subnet-some :
      (base : Subnet) (rooms : List Subnet) (locals : List IpNet) (r : ℕ)
      → allocate_subnet (some base) rooms locals ≡ some r
      → (base.b2 < r)
        × All (λ s. s.b2 < r) rooms
        × (r ≤ 254)
        × (subnet_overlaps_any (candidate_at base r) locals ≡ false)
        × ((j : ℕ)
            → max_index (if ltb base.b2 1 then 1 else base.b2) rooms < j
            → j < r
            → subnet_overlaps_any (candidate_at base j) locals ≡ true)
  unfolding allocate_subnet
  allocate_subnet-some base rooms locals r h =
      let top = if ltb base.b2 1 then 1 else base.b2 in
      let (l, a) = max_index-le top (max_index top rooms) rooms (omega arith) in
      let (b, c, d, e) = scan_subnets-some 255 base locals (max_index top rooms + 1) r h in
      (
        omega (arith, at_least_one base.b2, l, b),
        below rooms a (omega (arith, b)),
        c,
        d,
        λ j g k. e j (omega (arith, g)) k,
      )
    where
      below : {m : ℕ} (ss : List Subnet) → All (λ s. s.b2 ≤ m) ss → m < r → All (λ s. s.b2 < r) ss
      below [] a b = tt
      below (s ∷ ss) a b = (omega (arith, a.0, b), below ss a.1 b)

  -- While a room has the subnet 254, there is none for a new room, whichever lower ones are free.
  pub allocate_subnet-full :
      (base : Subnet) (rooms : List Subnet) (locals : List IpNet) (s : Subnet)
      → s.b2 ≡ 254
      → allocate_subnet (some base) (s ∷ rooms) locals ≡ none
  allocate_subnet-full base rooms locals s e =
      elim (Option-cases (allocate_subnet (some base) (s ∷ rooms) locals)) [
        | inl h ↦ h
        | inr (r, h) ↦
            let (a, (b, c), d, f, g) = allocate_subnet-some base (s ∷ rooms) locals r h in
            absurd (omega (arith, b, d, e))
      ]
