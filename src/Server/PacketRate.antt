-- ===== src/Server/PacketRate.antt =====
-- internal/server/ratelimit.go: the packets of an address in the current window, counted in 16 shards.
use gametunnel.Base.{
  ℕ, zero, suc, ◌+◌, ◌*◌, ◌/◌, ◌%◌, ◌^◌, ◌≡◌, refl, ap, subst, ◌∙◌, Bool, true, List, [], ◌∷◌,
  arith, leb, ltb, ◌==◌, if◌then◌else◌, Bool-cases, inl, inr,
}
use gametunnel.Net.{UdpAddr, RateKey, addr_to_rate_key}
use gametunnel.Map.{Map, lookup, insert, lookup-insert_self, lookup-insert_ne}
use gametunnel.Server.Room.{rate_key}
use gametunnel.Server.Room.Helpers.{or_zero}

abbrev pub rate_limit : ℕ
rate_limit = 500

abbrev pub rate_shard_count : ℕ
rate_shard_count = 16

-- The active and the stale counts.
pub record RateShard : Type 0 where
  pub active : Map RateKey ℕ
  pub stale : Map RateKey ℕ

-- `a ^ b` on the lowest `w` bits.
pub xor_bits : ℕ → ℕ → ℕ → ℕ
xor_bits zero a b = 0
xor_bits (suc w) a b = (a + b) % 2 + 2 * xor_bits w (a / 2) (b / 2)

-- FNV-1a on uint32.
unfoldable pub fnv : ℕ → List ℕ → ℕ
unfolding xor_bits
fnv h [] = h
fnv h (b ∷ bs) = fnv (xor_bits 32 h b * 16_777_619 % 2 ^ 32) bs

unfoldable pub shard : RateKey → ℕ
unfolding fnv
shard key = fnv 2_166_136_261 key.ip % rate_shard_count

-- The array of shards.
abbrev pub RateShards : Type 0
RateShards = ℕ → RateShard

unfoldable pub new_rate_shards : RateShards
new_rate_shards i = record { active = []; stale = [] }

unfoldable pub check_rate : UdpAddr → RateShards → RateShards × Bool
unfolding shard
check_rate addr shards =
    let key = addr_to_rate_key addr in
    let s = shards (shard key) in
    let n = or_zero (lookup key s.active) + 1 in
    let s' = record s { active = insert key n s.active } in
    ((λ i. if shard key == i then s' else shards i), leb n rate_limit)

-- One tick of rateLimitLoop: in every shard the counts are swapped, and the stale ones are cleared.
unfoldable pub rate_tick : RateShards → RateShards
rate_tick shards i = record { active = (shards i).stale; stale = [] }

pub data RateEvent : Type 0 where
  packet : UdpAddr → RateEvent
  tick : RateEvent

-- What each packet is told.
unfoldable pub answers : RateShards → List RateEvent → List Bool
unfolding check_rate rate_tick
answers shards [] = []
answers shards (packet a ∷ es) = let (shards', ok) = check_rate a shards in ok ∷ answers shards' es
answers shards (tick ∷ es) = answers (rate_tick shards) es

-- What the limiter promises: a packet passes if fewer than 500 packets of its address came since the
-- last tick; the packets since then are listed.
unfoldable pub since : RateKey → List RateKey → ℕ
since k [] = 0
since k (j ∷ js) = let n = since k js in if rate_key.beq j k then n + 1 else n

unfoldable pub promised : List RateKey → List RateEvent → List Bool
unfolding since
promised window [] = []
promised window (packet a ∷ es) =
    let k = addr_to_rate_key a in ltb (since k window) rate_limit ∷ promised (k ∷ window) es
promised window (tick ∷ es) = promised [] es

-- The counts of the shards are those of the window; nothing stale is left over.
pub record Counts (shards : RateShards) (window : List RateKey) : Type 0 where
  pub counted : (k : RateKey) → or_zero (lookup k (shards (shard k)).active) ≡ since k window
  pub cleared : (i : ℕ) → (shards i).stale ≡ []

check_rate-Counts :
    (a : UdpAddr) (shards : RateShards) (window : List RateKey)
    → Counts shards window
    → Counts (check_rate a shards).0 (addr_to_rate_key a ∷ window)
unfolding check_rate since
check_rate-Counts a shards window c = record {
  counted = λ k. elim (Bool-cases (rate_key.beq key k)) [
    | inl t ↦
        subst
          (λ j.
            or_zero (lookup j ((check_rate a shards).0 (shard j)).active) ≡ since j (key ∷ window))
          (rate_key.beq→eq key k t) hit
    | inr f ↦ rw f (elim (Bool-cases (shard key == shard k)) [
      | inl t ↦
          let same : shard key ≡ shard k = ground arith in
          rw (t, lookup-insert_ne key k n (shards (shard key)).active f, same) (c.counted k)
      | inr g ↦ rw g (c.counted k)
    ])
  ];
  cleared = λ i. elim (Bool-cases (shard key == i)) [
    | inl t ↦ rw t (c.cleared (shard key))
    | inr g ↦ rw g (c.cleared i)
  ];
}
  where
    key : RateKey
    key = addr_to_rate_key a

    n : ℕ
    n = or_zero (lookup key (shards (shard key)).active) + 1

    self : (shard key == shard key) ≡ true
    self = ground arith

    hit :
        or_zero (lookup key ((check_rate a shards).0 (shard key)).active) ≡ since key (key ∷ window)
    hit =
        rw (self, rate_key.beq_refl key, lookup-insert_self key n (shards (shard key)).active)
          (ap (λ m. m + 1) (c.counted key))

rate_tick-Counts :
    (shards : RateShards) (window : List RateKey)
    → Counts shards window
    → Counts (rate_tick shards) []
unfolding rate_tick since lookup
rate_tick-Counts shards window c = record {
  counted = λ k. ap (λ m. or_zero (lookup k m)) (c.cleared (shard k)) ∙ nothing k;
  cleared = λ i. refl;
}
  where
    nothing : (k : RateKey) → or_zero (lookup {V = ℕ} k []) ≡ 0
    nothing k = refl

Counts-answers :
    (shards : RateShards) (window : List RateKey) (es : List RateEvent)
    → Counts shards window
    → answers shards es ≡ promised window es
unfolding answers promised
Counts-answers shards window [] c = refl
Counts-answers shards window (packet a ∷ es) c =
    let k = addr_to_rate_key a in
    let rest =
      Counts-answers (check_rate a shards).0 (k ∷ window) es
        (check_rate-Counts a shards window c) in
    let same = c.counted k in
    let told : (check_rate a shards).1 ≡ ltb (since k window) rate_limit = rw same (ground arith) in
    ap (λ l. (check_rate a shards).1 ∷ l) rest ∙ ap (λ b. b ∷ promised (k ∷ window) es) told
Counts-answers shards window (tick ∷ es) c =
    Counts-answers (rate_tick shards) [] es (rate_tick-Counts shards window c)

-- However the hash spreads the addresses over the shards: the limiter answers every packet as if it
-- counted the packets of each address since the last tick, so at most 500 of an address pass between
-- two ticks.
pub answers-promised : (es : List RateEvent) → answers new_rate_shards es ≡ promised [] es
unfolding new_rate_shards since lookup
answers-promised es =
    Counts-answers new_rate_shards [] es (record { counted = λ k. refl; cleared = λ i. refl })
