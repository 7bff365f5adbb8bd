-- ===== src/Client/SendLimiter.antt =====
-- internal/client/ratelimit.go: the token bucket of the client, with the steps of its callers interleaved.
-- A call takes the fast path in one step, where its exchange goes through; an exchange that fails, or
-- too few tokens, change nothing, and the call goes on to the slow path. That holds the lock, but loads
-- and stores the tokens in two steps, between which other calls can take the fast path. What a time
-- and a rate come to, which the code computes in floating point, is an argument. A call without a
-- limiter is not among the steps: it is always let through.
use gametunnel.Base.{
  ℕ, ◌+◌, ◌-◌, ◌≤◌, ◌≡◌, ◌∙◌, refl, true, false, Option, none, some, List, [], ◌∷◌, arith, ltb, leb,
  if◌then◌else◌, Bool-cases, Option-cases, inl, inr,
}

-- A slow path between its load and its store: what it has in hand, and what it has to pay.
pub record SlowCall : Type 0 where
  pub tokens : ℕ
  pub size : ℕ

pub record SendLimiter : Type 0 where
  pub rate : ℕ
  pub burst : ℕ
  pub tokens : ℕ
  pub last_time : ℕ
  pub slow : Option SlowCall  -- who holds the lock

-- The bucket starts full.
unfoldable pub new_limiter : ℕ → ℕ → ℕ → SendLimiter
new_limiter rate burst now = record {
  rate = rate;
  burst = burst;
  tokens = burst;
  last_time = now;
  slow = none;
}

-- In nanoseconds, between nothing and one second.
unfoldable pub elapsed_since : ℕ → ℕ → ℕ
elapsed_since now last = if ltb 1_000_000_000 (now - last) then 1_000_000_000 else now - last

-- An exchange that goes through.
unfoldable pub allow_fast : ℕ → SendLimiter → SendLimiter × ℕ
allow_fast size l =
    if leb size l.tokens then (record l { tokens = l.tokens - size }, size) else (l, 0)

pub data LimiterStep : Type 0 where
  fast : ℕ → LimiterStep
  slow_load : ℕ → ℕ → LimiterStep
  slow_store : LimiterStep

-- The limiter, with the bytes that it has let through, those that refills have offered, and those that
-- took the fast path while a slow path was between its load and its store.
pub record Tally : Type 0 where
  pub limiter : SendLimiter
  pub admitted : ℕ
  pub refilled : ℕ
  pub raced : ℕ

module _ (refill : ℕ → ℕ → ℕ) where
  abbrev pub offered : ℕ → SendLimiter → ℕ
  offered now l = refill (elapsed_since now l.last_time) l.rate

  -- Up to the load, with the refill; who finds the lock taken waits.
  unfoldable pub allow_slow_load : ℕ → ℕ → SendLimiter → SendLimiter
  unfolding elapsed_since
  allow_slow_load now size l = elim l.slow [
    | some c ↦ l
    | none ↦
        let tokens = l.tokens + offered now l in
        record l {
          last_time = now;
          slow =
              some
                (record { tokens = if ltb l.burst tokens then l.burst else tokens; size = size });
        }
  ]

  -- The packet is paid for, where that is possible, and the rest is stored.
  unfoldable pub allow_slow_store : SendLimiter → SendLimiter × ℕ
  allow_slow_store l = elim l.slow [
    | none ↦ (l, 0)
    | some c ↦
        if ltb c.tokens c.size
        then (record l { tokens = c.tokens; slow = none }, 0)
        else (record l { tokens = c.tokens - c.size; slow = none }, c.size)
  ]

  unfoldable pub limiter_step : LimiterStep → Tally → Tally
  unfolding allow_fast allow_slow_load allow_slow_store
  limiter_step (fast size) t =
      let (l, bytes) = allow_fast size t.limiter in
      record t {
        limiter = l;
        admitted = t.admitted + bytes;
        raced = elim t.limiter.slow [ none ↦ t.raced | some c ↦ t.raced + bytes ];
      }
  limiter_step (slow_load now size) t = record t {
    limiter = allow_slow_load now size t.limiter;
    refilled = elim t.limiter.slow [
      | none ↦ t.refilled + offered now t.limiter
      | some c ↦ t.refilled
    ];
  }
  limiter_step slow_store t =
      let (l, bytes) = allow_slow_store t.limiter in
      record t { limiter = l; admitted = t.admitted + bytes }

  unfoldable pub limiter_run : List LimiterStep → Tally → Tally
  unfolding limiter_step
  limiter_run [] t = t
  limiter_run (s ∷ ss) t = limiter_run ss (limiter_step s t)

-- What the limiter and the slow path hold together.
abbrev IsHeld : Option SlowCall → ℕ → ℕ → ℕ → Type 0
IsHeld none burst admitted allowed = Unit {0}
IsHeld (some c) burst admitted allowed = (c.tokens ≤ burst) × (admitted + c.tokens ≤ allowed)

record IsPaid (burst : ℕ) (t : Tally) : Type 0 where
  same : t.limiter.burst ≡ burst
  full : t.limiter.tokens ≤ burst
  paid : t.admitted + t.limiter.tokens ≤ burst + t.refilled + t.raced
  held : IsHeld t.limiter.slow burst t.admitted (burst + t.refilled + t.raced)

fast_yes :
    (size : ℕ) (l : SendLimiter)
    → leb size l.tokens ≡ true
    → allow_fast size l ≡ (record l { tokens = l.tokens - size }, size)
unfolding allow_fast
fast_yes size l y = rw (allow_fast, y) refl

fast_no : (size : ℕ) (l : SendLimiter) → leb size l.tokens ≡ false → allow_fast size l ≡ (l, 0)
unfolding allow_fast
fast_no size l n = rw (allow_fast, n) refl

-- What the fast path takes, and what it leaves as it is.
allow_fast-takes :
    (size : ℕ) (l : SendLimiter)
    → let (after, bytes) = allow_fast size l in
      (bytes + after.tokens ≡ l.tokens) × (after.burst ≡ l.burst) × (after.slow ≡ l.slow)
allow_fast-takes size l = elim (Bool-cases (leb size l.tokens)) [
  | inl y ↦ rw (fast_yes size l y) (ground arith, refl, refl)
  | inr n ↦ rw (fast_no size l n) (omega arith, refl, refl)
]

store_idle :
    (refill : ℕ → ℕ → ℕ) (l : SendLimiter) → l.slow ≡ none → allow_slow_store refill l ≡ (l, 0)
unfolding allow_slow_store
store_idle refill l e = simp (allow_slow_store, e) refl

store_short :
    (refill : ℕ → ℕ → ℕ) (l : SendLimiter) (c : SlowCall)
    → l.slow ≡ some c
    → ltb c.tokens c.size ≡ true
    → allow_slow_store refill l ≡ (record l { tokens = c.tokens; slow = none }, 0)
unfolding allow_slow_store
store_short refill l c e y = rw (allow_slow_store, e, y) refl

store_paid :
    (refill : ℕ → ℕ → ℕ) (l : SendLimiter) (c : SlowCall)
    → l.slow ≡ some c
    → ltb c.tokens c.size ≡ false
    → allow_slow_store refill l ≡ (record l { tokens = c.tokens - c.size; slow = none }, c.size)
unfolding allow_slow_store
store_paid refill l c e n = rw (allow_slow_store, e, n) refl

-- A refill stops at the burst.
capped :
    (burst tokens more admitted refilled raced : ℕ)
    → admitted + tokens ≤ burst + refilled + raced
    → let next = if ltb burst (tokens + more) then burst else tokens + more in
      (next ≤ burst) × (admitted + next ≤ burst + (refilled + more) + raced)
capped burst tokens more admitted refilled raced h = elim (Bool-cases (ltb burst (tokens + more))) [
  | inl y ↦ rw y (omega arith, ground arith)
  | inr n ↦ rw n (ground arith, ground arith)
]

abbrev IsPaidAt : ℕ → ℕ → ℕ → Option SlowCall → ℕ → Type 0
IsPaidAt burst admitted tokens slow allowed =
    (tokens ≤ burst) × (admitted + tokens ≤ allowed) × IsHeld slow burst admitted allowed

fast_paid :
    (burst a tokens tokens2 bytes refilled raced : ℕ) (slow : Option SlowCall)
    → bytes + tokens2 ≡ tokens
    → IsPaidAt burst a tokens slow (burst + refilled + raced)
    → IsPaidAt burst
        (a + bytes)
        tokens2
        slow
        (burst + refilled + elim slow [ none ↦ raced | some c ↦ raced + bytes ])
fast_paid burst a tokens tokens2 bytes refilled raced none e (f, p, h) =
    (omega arith, omega arith, tt)
fast_paid burst a tokens tokens2 bytes refilled raced (some c) e (f, p, h) =
    (omega arith, omega arith, (h.0, omega (arith, h.1)))

fast-IsPaid :
    (refill : ℕ → ℕ → ℕ) (burst size : ℕ) (t : Tally)
    → IsPaid burst t
    → IsPaid burst (limiter_step refill (fast size) t)
unfolding limiter_step
fast-IsPaid refill burst size t v =
    let (e, b, s) = allow_fast-takes size t.limiter in
    let (f, p, h) =
      fast_paid burst t.admitted t.limiter.tokens _ _ t.refilled t.raced t.limiter.slow e
        (v.full, v.paid, v.held) in
    record { same = b ∙ v.same; full = f; paid = p; held = rw s h }

load-IsPaid :
    (refill : ℕ → ℕ → ℕ) (burst now size : ℕ) (t : Tally)
    → IsPaid burst t
    → IsPaid burst (limiter_step refill (slow_load now size) t)
unfolding limiter_step
load-IsPaid refill burst now size t v = elim (Option-cases t.limiter.slow) [
  | inl e ↦
      rw (limiter_step, allow_slow_load, e)
        (record {
          same = v.same;
          full = v.full;
          paid = omega (arith, v.paid);
          held = rw v.same (
              capped burst t.limiter.tokens (offered refill now t.limiter) t.admitted t.refilled
                t.raced v.paid);
        })
  | inr (c, e) ↦
      rw (limiter_step, allow_slow_load, e)
        (record { same = v.same; full = v.full; paid = v.paid; held = v.held })
]

store-IsPaid :
    (refill : ℕ → ℕ → ℕ) (burst : ℕ) (t : Tally)
    → IsPaid burst t
    → IsPaid burst (limiter_step refill slow_store t)
unfolding limiter_step
store-IsPaid refill burst t v = elim (Option-cases t.limiter.slow) [
  | inl e ↦
      rw (limiter_step, store_idle refill t.limiter e)
        (record { same = v.same; full = v.full; paid = omega (arith, v.paid); held = rw e tt })
  | inr (c, e) ↦
      let h : IsHeld (some c) burst t.admitted (burst + t.refilled + t.raced) = rw e at v.held in
      elim (Bool-cases (ltb c.tokens c.size)) [
        | inl y ↦
            rw (limiter_step, store_short refill t.limiter c e y)
              (record { same = v.same; full = h.0; paid = omega (arith, h.1); held = tt })
        | inr n ↦
            rw (limiter_step, store_paid refill t.limiter c e n)
              (record {
                same = v.same;
                full = ground (arith, h.0);
                paid = ground (arith, h.1);
                held = tt;
              })
      ]
]

run-IsPaid :
    (refill : ℕ → ℕ → ℕ) (burst : ℕ) (ss : List LimiterStep) (t : Tally)
    → IsPaid burst t
    → IsPaid burst (limiter_run refill ss t)
unfolding limiter_run
run-IsPaid refill burst [] t v = v
run-IsPaid refill burst (fast size ∷ ss) t v =
    run-IsPaid refill burst ss _ (fast-IsPaid refill burst size t v)
run-IsPaid refill burst (slow_load now size ∷ ss) t v =
    run-IsPaid refill burst ss _ (load-IsPaid refill burst now size t v)
run-IsPaid refill burst (slow_store ∷ ss) t v =
    run-IsPaid refill burst ss _ (store-IsPaid refill burst t v)

abbrev pub fresh_tally : ℕ → ℕ → ℕ → Tally
fresh_tally rate burst now = record {
  limiter = new_limiter rate burst now;
  admitted = 0;
  refilled = 0;
  raced = 0;
}

-- From a full bucket on, however the steps of the calls interleave: the bytes that are let through are
-- at most the burst, what the refills of the slow paths offered, and what took the fast path while a
-- slow path was between its load and its store; and the bucket never holds more than the burst.
pub admitted-le :
    (refill : ℕ → ℕ → ℕ) (rate burst now : ℕ) (ss : List LimiterStep)
    → let t = limiter_run refill ss (fresh_tally rate burst now) in
      (t.admitted ≤ burst + t.refilled + t.raced) × (t.limiter.tokens ≤ burst)
unfolding new_limiter
admitted-le refill rate burst now ss =
    let v =
      run-IsPaid refill burst ss (fresh_tally rate burst now)
        (record { same = refl; full = omega arith; paid = omega arith; held = tt }) in
    (omega (arith, v.paid), v.full)
