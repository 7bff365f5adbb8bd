-- ===== src/Client/Backoff.antt =====
-- internal/client/reconnect.go: the pause before each attempt to reconnect. Durations are in
-- nanoseconds; the number that math/rand draws below a bound is an argument.
use gametunnel.Base.{
  ℕ, zero, suc, ◌+◌, ◌-◌, ◌*◌, ◌/◌, ◌^◌, ◌≤◌, ◌<◌, ◌≡◌, Bool, ◌&&◌, Option, none, some, arith, ltb,
  leb, if◌then◌else◌, Bool-cases, inl, inr, List, [], ◌∷◌, length,
}

abbrev pub second : ℕ
second = 1_000_000_000

abbrev pub millisecond : ℕ
millisecond = 1_000_000

pub record BackoffState : Type 0 where
  pub attempt : ℕ
  pub max_retries : ℕ  -- 0 = never stop

-- `base + jitter(max_jitter)` for a number drawn below twice the jitter; what it is subtracted from is
-- larger wherever the code calls it.
unfoldable pub jittered : (ℕ → ℕ) → ℕ → ℕ → ℕ
jittered draw base max_jitter =
    if leb max_jitter 0 then base else base + draw (max_jitter * 2) - max_jitter

unfoldable pub backoff_delay : ℕ → ℕ
backoff_delay attempt =
    let delay = 2 ^ (if ltb attempt 5 then attempt else 5) * second in
    if ltb (60 * second) delay then 60 * second else delay

-- No delay stands for -1, which ends the attempts.
unfoldable pub next_delay : (ℕ → ℕ) → Bool → BackoffState → BackoffState × Option ℕ
unfolding jittered backoff_delay
next_delay draw was_connected b =
    let b' = record b { attempt = b.attempt + 1 } in
    (
      b',
      if ltb 0 b.max_retries && ltb b.max_retries b'.attempt
          then none
          else if was_connected && leb b'.attempt 3
          then some (jittered draw (500 * millisecond) (100 * millisecond))
          else some (jittered draw (backoff_delay b'.attempt) (backoff_delay b'.attempt / 5)),
    )

pow_bounds : (m : ℕ) → 1 ≤ m → m ≤ 5 → (2 ≤ 2 ^ m) × (2 ^ m ≤ 32)
pow_bounds zero h k = absurd (omega (arith, h))
pow_bounds (suc zero) h k = (omega arith, omega arith)
pow_bounds (suc (suc zero)) h k = (omega arith, omega arith)
pow_bounds (suc (suc (suc zero))) h k = (omega arith, omega arith)
pow_bounds (suc (suc (suc (suc zero)))) h k = (omega arith, omega arith)
pow_bounds (suc (suc (suc (suc (suc zero))))) h k = (omega arith, omega arith)
pow_bounds (suc (suc (suc (suc (suc (suc m)))))) h k = absurd (omega (arith, k))

-- The exponential part: from 2 to 32 seconds, whatever the attempt.
backoff_delay-bounds :
    (n : ℕ) → 1 ≤ n → (2 * second ≤ backoff_delay n) × (backoff_delay n ≤ 32 * second)
unfolding backoff_delay
backoff_delay-bounds n h = elim (Bool-cases (ltb n 5)) [
  | inl t ↦
      let (low, high) = pow_bounds n h (ground arith) in
      rw t (ground (arith, low, high), ground (arith, low, high))
  | inr t ↦ rw t (ground arith, ground arith)
]

-- A jitter moves the delay by less than itself, or by itself downwards.
jittered-bounds :
    (draw : ℕ → ℕ) (base max_jitter : ℕ)
    → ((n : ℕ) → 0 < n → draw n < n)
    → (base - max_jitter ≤ jittered draw base max_jitter)
      × (jittered draw base max_jitter ≤ base + max_jitter)
unfolding jittered
jittered-bounds draw base max_jitter h = elim (Bool-cases (leb max_jitter 0)) [
  | inl t ↦ rw t (omega arith, omega arith)
  | inr t ↦ let l = h (max_jitter * 2) (ground arith) in rw t (omega (arith, l), omega (arith, l))
]

-- Whatever is drawn, as long as it is below its bound: a delay lies between 400 ms and 38.4 s.
pub next_delay-bounds :
    (draw : ℕ → ℕ) (was_connected : Bool) (b : BackoffState) (d : ℕ)
    → ((n : ℕ) → 0 < n → draw n < n)
    → (next_delay draw was_connected b).1 ≡ some d
    → (400 * millisecond ≤ d) × (d ≤ 38_400 * millisecond)
unfolding next_delay
next_delay-bounds draw was_connected b d h e =
    let n = b.attempt + 1 in
    let (low, high) = backoff_delay-bounds n (omega arith) in
    let (j, k) = jittered-bounds draw (backoff_delay n) (backoff_delay n / 5) h in
    let (f, g) = jittered-bounds draw (500 * millisecond) (100 * millisecond) h in
    elim (Bool-cases (ltb 0 b.max_retries && ltb b.max_retries n)) [
      | inl t ↦ absurd (let q : none ≡ some d = (rw t at e) in cc)
      | inr t ↦ elim (Bool-cases (was_connected && leb n 3)) [
        | inl w ↦
            let q : some (jittered draw (500 * millisecond) (100 * millisecond)) ≡ some d =
              (rw (t, w) at e) in
            let r : jittered draw (500 * millisecond) (100 * millisecond) ≡ d = cc in
            (omega (arith, f, r), omega (arith, g, r))
        | inr w ↦
            let q : some (jittered draw (backoff_delay n) (backoff_delay n / 5)) ≡ some d =
              (rw (t, w) at e) in
            let r : jittered draw (backoff_delay n) (backoff_delay n / 5) ≡ d = cc in
            (omega (arith, j, low, r), omega (arith, k, high, r))
      ]
    ]

-- The attempts of a client that never gets through, with what each one knows of the connection.
unfoldable pub delays : (ℕ → ℕ) → List Bool → BackoffState → List ℕ
unfolding next_delay
delays draw [] b = []
delays draw (w ∷ ws) b =
    let (b', delay) = next_delay draw w b in
    let rest = delays draw ws b' in elim delay [ none ↦ [] | some d ↦ d ∷ rest ]

-- A client with a limit on its attempts stops: from a state on it waits at most as often as the
-- limit leaves attempts.
pub delays-length :
    (draw : ℕ → ℕ) (ws : List Bool) (b : BackoffState)
    → 0 < b.max_retries
    → length (delays draw ws b) ≤ b.max_retries - b.attempt
unfolding delays
delays-length draw [] b h = omega arith
delays-length draw (w ∷ ws) b h =
    elim (Bool-cases (ltb 0 b.max_retries && ltb b.max_retries (b.attempt + 1))) [
      | inl t ↦ rw (length, delays, t) (omega arith)
      | inr t ↦
          let rest = delays-length draw ws (record b { attempt = b.attempt + 1 }) h in
          let room : b.attempt < b.max_retries = ground arith in
          rw (length, delays, t)
            (elim (Bool-cases (w && leb (b.attempt + 1) 3)) [
              | inl f ↦ rw f (omega (arith, rest, room))
              | inr f ↦ rw f (omega (arith, rest, room))
            ])
    ]
