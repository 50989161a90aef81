-- ===== src/Mcp/Limiter.antt =====
-- internal/mcpserver/oauth.go: the limit on registrations in a window of time. Times and the length
-- of the window are in nanoseconds; the lock makes the calls a sequence.
use gotifacts.Prelude.{
  ℕ, ◌+◌, ◌*◌, ◌-◌, ◌≤◌, ◌<◌, ◌≡◌, Bool, true, false, List, [], ◌∷◌, arith, if◌then◌else◌,
  Bool-cases, inl, inr, All, All-imp, ltb→lt, lt→ltb, ltb, leb,
}

-- rateLimiter
pub record RateLimiter : Type 0 where
  pub limit : ℕ
  pub window : ℕ
  pub count : ℕ
  pub reset : ℕ

-- newRateLimiter
unfoldable pub new_rate_limiter : ℕ → ℕ → RateLimiter
new_rate_limiter limit window = record { limit = limit; window = window; count = 0; reset = 0 }

-- rateLimiter.allow, at the time `now`
unfoldable pub allow : RateLimiter → ℕ → RateLimiter × Bool
allow rl now =
    let rl' = if ltb rl.reset now then record rl { count = 0; reset = now + rl.window } else rl in
    if leb rl'.limit rl'.count then (rl', false) else (record rl' { count = rl'.count + 1 }, true)

-- How many of the calls at some times are let through.
unfoldable pub allowed : RateLimiter → List ℕ → ℕ
allowed rl [] = 0
allowed rl (now ∷ times) = let (rl', ok) = allow rl now in (if ok then 1 else 0) + allowed rl' times

-- While the window lasts, what is let through fits into what is left of the limit.
allowed-inside :
    (rl : RateLimiter) (times : List ℕ)
    → All (λ now. now ≤ rl.reset) times
    → allowed rl times ≤ rl.limit - rl.count
unfolding allowed allow
allowed-inside rl [] h = omega arith
allowed-inside rl (now ∷ times) (l, h) =
    let inside : ltb rl.reset now ≡ false = ground arith in
    elim (Bool-cases (leb rl.limit rl.count)) [
      | inl e ↦ rw (inside, e) (omega (arith, allowed-inside rl times h))
      | inr e ↦
          let ih = allowed-inside (record rl { count = rl.count + 1 }) times h in
          let room : rl.count < rl.limit = ground arith in rw (inside, e) (omega arith)
    ]

-- The first call behind the end of the window opens one that all later calls fall into.
allowed-outside :
    (rl : RateLimiter) (now : ℕ) (times : List ℕ)
    → rl.reset < now
    → All (λ later. later ≤ now + rl.window) times
    → allowed rl (now ∷ times) ≤ rl.limit
unfolding allowed allow
allowed-outside rl now times l h =
    let outside : ltb rl.reset now ≡ true = lt→ltb rl.reset now l in
    let opened = record rl { count = 0; reset = now + rl.window } in
    elim (Bool-cases (leb rl.limit 0)) [
      | inl e ↦ let ih = allowed-inside opened times h in rw (outside, e) (omega arith)
      | inr e ↦
          let ih = allowed-inside (record opened { count = 1 }) times h in
          let room : 0 < rl.limit = ground arith in rw (outside, e) (omega arith)
    ]

allowed_twice :
    (rl : RateLimiter) (from : ℕ) (times : List ℕ)
    → All (λ now. (from ≤ now) × (now ≤ from + rl.window)) times
    → allowed rl times ≤ rl.limit - rl.count + rl.limit
unfolding allowed allow
allowed_twice rl from [] h = omega arith
allowed_twice rl from (now ∷ times) ((a, b), h) = elim (Bool-cases (ltb rl.reset now)) [
  | inl e ↦
      let late =
        All-imp (λ x (p : (from ≤ x) × (x ≤ from + rl.window)). (let q = p.1 in omega arith)) times
          h in
      let all : allowed rl (now ∷ times) ≤ rl.limit =
        allowed-outside rl now times (ltb→lt rl.reset now e) late in
      omega arith
  | inr e ↦ elim (Bool-cases (leb rl.limit rl.count)) [
    | inl f ↦ rw (e, f) (omega (arith, allowed_twice rl from times h))
    | inr f ↦
        let ih = allowed_twice (record rl { count = rl.count + 1 }) from times h in
        let room : rl.count < rl.limit = ground arith in rw (e, f) (omega arith)
  ]
]

-- Of the calls within any stretch of time that is no longer than the window, whatever came before,
-- at most twice the limit are let through.
pub allowed_bounded :
    (rl : RateLimiter) (from : ℕ) (times : List ℕ)
    → All (λ now. (from ≤ now) × (now ≤ from + rl.window)) times
    → allowed rl times ≤ 2 * rl.limit
allowed_bounded rl from times h = omega (arith, allowed_twice rl from times h)
