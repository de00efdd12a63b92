-- ===== src/Worker/Backoff.antt =====
-- retryDelay of internal/worker/worker.go. A time.Duration is an int64, whose doubling wraps.
use Prim.Native.Nat.{min}
use native.Mathlib.Nat.{pow-suc}
use jobsys.Base.{
  ℕ, zero, suc, ◌-◌, ◌*◌, ◌^◌, ◌≤◌, ◌<◌, ◌≡◌, refl, ap, ◌∙◌, true, if◌then◌else◌, ltb, arith,
  Bool-cases, inl, inr,
}
use jobsys.Base.Int.{ℤ, pos, ltbℤ, double64}

-- The loop, with `left` rounds to go.
unfoldable pub delay_loop : ℕ → ℤ → ℤ → ℤ
delay_loop zero d most = d
delay_loop (suc left) d most =
    let rest = delay_loop left (double64 d) most in if ltbℤ d most then rest else d

abbrev pub minℤ : ℤ → ℤ → ℤ
minℤ a b = if ltbℤ b a then b else a

-- RetryBaseDelay, RetryMaxDelay, and the attempt that failed.
unfoldable pub retry_delay : ℤ → ℤ → ℕ → ℤ
unfolding delay_loop
retry_delay base most attempt = minℤ (delay_loop (attempt - 1) base most) most

-- A delay no longer than 2^62 ns, some 146 years, is doubled without wrapping.
double64-pos : (d : ℕ) → d < 2 ^ 62 → double64 (pos d) ≡ pos (2 * d)
double64-pos d h = let k : ltb (2 * d) (2 ^ 63) ≡ true = ground arith in rw k refl

pow-pos : (k : ℕ) → 1 ≤ 2 ^ k
pow-pos zero = omega arith
pow-pos (suc k) = let h = pow-pos k in rw pow-suc (omega arith)

grows : (d left : ℕ) → 2 * d * 2 ^ left ≡ d * 2 ^ suc left
grows d left = rw pow-suc (omega arith)

pub at_least : (d k : ℕ) → d ≤ d * 2 ^ k
at_least d k = let h = pow-pos k in grind arith

delay_loop-min :
    (left d most : ℕ)
    → most ≤ 2 ^ 62
    → minℤ (delay_loop left (pos d) (pos most)) (pos most) ≡ pos (min (d * 2 ^ left) most)
unfolding delay_loop
delay_loop-min zero d most h = ground arith
delay_loop-min (suc left) d most h = elim (Bool-cases (ltb d most)) [
  | inl e ↦
      let below : d < most = ground arith in
      let twice = double64-pos d (omega arith) in
      let ih = delay_loop-min left (2 * d) most h in
      let same : 2 * d * 2 ^ left ≡ d * 2 ^ suc left = grows d left in
      rw (e, twice) (ih ∙ ap (λ n. pos (min n most)) same)
  | inr e ↦
      let above : most ≤ d = ground arith in
      let far : d ≤ d * 2 ^ suc left = at_least d (suc left) in rw e (ground arith)
]

-- The backoff after failed attempt number `attempt` is the base delay, doubled once for each earlier
-- attempt, and at most the maximum, if the maximum is at most 2^62 nanoseconds.
pub retry_delay-min :
    (base most attempt : ℕ)
    → most ≤ 2 ^ 62
    → retry_delay (pos base) (pos most) attempt ≡ pos (min (base * 2 ^ (attempt - 1)) most)
unfolding retry_delay
retry_delay-min base most attempt h = delay_loop-min (attempt - 1) base most h
