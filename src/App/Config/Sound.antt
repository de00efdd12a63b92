-- ===== src/App/Config/Sound.antt =====
-- What the settings promise that a worker starts with.
use Prim.Native.Nat.{min}
use jobsys.Base.{
  ℕ, zero, suc, ◌+◌, ◌*◌, ◌^◌, ◌-◌, ◌≤◌, ◌<◌, ◌≡◌, refl, ap, ◌%◌, String, true, false, ◌||◌, Result,
  ok, err, ◌>>=◌, ltb, Bool-cases, inl, inr, arith,
}
use jobsys.Base.Int.{ℤ, pos, negsuc, ltbℤ, triple64}
use jobsys.App.Config.{
  Settings, Host, check_settings, read_settings, load_config, too_few, bad_delays, stale_too_soon,
}
use jobsys.Worker.Backoff.{retry_delay, retry_delay-min, at_least}

record IsChecked (host : Host) (s : Settings) : Type 0 where
  enough : too_few host s ≡ false
  ordered : bad_delays host s ≡ false
  patient : stale_too_soon host s ≡ false

bind-IsChecked :
    {A : Type 0} (host : Host) (r : Result String A) (f : A → Result String Settings) (s : Settings)
    → ((a : A) → f a ≡ ok s → IsChecked host s)
    → (r >>= f) ≡ ok s
    → IsChecked host s
bind-IsChecked host (ok a) f s h e = h a e
bind-IsChecked host (err x) f s h e = cc

check_settings-IsChecked :
    (host : Host) (s t : Settings) → check_settings host s ≡ ok t → IsChecked host t
unfolding check_settings
check_settings-IsChecked host s t h = elim (Bool-cases (too_few host s)) [
  | inl y ↦ let h' = rw (check_settings, y) at h in cc
  | inr few ↦ elim (Bool-cases (bad_delays host s)) [
    | inl y ↦ let h' = rw (check_settings, few, y) at h in cc
    | inr bad ↦ elim (Bool-cases (stale_too_soon host s)) [
      | inl y ↦ let h' = rw (check_settings, few, bad, y) at h in cc
      | inr soon ↦
          let h' = rw (check_settings, few, bad, soon) at h in
          let same : s ≡ t = cc in
          let passed : IsChecked host s = record { enough = few; ordered = bad; patient = soon } in
          rw same at passed
    ]
  ]
]

load_config-IsChecked : (host : Host) (s : Settings) → load_config host ≡ ok s → IsChecked host s
unfolding load_config
load_config-IsChecked host s e =
    bind-IsChecked host (read_settings host) (check_settings host) s
      (λ a. check_settings-IsChecked host a s) e

positive : (z : ℤ) → ltbℤ z (pos 1) ≡ false → (n : ℕ) × (z ≡ pos (n + 1))
positive (pos zero) h = absurd (ground arith)
positive (pos (suc n)) h = (n, ap pos (omega arith))
positive (negsuc n) h = cc

delays :
    (b m : ℤ)
    → ltbℤ b (pos 1) || ltbℤ m b ≡ false
    → (base : ℕ) × (most : ℕ) × (b ≡ pos base) × (m ≡ pos most) × (1 ≤ base) × (base ≤ most)
delays (pos b) (pos m) h = (b, m, refl, refl, ground arith, ground arith)
delays (pos b) (negsuc m) h = absurd (ground arith)
delays (negsuc b) m h = cc

heartbeats :
    (stale : ℤ) (h : ℕ)
    → h < 2 ^ 61
    → ltbℤ stale (triple64 (pos h)) ≡ false
    → (k : ℕ) × (stale ≡ pos k) × (3 * h ≤ k)
heartbeats stale h small fits = compared stale (rw whole at fits)
  where
    whole : triple64 (pos h) ≡ pos (3 * h)
    whole =
        let low : (3 * h) % 2 ^ 64 ≡ 3 * h = omega arith in
        let k : ltb (3 * h) (2 ^ 63) ≡ true = ground arith in rw (low, k) refl

    compared : (z : ℤ) → ltbℤ z (pos (3 * h)) ≡ false → (k : ℕ) × (z ≡ pos k) × (3 * h ≤ k)
    compared (pos k) f = (k, refl, ground arith)
    compared (negsuc k) f = cc

between :
    (base most attempt : ℕ)
    → most ≤ 2 ^ 62
    → base ≤ most
    → (d : ℕ) × (retry_delay (pos base) (pos most) attempt ≡ pos d) × (base ≤ d) × (d ≤ most)
between base most attempt bound high =
    let far = at_least base (attempt - 1) in
    (
      min (base * 2 ^ (attempt - 1)) most,
      retry_delay-min base most attempt bound,
      ground arith,
      ground arith,
    )

-- A worker that starts has at least one slot and a positive base delay that is at most the maximum; it
-- may miss two heartbeats before its run is stale; and its backoff after every failed attempt lies
-- between the two delays. The heartbeat interval is not negative and below 2^61 ns, and the maximum
-- delay is at most 2^62 ns.
pub load_config-retry_delay :
    (host : Host) (s : Settings) (h attempt : ℕ)
    → load_config host ≡ ok s
    → s.heartbeat_interval ≡ pos h
    → h < 2 ^ 61
    → ltbℤ (pos (2 ^ 62)) s.retry_max_delay ≡ false
    → (n : ℕ) × (base : ℕ) × (most : ℕ) × (stale : ℕ) × (d : ℕ) × (s.concurrency ≡ pos (n + 1))
      × (s.retry_base_delay ≡ pos base)
      × (s.retry_max_delay ≡ pos most)
      × (s.stale_after ≡ pos stale)
      × (3 * h ≤ stale)
      × (1 ≤ base)
      × (retry_delay s.retry_base_delay s.retry_max_delay attempt ≡ pos d)
      × (base ≤ d)
      × (d ≤ most)
load_config-retry_delay host s h attempt e is small bound =
    let c = load_config-IsChecked host s e in
    let (base, most, base_is, most_is, low, high) =
      delays s.retry_base_delay s.retry_max_delay c.ordered in
    let (n, some_slots) = positive s.concurrency c.enough in
    let (stale, stale_is, thrice) = heartbeats s.stale_after h small (rw is at c.patient) in
    let top : most ≤ 2 ^ 62 = let b = rw most_is at bound in ground arith in
    let (d, delay, above, below) = between base most attempt top high in
    (
      n,
      base,
      most,
      stale,
      d,
      some_slots,
      base_is,
      most_is,
      stale_is,
      thrice,
      low,
      rw (base_is, most_is) delay,
      above,
      below,
    )
