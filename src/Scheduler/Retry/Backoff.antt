-- ===== src/Scheduler/Retry/Backoff.antt =====
-- The backoff between attempts.
use agentic_execution.Prelude.{
  ℕ, zero, suc, ◌+◌, ◌-◌, ◌*◌, ◌^◌, ◌≤◌, min, ◌≡◌, refl, sym, inl, inr, arith, if◌then◌else◌,
  Bool-cases,
}
use native.Mathlib.Nat.{pow-suc}
use agentic_execution.Settings.{Settings}
use agentic_execution.World.{JitterLaws}
use agentic_execution.Scheduler.Retry.{backoff}

-- The delay that doubles from one attempt to the next, and rests at the maximum.
abbrev pub doubled : Settings → ℕ → ℕ
doubled s zero = min s.retry_backoff_base s.retry_backoff_max
doubled s (suc n) = min (2 * doubled s n) s.retry_backoff_max

doubled-pow :
    (s : Settings) (n : ℕ) → min (s.retry_backoff_base * 2 ^ n) s.retry_backoff_max ≡ doubled s n
doubled-pow s zero = omega arith
doubled-pow s (suc n) = rw (pow-suc, sym (doubled-pow s n)) (omega arith)

pub backoff-doubled :
    (n : ℕ) (s : Settings) (jitter : ℕ → ℕ)
    → backoff (n + 1) s jitter
      ≡ (if s.retry_backoff_jitter then jitter (doubled s n) else doubled s n)
unfolding backoff
backoff-doubled n s jitter =
    let same : (n + 1 - 1) ≡ n = omega arith in rw (same, doubled-pow s n) refl

-- With a jitter between 0.8 and 1.2, the backoff of each attempt is the delay that starts at the
-- base, doubles from one attempt to the next and rests at the maximum, with the jitter applied
-- after that where it is configured; so it is at least four fifths of that delay, and passes the
-- maximum by a fifth at most.
pub backoff-jittered :
    (n : ℕ) (s : Settings) (jitter : ℕ → ℕ)
    → JitterLaws jitter
    → let d = backoff (n + 1) s jitter in
      (d ≡ (if s.retry_backoff_jitter then jitter (doubled s n) else doubled s n))
      × (8 * doubled s n ≤ 10 * d)
      × (10 * d ≤ 12 * s.retry_backoff_max)
backoff-jittered n s jitter laws =
    let within : doubled s n ≤ s.retry_backoff_max = rw (sym (doubled-pow s n)) (omega arith) in
    let low = laws.at_least (doubled s n) in
    let high = laws.at_most (doubled s n) in
    elim (Bool-cases s.retry_backoff_jitter) [
      | inl on ↦ rw (backoff-doubled n s jitter, on) (refl, omega arith, omega arith)
      | inr off ↦ rw (backoff-doubled n s jitter, off) (refl, omega arith, omega arith)
    ]
