-- ===== src/Breaker.antt =====
-- labs/33-load-shedding/src/lab_33_load_shedding/backpressure.py: `CircuitBreaker`. Times are natural
-- numbers, the settings integers.
pub mod Counts
pub mod Streaks
mod Tests
use labs_for_linux_distribut.Base.{
  ℕ, ◌+◌, ◌-◌, Bool, true, false, Option, none, some, ℤ, pos, negsuc, positive, reaches, max, ltb,
  leb, if◌then◌else◌, Result, ok, raise,
}

pub data BreakerState : Type 0 where
  closed open_ half_open : BreakerState

pub record CircuitBreaker : Type 0 where
  pub failure_threshold : ℤ
  pub recovery_timeout_ms : ℤ
  pub half_open_successes : ℤ
  pub state : BreakerState
  pub consecutive_failures : ℕ
  pub open_until_ms : ℕ
  pub half_open_success_count : ℕ

pub data BreakerError : Type 0 where
  value_error : BreakerError

unfoldable pub new_breaker : ℤ → ℤ → ℤ → CircuitBreaker
new_breaker failure_threshold recovery_timeout_ms half_open_successes = record {
  failure_threshold = failure_threshold;
  recovery_timeout_ms = recovery_timeout_ms;
  half_open_successes = half_open_successes;
  state = closed;
  consecutive_failures = 0;
  open_until_ms = 0;
  half_open_success_count = 0;
}

abbrev pub half_opened : CircuitBreaker → CircuitBreaker
half_opened b = record b { state = half_open; half_open_success_count = 0 }

unfoldable pub allow_in : BreakerState → ℕ → CircuitBreaker → Bool × CircuitBreaker
allow_in open_ now_ms b = if ltb now_ms b.open_until_ms then (false, b) else (true, half_opened b)
allow_in _ now_ms b = (true, b)

unfoldable pub allow : ℕ → CircuitBreaker → Bool × CircuitBreaker
allow now_ms b = allow_in b.state now_ms b

abbrev pub retry_in : BreakerState → ℕ → CircuitBreaker → ℕ
retry_in open_ now_ms b = max (b.open_until_ms - now_ms) 1
retry_in _ now_ms b = 0

unfoldable pub retry_after_ms : ℕ → CircuitBreaker → ℕ
retry_after_ms now_ms b = retry_in b.state now_ms b

abbrev pub closed_again : CircuitBreaker → CircuitBreaker
closed_again b = record b { state = closed; consecutive_failures = 0; half_open_success_count = 0 }

unfoldable pub success_in : BreakerState → CircuitBreaker → CircuitBreaker
success_in half_open b =
    let count = b.half_open_success_count + 1 in
    if reaches count b.half_open_successes
    then closed_again b
    else record b { half_open_success_count = count }
success_in _ b = record b { consecutive_failures = 0 }

unfoldable pub record_success : CircuitBreaker → CircuitBreaker
record_success b = success_in b.state b

-- `_open`
unfoldable pub opened : ℕ → ℕ → CircuitBreaker → CircuitBreaker
opened now_ms recovery_timeout_ms b = record b {
  state = open_;
  open_until_ms = now_ms + recovery_timeout_ms;
  consecutive_failures = 0;
  half_open_success_count = 0;
}

-- `record_failure` after the two checks, with the settings as natural numbers.
unfoldable pub failure_in : BreakerState → ℕ → ℕ → ℕ → CircuitBreaker → CircuitBreaker
failure_in half_open threshold recovery now_ms b = opened now_ms recovery b
failure_in _ threshold recovery now_ms b =
    let failures = b.consecutive_failures + 1 in
    let counted = record b { consecutive_failures = failures } in
    if leb threshold failures then opened now_ms recovery counted else counted

unfoldable pub record_failure : ℕ → CircuitBreaker → Result BreakerError CircuitBreaker
record_failure now_ms b = elim (positive b.failure_threshold) [
  | none ↦ raise value_error
  | some threshold ↦ elim (positive b.recovery_timeout_ms) [
    | none ↦ raise value_error
    | some recovery ↦ ok (failure_in b.state threshold recovery now_ms b)
  ]
]
