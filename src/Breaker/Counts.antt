-- ===== src/Breaker/Counts.antt =====
-- What the breaker counts, over runs of its calls.
use labs_for_linux_distribut.Base.{
  ℕ, ◌+◌, ◌≤◌, ◌<◌, ◌≡◌, ◌≢◌, ◌↔◌, ◌⊎◌, true, false, some, List, [], ◌∷◌, ℤ, positive, arith, refl,
  sym, subst, inl, inr, ltb, leb, if◌then◌else◌, Result, ok, raise, Bool-cases, positive-le,
  reaches,
}
use labs_for_linux_distribut.Breaker.{
  BreakerState, BreakerError, closed, open_, half_open, CircuitBreaker, new_breaker, allow_in,
  allow, success_in, record_success, opened, failure_in, record_failure, retry_in, retry_after_ms,
}

pub data Call : Type 0 where
  allowed : ℕ → Call
  succeeded : Call
  failed : ℕ → Call

-- `record_failure` may raise: then the breaker is as before.
abbrev pub result_or : Result BreakerError CircuitBreaker → CircuitBreaker → CircuitBreaker
result_or (ok b) before = b
result_or (raise e) before = before

unfoldable pub call : Call → CircuitBreaker → CircuitBreaker
call (allowed now) b = (allow now b).1
call succeeded b = record_success b
call (failed now) b = result_or (record_failure now b) b

unfoldable pub run : List Call → CircuitBreaker → CircuitBreaker
unfolding call
run [] b = b
run (c ∷ cs) b = run cs (call c b)

pub record IsCounting (threshold recovery : ℕ) (successes : ℤ) (b : CircuitBreaker) : Type 0 where
  pub same_threshold : positive b.failure_threshold ≡ some threshold
  pub same_recovery : positive b.recovery_timeout_ms ≡ some recovery
  pub same_successes : b.half_open_successes ≡ successes
  pub below : b.consecutive_failures < threshold
  pub trial :
      b.state ≡ half_open
      → (b.half_open_success_count ≡ 0) ⊎ (reaches b.half_open_success_count successes ≡ false)
  pub no_trial : b.state ≢ half_open → b.half_open_success_count ≡ 0

pub record_failure-ok :
    (threshold recovery now : ℕ) (b : CircuitBreaker)
    → positive b.failure_threshold ≡ some threshold
    → positive b.recovery_timeout_ms ≡ some recovery
    → record_failure now b ≡ ok (failure_in b.state threshold recovery now b)
unfolding record_failure
record_failure-ok threshold recovery now b t r = rw (t, record_failure, r) refl

module _ (t r : ℕ) (s : ℤ) (least : 1 ≤ t) where
  opened-IsCounting :
      (now : ℕ) (b : CircuitBreaker) → IsCounting t r s b → IsCounting t r s (opened now r b)
  unfolding opened
  opened-IsCounting now b c = record {
    same_threshold = c.same_threshold;
    same_recovery = c.same_recovery;
    same_successes = c.same_successes;
    below = least;
    trial = λ e. inl refl;
    no_trial = λ e. refl;
  }

  counted : CircuitBreaker → CircuitBreaker
  counted b = record b { consecutive_failures = b.consecutive_failures + 1 }

  one_more :
      (now : ℕ) (b : CircuitBreaker)
      → IsCounting t r s b
      → IsCounting t r s
          (if leb t (b.consecutive_failures + 1) then opened now r (counted b) else counted b)
  unfolding counted opened
  one_more now b c = elim (Bool-cases (leb t (b.consecutive_failures + 1))) [
    | inl enough ↦ rw (enough) (record {
      same_threshold = c.same_threshold;
      same_recovery = c.same_recovery;
      same_successes = c.same_successes;
      below = least;
      trial = λ e. inl refl;
      no_trial = λ e. refl;
    })
    | inr few ↦ rw (few) (record {
      same_threshold = c.same_threshold;
      same_recovery = c.same_recovery;
      same_successes = c.same_successes;
      below = ground (arith, few);
      trial = c.trial;
      no_trial = c.no_trial;
    })
  ]

  failure_in-IsCounting :
      (st : BreakerState) (now : ℕ) (b : CircuitBreaker)
      → b.state ≡ st
      → IsCounting t r s b
      → IsCounting t r s (failure_in st t r now b)
  unfolding failure_in counted
  failure_in-IsCounting half_open now b e c = opened-IsCounting now b c
  failure_in-IsCounting closed now b e c = one_more now b c
  failure_in-IsCounting open_ now b e c = one_more now b c

  streak_over :
      (b : CircuitBreaker)
      → IsCounting t r s b
      → IsCounting t r s (record b { consecutive_failures = 0 })
  streak_over b c = record {
    same_threshold = c.same_threshold;
    same_recovery = c.same_recovery;
    same_successes = c.same_successes;
    below = least;
    trial = c.trial;
    no_trial = c.no_trial;
  }

  success_in-IsCounting :
      (st : BreakerState) (b : CircuitBreaker)
      → b.state ≡ st
      → IsCounting t r s b
      → IsCounting t r s (success_in st b)
  unfolding success_in
  success_in-IsCounting half_open b e c =
      elim (Bool-cases (reaches (b.half_open_success_count + 1) b.half_open_successes)) [
        | inl enough ↦
            rw (enough, success_in)
              (record {
                same_threshold = c.same_threshold;
                same_recovery = c.same_recovery;
                same_successes = c.same_successes;
                below = least;
                trial = λ f. inl refl;
                no_trial = λ f. refl;
              })
        | inr few ↦
            rw (few, success_in)
              (record {
                same_threshold = c.same_threshold;
                same_recovery = c.same_recovery;
                same_successes = c.same_successes;
                below = c.below;
                trial = λ f. inr (rw (c.same_successes) at few);
                no_trial = λ f. absurd (f e);
              })
      ]
  success_in-IsCounting closed b e c = streak_over b c
  success_in-IsCounting open_ b e c = streak_over b c

  allow_in-IsCounting :
      (st : BreakerState) (now : ℕ) (b : CircuitBreaker)
      → b.state ≡ st
      → IsCounting t r s b
      → IsCounting t r s (allow_in st now b).1
  unfolding allow_in
  allow_in-IsCounting open_ now b e c = elim (Bool-cases (ltb now b.open_until_ms)) [
    | inl early ↦ rw (early, allow_in) c
    | inr late ↦
        rw (late, allow_in)
          (record {
            same_threshold = c.same_threshold;
            same_recovery = c.same_recovery;
            same_successes = c.same_successes;
            below = c.below;
            trial = λ f. inl refl;
            no_trial = λ f. refl;
          })
  ]
  allow_in-IsCounting closed now b e c = c
  allow_in-IsCounting half_open now b e c = c

  call-IsCounting :
      (c : Call) (b : CircuitBreaker) → IsCounting t r s b → IsCounting t r s (call c b)
  unfolding call allow record_success
  call-IsCounting (allowed now) b c = allow_in-IsCounting b.state now b refl c
  call-IsCounting succeeded b c = success_in-IsCounting b.state b refl c
  call-IsCounting (failed now) b c =
      subst (λ e. IsCounting t r s (result_or e b))
        (sym (record_failure-ok t r now b c.same_threshold c.same_recovery))
        (failure_in-IsCounting b.state now b refl c)

  run-keeps :
      (cs : List Call) (b : CircuitBreaker) → IsCounting t r s b → IsCounting t r s (run cs b)
  unfolding run
  run-keeps [] b c = c
  run-keeps (x ∷ cs) b c = run-keeps cs (call x b) (call-IsCounting x b c)

pub new_breaker-IsCounting :
    (threshold recovery successes : ℤ) (t r : ℕ)
    → positive threshold ≡ some t
    → positive recovery ≡ some r
    → IsCounting t r successes (new_breaker threshold recovery successes)
unfolding new_breaker
new_breaker-IsCounting threshold recovery successes t r p q = record {
  same_threshold = p;
  same_recovery = q;
  same_successes = refl;
  below = positive-le threshold t p;
  trial = λ e. inl refl;
  no_trial = λ e. refl;
}

-- A breaker that was constructed with a threshold and a recovery time of at least 1, after any calls,
-- has counted fewer failures than the threshold; while half open it has counted no success or fewer
-- than close it again, and else none; and its settings are what they were.
pub run-IsCounting :
    (threshold recovery successes : ℤ) (t r : ℕ) (cs : List Call)
    → positive threshold ≡ some t
    → positive recovery ≡ some r
    → IsCounting t r successes (run cs (new_breaker threshold recovery successes))
run-IsCounting threshold recovery successes t r cs p q =
    run-keeps t r successes (positive-le threshold t p) cs
      (new_breaker threshold recovery successes)
      (new_breaker-IsCounting threshold recovery successes t r p q)

retry_in-exact :
    (st : BreakerState) (now wait : ℕ) (b : CircuitBreaker)
    → (allow_in st now b).0 ≡ false
    → (allow_in st (now + wait) b).0 ≡ true ↔ retry_in st now b ≤ wait
unfolding allow_in
retry_in-exact open_ now wait b refused = ground arith
retry_in-exact closed now wait b refused = absurd cc
retry_in-exact half_open now wait b refused = absurd cc

-- While an open breaker refuses, `retry_after_ms` is exact: a caller that waits that long is allowed,
-- and one that waits less is not.
pub allow-retry_after_ms :
    (now wait : ℕ) (b : CircuitBreaker)
    → (allow now b).0 ≡ false
    → (allow (now + wait) b).0 ≡ true ↔ retry_after_ms now b ≤ wait
unfolding allow retry_after_ms
allow-retry_after_ms now wait b = retry_in-exact b.state now wait b
