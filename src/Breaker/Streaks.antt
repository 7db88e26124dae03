-- ===== src/Breaker/Streaks.antt =====
-- The first time that a breaker opens.
use labs_for_linux_distribut.Base.{
  ℕ, ◌+◌, ◌<◌, ◌≡◌, Bool, true, false, some, List, [], ◌∷◌, ℤ, positive, arith, refl, sym, ap,
  subst, inl, inr, ltb, leb, if◌then◌else◌, ◌&&◌, ◌∙◌, Bool-cases,
}
use labs_for_linux_distribut.Breaker.{
  closed, open_, CircuitBreaker, new_breaker, allow_in, allow, success_in, record_success, opened,
  failure_in,
}
use labs_for_linux_distribut.Breaker.Counts.{
  Call, allowed, succeeded, failed, result_or, call, run, record_failure-ok,
}

-- The failures since the last success, after the calls.
unfoldable pub streak : ℕ → List Call → ℕ
streak n [] = n
streak n (failed now ∷ cs) = streak (n + 1) cs
streak n (succeeded ∷ cs) = streak 0 cs
streak n (allowed now ∷ cs) = streak n cs

-- There are never as many failures as the limit without a success in between.
unfoldable pub calm : ℕ → ℕ → List Call → Bool
calm limit n [] = true
calm limit n (failed now ∷ cs) = ltb (n + 1) limit && calm limit (n + 1) cs
calm limit n (succeeded ∷ cs) = calm limit 0 cs
calm limit n (allowed now ∷ cs) = calm limit n cs

record IsClosed (t r n : ℕ) (b : CircuitBreaker) : Type 0 where
  is_closed : b.state ≡ closed
  failures : b.consecutive_failures ≡ n
  same_threshold : positive b.failure_threshold ≡ some t
  same_recovery : positive b.recovery_timeout_ms ≡ some r

module _ (t r : ℕ) where
  call_failed :
      (now n : ℕ) (b : CircuitBreaker)
      → IsClosed t r n b
      → call (failed now) b ≡ failure_in closed t r now b
  unfolding call
  call_failed now n b c =
      ap (λ e. result_or e b) (record_failure-ok t r now b c.same_threshold c.same_recovery)
      ∙ ap (λ st. failure_in st t r now b) c.is_closed

  failure-counted :
      (now n : ℕ) (b : CircuitBreaker)
      → IsClosed t r n b
      → n + 1 < t
      → IsClosed t r (n + 1) (call (failed now) b)
  unfolding failure_in
  failure-counted now n b c few =
      let no : leb t (b.consecutive_failures + 1) ≡ false = ground (arith, few, c.failures) in
      subst (IsClosed t r (n + 1)) (sym (call_failed now n b c)) (
        rw (no, failure_in)
          (record {
            is_closed = c.is_closed;
            failures = omega (arith, c.failures);
            same_threshold = c.same_threshold;
            same_recovery = c.same_recovery;
          }))

  failure-opens :
      (now n : ℕ) (b : CircuitBreaker)
      → IsClosed t r n b
      → (call (failed now) b).state ≡ (if leb t (n + 1) then open_ else closed)
  unfolding failure_in opened
  failure-opens now n b c =
      subst (λ d. d.state ≡ (if leb t (n + 1) then open_ else closed)) (sym (call_failed now n b c))
        (subst
          (λ m. (failure_in closed t r now b).state ≡ (if leb t (m + 1) then open_ else closed))
          c.failures
          (elim (Bool-cases (leb t (b.consecutive_failures + 1))) [
            | inl enough ↦ rw (enough, failure_in) refl
            | inr few ↦ rw (few, failure_in) c.is_closed
          ]))

  success-counted :
      (n : ℕ) (b : CircuitBreaker) → IsClosed t r n b → IsClosed t r 0 (record_success b)
  unfolding record_success success_in
  success-counted n b c =
      subst (λ st. IsClosed t r 0 (success_in st b)) (sym c.is_closed)
        (record {
          is_closed = c.is_closed;
          failures = refl;
          same_threshold = c.same_threshold;
          same_recovery = c.same_recovery;
        })

  allow-same : (now n : ℕ) (b : CircuitBreaker) → IsClosed t r n b → IsClosed t r n (allow now b).1
  unfolding allow allow_in
  allow-same now n b c = subst (λ st. IsClosed t r n (allow_in st now b).1) (sym c.is_closed) c

  run-IsClosed :
      (cs : List Call) (n : ℕ) (b : CircuitBreaker)
      → IsClosed t r n b
      → calm t n cs ≡ true
      → IsClosed t r (streak n cs) (run cs b)
  unfolding streak calm run
  run-IsClosed [] n b c h = c
  run-IsClosed (failed now ∷ cs) n b c h =
      run-IsClosed cs (n + 1) (call (failed now) b) (failure-counted now n b c (ground (arith, h)))
        (ground (arith, h))
  run-IsClosed (succeeded ∷ cs) n b c h =
      run-IsClosed cs 0 (call succeeded b) (unfold call in success-counted n b c) h
  run-IsClosed (allowed now ∷ cs) n b c h =
      run-IsClosed cs n (call (allowed now) b) (unfold call in allow-same now n b c) h

-- A breaker that was constructed with a threshold and a recovery time of at least 1 stays closed as
-- long as there are not as many failures as the threshold without a success in between; and then the
-- next failure opens it if it makes the failures since the last success as many, and leaves it closed
-- if not.
pub run-opens :
    (threshold recovery successes : ℤ) (t r now : ℕ) (cs : List Call)
    → positive threshold ≡ some t
    → positive recovery ≡ some r
    → calm t 0 cs ≡ true
    → ((run cs (new_breaker threshold recovery successes)).state ≡ closed)
      × ((call (failed now) (run cs (new_breaker threshold recovery successes))).state
          ≡ (if leb t (streak 0 cs + 1) then open_ else closed))
run-opens threshold recovery successes t r now cs p q h =
    let b = new_breaker threshold recovery successes in
    let first : IsClosed t r 0 b =
      unfold new_breaker in
      record { is_closed = refl; failures = refl; same_threshold = p; same_recovery = q } in
    let c = run-IsClosed t r cs 0 b first h in
    (c.is_closed, failure-opens t r now (streak 0 cs) (run cs b) c)
