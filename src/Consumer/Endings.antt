-- ===== src/Consumer/Endings.antt =====
-- How a call of `process` ends.
use labs_for_linux_distribut.Base.{
  ℕ, ◌+◌, ◌-◌, ◌≤◌, ◌≡◌, ◌≢◌, ◌↔◌, inl, inr, Bool, true, false, Option, none, some, List, [], ◌∷◌,
  ◌++◌, ℤ, pos, to_nat, reaches, max, arith, refl, sym, ap, subst, Result, ok, raise, Bool-cases,
  Result-cases, ltb, int_ltb, ◌∙◌,
}
use labs_for_linux_distribut.Admission.{RelayMessage, next_attempt}
use labs_for_linux_distribut.Breaker.{
  BreakerState, closed, open_, half_open, CircuitBreaker, allow_in, allow, retry_after_ms,
  record_failure,
}
use labs_for_linux_distribut.Breaker.Counts.{allow-retry_after_ms}
use labs_for_linux_distribut.Consumer.{
  RelayOutcome, succeeded, transient_failure, poison, Reason, circuit_open, failed_once,
  poison_message, retry_limit_reached, retry_budget_exhausted, RetryInstruction, DeadLetterEntry,
  ConsumerError, value_error, Floats, validate, ExponentialBackoffPolicy, RetryBudget,
  RetryingConsumer, allow_retry, delay_ms, rounded, jittered, computed_delay, grown_delay,
  draw_delay, Processed, planned, spend, retry, handle, gated, process,
}

-- The delay that the caller asks for.
abbrev pub asked : Option ℤ → ℕ
asked none = 0
asked (some retry_after_ms) = to_nat retry_after_ms

abbrev add_to : List DeadLetterEntry → RelayMessage → Reason → List DeadLetterEntry
add_to dead_letters message reason =
    dead_letters ++ record { message = message; reason = reason } ∷ []

module _ {F G : Type 0} where
  pub data Ending (next : RelayMessage) (outcome : RelayOutcome) (now : ℕ) (after : Option ℤ)
      (c : RetryingConsumer F) (p : Processed F G) : Type 0 where
    done :
        p.0 ≡ ok none
        → outcome ≡ succeeded
        → p.1.dead_letters ≡ c.dead_letters
        → Ending next outcome now after c p
    dead :
        (reason : Reason)
        → p.0 ≡ ok none
        → outcome ≢ succeeded
        → p.1.dead_letters ≡ add_to c.dead_letters next reason
        → Ending next outcome now after c p
    refused :
        (i : RetryInstruction)
        → p.0 ≡ ok (some i)
        → i.reason ≡ circuit_open
        → i.message ≡ next
        → p.1 ≡ c
        → ((wait : ℕ) → (allow (now + wait) c.circuit_breaker).0 ≡ true ↔ i.delay_ms ≤ wait)
        → Ending next outcome now after c p
    retried :
        (i : RetryInstruction)
        → p.0 ≡ ok (some i)
        → i.reason ≡ failed_once
        → i.message ≡ next
        → outcome ≡ transient_failure
        → reaches next.attempts c.retry_topology.application_max_attempts ≡ false
        → asked after ≤ i.delay_ms
        → p.1.dead_letters ≡ c.dead_letters
        → Ending next outcome now after c p
    failed :
        (e : ConsumerError)
        → p.0 ≡ raise e
        → p.1.dead_letters ≡ c.dead_letters
        → Ending next outcome now after c p

rounded-le :
    (r : Result ConsumerError ℤ) (after : Option ℤ) (d : ℕ)
    → rounded r after ≡ ok d
    → asked after ≤ d
rounded-le (raise e) after d h = absurd cc
rounded-le (ok z) none d h = omega arith
rounded-le (ok z) (some r) d h = let e : max (to_nat z) (to_nat r) ≡ d = cc in ground (arith, e)

allow-refused : (now : ℕ) (b : CircuitBreaker) → (allow now b).0 ≡ false → (allow now b).1 ≡ b
unfolding allow allow_in
allow-refused now b h = go b.state h
  where
    go : (st : BreakerState) → (allow_in st now b).0 ≡ false → (allow_in st now b).1 ≡ b
    go open_ k = elim (Bool-cases (ltb now b.open_until_ms)) [
      | inl e ↦ rw (e, allow_in) refl
      | inr e ↦ (let no : true ≡ false = rw (e, allow_in) at k in absurd cc)
    ]
    go closed k = absurd cc
    go half_open k = absurd cc

abbrev with_breaker : {F : Type 0} → RetryingConsumer F → CircuitBreaker → RetryingConsumer F
with_breaker c b = record c { circuit_breaker = b }

module _ {F G : Type 0} (fl : Floats F) (random : G → F × G) where
  draw_delay-le :
      (p : ExponentialBackoffPolicy F) (z : ℤ) (after : Option ℤ) (d : ℕ) (drawn : F × G)
      → (draw_delay fl random p z after drawn).0 ≡ ok d
      → asked after ≤ d
  unfolding jittered
  draw_delay-le p z after d (x, g) h = rounded-le _ after d h

  grown_delay-le :
      (p : ExponentialBackoffPolicy F) (after : Option ℤ) (d : ℕ) (g : G)
      (r : Result ConsumerError F)
      → (grown_delay fl random p after g r).0 ≡ ok d
      → asked after ≤ d
  grown_delay-le p after d g (raise e) h = absurd cc
  grown_delay-le p after d g (ok grown) h =
      go (fl.truncate (fl.mul (fl.of_int p.base_delay_ms) grown)) h
    where
      go :
          (r : Result ConsumerError ℤ)
          → (computed_delay fl random p after g r).0 ≡ ok d
          → asked after ≤ d
      go (raise e) h = absurd cc
      go (ok z) h = draw_delay-le p z after d (random g) h

  -- A delay is as long as the caller asks for.
  delay_ms-le :
      (p : ExponentialBackoffPolicy F) (attempt d : ℕ) (g : G) (after : Option ℤ)
      → (delay_ms fl random p attempt g after).0 ≡ ok d
      → asked after ≤ d
  unfolding delay_ms
  delay_ms-le p attempt d g after h = elim (Bool-cases (ltb attempt 1)) [
    | inl e ↦ (let k : raise value_error ≡ ok d = rw (e, delay_ms) at h in absurd cc)
    | inr e ↦ elim (Bool-cases (int_ltb p.base_delay_ms (pos 1))) [
      | inl f ↦ (let k : raise value_error ≡ ok d = rw (e, delay_ms, f) at h in absurd cc)
      | inr f ↦
          grown_delay-le p after d g (fl.power p.multiplier (attempt - 1))
            (rw (e, delay_ms, f) at h)
    ]
  ]

  module _ (next : RelayMessage) (now : ℕ) (after : Option ℤ) where
    -- The ending, and that the settings stay.
    abbrev Ended : RelayOutcome → RetryingConsumer F → Processed F G → Type 0
    Ended outcome c p = Ending next outcome now after c p × (p.1.retry_topology ≡ c.retry_topology)

    planned-Ended :
        (c d : RetryingConsumer F)
        → d.dead_letters ≡ c.dead_letters
        → d.retry_topology ≡ c.retry_topology
        → reaches next.attempts c.retry_topology.application_max_attempts ≡ false
        → (q : Result ConsumerError ℕ × G) → ((delay : ℕ) → q.0 ≡ ok delay → asked after ≤ delay)
        → Ended transient_failure c (planned next d q)
    planned-Ended c d same_letters same_topology few (raise e, g) long =
        (failed e refl same_letters, same_topology)
    planned-Ended c d same_letters same_topology few (ok delay, g) long = (
      retried (record { message = next; delay_ms = delay; reason = failed_once }) refl refl refl
          refl few (long delay refl) same_letters,
      same_topology,
    )

    retry-Ended :
        (c : RetryingConsumer F) (breaker : CircuitBreaker) (g : G)
        → Ended transient_failure c (retry fl random next after (with_breaker c breaker) g)
    unfolding retry
    retry-Ended c breaker g =
        elim (Bool-cases (reaches next.attempts c.retry_topology.application_max_attempts)) [
          | inl e ↦ rw (e, retry) (dead retry_limit_reached refl (λ x. cc) refl, refl)
          | inr e ↦ rw (e, retry) (spent e (allow_retry fl c.retry_budget))
        ]
      where
        spent :
            reaches next.attempts c.retry_topology.application_max_attempts ≡ false
            → (b : Bool × RetryBudget F)
            → Ended transient_failure c (spend fl random next after (with_breaker c breaker) g b)
        spent few (false, budget) = (dead retry_budget_exhausted refl (λ x. cc) refl, refl)
        spent few (true, budget) =
            planned-Ended c (record c { circuit_breaker = breaker; retry_budget = budget }) refl
              refl few (delay_ms fl random c.backoff_policy next.attempts g after)
              (λ delay. delay_ms-le c.backoff_policy next.attempts delay g after)

    handle-Ended :
        (outcome : RelayOutcome) (c : RetryingConsumer F) (b : CircuitBreaker) (g : G)
        → Ended outcome c (handle fl random outcome next now after (with_breaker c b) g)
    unfolding handle
    handle-Ended succeeded c b g = (done refl refl refl, refl)
    handle-Ended poison c b g = (dead poison_message refl (λ x. cc) refl, refl)
    handle-Ended transient_failure c b g = elim (Result-cases (record_failure now b)) [
      | inl (breaker, e) ↦ rw (e, handle) (retry-Ended c breaker g)
      | inr (x, e) ↦ rw (e, handle) (failed value_error refl refl, refl)
    ]

    gated-Ended :
        (outcome : RelayOutcome) (c : RetryingConsumer F) (g : G) (b : Bool × CircuitBreaker)
        → allow now c.circuit_breaker ≡ b
        → Ended outcome c (gated fl random outcome next now after c g b)
    gated-Ended outcome c g (true, breaker) e = handle-Ended outcome c breaker g
    gated-Ended outcome c g (false, breaker) e =
        let no : (allow now c.circuit_breaker).0 ≡ false = ap (λ p. p.0) e in
        let same : breaker ≡ c.circuit_breaker =
          sym (ap (λ p. p.1) e) ∙ allow-refused now c.circuit_breaker no in
        subst (λ b. Ended outcome c (gated fl random outcome next now after c g (false, b)))
          (sym same)
          (
            refused
                (record {
                  message = next;
                  delay_ms = retry_after_ms now c.circuit_breaker;
                  reason = circuit_open;
                })
                refl refl refl refl (λ wait. allow-retry_after_ms now wait c.circuit_breaker no),
            refl,
          )

  pub process-Ended :
      (message : RelayMessage) (outcome : RelayOutcome) (now : ℕ) (after : Option ℤ)
      (c : RetryingConsumer F) (g : G)
      → Ended
          (next_attempt message)
          now
          after
          outcome
          c
          (process fl random message outcome now after c g)
  unfolding process
  process-Ended message outcome now after c g = elim (Bool-cases (validate c.retry_topology)) [
    | inl valid ↦
        rw (valid, process)
          (gated-Ended (next_attempt message) now after outcome c g (allow now c.circuit_breaker)
            refl)
    | inr invalid ↦ rw (invalid, process) (failed value_error refl refl, refl)
  ]

  -- Every call of `process` ends in one of five ways. It returns nothing, after a success, and the dead
  -- letters stay; it returns nothing, after a failure, and one dead letter more has the next attempt of
  -- the message; the circuit breaker refuses, the consumer stays as it is, and the delay is exactly the
  -- time after which the breaker allows a call; it plans a retry of the next attempt after a transient
  -- failure, only if the attempts are below the limit, with at least the delay that was asked for, and
  -- the dead letters stay; or it raises, and the dead letters stay.
  pub process-Ending :
      (message : RelayMessage) (outcome : RelayOutcome) (now : ℕ) (after : Option ℤ)
      (c : RetryingConsumer F) (g : G)
      → Ending
          (next_attempt message)
          outcome
          now
          after
          c
          (process fl random message outcome now after c g)
  process-Ending message outcome now after c g = (process-Ended message outcome now after c g).0
