-- ===== src/Consumer.antt =====
-- labs/33-load-shedding/src/lab_33_load_shedding/backpressure.py: the retry policy, the retry budget
-- and `RetryingConsumer`. What Python's floats do is a parameter.
pub mod Endings
pub mod Redeliveries
mod Tests
use labs_for_linux_distribut.Base.{
  ℕ, ◌+◌, ◌-◌, Bool, true, false, Option, none, some, List, [], ◌∷◌, ◌++◌, ℤ, pos, negsuc, positive,
  to_nat, int_ltb, int_beq, reaches, max, ltb, if◌then◌else◌, not, Result, ok, raise,
}
use labs_for_linux_distribut.Admission.{RelayMessage, next_attempt}
use labs_for_linux_distribut.Breaker.{
  CircuitBreaker, allow, retry_after_ms, record_success, record_failure,
}

pub data RelayOutcome : Type 0 where
  succeeded transient_failure poison : RelayOutcome

-- The texts of `reason`.
pub data Reason : Type 0 where
  circuit_open failed_once poison_message retry_limit_reached retry_budget_exhausted : Reason

pub record RetryInstruction : Type 0 where
  pub message : RelayMessage
  pub delay_ms : ℕ
  pub reason : Reason

pub record DeadLetterEntry : Type 0 where
  pub message : RelayMessage
  pub reason : Reason

pub data ConsumerError : Type 0 where
  value_error overflow_error : ConsumerError

-- What the code uses of Python's floats.
pub record Floats (F : Type 0) : Type 0 where
  pub nought : F
  pub one : F
  pub two : F
  pub lt : F → F → Bool
  pub le : F → F → Bool
  pub add : F → F → F
  pub sub : F → F → F
  pub mul : F → F → F
  pub of_int : ℤ → F
  pub power : F → ℕ → Result ConsumerError F
  pub truncate : F → Result ConsumerError ℤ
  pub round : F → Result ConsumerError ℤ

pub record ServiceBusRetryTopology : Type 0 where
  pub application_max_attempts : ℤ
  pub sdk_max_retries : ℤ

-- Whether `validate` passes.
unfoldable pub validate : ServiceBusRetryTopology → Bool
validate t = elim (positive t.application_max_attempts) [
  | none ↦ false
  | some n ↦ int_beq t.sdk_max_retries (pos 0)
]

pub record ExponentialBackoffPolicy (F : Type 0) : Type 0 where
  pub base_delay_ms : ℤ
  pub multiplier : F
  pub max_delay_ms : ℤ
  pub jitter_ratio : F

pub record RetryBudget (F : Type 0) : Type 0 where
  pub ratio : F
  pub maximum_tokens : F
  pub tokens : F

pub record RetryingConsumer (F : Type 0) : Type 0 where
  pub backoff_policy : ExponentialBackoffPolicy F
  pub retry_budget : RetryBudget F
  pub retry_topology : ServiceBusRetryTopology
  pub circuit_breaker : CircuitBreaker
  pub dead_letters : List DeadLetterEntry

abbrev pub at_least_after : ℕ → Option ℤ → ℕ
at_least_after candidate none = candidate
at_least_after candidate (some retry_after_ms) = max candidate (to_nat retry_after_ms)

abbrev pub raw_delay : ℤ → ℤ → ℤ
raw_delay computed max_delay_ms = if int_ltb max_delay_ms computed then max_delay_ms else computed

-- `max(candidate, retry_after_ms)`, of what `round` returns.
abbrev pub rounded : Result ConsumerError ℤ → Option ℤ → Result ConsumerError ℕ
rounded (raise e) retry_after_ms = raise e
rounded (ok candidate) retry_after_ms = ok (at_least_after (to_nat candidate) retry_after_ms)

module _ {F : Type 0} (fl : Floats F) where
  abbrev pub min_float : F → F → F
  min_float a b = if fl.lt b a then b else a

  unfoldable pub new_budget : F → F → F → Result ConsumerError (RetryBudget F)
  new_budget ratio maximum_tokens initial_tokens =
      if fl.le ratio fl.nought
      then raise value_error
      else if fl.lt maximum_tokens fl.one
      then raise value_error
      else if fl.lt initial_tokens fl.nought
      then raise value_error
      else ok (record {
        ratio = ratio;
        maximum_tokens = maximum_tokens;
        tokens = min_float maximum_tokens initial_tokens;
      })

  unfoldable pub record_primary_request : ℤ → RetryBudget F → Result ConsumerError (RetryBudget F)
  record_primary_request count b =
      if int_ltb count (pos 0)
      then raise value_error
      else ok (record b {
        tokens = min_float b.maximum_tokens (fl.add b.tokens (fl.mul b.ratio (fl.of_int count)));
      })

  unfoldable pub allow_retry : RetryBudget F → Bool × RetryBudget F
  allow_retry b =
      if fl.le fl.one b.tokens
      then (true, record b { tokens = fl.sub b.tokens fl.one })
      else (false, b)

  -- The raw delay with an offset by the number that was drawn.
  unfoldable pub jittered : ExponentialBackoffPolicy F → ℤ → F → Option ℤ → Result ConsumerError ℕ
  jittered p raw drawn retry_after_ms =
      let window = fl.mul (fl.of_int raw) p.jitter_ratio in
      let offset = fl.mul (fl.sub (fl.mul drawn fl.two) fl.one) window in
      rounded (fl.round (fl.add (fl.of_int raw) offset)) retry_after_ms

abbrev pub Processed : Type 0 → Type 0 → Type 0
Processed F G = Result ConsumerError (Option RetryInstruction) × RetryingConsumer F × G

module _ {F G : Type 0} where
  -- `DeadLetterQueue.add`, and `process` returns `None`.
  abbrev pub dead_lettered : RelayMessage → Reason → RetryingConsumer F → G → Processed F G
  dead_lettered message reason c g = (
    ok none,
    record c {
      dead_letters = c.dead_letters ++ record { message = message; reason = reason } ∷ [];
    },
    g,
  )

  abbrev pub planned :
      RelayMessage → RetryingConsumer F → Result ConsumerError ℕ × G → Processed F G
  planned next c (raise e, g) = (raise e, c, g)
  planned next c (ok delay, g) =
      (ok (some (record { message = next; delay_ms = delay; reason = failed_once })), c, g)

-- `G` is the state of the random source.
module _ {F G : Type 0} (fl : Floats F) (random : G → F × G) where
  abbrev pub draw_delay :
      ExponentialBackoffPolicy F → ℤ → Option ℤ → F × G → Result ConsumerError ℕ × G
  draw_delay p computed retry_after_ms (drawn, g) =
      (jittered fl p (raw_delay computed p.max_delay_ms) drawn retry_after_ms, g)

  abbrev pub computed_delay :
      ExponentialBackoffPolicy F
      → Option ℤ
      → G
      → Result ConsumerError ℤ
      → Result ConsumerError ℕ × G
  computed_delay p retry_after_ms g (raise e) = (raise e, g)
  computed_delay p retry_after_ms g (ok computed) = draw_delay p computed retry_after_ms (random g)

  abbrev pub grown_delay :
      ExponentialBackoffPolicy F
      → Option ℤ
      → G
      → Result ConsumerError F
      → Result ConsumerError ℕ × G
  grown_delay p retry_after_ms g (raise e) = (raise e, g)
  grown_delay p retry_after_ms g (ok grown) =
      computed_delay p retry_after_ms g (fl.truncate (fl.mul (fl.of_int p.base_delay_ms) grown))

  unfoldable pub delay_ms :
      ExponentialBackoffPolicy F → ℕ → G → Option ℤ → Result ConsumerError ℕ × G
  delay_ms p attempt g retry_after_ms =
      if ltb attempt 1
      then (raise value_error, g)
      else if int_ltb p.base_delay_ms (pos 1)
      then (raise value_error, g)
      else grown_delay p retry_after_ms g (fl.power p.multiplier (attempt - 1))

  abbrev pub spend :
      RelayMessage → Option ℤ → RetryingConsumer F → G → Bool × RetryBudget F → Processed F G
  spend next retry_after c g (false, budget) =
      dead_lettered next retry_budget_exhausted (record c { retry_budget = budget }) g
  spend next retry_after c g (true, budget) =
      planned next (record c { retry_budget = budget })
        (delay_ms c.backoff_policy next.attempts g retry_after)

  -- A transient failure, once the breaker has counted it.
  unfoldable pub retry : RelayMessage → Option ℤ → RetryingConsumer F → G → Processed F G
  retry next retry_after c g =
      let spent = spend next retry_after c g (allow_retry fl c.retry_budget) in
      if reaches next.attempts c.retry_topology.application_max_attempts
      then dead_lettered next retry_limit_reached c g
      else spent

  -- `process` when the breaker allows the call.
  unfoldable pub handle :
      RelayOutcome → RelayMessage → ℕ → Option ℤ → RetryingConsumer F → G → Processed F G
  handle succeeded next now_ms retry_after c g =
      (ok none, record c { circuit_breaker = record_success c.circuit_breaker }, g)
  handle poison next now_ms retry_after c g = dead_lettered next poison_message c g
  handle transient_failure next now_ms retry_after c g =
      elim (record_failure now_ms c.circuit_breaker) [
        | raise e ↦ (raise value_error, c, g)
        | ok breaker ↦ retry next retry_after (record c { circuit_breaker = breaker }) g
      ]

  abbrev pub gated :
      RelayOutcome
      → RelayMessage
      → ℕ
      → Option ℤ
      → RetryingConsumer F
      → G
      → Bool × CircuitBreaker
      → Processed F G
  gated outcome next now_ms retry_after c g (false, breaker) = (
    ok (
        some (record {
          message = next;
          delay_ms = retry_after_ms now_ms breaker;
          reason = circuit_open;
        })),
    record c { circuit_breaker = breaker },
    g,
  )
  gated outcome next now_ms retry_after c g (true, breaker) =
      handle outcome next now_ms retry_after (record c { circuit_breaker = breaker }) g

  unfoldable pub process :
      RelayMessage → RelayOutcome → ℕ → Option ℤ → RetryingConsumer F → G → Processed F G
  process message outcome now_ms retry_after c g =
      if validate c.retry_topology
      then gated outcome (next_attempt message) now_ms retry_after c g
          (allow now_ms c.circuit_breaker)
      else (raise value_error, c, g)
