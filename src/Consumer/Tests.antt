-- ===== src/Consumer/Tests.antt =====
-- Calls of a concrete consumer. Whole numbers stand for the floats.
use labs_for_linux_distribut.Base.{
  ℕ, zero, suc, ◌≡◌, ◌≤◌, ◌+◌, ◌-◌, ◌*◌, none, some, List, [], ◌∷◌, pos, to_nat, refl, ltb, leb, ok,
  raise,
}
use labs_for_linux_distribut.Admission.{RelayMessage, next_attempt}
use labs_for_linux_distribut.Breaker.{
  new_breaker, allow_in, allow, opened, failure_in, record_failure,
}
use labs_for_linux_distribut.Consumer.{
  transient_failure, poison, failed_once, value_error, Floats, validate, RetryingConsumer,
  allow_retry, jittered, delay_ms, retry, handle, process, new_budget, record_primary_request,
}
use labs_for_linux_distribut.Consumer.Endings.{Ending, process-Ending}
use labs_for_linux_distribut.Consumer.Redeliveries.{Delivery, retries, retries-le}

abbrev power : ℕ → ℕ → ℕ
power b zero = 1
power b (suc n) = b * power b n

abbrev whole : Floats ℕ
whole = record {
  nought = 0;
  one = 1;
  two = 2;
  lt = ltb;
  le = leb;
  add = λ a b. a + b;
  sub = λ a b. a - b;
  mul = λ a b. a * b;
  of_int = to_nat;
  power = λ b n. ok (power b n);
  truncate = λ a. ok (pos a);
  round = λ a. ok (pos a);
}

-- The source draws its state, and then the next number.
abbrev draw : ℕ → ℕ × ℕ
draw g = (g, g + 1)

abbrev message : RelayMessage
message = record { message_id = "m"; payload = "p"; attempts = 0 }

abbrev consumer : RetryingConsumer ℕ
consumer = record {
  backoff_policy = record {
    base_delay_ms = pos 100;
    multiplier = 2;
    max_delay_ms = pos 150;
    jitter_ratio = 0;
  };
  retry_budget = record { ratio = 1; maximum_tokens = 5; tokens = 5 };
  retry_topology = record { application_max_attempts = pos 3; sdk_max_retries = pos 0 };
  circuit_breaker = new_breaker (pos 9) (pos 50) (pos 1);
  dead_letters = [];
}

abbrev failure : ℕ → Delivery
failure now = record { outcome = transient_failure; now_ms = now; retry_after_ms = none }

abbrev failures : List Delivery
failures = failure 1 ∷ failure 2 ∷ failure 3 ∷ failure 4 ∷ []

two_retries : retries whole draw failures message consumer 0 ≡ 2
unfolding retries process handle retry validate allow allow_in record_failure failure_in opened
    allow_retry delay_ms jittered next_attempt new_breaker
two_retries = refl

planned_delay :
    (process whole draw (next_attempt message) transient_failure 7 (some (pos 120)) consumer 0).0
    ≡ ok (
        some (record {
          message = record { message_id = "m"; payload = "p"; attempts = 2 };
          delay_ms = 150;
          reason = failed_once;
        }))
unfolding process handle retry validate allow allow_in record_failure failure_in opened allow_retry
    delay_ms jittered next_attempt new_breaker
planned_delay = refl

topped_up : record_primary_request whole (pos 3) consumer.retry_budget ≡ ok consumer.retry_budget
unfolding record_primary_request
topped_up = refl

no_ratio : new_budget whole 0 5 5 ≡ raise value_error
unfolding new_budget
no_ratio = refl

process-Ending_example :
    Ending
      (next_attempt message)
      poison
      3
      none
      consumer
      (process whole draw message poison 3 none consumer 0)
process-Ending_example = process-Ending whole draw message poison 3 none consumer 0

retries-le_example : retries whole draw failures message consumer 0 ≤ 3 - (message.attempts + 1)
retries-le_example = retries-le whole draw failures message consumer 0 3 refl
