-- ===== src/Consumer/Redeliveries.antt =====
-- A message that is delivered again and again, as `process` plans it.
use labs_for_linux_distribut.Base.{
  ℕ, zero, suc, ◌+◌, ◌-◌, ◌≤◌, ◌≡◌, false, Option, none, some, List, [], ◌∷◌, ℤ, pos, negsuc,
  positive, reaches, arith, ap, ok, raise, ◌∙◌,
}
use labs_for_linux_distribut.Admission.{RelayMessage, next_attempt}
use labs_for_linux_distribut.Consumer.{
  RelayOutcome, Reason, failed_once, Floats, RetryingConsumer, Processed, process,
}
use labs_for_linux_distribut.Consumer.Endings.{
  Ending, done, dead, refused, retried, failed, process-Ended,
}

pub record Delivery : Type 0 where
  pub outcome : RelayOutcome
  pub now_ms : ℕ
  pub retry_after_ms : Option ℤ

abbrev pub weigh : Reason → ℕ
weigh failed_once = 1
weigh _ = 0

reaches-lt :
    (z : ℤ) (n attempts : ℕ) → positive z ≡ some n → reaches attempts z ≡ false → suc attempts ≤ n
reaches-lt (pos zero) n attempts p h = absurd cc
reaches-lt (pos (suc m)) n attempts p h = let e : suc m ≡ n = cc in ground (arith, e, h)
reaches-lt (negsuc m) n attempts p h = absurd cc

module _ {F G : Type 0} (fl : Floats F) (random : G → F × G) where
  -- How many retries after a failure are planned, when each delivery but the first is of the message
  -- that was planned by the one before.
  unfoldable pub retries : List Delivery → RelayMessage → RetryingConsumer F → G → ℕ
  retries [] message c g = 0
  retries (d ∷ ds) message c g =
      let p = process fl random message d.outcome d.now_ms d.retry_after_ms c g in
      elim p.0 [
        | raise e ↦ 0
        | ok o ↦ elim o [ none ↦ 0 | some i ↦ weigh i.reason + retries ds i.message p.1 p.2 ]
      ]

  -- A message is delivered, and then each time the message that the consumer has planned last, until
  -- it plans none or raises. Along that chain, whatever comes of each delivery, the consumer plans a
  -- retry after a failure at most `application_max_attempts` - 1 - `attempts` times, where the limit
  -- is at least 1; the subtraction stops at 0.
  pub retries-le :
      (ds : List Delivery) (message : RelayMessage) (c : RetryingConsumer F) (g : G) (n : ℕ)
      → positive c.retry_topology.application_max_attempts ≡ some n
      → retries ds message c g ≤ n - (message.attempts + 1)
  unfolding retries next_attempt
  retries-le [] message c g n h = omega arith
  retries-le (d ∷ ds) message c g n h =
      let (ending, same) =
        process-Ended fl random message d.outcome d.now_ms d.retry_after_ms c g in
      let limit = ap (λ t. positive t.application_max_attempts) same ∙ h in
      follow ending (λ m. retries-le ds m after.1 after.2 n limit)
    where
      after : Processed F G
      after = process fl random message d.outcome d.now_ms d.retry_after_ms c g

      follow :
          Ending (next_attempt message) d.outcome d.now_ms d.retry_after_ms c after
          → ((m : RelayMessage) → retries ds m after.1 after.2 ≤ n - (m.attempts + 1))
          → retries (d ∷ ds) message c g ≤ n - (message.attempts + 1)
      follow (done e _ _) later = rw (e, retries) (omega arith)
      follow (dead r e _ _) later = rw (e, retries) (omega arith)
      follow (failed x e _) later = rw (e, retries) (omega arith)
      follow (refused i e r m _ _) later =
          rw (e, retries, r) (omega (arith, later i.message, ap (λ k. k.attempts) m))
      follow (retried i e r m _ few _ _) later =
          let below =
            reaches-lt c.retry_topology.application_max_attempts n (message.attempts + 1) h few in
          rw (e, retries, r) (omega (arith, later i.message, ap (λ k. k.attempts) m, below))
