-- ===== src/Breaker/Tests.antt =====
-- Runs of concrete breakers.
use labs_for_linux_distribut.Base.{
  ◌≡◌, ◌≤◌, ◌+◌, ◌↔◌, List, [], ◌∷◌, pos, refl, true, false, leb, if◌then◌else◌,
}
use labs_for_linux_distribut.Breaker.{
  CircuitBreaker, closed, open_, new_breaker, allow_in, allow, success_in, record_success, opened,
  failure_in, record_failure, retry_after_ms,
}
use labs_for_linux_distribut.Breaker.Counts.{
  Call, allowed, succeeded, failed, call, run, IsCounting, run-IsCounting, allow-retry_after_ms,
}
use labs_for_linux_distribut.Breaker.Streaks.{streak, calm, run-opens}

abbrev calls : List Call
calls = failed 1 ∷ succeeded ∷ failed 2 ∷ allowed 3 ∷ []

abbrev two : CircuitBreaker
two = new_breaker (pos 2) (pos 50) (pos 1)

calls-calm : calm 2 0 calls ≡ true
unfolding calm
calls-calm = refl

second_opens : (call (failed 4) (run calls two)).open_until_ms ≡ 54
unfolding new_breaker run call allow allow_in record_success success_in record_failure failure_in
    opened
second_opens = refl

refused : (allow 10 (call (failed 4) (run calls two))).0 ≡ false
unfolding new_breaker run call allow allow_in record_success success_in record_failure failure_in
    opened
refused = refl

run-IsCounting_example : IsCounting 2 50 (pos 1) (run calls two)
run-IsCounting_example = run-IsCounting (pos 2) (pos 50) (pos 1) 2 50 calls refl refl

run-opens_example :
    ((run calls two).state ≡ closed)
    × ((call (failed 4) (run calls two)).state
        ≡ (if leb 2 (streak 0 calls + 1) then open_ else closed))
run-opens_example = run-opens (pos 2) (pos 50) (pos 1) 2 50 4 calls refl refl calls-calm

allow-retry_after_ms_example :
    (allow (10 + 44) (call (failed 4) (run calls two))).0 ≡ true
    ↔ retry_after_ms 10 (call (failed 4) (run calls two)) ≤ 44
allow-retry_after_ms_example = allow-retry_after_ms 10 44 (call (failed 4) (run calls two)) refused
