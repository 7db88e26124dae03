-- ===== src/Lock/Fence/Ledger.antt =====
-- The ledger of the scheduler over any sequence of records.
use labs_for_linux_distribut.Base.{
  ℕ, ◌≤◌, ◌<◌, String, ◌≡◌, Bool, true, false, none, some, List, [], ◌∷◌, arith, nat_beq_iff,
  nat_eq, Result, ok, raise, ap,
}
use labs_for_linux_distribut.Base.Dict.{get-put}
use labs_for_linux_distribut.Lock.Redis.{LockError, stale_fence_error}
use labs_for_linux_distribut.Lock.Fence.{
  ScheduledInterval, FencedScheduleLedger, record_once, record_interval, decision,
}

-- A call of `record`: the interval, the scheduler and its fence.
pub record Call : Type 0 where
  pub interval_start_ms : ℕ
  pub scheduler_id : String
  pub fence : ℕ

abbrev pub perform : Call → FencedScheduleLedger → Result LockError Bool × FencedScheduleLedger
perform call l = record_interval call.interval_start_ms call.scheduler_id call.fence l

unfoldable pub perform_all : List Call → FencedScheduleLedger → FencedScheduleLedger
perform_all [] l = l
perform_all (call ∷ calls) l = perform_all calls (perform call l).1

abbrev pub as_decision : Call → ScheduledInterval
as_decision call = record {
  interval_start_ms = call.interval_start_ms;
  scheduler_id = call.scheduler_id;
  fence = call.fence;
}

-- What a call answers, and what it does to the highest fence and to each decision.
pub record Performed (call : Call) (l : FencedScheduleLedger) : Type 0 where
  pub stale : call.fence < l.highest_fence → perform call l ≡ (raise stale_fence_error, l)
  pub fresh :
      l.highest_fence ≤ call.fence
      → (perform call l).0
        ≡ ok (elim (decision call.interval_start_ms l) [ none ↦ true | some _ ↦ false ])
  pub highest : l.highest_fence ≤ (perform call l).1.highest_fence
  pub first :
      (perform call l).0 ≡ ok true
      → decision call.interval_start_ms (perform call l).1 ≡ some (as_decision call)
  pub kept :
      (i : ℕ) (d : ScheduledInterval)
      → decision i l ≡ some d
      → decision i (perform call l).1 ≡ some d

pub perform-Performed : (call : Call) (l : FencedScheduleLedger) → Performed call l
unfolding record_interval record_once decision
perform-Performed call l =
    let start = call.interval_start_ms in
    record {
      stale = λ h. ground arith;
      fresh = λ h. ground arith;
      highest = ground arith;
      first = λ h.
          ground
            (arith, get-put l.intervals start start (as_decision call), nat_beq_iff start start);
      kept = λ i d h.
          ground (arith, get-put l.intervals start i (as_decision call), nat_beq_iff start i);
    }

decision-kept :
    (calls : List Call) (l : FencedScheduleLedger) (i : ℕ) (d : ScheduledInterval)
    → decision i l ≡ some d
    → decision i (perform_all calls l) ≡ some d
unfolding perform_all
decision-kept [] l i d h = h
decision-kept (call ∷ calls) l i d h =
    decision-kept calls (perform call l).1 i d ((perform-Performed call l).kept i d h)

-- An interval is decided once: after a call of `record` that returned True, whatever calls follow,
-- the decision of its interval is that of this call, and a further call for the interval, if its
-- fence is not stale, returns False.
pub record-decides_once :
    (call again : Call) (calls : List Call) (l : FencedScheduleLedger)
    → (perform call l).0 ≡ ok true
    → again.interval_start_ms ≡ call.interval_start_ms
    → (perform_all calls (perform call l).1).highest_fence ≤ again.fence
    → (decision call.interval_start_ms (perform_all calls (perform call l).1)
        ≡ some (as_decision call))
      × ((perform again (perform_all calls (perform call l).1)).0 ≡ ok false)
record-decides_once call again calls l done same fresh =
    let l1 = perform_all calls (perform call l).1 in
    let start = call.interval_start_ms in
    let kept =
      decision-kept calls (perform call l).1 start (as_decision call)
        ((perform-Performed call l).first done) in
    (kept, ground (arith, (perform-Performed again l1).fresh fresh, ap (λ i. decision i l1) same))
