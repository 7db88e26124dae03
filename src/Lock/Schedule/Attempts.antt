-- ===== src/Lock/Schedule/Attempts.antt =====
-- One attempt of a scheduler instance while no other holds the lease.
use labs_for_linux_distribut.Base.{
  ℕ, ◌+◌, ◌≤◌, ◌<◌, String, ◌≡◌, Bool, true, false, none, some, arith, eq_iff, nat_beq_iff, nat_eq,
  string_eq, Result, ok, refl, pos, suc,
}
use labs_for_linux_distribut.Base.Dict.{get-put, get-remove}
use labs_for_linux_distribut.Lock.Redis.{LockError, SimulationClock}
use labs_for_linux_distribut.Lock.Fence.{
  FencedLease, FencedLeaseManager, FencedScheduleLedger, ScheduledInterval, acquire, release, grant,
  purge_lease, record_interval, record_once, decision,
}
use labs_for_linux_distribut.Lock.Fence.Leases.{issued, lease_at}
use labs_for_linux_distribut.Lock.Schedule.{
  RelayScheduler, SchedulerAttempt, Shared, lock_key, schedule_with, try_schedule,
}

-- Nobody holds the scheduler's lease, and no fence in the ledger is ahead of the manager.
pub record IsIdle (h : Shared) : Type 0 where
  pub free : lease_at lock_key h.manager ≡ none
  pub behind : h.ledger.highest_fence ≤ issued lock_key h.manager

abbrev pub undecided : ℕ → Shared → Bool
undecided start h = elim (decision start h.ledger) [ none ↦ true | some _ ↦ false ]

-- What an attempt returns, and the shared state after it.
pub record Attempted (r : RelayScheduler) (start : ℕ) (h : Shared)
    (reply : Result LockError SchedulerAttempt) (h' : Shared) : Type 0 where
  pub answer :
      reply
      ≡ ok (record {
        scheduler_id = r.scheduler_id;
        interval_start_ms = start;
        acquired_lease = true;
        scheduled = undecided start h;
        fence = some (issued lock_key h.manager + 1);
      })
  pub idle : IsIdle h'
  pub decided : undecided start h' ≡ false

abbrev next_lease : SimulationClock → String → ℕ → FencedLeaseManager → FencedLease
next_lease c owner ttl m = record {
  key = lock_key;
  owner_id = owner;
  fence = issued lock_key m + 1;
  expires_at_ms = c.now_ms + ttl;
}

acquire-free :
    (c : SimulationClock) (owner : String) (n : ℕ) (m : FencedLeaseManager)
    → lease_at lock_key m ≡ none
    → ((acquire c lock_key owner (pos (suc n)) m).0 ≡ ok (some (next_lease c owner (suc n) m)))
      × (lease_at lock_key (acquire c lock_key owner (pos (suc n)) m).1
          ≡ some (next_lease c owner (suc n) m))
      × (issued lock_key (acquire c lock_key owner (pos (suc n)) m).1 ≡ issued lock_key m + 1)
unfolding acquire grant purge_lease
acquire-free c owner n m free = ground (
  arith,
  get-put m.leases lock_key lock_key (next_lease c owner (suc n) m),
  get-put m.fence_counters lock_key lock_key (issued lock_key m + 1),
)

release-held :
    (c : SimulationClock) (lease : FencedLease) (m : FencedLeaseManager)
    → lease.key ≡ lock_key
    → c.now_ms < lease.expires_at_ms
    → lease_at lock_key m ≡ some lease
    → (lease_at lock_key (release c lease m).1 ≡ none)
      × (issued lock_key (release c lease m).1 ≡ issued lock_key m)
unfolding release purge_lease
release-held c lease m same alive held = ground (
  arith,
  get-remove m.leases lock_key lock_key,
  eq_iff lease.key lease.key,
  eq_iff lease.owner_id lease.owner_id,
  nat_beq_iff lease.fence lease.fence,
  nat_beq_iff lease.expires_at_ms lease.expires_at_ms,
)

abbrev is_undecided : ℕ → FencedScheduleLedger → Bool
is_undecided start l = elim (decision start l) [ none ↦ true | some _ ↦ false ]

record_interval-fresh :
    (start : ℕ) (id : String) (fence : ℕ) (l : FencedScheduleLedger)
    → l.highest_fence ≤ fence
    → ((record_interval start id fence l).0 ≡ ok (is_undecided start l))
      × (is_undecided start (record_interval start id fence l).1 ≡ false)
      × ((record_interval start id fence l).1.highest_fence ≡ fence)
unfolding record_interval record_once decision
record_interval-fresh start id fence l fresh =
    let d : ScheduledInterval = record {
      interval_start_ms = start;
      scheduler_id = id;
      fence = fence;
    } in
    ground (arith, get-put l.intervals start start d, nat_beq_iff start start)

schedule_with-held :
    (c : SimulationClock) (r : RelayScheduler) (start : ℕ) (lease : FencedLease) (h : Shared)
    → lease.key ≡ lock_key
    → c.now_ms < lease.expires_at_ms
    → lease_at lock_key h.manager ≡ some lease
    → issued lock_key h.manager ≡ lease.fence
    → h.ledger.highest_fence ≤ lease.fence
    → ((schedule_with c r start lease h).0
        ≡ ok (record {
          scheduler_id = r.scheduler_id;
          interval_start_ms = start;
          acquired_lease = true;
          scheduled = undecided start h;
          fence = some lease.fence;
        }))
      × IsIdle (schedule_with c r start lease h).1
      × (undecided start (schedule_with c r start lease h).1 ≡ false)
unfolding schedule_with
schedule_with-held c r start lease h same alive held counted behind = ground (
  arith,
  release-held c lease h.manager,
  record_interval-fresh start r.scheduler_id lease.fence h.ledger,
)

try_schedule-free :
    (c : SimulationClock) (r : RelayScheduler) (n start : ℕ) (h : Shared)
    → r.lease_ttl_ms ≡ pos (suc n)
    → lease_at lock_key h.manager ≡ none
    → try_schedule c r start h
      ≡ schedule_with c r start
          (next_lease c r.scheduler_id (suc n) h.manager)
          (record h { manager = (acquire c lock_key r.scheduler_id (pos (suc n)) h.manager).1 })
unfolding try_schedule
try_schedule-free c r n start h ttl free =
    ground (arith, acquire-free c r.scheduler_id n h.manager free)

-- With a positive time to live and nobody holding the lease, an attempt gets the lease, records
-- the interval exactly if it was undecided, and gives the lease back.
pub try_schedule-Attempted :
    (c : SimulationClock) (r : RelayScheduler) (n start : ℕ) (h : Shared)
    → r.lease_ttl_ms ≡ pos (suc n)
    → IsIdle h
    → Attempted r start h (try_schedule c r start h).0 (try_schedule c r start h).1
try_schedule-Attempted c r n start h ttl idle =
    let lease = next_lease c r.scheduler_id (suc n) h.manager in
    let m1 = (acquire c lock_key r.scheduler_id (pos (suc n)) h.manager).1 in
    let (got, held, counted) = acquire-free c r.scheduler_id n h.manager idle.free in
    let (answer, idle', decided) =
      schedule_with-held c r start lease (record h { manager = m1 }) refl (omega arith) held counted
        (omega (arith, idle.behind)) in
    rw (try_schedule-free c r n start h ttl idle.free)
      (record { answer = answer; idle = idle'; decided = decided })
