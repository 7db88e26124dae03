-- ===== src/Lock/Schedule.antt =====
-- labs/26-distributed-lock/src/lab_26_distributed_lock/simulation.py: `RelayScheduler` and
-- `SchedulerSimulation`. The instances share one lease manager, one ledger and one clock, which
-- are the fields of the simulation.
pub mod Attempts
pub mod Decisions
pub mod Runs
mod Tests
use labs_for_linux_distribut.Base.{
  ℕ, ◌+◌, ◌*◌, ◌/◌, String, Bool, true, false, Option, none, some, List, [], ◌∷◌, ◌==◌, ℤ, positive,
  Result, ok, raise, string_eq, map,
}
use labs_for_linux_distribut.Base.Dict
use labs_for_linux_distribut.Base.Dict.{Dict}
use labs_for_linux_distribut.Lock.Redis.{LockError, value_error, key_error, SimulationClock}
use labs_for_linux_distribut.Lock.Fence.{
  FencedLease, FencedLeaseManager, FencedScheduleLedger, acquire, release, record_interval,
  ScheduledInterval, decision,
}

pub record SchedulerAttempt : Type 0 where
  pub scheduler_id : String
  pub interval_start_ms : ℕ
  pub acquired_lease : Bool
  pub scheduled : Bool
  pub fence : Option ℕ

pub record RelayScheduler : Type 0 where
  pub scheduler_id : String
  pub lease_ttl_ms : ℤ

-- The manager and the ledger that the instances share.
pub record Shared : Type 0 where
  pub manager : FencedLeaseManager
  pub ledger : FencedScheduleLedger

abbrev pub lock_key : String
lock_key = "relay-scheduler"

-- `try_schedule` once the lease is there: a stale fence leaves the lease taken.
unfoldable pub schedule_with :
    SimulationClock
    → RelayScheduler
    → ℕ
    → FencedLease
    → Shared
    → Result LockError SchedulerAttempt × Shared
schedule_with clock r interval_start_ms lease h =
    let (reply, ledger) = record_interval interval_start_ms r.scheduler_id lease.fence h.ledger in
    let h1 = record h { ledger = ledger } in
    elim reply [
      | raise e ↦ (raise e, h1)
      | ok scheduled ↦ (
        ok (record {
          scheduler_id = r.scheduler_id;
          interval_start_ms = interval_start_ms;
          acquired_lease = true;
          scheduled = scheduled;
          fence = some lease.fence;
        }),
        record h1 { manager = (release clock lease h1.manager).1 },
      )
    ]

unfoldable pub try_schedule :
    SimulationClock → RelayScheduler → ℕ → Shared → Result LockError SchedulerAttempt × Shared
try_schedule clock r interval_start_ms h =
    let (reply, manager) = acquire clock lock_key r.scheduler_id r.lease_ttl_ms h.manager in
    let h1 = record h { manager = manager } in
    elim reply [
      | raise e ↦ (raise e, h1)
      | ok none ↦ (
        ok (record {
          scheduler_id = r.scheduler_id;
          interval_start_ms = interval_start_ms;
          acquired_lease = false;
          scheduled = false;
          fence = none;
        }),
        h1,
      )
      | ok (some lease) ↦ schedule_with clock r interval_start_ms lease h1
    ]

pub record SchedulerSimulation : Type 0 where
  pub clock : SimulationClock
  pub interval_ms : ℕ
  pub shared : Shared
  pub lease_ttl_ms : ℤ
  pub schedulers : Dict String RelayScheduler

-- `{scheduler_id: RelayScheduler(...) for scheduler_id in scheduler_ids}`
unfoldable pub staff : ℤ → List String → Dict String RelayScheduler → Dict String RelayScheduler
staff ttl [] d = d
staff ttl (id ∷ ids) d =
    staff ttl ids (Dict.put d id (record { scheduler_id = id; lease_ttl_ms = ttl }))

abbrev pub fresh_shared : Shared
fresh_shared = record {
  manager = record { leases = Dict.empty; fence_counters = Dict.empty };
  ledger = record { highest_fence = 0; intervals = Dict.empty };
}

-- `SchedulerSimulation.__init__`
unfoldable pub new_simulation :
    List String → SimulationClock → ℤ → ℤ → Result LockError SchedulerSimulation
unfolding staff
new_simulation ids clock interval_ms lease_ttl_ms = elim (positive interval_ms) [
  | none ↦ raise value_error
  | some interval ↦ ok (record {
    clock = clock;
    interval_ms = interval;
    shared = fresh_shared;
    lease_ttl_ms = lease_ttl_ms;
    schedulers = staff lease_ttl_ms ids Dict.empty;
  })
]

abbrev pub current_interval_start : SchedulerSimulation → ℕ
current_interval_start sim = sim.clock.now_ms / sim.interval_ms * sim.interval_ms

unfoldable pub restart_instance :
    String → SchedulerSimulation → Result LockError Bool × SchedulerSimulation
restart_instance id sim = elim (Dict.get sim.schedulers id) [
  | none ↦ (raise value_error, sim)
  | some _ ↦ (
    ok true,
    record sim {
      schedulers =
          Dict.put sim.schedulers id
            (record { scheduler_id = id; lease_ttl_ms = sim.lease_ttl_ms });
    },
  )
]

-- One entry of the generator in `run_interval`.
unfoldable pub attempt :
    SchedulerSimulation → ℕ → String → Shared → Result LockError SchedulerAttempt × Shared
attempt sim start id h = elim (Dict.get sim.schedulers id) [
  | none ↦ (raise key_error, h)
  | some r ↦ try_schedule sim.clock r start h
]

abbrev pub prepend :
    Result LockError SchedulerAttempt
    → Result LockError (List SchedulerAttempt)
    → Result LockError (List SchedulerAttempt)
prepend (ok a) (ok as_) = ok (a ∷ as_)
prepend (ok a) (raise e) = raise e
prepend (raise e) rest = raise e

-- The first exception ends the loop, with what the earlier entries did to the shared state.
unfoldable pub attempts :
    SchedulerSimulation
    → ℕ
    → List String
    → Shared
    → Result LockError (List SchedulerAttempt) × Shared
attempts sim start [] h = (ok [], h)
attempts sim start (id ∷ ids) h =
    let (reply, h1) = attempt sim start id h in
    let rest = attempts sim start ids h1 in
    elim reply [ raise e ↦ (raise e, h1) | ok a ↦ (prepend (ok a) rest.0, rest.1) ]

unfoldable pub run_interval :
    List String
    → SchedulerSimulation
    → Result LockError (List SchedulerAttempt) × SchedulerSimulation
run_interval order sim =
    let (reply, shared) = attempts sim (current_interval_start sim) order sim.shared in
    (reply, record sim { shared = shared })

unfoldable pub scheduled_interval : ℕ → SchedulerSimulation → Option ScheduledInterval
scheduled_interval start sim = decision start sim.shared.ledger
