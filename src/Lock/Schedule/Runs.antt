-- ===== src/Lock/Schedule/Runs.antt =====
-- Whole runs of the simulation: intervals, restarts of instances and the clock.
use labs_for_linux_distribut.Base.{
  ℕ, String, ◌≡◌, some, List, [], ◌∷◌, arith, eq_iff, string_eq, Result, ok, raise, refl, ℤ, pos,
  negsuc, zero, suc, All, subst, ◌∙◌, Option-cases, inl, inr,
}
use labs_for_linux_distribut.Base.Dict
use labs_for_linux_distribut.Base.Dict.{Dict, get-put, get-empty}
use labs_for_linux_distribut.Lock.Redis.{LockError, SimulationClock, advance}
use labs_for_linux_distribut.Lock.Fence.{FencedLease, acquire}
use labs_for_linux_distribut.Lock.Schedule.{
  RelayScheduler, Shared, lock_key, try_schedule, SchedulerSimulation, staff, fresh_shared,
  new_simulation, current_interval_start, restart_instance, attempt, attempts, run_interval,
}
use labs_for_linux_distribut.Lock.Schedule.Attempts.{IsIdle, try_schedule-Attempted}
use labs_for_linux_distribut.Lock.Schedule.Decisions.{
  IsSound, IsKnown, AttemptsOf, attempts-AttemptsOf,
}

pub data Operation : Type 0 where
  interval : List String → Operation
  restart : String → Operation
  tick : ℤ → Operation

abbrev pub later_clock : Result LockError SimulationClock → SimulationClock → SimulationClock
later_clock (ok c) old = c
later_clock (raise e) old = old

unfoldable pub operate : SchedulerSimulation → Operation → SchedulerSimulation
operate sim (interval order) = (run_interval order sim).1
operate sim (restart id) = (restart_instance id sim).1
operate sim (tick delta) = record sim { clock = later_clock (advance delta sim.clock) sim.clock }

unfoldable pub run : SchedulerSimulation → List Operation → SchedulerSimulation
run sim [] = sim
run sim (o ∷ os) = run (operate sim o) os

-- A refused time to live stops an attempt before anything changes.
try_schedule-IsIdle :
    (c : SimulationClock) (r : RelayScheduler) (ttl : ℤ) (start : ℕ) (h : Shared)
    → r.lease_ttl_ms ≡ ttl
    → IsIdle h
    → IsIdle (try_schedule c r start h).1
try_schedule-IsIdle c r (pos (suc n)) start h e idle =
    (try_schedule-Attempted c r n start h e idle).idle
try_schedule-IsIdle c r (pos zero) start h e idle = unfold try_schedule acquire in rw e idle
try_schedule-IsIdle c r (negsuc n) start h e idle = unfold try_schedule acquire in rw e idle

attempt-IsIdle :
    (sim : SchedulerSimulation) (start : ℕ) (id : String) (h : Shared)
    → IsIdle h
    → IsIdle (attempt sim start id h).1
unfolding attempt
attempt-IsIdle sim start id h idle = elim (Option-cases (Dict.get sim.schedulers id)) [
  | inl e ↦ rw (e, attempt) idle
  | inr (r, e) ↦ rw (e, attempt) (try_schedule-IsIdle sim.clock r r.lease_ttl_ms start h refl idle)
]

restart-IsSound :
    (sim : SchedulerSimulation) (id : String) → IsSound sim → IsSound (restart_instance id sim).1
unfolding restart_instance
restart-IsSound sim id sound = elim (Option-cases (Dict.get sim.schedulers id)) [
  | inl e ↦ rw (e, restart_instance) sound
  | inr (old, e) ↦
      rw (e, restart_instance)
        (record {
          staffed = λ j r h. ground (
            arith,
            sound.staffed j r,
            get-put sim.schedulers id j
                (record { scheduler_id = id; lease_ttl_ms = sim.lease_ttl_ms }),
            eq_iff id j,
          );
          idle = sound.idle;
        })
]

attempts-IsIdle :
    (sim : SchedulerSimulation) (start : ℕ) (ids : List String) (h : Shared)
    → IsIdle h
    → IsIdle (attempts sim start ids h).1
unfolding attempts
attempts-IsIdle sim start [] h idle = idle
attempts-IsIdle sim start (id ∷ ids) h idle =
    let one = attempt-IsIdle sim start id h idle in
    ground (arith, one, attempts-IsIdle sim start ids (attempt sim start id h).1 one)

operate-IsSound :
    (sim : SchedulerSimulation) (o : Operation) → IsSound sim → IsSound (operate sim o)
unfolding operate run_interval
operate-IsSound sim (interval order) sound = record {
  staffed = sound.staffed;
  idle = attempts-IsIdle sim (current_interval_start sim) order sim.shared sound.idle;
}
operate-IsSound sim (restart id) sound = restart-IsSound sim id sound
operate-IsSound sim (tick delta) sound = record { staffed = sound.staffed; idle = sound.idle }

run-IsSound : (sim : SchedulerSimulation) (os : List Operation) → IsSound sim → IsSound (run sim os)
unfolding run
run-IsSound sim [] sound = sound
run-IsSound sim (o ∷ os) sound = run-IsSound (operate sim o) os (operate-IsSound sim o sound)

ttl-operate :
    (sim : SchedulerSimulation) (o : Operation) → (operate sim o).lease_ttl_ms ≡ sim.lease_ttl_ms
unfolding operate run_interval restart_instance
ttl-operate sim (interval order) = refl
ttl-operate sim (restart id) = ground arith
ttl-operate sim (tick delta) = refl

ttl-run :
    (sim : SchedulerSimulation) (os : List Operation) → (run sim os).lease_ttl_ms ≡ sim.lease_ttl_ms
unfolding run
ttl-run sim [] = refl
ttl-run sim (o ∷ os) = ttl-run (operate sim o) os ∙ ttl-operate sim o

-- Staffing keeps the two facts about each instance.
staff-staffed :
    (ttl : ℤ) (ids : List String) (d : Dict String RelayScheduler)
    → ((j : String) (r : RelayScheduler)
        → Dict.get d j ≡ some r
        → (r.scheduler_id ≡ j) × (r.lease_ttl_ms ≡ ttl))
    → (j : String) (r : RelayScheduler) → Dict.get (staff ttl ids d) j ≡ some r
    → (r.scheduler_id ≡ j) × (r.lease_ttl_ms ≡ ttl)
unfolding staff
staff-staffed ttl [] d inv j r h = inv j r h
staff-staffed ttl (id ∷ ids) d inv j r h =
    let new : RelayScheduler = record { scheduler_id = id; lease_ttl_ms = ttl } in
    staff-staffed ttl ids (Dict.put d id new)
      (λ i q e. ground (arith, inv i q, get-put d id i new, eq_iff id i)) j r h

fresh_shared-IsIdle : IsIdle fresh_shared
fresh_shared-IsIdle = record {
  free = get-empty {K = String} {V = FencedLease} lock_key;
  behind = omega arith;
}

abbrev built : List String → SimulationClock → ℕ → ℤ → SchedulerSimulation
built ids c every ttl = record {
  clock = c;
  interval_ms = every;
  shared = fresh_shared;
  lease_ttl_ms = ttl;
  schedulers = staff ttl ids Dict.empty;
}

built-IsSound :
    (ids : List String) (c : SimulationClock) (every : ℕ) (ttl : ℤ)
    → IsSound (built ids c every ttl)
built-IsSound ids c every ttl = record {
  staffed =
      staff-staffed ttl ids Dict.empty
        (λ j r h. cc (get-empty {K = String} {V = RelayScheduler} j));
  idle = fresh_shared-IsIdle;
}

new_simulation-IsSound :
    (ids : List String) (c : SimulationClock) (interval_ms ttl : ℤ) (sim : SchedulerSimulation)
    → new_simulation ids c interval_ms ttl ≡ ok sim
    → IsSound sim × (sim.lease_ttl_ms ≡ ttl)
unfolding new_simulation
new_simulation-IsSound ids c (pos zero) ttl sim h = cc
new_simulation-IsSound ids c (negsuc n) ttl sim h = cc
new_simulation-IsSound ids c (pos (suc n)) ttl sim h =
    let e : built ids c (suc n) ttl ≡ sim = cc in
    subst (λ (s : SchedulerSimulation). IsSound s × (s.lease_ttl_ms ≡ ttl)) e
      (built-IsSound ids c (suc n) ttl, refl)

-- Each interval is decided once. In a simulation that `__init__` returns with a positive time to
-- live of the lease, after any run of intervals, restarts and clock steps, `run_interval` over
-- known instances returns (no exception, no stale fence): every instance gets the lease, the first
-- one records the interval exactly if it was undecided, and no other does. Afterwards the interval
-- is undecided only if it was so and nobody attempted it.
pub run_interval-decides_once :
    (ids : List String) (c : SimulationClock) (interval_ms : ℤ) (n : ℕ) (sim : SchedulerSimulation)
    (os : List Operation) (order : List String)
    → new_simulation ids c interval_ms (pos (suc n)) ≡ ok sim
    → All (IsKnown (run sim os)) order
    → let z = run sim os in
      AttemptsOf
        (current_interval_start z)
        order
        z.shared
        (run_interval order z).0
        (run_interval order z).1.shared
unfolding run_interval
run_interval-decides_once ids c interval_ms n sim os order h known =
    let z = run sim os in
    let (sound, time) = new_simulation-IsSound ids c interval_ms (pos (suc n)) sim h in
    let here = run-IsSound sim os sound in
    attempts-AttemptsOf z here n (ttl-run sim os ∙ time) (current_interval_start z) order z.shared
      known here.idle
