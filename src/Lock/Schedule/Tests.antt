-- ===== src/Lock/Schedule/Tests.antt =====
-- The theorem about the scheduler at a concrete simulation, and a run of it.
use labs_for_linux_distribut.Base.{String, ◌≡◌, [], ◌∷◌, ok, refl, pos, List, All}
use labs_for_linux_distribut.Base.Dict
use labs_for_linux_distribut.Lock.Redis.{SimulationClock}
use labs_for_linux_distribut.Lock.Schedule.{
  SchedulerSimulation, RelayScheduler, new_simulation, staff, fresh_shared, current_interval_start,
  run_interval, restart_instance,
}
use labs_for_linux_distribut.Lock.Schedule.Decisions.{IsKnown, AttemptsOf}
use labs_for_linux_distribut.Lock.Schedule.Runs.{
  Operation, restart, tick, run, operate, run_interval-decides_once,
}

abbrev at_0 : SimulationClock
at_0 = record { now_ms = 0 }

abbrev names : List String
names = "a" ∷ "b" ∷ []

abbrev sim : SchedulerSimulation
sim = record {
  clock = at_0;
  interval_ms = 1000;
  shared = fresh_shared;
  lease_ttl_ms = pos 250;
  schedulers = staff (pos 250) names Dict.empty;
}

sim_new : new_simulation names at_0 (pos 1000) (pos 250) ≡ ok sim
unfolding new_simulation
sim_new = refl

abbrev history : List Operation
history = restart "a" ∷ tick (pos 1000) ∷ []

abbrev instance_of : String → RelayScheduler
instance_of id = record { scheduler_id = id; lease_ttl_ms = pos 250 }

known : All (IsKnown (run sim history)) names
unfolding run operate restart_instance staff Dict.get Dict.put
known = ((instance_of "a", refl), ((instance_of "b", refl), tt))

run_interval-decides_once_example :
    AttemptsOf
      (current_interval_start (run sim history))
      names
      (run sim history).shared
      (run_interval names (run sim history)).0
      (run_interval names (run sim history)).1.shared
run_interval-decides_once_example =
    run_interval-decides_once names at_0 (pos 1000) 249 sim history names sim_new known
