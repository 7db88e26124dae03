-- ===== src/Lock/Schedule/Decisions.antt =====
-- Each interval is decided once, over any run of the simulation.
use labs_for_linux_distribut.Base.{
  ℕ, String, ◌≡◌, Bool, true, false, some, List, [], ◌∷◌, arith, nat_eq, string_eq, Result, ok,
  refl, pos, suc, All, ap, ◌∙◌,
}
use labs_for_linux_distribut.Base.Dict
use labs_for_linux_distribut.Base.Dict.{Dict, get-put, get-empty}
use labs_for_linux_distribut.Lock.Redis.{LockError}
use labs_for_linux_distribut.Lock.Schedule.{
  RelayScheduler, SchedulerAttempt, Shared, try_schedule, SchedulerSimulation, attempt, attempts,
}
use labs_for_linux_distribut.Lock.Schedule.Attempts.{
  IsIdle, undecided, Attempted, try_schedule-Attempted,
}

-- Every instance has its own name and the time to live of the simulation, and nobody holds the
-- lease between two operations.
pub record IsSound (sim : SchedulerSimulation) : Type 0 where
  pub staffed :
      (id : String) (r : RelayScheduler)
      → Dict.get sim.schedulers id ≡ some r
      → (r.scheduler_id ≡ id) × (r.lease_ttl_ms ≡ sim.lease_ttl_ms)
  pub idle : IsIdle sim.shared

-- The attempts that an interval should see: all get the lease, and the first one records the
-- interval if it is undecided.
abbrev pub Expected : ℕ → Bool → List String → List SchedulerAttempt → Type 0
Expected start open_ [] [] = Unit
Expected start open_ [] (a ∷ as_) = ⊥
Expected start open_ (id ∷ ids) [] = ⊥
Expected start open_ (id ∷ ids) (a ∷ as_) =
    (a.scheduler_id ≡ id)
    × (a.interval_start_ms ≡ start)
    × (a.acquired_lease ≡ true)
    × (a.scheduled ≡ open_)
    × Expected start false ids as_

abbrev pub IsKnown : SchedulerSimulation → String → Type 0
IsKnown sim id = (r : RelayScheduler) × (Dict.get sim.schedulers id ≡ some r)

-- An interval stays undecided only if nobody attempted it.
abbrev pub open_after : List String → Bool → Bool
open_after [] open_ = open_
open_after (id ∷ ids) open_ = false

open_after-false : (ids : List String) → open_after ids false ≡ false
open_after-false [] = refl
open_after-false (id ∷ ids) = refl

pub record AttemptsOf (start : ℕ) (ids : List String) (h : Shared)
    (reply : Result LockError (List SchedulerAttempt)) (h' : Shared) : Type 0 where
  pub list : List SchedulerAttempt
  pub answer : reply ≡ ok list
  pub expected : Expected start (undecided start h) ids list
  pub idle : IsIdle h'
  pub settled : undecided start h' ≡ open_after ids (undecided start h)

module _ (sim : SchedulerSimulation) (sound : IsSound sim) (n : ℕ)
    (ttl : sim.lease_ttl_ms ≡ pos (suc n)) (start : ℕ) where
  attempts-cons :
      (id : String) (ids : List String) (h : Shared) (r : RelayScheduler) (a : SchedulerAttempt)
      (list : List SchedulerAttempt)
      → Dict.get sim.schedulers id ≡ some r
      → (try_schedule sim.clock r start h).0 ≡ ok a
      → (attempts sim start ids (try_schedule sim.clock r start h).1).0 ≡ ok list
      → attempts sim start (id ∷ ids) h
        ≡ (ok (a ∷ list), (attempts sim start ids (try_schedule sim.clock r start h).1).1)
  unfolding attempts attempt
  attempts-cons id ids h r a list here one rest = ground arith

  AttemptsOf-cons :
      (id : String) (ids : List String) (h : Shared) (r : RelayScheduler)
      → r.scheduler_id ≡ id
      → Dict.get sim.schedulers id ≡ some r
      → Attempted r start h
          (try_schedule sim.clock r start h).0
          (try_schedule sim.clock r start h).1
      → (let h1 = (try_schedule sim.clock r start h).1 in
          AttemptsOf start ids h1 (attempts sim start ids h1).0 (attempts sim start ids h1).1)
      → AttemptsOf start
          (id ∷ ids)
          h
          (attempts sim start (id ∷ ids) h).0
          (attempts sim start (id ∷ ids) h).1
  AttemptsOf-cons id ids h r name here one rest =
      rw (attempts-cons id ids h r _ rest.list here one.answer rest.answer) (record {
        list = _ ∷ rest.list;
        answer = refl;
        expected = (name, refl, refl, refl, rw one.decided at rest.expected);
        idle = rest.idle;
        settled = rest.settled ∙ ap (open_after ids) one.decided ∙ open_after-false ids;
      })

  pub attempts-AttemptsOf :
      (ids : List String) (h : Shared)
      → All (IsKnown sim) ids
      → IsIdle h
      → AttemptsOf start ids h (attempts sim start ids h).0 (attempts sim start ids h).1
  attempts-AttemptsOf [] h known idle =
      unfold attempts in
      record { list = []; answer = refl; expected = tt; idle = idle; settled = refl }
  attempts-AttemptsOf (id ∷ ids) h ((r, here), known) idle =
      let (name, time) = sound.staffed id r here in
      let one = try_schedule-Attempted sim.clock r n start h (time ∙ ttl) idle in
      AttemptsOf-cons id ids h r name here one
        (attempts-AttemptsOf ids (try_schedule sim.clock r start h).1 known one.idle)
