-- ===== src/Lock/Tests.antt =====
-- The theorems about locks, leases and the scheduler at concrete inputs, and runs of the code.
use labs_for_linux_distribut.Base.{
  ◌<◌, String, ◌≡◌, some, none, [], ◌∷◌, arith, ok, refl, pos, ltb, ◌+◌, ◌++◌, length, List,
}
use labs_for_linux_distribut.Base.Dict
use labs_for_linux_distribut.Lock.Redis
use labs_for_linux_distribut.Lock.Redis.{
  SimulationClock, RedisLockHandle, Service, Store, empty_store, stale_fence_error,
}
use labs_for_linux_distribut.Lock.Redis.Records.{at_key}
use labs_for_linux_distribut.Lock.Redis.Holding
use labs_for_linux_distribut.Lock.Redis.Holding.{
  System, Request, lock, unlock, flush, acquire-excludes,
}
use labs_for_linux_distribut.Lock.Redis.Release.{Released}
use labs_for_linux_distribut.Lock.Redis.Ready.{release-after_any_run, release_naive-deletes_any}
use labs_for_linux_distribut.Lock.Redis.Events.{run_turns, run-Logged}
use labs_for_linux_distribut.Lock.Redis.Turns.{numbered}
use labs_for_linux_distribut.Lock.Redis.Counters.{
  counter, incr_all, interleaved, counter-incr_all, counter-interleaved,
}

abbrev at_0 : SimulationClock
at_0 = record { now_ms = 0 }

-- A stand-in for the digest that has no collisions.
abbrev digest : String → String
digest s = s

abbrev service : Service
service = Redis.new_service digest empty_store

abbrev handle_a : RedisLockHandle
handle_a = record { key = "job"; owner_token = "a"; expires_at_ms = 100 }

abbrev requests : List Request
requests = lock "job" "b" (pos 50) ∷ flush "operator" ∷ Holding.tick (pos 99) ∷ []

abbrev locked : System
locked = record { clock = at_0; service = (Redis.acquire at_0 "job" "a" (pos 100) service).1 }

acquire_a : (Redis.acquire at_0 "job" "a" (pos 100) service).0 ≡ ok (some handle_a)
unfolding Redis.acquire Redis.new_service Dict.get
acquire_a = refl

clock_99 : (Holding.run digest locked requests).clock.now_ms < 100
unfolding Holding.run Holding.serve
clock_99 = omega arith

acquire-excludes_example :
    (Redis.acquire
      (Holding.run digest locked requests).clock
      "job"
      "c"
      (pos 10)
      (Holding.run digest locked requests).service).0
    ≡ ok none
acquire-excludes_example =
    acquire-excludes digest at_0 "job" "a" (pos 100) service handle_a requests "c" 9 acquire_a
      (tt, (tt, (tt, tt))) clock_99

abbrev flushed : System
flushed = Holding.run digest (record { clock = at_0; service = service }) requests

release-after_any_run_example :
    Released flushed.clock handle_a flushed.service.store
      (Redis.release_compare_and_delete digest flushed.clock handle_a flushed.service).0
      (Redis.release_compare_and_delete digest flushed.clock handle_a flushed.service).1.store
release-after_any_run_example =
    release-after_any_run digest (λ source e. e) empty_store at_0 requests handle_a refl

handle_b : at_key locked.service.store "job" ≡ some handle_a
unfolding Redis.acquire Redis.new_service Dict.get Dict.put
handle_b = refl

abbrev stale_handle : RedisLockHandle
stale_handle = record { key = "job"; owner_token = "b"; expires_at_ms = 5 }

-- The unsafe release of client b takes the live lock of client a.
release_naive-deletes_any_example :
    ((Redis.release_naive at_0 stale_handle locked.service).0 ≡ ltb 0 100)
    × (at_key (Redis.release_naive at_0 stale_handle locked.service).1.store "job" ≡ none)
release_naive-deletes_any_example =
    release_naive-deletes_any at_0 stale_handle locked.service handle_a handle_b

run-Logged_example :
    (Holding.run digest (record { clock = at_0; service = service }) requests).service.store.events
    ≡ service.store.events
      ++ numbered
          (length service.store.events)
          (run_turns digest (record { clock = at_0; service = service }) requests)
run-Logged_example = run-Logged digest (record { clock = at_0; service = service }) requests

counter-incr_all_example :
    counter "n" (incr_all "n" ("a" ∷ "b" ∷ []) empty_store) ≡ counter "n" empty_store + 2
counter-incr_all_example = counter-incr_all "n" ("a" ∷ "b" ∷ []) empty_store

counter-interleaved_example :
    counter "n" (interleaved "n" "a" "b" empty_store) ≡ counter "n" empty_store + 1
counter-interleaved_example = counter-interleaved "n" "a" "b" empty_store
