-- ===== src/Lock/Fence/Tests.antt =====
-- The theorems about leases, fenced writes and the ledger at concrete inputs.
use labs_for_linux_distribut.Base.{
  ℕ, ◌<◌, ◌≤◌, ◌≡◌, true, false, some, none, [], ◌∷◌, arith, ok, raise, refl, pos, List, ltb,
  if◌then◌else◌,
}
use labs_for_linux_distribut.Base.Dict
use labs_for_linux_distribut.Lock.Redis.{SimulationClock, stale_fence_error}
use labs_for_linux_distribut.Lock.Fence
use labs_for_linux_distribut.Lock.Fence.{
  FencedLease, Manager, FencedRelayWrite, FencedRelayStore, FencedStoredValue, FencedScheduleLedger,
  write, read, decision,
}
use labs_for_linux_distribut.Lock.Fence.Writes.{
  write_all, empty_fenced, accepted_of, newest_of, fence_of, top_fence, read-newest,
}
use labs_for_linux_distribut.Lock.Fence.Leases
use labs_for_linux_distribut.Lock.Fence.Leases.{LeaseRequest, take, tick}
use labs_for_linux_distribut.Lock.Fence.Holders.{lease-excludes, stale_holder-refused}
use labs_for_linux_distribut.Lock.Fence.Ledger.{
  Call, perform, perform_all, as_decision, record-decides_once,
}

abbrev at_0 : SimulationClock
at_0 = record { now_ms = 0 }

abbrev empty_manager : Manager
empty_manager = record { leases = Dict.empty; fence_counters = Dict.empty }

abbrev lease_1 : FencedLease
lease_1 = record { key = "job"; owner_id = "a"; fence = 1; expires_at_ms = 100 }

abbrev lease_2 : FencedLease
lease_2 = record { key = "job"; owner_id = "b"; fence = 2; expires_at_ms = 150 }

got_1 : (Fence.acquire at_0 "job" "a" (pos 100) empty_manager).0 ≡ ok (some lease_1)
unfolding Fence.acquire Fence.grant Fence.purge_lease Dict.get
got_1 = refl

abbrev desk : Leases.Desk
desk = record { clock = at_0; manager = (Fence.acquire at_0 "job" "a" (pos 100) empty_manager).1 }

abbrev wait : ℕ → List LeaseRequest
wait n = take "job" "b" (pos 50) ∷ tick (pos n) ∷ []

clock_99 : (Leases.run desk (wait 99)).clock.now_ms < 100
unfolding Leases.run Leases.serve
clock_99 = omega arith

lease-excludes_example :
    (Fence.acquire
      (Leases.run desk (wait 99)).clock
      "job"
      "c"
      (pos 10)
      (Leases.run desk (wait 99)).manager).0
    ≡ ok none
lease-excludes_example =
    lease-excludes at_0 "job" "a" (pos 100) empty_manager lease_1 (wait 99) "c" 9 got_1
      (tt, (tt, tt)) clock_99

got_2 :
    (Fence.acquire
      (Leases.run desk (wait 100)).clock
      "job"
      "b"
      (pos 50)
      (Leases.run desk (wait 100)).manager).0
    ≡ ok (some lease_2)
unfolding Leases.run Leases.serve Fence.acquire Fence.grant Fence.purge_lease Dict.get Dict.remove
    Dict.put
got_2 = refl

abbrev write_of : FencedLease → FencedRelayWrite
write_of l = record { resource_id = "r"; writer_id = l.owner_id; payload = "x"; fence = l.fence }

accepted_2 : (write (write_of lease_2) empty_fenced).0 ≡ ok true
unfolding write Dict.get
accepted_2 = refl

-- The holder of the first lease wakes up after the second holder has written.
stale_holder-refused_example :
    write
      (write_of lease_1)
      (write_all (write_of lease_2 ∷ []) (write (write_of lease_2) empty_fenced).1)
    ≡ (
      raise stale_fence_error,
      write_all (write_of lease_2 ∷ []) (write (write_of lease_2) empty_fenced).1,
    )
stale_holder-refused_example =
    stale_holder-refused at_0 "job" "a" "b" (pos 100) (pos 50) empty_manager (wait 100) lease_1
      lease_2 empty_fenced (write_of lease_2) (write_of lease_1) (write_of lease_2 ∷ []) got_1 got_2
      refl refl refl accepted_2

abbrev value_of : FencedLease → FencedStoredValue
value_of l = record { writer_id = l.owner_id; payload = "x"; fence = l.fence }

read_1 : read "r" (write_all (write_of lease_1 ∷ []) empty_fenced) ≡ some (value_of lease_1)
unfolding read write write_all Dict.get Dict.put
read_1 = refl

read_2 :
    read "r" (
      write_all
        (write_of lease_2 ∷ write_of lease_1 ∷ [])
        (write_all (write_of lease_1 ∷ []) empty_fenced))
    ≡ some (value_of lease_2)
unfolding read write write_all Dict.get Dict.put
read_2 = refl

read-newest_example :
    (let ws = write_of lease_2 ∷ write_of lease_1 ∷ [] in
      let s = write_all ws empty_fenced in
      (read "r" s ≡ newest_of "r" (accepted_of ws []))
      × (fence_of (read "r" s) ≡ top_fence "r" (accepted_of ws []))
      × ((write (write_of lease_1) s).0 ≡ (
          if ltb (write_of lease_1).fence (top_fence "r" (accepted_of ws []))
          then raise stale_fence_error
          else ok true)))
read-newest_example = read-newest (write_of lease_2 ∷ write_of lease_1 ∷ []) "r" (write_of lease_1)

abbrev new_ledger : FencedScheduleLedger
new_ledger = record { highest_fence = 0; intervals = Dict.empty }

abbrev call : ℕ → Call
call n = record { interval_start_ms = 1000; scheduler_id = "s"; fence = n }

decided : (perform (call 1) new_ledger).0 ≡ ok true
unfolding Fence.record_interval Fence.record_once Dict.get
decided = refl

up_to_date : (perform_all (call 2 ∷ []) (perform (call 1) new_ledger).1).highest_fence ≤ 2
unfolding Fence.record_interval Fence.record_once Dict.get Dict.put perform_all
up_to_date = omega arith

record-decides_once_example :
    (decision 1000 (perform_all (call 2 ∷ []) (perform (call 1) new_ledger).1)
      ≡ some (as_decision (call 1)))
    × ((perform (call 2) (perform_all (call 2 ∷ []) (perform (call 1) new_ledger).1)).0 ≡ ok false)
record-decides_once_example =
    record-decides_once (call 1) (call 2) (call 2 ∷ []) new_ledger decided refl up_to_date
