-- ===== src/Lock/Fence.antt =====
-- labs/26-distributed-lock/src/lab_26_distributed_lock/simulation.py: leases with fence tokens,
-- the stores that check them or do not, and the ledger of the scheduler. Fences are natural numbers.
pub mod Writes
pub mod Leases
pub mod Ledger
mod Tests
pub mod Holders
use labs_for_linux_distribut.Base.{
  ℕ, ◌+◌, String, Bool, true, false, Option, none, some, ◌==◌, ◌&&◌, leb, ltb, ℤ, positive, max,
  Result, ok, raise, if◌then◌else◌, string_eq, nat_eq,
}
use labs_for_linux_distribut.Base.Dict
use labs_for_linux_distribut.Base.Dict.{Dict}
use labs_for_linux_distribut.Lock.Redis.{
  LockError, value_error, stale_fence_error, SimulationClock, count_of,
}

pub record FencedLease : Type 0 where
  pub key : String
  pub owner_id : String
  pub fence : ℕ
  pub expires_at_ms : ℕ

-- The equality that `@dataclass(frozen=True)` gives.
abbrev pub lease_beq : FencedLease → FencedLease → Bool
lease_beq a b =
    a.key == b.key
    && a.owner_id == b.owner_id
    && a.fence == b.fence
    && a.expires_at_ms == b.expires_at_ms

pub record RelayWrite : Type 0 where
  pub resource_id : String
  pub writer_id : String
  pub payload : String

pub record FencedRelayWrite : Type 0 where
  pub resource_id : String
  pub writer_id : String
  pub payload : String
  pub fence : ℕ

pub record StoredValue : Type 0 where
  pub writer_id : String
  pub payload : String

pub record FencedStoredValue : Type 0 where
  pub writer_id : String
  pub payload : String
  pub fence : ℕ

pub record ScheduledInterval : Type 0 where
  pub interval_start_ms : ℕ
  pub scheduler_id : String
  pub fence : ℕ

pub record UnfencedRelayStore : Type 0 where
  pub values : Dict String StoredValue

unfoldable pub write_unfenced : RelayWrite → UnfencedRelayStore → UnfencedRelayStore
write_unfenced w s = record {
  values =
      Dict.put s.values w.resource_id (record { writer_id = w.writer_id; payload = w.payload });
}

unfoldable pub read_unfenced : String → UnfencedRelayStore → Option StoredValue
read_unfenced resource_id s = Dict.get s.values resource_id

pub record FencedRelayStore : Type 0 where
  pub values : Dict String FencedStoredValue
  pub highest_fence_by_resource : Dict String ℕ

abbrev pub highest_seen : String → FencedRelayStore → ℕ
highest_seen resource_id s = count_of (Dict.get s.highest_fence_by_resource resource_id)

-- `true` in the result stands for a return, `stale_fence_error` for the raise.
unfoldable pub write :
    FencedRelayWrite → FencedRelayStore → Result LockError Bool × FencedRelayStore
write w s = if ltb w.fence (highest_seen w.resource_id s) then (raise stale_fence_error, s) else (
  ok true,
  record {
    highest_fence_by_resource = Dict.put s.highest_fence_by_resource w.resource_id w.fence;
    values =
        Dict.put s.values w.resource_id
          (record { writer_id = w.writer_id; payload = w.payload; fence = w.fence });
  },
)

unfoldable pub read : String → FencedRelayStore → Option FencedStoredValue
read resource_id s = Dict.get s.values resource_id

pub record FencedLeaseManager : Type 0 where
  pub leases : Dict String FencedLease
  pub fence_counters : Dict String ℕ

abbrev pub Manager : Type 0
Manager = FencedLeaseManager

abbrev pub lapsed : ℕ → Option FencedLease → Bool
lapsed now none = false
lapsed now (some l) = leb l.expires_at_ms now

unfoldable pub purge_lease : SimulationClock → String → Manager → Manager
purge_lease clock key m =
    if lapsed clock.now_ms (Dict.get m.leases key)
    then record m { leases = Dict.remove m.leases key }
    else m

-- `acquire` from the test of `self._leases` on.
unfoldable pub grant :
    SimulationClock → String → String → ℕ → Manager → Option FencedLease × Manager
grant clock key owner_id ttl_ms m = elim (Dict.get m.leases key) [
  | some _ ↦ (none, m)
  | none ↦
      let next_fence = count_of (Dict.get m.fence_counters key) + 1 in
      let lease : FencedLease = record {
        key = key;
        owner_id = owner_id;
        fence = next_fence;
        expires_at_ms = clock.now_ms + ttl_ms;
      } in
      (
        some lease,
        record {
          fence_counters = Dict.put m.fence_counters key next_fence;
          leases = Dict.put m.leases key lease;
        },
      )
]

unfoldable pub acquire :
    SimulationClock
    → String
    → String
    → ℤ
    → Manager
    → Result LockError (Option FencedLease) × Manager
acquire clock key owner_id ttl_ms m = elim (positive ttl_ms) [
  | none ↦ (raise value_error, m)
  | some ttl ↦
      let (lease, m1) = grant clock key owner_id ttl (purge_lease clock key m) in (ok lease, m1)
]

abbrev pub is_active : Option FencedLease → FencedLease → Bool
is_active none lease = false
is_active (some active) lease = lease_beq active lease

unfoldable pub release : SimulationClock → FencedLease → Manager → Bool × Manager
release clock lease m =
    let m1 = purge_lease clock lease.key m in
    if is_active (Dict.get m1.leases lease.key) lease
    then (true, record m1 { leases = Dict.remove m1.leases lease.key })
    else (false, m1)

pub record FencedScheduleLedger : Type 0 where
  pub highest_fence : ℕ
  pub intervals : Dict ℕ ScheduledInterval

-- `record`, from the test of `self._intervals` on.
unfoldable pub record_once : ℕ → String → ℕ → FencedScheduleLedger → Bool × FencedScheduleLedger
record_once interval_start_ms scheduler_id fence l = elim (Dict.get l.intervals interval_start_ms) [
  | some _ ↦ (false, l)
  | none ↦ (
    true,
    record l {
      intervals = Dict.put l.intervals interval_start_ms (record {
        interval_start_ms = interval_start_ms;
        scheduler_id = scheduler_id;
        fence = fence;
      });
    },
  )
]

unfoldable pub record_interval :
    ℕ → String → ℕ → FencedScheduleLedger → Result LockError Bool × FencedScheduleLedger
record_interval interval_start_ms scheduler_id fence l =
    let (new, l1) =
      record_once interval_start_ms scheduler_id fence
        (record l { highest_fence = max l.highest_fence fence }) in
    if ltb fence l.highest_fence then (raise stale_fence_error, l) else (ok new, l1)

unfoldable pub decision : ℕ → FencedScheduleLedger → Option ScheduledInterval
decision interval_start_ms l = Dict.get l.intervals interval_start_ms
