-- ===== src/Lock/Fence/Leases.antt =====
-- The lease manager over any run of requests: fences grow, and a live lease excludes others.
use labs_for_linux_distribut.Base.{
  ℕ, ◌+◌, ◌≤◌, ◌<◌, String, ◌≡◌, Option, none, some, List, [], ◌∷◌, arith, ◌==◌, eq_iff,
  if◌then◌else◌, string_eq, nat_eq, Result, ok, raise, ℤ, pos, negsuc, zero, suc,
}
use labs_for_linux_distribut.Base.Dict
use labs_for_linux_distribut.Base.Dict.{get-put, get-remove}
use labs_for_linux_distribut.Lock.Redis.{LockError, SimulationClock, advance, count_of}
use labs_for_linux_distribut.Lock.Fence.{
  FencedLease, Manager, lapsed, purge_lease, grant, acquire, release,
}

pub record Desk : Type 0 where
  pub clock : SimulationClock
  pub manager : Manager

pub data LeaseRequest : Type 0 where
  take : String → String → ℤ → LeaseRequest
  give_back : FencedLease → LeaseRequest
  tick : ℤ → LeaseRequest

abbrev pub moved : Result LockError SimulationClock → SimulationClock → SimulationClock
moved (ok c) old = c
moved (raise e) old = old

unfoldable pub serve : Desk → LeaseRequest → Desk
unfolding advance
serve d (take key owner ttl) = record d { manager = (acquire d.clock key owner ttl d.manager).1 }
serve d (give_back lease) = record d { manager = (release d.clock lease d.manager).1 }
serve d (tick delta) = record d { clock = moved (advance delta d.clock) d.clock }

unfoldable pub run : Desk → List LeaseRequest → Desk
run d [] = d
run d (r ∷ rs) = run (serve d r) rs

abbrev pub issued : String → Manager → ℕ
issued key m = count_of (Dict.get m.fence_counters key)

abbrev pub lease_at : String → Manager → Option FencedLease
lease_at key m = Dict.get m.leases key

abbrev unless_lapsed : ℕ → Option FencedLease → Option FencedLease
unless_lapsed now o = if lapsed now o then none else o

pub lease_at-purge_lease :
    (c : SimulationClock) (key j : String) (m : Manager)
    → lease_at j (purge_lease c key m)
      ≡ (if key == j then unless_lapsed c.now_ms (lease_at j m) else lease_at j m)
unfolding purge_lease
lease_at-purge_lease c key j m = ground (arith, get-remove m.leases key j, eq_iff key j)

counters-purge_lease :
    (c : SimulationClock) (key : String) (m : Manager)
    → (purge_lease c key m).fence_counters ≡ m.fence_counters
unfolding purge_lease
counters-purge_lease c key m = ground arith

issued-grant-le :
    (c : SimulationClock) (key owner : String) (ttl : ℕ) (m : Manager) (j : String)
    → issued j m ≤ issued j (grant c key owner ttl m).1
unfolding grant
issued-grant-le c key owner ttl m j =
    ground (arith, get-put m.fence_counters key j (issued key m + 1), eq_iff key j)

issued-serve-le :
    (d : Desk) (r : LeaseRequest) (j : String) → issued j d.manager ≤ issued j (serve d r).manager
unfolding serve acquire release
issued-serve-le d (take key owner (pos zero)) j = omega arith
issued-serve-le d (take key owner (negsuc n)) j = omega arith
issued-serve-le d (take key owner (pos (suc n))) j = ground (
  arith,
  issued-grant-le d.clock key owner (suc n) (purge_lease d.clock key d.manager) j,
  counters-purge_lease d.clock key d.manager,
)
issued-serve-le d (give_back lease) j =
    ground (arith, counters-purge_lease d.clock lease.key d.manager)
issued-serve-le d (tick delta) j = omega arith

issued-run-le :
    (d : Desk) (rs : List LeaseRequest) (j : String)
    → issued j d.manager ≤ issued j (run d rs).manager
unfolding run
issued-run-le d [] j = omega arith
issued-run-le d (r ∷ rs) j = omega (arith, issued-serve-le d r j, issued-run-le (serve d r) rs j)

-- What a grant tells: the fence is the next one, and the lease is in the table.
pub record Granted (c : SimulationClock) (key owner : String) (m m' : Manager) (l : FencedLease)
    : Type 0 where
  pub key_of : l.key ≡ key
  pub owner_of : l.owner_id ≡ owner
  pub fence : l.fence ≡ issued key m + 1
  pub counted : issued key m' ≡ l.fence
  pub held : lease_at key m' ≡ some l
  pub alive : c.now_ms < l.expires_at_ms

pub acquire-Granted :
    (c : SimulationClock) (key owner : String) (ttl : ℤ) (m : Manager) (l : FencedLease)
    → (acquire c key owner ttl m).0 ≡ ok (some l)
    → Granted c key owner m (acquire c key owner ttl m).1 l
unfolding acquire grant
acquire-Granted c key owner (pos zero) m l h = cc
acquire-Granted c key owner (negsuc n) m l h = cc
acquire-Granted c key owner (pos (suc n)) m l h =
    let m1 = purge_lease c key m in
    let next = issued key m1 + 1 in
    ground (
      arith,
      counters-purge_lease c key m,
      eq_iff key key,
      get-put m1.fence_counters key key next,
      get-put m1.leases key key
          (record { key = key; owner_id = owner; fence = next; expires_at_ms = c.now_ms + suc n }),
    )

-- Of two leases of one key, the one that is granted later has the greater fence, whatever the
-- requests in between.
pub acquire-fence-lt :
    (c : SimulationClock) (key owner owner' : String) (ttl ttl' : ℤ) (m : Manager)
    (rs : List LeaseRequest) (l l' : FencedLease)
    → (acquire c key owner ttl m).0 ≡ ok (some l)
    → let d = run (record { clock = c; manager = (acquire c key owner ttl m).1 }) rs in
      (acquire d.clock key owner' ttl' d.manager).0 ≡ ok (some l') → l.fence < l'.fence
acquire-fence-lt c key owner owner' ttl ttl' m rs l l' got got' =
    let start : Desk = record { clock = c; manager = (acquire c key owner ttl m).1 } in
    let d = run start rs in
    let first = acquire-Granted c key owner ttl m l got in
    let second = acquire-Granted d.clock key owner' ttl' d.manager l' got' in
    omega (arith, issued-run-le start rs key, first.counted, second.fence)
