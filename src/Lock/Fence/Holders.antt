-- ===== src/Lock/Fence/Holders.antt =====
-- Lease holders and the fenced store together.
use labs_for_linux_distribut.Base.{
  ℕ, ◌+◌, ◌≤◌, ◌<◌, String, ◌≡◌, true, false, none, some, List, [], ◌∷◌, arith, eq_iff, string_eq,
  nat_eq, ok, raise, All, ℤ, pos, negsuc, zero, suc,
}
use labs_for_linux_distribut.Base.Dict.{get-put, get-remove}
use labs_for_linux_distribut.Lock.Redis.{SimulationClock, stale_fence_error}
use labs_for_linux_distribut.Lock.Fence.{
  FencedLease, Manager, FencedRelayWrite, FencedRelayStore, lease_beq, write, purge_lease, grant,
  acquire, release,
}
use labs_for_linux_distribut.Lock.Fence.Writes.{write_all, write-refuses_stale}
use labs_for_linux_distribut.Lock.Fence.Leases.{
  Desk, LeaseRequest, take, give_back, tick, serve, run, issued, lease_at, lease_at-purge_lease,
  acquire-Granted, acquire-fence-lt,
}

-- The request does not give back this very lease.
abbrev pub Spares : FencedLease → LeaseRequest → Type 0
Spares l (give_back lease) = lease_beq l lease ≡ false
Spares l _ = Unit

clock-serve-le : (d : Desk) (r : LeaseRequest) → d.clock.now_ms ≤ (serve d r).clock.now_ms
unfolding serve
clock-serve-le d (tick (pos n)) = omega arith
clock-serve-le d (tick (negsuc n)) = omega arith
clock-serve-le d _ = omega arith

clock-run-le : (d : Desk) (rs : List LeaseRequest) → d.clock.now_ms ≤ (run d rs).clock.now_ms
unfolding run
clock-run-le d [] = omega arith
clock-run-le d (r ∷ rs) = omega (arith, clock-serve-le d r, clock-run-le (serve d r) rs)

module _ (key : String) (l : FencedLease) where
  acquire-keeps :
      (c : SimulationClock) (j owner : String) (ttl : ℤ) (m : Manager)
      → c.now_ms < l.expires_at_ms
      → lease_at key m ≡ some l
      → lease_at key (acquire c j owner ttl m).1 ≡ some l
  unfolding acquire grant
  acquire-keeps c j owner (pos zero) m alive held = held
  acquire-keeps c j owner (negsuc n) m alive held = held
  acquire-keeps c j owner (pos (suc n)) m alive held =
      let m1 = purge_lease c j m in
      ground (
        arith,
        lease_at-purge_lease c j key m,
        eq_iff j key,
        get-put m1.leases j key (record {
          key = j;
          owner_id = owner;
          fence = issued j m1 + 1;
          expires_at_ms = c.now_ms + suc n;
        }),
      )

  release-keeps :
      (c : SimulationClock) (lease : FencedLease) (m : Manager)
      → lease_beq l lease ≡ false
      → c.now_ms < l.expires_at_ms
      → lease_at key m ≡ some l
      → lease_at key (release c lease m).1 ≡ some l
  unfolding release
  release-keeps c lease m other alive held =
      let m1 = purge_lease c lease.key m in
      ground (
        arith,
        lease_at-purge_lease c lease.key key m,
        eq_iff lease.key key,
        get-remove m1.leases lease.key key,
      )

  serve-keeps :
      (d : Desk) (r : LeaseRequest)
      → Spares l r
      → (serve d r).clock.now_ms < l.expires_at_ms
      → lease_at key d.manager ≡ some l
      → lease_at key (serve d r).manager ≡ some l
  unfolding serve
  serve-keeps d (take j owner ttl) spares alive held =
      acquire-keeps d.clock j owner ttl d.manager alive held
  serve-keeps d (give_back lease) spares alive held =
      release-keeps d.clock lease d.manager spares alive held
  serve-keeps d (tick delta) spares alive held = held

  run-keeps :
      (d : Desk) (rs : List LeaseRequest)
      → All (Spares l) rs
      → (run d rs).clock.now_ms < l.expires_at_ms
      → lease_at key d.manager ≡ some l
      → lease_at key (run d rs).manager ≡ some l
  unfolding run
  run-keeps d [] spares alive held = held
  run-keeps d (r ∷ rs) spares alive held =
      let d1 = serve d r in
      run-keeps d1 rs spares.1 alive
        (serve-keeps d r spares.0 (omega (arith, clock-run-le d1 rs)) held)

  acquire-taken :
      (c : SimulationClock) (owner : String) (n : ℕ) (m : Manager)
      → c.now_ms < l.expires_at_ms
      → lease_at key m ≡ some l
      → (acquire c key owner (pos (suc n)) m).0 ≡ ok none
  unfolding acquire grant
  acquire-taken c owner n m alive held =
      ground (arith, lease_at-purge_lease c key key m, eq_iff key key)

-- A lease excludes: until it expires, after any requests that do not give back this very lease,
-- `acquire` of its key with a positive time to live returns `None`.
pub lease-excludes :
    (c : SimulationClock) (key owner : String) (ttl : ℤ) (m : Manager) (l : FencedLease)
    (rs : List LeaseRequest) (owner' : String) (n : ℕ)
    → (acquire c key owner ttl m).0 ≡ ok (some l)
    → All (Spares l) rs
    → (run (record { clock = c; manager = (acquire c key owner ttl m).1 }) rs).clock.now_ms
      < l.expires_at_ms
    → let d = run (record { clock = c; manager = (acquire c key owner ttl m).1 }) rs in
      (acquire d.clock key owner' (pos (suc n)) d.manager).0 ≡ ok none
lease-excludes c key owner ttl m l rs owner' n got spares alive =
    let start : Desk = record { clock = c; manager = (acquire c key owner ttl m).1 } in
    let d = run start rs in
    let first = acquire-Granted c key owner ttl m l got in
    acquire-taken key l d.clock owner' n d.manager alive
      (run-keeps key l start rs spares alive first.held)

-- A paused holder cannot overwrite: the lease `l` is granted, any requests follow, then `l'` is
-- granted for the same key. Once a write with the fence of `l'` is accepted for a resource, every
-- later write to it with the fence of `l` raises `StaleFenceError` and changes nothing, whatever
-- was written in between.
pub stale_holder-refused :
    (c : SimulationClock) (key owner owner' : String) (ttl ttl' : ℤ) (m : Manager)
    (rs : List LeaseRequest) (l l' : FencedLease) (s : FencedRelayStore) (w late : FencedRelayWrite)
    (ws : List FencedRelayWrite)
    → (acquire c key owner ttl m).0 ≡ ok (some l)
    → let d = run (record { clock = c; manager = (acquire c key owner ttl m).1 }) rs in
      (acquire d.clock key owner' ttl' d.manager).0 ≡ ok (some l')
      → w.fence ≡ l'.fence
      → late.fence ≡ l.fence
      → late.resource_id ≡ w.resource_id
      → (write w s).0 ≡ ok true
      → write late (write_all ws (write w s).1)
        ≡ (raise stale_fence_error, write_all ws (write w s).1)
stale_holder-refused c key owner owner' ttl ttl' m rs l l' s w late ws got got' fw fl same
      accepted =
    write-refuses_stale w late ws s accepted same
      (omega (arith, acquire-fence-lt c key owner owner' ttl ttl' m rs l l' got got'))
