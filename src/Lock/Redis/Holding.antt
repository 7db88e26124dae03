-- ===== src/Lock/Redis/Holding.antt =====
-- The Redis-style lock over whole runs: requests of any clients, script flushes and the clock.
use labs_for_linux_distribut.Base.{
  ℕ, ◌+◌, ◌≤◌, ◌<◌, String, ◌≡◌, false, none, some, List, [], ◌∷◌, ℤ, pos, negsuc, arith, ◌==◌,
  ◌&&◌, eq_iff, string_eq, zero, suc, All, Result, ok,
}
use labs_for_linux_distribut.Base.Dict.{get-put}
use labs_for_linux_distribut.Lock.Redis.{
  LockError, SimulationClock, advance, RedisLockHandle, Store, Service, set_nx_px, acquire,
  release_naive, release_compare_and_delete, script_flush, script_load, set_record, record_event,
  purge_if_expired,
}
use labs_for_linux_distribut.Lock.Redis.Records.{
  at_key, set_nx_px-keeps, delete-keeps, release-keeps, at_key-purge_if_expired,
}

-- The clock that the server and its clients share, with the service.
pub record System : Type 0 where
  pub clock : SimulationClock
  pub service : Service

pub data Request : Type 0 where
  lock : String → String → ℤ → Request
  unlock : RedisLockHandle → Request
  naive_unlock : RedisLockHandle → Request
  flush : String → Request
  load : String → String → Request
  tick : ℤ → Request

-- A refused `advance` leaves the clock alone.
abbrev pub tick_clock : Result LockError SimulationClock → SimulationClock → SimulationClock
tick_clock (ok c) old = c
tick_clock _ old = old

module _ (sha1 : String → String) where
  unfoldable pub serve : System → Request → System
  unfolding advance script_flush script_load
  serve y (lock key token ttl) = record y { service = (acquire y.clock key token ttl y.service).1 }
  serve y (unlock handle) = record y {
    service = (release_compare_and_delete sha1 y.clock handle y.service).1;
  }
  serve y (naive_unlock handle) = record y { service = (release_naive y.clock handle y.service).1 }
  serve y (flush client) = record y {
    service = record y.service { store = script_flush client y.service.store };
  }
  serve y (load source client) = record y {
    service = record y.service { store = (script_load sha1 source client y.service.store).1 };
  }
  serve y (tick delta) = record y { clock = tick_clock (advance delta y.clock) y.clock }

  unfoldable pub run : System → List Request → System
  run y [] = y
  run y (r ∷ rs) = run (serve y r) rs

-- A request that does not release `key` with the owner's token, nor deletes `key` plainly.
abbrev pub Respects : String → String → Request → Type 0
Respects key token (unlock handle) = (handle.key == key && token == handle.owner_token) ≡ false
Respects key token (naive_unlock handle) = (handle.key == key) ≡ false
Respects key token _ = Unit

module _ (sha1 : String → String) where
  clock-serve-le : (y : System) (r : Request) → y.clock.now_ms ≤ (serve sha1 y r).clock.now_ms
  unfolding serve
  clock-serve-le y (tick (pos n)) = omega arith
  clock-serve-le y (tick (negsuc n)) = omega arith
  clock-serve-le y _ = omega arith

  clock-run-le : (y : System) (rs : List Request) → y.clock.now_ms ≤ (run sha1 y rs).clock.now_ms
  unfolding run
  clock-run-le y [] = omega arith
  clock-run-le y (r ∷ rs) = omega (arith, clock-serve-le y r, clock-run-le (serve sha1 y r) rs)

  serve-keeps :
      (y : System) (r : Request) (key : String) (h : RedisLockHandle)
      → Respects key h.owner_token r
      → (serve sha1 y r).clock.now_ms < h.expires_at_ms
      → at_key y.service.store key ≡ some h
      → at_key (serve sha1 y r).service.store key ≡ some h
  unfolding serve acquire release_naive record_event
  serve-keeps y (lock j token ttl) key h ok_ alive held =
      set_nx_px-keeps y.clock key h alive j token ttl token y.service.store held
  serve-keeps y (unlock handle) key h other alive held =
      release-keeps y.clock key h alive sha1 handle y.service other held
  serve-keeps y (naive_unlock handle) key h other alive held =
      delete-keeps y.clock key h alive handle.key handle.owner_token y.service.store other held
  serve-keeps y (flush client) key h other alive held = held
  serve-keeps y (load source client) key h other alive held = held
  serve-keeps y (tick delta) key h other alive held = held

  run-keeps :
      (y : System) (rs : List Request) (key : String) (h : RedisLockHandle)
      → All (Respects key h.owner_token) rs
      → (run sha1 y rs).clock.now_ms < h.expires_at_ms
      → at_key y.service.store key ≡ some h
      → at_key (run sha1 y rs).service.store key ≡ some h
  unfolding run
  run-keeps y [] key h respects alive held = held
  run-keeps y (r ∷ rs) key h respects alive held =
      let y1 = serve sha1 y r in
      run-keeps y1 rs key h respects.1 alive
        (serve-keeps y r key h respects.0 (omega (arith, clock-run-le y1 rs)) held)

-- While a record is live, `SET NX PX` answers that the key is taken.
set_nx_px-refused :
    (c : SimulationClock) (key token client : String) (n : ℕ) (s : Store) (h : RedisLockHandle)
    → c.now_ms < h.expires_at_ms
    → at_key s key ≡ some h
    → (set_nx_px c key token (pos (suc n)) client s).0 ≡ ok false
unfolding set_nx_px record_event
set_nx_px-refused c key token client n s h alive held =
    ground
      (arith, at_key-purge_if_expired c key key (record_event client "SET NX PX" s), eq_iff key key)

-- A successful `acquire` has written its handle as the record of the key.
at_key-acquire :
    (c : SimulationClock) (key token : String) (ttl : ℤ) (v : Service) (h : RedisLockHandle)
    → (acquire c key token ttl v).0 ≡ ok (some h)
    → (at_key (acquire c key token ttl v).1.store key ≡ some h) × (h.owner_token ≡ token)
unfolding acquire set_nx_px record_event set_record
at_key-acquire c key token (negsuc n) v h got = cc
at_key-acquire c key token (pos zero) v h got = cc
at_key-acquire c key token (pos (suc n)) v h got =
    let s1 = purge_if_expired c key (record_event token "SET NX PX" v.store) in
    ground (
      arith,
      get-put s1.records key key
          (record { key = key; owner_token = token; expires_at_ms = c.now_ms + suc n }),
      eq_iff key key,
    )

-- Mutual exclusion: once `acquire` has returned the handle `h`, then after any run of requests
-- that neither releases the key with the owner's token nor deletes it plainly, and that ends
-- before `h` expires, every `acquire` of the key with a positive time to live returns `None`.
pub acquire-excludes :
    (sha1 : String → String) (c : SimulationClock) (key owner : String) (ttl : ℤ) (v : Service)
    (h : RedisLockHandle) (rs : List Request) (token : String) (n : ℕ)
    → (acquire c key owner ttl v).0 ≡ ok (some h)
    → All (Respects key owner) rs
    → (run sha1 (record { clock = c; service = (acquire c key owner ttl v).1 }) rs).clock.now_ms
      < h.expires_at_ms
    → let z = run sha1 (record { clock = c; service = (acquire c key owner ttl v).1 }) rs in
      (acquire z.clock key token (pos (suc n)) z.service).0 ≡ ok none
unfolding acquire
acquire-excludes sha1 c key owner ttl v h rs token n got respects alive =
    let y : System = record { clock = c; service = (acquire c key owner ttl v).1 } in
    let z = run sha1 y rs in
    let (held, own) = at_key-acquire c key owner ttl v h got in
    let kept = run-keeps sha1 y rs key h (rw own respects) alive held in
    ground (arith, set_nx_px-refused z.clock key token token n z.service.store h alive kept)
