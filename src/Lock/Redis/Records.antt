-- ===== src/Lock/Redis/Records.antt =====
-- What each operation of the Redis server does to the record of a key. A record that has expired
-- counts as absent.
use labs_for_linux_distribut.Base.{
  ℕ, ◌+◌, ◌<◌, String, ◌≡◌, false, ◌&&◌, Option, none, some, ℤ, pos, negsuc, arith, ◌==◌, eq_iff,
  if◌then◌else◌, string_eq, zero, suc,
}
use labs_for_linux_distribut.Base.Dict
use labs_for_linux_distribut.Base.Dict.{Dict, dict_laws, get-put, get-remove}
use labs_for_linux_distribut.Lock.Redis.{
  SimulationClock, RedisLockHandle, Store, Service, is_expired, owns, purge_if_expired, set_record,
  set_nx_px, delete, compare_and_delete, evalsha_compare_and_delete, release_script, record_event,
  script_load, release_compare_and_delete,
}

abbrev pub live : ℕ → Option RedisLockHandle → Option RedisLockHandle
live now o = if is_expired now o then none else o

abbrev pub at_key : Store → String → Option RedisLockHandle
at_key s key = Dict.get s.records key

pub at_key-purge_if_expired :
    (c : SimulationClock) (key j : String) (s : Store)
    → at_key (purge_if_expired c key s) j
      ≡ (if key == j then live c.now_ms (at_key s j) else at_key s j)
unfolding purge_if_expired
at_key-purge_if_expired c key j s = ground (arith, get-remove s.records key j, eq_iff key j)

pub at_key-delete :
    (c : SimulationClock) (key client : String) (j : String) (s : Store)
    → at_key (delete c key client s).1 j ≡ (if key == j then none else at_key s j)
unfolding delete record_event
at_key-delete c key client j s =
    simp get-remove (ground (arith, at_key-purge_if_expired c key j (record_event client "DEL" s)))

pub at_key-compare_and_delete :
    (c : SimulationClock) (key token client : String) (j : String) (s : Store)
    → at_key (compare_and_delete c key token client s).1 j ≡ (
        if key == j
        then (if owns (live c.now_ms (at_key s j)) token then none else live c.now_ms (at_key s j))
        else at_key s j)
unfolding compare_and_delete record_event purge_if_expired
at_key-compare_and_delete c key token client j s =
    ground (
      arith,
      get-remove s.records key j,
      get-remove s.records key key,
      eq_iff key j,
      eq_iff key key,
    )

-- The record that `SET NX PX` leaves: the live one if there is one, else the new one.
abbrev pub or_new : Option RedisLockHandle → RedisLockHandle → RedisLockHandle
or_new (some h) new = h
or_new none new = new

pub at_key-set_record :
    (c : SimulationClock) (key token : String) (ttl : ℕ) (j : String) (s : Store)
    → at_key (set_record c key token ttl s).1 j ≡ (
        if key == j
        then some (
            or_new
              (at_key s j)
              (record { key = key; owner_token = token; expires_at_ms = c.now_ms + ttl }))
        else at_key s j)
unfolding set_record
at_key-set_record c key token ttl j s = ground (
  arith,
  get-put s.records key j
      (record { key = key; owner_token = token; expires_at_ms = c.now_ms + ttl }),
  eq_iff key j,
)

-- While a record is live, no operation but a release by its owner's token, a plain delete and
-- the passing of time takes it away.
module _ (c : SimulationClock) (key : String) (h : RedisLockHandle)
    (alive : c.now_ms < h.expires_at_ms) where
  pub set_nx_px-keeps :
      (j token : String) (ttl : ℤ) (client : String) (s : Store)
      → at_key s key ≡ some h
      → at_key (set_nx_px c j token ttl client s).1 key ≡ some h
  unfolding set_nx_px record_event
  set_nx_px-keeps j token (negsuc n) client s held = held
  set_nx_px-keeps j token (pos zero) client s held = held
  set_nx_px-keeps j token (pos (suc n)) client s held =
      let s1 = purge_if_expired c j (record_event client "SET NX PX" s) in
      ground (
        arith,
        at_key-set_record c j token (suc n) key s1,
        at_key-purge_if_expired c j key (record_event client "SET NX PX" s),
      )

  pub evalsha-keeps :
      (digest j token client : String) (s : Store)
      → (j == key && h.owner_token == token) ≡ false
      → at_key s key ≡ some h
      → at_key (evalsha_compare_and_delete c digest j token client s).1 key ≡ some h
  unfolding evalsha_compare_and_delete record_event
  evalsha-keeps digest j token client s other held =
      ground (arith, at_key-compare_and_delete c j token client key s)

  pub delete-keeps :
      (j client : String) (s : Store)
      → (j == key) ≡ false
      → at_key s key ≡ some h
      → at_key (delete c j client s).1 key ≡ some h
  delete-keeps j client s other held = rw (at_key-delete c j client key s, other) held

  pub release-keeps :
      (sha1 : String → String) (handle : RedisLockHandle) (v : Service)
      → (handle.key == key && h.owner_token == handle.owner_token) ≡ false
      → at_key v.store key ≡ some h
      → at_key (release_compare_and_delete sha1 c handle v).1.store key ≡ some h
  unfolding release_compare_and_delete script_load record_event
  release-keeps sha1 handle v other held =
      let s1 =
        (evalsha_compare_and_delete c v.release_script_sha handle.key handle.owner_token
          handle.owner_token v.store).1 in
      ground (
        arith,
        evalsha-keeps v.release_script_sha handle.key handle.owner_token handle.owner_token v.store,
        evalsha-keeps (sha1 release_script) handle.key handle.owner_token handle.owner_token
            (script_load sha1 release_script handle.owner_token s1).1,
      )
