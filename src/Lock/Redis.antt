-- ===== src/Lock/Redis.antt =====
-- labs/26-distributed-lock/src/lab_26_distributed_lock/simulation.py: the simulated Redis server
-- and the lock service on it. The shared clock is an argument of the operations that read it;
-- `hashlib.sha1` is the section's parameter.
pub mod Records
pub mod Holding
pub mod Release
pub mod Ready
pub mod Turns
pub mod Events
pub mod Counters
use labs_for_linux_distribut.Base.{
  ℕ, ◌+◌, String, Bool, true, false, Option, none, some, List, [], ◌∷◌, ◌++◌, ◌==◌, leb, ℤ, pos,
  negsuc, positive, length, Result, ok, raise, if◌then◌else◌, string_eq,
}
use labs_for_linux_distribut.Base.Dict
use labs_for_linux_distribut.Base.Dict.{Dict}

pub data LockError : Type 0 where
  value_error no_script_error stale_fence_error key_error : LockError

pub record SimulationClock : Type 0 where
  pub now_ms : ℕ

unfoldable pub advance : ℤ → SimulationClock → Result LockError SimulationClock
advance (negsuc n) c = raise value_error
advance (pos n) c = ok (record { now_ms = c.now_ms + n })

pub record RedisLockHandle : Type 0 where
  pub key : String
  pub owner_token : String
  pub expires_at_ms : ℕ

pub record RedisCommandEvent : Type 0 where
  pub sequence : ℕ
  pub client_id : String
  pub command : String

pub record InMemoryRedisStore : Type 0 where
  pub records : Dict String RedisLockHandle
  pub counters : Dict String ℕ
  pub scripts : Dict String String
  pub events : List RedisCommandEvent

abbrev pub empty_store : InMemoryRedisStore
empty_store = record {
  records = Dict.empty;
  counters = Dict.empty;
  scripts = Dict.empty;
  events = [];
}

-- The Lua source that the service loads, its lines joined by `;` for the line ends.
abbrev pub release_script : String
release_script =
    "if redis.call('get', KEYS[1]) == ARGV[1] then;    return redis.call('del', KEYS[1]);else;    return 0;end;"

abbrev pub Store : Type 0
Store = InMemoryRedisStore

unfoldable pub record_event : String → String → Store → Store
record_event client_id command s =
    let event : RedisCommandEvent = record {
      sequence = length s.events + 1;
      client_id = client_id;
      command = command;
    } in
    record s { events = s.events ++ event ∷ [] }

abbrev pub is_expired : ℕ → Option RedisLockHandle → Bool
is_expired now none = false
is_expired now (some h) = leb h.expires_at_ms now

unfoldable pub purge_if_expired : SimulationClock → String → Store → Store
purge_if_expired clock key s =
    if is_expired clock.now_ms (Dict.get s.records key)
    then record s { records = Dict.remove s.records key }
    else s

-- The write of `set_nx_px`, once the time to live has been checked.
unfoldable pub set_record : SimulationClock → String → String → ℕ → Store → Bool × Store
set_record clock key owner_token ttl_ms s = elim (Dict.get s.records key) [
  | some _ ↦ (false, s)
  | none ↦ (
    true,
    record s {
      records =
          Dict.put s.records key (record {
            key = key;
            owner_token = owner_token;
            expires_at_ms = clock.now_ms + ttl_ms;
          });
    },
  )
]

unfoldable pub set_nx_px :
    SimulationClock → String → String → ℤ → String → Store → Result LockError Bool × Store
unfolding record_event purge_if_expired set_record
set_nx_px clock key owner_token ttl_ms client_id s =
    let s1 = record_event client_id "SET NX PX" s in
    elim (positive ttl_ms) [
      | none ↦ (raise value_error, s1)
      | some ttl ↦
          let (set, s2) = set_record clock key owner_token ttl (purge_if_expired clock key s1) in
          (ok set, s2)
    ]

abbrev pub owner_of : Option RedisLockHandle → Option String
owner_of none = none
owner_of (some h) = some h.owner_token

unfoldable pub get : SimulationClock → String → String → Store → Option String × Store
unfolding record_event purge_if_expired
get clock key client_id s =
    let s1 = purge_if_expired clock key (record_event client_id "GET" s) in
    (owner_of (Dict.get s1.records key), s1)

abbrev pub is_present : Option RedisLockHandle → Bool
is_present none = false
is_present (some h) = true

unfoldable pub delete : SimulationClock → String → String → Store → Bool × Store
unfolding record_event purge_if_expired
delete clock key client_id s =
    let s1 = purge_if_expired clock key (record_event client_id "DEL" s) in
    (is_present (Dict.get s1.records key), record s1 { records = Dict.remove s1.records key })

abbrev pub count_of : Option ℕ → ℕ
count_of none = 0
count_of (some n) = n

unfoldable pub counter_get : String → String → Store → ℕ × Store
unfolding record_event
counter_get key client_id s = (count_of (Dict.get s.counters key), record_event client_id "GET" s)

unfoldable pub counter_set : String → ℕ → String → Store → Store
unfolding record_event
counter_set key value client_id s =
    let s1 = record_event client_id "SET" s in
    record s1 { counters = Dict.put s1.counters key value }

unfoldable pub counter_incr : String → String → Store → ℕ × Store
unfolding record_event
counter_incr key client_id s =
    let s1 = record_event client_id "INCR" s in
    let value = count_of (Dict.get s1.counters key) + 1 in
    (value, record s1 { counters = Dict.put s1.counters key value })

unfoldable pub script_flush : String → Store → Store
unfolding record_event
script_flush client_id s = record (record_event client_id "SCRIPT FLUSH" s) { scripts = Dict.empty }

abbrev pub owns : Option RedisLockHandle → String → Bool
owns none token = false
owns (some h) token = h.owner_token == token

-- The atomic get, compare and delete of the release script.
unfoldable pub compare_and_delete :
    SimulationClock → String → String → String → Store → Bool × Store
unfolding record_event purge_if_expired
compare_and_delete clock key owner_token client_id s =
    let s1 = purge_if_expired clock key (record_event client_id "EVALSHA GET-COMPARE-DEL" s) in
    if owns (Dict.get s1.records key) owner_token
    then (true, record s1 { records = Dict.remove s1.records key })
    else (false, s1)

unfoldable pub evalsha_compare_and_delete :
    SimulationClock → String → String → String → String → Store → Result LockError Bool × Store
unfolding record_event compare_and_delete
evalsha_compare_and_delete clock digest key owner_token client_id s =
    elim (Dict.get s.scripts digest) [
      | none ↦ (raise no_script_error, record_event client_id "EVALSHA NOSCRIPT" s)
      | some source ↦
          if source == release_script
          then (let (done, s1) = compare_and_delete clock key owner_token client_id s in
              (ok done, s1))
          else (raise value_error, s)
    ]

pub record RedisStyleLockService : Type 0 where
  pub store : Store
  pub release_script_sha : String

abbrev pub Service : Type 0
Service = RedisStyleLockService

unfoldable pub acquire :
    SimulationClock
    → String
    → String
    → ℤ
    → Service
    → Result LockError (Option RedisLockHandle) × Service
unfolding set_nx_px
acquire clock key owner_token ttl_ms v =
    let (reply, s) = set_nx_px clock key owner_token ttl_ms owner_token v.store in
    let handle : ℕ → RedisLockHandle =
      λ ttl. record { key = key; owner_token = owner_token; expires_at_ms = clock.now_ms + ttl } in
    (
      elim reply [
        | raise e ↦ raise e
        | ok true ↦ ok (elim (positive ttl_ms) [ none ↦ none | some ttl ↦ some (handle ttl) ])
        | ok false ↦ ok none
      ],
      record v { store = s },
    )

unfoldable pub release_naive : SimulationClock → RedisLockHandle → Service → Bool × Service
unfolding delete
release_naive clock handle v =
    let (gone, s) = delete clock handle.key handle.owner_token v.store in
    (gone, record v { store = s })

module _ (sha1 : String → String) where
  unfoldable pub script_load : String → String → Store → String × Store
  unfolding record_event
  script_load source client_id s =
      let s1 = record_event client_id "SCRIPT LOAD" s in
      (sha1 source, record s1 { scripts = Dict.put s1.scripts (sha1 source) source })

  -- `RedisStyleLockService.__init__`
  unfoldable pub new_service : Store → Service
  unfolding script_load
  new_service s =
      let (digest, s1) = script_load release_script "lock-service" s in
      record { store = s1; release_script_sha = digest }

  -- The `except NoScriptError` arm: load the script again, then evaluate it.
  unfoldable pub reload_and_release :
      SimulationClock → RedisLockHandle → Store → Result LockError Bool × Service
  reload_and_release clock handle s =
      let (digest, s1) = script_load release_script handle.owner_token s in
      let (reply, s2) =
        evalsha_compare_and_delete clock digest handle.key handle.owner_token handle.owner_token
          s1 in
      (reply, record { store = s2; release_script_sha = digest })

  unfoldable pub release_compare_and_delete :
      SimulationClock → RedisLockHandle → Service → Result LockError Bool × Service
  unfolding reload_and_release
  release_compare_and_delete clock handle v =
      let (reply, s) =
        evalsha_compare_and_delete clock v.release_script_sha handle.key handle.owner_token
          handle.owner_token v.store in
      elim reply [
        | ok done ↦ (ok done, record v { store = s })
        | raise no_script_error ↦ reload_and_release clock handle s
        | raise e ↦ (raise e, record v { store = s })
      ]
