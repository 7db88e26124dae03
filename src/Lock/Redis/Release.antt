-- ===== src/Lock/Redis/Release.antt =====
-- The safe and the unsafe release. The safe one works whatever happened to the script cache.
use labs_for_linux_distribut.Base.{
  String, ◌≡◌, Bool, none, some, arith, ◌==◌, eq_iff, if◌then◌else◌, Option-cases, ◌⊎◌, inl, inr,
  string_eq, Result, ok, refl, sym, ap, ◌∙◌,
}
use labs_for_linux_distribut.Base.Dict
use labs_for_linux_distribut.Base.Dict.{get-put, get-remove, get-empty}
use labs_for_linux_distribut.Lock.Redis.{
  LockError, no_script_error, SimulationClock, RedisLockHandle, Store, Service, owns,
  release_compare_and_delete, evalsha_compare_and_delete, compare_and_delete, script_load,
  record_event, release_script, purge_if_expired,
}
use labs_for_linux_distribut.Lock.Redis.Records.{live, at_key, at_key-compare_and_delete}

-- Each cached source stands under its own digest, and the service knows the digest of its script.
pub record IsReady (sha1 : String → String) (v : Service) : Type 0 where
  pub digests : (d source : String) → Dict.get v.store.scripts d ≡ some source → d ≡ sha1 source
  pub sha : v.release_script_sha ≡ sha1 release_script

-- What the release script answers and does to the record of each key.
abbrev pub Released :
    SimulationClock → RedisLockHandle → Store → Result LockError Bool → Store → Type 0
Released c handle s reply s' =
    (reply ≡ ok (owns (live c.now_ms (at_key s handle.key)) handle.owner_token))
    × ((j : String)
        → at_key s' j ≡ (
            if handle.key == j
            then (if owns (live c.now_ms (at_key s j)) handle.owner_token
                then none
                else live c.now_ms (at_key s j))
            else at_key s j))

module _ (sha1 : String → String) (c : SimulationClock) (handle : RedisLockHandle) where
  abbrev pub eval : String → Store → Result LockError Bool × Store
  eval digest s =
      evalsha_compare_and_delete c digest handle.key handle.owner_token handle.owner_token s

  abbrev pub cad : Store → Bool × Store
  cad s = compare_and_delete c handle.key handle.owner_token handle.owner_token s

  reply-cad :
      (s : Store) → (cad s).0 ≡ owns (live c.now_ms (at_key s handle.key)) handle.owner_token
  unfolding compare_and_delete record_event purge_if_expired
  reply-cad s =
      ground (arith, get-remove s.records handle.key handle.key, eq_iff handle.key handle.key)

  pub scripts-cad : (s : Store) → (cad s).1.scripts ≡ s.scripts
  unfolding compare_and_delete record_event purge_if_expired
  scripts-cad s = ground arith

  eval-hit :
      (digest : String) (s : Store)
      → Dict.get s.scripts digest ≡ some release_script
      → eval digest s ≡ (ok (cad s).0, (cad s).1)
  unfolding evalsha_compare_and_delete
  eval-hit digest s hit = rw (hit, evalsha_compare_and_delete)

  eval-miss :
      (digest : String) (s : Store)
      → Dict.get s.scripts digest ≡ none
      → eval digest s
        ≡ (Result.raise no_script_error, record_event handle.owner_token "EVALSHA NOSCRIPT" s)
  unfolding evalsha_compare_and_delete
  eval-miss digest s miss = rw (miss, evalsha_compare_and_delete)

  -- The call either evaluates at once, or loads the script again and evaluates.
  pub release-hit :
      (v : Service)
      → Dict.get v.store.scripts v.release_script_sha ≡ some release_script
      → release_compare_and_delete sha1 c handle v
        ≡ (ok (cad v.store).0, record v { store = (cad v.store).1 })
  unfolding release_compare_and_delete
  release-hit v hit = ground (arith, eval-hit v.release_script_sha v.store hit)

  abbrev pub reloaded : Store → Store
  reloaded s =
      (script_load sha1 release_script handle.owner_token
        (record_event handle.owner_token "EVALSHA NOSCRIPT" s)).1

  pub release-miss :
      (v : Service)
      → Dict.get v.store.scripts v.release_script_sha ≡ none
      → release_compare_and_delete sha1 c handle v ≡ (
        ok (cad (reloaded v.store)).0,
        record { store = (cad (reloaded v.store)).1; release_script_sha = sha1 release_script },
      )
  unfolding release_compare_and_delete script_load record_event
  release-miss v miss = ground (
    arith,
    eval-miss v.release_script_sha v.store miss,
    eval-hit (sha1 release_script) (reloaded v.store),
    get-put v.store.scripts (sha1 release_script) (sha1 release_script) release_script,
    eq_iff (sha1 release_script) (sha1 release_script),
  )

  Released-cad :
      (s t : Store) → t.records ≡ s.records → Released c handle s (ok (cad t).0) (cad t).1
  Released-cad s t same = (
    rw (reply-cad t)
        (ap (λ r. ok (owns (live c.now_ms (Dict.get r handle.key)) handle.owner_token)) same),
    λ j.
        at_key-compare_and_delete c handle.key handle.owner_token handle.owner_token j t
        ∙ ap
            (λ (r : Dict.Dict String RedisLockHandle).
              if handle.key == j
              then (if owns (live c.now_ms (Dict.get r j)) handle.owner_token
                  then none
                  else live c.now_ms (Dict.get r j))
              else Dict.get r j)
            same,
  )

module _ (sha1 : String → String)
    (no_collision : (source : String)
      → sha1 source ≡ sha1 release_script
      → source ≡ release_script) where
  pub cached-cases :
      (v : Service)
      → IsReady sha1 v
      → (Dict.get v.store.scripts v.release_script_sha ≡ none)
        ⊎ (Dict.get v.store.scripts v.release_script_sha ≡ some release_script)
  cached-cases v ready = elim (Option-cases (Dict.get v.store.scripts v.release_script_sha)) [
    | inl absent ↦ inl absent
    | inr (source, hit) ↦ inr (
        hit
        ∙ ap some
            (no_collision source (sym (ready.digests v.release_script_sha source hit) ∙ ready.sha)))
  ]

  -- The safe release never raises on a service whose cache is sound, also right after a flush of
  -- the scripts. It answers whether the live record of the key has the handle's token, it deletes
  -- that record exactly then, and it changes the record of no other key.
  pub release_compare_and_delete-Released :
      (c : SimulationClock) (handle : RedisLockHandle) (v : Service)
      → IsReady sha1 v
      → Released c handle v.store
          (release_compare_and_delete sha1 c handle v).0
          (release_compare_and_delete sha1 c handle v).1.store
  release_compare_and_delete-Released c handle v ready = elim (cached-cases v ready) [
    | inl miss ↦ rw (release-miss sha1 c handle v miss) (
        Released-cad sha1 c handle v.store (reloaded sha1 c handle v.store)
          (unfold script_load record_event in refl))
    | inr hit ↦
        rw (release-hit sha1 c handle v hit) (Released-cad sha1 c handle v.store v.store refl)
  ]
