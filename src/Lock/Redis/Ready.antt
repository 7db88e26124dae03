-- ===== src/Lock/Redis/Ready.antt =====
-- Every run of the lock service keeps its script cache sound.
use labs_for_linux_distribut.Base.{
  String, ◌≡◌, none, some, List, [], ◌∷◌, ℤ, pos, negsuc, arith, eq_iff, string_eq, zero, suc, refl,
  sym, ap, ◌∙◌, inl, inr, ltb,
}
use labs_for_linux_distribut.Base.Dict
use labs_for_linux_distribut.Base.Dict.{get-put, get-empty}
use labs_for_linux_distribut.Lock.Redis.{
  SimulationClock, RedisLockHandle, Store, Service, set_nx_px, acquire, release_naive,
  release_compare_and_delete, script_load, record_event, release_script, new_service, delete,
  purge_if_expired, set_record,
}
use labs_for_linux_distribut.Lock.Redis.Records.{at_key, at_key-delete}
use labs_for_linux_distribut.Lock.Redis.Holding.{
  System, Request, lock, unlock, naive_unlock, flush, load, tick, serve, run,
}
use labs_for_linux_distribut.Lock.Redis.Release.{
  IsReady, Released, release-hit, release-miss, cached-cases, scripts-cad, reloaded,
  release_compare_and_delete-Released,
}

-- Only the loading and the flushing of scripts touch the cache.
module _ {sha1 : String → String} where
  IsReady-same :
      (v w : Service)
      → w.store.scripts ≡ v.store.scripts
      → w.release_script_sha ≡ v.release_script_sha
      → IsReady sha1 v
      → IsReady sha1 w
  IsReady-same v w same same_sha ready = record {
    digests = λ d source hit. ready.digests d source (ap (λ t. Dict.get t d) (sym same) ∙ hit);
    sha = same_sha ∙ ready.sha;
  }

  IsReady-load :
      (source client : String) (v w : Service)
      → w.store.scripts ≡ (script_load sha1 source client v.store).1.scripts
      → w.release_script_sha ≡ sha1 release_script
      → IsReady sha1 v
      → IsReady sha1 w
  unfolding script_load record_event
  IsReady-load source client v w same same_sha ready = record {
    digests = λ d src hit. ground (
      arith,
      same,
      ready.digests d src,
      get-put v.store.scripts (sha1 source) d source,
      eq_iff (sha1 source) d,
    );
    sha = same_sha;
  }

scripts-set_nx_px :
    (c : SimulationClock) (key token : String) (ttl : ℤ) (client : String) (s : Store)
    → (set_nx_px c key token ttl client s).1.scripts ≡ s.scripts
unfolding set_nx_px record_event purge_if_expired set_record
scripts-set_nx_px c key token (negsuc n) client s = refl
scripts-set_nx_px c key token (pos zero) client s = refl
scripts-set_nx_px c key token (pos (suc n)) client s = ground arith

scripts-delete :
    (c : SimulationClock) (key client : String) (s : Store)
    → (delete c key client s).1.scripts ≡ s.scripts
unfolding delete record_event purge_if_expired
scripts-delete c key client s = ground arith

module _ (sha1 : String → String)
    (no_collision : (source : String)
      → sha1 source ≡ sha1 release_script
      → source ≡ release_script) where
  release-IsReady :
      (c : SimulationClock) (handle : RedisLockHandle) (v : Service)
      → IsReady sha1 v
      → IsReady sha1 (release_compare_and_delete sha1 c handle v).1
  release-IsReady c handle v ready = elim (cached-cases sha1 no_collision v ready) [
    | inl miss ↦ rw (release-miss sha1 c handle v miss) (
        IsReady-load release_script handle.owner_token v _
          (scripts-cad sha1 c handle (reloaded sha1 c handle v.store)
            ∙ unfold script_load record_event in refl)
          refl ready)
    | inr hit ↦
        rw (release-hit sha1 c handle v hit)
          (IsReady-same v _ (scripts-cad sha1 c handle v.store) refl ready)
  ]

  serve-IsReady :
      (y : System) (r : Request) → IsReady sha1 y.service → IsReady sha1 (serve sha1 y r).service
  unfolding serve acquire release_naive record_event
  serve-IsReady y (lock key token ttl) ready =
      IsReady-same y.service _ (scripts-set_nx_px y.clock key token ttl token y.service.store) refl
        ready
  serve-IsReady y (unlock handle) ready = release-IsReady y.clock handle y.service ready
  serve-IsReady y (naive_unlock handle) ready =
      IsReady-same y.service _
        (scripts-delete y.clock handle.key handle.owner_token y.service.store) refl ready
  serve-IsReady y (flush client) ready = record {
    digests = λ d source hit. cc (get-empty {K = String} {V = String} d);
    sha = ready.sha;
  }
  serve-IsReady y (load source client) ready =
      IsReady-load source client y.service _ refl ready.sha ready
  serve-IsReady y (tick delta) ready = ready

  run-IsReady :
      (y : System) (rs : List Request)
      → IsReady sha1 y.service
      → IsReady sha1 (run sha1 y rs).service
  unfolding run
  run-IsReady y [] ready = ready
  run-IsReady y (r ∷ rs) ready = run-IsReady (serve sha1 y r) rs (serve-IsReady y r ready)

  new_service-IsReady : (s : Store) → s.scripts ≡ Dict.empty → IsReady sha1 (new_service sha1 s)
  unfolding new_service record_event script_load
  new_service-IsReady s fresh = record {
    digests = λ d source hit. ground (
      arith,
      get-empty {K = String} {V = String} d,
      get-put s.scripts (sha1 release_script) d release_script,
      eq_iff (sha1 release_script) d,
    );
    sha = refl;
  }

  -- A lock service that starts with an empty script cache, after any run of requests, script
  -- loads and flushes included: the safe release of any handle returns (it never raises), answers
  -- whether the live record of the key has the handle's token, deletes that record exactly then,
  -- and changes the record of no other key. No other script may have the digest of the release
  -- script.
  pub release-after_any_run :
      (s : Store) (c : SimulationClock) (rs : List Request) (handle : RedisLockHandle)
      → s.scripts ≡ Dict.empty
      → let z = run sha1 (record { clock = c; service = new_service sha1 s }) rs in
        Released z.clock handle z.service.store
          (release_compare_and_delete sha1 z.clock handle z.service).0
          (release_compare_and_delete sha1 z.clock handle z.service).1.store
  release-after_any_run s c rs handle fresh =
      let y : System = record { clock = c; service = new_service sha1 s } in
      let z = run sha1 y rs in
      release_compare_and_delete-Released sha1 no_collision z.clock handle z.service
        (run-IsReady y rs (new_service-IsReady s fresh))

-- Where the key has a record, expired or not and of whatever owner, the plain delete takes it away:
-- it answers True exactly if that record has not expired, and no record of the key is left.
pub release_naive-deletes_any :
    (c : SimulationClock) (handle : RedisLockHandle) (v : Service) (h : RedisLockHandle)
    → at_key v.store handle.key ≡ some h
    → ((release_naive c handle v).0 ≡ ltb c.now_ms h.expires_at_ms)
      × (at_key (release_naive c handle v).1.store handle.key ≡ none)
unfolding release_naive delete record_event purge_if_expired
release_naive-deletes_any c handle v h held =
    let s = record_event handle.owner_token "DEL" v.store in
    ground (
      arith,
      Dict.get-remove v.store.records handle.key handle.key,
      eq_iff handle.key handle.key,
      at_key-delete c handle.key handle.owner_token handle.key v.store,
    )
