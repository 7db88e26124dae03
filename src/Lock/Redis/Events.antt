-- ===== src/Lock/Redis/Events.antt =====
-- The event list of the Redis server: one serial turn after another.
use labs_for_linux_distribut.Base.{
  String, ◌≡◌, Option, none, some, List, [], ◌∷◌, ◌++◌, arith, sym, ap, ◌∙◌, subst, length,
  string_eq, eq_iff, ◌==◌, inl, inr, Option-cases, Bool-cases,
}
use labs_for_linux_distribut.Base.Dict
use labs_for_linux_distribut.Base.Dict.{get-put}
use labs_for_linux_distribut.Lock.Redis.{
  SimulationClock, RedisLockHandle, Store, Service, acquire, release_naive,
  release_compare_and_delete, reload_and_release, script_load, record_event,
  evalsha_compare_and_delete, release_script,
}
use labs_for_linux_distribut.Lock.Redis.Holding.{
  System, Request, lock, unlock, naive_unlock, flush, load, tick, serve, run,
}
use labs_for_linux_distribut.Lock.Redis.Turns.{
  Turns, numbered, Logged, Logged-refl, Logged-trans, record_event-Logged, set_nx_px-Logged,
  delete-Logged, evalsha_turns, evalsha-none, evalsha-same, evalsha-other, evalsha-Logged,
}

-- The turns of a release, by the script that the digest of the service names: the script is loaded
-- and evaluated again if there is none.
abbrev pub release_turns : Option String → String → Turns
release_turns none client =
    (client, "EVALSHA NOSCRIPT")
    ∷ (client, "SCRIPT LOAD")
    ∷ (client, "EVALSHA GET-COMPARE-DEL")
    ∷ []
release_turns (some source) client = evalsha_turns (some source) client

-- The turns of a request. The clock is no business of the server.
abbrev pub turns : System → Request → Turns
turns y (lock key token ttl) = (token, "SET NX PX") ∷ []
turns y (unlock handle) =
    release_turns (Dict.get y.service.store.scripts y.service.release_script_sha) handle.owner_token
turns y (naive_unlock handle) = (handle.owner_token, "DEL") ∷ []
turns y (flush client) = (client, "SCRIPT FLUSH") ∷ []
turns y (load source client) = (client, "SCRIPT LOAD") ∷ []
turns y (tick delta) = []

module _ (sha1 : String → String) where
  unfoldable pub run_turns : System → List Request → Turns
  run_turns y [] = []
  run_turns y (r ∷ rs) = turns y r ++ run_turns (serve sha1 y r) rs

  -- Where the digest names a script, a release is one EVALSHA.
  store-release :
      (c : SimulationClock) (handle : RedisLockHandle) (v : Service) (source : String)
      → Dict.get v.store.scripts v.release_script_sha ≡ some source
      → (release_compare_and_delete sha1 c handle v).1.store
        ≡ (evalsha_compare_and_delete c v.release_script_sha handle.key handle.owner_token
            handle.owner_token v.store).1
  unfolding release_compare_and_delete
  store-release c handle v source e =
      let token = handle.owner_token in
      elim (Bool-cases (source == release_script)) [
        | inl same ↦
            rw
              (
                evalsha-same c v.release_script_sha handle.key token token v.store source e same,
                release_compare_and_delete,
              )
              (ap (λ p. p.1)
                (evalsha-same c v.release_script_sha handle.key token token v.store source e same))
        | inr other ↦
            rw
              (
                evalsha-other c v.release_script_sha handle.key token token v.store source e other,
                release_compare_and_delete,
              )
              (ap (λ p. p.1)
                (evalsha-other c v.release_script_sha handle.key token token v.store source e
                  other))
      ]

  store-reload :
      (c : SimulationClock) (handle : RedisLockHandle) (v : Service)
      → Dict.get v.store.scripts v.release_script_sha ≡ none
      → (release_compare_and_delete sha1 c handle v).1.store
        ≡ (reload_and_release sha1 c handle
            (record_event handle.owner_token "EVALSHA NOSCRIPT" v.store)).1.store
  unfolding release_compare_and_delete
  store-reload c handle v e =
      rw
        (
          evalsha-none c v.release_script_sha handle.key handle.owner_token handle.owner_token
              v.store e,
          release_compare_and_delete,
        )
        (ap (λ p. (reload_and_release sha1 c handle p.1).1.store)
          (evalsha-none c v.release_script_sha handle.key handle.owner_token handle.owner_token
            v.store e))

  reload-Logged :
      (c : SimulationClock) (handle : RedisLockHandle) (s : Store)
      → Logged
          ((handle.owner_token, "SCRIPT LOAD")
            ∷ (handle.owner_token, "EVALSHA GET-COMPARE-DEL")
            ∷ [])
          s
          (reload_and_release sha1 c handle s).1.store
  unfolding reload_and_release script_load record_event
  reload-Logged c handle s =
      let token = handle.owner_token in
      let u = (script_load sha1 release_script token s).1 in
      let loaded : Dict.get u.scripts (sha1 release_script) ≡ some release_script =
        get-put s.scripts (sha1 release_script) (sha1 release_script) release_script
        ∙ ground (arith, eq_iff (sha1 release_script) (sha1 release_script)) in
      let turn : evalsha_turns (Dict.get u.scripts (sha1 release_script)) token
          ≡ (token, "EVALSHA GET-COMPARE-DEL") ∷ [] =
        ap (λ o. evalsha_turns o token) loaded
        ∙ ground (arith, eq_iff release_script release_script) in
      Logged-trans ((token, "SCRIPT LOAD") ∷ []) ((token, "EVALSHA GET-COMPARE-DEL") ∷ []) s u
        (evalsha_compare_and_delete c (sha1 release_script) handle.key token token u).1
        (record_event-Logged token "SCRIPT LOAD" s)
        (subst
          (λ ts.
            Logged ts u
              (evalsha_compare_and_delete c (sha1 release_script) handle.key token token u).1)
          turn (evalsha-Logged c (sha1 release_script) handle.key token token u))

  release-Logged :
      (c : SimulationClock) (handle : RedisLockHandle) (v : Service)
      → Logged
          (release_turns (Dict.get v.store.scripts v.release_script_sha) handle.owner_token)
          v.store
          (release_compare_and_delete sha1 c handle v).1.store
  release-Logged c handle v =
      let token = handle.owner_token in
      let s1 = record_event token "EVALSHA NOSCRIPT" v.store in
      elim (Option-cases (Dict.get v.store.scripts v.release_script_sha)) [
        | inl e ↦
            subst
              (λ o.
                Logged (release_turns o token) v.store
                  (release_compare_and_delete sha1 c handle v).1.store)
              (sym e)
              (subst (Logged (release_turns none token) v.store) (sym (store-reload c handle v e)) (
                Logged-trans ((token, "EVALSHA NOSCRIPT") ∷ [])
                  ((token, "SCRIPT LOAD") ∷ (token, "EVALSHA GET-COMPARE-DEL") ∷ []) v.store s1
                  (reload_and_release sha1 c handle s1).1.store
                  (record_event-Logged token "EVALSHA NOSCRIPT" v.store)
                  (reload-Logged c handle s1)))
        | inr (source, e) ↦
            let one = evalsha-Logged c v.release_script_sha handle.key token token v.store in
            subst
              (λ o.
                Logged (release_turns o token) v.store
                  (release_compare_and_delete sha1 c handle v).1.store)
              (sym e)
              (subst (Logged (release_turns (some source) token) v.store)
                (sym (store-release c handle v source e))
                (subst
                  (λ o.
                    Logged (evalsha_turns o token) v.store
                      (evalsha_compare_and_delete c v.release_script_sha handle.key token token
                        v.store).1)
                  e one))
      ]

  serve-Logged :
      (y : System) (r : Request) → Logged (turns y r) y.service.store (serve sha1 y r).service.store
  unfolding serve acquire release_naive script_load
  serve-Logged y (lock key token ttl) = set_nx_px-Logged y.clock key token ttl token y.service.store
  serve-Logged y (unlock handle) = release-Logged y.clock handle y.service
  serve-Logged y (naive_unlock handle) =
      delete-Logged y.clock handle.key handle.owner_token y.service.store
  serve-Logged y (flush client) = record_event-Logged client "SCRIPT FLUSH" y.service.store
  serve-Logged y (load source client) = record_event-Logged client "SCRIPT LOAD" y.service.store
  serve-Logged y (tick delta) = Logged-refl y.service.store

  -- A run of requests adds to the events of the store one event for each turn of the server, in
  -- their order, with the client and the command of the turn, and numbered on from the events that
  -- were there: no turn is lost and none is numbered twice.
  pub run-Logged :
      (y : System) (rs : List Request)
      → (run sha1 y rs).service.store.events
        ≡ y.service.store.events ++ numbered (length y.service.store.events) (run_turns y rs)
  unfolding run run_turns
  run-Logged y [] = Logged-refl y.service.store
  run-Logged y (r ∷ rs) =
      let z = serve sha1 y r in
      Logged-trans (turns y r) (run_turns z rs) y.service.store z.service.store
        (run sha1 z rs).service.store (serve-Logged y r) (run-Logged z rs)
