-- ===== src/Lock/Redis/Turns.antt =====
-- Which turn of the server each command is.
use mathlib.Core.List.{append-nil, append_assoc}
use labs_for_linux_distribut.Base.{
  ℕ, ◌+◌, String, ◌≡◌, Option, none, some, true, false, List, [], ◌∷◌, ◌++◌, ℤ, pos, negsuc, arith,
  zero, suc, sym, ap, refl, ◌∙◌, length, length-append, string_eq, ◌==◌, if◌then◌else◌, inl, inr,
  Option-cases, Bool-cases, ok, raise,
}
use labs_for_linux_distribut.Base.Dict
use labs_for_linux_distribut.Base.Dict.{get-put}
use labs_for_linux_distribut.Lock.Redis.{
  SimulationClock, RedisCommandEvent, Store, set_nx_px, record_event, delete,
  evalsha_compare_and_delete, compare_and_delete, purge_if_expired, set_record, release_script,
  no_script_error, value_error,
}

-- Turns of the server: who has sent which command.
abbrev pub Turns : Type 0
Turns = List (String × String)

-- The turns as events, with the numbers n + 1, n + 2, … in order.
abbrev pub numbered : ℕ → Turns → List RedisCommandEvent
numbered n [] = []
numbered n (t ∷ ts) =
    record { sequence = n + 1; client_id = t.0; command = t.1 } ∷ numbered (n + 1) ts

-- The events of the first store, and then those of the turns.
abbrev pub Logged : Turns → Store → Store → Type 0
Logged ts s u = u.events ≡ s.events ++ numbered (length s.events) ts

numbered-append :
    (n : ℕ) (ts us : Turns) → numbered n (ts ++ us) ≡ numbered n ts ++ numbered (n + length ts) us
numbered-append n [] us = ap (λ k. numbered k us) (let e : n ≡ n + 0 = omega arith in e)
numbered-append n (t ∷ ts) us =
    ap (λ l. record { sequence = n + 1; client_id = t.0; command = t.1 } ∷ l)
      (numbered-append (n + 1) ts us
        ∙ ap (λ k. numbered (n + 1) ts ++ numbered k us)
            (let e : n + 1 + length ts ≡ n + suc (length ts) = omega arith in e))

length-numbered : (n : ℕ) (ts : Turns) → length (numbered n ts) ≡ length ts
length-numbered n [] = refl
length-numbered n (t ∷ ts) = omega (arith, length-numbered (n + 1) ts)

pub Logged-refl : (s : Store) → Logged [] s s
Logged-refl s = sym (append-nil s.events)

pub Logged-trans :
    (ts us : Turns) (s u v : Store) → Logged ts s u → Logged us u v → Logged (ts ++ us) s v
Logged-trans ts us s u v first second =
    let n = length s.events in
    let size : length u.events ≡ n + length ts =
      ap length first
      ∙ length-append s.events (numbered n ts)
      ∙ ap (λ k. n + k) (length-numbered n ts) in
    second
    ∙ ap (λ k. u.events ++ numbered k us) size
    ∙ ap (λ l. l ++ numbered (n + length ts) us) first
    ∙ append_assoc s.events (numbered n ts) (numbered (n + length ts) us)
    ∙ ap (λ l. s.events ++ l) (sym (numbered-append n ts us))

pub record_event-Logged :
    (client command : String) (s : Store)
    → Logged ((client, command) ∷ []) s (record_event client command s)
unfolding record_event
record_event-Logged client command s = refl

-- Purging and writing records log nothing.
events-purge :
    (c : SimulationClock) (key : String) (s : Store) → (purge_if_expired c key s).events ≡ s.events
unfolding purge_if_expired
events-purge c key s = ground arith

events-set_record :
    (c : SimulationClock) (key token : String) (ttl : ℕ) (s : Store)
    → (set_record c key token ttl s).1.events ≡ s.events
unfolding set_record
events-set_record c key token ttl s = ground arith

compare_and_delete-Logged :
    (c : SimulationClock) (key token client : String) (s : Store)
    → Logged
        ((client, "EVALSHA GET-COMPARE-DEL") ∷ [])
        s
        (compare_and_delete c key token client s).1
unfolding compare_and_delete
compare_and_delete-Logged c key token client s =
    let logged = record_event-Logged client "EVALSHA GET-COMPARE-DEL" s in
    ground (arith, events-purge c key (record_event client "EVALSHA GET-COMPARE-DEL" s), logged)

pub set_nx_px-Logged :
    (c : SimulationClock) (key token : String) (ttl : ℤ) (client : String) (s : Store)
    → Logged ((client, "SET NX PX") ∷ []) s (set_nx_px c key token ttl client s).1
unfolding set_nx_px
set_nx_px-Logged c key token (negsuc n) client s = record_event-Logged client "SET NX PX" s
set_nx_px-Logged c key token (pos zero) client s = record_event-Logged client "SET NX PX" s
set_nx_px-Logged c key token (pos (suc n)) client s =
    let s1 = record_event client "SET NX PX" s in
    events-set_record c key token (suc n) (purge_if_expired c key s1)
    ∙ events-purge c key s1
    ∙ record_event-Logged client "SET NX PX" s

pub delete-Logged :
    (c : SimulationClock) (key client : String) (s : Store)
    → Logged ((client, "DEL") ∷ []) s (delete c key client s).1
unfolding delete
delete-Logged c key client s =
    events-purge c key (record_event client "DEL" s) ∙ record_event-Logged client "DEL" s

-- The turns of an EVALSHA, by the script that the digest names.
abbrev pub evalsha_turns : Option String → String → Turns
evalsha_turns none client = (client, "EVALSHA NOSCRIPT") ∷ []
evalsha_turns (some source) client =
    if source == release_script then (client, "EVALSHA GET-COMPARE-DEL") ∷ [] else []

pub evalsha-none :
    (c : SimulationClock) (digest key token client : String) (s : Store)
    → Dict.get s.scripts digest ≡ none
    → evalsha_compare_and_delete c digest key token client s
      ≡ (raise no_script_error, record_event client "EVALSHA NOSCRIPT" s)
unfolding evalsha_compare_and_delete
evalsha-none c digest key token client s e = rw (e, evalsha_compare_and_delete) refl

module _ (c : SimulationClock) (digest key token client : String) (s : Store) (source : String)
    (e : Dict.get s.scripts digest ≡ some source) where
  pub evalsha-same :
      (source == release_script) ≡ true
      → evalsha_compare_and_delete c digest key token client s ≡ (
        ok (compare_and_delete c key token client s).0,
        (compare_and_delete c key token client s).1,
      )
  unfolding evalsha_compare_and_delete
  evalsha-same same = rw (e, evalsha_compare_and_delete, same) refl

  pub evalsha-other :
      (source == release_script) ≡ false
      → evalsha_compare_and_delete c digest key token client s ≡ (raise value_error, s)
  unfolding evalsha_compare_and_delete
  evalsha-other other = rw (e, evalsha_compare_and_delete, other) refl

pub evalsha-Logged :
    (c : SimulationClock) (digest key token client : String) (s : Store)
    → Logged
        (evalsha_turns (Dict.get s.scripts digest) client)
        s
        (evalsha_compare_and_delete c digest key token client s).1
evalsha-Logged c digest key token client s = elim (Option-cases (Dict.get s.scripts digest)) [
  | inl e ↦
      rw (evalsha-none c digest key token client s e, e)
        (record_event-Logged client "EVALSHA NOSCRIPT" s)
  | inr (source, e) ↦ elim (Bool-cases (source == release_script)) [
    | inl same ↦
        rw (evalsha-same c digest key token client s source e same, e, same)
          (compare_and_delete-Logged c key token client s)
    | inr other ↦
        rw (evalsha-other c digest key token client s source e other, e, other) (Logged-refl s)
  ]
]
