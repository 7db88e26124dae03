-- ===== src/Admission/Rounds.antt =====
-- The loops of `advance_to` and `drain` end, and lose no message.
use labs_for_linux_distribut.Base.{
  ℕ, zero, suc, ◌+◌, ◌++◌, ◌≤◌, ◌<◌, ◌≡◌, ◌⊎◌, false, none, some, List, [], ◌∷◌, arith, refl, sym,
  ap, subst, inl, inr, ltb, length, length-append, All, Bool-cases,
}
use labs_for_linux_distribut.Admission.{
  Controller, InflightMessage, QueuedMessage, soonest, remove, request_of, take_next, complete,
  start_message, next_of, advance_rounds, advance_to, backlog, drain_rounds, drain,
}
use labs_for_linux_distribut.Admission.Items.{NotBefore, All_imp, soonest-le}
use labs_for_linux_distribut.Admission.Bounds.{IsBusy, complete-IsBusy}

abbrev pub LaterThan : ℕ → InflightMessage → Type 0
LaterThan now i = now < i.completed_at_ms

-- The time has passed: no message in flight is due, and none is lost.
pub record Advanced (now : ℕ) (a b : Controller) : Type 0 where
  pub busy : IsBusy b
  pub not_due : All (LaterThan now) b.inflight
  pub conserved : length b.completed + backlog b ≡ length a.completed + backlog a
  pub fewer : backlog b ≤ backlog a

completed-complete :
    (item : InflightMessage) (a : Controller)
    → length (complete item a).completed ≡ suc (length a.completed)
unfolding complete
completed-complete item a = go a.queue
  where
    go :
        (qs : List QueuedMessage)
        → length
            (take_next item.completed_at_ms qs (record a {
              inflight = remove item a.inflight;
              completed = a.completed ++ request_of item ∷ [];
            })).completed
          ≡ suc (length a.completed)
    go [] = omega (arith, length-append a.completed (request_of item ∷ []))
    go (q ∷ qs) =
        unfold start_message in omega (arith, length-append a.completed (request_of item ∷ []))

-- The soonest message in flight, if there is one.
pub next_of-cases :
    (is : List InflightMessage)
    → ((is ≡ []) × (next_of is ≡ none))
      ⊎ ((i : InflightMessage) × (js : List InflightMessage) × (is ≡ i ∷ js)
          × (next_of is ≡ some (soonest i js)))
next_of-cases [] = inl (refl, refl)
next_of-cases (i ∷ is) = inr (i, is, refl, refl)

Advanced-refl :
    (now : ℕ) (a : Controller) → IsBusy a → All (LaterThan now) a.inflight → Advanced now a a
Advanced-refl now a b later = record {
  busy = b;
  not_due = later;
  conserved = refl;
  fewer = omega arith;
}

advance_rounds-Advanced :
    (fuel now : ℕ) (a : Controller)
    → backlog a ≤ fuel
    → IsBusy a
    → Advanced now a (advance_rounds fuel now a)
unfolding advance_rounds
advance_rounds-Advanced zero now a h b = elim (next_of-cases a.inflight) [
  | inl (e, _) ↦ Advanced-refl now a b (subst (All (LaterThan now)) (sym e) tt)
  | inr (i, is, e, _) ↦ absurd (omega (arith, h, ap length e))
]
advance_rounds-Advanced (suc fuel) now a h b = elim (next_of-cases a.inflight) [
  | inl (e, f) ↦
      rw (f, advance_rounds) (Advanced-refl now a b (subst (All (LaterThan now)) (sym e) tt))
  | inr (i, is, e, f) ↦
      let next = soonest i is in
      elim (Bool-cases (ltb now next.completed_at_ms)) [
        | inl early ↦
            rw (f, advance_rounds, early)
              (Advanced-refl now a b (
                All_imp (NotBefore next) (LaterThan now) a.inflight
                  (λ j k. ground (arith, early, k))
                  (subst (All (NotBefore next)) (sym e) (soonest-le i is))))
        | inr due ↦
            let (b1, less) = complete-IsBusy a i is e b in
            let r =
              advance_rounds-Advanced fuel now (complete next a) (omega (arith, less, h)) b1 in
            rw (f, advance_rounds, due)
              (record {
                busy = r.busy;
                not_due = r.not_due;
                conserved = omega (arith, r.conserved, less, completed-complete next a);
                fewer = omega (arith, r.fewer, less);
              })
      ]
]

pub advance_to-Advanced : (now : ℕ) (a : Controller) → IsBusy a → Advanced now a (advance_to now a)
unfolding advance_to
advance_to-Advanced now a b = advance_rounds-Advanced (backlog a) now a (omega arith) b

first_round :
    (fuel : ℕ) (a : Controller) (i : InflightMessage) (is : List InflightMessage)
    → a.inflight ≡ i ∷ is
    → IsBusy a
    → backlog a ≤ suc fuel
    → suc (backlog (advance_rounds (suc fuel) (soonest i is).completed_at_ms a)) ≤ backlog a
unfolding advance_rounds
first_round fuel a i is e b h =
    let next = soonest i is in
    let now = next.completed_at_ms in
    let listed : next_of a.inflight ≡ some next = ap next_of e in
    let due : ltb now now ≡ false = ground arith in
    let (b1, less) = complete-IsBusy a i is e b in
    let r = advance_rounds-Advanced fuel now (complete next a) (omega (arith, less, h)) b1 in
    rw (listed, advance_rounds, due) (omega (arith, r.fewer, less))

-- An advance to the time at which the soonest message is done takes that one out.
advance_to-fewer :
    (a : Controller) (i : InflightMessage) (is : List InflightMessage)
    → a.inflight ≡ i ∷ is
    → IsBusy a
    → suc (backlog (advance_to (soonest i is).completed_at_ms a)) ≤ backlog a
unfolding advance_to
advance_to-fewer a i is e b = go (backlog a) refl
  where
    now : ℕ
    now = (soonest i is).completed_at_ms

    go : (n : ℕ) → backlog a ≡ n → suc (backlog (advance_rounds (backlog a) now a)) ≤ backlog a
    go zero h = absurd (omega (arith, h, ap length e))
    go (suc fuel) h =
        subst (λ k. suc (backlog (advance_rounds k now a)) ≤ backlog a) (sym h)
          (first_round fuel a i is e b (omega (arith, h)))

-- Nobody is left, and every message that was there has been completed.
pub record Drained (a b : Controller) : Type 0 where
  pub busy : IsBusy b
  pub empty : backlog b ≡ 0
  pub all_completed : length b.completed ≡ length a.completed + backlog a

Drained-already : (a : Controller) → IsBusy a → a.inflight ≡ [] → Drained a a
Drained-already a b e =
    let nobody : backlog a ≡ 0 = ground (arith, ap length e, b.staffed, b.no_idle_worker) in
    record { busy = b; empty = nobody; all_completed = omega (arith, nobody) }

drain_rounds-Drained :
    (fuel : ℕ) (a : Controller) → backlog a ≤ fuel → IsBusy a → Drained a (drain_rounds fuel a)
unfolding drain_rounds
drain_rounds-Drained zero a h b = elim (next_of-cases a.inflight) [
  | inl (e, _) ↦ Drained-already a b e
  | inr (i, is, e, _) ↦ absurd (omega (arith, h, ap length e))
]
drain_rounds-Drained (suc fuel) a h b = elim (next_of-cases a.inflight) [
  | inl (e, f) ↦ rw (f, drain_rounds) (Drained-already a b e)
  | inr (i, is, e, f) ↦
      let now = (soonest i is).completed_at_ms in
      let step = advance_to-Advanced now a b in
      let less = advance_to-fewer a i is e b in
      let r = drain_rounds-Drained fuel (advance_to now a) (omega (arith, less, h)) step.busy in
      rw (f, drain_rounds)
        (record {
          busy = r.busy;
          empty = r.empty;
          all_completed = omega (arith, r.all_completed, step.conserved);
        })
]

pub drain-Drained : (a : Controller) → IsBusy a → Drained a (drain a)
unfolding drain
drain-Drained a b = drain_rounds-Drained (backlog a) a (omega arith) b
