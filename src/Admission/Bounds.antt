-- ===== src/Admission/Bounds.antt =====
-- What holds of the controller between two calls.
use labs_for_linux_distribut.Base.{
  ℕ, suc, ◌+◌, ◌≤◌, ◌≡◌, List, [], ◌∷◌, ◌++◌, arith, refl, sym, ap, subst, ◌∙◌, length,
  length-append, All,
}
use labs_for_linux_distribut.Admission.{
  Controller, QueuedMessage, InflightMessage, CompletedRequest, start_message, soonest, remove,
  request_of, take_next, complete, backlog,
}
use labs_for_linux_distribut.Admission.Items.{
  holds, NotBefore, holds-soonest, length-remove, All-remove, All-soonest, All-append_one, All_imp,
  soonest-le,
}

-- A worker has it for the service time, and not before it was accepted.
abbrev pub Served : ℕ → ℕ → ℕ → ℕ → Type 0
Served service accepted started done = (accepted ≤ started) × (done ≡ started + service)

abbrev pub InService : Controller → InflightMessage → Type 0
InService a i = Served a.service_time_ms i.accepted_at_ms i.started_at_ms i.completed_at_ms

abbrev pub WasServed : ℕ → CompletedRequest → Type 0
WasServed service c = Served service c.accepted_at_ms c.started_at_ms c.completed_at_ms

-- Whoever waits came before any worker will be free.
abbrev pub Waits : List InflightMessage → QueuedMessage → Type 0
Waits is q = All (λ (i : InflightMessage). q.accepted_at_ms ≤ i.completed_at_ms) is

pub record IsBusy (a : Controller) : Type 0 where
  pub staffed : 1 ≤ a.workers
  pub bounded : length a.inflight ≤ a.workers
  pub limited : length a.queue ≤ a.queue_limit
  pub no_idle_worker : 1 ≤ length a.queue → length a.inflight ≡ a.workers
  pub observed : length a.queue ≤ a.max_observed_queue_depth
  pub observed_limited : a.max_observed_queue_depth ≤ a.queue_limit
  pub in_service : All (InService a) a.inflight
  pub waiting : All (Waits a.inflight) a.queue
  pub served : All (WasServed a.service_time_ms) a.completed

-- One round of `advance_to`.
pub complete-IsBusy :
    (a : Controller) (i : InflightMessage) (is : List InflightMessage)
    → a.inflight ≡ i ∷ is
    → IsBusy a
    → IsBusy (complete (soonest i is) a) × (suc (backlog (complete (soonest i is) a)) ≡ backlog a)
unfolding complete take_next start_message
complete-IsBusy a i is e b = start a.queue refl
  where
    next : InflightMessage
    next = soonest i is

    left : List InflightMessage
    left = remove next a.inflight

    fewer : suc (length left) ≡ length a.inflight
    fewer = length-remove next a.inflight (ap (holds next) e ∙ holds-soonest i is)

    own : InService a next
    own = All-soonest (InService a) i is (subst (All (InService a)) e b.in_service)

    soon : All (NotBefore next) left
    soon =
        All-remove (NotBefore next) next a.inflight
          (subst (All (NotBefore next)) (sym e) (soonest-le i is))

    done : All (WasServed a.service_time_ms) (a.completed ++ request_of next ∷ [])
    done = All-append_one (WasServed a.service_time_ms) a.completed (request_of next) b.served own

    still : All (InService a) left
    still = All-remove (InService a) next a.inflight b.in_service

    wait_less : (q : QueuedMessage) → Waits a.inflight q → Waits left q
    wait_less q w = All-remove (λ j. q.accepted_at_ms ≤ j.completed_at_ms) next a.inflight w

    freed : Controller
    freed = record a { inflight = left; completed = a.completed ++ request_of next ∷ [] }

    idle : a.queue ≡ [] → IsBusy freed × (suc (backlog freed) ≡ backlog a)
    idle f =
        let empty = ap length f in
        (
          record {
            staffed = b.staffed;
            bounded = omega (arith, fewer, b.bounded);
            limited = b.limited;
            no_idle_worker = λ h. absurd (omega (arith, h, empty));
            observed = b.observed;
            observed_limited = b.observed_limited;
            in_service = still;
            waiting = All_imp (Waits a.inflight) (Waits left) a.queue wait_less b.waiting;
            served = done;
          },
          omega (arith, fewer),
        )

    taken :
        (q : QueuedMessage) (qs : List QueuedMessage)
        → a.queue ≡ q ∷ qs
        → (let a1 = take_next next.completed_at_ms (q ∷ qs) freed in
            IsBusy a1 × (suc (backlog a1) ≡ backlog a))
    taken q qs f =
        let shorter = ap length f in
        let waited = subst (All (Waits a.inflight)) f b.waiting in
        let before : q.accepted_at_ms ≤ next.completed_at_ms =
          All-soonest (λ j. q.accepted_at_ms ≤ j.completed_at_ms) i is
            (subst (λ js. Waits js q) e waited.0) in
        let begun : InflightMessage = record {
          message = q.message;
          accepted_at_ms = q.accepted_at_ms;
          started_at_ms = next.completed_at_ms;
          completed_at_ms = next.completed_at_ms + a.service_time_ms;
        } in
        let longer = length-append left (begun ∷ []) in
        (
          record {
            staffed = b.staffed;
            bounded = omega (arith, fewer, b.bounded, longer);
            limited = omega (arith, b.limited, shorter);
            no_idle_worker =
                λ h. omega (arith, b.no_idle_worker (omega (arith, shorter)), fewer, longer);
            observed = omega (arith, b.observed, shorter);
            observed_limited = b.observed_limited;
            in_service = All-append_one (InService a) left begun still (before, refl);
            waiting =
                All_imp (Waits a.inflight) (Waits (left ++ begun ∷ [])) qs
                  (λ p w.
                    All-append_one (λ j. p.accepted_at_ms ≤ j.completed_at_ms) left begun
                      (wait_less p w)
                      (omega (
                        arith,
                        All-soonest (λ j. p.accepted_at_ms ≤ j.completed_at_ms) i is
                            (subst (λ js. Waits js p) e w),
                      )))
                  waited.1;
            served = done;
          },
          omega (arith, fewer, longer, shorter),
        )

    start :
        (qs : List QueuedMessage)
        → a.queue ≡ qs
        → IsBusy (complete next a) × (suc (backlog (complete next a)) ≡ backlog a)
    start [] f =
        subst
          (λ qs.
            IsBusy (take_next next.completed_at_ms qs freed)
            × (suc (backlog (take_next next.completed_at_ms qs freed)) ≡ backlog a))
          (sym f) (idle f)
    start (q ∷ qs) f =
        subst
          (λ rs.
            IsBusy (take_next next.completed_at_ms rs freed)
            × (suc (backlog (take_next next.completed_at_ms rs freed)) ≡ backlog a))
          (sym f) (taken q qs f)
