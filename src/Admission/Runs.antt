-- ===== src/Admission/Runs.antt =====
-- Runs of the calls of `AdmissionController`.
use labs_for_linux_distribut.Base.{
  ℕ, ◌+◌, ◌≤◌, ◌<◌, ◌≡◌, List, [], ◌∷◌, ◌++◌, arith, refl, subst, inl, inr, ℤ, nonnegative,
  positive, positive-le, ok, raise, ltb, if◌then◌else◌, length, length-append, All, Bool-cases,
  Option-cases,
}
use labs_for_linux_distribut.Admission.{
  Controller, value_error, AdmissionDecision, RelayMessage, QueuedMessage, InflightMessage,
  new_controller, start_message, advance_to, drain, backlog, admit, submit, enqueue,
}
use labs_for_linux_distribut.Admission.Items.{All-append_one, All_imp}
use labs_for_linux_distribut.Admission.Bounds.{IsBusy, InService, Waits}
use labs_for_linux_distribut.Admission.Rounds.{LaterThan, advance_to-Advanced, drain-Drained}

abbrev pub admitted : AdmissionDecision → ℕ
admitted d = if d.accepted_ then 1 else 0

-- The decision and the controller after it.
record Admitted (a : Controller) (r : AdmissionDecision × Controller) : Type 0 where
  busy : IsBusy r.1
  counted : length r.1.completed + backlog r.1 ≡ length a.completed + backlog a + admitted r.0

nobody-Waits :
    (is : List InflightMessage) (qs : List QueuedMessage) → length qs ≡ 0 → All (Waits is) qs
nobody-Waits is [] h = tt
nobody-Waits is (q ∷ qs) h = absurd (omega (arith, h))

admit-started :
    (m : RelayMessage) (now : ℕ) (a : Controller)
    → IsBusy a
    → length a.inflight < a.workers
    → IsBusy (start_message m now now a) × (backlog (start_message m now now a) ≡ backlog a + 1)
unfolding start_message
admit-started m now a b free =
    let begun : InflightMessage = record {
      message = m;
      accepted_at_ms = now;
      started_at_ms = now;
      completed_at_ms = now + a.service_time_ms;
    } in
    let longer = length-append a.inflight (begun ∷ []) in
    let nobody : length a.queue ≡ 0 = ground (arith, b.no_idle_worker) in
    (
      record {
        staffed = b.staffed;
        bounded = omega (arith, longer, free);
        limited = b.limited;
        no_idle_worker = λ h. absurd (omega (arith, h, nobody));
        observed = b.observed;
        observed_limited = b.observed_limited;
        in_service = All-append_one (InService a) a.inflight begun b.in_service (omega arith, refl);
        waiting = nobody-Waits (a.inflight ++ begun ∷ []) a.queue nobody;
        served = b.served;
      },
      omega (arith, longer),
    )

admit-queued :
    (m : RelayMessage) (now : ℕ) (a : Controller)
    → IsBusy a
    → All (LaterThan now) a.inflight
    → a.workers ≤ length a.inflight
    → length a.queue < a.queue_limit
    → IsBusy (enqueue m now a) × (backlog (enqueue m now a) ≡ backlog a + 1)
admit-queued m now a b later full room =
    let last : QueuedMessage = record { message = m; accepted_at_ms = now } in
    let longer = length-append a.queue (last ∷ []) in
    (
      record {
        staffed = b.staffed;
        bounded = b.bounded;
        limited = omega (arith, longer, room);
        no_idle_worker = λ h. omega (arith, b.bounded, full);
        observed = omega (arith, longer);
        observed_limited = omega (arith, longer, room, b.observed_limited);
        in_service = b.in_service;
        waiting = All-append_one (Waits a.inflight) a.queue last b.waiting (
            All_imp (LaterThan now) (λ j. now ≤ j.completed_at_ms) a.inflight
              (λ j k. omega (arith, k)) later);
        served = b.served;
      },
      omega (arith, longer),
    )

admit-Admitted :
    (m : RelayMessage) (now : ℕ) (a : Controller)
    → IsBusy a
    → All (LaterThan now) a.inflight
    → Admitted a (admit m now a)
unfolding admit
admit-Admitted m now a b later = elim (Bool-cases (ltb (length a.inflight) a.workers)) [
  | inl free ↦
      let (busy, more) = admit-started m now a b (ground (arith, free)) in
      rw (free, admit)
        (record { busy = busy; counted = unfold start_message in omega (arith, more) })
  | inr full ↦ elim (Bool-cases (ltb (length a.queue) a.queue_limit)) [
    | inl room ↦
        let (busy, more) =
          admit-queued m now a b later (ground (arith, full)) (ground (arith, room)) in
        rw (full, admit, room) (record { busy = busy; counted = omega (arith, more) })
    | inr none_left ↦ rw (full, admit, none_left) (record { busy = b; counted = omega arith })
  ]
]

submit-Admitted :
    (m : RelayMessage) (now : ℕ) (a : Controller) → IsBusy a → Admitted a (submit m now a)
unfolding submit
submit-Admitted m now a b =
    let step = advance_to-Advanced now a b in
    let r = admit-Admitted m now (advance_to now a) step.busy step.not_due in
    record { busy = r.busy; counted = omega (arith, r.counted, step.conserved) }

pub data Call : Type 0 where
  submitted : RelayMessage → ℕ → Call
  advanced : ℕ → Call
  drained : Call

unfoldable pub call : Call → Controller → Controller
call (submitted m now) a = (submit m now a).1
call (advanced now) a = advance_to now a
call drained a = drain a

-- How many messages the call admits.
unfoldable pub admits : Call → Controller → ℕ
admits (submitted m now) a = admitted (submit m now a).0
admits _ a = 0

unfoldable pub run : List Call → Controller → Controller
unfolding call
run [] a = a
run (c ∷ cs) a = run cs (call c a)

unfoldable pub admits_all : List Call → Controller → ℕ
unfolding call admits
admits_all [] a = 0
admits_all (c ∷ cs) a = admits c a + admits_all cs (call c a)

call-IsBusy :
    (c : Call) (a : Controller)
    → IsBusy a
    → IsBusy (call c a)
      × (length (call c a).completed + backlog (call c a)
          ≡ length a.completed + backlog a + admits c a)
unfolding call admits
call-IsBusy (submitted m now) a b = let r = submit-Admitted m now a b in (r.busy, r.counted)
call-IsBusy (advanced now) a b =
    let step = advance_to-Advanced now a b in (step.busy, omega (arith, step.conserved))
call-IsBusy drained a b =
    let r = drain-Drained a b in (r.busy, omega (arith, r.all_completed, r.empty))

pub run-counted :
    (cs : List Call) (a : Controller)
    → IsBusy a
    → IsBusy (run cs a)
      × (length (run cs a).completed + backlog (run cs a)
          ≡ length a.completed + backlog a + admits_all cs a)
unfolding run admits_all
run-counted [] a b = (b, omega arith)
run-counted (c ∷ cs) a b =
    let (b1, one) = call-IsBusy c a b in
    let (b2, rest) = run-counted cs (call c a) b1 in (b2, omega (arith, one, rest))

-- A new controller has no message, and a worker at least.
abbrev pub Empty : Controller → Type 0
Empty a = IsBusy a × (length a.completed + backlog a ≡ 0)

empty_controller : ℕ → ℕ → ℕ → Controller
empty_controller w q s = record {
  workers = w;
  queue_limit = q;
  service_time_ms = s;
  completed = [];
  max_observed_queue_depth = 0;
  queue = [];
  inflight = [];
}

empty_controller-Empty : (w q s : ℕ) → 1 ≤ w → Empty (empty_controller w q s)
unfolding empty_controller
empty_controller-Empty w q s h = (
  record {
    staffed = h;
    bounded = omega arith;
    limited = omega arith;
    no_idle_worker = λ k. absurd (omega (arith, k));
    observed = omega arith;
    observed_limited = omega arith;
    in_service = tt;
    waiting = tt;
    served = tt;
  },
  refl,
)

pub new_controller-Empty :
    (workers queue_limit service : ℤ) (a : Controller)
    → new_controller workers queue_limit service ≡ ok a
    → Empty a
unfolding new_controller empty_controller
new_controller-Empty workers queue_limit service a h = elim (Option-cases (positive workers)) [
  | inl e ↦ (let k : raise value_error ≡ ok a = rw (e, new_controller) at h in absurd cc)
  | inr (w, e) ↦ elim (Option-cases (nonnegative queue_limit)) [
    | inl f ↦ (let k : raise value_error ≡ ok a = rw (e, new_controller, f) at h in absurd cc)
    | inr (q, f) ↦ elim (Option-cases (positive service)) [
      | inl g ↦ (let k : raise value_error ≡ ok a = rw (e, new_controller, f, g) at h in absurd cc)
      | inr (s, g) ↦
          let k : ok (empty_controller w q s) ≡ ok a = rw (e, new_controller, f, g) at h in
          let built : empty_controller w q s ≡ a = cc in
          subst Empty built (empty_controller-Empty w q s (positive-le workers w e))
    ]
  ]
]

-- A controller that was constructed, after any calls, keeps its bounds: at most `workers` messages are
-- in flight, at most `queue_limit` wait, as many as `max_observed_queue_depth` says or fewer, and none
-- waits while a worker is idle; and each message that was completed had a worker for exactly
-- `service_time_ms`, from a time that is not before it was accepted.
pub run-IsBusy :
    (workers queue_limit service : ℤ) (a : Controller) (cs : List Call)
    → new_controller workers queue_limit service ≡ ok a
    → IsBusy (run cs a)
run-IsBusy workers queue_limit service a cs h =
    (run-counted cs a (new_controller-Empty workers queue_limit service a h).0).0

-- A controller that was constructed, after any calls, has lost no message and has none twice, by
-- their number: the completed ones, those in flight and those that wait are as many as the calls have admitted.
pub run-conserves :
    (workers queue_limit service : ℤ) (a : Controller) (cs : List Call)
    → new_controller workers queue_limit service ≡ ok a
    → length (run cs a).completed + length (run cs a).inflight + length (run cs a).queue
      ≡ admits_all cs a
run-conserves workers queue_limit service a cs h =
    let (b, zero_at_first) = new_controller-Empty workers queue_limit service a h in
    omega (arith, zero_at_first, (run-counted cs a b).1)
