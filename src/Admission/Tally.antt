-- ===== src/Admission/Tally.antt =====
-- How often the controller has a message, told by its identifier and the time at which it was accepted.
use labs_for_linux_distribut.Base.{
  ℕ, zero, suc, ◌+◌, String, ◌≡◌, true, List, [], ◌∷◌, ◌++◌, ◌==◌, ◌&&◌, arith, refl, ap, ◌∙◌, inl,
  inr, eq_iff, nat_beq_iff, string_eq, nat_eq, ltb, if◌then◌else◌, Bool-cases, length,
}
use labs_for_linux_distribut.Admission.{
  Controller, RelayMessage, QueuedMessage, InflightMessage, CompletedRequest, AdmissionDecision,
  item_beq, start_message, soonest, remove, request_of, take_next, complete, advance_rounds,
  advance_to, backlog, drain_rounds, drain, admit, submit,
}
use labs_for_linux_distribut.Admission.Items.{holds, holds-soonest}
use labs_for_linux_distribut.Admission.Rounds.{next_of-cases}

module _ (id : String) (at_ : ℕ) where
  -- 1 for a message of that identifier that was accepted at that time.
  abbrev pub one_of : String → ℕ → ℕ
  one_of message_id accepted_at_ms = if message_id == id && accepted_at_ms == at_ then 1 else 0

  abbrev pub completions : List CompletedRequest → ℕ
  completions [] = 0
  completions (c ∷ cs) = one_of c.message_id c.accepted_at_ms + completions cs

  abbrev pub in_flight : List InflightMessage → ℕ
  in_flight [] = 0
  in_flight (i ∷ is) = one_of i.message.message_id i.accepted_at_ms + in_flight is

  abbrev pub in_queue : List QueuedMessage → ℕ
  in_queue [] = 0
  in_queue (q ∷ qs) = one_of q.message.message_id q.accepted_at_ms + in_queue qs

  abbrev pub tally : Controller → ℕ
  tally a = completions a.completed + in_flight a.inflight + in_queue a.queue

  completions-append :
      (cs : List CompletedRequest) (c : CompletedRequest)
      → completions (cs ++ c ∷ []) ≡ completions cs + one_of c.message_id c.accepted_at_ms
  completions-append [] c = omega arith
  completions-append (d ∷ cs) c = omega (arith, completions-append cs c)

  in_flight-append :
      (is : List InflightMessage) (i : InflightMessage)
      → in_flight (is ++ i ∷ []) ≡ in_flight is + one_of i.message.message_id i.accepted_at_ms
  in_flight-append [] i = omega arith
  in_flight-append (j ∷ is) i = omega (arith, in_flight-append is i)

  in_queue-append :
      (qs : List QueuedMessage) (q : QueuedMessage)
      → in_queue (qs ++ q ∷ []) ≡ in_queue qs + one_of q.message.message_id q.accepted_at_ms
  in_queue-append [] q = omega arith
  in_queue-append (p ∷ qs) q = omega (arith, in_queue-append qs q)

  -- Equal items are the same message.
  one_of-same :
      (i item : InflightMessage)
      → item_beq i item ≡ true
      → one_of i.message.message_id i.accepted_at_ms
        ≡ one_of item.message.message_id item.accepted_at_ms
  unfolding item_beq
  one_of-same i item same =
      let name : i.message.message_id ≡ item.message.message_id =
        (eq_iff i.message.message_id item.message.message_id).0 (ground (arith, same)) in
      let time : i.accepted_at_ms ≡ item.accepted_at_ms =
        (nat_beq_iff i.accepted_at_ms item.accepted_at_ms).0 (ground (arith, same)) in
      ap (λ m. one_of m i.accepted_at_ms) name ∙ ap (λ t. one_of item.message.message_id t) time

  in_flight-remove :
      (item : InflightMessage) (is : List InflightMessage)
      → holds item is ≡ true
      → in_flight is
        ≡ in_flight (remove item is) + one_of item.message.message_id item.accepted_at_ms
  unfolding remove
  in_flight-remove item [] h = absurd cc
  in_flight-remove item (i ∷ is) h = elim (Bool-cases (item_beq i item)) [
    | inl same ↦ rw (same, remove) (omega (arith, one_of-same i item same))
    | inr other ↦
        rw (other, remove) (omega (arith, in_flight-remove item is (ground (arith, other, h))))
  ]

  tally-complete :
      (item : InflightMessage) (a : Controller)
      → holds item a.inflight ≡ true
      → tally (complete item a) ≡ tally a
  unfolding complete take_next start_message
  tally-complete item a h = go a.queue refl
    where
      left : List InflightMessage
      left = remove item a.inflight

      freed : Controller
      freed = record a { inflight = left; completed = a.completed ++ request_of item ∷ [] }

      go :
          (qs : List QueuedMessage)
          → a.queue ≡ qs
          → tally (take_next item.completed_at_ms qs freed) ≡ tally a
      go [] e = omega (
        arith,
        in_flight-remove item a.inflight h,
        completions-append a.completed (request_of item),
      )
      go (q ∷ qs) e =
          let begun : InflightMessage = record {
            message = q.message;
            accepted_at_ms = q.accepted_at_ms;
            started_at_ms = item.completed_at_ms;
            completed_at_ms = item.completed_at_ms + a.service_time_ms;
          } in
          omega (
            arith,
            in_flight-remove item a.inflight h,
            completions-append a.completed (request_of item),
            in_flight-append left begun,
            ap in_queue e,
          )

  tally-advance_rounds :
      (fuel now : ℕ) (a : Controller) → tally (advance_rounds fuel now a) ≡ tally a
  unfolding advance_rounds
  tally-advance_rounds zero now a = refl
  tally-advance_rounds (suc fuel) now a = elim (next_of-cases a.inflight) [
    | inl (e, f) ↦ rw (f, advance_rounds) refl
    | inr (i, is, e, f) ↦
        let next = soonest i is in
        elim (Bool-cases (ltb now next.completed_at_ms)) [
          | inl early ↦ rw (f, advance_rounds, early) refl
          | inr due ↦
              rw (f, advance_rounds, due)
                (tally-advance_rounds fuel now (complete next a)
                  ∙ tally-complete next a (ap (holds next) e ∙ holds-soonest i is))
        ]
  ]

  pub tally-advance_to : (now : ℕ) (a : Controller) → tally (advance_to now a) ≡ tally a
  unfolding advance_to
  tally-advance_to now a = tally-advance_rounds (backlog a) now a

  tally-drain_rounds : (fuel : ℕ) (a : Controller) → tally (drain_rounds fuel a) ≡ tally a
  unfolding drain_rounds
  tally-drain_rounds zero a = refl
  tally-drain_rounds (suc fuel) a = elim (next_of-cases a.inflight) [
    | inl (e, f) ↦ rw (f, drain_rounds) refl
    | inr (i, is, e, f) ↦
        let now = (soonest i is).completed_at_ms in
        rw (f, drain_rounds) (tally-drain_rounds fuel (advance_to now a) ∙ tally-advance_to now a)
  ]

  pub tally-drain : (a : Controller) → tally (drain a) ≡ tally a
  unfolding drain
  tally-drain a = tally-drain_rounds (backlog a) a

  -- 1 where the decision admits such a message.
  abbrev pub admission : RelayMessage → ℕ → AdmissionDecision → ℕ
  admission m now d = if d.accepted_ then one_of m.message_id now else 0

  tally-admit :
      (m : RelayMessage) (now : ℕ) (a : Controller)
      → tally (admit m now a).1 ≡ tally a + admission m now (admit m now a).0
  unfolding admit start_message
  tally-admit m now a = elim (Bool-cases (ltb (length a.inflight) a.workers)) [
    | inl free ↦
        let begun : InflightMessage = record {
          message = m;
          accepted_at_ms = now;
          started_at_ms = now;
          completed_at_ms = now + a.service_time_ms;
        } in
        rw (free, admit) (omega (arith, in_flight-append a.inflight begun))
    | inr full ↦ elim (Bool-cases (ltb (length a.queue) a.queue_limit)) [
      | inl room ↦
          let last : QueuedMessage = record { message = m; accepted_at_ms = now } in
          rw (full, admit, room) (omega (arith, in_queue-append a.queue last))
      | inr none_left ↦ rw (full, admit, none_left) (omega arith)
    ]
  ]

  pub tally-submit :
      (m : RelayMessage) (now : ℕ) (a : Controller)
      → tally (submit m now a).1 ≡ tally a + admission m now (submit m now a).0
  unfolding submit
  tally-submit m now a = omega (arith, tally-admit m now (advance_to now a), tally-advance_to now a)
