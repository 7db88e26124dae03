-- ===== src/Admission.antt =====
-- labs/33-load-shedding/src/lab_33_load_shedding/backpressure.py: `AdmissionController`. Times are
-- natural numbers.
pub mod Items
pub mod Bounds
pub mod Rounds
pub mod Tally
pub mod Runs
pub mod Drains
mod Tests
use labs_for_linux_distribut.Base.{
  ℕ, zero, suc, ◌+◌, ◌-◌, String, Bool, true, false, Option, none, some, List, [], ◌∷◌, ◌++◌, ◌==◌,
  ◌&&◌, ℤ, nonnegative, positive, max, ltb, leb, if◌then◌else◌, string_eq, nat_eq, Result, ok,
  raise, length,
}

pub record RelayMessage : Type 0 where
  pub message_id : String
  pub payload : String
  pub attempts : ℕ

unfoldable pub next_attempt : RelayMessage → RelayMessage
next_attempt m = record m { attempts = m.attempts + 1 }

-- The texts of `reason`.
pub data Reason : Type 0 where
  accepted queued queue_full : Reason

pub record AdmissionDecision : Type 0 where
  pub accepted_ : Bool
  pub reason : Reason
  pub queue_depth : ℕ
  pub retry_after_ms : Option ℕ

pub record CompletedRequest : Type 0 where
  pub message_id : String
  pub accepted_at_ms : ℕ
  pub started_at_ms : ℕ
  pub completed_at_ms : ℕ

pub record QueuedMessage : Type 0 where
  pub message : RelayMessage
  pub accepted_at_ms : ℕ

pub record InflightMessage : Type 0 where
  pub message : RelayMessage
  pub accepted_at_ms : ℕ
  pub started_at_ms : ℕ
  pub completed_at_ms : ℕ

-- `==` of a dataclass.
unfoldable pub item_beq : InflightMessage → InflightMessage → Bool
item_beq a b =
    a.message.message_id == b.message.message_id
    && a.message.payload == b.message.payload
    && a.message.attempts == b.message.attempts
    && a.accepted_at_ms == b.accepted_at_ms
    && a.started_at_ms == b.started_at_ms
    && a.completed_at_ms == b.completed_at_ms

pub record AdmissionController : Type 0 where
  pub workers : ℕ
  pub queue_limit : ℕ
  pub service_time_ms : ℕ
  pub completed : List CompletedRequest
  pub max_observed_queue_depth : ℕ
  pub queue : List QueuedMessage
  pub inflight : List InflightMessage

abbrev pub Controller : Type 0
Controller = AdmissionController

pub data AdmissionError : Type 0 where
  value_error : AdmissionError

unfoldable pub new_controller : ℤ → ℤ → ℤ → Result AdmissionError Controller
new_controller workers queue_limit service_time_ms = elim (positive workers) [
  | none ↦ raise value_error
  | some w ↦ elim (nonnegative queue_limit) [
    | none ↦ raise value_error
    | some q ↦ elim (positive service_time_ms) [
      | none ↦ raise value_error
      | some s ↦ ok (record {
        workers = w;
        queue_limit = q;
        service_time_ms = s;
        completed = [];
        max_observed_queue_depth = 0;
        queue = [];
        inflight = [];
      })
    ]
  ]
]

unfoldable pub start_message : RelayMessage → ℕ → ℕ → Controller → Controller
start_message message accepted_at_ms started_at_ms a = record a {
  inflight =
      a.inflight
      ++ record {
        message = message;
        accepted_at_ms = accepted_at_ms;
        started_at_ms = started_at_ms;
        completed_at_ms = started_at_ms + a.service_time_ms;
      }
        ∷ [];
}

-- `min(items, key=lambda item: item.completed_at_ms)`: the first of the soonest ones.
unfoldable pub soonest : InflightMessage → List InflightMessage → InflightMessage
soonest best [] = best
soonest best (i ∷ is) = soonest (if ltb i.completed_at_ms best.completed_at_ms then i else best) is

abbrev pub next_of : List InflightMessage → Option InflightMessage
next_of [] = none
next_of (i ∷ is) = some (soonest i is)

-- `list.remove`
unfoldable pub remove : InflightMessage → List InflightMessage → List InflightMessage
remove item [] = []
remove item (i ∷ is) = if item_beq i item then is else i ∷ remove item is

abbrev pub request_of : InflightMessage → CompletedRequest
request_of i = record {
  message_id = i.message.message_id;
  accepted_at_ms = i.accepted_at_ms;
  started_at_ms = i.started_at_ms;
  completed_at_ms = i.completed_at_ms;
}

-- A worker that is free at the given time takes the head of the queue.
unfoldable pub take_next : ℕ → List QueuedMessage → Controller → Controller
unfolding start_message
take_next now_ms [] a = a
take_next now_ms (q ∷ queue) a =
    start_message q.message q.accepted_at_ms now_ms (record a { queue = queue })

-- The body of the loop of `advance_to`.
unfoldable pub complete : InflightMessage → Controller → Controller
unfolding remove take_next
complete item a = take_next item.completed_at_ms a.queue (record a {
  inflight = remove item a.inflight;
  completed = a.completed ++ request_of item ∷ [];
})

-- Each round of the loop takes one message out of the controller, so the messages in it are enough
-- fuel.
unfoldable pub advance_rounds : ℕ → ℕ → Controller → Controller
unfolding soonest complete
advance_rounds zero now_ms a = a
advance_rounds (suc fuel) now_ms a = elim (next_of a.inflight) [
  | none ↦ a
  | some next ↦
      let rest = advance_rounds fuel now_ms (complete next a) in
      if ltb now_ms next.completed_at_ms then a else rest
]

abbrev pub backlog : Controller → ℕ
backlog a = length a.inflight + length a.queue

unfoldable pub advance_to : ℕ → Controller → Controller
advance_to now_ms a = advance_rounds (backlog a) now_ms a

unfoldable pub drain_rounds : ℕ → Controller → Controller
drain_rounds zero a = a
drain_rounds (suc fuel) a = elim (next_of a.inflight) [
  | none ↦ a
  | some next ↦ drain_rounds fuel (advance_to next.completed_at_ms a)
]

unfoldable pub drain : Controller → Controller
drain a = drain_rounds (backlog a) a

-- `min` of an empty list raises in the source; a full controller has a worker at least.
unfoldable pub next_completion_delay : ℕ → List InflightMessage → Option ℕ
next_completion_delay now_ms is = elim (next_of is) [
  | none ↦ none
  | some next ↦ some (max (next.completed_at_ms - now_ms) 1)
]

abbrev pub enqueue : RelayMessage → ℕ → Controller → Controller
enqueue message now_ms a =
    let queue = a.queue ++ record { message = message; accepted_at_ms = now_ms } ∷ [] in
    record a {
      queue = queue;
      max_observed_queue_depth = max a.max_observed_queue_depth (length queue);
    }

abbrev pub decide : Bool → Reason → Option ℕ → Controller → AdmissionDecision × Controller
decide accepted_ reason retry_after_ms a = (
  record {
    accepted_ = accepted_;
    reason = reason;
    queue_depth = length a.queue;
    retry_after_ms = retry_after_ms;
  },
  a,
)

-- `submit` after the advance.
unfoldable pub admit : RelayMessage → ℕ → Controller → AdmissionDecision × Controller
unfolding start_message next_completion_delay
admit message now_ms a =
    if ltb (length a.inflight) a.workers
    then decide true accepted none (start_message message now_ms now_ms a)
    else if ltb (length a.queue) a.queue_limit
    then decide true queued none (enqueue message now_ms a)
    else decide false queue_full (next_completion_delay now_ms a.inflight) a

unfoldable pub submit : RelayMessage → ℕ → Controller → AdmissionDecision × Controller
submit message now_ms a = admit message now_ms (advance_to now_ms a)
