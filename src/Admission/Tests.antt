-- ===== src/Admission/Tests.antt =====
-- Runs on concrete controllers.
use labs_for_linux_distribut.Base.{◌≡◌, ◌+◌, List, [], ◌∷◌, pos, ok, refl, length, false, some}
use labs_for_linux_distribut.Admission.{
  Controller, RelayMessage, queue_full, new_controller, start_message, soonest, remove, take_next,
  complete, advance_rounds, advance_to, drain, next_completion_delay, admit, submit, item_beq,
}
use labs_for_linux_distribut.Admission.Bounds.{IsBusy}
use labs_for_linux_distribut.Admission.Tally.{completions}
use labs_for_linux_distribut.Admission.Drains.{admissions_all, drain-completes}
use labs_for_linux_distribut.Admission.Runs.{
  Call, submitted, call, admits, run, admits_all, run-IsBusy, run-conserves,
}

abbrev one_worker : Controller
one_worker = record {
  workers = 1;
  queue_limit = 1;
  service_time_ms = 10;
  completed = [];
  max_observed_queue_depth = 0;
  queue = [];
  inflight = [];
}

abbrev message : RelayMessage
message = record { message_id = "m"; payload = "p"; attempts = 0 }

-- The second waits, the third is refused, the fourth comes when the first is done.
abbrev four_calls : List Call
four_calls =
    submitted message 0 ∷ submitted message 1 ∷ submitted message 2 ∷ submitted message 10 ∷ []

one_worker-new : new_controller (pos 1) (pos 1) (pos 10) ≡ ok one_worker
unfolding new_controller
one_worker-new = refl

three_admitted : admits_all four_calls one_worker ≡ 3
unfolding admits_all admits call submit admit advance_to advance_rounds soonest complete remove
    take_next start_message item_beq next_completion_delay
three_admitted = refl

third_refused :
    (submit message 2 (run (submitted message 0 ∷ submitted message 1 ∷ []) one_worker)).0
    ≡ record { accepted_ = false; reason = queue_full; queue_depth = 1; retry_after_ms = some 8 }
unfolding run call submit admit advance_to advance_rounds soonest complete remove take_next
    start_message item_beq next_completion_delay
third_refused = refl

run-IsBusy_example : IsBusy (run four_calls one_worker)
run-IsBusy_example = run-IsBusy (pos 1) (pos 1) (pos 10) one_worker four_calls one_worker-new

run-conserves_example :
    length (run four_calls one_worker).completed
      + length (run four_calls one_worker).inflight
      + length (run four_calls one_worker).queue
    ≡ admits_all four_calls one_worker
run-conserves_example = run-conserves (pos 1) (pos 1) (pos 10) one_worker four_calls one_worker-new

drain-completes_example :
    (length (drain (run four_calls one_worker)).inflight ≡ 0)
    × (length (drain (run four_calls one_worker)).queue ≡ 0)
    × (length (drain (run four_calls one_worker)).completed ≡ admits_all four_calls one_worker)
    × (completions "m" 1 (drain (run four_calls one_worker)).completed
        ≡ admissions_all "m" 1 four_calls one_worker)
drain-completes_example =
    drain-completes (pos 1) (pos 1) (pos 10) one_worker four_calls "m" 1 one_worker-new
