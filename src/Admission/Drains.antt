-- ===== src/Admission/Drains.antt =====
-- What has become of every message once the controller is drained.
use labs_for_linux_distribut.Base.{ℕ, ◌+◌, String, ◌≡◌, List, [], ◌∷◌, ℤ, arith, refl, ok, length}
use labs_for_linux_distribut.Admission.{
  Controller, InflightMessage, QueuedMessage, CompletedRequest, new_controller, submit, drain,
}
use labs_for_linux_distribut.Admission.Rounds.{drain-Drained}
use labs_for_linux_distribut.Admission.Tally.{
  tally, completions, in_flight, in_queue, admission, tally-submit, tally-advance_to, tally-drain,
}
use labs_for_linux_distribut.Admission.Runs.{
  Call, submitted, advanced, drained, call, run, admits_all, run-counted, new_controller-Empty,
}

-- How often a message of the identifier is admitted at the time.
abbrev pub admissions : String → ℕ → Call → Controller → ℕ
admissions id at_ (submitted m now) a = admission id at_ m now (submit m now a).0
admissions id at_ (advanced now) a = 0
admissions id at_ drained a = 0

unfoldable pub admissions_all : String → ℕ → List Call → Controller → ℕ
admissions_all id at_ [] a = 0
admissions_all id at_ (c ∷ cs) a = admissions id at_ c a + admissions_all id at_ cs (call c a)

module _ (id : String) (at_ : ℕ) where
  tally-call :
      (c : Call) (a : Controller) → tally id at_ (call c a) ≡ tally id at_ a + admissions id at_ c a
  unfolding call
  tally-call (submitted m now) a = tally-submit id at_ m now a
  tally-call (advanced now) a = omega (arith, tally-advance_to id at_ now a)
  tally-call drained a = omega (arith, tally-drain id at_ a)

  tally-run :
      (cs : List Call) (a : Controller)
      → tally id at_ (run cs a) ≡ tally id at_ a + admissions_all id at_ cs a
  unfolding run admissions_all
  tally-run [] a = omega arith
  tally-run (c ∷ cs) a = omega (arith, tally-call c a, tally-run cs (call c a))

  none-completed : (cs : List CompletedRequest) → length cs ≡ 0 → completions id at_ cs ≡ 0
  none-completed [] h = refl
  none-completed (c ∷ cs) h = absurd (omega (arith, h))

  none_in_flight : (is : List InflightMessage) → length is ≡ 0 → in_flight id at_ is ≡ 0
  none_in_flight [] h = refl
  none_in_flight (i ∷ is) h = absurd (omega (arith, h))

  none_in_queue : (qs : List QueuedMessage) → length qs ≡ 0 → in_queue id at_ qs ≡ 0
  none_in_queue [] h = refl
  none_in_queue (q ∷ qs) h = absurd (omega (arith, h))

-- `drain` ends, whatever calls came before: then nothing is in flight and nothing waits; there are as
-- many completed requests as messages were admitted, and for each identifier and time, as many
-- completed requests have them as their identifier and time of acceptance as messages of that
-- identifier were admitted at that time.
pub drain-completes :
    (workers queue_limit service : ℤ) (a : Controller) (cs : List Call) (id : String) (at_ : ℕ)
    → new_controller workers queue_limit service ≡ ok a
    → (length (drain (run cs a)).inflight ≡ 0)
      × (length (drain (run cs a)).queue ≡ 0)
      × (length (drain (run cs a)).completed ≡ admits_all cs a)
      × (completions id at_ (drain (run cs a)).completed ≡ admissions_all id at_ cs a)
drain-completes workers queue_limit service a cs id at_ h =
    let (b, zero_at_first) = new_controller-Empty workers queue_limit service a h in
    let (busy, counted) = run-counted cs a b in
    let d = drain-Drained (run cs a) busy in
    let after = drain (run cs a) in
    (
      omega (arith, d.empty),
      omega (arith, d.empty),
      omega (arith, d.all_completed, counted, zero_at_first),
      omega (
        arith,
        tally-drain id at_ (run cs a),
        tally-run id at_ cs a,
        none-completed id at_ a.completed (omega (arith, zero_at_first)),
        none_in_flight id at_ a.inflight (omega (arith, zero_at_first)),
        none_in_queue id at_ a.queue (omega (arith, zero_at_first)),
        none_in_flight id at_ after.inflight (omega (arith, d.empty)),
        none_in_queue id at_ after.queue (omega (arith, d.empty)),
      ),
    )
