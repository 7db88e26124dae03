-- ===== src/Tasks/History.antt =====
-- The history of the machine, applied anew, gives the machine.
use labs_for_linux_distribut.Base.{
  ◌≡◌, Bool, true, List, [], ◌∷◌, ◌++◌, arith, refl, ap, ◌∙◌, inl, inr, string_eq, Result, ok,
  raise, Result-cases,
}
use labs_for_linux_distribut.Base.Dict
use labs_for_linux_distribut.Tasks.{
  Machine, RelayCommand, StateMachineError, new_machine, subject, next_task, apply, apply_all,
}

abbrev after : Result StateMachineError Bool × Machine → Result StateMachineError Machine
after (ok b, m) = ok m
after (raise e, m) = raise e

-- Applies commands until one is rejected.
unfoldable pub replay : List RelayCommand → Machine → Result StateMachineError Machine
replay [] m = ok m
replay (command ∷ commands) m = elim (after (apply command m)) [
  | raise e ↦ raise e
  | ok n ↦ replay commands n
]

replay-append :
    (commands : List RelayCommand) (last : RelayCommand) (m n : Machine)
    → replay commands m ≡ ok n
    → replay (commands ++ last ∷ []) m ≡ after (apply last n)
unfolding replay
replay-append [] last m n h =
    let same : m ≡ n = ground arith in
    rw same (elim (Result-cases (after (apply last n))) [
      | inl (p, e) ↦ rw (e, replay) refl
      | inr (x, e) ↦ rw (e, replay) refl
    ])
replay-append (command ∷ commands) last m n h = elim (Result-cases (after (apply command m))) [
  | inl (p, e) ↦ rw (e, replay) (replay-append commands last p n (ground (arith, e)))
  | inr (x, e) ↦ absurd (ground (arith, e))
]

apply-replay :
    (command : RelayCommand) (m : Machine)
    → replay m.history new_machine ≡ ok m
    → replay (apply command m).1.history new_machine ≡ ok (apply command m).1
apply-replay command m r =
    elim (Result-cases (next_task command (Dict.get m.tasks (subject command)))) [
      | inr (x, e) ↦ unfold apply in rw (e, apply) r
      | inl (task, e) ↦
          let next : Machine = record {
            tasks = Dict.put m.tasks (subject command) task;
            history = m.history ++ command ∷ [];
          } in
          let applied : apply command m ≡ (ok true, next) = unfold apply in rw (e, apply) refl in
          rw (applied) (replay-append m.history command new_machine m r ∙ ap after applied)
    ]

apply_all-replay :
    (commands : List RelayCommand) (m : Machine)
    → replay m.history new_machine ≡ ok m
    → replay (apply_all commands m).history new_machine ≡ ok (apply_all commands m)
unfolding apply_all
apply_all-replay [] m r = r
apply_all-replay (command ∷ commands) m r =
    apply_all-replay commands (apply command m).1 (apply-replay command m r)

-- After any commands, rejected ones included, the history of the machine, applied anew to an empty
-- machine, is not rejected anywhere and gives the same machine.
pub history-replay :
    (commands : List RelayCommand)
    → let m = apply_all commands new_machine in replay m.history new_machine ≡ ok m
history-replay commands = apply_all-replay commands new_machine (unfold replay in refl)
