-- ===== src/Tasks/Tests.antt =====
-- Commands of labs/25-replicated-log on one machine, and the theorems at them.
use labs_for_linux_distribut.Base.{◌≡◌, none, List, [], ◌∷◌, refl, ok, raise, pos, string_eq}
use labs_for_linux_distribut.Base.Dict
use labs_for_linux_distribut.Tasks.{
  RelayCommand, enqueue_task, start_task, complete_task, RelayTask, Machine, new_machine, queued,
  next_task, apply, apply_all, already_exists,
}
use labs_for_linux_distribut.Tasks.History.{replay, history-replay}

abbrev commands : List RelayCommand
commands =
    enqueue_task "t" "q" (pos 1)
    ∷ enqueue_task "t" "q" (pos 2)
    ∷ start_task "t" "w" (pos 1)
    ∷ complete_task "t" "v" (pos 3)
    ∷ complete_task "t" "w" (pos 4)
    ∷ []

-- The second and the fourth command are rejected.
kept :
    (apply_all commands new_machine).history
    ≡ enqueue_task "t" "q" (pos 1) ∷ start_task "t" "w" (pos 1) ∷ complete_task "t" "w" (pos 4) ∷ []
unfolding apply_all apply next_task Dict.get Dict.put
kept = refl

abbrev one : Machine
one = (apply (enqueue_task "t" "q" (pos 1)) new_machine).1

twice : (apply (enqueue_task "t" "q" (pos 2)) one).0 ≡ raise (already_exists "t")
unfolding apply next_task Dict.get Dict.put
twice = refl

history-replay_example :
    replay (apply_all commands new_machine).history new_machine
    ≡ ok (apply_all commands new_machine)
history-replay_example = history-replay commands

abbrev first : RelayTask
first = record {
  task_id = "t";
  queue = "q";
  status = queued;
  created_tick = pos 1;
  worker_id = none;
  attempt = pos 0;
  completed_tick = none;
}
