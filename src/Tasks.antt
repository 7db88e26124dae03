-- ===== src/Tasks.antt =====
-- `RelayTaskStateMachine` of labs/25-replicated-log/src/lab_25_replicated_log/simulation.py and the
-- commands that it applies. Ticks and attempts are integers that the machine only stores.
pub mod History
pub mod Lifecycle
mod Tests
use labs_for_linux_distribut.Base.{
  String, Bool, true, false, Option, none, some, List, [], ◌∷◌, ◌++◌, ◌==◌, ℤ, pos, string_eq,
  option_beq, if◌then◌else◌, Result, ok, raise,
}
use labs_for_linux_distribut.Base.Dict
use labs_for_linux_distribut.Base.Dict.{Dict}

pub data RelayTaskStatus : Type 0 where
  queued running completed : RelayTaskStatus

pub record RelayTask : Type 0 where
  pub task_id : String
  pub queue : String
  pub status : RelayTaskStatus
  pub created_tick : ℤ
  pub worker_id : Option String
  pub attempt : ℤ
  pub completed_tick : Option ℤ

-- The classes `EnqueueTask`, `StartTask` and `CompleteTask`, with their fields in order.
pub data RelayCommand : Type 0 where
  enqueue_task : String → String → ℤ → RelayCommand
  start_task : String → String → ℤ → RelayCommand
  complete_task : String → String → ℤ → RelayCommand

-- The raises of `StateMachineError`, each with what its message names.
pub data StateMachineError : Type 0 where
  already_exists does_not_exist not_queued not_running : String → StateMachineError
  owned_by : String → Option String → StateMachineError

pub record RelayTaskStateMachine : Type 0 where
  pub tasks : Dict String RelayTask
  pub history : List RelayCommand

abbrev pub Machine : Type 0
Machine = RelayTaskStateMachine

abbrev pub new_machine : Machine
new_machine = record { tasks = Dict.empty; history = [] }

abbrev pub subject : RelayCommand → String
subject (enqueue_task task_id _ _) = task_id
subject (start_task task_id _ _) = task_id
subject (complete_task task_id _ _) = task_id

abbrev is_queued : RelayTaskStatus → Bool
is_queued queued = true
is_queued _ = false

abbrev is_running : RelayTaskStatus → Bool
is_running running = true
is_running _ = false

-- The task that a command stores under its identifier, given the one that is there.
unfoldable pub next_task : RelayCommand → Option RelayTask → Result StateMachineError RelayTask
next_task (enqueue_task task_id queue created_tick) none = ok (record {
  task_id = task_id;
  queue = queue;
  status = queued;
  created_tick = created_tick;
  worker_id = none;
  attempt = pos 0;
  completed_tick = none;
})
next_task (enqueue_task task_id queue created_tick) (some task) = raise (already_exists task_id)
next_task (start_task task_id worker_id attempt) none = raise (does_not_exist task_id)
next_task (start_task task_id worker_id attempt) (some task) =
    if is_queued task.status
    then ok (record {
      task_id = task.task_id;
      queue = task.queue;
      status = running;
      created_tick = task.created_tick;
      worker_id = some worker_id;
      attempt = attempt;
      completed_tick = none;
    })
    else raise (not_queued task_id)
next_task (complete_task task_id worker_id completed_tick) none = raise (does_not_exist task_id)
next_task (complete_task task_id worker_id completed_tick) (some task) =
    if is_running task.status
    then if option_beq task.worker_id (some worker_id)
      then ok (record {
        task_id = task.task_id;
        queue = task.queue;
        status = completed;
        created_tick = task.created_tick;
        worker_id = task.worker_id;
        attempt = task.attempt;
        completed_tick = some completed_tick;
      })
      else raise (owned_by task_id task.worker_id)
    else raise (not_running task_id)

-- `apply` raises before it changes anything.
unfoldable pub apply : RelayCommand → Machine → Result StateMachineError Bool × Machine
apply command m = elim (next_task command (Dict.get m.tasks (subject command))) [
  | raise e ↦ (raise e, m)
  | ok task ↦ (
    ok true,
    record { tasks = Dict.put m.tasks (subject command) task; history = m.history ++ command ∷ [] },
  )
]

-- A run of commands whose rejections are caught.
unfoldable pub apply_all : List RelayCommand → Machine → Machine
apply_all [] m = m
apply_all (command ∷ commands) m = apply_all commands (apply command m).1
