-- ===== src/Tasks/Lifecycle.antt =====
-- A task goes from queued to running to completed.
use labs_for_linux_distribut.Base.{ℕ, ◌≤◌, ◌≡◌, nat_eq}
use labs_for_linux_distribut.Base.Dict
use labs_for_linux_distribut.Tasks.{RelayTask, RelayTaskStatus, queued, running, completed}

abbrev pub rank : RelayTaskStatus → ℕ
rank queued = 0
rank running = 1
rank completed = 2

pub record Advances (t u : RelayTask) : Type 0 where
  pub forward : rank t.status ≤ rank u.status
  pub same_queue : u.queue ≡ t.queue
  pub same_worker : 1 ≤ rank t.status → u.worker_id ≡ t.worker_id
  pub finished : t.status ≡ completed → u ≡ t
