-- ===== src/Quorum/Tests.antt =====
-- Writes and reads of three nodes of labs/23-quorum-basics, and the theorems at them.
use labs_for_linux_distribut.Base.{
  ◌+◌, ◌↔◌, true, ◌≤◌, ◌<◌, String, ◌≡◌, none, some, List, [], ◌∷◌, arith, refl, ok, pos, false,
  string_eq,
}
use labs_for_linux_distribut.Base.Dict
use labs_for_linux_distribut.Partition
use labs_for_linux_distribut.Partition.{from_groups, reachable_from, group_of, seen_by}
use labs_for_linux_distribut.Quorum.{
  Cluster, RelayTaskRecord, running, VersionedTask, ReadResult, new_cluster, replicas, write,
  write_task, write_each, read_task, select_nodes, observe, newest, newest_of, can_reach_quorum,
  latest_task, answer, set_partition, node_count, quorums_intersect,
}
use labs_for_linux_distribut.Quorum.Reach.{can_reach_quorum-select_nodes}
use labs_for_linux_distribut.Quorum.Exact.{read-last_write}
use labs_for_linux_distribut.Quorum.Runs.{
  Operation, written_task, partitioned, run, operate, read-sees_write,
}

abbrev three : List String
three = "a" ∷ "b" ∷ "c" ∷ []

abbrev start : Cluster
start = record { tick = 0; nodes = replicas three Dict.empty; partition = Partition.healed three }

abbrev job : RelayTaskRecord
job = record {
  task_id = "t";
  shard = "s";
  status = running;
  assigned_worker = none;
  attempt = pos 1;
}

abbrev before : List Operation
before = written_task "t" job "b" (pos 3) none ∷ []

abbrev after : List Operation
after = partitioned (("a" ∷ []) ∷ ("b" ∷ "c" ∷ []) ∷ []) ∷ []

abbrev newer : VersionedTask
newer = record { version = record { tick = 2; coordinator = "a" }; record_ = job }

abbrev older : VersionedTask
older = record { version = record { tick = 1; coordinator = "b" }; record_ = job }

-- The read contacts one node that has the newer value and one that has the older.
abbrev seen : ReadResult
seen = record {
  task_key = "t";
  value = newer;
  contacted_nodes = "b" ∷ "c" ∷ [];
  observations =
      record { node_id = "b"; value = some newer }
      ∷ record { node_id = "c"; value = some older }
      ∷ [];
  stale = false;
}

start-made : new_cluster three 0 ≡ ok start
unfolding new_cluster replicas Dict.put
start-made = refl

wrote : (write_task "t" job "a" (pos 2) none (run before start)).0 ≡ ok newer
unfolding run operate write_task write_each write select_nodes replicas reachable_from group_of
    Partition.healed Dict.get Dict.put
wrote = refl

was_read :
    read_task "t" "c"
      (pos 2)
      none
      (run after (write_task "t" job "a" (pos 2) none (run before start)).1)
    ≡ ok seen
unfolding run operate write_task write_each write select_nodes replicas reachable_from group_of
    seen_by from_groups set_partition read_task observe newest newest_of latest_task answer
    Partition.healed Dict.get Dict.put
was_read = refl

too_many : node_count (run before start) < 2 + 2
unfolding run operate write_task write_each write select_nodes replicas reachable_from group_of
    Partition.healed Dict.get Dict.put
too_many = omega arith

-- Two quorums of one node of three need not meet.
no_meeting : quorums_intersect (pos 3) (pos 1) (pos 1) ≡ ok false
unfolding quorums_intersect
no_meeting = refl

read-sees_write_example : newer.version.tick ≤ seen.value.version.tick
read-sees_write_example =
    read-sees_write three 0 start before after "t" job "a" "c" (pos 2) (pos 2) 2 2 none none newer
      seen start-made refl refl too_many wrote was_read

read-last_write_example : seen.value ≡ newer
read-last_write_example =
    read-last_write three 0 start before after "t" job "a" "c" (pos 2) (pos 2) 2 2 none none newer
      seen start-made (refl, tt) refl refl too_many wrote was_read

can_reach_quorum-select_nodes_example :
    can_reach_quorum "a" (pos 2) start ≡ ok true
    ↔ ((targets : List String) × (select_nodes "a" (pos 2) none start ≡ ok targets))
can_reach_quorum-select_nodes_example = can_reach_quorum-select_nodes "a" (pos 2) start
