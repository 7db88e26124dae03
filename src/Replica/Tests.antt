-- ===== src/Replica/Tests.antt =====
-- Runs of labs/25-replicated-log on three and on five nodes, and the theorems at them.
use labs_for_linux_distribut.Base.{
  ℕ, ◌≤◌, ◌<◌, ◌≡◌, ◌⊎◌, subset, true, false, Option, none, some, List, [], ◌∷◌, arith, refl, ok,
  pos, String, string_eq, nat_eq, length, min, contains,
}
use labs_for_linux_distribut.Base.Dict
use labs_for_linux_distribut.Base.Dict.{contains-get}
use labs_for_linux_distribut.Tasks.{RelayCommand, enqueue_task, apply, next_task}
use labs_for_linux_distribut.Partition
use labs_for_linux_distribut.Partition.{from_groups, reachable_from, group_of, seen_by}
use labs_for_linux_distribut.Replica.{
  Node, LogEntry, AppendEntriesRequest, AppendEntriesResponse, apply_each, apply_entry, new_node,
  restart, receive_append_entries, follow, replace_log, splice, shared_prefix,
  rebuild_state_machine, observe_higher_term, start_election, cast_vote, receive_vote_request,
  become_leader, defaults, append_local_entry, apply_committed_entries,
}
use labs_for_linux_distribut.Replica.Cluster.{
  is_leader, Cluster, Operation, timeout, restarted, replicated, submitted, partitioned, healed_all,
  operate, run, new_cluster, nodes_of, set_partition, heal, restart_node, require_running_node,
  running_peers, reachable_peers, request_votes, record_leader, conclude, campaign, trigger_timeout,
  heard, send_entries, request_of, spread_from, replicate_from_leader, advance_over,
  new_commit_index, advance_commit_index, reported, commit_and_report, submit_to, submit_command,
}
use labs_for_linux_distribut.Replica.Applied.{IsReplayed, Agrees}
use labs_for_linux_distribut.Replica.Followed.{
  receive_append_entries-IsReplayed, receive_append_entries-takes_back,
}
use labs_for_linux_distribut.Replica.Sound.{IsSound}
use labs_for_linux_distribut.Replica.Runs.{run-IsSound}
use labs_for_linux_distribut.Replica.Delivery.{Delivered, gets_log, replicate-Delivered}

abbrev job : RelayCommand
job = enqueue_task "t" "q" (pos 1)

abbrev next_job : RelayCommand
next_job = enqueue_task "u" "q" (pos 2)

abbrev applied_of : Option Node → Option ℕ
applied_of none = none
applied_of (some n) = some n.last_applied

abbrev five : List String
five = "a" ∷ "b" ∷ "c" ∷ "d" ∷ "e" ∷ []

abbrev start : Cluster
start = record {
  partition = Partition.healed five;
  leader_by_term = Dict.empty;
  nodes = nodes_of five five Dict.empty;
}

-- The first entry reaches a majority only together with the second; "c" holds it, and does not
-- know that it is committed.
abbrev split : List Operation
split =
    timeout "a"
    ∷ partitioned (("a" ∷ "c" ∷ []) ∷ ("b" ∷ "d" ∷ "e" ∷ []) ∷ [])
    ∷ submitted "a" job
    ∷ partitioned (("a" ∷ "b" ∷ []) ∷ ("c" ∷ "d" ∷ "e" ∷ []) ∷ [])
    ∷ submitted "a" next_job
    ∷ []

abbrev elected : List Operation
elected = timeout "c" ∷ healed_all ∷ replicated "c" ∷ restarted "b" ∷ []

before : applied_of (Dict.get (run split start).nodes "b") ≡ some 1
unfolding run operate new_cluster nodes_of set_partition heal restart_node require_running_node
    running_peers reachable_peers request_votes record_leader conclude campaign trigger_timeout
    heard send_entries spread_from replicate_from_leader advance_over new_commit_index
    advance_commit_index reported commit_and_report submit_to submit_command apply next_task
    from_groups reachable_from group_of seen_by Partition.healed Dict.get Dict.put apply_each
    apply_entry new_node restart receive_append_entries follow replace_log splice shared_prefix
    rebuild_state_machine observe_higher_term start_election cast_vote receive_vote_request
    become_leader defaults append_local_entry apply_committed_entries
before = refl

-- The new leader takes the commit index back, and the restart the applied entry.
after : applied_of (Dict.get (run elected (run split start)).nodes "b") ≡ some 0
unfolding run operate new_cluster nodes_of set_partition heal restart_node require_running_node
    running_peers reachable_peers request_votes record_leader conclude campaign trigger_timeout
    heard send_entries spread_from replicate_from_leader advance_over new_commit_index
    advance_commit_index reported commit_and_report submit_to submit_command apply next_task
    from_groups reachable_from group_of seen_by Partition.healed Dict.get Dict.put apply_each
    apply_entry new_node restart receive_append_entries follow replace_log splice shared_prefix
    rebuild_state_machine observe_higher_term start_election cast_vote receive_vote_request
    become_leader defaults append_local_entry apply_committed_entries
after = refl

start-made : new_cluster five ≡ ok start
unfolding new_cluster nodes_of Dict.put
start-made = refl

listed : contains (Dict.keys (run split start).nodes) "b" ≡ true
unfolding run operate new_cluster nodes_of set_partition heal restart_node require_running_node
    running_peers reachable_peers request_votes record_leader conclude campaign trigger_timeout
    heard send_entries spread_from replicate_from_leader advance_over new_commit_index
    advance_commit_index reported commit_and_report submit_to submit_command apply next_task
    from_groups reachable_from group_of seen_by Partition.healed Dict.get Dict.put apply_each
    apply_entry new_node restart receive_append_entries follow replace_log splice shared_prefix
    rebuild_state_machine observe_higher_term start_election cast_vote receive_vote_request
    become_leader defaults append_local_entry apply_committed_entries
listed = refl

held : (n : Node) × (Dict.get (run split start).nodes "b" ≡ some n)
held = contains-get (run split start).nodes "b" listed

run-IsSound_example : IsSound held.0
run-IsSound_example = run-IsSound five start split "b" held.0 start-made held.1

abbrev empty_node : Node
empty_node = new_node "b" ("a" ∷ [])

abbrev entry : LogEntry
entry = record { index = 1; term = 1; command = job }

abbrev first : AppendEntriesRequest
first = record { term = 1; leader_id = "a"; log_entries = entry ∷ []; leader_commit = 1 }

abbrev second : AppendEntriesRequest
second = record { term = 2; leader_id = "c"; log_entries = entry ∷ []; leader_commit = 0 }

abbrev one_applied : Node
one_applied = (receive_append_entries first empty_node).1

empty-IsReplayed : IsReplayed empty_node
unfolding new_node rebuild_state_machine apply_committed_entries apply_each
empty-IsReplayed = record { within = omega arith; replayed = refl }

no_later : empty_node.current_term ≤ first.term
unfolding new_node
no_later = omega arith

agrees : Agrees first.log_entries empty_node
unfolding new_node rebuild_state_machine apply_committed_entries apply_each
agrees fits = refl

receive_append_entries-IsReplayed_example :
    IsReplayed one_applied × (one_applied.commit_index ≤ one_applied.last_applied)
receive_append_entries-IsReplayed_example =
    receive_append_entries-IsReplayed first empty_node no_later empty-IsReplayed agrees

older : one_applied.current_term ≤ second.term
unfolding receive_append_entries follow replace_log splice shared_prefix observe_higher_term
    new_node rebuild_state_machine apply_committed_entries
older = omega arith

fewer : second.leader_commit < one_applied.last_applied
unfolding receive_append_entries follow replace_log splice shared_prefix observe_higher_term
    new_node rebuild_state_machine apply_committed_entries apply_each apply_entry
fewer = omega arith

receive_append_entries-takes_back_example :
    let followed = (receive_append_entries second one_applied).1 in
    let m = restart followed in
    (followed.commit_index ≡ min second.leader_commit (length second.log_entries))
    × IsReplayed m
    × (m.last_applied ≡ followed.commit_index)
    × (m.last_applied < one_applied.last_applied)
receive_append_entries-takes_back_example =
    receive_append_entries-takes_back second one_applied older fewer

abbrev boss : Node
boss = (append_local_entry job (become_leader (new_node "a" ("b" ∷ [])))).1

abbrev pair : Cluster
pair = record {
  partition = Partition.healed ("a" ∷ "b" ∷ []);
  leader_by_term = Dict.empty;
  nodes = Dict.put (Dict.put Dict.empty "a" boss) "b" empty_node;
}

boss_runs : require_running_node "a" pair.nodes ≡ ok boss
unfolding require_running_node append_local_entry become_leader new_node rebuild_state_machine
    apply_committed_entries Dict.get Dict.put
boss_runs = refl

boss_leads : is_leader boss.role ≡ true
unfolding append_local_entry become_leader
boss_leads = refl

boss_reaches : reachable_from pair.partition "a" ≡ ok ("a" ∷ "b" ∷ [])
unfolding reachable_from group_of Partition.healed
boss_reaches = refl

pair_known : subset ("a" ∷ "b" ∷ []) (Dict.keys pair.nodes) ≡ true
unfolding Dict.put
pair_known = refl

pair_holds : Dict.get pair.nodes "b" ≡ some empty_node
unfolding Dict.get Dict.put
pair_holds = refl

replicate-Delivered_example :
    ((rs : List AppendEntriesResponse) × ((replicate_from_leader "a" pair).0 ≡ ok rs))
    × ((gets_log "a" ("a" ∷ "b" ∷ []) boss "b" empty_node ≡ false)
        ⊎ Delivered (request_of "a" boss) "b" (replicate_from_leader "a" pair).1.nodes)
replicate-Delivered_example =
    replicate-Delivered "a" pair boss empty_node ("a" ∷ "b" ∷ []) "b" boss_runs boss_leads
      boss_reaches pair_known pair_holds

-- The second node is one that gets the log.
boss_delivers : gets_log "a" ("a" ∷ "b" ∷ []) boss "b" empty_node ≡ true
unfolding append_local_entry become_leader new_node rebuild_state_machine apply_committed_entries
boss_delivers = refl
