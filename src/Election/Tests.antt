-- ===== src/Election/Tests.antt =====
-- Runs of three nodes of labs/24-raft-election, and the theorems at them.
use labs_for_linux_distribut.Base.{
  ◌<◌, ◌≤◌, String, ◌≡◌, ◌≢◌, none, some, List, [], ◌∷◌, refl, ok, raise, count, true, false,
  string_eq, nat_eq,
}
use labs_for_linux_distribut.Base.Dict
use labs_for_linux_distribut.Partition
use labs_for_linux_distribut.Partition.{from_groups, reachable_from, group_of, seen_by}
use labs_for_linux_distribut.Election.{
  RaftNode, new_node, receive_vote_request, cast_vote, observe_higher_term, become_leader, follow,
  receive_heartbeat, restart, start_election,
}
use labs_for_linux_distribut.Election.Cluster.{
  Cluster, leadership_conflict, new_cluster, nodes_of, leader_for_term, trigger_timeout, majority,
  heal, set_partition, campaign, reachable_peers, request_votes, conclude, beat_from, record_leader,
  restart_node, send_beats, send_heartbeat,
}
use labs_for_linux_distribut.Election.Votes.{pledged_at}
use labs_for_linux_distribut.Election.Runs.{
  Operation, timeout, heartbeat, restarted, partitioned, healed, run, operate, deposes, is_deposing,
  run-backed_leader, run-one_leader, run-keeps_leader,
}
use labs_for_linux_distribut.Election.Timeout.{started, deposed_win, deposed_campaign}
use labs_for_linux_distribut.Election.Deposed.{
  IsUnvoted, InTerm, deposed_term, deposed_win-IsUnvoted,
}

abbrev three : List String
three = "a" ∷ "b" ∷ "c" ∷ []

abbrev start : Cluster
start = record {
  partition = Partition.healed three;
  leader_by_term = Dict.empty;
  nodes = nodes_of three three Dict.empty;
}

abbrev usual : List Operation
usual =
    timeout "a"
    ∷ heartbeat "a"
    ∷ partitioned (("a" ∷ []) ∷ ("b" ∷ "c" ∷ []) ∷ [])
    ∷ timeout "b"
    ∷ heartbeat "a"
    ∷ restarted "c"
    ∷ healed
    ∷ []

-- The isolated node has reached term 2 when the others hold their first election.
abbrev ahead : List Operation
ahead = partitioned (("a" ∷ "b" ∷ []) ∷ ("c" ∷ []) ∷ []) ∷ timeout "c" ∷ timeout "c" ∷ healed ∷ []

start-made : new_cluster three ≡ ok start
unfolding new_cluster nodes_of Dict.put
start-made = refl

usual-clean : deposes usual start ≡ false
unfolding deposed_win deposed_campaign trigger_timeout Dict.get Dict.put run operate deposes
    is_deposing heal set_partition from_groups nodes_of campaign reachable_peers reachable_from
    request_votes conclude Partition.healed receive_vote_request cast_vote observe_higher_term
    beat_from record_leader restart_node send_beats send_heartbeat become_leader follow
    receive_heartbeat restart start_election group_of seen_by leader_for_term
usual-clean = refl

leader-1 : leader_for_term 1 (run usual start) ≡ some "a"
unfolding deposed_win deposed_campaign trigger_timeout Dict.get Dict.put run operate deposes
    is_deposing heal set_partition from_groups nodes_of campaign reachable_peers reachable_from
    request_votes conclude Partition.healed receive_vote_request cast_vote observe_higher_term
    beat_from record_leader restart_node send_beats send_heartbeat become_leader follow
    receive_heartbeat restart start_election group_of seen_by leader_for_term
leader-1 = refl

leader-2 : leader_for_term 2 (run usual start) ≡ some "b"
unfolding deposed_win deposed_campaign trigger_timeout Dict.get Dict.put run operate deposes
    is_deposing heal set_partition from_groups nodes_of campaign reachable_peers reachable_from
    request_votes conclude Partition.healed receive_vote_request cast_vote observe_higher_term
    beat_from record_leader restart_node send_beats send_heartbeat become_leader follow
    receive_heartbeat restart start_election group_of seen_by leader_for_term
leader-2 = refl

ahead-deposes : deposed_win "a" (run ahead start) ≡ true
unfolding deposed_win deposed_campaign trigger_timeout Dict.get Dict.put run operate deposes
    is_deposing heal set_partition from_groups nodes_of campaign reachable_peers reachable_from
    request_votes conclude Partition.healed receive_vote_request cast_vote observe_higher_term
    beat_from record_leader restart_node send_beats send_heartbeat become_leader follow
    receive_heartbeat restart start_election group_of seen_by leader_for_term
ahead-deposes = refl

-- The next election of the term that the candidate was told of raises the conflict.
ahead-conflict :
    (trigger_timeout "b" (run (timeout "a" ∷ []) (run ahead start))).0 ≡ raise leadership_conflict
unfolding deposed_win deposed_campaign trigger_timeout Dict.get Dict.put run operate deposes
    is_deposing heal set_partition from_groups nodes_of campaign reachable_peers reachable_from
    request_votes conclude Partition.healed receive_vote_request cast_vote observe_higher_term
    beat_from record_leader restart_node send_beats send_heartbeat become_leader follow
    receive_heartbeat restart start_election group_of seen_by leader_for_term
ahead-conflict = refl

abbrev deaf : RaftNode
deaf = new_node "a" ("b" ∷ "c" ∷ [])

ahead-deaf : Dict.get (run ahead start).nodes "a" ≡ some deaf
unfolding deposed_win deposed_campaign trigger_timeout Dict.get Dict.put run operate deposes
    is_deposing heal set_partition from_groups nodes_of campaign reachable_peers reachable_from
    request_votes conclude Partition.healed receive_vote_request cast_vote observe_higher_term
    beat_from record_leader restart_node send_beats send_heartbeat become_leader follow
    receive_heartbeat restart start_election group_of seen_by leader_for_term
ahead-deaf = refl

ahead-free : leader_for_term 2 (run ahead start) ≡ none
unfolding deposed_win deposed_campaign trigger_timeout Dict.get Dict.put run operate deposes
    is_deposing heal set_partition from_groups nodes_of campaign reachable_peers reachable_from
    request_votes conclude Partition.healed receive_vote_request cast_vote observe_higher_term
    beat_from record_leader restart_node send_beats send_heartbeat become_leader follow
    receive_heartbeat restart start_election group_of seen_by leader_for_term
ahead-free = refl

ahead-answer :
    deposed_term "a" (start_election deaf).0 (started "a" deaf (run ahead start)) ≡ some 2
unfolding deposed_term deposed_win deposed_campaign trigger_timeout Dict.get Dict.put run operate
    deposes is_deposing heal set_partition from_groups nodes_of campaign reachable_peers
    reachable_from request_votes conclude Partition.healed receive_vote_request cast_vote
    observe_higher_term beat_from record_leader restart_node send_beats send_heartbeat become_leader
    follow receive_heartbeat restart start_election group_of seen_by leader_for_term
ahead-answer = refl

next-clean : deposed_win "c" (run usual start) ≡ false
unfolding deposed_win deposed_campaign trigger_timeout Dict.get Dict.put run operate deposes
    is_deposing heal set_partition from_groups nodes_of campaign reachable_peers reachable_from
    request_votes conclude Partition.healed receive_vote_request cast_vote observe_higher_term
    beat_from record_leader restart_node send_beats send_heartbeat become_leader follow
    receive_heartbeat restart start_election group_of seen_by leader_for_term
next-clean = refl

run-backed_leader_example :
    majority (run usual start).nodes
    ≤ count (pledged_at 2 "b" (run usual start).nodes) (Dict.keys (run usual start).nodes)
run-backed_leader_example =
    run-backed_leader three start usual 2 "b" start-made usual-clean leader-2

run-one_leader_example : (trigger_timeout "c" (run usual start)).0 ≢ raise leadership_conflict
run-one_leader_example = run-one_leader three start usual "c" start-made usual-clean next-clean

run-keeps_leader_example : leader_for_term 2 (run ahead (run usual start)) ≡ some "b"
run-keeps_leader_example = run-keeps_leader ahead (run usual start) 2 "b" leader-2

deposed_win-IsUnvoted_example :
    ((start_election deaf).0.term < 2)
    × InTerm (started "a" deaf (run ahead start)).nodes 2
    × IsUnvoted "a" 2 (trigger_timeout "a" (run ahead start)).1
deposed_win-IsUnvoted_example =
    deposed_win-IsUnvoted "a" deaf (run ahead start) 2 ahead-deaf ahead-deposes ahead-answer
      ahead-free
