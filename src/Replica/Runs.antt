-- ===== src/Replica/Runs.antt =====
-- Runs of the operations of `ReplicatedRelayCluster`: every node stays sound.
use labs_for_linux_distribut.Base.{
  String, ◌≡◌, some, List, [], ◌∷◌, arith, refl, sym, subst, inl, inr, ltb, length, unique, discard,
  ok, Bool-cases, Option-cases, Result-cases, string_eq, nat_eq,
}
use labs_for_linux_distribut.Base.Dict
use labs_for_linux_distribut.Base.Dict.{get-empty}
use labs_for_linux_distribut.Tasks.{RelayCommand}
use labs_for_linux_distribut.Replica.{Node, LogEntry, new_node, append_local_entry}
use labs_for_linux_distribut.Replica.Cluster.{
  Cluster, Nodes, Operation, timeout, crashed, restarted, replicated, submitted, partitioned,
  healed_all, operate, run, is_leader, nodes_of, new_cluster, majority, heal, require_running_node,
  replicate_from_leader, advance_commit_index, successes, reported, commit_and_report, submit_to,
  submit_command,
}
use labs_for_linux_distribut.Replica.Sound.{IsSound, new_node-IsSound, append_local_entry-IsSound}
use labs_for_linux_distribut.Replica.Rounds.{AllSound, put-AllSound, advance_commit_index-IsSound}
use labs_for_linux_distribut.Replica.Operations.{
  crash_node-AllSound, restart_node-AllSound, nodes-set_partition, require_running-get,
  trigger_timeout-AllSound, replicate-AllSound,
}

nodes-reported :
    (id : String) (entry : LogEntry) (ids : List String) (c : Cluster)
    → (reported id entry ids c).1 ≡ c
unfolding reported
nodes-reported id entry ids c = elim (Option-cases (Dict.get c.nodes id)) [
  | inl e ↦ rw (e, reported) refl
  | inr (n, e) ↦ rw (e, reported) refl
]

commit_and_report-AllSound :
    (id : String) (entry : LogEntry) (ids : List String) (c : Cluster)
    → AllSound c.nodes
    → AllSound (commit_and_report id entry ids c).1.nodes
unfolding commit_and_report
commit_and_report-AllSound id entry ids c all = elim (Option-cases (Dict.get c.nodes id)) [
  | inl e ↦ rw (e, commit_and_report) all
  | inr (n, e) ↦
      let n1 = (advance_commit_index (majority c.nodes) n).1 in
      let c1 = record c { nodes = Dict.put c.nodes id n1 } in
      let c2 = (replicate_from_leader id c1).1 in
      let all1 =
        put-AllSound c.nodes id n1 all
          (advance_commit_index-IsSound (majority c.nodes) n (all.each id n e)) in
      let all2 = replicate-AllSound id c1 all1 in
      elim (Bool-cases (advance_commit_index (majority c.nodes) n).0) [
        | inr stays ↦ rw (e, commit_and_report, stays, nodes-reported id entry ids c1) all1
        | inl moved ↦ elim (Result-cases (replicate_from_leader id c1).0) [
          | inr (x, f) ↦ rw (e, commit_and_report, moved, f) all2
          | inl (rs, f) ↦ rw (e, commit_and_report, moved, f, nodes-reported id entry ids c2) all2
        ]
      ]
]

submit_to-AllSound :
    (id : String) (command : RelayCommand) (n : Node) (c : Cluster)
    → AllSound c.nodes
    → IsSound n
    → AllSound (submit_to id command n c).1.nodes
unfolding submit_to
submit_to-AllSound id command n c all s =
    let c1 = record c { nodes = Dict.put c.nodes id (append_local_entry command n).1 } in
    let all1 = replicate-AllSound id c1 (
      put-AllSound c.nodes id (append_local_entry command n).1 all
        (append_local_entry-IsSound command n s)) in
    elim (Result-cases (replicate_from_leader id c1).0) [
      | inr (x, f) ↦ rw (f, submit_to) all1
      | inl (rs, f) ↦
          rw (f, submit_to)
            (commit_and_report-AllSound id (append_local_entry command n).0 (successes rs (id ∷ []))
              (replicate_from_leader id c1).1 all1)
    ]

submit_command-AllSound :
    (id : String) (command : RelayCommand) (c : Cluster)
    → AllSound c.nodes
    → AllSound (submit_command id command c).1.nodes
unfolding submit_command
submit_command-AllSound id command c all = elim (Result-cases (require_running_node id c.nodes)) [
  | inr (x, e) ↦ rw (e, submit_command) all
  | inl (n, e) ↦ elim (Bool-cases (is_leader n.role)) [
    | inl leads ↦
        rw (e, submit_command, leads)
          (submit_to-AllSound id command n c all
            (all.each id n (require_running-get id c.nodes n e)))
    | inr follows ↦ rw (e, submit_command, follows) all
  ]
]

operate-AllSound : (o : Operation) (c : Cluster) → AllSound c.nodes → AllSound (operate o c).nodes
unfolding operate heal
operate-AllSound (timeout id) c all = trigger_timeout-AllSound id c all
operate-AllSound (crashed id) c all = crash_node-AllSound id c all
operate-AllSound (restarted id) c all = restart_node-AllSound id c all
operate-AllSound (replicated id) c all = replicate-AllSound id c all
operate-AllSound (submitted id command) c all = submit_command-AllSound id command c all
operate-AllSound (partitioned groups) c all =
    subst AllSound (sym (nodes-set_partition groups c)) all
operate-AllSound healed_all c all = all

run-AllSound : (os : List Operation) (c : Cluster) → AllSound c.nodes → AllSound (run os c).nodes
unfolding run
run-AllSound [] c all = all
run-AllSound (o ∷ os) c all = run-AllSound os (operate o c) (operate-AllSound o c all)

nodes_of-AllSound : (all ids : List String) (d : Nodes) → AllSound d → AllSound (nodes_of all ids d)
unfolding nodes_of
nodes_of-AllSound all [] d s = s
nodes_of-AllSound all (id ∷ ids) d s =
    nodes_of-AllSound all ids (Dict.put d id (new_node id (discard id all)))
      (put-AllSound d id (new_node id (discard id all)) s (new_node-IsSound id (discard id all)))

new_cluster-AllSound : (ids : List String) (c : Cluster) → new_cluster ids ≡ ok c → AllSound c.nodes
unfolding new_cluster
new_cluster-AllSound ids c h = elim (Bool-cases (ltb (length (unique ids)) 3)) [
  | inl few ↦ absurd (ground (arith, few))
  | inr enough ↦
      let same : nodes_of (unique ids) (unique ids) Dict.empty ≡ c.nodes = ground (arith, enough) in
      subst AllSound same (
        nodes_of-AllSound (unique ids) (unique ids) Dict.empty
          (record { each = λ id n here. absurd (ground (arith, get-empty {V = Node} id)) }))
]

-- After any run of timeouts, crashes, restarts, replications, submissions, partitions and heals from
-- a new cluster, the entries of every node's log are numbered 1, 2, 3, ..., none is of a later
-- term than the node's, and neither the commit index nor what has been applied exceeds the log.
pub run-IsSound :
    (ids : List String) (c : Cluster) (os : List Operation) (id : String) (n : Node)
    → new_cluster ids ≡ ok c
    → Dict.get (run os c).nodes id ≡ some n
    → IsSound n
run-IsSound ids c os id n made here =
    (run-AllSound os c (new_cluster-AllSound ids c made)).each id n here
