-- ===== src/Replica/Cluster.antt =====
-- labs/25-replicated-log/src/lab_25_replicated_log/simulation.py: `ReplicatedRelayCluster`. A node
-- that a method holds is the entry of the table of nodes, read and written back at each call; the
-- leader of a loop over its peers is carried by the loop.
use labs_for_linux_distribut.Base.{
  ℕ, ◌+◌, ◌-◌, ◌/◌, String, Bool, true, false, Option, none, some, List, [], ◌∷◌, ◌++◌, ◌==◌, ◌&&◌,
  ltb, leb, if◌then◌else◌, string_eq, nat_eq, Result, ok, raise, length, take, drop, unique,
  discard, add, sorted, count,
}
use labs_for_linux_distribut.Base.Dict
use labs_for_linux_distribut.Base.Dict.{Dict}
use labs_for_linux_distribut.Tasks.{RelayCommand, StateMachineError}
use labs_for_linux_distribut.Partition
use labs_for_linux_distribut.Partition.{PartitionMap, healed, from_groups, reachable_from}
use labs_for_linux_distribut.Replica.{
  NodeRole, leader, Node, LogEntry, RequestVote, AppendEntriesRequest, AppendEntriesResponse,
  new_node, restart, crash, observe_higher_term, start_election, receive_vote_request,
  receive_append_entries, become_leader, append_local_entry, apply_committed_entries,
  last_log_position, rejection_for,
}

pub data ClusterError : Type 0 where
  value_error leadership_conflict : ClusterError

pub record CommandResult : Type 0 where
  pub leader_id : String
  pub index : ℕ
  pub term : ℕ
  pub committed : Bool
  pub replicated_to : List String
  pub rejection : Option StateMachineError

pub record ReplicatedRelayCluster : Type 0 where
  pub partition : PartitionMap
  pub leader_by_term : Dict ℕ String
  pub nodes : Dict String Node

abbrev pub Nodes : Type 0
Nodes = Dict String Node

abbrev pub Cluster : Type 0
Cluster = ReplicatedRelayCluster

abbrev pub is_leader : NodeRole → Bool
is_leader leader = true
is_leader _ = false

unfoldable pub nodes_of : List String → List String → Nodes → Nodes
nodes_of all [] d = d
nodes_of all (id ∷ ids) d = nodes_of all ids (Dict.put d id (new_node id (discard id all)))

unfoldable pub new_cluster : List String → Result ClusterError Cluster
unfolding nodes_of
new_cluster node_ids =
    let ids = unique node_ids in
    if ltb (length ids) 3
    then raise value_error
    else ok (record {
      partition = healed ids;
      leader_by_term = Dict.empty;
      nodes = nodes_of ids ids Dict.empty;
    })

abbrev pub majority : Nodes → ℕ
majority nodes = length (Dict.keys nodes) / 2 + 1

abbrev pub with_partition :
    Result Partition.PartitionError PartitionMap → Cluster → Result ClusterError Bool × Cluster
with_partition (ok p) c = (ok true, record c { partition = p })
with_partition (raise e) c = (raise value_error, c)

unfoldable pub set_partition : List (List String) → Cluster → Result ClusterError Bool × Cluster
set_partition groups c = with_partition (from_groups (Dict.keys c.nodes) groups) c

unfoldable pub heal : Cluster → Cluster
heal c = record c { partition = healed (Dict.keys c.nodes) }

unfoldable pub crash_node : String → Cluster → Result ClusterError Bool × Cluster
crash_node id c = elim (Dict.get c.nodes id) [
  | none ↦ (raise value_error, c)
  | some n ↦ (ok true, record c { nodes = Dict.put c.nodes id (crash n) })
]

unfoldable pub restart_node : String → Cluster → Result ClusterError Bool × Cluster
restart_node id c = elim (Dict.get c.nodes id) [
  | none ↦ (raise value_error, c)
  | some n ↦ (ok true, record c { nodes = Dict.put c.nodes id (restart n) })
]

unfoldable pub require_running_node : String → Nodes → Result ClusterError Node
require_running_node id nodes = elim (Dict.get nodes id) [
  | none ↦ raise value_error
  | some n ↦ if n.running then ok n else raise value_error
]

-- The test of `_reachable_peers`, over the nodes of the group.
unfoldable pub running_peers : String → List String → Nodes → Result ClusterError (List String)
running_peers id [] nodes = ok []
running_peers id (peer ∷ peers) nodes =
    let rest = running_peers id peers nodes in
    if peer == id then rest else elim (Dict.get nodes peer) [
      | none ↦ raise value_error
      | some n ↦ elim rest [
        | raise e ↦ raise e
        | ok ids ↦ if n.running then ok (peer ∷ ids) else ok ids
      ]
    ]

unfoldable pub reachable_peers : String → Cluster → Result ClusterError (List String)
reachable_peers id c = elim (reachable_from c.partition id) [
  | raise e ↦ raise value_error
  | ok group ↦ running_peers id group c.nodes
]

-- The loop over the peers in `trigger_timeout`: who granted, the candidate and the table of nodes.
pub record Round : Type 0 where
  pub granted_by : List String
  pub sender : Node
  pub nodes : Nodes

unfoldable pub request_votes : RequestVote → List String → Round → Result ClusterError Bool × Round
request_votes r [] round = (ok true, round)
request_votes r (peer ∷ peers) round = elim (Dict.get round.nodes peer) [
  | none ↦ (raise value_error, round)
  | some n ↦
      let (response, n1) = receive_vote_request r n in
      let nodes = Dict.put round.nodes peer n1 in
      let rest = request_votes r peers (record {
        granted_by = if response.granted then add round.granted_by peer else round.granted_by;
        sender = round.sender;
        nodes = nodes;
      }) in
      if ltb round.sender.current_term response.term
      then (
        ok true,
        record {
          granted_by = round.granted_by;
          sender = observe_higher_term response.term round.sender;
          nodes = nodes;
        },
      )
      else rest
]

-- `_record_leader` for a node of the given identifier and term.
unfoldable pub record_leader : String → ℕ → Cluster → Result ClusterError Bool × Cluster
record_leader id term c =
    let next = record c { leader_by_term = Dict.put c.leader_by_term term id } in
    elim (Dict.get c.leader_by_term term) [
      | none ↦ (ok true, next)
      | some existing ↦ if existing == id then (ok true, next) else (raise leadership_conflict, c)
    ]

abbrev pub answer : {A : Type 0} → Result ClusterError Bool → A → Result ClusterError A
answer (ok b) result = ok result
answer (raise e) result = raise e

-- `trigger_timeout` after the loop, for the candidate as the loop leaves it.
unfoldable pub conclude :
    String → Node → List String → Cluster → Result ClusterError NodeRole × Cluster
unfolding become_leader
conclude id n granted_by c =
    let won = leb (majority c.nodes) (length granted_by) in
    let n1 = if won then become_leader n else n in
    let c1 = record c { nodes = Dict.put c.nodes id n1 } in
    let (recorded, c2) = record_leader id n1.current_term c1 in
    if won then (answer recorded n1.role, c2) else (ok n1.role, c1)

-- `trigger_timeout` once the candidate has started its election.
unfoldable pub campaign :
    String → RequestVote → Node → Cluster → Result ClusterError NodeRole × Cluster
campaign id r n c = elim (reachable_peers id c) [
  | raise e ↦ (raise e, c)
  | ok peers ↦
      let (done, round) =
        request_votes r peers (record { granted_by = id ∷ []; sender = n; nodes = c.nodes }) in
      let c1 = record c { nodes = Dict.put round.nodes id round.sender } in
      elim done [ raise e ↦ (raise e, c1) | ok b ↦ conclude id round.sender round.granted_by c1 ]
]

unfoldable pub trigger_timeout : String → Cluster → Result ClusterError NodeRole × Cluster
trigger_timeout id c = elim (require_running_node id c.nodes) [
  | raise e ↦ (raise e, c)
  | ok n ↦
      let (request, n1) = start_election n in
      campaign id request n1 (record c { nodes = Dict.put c.nodes id n1 })
]

-- The loop of `replicate_from_leader`.
pub record Spread : Type 0 where
  pub responses : List AppendEntriesResponse
  pub sender : Node
  pub nodes : Nodes

unfoldable pub heard : String → AppendEntriesResponse → Node → Node
heard peer response n =
    if ltb n.current_term response.term
    then observe_higher_term response.term n
    else record n { match_index_by_peer = Dict.put n.match_index_by_peer peer response.match_index }

unfoldable pub send_entries :
    AppendEntriesRequest → List String → Spread → Result ClusterError Bool × Spread
send_entries r [] s = (ok true, s)
send_entries r (peer ∷ peers) s = elim (Dict.get s.nodes peer) [
  | none ↦ (raise value_error, s)
  | some n ↦
      let (response, n1) = receive_append_entries r n in
      send_entries r peers (record {
        responses = s.responses ++ response ∷ [];
        sender = heard peer response s.sender;
        nodes = Dict.put s.nodes peer n1;
      })
]

abbrev pub request_of : String → Node → AppendEntriesRequest
request_of id n = record {
  term = n.current_term;
  leader_id = id;
  log_entries = n.log;
  leader_commit = n.commit_index;
}

-- `leader.match_index_by_peer[leader_id] = leader.last_log_position.index`
abbrev pub self_matched : String → Node → Node
self_matched id n = record n {
  match_index_by_peer = Dict.put n.match_index_by_peer id (last_log_position n).index;
}

-- `replicate_from_leader` for a running node in the role of a leader.
unfoldable pub spread_from :
    String → Node → Cluster → Result ClusterError (List AppendEntriesResponse) × Cluster
spread_from id n c = elim (reachable_peers id c) [
  | raise e ↦ (raise e, c)
  | ok peers ↦
      let (done, s) =
        send_entries (request_of id n) peers
          (record { responses = []; sender = n; nodes = c.nodes }) in
      elim done [
        | raise e ↦ (raise e, record c { nodes = Dict.put s.nodes id s.sender })
        | ok b ↦
            (ok s.responses, record c { nodes = Dict.put s.nodes id (self_matched id s.sender) })
      ]
]

unfoldable pub replicate_from_leader :
    String → Cluster → Result ClusterError (List AppendEntriesResponse) × Cluster
replicate_from_leader id c = elim (require_running_node id c.nodes) [
  | raise e ↦ (raise e, c)
  | ok n ↦ if is_leader n.role then spread_from id n c else (raise value_error, c)
]

-- The loop of `_advance_commit_index` over the entries behind the commit index.
unfoldable pub advance_over : ℕ → Node → List LogEntry → ℕ → ℕ → ℕ
advance_over quorum n [] candidate_index new_commit_index = new_commit_index
advance_over quorum n (e ∷ es) candidate_index new_commit_index =
    let replicated = count (λ m. leb candidate_index m) (Dict.values n.match_index_by_peer) in
    advance_over quorum n es (candidate_index + 1) (
      if e.term == n.current_term && leb quorum replicated
      then candidate_index
      else new_commit_index)

-- The entries of the range lie inside the log, whose last index is its length.
unfoldable pub new_commit_index : ℕ → Node → ℕ
unfolding advance_over
new_commit_index quorum n =
    advance_over quorum n
      (take ((last_log_position n).index - n.commit_index) (drop n.commit_index n.log))
      (n.commit_index + 1) n.commit_index

unfoldable pub advance_commit_index : ℕ → Node → Bool × Node
unfolding new_commit_index
advance_commit_index quorum n =
    let new = new_commit_index quorum n in
    if new == n.commit_index then (false, n) else (
      true,
      apply_committed_entries
          (record n { persistent_state = record n.persistent_state { commit_index = new } }),
    )

abbrev pub successes : List AppendEntriesResponse → List String → List String
successes [] ids = ids
successes (r ∷ rs) ids = successes rs (if r.success then add ids r.follower_id else ids)

abbrev pub result_of : String → LogEntry → List String → Node → CommandResult
result_of id entry replicated_to n = record {
  leader_id = id;
  index = entry.index;
  term = entry.term;
  committed = leb entry.index n.commit_index;
  replicated_to = sorted replicated_to;
  rejection = rejection_for entry.index n;
}

-- The return of `submit_command`, with the leader as the table holds it.
unfoldable pub reported :
    String → LogEntry → List String → Cluster → Result ClusterError CommandResult × Cluster
reported id entry replicated_to c = elim (Dict.get c.nodes id) [
  | none ↦ (raise value_error, c)
  | some n ↦ (ok (result_of id entry replicated_to n), c)
]

-- `submit_command` after the first replication.
unfoldable pub commit_and_report :
    String → LogEntry → List String → Cluster → Result ClusterError CommandResult × Cluster
commit_and_report id entry replicated_to c = elim (Dict.get c.nodes id) [
  | none ↦ (raise value_error, c)
  | some n ↦
      let (committed, n1) = advance_commit_index (majority c.nodes) n in
      let c1 = record c { nodes = Dict.put c.nodes id n1 } in
      let (again, c2) = replicate_from_leader id c1 in
      if committed
      then elim again [ raise e ↦ (raise e, c2) | ok rs ↦ reported id entry replicated_to c2 ]
      else reported id entry replicated_to c1
]

-- `submit_command` for a running node in the role of a leader.
unfoldable pub submit_to :
    String → RelayCommand → Node → Cluster → Result ClusterError CommandResult × Cluster
submit_to id command n c =
    let (entry, n1) = append_local_entry command n in
    let (replies, c1) = replicate_from_leader id (record c { nodes = Dict.put c.nodes id n1 }) in
    elim replies [
      | raise e ↦ (raise e, c1)
      | ok rs ↦ commit_and_report id entry (successes rs (id ∷ [])) c1
    ]

unfoldable pub submit_command :
    String → RelayCommand → Cluster → Result ClusterError CommandResult × Cluster
submit_command id command c = elim (require_running_node id c.nodes) [
  | raise e ↦ (raise e, c)
  | ok n ↦ if is_leader n.role then submit_to id command n c else (raise value_error, c)
]

pub data Operation : Type 0 where
  timeout crashed restarted replicated : String → Operation
  submitted : String → RelayCommand → Operation
  partitioned : List (List String) → Operation
  healed_all : Operation

unfoldable pub operate : Operation → Cluster → Cluster
operate (timeout id) c = (trigger_timeout id c).1
operate (crashed id) c = (crash_node id c).1
operate (restarted id) c = (restart_node id c).1
operate (replicated id) c = (replicate_from_leader id c).1
operate (submitted id command) c = (submit_command id command c).1
operate (partitioned groups) c = (set_partition groups c).1
operate healed_all c = heal c

unfoldable pub run : List Operation → Cluster → Cluster
unfolding operate
run [] c = c
run (o ∷ os) c = run os (operate o c)
