-- ===== src/Election/Cluster.antt =====
-- labs/24-raft-election/src/lab_24_raft_election/simulation.py: `DeterministicRaftCluster`. A node
-- that a method holds is the entry of the table of nodes, read and written back at each call.
use labs_for_linux_distribut.Base.{
  ℕ, ◌+◌, ◌/◌, String, Bool, true, false, Option, none, some, List, [], ◌∷◌, ◌++◌, ◌==◌, ltb, leb,
  if◌then◌else◌, string_eq, nat_eq, Result, ok, raise, length, unique, discard, add, sorted,
}
use labs_for_linux_distribut.Base.Dict
use labs_for_linux_distribut.Base.Dict.{Dict}
use labs_for_linux_distribut.Partition
use labs_for_linux_distribut.Partition.{PartitionMap, healed, from_groups, reachable_from}
use labs_for_linux_distribut.Election.{
  NodeRole, leader, RaftNode, RequestVote, Heartbeat, HeartbeatResponse, new_node, restart,
  observe_higher_term, start_election, receive_vote_request, receive_heartbeat, become_leader,
}

pub data ClusterError : Type 0 where
  value_error leadership_conflict : ClusterError

pub record DeterministicRaftCluster : Type 0 where
  pub partition : PartitionMap
  pub leader_by_term : Dict ℕ String
  pub nodes : Dict String RaftNode

abbrev pub Nodes : Type 0
Nodes = Dict String RaftNode

abbrev pub Cluster : Type 0
Cluster = DeterministicRaftCluster

pub record ElectionResult : Type 0 where
  pub candidate_id : String
  pub term : ℕ
  pub granted_by : List String
  pub role_after : NodeRole

abbrev pub is_leader : NodeRole → Bool
is_leader leader = true
is_leader _ = false

abbrev pub became_leader : ElectionResult → Bool
became_leader r = is_leader r.role_after

-- The nodes of `__init__`, each with all others as its peers.
unfoldable pub nodes_of : List String → List String → Nodes → Nodes
nodes_of all [] d = d
nodes_of all (id ∷ ids) d = nodes_of all ids (Dict.put d id (new_node id (discard id all)))

unfoldable pub new_cluster : List String → Result ClusterError Cluster
unfolding nodes_of
new_cluster node_ids =
    let ids = unique node_ids in
    if ltb (length ids) 3
    then raise value_error
    else ok (record {
      partition = healed ids;
      leader_by_term = Dict.empty;
      nodes = nodes_of ids ids Dict.empty;
    })

abbrev pub majority : Nodes → ℕ
majority nodes = length (Dict.keys nodes) / 2 + 1

abbrev pub with_partition :
    Result Partition.PartitionError PartitionMap → Cluster → Result ClusterError Bool × Cluster
with_partition (ok p) c = (ok true, record c { partition = p })
with_partition (raise e) c = (raise value_error, c)

unfoldable pub set_partition : List (List String) → Cluster → Result ClusterError Bool × Cluster
set_partition groups c = with_partition (from_groups (Dict.keys c.nodes) groups) c

unfoldable pub heal : Cluster → Cluster
heal c = record c { partition = healed (Dict.keys c.nodes) }

unfoldable pub restart_node : String → Cluster → Result ClusterError Bool × Cluster
restart_node id c = elim (Dict.get c.nodes id) [
  | none ↦ (raise value_error, c)
  | some n ↦ (ok true, record c { nodes = Dict.put c.nodes id (restart n) })
]

unfoldable pub leader_for_term : ℕ → Cluster → Option String
leader_for_term term c = Dict.get c.leader_by_term term

abbrev pub without_self :
    String → Result Partition.PartitionError (List String) → Result ClusterError (List String)
without_self id (ok group) = ok (discard id group)
without_self id (raise e) = raise value_error

unfoldable pub reachable_peers : String → Cluster → Result ClusterError (List String)
reachable_peers id c = without_self id (reachable_from c.partition id)

-- The loop over the peers in `trigger_timeout`: who granted, the term of the response that broke
-- the loop if one did, and the table of nodes.
pub record Round : Type 0 where
  pub granted_by : List String
  pub deposed_by : Option ℕ
  pub nodes : Nodes

unfoldable pub request_votes : RequestVote → List String → Round → Result ClusterError Bool × Round
request_votes r [] round = (ok true, round)
request_votes r (peer ∷ peers) round = elim (Dict.get round.nodes peer) [
  | none ↦ (raise value_error, round)
  | some n ↦
      let (response, n1) = receive_vote_request r n in
      let nodes = Dict.put round.nodes peer n1 in
      let next : Round = record {
        granted_by = if response.granted then add round.granted_by peer else round.granted_by;
        deposed_by = none;
        nodes = nodes;
      } in
      let rest = request_votes r peers next in
      if ltb r.term response.term
      then (ok true, record round { deposed_by = some response.term; nodes = nodes })
      else rest
]

-- `_record_leader` for a node of the given identifier and term.
unfoldable pub record_leader : String → ℕ → Cluster → Result ClusterError Bool × Cluster
record_leader id term c =
    let next = record c { leader_by_term = Dict.put c.leader_by_term term id } in
    elim (Dict.get c.leader_by_term term) [
      | none ↦ (ok true, next)
      | some existing ↦ if existing == id then (ok true, next) else (raise leadership_conflict, c)
    ]

abbrev pub after_round : Option ℕ → RaftNode → RaftNode
after_round none n = n
after_round (some term) n = observe_higher_term term n

abbrev pub answer : Result ClusterError Bool → ElectionResult → Result ClusterError ElectionResult
answer (ok b) result = ok result
answer (raise e) result = raise e

-- `trigger_timeout` after the loop, for the candidate as the loop leaves it.
unfoldable pub conclude :
    String → RaftNode → List String → Cluster → Result ClusterError ElectionResult × Cluster
unfolding become_leader
conclude id n granted_by c =
    let won = leb (majority c.nodes) (length granted_by) in
    let n1 = if won then become_leader n else n in
    let c1 = record c { nodes = Dict.put c.nodes id n1 } in
    let (recorded, c2) = record_leader id n1.current_term c1 in
    let result : ElectionResult = record {
      candidate_id = id;
      term = n1.current_term;
      granted_by = sorted granted_by;
      role_after = n1.role;
    } in
    if won then (answer recorded result, c2) else (ok result, c1)

-- `trigger_timeout` once the candidate has started its election.
unfoldable pub campaign :
    String → RequestVote → RaftNode → Cluster → Result ClusterError ElectionResult × Cluster
campaign id r n c = elim (reachable_peers id c) [
  | raise e ↦ (raise e, c)
  | ok peers ↦
      let (done, round) =
        request_votes r peers
          (record { granted_by = id ∷ []; deposed_by = none; nodes = c.nodes }) in
      let c1 = record c { nodes = round.nodes } in
      elim done [
        | raise e ↦ (raise e, c1)
        | ok b ↦ conclude id (after_round round.deposed_by n) round.granted_by c1
      ]
]

unfoldable pub trigger_timeout : String → Cluster → Result ClusterError ElectionResult × Cluster
unfolding start_election
trigger_timeout id c = elim (Dict.get c.nodes id) [
  | none ↦ (raise value_error, c)
  | some n ↦
      let (request, n1) = start_election n in
      campaign id request n1 (record c { nodes = Dict.put c.nodes id n1 })
]

-- The loop of `send_heartbeat`: the responses, the leader's node and the table of nodes.
pub record Beat : Type 0 where
  pub responses : List HeartbeatResponse
  pub sender : RaftNode
  pub nodes : Nodes

unfoldable pub send_beats : Heartbeat → List String → Beat → Result ClusterError Bool × Beat
send_beats h [] b = (ok true, b)
send_beats h (peer ∷ peers) b = elim (Dict.get b.nodes peer) [
  | none ↦ (raise value_error, b)
  | some n ↦
      let (response, n1) = receive_heartbeat h n in
      send_beats h peers (record {
        responses = b.responses ++ response ∷ [];
        sender =
            if ltb b.sender.current_term response.term
            then observe_higher_term response.term b.sender
            else b.sender;
        nodes = Dict.put b.nodes peer n1;
      })
]

abbrev pub beat_replies :
    Result ClusterError Bool → List HeartbeatResponse → Result ClusterError (List HeartbeatResponse)
beat_replies (ok b) responses = ok responses
beat_replies (raise e) responses = raise e

-- `send_heartbeat` for a node in the role of a leader.
unfoldable pub beat_from :
    String → RaftNode → Cluster → Result ClusterError (List HeartbeatResponse) × Cluster
unfolding send_beats
beat_from id n c = elim (reachable_peers id c) [
  | raise e ↦ (raise e, c)
  | ok peers ↦
      let (done, b) =
        send_beats (record { term = n.current_term; leader_id = id }) peers
          (record { responses = []; sender = n; nodes = c.nodes }) in
      (beat_replies done b.responses, record c { nodes = Dict.put b.nodes id b.sender })
]

unfoldable pub send_heartbeat :
    String → Cluster → Result ClusterError (List HeartbeatResponse) × Cluster
send_heartbeat id c = elim (Dict.get c.nodes id) [
  | none ↦ (raise value_error, c)
  | some n ↦ if is_leader n.role then beat_from id n c else (raise value_error, c)
]
