-- ===== src/Replica/Operations.antt =====
-- The operations of `ReplicatedRelayCluster` but `submit_command` keep every node sound.
use labs_for_linux_distribut.Base.{
  ℕ, String, ◌≡◌, some, List, [], ◌∷◌, arith, refl, inl, inr, leb, length, ok, Bool-cases,
  Option-cases, Result-cases, string_eq, nat_eq,
}
use labs_for_linux_distribut.Base.Dict
use labs_for_linux_distribut.Base.Dict.{get-empty}
use labs_for_linux_distribut.Partition.{from_groups}
use labs_for_linux_distribut.Replica.{
  Node, RequestVote, restart, crash, start_election, become_leader,
}
use labs_for_linux_distribut.Replica.Cluster.{
  Cluster, Nodes, Round, Spread, is_leader, majority, with_partition, set_partition, crash_node,
  restart_node, require_running_node, reachable_peers, request_votes, record_leader, conclude,
  campaign, trigger_timeout, send_entries, request_of, self_matched, spread_from,
  replicate_from_leader,
}
use labs_for_linux_distribut.Replica.Sound.{
  IsSound, same-IsSound, restart-IsSound, crash-IsSound, start_election-IsSound,
  become_leader-IsSound,
}
use labs_for_linux_distribut.Replica.Rounds.{
  AllSound, put-AllSound, request_votes-AllSound, send_entries-AllSound, request_of-IsSent,
}

pub crash_node-AllSound :
    (id : String) (c : Cluster) → AllSound c.nodes → AllSound (crash_node id c).1.nodes
unfolding crash_node
crash_node-AllSound id c all = elim (Option-cases (Dict.get c.nodes id)) [
  | inl e ↦ rw (e, crash_node) all
  | inr (n, e) ↦
      rw (e, crash_node) (put-AllSound c.nodes id (crash n) all (crash-IsSound n (all.each id n e)))
]

pub restart_node-AllSound :
    (id : String) (c : Cluster) → AllSound c.nodes → AllSound (restart_node id c).1.nodes
unfolding restart_node
restart_node-AllSound id c all = elim (Option-cases (Dict.get c.nodes id)) [
  | inl e ↦ rw (e, restart_node) all
  | inr (n, e) ↦
      rw (e, restart_node)
        (put-AllSound c.nodes id (restart n) all (restart-IsSound n (all.each id n e)))
]

pub nodes-set_partition :
    (groups : List (List String)) (c : Cluster) → (set_partition groups c).1.nodes ≡ c.nodes
unfolding set_partition
nodes-set_partition groups c = elim (Result-cases (from_groups (Dict.keys c.nodes) groups)) [
  | inl (p, e) ↦ rw (e, set_partition, with_partition) refl
  | inr (x, e) ↦ rw (e, set_partition, with_partition) refl
]

-- What `_require_running_node` returns is the entry of the table.
pub require_running-get :
    (id : String) (d : Nodes) (n : Node) → require_running_node id d ≡ ok n → Dict.get d id ≡ some n
unfolding require_running_node
require_running-get id d n h = elim (Option-cases (Dict.get d id)) [
  | inl e ↦ absurd (ground (arith, e))
  | inr (m, e) ↦ ground (arith, e)
]

nodes-record_leader :
    (id : String) (term : ℕ) (c : Cluster) → (record_leader id term c).1.nodes ≡ c.nodes
unfolding record_leader
nodes-record_leader id term c = elim (Option-cases (Dict.get c.leader_by_term term)) [
  | inl e ↦ rw (e, record_leader) refl
  | inr (other, e) ↦ ground (arith, e)
]

conclude-AllSound :
    (id : String) (n : Node) (granted : List String) (c : Cluster)
    → AllSound c.nodes
    → IsSound n
    → AllSound (conclude id n granted c).1.nodes
unfolding conclude
conclude-AllSound id n granted c all s =
    elim (Bool-cases (leb (majority c.nodes) (length granted))) [
      | inl won ↦
          let c1 = record c { nodes = Dict.put c.nodes id (become_leader n) } in
          rw (won, conclude, nodes-record_leader id (become_leader n).current_term c1)
            (put-AllSound c.nodes id (become_leader n) all (become_leader-IsSound n s))
      | inr lost ↦ rw (lost, conclude) (put-AllSound c.nodes id n all s)
    ]

campaign-AllSound :
    (id : String) (r : RequestVote) (n : Node) (c : Cluster)
    → AllSound c.nodes
    → IsSound n
    → AllSound (campaign id r n c).1.nodes
unfolding campaign
campaign-AllSound id r n c all s = elim (Result-cases (reachable_peers id c)) [
  | inr (x, e) ↦ rw (e, campaign) all
  | inl (peers, e) ↦
      let a : Round = record { granted_by = id ∷ []; sender = n; nodes = c.nodes } in
      let b = (request_votes r peers a).1 in
      let (all', s') = request_votes-AllSound r peers a all s in
      let all'' = put-AllSound b.nodes id b.sender all' s' in
      elim (Result-cases (request_votes r peers a).0) [
        | inr (x, f) ↦ rw (e, campaign, f) all''
        | inl (done, f) ↦
            rw (e, campaign, f)
              (conclude-AllSound id b.sender b.granted_by
                (record c { nodes = Dict.put b.nodes id b.sender }) all'' s')
      ]
]

pub trigger_timeout-AllSound :
    (id : String) (c : Cluster) → AllSound c.nodes → AllSound (trigger_timeout id c).1.nodes
unfolding trigger_timeout
trigger_timeout-AllSound id c all = elim (Result-cases (require_running_node id c.nodes)) [
  | inr (x, e) ↦ rw (e, trigger_timeout) all
  | inl (n, e) ↦
      let s = start_election-IsSound n (all.each id n (require_running-get id c.nodes n e)) in
      rw (e, trigger_timeout)
        (campaign-AllSound id (start_election n).0 (start_election n).1
          (record c { nodes = Dict.put c.nodes id (start_election n).1 })
          (put-AllSound c.nodes id (start_election n).1 all s) s)
]

spread_from-AllSound :
    (id : String) (n : Node) (c : Cluster)
    → AllSound c.nodes
    → IsSound n
    → AllSound (spread_from id n c).1.nodes
unfolding spread_from
spread_from-AllSound id n c all s = elim (Result-cases (reachable_peers id c)) [
  | inr (x, e) ↦ rw (e, spread_from) all
  | inl (peers, e) ↦
      let a : Spread = record { responses = []; sender = n; nodes = c.nodes } in
      let b = (send_entries (request_of id n) peers a).1 in
      let (all', s') =
        send_entries-AllSound (request_of id n) peers a (request_of-IsSent id n s) all s in
      elim (Result-cases (send_entries (request_of id n) peers a).0) [
        | inr (x, f) ↦ rw (e, spread_from, f) (put-AllSound b.nodes id b.sender all' s')
        | inl (done, f) ↦
            rw (e, spread_from, f)
              (put-AllSound b.nodes id (self_matched id b.sender) all'
                (same-IsSound b.sender (self_matched id b.sender) refl refl refl (omega arith) s'))
      ]
]

pub replicate-AllSound :
    (id : String) (c : Cluster) → AllSound c.nodes → AllSound (replicate_from_leader id c).1.nodes
unfolding replicate_from_leader
replicate-AllSound id c all = elim (Result-cases (require_running_node id c.nodes)) [
  | inr (x, e) ↦ rw (e, replicate_from_leader) all
  | inl (n, e) ↦ elim (Bool-cases (is_leader n.role)) [
    | inl leads ↦
        rw (e, replicate_from_leader, leads)
          (spread_from-AllSound id n c all (all.each id n (require_running-get id c.nodes n e)))
    | inr follows ↦ rw (e, replicate_from_leader, follows) all
  ]
]
