-- ===== src/Election/Safety/Keeps.antt =====
-- Every operation keeps the pledges of all nodes.
use labs_for_linux_distribut.Base.{
  String, ◌≡◌, false, some, List, [], ◌∷◌, ◌++◌, inl, inr, arith, eq_iff, refl, ◌∙◌, ltb,
  if◌then◌else◌, string_eq, ok, contains, contains-discard, Bool-cases, Option-cases, Result-cases,
  beq_refl,
}
use labs_for_linux_distribut.Base.Dict
use labs_for_linux_distribut.Base.Dict.{Dict, get-put, keys-put}
use labs_for_linux_distribut.Election.{
  RaftNode, RequestVote, Heartbeat, restart, observe_higher_term, receive_vote_request,
  receive_heartbeat,
}
use labs_for_linux_distribut.Election.Cluster.{
  Cluster, Round, Beat, request_votes, send_beats, beat_from, send_heartbeat, reachable_peers,
  restart_node, set_partition, with_partition, heal, is_leader,
}
use labs_for_linux_distribut.Election.Votes.{
  Later, next_round, LaterNodes, LaterNodes-refl, LaterNodes-trans, put-LaterNodes, restart-Later,
  observe-Later, receive_heartbeat-Later, node_id-receive_heartbeat, node_id-observe,
}
use labs_for_linux_distribut.Partition.{reachable_from, from_groups}

-- The table of leaders stays, and the nodes keep their pledges.
pub record Kept (c c' : Cluster) : Type 0 where
  pub leaders : c'.leader_by_term ≡ c.leader_by_term
  pub later : LaterNodes c.nodes c'.nodes

Kept-refl : (c : Cluster) → Kept c c
Kept-refl c = record { leaders = refl; later = LaterNodes-refl c.nodes }

pub restart_node-Kept : (id : String) (c : Cluster) → Kept c (restart_node id c).1
unfolding restart_node
restart_node-Kept id c = elim (Option-cases (Dict.get c.nodes id)) [
  | inl e ↦ rw (e, restart_node) (Kept-refl c)
  | inr (n, e) ↦
      rw (e, restart_node)
        (record {
          leaders = refl;
          later =
              put-LaterNodes c.nodes id n (restart n) e (restart-Later n) (unfold restart in refl);
        })
]

pub set_partition-Kept :
    (groups : List (List String)) (c : Cluster) → Kept c (set_partition groups c).1
unfolding set_partition
set_partition-Kept groups c = elim (Result-cases (from_groups (Dict.keys c.nodes) groups)) [
  | inl (p, e) ↦
      rw (e, set_partition, with_partition)
        (record { leaders = refl; later = LaterNodes-refl c.nodes })
  | inr (x, e) ↦ rw (e, set_partition, with_partition) (Kept-refl c)
]

pub heal-Kept : (c : Cluster) → Kept c (heal c)
unfolding heal
heal-Kept c = record { leaders = refl; later = LaterNodes-refl c.nodes }

-- No peer of the list is the node itself.
pub reachable_peers-other :
    (id : String) (c : Cluster) (peers : List String)
    → reachable_peers id c ≡ ok peers
    → contains peers id ≡ false
unfolding reachable_peers
reachable_peers-other id c peers h = elim (Result-cases (reachable_from c.partition id)) [
  | inl (group, e) ↦ ground (arith, e, contains-discard id id group, beq_refl id)
  | inr (x, e) ↦ absurd (ground (arith, e))
]

-- A round leaves the nodes alone that are not asked.
pub request_votes-other :
    (r : RequestVote) (peers : List String) (a : Round) (x : String)
    → contains peers x ≡ false
    → Dict.get (request_votes r peers a).1.nodes x ≡ Dict.get a.nodes x
unfolding request_votes
request_votes-other r [] a x h = refl
request_votes-other r (peer ∷ peers) a x h = elim (Option-cases (Dict.get a.nodes peer)) [
  | inl e ↦ rw (e, request_votes) refl
  | inr (n, e) ↦
      let n1 = (receive_vote_request r n).1 in
      rw (e, request_votes)
        (ground (
          arith,
          request_votes-other r peers (next_round r n peer a) x,
          get-put a.nodes peer x n1,
          eq_iff peer x,
        ))
]

-- A broadcast keeps the pledges of the nodes and of the sender.
pub record Beaten (a b : Beat) : Type 0 where
  pub later : LaterNodes a.nodes b.nodes
  pub sender : Later a.sender b.sender
  pub same_id : b.sender.node_id ≡ a.sender.node_id

Beaten-refl : (a : Beat) → Beaten a a
Beaten-refl a = record { later = LaterNodes-refl a.nodes; sender = λ t id p. p; same_id = refl }

-- The beat after the answer of `peer`, whose node was `n`.
abbrev next_sender : Heartbeat → RaftNode → Beat → RaftNode
next_sender h n a =
    if ltb a.sender.current_term (receive_heartbeat h n).0.term
    then observe_higher_term (receive_heartbeat h n).0.term a.sender
    else a.sender

abbrev next_beat : Heartbeat → RaftNode → String → Beat → Beat
next_beat h n peer a = record {
  responses = a.responses ++ (receive_heartbeat h n).0 ∷ [];
  sender = next_sender h n a;
  nodes = Dict.put a.nodes peer (receive_heartbeat h n).1;
}

sender_step :
    (h : Heartbeat) (n : RaftNode) (a : Beat)
    → Later a.sender (next_sender h n a) × ((next_sender h n a).node_id ≡ a.sender.node_id)
sender_step h n a =
    let term = (receive_heartbeat h n).0.term in
    (
      λ t id p. ground (arith, observe-Later term a.sender t id p),
      ground (arith, node_id-observe term a.sender),
    )

send_beats-Beaten :
    (h : Heartbeat) (peers : List String) (a : Beat) → Beaten a (send_beats h peers a).1
unfolding send_beats
send_beats-Beaten h [] a = Beaten-refl a
send_beats-Beaten h (peer ∷ peers) a = elim (Option-cases (Dict.get a.nodes peer)) [
  | inl e ↦ rw (e, send_beats) (Beaten-refl a)
  | inr (n, e) ↦
      rw (e, send_beats)
        (let rest = send_beats-Beaten h peers (next_beat h n peer a) in
          let one = sender_step h n a in
          record {
            later =
                LaterNodes-trans
                  (put-LaterNodes a.nodes peer n _ e (receive_heartbeat-Later h n)
                    (node_id-receive_heartbeat h n))
                  rest.later;
            sender = λ t id p. rest.sender t id (one.0 t id p);
            same_id = rest.same_id ∙ one.1;
          })
]

send_beats-other :
    (h : Heartbeat) (peers : List String) (a : Beat) (x : String)
    → contains peers x ≡ false
    → Dict.get (send_beats h peers a).1.nodes x ≡ Dict.get a.nodes x
unfolding send_beats
send_beats-other h [] a x no_peer = refl
send_beats-other h (peer ∷ peers) a x no_peer = elim (Option-cases (Dict.get a.nodes peer)) [
  | inl e ↦ rw (e, send_beats) refl
  | inr (n, e) ↦
      rw (e, send_beats)
        (ground (
          arith,
          send_beats-other h peers (next_beat h n peer a) x,
          get-put a.nodes peer x (receive_heartbeat h n).1,
          eq_iff peer x,
        ))
]

beat_from-Kept :
    (id : String) (n : RaftNode) (c : Cluster)
    → Dict.get c.nodes id ≡ some n
    → Kept c (beat_from id n c).1
unfolding beat_from
beat_from-Kept id n c here = elim (Result-cases (reachable_peers id c)) [
  | inr (x, e) ↦ rw (e, beat_from) (Kept-refl c)
  | inl (peers, e) ↦
      rw (e, beat_from)
        (let h : Heartbeat = record { term = n.current_term; leader_id = id } in
          let a : Beat = record { responses = []; sender = n; nodes = c.nodes } in
          let beaten = send_beats-Beaten h peers a in
          let b = (send_beats h peers a).1 in
          record {
            leaders = refl;
            later = LaterNodes-trans beaten.later (
                put-LaterNodes b.nodes id n b.sender
                  (send_beats-other h peers a id (reachable_peers-other id c peers e) ∙ here)
                  beaten.sender beaten.same_id);
          })
]

pub send_heartbeat-Kept : (id : String) (c : Cluster) → Kept c (send_heartbeat id c).1
unfolding send_heartbeat
send_heartbeat-Kept id c = elim (Option-cases (Dict.get c.nodes id)) [
  | inl e ↦ rw (e, send_heartbeat) (Kept-refl c)
  | inr (n, e) ↦
      rw (e, send_heartbeat)
        (elim (Bool-cases (is_leader n.role)) [
          | inl leads ↦ rw leads (beat_from-Kept id n c e)
          | inr no_leader ↦ rw no_leader (Kept-refl c)
        ])
]
