-- ===== src/Election/Runs.antt =====
-- Runs of the operations of `DeterministicRaftCluster` from a new cluster.
use labs_for_linux_distribut.Base.{
  ℕ, ◌≤◌, String, ◌≡◌, ◌≢◌, Bool, false, none, some, List, [], ◌∷◌, ◌||◌, ◌==◌, arith, eq_iff,
  nat_beq_iff, ap, subst, ◌∙◌, inl, inr, count, leb, ltb, string_eq, nat_eq, ok, raise, length,
  unique, discard, Bool-cases, Option-cases, Result-cases,
}
use labs_for_linux_distribut.Base.Dict
use labs_for_linux_distribut.Base.Dict.{Dict, get-put, get-empty}
use labs_for_linux_distribut.Partition
use labs_for_linux_distribut.Election.{
  RaftNode, RequestVote, new_node, start_election, become_leader,
}
use labs_for_linux_distribut.Election.Cluster.{
  Cluster, Nodes, leadership_conflict, Round, majority, request_votes, reachable_peers, after_round,
  campaign, conclude, record_leader, nodes_of, new_cluster, leader_for_term, trigger_timeout,
  send_heartbeat, set_partition, heal, restart_node,
}
use labs_for_linux_distribut.Election.Votes.{IsNamed, pledged_at}
use labs_for_linux_distribut.Election.Safety.{
  IsElected, Kept, Kept-IsElected, restart_node-Kept, set_partition-Kept, heal-Kept,
  send_heartbeat-Kept,
}
use labs_for_linux_distribut.Election.Timeout.{deposed_win}
use labs_for_linux_distribut.Election.Campaign.{trigger_timeout-IsSafe}

pub data Operation : Type 0 where
  timeout heartbeat restarted : String → Operation
  partitioned : List (List String) → Operation
  healed : Operation

unfoldable pub operate : Operation → Cluster → Cluster
operate (timeout id) c = (trigger_timeout id c).1
operate (heartbeat id) c = (send_heartbeat id c).1
operate (restarted id) c = (restart_node id c).1
operate (partitioned groups) c = (set_partition groups c).1
operate healed c = heal c

unfoldable pub run : List Operation → Cluster → Cluster
unfolding operate
run [] c = c
run (o ∷ os) c = run os (operate o c)

-- No timeout of the run lets a candidate win at a term that it has only been told of.
unfoldable pub is_deposing : Operation → Cluster → Bool
is_deposing (timeout id) c = deposed_win id c
is_deposing _ c = false

unfoldable pub deposes : List Operation → Cluster → Bool
unfolding operate is_deposing
deposes [] c = false
deposes (o ∷ os) c = is_deposing o c || deposes os (operate o c)

operate-IsElected :
    (o : Operation) (c : Cluster) → IsElected c → is_deposing o c ≡ false → IsElected (operate o c)
unfolding operate is_deposing
operate-IsElected (timeout id) c e clean = (trigger_timeout-IsSafe c id e clean).elected
operate-IsElected (heartbeat id) c e clean = Kept-IsElected c _ (send_heartbeat-Kept id c) e
operate-IsElected (restarted id) c e clean = Kept-IsElected c _ (restart_node-Kept id c) e
operate-IsElected (partitioned groups) c e clean =
    Kept-IsElected c _ (set_partition-Kept groups c) e
operate-IsElected healed c e clean = Kept-IsElected c _ (heal-Kept c) e

run-IsElected :
    (os : List Operation) (c : Cluster) → IsElected c → deposes os c ≡ false → IsElected (run os c)
unfolding run deposes
run-IsElected [] c e clean = e
run-IsElected (o ∷ os) c e clean =
    run-IsElected os (operate o c) (operate-IsElected o c e (ground (arith, clean)))
      (ground (arith, clean))

nodes_of-IsNamed : (all ids : List String) (d : Nodes) → IsNamed d → IsNamed (nodes_of all ids d)
unfolding nodes_of
nodes_of-IsNamed all [] d named = named
nodes_of-IsNamed all (id ∷ ids) d named =
    nodes_of-IsNamed all ids (Dict.put d id (new_node id (discard id all))) (record {
      name = λ x n h. elim (Bool-cases (id == x)) [
        | inl same ↦ ground (arith, get-put d id x (new_node id (discard id all)), eq_iff id x)
        | inr other ↦ named.name x n (ground (arith, get-put d id x (new_node id (discard id all))))
      ];
    })

abbrev fresh : List String → Cluster
fresh ids = record {
  partition = Partition.healed ids;
  leader_by_term = Dict.empty;
  nodes = nodes_of ids ids Dict.empty;
}

fresh-IsElected : (ids : List String) → IsElected (fresh ids)
fresh-IsElected ids = record {
  named =
      nodes_of-IsNamed ids ids Dict.empty
        (record { name = λ x n h. absurd (ground (arith, get-empty {V = RaftNode} x)) });
  backed = λ t id h. absurd (ground (arith, get-empty {V = String} t));
}

new_cluster-IsElected : (ids : List String) (c : Cluster) → new_cluster ids ≡ ok c → IsElected c
unfolding new_cluster
new_cluster-IsElected ids c h = elim (Bool-cases (ltb (length (unique ids)) 3)) [
  | inl few ↦ absurd (ground (arith, few))
  | inr enough ↦ subst IsElected (ground (arith, enough)) (fresh-IsElected (unique ids))
]

-- After a run from a new cluster in which no candidate wins at a term that it is only told of, the
-- leader recorded for a term has a majority of nodes that voted for it or have left the term.
pub run-backed_leader :
    (ids : List String) (c : Cluster) (os : List Operation) (t : ℕ) (id : String)
    → new_cluster ids ≡ ok c
    → deposes os c ≡ false
    → leader_for_term t (run os c) ≡ some id
    → majority (run os c).nodes
      ≤ count (pledged_at t id (run os c).nodes) (Dict.keys (run os c).nodes)
unfolding leader_for_term
run-backed_leader ids c os t id made clean =
    (run-IsElected os c (new_cluster-IsElected ids c made) clean).backed t id

-- After a run from a new cluster in which no candidate wins at a term that it is only told of, a
-- timeout at which none does either raises no `LeadershipConflict`: a term never gets two leaders.
pub run-one_leader :
    (ids : List String) (c : Cluster) (os : List Operation) (id : String)
    → new_cluster ids ≡ ok c
    → deposes os c ≡ false
    → deposed_win id (run os c) ≡ false
    → (trigger_timeout id (run os c)).0 ≢ raise leadership_conflict
run-one_leader ids c os id made clean no_win =
    let e = run-IsElected os c (new_cluster-IsElected ids c made) clean in
    (trigger_timeout-IsSafe (run os c) id e no_win).no_conflict

record_leader-keeps :
    (id first : String) (term t : ℕ) (c : Cluster)
    → leader_for_term t c ≡ some first
    → leader_for_term t (record_leader id term c).1 ≡ some first
unfolding leader_for_term record_leader
record_leader-keeps id first term t c h = elim (Option-cases (Dict.get c.leader_by_term term)) [
  | inl e ↦ ground (arith, e, get-put c.leader_by_term term t id, nat_beq_iff term t)
  | inr (other, e) ↦
      ground (arith, e, get-put c.leader_by_term term t id, nat_beq_iff term t, eq_iff other id)
]

conclude-keeps :
    (id first : String) (t : ℕ) (n : RaftNode) (granted : List String) (c : Cluster)
    → leader_for_term t c ≡ some first
    → leader_for_term t (conclude id n granted c).1 ≡ some first
unfolding conclude leader_for_term
conclude-keeps id first t n granted c h =
    elim (Bool-cases (leb (majority c.nodes) (length granted))) [
      | inl won ↦
          rw (won, conclude)
            (record_leader-keeps id first n.current_term t
              (record c { nodes = Dict.put c.nodes id (become_leader n) }) h)
      | inr lost ↦ rw (lost, conclude) h
    ]

campaign-keeps :
    (id first : String) (t : ℕ) (r : RequestVote) (n : RaftNode) (c : Cluster)
    → leader_for_term t c ≡ some first
    → leader_for_term t (campaign id r n c).1 ≡ some first
unfolding campaign leader_for_term
campaign-keeps id first t r n c h = elim (Result-cases (reachable_peers id c)) [
  | inr (x, e) ↦ rw (e, campaign) h
  | inl (peers, e) ↦
      let start : Round = record { granted_by = id ∷ []; deposed_by = none; nodes = c.nodes } in
      elim (Result-cases (request_votes r peers start).0) [
        | inr (x, f) ↦ rw (e, campaign, f) h
        | inl (b, f) ↦
            let round = (request_votes r peers start).1 in
            rw (e, campaign, f)
              (conclude-keeps id first t (after_round round.deposed_by n) round.granted_by
                (record c { nodes = round.nodes }) h)
      ]
]

trigger_timeout-keeps :
    (id first : String) (t : ℕ) (c : Cluster)
    → leader_for_term t c ≡ some first
    → leader_for_term t (trigger_timeout id c).1 ≡ some first
unfolding trigger_timeout leader_for_term
trigger_timeout-keeps id first t c h = elim (Option-cases (Dict.get c.nodes id)) [
  | inl e ↦ rw (e, trigger_timeout) h
  | inr (n, e) ↦
      rw (e, trigger_timeout)
        (campaign-keeps id first t (start_election n).0 (start_election n).1
          (record c { nodes = Dict.put c.nodes id (start_election n).1 }) h)
]

Kept-keeps :
    (c c' : Cluster) (t : ℕ) (first : String)
    → Kept c c'
    → leader_for_term t c ≡ some first
    → leader_for_term t c' ≡ some first
unfolding leader_for_term
Kept-keeps c c' t first kept h = ap (λ l. Dict.get l t) kept.leaders ∙ h

-- After any run, also one with a conflict, the leader recorded for a term is the same as before it.
pub run-keeps_leader :
    (os : List Operation) (c : Cluster) (t : ℕ) (first : String)
    → leader_for_term t c ≡ some first
    → leader_for_term t (run os c) ≡ some first
unfolding run operate
run-keeps_leader [] c t first h = h
run-keeps_leader (timeout id ∷ os) c t first h =
    run-keeps_leader os (trigger_timeout id c).1 t first (trigger_timeout-keeps id first t c h)
run-keeps_leader (heartbeat id ∷ os) c t first h =
    run-keeps_leader os (send_heartbeat id c).1 t first
      (Kept-keeps c _ t first (send_heartbeat-Kept id c) h)
run-keeps_leader (restarted id ∷ os) c t first h =
    run-keeps_leader os (restart_node id c).1 t first
      (Kept-keeps c _ t first (restart_node-Kept id c) h)
run-keeps_leader (partitioned groups ∷ os) c t first h =
    run-keeps_leader os (set_partition groups c).1 t first
      (Kept-keeps c _ t first (set_partition-Kept groups c) h)
run-keeps_leader (healed ∷ os) c t first h =
    run-keeps_leader os (heal c) t first (Kept-keeps c _ t first (heal-Kept c) h)
