-- ===== src/Election/Deposed.antt =====
-- What `trigger_timeout` of labs/24-raft-election/src/lab_24_raft_election/simulation.py does when
-- a newer term is answered after a majority has granted its vote.
use labs_for_linux_distribut.Base.{
  ℕ, ◌<◌, ◌≤◌, ltb, sym, Bool-cases, Option, raise, String, ◌≡◌, true, none, some, List, [], ◌∷◌,
  arith, eq_iff, nat_beq_iff, refl, ap, ◌∙◌, inl, inr, leb, string_eq, nat_eq, ok, length,
  Option-cases, Result-cases,
}
use labs_for_linux_distribut.Base.Dict
use labs_for_linux_distribut.Base.Dict.{Dict, get-put}
use labs_for_linux_distribut.Election.{
  leader, RaftNode, RequestVote, start_election, receive_vote_request, cast_vote,
  observe_higher_term, become_leader,
}
use labs_for_linux_distribut.Election.Cluster.{
  Cluster, Nodes, Round, leader_for_term, majority, request_votes, reachable_peers, conclude,
  campaign, trigger_timeout,
}
use labs_for_linux_distribut.Election.Votes.{next_round}
use labs_for_linux_distribut.Election.Timeout.{
  first_round, deposed_campaign, deposed_win, started, record_leader-agreed,
}

-- The term of the answer at which the loop of `trigger_timeout` breaks.
unfoldable pub deposed_term : String → RequestVote → Cluster → Option ℕ
deposed_term id r c = elim (reachable_peers id c) [
  | raise e ↦ none
  | ok peers ↦ (request_votes r peers (first_round id c)).1.deposed_by
]

-- A node that is in the term.
abbrev pub InTerm : Nodes → ℕ → Type 0
InTerm d t = (peer : String) × (p : RaftNode) × (Dict.get d peer ≡ some p) × (p.current_term ≡ t)

-- The nodes of a round that are ahead of its term are as they were before the round.
abbrev Untouched : RequestVote → Nodes → Nodes → Type 0
Untouched r d e =
    (y : String) (p : RaftNode)
    → Dict.get e y ≡ some p
    → r.term < p.current_term
    → Dict.get d y ≡ some p

answer-ahead :
    (r : RequestVote) (n : RaftNode)
    → r.term < (receive_vote_request r n).0.term
    → (receive_vote_request r n).0.term ≡ n.current_term
unfolding receive_vote_request cast_vote observe_higher_term
answer-ahead r n h = ground arith

answer-level :
    (r : RequestVote) (n : RaftNode)
    → (receive_vote_request r n).0.term ≤ r.term
    → (receive_vote_request r n).1.current_term ≤ r.term
unfolding receive_vote_request cast_vote observe_higher_term
answer-level r n h = ground arith

put-Untouched :
    (r : RequestVote) (d e : Nodes) (peer : String) (n : RaftNode)
    → Untouched r d e
    → (receive_vote_request r n).1.current_term ≤ r.term
    → Untouched r d (Dict.put e peer (receive_vote_request r n).1)
put-Untouched r d e peer n same level y p found newer =
    let here = get-put e peer y (receive_vote_request r n).1 in
    elim (Bool-cases (string_eq.beq peer y)) [
      | inl equal ↦
          let own : (receive_vote_request r n).1 ≡ p = ground (arith, here, equal, found) in
          absurd (omega (arith, level, newer, ap (λ (k : RaftNode). k.current_term) own))
      | inr other ↦ same y p (ground (arith, here, other, found)) newer
    ]

-- The answer of a newer term comes from a node in that term.
deposed-newer :
    (r : RequestVote) (d : Nodes) (peers : List String) (a : Round) (t : ℕ)
    → Untouched r d a.nodes
    → a.deposed_by ≡ none
    → (request_votes r peers a).1.deposed_by ≡ some t
    → (r.term < t) × InTerm d t × ((request_votes r peers a).0 ≡ ok true)
unfolding request_votes
deposed-newer r d [] a t same fresh h = absurd (ground (arith, fresh))
deposed-newer r d (peer ∷ peers) a t same fresh h = elim (Option-cases (Dict.get a.nodes peer)) [
  | inl e ↦ absurd (ground (arith, e, fresh))
  | inr (n, e) ↦ elim (Bool-cases (ltb r.term (receive_vote_request r n).0.term)) [
    | inl ahead ↦
        let own : (receive_vote_request r n).0.term ≡ t = ground (arith, e, ahead, h) in
        let term = answer-ahead r n (ground (arith, ahead)) in
        rw (e, request_votes, ahead)
          (
            omega (
              arith,
              own,
              term,
              (let k : r.term < (receive_vote_request r n).0.term = ground (arith, ahead) in k),
            ),
            (peer, n, same peer n e (ground (arith, ahead, term)), sym term ∙ own),
            refl,
          )
    | inr level ↦
        let later =
          deposed-newer r d peers (next_round r n peer a) t
            (put-Untouched r d a.nodes peer n same (answer-level r n (ground (arith, level)))) refl
            (ground (arith, e, level, h)) in
        rw (e, request_votes, level) later
  ]
]

-- A leader of the term that has voted for nobody in it.
pub record IsUnvoted (id : String) (t : ℕ) (c : Cluster) : Type 0 where
  pub recorded : leader_for_term t c ≡ some id
  pub node : RaftNode
  pub found : Dict.get c.nodes id ≡ some node
  pub leads : node.role ≡ leader
  pub in_term : node.current_term ≡ t
  pub no_vote : node.voted_for ≡ none

conclude-IsUnvoted :
    (id : String) (t : ℕ) (n : RaftNode) (granted : List String) (c : Cluster)
    → leb (majority c.nodes) (length granted) ≡ true
    → n.current_term < t
    → leader_for_term t c ≡ none
    → IsUnvoted id t (conclude id (observe_higher_term t n) granted c).1
unfolding conclude leader_for_term
conclude-IsUnvoted id t n granted c enough newer free =
    let m = observe_higher_term t n in
    let m_term : m.current_term ≡ t = unfold observe_higher_term in ground arith in
    let m_vote : m.voted_for ≡ none = unfold observe_higher_term in ground arith in
    let c1 : Cluster = record c { nodes = Dict.put c.nodes id (become_leader m) } in
    let agreed =
      record_leader-agreed id m.current_term c1 (λ other e. absurd (ground (arith, m_term, e))) in
    rw (enough, conclude, agreed)
      (record {
        recorded =
            unfold leader_for_term in
            get-put c.leader_by_term m.current_term t id
            ∙ ground (arith, nat_beq_iff m.current_term t);
        node = become_leader m;
        found = get-put c.nodes id id (become_leader m) ∙ ground (arith, eq_iff id id);
        leads = unfold become_leader in refl;
        in_term = unfold become_leader in m_term;
        no_vote = unfold become_leader in m_vote;
      })

campaign-IsUnvoted :
    (id : String) (n : RaftNode) (c : Cluster) (t : ℕ)
    → deposed_campaign id (start_election n).0 c ≡ true
    → deposed_term id (start_election n).0 c ≡ some t
    → leader_for_term t c ≡ none
    → ((start_election n).0.term < t)
      × InTerm c.nodes t
      × IsUnvoted id t (campaign id (start_election n).0 (start_election n).1 c).1
unfolding campaign deposed_campaign deposed_term leader_for_term
campaign-IsUnvoted id n c t deposed answered free = elim (Result-cases (reachable_peers id c)) [
  | inr (x, e) ↦ absurd (ground (arith, e))
  | inl (peers, e) ↦
      let round = (request_votes (start_election n).0 peers (first_round id c)) in
      let f : round.1.deposed_by ≡ some t = ground (arith, e, answered) in
      let (newer, ahead, done) =
        deposed-newer (start_election n).0 c.nodes peers (first_round id c) t (λ y p found k. found)
          refl f in
      (
        newer,
        ahead,
        rw (e, campaign, done, f)
            (conclude-IsUnvoted id t (start_election n).1 round.1.granted_by
              (record c { nodes = round.1.nodes }) (ground (arith, e, f))
              (unfold start_election in newer) free),
      )
]

-- When `trigger_timeout` has asked its peers, let a majority have granted its vote before an answer of
-- the term t broke the loop, and let no leader be recorded for t. Then the requests were for an
-- earlier term than t, in which some node of the cluster is; and the candidate, whose vote in t
-- is for nobody, is recorded as the leader of t.
pub deposed_win-IsUnvoted :
    (id : String) (n : RaftNode) (c : Cluster) (t : ℕ)
    → Dict.get c.nodes id ≡ some n
    → deposed_win id c ≡ true
    → deposed_term id (start_election n).0 (started id n c) ≡ some t
    → leader_for_term t c ≡ none
    → ((start_election n).0.term < t)
      × InTerm (started id n c).nodes t
      × IsUnvoted id t (trigger_timeout id c).1
unfolding trigger_timeout deposed_win leader_for_term
deposed_win-IsUnvoted id n c t here deposed answered free =
    rw (here, trigger_timeout)
      (campaign-IsUnvoted id n (started id n c) t (ground (arith, here)) answered free)
