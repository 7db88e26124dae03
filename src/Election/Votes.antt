-- ===== src/Election/Votes.antt =====
-- Votes are kept: what a node has pledged in a term, and what a round of requests does to it.
use labs_for_linux_distribut.Base.{
  ℕ, String, ◌≡◌, Bool, true, false, Option, none, some, List, [], ◌∷◌, ◌==◌, ◌||◌, ◌&&◌, ◌⊎◌, inl,
  inr, arith, eq_iff, nat_beq_iff, refl, ap, ◌∙◌, ltb, if◌then◌else◌, string_eq, nat_eq, option_beq,
  add, add-IsDistinct, contains, IsDistinct, Bool-cases, Option-cases,
}
use labs_for_linux_distribut.Base.Dict
use labs_for_linux_distribut.Base.Dict.{Dict, get-put, keys-put}
use labs_for_linux_distribut.Election.{
  RaftNode, RequestVote, Heartbeat, restart, observe_higher_term, start_election,
  receive_vote_request, cast_vote, receive_heartbeat, become_leader,
}
use labs_for_linux_distribut.Election.Cluster.{Nodes, Round, request_votes}

-- The node has left the term, or is in it with a vote for `id`.
abbrev pub pledged : ℕ → String → RaftNode → Bool
pledged t id n = ltb t n.current_term || (t == n.current_term && option_beq n.voted_for (some id))

voted-eq : (o : Option String) (id : String) → option_beq o (some id) ≡ true → o ≡ some id
voted-eq none id h = cc
voted-eq (some x) id h = ground (arith, eq_iff x id)

-- Every pledge of the first node is one of the second.
abbrev pub Later : RaftNode → RaftNode → Type 0
Later n n' = (t : ℕ) (id : String) → pledged t id n ≡ true → pledged t id n' ≡ true

pub restart-Later : (n : RaftNode) → Later n (restart n)
unfolding restart
restart-Later n t id h = h

pub become_leader-Later : (n : RaftNode) → Later n (become_leader n)
unfolding become_leader
become_leader-Later n t id h = h

pub observe-Later : (term : ℕ) (n : RaftNode) → Later n (observe_higher_term term n)
unfolding observe_higher_term
observe-Later term n t id h = ground (arith, nat_beq_iff t n.current_term)

pub start_election-Later : (n : RaftNode) → Later n (start_election n).1
unfolding start_election
start_election-Later n t id h = ground (arith, nat_beq_iff t n.current_term)

pub receive_heartbeat-Later : (h : Heartbeat) (n : RaftNode) → Later n (receive_heartbeat h n).1
unfolding receive_heartbeat
receive_heartbeat-Later h n t id p = ground (arith, nat_beq_iff t n.current_term)

cast_vote-Later : (r : RequestVote) (n : RaftNode) → Later n (cast_vote r n).1
unfolding cast_vote
cast_vote-Later r n t id h =
    ground (arith, voted-eq n.voted_for id, eq_iff id r.candidate_id, eq_iff r.candidate_id id)

pub receive_vote_request-Later :
    (r : RequestVote) (n : RaftNode) → Later n (receive_vote_request r n).1
unfolding receive_vote_request
receive_vote_request-Later r n t id h =
    let m = observe_higher_term r.term n in
    ground (arith, cast_vote-Later r m t id (observe-Later r.term n t id h))

node_id-receive_vote_request :
    (r : RequestVote) (n : RaftNode) → (receive_vote_request r n).1.node_id ≡ n.node_id
unfolding receive_vote_request cast_vote observe_higher_term
node_id-receive_vote_request r n = ground arith

pub node_id-receive_heartbeat :
    (h : Heartbeat) (n : RaftNode) → (receive_heartbeat h n).1.node_id ≡ n.node_id
unfolding receive_heartbeat
node_id-receive_heartbeat h n = ground arith

pub node_id-observe : (term : ℕ) (n : RaftNode) → (observe_higher_term term n).node_id ≡ n.node_id
unfolding observe_higher_term
node_id-observe term n = ground arith

-- A granted vote is a pledge for the candidate, and there was none for another.
pub granted-pledged :
    (r : RequestVote) (n : RaftNode)
    → (receive_vote_request r n).0.granted ≡ true
    → pledged r.term r.candidate_id (receive_vote_request r n).1 ≡ true
unfolding receive_vote_request cast_vote observe_higher_term
granted-pledged r n h = ground (
  arith,
  nat_beq_iff r.term n.current_term,
  nat_beq_iff r.term r.term,
  eq_iff r.candidate_id r.candidate_id,
)

pub granted-only :
    (r : RequestVote) (n : RaftNode) (id : String)
    → (receive_vote_request r n).0.granted ≡ true
    → pledged r.term id n ≡ true
    → id ≡ r.candidate_id
unfolding receive_vote_request cast_vote observe_higher_term
granted-only r n id h p =
    ground
      (arith, voted-eq n.voted_for id, nat_beq_iff r.term n.current_term, eq_iff id r.candidate_id)

abbrev pub pledged_at : ℕ → String → Nodes → String → Bool
pledged_at t id nodes x = elim (Dict.get nodes x) [ none ↦ false | some n ↦ pledged t id n ]

-- Each node stands under its own identifier.
pub record IsNamed (d : Nodes) : Type 0 where
  pub name : (x : String) (n : RaftNode) → Dict.get d x ≡ some n → n.node_id ≡ x

-- The same nodes under the same names, with every pledge kept.
pub record LaterNodes (d d' : Nodes) : Type 0 where
  pub named : IsNamed d → IsNamed d'
  pub same_keys : Dict.keys d' ≡ Dict.keys d
  pub kept : (t : ℕ) (id x : String) → pledged_at t id d x ≡ true → pledged_at t id d' x ≡ true

pub LaterNodes-refl : (d : Nodes) → LaterNodes d d
LaterNodes-refl d = record { named = λ h. h; same_keys = refl; kept = λ t id x h. h }

pub LaterNodes-trans : {a b c : Nodes} → LaterNodes a b → LaterNodes b c → LaterNodes a c
LaterNodes-trans ab bc = record {
  named = λ h. bc.named (ab.named h);
  same_keys = bc.same_keys ∙ ab.same_keys;
  kept = λ t id x h. bc.kept t id x (ab.kept t id x h);
}

pub put-LaterNodes :
    (d : Nodes) (x : String) (n n' : RaftNode)
    → Dict.get d x ≡ some n
    → Later n n'
    → n'.node_id ≡ n.node_id
    → LaterNodes d (Dict.put d x n')
put-LaterNodes d x n n' here later same = record {
  named = λ h. record {
    name = λ y m e. ground (arith, get-put d x y n', eq_iff x y, h.name y m, h.name x n);
  };
  same_keys = keys-put d x n' n here;
  kept = λ t id y h. ground (arith, get-put d x y n', eq_iff x y, later t id);
}

pub record Voted (r : RequestVote) (a b : Round) : Type 0 where
  pub later : LaterNodes a.nodes b.nodes
  pub distinct : IsDistinct a.granted_by → IsDistinct b.granted_by
  pub voters :
      (x : String)
      → contains b.granted_by x ≡ true
      → (contains a.granted_by x ≡ true)
        ⊎ ((pledged_at r.term r.candidate_id b.nodes x ≡ true)
            × ((id : String) → pledged_at r.term id a.nodes x ≡ true → id ≡ r.candidate_id))

Voted-refl : (r : RequestVote) (a : Round) → Voted r a a
Voted-refl r a = record {
  later = LaterNodes-refl a.nodes;
  distinct = λ d. d;
  voters = λ x h. inl h;
}

new_voter :
    (granted : Bool) (xs : List String) (peer x : String)
    → contains (if granted then add xs peer else xs) x ≡ true
    → contains xs x ≡ false
    → (granted ≡ true) × (peer ≡ x)
new_voter granted xs peer x h new = ground (arith, eq_iff peer x)

-- The round after the answer of `peer`, whose node was `n`.
abbrev pub next_round : RequestVote → RaftNode → String → Round → Round
next_round r n peer a = record {
  granted_by = if (receive_vote_request r n).0.granted then add a.granted_by peer else a.granted_by;
  deposed_by = none;
  nodes = Dict.put a.nodes peer (receive_vote_request r n).1;
}

-- One answered request, and the rest of the round after it.
Voted-step :
    (r : RequestVote) (a b : Round) (peer : String) (n : RaftNode)
    → Dict.get a.nodes peer ≡ some n
    → Voted r (next_round r n peer a) b
    → Voted r a b
Voted-step r a b peer n here rest =
    let n1 = (receive_vote_request r n).1 in
    let first =
      put-LaterNodes a.nodes peer n n1 here (receive_vote_request-Later r n)
        (node_id-receive_vote_request r n) in
    record {
      later = LaterNodes-trans first rest.later;
      distinct = λ d. rest.distinct (ground (arith, add-IsDistinct a.granted_by peer d));
      voters = λ x h. elim (rest.voters x h) [
        | inr (now, only) ↦ inr (now, λ id p. only id (first.kept r.term id x p))
        | inl before ↦ elim (Bool-cases (contains a.granted_by x)) [
          | inl old ↦ inl old
          | inr new ↦
              let (granted, same) =
                new_voter (receive_vote_request r n).0.granted a.granted_by peer x before new in
              inr (
                rest.later.kept r.term r.candidate_id x (
                    ground (
                      arith,
                      get-put a.nodes peer x n1,
                      eq_iff peer x,
                      granted-pledged r n granted,
                    )),
                λ id p. granted-only r n id granted (ground (arith, ap (Dict.get a.nodes) same)),
              )
        ]
      ];
    }

-- A round of requests keeps all pledges, and each new voter is pledged to the candidate and was
-- pledged to no other node of that term.
pub request_votes-Voted :
    (r : RequestVote) (peers : List String) (a : Round) → Voted r a (request_votes r peers a).1
unfolding request_votes
request_votes-Voted r [] a = Voted-refl r a
request_votes-Voted r (peer ∷ peers) a = elim (Option-cases (Dict.get a.nodes peer)) [
  | inl e ↦ rw (e, request_votes) (Voted-refl r a)
  | inr (n, e) ↦
      rw (e, request_votes)
        (elim (Bool-cases (ltb r.term (receive_vote_request r n).0.term)) [
          | inl newer ↦ rw newer (record {
            later =
                put-LaterNodes a.nodes peer n _ e (receive_vote_request-Later r n)
                  (node_id-receive_vote_request r n);
            distinct = λ d. d;
            voters = λ x h. inl h;
          })
          | inr current ↦
              rw current
                (Voted-step r a _ peer n e (request_votes-Voted r peers (next_round r n peer a)))
        ])
]
