-- ===== src/Election/Campaign.antt =====
-- `trigger_timeout` as a whole: each of its ends leaves the leaders backed.
use labs_for_linux_distribut.Base.{
  ℕ, String, ◌≡◌, ◌≢◌, true, false, Option, none, some, List, [], ◌∷◌, inl, inr, arith, eq_iff,
  refl, sym, subst, ◌∙◌, leb, string_eq, nat_eq, raise, contains, length, Bool-cases, Option-cases,
  Result-cases,
}
use labs_for_linux_distribut.Base.Dict
use labs_for_linux_distribut.Base.Dict.{Dict, get-put, get-empty, keys-put, get-contains}
use labs_for_linux_distribut.Election.{RaftNode, RequestVote, start_election}
use labs_for_linux_distribut.Election.Cluster.{
  Cluster, Round, ClusterError, leadership_conflict, majority, request_votes, reachable_peers,
  after_round, conclude, campaign, trigger_timeout,
}
use labs_for_linux_distribut.Election.Votes.{
  Later, next_round, LaterNodes-trans, put-LaterNodes, request_votes-Voted, start_election-Later,
  observe-Later, node_id-observe,
}
use labs_for_linux_distribut.Election.Safety.{
  IsElected, Kept, Kept-IsElected, Won, request_votes-other, reachable_peers-other,
}
use labs_for_linux_distribut.Election.Timeout.{
  first_round, deposed_round, deposed_campaign, deposed_win, started, IsSafe, conclude-lost,
  conclude-Won, round-Won,
}

reachable_peers-raise :
    (id : String) (c : Cluster) (x : ClusterError)
    → reachable_peers id c ≡ raise x
    → x ≢ leadership_conflict
unfolding reachable_peers
reachable_peers-raise id c x h same = ground arith

request_votes-raise :
    (r : RequestVote) (peers : List String) (a : Round) (x : ClusterError)
    → (request_votes r peers a).0 ≡ raise x
    → x ≢ leadership_conflict
unfolding request_votes
request_votes-raise r [] a x h same = cc
request_votes-raise r (peer ∷ peers) a x h same = elim (Option-cases (Dict.get a.nodes peer)) [
  | inl e ↦ ground (arith, e)
  | inr (n, e) ↦ ground (arith, e, request_votes-raise r peers (next_round r n peer a) x)
]

after_round-Later : (o : Option ℕ) (n : RaftNode) → Later n (after_round o n)
after_round-Later none n t id p = p
after_round-Later (some term) n t id p = observe-Later term n t id p

node_id-after_round : (o : Option ℕ) (n : RaftNode) → (after_round o n).node_id ≡ n.node_id
node_id-after_round none n = refl
node_id-after_round (some term) n = node_id-observe term n

term-after_round :
    (round : Round) (n : RaftNode)
    → deposed_round round ≡ false
    → leb (majority round.nodes) (length round.granted_by) ≡ true
    → (after_round round.deposed_by n).current_term ≡ n.current_term
term-after_round round n clean enough = ground arith

term-start : (n : RaftNode) → (start_election n).1.current_term ≡ (start_election n).0.term
unfolding start_election
term-start n = refl

module _ (c0 : Cluster) (id : String) (n : RaftNode) (elected : IsElected c0)
    (here : Dict.get c0.nodes id ≡ some n) where
  started-Kept : Kept c0 (started id n c0)
  started-Kept = record {
    leaders = refl;
    later =
        put-LaterNodes c0.nodes id n (start_election n).1 here (start_election-Later n)
          (unfold start_election in refl);
  }

  started-here : Dict.get (started id n c0).nodes id ≡ some (start_election n).1
  started-here = get-put c0.nodes id id (start_election n).1 ∙ ground (arith, eq_iff id id)

  abbrev round_of : List String → Round
  round_of peers = (request_votes (start_election n).0 peers (first_round id (started id n c0))).1

  asked-Kept : (peers : List String) → Kept c0 (record c0 { nodes = (round_of peers).nodes })
  asked-Kept peers = record {
    leaders = refl;
    later =
        LaterNodes-trans started-Kept.later
          (request_votes-Voted (start_election n).0 peers (first_round id (started id n c0))).later;
  }

  conclude-IsSafe :
      (peers : List String)
      → contains peers id ≡ false
      → deposed_round (round_of peers) ≡ false
      → (let c1 = record c0 { nodes = (round_of peers).nodes } in
          let n2 = after_round (round_of peers).deposed_by (start_election n).1 in
          IsSafe
            (conclude id n2 (round_of peers).granted_by c1).0
            (conclude id n2 (round_of peers).granted_by c1).1)
  conclude-IsSafe peers other clean =
      elim (Bool-cases (leb (majority round.nodes) (length round.granted_by))) [
        | inl enough ↦
            conclude-Won c0 c1 id (start_election n).1 n2 round.granted_by elected kept at_id later
              same enough
              (subst (λ t. Won c0.nodes round.nodes t id round.granted_by) (sym (term enough))
                (round-Won c0 (started id n c0) id n peers here (elected.named.name id n here)
                  started-Kept.later started-here (ground arith)))
        | inr lost ↦
            conclude-lost c0 c1 id (start_election n).1 n2 round.granted_by elected kept at_id later
              same lost
      ]
    where
      round : Round
      round = round_of peers

      c1 : Cluster
      c1 = record c0 { nodes = round.nodes }

      n2 : RaftNode
      n2 = after_round round.deposed_by (start_election n).1

      kept : Kept c0 c1
      kept = asked-Kept peers

      at_id : Dict.get c1.nodes id ≡ some (start_election n).1
      at_id =
          request_votes-other (start_election n).0 peers (first_round id (started id n c0)) id other
          ∙ started-here

      later : Later (start_election n).1 n2
      later = after_round-Later round.deposed_by (start_election n).1

      same : n2.node_id ≡ (start_election n).1.node_id
      same = node_id-after_round round.deposed_by (start_election n).1

      term :
          leb (majority round.nodes) (length round.granted_by) ≡ true
          → n2.current_term ≡ (start_election n).0.term
      term enough = term-after_round round (start_election n).1 clean enough ∙ term-start n

  campaign-IsSafe :
      deposed_campaign id (start_election n).0 (started id n c0) ≡ false
      → (let r = (start_election n).0 in
          let n1 = (start_election n).1 in
          let c1 = started id n c0 in IsSafe (campaign id r n1 c1).0 (campaign id r n1 c1).1)
  unfolding campaign deposed_campaign
  campaign-IsSafe clean = elim (Result-cases (reachable_peers id (started id n c0))) [
    | inr (x, e) ↦
        rw (e, campaign)
          (record {
            no_conflict = λ h. reachable_peers-raise id (started id n c0) x e (ground arith);
            elected = Kept-IsElected c0 (started id n c0) started-Kept elected;
          })
    | inl (peers, e) ↦
        elim (Result-cases
          (request_votes (start_election n).0 peers (first_round id (started id n c0))).0) [
            | inr (x, f) ↦
                rw (e, campaign, f)
                  (record {
                    no_conflict = λ h.
                        request_votes-raise (start_election n).0 peers
                          (first_round id (started id n c0)) x f (ground arith);
                    elected = Kept-IsElected c0 _ (asked-Kept peers) elected;
                  })
            | inl (b, f) ↦
                rw (e, campaign, f)
                  (conclude-IsSafe peers (reachable_peers-other id (started id n c0) peers e)
                    (ground (arith, e)))
          ]
  ]

pub trigger_timeout-IsSafe :
    (c : Cluster) (id : String)
    → IsElected c
    → deposed_win id c ≡ false
    → IsSafe (trigger_timeout id c).0 (trigger_timeout id c).1
unfolding trigger_timeout deposed_win
trigger_timeout-IsSafe c id elected clean = elim (Option-cases (Dict.get c.nodes id)) [
  | inl e ↦ rw (e, trigger_timeout) (record { no_conflict = λ h. cc; elected = elected })
  | inr (n, e) ↦ rw (e, trigger_timeout) (campaign-IsSafe c id n elected e (ground (arith, e)))
]
