-- ===== src/Election/Timeout.antt =====
-- `trigger_timeout` keeps the leaders backed, unless a candidate that already has a majority is
-- deposed by a later answer of the same round.
use labs_for_linux_distribut.Base.{
  ℕ, ◌+◌, ◌≤◌, String, ◌≡◌, ◌≢◌, Bool, true, false, Option, none, some, List, [], ◌∷◌, ◌==◌, ◌&&◌,
  inl, inr, arith, eq_iff, nat_beq_iff, refl, ap, sym, subst, ◌∙◌, leb, string_eq, nat_eq, Result,
  ok, raise, length, count, Bool-cases, Option-cases,
}
use labs_for_linux_distribut.Base.Dict
use labs_for_linux_distribut.Base.Dict.{Dict, get-put, get-empty, keys-put, get-contains}
use labs_for_linux_distribut.Election.{RaftNode, RequestVote, start_election, become_leader}
use labs_for_linux_distribut.Election.Cluster.{
  Cluster, Round, ClusterError, ElectionResult, leadership_conflict, majority, request_votes,
  reachable_peers, record_leader, conclude,
}
use labs_for_linux_distribut.Election.Votes.{
  Later, pledged, pledged_at, LaterNodes, LaterNodes-trans, put-LaterNodes, Voted,
  request_votes-Voted, become_leader-Later,
}
use labs_for_linux_distribut.Election.Safety.{
  IsElected, Kept, Kept-IsElected, backed-later, Won, Won-no_rival, Won-backed,
}

abbrev pub first_round : String → Cluster → Round
first_round id c = record { granted_by = id ∷ []; deposed_by = none; nodes = c.nodes }

abbrev pub is_deposed : Option ℕ → Bool
is_deposed none = false
is_deposed (some t) = true

abbrev pub deposed_round : Round → Bool
deposed_round round =
    leb (majority round.nodes) (length round.granted_by) && is_deposed round.deposed_by

-- Whether the loop of `trigger_timeout` breaks, with a majority granted, at a newer term.
unfoldable pub deposed_campaign : String → RequestVote → Cluster → Bool
deposed_campaign id r c = elim (reachable_peers id c) [
  | raise e ↦ false
  | ok peers ↦ deposed_round (request_votes r peers (first_round id c)).1
]

abbrev pub started : String → RaftNode → Cluster → Cluster
started id n c = record c { nodes = Dict.put c.nodes id (start_election n).1 }

unfoldable pub deposed_win : String → Cluster → Bool
deposed_win id c = elim (Dict.get c.nodes id) [
  | none ↦ false
  | some n ↦ deposed_campaign id (start_election n).0 (started id n c)
]

-- No exception for two leaders, and the leaders are backed afterwards.
pub record IsSafe (reply : Result ClusterError ElectionResult) (c : Cluster) : Type 0 where
  pub no_conflict : reply ≢ raise leadership_conflict
  pub elected : IsElected c

pub record_leader-agreed :
    (id : String) (t : ℕ) (c : Cluster)
    → ((other : String) → Dict.get c.leader_by_term t ≡ some other → other ≡ id)
    → record_leader id t c ≡ (ok true, record c { leader_by_term = Dict.put c.leader_by_term t id })
unfolding record_leader
record_leader-agreed id t c agreed = elim (Option-cases (Dict.get c.leader_by_term t)) [
  | inl e ↦ rw (e, record_leader) refl
  | inr (other, e) ↦ ground (arith, e, agreed other e, eq_iff other id)
]

recorded-IsElected :
    (c : Cluster) (id : String) (t : ℕ)
    → IsElected c
    → majority c.nodes ≤ count (pledged_at t id c.nodes) (Dict.keys c.nodes)
    → IsElected (record c { leader_by_term = Dict.put c.leader_by_term t id })
recorded-IsElected c id t e many = record {
  named = e.named;
  backed = λ u other h. elim (Bool-cases (t == u)) [
    | inl same ↦
        let here = (nat_beq_iff t u).0 same in
        let own : id ≡ other = ground (arith, get-put c.leader_by_term t u id) in
        subst (λ v. majority c.nodes ≤ count (pledged_at v other c.nodes) (Dict.keys c.nodes)) here
          (subst (λ w. majority c.nodes ≤ count (pledged_at t w c.nodes) (Dict.keys c.nodes)) own
            many)
    | inr differs ↦ e.backed u other (ground (arith, get-put c.leader_by_term t u id))
  ];
}

module _ (c0 c : Cluster) (id : String) (n1 n2 : RaftNode) (granted : List String)
    (elected : IsElected c0) (kept : Kept c0 c) (here : Dict.get c.nodes id ≡ some n1)
    (later : Later n1 n2) (same : n2.node_id ≡ n1.node_id) where
  pub conclude-lost :
      leb (majority c.nodes) (length granted) ≡ false
      → IsSafe (conclude id n2 granted c).0 (conclude id n2 granted c).1
  unfolding conclude
  conclude-lost lost =
      rw (lost, conclude)
        (record {
          no_conflict = λ h. cc;
          elected =
              Kept-IsElected c0 _
                (record {
                  leaders = kept.leaders;
                  later =
                      LaterNodes-trans kept.later (put-LaterNodes c.nodes id n1 n2 here later same);
                })
                elected;
        })

  pub conclude-Won :
      leb (majority c.nodes) (length granted) ≡ true
      → Won c0.nodes c.nodes n2.current_term id granted
      → IsSafe (conclude id n2 granted c).0 (conclude id n2 granted c).1
  unfolding conclude
  conclude-Won enough won =
      let t = n2.current_term in
      let d = Dict.put c.nodes id (become_leader n2) in
      let c1 : Cluster = record c { nodes = d } in
      let step =
        put-LaterNodes c.nodes id n1 (become_leader n2) here
          (λ u other p. become_leader-Later n2 u other (later u other p)) same in
      let agreed = record_leader-agreed id t c1 (λ other e.
        Won-no_rival c0.nodes c.nodes t id other granted won
          (elected.backed t other (ap (λ l. Dict.get l t) (sym kept.leaders) ∙ e))) in
      rw (enough, conclude, agreed)
        (record {
          no_conflict = λ h. cc;
          elected =
              recorded-IsElected c1 id t
                (Kept-IsElected c0 c1
                  (record { leaders = kept.leaders; later = LaterNodes-trans kept.later step })
                  elected)
                (backed-later c.nodes d t id step (Won-backed c0.nodes c.nodes t id granted won));
        })

start-pledged :
    (n : RaftNode) → pledged (start_election n).0.term n.node_id (start_election n).1 ≡ true
unfolding start_election
start-pledged n =
    ground
      (arith, nat_beq_iff (n.current_term + 1) (n.current_term + 1), eq_iff n.node_id n.node_id)

start-fresh : (n : RaftNode) (other : String) → pledged (start_election n).0.term other n ≡ false
unfolding start_election
start-fresh n other = ground (arith, nat_beq_iff (n.current_term + 1) n.current_term)

candidate_id-start : (n : RaftNode) → (start_election n).0.candidate_id ≡ n.node_id
unfolding start_election
candidate_id-start n = refl

-- The voters of a round that no newer term broke.
pub round-Won :
    (c0 c : Cluster) (id : String) (n : RaftNode) (peers : List String)
    → Dict.get c0.nodes id ≡ some n
    → n.node_id ≡ id
    → LaterNodes c0.nodes c.nodes
    → Dict.get c.nodes id ≡ some (start_election n).1
    → (let round = (request_votes (start_election n).0 peers (first_round id c)).1 in
        majority round.nodes ≤ length round.granted_by
        → Won c0.nodes round.nodes (start_election n).0.term id round.granted_by)
round-Won c0 c id n peers here0 name later here enough = record {
  enough = enough;
  same_keys = v.later.same_keys ∙ later.same_keys;
  distinct = v.distinct (refl, tt);
  voters = λ x h. elim (v.voters x h) [
    | inl first ↦
        v.later.kept r.term id x (ground (arith, eq_iff id x, start-pledged n, here, name))
    | inr (now, only) ↦ subst (λ i. pledged_at r.term i b.nodes x ≡ true) own now
  ];
  only = λ x h other p. elim (v.voters x h) [
    | inl first ↦ absurd (ground (arith, eq_iff id x, start-fresh n other, here0, p))
    | inr (now, only) ↦ only other (later.kept r.term other x p) ∙ own
  ];
}
  where
    r : RequestVote
    r = (start_election n).0

    b : Round
    b = (request_votes r peers (first_round id c)).1

    v : Voted r (first_round id c) b
    v = request_votes-Voted r peers (first_round id c)

    own : r.candidate_id ≡ id
    own = candidate_id-start n ∙ name
