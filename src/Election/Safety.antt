-- ===== src/Election/Safety.antt =====
-- Election safety: each recorded leader has a majority of pledges, so no term has two.
mod Keeps
pub use Keeps.*
use labs_for_linux_distribut.Base.{
  ℕ, suc, ◌+◌, ◌/◌, ◌≤◌, ◌<◌, String, ◌≡◌, ◌≢◌, Bool, true, false, Option, none, some, List, [],
  ◌∷◌, ◌==◌, ◌&&◌, not, ◌⊎◌, inl, inr, arith, eq_iff, nat_beq_iff, refl, ap, sym, subst, ◌∙◌, ltb,
  leb, if◌then◌else◌, string_eq, nat_eq, Result, ok, raise, contains, IsDistinct, length, count,
  count_mono, count-overlap, length-le-count, Bool-cases, Option-cases, Result-cases,
}
use labs_for_linux_distribut.Base.Dict
use labs_for_linux_distribut.Base.Dict.{Dict, get-put, get-empty, keys-put, get-contains}
use labs_for_linux_distribut.Election.{
  RaftNode, RequestVote, start_election, observe_higher_term, become_leader,
}
use labs_for_linux_distribut.Election.Cluster.{
  Cluster, Nodes, Round, ClusterError, ElectionResult, leadership_conflict, majority, request_votes,
  reachable_peers, record_leader, after_round, answer, conclude, campaign, trigger_timeout,
}
use labs_for_linux_distribut.Election.Votes.{
  Later, pledged, pledged_at, IsNamed, LaterNodes, LaterNodes-refl, LaterNodes-trans,
  put-LaterNodes, Voted, request_votes-Voted, start_election-Later, become_leader-Later,
  observe-Later, node_id-observe,
}

-- Every node stands under its name, and each recorded leader has a majority of pledges.
pub record IsElected (c : Cluster) : Type 0 where
  pub named : IsNamed c.nodes
  pub backed :
      (t : ℕ) (id : String)
      → Dict.get c.leader_by_term t ≡ some id
      → majority c.nodes ≤ count (pledged_at t id c.nodes) (Dict.keys c.nodes)

-- Pledges only grow, so a majority stays one.
pub backed-later :
    (d d' : Nodes) (t : ℕ) (id : String)
    → LaterNodes d d'
    → majority d ≤ count (pledged_at t id d) (Dict.keys d)
    → majority d' ≤ count (pledged_at t id d') (Dict.keys d')
backed-later d d' t id later h =
    subst (λ ks. length ks / 2 + 1 ≤ count (pledged_at t id d') ks) (sym later.same_keys)
      (omega (
        arith,
        count_mono (pledged_at t id d) (pledged_at t id d') (Dict.keys d) (later.kept t id),
      ))

pub Kept-IsElected : (c c' : Cluster) → Kept c c' → IsElected c → IsElected c'
Kept-IsElected c c' kept e = record {
  named = kept.later.named e.named;
  backed = λ t id h.
      backed-later c.nodes c'.nodes t id kept.later
        (e.backed t id (ap (λ d. Dict.get d t) (sym kept.leaders) ∙ h));
}

-- The voters of a round, all nodes of the cluster, are counted among the nodes.
count-voters :
    (xs : List String) (d : Nodes) (t : ℕ) (id : String)
    → IsDistinct xs
    → ((x : String) → contains xs x ≡ true → pledged_at t id d x ≡ true)
    → length xs ≤ count (λ y. contains xs y) (Dict.keys d)
count-voters xs d t id distinct voters =
    length-le-count xs (Dict.keys d) distinct (λ x h. known x (voters x h))
  where
    known : (x : String) → pledged_at t id d x ≡ true → contains (Dict.keys d) x ≡ true
    known x p = elim (Option-cases (Dict.get d x)) [
      | inl e ↦ absurd (ground (arith, e))
      | inr (n, e) ↦ get-contains d x n e
    ]

-- The voters of a won election: pledged to the candidate now, and to nobody else before it.
pub record Won (d0 d : Nodes) (t : ℕ) (id : String) (granted : List String) : Type 0 where
  pub enough : majority d ≤ length granted
  pub same_keys : Dict.keys d ≡ Dict.keys d0
  pub distinct : IsDistinct granted
  pub voters : (x : String) → contains granted x ≡ true → pledged_at t id d x ≡ true
  pub only :
      (x : String)
      → contains granted x ≡ true
      → (other : String) → pledged_at t other d0 x ≡ true
      → other ≡ id

-- Two majorities meet, so a leader recorded for the term is the candidate itself.
pub Won-no_rival :
    (d0 d : Nodes) (t : ℕ) (id other : String) (granted : List String)
    → Won d0 d t id granted
    → majority d0 ≤ count (pledged_at t other d0) (Dict.keys d0)
    → other ≡ id
Won-no_rival d0 d t id other granted won backed =
    let many = count-voters granted d t id won.distinct won.voters in
    let many0 : length granted ≤ count (λ y. contains granted y) (Dict.keys d0) =
      subst (λ ks. length granted ≤ count (λ y. contains granted y) ks) won.same_keys many in
    let enough0 : majority d0 ≤ length granted =
      subst (λ (ks : List String). length ks / 2 + 1 ≤ length granted) won.same_keys won.enough in
    let (x, both, yes_x) =
      count-overlap (pledged_at t other d0) (λ y. contains granted y) (Dict.keys d0)
        (omega arith) in
    won.only x yes_x other both

pub Won-backed :
    (d0 d : Nodes) (t : ℕ) (id : String) (granted : List String)
    → Won d0 d t id granted
    → majority d ≤ count (pledged_at t id d) (Dict.keys d)
Won-backed d0 d t id granted won = omega (
  arith,
  count-voters granted d t id won.distinct won.voters,
  won.enough,
  count_mono (λ y. contains granted y) (pledged_at t id d) (Dict.keys d) won.voters,
)
