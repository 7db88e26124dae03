-- ===== src/Quorum/Reads.antt =====
-- What a read returns, by what the nodes hold that it contacts.
use labs_for_linux_distribut.Base.{
  ℕ, ◌+◌, ◌≤◌, ◌<◌, String, ◌≡◌, Bool, true, false, ◌||◌, Option, some, List, [], ◌∷◌, arith, subst,
  inl, inr, ℤ, positive, eq_iff, nat_beq_iff, leb, if◌then◌else◌, string_eq, nat_eq, ok, contains,
  length, count, count-overlap, length-le-count, Option-cases, Result-cases,
}
use labs_for_linux_distribut.Base.Dict
use labs_for_linux_distribut.Base.Dict.{Dict, get-contains}
use labs_for_linux_distribut.Partition.Split.{IsSplit}
use labs_for_linux_distribut.Quorum.{
  Cluster, Nodes, VersionedTask, ReadObservation, ReadResult, version_ltb, read, observe,
  candidates, newest, newest_of, answer, read_task, select_nodes, node_count,
}
use labs_for_linux_distribut.Quorum.Writes.{holds_at}
use labs_for_linux_distribut.Quorum.Select.{select_nodes-IsQuorum}

abbrev has : ℕ → List VersionedTask → Bool
has t [] = false
has t (v ∷ vs) = leb t v.version.tick || has t vs

newest-at_least :
    (t : ℕ) (best : VersionedTask) (vs : List VersionedTask)
    → (leb t best.version.tick || has t vs) ≡ true
    → t ≤ (newest best vs).version.tick
unfolding newest
newest-at_least t best [] h = ground arith
newest-at_least t best (v ∷ vs) h =
    newest-at_least t (if version_ltb best.version v.version then v else best) vs
      (ground (arith, nat_beq_iff v.version.tick best.version.tick))

observe-has :
    (t : ℕ) (key x : String) (ids : List String) (d : Nodes) (os : List ReadObservation)
    → observe key ids d ≡ ok os
    → contains ids x ≡ true
    → holds_at t key d x ≡ true
    → has t (candidates os) ≡ true
unfolding observe
observe-has t key x [] d os h here held = cc
observe-has t key x (id ∷ ids) d os h here held = elim (Option-cases (Dict.get d id)) [
  | inl e ↦ absurd (ground (arith, e))
  | inr (n, e) ↦ elim (Result-cases (observe key ids d)) [
    | inr (y, f) ↦ absurd (ground (arith, e, f))
    | inl (rest, f) ↦
        let same : (record { node_id = id; value = read key n } ∷ rest) ≡ os =
          ground (arith, e, f) in
        subst (λ l. has t (candidates l) ≡ true) same
          (ground (arith, e, f, eq_iff id x, observe-has t key x ids d rest f))
  ]
]

newest_of-at_least :
    (t : ℕ) (vs : List VersionedTask) (v : VersionedTask)
    → newest_of vs ≡ some v
    → has t vs ≡ true
    → t ≤ v.version.tick
unfolding newest_of
newest_of-at_least t [] v h some_held = cc
newest_of-at_least t (w ∷ vs) v h some_held =
    let same : newest w vs ≡ v = ground arith in
    subst (λ u. t ≤ u.version.tick) same (newest-at_least t w vs some_held)

observed :
    (key : String) (ids : List String) (d : Nodes) (os : List ReadObservation) (x : String)
    → observe key ids d ≡ ok os
    → contains ids x ≡ true
    → contains (Dict.keys d) x ≡ true
unfolding observe
observed key [] d os x h here = cc
observed key (id ∷ ids) d os x h here = elim (Option-cases (Dict.get d id)) [
  | inl e ↦ absurd (ground (arith, e))
  | inr (n, e) ↦ elim (Result-cases (observe key ids d)) [
    | inr (y, f) ↦ absurd (ground (arith, e, f))
    | inl (rest, f) ↦
        ground (arith, eq_iff id x, get-contains d id n e, observed key ids d rest x f)
  ]
]

answer-at_least :
    (t : ℕ) (key : String) (targets : List String) (os : List ReadObservation) (c : Cluster)
    (r : ReadResult)
    → answer key targets os c ≡ ok r
    → has t (candidates os) ≡ true
    → t ≤ r.value.version.tick
unfolding answer
answer-at_least t key targets os c r h some_held = elim (Option-cases (newest_of (candidates os))) [
  | inl e ↦ absurd (ground (arith, e))
  | inr (v, e) ↦
      let same : v ≡ r.value = ground (arith, e) in
      subst (λ u. t ≤ u.version.tick) same (newest_of-at_least t (candidates os) v e some_held)
]

-- A quorum all of whose nodes hold the tick meets every read with which it has too many nodes.
pub read_task-at_least :
    (t : ℕ) (key coordinator : String) (quorum : ℤ) (k : ℕ) (names : Option (List String))
    (c : Cluster) (ws : List String) (r : ReadResult)
    → IsSplit c.partition
    → positive quorum ≡ some k
    → node_count c < length ws + k
    → (length ws ≤ count (λ x. contains ws x) (Dict.keys c.nodes))
    → ((x : String) → contains ws x ≡ true → holds_at t key c.nodes x ≡ true)
    → read_task key coordinator quorum names c ≡ ok r
    → t ≤ r.value.version.tick
unfolding read_task
read_task-at_least t key coordinator quorum k names c ws r split size many counted held h =
    elim (Result-cases (select_nodes coordinator quorum names c)) [
      | inr (x, e) ↦ absurd (ground (arith, e))
      | inl (targets, e) ↦ elim (Result-cases (observe key targets c.nodes)) [
        | inr (x, f) ↦ absurd (ground (arith, e, f))
        | inl (os, f) ↦
            let q = select_nodes-IsQuorum coordinator quorum k names c targets split size e in
            let counted' =
              length-le-count targets (Dict.keys c.nodes) q.distinct
                (λ x here. observed key targets c.nodes os x f here) in
            let (x, in_ws, in_targets) =
              count-overlap (λ y. contains ws y) (λ y. contains targets y) (Dict.keys c.nodes)
                (omega (arith, many, counted, counted', q.size)) in
            answer-at_least t key targets os c r (ground (arith, e, f))
              (observe-has t key x targets c.nodes os f in_targets (held x in_ws))
      ]
    ]
