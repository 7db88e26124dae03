-- ===== src/Quorum/Values.antt =====
-- What all values that the nodes hold have in common.
use labs_for_linux_distribut.Base.{
  String, ◌≡◌, ◌⊎◌, Bool, true, false, some, List, [], ◌∷◌, arith, subst, ap, inl, inr, eq_iff, All,
  if◌then◌else◌, ◌==◌, string_eq, ok, Bool-cases, Option-cases, Result-cases, ◌∙◌,
}
use labs_for_linux_distribut.Base.Dict
use labs_for_linux_distribut.Base.Dict.{Dict, get-put, get-empty}
use labs_for_linux_distribut.Quorum.{
  Nodes, RegisterNode, VersionedTask, ReadObservation, version_ltb, read, write, is_newer,
  write_each, observe, candidates, newest,
}

-- Every value that a node holds satisfies the predicate.
abbrev pub Only : (String → VersionedTask → Type 0) → Nodes → Type 0
Only P d =
    (key x : String) (n : RegisterNode) (u : VersionedTask)
    → Dict.get d x ≡ some n
    → read key n ≡ some u
    → P key u

pub read-write :
    (key k : String) (v u : VersionedTask) (n : RegisterNode)
    → read key (write k v n) ≡ some u
    → ((k ≡ key) × (v ≡ u)) ⊎ (read key n ≡ some u)
unfolding write
read-write key k v u n h = elim (Bool-cases (k == key)) [
  | inl same ↦ elim (Bool-cases (is_newer (Dict.get n.store k) v)) [
    | inl newer ↦ inl ((eq_iff k key).0 same, ground (arith, newer, same, get-put n.store k key v))
    | inr kept ↦ inr (ground (arith, kept))
  ]
  | inr other ↦ inr (ground (arith, other, get-put n.store k key v))
]

module _ (P : String → VersionedTask → Type 0) where
  put-Only :
      (k : String) (v : VersionedTask) (d : Nodes) (id : String) (n : RegisterNode)
      → Dict.get d id ≡ some n
      → Only P d
      → P k v
      → Only P (Dict.put d id (write k v n))
  put-Only k v d id n e only new key x m u here value = elim (Bool-cases (id == x)) [
    | inr other ↦ only key x m u (ground (arith, other, get-put d id x (write k v n))) value
    | inl same ↦
        let own : write k v n ≡ m = ground (arith, same, get-put d id x (write k v n)) in
        elim (read-write key k v u n (ap (read key) own ∙ value)) [
          | inl (key_is, value_is) ↦ subst (λ j. P j u) key_is (subst (P k) value_is new)
          | inr before ↦ only key id n u e before
        ]
  ]

  pub write_each-Only :
      (k : String) (v : VersionedTask) (ids : List String) (d : Nodes)
      → Only P d
      → P k v
      → Only P (write_each k v ids d).1
  unfolding write_each
  write_each-Only k v [] d only new = only
  write_each-Only k v (id ∷ ids) d only new = elim (Option-cases (Dict.get d id)) [
    | inl e ↦ rw (e, write_each) only
    | inr (n, e) ↦
        rw (e, write_each)
          (write_each-Only k v ids (Dict.put d id (write k v n)) (put-Only k v d id n e only new)
            new)
  ]

  pub observe-Only :
      (key : String) (ids : List String) (d : Nodes) (os : List ReadObservation)
      → Only P d
      → observe key ids d ≡ ok os
      → All (P key) (candidates os)
  unfolding observe
  observe-Only key [] d os only h =
      let same : [] ≡ os = ground arith in subst (λ l. All (P key) (candidates l)) same tt
  observe-Only key (id ∷ ids) d os only h = elim (Option-cases (Dict.get d id)) [
    | inl e ↦ absurd (ground (arith, e))
    | inr (n, e) ↦ elim (Result-cases (observe key ids d)) [
      | inr (y, f) ↦ absurd (ground (arith, e, f))
      | inl (rest, f) ↦
          let same : (record { node_id = id; value = read key n } ∷ rest) ≡ os =
            ground (arith, e, f) in
          subst (λ l. All (P key) (candidates l)) same
            (observed_first key id n rest (λ u here. only key id n u e here)
              (observe-Only key ids d rest only f))
    ]
  ]
    where
      observed_first :
          (key id : String) (n : RegisterNode) (rest : List ReadObservation)
          → ((u : VersionedTask) → read key n ≡ some u → P key u)
          → All (P key) (candidates rest)
          → All (P key) (candidates (record { node_id = id; value = read key n } ∷ rest))
      observed_first key id n rest one all = elim (Option-cases (read key n)) [
        | inl e ↦ rw e all
        | inr (u, e) ↦ rw e (one u e, all)
      ]

pub newest-All :
    (Q : VersionedTask → Type 0) (best : VersionedTask) (vs : List VersionedTask)
    → Q best
    → All Q vs
    → Q (newest best vs)
unfolding newest
newest-All Q best [] q all = q
newest-All Q best (v ∷ vs) q all =
    newest-All Q (if version_ltb best.version v.version then v else best) vs
      (either (version_ltb best.version v.version)) all.1
  where
    either : (b : Bool) → Q (if b then v else best)
    either true = all.0
    either false = q
