-- ===== src/Quorum/Select.antt =====
-- What `_select_nodes` returns: as many nodes as required, none of them twice.
use labs_for_linux_distribut.Base.{
  ℕ, zero, suc, ◌≤◌, String, ◌≡◌, true, Option, none, some, List, [], ◌∷◌, arith, refl, subst, inl,
  inr, ℤ, positive, nat_beq_iff, ltb, string_eq, nat_eq, ok, contains, length, take, unique,
  IsDistinct, unique-IsDistinct, Bool-cases, Option-cases, Result-cases,
}
use labs_for_linux_distribut.Base.Dict
use labs_for_linux_distribut.Partition.{reachable_from}
use labs_for_linux_distribut.Partition.Split.{IsSplit, reachable_from-IsDistinct}
use labs_for_linux_distribut.Quorum.{Cluster, select_nodes, enough}

contains-take :
    (n : ℕ) (xs : List String) (x : String) → contains (take n xs) x ≡ true → contains xs x ≡ true
contains-take zero xs x h = cc
contains-take (suc n) [] x h = cc
contains-take (suc n) (y ∷ ys) x h = ground (arith, contains-take n ys x)

take-IsDistinct : (n : ℕ) (xs : List String) → IsDistinct xs → IsDistinct (take n xs)
take-IsDistinct zero xs d = tt
take-IsDistinct (suc n) [] d = tt
take-IsDistinct (suc n) (x ∷ xs) d =
    (ground (arith, contains-take n xs x, d.0), take-IsDistinct n xs d.1)

length-take : (n : ℕ) (xs : List String) → n ≤ length xs → length (take n xs) ≡ n
length-take zero xs h = refl
length-take (suc n) [] h = absurd (omega arith)
length-take (suc n) (x ∷ xs) h = omega (arith, length-take n xs)

-- A quorum of the required size.
pub record IsQuorum (k : ℕ) (targets : List String) : Type 0 where
  pub distinct : IsDistinct targets
  pub size : length targets ≡ k

enough-IsQuorum :
    (k : ℕ) (names : Option (List String)) (reachable targets : List String)
    → IsDistinct reachable
    → enough k names (ok reachable) ≡ ok targets
    → IsQuorum k targets
enough-IsQuorum k none reachable targets d h = elim (Bool-cases (ltb (length reachable) k)) [
  | inl few ↦ absurd (ground (arith, few))
  | inr many ↦ subst (IsQuorum k) (ground (arith, many)) (record {
    distinct = take-IsDistinct k reachable d;
    size = length-take k reachable (ground (arith, many));
  })
]
enough-IsQuorum k (some names) reachable targets d h =
    let same : unique names ≡ targets = ground arith in
    subst (IsQuorum k) same (record {
      distinct = unique-IsDistinct names;
      size = ground (arith, nat_beq_iff (length (unique names)) k);
    })

pub select_nodes-IsQuorum :
    (coordinator : String) (required : ℤ) (k : ℕ) (names : Option (List String)) (c : Cluster)
    (targets : List String)
    → IsSplit c.partition
    → positive required ≡ some k
    → select_nodes coordinator required names c ≡ ok targets
    → IsQuorum k targets
unfolding select_nodes
select_nodes-IsQuorum coordinator required k names c targets split size h =
    elim (Option-cases (Dict.get c.nodes coordinator)) [
      | inl e ↦ absurd (ground (arith, e))
      | inr (n, e) ↦ elim (Result-cases (reachable_from c.partition coordinator)) [
        | inr (x, f) ↦ absurd (ground (arith, e, f, size))
        | inl (reachable, f) ↦
            enough-IsQuorum k names reachable targets
              (reachable_from-IsDistinct c.partition coordinator reachable split f)
              (ground (arith, e, f, size))
      ]
    ]
