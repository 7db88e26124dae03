-- ===== src/Quorum/Reach.antt =====
-- `can_reach_quorum` against the choice of nodes.
use labs_for_linux_distribut.Base.{
  String, ◌≡◌, ◌↔◌, true, none, List, arith, inl, inr, ℤ, positive, take, string_eq, ok,
  Option-cases, Result-cases,
}
use labs_for_linux_distribut.Base.Dict
use labs_for_linux_distribut.Partition.{reachable_from}
use labs_for_linux_distribut.Quorum.{Cluster, select_nodes, can_reach_quorum}

-- `can_reach_quorum` answers True exactly if `_select_nodes` without a preference returns for the
-- same coordinator and size.
pub can_reach_quorum-select_nodes :
    (coordinator : String) (size : ℤ) (c : Cluster)
    → can_reach_quorum coordinator size c ≡ ok true
      ↔ ((targets : List String) × (select_nodes coordinator size none c ≡ ok targets))
unfolding can_reach_quorum select_nodes
can_reach_quorum-select_nodes coordinator size c =
    elim (Option-cases (Dict.get c.nodes coordinator)) [
      | inl e ↦ (λ h. absurd (ground (arith, e)), λ (targets, h). absurd (ground (arith, e)))
      | inr (n, e) ↦ elim (Option-cases (positive size)) [
        | inl f ↦
            (λ h. absurd (ground (arith, e, f)), λ (targets, h). absurd (ground (arith, e, f)))
        | inr (k, f) ↦ elim (Result-cases (reachable_from c.partition coordinator)) [
          | inl (group, g) ↦ (
            λ h. (take k group, ground (arith, e, f, g)),
            λ (targets, h). ground (arith, e, f, g),
          )
          | inr (x, g) ↦ (
            λ h. absurd (ground (arith, e, f, g)),
            λ (targets, h). absurd (ground (arith, e, f, g)),
          )
        ]
      ]
    ]
