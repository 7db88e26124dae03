-- ===== src/Partition/Split.antt =====
-- No group of a partition names a node twice.
use labs_for_linux_distribut.Base.{
  String, ◌≡◌, List, [], ◌∷◌, arith, sym, subst, inl, inr, ok, contains, IsDistinct,
  unique-IsDistinct, sorted-IsDistinct, Bool-cases, All, string_eq,
}
use labs_for_linux_distribut.Partition.{
  PartitionMap, healed, frozen, from_groups, group_of, reachable_from,
}
use labs_for_linux_distribut.Partition.Groups.{from_groups-Accepted}

abbrev pub IsSplit : PartitionMap → Type 0
IsSplit p = All IsDistinct p.groups

pub healed-IsSplit : (nodes : List String) → IsSplit (healed nodes)
unfolding healed
healed-IsSplit nodes = (unique-IsDistinct nodes, tt)

frozen-IsSplit : (gs : List (List String)) → All IsDistinct (frozen gs)
frozen-IsSplit [] = tt
frozen-IsSplit (g ∷ gs) = (unique-IsDistinct g, frozen-IsSplit gs)

pub from_groups-IsSplit :
    (nodes : List String) (groups : List (List String)) (p : PartitionMap)
    → from_groups nodes groups ≡ ok p
    → IsSplit p
from_groups-IsSplit nodes groups p h =
    subst (λ gs. All IsDistinct gs) (sym (from_groups-Accepted nodes groups p h).built)
      (frozen-IsSplit groups)

group_of-IsDistinct :
    (gs : List (List String)) (n : String) (r : List String)
    → All IsDistinct gs
    → group_of gs n ≡ ok r
    → IsDistinct r
unfolding group_of
group_of-IsDistinct [] n r d h = cc
group_of-IsDistinct (g ∷ gs) n r d h = elim (Bool-cases (contains g n)) [
  | inl inside ↦ subst IsDistinct (ground arith) (sorted-IsDistinct g d.0)
  | inr outside ↦ group_of-IsDistinct gs n r d.1 (ground arith)
]

pub reachable_from-IsDistinct :
    (p : PartitionMap) (n : String) (r : List String)
    → IsSplit p
    → reachable_from p n ≡ ok r
    → IsDistinct r
unfolding reachable_from
reachable_from-IsDistinct p n r d h = group_of-IsDistinct p.groups n r d h
