-- ===== src/Partition.antt =====
-- `PartitionMap` of labs/23-quorum-basics/src/lab_23_quorum_basics/simulation.py; labs 24 and 25 hold
-- the same class. A `frozenset` is a list without repetition.
mod Tests
pub mod Groups
pub mod Split
use labs_for_linux_distribut.Base.{
  String, ◌≡◌, Bool, true, false, not, ◌&&◌, List, [], ◌∷◌, ◌++◌, ◌==◌, string_eq, Result, ok,
  raise, if◌then◌else◌, ◌>>=◌, contains, unique, subset, disjoint, sorted, arith, refl, IsDistinct,
  unique-IsDistinct, sorted-IsDistinct, contains-sorted, Bool-cases, inl, inr, All,
}

pub data PartitionError : Type 0 where
  value_error : PartitionError

pub record PartitionMap : Type 0 where
  pub groups : List (List String)

unfoldable pub healed : List String → PartitionMap
healed nodes = record { groups = unique nodes ∷ [] }

abbrev pub is_empty : List String → Bool
is_empty [] = true
is_empty (x ∷ xs) = false

-- The loop of `from_groups`: the nodes that the groups so far hold, or an exception.
unfoldable pub seen_by :
    List String → List (List String) → List String → Result PartitionError (List String)
seen_by known [] seen = ok seen
seen_by known (group ∷ groups) seen =
    let rest = seen_by known groups (unique (seen ++ group)) in
    if is_empty group
    then raise value_error
    else if not (subset group known)
    then raise value_error
    else if not (disjoint group seen)
    then raise value_error
    else rest

abbrev pub frozen : List (List String) → List (List String)
frozen [] = []
frozen (g ∷ gs) = unique g ∷ frozen gs

abbrev pub covering :
    List String → List (List String) → List String → Result PartitionError PartitionMap
covering known groups seen =
    if subset seen known && subset known seen
    then ok (record { groups = groups })
    else raise value_error

unfoldable pub from_groups : List String → List (List String) → Result PartitionError PartitionMap
unfolding seen_by
from_groups nodes groups = do
  seen ← seen_by (unique nodes) (frozen groups) []
  covering (unique nodes) (frozen groups) seen

unfoldable pub group_of : List (List String) → String → Result PartitionError (List String)
group_of [] node_id = raise value_error
group_of (g ∷ gs) node_id =
    let rest = group_of gs node_id in if contains g node_id then ok (sorted g) else rest

unfoldable pub reachable_from : PartitionMap → String → Result PartitionError (List String)
unfolding group_of
reachable_from p node_id = group_of p.groups node_id
