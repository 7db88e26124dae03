-- ===== src/Partition/Tests.antt =====
-- Partitions at concrete inputs.
use labs_for_linux_distribut.Base.{String, ◌≡◌, List, [], ◌∷◌, ok, raise, refl}
use labs_for_linux_distribut.Partition.{PartitionMap, value_error, from_groups, reachable_from}
use labs_for_linux_distribut.Partition.Groups.{Reachable, from_groups-Reachable}

abbrev nodes : List String
nodes = "a" ∷ "b" ∷ "c" ∷ []

abbrev split : PartitionMap
split = record { groups = ("c" ∷ "a" ∷ []) ∷ ("b" ∷ []) ∷ [] }

accepted : from_groups nodes (("c" ∷ "a" ∷ []) ∷ ("b" ∷ []) ∷ []) ≡ ok split
unfolding from_groups
accepted = refl

sorted_group : reachable_from split "c" ≡ ok ("a" ∷ "c" ∷ [])
unfolding reachable_from
sorted_group = refl

overlap : from_groups nodes (("c" ∷ "a" ∷ []) ∷ ("b" ∷ "a" ∷ []) ∷ []) ≡ raise value_error
unfolding from_groups
overlap = refl

uncovered : from_groups nodes (("c" ∷ "a" ∷ []) ∷ []) ≡ raise value_error
unfolding from_groups
uncovered = refl

from_groups-Reachable_example : Reachable split "c"
from_groups-Reachable_example =
    from_groups-Reachable nodes (("c" ∷ "a" ∷ []) ∷ ("b" ∷ []) ∷ []) split "c" accepted refl
