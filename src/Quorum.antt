-- ===== src/Quorum.antt =====
-- labs/23-quorum-basics/src/lab_23_quorum_basics/simulation.py: `QuorumRegisterCluster` and what it
-- is made of. The clock of the cluster is a field of it.
pub mod Select
pub mod Writes
pub mod Reads
pub mod Reach
pub mod Runs
pub mod Values
pub mod Past
pub mod Exact
mod Tests
use labs_for_linux_distribut.Base.{
  ℕ, ◌+◌, ◌-◌, ◌/◌, ◌<◌, String, Bool, true, false, not, Option, none, some, List, [], ◌∷◌, ◌==◌,
  ◌&&◌, ◌||◌, ℤ, positive, max, min, ltb, leb, text_leb, if◌then◌else◌, string_eq, nat_eq, Result,
  ok, raise, length, take, unique, subset,
}
use labs_for_linux_distribut.Base.Dict
use labs_for_linux_distribut.Base.Dict.{Dict}
use labs_for_linux_distribut.Partition
use labs_for_linux_distribut.Partition.{PartitionMap, healed, from_groups, reachable_from}

pub data RelayTaskStatus : Type 0 where
  queued running completed : RelayTaskStatus

pub record RelayTaskRecord : Type 0 where
  pub task_id : String
  pub shard : String
  pub status : RelayTaskStatus
  pub assigned_worker : Option String
  pub attempt : ℤ

pub record Version : Type 0 where
  pub tick : ℕ
  pub coordinator : String

-- `<=` and `<` of a dataclass with `order=True`: by tick, then by coordinator.
abbrev pub version_leb : Version → Version → Bool
version_leb a b = ltb a.tick b.tick || (a.tick == b.tick && text_leb a.coordinator b.coordinator)

abbrev pub version_ltb : Version → Version → Bool
version_ltb a b = not (version_leb b a)

pub record VersionedTask : Type 0 where
  pub version : Version
  pub record_ : RelayTaskRecord

pub data QuorumError : Type 0 where
  value_error key_error quorum_unavailable unknown_task : QuorumError

pub record RegisterNode : Type 0 where
  pub node_id : String
  pub store : Dict String VersionedTask

abbrev pub read : String → RegisterNode → Option VersionedTask
read task_key n = Dict.get n.store task_key

-- `current is None or current.version <= value.version`
abbrev pub is_newer : Option VersionedTask → VersionedTask → Bool
is_newer none value = true
is_newer (some current) value = version_leb current.version value.version

unfoldable pub write : String → VersionedTask → RegisterNode → RegisterNode
write task_key value n =
    if is_newer (Dict.get n.store task_key) value
    then record n { store = Dict.put n.store task_key value }
    else n

unfoldable pub majority_quorum : ℤ → Result QuorumError ℕ
majority_quorum node_count = elim (positive node_count) [
  | none ↦ raise value_error
  | some n ↦ ok (n / 2 + 1)
]

-- The majority is at most the number of nodes, so the subtraction does not stop at 0.
unfoldable pub majority_failure_budget : ℤ → Result QuorumError ℕ
unfolding majority_quorum
majority_failure_budget node_count = elim (positive node_count) [
  | none ↦ raise value_error
  | some n ↦ ok (n - (n / 2 + 1))
]

abbrev pub within : ℕ → Option ℕ → Option ℕ → Result QuorumError Bool
within n (some r) (some w) = if ltb n (max r w) then raise value_error else ok (ltb n (r + w))
within n _ _ = raise value_error

unfoldable pub quorums_intersect : ℤ → ℤ → ℤ → Result QuorumError Bool
quorums_intersect node_count read_quorum write_quorum = elim (positive node_count) [
  | none ↦ raise value_error
  | some n ↦ within n (positive read_quorum) (positive write_quorum)
]

pub record QuorumRegisterCluster : Type 0 where
  pub tick : ℕ
  pub nodes : Dict String RegisterNode
  pub partition : PartitionMap

abbrev pub Nodes : Type 0
Nodes = Dict String RegisterNode

abbrev pub Cluster : Type 0
Cluster = QuorumRegisterCluster

unfoldable pub replicas : List String → Nodes → Nodes
replicas [] d = d
replicas (id ∷ ids) d = replicas ids (Dict.put d id (record { node_id = id; store = Dict.empty }))

-- `__init__` with a clock that stands at the given tick.
unfoldable pub new_cluster : List String → ℕ → Result QuorumError Cluster
unfolding replicas
new_cluster node_ids tick = elim (unique node_ids) [
  | [] ↦ raise value_error
  | id ∷ ids ↦ ok (record {
    tick = tick;
    nodes = replicas (id ∷ ids) Dict.empty;
    partition = healed (id ∷ ids);
  })
]

abbrev pub node_count : Cluster → ℕ
node_count c = length (Dict.keys c.nodes)

abbrev pub with_partition :
    Result Partition.PartitionError PartitionMap → Cluster → Result QuorumError Bool × Cluster
with_partition (ok p) c = (ok true, record c { partition = p })
with_partition (raise e) c = (raise value_error, c)

unfoldable pub set_partition : List (List String) → Cluster → Result QuorumError Bool × Cluster
set_partition groups c = with_partition (from_groups (Dict.keys c.nodes) groups) c

unfoldable pub heal : Cluster → Cluster
heal c = record c { partition = healed (Dict.keys c.nodes) }

-- `_select_nodes` once the reachable nodes are known to suffice.
abbrev pub preferred : ℕ → List String → Option (List String) → Result QuorumError (List String)
preferred required reachable none = ok (take required reachable)
preferred required reachable (some names) =
    let chosen = unique names in
    if not (length chosen == required)
    then raise value_error
    else if subset chosen reachable
    then ok chosen
    else raise quorum_unavailable

abbrev pub enough :
    ℕ
    → Option (List String)
    → Result Partition.PartitionError (List String)
    → Result QuorumError (List String)
enough required names (raise e) = raise value_error
enough required names (ok reachable) =
    if ltb (length reachable) required
    then raise quorum_unavailable
    else preferred required reachable names

unfoldable pub select_nodes :
    String → ℤ → Option (List String) → Cluster → Result QuorumError (List String)
select_nodes coordinator required names c = elim (Dict.get c.nodes coordinator) [
  | none ↦ raise value_error
  | some _ ↦ elim (positive required) [
    | none ↦ raise value_error
    | some k ↦
        if ltb (node_count c) k
        then raise value_error
        else enough k names (reachable_from c.partition coordinator)
  ]
]

-- The loop of `write_task`.
unfoldable pub write_each :
    String → VersionedTask → List String → Nodes → Result QuorumError Bool × Nodes
write_each task_key value [] d = (ok true, d)
write_each task_key value (id ∷ ids) d = elim (Dict.get d id) [
  | none ↦ (raise key_error, d)
  | some n ↦ write_each task_key value ids (Dict.put d id (write task_key value n))
]

abbrev pub written : Result QuorumError Bool → VersionedTask → Result QuorumError VersionedTask
written (ok b) value = ok value
written (raise e) value = raise e

unfoldable pub write_task :
    String
    → RelayTaskRecord
    → String
    → ℤ
    → Option (List String)
    → Cluster
    → Result QuorumError VersionedTask × Cluster
write_task task_key task coordinator write_quorum names c =
    elim (select_nodes coordinator write_quorum names c) [
      | raise e ↦ (raise e, c)
      | ok targets ↦
          let tick = c.tick + 1 in
          let value : VersionedTask = record {
            version = record { tick = tick; coordinator = coordinator };
            record_ = task;
          } in
          let (done, nodes) = write_each task_key value targets c.nodes in
          (written done value, record c { tick = tick; nodes = nodes })
    ]

pub record ReadObservation : Type 0 where
  pub node_id : String
  pub value : Option VersionedTask

pub record ReadResult : Type 0 where
  pub task_key : String
  pub value : VersionedTask
  pub contacted_nodes : List String
  pub observations : List ReadObservation
  pub stale : Bool

abbrev pub with_observation :
    ReadObservation
    → Result QuorumError (List ReadObservation)
    → Result QuorumError (List ReadObservation)
with_observation o (ok os) = ok (o ∷ os)
with_observation o (raise e) = raise e

unfoldable pub observe : String → List String → Nodes → Result QuorumError (List ReadObservation)
observe task_key [] d = ok []
observe task_key (id ∷ ids) d =
    let rest = observe task_key ids d in
    elim (Dict.get d id) [
      | none ↦ raise key_error
      | some n ↦ with_observation (record { node_id = id; value = read task_key n }) rest
    ]

abbrev pub candidates : List ReadObservation → List VersionedTask
candidates [] = []
candidates (o ∷ os) = elim o.value [ none ↦ candidates os | some v ↦ v ∷ candidates os ]

-- `max(candidates, key=lambda value: value.version)`: the first of the newest ones.
unfoldable pub newest : VersionedTask → List VersionedTask → VersionedTask
newest best [] = best
newest best (v ∷ vs) = newest (if version_ltb best.version v.version then v else best) vs

unfoldable pub newest_of : List VersionedTask → Option VersionedTask
unfolding newest
newest_of [] = none
newest_of (v ∷ vs) = some (newest v vs)

abbrev pub held : String → List RegisterNode → List VersionedTask
held task_key [] = []
held task_key (n ∷ ns) = elim (read task_key n) [
  | none ↦ held task_key ns
  | some v ↦ v ∷ held task_key ns
]

unfoldable pub latest_task : String → Cluster → Option VersionedTask
unfolding newest_of
latest_task task_key c = newest_of (held task_key (Dict.values c.nodes))

abbrev pub is_stale : VersionedTask → Option VersionedTask → Bool
is_stale seen none = false
is_stale seen (some latest) = version_ltb seen.version latest.version

-- `read_task` with what the contacted nodes hold.
unfoldable pub answer :
    String → List String → List ReadObservation → Cluster → Result QuorumError ReadResult
answer task_key targets os c = elim (newest_of (candidates os)) [
  | none ↦ raise unknown_task
  | some latest_seen ↦ ok (record {
    task_key = task_key;
    value = latest_seen;
    contacted_nodes = targets;
    observations = os;
    stale = is_stale latest_seen (latest_task task_key c);
  })
]

abbrev pub answer_from :
    String
    → List String
    → Cluster
    → Result QuorumError (List ReadObservation)
    → Result QuorumError ReadResult
answer_from task_key targets c (raise e) = raise e
answer_from task_key targets c (ok os) = answer task_key targets os c

unfoldable pub read_task :
    String → String → ℤ → Option (List String) → Cluster → Result QuorumError ReadResult
unfolding observe
read_task task_key coordinator read_quorum names c =
    elim (select_nodes coordinator read_quorum names c) [
      | raise e ↦ raise e
      | ok targets ↦ answer_from task_key targets c (observe task_key targets c.nodes)
    ]

abbrev pub reaches : ℕ → Result Partition.PartitionError (List String) → Result QuorumError Bool
reaches k (ok reachable) = ok (leb k (length reachable))
reaches k (raise e) = raise value_error

unfoldable pub can_reach_quorum : String → ℤ → Cluster → Result QuorumError Bool
can_reach_quorum coordinator quorum_size c = elim (Dict.get c.nodes coordinator) [
  | none ↦ raise value_error
  | some _ ↦ elim (positive quorum_size) [
    | none ↦ raise value_error
    | some k ↦
        if ltb (node_count c) k
        then raise value_error
        else reaches k (reachable_from c.partition coordinator)
  ]
]

unfoldable pub replica_value : String → String → Cluster → Result QuorumError (Option VersionedTask)
replica_value node_id task_key c = elim (Dict.get c.nodes node_id) [
  | none ↦ raise value_error
  | some n ↦ ok (read task_key n)
]
