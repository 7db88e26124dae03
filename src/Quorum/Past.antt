-- ===== src/Quorum/Past.antt =====
-- No node holds a value from the future of the clock.
use labs_for_linux_distribut.Base.{
  ℕ, ◌+◌, ◌≤◌, String, ◌≡◌, Option, List, [], ◌∷◌, arith, refl, subst, ap, inl, inr, ℤ, ◌==◌,
  string_eq, ok, unique, Bool-cases, Result-cases, ◌∙◌,
}
use labs_for_linux_distribut.Base.Dict
use labs_for_linux_distribut.Base.Dict.{Dict, get-put, get-empty}
use labs_for_linux_distribut.Partition.{from_groups}
use labs_for_linux_distribut.Quorum.{
  Cluster, Nodes, RegisterNode, RelayTaskRecord, VersionedTask, read, write_task, select_nodes,
  set_partition, with_partition, heal, new_cluster, replicas,
}
use labs_for_linux_distribut.Quorum.Runs.{
  Operation, written_task, partitioned, healed, ticked, operate, run,
}
use labs_for_linux_distribut.Quorum.Values.{Only, write_each-Only}

-- No value is from the future of the clock.
abbrev pub Past : ℕ → String → VersionedTask → Type 0
Past t key u = u.version.tick ≤ t

replicas-Only :
    (t : ℕ) (ids : List String) (d : Nodes) → Only (Past t) d → Only (Past t) (replicas ids d)
unfolding replicas
replicas-Only t [] d only = only
replicas-Only t (id ∷ ids) d only =
    replicas-Only t ids (Dict.put d id fresh) (λ key x n u here value. elim (Bool-cases (id == x)) [
      | inl same ↦
          let own : fresh ≡ n = ground (arith, same, get-put d id x fresh) in
          absurd (ground (arith, get-empty {V = VersionedTask} key, ap (read key) own ∙ value))
      | inr other ↦ only key x n u (ground (arith, other, get-put d id x fresh)) value
    ])
  where
    fresh : RegisterNode
    fresh = record { node_id = id; store = Dict.empty }

write_task-Past :
    (key : String) (task : RelayTaskRecord) (coordinator : String) (quorum : ℤ)
    (names : Option (List String)) (c : Cluster)
    → Only (Past c.tick) c.nodes
    → (let c1 = (write_task key task coordinator quorum names c).1 in Only (Past c1.tick) c1.nodes)
unfolding write_task
write_task-Past key task coordinator quorum names c only =
    elim (Result-cases (select_nodes coordinator quorum names c)) [
      | inr (x, e) ↦ rw (e, write_task) only
      | inl (targets, e) ↦
          rw (e, write_task)
            (write_each-Only (Past (c.tick + 1)) key _ targets c.nodes
              (λ k x n u here value. omega (arith, only k x n u here value)) (omega arith))
    ]

set_partition-Past :
    (groups : List (List String)) (c : Cluster)
    → Only (Past c.tick) c.nodes
    → Only (Past (set_partition groups c).1.tick) (set_partition groups c).1.nodes
unfolding set_partition
set_partition-Past groups c only = elim (Result-cases (from_groups (Dict.keys c.nodes) groups)) [
  | inr (x, e) ↦ rw (e, set_partition, with_partition) only
  | inl (p, e) ↦ rw (e, set_partition, with_partition) only
]

pub nodes-set_partition :
    (groups : List (List String)) (c : Cluster) → (set_partition groups c).1.nodes ≡ c.nodes
unfolding set_partition
nodes-set_partition groups c = elim (Result-cases (from_groups (Dict.keys c.nodes) groups)) [
  | inr (x, e) ↦ rw (e, set_partition, with_partition) refl
  | inl (p, e) ↦ rw (e, set_partition, with_partition) refl
]

operate-Past :
    (o : Operation) (c : Cluster)
    → Only (Past c.tick) c.nodes
    → Only (Past (operate o c).tick) (operate o c).nodes
unfolding operate heal
operate-Past (written_task key task coordinator quorum names) c only =
    write_task-Past key task coordinator quorum names c only
operate-Past (partitioned groups) c only = set_partition-Past groups c only
operate-Past healed c only = only
operate-Past (ticked steps) c only = λ k x n u here value. omega (arith, only k x n u here value)

pub run-Past :
    (os : List Operation) (c : Cluster)
    → Only (Past c.tick) c.nodes
    → Only (Past (run os c).tick) (run os c).nodes
unfolding run
run-Past [] c only = only
run-Past (o ∷ os) c only = run-Past os (operate o c) (operate-Past o c only)

pub new_cluster-Past :
    (ids : List String) (tick : ℕ) (c : Cluster)
    → new_cluster ids tick ≡ ok c
    → Only (Past c.tick) c.nodes
unfolding new_cluster
new_cluster-Past ids tick c h = go (unique ids) refl
  where
    go : (us : List String) → unique ids ≡ us → Only (Past c.tick) c.nodes
    go [] e = absurd (ground (arith, e))
    go (u ∷ us) e =
        let same : replicas (u ∷ us) Dict.empty ≡ c.nodes = ground (arith, e) in
        subst (Only (Past c.tick)) same (
          replicas-Only c.tick (u ∷ us) Dict.empty
            (λ k x n w here value. absurd (ground (arith, get-empty {V = RegisterNode} x))))
