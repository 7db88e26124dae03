-- ===== src/Quorum/Runs.antt =====
-- Reads after writes: runs of the operations of `QuorumRegisterCluster`.
use labs_for_linux_distribut.Base.{
  ℕ, ◌+◌, ◌≤◌, ◌<◌, String, ◌≡◌, true, Option, some, List, [], ◌∷◌, ◌∙◌, arith, refl, sym, subst,
  ap, inl, inr, ℤ, positive, string_eq, nat_eq, ok, contains, length, count, unique,
  length-le-count, Option-cases, Result-cases,
}
use labs_for_linux_distribut.Base.Dict
use labs_for_linux_distribut.Base.Dict.{Dict, get-contains}
use labs_for_linux_distribut.Partition
use labs_for_linux_distribut.Partition.{PartitionMap, from_groups}
use labs_for_linux_distribut.Partition.Split.{IsSplit, healed-IsSplit, from_groups-IsSplit}
use labs_for_linux_distribut.Quorum.{
  Cluster, Nodes, RelayTaskRecord, VersionedTask, ReadResult, write_each, write_task, new_cluster,
  read_task, select_nodes, set_partition, with_partition, heal, node_count,
}
use labs_for_linux_distribut.Quorum.Writes.{
  holds_at, Later, Later-refl, Later-trans, write_each-Later, write_each-holds,
}
use labs_for_linux_distribut.Quorum.Select.{select_nodes-IsQuorum}
use labs_for_linux_distribut.Quorum.Reads.{read_task-at_least}

pub data Operation : Type 0 where
  written_task : String → RelayTaskRecord → String → ℤ → Option (List String) → Operation
  partitioned : List (List String) → Operation
  healed : Operation
  ticked : ℕ → Operation

-- `ticked` is a step of the clock by others that share it. Reads change nothing.
unfoldable pub operate : Operation → Cluster → Cluster
operate (written_task key task coordinator quorum names) c =
    (write_task key task coordinator quorum names c).1
operate (partitioned groups) c = (set_partition groups c).1
operate healed c = heal c
operate (ticked steps) c = record c { tick = c.tick + steps }

unfoldable pub run : List Operation → Cluster → Cluster
unfolding operate
run [] c = c
run (o ∷ os) c = run os (operate o c)

record Kept (c c' : Cluster) : Type 0 where
  later : Later c.nodes c'.nodes
  split : IsSplit c.partition → IsSplit c'.partition

write_task-Kept :
    (key : String) (task : RelayTaskRecord) (coordinator : String) (quorum : ℤ)
    (names : Option (List String)) (c : Cluster)
    → Kept c (write_task key task coordinator quorum names c).1
unfolding write_task
write_task-Kept key task coordinator quorum names c =
    elim (Result-cases (select_nodes coordinator quorum names c)) [
      | inr (x, e) ↦ rw (e, write_task) (record { later = Later-refl c.nodes; split = λ s. s })
      | inl (targets, e) ↦
          rw (e, write_task)
            (record { later = write_each-Later key _ targets c.nodes; split = λ s. s })
    ]

set_partition-Kept : (groups : List (List String)) (c : Cluster) → Kept c (set_partition groups c).1
unfolding set_partition
set_partition-Kept groups c = elim (Result-cases (from_groups (Dict.keys c.nodes) groups)) [
  | inr (x, e) ↦
      rw (e, set_partition, with_partition) (record { later = Later-refl c.nodes; split = λ s. s })
  | inl (p, e) ↦
      rw (e, set_partition, with_partition)
        (record {
          later = Later-refl c.nodes;
          split = λ s. from_groups-IsSplit (Dict.keys c.nodes) groups p e;
        })
]

operate-Kept : (o : Operation) (c : Cluster) → Kept c (operate o c)
unfolding operate heal
operate-Kept (written_task key task coordinator quorum names) c =
    write_task-Kept key task coordinator quorum names c
operate-Kept (partitioned groups) c = set_partition-Kept groups c
operate-Kept healed c = record {
  later = Later-refl c.nodes;
  split = λ s. healed-IsSplit (Dict.keys c.nodes);
}
operate-Kept (ticked steps) c = record { later = Later-refl c.nodes; split = λ s. s }

run-Kept : (os : List Operation) (c : Cluster) → Kept c (run os c)
unfolding run
run-Kept [] c = record { later = Later-refl c.nodes; split = λ s. s }
run-Kept (o ∷ os) c =
    let first = operate-Kept o c in
    let rest = run-Kept os (operate o c) in
    record { later = Later-trans first.later rest.later; split = λ s. rest.split (first.split s) }

new_cluster-IsSplit :
    (ids : List String) (tick : ℕ) (c : Cluster) → new_cluster ids tick ≡ ok c → IsSplit c.partition
unfolding new_cluster
new_cluster-IsSplit ids tick c h = go (unique ids) refl
  where
    go : (us : List String) → unique ids ≡ us → IsSplit c.partition
    go [] e = absurd (ground (arith, e))
    go (u ∷ us) e =
        let same : Partition.healed (u ∷ us) ≡ c.partition = ground (arith, e) in
        subst IsSplit same (healed-IsSplit (u ∷ us))

-- As many nodes as a write quorum hold the tick or a later one.
record IsStored (t w : ℕ) (key : String) (c : Cluster) : Type 0 where
  nodes : List String
  size : length nodes ≡ w
  counted : length nodes ≤ count (λ x. contains nodes x) (Dict.keys c.nodes)
  held : (x : String) → contains nodes x ≡ true → holds_at t key c.nodes x ≡ true

held-key :
    (t : ℕ) (key : String) (d : Nodes) (x : String)
    → holds_at t key d x ≡ true
    → contains (Dict.keys d) x ≡ true
held-key t key d x h = elim (Option-cases (Dict.get d x)) [
  | inl e ↦ absurd (ground (arith, e))
  | inr (n, e) ↦ get-contains d x n e
]

write_task-IsStored :
    (key : String) (task : RelayTaskRecord) (coordinator : String) (quorum : ℤ) (w : ℕ)
    (names : Option (List String)) (c : Cluster) (v : VersionedTask)
    → IsSplit c.partition
    → positive quorum ≡ some w
    → (write_task key task coordinator quorum names c).0 ≡ ok v
    → IsStored v.version.tick w key (write_task key task coordinator quorum names c).1
unfolding write_task
write_task-IsStored key task coordinator quorum w names c v split size h =
    elim (Result-cases (select_nodes coordinator quorum names c)) [
      | inr (x, e) ↦ absurd (ground (arith, e))
      | inl (targets, e) ↦
          let value : VersionedTask = record {
            version = record { tick = c.tick + 1; coordinator = coordinator };
            record_ = task;
          } in
          elim (Result-cases (write_each key value targets c.nodes).0) [
            | inr (x, f) ↦ absurd (ground (arith, e, f))
            | inl (b, f) ↦
                let q = select_nodes-IsQuorum coordinator quorum w names c targets split size e in
                let d = (write_each key value targets c.nodes).1 in
                let same : value ≡ v = ground (arith, e, f) in
                let held = λ (x : String) (here : contains targets x ≡ true).
                  write_each-holds key value targets c.nodes b x f here in
                subst
                  (λ u.
                    IsStored u.version.tick w key
                      (write_task key task coordinator quorum names c).1)
                  same
                  (rw (e, write_task)
                    (record {
                      nodes = targets;
                      size = q.size;
                      counted =
                          length-le-count targets (Dict.keys d) q.distinct
                            (λ x here. held-key value.version.tick key d x (held x here));
                      held = held;
                    }))
          ]
    ]

IsStored-later :
    (t w : ℕ) (key : String) (c c' : Cluster) → Kept c c' → IsStored t w key c → IsStored t w key c'
IsStored-later t w key c c' kept s = record {
  nodes = s.nodes;
  size = s.size;
  counted =
      subst (λ ks. length s.nodes ≤ count (λ x. contains s.nodes x) ks) (sym kept.later.same_keys)
        s.counted;
  held = λ x here. kept.later.kept t key x (s.held x here);
}

-- In a run from a new cluster, let a write of a task return a value, and let any writes,
-- partitions, heals and clock steps follow it, also failed ones. Then a read of the task that
-- returns has a value of at least the tick of that write, if the sizes of the two quorums add up to
-- more than the number of nodes.
pub read-sees_write :
    (ids : List String) (tick : ℕ) (c : Cluster) (before after : List Operation) (key : String)
    (task : RelayTaskRecord) (writer reader : String) (write_quorum read_quorum : ℤ) (w k : ℕ)
    (write_names read_names : Option (List String)) (v : VersionedTask) (r : ReadResult)
    → new_cluster ids tick ≡ ok c
    → positive write_quorum ≡ some w
    → positive read_quorum ≡ some k
    → node_count (run before c) < w + k
    → (write_task key task writer write_quorum write_names (run before c)).0 ≡ ok v
    → read_task key reader read_quorum read_names
        (run after (write_task key task writer write_quorum write_names (run before c)).1)
      ≡ ok r
    → v.version.tick ≤ r.value.version.tick
read-sees_write ids tick c before after key task writer reader write_quorum read_quorum w k
      write_names read_names v r made w_size k_size many wrote was_read =
    let c0 = run before c in
    let c1 = (write_task key task writer write_quorum write_names c0).1 in
    let c2 = run after c1 in
    let split = (run-Kept before c).split (new_cluster-IsSplit ids tick c made) in
    let first = write_task-Kept key task writer write_quorum write_names c0 in
    let rest = run-Kept after c1 in
    let s =
      IsStored-later v.version.tick w key c1 c2 rest
        (write_task-IsStored key task writer write_quorum w write_names c0 v split w_size wrote) in
    let same_count : node_count c2 ≡ node_count c0 =
      ap length (rest.later.same_keys ∙ first.later.same_keys) in
    read_task-at_least v.version.tick key reader read_quorum k read_names c2 s.nodes r
      (rest.split (first.split split)) k_size (omega (arith, same_count, s.size, many)) s.counted
      s.held was_read
