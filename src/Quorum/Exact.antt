-- ===== src/Quorum/Exact.antt =====
-- A read returns the very value of the last write.
use labs_for_linux_distribut.Base.{
  ℕ, ◌+◌, ◌<◌, String, ◌≡◌, ◌⊎◌, Bool, true, false, Option, some, List, [], ◌∷◌, arith, refl, sym,
  subst, inl, inr, ℤ, positive, All, string_eq, ok, Option-cases, Result-cases, ◌∙◌,
}
use labs_for_linux_distribut.Quorum.{
  Cluster, RelayTaskRecord, VersionedTask, ReadResult, write_each, write_task, observe, candidates,
  newest, newest_of, answer, read_task, select_nodes, heal, node_count, new_cluster,
}
use labs_for_linux_distribut.Quorum.Runs.{
  Operation, written_task, partitioned, healed, ticked, operate, run, read-sees_write,
}
use labs_for_linux_distribut.Quorum.Values.{Only, write_each-Only, observe-Only, newest-All}
use labs_for_linux_distribut.Quorum.Past.{Past, run-Past, new_cluster-Past, nodes-set_partition}

-- Whether the operation is no write.
abbrev pub is_quiet : Operation → Bool
is_quiet (written_task key task coordinator quorum names) = false
is_quiet _ = true

operate-quiet : (o : Operation) (c : Cluster) → is_quiet o ≡ true → (operate o c).nodes ≡ c.nodes
unfolding operate heal
operate-quiet (written_task key task coordinator quorum names) c q = cc
operate-quiet (partitioned groups) c q = nodes-set_partition groups c
operate-quiet healed c q = refl
operate-quiet (ticked steps) c q = refl

run-quiet :
    (os : List Operation) (c : Cluster)
    → All (λ o. is_quiet o ≡ true) os
    → (run os c).nodes ≡ c.nodes
unfolding run
run-quiet [] c q = refl
run-quiet (o ∷ os) c q = run-quiet os (operate o c) q.1 ∙ operate-quiet o c q.0

-- A value of the task is this one, or of an earlier tick.
abbrev Upto : String → VersionedTask → String → VersionedTask → Type 0
Upto k v key u = k ≡ key → (u ≡ v) ⊎ (u.version.tick < v.version.tick)

write_task-Upto :
    (key : String) (task : RelayTaskRecord) (coordinator : String) (quorum : ℤ)
    (names : Option (List String)) (c : Cluster) (v : VersionedTask)
    → Only (Past c.tick) c.nodes
    → (write_task key task coordinator quorum names c).0 ≡ ok v
    → Only (Upto key v) (write_task key task coordinator quorum names c).1.nodes
unfolding write_task
write_task-Upto key task coordinator quorum names c v only h =
    elim (Result-cases (select_nodes coordinator quorum names c)) [
      | inr (x, e) ↦ absurd (ground (arith, e))
      | inl (targets, e) ↦
          let value : VersionedTask = record {
            version = record { tick = c.tick + 1; coordinator = coordinator };
            record_ = task;
          } in
          elim (Result-cases (write_each key value targets c.nodes).0) [
            | inr (x, f) ↦ absurd (ground (arith, e, f))
            | inl (b, f) ↦
                let same : value ≡ v = ground (arith, e, f) in
                subst
                  (λ w. Only (Upto key w) (write_task key task coordinator quorum names c).1.nodes)
                  same
                  (rw (e, write_task)
                    (write_each-Only (Upto key value) key value targets c.nodes
                      (λ k x n u here held _. inr (omega (arith, only k x n u here held)))
                      (λ _. inl refl)))
          ]
    ]

newest_of-All :
    (Q : VersionedTask → Type 0) (vs : List VersionedTask) (v : VersionedTask)
    → newest_of vs ≡ some v
    → All Q vs
    → Q v
unfolding newest_of
newest_of-All Q [] v h all = absurd (cc)
newest_of-All Q (w ∷ vs) v h all =
    let same : newest w vs ≡ v = ground arith in subst Q same (newest-All Q w vs all.0 all.1)

read_task-Only :
    (P : String → VersionedTask → Type 0) (key coordinator : String) (quorum : ℤ)
    (names : Option (List String)) (c : Cluster) (r : ReadResult)
    → Only P c.nodes
    → read_task key coordinator quorum names c ≡ ok r
    → P key r.value
unfolding read_task answer
read_task-Only P key coordinator quorum names c r only h =
    elim (Result-cases (select_nodes coordinator quorum names c)) [
      | inr (x, e) ↦ absurd (ground (arith, e))
      | inl (targets, e) ↦ elim (Result-cases (observe key targets c.nodes)) [
        | inr (x, f) ↦ absurd (ground (arith, e, f))
        | inl (os, f) ↦ elim (Option-cases (newest_of (candidates os))) [
          | inl g ↦ absurd (ground (arith, e, f, g))
          | inr (v, g) ↦
              let same : v ≡ r.value = ground (arith, e, f, g) in
              subst (P key) same (
                newest_of-All (P key) (candidates os) v g
                  (observe-Only P key targets c.nodes os only f))
        ]
      ]
    ]

-- In a run from a new cluster, let a write of a task return a value, and let partitions, heals and
-- clock steps follow it, but no write. Then a read of the task that returns has that very value, if
-- the sizes of the two quorums add up to more than the number of nodes.
pub read-last_write :
    (ids : List String) (tick : ℕ) (c : Cluster) (before after : List Operation) (key : String)
    (task : RelayTaskRecord) (writer reader : String) (write_quorum read_quorum : ℤ) (w k : ℕ)
    (write_names read_names : Option (List String)) (v : VersionedTask) (r : ReadResult)
    → new_cluster ids tick ≡ ok c
    → All (λ o. is_quiet o ≡ true) after
    → positive write_quorum ≡ some w
    → positive read_quorum ≡ some k
    → node_count (run before c) < w + k
    → (write_task key task writer write_quorum write_names (run before c)).0 ≡ ok v
    → read_task key reader read_quorum read_names
        (run after (write_task key task writer write_quorum write_names (run before c)).1)
      ≡ ok r
    → r.value ≡ v
read-last_write ids tick c before after key task writer reader write_quorum read_quorum w k
      write_names read_names v r made quiet w_size k_size many wrote was_read =
    let c0 = run before c in
    let c1 = (write_task key task writer write_quorum write_names c0).1 in
    let past = run-Past before c (new_cluster-Past ids tick c made) in
    let only = write_task-Upto key task writer write_quorum write_names c0 v past wrote in
    let late =
      read-sees_write ids tick c before after key task writer reader write_quorum read_quorum w k
        write_names read_names v r made w_size k_size many wrote was_read in
    elim (read_task-Only (Upto key v) key reader read_quorum read_names (run after c1) r
      (subst (Only (Upto key v)) (sym (run-quiet after c1 quiet)) only) was_read refl) [
        | inl same ↦ same
        | inr earlier ↦ absurd (omega (arith, late, earlier))
      ]
