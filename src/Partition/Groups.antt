-- ===== src/Partition/Groups.antt =====
-- The groups of a partition that `from_groups` accepts.
use labs_for_linux_distribut.Base.{
  String, ◌≡◌, true, false, ◌⊎◌, List, [], ◌∷◌, ◌++◌, string_eq, Result, ok, contains, unique,
  subset, sorted, arith, refl, IsDistinct, unique-IsDistinct, sorted-IsDistinct, contains-sorted,
  contains-unique, contains-append, subset-contains, disjoint-contains, Bool-cases, inl, inr,
  Result-cases, ap, ◌∙◌, sym,
}
use labs_for_linux_distribut.Partition.{
  PartitionMap, healed, seen_by, from_groups, frozen, covering, group_of, reachable_from,
}

-- The groups that follow hold none of the nodes seen before.
seen-group_of :
    (known : List String) (gs : List (List String)) (seen s r : List String) (n m : String)
    → seen_by known gs seen ≡ ok s
    → group_of gs n ≡ ok r
    → contains r m ≡ true
    → contains seen m ≡ false
unfolding seen_by group_of
seen-group_of known [] seen s r n m h got here = cc
seen-group_of known (g ∷ gs) seen s r n m h got here = ground (
  arith,
  seen-group_of known gs (unique (seen ++ g)) s r n m,
  contains-unique (seen ++ g) m,
  contains-append seen g m,
  contains-sorted g m,
  disjoint-contains g seen m,
)

group_of-same :
    (known : List String) (gs : List (List String)) (seen s r : List String) (n m : String)
    → seen_by known gs seen ≡ ok s
    → group_of gs n ≡ ok r
    → contains r m ≡ true
    → group_of gs m ≡ ok r
unfolding seen_by group_of
group_of-same known [] seen s r n m h got here = cc
group_of-same known (g ∷ gs) seen s r n m h got here = ground (
  arith,
  group_of-same known gs (unique (seen ++ g)) s r n m,
  seen-group_of known gs (unique (seen ++ g)) s r n m,
  contains-unique (seen ++ g) m,
  contains-append seen g m,
  contains-sorted g m,
)

-- Every node that has been seen in the end was there, or stands in a group of its own list.
record Placed (gs : List (List String)) (n : String) : Type 0 where
  group : List String
  found : group_of gs n ≡ ok group
  inside : contains group n ≡ true
  distinct : IsDistinct group

Placed-seen_by :
    (known : List String) (gs : List (List String)) (seen s : List String) (n : String)
    → seen_by known (frozen gs) seen ≡ ok s
    → contains s n ≡ true
    → (contains seen n ≡ true) ⊎ Placed (frozen gs) n
unfolding seen_by
Placed-seen_by known [] seen s n h here = inl (ground arith)
Placed-seen_by known (g ∷ gs) seen s n h here = elim (Bool-cases (contains (unique g) n)) [
  | inl inside ↦ inr (record {
    group = sorted (unique g);
    found = unfold group_of in rw inside refl;
    inside = contains-sorted (unique g) n ∙ inside;
    distinct = sorted-IsDistinct (unique g) (unique-IsDistinct g);
  })
  | inr outside ↦
      elim (Placed-seen_by known gs (unique (seen ++ unique g)) s n (ground arith) here) [
        | inl before ↦ inl (
            ground (arith, contains-unique (seen ++ unique g) n, contains-append seen (unique g) n))
        | inr later ↦ inr (record {
          group = later.group;
          found = unfold group_of in rw outside later.found;
          inside = later.inside;
          distinct = later.distinct;
        })
      ]
]

-- What `reachable_from` promises for a node of the cluster: it returns a group without repetition
-- that holds the node, and the same group for every member.
pub record Reachable (p : PartitionMap) (n : String) : Type 0 where
  pub group : List String
  pub found : reachable_from p n ≡ ok group
  pub inside : contains group n ≡ true
  pub distinct : IsDistinct group
  pub shared : (m : String) → contains group m ≡ true → reachable_from p m ≡ ok group

pub record Accepted (nodes : List String) (groups : List (List String)) (p : PartitionMap)
    : Type 0 where
  seen : List String
  loop : seen_by (unique nodes) (frozen groups) [] ≡ ok seen
  covers : subset (unique nodes) seen ≡ true
  pub built : p.groups ≡ frozen groups

pub from_groups-Accepted :
    (nodes : List String) (groups : List (List String)) (p : PartitionMap)
    → from_groups nodes groups ≡ ok p
    → Accepted nodes groups p
unfolding from_groups
from_groups-Accepted nodes groups p h =
    elim (Result-cases (seen_by (unique nodes) (frozen groups) [])) [
      | inl (s, e) ↦
          let h' : covering (unique nodes) (frozen groups) s ≡ ok p = rw (e, from_groups) at h in
          record { seen = s; loop = e; covers = ground arith; built = ground arith }
      | inr (x, e) ↦ absurd (let h' : Result.raise x ≡ ok p = rw (e, from_groups) at h in cc)
    ]

-- In a partition that `from_groups` accepts, `reachable_from` returns for every node of the
-- cluster; its result has no repetition and holds the node, and every member of it has the very
-- same result. So reachability is an equivalence on the nodes.
pub from_groups-Reachable :
    (nodes : List String) (groups : List (List String)) (p : PartitionMap) (n : String)
    → from_groups nodes groups ≡ ok p
    → contains nodes n ≡ true
    → Reachable p n
unfolding reachable_from
from_groups-Reachable nodes groups p n h member =
    let a = from_groups-Accepted nodes groups p h in
    let in_seen =
      subset-contains (unique nodes) a.seen n a.covers (contains-unique nodes n ∙ member) in
    elim (Placed-seen_by (unique nodes) groups [] a.seen n a.loop in_seen) [
      | inl nowhere ↦ absurd (cc)
      | inr placed ↦ record {
        group = placed.group;
        found = ap (λ gs. group_of gs n) a.built ∙ placed.found;
        inside = placed.inside;
        distinct = placed.distinct;
        shared = λ m here.
            ap (λ gs. group_of gs m) a.built
            ∙ group_of-same (unique nodes) (frozen groups) [] a.seen placed.group n m a.loop
                placed.found here;
      }
    ]

pub healed-Reachable :
    (nodes : List String) (n : String) → contains nodes n ≡ true → Reachable (healed nodes) n
unfolding reachable_from healed
healed-Reachable nodes n member = record {
  group = sorted (unique nodes);
  found = rw (contains-unique nodes n, member) refl;
  inside = contains-sorted (unique nodes) n ∙ contains-unique nodes n ∙ member;
  distinct = sorted-IsDistinct (unique nodes) (unique-IsDistinct nodes);
  shared = λ m here. rw (sym (contains-sorted (unique nodes) m) ∙ here) refl;
}
