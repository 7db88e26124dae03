-- ===== src/Replica/Peers.antt =====
-- Which nodes `_reachable_peers` of labs/25-replicated-log returns.
use labs_for_linux_distribut.Base.{
  String, ◌≡◌, true, false, some, List, [], ◌∷◌, arith, refl, ap, subst, ◌∙◌, inl, inr, eq_iff,
  contains, ok, Bool-cases, Option-cases, Result-cases, string_eq,
}
use labs_for_linux_distribut.Base.Dict
use labs_for_linux_distribut.Base.Dict.{get-put, keys-put, get-contains, contains-get}
use labs_for_linux_distribut.Replica.{Node}
use labs_for_linux_distribut.Replica.Cluster.{Nodes, running_peers}

-- A running peer is another node, and the table holds it.
pub running_peers-known :
    (id : String) (group : List String) (d : Nodes) (peers : List String) (x : String)
    → running_peers id group d ≡ ok peers
    → contains peers x ≡ true
    → (string_eq.beq id x ≡ false) × (contains (Dict.keys d) x ≡ true)
unfolding running_peers
running_peers-known id [] d peers x h here = absurd (ground arith)
running_peers-known id (y ∷ group) d peers x h here = elim (Bool-cases (string_eq.beq y id)) [
  | inl self ↦ running_peers-known id group d peers x (ground (arith, self)) here
  | inr other ↦ elim (Option-cases (Dict.get d y)) [
    | inl e ↦ absurd (ground (arith, other, e))
    | inr (n, e) ↦ elim (Result-cases (running_peers id group d)) [
      | inr (z, f) ↦ absurd (ground (arith, other, e, f))
      | inl (ids, f) ↦
          let later = running_peers-known id group d ids x f in
          elim (Bool-cases (contains ids x)) [
            | inl inside ↦ later inside
            | inr outside ↦
                let same : y ≡ x = ground (arith, other, e, f, here, outside, eq_iff y x) in
                subst (λ z. (string_eq.beq id z ≡ false) × (contains (Dict.keys d) z ≡ true)) same
                  (ground (arith, eq_iff y id, eq_iff id y, other), get-contains d y n e)
          ]
    ]
  ]
]

-- The running nodes of the group other than the node itself, when the table holds the group.
pub running_peers-ok :
    (id : String) (group : List String) (d : Nodes)
    → ((y : String) → contains group y ≡ true → contains (Dict.keys d) y ≡ true)
    → (peers : List String) × (running_peers id group d ≡ ok peers)
unfolding running_peers
running_peers-ok id [] d known = ([], refl)
running_peers-ok id (y ∷ group) d known =
    let (peers, rest) = running_peers-ok id group d (λ z h. known z (ground (arith, h))) in
    let (n, here) = contains-get d y (known y (ground (arith, eq_iff y y))) in
    elim (Bool-cases (string_eq.beq y id)) [
      | inl self ↦ (peers, ground (arith, self, rest))
      | inr other ↦ elim (Bool-cases n.running) [
        | inl up ↦ (y ∷ peers, ground (arith, other, rest, here, up))
        | inr down ↦ (peers, ground (arith, other, rest, here, down))
      ]
    ]

pub running_peers-contains :
    (id : String) (group : List String) (d : Nodes) (peers : List String) (x : String) (m : Node)
    → running_peers id group d ≡ ok peers
    → contains group x ≡ true
    → string_eq.beq x id ≡ false
    → Dict.get d x ≡ some m
    → m.running ≡ true
    → contains peers x ≡ true
unfolding running_peers
running_peers-contains id [] d peers x m listed here other found up = absurd cc
running_peers-contains id (y ∷ group) d peers x m listed here other found up =
    elim (Result-cases (running_peers id group d)) [
      | inr (z, f) ↦ elim (Bool-cases (string_eq.beq y id)) [
        | inl self ↦ absurd (ground (arith, self, f, listed))
        | inr not_self ↦ elim (Option-cases (Dict.get d y)) [
          | inl e ↦ absurd (ground (arith, not_self, e, listed))
          | inr (n, e) ↦ absurd (ground (arith, not_self, e, f, listed))
        ]
      ]
      | inl (ids, f) ↦
          let later = running_peers-contains id group d ids x m f in
          elim (Bool-cases (string_eq.beq y x)) [
            | inl same ↦
                let equal = (eq_iff y x).0 same in
                let own : Dict.get d y ≡ some m = ap (Dict.get d) equal ∙ found in
                let not_self : string_eq.beq y id ≡ false =
                  ap (λ k. string_eq.beq k id) equal ∙ other in
                let whole : y ∷ ids ≡ peers = ground (arith, not_self, own, f, up, listed) in
                subst (λ ps. contains ps x ≡ true) whole (ground (arith, same))
            | inr differs ↦
                let inside = later (ground (arith, differs, here)) other found up in
                elim (Bool-cases (string_eq.beq y id)) [
                  | inl self ↦
                      let whole : ids ≡ peers = ground (arith, self, f, listed) in
                      subst (λ ps. contains ps x ≡ true) whole inside
                  | inr not_self ↦ elim (Option-cases (Dict.get d y)) [
                    | inl e ↦ absurd (ground (arith, not_self, e, listed))
                    | inr (n, e) ↦ elim (Bool-cases n.running) [
                      | inl runs ↦
                          let whole : y ∷ ids ≡ peers =
                            ground (arith, not_self, e, f, runs, listed) in
                          subst (λ ps. contains ps x ≡ true) whole (ground (arith, inside))
                      | inr down ↦
                          let whole : ids ≡ peers = ground (arith, not_self, e, f, down, listed) in
                          subst (λ ps. contains ps x ≡ true) whole inside
                    ]
                  ]
                ]
          ]
    ]
