-- ===== src/Quorum/Writes.antt =====
-- What a node holds only gets newer.
use labs_for_linux_distribut.Base.{
  ℕ, String, ◌≡◌, Bool, true, false, Option, none, some, List, [], ◌∷◌, ◌∙◌, arith, refl, eq_iff,
  nat_beq_iff, inl, inr, leb, string_eq, nat_eq, ok, contains, Bool-cases, Option-cases,
}
use labs_for_linux_distribut.Base.Dict
use labs_for_linux_distribut.Base.Dict.{Dict, get-put, keys-put}
use labs_for_linux_distribut.Quorum.{Nodes, RegisterNode, VersionedTask, read, write, write_each}

abbrev pub is_at_least : ℕ → Option VersionedTask → Bool
is_at_least t none = false
is_at_least t (some v) = leb t v.version.tick

-- The node holds a version of the tick or a later one.
abbrev pub holds : ℕ → String → RegisterNode → Bool
holds t key n = is_at_least t (read key n)

abbrev pub holds_at : ℕ → String → Nodes → String → Bool
holds_at t key d x = elim (Dict.get d x) [ none ↦ false | some n ↦ holds t key n ]

write-keeps :
    (t : ℕ) (key k : String) (v : VersionedTask) (n : RegisterNode)
    → holds t key n ≡ true
    → holds t key (write k v n) ≡ true
unfolding write
write-keeps t key k v n h = elim (Option-cases (Dict.get n.store k)) [
  | inl e ↦ ground (arith, e, get-put n.store k key v, eq_iff k key)
  | inr (old, e) ↦
      ground (
        arith,
        e,
        get-put n.store k key v,
        eq_iff k key,
        nat_beq_iff old.version.tick v.version.tick,
      )
]

write-holds :
    (key : String) (v : VersionedTask) (n : RegisterNode)
    → holds v.version.tick key (write key v n) ≡ true
unfolding write
write-holds key v n = elim (Option-cases (Dict.get n.store key)) [
  | inl e ↦ ground (arith, e, get-put n.store key key v, eq_iff key key)
  | inr (old, e) ↦ ground (
    arith,
    e,
    get-put n.store key key v,
    eq_iff key key,
    nat_beq_iff old.version.tick v.version.tick,
  )
]

pub record Later (d d' : Nodes) : Type 0 where
  pub same_keys : Dict.keys d' ≡ Dict.keys d
  pub kept : (t : ℕ) (key x : String) → holds_at t key d x ≡ true → holds_at t key d' x ≡ true

pub Later-refl : (d : Nodes) → Later d d
Later-refl d = record { same_keys = refl; kept = λ t key x h. h }

pub Later-trans : {a b c : Nodes} → Later a b → Later b c → Later a c
Later-trans p q = record {
  same_keys = q.same_keys ∙ p.same_keys;
  kept = λ t key x h. q.kept t key x (p.kept t key x h);
}

put-Later :
    (k : String) (v : VersionedTask) (d : Nodes) (id : String) (n : RegisterNode)
    → Dict.get d id ≡ some n
    → Later d (Dict.put d id (write k v n))
put-Later k v d id n e = record {
  same_keys = keys-put d id (write k v n) n e;
  kept = λ t key x h.
      ground (arith, e, get-put d id x (write k v n), eq_iff id x, write-keeps t key k v n);
}

pub write_each-Later :
    (k : String) (v : VersionedTask) (ids : List String) (d : Nodes)
    → Later d (write_each k v ids d).1
unfolding write_each
write_each-Later k v [] d = Later-refl d
write_each-Later k v (id ∷ ids) d = elim (Option-cases (Dict.get d id)) [
  | inl e ↦ rw (e, write_each) (Later-refl d)
  | inr (n, e) ↦
      rw (e, write_each)
        (Later-trans (put-Later k v d id n e)
          (write_each-Later k v ids (Dict.put d id (write k v n))))
]

-- Each node of a write that returns holds the value afterwards, or a newer one.
pub write_each-holds :
    (k : String) (v : VersionedTask) (ids : List String) (d : Nodes) (b : Bool) (x : String)
    → (write_each k v ids d).0 ≡ ok b
    → contains ids x ≡ true
    → holds_at v.version.tick k (write_each k v ids d).1 x ≡ true
unfolding write_each
write_each-holds k v [] d b x done here = cc
write_each-holds k v (id ∷ ids) d b x done here = elim (Option-cases (Dict.get d id)) [
  | inl e ↦ absurd (ground (arith, e))
  | inr (n, e) ↦
      let d1 = Dict.put d id (write k v n) in
      elim (Bool-cases (contains ids x)) [
        | inl later ↦ rw (e, write_each) (write_each-holds k v ids d1 b x (ground (arith, e)) later)
        | inr now ↦
            rw (e, write_each)
              ((write_each-Later k v ids d1).kept v.version.tick k x
                (ground (arith, get-put d id x (write k v n), eq_iff id x, write-holds k v n)))
      ]
]
