-- ===== src/Base/Dict.antt =====
-- Python's `dict`: keys in order of insertion. The entries are private: the other modules have
-- the laws of `dict_laws`.
use mathlib.Core.Path.{◌≡◌, refl}
use mathlib.Core.Option.{Option, none, some}
use mathlib.Core.List.{List, [], ◌∷◌, map}
use native.Mathlib.Omega.{arith}
use mathlib.Core.Bool.{true}
use mathlib.Core.Logic.{inl, inr}
use labs_for_linux_distribut.Base.Tests.{Eq, ◌==◌, if◌then◌else◌, Bool-cases}
use labs_for_linux_distribut.Base.Lists.{contains}

pub record Dict {ℓ κ} (K : Type ℓ) (V : Type κ) : Type (ℓ ⊔ κ) where
  pub entries : List (K × V)

module _ {ℓ κ} {K : Type ℓ} {V : Type κ} ⦃e : Eq K⦄ where
  find : K → List (K × V) → Option V
  find k [] = none
  find k ((j, v) ∷ l) = if j == k then some v else find k l

  write : K → V → List (K × V) → List (K × V)
  write k v [] = (k, v) ∷ []
  write k v ((j, w) ∷ l) = if j == k then (j, v) ∷ l else (j, w) ∷ write k v l

  without : K → List (K × V) → List (K × V)
  without k [] = []
  without k ((j, w) ∷ l) = let rest = without k l in if j == k then rest else (j, w) ∷ rest

  -- d.get(k)
  unfoldable pub get : Dict K V → K → Option V
  unfolding find
  get d k = find k d.entries

  -- d[k] = v keeps the place of a key that is there
  unfoldable pub put : Dict K V → K → V → Dict K V
  unfolding write
  put d k v = record { entries = write k v d.entries }

  -- del d[k], d.pop(k, None)
  unfoldable pub remove : Dict K V → K → Dict K V
  unfolding without
  remove d k = record { entries = without k d.entries }

  find-write :
      (k j : K) (v : V) (l : List (K × V))
      → find j (write k v l) ≡ (if k == j then some v else find j l)
  unfolding find write
  find-write k j v [] = refl
  find-write k j v ((i, w) ∷ l) =
      ground (arith, e.beq_iff k j, e.beq_iff i k, e.beq_iff i j, find-write k j v l)

  find-without :
      (k j : K) (l : List (K × V)) → find j (without k l) ≡ (if k == j then none else find j l)
  unfolding find without
  find-without k j [] = ground arith
  find-without k j ((i, w) ∷ l) =
      ground (arith, e.beq_iff k j, e.beq_iff i k, e.beq_iff i j, find-without k j l)

  pub get-put :
      (d : Dict K V) (k j : K) (v : V) → get (put d k v) j ≡ (if k == j then some v else get d j)
  unfolding get put
  get-put d k j v = find-write k j v d.entries

  pub get-remove :
      (d : Dict K V) (k j : K) → get (remove d k) j ≡ (if k == j then none else get d j)
  unfolding get remove
  get-remove d k j = find-without k j d.entries

abbrev pub empty {ℓ κ} : {K : Type ℓ} {V : Type κ} → Dict K V
empty = record { entries = [] }

pub get-empty {ℓ κ} :
    {K : Type ℓ} {V : Type κ} ⦃e : Eq K⦄ (k : K) → get (empty {K = K} {V = V}) k ≡ none
unfolding get
get-empty k = refl

pub ruleset dict_laws = (get-put, get-remove, get-empty)

-- The keys, in order of insertion.
abbrev pub keys {ℓ κ} : {K : Type ℓ} {V : Type κ} → Dict K V → List K
keys d = map (λ p. p.0) d.entries

-- The values, in the order of their keys.
abbrev pub values {ℓ κ} : {K : Type ℓ} {V : Type κ} → Dict K V → List V
values d = map (λ p. p.1) d.entries

module _ {ℓ κ} {K : Type ℓ} {V : Type κ} ⦃e : Eq K⦄ where
  map-write :
      (k : K) (v w : V) (l : List (K × V))
      → find k l ≡ some w
      → map (λ p. p.0) (write k v l) ≡ map (λ p. p.0) l
  unfolding find write
  map-write k v w [] h = cc
  map-write k v w ((j, u) ∷ l) h = ground (arith, map-write k v w l)

  find-contains :
      (k : K) (l : List (K × V)) (v : V) → find k l ≡ some v → contains (map (λ p. p.0) l) k ≡ true
  unfolding find
  find-contains k [] v h = cc
  find-contains k ((j, u) ∷ l) v h = ground (arith, find-contains k l v)

  contains-find :
      (k : K) (l : List (K × V))
      → contains (map (λ p. p.0) l) k ≡ true
      → (v : V) × (find k l ≡ some v)
  unfolding find
  contains-find k [] h = absurd (cc)
  contains-find k ((j, u) ∷ l) h = elim (Bool-cases (j == k)) [
    | inl here ↦ (u, rw here)
    | inr there ↦ let (v, p) = contains-find k l (ground arith) in (v, rw there p)
  ]

  -- Writing to a key that is there keeps the list of keys.
  pub keys-put : (d : Dict K V) (k : K) (v w : V) → get d k ≡ some w → keys (put d k v) ≡ keys d
  unfolding get put
  keys-put d k v w h = map-write k v w d.entries h

  pub get-contains : (d : Dict K V) (k : K) (v : V) → get d k ≡ some v → contains (keys d) k ≡ true
  unfolding get
  get-contains d k v h = find-contains k d.entries v h

  pub contains-get :
      (d : Dict K V) (k : K) → contains (keys d) k ≡ true → (v : V) × (get d k ≡ some v)
  unfolding get
  contains-get d k h = contains-find k d.entries h
