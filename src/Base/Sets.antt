-- ===== src/Base/Sets.antt =====
-- Python's sets as lists without repetition, `sorted` on texts, and counting.
use Prim.Native.Nat.{ℕ, suc, ◌+◌, ◌≤◌, ◌<◌, Ordering}
use Prim.Native.String.{String, compare}
use mathlib.Core.Path.{◌≡◌, refl, ap, ◌∙◌}
use mathlib.Core.Logic.{inl, inr}
use mathlib.Core.Bool.{Bool, true, false, ◌||◌, ◌&&◌, not}
use mathlib.Core.List.{List, [], ◌∷◌, ◌++◌}
use native.Mathlib.Omega.{arith}
use labs_for_linux_distribut.Base.Tests.{Eq, ◌==◌, if◌then◌else◌, Bool-cases, string_eq}
use labs_for_linux_distribut.Base.Lists.{length, contains}

module _ {ℓ} {K : Type ℓ} ⦃e : Eq K⦄ where
  abbrev pub discard : K → List K → List K
  discard x [] = []
  discard x (y ∷ ys) = let rest = discard x ys in if x == y then rest else y ∷ rest

  -- `tuple(dict.fromkeys(xs))`, and the elements of `frozenset(xs)`
  abbrev pub unique : List K → List K
  unique [] = []
  unique (x ∷ xs) = x ∷ discard x (unique xs)

  -- No element occurs twice.
  abbrev pub IsDistinct : List K → Type 0
  IsDistinct [] = Unit
  IsDistinct (x ∷ xs) = (contains xs x ≡ false) × IsDistinct xs

  -- s.add(x)
  abbrev pub add : List K → K → List K
  add xs x = if contains xs x then xs else x ∷ xs

  -- Every element of the first set is in the second.
  abbrev pub subset : List K → List K → Bool
  subset [] ys = true
  subset (x ∷ xs) ys = contains ys x && subset xs ys

  abbrev pub disjoint : List K → List K → Bool
  disjoint [] ys = true
  disjoint (x ∷ xs) ys = not (contains ys x) && disjoint xs ys

  pub contains-discard :
      (x y : K) (ys : List K) → contains (discard x ys) y ≡ (contains ys y && not (x == y))
  contains-discard x y [] = refl
  contains-discard x y (z ∷ ys) =
      ground (arith, contains-discard x y ys, e.beq_iff x z, e.beq_iff z y, e.beq_iff x y)

  discard-IsDistinct : (x : K) (ys : List K) → IsDistinct ys → IsDistinct (discard x ys)
  discard-IsDistinct x [] d = tt
  discard-IsDistinct x (y ∷ ys) d =
      ground (arith, discard-IsDistinct x ys d.1, contains-discard x y ys)

  pub unique-IsDistinct : (xs : List K) → IsDistinct (unique xs)
  unique-IsDistinct [] = tt
  unique-IsDistinct (x ∷ xs) = (
    ground (arith, contains-discard x x (unique xs), e.beq_iff x x),
    discard-IsDistinct x (unique xs) (unique-IsDistinct xs),
  )

  pub contains-unique : (xs : List K) (y : K) → contains (unique xs) y ≡ contains xs y
  contains-unique [] y = refl
  contains-unique (x ∷ xs) y =
      ground (arith, contains-discard x y (unique xs), contains-unique xs y)

  pub contains-append :
      (xs ys : List K) (y : K) → contains (xs ++ ys) y ≡ (contains xs y || contains ys y)
  contains-append [] ys y = refl
  contains-append (x ∷ xs) ys y = ground (arith, contains-append xs ys y)

  pub subset-contains :
      (xs ys : List K) (y : K) → subset xs ys ≡ true → contains xs y ≡ true → contains ys y ≡ true
  subset-contains [] ys y sub here = cc
  subset-contains (x ∷ xs) ys y sub here = ground (arith, subset-contains xs ys y, e.beq_iff x y)

  pub disjoint-contains :
      (xs ys : List K) (y : K)
      → disjoint xs ys ≡ true
      → contains xs y ≡ true
      → contains ys y ≡ false
  disjoint-contains [] ys y dis here = cc
  disjoint-contains (x ∷ xs) ys y dis here =
      ground (arith, disjoint-contains xs ys y, e.beq_iff x y)

  pub add-IsDistinct : (xs : List K) (x : K) → IsDistinct xs → IsDistinct (add xs x)
  add-IsDistinct xs x d = ground arith

abbrev pub text_leb : String → String → Bool
text_leb s t = elim (compare s t) [ Ordering.gt ↦ false | _ ↦ true ]

abbrev pub insert_sorted : String → List String → List String
insert_sorted x [] = x ∷ []
insert_sorted x (y ∷ ys) =
    let rest = insert_sorted x ys in if text_leb x y then x ∷ y ∷ ys else y ∷ rest

-- `sorted(xs)`
abbrev pub sorted : List String → List String
sorted [] = []
sorted (x ∷ xs) = insert_sorted x (sorted xs)

contains-insert_sorted :
    (x y : String) (ys : List String) → contains (insert_sorted x ys) y ≡ (x == y || contains ys y)
contains-insert_sorted x y [] = refl
contains-insert_sorted x y (z ∷ ys) = ground (arith, contains-insert_sorted x y ys)

pub contains-sorted : (xs : List String) (y : String) → contains (sorted xs) y ≡ contains xs y
contains-sorted [] y = refl
contains-sorted (x ∷ xs) y =
    contains-insert_sorted x y (sorted xs) ∙ ap (λ b. x == y || b) (contains-sorted xs y)

insert_sorted-IsDistinct :
    (x : String) (ys : List String)
    → contains ys x ≡ false
    → IsDistinct ys
    → IsDistinct (insert_sorted x ys)
insert_sorted-IsDistinct x [] new d = (refl, tt)
insert_sorted-IsDistinct x (y ∷ ys) new d = ground (
  arith,
  insert_sorted-IsDistinct x ys,
  contains-insert_sorted x y ys,
  string_eq.beq_iff y x,
  string_eq.beq_iff x y,
)

pub sorted-IsDistinct : (xs : List String) → IsDistinct xs → IsDistinct (sorted xs)
sorted-IsDistinct [] d = tt
sorted-IsDistinct (x ∷ xs) d =
    insert_sorted-IsDistinct x (sorted xs) (contains-sorted xs x ∙ d.0) (sorted-IsDistinct xs d.1)

module _ {ℓ} {K : Type ℓ} where
  abbrev pub count : (K → Bool) → List K → ℕ
  count p [] = 0
  count p (x ∷ xs) = if p x then suc (count p xs) else count p xs

  pub count_mono :
      (p q : K → Bool) (xs : List K) → ((x : K) → p x ≡ true → q x ≡ true) → count p xs ≤ count q xs
  count_mono p q [] h = omega arith
  count_mono p q (x ∷ xs) h = ground (arith, count_mono p q xs h, h x)

  -- Two tests that pass often enough pass together somewhere.
  pub count-overlap :
      (p q : K → Bool) (xs : List K)
      → length xs < count p xs + count q xs
      → (x : K) × (p x ≡ true) × (q x ≡ true)
  count-overlap p q [] h = absurd (omega arith)
  count-overlap p q (x ∷ xs) h = elim (Bool-cases (p x && q x)) [
    | inl both ↦ (x, ground arith, ground arith)
    | inr other ↦ count-overlap p q xs (ground arith)
  ]

module _ {ℓ} {K : Type ℓ} ⦃e : Eq K⦄ where
  count-or_beq :
      (x : K) (q : K → Bool) (ys : List K)
      → contains ys x ≡ true
      → q x ≡ false
      → suc (count q ys) ≤ count (λ y. x == y || q y) ys
  count-or_beq x q [] here new = cc
  count-or_beq x q (y ∷ ys) here new = elim (Bool-cases (x == y)) [
    | inl same ↦
        let more = count_mono q (λ z. x == z || q z) ys (λ z h. ground arith) in
        ground (arith, ap q ((e.beq_iff x y).0 same), more)
    | inr other ↦ ground (arith, count-or_beq x q ys, e.beq_iff x y, e.beq_iff y x)
  ]

  -- A set inside a list counts at most as often as the list meets it.
  pub length-le-count :
      (xs ys : List K)
      → IsDistinct xs
      → ((x : K) → contains xs x ≡ true → contains ys x ≡ true)
      → length xs ≤ count (λ y. contains xs y) ys
  length-le-count [] ys d sub = omega arith
  length-le-count (x ∷ xs) ys d sub = omega (
    arith,
    length-le-count xs ys d.1 (λ y h. sub y (ground arith)),
    count-or_beq x (λ y. contains xs y) ys (sub x (ground (arith, e.beq_iff x x))) d.0,
  )
