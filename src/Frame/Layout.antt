-- ===== src/Frame/Layout.antt =====
-- How a queue of bytes stands in the storage of the ring buffer.
use mathlib.Core.List.{append-nil}
use native.Mathlib.Nat.{mod-eq_of_lt, mod-eq-sub-mod}
use labs_for_linux_distribut.Base.{
  ℕ, zero, suc, ◌+◌, ◌-◌, ◌%◌, ◌≤◌, ◌<◌, ◌≡◌, List, [], ◌∷◌, ◌++◌, arith, refl, sym, ap, ◌∙◌,
  nat_eq, length, length-append, take, drop,
}
use labs_for_linux_distribut.Frame.Ring.{zeros, Ring, capacity}

-- In one run, or in two, the first of them at the end.
pub data Layout (r : Ring) (q : List ℕ) : Type 0 where
  flat : (a b : List ℕ) → r.storage ≡ a ++ q ++ b → r.head ≡ length a → Layout r q
  wrapped :
      (q1 q2 b : List ℕ)
      → q ≡ q1 ++ q2
      → r.storage ≡ q2 ++ b ++ q1
      → r.head ≡ length q2 + length b
      → Layout r q

pub record Holds (r : Ring) (q : List ℕ) : Type 0 where
  pub inside : r.head < capacity r
  pub sized : r.size ≡ length q
  pub layout : Layout r q

pub take-append : (n : ℕ) (xs ys : List ℕ) → length xs ≡ n → take n (xs ++ ys) ≡ xs
take-append zero [] ys h = refl
take-append zero (x ∷ xs) ys h = absurd (omega (arith, h))
take-append (suc n) [] ys h = absurd (omega (arith, h))
take-append (suc n) (x ∷ xs) ys h = ap (λ l. x ∷ l) (take-append n xs ys (omega (arith, h)))

pub drop-append : (n : ℕ) (xs ys : List ℕ) → length xs ≡ n → drop n (xs ++ ys) ≡ ys
drop-append zero [] ys h = refl
drop-append zero (x ∷ xs) ys h = absurd (omega (arith, h))
drop-append (suc n) [] ys h = absurd (omega (arith, h))
drop-append (suc n) (x ∷ xs) ys h = drop-append n xs ys (omega (arith, h))

-- Lists split at any length.
pub split_at :
    (n : ℕ) (xs : List ℕ)
    → n ≤ length xs
    → (l : List ℕ) × (m : List ℕ) × (xs ≡ l ++ m) × (length l ≡ n)
split_at zero xs h = ([], xs, refl, refl)
split_at (suc n) [] h = absurd (omega (arith, h))
split_at (suc n) (x ∷ xs) h =
    let (l, m, e, len) = split_at n xs (omega (arith, h)) in
    (x ∷ l, m, ap (λ k. x ∷ k) e, omega (arith, len))

pub mod_small : (n m : ℕ) → n < m → n % m ≡ n
mod_small n m h = mod-eq_of_lt h

pub mod_once : (n m : ℕ) → m ≤ n → n < m + m → n % m ≡ n - m
mod_once n m h k = mod-eq-sub-mod h ∙ mod-eq_of_lt (omega (arith, h, k))

pub take-whole : (n : ℕ) (xs : List ℕ) → length xs ≡ n → take n xs ≡ xs
take-whole n xs h = ap (take n) (sym (append-nil xs)) ∙ take-append n xs [] h

pub drop-whole : (n : ℕ) (xs : List ℕ) → length xs ≡ n → drop n xs ≡ []
drop-whole n xs h = ap (drop n) (sym (append-nil xs)) ∙ drop-append n xs [] h

pub length-append3 : (a b c : List ℕ) → length (a ++ b ++ c) ≡ length a + length b + length c
length-append3 a b c = omega (arith, length-append (a ++ b) c, length-append a b)

pub Holds-le : (r : Ring) (q : List ℕ) → Holds r q → length q ≤ capacity r
Holds-le r q held = go held.layout
  where
    go : Layout r q → length q ≤ capacity r
    go (flat a b s at_) = omega (arith, ap length s, length-append3 a q b)
    go (wrapped q1 q2 b parts s at_) =
        omega (arith, ap length s, length-append3 q2 b q1, ap length parts, length-append q1 q2)

pub length-zeros : (n : ℕ) → length (zeros n) ≡ n
unfolding zeros
length-zeros zero = refl
length-zeros (suc n) = ap suc (length-zeros n)
