-- ===== src/Base/Int.antt =====
-- Python's integers where the code tests the sign of an argument. `negsuc n` is -(n + 1).
use Prim.Native.Nat.{ℕ, zero, suc, ◌≤◌}
use mathlib.Core.Path.{◌≡◌}
use mathlib.Core.Logic.{◌↔◌}
use mathlib.Core.Bool.{Bool, true, false}
use mathlib.Core.Option.{Option, none, some}
use native.Mathlib.Omega.{arith}
use labs_for_linux_distribut.Base.Tests.{Eq, ltb, leb, ◌==◌, nat_eq, nat_beq_iff}

pub data ℤ : Type 0 where
  pos : ℕ → ℤ
  negsuc : ℕ → ℤ

-- The integer as a natural number, if it is at least 0.
abbrev pub nonnegative : ℤ → Option ℕ
nonnegative (pos n) = some n
nonnegative (negsuc n) = none

-- The integer as a natural number, if it is at least 1.
abbrev pub positive : ℤ → Option ℕ
positive (pos zero) = none
positive (pos (suc n)) = some (suc n)
positive (negsuc n) = none

abbrev pub int_beq : ℤ → ℤ → Bool
int_beq (pos a) (pos b) = a == b
int_beq (negsuc a) (negsuc b) = a == b
int_beq _ _ = false

pub int_beq_iff : (a b : ℤ) → (int_beq a b ≡ true) ↔ (a ≡ b)
int_beq_iff (pos a) (pos b) =
    (λ h. ground (arith, nat_beq_iff a b), λ h. ground (arith, nat_beq_iff a b))
int_beq_iff (negsuc a) (negsuc b) =
    (λ h. ground (arith, nat_beq_iff a b), λ h. ground (arith, nat_beq_iff a b))
int_beq_iff (pos a) (negsuc b) = (λ h. cc, λ h. cc)
int_beq_iff (negsuc a) (pos b) = (λ h. cc, λ h. cc)

instance abbrev pub int_eq : Eq ℤ
int_eq = record { beq = int_beq; beq_iff = int_beq_iff }

-- `count >= z`
abbrev pub reaches : ℕ → ℤ → Bool
reaches count (pos n) = leb n count
reaches count (negsuc n) = true

abbrev pub int_ltb : ℤ → ℤ → Bool
int_ltb (pos a) (pos b) = ltb a b
int_ltb (pos a) (negsuc b) = false
int_ltb (negsuc a) (pos b) = true
int_ltb (negsuc a) (negsuc b) = ltb b a

-- `max(0, z)`
abbrev pub to_nat : ℤ → ℕ
to_nat (pos n) = n
to_nat (negsuc n) = 0

pub positive-le : (z : ℤ) (n : ℕ) → positive z ≡ some n → 1 ≤ n
positive-le (pos zero) n h = absurd cc
positive-le (pos (suc m)) n h = let e : suc m ≡ n = cc in omega (arith, e)
positive-le (negsuc m) n h = absurd cc
