-- ===== src/Admission/Items.antt =====
-- The soonest message in flight, and the list without it.
use labs_for_linux_distribut.Base.{
  suc, ◌≤◌, ◌≡◌, Bool, true, false, List, [], ◌∷◌, ◌++◌, ◌||◌, ◌⊎◌, arith, refl, sym, ap, subst,
  inl, inr, beq_refl, ltb, if◌then◌else◌, length, All, Bool-cases, string_eq, nat_eq,
}
use labs_for_linux_distribut.Admission.{InflightMessage, item_beq, soonest, remove}

-- Whether the list has an equal message.
abbrev pub holds : InflightMessage → List InflightMessage → Bool
holds item [] = false
holds item (i ∷ is) = item_beq i item || holds item is

pub item_beq_self : (i : InflightMessage) → item_beq i i ≡ true
item_beq_self i =
    unfold item_beq in
    ground (
      arith,
      beq_refl i.message.message_id,
      beq_refl i.message.payload,
      beq_refl i.message.attempts,
      beq_refl i.accepted_at_ms,
      beq_refl i.started_at_ms,
      beq_refl i.completed_at_ms,
    )

soonest-step :
    (best i : InflightMessage) (is : List InflightMessage)
    → ((soonest best (i ∷ is) ≡ soonest i is) × (i.completed_at_ms ≤ best.completed_at_ms))
      ⊎ ((soonest best (i ∷ is) ≡ soonest best is) × (best.completed_at_ms ≤ i.completed_at_ms))
unfolding soonest
soonest-step best i is = elim (Bool-cases (ltb i.completed_at_ms best.completed_at_ms)) [
  | inl sooner ↦ inl (ap (λ b. soonest (if b then i else best) is) sooner, ground (arith, sooner))
  | inr later ↦ inr (ap (λ b. soonest (if b then i else best) is) later, ground (arith, later))
]

pub holds-soonest :
    (best : InflightMessage) (is : List InflightMessage)
    → holds (soonest best is) (best ∷ is) ≡ true
holds-soonest best [] = unfold soonest in ground (arith, item_beq_self best)
holds-soonest best (i ∷ is) = elim (soonest-step best i is) [
  | inl (e, _) ↦
      subst (λ s. holds s (best ∷ i ∷ is) ≡ true) (sym e) (ground (arith, holds-soonest i is))
  | inr (e, _) ↦
      subst (λ s. holds s (best ∷ i ∷ is) ≡ true) (sym e) (ground (arith, holds-soonest best is))
]

pub length-remove :
    (item : InflightMessage) (is : List InflightMessage)
    → holds item is ≡ true
    → suc (length (remove item is)) ≡ length is
unfolding remove
length-remove item [] h = cc
length-remove item (i ∷ is) h = elim (Bool-cases (item_beq i item)) [
  | inl same ↦ rw (same, remove) refl
  | inr other ↦ rw (other, remove) (omega (arith, length-remove item is (ground (arith, other, h))))
]

module _ (P : InflightMessage → Type 0) where
  pub All-remove :
      (item : InflightMessage) (is : List InflightMessage) → All P is → All P (remove item is)
  unfolding remove
  All-remove item [] all = tt
  All-remove item (i ∷ is) all = elim (Bool-cases (item_beq i item)) [
    | inl same ↦ rw (same, remove) all.1
    | inr other ↦ rw (other, remove) (all.0, All-remove item is all.1)
  ]

  pub All-soonest :
      (best : InflightMessage) (is : List InflightMessage) → All P (best ∷ is) → P (soonest best is)
  All-soonest best [] all = unfold soonest in all.0
  All-soonest best (i ∷ is) all = elim (soonest-step best i is) [
    | inl (e, _) ↦ subst P (sym e) (All-soonest i is all.1)
    | inr (e, _) ↦ subst P (sym e) (All-soonest best is (all.0, all.1.1))
  ]

pub All-append_one {ℓ κ} :
    {A : Type ℓ} (P : A → Type κ) (xs : List A) (x : A) → All P xs → P x → All P (xs ++ x ∷ [])
All-append_one P [] x all p = (p, tt)
All-append_one P (y ∷ ys) x all p = (all.0, All-append_one P ys x all.1 p)

pub All_imp {ℓ κ} :
    {A : Type ℓ} (P Q : A → Type κ) (xs : List A) → ((x : A) → P x → Q x) → All P xs → All Q xs
All_imp P Q [] f all = tt
All_imp P Q (x ∷ xs) f all = (f x all.0, All_imp P Q xs f all.1)

-- No message in flight is done before the soonest.
abbrev pub NotBefore : InflightMessage → InflightMessage → Type 0
NotBefore s i = s.completed_at_ms ≤ i.completed_at_ms

pub soonest-le :
    (best : InflightMessage) (is : List InflightMessage)
    → All (NotBefore (soonest best is)) (best ∷ is)
soonest-le best [] = unfold soonest in (omega arith, tt)
soonest-le best (i ∷ is) = elim (soonest-step best i is) [
  | inl (e, sooner) ↦
      let all = soonest-le i is in
      subst (λ s. All (NotBefore s) (best ∷ i ∷ is)) (sym e)
        (omega (arith, sooner, all.0), (all.0, all.1))
  | inr (e, later) ↦
      let all = soonest-le best is in
      subst (λ s. All (NotBefore s) (best ∷ i ∷ is)) (sym e)
        (all.0, (omega (arith, later, all.0), all.1))
]
