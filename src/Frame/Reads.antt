-- ===== src/Frame/Reads.antt =====
-- A read takes bytes off the head of the queue.
use mathlib.Core.List.{append-nil, append_assoc}
use native.Mathlib.Nat.{mod-lt}
use labs_for_linux_distribut.Base.{
  ℕ, ◌+◌, ◌-◌, ◌%◌, ◌≤◌, ◌<◌, ◌≡◌, true, false, List, [], ◌∷◌, ◌++◌, arith, refl, sym, ap, subst,
  ◌∙◌, inl, inr, min, ltb, ◌==◌, nat_eq, Bool-cases, ok, length, length-append, take, drop,
}
use labs_for_linux_distribut.Frame.Ring.{Ring, capacity, slices, peek, moved, read}
use labs_for_linux_distribut.Frame.Layout.{
  Layout, flat, wrapped, Holds, take-append, drop-append, split_at, mod_small, mod_once, take-whole,
  length-append3,
}

-- The read returns the first bytes of the queue, and a ring of the same capacity that holds the others.
abbrev pub WasRead : Ring → List ℕ → ℕ → Type 0
WasRead r q n =
    (l : List ℕ) × (m : List ℕ) × (t : Ring) × (q ≡ l ++ m)
    × (length l ≡ n)
    × (read n r ≡ ok (l, t))
    × Holds t m
    × (capacity t ≡ capacity r)

read-ok :
    (n : ℕ) (r : Ring) (l : List ℕ)
    → n ≤ r.size
    → r.head < capacity r
    → slices r.head (min n (capacity r - r.head)) n r.storage ≡ l
    → read n r ≡ ok (l, moved n r)
unfolding read peek
read-ok n r l fits inside e =
    let enough : ltb r.size (0 + n) ≡ false = ground (arith, fits) in
    let start : (r.head + 0) % capacity r ≡ r.head =
      mod_small (r.head + 0) (capacity r) (omega (arith, inside)) ∙ omega arith in
    rw (enough, start, e) refl

-- Where the head of the ring is after a read that leaves bytes.
abbrev next_head : ℕ → Ring → ℕ
next_head n r = (r.head + n) % capacity r

moved-Holds :
    (n : ℕ) (r : Ring) (m : List ℕ)
    → r.head < capacity r
    → r.size ≡ n + length m
    → (1 ≤ length m → Layout (record r { head = next_head n r; size = r.size - n }) m)
    → Holds (moved n r) m
moved-Holds n r [] inside sized layout_ =
    let none_left : (r.size - n == 0) ≡ true = ground (arith, sized) in
    rw (none_left) (record {
      inside = omega (arith, inside);
      sized = omega (arith, sized);
      layout = flat [] r.storage refl refl;
    })
moved-Holds n r (x ∷ m) inside sized layout_ =
    let some_left : (r.size - n == 0) ≡ false = ground (arith, sized) in
    rw (some_left) (record {
      inside = mod-lt (r.head + n) (omega (arith, inside));
      sized = omega (arith, sized);
      layout = layout_ (omega arith);
    })

read-flat :
    (n : ℕ) (l m a b : List ℕ) (r : Ring)
    → Holds r (l ++ m)
    → length l ≡ n
    → r.storage ≡ a ++ (l ++ m) ++ b
    → r.head ≡ length a
    → WasRead r (l ++ m) n
read-flat n l m a b r held len s at_ =
    let whole = ap length s ∙ length-append3 a (l ++ m) b in
    let parts = length-append l m in
    let first : min n (capacity r - r.head) ≡ n = ground (arith, whole, at_, parts, len) in
    let cut : r.storage ≡ a ++ (l ++ (m ++ b)) = s ∙ simp append_assoc in
    let start : drop r.head r.storage ≡ l ++ (m ++ b) =
      ap (drop r.head) cut ∙ drop-append r.head a (l ++ (m ++ b)) (sym at_) in
    let rest : n - n ≡ 0 = omega arith in
    let out : slices r.head (min n (capacity r - r.head)) n r.storage ≡ l =
      rw (first, start, take-append n l (m ++ b) len, rest) (append-nil l) in
    (
      l,
      m,
      moved n r,
      refl,
      len,
      read-ok n r l (omega (arith, held.sized, parts, len)) held.inside out,
      moved-Holds n r m held.inside (omega (arith, held.sized, parts, len)) (λ more.
          flat (a ++ l) b (s ∙ simp append_assoc) (
            mod_small (r.head + n) (capacity r) (omega (arith, whole, at_, parts, len, more))
            ∙ omega (arith, length-append a l, at_, len))),
      refl,
    )

-- The bytes are all in the first of the two runs, and do not empty it.
read-first_run :
    (n : ℕ) (l k q2 b : List ℕ) (r : Ring)
    → Holds r (l ++ k ++ q2)
    → length l ≡ n
    → 1 ≤ length k
    → r.storage ≡ q2 ++ b ++ (l ++ k)
    → r.head ≡ length q2 + length b
    → WasRead r (l ++ k ++ q2) n
read-first_run n l k q2 b r held len more s at_ =
    let whole = ap length s ∙ length-append3 q2 b (l ++ k) in
    let parts = length-append l k in
    let all = length-append3 l k q2 in
    let first : min n (capacity r - r.head) ≡ n = ground (arith, whole, at_, parts, len) in
    let start : drop r.head r.storage ≡ l ++ k =
      ap (drop r.head) s
      ∙ drop-append r.head (q2 ++ b) (l ++ k) (omega (arith, length-append q2 b, at_)) in
    let rest : n - n ≡ 0 = omega arith in
    let out : slices r.head (min n (capacity r - r.head)) n r.storage ≡ l =
      rw (first, start, take-append n l k len, rest) (append-nil l) in
    (
      l,
      k ++ q2,
      moved n r,
      append_assoc l k q2,
      len,
      read-ok n r l (omega (arith, held.sized, all, len)) held.inside out,
      moved-Holds n r (k ++ q2) held.inside
          (omega (arith, held.sized, all, len, length-append k q2))
          (λ some_left. wrapped k q2 (b ++ l) refl (s ∙ simp append_assoc) (
            mod_small (r.head + n) (capacity r) (omega (arith, whole, at_, parts, len, more))
            ∙ omega (arith, length-append b l, at_, len))),
      refl,
    )

-- The bytes are the first run and a part of the second.
read-both_runs :
    (n : ℕ) (q1 l m b : List ℕ) (r : Ring)
    → Holds r (q1 ++ (l ++ m))
    → length q1 + length l ≡ n
    → r.storage ≡ (l ++ m) ++ b ++ q1
    → r.head ≡ length (l ++ m) + length b
    → WasRead r (q1 ++ (l ++ m)) n
read-both_runs n q1 l m b r held len s at_ =
    let whole = ap length s ∙ length-append3 (l ++ m) b q1 in
    let parts = length-append l m in
    let all = length-append q1 (l ++ m) in
    let first : min n (capacity r - r.head) ≡ length q1 = ground (arith, whole, at_, parts, len) in
    let start : drop r.head r.storage ≡ q1 =
      ap (drop r.head) s
      ∙ drop-append r.head ((l ++ m) ++ b) q1 (omega (arith, length-append (l ++ m) b, at_)) in
    let cut : r.storage ≡ l ++ (m ++ (b ++ q1)) = s ∙ simp append_assoc in
    let rest : take (n - length q1) r.storage ≡ l =
      ap (take (n - length q1)) cut
      ∙ take-append (n - length q1) l (m ++ (b ++ q1)) (omega (arith, len)) in
    let out : slices r.head (min n (capacity r - r.head)) n r.storage ≡ q1 ++ l =
      rw (first, start, take-whole (length q1) q1 refl, rest) refl in
    (
      q1 ++ l,
      m,
      moved n r,
      simp append_assoc,
      omega (arith, length-append q1 l, len),
      read-ok n r (q1 ++ l) (omega (arith, held.sized, all, parts, len)) held.inside out,
      moved-Holds n r m held.inside (omega (arith, held.sized, all, parts, len)) (λ more.
          flat l (b ++ q1) (s ∙ simp append_assoc) (
            mod_once (r.head + n) (capacity r) (omega (arith, whole, at_, len))
              (omega (arith, whole, at_, len, parts, held.inside))
            ∙ omega (arith, whole, at_, len, parts))),
      refl,
    )

-- A read of bytes that are there takes them off the head.
pub read-WasRead : (n : ℕ) (q : List ℕ) (r : Ring) → Holds r q → n ≤ length q → WasRead r q n
read-WasRead n q r held fits = go held.layout
  where
    go : Layout r q → WasRead r q n
    go (flat a b s at_) =
        let (l, m, parts, len) = split_at n q fits in
        subst (λ k. WasRead r k n) (sym parts)
          (read-flat n l m a b r (subst (Holds r) parts held) len (s ∙ ap (λ k. a ++ k ++ b) parts)
            at_)
    go (wrapped q1 q2 b parts s at_) = elim (Bool-cases (ltb n (length q1))) [
      | inl few ↦
          let (l, k, cut, len) = split_at n q1 (ground (arith, few)) in
          let whole : q ≡ l ++ k ++ q2 = parts ∙ ap (λ p. p ++ q2) cut in
          subst (λ p. WasRead r p n) (sym whole)
            (read-first_run n l k q2 b r (subst (Holds r) whole held) len
              (ground (arith, few, ap length cut, length-append l k, len))
              (s ∙ ap (λ p. q2 ++ b ++ p) cut) at_)
      | inr many ↦
          let sizes = ap length parts ∙ length-append q1 q2 in
          let (l, m, cut, len) = split_at (n - length q1) q2 (omega (arith, sizes, fits)) in
          let whole : q ≡ q1 ++ (l ++ m) = parts ∙ ap (λ p. q1 ++ p) cut in
          subst (λ p. WasRead r p n) (sym whole)
            (read-both_runs n q1 l m b r (subst (Holds r) whole held) (ground (arith, len, many))
              (s ∙ ap (λ p. p ++ b ++ q1) cut) (at_ ∙ ap (λ p. length p + length b) cut))
    ]
