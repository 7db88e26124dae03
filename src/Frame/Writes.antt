-- ===== src/Frame/Writes.antt =====
-- A write appends its bytes to the queue.
use mathlib.Core.List.{append-nil, append_assoc}
use native.Mathlib.Nat.{mod_self}
use labs_for_linux_distribut.Base.{
  ℕ, ◌+◌, ◌-◌, ◌%◌, ◌≤◌, ◌≡◌, false, List, [], ◌∷◌, ◌++◌, arith, refl, sym, ap, subst, ◌∙◌, inl,
  inr, min, ltb, nat_eq, Bool-cases, ok, length, length-append, take, drop,
}
use labs_for_linux_distribut.Frame.Ring.{Ring, capacity, free, overwrite, put_at, write}
use labs_for_linux_distribut.Frame.Layout.{
  Layout, flat, wrapped, Holds, take-append, drop-append, split_at, mod_small, mod_once, take-whole,
  drop-whole, length-append3,
}

overwrite-middle :
    (at_ : ℕ) (p m e raw : List ℕ)
    → length p ≡ at_
    → length m ≡ length raw
    → overwrite at_ raw (p ++ (m ++ e)) ≡ p ++ (raw ++ e)
unfolding overwrite
overwrite-middle at_ p m e raw hp hm =
    let before : take at_ (p ++ (m ++ e)) ≡ p = take-append at_ p (m ++ e) hp in
    let after : drop (at_ + length raw) (p ++ (m ++ e)) ≡ e =
      ap (drop (at_ + length raw)) (sym (append_assoc p m e))
      ∙ drop-append (at_ + length raw) (p ++ m) e (omega (arith, length-append p m, hp, hm)) in
    rw (before, after) (append_assoc p raw e)

overwrite-nothing : (s : List ℕ) → overwrite 0 [] s ≡ s
unfolding overwrite
overwrite-nothing s = refl

write-ok :
    (raw : List ℕ) (r : Ring) (tail first : ℕ)
    → length raw ≤ free r
    → (r.head + r.size) % capacity r ≡ tail
    → min (length raw) (capacity r - tail) ≡ first
    → write raw r ≡ ok (put_at tail first raw r)
unfolding write
write-ok raw r tail first fits e f =
    let room : ltb (free r) (length raw) ≡ false = ground (arith, fits) in
    subst (λ t. min (length raw) (capacity r - t) ≡ first → write raw r ≡ ok (put_at t first raw r))
      e (λ g. rw (room, g) refl) f

abbrev stored : List ℕ → List ℕ → Ring → Ring
stored storage raw r = record r { storage = storage; size = r.size + length raw }

-- A write in one piece, over the middle of the storage.
write-one :
    (raw p m e : List ℕ) (r : Ring)
    → r.storage ≡ p ++ (m ++ e)
    → (r.head + r.size) % capacity r ≡ length p
    → length m ≡ length raw
    → length raw ≤ free r
    → write raw r ≡ ok (stored (p ++ (raw ++ e)) raw r)
write-one raw p m e r s tail same fits =
    let n = length raw in
    let whole = ap length s ∙ length-append p (m ++ e) in
    let first : min n (capacity r - length p) ≡ n =
      ground (arith, whole, length-append m e, same) in
    let written =
      ap (overwrite (length p) raw) s ∙ overwrite-middle (length p) p m e raw refl same in
    write-ok raw r (length p) n fits tail first
    ∙ rw
        (
          take-whole n raw refl,
          drop-whole n raw refl,
          overwrite-nothing (overwrite (length p) raw r.storage),
          written,
        )
        refl

-- A write in two pieces, over the end of the storage and then over its start.
write-two :
    (raw1 raw2 m e l : List ℕ) (r : Ring)
    → r.storage ≡ (m ++ e) ++ l
    → (r.head + r.size) % capacity r ≡ length (m ++ e)
    → length l ≡ length raw1
    → length m ≡ length raw2
    → length (raw1 ++ raw2) ≤ free r
    → write (raw1 ++ raw2) r ≡ ok (stored (raw2 ++ (e ++ raw1)) (raw1 ++ raw2) r)
write-two raw1 raw2 m e l r s tail ends starts fits =
    let n = length raw1 in
    let raw = raw1 ++ raw2 in
    let p = m ++ e in
    let whole = ap length s ∙ length-append p l in
    let both = length-append raw1 raw2 in
    let first : min (length raw) (capacity r - length p) ≡ n = ground (arith, whole, both, ends) in
    let cut : r.storage ≡ p ++ (l ++ []) = s ∙ ap (λ k. p ++ k) (sym (append-nil l)) in
    let at_end : overwrite (length p) raw1 r.storage ≡ [] ++ (m ++ (e ++ raw1)) =
      ap (overwrite (length p) raw1) cut
      ∙ overwrite-middle (length p) p l [] raw1 refl ends
      ∙ simp (append_assoc, append-nil) in
    let at_start : overwrite 0 raw2 ([] ++ (m ++ (e ++ raw1))) ≡ raw2 ++ (e ++ raw1) =
      overwrite-middle 0 [] m (e ++ raw1) raw2 refl starts in
    write-ok raw r (length p) n fits tail first
    ∙ rw (take-append n raw1 raw2 refl, drop-append n raw1 raw2 refl, at_end, at_start) refl

-- The write returns a ring of the same capacity that holds the bytes as well.
abbrev pub Written : Ring → List ℕ → List ℕ → Type 0
Written r q raw = (t : Ring) × (write raw r ≡ ok t) × Holds t (q ++ raw) × (capacity t ≡ capacity r)

write-wrapped :
    (raw q q1 q2 b : List ℕ) (r : Ring)
    → Holds r q
    → q ≡ q1 ++ q2
    → r.storage ≡ q2 ++ b ++ q1
    → r.head ≡ length q2 + length b
    → length raw ≤ free r
    → Written r q raw
write-wrapped raw q q1 q2 b r held parts s at_ fits =
    let whole = ap length s ∙ length-append3 q2 b q1 in
    let sizes = held.sized ∙ ap length parts ∙ length-append q1 q2 in
    let (m, e, b_parts, len) = split_at (length raw) b (omega (arith, fits, whole, sizes)) in
    let cut : r.storage ≡ q2 ++ (m ++ (e ++ q1)) =
      s ∙ ap (λ k. q2 ++ k ++ q1) b_parts ∙ simp append_assoc in
    let tail : (r.head + r.size) % capacity r ≡ length q2 =
      mod_once (r.head + r.size) (capacity r) (omega (arith, whole, sizes, at_))
        (omega (arith, whole, sizes, at_, held.inside))
      ∙ omega (arith, whole, sizes, at_) in
    let split = ap length b_parts ∙ length-append m e in
    let longer = length-append3 (q2 ++ raw) e q1 in
    let both = length-append q2 raw in
    let after : q2 ++ (raw ++ (e ++ q1)) ≡ (q2 ++ raw) ++ e ++ q1 = simp append_assoc in
    let same_length = ap length after in
    (
      stored (q2 ++ (raw ++ (e ++ q1))) raw r,
      write-one raw q2 m (e ++ q1) r cut tail len fits,
      record {
        inside = omega (arith, held.inside, whole, longer, both, split, len, same_length);
        sized = omega (arith, held.sized, length-append q raw);
        layout =
            wrapped q1 (q2 ++ raw) e (ap (λ k. k ++ raw) parts ∙ append_assoc q1 q2 raw) after
              (omega (arith, at_, both, split, len));
      },
      omega (arith, whole, longer, both, split, len, same_length),
    )

-- The free part ends with the storage: the write goes on at the start.
write-at_start :
    (raw q a : List ℕ) (r : Ring)
    → Holds r q
    → r.storage ≡ a ++ q
    → r.head ≡ length a
    → length raw ≤ free r
    → Written r q raw
write-at_start raw q a r held s at_ fits =
    let whole = ap length s ∙ length-append a q in
    let (m, e, a_parts, len) = split_at (length raw) a (omega (arith, fits, whole, held.sized)) in
    let cut : r.storage ≡ [] ++ (m ++ (e ++ q)) =
      s ∙ ap (λ k. k ++ q) a_parts ∙ simp append_assoc in
    let all_used : r.head + r.size ≡ capacity r = omega (arith, whole, at_, held.sized) in
    let tail : (r.head + r.size) % capacity r ≡ 0 =
      ap (λ k. k % capacity r) all_used ∙ mod_self (capacity r) in
    let split = ap length a_parts ∙ length-append m e in
    let longer = length-append3 raw e q in
    let after : [] ++ (raw ++ (e ++ q)) ≡ raw ++ e ++ q = simp append_assoc in
    let same_length = ap length after in
    (
      stored ([] ++ (raw ++ (e ++ q))) raw r,
      write-one raw [] m (e ++ q) r cut tail len fits,
      record {
        inside = omega (arith, held.inside, whole, longer, split, len, same_length);
        sized = omega (arith, held.sized, length-append q raw);
        layout = wrapped q raw e refl after (omega (arith, at_, split, len));
      },
      omega (arith, whole, longer, split, len, same_length),
    )

write-flat :
    (raw q a b : List ℕ) (r : Ring)
    → Holds r q
    → r.storage ≡ a ++ q ++ b
    → r.head ≡ length a
    → 1 ≤ length b
    → length raw ≤ length b
    → Written r q raw
write-flat raw q a b r held s at_ more fits =
    let whole = ap length s ∙ length-append3 a q b in
    let (m, e, b_parts, len) = split_at (length raw) b fits in
    let cut : r.storage ≡ (a ++ q) ++ (m ++ e) = s ∙ ap (λ k. a ++ q ++ k) b_parts in
    let before = length-append a q in
    let tail : (r.head + r.size) % capacity r ≡ length (a ++ q) =
      mod_small (r.head + r.size) (capacity r) (omega (arith, whole, at_, held.sized, more))
      ∙ omega (arith, before, at_, held.sized) in
    let split = ap length b_parts ∙ length-append m e in
    let after : (a ++ q) ++ (raw ++ e) ≡ a ++ (q ++ raw) ++ e = simp append_assoc in
    let longer = length-append (a ++ q) (raw ++ e) in
    let rest = length-append raw e in
    (
      stored ((a ++ q) ++ (raw ++ e)) raw r,
      write-one raw (a ++ q) m e r cut tail len (omega (arith, fits, whole, held.sized)),
      record {
        inside = omega (arith, held.inside, whole, longer, before, rest, split, len);
        sized = omega (arith, held.sized, length-append q raw);
        layout = flat a e after at_;
      },
      omega (arith, whole, longer, before, rest, split, len),
    )

write-around :
    (raw1 raw2 q a b : List ℕ) (r : Ring)
    → Holds r q
    → r.storage ≡ a ++ q ++ b
    → r.head ≡ length a
    → 1 ≤ length b
    → length b ≡ length raw1
    → length (raw1 ++ raw2) ≤ free r
    → Written r q (raw1 ++ raw2)
write-around raw1 raw2 q a b r held s at_ more ends fits =
    let whole = ap length s ∙ length-append3 a q b in
    let both = length-append raw1 raw2 in
    let (m, e, a_parts, len) =
      split_at (length raw2) a (omega (arith, fits, both, ends, whole, held.sized)) in
    let cut : r.storage ≡ (m ++ (e ++ q)) ++ b =
      s ∙ ap (λ k. k ++ q ++ b) a_parts ∙ simp append_assoc in
    let split = ap length a_parts ∙ length-append m e in
    let before = length-append m (e ++ q) in
    let inner = length-append e q in
    let tail : (r.head + r.size) % capacity r ≡ length (m ++ (e ++ q)) =
      mod_small (r.head + r.size) (capacity r) (omega (arith, whole, at_, held.sized, more))
      ∙ omega (arith, before, inner, split, at_, held.sized) in
    let after : raw2 ++ (e ++ q ++ raw1) ≡ raw2 ++ e ++ (q ++ raw1) = simp append_assoc in
    let longer = length-append3 raw2 e (q ++ raw1) in
    let rest = length-append q raw1 in
    let same_length = ap length after in
    (
      stored (raw2 ++ (e ++ q ++ raw1)) (raw1 ++ raw2) r,
      write-two raw1 raw2 m (e ++ q) b r cut tail ends len fits,
      record {
        inside = omega (arith, held.inside, whole, longer, rest, split, len, ends, same_length);
        sized = omega (arith, held.sized, length-append q (raw1 ++ raw2));
        layout =
            wrapped (q ++ raw1) raw2 e (simp append_assoc) after (omega (arith, at_, split, len));
      },
      omega (arith, whole, longer, rest, split, len, ends, same_length),
    )

-- A write that fits appends its bytes.
pub write-Written : (raw q : List ℕ) (r : Ring) → Holds r q → length raw ≤ free r → Written r q raw
write-Written raw q r held fits = go held.layout
  where
    go : Layout r q → Written r q raw
    go (wrapped q1 q2 b parts s at_) = write-wrapped raw q q1 q2 b r held parts s at_ fits
    go (flat a [] s at_) = write-at_start raw q a r held (s ∙ append-nil (a ++ q)) at_ fits
    go (flat a (x ∷ b) s at_) = elim (Bool-cases (ltb (length (x ∷ b)) (length raw))) [
      | inr short ↦ write-flat raw q a (x ∷ b) r held s at_ (omega arith) (ground (arith, short))
      | inl long ↦
          let (raw1, raw2, parts, len) = split_at (length (x ∷ b)) raw (ground (arith, long)) in
          subst (Written r q) (sym parts) (
            write-around raw1 raw2 q a (x ∷ b) r held s at_ (omega arith) (sym len)
              (subst (λ k. length k ≤ free r) parts fits))
    ]
