-- ===== src/Replica/Applied.antt =====
-- The state machine of a node is what its log makes of the empty one.
use labs_for_linux_distribut.Base.{
  ℕ, zero, suc, ◌+◌, ◌-◌, ◌≤◌, ◌≡◌, List, [], ◌∷◌, ◌++◌, arith, refl, sym, ap, subst, ◌∙◌, inl, inr,
  ltb, leb, length, take, drop, min, Bool-cases,
}
use labs_for_linux_distribut.Replica.{
  Node, LogEntry, Progress, blank, apply_entry, apply_each, apply_committed_entries,
  rebuild_state_machine, with_log, replace_log,
}
use labs_for_linux_distribut.Replica.Prefix.{replace_log-eq}

apply_each-append :
    (xs ys : List LogEntry) (p : Progress)
    → apply_each (xs ++ ys) p ≡ apply_each ys (apply_each xs p)
unfolding apply_each
apply_each-append [] ys p = refl
apply_each-append (x ∷ xs) ys p = apply_each-append xs ys (apply_entry x p)

last_applied-apply_each :
    (xs : List LogEntry) (p : Progress)
    → (apply_each xs p).last_applied ≡ p.last_applied + length xs
unfolding apply_each
last_applied-apply_each [] p = omega arith
last_applied-apply_each (x ∷ xs) p =
    last_applied-apply_each xs (apply_entry x p) ∙ (unfold apply_entry in omega arith)

take-add : (a b : ℕ) (xs : List LogEntry) → take a xs ++ take b (drop a xs) ≡ take (a + b) xs
take-add zero b xs = ap (λ (k : ℕ). take k xs) (omega arith)
take-add (suc a) zero [] = let shift : suc a + 0 ≡ suc (a + 0) = omega arith in rw shift refl
take-add (suc a) (suc b) [] =
    let shift : suc a + suc b ≡ suc (a + suc b) = omega arith in rw shift refl
take-add (suc a) b (x ∷ xs) =
    let shift : suc a + b ≡ suc (a + b) = omega arith in rw shift (ap (◌∷◌ x) (take-add a b xs))

length-take_le : (k : ℕ) (xs : List LogEntry) → k ≤ length xs → length (take k xs) ≡ k
length-take_le zero xs h = refl
length-take_le (suc k) [] h = absurd (omega arith)
length-take_le (suc k) (x ∷ xs) h = omega (arith, length-take_le k xs)

-- What applying the first `last_applied` entries to an empty machine gives is what the node has.
pub record IsReplayed (n : Node) : Type 0 where
  pub within : n.last_applied ≤ length n.log
  pub replayed : apply_each (take n.last_applied n.log) blank ≡ n.progress

pub apply_committed-progress :
    (n : Node)
    → IsReplayed n
    → n.last_applied ≤ n.commit_index
    → (apply_committed_entries n).progress ≡ apply_each (take n.commit_index n.log) blank
unfolding apply_committed_entries
apply_committed-progress n r h =
    let a = n.last_applied in
    let b = n.commit_index - n.last_applied in
    let sum : a + b ≡ n.commit_index = omega (arith, h) in
    ap (apply_each (take b (drop a n.log))) (sym r.replayed)
    ∙ sym (apply_each-append (take a n.log) (take b (drop a n.log)) blank)
    ∙ ap (λ (l : List LogEntry). apply_each l blank) (take-add a b n.log)
    ∙ ap (λ (k : ℕ). apply_each (take k n.log) blank) sum

take_all-IsReplayed :
    (n : Node) (k : ℕ)
    → k ≤ length n.log
    → n.progress ≡ apply_each (take k n.log) blank
    → IsReplayed n × (n.last_applied ≡ k)
take_all-IsReplayed n k h e =
    let applied : n.last_applied ≡ k =
      ap (λ (p : Progress). p.last_applied) e
      ∙ last_applied-apply_each (take k n.log) blank
      ∙ omega (arith, length-take_le k n.log h) in
    (
      record {
        within = omega (arith, applied, h);
        replayed = ap (λ (j : ℕ). apply_each (take j n.log) blank) applied ∙ sym e;
      },
      applied,
    )

pub apply_committed-IsReplayed :
    (n : Node)
    → IsReplayed n
    → n.last_applied ≤ n.commit_index
    → n.commit_index ≤ length n.log
    → IsReplayed (apply_committed_entries n)
      × ((apply_committed_entries n).last_applied ≡ n.commit_index)
apply_committed-IsReplayed n r h fits =
    take_all-IsReplayed (apply_committed_entries n) n.commit_index
      (unfold apply_committed_entries in fits)
      (apply_committed-progress n r h ∙ (unfold apply_committed_entries in refl))

blank-IsReplayed : (n : Node) → n.progress ≡ blank → IsReplayed n
unfolding apply_each
blank-IsReplayed n e =
    let zeroed : n.last_applied ≡ 0 = ap (λ (p : Progress). p.last_applied) e in
    record {
      within = omega (arith, zeroed);
      replayed = ap (λ (j : ℕ). apply_each (take j n.log) blank) zeroed ∙ sym e;
    }

pub rebuild-IsReplayed :
    (n : Node)
    → IsReplayed (rebuild_state_machine n)
      × ((rebuild_state_machine n).last_applied ≡ min n.commit_index (length n.log))
unfolding rebuild_state_machine
rebuild-IsReplayed n =
    let m : Node = record n {
      progress = blank;
      persistent_state = record n.persistent_state {
        commit_index = min n.commit_index (length n.log);
      };
    } in
    apply_committed-IsReplayed m (blank-IsReplayed m refl) (omega arith) (omega arith)

pub same-IsReplayed :
    (n m : Node) → m.log ≡ n.log → m.progress ≡ n.progress → IsReplayed n → IsReplayed m
same-IsReplayed n m same_log same_progress r =
    let applied : m.last_applied ≡ n.last_applied =
      ap (λ (p : Progress). p.last_applied) same_progress in
    record {
      within = omega (arith, applied, ap length same_log, r.within);
      replayed =
          ap (λ (k : ℕ). apply_each (take k m.log) blank) applied
          ∙ ap (λ (l : List LogEntry). apply_each (take n.last_applied l) blank) same_log
          ∙ r.replayed
          ∙ sym same_progress;
    }

-- Also where the commit index lies behind what has been applied: then nothing is applied.
pub apply_committed-keeps :
    (n : Node)
    → IsReplayed n
    → n.commit_index ≤ length n.log
    → IsReplayed (apply_committed_entries n)
      × (n.commit_index ≤ (apply_committed_entries n).last_applied)
apply_committed-keeps n r fits = elim (Bool-cases (leb n.last_applied n.commit_index)) [
  | inl ahead ↦
      let (kept, reached) = apply_committed-IsReplayed n r (ground arith) fits in
      (kept, omega (arith, reached))
  | inr behind ↦
      let nothing : n.commit_index - n.last_applied ≡ 0 = ground arith in
      let same : (apply_committed_entries n).progress ≡ n.progress =
        unfold apply_committed_entries apply_each in
        ap (λ (k : ℕ). apply_each (take k (drop n.last_applied n.log)) n.progress) nothing in
      (
        same-IsReplayed n (apply_committed_entries n) (unfold apply_committed_entries in refl) same
            r,
        let applied = ap (λ (p : Progress). p.last_applied) same in ground (arith, applied),
      )
]

-- The applied entries stand in the new log as well, where it is long enough to hold them.
abbrev pub Agrees : List LogEntry → Node → Type 0
Agrees log n = n.last_applied ≤ length log → take n.last_applied log ≡ take n.last_applied n.log

with_log-IsReplayed :
    (log : List LogEntry) (n : Node)
    → IsReplayed n
    → Agrees log n
    → n.last_applied ≤ (with_log log n).commit_index
    → IsReplayed (with_log log n)
with_log-IsReplayed log n r agrees h =
    let fits : n.last_applied ≤ length log = ground arith in
    record {
      within = fits;
      replayed = ap (λ (l : List LogEntry). apply_each l blank) (agrees fits) ∙ r.replayed;
    }

pub replace_log-IsReplayed :
    (log : List LogEntry) (n : Node)
    → IsReplayed n
    → Agrees log n
    → IsReplayed (replace_log log n) × ((replace_log log n).log ≡ log)
replace_log-IsReplayed log n r agrees =
    let m = with_log log n in
    elim (Bool-cases (ltb m.commit_index m.last_applied)) [
      | inl behind ↦
          let eq : replace_log log n ≡ rebuild_state_machine m =
            rw behind at (replace_log-eq log n) in
          (
            subst IsReplayed (sym eq) (rebuild-IsReplayed m).0,
            ap (λ (k : Node). k.log) eq
                ∙ (unfold rebuild_state_machine apply_committed_entries in refl),
          )
      | inr current ↦
          let eq : replace_log log n ≡ m = rw current at (replace_log-eq log n) in
          (
            subst IsReplayed (sym eq) (with_log-IsReplayed log n r agrees (ground arith)),
            ap (λ (k : Node). k.log) eq,
          )
    ]
