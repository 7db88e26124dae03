-- ===== src/Replica/Prefix.antt =====
-- `_replace_log` keeps the shared prefix and takes the rest: what is left is the leader's log.
use labs_for_linux_distribut.Base.{
  ◌≡◌, true, List, [], ◌∷◌, arith, refl, ap, inl, inr, eq_iff, nat_beq_iff, int_beq_iff, ltb,
  if◌then◌else◌, Bool-cases, int_eq, string_eq, nat_eq,
}
use labs_for_linux_distribut.Tasks.{RelayCommand, enqueue_task, start_task, complete_task}
use labs_for_linux_distribut.Replica.{
  Node, LogEntry, command_beq, entry_beq, shared_prefix, splice, with_log, replace_log,
  rebuild_state_machine,
}

command_beq-eq : (a b : RelayCommand) → command_beq a b ≡ true → a ≡ b
command_beq-eq (enqueue_task a q t) (enqueue_task b r u) h =
    ground (arith, eq_iff a b, eq_iff q r, int_beq_iff t u)
command_beq-eq (start_task a q t) (start_task b r u) h =
    ground (arith, eq_iff a b, eq_iff q r, int_beq_iff t u)
command_beq-eq (complete_task a q t) (complete_task b r u) h =
    ground (arith, eq_iff a b, eq_iff q r, int_beq_iff t u)
command_beq-eq (enqueue_task a q t) (start_task b r u) h = cc
command_beq-eq (enqueue_task a q t) (complete_task b r u) h = cc
command_beq-eq (start_task a q t) (enqueue_task b r u) h = cc
command_beq-eq (start_task a q t) (complete_task b r u) h = cc
command_beq-eq (complete_task a q t) (enqueue_task b r u) h = cc
command_beq-eq (complete_task a q t) (start_task b r u) h = cc

entry_beq-eq : (a b : LogEntry) → entry_beq a b ≡ true → a ≡ b
entry_beq-eq a b h =
    let same = command_beq-eq a.command b.command in
    ground (arith, nat_beq_iff a.index b.index, nat_beq_iff a.term b.term, same)

pub splice-eq : (theirs own : List LogEntry) → splice theirs own ≡ theirs
unfolding splice shared_prefix
splice-eq [] [] = refl
splice-eq [] (b ∷ own) = refl
splice-eq (a ∷ theirs) [] = refl
splice-eq (a ∷ theirs) (b ∷ own) = elim (Bool-cases (entry_beq a b)) [
  | inl same ↦
      rw (same, shared_prefix) (ground (arith, entry_beq-eq a b same, splice-eq theirs own))
  | inr other ↦ rw (other, shared_prefix) refl
]

-- The node that `_replace_log` leaves has exactly the log it was given.
pub replace_log-eq :
    (theirs : List LogEntry) (n : Node)
    → (let m = with_log theirs n in
        replace_log theirs n
        ≡ (if ltb m.commit_index m.last_applied then rebuild_state_machine m else m))
unfolding replace_log
replace_log-eq theirs n =
    ap
      (λ l.
        let m = with_log l n in
        if ltb m.commit_index m.last_applied then rebuild_state_machine m else m)
      (splice-eq theirs n.log)
