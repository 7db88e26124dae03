-- ===== src/Replica/Sound.antt =====
-- What holds of every node: how its log is numbered and dated, and what it has committed and applied.
use labs_for_linux_distribut.Base.{
  ℕ, zero, suc, ◌+◌, ◌-◌, ◌≤◌, String, ◌≡◌, List, [], ◌∷◌, ◌++◌, arith, refl, sym, ap, subst, ◌∙◌,
  inl, inr, All, length-append, ltb, length, take, drop, min, Bool-cases, string_eq,
}
use labs_for_linux_distribut.Tasks.{RelayCommand}
use labs_for_linux_distribut.Replica.{
  Node, LogEntry, Progress, RequestVote, blank, apply_entry, apply_each, apply_committed_entries,
  rebuild_state_machine, observe_higher_term, restart, crash, new_node, start_election, cast_vote,
  receive_vote_request, become_leader, append_local_entry,
}

-- The indices of the entries count up.
abbrev pub Numbered : ℕ → List LogEntry → Type 0
Numbered k [] = Unit
Numbered k (e ∷ es) = (e.index ≡ k) × Numbered (k + 1) es

abbrev pub Dated : ℕ → List LogEntry → Type 0
Dated t es = All (λ (e : LogEntry). e.term ≤ t) es

pub record IsSound (n : Node) : Type 0 where
  pub numbered : Numbered 1 n.log
  pub dated : Dated n.current_term n.log
  pub committed : n.commit_index ≤ length n.log
  pub applied : n.last_applied ≤ length n.log

pub Dated-mono : (t u : ℕ) (es : List LogEntry) → t ≤ u → Dated t es → Dated u es
Dated-mono t u [] h d = tt
Dated-mono t u (e ∷ es) h d = (omega (arith, h, d.0), Dated-mono t u es h d.1)

-- A node of a later term that has the same log, commit index and applied entries.
pub same-IsSound :
    (n m : Node)
    → m.log ≡ n.log
    → m.commit_index ≡ n.commit_index
    → m.last_applied ≡ n.last_applied
    → n.current_term ≤ m.current_term
    → IsSound n
    → IsSound m
same-IsSound n m same_log same_commit same_applied later s = record {
  numbered = subst (Numbered 1) (sym same_log) s.numbered;
  dated =
      subst (Dated m.current_term) (sym same_log)
        (Dated-mono n.current_term m.current_term n.log later s.dated);
  committed = omega (arith, same_commit, ap length same_log, s.committed);
  applied = omega (arith, same_applied, ap length same_log, s.applied);
}

last_applied-apply_each :
    (xs : List LogEntry) (p : Progress)
    → (apply_each xs p).last_applied ≡ p.last_applied + length xs
unfolding apply_each
last_applied-apply_each [] p = omega arith
last_applied-apply_each (x ∷ xs) p =
    last_applied-apply_each xs (apply_entry x p) ∙ (unfold apply_entry in omega arith)

pub length-take-drop-le :
    (k a : ℕ) (xs : List LogEntry) → a ≤ length xs → a + length (take k (drop a xs)) ≤ length xs
length-take-drop-le zero zero xs h = omega arith
length-take-drop-le zero (suc a) xs h = omega arith
length-take-drop-le (suc k) zero [] h = omega arith
length-take-drop-le (suc k) zero (x ∷ xs) h = omega (arith, length-take-drop-le k zero xs)
length-take-drop-le (suc k) (suc a) [] h = absurd (omega arith)
length-take-drop-le (suc k) (suc a) (x ∷ xs) h = omega (arith, length-take-drop-le (suc k) a xs)

apply_committed-le :
    (n : Node)
    → n.last_applied ≤ length n.log
    → (apply_committed_entries n).last_applied ≤ length n.log
unfolding apply_committed_entries
apply_committed-le n h =
    let k = n.commit_index - n.last_applied in
    omega (
      arith,
      last_applied-apply_each (take k (drop n.last_applied n.log)) n.progress,
      length-take-drop-le k n.last_applied n.log h,
    )

pub apply_committed-IsSound : (n : Node) → IsSound n → IsSound (apply_committed_entries n)
apply_committed-IsSound n s = record {
  numbered = unfold apply_committed_entries in s.numbered;
  dated = unfold apply_committed_entries in s.dated;
  committed = unfold apply_committed_entries in s.committed;
  applied = unfold apply_committed_entries in apply_committed-le n s.applied;
}

pub rebuild-IsSound :
    (n : Node) → Numbered 1 n.log → Dated n.current_term n.log → IsSound (rebuild_state_machine n)
unfolding rebuild_state_machine
rebuild-IsSound n numbered dated =
    apply_committed-IsSound
      (record n {
        progress = blank;
        persistent_state = record n.persistent_state {
          commit_index = min n.commit_index (length n.log);
        };
      })
      (record {
        numbered = numbered;
        dated = dated;
        committed = omega arith;
        applied = omega arith;
      })

pub new_node-IsSound : (id : String) (peers : List String) → IsSound (new_node id peers)
unfolding new_node apply_each
new_node-IsSound id peers = record {
  numbered = tt;
  dated = tt;
  committed = omega arith;
  applied = omega arith;
}

pub restart-IsSound : (n : Node) → IsSound n → IsSound (restart n)
unfolding restart
restart-IsSound n s = rebuild-IsSound _ s.numbered s.dated

pub crash-IsSound : (n : Node) → IsSound n → IsSound (crash n)
unfolding crash
crash-IsSound n s = record {
  numbered = s.numbered;
  dated = s.dated;
  committed = s.committed;
  applied = s.applied;
}

pub observe-IsSound : (term : ℕ) (n : Node) → IsSound n → IsSound (observe_higher_term term n)
observe-IsSound term n s =
    same-IsSound n (observe_higher_term term n) (unfold observe_higher_term in ground arith)
      (unfold observe_higher_term in ground arith) (unfold observe_higher_term in ground arith)
      (unfold observe_higher_term in ground arith) s

pub start_election-IsSound : (n : Node) → IsSound n → IsSound (start_election n).1
unfolding start_election
start_election-IsSound n s = same-IsSound n _ refl refl refl (omega arith) s

cast_vote-IsSound : (r : RequestVote) (n : Node) → IsSound n → IsSound (cast_vote r n).1
cast_vote-IsSound r n s =
    same-IsSound n (cast_vote r n).1 (unfold cast_vote in ground arith)
      (unfold cast_vote in ground arith) (unfold cast_vote in ground arith)
      (unfold cast_vote in ground arith) s

pub receive_vote_request-IsSound :
    (r : RequestVote) (n : Node) → IsSound n → IsSound (receive_vote_request r n).1
receive_vote_request-IsSound r n s = elim (Bool-cases (ltb r.term n.current_term)) [
  | inl old ↦ unfold receive_vote_request in rw (old, receive_vote_request) s
  | inr current ↦
      unfold receive_vote_request in
      rw (current, receive_vote_request)
        (cast_vote-IsSound r (observe_higher_term r.term n) (observe-IsSound r.term n s))
]

pub become_leader-IsSound : (n : Node) → IsSound n → IsSound (become_leader n)
unfolding become_leader
become_leader-IsSound n s = same-IsSound n _ refl refl refl (omega arith) s

Numbered-append :
    (k : ℕ) (es : List LogEntry) (e : LogEntry)
    → Numbered k es
    → e.index ≡ k + length es
    → Numbered k (es ++ e ∷ [])
Numbered-append k [] e num h = (omega arith, tt)
Numbered-append k (x ∷ es) e num h = (num.0, Numbered-append (k + 1) es e num.1 (omega arith))

Dated-append :
    (t : ℕ) (es : List LogEntry) (e : LogEntry) → Dated t es → e.term ≤ t → Dated t (es ++ e ∷ [])
Dated-append t [] e d h = (h, tt)
Dated-append t (x ∷ es) e d h = (d.0, Dated-append t es e d.1 h)

pub append_local_entry-IsSound :
    (command : RelayCommand) (n : Node) → IsSound n → IsSound (append_local_entry command n).1
unfolding append_local_entry
append_local_entry-IsSound command n s =
    let e : LogEntry = record {
      index = length n.log + 1;
      term = n.current_term;
      command = command;
    } in
    let longer = length-append n.log (e ∷ []) in
    record {
      numbered = Numbered-append 1 n.log e s.numbered (omega arith);
      dated = Dated-append n.current_term n.log e s.dated (omega arith);
      committed = omega (arith, longer, s.committed);
      applied = omega (arith, longer, s.applied);
    }
