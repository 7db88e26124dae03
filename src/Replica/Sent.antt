-- ===== src/Replica/Sent.antt =====
-- A request with a numbered log keeps a follower sound.
use labs_for_linux_distribut.Base.{
  ℕ, ◌≤◌, ◌≡◌, some, List, arith, sym, subst, inl, inr, ltb, length, min, Bool-cases,
}
use labs_for_linux_distribut.Replica.{
  Node, LogEntry, AppendEntriesRequest, follower, rebuild_state_machine, with_log, replace_log,
  receive_append_entries, follow, observe_higher_term,
}
use labs_for_linux_distribut.Replica.Prefix.{replace_log-eq}
use labs_for_linux_distribut.Replica.Sound.{
  Numbered, Dated, Dated-mono, IsSound, rebuild-IsSound, apply_committed-IsSound,
}

-- The log of a request is numbered, and no entry of it is of a later term.
pub record IsSent (r : AppendEntriesRequest) : Type 0 where
  pub numbered : Numbered 1 r.log_entries
  pub dated : Dated r.term r.log_entries

with_log-IsSound :
    (log : List LogEntry) (n : Node)
    → Numbered 1 log
    → Dated n.current_term log
    → n.last_applied ≤ (with_log log n).commit_index
    → IsSound (with_log log n)
with_log-IsSound log n numbered dated h = record {
  numbered = numbered;
  dated = dated;
  committed = ground arith;
  applied = ground arith;
}

replace_log-IsSound :
    (log : List LogEntry) (n : Node)
    → Numbered 1 log
    → Dated n.current_term log
    → IsSound (replace_log log n)
replace_log-IsSound log n numbered dated =
    let m = with_log log n in
    elim (Bool-cases (ltb m.commit_index m.last_applied)) [
      | inl behind ↦
          let eq : replace_log log n ≡ rebuild_state_machine m =
            rw behind at (replace_log-eq log n) in
          subst IsSound (sym eq) (rebuild-IsSound m numbered dated)
      | inr current ↦
          let eq : replace_log log n ≡ m = rw current at (replace_log-eq log n) in
          subst IsSound (sym eq) (with_log-IsSound log n numbered dated (ground arith))
    ]

follow-IsSound :
    (r : AppendEntriesRequest) (n : Node)
    → Numbered 1 r.log_entries
    → Dated n.current_term r.log_entries
    → IsSound (follow r n).1
unfolding follow
follow-IsSound r n numbered dated =
    let n1 =
      replace_log r.log_entries (record n { role = follower; leader_id = some r.leader_id }) in
    let s =
      replace_log-IsSound r.log_entries (record n { role = follower; leader_id = some r.leader_id })
        numbered dated in
    apply_committed-IsSound
      (record n1 {
        persistent_state = record n1.persistent_state {
          commit_index = min r.leader_commit (length n1.log);
        };
      })
      (record {
        numbered = s.numbered;
        dated = s.dated;
        committed = omega arith;
        applied = s.applied;
      })

term-observe : (term : ℕ) (n : Node) → term ≤ (observe_higher_term term n).current_term
unfolding observe_higher_term
term-observe term n = ground arith

pub receive_append_entries-IsSound :
    (r : AppendEntriesRequest) (n : Node)
    → IsSent r
    → IsSound n
    → IsSound (receive_append_entries r n).1
unfolding receive_append_entries
receive_append_entries-IsSound r n sent s = elim (Bool-cases (ltb r.term n.current_term)) [
  | inl old ↦ rw (old, receive_append_entries) s
  | inr current ↦
      rw (current, receive_append_entries)
        (follow-IsSound r (observe_higher_term r.term n) sent.numbered (
          Dated-mono r.term (observe_higher_term r.term n).current_term r.log_entries
            (term-observe r.term n) sent.dated))
]
