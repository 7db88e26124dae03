-- ===== src/Replica/Followed.antt =====
-- What a follower is after a request for its log.
use labs_for_linux_distribut.Base.{
  ℕ, ◌≤◌, ◌<◌, ◌≡◌, true, false, none, some, List, arith, refl, sym, ap, ◌∙◌, ltb, length, take,
  min,
}
use labs_for_linux_distribut.Base.Dict
use labs_for_linux_distribut.Replica.{
  Node, LogEntry, Progress, AppendEntriesRequest, follower, apply_committed_entries,
  rebuild_state_machine, replace_log, receive_append_entries, follow, observe_higher_term, restart,
}
use labs_for_linux_distribut.Replica.Prefix.{replace_log-eq}
use labs_for_linux_distribut.Replica.Applied.{
  IsReplayed, Agrees, same-IsReplayed, replace_log-IsReplayed, apply_committed-keeps,
  rebuild-IsReplayed,
}

pub log-observe : (term : ℕ) (n : Node) → (observe_higher_term term n).log ≡ n.log
unfolding observe_higher_term
log-observe term n = ground arith

progress-observe : (term : ℕ) (n : Node) → (observe_higher_term term n).progress ≡ n.progress
unfolding observe_higher_term
progress-observe term n = ground arith

pub log-replace_log : (log : List LogEntry) (n : Node) → (replace_log log n).log ≡ log
log-replace_log log n =
    ap (λ (k : Node). k.log) (replace_log-eq log n)
    ∙ (unfold rebuild_state_machine apply_committed_entries in ground arith)

follow-log :
    (r : AppendEntriesRequest) (n : Node)
    → ((follow r n).1.log ≡ r.log_entries)
      × ((follow r n).1.commit_index ≡ min r.leader_commit (length r.log_entries))
unfolding follow apply_committed_entries
follow-log r n =
    let same =
      log-replace_log r.log_entries (record n { role = follower; leader_id = some r.leader_id }) in
    (same, ap (λ (l : List LogEntry). min r.leader_commit (length l)) same)

-- A request of a term that is not older leaves the follower with the log of the request and the
-- commit index of the request, cut to the length of that log.
pub receive_append_entries-log :
    (r : AppendEntriesRequest) (n : Node)
    → n.current_term ≤ r.term
    → ((receive_append_entries r n).1.log ≡ r.log_entries)
      × ((receive_append_entries r n).1.commit_index ≡ min r.leader_commit (length r.log_entries))
unfolding receive_append_entries
receive_append_entries-log r n h =
    let current : ltb r.term n.current_term ≡ false = ground arith in
    rw (current, receive_append_entries) (follow-log r (observe_higher_term r.term n))

follow-IsReplayed :
    (r : AppendEntriesRequest) (n : Node)
    → IsReplayed n
    → Agrees r.log_entries n
    → IsReplayed (follow r n).1 × ((follow r n).1.commit_index ≤ (follow r n).1.last_applied)
unfolding follow
follow-IsReplayed r n replayed agrees =
    let n0 : Node = record n { role = follower; leader_id = some r.leader_id } in
    let n1 = replace_log r.log_entries n0 in
    let n2 : Node = record n1 {
      persistent_state = record n1.persistent_state {
        commit_index = min r.leader_commit (length n1.log);
      };
    } in
    let base =
      (replace_log-IsReplayed r.log_entries n0 (same-IsReplayed n n0 refl refl replayed)
        agrees).0 in
    let (kept, reached) =
      apply_committed-keeps n2 (same-IsReplayed n1 n2 refl refl base) (omega arith) in
    (kept, (unfold apply_committed_entries in reached))

-- When a node whose machine is what the applied entries of its log make of the empty one gets a
-- request of a term that is not older, and the log of the request has those entries too where it
-- is long enough, the machine is again what the applied entries of the new log make of the empty
-- one, and every entry up to the new commit index has been applied.
pub receive_append_entries-IsReplayed :
    (r : AppendEntriesRequest) (n : Node)
    → n.current_term ≤ r.term
    → IsReplayed n
    → Agrees r.log_entries n
    → (let m = (receive_append_entries r n).1 in IsReplayed m × (m.commit_index ≤ m.last_applied))
unfolding receive_append_entries
receive_append_entries-IsReplayed r n h replayed agrees =
    let current : ltb r.term n.current_term ≡ false = ground arith in
    let n0 = observe_higher_term r.term n in
    let same_log = log-observe r.term n in
    let same_progress = progress-observe r.term n in
    let applied : n0.last_applied ≡ n.last_applied =
      ap (λ (p : Progress). p.last_applied) same_progress in
    rw (current, receive_append_entries)
      (follow-IsReplayed r n0 (same-IsReplayed n n0 same_log same_progress replayed) (λ fits.
        ap (λ (k : ℕ). take k r.log_entries) applied
        ∙ agrees (omega (arith, applied, fits))
        ∙ ap (λ (k : ℕ). take k n.log) (sym applied)
        ∙ ap (λ (l : List LogEntry). take n0.last_applied l) (sym same_log)))

pub restart-IsReplayed :
    (n : Node)
    → IsReplayed (restart n) × ((restart n).last_applied ≡ min n.commit_index (length n.log))
unfolding restart
restart-IsReplayed n = rebuild-IsReplayed (record n {
  running = true;
  role = follower;
  leader_id = none;
  match_index_by_peer = Dict.empty;
})

-- When a request of a term that is not older has a commit index behind what the follower has
-- applied, the follower takes that commit index over, cut to the log of the request. After a
-- restart it has fewer entries applied than before: only those up to that index.
pub receive_append_entries-takes_back :
    (r : AppendEntriesRequest) (n : Node)
    → n.current_term ≤ r.term
    → r.leader_commit < n.last_applied
    → (let followed = (receive_append_entries r n).1 in
        let m = restart followed in
        (followed.commit_index ≡ min r.leader_commit (length r.log_entries))
        × IsReplayed m
        × (m.last_applied ≡ followed.commit_index)
        × (m.last_applied < n.last_applied))
receive_append_entries-takes_back r n h behind =
    let m = (receive_append_entries r n).1 in
    let (same_log, commit) = receive_append_entries-log r n h in
    let (replayed, applied) = restart-IsReplayed m in
    let reached : (restart m).last_applied ≡ m.commit_index =
      omega (arith, applied, commit, ap length same_log) in
    (commit, replayed, reached, omega (arith, reached, commit, behind))
