-- ===== src/Replica/Rounds.antt =====
-- The loops of the cluster keep every node sound.
use labs_for_linux_distribut.Base.{
  ℕ, suc, ◌+◌, ◌-◌, ◌≤◌, String, ◌≡◌, some, List, [], ◌∷◌, ◌++◌, ◌==◌, arith, refl, subst, inl, inr,
  ltb, if◌then◌else◌, length, take, drop, add, Bool-cases, Option-cases, string_eq, nat_eq,
}
use labs_for_linux_distribut.Base.Dict
use labs_for_linux_distribut.Base.Dict.{get-put}
use labs_for_linux_distribut.Replica.{
  Node, LogEntry, RequestVote, AppendEntriesRequest, AppendEntriesResponse, receive_vote_request,
  receive_append_entries, last_log_position,
}
use labs_for_linux_distribut.Replica.Cluster.{
  Nodes, Round, Spread, request_votes, send_entries, heard, request_of, advance_over,
  new_commit_index, advance_commit_index,
}
use labs_for_linux_distribut.Replica.Sound.{
  length-take-drop-le, IsSound, same-IsSound, observe-IsSound, receive_vote_request-IsSound,
  apply_committed-IsSound,
}
use labs_for_linux_distribut.Replica.Sent.{IsSent, receive_append_entries-IsSound}

pub record AllSound (d : Nodes) : Type 0 where
  pub each : (id : String) (n : Node) → Dict.get d id ≡ some n → IsSound n

pub put-AllSound :
    (d : Nodes) (id : String) (n : Node) → AllSound d → IsSound n → AllSound (Dict.put d id n)
put-AllSound d id n all s = record {
  each = λ x m h. elim (Bool-cases (string_eq.beq id x)) [
    | inl same ↦ let own : n ≡ m = ground (arith, same, get-put d id x n) in subst IsSound own s
    | inr other ↦ all.each x m (ground (arith, other, get-put d id x n))
  ];
}

pub request_votes-AllSound :
    (r : RequestVote) (peers : List String) (a : Round)
    → AllSound a.nodes
    → IsSound a.sender
    → (let b = (request_votes r peers a).1 in AllSound b.nodes × IsSound b.sender)
unfolding request_votes
request_votes-AllSound r [] a all s = (all, s)
request_votes-AllSound r (peer ∷ peers) a all s = elim (Option-cases (Dict.get a.nodes peer)) [
  | inl e ↦ rw (e, request_votes) (all, s)
  | inr (n, e) ↦
      let response = (receive_vote_request r n).0 in
      let nodes = Dict.put a.nodes peer (receive_vote_request r n).1 in
      let all' =
        put-AllSound a.nodes peer (receive_vote_request r n).1 all
          (receive_vote_request-IsSound r n (all.each peer n e)) in
      elim (Bool-cases (ltb a.sender.current_term response.term)) [
        | inl newer ↦ rw (e, request_votes, newer) (all', observe-IsSound response.term a.sender s)
        | inr not_newer ↦
            rw (e, request_votes, not_newer)
              (request_votes-AllSound r peers
                (record {
                  granted_by = if response.granted then add a.granted_by peer else a.granted_by;
                  sender = a.sender;
                  nodes = nodes;
                })
                all' s)
      ]
]

pub heard-IsSound :
    (peer : String) (response : AppendEntriesResponse) (n : Node)
    → IsSound n
    → IsSound (heard peer response n)
unfolding heard
heard-IsSound peer response n s = elim (Bool-cases (ltb n.current_term response.term)) [
  | inl newer ↦ rw (newer, heard) (observe-IsSound response.term n s)
  | inr not_newer ↦
      rw (not_newer, heard)
        (same-IsSound n
          (record n {
            match_index_by_peer = Dict.put n.match_index_by_peer peer response.match_index;
          })
          refl refl refl (omega arith) s)
]

pub send_entries-AllSound :
    (r : AppendEntriesRequest) (peers : List String) (a : Spread)
    → IsSent r
    → AllSound a.nodes
    → IsSound a.sender
    → (let b = (send_entries r peers a).1 in AllSound b.nodes × IsSound b.sender)
unfolding send_entries
send_entries-AllSound r [] a sent all s = (all, s)
send_entries-AllSound r (peer ∷ peers) a sent all s = elim (Option-cases (Dict.get a.nodes peer)) [
  | inl e ↦ rw (e, send_entries) (all, s)
  | inr (n, e) ↦
      let response = (receive_append_entries r n).0 in
      let n1 = (receive_append_entries r n).1 in
      rw (e, send_entries)
        (send_entries-AllSound r peers
          (record {
            responses = a.responses ++ response ∷ [];
            sender = heard peer response a.sender;
            nodes = Dict.put a.nodes peer n1;
          })
          sent
          (put-AllSound a.nodes peer n1 all
            (receive_append_entries-IsSound r n sent (all.each peer n e)))
          (heard-IsSound peer response a.sender s))
]

pub request_of-IsSent : (id : String) (n : Node) → IsSound n → IsSent (request_of id n)
request_of-IsSent id n s = record { numbered = s.numbered; dated = s.dated }

-- The candidates of `_advance_commit_index` stay within the entries that the loop runs over.
advance_over-le :
    (quorum : ℕ) (n : Node) (es : List LogEntry) (candidate new bound : ℕ)
    → new ≤ bound
    → candidate + length es ≤ suc bound
    → advance_over quorum n es candidate new ≤ bound
unfolding advance_over
advance_over-le quorum n [] candidate new bound h k = h
advance_over-le quorum n (e ∷ es) candidate new bound h k =
    advance_over-le quorum n es (candidate + 1) _ bound (ground arith) (omega arith)

new_commit_index-le : (quorum : ℕ) (n : Node) → IsSound n → new_commit_index quorum n ≤ length n.log
unfolding new_commit_index
new_commit_index-le quorum n s =
    let k = (last_log_position n).index - n.commit_index in
    advance_over-le quorum n (take k (drop n.commit_index n.log)) (n.commit_index + 1)
      n.commit_index (length n.log) s.committed
      (omega (arith, length-take-drop-le k n.commit_index n.log s.committed))

pub advance_commit_index-IsSound :
    (quorum : ℕ) (n : Node) → IsSound n → IsSound (advance_commit_index quorum n).1
unfolding advance_commit_index
advance_commit_index-IsSound quorum n s =
    let new = new_commit_index quorum n in
    elim (Bool-cases (new == n.commit_index)) [
      | inl same ↦ rw (same, advance_commit_index) s
      | inr other ↦
          rw (other, advance_commit_index)
            (apply_committed-IsSound
              (record n { persistent_state = record n.persistent_state { commit_index = new } })
              (record {
                numbered = s.numbered;
                dated = s.dated;
                committed = new_commit_index-le quorum n s;
                applied = s.applied;
              }))
    ]
