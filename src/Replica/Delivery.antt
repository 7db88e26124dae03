-- ===== src/Replica/Delivery.antt =====
-- What `replicate_from_leader` delivers.
use labs_for_linux_distribut.Base.{
  ◌≤◌, String, ◌≡◌, ◌⊎◌, ◌==◌, ◌&&◌, not, leb, subset, subset-contains, Bool, true, false, some,
  List, [], ◌∷◌, ◌++◌, arith, refl, sym, ap, subst, ◌∙◌, inl, inr, eq_iff, ltb, length, min,
  contains, ok, Bool-cases, Option-cases, string_eq,
}
use labs_for_linux_distribut.Base.Dict
use labs_for_linux_distribut.Base.Dict.{get-put, keys-put, get-contains, contains-get}
use labs_for_linux_distribut.Partition.{reachable_from}
use labs_for_linux_distribut.Replica.{
  Node, LogEntry, AppendEntriesRequest, AppendEntriesResponse, follower, receive_append_entries,
  follow, observe_higher_term, replace_log, rebuild_state_machine, apply_committed_entries,
}
use labs_for_linux_distribut.Replica.Prefix.{replace_log-eq}
use labs_for_linux_distribut.Replica.Followed.{receive_append_entries-log}
use labs_for_linux_distribut.Replica.Peers.{
  running_peers-known, running_peers-ok, running_peers-contains,
}
use labs_for_linux_distribut.Replica.Cluster.{
  Cluster, Nodes, Spread, is_leader, require_running_node, reachable_peers, heard, send_entries,
  request_of, self_matched, spread_from, replicate_from_leader,
}

term-replace_log :
    (log : List LogEntry) (n : Node) → (replace_log log n).current_term ≡ n.current_term
term-replace_log log n =
    ap (λ (k : Node). k.current_term) (replace_log-eq log n)
    ∙ (unfold rebuild_state_machine apply_committed_entries in ground arith)

term-receive_append_entries :
    (r : AppendEntriesRequest) (n : Node)
    → n.current_term ≤ r.term
    → (receive_append_entries r n).1.current_term ≡ r.term
term-receive_append_entries r n h =
    let current : ltb r.term n.current_term ≡ false = ground arith in
    let m = observe_higher_term r.term n in
    unfold receive_append_entries follow apply_committed_entries in
    rw (current, receive_append_entries)
      (term-replace_log r.log_entries (record m { role = follower; leader_id = some r.leader_id })
        ∙ (unfold observe_higher_term in ground arith))

-- The node has the log of the request and its commit index, and is not in a later term.
pub record Delivered (r : AppendEntriesRequest) (x : String) (d : Nodes) : Type 0 where
  pub node : Node
  pub found : Dict.get d x ≡ some node
  pub same_log : node.log ≡ r.log_entries
  pub commit : node.commit_index ≡ min r.leader_commit (length r.log_entries)
  pub not_later : node.current_term ≤ r.term

put-Delivered :
    (r : AppendEntriesRequest) (x : String) (d : Nodes) (m : Node)
    → m.current_term ≤ r.term
    → Delivered r x (Dict.put d x (receive_append_entries r m).1)
put-Delivered r x d m h =
    let (same, commit) = receive_append_entries-log r m h in
    record {
      node = (receive_append_entries r m).1;
      found = get-put d x x (receive_append_entries r m).1 ∙ ground (arith, eq_iff x x);
      same_log = same;
      commit = commit;
      not_later = omega (arith, term-receive_append_entries r m h);
    }

next_spread : AppendEntriesRequest → Node → String → Spread → Spread
next_spread r n peer a = record {
  responses = a.responses ++ (receive_append_entries r n).0 ∷ [];
  sender = heard peer (receive_append_entries r n).0 a.sender;
  nodes = Dict.put a.nodes peer (receive_append_entries r n).1;
}

put-keeps :
    (r : AppendEntriesRequest) (x peer : String) (d : Nodes) (n : Node)
    → Dict.get d peer ≡ some n
    → Delivered r x d
    → Delivered r x (Dict.put d peer (receive_append_entries r n).1)
put-keeps r x peer d n e w = elim (Bool-cases (string_eq.beq peer x)) [
  | inl same ↦
      let here = (eq_iff peer x).0 same in
      let own : n ≡ w.node = ground (arith, e, w.found, here) in
      subst (λ y. Delivered r y (Dict.put d peer (receive_append_entries r n).1)) here
        (put-Delivered r peer d n
          (subst (λ (k : Node). k.current_term ≤ r.term) (sym own) w.not_later))
  | inr other ↦ record {
    node = w.node;
    found = get-put d peer x (receive_append_entries r n).1 ∙ ground (arith, other, w.found);
    same_log = w.same_log;
    commit = w.commit;
    not_later = w.not_later;
  }
]

send_entries-keeps :
    (r : AppendEntriesRequest) (peers : List String) (a : Spread) (x : String)
    → Delivered r x a.nodes
    → Delivered r x (send_entries r peers a).1.nodes
unfolding send_entries next_spread
send_entries-keeps r [] a x w = w
send_entries-keeps r (peer ∷ peers) a x w = elim (Option-cases (Dict.get a.nodes peer)) [
  | inl e ↦ rw (e, send_entries) w
  | inr (n, e) ↦
      rw (e, send_entries)
        (send_entries-keeps r peers (next_spread r n peer a) x (put-keeps r x peer a.nodes n e w))
]

-- No round of the loop raises, since the table holds every peer.
send_entries-ok :
    (r : AppendEntriesRequest) (peers : List String) (a : Spread)
    → ((y : String) → contains peers y ≡ true → contains (Dict.keys a.nodes) y ≡ true)
    → (send_entries r peers a).0 ≡ ok true
unfolding send_entries next_spread
send_entries-ok r [] a known = refl
send_entries-ok r (peer ∷ peers) a known = elim (Option-cases (Dict.get a.nodes peer)) [
  | inl e ↦
      let (n, here) = contains-get a.nodes peer (known peer (ground (arith, eq_iff peer peer))) in
      absurd (ground (arith, e, here))
  | inr (n, e) ↦
      rw (e, send_entries)
        (send_entries-ok r peers (next_spread r n peer a) (λ y h.
          subst (λ ks. contains ks y ≡ true)
            (sym (keys-put a.nodes peer (receive_append_entries r n).1 n e))
            (known y (ground (arith, h)))))
]

-- Every peer that is not in a later term gets the log.
send_entries-delivers :
    (r : AppendEntriesRequest) (peers : List String) (a : Spread) (x : String) (m : Node)
    → contains peers x ≡ true
    → Dict.get a.nodes x ≡ some m
    → m.current_term ≤ r.term
    → (send_entries r peers a).0 ≡ ok true
    → Delivered r x (send_entries r peers a).1.nodes
unfolding send_entries next_spread
send_entries-delivers r [] a x m here found h done = cc
send_entries-delivers r (peer ∷ peers) a x m here found h done =
    elim (Option-cases (Dict.get a.nodes peer)) [
      | inl e ↦ absurd (ground (arith, e))
      | inr (n, e) ↦ elim (Bool-cases (string_eq.beq peer x)) [
        | inl same ↦
            let own : n ≡ m = ground (arith, e, found, (eq_iff peer x).0 same) in
            rw (e, send_entries)
              (send_entries-keeps r peers (next_spread r n peer a) x (
                subst (λ y. Delivered r y (Dict.put a.nodes peer (receive_append_entries r n).1))
                  ((eq_iff peer x).0 same)
                  (put-Delivered r peer a.nodes n
                    (subst (λ (k : Node). k.current_term ≤ r.term) (sym own) h))))
        | inr other ↦
            rw (e, send_entries)
              (send_entries-delivers r peers (next_spread r n peer a) x m
                (ground (arith, other, here))
                (get-put a.nodes peer x (receive_append_entries r n).1
                  ∙ ground (arith, other, found))
                h (ground (arith, e, done)))
      ]
    ]

-- Whether a leader that reaches the group sends its log to the node, in a term that the node accepts.
abbrev pub gets_log : String → List String → Node → String → Node → Bool
gets_log id group n x m =
    contains group x && not (x == id) && m.running && leb m.current_term n.current_term

-- When a running leader replicates over a table that holds every node of its group, the call returns;
-- and a node of the group that is not the leader, runs and is not in a later term has the leader's
-- log afterwards and the leader's commit index, cut to that log.
pub replicate-Delivered :
    (id : String) (c : Cluster) (n m : Node) (group : List String) (x : String)
    → require_running_node id c.nodes ≡ ok n
    → is_leader n.role ≡ true
    → reachable_from c.partition id ≡ ok group
    → subset group (Dict.keys c.nodes) ≡ true
    → Dict.get c.nodes x ≡ some m
    → ((rs : List AppendEntriesResponse) × ((replicate_from_leader id c).0 ≡ ok rs))
      × ((gets_log id group n x m ≡ false)
          ⊎ Delivered (request_of id n) x (replicate_from_leader id c).1.nodes)
unfolding replicate_from_leader spread_from
replicate-Delivered id c n m group x runs leads g held found =
    let (peers, listed) =
      running_peers-ok id group c.nodes
        (λ y h. subset-contains group (Dict.keys c.nodes) y held h) in
    let reached : reachable_peers id c ≡ ok peers =
      unfold reachable_peers in ground (arith, g, listed) in
    let a : Spread = record { responses = []; sender = n; nodes = c.nodes } in
    let r = request_of id n in
    let done =
      send_entries-ok r peers a
        (λ y k. (running_peers-known id group c.nodes peers y listed k).1) in
    let b = (send_entries r peers a).1 in
    rw (runs, replicate_from_leader, leads, spread_from, reached, done)
      (
        (b.responses, refl),
        elim (Bool-cases (gets_log id group n x m)) [
          | inr spared ↦ inl spared
          | inl gets ↦
              let here =
                running_peers-contains id group c.nodes peers x m listed (ground (arith, gets))
                  (ground (arith, gets)) found (ground (arith, gets)) in
              let w = send_entries-delivers r peers a x m here found (ground (arith, gets)) done in
              let (other, _) = running_peers-known id group c.nodes peers x listed here in
              inr (record {
                node = w.node;
                found =
                    get-put b.nodes id x (self_matched id b.sender)
                    ∙ ground (arith, other, w.found);
                same_log = w.same_log;
                commit = w.commit;
                not_later = w.not_later;
              })
        ],
      )
