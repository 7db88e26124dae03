-- ===== src/Replica.antt =====
-- labs/25-replicated-log/src/lab_25_replicated_log/simulation.py: one node of the replicated log.
pub mod Cluster
pub mod Prefix
pub mod Applied
pub mod Followed
pub mod Sound
pub mod Sent
pub mod Rounds
pub mod Operations
pub mod Runs
pub mod Peers
pub mod Delivery
mod Tests
use labs_for_linux_distribut.Base.{
  ℕ, zero, suc, ◌+◌, ◌-◌, String, Bool, true, false, Option, none, some, List, [], ◌∷◌, ◌++◌, ◌==◌,
  ◌&&◌, ◌||◌, ℤ, min, ltb, leb, if◌then◌else◌, string_eq, nat_eq, int_eq, Result, ok, raise, length,
  take, drop,
}
use labs_for_linux_distribut.Base.Dict
use labs_for_linux_distribut.Base.Dict.{Dict}
use labs_for_linux_distribut.Tasks.{
  Machine, RelayCommand, enqueue_task, start_task, complete_task, StateMachineError, new_machine,
  apply,
}

pub data NodeRole : Type 0 where
  follower candidate leader : NodeRole

pub record LogEntry : Type 0 where
  pub index : ℕ
  pub term : ℕ
  pub command : RelayCommand

abbrev pub command_beq : RelayCommand → RelayCommand → Bool
command_beq (enqueue_task a q t) (enqueue_task b r u) = a == b && q == r && t == u
command_beq (start_task a q t) (start_task b r u) = a == b && q == r && t == u
command_beq (complete_task a q t) (complete_task b r u) = a == b && q == r && t == u
command_beq _ _ = false

-- `==` of a dataclass.
abbrev pub entry_beq : LogEntry → LogEntry → Bool
entry_beq a b = a.index == b.index && a.term == b.term && command_beq a.command b.command

pub record LogPosition : Type 0 where
  pub term : ℕ
  pub index : ℕ

-- `>=` of a dataclass with `order=True`: by term, then by index.
abbrev pub at_least : LogPosition → LogPosition → Bool
at_least a b = ltb b.term a.term || (a.term == b.term && leb b.index a.index)

pub record PersistentNodeState : Type 0 where
  pub current_term : ℕ
  pub voted_for : Option String
  pub log : List LogEntry
  pub commit_index : ℕ

pub record RequestVote : Type 0 where
  pub term : ℕ
  pub candidate_id : String
  pub last_log_position : LogPosition

pub record VoteResponse : Type 0 where
  pub term : ℕ
  pub voter_id : String
  pub granted : Bool

pub record AppendEntriesRequest : Type 0 where
  pub term : ℕ
  pub leader_id : String
  pub log_entries : List LogEntry
  pub leader_commit : ℕ

pub record AppendEntriesResponse : Type 0 where
  pub term : ℕ
  pub follower_id : String
  pub success : Bool
  pub match_index : ℕ

-- The fields that follow from the applied entries.
pub record Progress : Type 0 where
  pub state_machine : Machine
  pub rejections : Dict ℕ StateMachineError
  pub last_applied : ℕ

pub record ReplicatedLogNode : Type 0 where
  pub node_id : String
  pub peers : List String
  pub persistent_state : PersistentNodeState
  pub open persistent_state use *
  pub role : NodeRole
  pub leader_id : Option String
  pub running : Bool
  pub progress : Progress
  pub open progress use *
  pub match_index_by_peer : Dict String ℕ

abbrev pub Node : Type 0
Node = ReplicatedLogNode

abbrev pub position_from : LogPosition → List LogEntry → LogPosition
position_from p [] = p
position_from p (e ∷ es) = position_from (record { term = e.term; index = e.index }) es

abbrev pub last_log_position : Node → LogPosition
last_log_position n = position_from (record { term = 0; index = 0 }) n.log

abbrev pub blank : Progress
blank = record { state_machine = new_machine; rejections = Dict.empty; last_applied = 0 }

-- One round of `apply_committed_entries`: a rejection is kept under the index of its entry.
unfoldable pub apply_entry : LogEntry → Progress → Progress
apply_entry e p =
    let (reply, m) = apply e.command p.state_machine in
    record {
      state_machine = m;
      rejections = elim reply [ ok b ↦ p.rejections | raise x ↦ Dict.put p.rejections e.index x ];
      last_applied = p.last_applied + 1;
    }

unfoldable pub apply_each : List LogEntry → Progress → Progress
apply_each [] p = p
apply_each (e ∷ es) p = apply_each es (apply_entry e p)

-- The entries from `last_applied` up to the commit index, which lies inside the log.
unfoldable pub apply_committed_entries : Node → Node
unfolding apply_each
apply_committed_entries n = record n {
  progress =
      apply_each (take (n.commit_index - n.last_applied) (drop n.last_applied n.log)) n.progress;
}

unfoldable pub rebuild_state_machine : Node → Node
unfolding apply_committed_entries
rebuild_state_machine n = apply_committed_entries (record n {
  progress = blank;
  persistent_state = record n.persistent_state { commit_index = min n.commit_index (length n.log) };
})

-- A node as `__post_init__` leaves it.
unfoldable pub new_node : String → List String → Node
unfolding rebuild_state_machine
new_node node_id peers = rebuild_state_machine (record {
  node_id = node_id;
  peers = peers;
  persistent_state = record { current_term = 0; voted_for = none; log = []; commit_index = 0 };
  role = follower;
  leader_id = none;
  running = true;
  progress = blank;
  match_index_by_peer = Dict.empty;
})

unfoldable pub restart : Node → Node
restart n = rebuild_state_machine (record n {
  running = true;
  role = follower;
  leader_id = none;
  match_index_by_peer = Dict.empty;
})

unfoldable pub crash : Node → Node
crash n = record n {
  running = false;
  role = follower;
  leader_id = none;
  match_index_by_peer = Dict.empty;
}

unfoldable pub observe_higher_term : ℕ → Node → Node
observe_higher_term term n = if leb term n.current_term then n else record n {
  persistent_state = record n.persistent_state { current_term = term; voted_for = none };
  role = follower;
  leader_id = none;
  match_index_by_peer = Dict.empty;
}

unfoldable pub start_election : Node → RequestVote × Node
start_election n =
    let n1 : Node = record n {
      persistent_state = record n.persistent_state {
        current_term = n.current_term + 1;
        voted_for = some n.node_id;
      };
      role = candidate;
      leader_id = none;
    } in
    (
      record {
        term = n1.current_term;
        candidate_id = n1.node_id;
        last_log_position = last_log_position n1;
      },
      n1,
    )

-- `self.voted_for in (None, request.candidate_id)`
abbrev pub can_vote : Option String → String → Bool
can_vote none candidate_id = true
can_vote (some v) candidate_id = v == candidate_id

abbrev pub grants : RequestVote → Node → Bool
grants r n =
    can_vote n.voted_for r.candidate_id && at_least r.last_log_position (last_log_position n)

-- `receive_vote_request` once a newer term has been taken over.
unfoldable pub cast_vote : RequestVote → Node → VoteResponse × Node
cast_vote r n = (
  record { term = n.current_term; voter_id = n.node_id; granted = grants r n },
  if grants r n
      then record n {
        persistent_state = record n.persistent_state { voted_for = some r.candidate_id };
        role = follower;
        leader_id = none;
      }
      else n,
)

unfoldable pub receive_vote_request : RequestVote → Node → VoteResponse × Node
receive_vote_request r n =
    if ltb r.term n.current_term
    then (record { term = n.current_term; voter_id = n.node_id; granted = false }, n)
    else cast_vote r (observe_higher_term r.term n)

-- The loop of `_replace_log`, which stops at the first difference.
unfoldable pub shared_prefix : List LogEntry → List LogEntry → ℕ
shared_prefix (a ∷ theirs) (b ∷ own) =
    let rest = shared_prefix theirs own in if entry_beq a b then suc rest else 0
shared_prefix _ _ = 0

-- The log that `_replace_log` leaves.
unfoldable pub splice : List LogEntry → List LogEntry → List LogEntry
unfolding shared_prefix
splice theirs own = take (shared_prefix theirs own) own ++ drop (shared_prefix theirs own) theirs

-- `_replace_log` up to the test of `last_applied`.
abbrev pub with_log : List LogEntry → Node → Node
with_log log n = record n {
  persistent_state = record n.persistent_state {
    log = log;
    commit_index = if ltb (length log) n.commit_index then length log else n.commit_index;
  };
}

unfoldable pub replace_log : List LogEntry → Node → Node
unfolding splice
replace_log theirs n =
    let n1 = with_log (splice theirs n.log) n in
    if ltb n1.commit_index n1.last_applied then rebuild_state_machine n1 else n1

-- `receive_append_entries` once a newer term has been taken over.
unfoldable pub follow : AppendEntriesRequest → Node → AppendEntriesResponse × Node
unfolding replace_log
follow r n =
    let n1 =
      replace_log r.log_entries (record n { role = follower; leader_id = some r.leader_id }) in
    let n2 = apply_committed_entries (record n1 {
      persistent_state = record n1.persistent_state {
        commit_index = min r.leader_commit (length n1.log);
      };
    }) in
    (
      record {
        term = n2.current_term;
        follower_id = n2.node_id;
        success = true;
        match_index = (last_log_position n2).index;
      },
      n2,
    )

unfoldable pub receive_append_entries : AppendEntriesRequest → Node → AppendEntriesResponse × Node
receive_append_entries r n =
    if ltb r.term n.current_term
    then (
      record {
        term = n.current_term;
        follower_id = n.node_id;
        success = false;
        match_index = (last_log_position n).index;
      },
      n,
    )
    else follow r (observe_higher_term r.term n)

-- `setdefault(peer_id, 0)` for each peer.
unfoldable pub defaults : List String → Dict String ℕ → Dict String ℕ
defaults [] d = d
defaults (peer ∷ peers) d =
    defaults peers (elim (Dict.get d peer) [ none ↦ Dict.put d peer 0 | some _ ↦ d ])

unfoldable pub become_leader : Node → Node
unfolding defaults
become_leader n = record n {
  role = leader;
  leader_id = some n.node_id;
  match_index_by_peer =
      defaults n.peers (Dict.put Dict.empty n.node_id (last_log_position n).index);
}

unfoldable pub append_local_entry : RelayCommand → Node → LogEntry × Node
append_local_entry command n =
    let entry : LogEntry = record {
      index = length n.log + 1;
      term = n.current_term;
      command = command;
    } in
    (
      entry,
      record n {
        persistent_state = record n.persistent_state { log = n.log ++ entry ∷ [] };
        match_index_by_peer = Dict.put n.match_index_by_peer n.node_id entry.index;
      },
    )

abbrev pub rejection_for : ℕ → Node → Option StateMachineError
rejection_for index n = Dict.get n.rejections index
