-- ===== src/Election.antt =====
-- labs/24-raft-election/src/lab_24_raft_election/simulation.py: one node of the election protocol.
pub mod Cluster
pub mod Votes
pub mod Safety
pub mod Timeout
pub mod Campaign
pub mod Runs
pub mod Deposed
mod Tests
use labs_for_linux_distribut.Base.{
  ℕ, zero, ◌+◌, String, Bool, true, false, Option, none, some, List, ◌==◌, ◌&&◌, ◌||◌, ltb, leb,
  if◌then◌else◌, string_eq, nat_eq, option_beq,
}

pub data NodeRole : Type 0 where
  follower candidate leader : NodeRole

pub record LogPosition : Type 0 where
  pub term : ℕ
  pub index : ℕ

-- `>=` of a dataclass with `order=True`: by term, then by index.
abbrev pub at_least : LogPosition → LogPosition → Bool
at_least a b = ltb b.term a.term || (b.term == a.term && leb b.index a.index)

pub record PersistentVoteState : Type 0 where
  pub current_term : ℕ
  pub voted_for : Option String
  pub last_log_position : LogPosition

pub record RequestVote : Type 0 where
  pub term : ℕ
  pub candidate_id : String
  pub last_log_position : LogPosition

pub record VoteResponse : Type 0 where
  pub term : ℕ
  pub voter_id : String
  pub granted : Bool

pub record Heartbeat : Type 0 where
  pub term : ℕ
  pub leader_id : String

pub record HeartbeatResponse : Type 0 where
  pub term : ℕ
  pub follower_id : String
  pub accepted : Bool

pub record RaftNode : Type 0 where
  pub node_id : String
  pub peers : List String
  pub persistent_state : PersistentVoteState
  pub open persistent_state use *
  pub role : NodeRole
  pub leader_id : Option String

abbrev pub new_node : String → List String → RaftNode
new_node node_id peers = record {
  node_id = node_id;
  peers = peers;
  persistent_state = record {
    current_term = 0;
    voted_for = none;
    last_log_position = record { term = 0; index = 0 };
  };
  role = follower;
  leader_id = none;
}

unfoldable pub restart : RaftNode → RaftNode
restart n = record n { role = follower; leader_id = none }

unfoldable pub observe_higher_term : ℕ → RaftNode → RaftNode
observe_higher_term term n = if leb term n.current_term then n else record n {
  persistent_state = record n.persistent_state { current_term = term; voted_for = none };
  role = follower;
  leader_id = none;
}

unfoldable pub start_election : RaftNode → RequestVote × RaftNode
start_election n =
    let n1 : RaftNode = record n {
      persistent_state = record n.persistent_state {
        current_term = n.current_term + 1;
        voted_for = some n.node_id;
      };
      role = candidate;
      leader_id = none;
    } in
    (
      record {
        term = n1.current_term;
        candidate_id = n1.node_id;
        last_log_position = n1.last_log_position;
      },
      n1,
    )

-- `self.voted_for in (None, request.candidate_id)`
abbrev pub can_vote : Option String → String → Bool
can_vote none candidate_id = true
can_vote (some v) candidate_id = v == candidate_id

abbrev pub grants : RequestVote → RaftNode → Bool
grants r n = can_vote n.voted_for r.candidate_id && at_least r.last_log_position n.last_log_position

-- `receive_vote_request` once a newer term has been taken over.
unfoldable pub cast_vote : RequestVote → RaftNode → VoteResponse × RaftNode
cast_vote r n = (
  record { term = n.current_term; voter_id = n.node_id; granted = grants r n },
  if grants r n
      then record n {
        persistent_state = record n.persistent_state { voted_for = some r.candidate_id };
        role = follower;
        leader_id = none;
      }
      else n,
)

unfoldable pub receive_vote_request : RequestVote → RaftNode → VoteResponse × RaftNode
receive_vote_request r n =
    if ltb r.term n.current_term
    then (record { term = n.current_term; voter_id = n.node_id; granted = false }, n)
    else cast_vote r (observe_higher_term r.term n)

-- `receive_heartbeat` once a newer term has been taken over.
unfoldable pub follow : Heartbeat → RaftNode → HeartbeatResponse × RaftNode
follow h n = (
  record { term = n.current_term; follower_id = n.node_id; accepted = true },
  record n { role = follower; leader_id = some h.leader_id },
)

unfoldable pub receive_heartbeat : Heartbeat → RaftNode → HeartbeatResponse × RaftNode
unfolding follow observe_higher_term
receive_heartbeat h n =
    if ltb h.term n.current_term
    then (record { term = n.current_term; follower_id = n.node_id; accepted = false }, n)
    else follow h (observe_higher_term h.term n)

unfoldable pub become_leader : RaftNode → RaftNode
become_leader n = record n { role = leader; leader_id = some n.node_id }
