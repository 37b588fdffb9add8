-- ===== src/Node.antt =====
-- The state of a node, class RaftNode of src/raftCore/raft_node.h, with the methods of
-- src/raftCore/raft_node.cpp that read the log, restart the election timer, write the state file and
-- change the role. Each method that the source runs under `mu_` is a function of the whole state.
pub mod Valid
pub mod Restart
pub mod Member
use raft_kv_raft_leveldb.Common.{
  Bool, List, Option, Text, false, if◌then◌else◌, leb, length, ltb, none, replicate, some, true, ℕ,
  ◌%◌, ◌+◌, ◌-◌, ◌==◌, ◌||◌, ◌∷◌,
}
use raft_kv_raft_leveldb.Types.{
  ClusterConfig, ConfigState, LogEntry, NodeState, PeerInfo, candidate, contains, follower,
  is_stable, leader,
}
use raft_kv_raft_leveldb.Platform.{Platform}
use raft_kv_raft_leveldb.Storage.{PersistentStorage, save}
use raft_kv_raft_leveldb.StateMachine.{KvStore}
use raft_kv_raft_leveldb.Log.{back_index, back_term, entry_at}

-- `voted_for` and `leader_id` are `none` where the source has -1. `draws` counts the readings of the
-- clock and of the random numbers.
pub record RaftNode (P : Platform) : Type 0 where
  pub id : ℕ
  pub self_ip : Text
  pub self_port : ℕ
  pub current_term : ℕ
  pub voted_for : Option ℕ
  pub logs : List LogEntry
  pub commit_index : ℕ
  pub last_applied : ℕ
  pub state : NodeState
  pub leader_id : Option ℕ
  pub kv_store : KvStore P
  pub peers : List PeerInfo
  pub running : Bool
  pub last_heartbeat_time : ℕ
  pub election_timeout_ms : ℕ
  pub storage : PersistentStorage
  pub next_index : List ℕ
  pub match_index : List ℕ
  pub last_included_index : ℕ
  pub last_included_term : ℕ
  pub snapshot_threshold : ℕ
  pub config_state : ConfigState
  pub current_config : ClusterConfig
  pub old_config : ClusterConfig
  pub new_config : ClusterConfig
  pub voting_member : Bool
  pub removed : Bool
  pub leaving : Bool
  pub draws : ℕ

module _ {P : Platform} where
  -- getLastLogIndex
  unfoldable pub get_last_log_index : RaftNode P → ℕ
  get_last_log_index n = back_index n.last_included_index n.logs

  -- getLastLogTerm
  unfoldable pub get_last_log_term : RaftNode P → ℕ
  get_last_log_term n = back_term n.last_included_term n.logs

  -- `logs_[logIndexToPos(index)]`, where that position is in the vector
  unfoldable pub log_at : RaftNode P → ℕ → Option LogEntry
  log_at n index = entry_at n.last_included_index n.logs index

  -- hasLogAt
  unfoldable pub has_log_at : RaftNode P → ℕ → Bool
  unfolding log_at
  has_log_at n index =
      if index == n.last_included_index
      then true
      else elim (log_at n index) [ none ↦ false | some e ↦ true ]

  -- getLogTermAt; `none` is the result -1.
  unfoldable pub get_log_term_at : RaftNode P → ℕ → Option ℕ
  unfolding log_at
  get_log_term_at n index =
      if index == 0
      then some 0
      else if index == n.last_included_index
      then some n.last_included_term
      else elim (log_at n index) [ none ↦ none | some e ↦ some e.term ]

  -- resetElectionTimer
  unfoldable pub reset_election_timer : RaftNode P → RaftNode P
  reset_election_timer n = record n {
    last_heartbeat_time = P.now n.draws;
    election_timeout_ms = 1500 + P.rand n.draws % 1500;
    draws = n.draws + 1;
  }

  -- isElectionTimeout, at the reading `now` of the clock
  unfoldable pub is_election_timeout : ℕ → RaftNode P → Bool
  is_election_timeout now n = leb n.election_timeout_ms (now - n.last_heartbeat_time)

  -- persist
  unfoldable pub persist : RaftNode P → RaftNode P
  persist n = record n {
    storage =
        (save P n.storage n.current_term n.voted_for n.last_included_index n.last_included_term
          n.logs).0;
  }

  -- becomeFollower
  unfoldable pub become_follower : ℕ → RaftNode P → RaftNode P
  unfolding reset_election_timer persist
  become_follower new_term n = persist (
      reset_election_timer (record n {
        state = follower;
        current_term = new_term;
        voted_for = none;
        leader_id = none;
      }))

  -- becomeCandidate
  unfoldable pub become_candidate : RaftNode P → RaftNode P
  unfolding reset_election_timer persist
  become_candidate n = persist (
      reset_election_timer (record n {
        state = candidate;
        current_term = n.current_term + 1;
        voted_for = some n.id;
        leader_id = none;
      }))

  -- initLeaderState
  unfoldable pub init_leader_state : RaftNode P → RaftNode P
  unfolding get_last_log_index
  init_leader_state n = record n {
    next_index = replicate (length n.peers) (get_last_log_index n + 1);
    match_index = replicate (length n.peers) 0;
  }

  -- becomeLeader
  unfoldable pub become_leader : RaftNode P → RaftNode P
  unfolding init_leader_state
  become_leader n = init_leader_state (record n { state = leader; leader_id = some n.id })

  -- isCandidateLogUpToDate
  unfoldable pub is_candidate_log_up_to_date : RaftNode P → ℕ → ℕ → Bool
  unfolding get_last_log_term get_last_log_index
  is_candidate_log_up_to_date n candidate_last_log_index candidate_last_log_term =
      if candidate_last_log_term == get_last_log_term n
      then leb (get_last_log_index n) candidate_last_log_index
      else ltb (get_last_log_term n) candidate_last_log_term

  -- isNodeInCurrentVotingConfig
  unfoldable pub is_node_in_current_voting_config : RaftNode P → ℕ → Bool
  is_node_in_current_voting_config n node_id =
      if is_stable n.config_state
      then contains n.current_config node_id
      else contains n.old_config node_id || contains n.new_config node_id

  -- setVotingMember
  unfoldable pub set_voting_member : Bool → RaftNode P → RaftNode P
  set_voting_member voting n = record n { voting_member = voting }

  -- setSelfAddress
  unfoldable pub set_self_address : Text → ℕ → RaftNode P → RaftNode P
  set_self_address ip port n = record n { self_ip = ip; self_port = port }

  -- setPeers
  unfoldable pub set_peers : List PeerInfo → RaftNode P → RaftNode P
  set_peers ps n = record n {
    peers = ps;
    current_config = record {
      nodes = record { id = n.id; ip = n.self_ip; port = n.self_port } ∷ ps;
    };
  }
