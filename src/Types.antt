-- ===== src/Types.antt =====
-- src/common/types.h: commands, log entries, RPC arguments and replies, cluster configurations.
-- An `int` that the code keeps at 0 or above is a native number; an `int` whose value -1 stands for
-- "nobody" or "no such entry" is an `Option`, with `none` for -1.
use raft_kv_raft_leveldb.Common.{
  ℕ, Text, Bool, true, false, List, [], ◌∷◌, Option, ◌==◌, length, if◌then◌else◌,
}

-- enum class CommandType
pub data CommandType : Type 0 where
  put get del noop config_joint config_new : CommandType

-- enum class NodeState
pub data NodeState : Type 0 where
  follower candidate leader : NodeState

pub record PeerInfo : Type 0 where
  pub id : ℕ
  pub ip : Text
  pub port : ℕ

pub record LogEntry : Type 0 where
  pub term : ℕ
  pub index : ℕ
  pub op : CommandType
  pub key : Text
  pub value : Text
  pub old_config : List PeerInfo
  pub new_config : List PeerInfo

-- LogEntry(int, int, CommandType, const std::string&, const std::string&)
abbrev pub log_entry : ℕ → ℕ → CommandType → Text → Text → LogEntry
log_entry t i cmd k v = record {
  term = t;
  index = i;
  op = cmd;
  key = k;
  value = v;
  old_config = [];
  new_config = [];
}

pub record RequestVoteArgs : Type 0 where
  pub term : ℕ
  pub candidate_id : ℕ
  pub last_log_index : ℕ
  pub last_log_term : ℕ

pub record RequestVoteReply : Type 0 where
  pub term : ℕ
  pub vote_granted : Bool

-- A leader that holds no entry at `prev_log_index` sends the term -1, here `none`.
pub record AppendEntriesArgs : Type 0 where
  pub term : ℕ
  pub leader_id : ℕ
  pub prev_log_index : ℕ
  pub prev_log_term : Option ℕ
  pub entries : List LogEntry
  pub leader_commit : ℕ

pub record AppendEntriesReply : Type 0 where
  pub term : ℕ
  pub success : Bool

pub record InstallSnapshotArgs : Type 0 where
  pub term : ℕ
  pub leader_id : ℕ
  pub last_included_index : ℕ
  pub last_included_term : ℕ
  pub kv_data : List (Text × Text)

pub record InstallSnapshotReply : Type 0 where
  pub term : ℕ

-- enum class ReadResult
pub data ReadResult : Type 0 where
  ok no_key not_leader read_fail : ReadResult

-- enum class ConfigState
pub data ConfigState : Type 0 where
  stable joint : ConfigState

pub record ClusterConfig : Type 0 where
  pub nodes : List PeerInfo

-- The loop of `ClusterConfig::contains`.
unfoldable pub contains_id : List PeerInfo → ℕ → Bool
contains_id [] node_id = false
contains_id (n ∷ ns) node_id = if n.id == node_id then true else contains_id ns node_id

-- ClusterConfig::contains
unfoldable pub contains : ClusterConfig → ℕ → Bool
unfolding contains_id
contains c node_id = contains_id c.nodes node_id

-- ClusterConfig::size
unfoldable pub size : ClusterConfig → ℕ
size c = length c.nodes

abbrev pub is_leader : NodeState → Bool
is_leader leader = true
is_leader _ = false

abbrev pub is_follower : NodeState → Bool
is_follower follower = true
is_follower _ = false

abbrev pub is_candidate : NodeState → Bool
is_candidate candidate = true
is_candidate _ = false

abbrev pub is_stable : ConfigState → Bool
is_stable stable = true
is_stable joint = false

-- Equality of two `int`s that may be -1.
abbrev pub option_eq : Option ℕ → Option ℕ → Bool
option_eq Option.none Option.none = true
option_eq Option.none (Option.some b) = false
option_eq (Option.some a) Option.none = false
option_eq (Option.some a) (Option.some b) = a == b
