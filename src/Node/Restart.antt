-- ===== src/Node/Restart.antt =====
-- The start of a node in src/raftCore/raft_node.cpp: the constructor and loadPersistentState.
use raft_kv_raft_leveldb.Common.{Option, [], false, none, some, true, ℕ, ◌%◌, ◌+◌}
use raft_kv_raft_leveldb.Platform.{Platform}
use raft_kv_raft_leveldb.Storage.{PersistentStorage}
use raft_kv_raft_leveldb.Storage.Load.{SavedState, load}
use raft_kv_raft_leveldb.StateMachine.{KvStore}
use raft_kv_raft_leveldb.Log.{entries_above}
use raft_kv_raft_leveldb.Node.{RaftNode}
use raft_kv_raft_leveldb.Types.{follower, stable}
use raft_kv_raft_leveldb.Wire.{Parsed, outside, parsed, rejected}

module _ {P : Platform} where
  -- The numbers and the log that the file held, with the entries above the snapshot point.
  unfoldable pub restored : SavedState → RaftNode P → RaftNode P
  restored s n = record n {
    current_term = s.current_term;
    voted_for = s.voted_for;
    last_included_index = s.last_included_index;
    last_included_term = s.last_included_term;
    logs = entries_above s.last_included_index s.logs;
    commit_index = s.last_included_index;
    last_applied = s.last_included_index;
  }

  -- The rest of loadPersistentState behind the call of `load`; `none` where the file holds values that
  -- the types of the model do not.
  abbrev pub after_load : PersistentStorage × Parsed SavedState → RaftNode P → Option (RaftNode P)
  after_load (storage, rejected) n = some (record n { storage = storage })
  after_load (storage, outside) n = none
  after_load (storage, parsed s) n = some (restored s (record n { storage = storage }))

  -- loadPersistentState
  unfoldable pub load_persistent_state : RaftNode P → Option (RaftNode P)
  load_persistent_state n = after_load (load P n.storage) n

  -- The initializers of RaftNode::RaftNode, on the database that `kvStore_.open` opened.
  unfoldable pub fresh : ℕ → KvStore P → PersistentStorage → ℕ → RaftNode P
  fresh node_id kv_store storage draws = record {
    id = node_id;
    self_ip = [];
    self_port = 0;
    current_term = 0;
    voted_for = none;
    logs = [];
    commit_index = 0;
    last_applied = 0;
    state = follower;
    leader_id = none;
    kv_store = kv_store;
    peers = [];
    running = false;
    last_heartbeat_time = P.now draws;
    election_timeout_ms = 1500 + P.rand draws % 1500;
    storage = storage;
    next_index = [];
    match_index = [];
    last_included_index = 0;
    last_included_term = 0;
    snapshot_threshold = 5;
    config_state = stable;
    current_config = record { nodes = [] };
    old_config = record { nodes = [] };
    new_config = record { nodes = [] };
    voting_member = true;
    removed = false;
    leaving = false;
    draws = draws + 1;
  }

  -- RaftNode::RaftNode
  unfoldable pub new_node : ℕ → KvStore P → PersistentStorage → ℕ → Option (RaftNode P)
  unfolding fresh load_persistent_state
  new_node node_id kv_store storage draws =
      load_persistent_state (fresh node_id kv_store storage draws)

  -- What a node writes to its file.
  abbrev pub saved_state : RaftNode P → SavedState
  saved_state n = record {
    current_term = n.current_term;
    voted_for = n.voted_for;
    last_included_index = n.last_included_index;
    last_included_term = n.last_included_term;
    logs = n.logs;
  }
