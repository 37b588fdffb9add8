-- ===== src/Tests/Nodes.antt =====
-- A follower and a leader of a cluster of three, with two entries in the log.
use raft_kv_raft_leveldb.Types.{
  ClusterConfig, LogEntry, NodeState, PeerInfo, del, log_entry, put, stable,
}
use raft_kv_raft_leveldb.Common.{[], arith, codes, false, none, refl, some, true, ℕ, ◌∷◌}
use raft_kv_raft_leveldb.Node.{RaftNode}
use raft_kv_raft_leveldb.Node.Valid.{IsValid}
use raft_kv_raft_leveldb.Tests.Memory.{memory}
use raft_kv_raft_leveldb.Log.{back_index}

abbrev pub peer : ℕ → PeerInfo
peer i = record { id = i; ip = codes "h"; port = 7000 }

abbrev pub three : ClusterConfig
three = record { nodes = peer 1 ∷ peer 2 ∷ peer 3 ∷ [] }

abbrev pub first_entry : LogEntry
first_entry = log_entry 1 1 put (codes "a") (codes "x")

abbrev pub second_entry : LogEntry
second_entry = log_entry 2 2 put (codes "b") (codes "y")

abbrev pub third_entry : LogEntry
third_entry = log_entry 2 3 del (codes "a") (codes "")

-- Node 1 in term 2, with one of two entries committed and applied.
abbrev pub node : NodeState → RaftNode memory
node s = record {
  id = 1;
  self_ip = codes "h";
  self_port = 7000;
  current_term = 2;
  voted_for = some 1;
  logs = first_entry ∷ second_entry ∷ [];
  commit_index = 1;
  last_applied = 1;
  state = s;
  leader_id = none;
  kv_store = record { db = some [] };
  peers = peer 2 ∷ peer 3 ∷ [];
  running = true;
  last_heartbeat_time = 0;
  election_timeout_ms = 1500;
  storage = record { state_file = none; attempts = 0 };
  next_index = 3 ∷ 3 ∷ [];
  match_index = 2 ∷ 0 ∷ [];
  last_included_index = 0;
  last_included_term = 0;
  snapshot_threshold = 5;
  config_state = stable;
  current_config = three;
  old_config = record { nodes = [] };
  new_config = record { nodes = [] };
  voting_member = true;
  removed = false;
  leaving = false;
  draws = 0;
}

pub node-IsValid : (s : NodeState) → IsValid (node s)
unfolding back_index
node-IsValid s = record {
  contig = (refl, (refl, tt));
  snapshot_applied = omega arith;
  applied_committed = omega arith;
  committed_logged = omega arith;
}
