-- ===== src/Apply/Frame.antt =====
-- What applying an entry leaves alone: the log, the commit position, the term and the vote.
use raft_kv_raft_leveldb.Common.{arith}
use raft_kv_raft_leveldb.Types.{LogEntry}
use raft_kv_raft_leveldb.Platform.{Platform}
use raft_kv_raft_leveldb.Node.{RaftNode}
use raft_kv_raft_leveldb.Node.Valid.{Kept}
use raft_kv_raft_leveldb.Apply.{apply_config_joint, apply_config_new, apply_entry, reset_if_leader}

module _ {P : Platform} where
  reset_if_leader-Kept : (n : RaftNode P) → Kept n (reset_if_leader n)
  unfolding reset_if_leader
  reset_if_leader-Kept n = ground arith

  apply_config_joint-Kept : (e : LogEntry) (n : RaftNode P) → Kept n (apply_config_joint e n)
  unfolding apply_config_joint
  apply_config_joint-Kept e n = ground arith

  apply_config_new-Kept : (e : LogEntry) (n : RaftNode P) → Kept n (apply_config_new e n)
  unfolding apply_config_new
  apply_config_new-Kept e n = ground arith

  pub apply_entry-Kept : (e : LogEntry) (n : RaftNode P) → Kept n (apply_entry e n)
  unfolding apply_entry
  apply_entry-Kept e n = ground arith
