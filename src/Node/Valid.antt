-- ===== src/Node/Valid.antt =====
-- The invariant of a node between the locked sections of src/raftCore/raft_node.cpp.
use raft_kv_raft_leveldb.Common.{arith, ◌∙◌, ◌≡◌, ◌≤◌}
use raft_kv_raft_leveldb.Platform.{Platform}
use raft_kv_raft_leveldb.Log.{back_index}
use raft_kv_raft_leveldb.Log.Contig.{Contig}
use raft_kv_raft_leveldb.Node.{RaftNode}

-- The log has no gaps behind the snapshot point, and
-- lastIncludedIndex <= lastApplied <= commitIndex <= last log index.
pub record IsValid {P : Platform} (n : RaftNode P) : Type 0 where
  pub contig : Contig n.last_included_index n.logs
  pub snapshot_applied : n.last_included_index ≤ n.last_applied
  pub applied_committed : n.last_applied ≤ n.commit_index
  pub committed_logged : n.commit_index ≤ back_index n.last_included_index n.logs

-- Two states with the same log, commit index, term, vote and state file.
pub record Kept {P : Platform} (n m : RaftNode P) : Type 0 where
  pub id : m.id ≡ n.id
  pub logs : m.logs ≡ n.logs
  pub last_included_index : m.last_included_index ≡ n.last_included_index
  pub last_included_term : m.last_included_term ≡ n.last_included_term
  pub commit_index : m.commit_index ≡ n.commit_index
  pub current_term : m.current_term ≡ n.current_term
  pub voted_for : m.voted_for ≡ n.voted_for
  pub storage : m.storage ≡ n.storage

module _ {P : Platform} where
  pub Kept-refl : (n : RaftNode P) → Kept n n
  Kept-refl n = ground arith

  pub Kept-trans : {n m k : RaftNode P} → Kept n m → Kept m k → Kept n k
  Kept-trans a b = record {
    id = b.id ∙ a.id;
    logs = b.logs ∙ a.logs;
    last_included_index = b.last_included_index ∙ a.last_included_index;
    last_included_term = b.last_included_term ∙ a.last_included_term;
    commit_index = b.commit_index ∙ a.commit_index;
    current_term = b.current_term ∙ a.current_term;
    voted_for = b.voted_for ∙ a.voted_for;
    storage = b.storage ∙ a.storage;
  }

  -- The invariant needs of the position of application only that it lies between its bounds.
  pub IsValid-Kept :
      {n m : RaftNode P}
      → Kept n m
      → IsValid n
      → n.last_applied ≤ m.last_applied
      → m.last_applied ≤ n.commit_index
      → IsValid m
  IsValid-Kept {n} {m} k v lo hi = record {
    contig = rw (k.last_included_index, k.logs) v.contig;
    snapshot_applied = omega (arith, v.snapshot_applied, k.last_included_index);
    applied_committed = omega (arith, k.commit_index);
    committed_logged = rw (k.last_included_index, k.logs, k.commit_index) v.committed_logged;
  }
