-- ===== src/Run/Valid.antt =====
-- The invariant of a node over any schedule of the sections of src/raftCore/raft_node.cpp.
use raft_kv_raft_leveldb.Types.{CommandType, LogEntry, PeerInfo, is_leader}
use raft_kv_raft_leveldb.Run.{
  Reach, Step, append_reply, command, commit, config, election_begin, election_check,
  entries_arrive, heartbeat_reply, here, next, request_vote, snapshot_arrives, snapshot_reply,
  vote_reply,
}
use raft_kv_raft_leveldb.Common.{Bool-cases, List, Text, arith, inl, inr, refl, ◌+◌, ◌≡◌}
use raft_kv_raft_leveldb.Platform.{Platform}
use raft_kv_raft_leveldb.Log.Contig.{Contig-snoc, back_index-snoc}
use raft_kv_raft_leveldb.Node.{RaftNode, get_last_log_index}
use raft_kv_raft_leveldb.Node.Valid.{IsValid}
use raft_kv_raft_leveldb.Append.Handler.{handle_append_entries-IsValid}
use raft_kv_raft_leveldb.Snapshot.Install.{handle_install_snapshot-IsValid}
use raft_kv_raft_leveldb.Leader.{append_command, append_config, push_entry}
use raft_kv_raft_leveldb.Leader.Commit.{update_commit_index-IsValid}
use raft_kv_raft_leveldb.Run.Frames.{
  IsValid-Untouched, begin_election-Untouched, check_election-Untouched,
  handle_request_vote-Untouched, on_append_reply-Untouched, on_heartbeat_reply-Untouched,
  on_snapshot_reply-Untouched, on_vote_reply-Untouched,
}

module _ {P : Platform} where
  push_entry-IsValid :
      (e : LogEntry) (n : RaftNode P)
      → IsValid n
      → e.index ≡ get_last_log_index n + 1
      → IsValid (push_entry e n)
  unfolding push_entry get_last_log_index
  push_entry-IsValid e n v h = record {
    contig = Contig-snoc n.last_included_index n.logs e v.contig (omega arith);
    snapshot_applied = v.snapshot_applied;
    applied_committed = v.applied_committed;
    committed_logged =
        omega (arith, back_index-snoc n.last_included_index n.logs e, v.committed_logged);
  }

  pub append_command-IsValid :
      (op : CommandType) (key value : Text) (n : RaftNode P)
      → IsValid n
      → IsValid (append_command op key value n).0
  unfolding append_command
  append_command-IsValid op key value n v = elim (Bool-cases (is_leader n.state)) [
    | inr idle ↦ rw idle v
    | inl leads ↦ rw leads (push_entry-IsValid _ n v refl)
  ]

  pub append_config-IsValid :
      (op : CommandType) (label : Text) (old_cfg new_cfg : List PeerInfo) (n : RaftNode P)
      → IsValid n
      → IsValid (append_config op label old_cfg new_cfg n).0
  unfolding append_config
  append_config-IsValid op label old_cfg new_cfg n v = elim (Bool-cases (is_leader n.state)) [
    | inr idle ↦ rw idle v
    | inl leads ↦ rw leads (push_entry-IsValid _ n v refl)
  ]

  -- Every section keeps the invariant.
  pub Step-IsValid : {n m : RaftNode P} → Step n m → IsValid n → IsValid m
  Step-IsValid {n} (request_vote args) v =
      IsValid-Untouched (handle_request_vote-Untouched args n) v
  Step-IsValid {n} (entries_arrive args c) v = handle_append_entries-IsValid args n v c
  Step-IsValid {n} (snapshot_arrives args) v = handle_install_snapshot-IsValid args n v
  Step-IsValid {n} (election_check now) v = IsValid-Untouched (check_election-Untouched now n) v
  Step-IsValid {n} election_begin v = IsValid-Untouched (begin_election-Untouched n) v
  Step-IsValid {n} (vote_reply t peer reply granted) v =
      IsValid-Untouched (on_vote_reply-Untouched t peer reply n granted) v
  Step-IsValid {n} (command op key value) v = append_command-IsValid op key value n v
  Step-IsValid {n} (config op label old_cfg new_cfg) v =
      append_config-IsValid op label old_cfg new_cfg n v
  Step-IsValid {n} {m} (append_reply i t args reply {done = b} h) v =
      IsValid-Untouched (on_append_reply-Untouched i t args reply n m b h) v
  Step-IsValid {n} {m} (snapshot_reply i t reply {done = b} h) v =
      IsValid-Untouched (on_snapshot_reply-Untouched i t reply n m b h) v
  Step-IsValid {n} (heartbeat_reply t reply c) v =
      IsValid-Untouched (on_heartbeat_reply-Untouched t reply c n) v
  Step-IsValid {n} commit v = update_commit_index-IsValid n v

  -- From a valid state, after any number of sections in any order, the node is valid: its log has
  -- no gaps behind the snapshot point, and lastIncludedIndex <= lastApplied <= commitIndex <=
  -- last log index. Requests and replies are arbitrary, but the entries of the AppendEntries
  -- requests that the node stores run on from the previous index and do not contradict committed
  -- ones.
  pub Reach-IsValid : {n m : RaftNode P} → Reach n m → IsValid n → IsValid m
  Reach-IsValid here v = v
  Reach-IsValid (next r s) v = Step-IsValid s (Reach-IsValid r v)
