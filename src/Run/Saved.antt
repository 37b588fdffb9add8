-- ===== src/Run/Saved.antt =====
-- The state file of src/persistence/storage.cpp over any schedule of the sections of
-- src/raftCore/raft_node.cpp, where the file can always be opened.
use raft_kv_raft_leveldb.Types.{
  AppendEntriesArgs, AppendEntriesReply, CommandType, InstallSnapshotReply, LogEntry, PeerInfo,
  RequestVoteReply, is_leader,
}
use raft_kv_raft_leveldb.Common.{
  Bool, Bool-cases, List, Option-cases, Text, arith, inl, inr, some, true, ℕ, ◌-◌, ◌≡◌,
}
use raft_kv_raft_leveldb.Platform.{Platform}
use raft_kv_raft_leveldb.Node.{
  RaftNode, become_candidate, become_follower, become_leader, get_last_log_index,
}
use raft_kv_raft_leveldb.Read.{on_heartbeat_reply}
use raft_kv_raft_leveldb.Vote.{begin_election, check_election, on_vote_reply}
use raft_kv_raft_leveldb.Snapshot.{on_snapshot_reply}
use raft_kv_raft_leveldb.Leader.{
  append_command, append_config, find_commit, note_reply, on_append_reply, push_entry, ready,
  update_commit_index,
}
use raft_kv_raft_leveldb.Run.{
  ReachOf, StepOf, append_reply, command, commit, config, election_begin, election_check,
  entries_arrive, heartbeat_reply, here, next, request_vote, snapshot_arrives, snapshot_reply,
  vote_reply,
}
use raft_kv_raft_leveldb.Run.Written.{
  IsSaved, apply_committed_logs-IsSaved, become_follower-IsSaved, handle_append_entries-IsSaved,
  handle_install_snapshot-IsSaved, handle_request_vote-IsSaved, persist-IsSaved,
}

module _ {P : Platform} where
  on_heartbeat_reply-IsSaved :
      (t : ℕ) (reply : AppendEntriesReply) (c : ℕ) (n : RaftNode P)
      → IsSaved n
      → IsSaved (become_follower reply.term n)
      → IsSaved (on_heartbeat_reply t reply c n).0
  unfolding on_heartbeat_reply
  on_heartbeat_reply-IsSaved t reply c n s f = ground (arith, s.file, f.file)

  on_vote_reply-IsSaved :
      (t : ℕ) (voter : PeerInfo) (reply : RequestVoteReply) (n : RaftNode P) (g : List ℕ)
      → IsSaved n
      → IsSaved (become_follower reply.term n)
      → IsSaved (on_vote_reply t voter reply (n, g)).0
  unfolding on_vote_reply become_leader
  on_vote_reply-IsSaved t voter reply n g s f = ground (arith, s.file, f.file)

  on_append_reply-IsSaved :
      (i t : ℕ) (args : AppendEntriesArgs) (reply : AppendEntriesReply) (n m : RaftNode P)
      (b : Bool)
      → IsSaved n
      → IsSaved (become_follower reply.term n)
      → on_append_reply i t args reply n ≡ ready (m, b)
      → IsSaved m
  unfolding on_append_reply note_reply
  on_append_reply-IsSaved i t args reply n m b s f h = ground (arith, s.file, f.file)

  on_snapshot_reply-IsSaved :
      (i t : ℕ) (reply : InstallSnapshotReply) (n m : RaftNode P) (b : Bool)
      → IsSaved n
      → IsSaved (become_follower reply.term n)
      → on_snapshot_reply i t reply n ≡ some (m, b)
      → IsSaved m
  unfolding on_snapshot_reply
  on_snapshot_reply-IsSaved i t reply n m b s f h = ground (arith, s.file, f.file)

module _ {P : Platform} (opens : (k : ℕ) → P.can_open k ≡ true) where
  push_entry-IsSaved : (e : LogEntry) (n : RaftNode P) → IsSaved (push_entry e n)
  unfolding push_entry
  push_entry-IsSaved e n = persist-IsSaved opens _

  append_command-IsSaved :
      (op : CommandType) (key value : Text) (n : RaftNode P)
      → IsSaved n
      → IsSaved (append_command op key value n).0
  unfolding append_command
  append_command-IsSaved op key value n s = elim (Bool-cases (is_leader n.state)) [
    | inr idle ↦ rw idle s
    | inl leads ↦ rw leads (push_entry-IsSaved _ n)
  ]

  append_config-IsSaved :
      (op : CommandType) (label : Text) (old_cfg new_cfg : List PeerInfo) (n : RaftNode P)
      → IsSaved n
      → IsSaved (append_config op label old_cfg new_cfg n).0
  unfolding append_config
  append_config-IsSaved op label old_cfg new_cfg n s = elim (Bool-cases (is_leader n.state)) [
    | inr idle ↦ rw idle s
    | inl leads ↦ rw leads (push_entry-IsSaved _ n)
  ]

  update_commit_index-IsSaved : (n : RaftNode P) → IsSaved n → IsSaved (update_commit_index n)
  unfolding update_commit_index
  update_commit_index-IsSaved n s = elim (Bool-cases (is_leader n.state)) [
    | inr idle ↦ rw idle s
    | inl leads ↦ elim (Option-cases (find_commit (get_last_log_index n - n.commit_index) n)) [
      | inl nothing ↦ rw (leads, nothing) s
      | inr (i, chosen) ↦
          rw (leads, chosen)
            (apply_committed_logs-IsSaved opens (record n { commit_index = i })
              (record { file = s.file }))
    ]
  ]

  check_election-IsSaved : (now : ℕ) (n : RaftNode P) → IsSaved n → IsSaved (check_election now n).0
  unfolding check_election
  check_election-IsSaved now n s = ground (arith, s.file)

  become_candidate-IsSaved : (n : RaftNode P) → IsSaved (become_candidate n)
  unfolding become_candidate
  become_candidate-IsSaved n = persist-IsSaved opens _

  begin_election-IsSaved : (n : RaftNode P) → IsSaved n → IsSaved (begin_election n).0
  unfolding begin_election
  begin_election-IsSaved n s = ground (arith, s.file, (become_candidate-IsSaved n).file)

  Step-IsSaved :
      {Ok : AppendEntriesArgs → RaftNode P → Type 0} {n m : RaftNode P}
      → StepOf Ok n m
      → IsSaved n
      → IsSaved m
  Step-IsSaved {n} (request_vote args) s = handle_request_vote-IsSaved opens args n s
  Step-IsSaved {n} (entries_arrive args c) s = handle_append_entries-IsSaved opens args n s
  Step-IsSaved {n} (snapshot_arrives args) s = handle_install_snapshot-IsSaved opens args n s
  Step-IsSaved {n} (election_check now) s = check_election-IsSaved now n s
  Step-IsSaved {n} election_begin s = begin_election-IsSaved n s
  Step-IsSaved {n} (vote_reply t voter reply granted) s =
      on_vote_reply-IsSaved t voter reply n granted s (become_follower-IsSaved opens reply.term n)
  Step-IsSaved {n} (command op key value) s = append_command-IsSaved op key value n s
  Step-IsSaved {n} (config op label old_cfg new_cfg) s =
      append_config-IsSaved op label old_cfg new_cfg n s
  Step-IsSaved {n} {m} (append_reply i t args reply {done = b} h) s =
      on_append_reply-IsSaved i t args reply n m b s (become_follower-IsSaved opens reply.term n) h
  Step-IsSaved {n} {m} (snapshot_reply i t reply {done = b} h) s =
      on_snapshot_reply-IsSaved i t reply n m b s (become_follower-IsSaved opens reply.term n) h
  Step-IsSaved {n} (heartbeat_reply t reply c) s =
      on_heartbeat_reply-IsSaved t reply c n s (become_follower-IsSaved opens reply.term n)
  Step-IsSaved {n} commit s = update_commit_index-IsSaved n s

  -- Where the state file can always be opened, then after any number of sections in any order,
  -- whatever requests and replies arrive in them, the file holds the node's term, vote, snapshot point
  -- and log, if it did at the start.
  pub Reach-IsSaved :
      {Ok : AppendEntriesArgs → RaftNode P → Type 0} {n m : RaftNode P}
      → ReachOf Ok n m
      → IsSaved n
      → IsSaved m
  Reach-IsSaved here s = s
  Reach-IsSaved (next r st) s = Step-IsSaved st (Reach-IsSaved r s)
