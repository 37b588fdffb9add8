-- ===== src/Run/Fitted.antt =====
-- The vectors nextIndex_ and matchIndex_ over any schedule of the sections of src/raftCore/raft_node.cpp.
use raft_kv_raft_leveldb.Leader.{
  append_command, append_config, find_commit, push_entry, update_commit_index,
}
use raft_kv_raft_leveldb.Common.{
  Bool-cases, List, Option-cases, Text, arith, inl, inr, length-set, min, refl, set, some, ℕ, ◌-◌,
}
use raft_kv_raft_leveldb.Types.{
  AppendEntriesArgs, AppendEntriesReply, CommandType, InstallSnapshotArgs, LogEntry, PeerInfo,
  RequestVoteArgs, RequestVoteReply, is_leader, leader,
}
use raft_kv_raft_leveldb.Platform.{Platform}
use raft_kv_raft_leveldb.Node.{
  RaftNode, become_candidate, become_follower, become_leader, get_last_log_index, persist,
}
use raft_kv_raft_leveldb.Apply.Fitted.{
  IsFitted, apply_committed_logs-IsFitted, init_leader_state-IsFitted,
}
use raft_kv_raft_leveldb.Vote.{
  begin_election, check_election, grant_vote, handle_request_vote, on_vote_reply,
}
use raft_kv_raft_leveldb.Append.{follow_commit, follow_leader, handle_append_entries, store_entries}
use raft_kv_raft_leveldb.Snapshot.{handle_install_snapshot, install}
use raft_kv_raft_leveldb.Read.{on_heartbeat_reply}

module _ {P : Platform} where
  pub become_follower-IsFitted : (t : ℕ) (n : RaftNode P) → IsFitted (become_follower t n)
  unfolding become_follower
  become_follower-IsFitted t n = record { next_index = refl; match_index = refl }

  pub handle_request_vote-IsFitted :
      (args : RequestVoteArgs) (n : RaftNode P)
      → IsFitted n
      → IsFitted (handle_request_vote args n).0
  unfolding handle_request_vote grant_vote become_follower
  handle_request_vote-IsFitted args n f = ground (arith, f)

  pub follow_leader-IsFitted :
      (t leader_id : ℕ) (n : RaftNode P) → IsFitted n → IsFitted (follow_leader t leader_id n)
  unfolding follow_leader become_follower
  follow_leader-IsFitted t leader_id n f = ground (arith, f)

  pub store_entries-IsFitted :
      (es : List LogEntry) (n : RaftNode P) → IsFitted n → IsFitted (store_entries es n)
  unfolding store_entries persist
  store_entries-IsFitted es n f = ground (arith, f)

  pub follow_commit-IsFitted :
      (leader_commit : ℕ) (n : RaftNode P) → IsFitted n → IsFitted (follow_commit leader_commit n)
  unfolding follow_commit
  follow_commit-IsFitted leader_commit n f = ground (
    arith,
    f,
    apply_committed_logs-IsFitted
        (record n { commit_index = min leader_commit (get_last_log_index n) })
        (record { next_index = f.next_index; match_index = f.match_index }),
  )

  pub handle_append_entries-IsFitted :
      (args : AppendEntriesArgs) (n : RaftNode P)
      → IsFitted n
      → IsFitted (handle_append_entries args n).0
  unfolding handle_append_entries
  handle_append_entries-IsFitted args n f =
      let m = follow_leader args.term args.leader_id n in
      let followed = follow_leader-IsFitted args.term args.leader_id n f in
      let stored = store_entries-IsFitted args.entries m followed in
      ground (
        arith,
        f,
        followed,
        follow_commit-IsFitted args.leader_commit (store_entries args.entries m) stored,
      )

  pub handle_install_snapshot-IsFitted :
      (args : InstallSnapshotArgs) (n : RaftNode P)
      → IsFitted n
      → IsFitted (handle_install_snapshot args n).0
  unfolding handle_install_snapshot install persist
  handle_install_snapshot-IsFitted args n f =
      ground (arith, f, follow_leader-IsFitted args.term args.leader_id n f)

  pub begin_election-IsFitted : (n : RaftNode P) → IsFitted n → IsFitted (begin_election n).0
  unfolding begin_election become_candidate
  begin_election-IsFitted n f = ground (arith, f)

  pub check_election-IsFitted :
      (now : ℕ) (n : RaftNode P) → IsFitted n → IsFitted (check_election now n).0
  unfolding check_election
  check_election-IsFitted now n f = ground (arith, f)

  pub on_vote_reply-IsFitted :
      (t : ℕ) (voter : PeerInfo) (reply : RequestVoteReply) (n : RaftNode P) (granted : List ℕ)
      → IsFitted n
      → IsFitted (on_vote_reply t voter reply (n, granted)).0
  unfolding on_vote_reply become_leader
  on_vote_reply-IsFitted t voter reply n granted f = ground (
    arith,
    f,
    become_follower-IsFitted reply.term n,
    init_leader_state-IsFitted (record n { state = leader; leader_id = some n.id }),
  )

  pub append_command-IsFitted :
      (op : CommandType) (key value : Text) (n : RaftNode P)
      → IsFitted n
      → IsFitted (append_command op key value n).0
  unfolding append_command push_entry persist
  append_command-IsFitted op key value n f = ground (arith, f)

  pub append_config-IsFitted :
      (op : CommandType) (label : Text) (old_cfg new_cfg : List PeerInfo) (n : RaftNode P)
      → IsFitted n
      → IsFitted (append_config op label old_cfg new_cfg n).0
  unfolding append_config push_entry persist
  append_config-IsFitted op label old_cfg new_cfg n f = ground (arith, f)

  pub on_heartbeat_reply-IsFitted :
      (t : ℕ) (reply : AppendEntriesReply) (count : ℕ) (n : RaftNode P)
      → IsFitted n
      → IsFitted (on_heartbeat_reply t reply count n).0
  unfolding on_heartbeat_reply
  on_heartbeat_reply-IsFitted t reply count n f =
      ground (arith, f, become_follower-IsFitted reply.term n)

  pub set-IsFitted :
      (i next_at match_at : ℕ) (n : RaftNode P)
      → IsFitted n
      → IsFitted (record n {
        match_index = set n.match_index i match_at;
        next_index = set n.next_index i next_at;
      })
  set-IsFitted i next_at match_at n f =
      ground (arith, f, length-set n.match_index i match_at, length-set n.next_index i next_at)

  pub set_next-IsFitted :
      (i next_at : ℕ) (n : RaftNode P)
      → IsFitted n
      → IsFitted (record n { next_index = set n.next_index i next_at })
  set_next-IsFitted i next_at n f = ground (arith, f, length-set n.next_index i next_at)

  pub update_commit_index-IsFitted :
      (n : RaftNode P) → IsFitted n → IsFitted (update_commit_index n)
  unfolding update_commit_index
  update_commit_index-IsFitted n f = elim (Bool-cases (is_leader n.state)) [
    | inr idle ↦ rw idle f
    | inl leads ↦ elim (Option-cases (find_commit (get_last_log_index n - n.commit_index) n)) [
      | inl none_found ↦ rw (leads, none_found) f
      | inr (i, chosen) ↦
          rw (leads, chosen)
            (apply_committed_logs-IsFitted (record n { commit_index = i })
              (record { next_index = f.next_index; match_index = f.match_index }))
    ]
  ]
