-- ===== src/Append.antt =====
-- handleAppendEntries of src/raftCore/raft_node.cpp.
pub mod Cases
pub mod Store
pub mod Handler
pub mod Matched
pub mod Hazards
use raft_kv_raft_leveldb.Common.{List, false, if◌then◌else◌, ltb, min, not, some, true, ℕ, ◌||◌}
use raft_kv_raft_leveldb.Types.{
  AppendEntriesArgs, AppendEntriesReply, LogEntry, is_follower, option_eq,
}
use raft_kv_raft_leveldb.Platform.{Platform}
use raft_kv_raft_leveldb.Log.{append_entries}
use raft_kv_raft_leveldb.Node.{
  RaftNode, become_follower, get_last_log_index, get_log_term_at, has_log_at,
  is_node_in_current_voting_config, persist, reset_election_timer,
}
use raft_kv_raft_leveldb.Apply.{apply_committed_logs}

module _ {P : Platform} where
  -- `becomeFollower` if the term is newer or the node is no follower; then the leader is recorded.
  unfoldable pub follow_leader : ℕ → ℕ → RaftNode P → RaftNode P
  follow_leader term sender n =
      let n₁ =
        if ltb n.current_term term || not (is_follower n.state)
        then become_follower term n
        else n in
      reset_election_timer (record n₁ { leader_id = some sender })

  -- The loop over the new entries, and the state file if the log changed.
  unfoldable pub store_entries : List LogEntry → RaftNode P → RaftNode P
  store_entries entries n =
      let (logs', changed) = append_entries n.last_included_index entries (n.logs, false) in
      let n₁ = record n { logs = logs' } in if changed then persist n₁ else n₁

  -- The commit index after the leader's, and the entries that it commits applied.
  unfoldable pub follow_commit : ℕ → RaftNode P → RaftNode P
  follow_commit leader_commit n =
      if ltb n.commit_index leader_commit
      then apply_committed_logs
          (record n { commit_index = min leader_commit (get_last_log_index n) })
      else n

  -- handleAppendEntries
  unfoldable pub handle_append_entries :
      AppendEntriesArgs → RaftNode P → RaftNode P × AppendEntriesReply
  handle_append_entries args n =
      let refusal : AppendEntriesReply = record { term = n.current_term; success = false } in
      if not (is_node_in_current_voting_config n args.leader_id)
      then (n, refusal)
      else if ltb args.term n.current_term
      then (n, refusal)
      else let n₁ = follow_leader args.term args.leader_id n in
        if ltb args.prev_log_index n₁.last_included_index
        then (n₁, record { term = n₁.current_term; success = true })
        else if not (has_log_at n₁ args.prev_log_index)
        then (n₁, refusal)
        else if not (option_eq (get_log_term_at n₁ args.prev_log_index) args.prev_log_term)
        then (n₁, refusal)
        else let n₂ = follow_commit args.leader_commit (store_entries args.entries n₁) in
          (n₂, record { term = n₂.current_term; success = true })
