-- ===== src/Tests/Leader.antt =====
-- The leader at concrete inputs.
use raft_kv_raft_leveldb.Log.Contig.{Contig}
use raft_kv_raft_leveldb.Leader.{
  append_request, by_snapshot, choose_route, fault, find_commit, note_reply, on_append_reply, ready,
  update_commit_index,
}
use raft_kv_raft_leveldb.Leader.Commit.{Committable, NoneAbove, update_commit_index_lem}
use raft_kv_raft_leveldb.Leader.Request.{append_request_lem}
use raft_kv_raft_leveldb.Leader.Retry.{Refused, again, refusals_reach_snapshot, start}
use raft_kv_raft_leveldb.Append.Handler.{IsAcceptable}
use raft_kv_raft_leveldb.Run.{here}
use raft_kv_raft_leveldb.Run.Bounds.{Reach-in_bounds}
use raft_kv_raft_leveldb.Run.Removed.{on_append_reply_removed}
use raft_kv_raft_leveldb.Apply.Fitted.{IsFitted}
use raft_kv_raft_leveldb.Snapshot.{on_snapshot_reply}
use raft_kv_raft_leveldb.Types.{
  AppendEntriesReply, LogEntry, config_new, contains_id, is_leader, leader, size,
}
use raft_kv_raft_leveldb.Common.{
  [], arith, drop, false, length, none, refl, some, true, ℕ, ◌+◌, ◌<◌, ◌∷◌, ◌≡◌, ◌≢◌, ◌⊎◌,
}
use raft_kv_raft_leveldb.Node.{RaftNode, get_last_log_index, get_log_term_at, has_log_at}
use raft_kv_raft_leveldb.Tests.Memory.{memory}
use raft_kv_raft_leveldb.Tests.Nodes.{node, node-IsValid, peer, third_entry}
use raft_kv_raft_leveldb.Log.{back_index, entry_at}
use raft_kv_raft_leveldb.Quorum.{
  count_matched, has_matched, is_majority_in_config, is_majority_matched_for_entry,
}
use raft_kv_raft_leveldb.Apply.{
  apply_committed_logs, apply_entry, apply_loop, apply_next, maybe_create_snapshot, others,
}

update_commit_index_lem_example :
    let n = node leader in
    let m = update_commit_index n in
    ((m ≡ n) × ((is_leader n.state ≡ false) ⊎ NoneAbove n n.commit_index))
    ⊎ ((is_leader n.state ≡ true)
        × Committable n m.commit_index
        × (n.commit_index < m.commit_index)
        × (m.last_applied ≡ m.commit_index)
        × NoneAbove n m.commit_index)
update_commit_index_lem_example = update_commit_index_lem (node leader) (node-IsValid leader)

-- Peer 2 holds both entries, so the second is committed.
update_commit_index_run : (update_commit_index (node leader)).commit_index ≡ 2
unfolding update_commit_index find_commit get_last_log_index back_index get_log_term_at entry_at
    is_majority_matched_for_entry is_majority_in_config size count_matched has_matched
    apply_committed_logs maybe_create_snapshot apply_loop apply_next apply_entry
update_commit_index_run = refl

append_request_lem_example :
    let args = append_request 2 (node leader) in
    (args.entries ≡ drop 1 (node leader).logs)
    × Contig args.prev_log_index args.entries
    × (args.prev_log_index + length args.entries ≡ get_last_log_index (node leader))
    × (has_log_at (node leader) args.prev_log_index ≡ true)
    × ((t : ℕ) × (args.prev_log_term ≡ some t))
unfolding get_last_log_index back_index
append_request_lem_example =
    append_request_lem 2 (node leader) (node-IsValid leader) (omega arith) (omega arith)

-- Peer 2 has been refusing, down to the first entry.
abbrev waiting : RaftNode memory
waiting = record (node leader) { next_index = 1 ∷ 3 ∷ [] }

abbrev refusal : AppendEntriesReply
refusal = record { term = 2; success = false }

one_refusal : Refused 0 waiting 1 (record waiting { next_index = 0 ∷ 3 ∷ [] })
unfolding on_append_reply note_reply
one_refusal = again (append_request 1 waiting) refusal start refl (omega arith) refl

refusals_reach_snapshot_example :
    choose_route 0 (record waiting { next_index = 0 ∷ 3 ∷ [] }) ≡ ready by_snapshot
refusals_reach_snapshot_example =
    refusals_reach_snapshot 0 1 1 waiting (record waiting { next_index = 0 ∷ 3 ∷ [] }) refl
      (omega arith) refl one_refusal (omega arith)

waiting-IsFitted : IsFitted (node leader)
waiting-IsFitted = record { next_index = refl; match_index = refl }

Reach-in_bounds_example :
    (choose_route 7 (node leader) ≢ fault)
    × (on_append_reply 1 2 (append_request 3 (node leader)) refusal (node leader) ≢ fault)
    × (on_snapshot_reply 1 2 (record { term = 2 }) (node leader) ≢ none)
Reach-in_bounds_example =
    Reach-in_bounds {Ok = IsAcceptable} 7 1 2 (append_request 3 (node leader)) refusal
      (record { term = 2 }) here waiting-IsFitted (omega arith)

-- The entry that removes node 3.
abbrev removal : LogEntry
removal = record third_entry { op = config_new; new_config = peer 1 ∷ peer 2 ∷ [] }

-- The reply of node 3, which has been removed while the request was under way.
on_append_reply_removed_example :
    let m = apply_entry removal (node leader) in
    (on_append_reply 1 2 (append_request 3 (node leader)) refusal (node leader) ≢ fault)
    × (is_leader m.state ≡ true)
    × (m.current_term ≡ 2)
    × (m.peers ≡ peer 2 ∷ [])
    × (on_append_reply 1 2 (append_request 3 (node leader)) refusal m ≡ fault)
unfolding contains_id others
on_append_reply_removed_example =
    on_append_reply_removed 1 (append_request 3 (node leader)) refusal removal (node leader)
      waiting-IsFitted refl (omega arith) (omega arith) refl refl (omega arith)
