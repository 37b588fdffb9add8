-- ===== src/Run/Credit.antt =====
-- What the leader may conclude from the success of handleAppendEntries in src/raftCore/raft_node.cpp.
use raft_kv_raft_leveldb.Append.{handle_append_entries}
use raft_kv_raft_leveldb.Log.Merge.{merge}
use raft_kv_raft_leveldb.Run.Forward.{handle_append_entries-IsForward}
use raft_kv_raft_leveldb.Common.{inr, List, [], arith, length, length-append, ℕ, ◌+◌, ◌∷◌, ◌≤◌}
use raft_kv_raft_leveldb.Types.{AppendEntriesArgs, LogEntry}
use raft_kv_raft_leveldb.Platform.{Platform}
use raft_kv_raft_leveldb.Log.{back_index}
use raft_kv_raft_leveldb.Log.Contig.{Contig, back_index-Contig, back_index-entries_above}
use raft_kv_raft_leveldb.Node.{RaftNode, get_last_log_index}
use raft_kv_raft_leveldb.Node.Valid.{IsValid}
use raft_kv_raft_leveldb.Append.Cases.{IsHeard, IsMatched}
use raft_kv_raft_leveldb.Append.Store.{
  has_log_at-le, kept_part, merged_log, merged_log-Contig, merged_part, split_at,
}
use raft_kv_raft_leveldb.Append.Handler.{IsConsistent}
use raft_kv_raft_leveldb.Append.Matched.{handle_append_entries_matched}

length-merge_new : (local new : List LogEntry) → length new ≤ length (merge local new)
unfolding merge
length-merge_new local [] = omega arith
length-merge_new [] (e ∷ es) = omega arith
length-merge_new (l ∷ ls) (e ∷ es) = ground (arith, length-merge_new ls es)

module _ {P : Platform} where
  -- The merged log reaches the last new entry.
  merged_log-reaches :
      (n : RaftNode P) (prev : ℕ) (entries : List LogEntry)
      → IsValid n
      → n.last_included_index ≤ prev
      → prev ≤ back_index n.last_included_index n.logs
      → Contig prev entries
      → prev + length entries ≤ back_index n.last_included_index (merged_log prev entries n)
  merged_log-reaches n prev entries v lo hi c =
      let (len, _, _) = split_at n prev v lo hi in
      let last =
        back_index-Contig n.last_included_index (merged_log prev entries n)
          (merged_log-Contig n prev entries v lo hi c) in
      let size = length-append (kept_part prev n) (merge (merged_part prev n) entries) in
      omega (arith, last, size, len, length-merge_new (merged_part prev n) entries)

  -- On a valid node, a request from a member, not behind in its term, whose previous entry the log
  -- holds behind the snapshot point, and whose entries run on from there without contradicting
  -- committed ones, leaves a log that reaches the index which the leader notes as matched.
  pub handle_append_entries_credit :
      (args : AppendEntriesArgs) (n : RaftNode P)
      → IsValid n
      → IsHeard args n
      → IsMatched args n
      → IsConsistent args n
      → args.prev_log_index + length args.entries
        ≤ get_last_log_index (handle_append_entries args n).0
  unfolding get_last_log_index
  handle_append_entries_credit args n v h m c =
      let log = merged_log args.prev_log_index args.entries n in
      let reaches =
        merged_log-reaches n args.prev_log_index args.entries v m.0
          (has_log_at-le n args.prev_log_index v m.0 m.1) c.contig in
      let (_, _, _, logs, _) = handle_append_entries_matched args n v h m c in
      let forward = handle_append_entries-IsForward args n v (inr c) in
      let end =
        back_index-entries_above (handle_append_entries args n).0.last_included_index
          n.last_included_index log
          (merged_log-Contig n args.prev_log_index args.entries v m.0
            (has_log_at-le n args.prev_log_index v m.0 m.1) c.contig)
          forward.last_included_index in
      rw logs (omega (arith, end, reaches))
