-- ===== src/Append/Store.antt =====
-- What handleAppendEntries of src/raftCore/raft_node.cpp does to the log of a valid node behind the
-- matching entry.
use raft_kv_raft_leveldb.Common.{
  Bool-cases, List, Option-cases, arith, drop, false, if◌then◌else◌, inl, inr, length,
  length-append, length-drop_le, length-take_le, ltb, take, take-append-drop, true, ℕ, ◌++◌, ◌+◌,
  ◌-◌, ◌≡◌, ◌≤◌,
}
use raft_kv_raft_leveldb.Types.{LogEntry}
use raft_kv_raft_leveldb.Platform.{Platform}
use raft_kv_raft_leveldb.Log.{append_entries, back_index}
use raft_kv_raft_leveldb.Log.Contig.{
  Contig, Contig-append, Contig-append_left, Contig-append_right, back_index-Contig, entry_at-le,
}
use raft_kv_raft_leveldb.Log.Merge.{
  Agrees, append_entries-merge, length-merge, merge, merge-Contig, merge_changes,
}
use raft_kv_raft_leveldb.Node.{RaftNode, get_last_log_index, has_log_at, log_at, persist}
use raft_kv_raft_leveldb.Node.Valid.{IsValid}
use raft_kv_raft_leveldb.Append.{follow_commit, store_entries}
use raft_kv_raft_leveldb.Apply.Compact.{apply_committed_logs-IsValid}

-- The entries up to the matching one, and those behind it.
abbrev pub kept_part : {P : Platform} → ℕ → RaftNode P → List LogEntry
kept_part prev n = take (prev - n.last_included_index) n.logs

abbrev pub merged_part : {P : Platform} → ℕ → RaftNode P → List LogEntry
merged_part prev n = drop (prev - n.last_included_index) n.logs

-- Raft's log after the request.
abbrev pub merged_log : {P : Platform} → ℕ → List LogEntry → RaftNode P → List LogEntry
merged_log prev entries n = kept_part prev n ++ merge (merged_part prev n) entries

module _ {P : Platform} where
  pub has_log_at-le :
      (n : RaftNode P) (i : ℕ)
      → IsValid n
      → n.last_included_index ≤ i
      → has_log_at n i ≡ true
      → i ≤ back_index n.last_included_index n.logs
  unfolding has_log_at
  has_log_at-le n i v lo h = elim (Option-cases (log_at n i)) [
    | inr (e, at) ↦ (entry_at-le n.last_included_index n.logs i e v.contig (unfold log_at in at)).1
    | inl absent ↦ ground (arith, absent, back_index-Contig n.last_included_index n.logs v.contig)
  ]

  -- The matching entry splits the log.
  pub split_at :
      (n : RaftNode P) (prev : ℕ)
      → IsValid n
      → n.last_included_index ≤ prev
      → prev ≤ back_index n.last_included_index n.logs
      → (n.last_included_index + length (kept_part prev n) ≡ prev)
        × (kept_part prev n ++ merged_part prev n ≡ n.logs)
        × (prev + length (merged_part prev n) ≡ back_index n.last_included_index n.logs)
  split_at n prev v lo hi =
      let last = back_index-Contig n.last_included_index n.logs v.contig in
      let short : prev - n.last_included_index ≤ length n.logs = omega (arith, last) in
      (
        omega (arith, length-take_le (prev - n.last_included_index) n.logs short),
        take-append-drop (prev - n.last_included_index) n.logs,
        omega (arith, last, length-drop_le (prev - n.last_included_index) n.logs short),
      )

  -- The loop over the new entries writes the merged log.
  store_entries-logs :
      (n : RaftNode P) (prev : ℕ) (entries : List LogEntry)
      → IsValid n
      → n.last_included_index ≤ prev
      → prev ≤ back_index n.last_included_index n.logs
      → Contig prev entries
      → append_entries n.last_included_index entries (n.logs, false)
        ≡ (merged_log prev entries n, merge_changes (merged_part prev n) entries)
  store_entries-logs n prev entries v lo hi c =
      let (len, whole, _) = split_at n prev v lo hi in
      let merged =
        append_entries-merge n.last_included_index (kept_part prev n) (merged_part prev n) entries
          false (rw len c) in
      rw whole at merged

  -- So the node's log is the merged log, and the state file is written if an entry changed.
  pub store_entries_lem :
      (n : RaftNode P) (prev : ℕ) (entries : List LogEntry)
      → IsValid n
      → n.last_included_index ≤ prev
      → prev ≤ back_index n.last_included_index n.logs
      → Contig prev entries
      → store_entries entries n ≡ (
          if merge_changes (merged_part prev n) entries
          then persist (record n { logs = merged_log prev entries n })
          else record n { logs = merged_log prev entries n })
  unfolding store_entries
  store_entries_lem n prev entries v lo hi c = rw (store_entries-logs n prev entries v lo hi c)

  pub merged_log-Contig :
      (n : RaftNode P) (prev : ℕ) (entries : List LogEntry)
      → IsValid n
      → n.last_included_index ≤ prev
      → prev ≤ back_index n.last_included_index n.logs
      → Contig prev entries
      → Contig n.last_included_index (merged_log prev entries n)
  merged_log-Contig n prev entries v lo hi c =
      let (len, whole, _) = split_at n prev v lo hi in
      let split : Contig n.last_included_index (kept_part prev n ++ merged_part prev n) =
        rw whole v.contig in
      let behind : Contig prev (merged_part prev n) =
        rw len at (
          Contig-append_right n.last_included_index (kept_part prev n) (merged_part prev n)
            split) in
      Contig-append n.last_included_index (kept_part prev n) (merge (merged_part prev n) entries)
        (Contig-append_left n.last_included_index (kept_part prev n) (merged_part prev n) split)
        (rw len (merge-Contig prev (merged_part prev n) entries behind c))

  -- The new log reaches the commit index, if the new entries agree with the committed ones.
  merged_log-le :
      (n : RaftNode P) (prev : ℕ) (entries : List LogEntry)
      → IsValid n
      → n.last_included_index ≤ prev
      → prev ≤ back_index n.last_included_index n.logs
      → Contig prev entries
      → Agrees (n.commit_index - prev) (merged_part prev n) entries
      → n.commit_index ≤ back_index n.last_included_index (merged_log prev entries n)
  merged_log-le n prev entries v lo hi c agrees =
      let (len, whole, rest) = split_at n prev v lo hi in
      let last =
        back_index-Contig n.last_included_index (merged_log prev entries n)
          (merged_log-Contig n prev entries v lo hi c) in
      let size = length-append (kept_part prev n) (merge (merged_part prev n) entries) in
      let reach =
        length-merge (n.commit_index - prev) (merged_part prev n) entries agrees
          (omega (arith, rest, v.committed_logged)) in
      omega (arith, last, size, reach, len)

  pub store_entries-IsValid :
      (n : RaftNode P) (prev : ℕ) (entries : List LogEntry)
      → IsValid n
      → n.last_included_index ≤ prev
      → prev ≤ back_index n.last_included_index n.logs
      → Contig prev entries
      → Agrees (n.commit_index - prev) (merged_part prev n) entries
      → IsValid (store_entries entries n)
  unfolding persist
  store_entries-IsValid n prev entries v lo hi c agrees =
      rw (store_entries_lem n prev entries v lo hi c) (
        ground (
          arith,
          merged_log-Contig n prev entries v lo hi c,
          merged_log-le n prev entries v lo hi c agrees,
          v.snapshot_applied,
          v.applied_committed,
        ))

  -- Advancing the commit index keeps the invariant: it never passes the last entry.
  pub follow_commit-IsValid :
      (leader_commit : ℕ) (n : RaftNode P) → IsValid n → IsValid (follow_commit leader_commit n)
  unfolding follow_commit get_last_log_index
  follow_commit-IsValid leader_commit n v = elim (Bool-cases (ltb n.commit_index leader_commit)) [
    | inl more ↦ rw more (
        apply_committed_logs-IsValid _ (record {
          contig = v.contig;
          snapshot_applied = v.snapshot_applied;
          applied_committed = ground (arith, v.applied_committed, v.committed_logged);
          committed_logged = omega arith;
        }))
    | inr done ↦ rw done v
  ]
