-- ===== src/Append/Matched.antt =====
-- The accepting branch of handleAppendEntries in src/raftCore/raft_node.cpp.
use raft_kv_raft_leveldb.Common.{
  Bool-cases, ap, arith, false, if◌then◌else◌, inl, inr, ltb, min, refl, sym, true, ℕ, ◌∙◌, ◌≡◌,
  ◌≤◌,
}
use raft_kv_raft_leveldb.Types.{AppendEntriesArgs}
use raft_kv_raft_leveldb.Platform.{Platform}
use raft_kv_raft_leveldb.Log.{back_index, entries_above}
use raft_kv_raft_leveldb.Log.Contig.{entries_above-all}
use raft_kv_raft_leveldb.Node.{RaftNode, become_follower, get_last_log_index, persist}
use raft_kv_raft_leveldb.Node.Valid.{IsValid}
use raft_kv_raft_leveldb.Apply.Compact.{apply_committed_logs_lem}
use raft_kv_raft_leveldb.Append.{follow_commit, follow_leader, handle_append_entries, store_entries}
use raft_kv_raft_leveldb.Append.Cases.{
  IsHeard, IsMatched, follow_leader-IsValid, follow_leader_frame, followed, stored,
}
use raft_kv_raft_leveldb.Append.Store.{has_log_at-le, merged_log, store_entries_lem}
use raft_kv_raft_leveldb.Append.Handler.{
  IsConsistent, IsConsistent-followed, IsMatched-followed, storing-IsValid,
}

-- The commit index after a leader's, in a log with this last index.
abbrev pub next_commit : ℕ → ℕ → ℕ → ℕ
next_commit commit leader_commit last =
    if ltb commit leader_commit then min leader_commit last else commit

module _ {P : Platform} where
  follow_commit_lem :
      (leader_commit : ℕ) (n : RaftNode P)
      → IsValid n
      → let m = follow_commit leader_commit n in
        (m.logs ≡ entries_above m.last_included_index n.logs)
        × (m.commit_index
            ≡ next_commit n.commit_index leader_commit (back_index n.last_included_index n.logs))
        × (m.current_term ≡ n.current_term)
  unfolding follow_commit get_last_log_index
  follow_commit_lem leader_commit n v = elim (Bool-cases (ltb n.commit_index leader_commit)) [
    | inl more ↦
        let a =
          apply_committed_logs_lem
            (record n {
              commit_index = min leader_commit (back_index n.last_included_index n.logs);
            })
            (record {
              contig = v.contig;
              snapshot_applied = v.snapshot_applied;
              applied_committed = ground (arith, v.applied_committed, v.committed_logged);
              committed_logged = omega arith;
            }) in
        rw more (a.logs, a.commit_index, a.current_term)
    | inr done ↦ rw done (
      sym (
          entries_above-all n.last_included_index n.last_included_index n.logs v.contig
            (omega arith)),
      refl,
      refl,
    )
  ]

  pub followed-term :
      (args : AppendEntriesArgs) (n : RaftNode P)
      → n.current_term ≤ args.term
      → (followed args n).current_term ≡ args.term
  unfolding follow_leader become_follower
  followed-term args n h = ground arith

  store_entries-logs_commit :
      (args : AppendEntriesArgs) (n : RaftNode P)
      → IsValid n
      → IsMatched args n
      → IsConsistent args n
      → let m = store_entries args.entries n in
        (m.logs ≡ merged_log args.prev_log_index args.entries n)
        × (m.last_included_index ≡ n.last_included_index)
        × (m.commit_index ≡ n.commit_index)
        × (m.current_term ≡ n.current_term)
  unfolding persist
  store_entries-logs_commit args n v m c =
      rw
        (store_entries_lem n args.prev_log_index args.entries v m.0
          (has_log_at-le n args.prev_log_index v m.0 m.1) c.contig)
        (ground arith)

  handle_append_entries-stored :
      (args : AppendEntriesArgs) (n : RaftNode P)
      → IsHeard args n
      → IsMatched args (followed args n)
      → handle_append_entries args n
        ≡ (stored args n, record { term = (stored args n).current_term; success = true })
  unfolding handle_append_entries
  handle_append_entries-stored args n h m =
      let current : ltb args.term n.current_term ≡ false = ground (arith, h.1) in
      let high : ltb args.prev_log_index (followed args n).last_included_index ≡ false =
        ground (arith, m.0) in
      rw (h.0, current, high, m.1, m.2)

  same_merged_log :
      (args : AppendEntriesArgs) (n : RaftNode P)
      → merged_log args.prev_log_index args.entries (followed args n)
        ≡ merged_log args.prev_log_index args.entries n
  same_merged_log args n =
      let (logs, base, _, _, _, _) = follow_leader_frame args.term args.leader_id n in
      rw (base, logs)

  -- On a valid node, a request from a member of the configuration, at the node's term or a later
  -- one, whose previous entry the log holds behind the snapshot point, and whose entries run on
  -- from there without contradicting committed ones, is accepted: the reply is a success in the
  -- request's term, which is then the node's. The log is the merged log, less what a snapshot
  -- taken on the way covers; and the commit index follows the leader's up to the last entry of
  -- the merged log.
  pub handle_append_entries_matched :
      (args : AppendEntriesArgs) (n : RaftNode P)
      → IsValid n
      → IsHeard args n
      → IsMatched args n
      → IsConsistent args n
      → let (m, reply) = handle_append_entries args n in
        let log = merged_log args.prev_log_index args.entries n in
        (reply.success ≡ true)
        × (reply.term ≡ args.term)
        × (m.current_term ≡ args.term)
        × (m.logs ≡ entries_above m.last_included_index log)
        × (m.commit_index
            ≡ next_commit n.commit_index args.leader_commit (back_index n.last_included_index log))
  handle_append_entries_matched args n v h m c =
      let (logs, base, _, commit, _, _) = follow_leader_frame args.term args.leader_id n in
      let w = follow_leader-IsValid args.term args.leader_id n v in
      let m' = IsMatched-followed args n m in
      let c' = IsConsistent-followed args n c in
      let (logs', base', commit', term') =
        store_entries-logs_commit args (followed args n) w m' c' in
      let valid : IsValid (store_entries args.entries (followed args n)) =
        storing-IsValid args (followed args n) w m' c' in
      let (end, committed, term'') =
        follow_commit_lem args.leader_commit (store_entries args.entries (followed args n)) valid in
      let term : (stored args n).current_term ≡ args.term =
        term'' ∙ term' ∙ followed-term args n h.1 in
      let same_log : (store_entries args.entries (followed args n)).logs
          ≡ merged_log args.prev_log_index args.entries n =
        logs' ∙ same_merged_log args n in
      rw (handle_append_entries-stored args n h m') (
        refl,
        term,
        term,
        end ∙ ap (entries_above _) same_log,
        rw (committed, commit' ∙ commit, base' ∙ base, same_log),
      )
