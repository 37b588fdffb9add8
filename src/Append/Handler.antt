-- ===== src/Append/Handler.antt =====
-- handleAppendEntries of src/raftCore/raft_node.cpp on every branch.
use raft_kv_raft_leveldb.Common.{false, inl, inr, refl, ◌-◌, ◌≡◌, ◌⊎◌}
use raft_kv_raft_leveldb.Types.{AppendEntriesArgs}
use raft_kv_raft_leveldb.Platform.{Platform}
use raft_kv_raft_leveldb.Log.Contig.{Contig}
use raft_kv_raft_leveldb.Log.Merge.{Agrees}
use raft_kv_raft_leveldb.Node.{RaftNode, get_log_term_at, has_log_at}
use raft_kv_raft_leveldb.Node.Valid.{IsValid}
use raft_kv_raft_leveldb.Append.{handle_append_entries, store_entries}
use raft_kv_raft_leveldb.Append.Cases.{
  IsHeard, IsMatched, follow_leader-IsValid, follow_leader_frame, followed,
  handle_append_entries_cases,
}
use raft_kv_raft_leveldb.Append.Store.{
  follow_commit-IsValid, has_log_at-le, merged_part, store_entries-IsValid,
}
use raft_kv_raft_leveldb.Apply.Progress.{applied}

-- The entries run on from the matching one and do not contradict the local entries that are
-- committed: what a leader of the committed log sends.
pub record IsConsistent {P : Platform} (args : AppendEntriesArgs) (n : RaftNode P) : Type 0 where
  pub contig : Contig args.prev_log_index args.entries
  pub agrees :
      Agrees (n.commit_index - args.prev_log_index) (merged_part args.prev_log_index n) args.entries

-- The request is consistent, if its entries are stored at all.
abbrev pub IsAcceptable : {P : Platform} → AppendEntriesArgs → RaftNode P → Type 0
IsAcceptable args n = (IsHeard args n × IsMatched args n → ⊥) ⊎ IsConsistent args n

module _ {P : Platform} where
  IsMatched-back :
      (args : AppendEntriesArgs) (n : RaftNode P)
      → IsMatched args (followed args n)
      → IsMatched args n
  unfolding has_log_at get_log_term_at
  IsMatched-back args n m =
      let (logs, base, term, _, _, _) = follow_leader_frame args.term args.leader_id n in
      rw (base, logs, term) at m

  -- A request that is stored is consistent.
  pub stored-IsConsistent :
      (args : AppendEntriesArgs) (n : RaftNode P)
      → IsAcceptable args n
      → IsHeard args n
      → IsMatched args (followed args n)
      → IsConsistent args n
  stored-IsConsistent args n (inl never) h m = absurd (never (h, IsMatched-back args n m))
  stored-IsConsistent args n (inr c) h m = c

  pub IsMatched-followed :
      (args : AppendEntriesArgs) (n : RaftNode P)
      → IsMatched args n
      → IsMatched args (followed args n)
  unfolding has_log_at get_log_term_at
  IsMatched-followed args n m =
      let (logs, base, term, _, _, _) = follow_leader_frame args.term args.leader_id n in
      rw (base, logs, term) m

  pub IsConsistent-followed :
      (args : AppendEntriesArgs) (n : RaftNode P)
      → IsConsistent args n
      → IsConsistent args (followed args n)
  IsConsistent-followed args n c =
      let (logs, base, _, commit, _, _) = follow_leader_frame args.term args.leader_id n in
      record { contig = c.contig; agrees = rw (base, logs, commit) c.agrees }

  pub storing-IsValid :
      (args : AppendEntriesArgs) (n : RaftNode P)
      → IsValid n
      → IsMatched args n
      → IsConsistent args n
      → IsValid (store_entries args.entries n)
  storing-IsValid args n v m c =
      store_entries-IsValid n args.prev_log_index args.entries v m.0
        (has_log_at-le n args.prev_log_index v m.0 m.1) c.contig c.agrees

  -- A request whose entries, if they are stored, run on from the previous index and do not contradict
  -- committed ones leaves a valid node valid, on every branch of the handler.
  pub handle_append_entries-IsValid :
      (args : AppendEntriesArgs) (n : RaftNode P)
      → IsValid n
      → IsAcceptable args n
      → IsValid (handle_append_entries args n).0
  handle_append_entries-IsValid args n v ok =
      let w = follow_leader-IsValid args.term args.leader_id n v in
      handle_append_entries_cases (λ r. IsValid r.0) args n v (λ _. w) (λ _ _. w)
        λ h m.
          let c = stored-IsConsistent args n ok h m in
          follow_commit-IsValid args.leader_commit _
            (storing-IsValid args (followed args n) w m (IsConsistent-followed args n c))

  -- A request that is answered without success changes neither the log, nor the snapshot point,
  -- nor the commit index, nor the last applied index, nor the state machine.
  pub handle_append_entries_refused :
      (args : AppendEntriesArgs) (n : RaftNode P)
      → (handle_append_entries args n).1.success ≡ false
      → let m = (handle_append_entries args n).0 in
        (m.logs ≡ n.logs)
        × (m.last_included_index ≡ n.last_included_index)
        × (m.commit_index ≡ n.commit_index)
        × (m.last_applied ≡ n.last_applied)
        × (m.kv_store ≡ n.kv_store)
  handle_append_entries_refused args n =
      let (logs, base, _, commit, applied, kv) = follow_leader_frame args.term args.leader_id n in
      handle_append_entries_cases
        (λ r.
          r.1.success ≡ false
          → (r.0.logs ≡ n.logs)
            × (r.0.last_included_index ≡ n.last_included_index)
            × (r.0.commit_index ≡ n.commit_index)
            × (r.0.last_applied ≡ n.last_applied)
            × (r.0.kv_store ≡ n.kv_store))
        args n (λ _. (refl, refl, refl, refl, refl)) (λ _ _. (logs, base, commit, applied, kv))
        (λ _ _ e. cc) (λ _ _ e. cc)
