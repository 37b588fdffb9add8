-- ===== src/Run/Written.antt =====
-- The state file of src/persistence/storage.cpp behind the handlers of requests in
-- src/raftCore/raft_node.cpp, where the file can always be opened.
use mathlib.Core.Path.{subst}
use raft_kv_raft_leveldb.Types.{AppendEntriesArgs, InstallSnapshotArgs, LogEntry, RequestVoteArgs}
use raft_kv_raft_leveldb.Common.{
  Bool-cases, List, Option-cases, [], arith, false, inl, inr, ltb, min, refl, some, suc, sym, true,
  zero, ℕ, ◌&&◌, ◌+◌, ◌-◌, ◌∷◌, ◌≡◌, ◌⊎◌,
}
use raft_kv_raft_leveldb.Platform.{Platform}
use raft_kv_raft_leveldb.Storage.{save, state_text}
use raft_kv_raft_leveldb.Log.{append_entries, append_entry, entries_above}
use raft_kv_raft_leveldb.Node.{
  RaftNode, become_follower, get_last_log_index, get_log_term_at, is_candidate_log_up_to_date,
  log_at, persist, reset_election_timer,
}
use raft_kv_raft_leveldb.Node.Valid.{Kept}
use raft_kv_raft_leveldb.Vote.{can_vote, grant_vote, handle_request_vote}
use raft_kv_raft_leveldb.Apply.{
  apply_committed_logs, apply_loop, apply_next, create_snapshot, maybe_create_snapshot,
}
use raft_kv_raft_leveldb.Append.{follow_commit, follow_leader, handle_append_entries, store_entries}
use raft_kv_raft_leveldb.Apply.Frame.{apply_entry-Kept}
use raft_kv_raft_leveldb.Apply.Progress.{apply_loop_end, apply_loop_more, apply_loop_stop}
use raft_kv_raft_leveldb.Append.Cases.{handle_append_entries_cases}
use raft_kv_raft_leveldb.Snapshot.{handle_install_snapshot, install}

-- The file holds the term, the vote, the snapshot point and the log of the node.
pub record IsSaved {P : Platform} (n : RaftNode P) : Type 0 where
  pub file :
      n.storage.state_file
      ≡ some
          (state_text n.current_term n.voted_for n.last_included_index n.last_included_term n.logs)

append_entry_changed :
    (base : ℕ) (e : LogEntry) (l : List LogEntry) → (append_entry base e (l, true)).1 ≡ true
unfolding append_entry
append_entry_changed base e l = ground arith

append_entries_changed :
    (base : ℕ) (es l : List LogEntry) → (append_entries base es (l, true)).1 ≡ true
unfolding append_entries
append_entries_changed base [] l = refl
append_entries_changed base (e ∷ es) l =
    subst (λ b. (append_entries base es ((append_entry base e (l, true)).0, b)).1 ≡ true)
      (sym (append_entry_changed base e l))
      (append_entries_changed base es (append_entry base e (l, true)).0)

append_entry_same :
    (base : ℕ) (e : LogEntry) (l : List LogEntry)
    → (append_entry base e (l, false) ≡ (l, false)) ⊎ ((append_entry base e (l, false)).1 ≡ true)
unfolding append_entry
append_entry_same base e l = ground arith

-- A log that the loop does not report as changed is the same.
append_entries_same :
    (base : ℕ) (es l : List LogEntry)
    → (append_entries base es (l, false)).1 ≡ false
    → (append_entries base es (l, false)).0 ≡ l
unfolding append_entries
append_entries_same base [] l h = refl
append_entries_same base (e ∷ es) l h = elim (append_entry_same base e l) [
  | inl same ↦
      subst (λ r. (append_entries base es r).0 ≡ l) (sym same)
        (append_entries_same base es l (subst (λ r. (append_entries base es r).1 ≡ false) same h))
  | inr changed ↦ cc (h, still_changed changed)
]
  where
    still_changed :
        (append_entry base e (l, false)).1 ≡ true
        → (append_entries base es (append_entry base e (l, false))).1 ≡ true
    still_changed changed =
        subst (λ b. (append_entries base es ((append_entry base e (l, false)).0, b)).1 ≡ true)
          (sym changed) (append_entries_changed base es (append_entry base e (l, false)).0)

module _ {P : Platform} where
  IsSaved-Kept : {n m : RaftNode P} → Kept n m → IsSaved n → IsSaved m
  IsSaved-Kept {n} {m} k s = record {
    file =
        rw
          (
            k.storage, k.current_term, k.voted_for, k.last_included_index, k.last_included_term,
            k.logs,
          )
          s.file;
  }

module _ {P : Platform} (opens : (k : ℕ) → P.can_open k ≡ true) where
  pub persist-IsSaved : (n : RaftNode P) → IsSaved (persist n)
  unfolding persist save
  persist-IsSaved n = record { file = rw (opens n.storage.attempts) }

  pub become_follower-IsSaved : (t : ℕ) (n : RaftNode P) → IsSaved (become_follower t n)
  unfolding become_follower
  become_follower-IsSaved t n = persist-IsSaved _

  grant_vote-IsSaved :
      (t : ℕ) (args : RequestVoteArgs) (n : RaftNode P)
      → IsSaved n
      → IsSaved (grant_vote t args n).0
  unfolding grant_vote
  grant_vote-IsSaved t args n s =
      elim (Bool-cases (
        can_vote n args.candidate_id
        && is_candidate_log_up_to_date n args.last_log_index args.last_log_term)) [
          | inl yea ↦ rw yea (persist-IsSaved _)
          | inr nay ↦ rw nay s
        ]

  pub handle_request_vote-IsSaved :
      (args : RequestVoteArgs) (n : RaftNode P) → IsSaved n → IsSaved (handle_request_vote args n).0
  unfolding handle_request_vote
  handle_request_vote-IsSaved args n s = ground (
    arith,
    s.file,
    (grant_vote-IsSaved n.current_term args n s).file,
    (grant_vote-IsSaved n.current_term args _ (become_follower-IsSaved args.term n)).file,
  )

  follow_leader-IsSaved :
      (term sender : ℕ) (n : RaftNode P) → IsSaved n → IsSaved (follow_leader term sender n)
  unfolding follow_leader reset_election_timer
  follow_leader-IsSaved term sender n s =
      ground (arith, s.file, (become_follower-IsSaved term n).file)

  create_snapshot-IsSaved :
      (upto_index : ℕ) (n : RaftNode P) → IsSaved n → IsSaved (create_snapshot upto_index n)
  unfolding create_snapshot
  create_snapshot-IsSaved upto_index n s = elim (Option-cases (get_log_term_at n upto_index)) [
    | inl absent ↦ ground (arith, s.file, absent)
    | inr (t, at) ↦
        let cut : RaftNode P = record n {
          logs = entries_above upto_index n.logs;
          last_included_index = upto_index;
          last_included_term = t;
        } in
        ground (arith, s.file, at, (persist-IsSaved cut).file)
  ]

  apply_next-IsSaved : (n m : RaftNode P) → IsSaved n → apply_next n ≡ some m → IsSaved m
  unfolding apply_next
  apply_next-IsSaved n m s h = elim (Option-cases (log_at n (n.last_applied + 1))) [
    | inl absent ↦ ground (arith, s.file, h, absent)
    | inr (e, at) ↦ ground (arith, s.file, h, at, (IsSaved-Kept (apply_entry-Kept e n) s).file)
  ]

  apply_loop-IsSaved : (fuel : ℕ) (n : RaftNode P) → IsSaved n → IsSaved (apply_loop fuel n)
  unfolding apply_loop
  apply_loop-IsSaved zero n s = s
  apply_loop-IsSaved (suc fuel) n s = elim (Bool-cases (ltb n.last_applied n.commit_index)) [
    | inr done ↦ rw (apply_loop_end fuel n done) s
    | inl more ↦ elim (Option-cases (apply_next n)) [
      | inl stop ↦ rw (apply_loop_stop fuel n more stop) s
      | inr (m, step) ↦
          rw (apply_loop_more fuel n m more step)
            (apply_loop-IsSaved fuel m (apply_next-IsSaved n m s step))
    ]
  ]

  pub apply_committed_logs-IsSaved : (n : RaftNode P) → IsSaved n → IsSaved (apply_committed_logs n)
  unfolding apply_committed_logs maybe_create_snapshot
  apply_committed_logs-IsSaved n s =
      let m = apply_loop (n.commit_index - n.last_applied) n in
      let s' = apply_loop-IsSaved (n.commit_index - n.last_applied) n s in
      ground (arith, s'.file, (create_snapshot-IsSaved m.last_applied m s').file)

  store_entries-IsSaved :
      (es : List LogEntry) (n : RaftNode P) → IsSaved n → IsSaved (store_entries es n)
  unfolding store_entries
  store_entries-IsSaved es n s =
      let loop = append_entries n.last_included_index es (n.logs, false) in
      ground (
        arith,
        s.file,
        append_entries_same n.last_included_index es n.logs,
        (persist-IsSaved (record n { logs = loop.0 })).file,
      )

  follow_commit-IsSaved :
      (leader_commit : ℕ) (n : RaftNode P) → IsSaved n → IsSaved (follow_commit leader_commit n)
  unfolding follow_commit
  follow_commit-IsSaved leader_commit n s = ground (
    arith,
    s.file,
    (apply_committed_logs-IsSaved
        (record n { commit_index = min leader_commit (get_last_log_index n) })
        (record { file = s.file })).file,
  )

  pub handle_append_entries-IsSaved :
      (args : AppendEntriesArgs) (n : RaftNode P)
      → IsSaved n
      → IsSaved (handle_append_entries args n).0
  handle_append_entries-IsSaved args n s =
      let s' = follow_leader-IsSaved args.term args.leader_id n s in
      handle_append_entries_cases (λ r. IsSaved r.0) args n s (λ _. s') (λ _ _. s')
        λ _ _. follow_commit-IsSaved args.leader_commit _ (store_entries-IsSaved args.entries _ s')

  install-IsSaved : (args : InstallSnapshotArgs) (n : RaftNode P) → IsSaved (install args n)
  unfolding install
  install-IsSaved args n = persist-IsSaved _

  pub handle_install_snapshot-IsSaved :
      (args : InstallSnapshotArgs) (n : RaftNode P)
      → IsSaved n
      → IsSaved (handle_install_snapshot args n).0
  unfolding handle_install_snapshot
  handle_install_snapshot-IsSaved args n s =
      let s' = follow_leader-IsSaved args.term args.leader_id n s in
      ground (
        arith,
        s.file,
        s'.file,
        (install-IsSaved args (follow_leader args.term args.leader_id n)).file,
      )
