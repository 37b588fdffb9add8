-- ===== src/Append/Cases.antt =====
-- The branches of handleAppendEntries in src/raftCore/raft_node.cpp, as a rule for what holds of its
-- result, and what its parts leave alone.
use raft_kv_raft_leveldb.Common.{Bool-cases, arith, false, inl, inr, ltb, true, ℕ, ◌<◌, ◌≡◌, ◌≤◌}
use raft_kv_raft_leveldb.Types.{AppendEntriesArgs, AppendEntriesReply, option_eq}
use raft_kv_raft_leveldb.Platform.{Platform}
use raft_kv_raft_leveldb.Node.{
  RaftNode, become_follower, get_log_term_at, has_log_at, is_node_in_current_voting_config,
}
use raft_kv_raft_leveldb.Node.Valid.{IsValid}
use raft_kv_raft_leveldb.Append.{follow_commit, follow_leader, handle_append_entries, store_entries}

-- The request is from a member and its term is not behind.
abbrev pub IsHeard : {P : Platform} → AppendEntriesArgs → RaftNode P → Type 0
IsHeard args n =
    (is_node_in_current_voting_config n args.leader_id ≡ true) × (n.current_term ≤ args.term)

-- The log holds the entry that the request builds on, behind the snapshot point.
abbrev pub IsMatched : {P : Platform} → AppendEntriesArgs → RaftNode P → Type 0
IsMatched args n =
    (n.last_included_index ≤ args.prev_log_index)
    × (has_log_at n args.prev_log_index ≡ true)
    × (option_eq (get_log_term_at n args.prev_log_index) args.prev_log_term ≡ true)

module _ {P : Platform} where
  pub follow_leader_frame :
      (term sender : ℕ) (n : RaftNode P)
      → ((follow_leader term sender n).logs ≡ n.logs)
        × ((follow_leader term sender n).last_included_index ≡ n.last_included_index)
        × ((follow_leader term sender n).last_included_term ≡ n.last_included_term)
        × ((follow_leader term sender n).commit_index ≡ n.commit_index)
        × ((follow_leader term sender n).last_applied ≡ n.last_applied)
        × ((follow_leader term sender n).kv_store ≡ n.kv_store)
  unfolding follow_leader become_follower
  follow_leader_frame term sender n = ground arith

  pub follow_leader-IsValid :
      (term sender : ℕ) (n : RaftNode P) → IsValid n → IsValid (follow_leader term sender n)
  follow_leader-IsValid term sender n v =
      let (logs, base, _, commit, applied, _) = follow_leader_frame term sender n in
      record {
        contig = rw (base, logs) v.contig;
        snapshot_applied = omega (arith, base, applied, v.snapshot_applied);
        applied_committed = omega (arith, commit, applied, v.applied_committed);
        committed_logged = rw (base, logs, commit) v.committed_logged;
      }

  abbrev pub followed : AppendEntriesArgs → RaftNode P → RaftNode P
  followed args n = follow_leader args.term args.leader_id n

  abbrev pub stored : AppendEntriesArgs → RaftNode P → RaftNode P
  stored args n = follow_commit args.leader_commit (store_entries args.entries (followed args n))

  -- A property of the result, by the branches of the handler.
  pub handle_append_entries_cases {ℓ} :
      (Q : RaftNode P × AppendEntriesReply → Type ℓ) (args : AppendEntriesArgs) (n : RaftNode P)
      → Q (n, record { term = n.current_term; success = false })
      → (IsHeard args n → Q (followed args n, record { term = n.current_term; success = false }))
      → (IsHeard args n
          → args.prev_log_index < (followed args n).last_included_index
          → Q (followed args n, record { term = (followed args n).current_term; success = true }))
      → (IsHeard args n
          → IsMatched args (followed args n)
          → Q (stored args n, record { term = (stored args n).current_term; success = true }))
      → Q (handle_append_entries args n)
  unfolding handle_append_entries
  handle_append_entries_cases Q args n refuse mismatch covered matched =
      elim (Bool-cases (is_node_in_current_voting_config n args.leader_id)) [
        | inr stranger ↦ rw stranger refuse
        | inl member ↦ elim (Bool-cases (ltb args.term n.current_term)) [
          | inl old ↦ rw (member, old) refuse
          | inr current ↦
              let heard : IsHeard args n = (member, ground arith) in
              elim (Bool-cases (ltb args.prev_log_index (followed args n).last_included_index)) [
                | inl low ↦ rw (member, current, low) (covered heard (ground arith))
                | inr high ↦ elim (Bool-cases (has_log_at (followed args n) args.prev_log_index)) [
                  | inr absent ↦ rw (member, current, high, absent) (mismatch heard)
                  | inl present ↦
                      elim (Bool-cases (
                        option_eq (get_log_term_at (followed args n) args.prev_log_index)
                          args.prev_log_term)) [
                            | inr other ↦
                                rw (member, current, high, present, other) (mismatch heard)
                            | inl same ↦
                                rw (member, current, high, present, same)
                                  (matched heard (ground arith, present, same))
                          ]
                ]
              ]
        ]
      ]
