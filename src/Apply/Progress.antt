-- ===== src/Apply/Progress.antt =====
-- The loop of applyCommittedLogs in a valid state: it applies every committed entry, in order.
use raft_kv_raft_leveldb.Common.{
  Bool-cases, arith, false, inl, inr, leb, ltb, none, some, suc, true, zero, ℕ, ◌+◌, ◌-◌, ◌<◌, ◌∙◌,
  ◌≡◌, ◌≤◌,
}
use raft_kv_raft_leveldb.Types.{LogEntry}
use raft_kv_raft_leveldb.Platform.{Platform}
use raft_kv_raft_leveldb.Log.Contig.{entry_at-some}
use raft_kv_raft_leveldb.Node.{RaftNode, log_at}
use raft_kv_raft_leveldb.Node.Valid.{IsValid, IsValid-Kept, Kept, Kept-refl, Kept-trans}
use raft_kv_raft_leveldb.Apply.{apply_entry, apply_loop, apply_next}
use raft_kv_raft_leveldb.Apply.Frame.{apply_entry-Kept}

module _ {P : Platform} where
  -- The state after a round that applies `e`.
  abbrev pub applied : LogEntry → RaftNode P → RaftNode P
  applied e n = record (apply_entry e n) { last_applied = n.last_applied + 1 }

  -- One round in a valid state applies the entry after the last one applied.
  pub apply_next_lem :
      (n : RaftNode P)
      → IsValid n
      → n.last_applied < n.commit_index
      → (e : LogEntry) × (log_at n (n.last_applied + 1) ≡ some e)
        × (apply_next n ≡ some (applied e n))
  unfolding apply_next
  apply_next_lem n v h =
      let (e, here, _) =
        entry_at-some n.last_included_index n.logs (n.last_applied + 1) v.contig
          (omega (arith, v.snapshot_applied)) (omega (arith, v.committed_logged)) in
      let above : leb (n.last_applied + 1) n.last_included_index ≡ false =
        ground (arith, v.snapshot_applied) in
      let at : log_at n (n.last_applied + 1) ≡ some e = unfold log_at in here in
      (e, at, rw (above, at))

  pub applied-Kept : (e : LogEntry) (n : RaftNode P) → Kept n (applied e n)
  applied-Kept e n = ground (arith, apply_entry-Kept e n)

  -- That round keeps the invariant.
  pub applied-IsValid :
      (e : LogEntry) (n : RaftNode P)
      → IsValid n
      → n.last_applied < n.commit_index
      → IsValid (applied e n)
  applied-IsValid e n v h = IsValid-Kept (applied-Kept e n) v (omega arith) (omega arith)

  pub apply_loop_more :
      (fuel : ℕ) (n m : RaftNode P)
      → ltb n.last_applied n.commit_index ≡ true
      → apply_next n ≡ some m
      → apply_loop (suc fuel) n ≡ apply_loop fuel m
  unfolding apply_loop
  apply_loop_more fuel n m more next = rw (more, apply_loop) (rw (next, apply_loop))

  pub apply_loop_stop :
      (fuel : ℕ) (n : RaftNode P)
      → ltb n.last_applied n.commit_index ≡ true
      → apply_next n ≡ none
      → apply_loop (suc fuel) n ≡ n
  unfolding apply_loop
  apply_loop_stop fuel n more stop = rw (more, apply_loop) (rw (stop, apply_loop))

  pub apply_loop_end :
      (fuel : ℕ) (n : RaftNode P)
      → ltb n.last_applied n.commit_index ≡ false
      → apply_loop (suc fuel) n ≡ n
  unfolding apply_loop
  apply_loop_end fuel n done = rw (done, apply_loop)

  -- On a valid node, with fuel for the indices up to the commit index, the loop of
  -- applyCommittedLogs ends with every committed entry applied, and has changed neither the log,
  -- nor the snapshot point, nor the commit index, nor the term, the vote, the id and the state
  -- file.
  pub apply_loop_done :
      (fuel : ℕ) (n : RaftNode P)
      → IsValid n
      → n.commit_index ≤ n.last_applied + fuel
      → Kept n (apply_loop fuel n) × ((apply_loop fuel n).last_applied ≡ n.commit_index)
  unfolding apply_loop
  apply_loop_done zero n v h = (Kept-refl n, omega (arith, v.applied_committed))
  apply_loop_done (suc fuel) n v h = elim (Bool-cases (ltb n.last_applied n.commit_index)) [
    | inl more ↦
        let lt : n.last_applied < n.commit_index = ground arith in
        let (e, _, next) = apply_next_lem n v lt in
        let same : (applied e n).commit_index ≡ n.commit_index = (applied-Kept e n).commit_index in
        let ih = apply_loop_done fuel (applied e n) (applied-IsValid e n v lt) (omega arith) in
        rw (apply_loop_more fuel n (applied e n) more next)
          (Kept-trans (applied-Kept e n) ih.0, ih.1 ∙ same)
    | inr done ↦ rw (apply_loop_end fuel n done) (Kept-refl n, ground (arith, v.applied_committed))
  ]

  -- So after the loop of applyCommittedLogs the node is valid, with all committed entries applied.
  pub apply_all-IsValid :
      (n : RaftNode P) → IsValid n → IsValid (apply_loop (n.commit_index - n.last_applied) n)
  apply_all-IsValid n v =
      let done =
        apply_loop_done (n.commit_index - n.last_applied) n v
          (omega (arith, v.applied_committed)) in
      IsValid-Kept done.0 v (omega (arith, done.1, v.applied_committed)) (omega (arith, done.1))
