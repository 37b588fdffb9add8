-- ===== src/Apply/Compact.antt =====
-- createSnapshot in a valid state: what the shortened log still says.
use raft_kv_raft_leveldb.Common.{ap, arith, max, refl, sym, ℕ, ◌-◌, ◌∙◌, ◌≡◌, ◌≤◌}
use raft_kv_raft_leveldb.Platform.{Platform}
use raft_kv_raft_leveldb.Log.{back_index, entries_above}
use raft_kv_raft_leveldb.Log.Contig.{
  back_index-entries_above, entries_above-Contig, entries_above-all,
}
use raft_kv_raft_leveldb.Node.{RaftNode}
use raft_kv_raft_leveldb.Node.Valid.{IsValid}
use raft_kv_raft_leveldb.Apply.{apply_committed_logs, create_snapshot, maybe_create_snapshot}
use raft_kv_raft_leveldb.Apply.Progress.{apply_all-IsValid, apply_loop_done}

-- `m` is `n` with the log cut below a later snapshot point, at most the last index applied.
pub record Compacted {P : Platform} (n m : RaftNode P) : Type 0 where
  pub id : m.id ≡ n.id
  pub logs : m.logs ≡ entries_above m.last_included_index n.logs
  pub from : n.last_included_index ≤ m.last_included_index
  pub upto : m.last_included_index ≤ n.last_applied
  pub commit_index : m.commit_index ≡ n.commit_index
  pub last_applied : m.last_applied ≡ n.last_applied
  pub current_term : m.current_term ≡ n.current_term
  pub voted_for : m.voted_for ≡ n.voted_for

module _ {P : Platform} where
  pub Compacted-refl : (n : RaftNode P) → IsValid n → Compacted n n
  Compacted-refl n v = record {
    id = refl;
    logs = sym (
        entries_above-all n.last_included_index n.last_included_index n.logs v.contig
          (omega arith));
    from = omega arith;
    upto = v.snapshot_applied;
    commit_index = refl;
    last_applied = refl;
    current_term = refl;
    voted_for = refl;
  }

  pub create_snapshot-Compacted :
      (upto_index : ℕ) (n : RaftNode P) → IsValid n → Compacted n (create_snapshot upto_index n)
  unfolding create_snapshot
  create_snapshot-Compacted upto_index n v = ground (arith, Compacted-refl n v)

  pub maybe_create_snapshot-Compacted :
      (n : RaftNode P) → IsValid n → Compacted n (maybe_create_snapshot n)
  unfolding maybe_create_snapshot
  maybe_create_snapshot-Compacted n v =
      ground (arith, Compacted-refl n v, create_snapshot-Compacted n.last_applied n v)

  -- A shortened log has no gaps, and its last index is still the last.
  pub IsValid-Compacted : {n m : RaftNode P} → Compacted n m → IsValid n → IsValid m
  IsValid-Compacted {n} {m} c v =
      let last : back_index m.last_included_index (entries_above m.last_included_index n.logs)
          ≡ max m.last_included_index (back_index n.last_included_index n.logs) =
        back_index-entries_above m.last_included_index n.last_included_index n.logs v.contig
          c.from in
      record {
        contig = rw c.logs (
            entries_above-Contig m.last_included_index n.last_included_index n.logs v.contig
              c.from);
        snapshot_applied = omega (arith, c.upto, c.last_applied);
        applied_committed = omega (arith, c.commit_index, c.last_applied, v.applied_committed);
        committed_logged = rw c.logs (omega (arith, last, c.commit_index, v.committed_logged));
      }

  -- applyCommittedLogs applies every committed entry and keeps the invariant.
  pub apply_committed_logs-IsValid : (n : RaftNode P) → IsValid n → IsValid (apply_committed_logs n)
  unfolding apply_committed_logs
  apply_committed_logs-IsValid n v =
      let w = apply_all-IsValid n v in IsValid-Compacted (maybe_create_snapshot-Compacted _ w) w

-- What applyCommittedLogs does besides the effects of the entries.
pub record AppliedAll {P : Platform} (n m : RaftNode P) : Type 0 where
  pub id : m.id ≡ n.id
  pub logs : m.logs ≡ entries_above m.last_included_index n.logs
  pub from : n.last_included_index ≤ m.last_included_index
  pub commit_index : m.commit_index ≡ n.commit_index
  pub last_applied : m.last_applied ≡ n.commit_index
  pub current_term : m.current_term ≡ n.current_term
  pub voted_for : m.voted_for ≡ n.voted_for

module _ {P : Platform} where
  -- On a valid node, applyCommittedLogs applies exactly the entries up to the commit index, keeps
  -- the commit index, the term, the vote and the id, and drops from the log only what its
  -- snapshot covers.
  pub apply_committed_logs_lem :
      (n : RaftNode P) → IsValid n → AppliedAll n (apply_committed_logs n)
  unfolding apply_committed_logs
  apply_committed_logs_lem n v =
      let (k, all) =
        apply_loop_done (n.commit_index - n.last_applied) n v
          (omega (arith, v.applied_committed)) in
      let c = maybe_create_snapshot-Compacted _ (apply_all-IsValid n v) in
      record {
        id = c.id ∙ k.id;
        logs = c.logs ∙ ap (entries_above _) k.logs;
        from = omega (arith, c.from, k.last_included_index);
        commit_index = c.commit_index ∙ k.commit_index;
        last_applied = c.last_applied ∙ all;
        current_term = c.current_term ∙ k.current_term;
        voted_for = c.voted_for ∙ k.voted_for;
      }
