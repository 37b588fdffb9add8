-- ===== src/Apply/Replay.antt =====
-- The state machine of a node of src/raftCore/raft_node.cpp is the replay of its committed entries.
use raft_kv_raft_leveldb.Common.{
  Bool-cases, List, [], ap, arith, drop, get_elem?-drop, inl, inr, ltb, refl, some, suc, take, zero,
  ℕ, ◌+◌, ◌-◌, ◌<◌, ◌∙◌, ◌∷◌, ◌≡◌, ◌≤◌, ◌⊎◌,
}
use raft_kv_raft_leveldb.Types.{LogEntry, config_joint, config_new}
use raft_kv_raft_leveldb.Platform.{Platform}
use raft_kv_raft_leveldb.StateMachine.{KvStore}
use raft_kv_raft_leveldb.StateMachine
use raft_kv_raft_leveldb.Node.{RaftNode, log_at}
use raft_kv_raft_leveldb.Apply.{
  apply_committed_logs, apply_config_joint, apply_config_new, apply_entry, apply_loop,
  create_snapshot, maybe_create_snapshot, reset_if_leader,
}
use raft_kv_raft_leveldb.Log.{entry_at}
use raft_kv_raft_leveldb.Node.Valid.{IsValid}
use raft_kv_raft_leveldb.Apply.Progress.{
  applied, applied-IsValid, applied-Kept, apply_loop_end, apply_loop_more, apply_next_lem,
}
use raft_kv_raft_leveldb.Log.Contig.{get_elem?-entry_at}

module _ {P : Platform} where
  -- The store after a list of entries. KVStore::apply passes over configuration entries.
  pub replay : List LogEntry → KvStore P → KvStore P
  replay [] s = s
  replay (e ∷ es) s = replay es (StateMachine.apply P s e)

  reset_if_leader-kv : (n : RaftNode P) → (reset_if_leader n).kv_store ≡ n.kv_store
  unfolding reset_if_leader
  reset_if_leader-kv n = ground arith

  apply_config_joint-kv :
      (e : LogEntry) (n : RaftNode P) → (apply_config_joint e n).kv_store ≡ n.kv_store
  unfolding apply_config_joint
  apply_config_joint-kv e n = ground arith

  apply_config_new-kv :
      (e : LogEntry) (n : RaftNode P) → (apply_config_new e n).kv_store ≡ n.kv_store
  unfolding apply_config_new
  apply_config_new-kv e n = ground arith

  pass_over :
      (s : KvStore P) (e : LogEntry)
      → (e.op ≡ config_joint) ⊎ (e.op ≡ config_new)
      → StateMachine.apply P s e ≡ s
  unfolding StateMachine.apply
  pass_over s e h = ground arith

  apply_entry-kv :
      (e : LogEntry) (n : RaftNode P)
      → (apply_entry e n).kv_store ≡ StateMachine.apply P n.kv_store e
  unfolding apply_entry
  apply_entry-kv e n =
      ground (arith, apply_config_joint-kv e n, apply_config_new-kv e n, pass_over n.kv_store e)

  -- The committed entries that are not yet applied.
  abbrev pub pending : RaftNode P → List LogEntry
  pending n =
      take (n.commit_index - n.last_applied) (drop (n.last_applied - n.last_included_index) n.logs)

  -- A round applies the first pending entry.
  pub pending-step :
      (n : RaftNode P) (e : LogEntry)
      → IsValid n
      → n.last_applied < n.commit_index
      → log_at n (n.last_applied + 1) ≡ some e
      → pending n ≡ e ∷ pending (applied e n)
  unfolding log_at entry_at
  pending-step n e v h at =
      let k = applied-Kept e n in
      let pos : n.last_applied + 1 - n.last_included_index - 1
          ≡ n.last_applied - n.last_included_index =
        omega (arith, v.snapshot_applied) in
      let here = rw pos at (
        get_elem?-entry_at n.last_included_index n.logs (n.last_applied + 1) e
          (omega (arith, v.snapshot_applied)) at) in
      let next : n.last_applied + 1 - n.last_included_index
          ≡ suc (n.last_applied - n.last_included_index) =
        omega (arith, v.snapshot_applied) in
      let count : n.commit_index - n.last_applied ≡ suc (n.commit_index - (n.last_applied + 1)) =
        omega arith in
      rw (
        k.logs,
        k.commit_index,
        k.last_included_index,
        next,
        count,
        get_elem?-drop n.logs (n.last_applied - n.last_included_index) e here,
      )

  -- After the loop the store is the old one with all pending entries applied in their order.
  pub apply_loop-replay :
      (fuel : ℕ) (n : RaftNode P)
      → IsValid n
      → n.commit_index ≤ n.last_applied + fuel
      → (apply_loop fuel n).kv_store ≡ replay (pending n) n.kv_store
  unfolding replay
  apply_loop-replay zero n v h =
      let none_left : n.commit_index - n.last_applied ≡ 0 = omega arith in
      rw none_left (unfold apply_loop in refl)
  apply_loop-replay (suc fuel) n v h = elim (Bool-cases (ltb n.last_applied n.commit_index)) [
    | inl more ↦
        let lt : n.last_applied < n.commit_index = ground arith in
        let (e, at, next) = apply_next_lem n v lt in
        let same : (applied e n).commit_index ≡ n.commit_index = (applied-Kept e n).commit_index in
        let ih = apply_loop-replay fuel (applied e n) (applied-IsValid e n v lt) (omega arith) in
        rw (apply_loop_more fuel n (applied e n) more next, pending-step n e v lt at)
          (ih ∙ ap (replay (pending (applied e n))) (apply_entry-kv e n))
    | inr done ↦
        let none_left : n.commit_index - n.last_applied ≡ 0 = ground arith in
        rw (apply_loop_end fuel n done, none_left)
  ]

  maybe_create_snapshot-kv : (n : RaftNode P) → (maybe_create_snapshot n).kv_store ≡ n.kv_store
  unfolding maybe_create_snapshot create_snapshot
  maybe_create_snapshot-kv n = ground arith

  pub apply_committed_logs-replay :
      (n : RaftNode P)
      → IsValid n
      → (apply_committed_logs n).kv_store ≡ replay (pending n) n.kv_store
  unfolding apply_committed_logs
  apply_committed_logs-replay n v =
      maybe_create_snapshot-kv _
      ∙ apply_loop-replay (n.commit_index - n.last_applied) n v (omega (arith, v.applied_committed))
