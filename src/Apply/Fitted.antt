-- ===== src/Apply/Fitted.antt =====
-- The vectors nextIndex_ and matchIndex_ of src/raftCore/raft_node.cpp while entries are applied and the
use raft_kv_raft_leveldb.Common.{
  Bool, Bool-cases, Option-cases, [], arith, false, if◌then◌else◌, inl, inr, length,
  length-replicate, ltb, none, not, refl, some, suc, true, zero, ℕ, ◌&&◌, ◌+◌, ◌-◌, ◌≡◌,
}
use raft_kv_raft_leveldb.Types.{LogEntry, contains, follower, is_leader, joint, stable}
use raft_kv_raft_leveldb.Platform.{Platform}
use raft_kv_raft_leveldb.Node.{RaftNode, get_last_log_index, init_leader_state, log_at, persist}
use raft_kv_raft_leveldb.Apply.{
  add_all, apply_committed_logs, apply_config_joint, apply_config_new, apply_entry, apply_loop,
  apply_next, create_snapshot, maybe_create_snapshot, others, rebuild_peers_from_current_config,
  rebuild_peers_from_joint_config, reset_if_leader,
}
use raft_kv_raft_leveldb.Apply.Progress.{apply_loop_end, apply_loop_more, apply_loop_stop}

-- list of peers is rebuilt.

-- How many places a vector of a leader has; a node that leads nothing uses none.
abbrev pub places : {P : Platform} → RaftNode P → ℕ → ℕ
places n k = if is_leader n.state then k else length n.peers

-- At a leader, nextIndex_ and matchIndex_ have one place for each peer.
pub record IsFitted {P : Platform} (n : RaftNode P) : Type 0 where
  pub next_index : places n (length n.next_index) ≡ length n.peers
  pub match_index : places n (length n.match_index) ≡ length n.peers

module _ {P : Platform} where
  pub init_leader_state-IsFitted : (n : RaftNode P) → IsFitted (init_leader_state n)
  unfolding init_leader_state
  init_leader_state-IsFitted n = ground (
    arith,
    length-replicate {A = ℕ} (length n.peers) (get_last_log_index n + 1),
    length-replicate {A = ℕ} (length n.peers) 0,
  )

  reset_if_leader-IsFitted : (n : RaftNode P) → IsFitted (reset_if_leader n)
  unfolding reset_if_leader
  reset_if_leader-IsFitted n = ground (arith, init_leader_state-IsFitted n)

  rebuild_joint-IsFitted : (n : RaftNode P) → IsFitted (rebuild_peers_from_joint_config n)
  unfolding rebuild_peers_from_joint_config
  rebuild_joint-IsFitted n =
      reset_if_leader-IsFitted
        (record n { peers = add_all n.id (add_all n.id [] n.old_config.nodes) n.new_config.nodes })

  rebuild_current-IsFitted : (n : RaftNode P) → IsFitted (rebuild_peers_from_current_config n)
  unfolding rebuild_peers_from_current_config
  rebuild_current-IsFitted n =
      reset_if_leader-IsFitted (record n { peers = others n.id n.current_config.nodes })

  leaving-IsFitted :
      (b : Bool) (n : RaftNode P)
      → IsFitted n
      → IsFitted
          (if b then record n { leaving = true; voting_member = false; state = follower } else n)
  leaving-IsFitted true n f = record { next_index = refl; match_index = refl }
  leaving-IsFitted false n f = f

  settled-IsFitted :
      (b : Bool) (n : RaftNode P)
      → IsFitted n
      → IsFitted (
          if b
          then record n { voting_member = true; leaving = false; removed = false }
          else record n {
            voting_member = false;
            leaving = false;
            removed = true;
            state = follower;
            leader_id = none;
          })
  settled-IsFitted true n f = record { next_index = f.next_index; match_index = f.match_index }
  settled-IsFitted false n f = record { next_index = refl; match_index = refl }

  apply_config_joint-IsFitted : (e : LogEntry) (n : RaftNode P) → IsFitted (apply_config_joint e n)
  unfolding apply_config_joint
  apply_config_joint-IsFitted e n =
      let start : RaftNode P = record n {
        config_state = joint;
        old_config = record { nodes = e.old_config };
        new_config = record { nodes = e.new_config };
      } in
      let m = rebuild_peers_from_joint_config start in
      leaving-IsFitted (contains m.old_config n.id && not (contains m.new_config n.id)) m
        (rebuild_joint-IsFitted start)

  pub apply_config_new-IsFitted : (e : LogEntry) (n : RaftNode P) → IsFitted (apply_config_new e n)
  unfolding apply_config_new
  apply_config_new-IsFitted e n =
      let start : RaftNode P = record n {
        config_state = stable;
        current_config = record { nodes = e.new_config };
        old_config = record { nodes = [] };
        new_config = record { nodes = [] };
      } in
      let m = rebuild_peers_from_current_config start in
      settled-IsFitted (contains m.current_config n.id) m (rebuild_current-IsFitted start)

  apply_entry-IsFitted : (e : LogEntry) (n : RaftNode P) → IsFitted n → IsFitted (apply_entry e n)
  unfolding apply_entry
  apply_entry-IsFitted e n f =
      ground (arith, f, apply_config_joint-IsFitted e n, apply_config_new-IsFitted e n)

  apply_next-IsFitted : (n m : RaftNode P) → IsFitted n → apply_next n ≡ some m → IsFitted m
  unfolding apply_next
  apply_next-IsFitted n m f e = elim (Option-cases (log_at n (n.last_applied + 1))) [
    | inl missing ↦ ground (arith, f, e, missing)
    | inr (entry, there) ↦ ground (arith, f, e, there, apply_entry-IsFitted entry n f)
  ]

  apply_loop-IsFitted : (fuel : ℕ) (n : RaftNode P) → IsFitted n → IsFitted (apply_loop fuel n)
  unfolding apply_loop
  apply_loop-IsFitted zero n f = f
  apply_loop-IsFitted (suc fuel) n f = elim (Bool-cases (ltb n.last_applied n.commit_index)) [
    | inr done ↦ rw (apply_loop_end fuel n done) f
    | inl more ↦ elim (Option-cases (apply_next n)) [
      | inl stop ↦ rw (apply_loop_stop fuel n more stop) f
      | inr (m, next) ↦
          rw (apply_loop_more fuel n m more next)
            (apply_loop-IsFitted fuel m (apply_next-IsFitted n m f next))
    ]
  ]

  maybe_create_snapshot-IsFitted :
      (n : RaftNode P) → IsFitted n → IsFitted (maybe_create_snapshot n)
  unfolding maybe_create_snapshot create_snapshot persist
  maybe_create_snapshot-IsFitted n f = ground (arith, f)

  pub apply_committed_logs-IsFitted :
      (n : RaftNode P) → IsFitted n → IsFitted (apply_committed_logs n)
  unfolding apply_committed_logs
  apply_committed_logs-IsFitted n f =
      maybe_create_snapshot-IsFitted _ (apply_loop-IsFitted (n.commit_index - n.last_applied) n f)
