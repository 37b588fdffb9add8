-- ===== src/Apply/Effects.antt =====
-- What applyCommittedLogs of src/raftCore/raft_node.cpp does to a node: the store and the configuration
-- take in every pending entry, and the indices say so.
use raft_kv_raft_leveldb.Common.{
  Bool, Bool-cases, List, [], ap, arith, false, if◌then◌else◌, inl, inr, ltb, refl, suc, true, zero,
  ℕ, ◌+◌, ◌-◌, ◌<◌, ◌∙◌, ◌∷◌, ◌≡◌, ◌≤◌,
}
use raft_kv_raft_leveldb.Types.{
  ClusterConfig, ConfigState, LogEntry, config_joint, config_new, joint, stable,
}
use raft_kv_raft_leveldb.Platform.{Platform}
use raft_kv_raft_leveldb.Node.{RaftNode, init_leader_state, persist}
use raft_kv_raft_leveldb.Node.Valid.{IsValid, Kept}
use raft_kv_raft_leveldb.Apply.{
  add_all, others, apply_committed_logs, apply_config_joint, apply_config_new, apply_entry,
  apply_loop, create_snapshot, maybe_create_snapshot, rebuild_peers_from_current_config,
  rebuild_peers_from_joint_config, reset_if_leader,
}
use raft_kv_raft_leveldb.Apply.Progress.{
  applied, applied-IsValid, applied-Kept, apply_loop_done, apply_loop_end, apply_loop_more,
  apply_next_lem,
}
use raft_kv_raft_leveldb.Apply.Compact.{AppliedAll, apply_committed_logs_lem}
use raft_kv_raft_leveldb.Apply.Replay.{
  apply_committed_logs-replay, apply_loop-replay, pending, pending-step, replay,
}

-- The part of a node that configuration entries set.
pub record Members : Type 0 where
  pub config_state : ConfigState
  pub current_config : ClusterConfig
  pub old_config : ClusterConfig
  pub new_config : ClusterConfig

-- A joint entry enters the joint configuration of its two lists, and a new one leaves it for its new list.
-- Other entries change no configuration.
pub follow_entry : LogEntry → Members → Members
follow_entry e s = elim e.op [
  | config_joint ↦ record s {
    config_state = joint;
    old_config = record { nodes = e.old_config };
    new_config = record { nodes = e.new_config };
  }
  | config_new ↦ record {
    config_state = stable;
    current_config = record { nodes = e.new_config };
    old_config = record { nodes = [] };
    new_config = record { nodes = [] };
  }
  | _ ↦ s
]

pub follow_entries : List LogEntry → Members → Members
follow_entries [] s = s
follow_entries (e ∷ es) s = follow_entries es (follow_entry e s)

module _ {P : Platform} where
  abbrev pub members_of : RaftNode P → Members
  members_of n = record {
    config_state = n.config_state;
    current_config = n.current_config;
    old_config = n.old_config;
    new_config = n.new_config;
  }

  if-members :
      (b : Bool) (n m k : RaftNode P)
      → members_of n ≡ members_of k
      → members_of m ≡ members_of k
      → members_of (if b then n else m) ≡ members_of k
  if-members true n m k h h' = h
  if-members false n m k h h' = h'

  reset_if_leader-members : (n : RaftNode P) → members_of (reset_if_leader n) ≡ members_of n
  unfolding reset_if_leader init_leader_state
  reset_if_leader-members n = if-members _ _ _ n refl refl

  rebuild_joint-members :
      (n : RaftNode P) → members_of (rebuild_peers_from_joint_config n) ≡ members_of n
  unfolding rebuild_peers_from_joint_config
  rebuild_joint-members n =
      reset_if_leader-members
        (record n { peers = add_all n.id (add_all n.id [] n.old_config.nodes) n.new_config.nodes })

  rebuild_current-members :
      (n : RaftNode P) → members_of (rebuild_peers_from_current_config n) ≡ members_of n
  unfolding rebuild_peers_from_current_config
  rebuild_current-members n =
      reset_if_leader-members (record n { peers = others n.id n.current_config.nodes })

  apply_config_joint-members :
      (e : LogEntry) (n : RaftNode P)
      → members_of (apply_config_joint e n) ≡ record (members_of n) {
        config_state = joint;
        old_config = record { nodes = e.old_config };
        new_config = record { nodes = e.new_config };
      }
  unfolding apply_config_joint
  apply_config_joint-members e n =
      let start : RaftNode P = record n {
        config_state = joint;
        old_config = record { nodes = e.old_config };
        new_config = record { nodes = e.new_config };
      } in
      let m = rebuild_peers_from_joint_config start in
      if-members _ _ _ m refl refl ∙ rebuild_joint-members start

  apply_config_new-members :
      (e : LogEntry) (n : RaftNode P)
      → members_of (apply_config_new e n) ≡ record {
        config_state = stable;
        current_config = record { nodes = e.new_config };
        old_config = record { nodes = [] };
        new_config = record { nodes = [] };
      }
  unfolding apply_config_new
  apply_config_new-members e n =
      let start : RaftNode P = record n {
        config_state = stable;
        current_config = record { nodes = e.new_config };
        old_config = record { nodes = [] };
        new_config = record { nodes = [] };
      } in
      let m = rebuild_peers_from_current_config start in
      if-members _ _ _ m refl refl ∙ rebuild_current-members start

  apply_entry-members :
      (e : LogEntry) (n : RaftNode P) → members_of (apply_entry e n) ≡ follow_entry e (members_of n)
  unfolding apply_entry follow_entry
  apply_entry-members e n =
      ground (arith, apply_config_joint-members e n, apply_config_new-members e n)

  apply_loop-members :
      (fuel : ℕ) (n : RaftNode P)
      → IsValid n
      → n.commit_index ≤ n.last_applied + fuel
      → members_of (apply_loop fuel n) ≡ follow_entries (pending n) (members_of n)
  unfolding follow_entries
  apply_loop-members zero n v h =
      let none_left : n.commit_index - n.last_applied ≡ 0 = omega arith in
      rw none_left (unfold apply_loop in refl)
  apply_loop-members (suc fuel) n v h = elim (Bool-cases (ltb n.last_applied n.commit_index)) [
    | inl more ↦
        let lt : n.last_applied < n.commit_index = ground arith in
        let (e, at, next) = apply_next_lem n v lt in
        let same : (applied e n).commit_index ≡ n.commit_index = (applied-Kept e n).commit_index in
        let ih = apply_loop-members fuel (applied e n) (applied-IsValid e n v lt) (omega arith) in
        rw (apply_loop_more fuel n (applied e n) more next, pending-step n e v lt at)
          (ih ∙ ap (follow_entries (pending (applied e n))) (apply_entry-members e n))
    | inr done ↦
        let none_left : n.commit_index - n.last_applied ≡ 0 = ground arith in
        rw (apply_loop_end fuel n done, none_left)
  ]

  create_snapshot-members :
      (upto_index : ℕ) (n : RaftNode P) → members_of (create_snapshot upto_index n) ≡ members_of n
  unfolding create_snapshot persist
  create_snapshot-members upto_index n = ground arith

  maybe_create_snapshot-members :
      (n : RaftNode P) → members_of (maybe_create_snapshot n) ≡ members_of n
  unfolding maybe_create_snapshot
  maybe_create_snapshot-members n = ground (arith, create_snapshot-members n.last_applied n)

  -- On a valid node, with fuel for the indices up to the commit index, the loop of applyCommittedLogs
  -- ends with every committed entry applied: the last applied index is the commit index, the store has
  -- taken in the entries behind the last applied one up to the commit index, once each and in the order
  -- of the log, and the configuration is the one that the configuration entries among them leave. The
  -- log, the snapshot point, the commit index, the term, the vote, the id and the state file are
  -- unchanged.
  pub apply_loop_effects :
      (fuel : ℕ) (n : RaftNode P)
      → IsValid n
      → n.commit_index ≤ n.last_applied + fuel
      → let m = apply_loop fuel n in
        Kept n m
        × (m.last_applied ≡ n.commit_index)
        × (m.kv_store ≡ replay (pending n) n.kv_store)
        × (members_of m ≡ follow_entries (pending n) (members_of n))
  apply_loop_effects fuel n v h =
      let (k, all) = apply_loop_done fuel n v h in
      (k, all, apply_loop-replay fuel n v h, apply_loop-members fuel n v h)

  -- On a valid node, applyCommittedLogs applies exactly the entries behind the last applied one up to
  -- the commit index, once each and in the order of the log: the store is the old one with their
  -- commands, the configuration is the old one changed by the configuration entries among them, and the
  -- last applied index is the commit index. It keeps the commit index, the term, the vote and the id,
  -- and drops from the log only what its snapshot covers.
  pub apply_committed_logs_effects :
      (n : RaftNode P)
      → IsValid n
      → let m = apply_committed_logs n in
        AppliedAll n m
        × (m.kv_store ≡ replay (pending n) n.kv_store)
        × (members_of m ≡ follow_entries (pending n) (members_of n))
  apply_committed_logs_effects n v = (
    apply_committed_logs_lem n v,
    apply_committed_logs-replay n v,
    unfold apply_committed_logs in
        maybe_create_snapshot-members _
        ∙ apply_loop-members (n.commit_index - n.last_applied) n v
            (omega (arith, v.applied_committed)),
  )
