-- ===== src/Apply.antt =====
-- Applying committed entries in src/raftCore/raft_node.cpp: the key-value commands, the two kinds of
-- configuration entries with the peer list rebuilt from them, and the snapshot that follows.
pub mod Frame
pub mod Fitted
pub mod Progress
pub mod Compact
pub mod Replay
pub mod Effects
use raft_kv_raft_leveldb.Common.{
  List, Option, [], false, filter_by, if◌then◌else◌, leb, ltb, none, not, some, suc, true, zero, ℕ,
  ◌&&◌, ◌++◌, ◌+◌, ◌-◌, ◌==◌, ◌∷◌,
}
use raft_kv_raft_leveldb.Types.{
  LogEntry, PeerInfo, config_joint, config_new, contains, contains_id, follower, is_leader,
  is_stable, joint, stable,
}
use raft_kv_raft_leveldb.Platform.{Platform}
use raft_kv_raft_leveldb.StateMachine
use raft_kv_raft_leveldb.Log.{entries_above}
use raft_kv_raft_leveldb.Node.{RaftNode, get_log_term_at, init_leader_state, log_at, persist}

-- The loop of rebuildPeersFromCurrentConfig.
unfoldable pub others : ℕ → List PeerInfo → List PeerInfo
others self nodes = filter_by (λ n. not (n.id == self)) nodes

-- `addUnique` of rebuildPeersFromJointConfig
unfoldable pub add_unique : ℕ → List PeerInfo → PeerInfo → List PeerInfo
add_unique self ps node =
    if node.id == self then ps else if contains_id ps node.id then ps else ps ++ node ∷ []

unfoldable pub add_all : ℕ → List PeerInfo → List PeerInfo → List PeerInfo
unfolding add_unique
add_all self ps [] = ps
add_all self ps (node ∷ nodes) = add_all self (add_unique self ps node) nodes

module _ {P : Platform} where
  -- The last lines of both rebuild functions.
  unfoldable pub reset_if_leader : RaftNode P → RaftNode P
  unfolding init_leader_state
  reset_if_leader n = if is_leader n.state then init_leader_state n else n

  -- rebuildPeersFromCurrentConfig
  unfoldable pub rebuild_peers_from_current_config : RaftNode P → RaftNode P
  unfolding reset_if_leader others
  rebuild_peers_from_current_config n =
      reset_if_leader (record n { peers = others n.id n.current_config.nodes })

  -- rebuildPeersFromJointConfig
  unfoldable pub rebuild_peers_from_joint_config : RaftNode P → RaftNode P
  unfolding reset_if_leader
  rebuild_peers_from_joint_config n =
      reset_if_leader
        (record n { peers = add_all n.id (add_all n.id [] n.old_config.nodes) n.new_config.nodes })

  -- applyConfigEntry, at CONFIG_JOINT
  unfoldable pub apply_config_joint : LogEntry → RaftNode P → RaftNode P
  unfolding rebuild_peers_from_joint_config
  apply_config_joint entry n =
      let n₁ = rebuild_peers_from_joint_config (record n {
        config_state = joint;
        old_config = record { nodes = entry.old_config };
        new_config = record { nodes = entry.new_config };
      }) in
      if contains n₁.old_config n.id && not (contains n₁.new_config n.id)
      then record n₁ { leaving = true; voting_member = false; state = follower }
      else n₁

  -- applyConfigEntry, at CONFIG_NEW
  unfoldable pub apply_config_new : LogEntry → RaftNode P → RaftNode P
  unfolding rebuild_peers_from_current_config
  apply_config_new entry n =
      let n₁ = rebuild_peers_from_current_config (record n {
        config_state = stable;
        current_config = record { nodes = entry.new_config };
        old_config = record { nodes = [] };
        new_config = record { nodes = [] };
      }) in
      if contains n₁.current_config n.id
      then record n₁ { voting_member = true; leaving = false; removed = false }
      else record n₁ {
        voting_member = false;
        leaving = false;
        removed = true;
        state = follower;
        leader_id = none;
      }

  -- The body of the loop of applyCommittedLogs for an entry of the log, with applyConfigEntry.
  unfoldable pub apply_entry : LogEntry → RaftNode P → RaftNode P
  unfolding apply_config_joint apply_config_new
  apply_entry entry n = elim entry.op [
    | config_joint ↦ apply_config_joint entry n
    | config_new ↦ apply_config_new entry n
    | _ ↦ record n { kv_store = StateMachine.apply P n.kv_store entry }
  ]

  -- One round of the loop of applyCommittedLogs; `none` is its `break`.
  unfoldable pub apply_next : RaftNode P → Option (RaftNode P)
  apply_next n =
      let next_apply_index = n.last_applied + 1 in
      if leb next_apply_index n.last_included_index
      then some (record n { last_applied = next_apply_index })
      else elim (log_at n next_apply_index) [
        | none ↦ none
        | some entry ↦ some (record (apply_entry entry n) { last_applied = next_apply_index })
      ]

  -- The loop of applyCommittedLogs, with fuel for its rounds.
  unfoldable pub apply_loop : ℕ → RaftNode P → RaftNode P
  apply_loop zero n = n
  apply_loop (suc fuel) n = elim (ltb n.last_applied n.commit_index) [
    | false ↦ n
    | true ↦ elim (apply_next n) [ none ↦ n | some n' ↦ apply_loop fuel n' ]
  ]

  -- createSnapshot
  unfoldable pub create_snapshot : ℕ → RaftNode P → RaftNode P
  unfolding persist
  create_snapshot upto_index n =
      if leb upto_index n.last_included_index
      then n
      else if ltb n.last_applied upto_index
      then n
      else if not (is_stable n.config_state)
      then n
      else elim (get_log_term_at n upto_index) [
        | none ↦ n
        | some term ↦ persist (record n {
          logs = entries_above upto_index n.logs;
          last_included_index = upto_index;
          last_included_term = term;
        })
      ]

  -- maybeCreateSnapshot. The difference is negative where the snapshot is ahead.
  unfoldable pub maybe_create_snapshot : RaftNode P → RaftNode P
  maybe_create_snapshot n =
      if not (is_stable n.config_state)
      then n
      else if leb (n.last_included_index + n.snapshot_threshold) n.last_applied
      then create_snapshot n.last_applied n
      else n

  -- applyCommittedLogs. Each round but the last raises `last_applied`, so that the fuel suffices.
  unfoldable pub apply_committed_logs : RaftNode P → RaftNode P
  apply_committed_logs n = maybe_create_snapshot (apply_loop (n.commit_index - n.last_applied) n)
