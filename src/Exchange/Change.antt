-- ===== src/Exchange/Change.antt =====
-- The changes of the members in src/raftCore/raft_node.cpp: addNode, removeNode, appendConfigJoint,
-- appendConfigNew and waitConfigState.
use raft_kv_raft_leveldb.Exchange.{Ran, World, and_then, done, pass, replicate_and_commit}
use raft_kv_raft_leveldb.Leader.{append_config}
use raft_kv_raft_leveldb.Types.{
  ConfigState, PeerInfo, config_joint, config_new, contains, is_leader, is_stable, joint, stable,
}
use raft_kv_raft_leveldb.Common.{
  Bool, List, Option, Text, [], codes, false, filter_by, if◌then◌else◌, none, not, some, suc, true,
  zero, ℕ, ◌++◌, ◌==◌, ◌∷◌,
}
use raft_kv_raft_leveldb.Platform.{Platform}
use raft_kv_raft_leveldb.Node.{RaftNode}

abbrev pub same_state : ConfigState → ConfigState → Bool
same_state stable stable = true
same_state joint joint = true
same_state stable joint = false
same_state joint stable = false

module _ {P : Platform} where
  -- The first section of addNode: the old and the new members.
  unfoldable pub members_with : PeerInfo → RaftNode P → Option (List PeerInfo × List PeerInfo)
  members_with node n =
      if not (is_leader n.state)
      then none
      else if not (is_stable n.config_state)
      then none
      else if contains n.current_config node.id
      then none
      else some (n.current_config.nodes, n.current_config.nodes ++ node ∷ [])

  -- The first section of removeNode.
  unfoldable pub members_without : ℕ → RaftNode P → Option (List PeerInfo × List PeerInfo)
  members_without node_id n =
      if not (is_leader n.state)
      then none
      else if not (is_stable n.config_state)
      then none
      else if not (contains n.current_config node_id)
      then none
      else elim (filter_by (λ p. not (p.id == node_id)) n.current_config.nodes) [
        | [] ↦ none
        | p ∷ ps ↦ some (n.current_config.nodes, p ∷ ps)
      ]

module _ {P : Platform} (others : ℕ → RaftNode P → RaftNode P)
    (send : ℕ → PeerInfo → Text → Option Text) where
  abbrev pub after_config : ℕ → ℕ → RaftNode P × Bool → Ran (World P × Bool)
  after_config fuel k (n, false) = done ((n, k), false)
  after_config fuel k (n, true) =
      and_then (replicate_and_commit others send fuel (n, k)) (λ v. done (v, true))

  -- appendConfigJoint
  unfoldable pub append_config_joint :
      ℕ → List PeerInfo → List PeerInfo → World P → Ran (World P × Bool)
  append_config_joint fuel old_cfg new_cfg (n, k) =
      after_config fuel k (append_config config_joint (codes "__config_joint__") old_cfg new_cfg n)

  -- appendConfigNew
  unfoldable pub append_config_new : ℕ → List PeerInfo → World P → Ran (World P × Bool)
  append_config_new fuel new_cfg (n, k) =
      after_config fuel k (append_config config_new (codes "__config_new__") [] new_cfg n)

  -- The loop of waitConfigState over so many rounds.
  unfoldable pub wait_rounds : ℕ → ConfigState → ℕ → World P → Ran (World P × Bool)
  wait_rounds fuel target zero w = done (w, false)
  wait_rounds fuel target (suc rounds) w =
      let rest = λ (v : World P). wait_rounds fuel target rounds (pass others send v) in
      if not (is_leader w.0.state)
      then done (w, false)
      else if same_state w.0.config_state target
      then done (w, true)
      else and_then (replicate_and_commit others send fuel w) rest

  -- waitConfigState, where 20 ms pass in each round of the 3000 ms
  unfoldable pub wait_config_state : ℕ → ConfigState → World P → Ran (World P × Bool)
  wait_config_state fuel target w = wait_rounds fuel target 150 w

  -- `if (!ok) return false;` between the parts of an operation
  abbrev pub or_stop :
      Ran (World P × Bool) → (World P → Ran (World P × Bool)) → Ran (World P × Bool)
  or_stop r next = and_then r (λ o. if o.1 then next (pass others send o.0) else done o)

  -- The four parts of addNode and removeNode behind the first section.
  unfoldable pub change_members :
      ℕ → Option (List PeerInfo × List PeerInfo) → World P → Ran (World P × Bool)
  change_members fuel none w = done (w, false)
  change_members fuel (some (old_cfg, new_cfg)) w =
      or_stop (append_config_joint fuel old_cfg new_cfg (pass others send w)) (λ w₁.
        or_stop (wait_config_state fuel joint w₁) (λ w₂.
          or_stop (append_config_new fuel new_cfg w₂) (λ w₃. wait_config_state fuel stable w₃)))

  -- addNode
  unfoldable pub add_node : ℕ → PeerInfo → World P → Ran (World P × Bool)
  add_node fuel node w = change_members fuel (members_with node w.0) w

  -- removeNode up to the call of `stop`, which a node that removes itself makes at the end
  unfoldable pub remove_node : ℕ → ℕ → World P → Ran (World P × Bool)
  remove_node fuel node_id w = change_members fuel (members_without node_id w.0) w
