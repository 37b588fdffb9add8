-- ===== src/Quorum.antt =====
-- The majority tests of src/raftCore/raft_node.cpp, by node id for elections and by `matchIndex_` for
-- commitment, in a stable configuration and in both halves of a joint one.
pub mod Intersect
pub mod Joint
use raft_kv_raft_leveldb.Common.{
  Bool, List, Option, [], false, get_elem?, if◌then◌else◌, leb, ltb, none, some, suc, true, ℕ, ◌&&◌,
  ◌+◌, ◌/◌, ◌==◌, ◌∷◌,
}
use raft_kv_raft_leveldb.Types.{ClusterConfig, LogEntry, PeerInfo, config_joint, is_stable, size}
use raft_kv_raft_leveldb.Platform.{Platform}
use raft_kv_raft_leveldb.Node.{RaftNode, get_last_log_index}

-- containsNodeId of raft_node.h
unfoldable pub contains_node_id : List ℕ → ℕ → Bool
contains_node_id [] id = false
contains_node_id (x ∷ ids) id = if x == id then true else contains_node_id ids id

-- The loop of hasMajorityInConfigByIds.
unfoldable pub count_granted : List PeerInfo → List ℕ → ℕ
count_granted [] granted = 0
count_granted (n ∷ ns) granted =
    let rest = count_granted ns granted in if contains_node_id granted n.id then suc rest else rest

-- hasMajorityInConfigByIds
unfoldable pub has_majority_in_config_by_ids : ClusterConfig → List ℕ → Bool
has_majority_in_config_by_ids cfg granted = ltb (size cfg / 2) (count_granted cfg.nodes granted)

-- The loop of findPeerIndexById, from position `i`; `none` is -1.
unfoldable pub find_peer_index : List PeerInfo → ℕ → ℕ → Option ℕ
find_peer_index [] i node_id = none
find_peer_index (p ∷ ps) i node_id =
    if p.id == node_id then some i else find_peer_index ps (i + 1) node_id

module _ {P : Platform} where
  -- hasElectionMajority
  unfoldable pub has_election_majority : RaftNode P → List ℕ → Bool
  has_election_majority n granted =
      if is_stable n.config_state
      then has_majority_in_config_by_ids n.current_config granted
      else has_majority_in_config_by_ids n.old_config granted
        && has_majority_in_config_by_ids n.new_config granted

  -- findPeerIndexById
  unfoldable pub find_peer_index_by_id : RaftNode P → ℕ → Option ℕ
  unfolding find_peer_index
  find_peer_index_by_id n node_id = find_peer_index n.peers 0 node_id

  -- Whether isMajorityInConfig counts a member as holding the log up to `log_index`.
  unfoldable pub has_matched : RaftNode P → ℕ → PeerInfo → Bool
  unfolding find_peer_index_by_id
  has_matched n log_index node =
      if node.id == n.id
      then leb log_index (get_last_log_index n)
      else elim (find_peer_index_by_id n node.id) [
        | none ↦ false
        | some i ↦ elim (get_elem? n.match_index i) [ none ↦ false | some m ↦ leb log_index m ]
      ]

  -- The loop of isMajorityInConfig.
  unfoldable pub count_matched : RaftNode P → ℕ → List PeerInfo → ℕ
  count_matched n log_index [] = 0
  count_matched n log_index (node ∷ nodes) =
      let rest = count_matched n log_index nodes in
      if has_matched n log_index node then suc rest else rest

  -- isMajorityInConfig
  unfoldable pub is_majority_in_config : RaftNode P → ClusterConfig → ℕ → Bool
  is_majority_in_config n config log_index =
      ltb (size config / 2) (count_matched n log_index config.nodes)

  -- isMajorityMatched
  unfoldable pub is_majority_matched : RaftNode P → ℕ → Bool
  is_majority_matched n log_index =
      if is_stable n.config_state
      then is_majority_in_config n n.current_config log_index
      else is_majority_in_config n n.old_config log_index
        && is_majority_in_config n n.new_config log_index

  -- The test of isMajorityMatchedForEntry for an entry that is not CONFIG_JOINT.
  unfoldable pub is_majority_in_state : RaftNode P → ℕ → Bool
  is_majority_in_state n log_index =
      if is_stable n.config_state
      then is_majority_in_config n n.current_config log_index
      else is_majority_in_config n n.old_config log_index
        && is_majority_in_config n n.new_config log_index

  -- isMajorityMatchedForEntry
  unfoldable pub is_majority_matched_for_entry : RaftNode P → LogEntry → Bool
  unfolding is_majority_in_state
  is_majority_matched_for_entry n entry = elim entry.op [
    | config_joint ↦
        is_majority_in_config n (record { nodes = entry.old_config }) entry.index
        && is_majority_in_config n (record { nodes = entry.new_config }) entry.index
    | _ ↦ is_majority_in_state n entry.index
  ]
