-- ===== src/Start.antt =====
-- src/node_main.cpp: how a node process finds itself in the configuration file and makes its node.
pub mod Begin
pub mod Find
use raft_kv_raft_leveldb.Wire.{Parsed, outside, parsed, rejected}
use raft_kv_raft_leveldb.Clerk.{load_cluster_config}
use raft_kv_raft_leveldb.Common.{
  Bool, List, Option, Text, [], codes, false, if◌then◌else◌, none, some, text_eq, ℕ, ◌&&◌, ◌==◌,
  ◌||◌, ◌∷◌,
}
use raft_kv_raft_leveldb.Types.{PeerInfo}
use raft_kv_raft_leveldb.Platform.{Platform}
use raft_kv_raft_leveldb.Storage.{PersistentStorage}
use raft_kv_raft_leveldb.StateMachine.{KvStore}
use raft_kv_raft_leveldb.Node.{RaftNode, set_peers, set_self_address, set_voting_member}
use raft_kv_raft_leveldb.Node.Restart.{new_node}

-- findSelfNode
unfoldable pub find_self_node : List PeerInfo → Text → ℕ → Option PeerInfo
find_self_node [] self_ip self_port = none
find_self_node (n ∷ ns) self_ip self_port =
    let rest = find_self_node ns self_ip self_port in
    if text_eq n.ip self_ip && (n.port == self_port) then some n else rest

-- buildPeers
unfoldable pub build_peers : List PeerInfo → ℕ → List PeerInfo
build_peers [] self_id = []
build_peers (n ∷ ns) self_id =
    let rest = build_peers ns self_id in if n.id == self_id then rest else n ∷ rest

-- The loop of main over the arguments behind the port.
unfoldable pub is_learner : List Text → Bool
is_learner [] = false
is_learner (arg ∷ args) = text_eq arg (codes "--learner") || is_learner args

-- How main ends before it runs the node: it returns 1, or has the node; `not_read` where the configuration
-- file or the state file has numbers that the model does not hold.
pub data Begun (P : Platform) : Type 0 where
  returns : Begun P
  not_read : Begun P
  begins : RaftNode P → Begun P

module _ {P : Platform} (kv_store : KvStore P) (storage : PersistentStorage) (draws : ℕ) where
  -- main behind the constructor of the node
  abbrev pub set_up : List PeerInfo → Text → ℕ → Bool → Option (RaftNode P) → Begun P
  set_up peers self_ip self_port learner none = not_read
  set_up peers self_ip self_port learner (some n) =
      let n₁ = set_peers peers (set_self_address self_ip self_port n) in
      begins (if learner then set_voting_member false n₁ else n₁)

  -- main behind findSelfNode
  abbrev pub with_self : List PeerInfo → Text → ℕ → Bool → Option PeerInfo → Begun P
  with_self all_nodes self_ip self_port learner none = returns
  with_self all_nodes self_ip self_port learner (some self) =
      let peers = build_peers all_nodes self.id in
      set_up peers self_ip self_port learner (new_node self.id kv_store storage draws)

  -- main behind loadClusterConfig
  abbrev pub with_nodes : Text → ℕ → Bool → Parsed (List PeerInfo) → Begun P
  with_nodes self_ip self_port learner rejected = returns
  with_nodes self_ip self_port learner outside = not_read
  with_nodes self_ip self_port learner (parsed all_nodes) =
      with_self all_nodes self_ip self_port learner (find_self_node all_nodes self_ip self_port)

  -- main up to the start of the threads, on its arguments and the content of the configuration file.
  -- `atoi` is std::atoi, at texts of numbers that are not below 0.
  unfoldable pub main : (Text → ℕ) → List Text → Option Text → Begun P
  main atoi [] file = returns
  main atoi (self_ip ∷ []) file = returns
  main atoi (self_ip ∷ self_port ∷ args) file =
      with_nodes self_ip (atoi self_port) (is_learner args) (load_cluster_config file)
