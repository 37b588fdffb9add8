-- ===== src/Quorum/Joint.antt =====
-- Elections of src/raftCore/raft_node.cpp across a change of configuration.
use raft_kv_raft_leveldb.Common.{List, arith, inl, inr, true, ℕ, ◌≡◌, ◌⊎◌}
use raft_kv_raft_leveldb.Types.{ClusterConfig, joint, stable}
use raft_kv_raft_leveldb.Platform.{Platform}
use raft_kv_raft_leveldb.Node.{RaftNode}
use raft_kv_raft_leveldb.Quorum.{
  contains_node_id, has_election_majority, has_majority_in_config_by_ids,
}
use raft_kv_raft_leveldb.Quorum.Intersect.{InBoth, majorities_meet}

-- A member of the configuration that voted in both elections.
abbrev pub Voter : ClusterConfig → List ℕ → List ℕ → Type 0
Voter cfg g h = InBoth (λ m. contains_node_id g m.id) (λ m. contains_node_id h m.id) cfg.nodes

module _ {P : Platform} (n m : RaftNode P) (g h : List ℕ) (won : has_election_majority n g ≡ true)
    (won' : has_election_majority m h ≡ true) where
  -- Two elections won in the same stable configuration have a voter in common.
  pub stable_elections_meet :
      n.config_state ≡ stable
      → m.config_state ≡ stable
      → m.current_config ≡ n.current_config
      → Voter n.current_config g h
  unfolding has_election_majority
  stable_elections_meet s t e =
      majorities_meet n.current_config g h (rw s at won) (rw (t, e) at won')

  -- An election won in a stable configuration and one won in a joint configuration whose old or
  -- new half it is have a voter in common, in that configuration.
  pub joint_elections_meet :
      n.config_state ≡ stable
      → m.config_state ≡ joint
      → (m.old_config ≡ n.current_config) ⊎ (m.new_config ≡ n.current_config)
      → Voter n.current_config g h
  unfolding has_election_majority
  joint_elections_meet s t (inl e) =
      majorities_meet n.current_config g h (rw s at won) (rw e at (both.0))
    where
      both :
          (has_majority_in_config_by_ids m.old_config h ≡ true)
          × (has_majority_in_config_by_ids m.new_config h ≡ true)
      both = ground (arith, won', t)
  joint_elections_meet s t (inr e) =
      majorities_meet n.current_config g h (rw s at won) (rw e at (both.1))
    where
      both :
          (has_majority_in_config_by_ids m.old_config h ≡ true)
          × (has_majority_in_config_by_ids m.new_config h ≡ true)
      both = ground (arith, won', t)
