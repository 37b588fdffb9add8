-- ===== src/Tests/Log.antt =====
-- The log and the majorities at concrete inputs.
use raft_kv_raft_leveldb.Log.{append_entries, append_entry, back_index}
use raft_kv_raft_leveldb.Log.Merge.{Holds, Holds-merge, append_entries-merge, merge, merge_changes}
use raft_kv_raft_leveldb.Quorum.Joint.{Voter, joint_elections_meet, stable_elections_meet}
use raft_kv_raft_leveldb.Quorum.Intersect.{InBoth, matched_meets_granted}
use raft_kv_raft_leveldb.Quorum.{
  contains_node_id, count_granted, count_matched, has_election_majority,
  has_majority_in_config_by_ids, has_matched, is_majority_in_config,
}
use raft_kv_raft_leveldb.Types.{LogEntry, follower, joint, leader, log_entry, noop, size}
use raft_kv_raft_leveldb.Common.{[], codes, false, inl, refl, true, ◌++◌, ◌||◌, ◌∷◌, ◌≡◌}
use raft_kv_raft_leveldb.Tests.Nodes.{first_entry, node, peer, second_entry, third_entry, three}
use raft_kv_raft_leveldb.Node.{RaftNode, get_last_log_index}
use raft_kv_raft_leveldb.Tests.Memory.{memory}

-- A new entry of another term in the second place.
abbrev rival : LogEntry
rival = log_entry 3 2 noop (codes "") (codes "")

append_entries_cuts :
    append_entries 0 (rival ∷ []) (first_entry ∷ second_entry ∷ third_entry ∷ [], false)
    ≡ (first_entry ∷ rival ∷ [], true)
unfolding append_entries append_entry
append_entries_cuts = refl

append_entries_keeps :
    append_entries 0 (first_entry ∷ []) (first_entry ∷ second_entry ∷ [], false)
    ≡ (first_entry ∷ second_entry ∷ [], false)
unfolding append_entries append_entry
append_entries_keeps = refl

append_entries-merge_example :
    append_entries 0 (rival ∷ []) ((first_entry ∷ []) ++ second_entry ∷ third_entry ∷ [], false) ≡ (
      (first_entry ∷ []) ++ merge (second_entry ∷ third_entry ∷ []) (rival ∷ []),
      false || merge_changes (second_entry ∷ third_entry ∷ []) (rival ∷ []),
    )
append_entries-merge_example =
    append_entries-merge 0 (first_entry ∷ []) (second_entry ∷ third_entry ∷ []) (rival ∷ []) false
      (refl, tt)

Holds-merge_example : Holds (merge (second_entry ∷ third_entry ∷ []) (rival ∷ [])) (rival ∷ [])
Holds-merge_example = Holds-merge (second_entry ∷ third_entry ∷ []) (rival ∷ [])

-- A node in the joint configuration that leaves `three`.
abbrev joining : RaftNode memory
joining = record (node follower) {
  config_state = joint;
  old_config = three;
  new_config = record { nodes = peer 2 ∷ peer 3 ∷ peer 4 ∷ [] };
}

matched_meets_granted_example :
    InBoth (has_matched (node leader) 2) (λ m. contains_node_id (2 ∷ 3 ∷ []) m.id) three.nodes
unfolding has_majority_in_config_by_ids is_majority_in_config size count_matched has_matched
    get_last_log_index back_index count_granted contains_node_id
matched_meets_granted_example = matched_meets_granted (node leader) three 2 (2 ∷ 3 ∷ []) refl refl

stable_elections_meet_example : Voter three (1 ∷ 2 ∷ []) (2 ∷ 3 ∷ [])
unfolding has_election_majority has_majority_in_config_by_ids size count_granted contains_node_id
stable_elections_meet_example =
    stable_elections_meet (node leader) (node follower) (1 ∷ 2 ∷ []) (2 ∷ 3 ∷ []) refl refl refl
      refl refl

joint_elections_meet_example : Voter three (1 ∷ 2 ∷ []) (2 ∷ 3 ∷ [])
unfolding has_election_majority has_majority_in_config_by_ids size count_granted contains_node_id
joint_elections_meet_example =
    joint_elections_meet (node leader) joining (1 ∷ 2 ∷ []) (2 ∷ 3 ∷ []) refl refl refl refl
      (inl refl)
