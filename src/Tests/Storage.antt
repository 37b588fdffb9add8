-- ===== src/Tests/Storage.antt =====
-- A state file with two entries, and a restart over it.
use raft_kv_raft_leveldb.Wire.{parsed}
use raft_kv_raft_leveldb.Types.{follower}
use raft_kv_raft_leveldb.Tests.Nodes.{first_entry, node}
use raft_kv_raft_leveldb.Tests.Memory.{memory}
use raft_kv_raft_leveldb.Tests.Wire.{entries-IsWireEntry, joint_entry}
use raft_kv_raft_leveldb.Node.{RaftNode, persist}
use raft_kv_raft_leveldb.Node.Restart.{new_node, saved_state}
use raft_kv_raft_leveldb.Common.{[], arith, none, refl, some, ◌∷◌, ◌≡◌}
use raft_kv_raft_leveldb.Storage.{save, state_text}
use raft_kv_raft_leveldb.Storage.Load.{SavedState, load_text}
use raft_kv_raft_leveldb.Storage.Load.Reload.{IsWireState, load_text-state_text}
use raft_kv_raft_leveldb.Log.{back_index}
use raft_kv_raft_leveldb.Node.Valid.{IsValid}
use raft_kv_raft_leveldb.Run.Written.{IsSaved}
use raft_kv_raft_leveldb.Run.Restart.{IsRestart, new_node-IsSaved}

abbrev held_state : SavedState
held_state = record {
  current_term = 4;
  voted_for = none;
  last_included_index = 0;
  last_included_term = 0;
  logs = first_entry ∷ joint_entry ∷ [];
}

held_state-IsWireState : IsWireState held_state
held_state-IsWireState = record {
  current_term = omega arith;
  voted_for = tt;
  last_included_index = omega arith;
  last_included_term = omega arith;
  logs = entries-IsWireEntry;
  size = omega arith;
}

load_text-state_text_example :
    load_text (state_text 4 none 0 0 (first_entry ∷ joint_entry ∷ [])) ≡ parsed held_state
load_text-state_text_example = load_text-state_text held_state held_state-IsWireState

-- A follower whose state is in the file.
abbrev stopped : RaftNode memory
stopped = persist (record (node follower) { logs = first_entry ∷ joint_entry ∷ [] })

stopped-IsValid : IsValid stopped
unfolding persist back_index
stopped-IsValid = record {
  contig = (refl, (refl, tt));
  snapshot_applied = omega arith;
  applied_committed = omega arith;
  committed_logged = omega arith;
}

stopped-IsSaved : IsSaved stopped
unfolding persist save
stopped-IsSaved = record { file = refl }

stopped-IsWireState : IsWireState (saved_state stopped)
unfolding persist
stopped-IsWireState = record {
  current_term = omega arith;
  voted_for = omega arith;
  last_included_index = omega arith;
  last_included_term = omega arith;
  logs = entries-IsWireEntry;
  size = omega arith;
}

new_node-IsSaved_example :
    (m : RaftNode memory) × (new_node stopped.id stopped.kv_store stopped.storage 5 ≡ some m)
    × IsRestart stopped m
    × IsValid m
    × IsSaved m
new_node-IsSaved_example =
    new_node-IsSaved (λ k. refl) stopped 5 stopped-IsSaved stopped-IsValid stopped-IsWireState
