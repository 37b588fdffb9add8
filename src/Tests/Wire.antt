-- ===== src/Tests/Wire.antt =====
-- Requests with two entries, one of them a change of the members, and commands of a Clerk.
use raft_kv_raft_leveldb.Types.{AppendEntriesArgs, LogEntry, config_joint, leader}
use raft_kv_raft_leveldb.Wire.{build_append_entries_rpc}
use raft_kv_raft_leveldb.Tests.Nodes.{first_entry, node, peer}
use raft_kv_raft_leveldb.Rpc.{handle_rpc_text, replies}
use raft_kv_raft_leveldb.Input.Words.{is_word}
use raft_kv_raft_leveldb.Rpc.Peers.{entries, handle_rpc_text-text_of, serve}
use raft_kv_raft_leveldb.Common.{All, [], arith, codes, refl, some, ℕ, ◌<◌, ◌^◌, ◌∷◌, ◌≡◌}
use raft_kv_raft_leveldb.Input.Config.{IsWirePeer}
use raft_kv_raft_leveldb.Wire.Entries.{IsWireEntry}
use raft_kv_raft_leveldb.Wire.Requests.{IsWireAppend}

peer-IsWirePeer : (i : ℕ) → i < 2 ^ 31 → IsWirePeer (peer i)
peer-IsWirePeer i small = record { id = small; ip = is_word (codes "h") refl; port = omega arith }

first_entry-IsWireEntry : IsWireEntry first_entry
first_entry-IsWireEntry = record {
  index = omega arith;
  term = omega arith;
  key = is_word (codes "a") refl;
  value = is_word (codes "x") refl;
  old_config = tt;
  old_size = omega arith;
  new_config = tt;
  new_size = omega arith;
}

abbrev pub joint_entry : LogEntry
joint_entry = record {
  term = 2;
  index = 2;
  op = config_joint;
  key = codes "__config_joint__";
  value = codes "__config_joint__";
  old_config = peer 1 ∷ peer 2 ∷ [];
  new_config = peer 1 ∷ peer 2 ∷ peer 3 ∷ [];
}

joint_entry-IsWireEntry : IsWireEntry joint_entry
joint_entry-IsWireEntry = record {
  index = omega arith;
  term = omega arith;
  key = is_word (codes "__config_joint__") refl;
  value = is_word (codes "__config_joint__") refl;
  old_config = (peer-IsWirePeer 1 (omega arith), (peer-IsWirePeer 2 (omega arith), tt));
  old_size = omega arith;
  new_config = (
    peer-IsWirePeer 1 (omega arith),
    (peer-IsWirePeer 2 (omega arith), (peer-IsWirePeer 3 (omega arith), tt)),
  );
  new_size = omega arith;
}

pub entries-IsWireEntry : All IsWireEntry (first_entry ∷ joint_entry ∷ [])
entries-IsWireEntry = (first_entry-IsWireEntry, (joint_entry-IsWireEntry, tt))

abbrev pub join_request : AppendEntriesArgs
join_request = record {
  term = 3;
  leader_id = 2;
  prev_log_index = 0;
  prev_log_term = some 0;
  entries = first_entry ∷ joint_entry ∷ [];
  leader_commit = 2;
}

join_request-IsWireAppend : IsWireAppend join_request
join_request-IsWireAppend = record {
  term = omega arith;
  leader_id = omega arith;
  prev_log_index = omega arith;
  prev_log_term = omega arith;
  leader_commit = omega arith;
  entries = entries-IsWireEntry;
  size = omega arith;
}

handle_rpc_text-text_of_example :
    handle_rpc_text (build_append_entries_rpc join_request) (node leader)
    ≡ replies (serve (entries join_request) (node leader))
handle_rpc_text-text_of_example =
    handle_rpc_text-text_of (entries join_request) (node leader) join_request-IsWireAppend
