-- ===== src/Exchange.antt =====
-- The operations of src/raftCore/raft_node.cpp that send messages between their locked sections:
-- replicateToPeer, leaderPut, leaderDelete and ensureCurrentTermCommitted.
-- Between two sections the other threads of the node run.
pub mod Sections
pub mod Elect
pub mod Elections
pub mod Operations
pub mod Change
pub mod Members
pub mod Get
pub mod Serve
use raft_kv_raft_leveldb.Wire.{Parsed, build_append_entries_rpc, outside, parsed, rejected}
use raft_kv_raft_leveldb.Leader.{
  Outcome, Route, append_command, append_config, build_append_entries, by_entries, by_snapshot,
  choose_route, fault, on_append_reply, ready, refused, update_commit_index,
}
use raft_kv_raft_leveldb.Types.{
  AppendEntriesArgs, AppendEntriesReply, ConfigState, InstallSnapshotArgs, InstallSnapshotReply,
  PeerInfo, config_joint, config_new, contains, del, is_leader, is_stable, joint, noop, option_eq,
  put, stable,
}
use raft_kv_raft_leveldb.Common.{
  Bool, List, Option, Text, [], codes, false, filter_by, if◌then◌else◌, leb, length, ltb, none, not,
  some, suc, true, zero, ℕ, ◌&&◌, ◌++◌, ◌+◌, ◌==◌, ◌∷◌,
}
use raft_kv_raft_leveldb.Platform.{Platform}
use raft_kv_raft_leveldb.Wire.Pairs.{build_install_snapshot_rpc}
use raft_kv_raft_leveldb.Wire.Replies.{parse_append_entries_reply, parse_install_snapshot_reply}
use raft_kv_raft_leveldb.Node.{RaftNode, get_last_log_index, get_log_term_at}
use raft_kv_raft_leveldb.Snapshot.{build_install_snapshot, on_snapshot_reply}
use raft_kv_raft_leveldb.Read.{check_committed}

-- The end of an operation: the code leaves the bounds of a vector or meets a reply that the types of
-- the model do not hold, the fuel of a loop is used up, or the operation returns.
pub data Ran {ℓ} (A : Type ℓ) : Type ℓ where
  faulted : Ran A
  unfinished : Ran A
  done : A → Ran A

abbrev pub and_then {ℓ} : {A B : Type ℓ} → Ran A → (A → Ran B) → Ran B
and_then faulted f = faulted
and_then unfinished f = unfinished
and_then (done a) f = f a

-- `if (!ok) return false;` with the parse of the response that came.
abbrev pub heard {ℓ} : {A : Type ℓ} → (Text → Parsed A) → Option Text → Parsed A
heard parse none = rejected
heard parse (some resp) = parse resp

-- The node, with the number of times that its mutex was free for the other threads.
abbrev pub World : Platform → Type 0
World P = RaftNode P × ℕ

module _ {P : Platform} where
  abbrev pub at_snapshot : ℕ → Option (RaftNode P × Bool) → Ran (World P × Bool)
  at_snapshot k none = faulted
  at_snapshot k (some (n, result)) = done ((n, k), result)

  abbrev pub at_entries : ℕ → Outcome (RaftNode P × Bool) → World P → Ran (World P × Bool)
  at_entries k refused w = done (w, false)
  at_entries k fault w = faulted
  at_entries k (ready (n, result)) w = done ((n, k), result)

  abbrev pub on_snapshot_response :
      ℕ → ℕ → Parsed InstallSnapshotReply → World P → Ran (World P × Bool)
  on_snapshot_response i term_snapshot rejected w = done (w, false)
  on_snapshot_response i term_snapshot outside w = faulted
  on_snapshot_response i term_snapshot (parsed reply) w =
      at_snapshot w.1 (on_snapshot_reply i term_snapshot reply w.0)

  abbrev pub on_append_response :
      ℕ → ℕ → AppendEntriesArgs → Parsed AppendEntriesReply → World P → Ran (World P × Bool)
  on_append_response i term_snapshot args rejected w = done (w, false)
  on_append_response i term_snapshot args outside w = faulted
  on_append_response i term_snapshot args (parsed reply) w =
      at_entries w.1 (on_append_reply i term_snapshot args reply w.0) w

  -- The final test of ensureCurrentTermCommitted.
  unfoldable pub is_committed_now : ℕ → RaftNode P → Bool
  is_committed_now index n =
      leb index n.commit_index && option_eq (get_log_term_at n n.commit_index) (some n.current_term)

-- `others` is what the other threads do when the mutex is free, and `send` is TcpClient::sendMessage,
-- both by the number of times that the mutex was free before.
module _ {P : Platform} (others : ℕ → RaftNode P → RaftNode P)
    (send : ℕ → PeerInfo → Text → Option Text) where
  unfoldable pub pass : World P → World P
  pass (n, k) = (others k n, k + 1)

  -- sendSnapshotToPeer behind its first section
  abbrev pub send_snapshot :
      ℕ → World P → Option (PeerInfo × InstallSnapshotArgs) → Ran (World P × Bool)
  send_snapshot i w none = done (w, false)
  send_snapshot i w (some (peer, args)) =
      on_snapshot_response i args.term
        (heard parse_install_snapshot_reply (send w.1 peer (build_install_snapshot_rpc args)))
        (pass w)

  -- sendSnapshotToPeer
  unfoldable pub send_snapshot_to_peer : ℕ → World P → Ran (World P × Bool)
  send_snapshot_to_peer i w = send_snapshot i w (build_install_snapshot i w.0)

  -- replicateToPeer behind its second section
  abbrev pub send_entries :
      ℕ → World P → Outcome (PeerInfo × AppendEntriesArgs) → Ran (World P × Bool)
  send_entries i w refused = done (w, false)
  send_entries i w fault = faulted
  send_entries i w (ready (peer, args)) =
      on_append_response i args.term args
        (heard parse_append_entries_reply (send w.1 peer (build_append_entries_rpc args))) (pass w)

  -- replicateToPeer behind its first section
  abbrev pub follow_route : ℕ → World P → Outcome Route → Ran (World P × Bool)
  follow_route i w refused = done (w, false)
  follow_route i w fault = faulted
  follow_route i w (ready by_snapshot) = send_snapshot_to_peer i (pass w)
  follow_route i w (ready by_entries) = send_entries i (pass w) (build_append_entries i (pass w).0)

  -- replicateToPeer
  unfoldable pub replicate_to_peer : ℕ → World P → Ran (World P × Bool)
  replicate_to_peer i w = follow_route i w (choose_route i w.0)

  -- `for (size_t i = 0; i < peers_.size(); i++) replicateToPeer(i);` from `i` on
  unfoldable pub replicate_all : ℕ → ℕ → World P → Ran (World P)
  replicate_all zero i w = unfinished
  replicate_all (suc fuel) i w =
      let rest = λ (r : World P × Bool). replicate_all fuel (i + 1) (pass r.0) in
      if ltb i (length w.0.peers) then and_then (replicate_to_peer i w) rest else done w

  -- The loop, and updateCommitIndex behind it.
  unfoldable pub replicate_and_commit : ℕ → World P → Ran (World P)
  replicate_and_commit fuel w =
      and_then (replicate_all fuel 0 (pass w)) (λ v. done (pass (update_commit_index v.0, v.1)))

  -- An operation whose first section appended an entry, with its final test.
  abbrev pub after_append :
      ℕ → ℕ → (ℕ → RaftNode P → Bool) → RaftNode P × Option ℕ → Ran (World P × Bool)
  after_append fuel k test (n, none) = done ((n, k), false)
  after_append fuel k test (n, some index) =
      and_then (replicate_and_commit fuel (n, k)) (λ v. done (v, test index v.0))

  -- leaderPut
  unfoldable pub leader_put : ℕ → Text → Text → World P → Ran (World P × Bool)
  leader_put fuel key value (n, k) =
      after_append fuel k (λ index m. leb (get_last_log_index m) m.commit_index)
        (append_command put key value n)

  -- leaderDelete
  unfoldable pub leader_delete : ℕ → Text → World P → Ran (World P × Bool)
  leader_delete fuel key (n, k) =
      after_append fuel k (λ index m. leb index m.commit_index)
        (append_command del key (codes "__del__") n)

  -- ensureCurrentTermCommitted behind its first section
  abbrev pub after_check : ℕ → World P → Option Bool → Ran (World P × Bool)
  after_check fuel w (some result) = done (w, result)
  after_check fuel w none =
      after_append fuel (pass w).1 is_committed_now
        (append_command noop (codes "__noop__") (codes "__noop__") (pass w).0)

  -- ensureCurrentTermCommitted
  unfoldable pub ensure_current_term_committed : ℕ → World P → Ran (World P × Bool)
  ensure_current_term_committed fuel w = after_check fuel w (check_committed w.0)
