-- ===== src/Run.antt =====
-- A node of src/raftCore/raft_node.cpp over time: the sections that its threads run under `mu_`, in
-- any order. The requests and replies that arrive are arbitrary, but for what a predicate says of the
-- AppendEntries requests.
pub mod Frames
pub mod Valid
pub mod Written
pub mod Saved
pub mod Forward
pub mod Credit
pub mod Restart
pub mod Fitted
pub mod Bounds
pub mod Removed
use raft_kv_raft_leveldb.Types.{
  AppendEntriesArgs, AppendEntriesReply, CommandType, InstallSnapshotArgs, InstallSnapshotReply,
  PeerInfo, RequestVoteArgs, RequestVoteReply,
}
use raft_kv_raft_leveldb.Leader.{
  append_command, append_config, on_append_reply, ready, update_commit_index,
}
use raft_kv_raft_leveldb.Common.{Bool, List, Text, some, ℕ, ◌≡◌}
use raft_kv_raft_leveldb.Platform.{Platform}
use raft_kv_raft_leveldb.Node.{RaftNode}
use raft_kv_raft_leveldb.Read.{on_heartbeat_reply}
use raft_kv_raft_leveldb.Vote.{begin_election, check_election, handle_request_vote, on_vote_reply}
use raft_kv_raft_leveldb.Append.{handle_append_entries}
use raft_kv_raft_leveldb.Append.Handler.{IsAcceptable}
use raft_kv_raft_leveldb.Snapshot.{handle_install_snapshot, on_snapshot_reply}

-- A section; `Ok` is what is known of the AppendEntries requests that arrive.
pub data StepOf {P : Platform} (Ok : AppendEntriesArgs → RaftNode P → Type 0) (n : RaftNode P)
    : RaftNode P → Type 0 where
  request_vote : (args : RequestVoteArgs) → StepOf Ok n (handle_request_vote args n).0
  entries_arrive :
      (args : AppendEntriesArgs) → Ok args n → StepOf Ok n (handle_append_entries args n).0
  snapshot_arrives : (args : InstallSnapshotArgs) → StepOf Ok n (handle_install_snapshot args n).0
  election_check : (now : ℕ) → StepOf Ok n (check_election now n).0
  election_begin : StepOf Ok n (begin_election n).0
  vote_reply :
      (term_snapshot : ℕ) (peer : PeerInfo) (reply : RequestVoteReply) (granted : List ℕ)
      → StepOf Ok n (on_vote_reply term_snapshot peer reply (n, granted)).0
  command : (op : CommandType) (key value : Text) → StepOf Ok n (append_command op key value n).0
  config :
      (op : CommandType) (label : Text) (old_cfg new_cfg : List PeerInfo)
      → StepOf Ok n (append_config op label old_cfg new_cfg n).0
  append_reply :
      (i term_snapshot : ℕ) (args : AppendEntriesArgs) (reply : AppendEntriesReply) {m : RaftNode P}
      {done : Bool}
      → on_append_reply i term_snapshot args reply n ≡ ready (m, done)
      → StepOf Ok n m
  snapshot_reply :
      (i term_snapshot : ℕ) (reply : InstallSnapshotReply) {m : RaftNode P} {done : Bool}
      → on_snapshot_reply i term_snapshot reply n ≡ some (m, done)
      → StepOf Ok n m
  heartbeat_reply :
      (term_snapshot : ℕ) (reply : AppendEntriesReply) (successes : ℕ)
      → StepOf Ok n (on_heartbeat_reply term_snapshot reply successes n).0
  commit : StepOf Ok n (update_commit_index n)

-- Any number of steps.
pub data ReachOf {P : Platform} (Ok : AppendEntriesArgs → RaftNode P → Type 0) (n : RaftNode P)
    : RaftNode P → Type 0 where
  here : ReachOf Ok n n
  next : {m k : RaftNode P} → ReachOf Ok n m → StepOf Ok m k → ReachOf Ok n k

-- The sections where the AppendEntries requests that are stored run on from the previous index and do not
-- contradict committed entries.
abbrev pub Step : {P : Platform} → RaftNode P → RaftNode P → Type 0
Step n m = StepOf IsAcceptable n m

abbrev pub Reach : {P : Platform} → RaftNode P → RaftNode P → Type 0
Reach n m = ReachOf IsAcceptable n m
