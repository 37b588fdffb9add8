-- ===== src/Run/Frames.antt =====
-- The sections of src/raftCore/raft_node.cpp that leave the log, the snapshot point, the commit
-- index, the position of application and the state machine alone.
use raft_kv_raft_leveldb.Leader.{note_reply, on_append_reply, ready}
use raft_kv_raft_leveldb.Common.{Bool, List, arith, some, ℕ, ◌≡◌, ◌≤◌}
use raft_kv_raft_leveldb.Types.{
  AppendEntriesArgs, AppendEntriesReply, InstallSnapshotReply, PeerInfo, RequestVoteArgs,
  RequestVoteReply,
}
use raft_kv_raft_leveldb.Platform.{Platform}
use raft_kv_raft_leveldb.Node.{
  RaftNode, become_candidate, become_follower, become_leader, persist, reset_election_timer,
}
use raft_kv_raft_leveldb.Node.Valid.{IsValid}
use raft_kv_raft_leveldb.Read.{on_heartbeat_reply}
use raft_kv_raft_leveldb.Vote.{
  begin_election, check_election, grant_vote, handle_request_vote, on_vote_reply,
}
use raft_kv_raft_leveldb.Snapshot.{on_snapshot_reply}

pub record Untouched {P : Platform} (n m : RaftNode P) : Type 0 where
  pub logs : m.logs ≡ n.logs
  pub last_included_index : m.last_included_index ≡ n.last_included_index
  pub commit_index : m.commit_index ≡ n.commit_index
  pub last_applied : m.last_applied ≡ n.last_applied
  pub term : n.current_term ≤ m.current_term

module _ {P : Platform} where
  pub IsValid-Untouched : {n m : RaftNode P} → Untouched n m → IsValid n → IsValid m
  IsValid-Untouched {n} {m} u v = record {
    contig = rw (u.last_included_index, u.logs) v.contig;
    snapshot_applied = omega (arith, v.snapshot_applied, u.last_included_index, u.last_applied);
    applied_committed = omega (arith, v.applied_committed, u.commit_index, u.last_applied);
    committed_logged = rw (u.last_included_index, u.logs, u.commit_index) v.committed_logged;
  }

  pub Untouched-refl : (n : RaftNode P) → Untouched n n
  Untouched-refl n = ground arith

  grant_vote-Untouched :
      (t : ℕ) (args : RequestVoteArgs) (n : RaftNode P) → Untouched n (grant_vote t args n).0
  unfolding grant_vote persist reset_election_timer
  grant_vote-Untouched t args n = ground arith

  become_follower-Untouched :
      (t : ℕ) (n : RaftNode P) → n.current_term ≤ t → Untouched n (become_follower t n)
  unfolding become_follower
  become_follower-Untouched t n h = ground arith

  pub handle_request_vote-Untouched :
      (args : RequestVoteArgs) (n : RaftNode P) → Untouched n (handle_request_vote args n).0
  unfolding handle_request_vote become_follower
  handle_request_vote-Untouched args n = ground (
    arith,
    grant_vote-Untouched n.current_term args n,
    grant_vote-Untouched n.current_term args (become_follower args.term n),
  )

  pub on_heartbeat_reply-Untouched :
      (t : ℕ) (reply : AppendEntriesReply) (c : ℕ) (n : RaftNode P)
      → Untouched n (on_heartbeat_reply t reply c n).0
  unfolding on_heartbeat_reply become_follower
  on_heartbeat_reply-Untouched t reply c n = ground arith

  pub check_election-Untouched : (now : ℕ) (n : RaftNode P) → Untouched n (check_election now n).0
  unfolding check_election
  check_election-Untouched now n = ground arith

  pub begin_election-Untouched : (n : RaftNode P) → Untouched n (begin_election n).0
  unfolding begin_election become_candidate
  begin_election-Untouched n = ground arith

  pub on_vote_reply-Untouched :
      (t : ℕ) (peer : PeerInfo) (reply : RequestVoteReply) (n : RaftNode P) (g : List ℕ)
      → Untouched n (on_vote_reply t peer reply (n, g)).0
  unfolding on_vote_reply become_follower become_leader
  on_vote_reply-Untouched t peer reply n g = ground arith

  note_reply-Untouched :
      (i : ℕ) (args : AppendEntriesArgs) (reply : AppendEntriesReply) (matched next : ℕ)
      (n : RaftNode P)
      → Untouched n (note_reply i args reply matched next n).0
  unfolding note_reply
  note_reply-Untouched i args reply matched next n = ground arith

  pub on_append_reply-Untouched :
      (i t : ℕ) (args : AppendEntriesArgs) (reply : AppendEntriesReply) (n m : RaftNode P)
      (b : Bool)
      → on_append_reply i t args reply n ≡ ready (m, b)
      → Untouched n m
  unfolding on_append_reply become_follower note_reply
  on_append_reply-Untouched i t args reply n m b h = ground arith

  pub on_snapshot_reply-Untouched :
      (i t : ℕ) (reply : InstallSnapshotReply) (n m : RaftNode P) (b : Bool)
      → on_snapshot_reply i t reply n ≡ some (m, b)
      → Untouched n m
  unfolding on_snapshot_reply become_follower
  on_snapshot_reply-Untouched i t reply n m b h = ground arith
