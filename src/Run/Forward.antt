-- ===== src/Run/Forward.antt =====
-- What never goes back over any schedule of the sections of src/raftCore/raft_node.cpp.
use raft_kv_raft_leveldb.Common.{
  Bool-cases, List, Option-cases, Text, arith, inl, inr, ltb, min, ℕ, ◌≤◌,
}
use raft_kv_raft_leveldb.Platform.{Platform}
use raft_kv_raft_leveldb.Log.{back_index}
use raft_kv_raft_leveldb.Node.{RaftNode, become_follower, get_last_log_index, persist}
use raft_kv_raft_leveldb.Node.Valid.{IsValid}
use raft_kv_raft_leveldb.Apply.Compact.{AppliedAll, apply_committed_logs_lem}
use raft_kv_raft_leveldb.Append.{follow_commit, follow_leader, handle_append_entries, store_entries}
use raft_kv_raft_leveldb.Run.Frames.{
  Untouched, begin_election-Untouched, check_election-Untouched, handle_request_vote-Untouched,
  on_append_reply-Untouched, on_heartbeat_reply-Untouched, on_snapshot_reply-Untouched,
  on_vote_reply-Untouched,
}
use raft_kv_raft_leveldb.Types.{
  AppendEntriesArgs, CommandType, InstallSnapshotArgs, LogEntry, PeerInfo, is_leader,
}
use raft_kv_raft_leveldb.Append.Cases.{follow_leader-IsValid, followed, handle_append_entries_cases}
use raft_kv_raft_leveldb.Append.Handler.{
  IsAcceptable, IsConsistent-followed, stored-IsConsistent, storing-IsValid,
}
use raft_kv_raft_leveldb.Snapshot.{handle_install_snapshot}
use raft_kv_raft_leveldb.Snapshot.Install.{handle_install_snapshot_forward}
use raft_kv_raft_leveldb.Leader.{append_command, append_config, find_commit, update_commit_index}
use raft_kv_raft_leveldb.Leader.Commit.{committing-IsValid, find_commit-some, reach, rounds_of}
use raft_kv_raft_leveldb.Run.{
  Reach, Step, append_reply, command, commit, config, election_begin, election_check,
  entries_arrive, heartbeat_reply, here, next, request_vote, snapshot_arrives, snapshot_reply,
  vote_reply,
}
use raft_kv_raft_leveldb.Run.Valid.{Reach-IsValid}

-- The term, the commit index, the position of application and the snapshot point.
pub record IsForward {P : Platform} (n m : RaftNode P) : Type 0 where
  pub term : n.current_term ≤ m.current_term
  pub commit_index : n.commit_index ≤ m.commit_index
  pub last_applied : n.last_applied ≤ m.last_applied
  pub last_included_index : n.last_included_index ≤ m.last_included_index

module _ {P : Platform} where
  IsForward-trans : {n m k : RaftNode P} → IsForward n m → IsForward m k → IsForward n k
  IsForward-trans a b = omega arith

  IsForward-Untouched : {n m : RaftNode P} → Untouched n m → IsForward n m
  IsForward-Untouched u = omega arith

  follow_leader-Untouched :
      (term sender : ℕ) (n : RaftNode P)
      → n.current_term ≤ term
      → Untouched n (follow_leader term sender n)
  unfolding follow_leader become_follower
  follow_leader-Untouched term sender n h = ground arith

  AppliedAll-IsForward : {n m : RaftNode P} → IsValid n → AppliedAll n m → IsForward n m
  AppliedAll-IsForward v a =
      omega (arith, a.from, a.commit_index, a.last_applied, a.current_term, v.applied_committed)

  follow_commit-IsForward :
      (leader_commit : ℕ) (n : RaftNode P) → IsValid n → IsForward n (follow_commit leader_commit n)
  unfolding follow_commit get_last_log_index
  follow_commit-IsForward leader_commit n v = elim (Bool-cases (ltb n.commit_index leader_commit)) [
    | inr done ↦ rw done (omega arith)
    | inl more ↦
        let w : IsValid (record n {
          commit_index = min leader_commit (back_index n.last_included_index n.logs);
        }) =
          record {
            contig = v.contig;
            snapshot_applied = v.snapshot_applied;
            applied_committed = ground (arith, v.applied_committed, v.committed_logged);
            committed_logged = omega arith;
          } in
        let f = AppliedAll-IsForward w (apply_committed_logs_lem _ w) in
        let less : n.commit_index ≤ min leader_commit (back_index n.last_included_index n.logs) =
          ground (arith, v.committed_logged) in
        rw more (record {
          term = f.term;
          commit_index = omega (arith, f.commit_index);
          last_applied = f.last_applied;
          last_included_index = f.last_included_index;
        })
  ]

  store_entries-same : (es : List LogEntry) (n : RaftNode P) → IsForward n (store_entries es n)
  unfolding store_entries persist
  store_entries-same es n = ground arith

  pub handle_append_entries-IsForward :
      (args : AppendEntriesArgs) (n : RaftNode P)
      → IsValid n
      → IsAcceptable args n
      → IsForward n (handle_append_entries args n).0
  handle_append_entries-IsForward args n v ok =
      let w = follow_leader-IsValid args.term args.leader_id n v in
      let up = λ (h : n.current_term ≤ args.term).
        IsForward-Untouched (follow_leader-Untouched args.term args.leader_id n h) in
      handle_append_entries_cases (λ r. IsForward n r.0) args n (omega arith) (λ h. up h.1)
        (λ h _. up h.1)
        λ h m. IsForward-trans (up h.1) (
          IsForward-trans (store_entries-same args.entries (followed args n)) (
            follow_commit-IsForward args.leader_commit _ (
              storing-IsValid args (followed args n) w m
                (IsConsistent-followed args n (stored-IsConsistent args n ok h m)))))

  update_commit_index-IsForward : (n : RaftNode P) → IsValid n → IsForward n (update_commit_index n)
  unfolding update_commit_index
  update_commit_index-IsForward n v = elim (Bool-cases (is_leader n.state)) [
    | inr idle ↦ rw idle (omega arith)
    | inl leads ↦ elim (Option-cases (find_commit (rounds_of n) n)) [
      | inl nothing ↦ rw (leads, nothing) (omega arith)
      | inr (i, chosen) ↦
          let f = find_commit-some n (rounds_of n) i chosen in
          let w = committing-IsValid n i v f.0 (reach n v i f.1) in
          let g =
            AppliedAll-IsForward w (apply_committed_logs_lem (record n { commit_index = i }) w) in
          rw (leads, chosen)
            (record {
              term = g.term;
              commit_index = omega (arith, f.0, g.commit_index);
              last_applied = g.last_applied;
              last_included_index = g.last_included_index;
            })
    ]
  ]

  append_command-IsForward :
      (op : CommandType) (key value : Text) (n : RaftNode P)
      → IsForward n (append_command op key value n).0
  unfolding append_command
  append_command-IsForward op key value n = ground arith

  append_config-IsForward :
      (op : CommandType) (label : Text) (old_cfg new_cfg : List PeerInfo) (n : RaftNode P)
      → IsForward n (append_config op label old_cfg new_cfg n).0
  unfolding append_config
  append_config-IsForward op label old_cfg new_cfg n = ground arith

  handle_install_snapshot-IsForward :
      (args : InstallSnapshotArgs) (n : RaftNode P)
      → IsValid n
      → IsForward n (handle_install_snapshot args n).0
  handle_install_snapshot-IsForward args n v =
      omega (arith, handle_install_snapshot_forward args n v)

  Step-IsForward : {n m : RaftNode P} → Step n m → IsValid n → IsForward n m
  Step-IsForward {n} (request_vote args) v =
      IsForward-Untouched (handle_request_vote-Untouched args n)
  Step-IsForward {n} (entries_arrive args c) v = handle_append_entries-IsForward args n v c
  Step-IsForward {n} (snapshot_arrives args) v = handle_install_snapshot-IsForward args n v
  Step-IsForward {n} (election_check now) v = IsForward-Untouched (check_election-Untouched now n)
  Step-IsForward {n} election_begin v = IsForward-Untouched (begin_election-Untouched n)
  Step-IsForward {n} (vote_reply t peer reply granted) v =
      IsForward-Untouched (on_vote_reply-Untouched t peer reply n granted)
  Step-IsForward {n} (command op key value) v = append_command-IsForward op key value n
  Step-IsForward {n} (config op label old_cfg new_cfg) v =
      append_config-IsForward op label old_cfg new_cfg n
  Step-IsForward {n} {m} (append_reply i t args reply {done = b} h) v =
      IsForward-Untouched (on_append_reply-Untouched i t args reply n m b h)
  Step-IsForward {n} {m} (snapshot_reply i t reply {done = b} h) v =
      IsForward-Untouched (on_snapshot_reply-Untouched i t reply n m b h)
  Step-IsForward {n} (heartbeat_reply t reply c) v =
      IsForward-Untouched (on_heartbeat_reply-Untouched t reply c n)
  Step-IsForward {n} commit v = update_commit_index-IsForward n v

  -- From a valid state, after any number of sections in any order, the term, the commit index,
  -- the last applied index and the snapshot point are at least what they were. The entries of
  -- the AppendEntries requests that the node stores among them run on from the previous index and do
  -- not contradict committed ones.
  pub Reach-IsForward : {n m : RaftNode P} → Reach n m → IsValid n → IsForward n m
  Reach-IsForward here v = omega arith
  Reach-IsForward (next r s) v =
      IsForward-trans (Reach-IsForward r v) (Step-IsForward s (Reach-IsValid r v))
