-- ===== src/Run/Bounds.antt =====
-- The indices of nextIndex_ and matchIndex_ in src/raftCore/raft_node.cpp are in bounds at a leader, over
-- any schedule of the sections.
use raft_kv_raft_leveldb.Run.{
  ReachOf, StepOf, append_reply, command, commit, config, election_begin, election_check,
  entries_arrive, heartbeat_reply, here, next, request_vote, snapshot_arrives, snapshot_reply,
  vote_reply,
}
use raft_kv_raft_leveldb.Leader.{choose_route, fault, note_reply, on_append_reply, ready}
use raft_kv_raft_leveldb.Common.{
  Bool, Bool-cases, Option-cases, arith, get_elem?, get_elem?-lt, if◌then◌else◌, inl, inr, leb,
  length, ltb, max, none, some, true, ℕ, ◌+◌, ◌-◌, ◌<◌, ◌≡◌, ◌≢◌,
}
use raft_kv_raft_leveldb.Types.{
  AppendEntriesArgs, AppendEntriesReply, InstallSnapshotReply, is_leader,
}
use raft_kv_raft_leveldb.Platform.{Platform}
use raft_kv_raft_leveldb.Node.{RaftNode}
use raft_kv_raft_leveldb.Apply.Fitted.{IsFitted}
use raft_kv_raft_leveldb.Snapshot.{on_snapshot_reply}
use raft_kv_raft_leveldb.Run.Fitted.{
  append_command-IsFitted, append_config-IsFitted, become_follower-IsFitted,
  begin_election-IsFitted, check_election-IsFitted, handle_append_entries-IsFitted,
  handle_install_snapshot-IsFitted, handle_request_vote-IsFitted, on_heartbeat_reply-IsFitted,
  on_vote_reply-IsFitted, set-IsFitted, set_next-IsFitted, update_commit_index-IsFitted,
}

module _ {P : Platform} where
  note_reply-IsFitted :
      (i : ℕ) (args : AppendEntriesArgs) (reply : AppendEntriesReply) (matched at : ℕ)
      (n : RaftNode P)
      → IsFitted n
      → IsFitted (note_reply i args reply matched at n).0
  unfolding note_reply
  note_reply-IsFitted i args reply matched at n f =
      let matched' = max matched (args.prev_log_index + length args.entries) in
      let lowered = if ltb (n.last_included_index + 1) at then at - 1 else n.last_included_index in
      ground (arith, set-IsFitted i (matched' + 1) matched' n f, set_next-IsFitted i lowered n f)

  on_append_reply-IsFitted :
      (i t : ℕ) (args : AppendEntriesArgs) (reply : AppendEntriesReply) (n m : RaftNode P)
      (b : Bool)
      → IsFitted n
      → on_append_reply i t args reply n ≡ ready (m, b)
      → IsFitted m
  unfolding on_append_reply
  on_append_reply-IsFitted i t args reply n m b f e =
      let lower = become_follower-IsFitted reply.term n in
      elim (Option-cases (get_elem? n.next_index i)) [
        | inl past ↦ ground (arith, f, e, past, lower)
        | inr (at, place) ↦ elim (Option-cases (get_elem? n.match_index i)) [
          | inl past ↦
              ground (arith, f, e, place, past, lower, note_reply-IsFitted i args reply 0 at n f)
          | inr (matched, slot) ↦
              ground
                (arith, f, e, slot, place, lower, note_reply-IsFitted i args reply matched at n f)
        ]
      ]

  on_snapshot_reply-IsFitted :
      (i t : ℕ) (reply : InstallSnapshotReply) (n m : RaftNode P) (b : Bool)
      → IsFitted n
      → on_snapshot_reply i t reply n ≡ some (m, b)
      → IsFitted m
  unfolding on_snapshot_reply
  on_snapshot_reply-IsFitted i t reply n m b f e =
      let lower = become_follower-IsFitted reply.term n in
      elim (Option-cases (get_elem? n.match_index i)) [
        | inl past ↦ ground (arith, f, e, past, lower)
        | inr (matched, slot) ↦
            let stored =
              set-IsFitted i (n.last_included_index + 1) (max matched n.last_included_index) n f in
            ground (arith, f, e, slot, lower, stored)
      ]

  Step-IsFitted :
      {Ok : AppendEntriesArgs → RaftNode P → Type 0} {n m : RaftNode P}
      → StepOf Ok n m
      → IsFitted n
      → IsFitted m
  Step-IsFitted {n} (request_vote args) f = handle_request_vote-IsFitted args n f
  Step-IsFitted {n} (entries_arrive args c) f = handle_append_entries-IsFitted args n f
  Step-IsFitted {n} (snapshot_arrives args) f = handle_install_snapshot-IsFitted args n f
  Step-IsFitted {n} (election_check now) f = check_election-IsFitted now n f
  Step-IsFitted {n} election_begin f = begin_election-IsFitted n f
  Step-IsFitted {n} (vote_reply t voter reply granted) f =
      on_vote_reply-IsFitted t voter reply n granted f
  Step-IsFitted {n} (command op key value) f = append_command-IsFitted op key value n f
  Step-IsFitted {n} (config op label old_cfg new_cfg) f =
      append_config-IsFitted op label old_cfg new_cfg n f
  Step-IsFitted {n} {m} (append_reply i t args reply {done = b} h) f =
      on_append_reply-IsFitted i t args reply n m b f h
  Step-IsFitted {n} {m} (snapshot_reply i t reply {done = b} h) f =
      on_snapshot_reply-IsFitted i t reply n m b f h
  Step-IsFitted {n} (heartbeat_reply t reply c) f = on_heartbeat_reply-IsFitted t reply c n f
  Step-IsFitted {n} commit f = update_commit_index-IsFitted n f

  -- After any number of sections in any order, nextIndex_ and matchIndex_ of a leader have one place
  -- for each peer, if they did at the start.
  pub Reach-IsFitted :
      {Ok : AppendEntriesArgs → RaftNode P → Type 0} {n m : RaftNode P}
      → ReachOf Ok n m
      → IsFitted n
      → IsFitted m
  Reach-IsFitted here f = f
  Reach-IsFitted (next r s) f = Step-IsFitted s (Reach-IsFitted r f)

  -- The place of a peer at a leader.
  slots :
      (i : ℕ) (n : RaftNode P)
      → IsFitted n
      → is_leader n.state ≡ true
      → i < length n.peers
      → ((a : ℕ) × (get_elem? n.next_index i ≡ some a))
        × ((a : ℕ) × (get_elem? n.match_index i ≡ some a))
  slots i n f leads inside = (
    get_elem?-lt n.next_index i (ground (arith, f, leads, inside)),
    get_elem?-lt n.match_index i (ground (arith, f, leads, inside)),
  )

  choose_route_inside : (i : ℕ) (n : RaftNode P) → IsFitted n → choose_route i n ≢ fault
  unfolding choose_route
  choose_route_inside i n f wrong = elim (Bool-cases (is_leader n.state)) [
    | inr idle ↦ ground (arith, wrong, idle)
    | inl leads ↦ elim (Bool-cases (leb (length n.peers) i)) [
      | inl past ↦ ground (arith, wrong, leads, past)
      | inr inside ↦
          let (at, place) = (slots i n f leads (ground (arith, inside))).0 in
          ground (arith, wrong, leads, inside, place)
    ]
  ]

  pub on_append_reply_inside :
      (i t : ℕ) (args : AppendEntriesArgs) (reply : AppendEntriesReply) (n : RaftNode P)
      → IsFitted n
      → i < length n.peers
      → on_append_reply i t args reply n ≢ fault
  unfolding on_append_reply
  on_append_reply_inside i t args reply n f inside wrong = elim (Bool-cases (is_leader n.state)) [
    | inr idle ↦ ground (arith, wrong, idle)
    | inl leads ↦
        let ((at, place), (matched, slot)) = slots i n f leads inside in
        ground (arith, wrong, leads, place, slot)
  ]

  on_snapshot_reply_inside :
      (i t : ℕ) (reply : InstallSnapshotReply) (n : RaftNode P)
      → IsFitted n
      → i < length n.peers
      → on_snapshot_reply i t reply n ≢ none
  unfolding on_snapshot_reply
  on_snapshot_reply_inside i t reply n f inside wrong = elim (Bool-cases (is_leader n.state)) [
    | inr idle ↦ ground (arith, wrong, idle)
    | inl leads ↦
        let ((at, place), (matched, slot)) = slots i n f leads inside in
        ground (arith, wrong, leads, place, slot)
  ]

  -- After any number of sections in any order, whatever requests and replies arrive in them, from a state
  -- in which nextIndex_ and matchIndex_ of a leader have one place for each peer: the first section of
  -- replicateToPeer stays in the bounds of these vectors for every index, and the last sections of
  -- replicateToPeer and sendSnapshotToPeer do so for the index of a peer, whatever the reply is.
  pub Reach-in_bounds :
      {Ok : AppendEntriesArgs → RaftNode P → Type 0} {n m : RaftNode P} (j i t : ℕ)
      (args : AppendEntriesArgs) (reply : AppendEntriesReply) (answer : InstallSnapshotReply)
      → ReachOf Ok n m
      → IsFitted n
      → i < length m.peers
      → (choose_route j m ≢ fault)
        × (on_append_reply i t args reply m ≢ fault)
        × (on_snapshot_reply i t answer m ≢ none)
  Reach-in_bounds {n} {m} j i t args reply answer r f inside =
      let fitted = Reach-IsFitted r f in
      (
        choose_route_inside j m fitted,
        on_append_reply_inside i t args reply m fitted inside,
        on_snapshot_reply_inside i t answer m fitted inside,
      )
