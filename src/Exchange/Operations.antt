-- ===== src/Exchange/Operations.antt =====
-- leaderPut, leaderDelete, ensureCurrentTermCommitted, addNode and removeNode of
-- src/raftCore/raft_node.cpp, and the rounds of electionLoop and heartbeatLoop, end, as sequences of the sections of Run.
use raft_kv_raft_leveldb.Exchange.Elect.{election_round, heartbeat_round, send_heartbeats}
use raft_kv_raft_leveldb.Exchange.Elections.{election_round-Ends}
use raft_kv_raft_leveldb.Exchange.Change.{after_config}
use raft_kv_raft_leveldb.Run.{ReachOf, append_reply, command, commit, here, next, snapshot_reply}
use raft_kv_raft_leveldb.Exchange.{
  Ran, World, and_then, done, after_append, after_check, ensure_current_term_committed,
  is_committed_now, leader_delete, leader_put, pass, replicate_all, replicate_and_commit,
}
use raft_kv_raft_leveldb.Types.{
  AppendEntriesArgs, AppendEntriesReply, CommandType, InstallSnapshotReply, PeerInfo, del,
  is_leader, noop, put,
}
use raft_kv_raft_leveldb.Common.{
  Bool, Option, Text, arith, codes, false, if◌then◌else◌, inl, length, none, some, true, ℕ, ◌<◌,
  ◌≡◌, ◌≤◌,
}
use raft_kv_raft_leveldb.Platform.{Platform}
use raft_kv_raft_leveldb.Exchange.Sections.{
  Ends, IsKept, Of, OfResult, Reach-trans, and_then-Ends, pass-Of, replicate_all-Ends,
}
use raft_kv_raft_leveldb.Node.{RaftNode, become_follower, persist, reset_election_timer}
use raft_kv_raft_leveldb.Leader.{
  append_command, note_reply, on_append_reply, push_entry, ready, update_commit_index,
}
use raft_kv_raft_leveldb.Snapshot.{on_snapshot_reply}

-- The operations of a leader that append entries and send them, and the rounds of the two threads of a
-- node, which return nothing.
pub data Operation : Type 0 where
  put_value : Text → Text → Operation
  delete_key : Text → Operation
  commit_term : Operation
  election_thread : ℕ → Operation
  heartbeat_thread : Operation

module _ {P : Platform} (others : ℕ → RaftNode P → RaftNode P)
    (send : ℕ → PeerInfo → Text → Option Text) where
  abbrev pub run : ℕ → Operation → World P → Ran (World P × Bool)
  run fuel (put_value key value) w = leader_put others send fuel key value w
  run fuel (delete_key key) w = leader_delete others send fuel key w
  run fuel commit_term w = ensure_current_term_committed others send fuel w
  run fuel (election_thread now) w =
      and_then (election_round others send now w) (λ v. done (v, true))
  run fuel heartbeat_thread w = and_then (heartbeat_round others send fuel w) (λ v. done (v, true))

module _ {P : Platform} (others : ℕ → RaftNode P → RaftNode P)
    (send : ℕ → PeerInfo → Text → Option Text) (U : Type 0) (most : ℕ) (Q R : RaftNode P → Type 0)
    (kept : IsKept others U most Q) (stays : (k : ℕ) (n : RaftNode P) → R n → R (others k n))
    (weaken : (n : RaftNode P) → Q n → R n)
    (commits : (n : RaftNode P) → Q n → R (update_commit_index n)) (fuel : ℕ)
    (enough : most < fuel) where
  pub replicate_and_commit-Ends :
      (w : World P) → Q w.0 → Ends U (Of R) (replicate_and_commit others send fuel w)
  unfolding replicate_and_commit pass
  replicate_and_commit-Ends w h =
      and_then-Ends U (Of Q) (Of R) (replicate_all others send fuel 0 (pass others send w)) _
        (replicate_all-Ends others send U most Q kept fuel 0 (pass others send w)
          (pass-Of others send U most Q kept w h) (inl (omega arith)) (omega (arith, enough)))
        (λ v good. stays v.1 (update_commit_index v.0) (commits v.0 good))

  pub after_append-Ends :
      (k : ℕ) (test : ℕ → RaftNode P → Bool) (p : RaftNode P × Option ℕ)
      → Q p.0
      → Ends U (OfResult R) (after_append others send fuel k test p)
  after_append-Ends k test (m, none) h = weaken m h
  after_append-Ends k test (m, some index) h =
      and_then-Ends U (Of R) (OfResult R) _ _ (replicate_and_commit-Ends (m, k) h) (λ v good. good)

  pub after_config-Ends :
      (k : ℕ) (p : RaftNode P × Bool)
      → Q p.0
      → Ends U (OfResult R) (after_config others send fuel k p)
  after_config-Ends k (m, false) h = weaken m h
  after_config-Ends k (m, true) h =
      and_then-Ends U (Of R) (OfResult R) _ _ (replicate_and_commit-Ends (m, k) h) (λ v good. good)

-- The node is reached from a start, with a bounded number of peers.
pub record IsNear {P : Platform} (Ok : AppendEntriesArgs → RaftNode P → Type 0) (most : ℕ)
    (n m : RaftNode P) : Type 0 where
  pub reached : ReachOf Ok n m
  pub few : length m.peers ≤ most

module _ {P : Platform} where
  on_append_reply_peers :
      (i t : ℕ) (args : AppendEntriesArgs) (reply : AppendEntriesReply) (n m : RaftNode P)
      (b : Bool)
      → on_append_reply i t args reply n ≡ ready (m, b)
      → m.peers ≡ n.peers
  unfolding on_append_reply note_reply become_follower persist reset_election_timer
  on_append_reply_peers i t args reply n m b e = ground (arith, e)

  on_snapshot_reply_peers :
      (i t : ℕ) (reply : InstallSnapshotReply) (n m : RaftNode P) (b : Bool)
      → on_snapshot_reply i t reply n ≡ some (m, b)
      → m.peers ≡ n.peers
  unfolding on_snapshot_reply become_follower persist reset_election_timer
  on_snapshot_reply_peers i t reply n m b e = ground (arith, e)

  append_command_peers :
      (op : CommandType) (key value : Text) (n : RaftNode P)
      → (append_command op key value n).0.peers ≡ n.peers
  unfolding append_command push_entry persist
  append_command_peers op key value n = ground arith

module _ {P : Platform} (others : ℕ → RaftNode P → RaftNode P)
    (send : ℕ → PeerInfo → Text → Option Text) {Ok : AppendEntriesArgs → RaftNode P → Type 0}
    (moves : (k : ℕ) (n : RaftNode P) → ReachOf Ok n (others k n)) (most : ℕ)
    (calm : (k : ℕ) (n : RaftNode P) → length n.peers ≤ most → length (others k n).peers ≤ most)
    (fuel : ℕ) (enough : most < fuel) where
  IsNear-IsKept : (n : RaftNode P) → IsKept others ⊥ most (IsNear Ok most n)
  IsNear-IsKept n = record {
    by_others =
        λ k m h. record { reached = Reach-trans h.reached (moves k m); few = calm k m h.few };
    by_entries_reply = λ i t args reply m m' b h e. record {
      reached = next h.reached (append_reply i t args reply e);
      few = rw (on_append_reply_peers i t args reply m m' b e) h.few;
    };
    by_snapshot_reply = λ i t reply m m' b h e. record {
      reached = next h.reached (snapshot_reply i t reply e);
      few = rw (on_snapshot_reply_peers i t reply m m' b e) h.few;
    };
    few = λ m h. inl h.few;
  }

  appended-Ends :
      (n : RaftNode P) (k : ℕ) (test : ℕ → RaftNode P → Bool) (op : CommandType) (key value : Text)
      (m : RaftNode P)
      → IsNear Ok most n m
      → Ends ⊥
          (OfResult (ReachOf Ok n))
          (after_append others send fuel k test (append_command op key value m))
  appended-Ends n k test op key value m h =
      after_append-Ends others send ⊥ most (IsNear Ok most n) (ReachOf Ok n) (IsNear-IsKept n)
        (λ j l r. Reach-trans r (moves j l)) (λ l near. near.reached)
        (λ l near. next near.reached commit) fuel enough k test (append_command op key value m)
        (record {
          reached = next h.reached (command op key value);
          few = rw (append_command_peers op key value m) h.few;
        })

  check-Ends :
      (w : World P) (o : Option Bool)
      → length w.0.peers ≤ most
      → Ends ⊥ (OfResult (ReachOf Ok w.0)) (after_check others send fuel w o)
  unfolding pass
  check-Ends w (some result) h = here
  check-Ends w none h =
      appended-Ends w.0 _ is_committed_now noop (codes "__noop__") (codes "__noop__")
        (others w.1 w.0) (record { reached = moves w.1 w.0; few = calm w.1 w.0 h })

  heartbeat-Ends :
      (b : Bool) (w : World P)
      → length w.0.peers ≤ most
      → Ends ⊥ (Of (ReachOf Ok w.0)) (if b then send_heartbeats others send fuel w else done w)
  unfolding send_heartbeats
  heartbeat-Ends false w h = here
  heartbeat-Ends true w h =
      replicate_and_commit-Ends others send ⊥ most (IsNear Ok most w.0) (ReachOf Ok w.0)
        (IsNear-IsKept w.0) (λ j l r. Reach-trans r (moves j l)) (λ l near. near.reached)
        (λ l near. next near.reached commit) fuel enough w (record { reached = here; few = h })

  -- Take other threads that run sections of theirs whenever the mutex is free, whatever requests and
  -- replies arrive in them, and that never raise the number of peers above a bound that it is below at the start. With fuel for more rounds than the bound,
  -- a put, a delete, the no-op of a read, and a round of the election thread and of the heartbeat thread do
  -- not run out of fuel, and where one of them returns, the node is reached from where it was by sections in
  -- sequence.
  pub run-Ends :
      (op : Operation) (w : World P)
      → length w.0.peers ≤ most
      → Ends ⊥ (OfResult (ReachOf Ok w.0)) (run others send fuel op w)
  unfolding leader_put leader_delete ensure_current_term_committed heartbeat_round
  run-Ends (put_value key value) w h =
      appended-Ends w.0 _ _ put key value w.0 (record { reached = here; few = h })
  run-Ends (delete_key key) w h =
      appended-Ends w.0 _ _ del key (codes "__del__") w.0 (record { reached = here; few = h })
  run-Ends commit_term w h = check-Ends w _ h
  run-Ends (election_thread now) w h =
      and_then-Ends ⊥ (Of (ReachOf Ok w.0)) (OfResult (ReachOf Ok w.0)) _ _
        (election_round-Ends others send moves now w) (λ v good. good)
  run-Ends heartbeat_thread w h =
      and_then-Ends ⊥ (Of (ReachOf Ok w.0)) (OfResult (ReachOf Ok w.0)) _ _
        (heartbeat-Ends (is_leader w.0.state) w h) (λ v good. good)
