-- ===== src/Exchange/Elections.antt =====
-- startElection and a round of electionLoop of src/raftCore/raft_node.cpp are sequences of the sections of
-- Run, with those of the other threads, and they end.
use raft_kv_raft_leveldb.Exchange.{Ran, World, done, pass}
use raft_kv_raft_leveldb.Exchange.Elect.{
  after_begin, election_round, on_vote_response, start_election, vote_rounds,
}
use raft_kv_raft_leveldb.Exchange.Sections.{Ends, Of, Reach-trans}
use raft_kv_raft_leveldb.Run.{ReachOf, election_begin, election_check, here, next, vote_reply}
use raft_kv_raft_leveldb.Vote.{begin_election, check_election, on_vote_reply}
use raft_kv_raft_leveldb.Wire.{Parsed, outside, parsed, rejected}
use raft_kv_raft_leveldb.Types.{AppendEntriesArgs, PeerInfo, RequestVoteArgs, RequestVoteReply}
use raft_kv_raft_leveldb.Platform.{Platform}
use raft_kv_raft_leveldb.Node.{RaftNode}
use raft_kv_raft_leveldb.Common.{
  Bool, List, Option, Text, [], false, if◌then◌else◌, none, some, true, ℕ, ◌∷◌,
}

module _ {P : Platform} (others : ℕ → RaftNode P → RaftNode P)
    (send : ℕ → PeerInfo → Text → Option Text) (n : RaftNode P)
    {Ok : AppendEntriesArgs → RaftNode P → Type 0}
    (moves : (k : ℕ) (m : RaftNode P) → ReachOf Ok m (others k m)) where
  -- A run that ends where the node is reached from its start.
  Arrives : Ran (World P) → Type 0
  Arrives r = Ends ⊥ (Of (ReachOf Ok n)) r

  passed : (w : World P) → ReachOf Ok n w.0 → ReachOf Ok n (pass others send w).0
  unfolding pass
  passed w h = Reach-trans h (moves w.1 w.0)

  if-Arrives :
      (b : Bool) (x y : Ran (World P)) → Arrives x → Arrives y → Arrives (if b then x else y)
  if-Arrives true x y h h' = h
  if-Arrives false x y h h' = h'

  on_vote_response-Arrives :
      (t : ℕ) (peer : PeerInfo) (granted : List ℕ) (p : Parsed RequestVoteReply)
      (rest : List ℕ → World P → Ran (World P)) (w : World P)
      → ((g : List ℕ) (v : World P) → ReachOf Ok n v.0 → Arrives (rest g v))
      → ReachOf Ok n w.0
      → Arrives (on_vote_response others send t peer granted p rest w)
  unfolding Arrives
  on_vote_response-Arrives t peer granted rejected rest w on h = on granted _ (passed w h)
  on_vote_response-Arrives t peer granted outside rest w on h = tt
  on_vote_response-Arrives t peer granted (parsed reply) rest w on h =
      let out = on_vote_reply t peer reply (w.0, granted) in
      let reached = next h (vote_reply t peer reply granted) in
      if-Arrives out.2 _ (done (out.0, w.1)) (on out.1 _ (passed (out.0, w.1) reached)) reached

  vote_rounds-Arrives :
      (args : RequestVoteArgs) (peers : List PeerInfo) (granted : List ℕ) (w : World P)
      → ReachOf Ok n w.0
      → Arrives (vote_rounds others send args peers granted w)
  unfolding vote_rounds Arrives
  vote_rounds-Arrives args [] granted w h = h
  vote_rounds-Arrives args (peer ∷ peers) granted w h =
      on_vote_response-Arrives args.term peer granted _ (vote_rounds others send args peers) _
        (vote_rounds-Arrives args peers) (passed w h)

  after_begin-Arrives :
      (k : ℕ) (p : RaftNode P × Option RequestVoteArgs)
      → ReachOf Ok n p.0
      → Arrives (after_begin others send k p)
  unfolding Arrives
  after_begin-Arrives k (m, none) h = h
  after_begin-Arrives k (m, some args) h = vote_rounds-Arrives args _ _ _ (passed (m, k) h)

  start_election-Arrives : (w : World P) → ReachOf Ok n w.0 → Arrives (start_election others send w)
  unfolding start_election
  start_election-Arrives w h = after_begin-Arrives w.1 (begin_election w.0) (next h election_begin)

  election_round-Arrives :
      (now : ℕ) (w : World P) → ReachOf Ok n w.0 → Arrives (election_round others send now w)
  unfolding election_round Arrives
  election_round-Arrives now w h =
      let out = check_election now w.0 in
      let reached = next h (election_check now) in
      if-Arrives out.1 _ (done (out.0, w.1))
        (start_election-Arrives _ (passed (out.0, w.1) reached)) reached

module _ {P : Platform} (others : ℕ → RaftNode P → RaftNode P)
    (send : ℕ → PeerInfo → Text → Option Text) {Ok : AppendEntriesArgs → RaftNode P → Type 0}
    (moves : (k : ℕ) (m : RaftNode P) → ReachOf Ok m (others k m)) where
  -- A round of electionLoop ends, and the node is reached by the sections in sequence.
  pub election_round-Ends :
      (now : ℕ) (w : World P) → Ends ⊥ (Of (ReachOf Ok w.0)) (election_round others send now w)
  unfolding Arrives
  election_round-Ends now w = election_round-Arrives others send w.0 moves now w here
