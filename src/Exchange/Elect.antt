-- ===== src/Exchange/Elect.antt =====
-- startElection of src/raftCore/raft_node.cpp as a whole, and the rounds of electionLoop and
-- heartbeatLoop.
use raft_kv_raft_leveldb.Wire.{Parsed, build_request_vote_rpc, outside, parsed, rejected}
use raft_kv_raft_leveldb.Exchange.{Ran, World, done, faulted, heard, pass, replicate_and_commit}
use raft_kv_raft_leveldb.Common.{
  true, Bool, List, Option, Text, [], arith, false, if◌then◌else◌, none, refl, some, ℕ, ◌+◌, ◌∷◌,
  ◌≡◌,
}
use raft_kv_raft_leveldb.Types.{
  PeerInfo, RequestVoteArgs, RequestVoteReply, is_leader, candidate, stable, contains, contains_id,
  size,
}
use raft_kv_raft_leveldb.Quorum.{
  contains_node_id, count_granted, has_election_majority, has_majority_in_config_by_ids,
}
use raft_kv_raft_leveldb.Platform.{Platform}
use raft_kv_raft_leveldb.Wire.Replies.{parse_request_vote_reply}
use raft_kv_raft_leveldb.Node.{
  RaftNode, become_candidate, persist, reset_election_timer, is_node_in_current_voting_config,
  get_last_log_index, get_last_log_term,
}
use raft_kv_raft_leveldb.Vote.{begin_election, check_election, on_vote_reply}

-- A voting member that is the only node of its stable configuration, and has no peers.
pub record IsAlone {P : Platform} (n : RaftNode P) : Type 0 where
  pub self : PeerInfo
  pub config_state : n.config_state ≡ stable
  pub nodes : n.current_config.nodes ≡ self ∷ []
  pub self_id : self.id ≡ n.id
  pub peers : n.peers ≡ []
  pub voting_member : n.voting_member ≡ true
  pub removed : n.removed ≡ false
  pub leaving : n.leaving ≡ false

module _ {P : Platform} (others : ℕ → RaftNode P → RaftNode P)
    (send : ℕ → PeerInfo → Text → Option Text) where
  -- The end of a round of startElection: it returns, or goes on with the ids that granted.
  abbrev pub after_vote :
      ℕ → RaftNode P × List ℕ × Bool → (List ℕ → World P → Ran (World P)) → Ran (World P)
  after_vote k (n, granted, goes) rest =
      if goes then rest granted (pass others send (n, k)) else done (n, k)

  abbrev pub on_vote_response :
      ℕ
      → PeerInfo
      → List ℕ
      → Parsed RequestVoteReply
      → (List ℕ → World P → Ran (World P))
      → World P
      → Ran (World P)
  on_vote_response term_snapshot peer granted rejected rest w = rest granted (pass others send w)
  on_vote_response term_snapshot peer granted outside rest w = faulted
  on_vote_response term_snapshot peer granted (parsed reply) rest w =
      after_vote w.1 (on_vote_reply term_snapshot peer reply (w.0, granted)) rest

  -- The loop of startElection over the peers.
  unfoldable pub vote_rounds : RequestVoteArgs → List PeerInfo → List ℕ → World P → Ran (World P)
  vote_rounds args [] granted w = done w
  vote_rounds args (peer ∷ peers) granted w =
      on_vote_response args.term peer granted
        (heard parse_request_vote_reply (send w.1 peer (build_request_vote_rpc args)))
        (vote_rounds args peers) (pass others send w)

  abbrev pub after_begin : ℕ → RaftNode P × Option RequestVoteArgs → Ran (World P)
  after_begin k (n, none) = done (n, k)
  after_begin k (n, some args) =
      let w = pass others send (n, k) in vote_rounds args w.0.peers (n.id ∷ []) w

  -- startElection
  unfoldable pub start_election : World P → Ran (World P)
  start_election w = after_begin w.1 (begin_election w.0)

  -- A round of electionLoop, at the reading `now` of the clock.
  unfoldable pub election_round : ℕ → World P → Ran (World P)
  election_round now w =
      let (n, should_start) = check_election now w.0 in
      if should_start then start_election (pass others send (n, w.1)) else done (n, w.1)

  -- sendHeartbeats
  unfoldable pub send_heartbeats : ℕ → World P → Ran (World P)
  send_heartbeats fuel w = replicate_and_commit others send fuel w

  -- A round of heartbeatLoop.
  unfoldable pub heartbeat_round : ℕ → World P → Ran (World P)
  heartbeat_round fuel w = if is_leader w.0.state then send_heartbeats fuel w else done w

  begin_alone :
      (n : RaftNode P)
      → IsAlone n
      → (args : RequestVoteArgs) × (begin_election n ≡ (become_candidate n, some args))
  unfolding begin_election is_node_in_current_voting_config contains contains_id
  begin_alone n a = (
    record {
      term = n.current_term + 1;
      candidate_id = n.id;
      last_log_index = get_last_log_index n;
      last_log_term = get_last_log_term n;
    },
    rw (a.removed, a.leaving, a.voting_member, a.config_state, a.nodes) (ground (arith, a.self_id)),
  )

  candidate_alone :
      (n : RaftNode P)
      → IsAlone n
      → let m = become_candidate n in
        (m.peers ≡ [])
        × (m.state ≡ candidate)
        × (m.current_term ≡ n.current_term + 1)
        × (m.voted_for ≡ some n.id)
        × (has_election_majority m (n.id ∷ []) ≡ true)
  unfolding become_candidate persist reset_election_timer has_election_majority
      has_majority_in_config_by_ids count_granted contains_node_id size
  candidate_alone n a =
      (a.peers, refl, refl, refl, rw (a.config_state, a.nodes) (ground (arith, a.self_id)))

  module _ (still : (k : ℕ) (n : RaftNode P) → others k n ≡ n) where
    -- A voting member, neither leaving nor removed, that is the only node of its stable
    -- configuration and has no peers, and whose other threads rest, starts an election in
    -- startElection, in which its own vote is a majority of the configuration, and ends as a
    -- candidate of the new term all the same.
    pub start_election_alone :
        (w : World P)
        → IsAlone w.0
        → (v : World P) × (start_election w ≡ done v)
          × (v.0.state ≡ candidate)
          × (v.0.current_term ≡ w.0.current_term + 1)
          × (v.0.voted_for ≡ some w.0.id)
          × (has_election_majority v.0 (w.0.id ∷ []) ≡ true)
    unfolding start_election pass vote_rounds
    start_election_alone w a =
        let n = become_candidate w.0 in
        let (args, begun) = begin_alone w.0 a in
        let (no_peers, state, term, vote, majority) = candidate_alone w.0 a in
        (
          (n, w.1 + 1),
          rw (begun, still w.1 n, no_peers, vote_rounds) refl,
          state,
          term,
          vote,
          majority,
        )
