-- ===== src/Vote.antt =====
-- Elections in src/raftCore/raft_node.cpp: granting a vote, and the locked sections of startElection
-- and electionLoop.
pub mod Safety
use raft_kv_raft_leveldb.Common.{
  Bool, List, Option, [], false, if◌then◌else◌, ltb, none, not, some, true, ℕ, ◌&&◌, ◌++◌, ◌+◌,
  ◌==◌, ◌||◌, ◌∷◌,
}
use raft_kv_raft_leveldb.Types.{
  PeerInfo, RequestVoteArgs, RequestVoteReply, is_candidate, is_leader, option_eq,
}
use raft_kv_raft_leveldb.Platform.{Platform}
use raft_kv_raft_leveldb.Node.{
  RaftNode, become_candidate, become_follower, become_leader, get_last_log_index, get_last_log_term,
  is_candidate_log_up_to_date, is_election_timeout, is_node_in_current_voting_config, persist,
  reset_election_timer,
}
use raft_kv_raft_leveldb.Quorum.{has_election_majority}

module _ {P : Platform} where
  -- The `canVote` of handleRequestVote.
  unfoldable pub can_vote : RaftNode P → ℕ → Bool
  can_vote n candidate_id = option_eq n.voted_for none || option_eq n.voted_for (some candidate_id)

  -- The part of handleRequestVote after the term check; `term` is the term already in the reply.
  unfoldable pub grant_vote : ℕ → RequestVoteArgs → RaftNode P → RaftNode P × RequestVoteReply
  grant_vote term args n =
      if can_vote n args.candidate_id
        && is_candidate_log_up_to_date n args.last_log_index args.last_log_term
      then (
        persist (reset_election_timer (record n { voted_for = some args.candidate_id })),
        record { term = n.current_term; vote_granted = true },
      )
      else (n, record { term = term; vote_granted = false })

  -- handleRequestVote
  unfoldable pub handle_request_vote : RequestVoteArgs → RaftNode P → RaftNode P × RequestVoteReply
  handle_request_vote args n =
      let refusal : RequestVoteReply = record { term = n.current_term; vote_granted = false } in
      if not n.voting_member
      then (n, refusal)
      else if not (is_node_in_current_voting_config n args.candidate_id)
      then (n, refusal)
      else if ltb args.term n.current_term
      then (n, refusal)
      else if ltb n.current_term args.term
      then grant_vote n.current_term args (become_follower args.term n)
      else grant_vote n.current_term args n

  -- The first locked section of startElection; with the arguments to send if an election starts.
  unfoldable pub begin_election : RaftNode P → RaftNode P × Option RequestVoteArgs
  begin_election n =
      if n.removed || n.leaving || not n.voting_member
      then (n, none)
      else if not (is_node_in_current_voting_config n n.id)
      then (record n { voting_member = false }, none)
      else (
        become_candidate n,
        some (record {
          term = n.current_term + 1;
          candidate_id = n.id;
          last_log_index = get_last_log_index n;
          last_log_term = get_last_log_term n;
        }),
      )

  -- The locked section of startElection on a reply, with the ids that granted so far: the new state,
  -- the ids, and whether the loop goes on.
  unfoldable pub on_vote_reply :
      ℕ → PeerInfo → RequestVoteReply → RaftNode P × List ℕ → RaftNode P × List ℕ × Bool
  on_vote_reply term_snapshot peer reply (n, granted) =
      if not (is_candidate n.state) || not (n.current_term == term_snapshot)
      then (n, granted, false)
      else if ltb n.current_term reply.term
      then (become_follower reply.term n, granted, false)
      else if reply.vote_granted
      then (if has_election_majority n (granted ++ peer.id ∷ [])
          then (become_leader n, granted ++ peer.id ∷ [], false)
          else (n, granted ++ peer.id ∷ [], true))
      else (n, granted, true)

  -- The locked section of electionLoop, at the reading `now`: the new state, and
  -- `shouldStartElection`.
  unfoldable pub check_election : ℕ → RaftNode P → RaftNode P × Bool
  check_election now n =
      if n.removed
      then (n, false)
      else if n.leaving
      then (n, false)
      else if not n.voting_member
      then (n, false)
      else if not (is_node_in_current_voting_config n n.id)
      then (record n { voting_member = false }, false)
      else (n, not (is_leader n.state) && is_election_timeout now n)
