-- ===== src/Vote/Safety.antt =====
-- What handleRequestVote of src/raftCore/raft_node.cpp promises: when it grants, what a vote is
-- worth later in the same term, and how a vote is lost.
use raft_kv_raft_leveldb.Node.Member.{
  IsMember, IsUpToDate, in_voting_config-IsMember, fresh_log-IsUpToDate,
}
use raft_kv_raft_leveldb.Common.{
  Bool-cases, inl, inr, Option, arith, none, refl, some, true, ℕ, ◌<◌, ◌≡◌, ◌≤◌, ◌⊎◌,
}
use raft_kv_raft_leveldb.Types.{RequestVoteArgs, option_eq}
use raft_kv_raft_leveldb.Platform.{Platform}
use raft_kv_raft_leveldb.Node.{
  RaftNode, become_follower, is_candidate_log_up_to_date, is_node_in_current_voting_config,
}
use raft_kv_raft_leveldb.Vote.{can_vote, grant_vote, handle_request_vote}

pub option_eq→eq : (a b : Option ℕ) → option_eq a b ≡ true → a ≡ b
option_eq→eq none none h = refl
option_eq→eq none (some b) h = cc
option_eq→eq (some a) none h = cc
option_eq→eq (some a) (some b) h = ground arith

module _ {P : Platform} where
  granted_guards :
      (args : RequestVoteArgs) (n : RaftNode P)
      → (handle_request_vote args n).1.vote_granted ≡ true
      → let (m, reply) = handle_request_vote args n in
        (n.voting_member ≡ true)
        × (is_node_in_current_voting_config n args.candidate_id ≡ true)
        × (n.current_term ≤ args.term)
        × (is_candidate_log_up_to_date n args.last_log_index args.last_log_term ≡ true)
        × ((n.current_term < args.term) ⊎ (can_vote n args.candidate_id ≡ true))
        × (m.voted_for ≡ some args.candidate_id)
        × (m.current_term ≡ args.term)
        × (reply.term ≡ args.term)
  unfolding handle_request_vote grant_vote become_follower is_candidate_log_up_to_date can_vote
  granted_guards args n = ground arith

  can_vote-free :
      (n : RaftNode P) (candidate : ℕ)
      → can_vote n candidate ≡ true
      → (n.voted_for ≡ none) ⊎ (n.voted_for ≡ some candidate)
  unfolding can_vote
  can_vote-free n candidate h = elim (Bool-cases (option_eq n.voted_for none)) [
    | inl free ↦ inl (option_eq→eq n.voted_for none free)
    | inr held ↦ inr (option_eq→eq n.voted_for (some candidate) (ground (arith, h, held)))
  ]

  -- A vote is granted only by a voting member, to a member of the configuration (of either half where
  -- it is joint), in a term that is not behind, to a candidate whose last entry has a later term than
  -- the voter's, or the same term and an index that is not lower, and where the term is not new only
  -- if the voter has no vote in it or the candidate holds that vote. The voter is then in the term of
  -- the request, has recorded the vote, and says so.
  pub handle_request_vote_granted :
      (args : RequestVoteArgs) (n : RaftNode P)
      → (handle_request_vote args n).1.vote_granted ≡ true
      → let (m, reply) = handle_request_vote args n in
        (n.voting_member ≡ true)
        × IsMember n args.candidate_id
        × (n.current_term ≤ args.term)
        × IsUpToDate n args.last_log_index args.last_log_term
        × ((n.current_term < args.term)
            ⊎ ((n.voted_for ≡ none) ⊎ (n.voted_for ≡ some args.candidate_id)))
        × (m.voted_for ≡ some args.candidate_id)
        × (m.current_term ≡ args.term)
        × (reply.term ≡ args.term)
  handle_request_vote_granted args n granted =
      let (voting, member, term, fresh, free, recorded, same, said) =
        granted_guards args n granted in
      (
        voting,
        in_voting_config-IsMember n args.candidate_id member,
        term,
        fresh_log-IsUpToDate n args.last_log_index args.last_log_term fresh,
        elim free [
          | inl later ↦ inl later
          | inr held ↦ inr (can_vote-free n args.candidate_id held)
        ],
        recorded,
        same,
        said,
      )

  -- A RequestVote that leaves a node in its term leaves it the vote that it has given in that
  -- term.
  pub handle_request_vote_keeps :
      (args : RequestVoteArgs) (n : RaftNode P) (c : ℕ)
      → n.voted_for ≡ some c
      → (handle_request_vote args n).0.current_term ≡ n.current_term
      → (handle_request_vote args n).0.voted_for ≡ some c
  unfolding handle_request_vote grant_vote become_follower can_vote
  handle_request_vote_keeps args n c voted same = ground arith
