-- ===== src/Tests/Vote.antt =====
-- Votes at concrete inputs.
use raft_kv_raft_leveldb.Vote.{can_vote, grant_vote, handle_request_vote}
use raft_kv_raft_leveldb.Vote.Safety.{handle_request_vote_granted, handle_request_vote_keeps}
use raft_kv_raft_leveldb.Types.{RequestVoteArgs, contains, follower}
use raft_kv_raft_leveldb.Common.{none, refl, some, true, ℕ, ◌<◌, ◌≡◌, ◌≤◌, ◌⊎◌}
use raft_kv_raft_leveldb.Node.{
  become_follower, is_candidate_log_up_to_date, is_node_in_current_voting_config,
}
use raft_kv_raft_leveldb.Tests.Nodes.{node}
use raft_kv_raft_leveldb.Node.Member.{IsMember, IsUpToDate}
use raft_kv_raft_leveldb.Log.{back_index, back_term}

-- Candidate 3 asks in term `t`.
abbrev ask : ℕ → RequestVoteArgs
ask t = record { term = t; candidate_id = 3; last_log_index = 2; last_log_term = 2 }

handle_request_vote_granted_example :
    let (m, reply) = handle_request_vote (ask 3) (node follower) in
    (true ≡ true)
    × IsMember (node follower) 3
    × (2 ≤ 3)
    × IsUpToDate (node follower) 2 2
    × ((2 < 3) ⊎ (((node follower).voted_for ≡ none) ⊎ ((node follower).voted_for ≡ some 3)))
    × (m.voted_for ≡ some 3)
    × (m.current_term ≡ 3)
    × (reply.term ≡ 3)
unfolding handle_request_vote is_node_in_current_voting_config contains grant_vote can_vote
    become_follower is_candidate_log_up_to_date back_term back_index
handle_request_vote_granted_example = handle_request_vote_granted (ask 3) (node follower) refl

handle_request_vote_keeps_example :
    (handle_request_vote (ask 2) (node follower)).0.voted_for ≡ some 1
unfolding handle_request_vote is_node_in_current_voting_config contains grant_vote can_vote
handle_request_vote_keeps_example = handle_request_vote_keeps (ask 2) (node follower) 1 refl refl
