-- ===== src/Tests/Run.antt =====
-- A schedule of three sections: an election, a request of a newer leader, and a vote.
use raft_kv_raft_leveldb.Run.{
  Reach, ReachOf, election_check, entries_arrive, here, next, request_vote,
}
use raft_kv_raft_leveldb.Run.Valid.{Reach-IsValid}
use raft_kv_raft_leveldb.Run.Saved.{Reach-IsSaved}
use raft_kv_raft_leveldb.Run.Written.{IsSaved}
use raft_kv_raft_leveldb.Run.Forward.{IsForward, Reach-IsForward}
use raft_kv_raft_leveldb.Vote.{check_election, handle_request_vote}
use raft_kv_raft_leveldb.Append.{handle_append_entries}
use raft_kv_raft_leveldb.Types.{AppendEntriesArgs, RequestVoteArgs, follower}
use raft_kv_raft_leveldb.Common.{arith, inr, refl, ◌∷◌, []}
use raft_kv_raft_leveldb.Node.{RaftNode, persist}
use raft_kv_raft_leveldb.Node.Valid.{IsValid}
use raft_kv_raft_leveldb.Tests.Memory.{memory}
use raft_kv_raft_leveldb.Tests.Nodes.{node, second_entry}
use raft_kv_raft_leveldb.Tests.Append.{request}
use raft_kv_raft_leveldb.Storage.{save}
use raft_kv_raft_leveldb.Log.{back_index}

abbrev poll : RequestVoteArgs
poll = record { term = 9; candidate_id = 3; last_log_index = 9; last_log_term = 9 }

-- The follower, with its state written to the file.
abbrev begun : RaftNode memory
begun = persist (node follower)

abbrev after : RaftNode memory
after = (check_election 9000 (handle_request_vote poll (handle_append_entries request begun).0).0).0

schedule : Reach begun after
unfolding persist
schedule =
    next
      (next (next here (entries_arrive request (inr (record { contig = (refl, tt); agrees = tt }))))
        (request_vote poll))
      (election_check 9000)

begun-IsValid : IsValid begun
unfolding persist back_index
begun-IsValid = record {
  contig = (refl, (refl, tt));
  snapshot_applied = omega arith;
  applied_committed = omega arith;
  committed_logged = omega arith;
}

Reach-IsValid_example : IsValid after
Reach-IsValid_example = Reach-IsValid schedule begun-IsValid

-- A request whose entries do not run on from the previous index.
abbrev odd_request : AppendEntriesArgs
odd_request = record request { entries = record second_entry { index = 9 } ∷ [] }

abbrev Any : AppendEntriesArgs → RaftNode memory → Type 0
Any args n = Unit

abbrev odd_after : RaftNode memory
odd_after = (handle_request_vote poll (handle_append_entries odd_request begun).0).0

odd_schedule : ReachOf Any begun odd_after
odd_schedule = next (next here (entries_arrive odd_request tt)) (request_vote poll)

Reach-IsSaved_example : IsSaved odd_after
unfolding persist save
Reach-IsSaved_example = Reach-IsSaved (λ k. refl) odd_schedule (record { file = refl })

Reach-IsForward_example : IsForward begun after
Reach-IsForward_example = Reach-IsForward schedule begun-IsValid
