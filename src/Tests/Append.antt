-- ===== src/Tests/Append.antt =====
-- Requests to a follower at concrete inputs.
use raft_kv_raft_leveldb.Log.{back_index, back_term, entries_above, entry_at}
use raft_kv_raft_leveldb.Append.{follow_leader, handle_append_entries}
use raft_kv_raft_leveldb.Append.Cases.{IsHeard, IsMatched}
use raft_kv_raft_leveldb.Append.Store.{merged_log}
use raft_kv_raft_leveldb.Append.Handler.{IsConsistent, handle_append_entries_refused}
use raft_kv_raft_leveldb.Append.Matched.{handle_append_entries_matched, next_commit}
use raft_kv_raft_leveldb.Append.Hazards.{covered_credit, second_vote}
use raft_kv_raft_leveldb.Apply.Compact.{AppliedAll}
use raft_kv_raft_leveldb.Apply.Effects.{
  apply_committed_logs_effects, apply_loop_effects, follow_entries, members_of,
}
use raft_kv_raft_leveldb.Apply.Replay.{pending, replay}
use raft_kv_raft_leveldb.Apply.{apply_committed_logs, apply_loop}
use raft_kv_raft_leveldb.Node.Valid.{IsValid, Kept}
use raft_kv_raft_leveldb.Leader.{on_append_reply, ready}
use raft_kv_raft_leveldb.Vote.{handle_request_vote}
use raft_kv_raft_leveldb.Types.{
  AppendEntriesArgs, InstallSnapshotArgs, RequestVoteArgs, candidate, config_new, contains,
  follower, leader, log_entry, noop,
}
use raft_kv_raft_leveldb.Common.{
  [], arith, codes, get_elem?, refl, some, true, ℕ, ◌<◌, ◌∷◌, ◌≡◌, ◌≢◌, ◌≤◌,
}
use raft_kv_raft_leveldb.Tests.Nodes.{
  first_entry, node, node-IsValid, peer, second_entry, third_entry,
}
use raft_kv_raft_leveldb.Node.{
  RaftNode, become_follower, get_last_log_index, get_log_term_at, has_log_at,
  is_candidate_log_up_to_date, is_node_in_current_voting_config, reset_election_timer,
}
use raft_kv_raft_leveldb.Tests.Memory.{memory}
use raft_kv_raft_leveldb.Run.Credit.{handle_append_entries_credit}

-- Leader 2 replaces the second entry by its own, and commits it.
abbrev pub request : AppendEntriesArgs
request = record {
  term = 3;
  leader_id = 2;
  prev_log_index = 1;
  prev_log_term = some 1;
  entries = log_entry 3 2 noop (codes "") (codes "") ∷ [];
  leader_commit = 2;
}

request-IsHeard : IsHeard request (node follower)
unfolding is_node_in_current_voting_config contains
request-IsHeard = (refl, omega arith)

request-IsMatched : IsMatched request (node follower)
unfolding has_log_at entry_at get_log_term_at
request-IsMatched = (omega arith, refl, refl)

request-IsConsistent : IsConsistent request (node follower)
request-IsConsistent = record { contig = (refl, tt); agrees = tt }

handle_append_entries_matched_example :
    let (m, reply) = handle_append_entries request (node follower) in
    let log = merged_log request.prev_log_index request.entries (node follower) in
    (reply.success ≡ true)
    × (reply.term ≡ 3)
    × (m.current_term ≡ 3)
    × (m.logs ≡ entries_above m.last_included_index log)
    × (m.commit_index ≡ next_commit 1 2 (back_index 0 log))
handle_append_entries_matched_example =
    handle_append_entries_matched request (node follower) (node-IsValid follower) request-IsHeard
      request-IsMatched request-IsConsistent

-- The previous entry is missing.
abbrev early_request : AppendEntriesArgs
early_request = record request {
  term = 2;
  prev_log_index = 5;
  prev_log_term = some 3;
  entries = [];
}

handle_append_entries_refused_example :
    let m = (handle_append_entries early_request (node leader)).0 in
    (m.logs ≡ (node leader).logs)
    × (m.last_included_index ≡ 0)
    × (m.commit_index ≡ 1)
    × (m.last_applied ≡ 1)
    × (m.kv_store ≡ (node leader).kv_store)
unfolding handle_append_entries is_node_in_current_voting_config contains follow_leader
    reset_election_timer become_follower has_log_at entry_at
handle_append_entries_refused_example =
    handle_append_entries_refused early_request (node leader) refl

abbrev ballot : RequestVoteArgs
ballot = record { term = 2; candidate_id = 3; last_log_index = 2; last_log_term = 2 }

second_vote_example :
    let r = handle_request_vote ballot (handle_append_entries early_request (node candidate)).0 in
    (r.1.vote_granted ≡ true) × (r.0.current_term ≡ 2) × (r.0.voted_for ≢ some 1)
unfolding is_node_in_current_voting_config contains has_log_at entry_at is_candidate_log_up_to_date
    back_term back_index
second_vote_example =
    second_vote early_request ballot (node candidate) refl refl (refl, omega arith) refl
      (omega arith) refl refl refl refl refl (omega arith)

-- Node 1 after a snapshot of its first two entries.
abbrev compacted : RaftNode memory
compacted = record (node follower) {
  logs = [];
  commit_index = 2;
  last_applied = 2;
  last_included_index = 2;
  last_included_term = 2;
}

abbrev covering_request : AppendEntriesArgs
covering_request = record request { term = 2; entries = second_entry ∷ third_entry ∷ [] }

covered_credit_example :
    let (m, reply) = handle_append_entries covering_request compacted in
    (m.logs ≡ [])
    × (get_last_log_index m ≡ 2)
    × (reply.success ≡ true)
    × (l' : RaftNode memory) × (c : ℕ) × (on_append_reply 0 2 covering_request reply (node leader)
        ≡ ready (l', true))
    × (get_elem? l'.match_index 0 ≡ some c)
    × (get_last_log_index m < c)
unfolding is_node_in_current_voting_config contains get_last_log_index back_index
covered_credit_example =
    covered_credit covering_request compacted (node leader) 0 2 3 (refl, omega arith) (omega arith)
      (omega arith) refl refl refl refl

-- Both entries committed, and the second not yet applied.
abbrev committed : RaftNode memory
committed = record (node follower) { commit_index = 2 }

committed-IsValid : IsValid committed
unfolding back_index
committed-IsValid = record {
  contig = (refl, (refl, tt));
  snapshot_applied = omega arith;
  applied_committed = omega arith;
  committed_logged = omega arith;
}

apply_committed_logs_effects_example :
    let m = apply_committed_logs committed in
    AppliedAll committed m
    × (m.kv_store ≡ replay (pending committed) committed.kv_store)
    × (members_of m ≡ follow_entries (pending committed) (members_of committed))
apply_committed_logs_effects_example = apply_committed_logs_effects committed committed-IsValid

-- The second entry committed turns the configuration into that of node 1 alone.
abbrev shrinking : RaftNode memory
shrinking = record committed {
  logs = first_entry ∷ record second_entry { op = config_new; new_config = peer 1 ∷ [] } ∷ [];
}

shrinking-IsValid : IsValid shrinking
unfolding back_index
shrinking-IsValid = record {
  contig = (refl, (refl, tt));
  snapshot_applied = omega arith;
  applied_committed = omega arith;
  committed_logged = omega arith;
}

apply_loop_effects_example :
    let m = apply_loop 1 shrinking in
    Kept shrinking m
    × (m.last_applied ≡ 2)
    × (m.kv_store ≡ replay (pending shrinking) shrinking.kv_store)
    × (members_of m ≡ follow_entries (pending shrinking) (members_of shrinking))
apply_loop_effects_example = apply_loop_effects 1 shrinking shrinking-IsValid (omega arith)

abbrev snapshot : InstallSnapshotArgs
snapshot = record {
  term = 4;
  leader_id = 3;
  last_included_index = 7;
  last_included_term = 3;
  kv_data = (codes "a", codes "x") ∷ [];
}

handle_append_entries_credit_example :
    2 ≤ get_last_log_index (handle_append_entries request (node follower)).0
handle_append_entries_credit_example =
    handle_append_entries_credit request (node follower) (node-IsValid follower) request-IsHeard
      request-IsMatched request-IsConsistent
