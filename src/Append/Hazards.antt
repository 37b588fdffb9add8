-- ===== src/Append/Hazards.antt =====
-- Two consequences of handleAppendEntries of src/raftCore/raft_node.cpp that Raft does not have.
use raft_kv_raft_leveldb.Types.{
  AppendEntriesArgs, AppendEntriesReply, RequestVoteArgs, is_follower, is_leader, leader,
}
use mathlib.Core.Option.{some-injective}
use raft_kv_raft_leveldb.Leader.{note_reply, on_append_reply, ready}
use raft_kv_raft_leveldb.Common.{
  arith, false, get_elem?, get_elem?-set_self, get_elem?-some, length, ltb, max, none, refl, set,
  some, sym, true, ℕ, ◌+◌, ◌<◌, ◌==◌, ◌∙◌, ◌≡◌, ◌≢◌, ◌≤◌,
}
use raft_kv_raft_leveldb.Platform.{Platform}
use raft_kv_raft_leveldb.Node.{
  RaftNode, become_follower, get_last_log_index, get_last_log_term, has_log_at,
  is_candidate_log_up_to_date, is_node_in_current_voting_config, log_at, persist,
  reset_election_timer,
}
use raft_kv_raft_leveldb.Vote.{can_vote, grant_vote, handle_request_vote}
use raft_kv_raft_leveldb.Append.{follow_leader, handle_append_entries}
use raft_kv_raft_leveldb.Append.Cases.{IsHeard, follow_leader_frame, followed}
use raft_kv_raft_leveldb.Append.Matched.{followed-term}
use raft_kv_raft_leveldb.Log.{back_index}

module _ {P : Platform} where
  -- The parts of the state that a refused request leaves for an election.
  follow_leader_ballot :
      (term sender : ℕ) (n : RaftNode P)
      → is_follower n.state ≡ false
      → term ≡ n.current_term
      → let m = follow_leader term sender n in
        (m.voted_for ≡ none)
        × (m.current_term ≡ n.current_term)
        × (m.voting_member ≡ n.voting_member)
        × (m.logs ≡ n.logs)
        × (m.last_included_index ≡ n.last_included_index)
        × (m.last_included_term ≡ n.last_included_term)
        × ((c : ℕ) → is_node_in_current_voting_config m c ≡ is_node_in_current_voting_config n c)
  unfolding follow_leader become_follower is_node_in_current_voting_config
  follow_leader_ballot term sender n no_follower same = rw no_follower (
    ground arith,
    ground arith,
    ground arith,
    ground arith,
    ground arith,
    ground arith,
    λ c. ground arith,
  )

  refused_followed :
      (ae : AppendEntriesArgs) (n : RaftNode P)
      → IsHeard ae n
      → n.last_included_index ≤ ae.prev_log_index
      → has_log_at n ae.prev_log_index ≡ false
      → (handle_append_entries ae n).0 ≡ followed ae n
  unfolding handle_append_entries has_log_at log_at
  refused_followed ae n h high absent =
      let (logs, base, _, _, _, _) = follow_leader_frame ae.term ae.leader_id n in
      let current : ltb ae.term n.current_term ≡ false = ground (arith, h.1) in
      let high' : ltb ae.prev_log_index (followed ae n).last_included_index ≡ false =
        ground (arith, base, high) in
      let absent' : has_log_at (followed ae n) ae.prev_log_index ≡ false = rw (base, logs) absent in
      rw (h.0, current, high', absent')

  fresh_vote :
      (rv : RequestVoteArgs) (m : RaftNode P)
      → m.voted_for ≡ none
      → m.voting_member ≡ true
      → is_node_in_current_voting_config m rv.candidate_id ≡ true
      → rv.term ≡ m.current_term
      → is_candidate_log_up_to_date m rv.last_log_index rv.last_log_term ≡ true
      → let r = handle_request_vote rv m in
        (r.1.vote_granted ≡ true)
        × (r.0.current_term ≡ m.current_term)
        × (r.0.voted_for ≡ some rv.candidate_id)
  unfolding handle_request_vote grant_vote can_vote persist reset_election_timer
      is_node_in_current_voting_config is_candidate_log_up_to_date
  fresh_vote rv m none_yet votes member term fresh =
      let not_old : ltb rv.term m.current_term ≡ false = ground (arith, term) in
      let not_new : ltb m.current_term rv.term ≡ false = ground (arith, term) in
      rw (votes, member, not_old, not_new, none_yet, fresh) (refl, refl, refl)

  -- A candidate or leader that voted for itself, and hears an AppendEntries request of its own
  -- term from a member whose previous entry it lacks, forgets its vote. To another member with an
  -- up-to-date log that asks in the same term it then grants a second vote.
  pub second_vote :
      (ae : AppendEntriesArgs) (rv : RequestVoteArgs) (n : RaftNode P)
      → is_follower n.state ≡ false
      → n.voted_for ≡ some n.id
      → IsHeard ae n
      → ae.term ≡ n.current_term
      → n.last_included_index ≤ ae.prev_log_index
      → has_log_at n ae.prev_log_index ≡ false
      → n.voting_member ≡ true
      → is_node_in_current_voting_config n rv.candidate_id ≡ true
      → rv.term ≡ n.current_term
      → is_candidate_log_up_to_date n rv.last_log_index rv.last_log_term ≡ true
      → rv.candidate_id ≢ n.id
      → let r = handle_request_vote rv (handle_append_entries ae n).0 in
        (r.1.vote_granted ≡ true)
        × (r.0.current_term ≡ n.current_term)
        × (r.0.voted_for ≢ n.voted_for)
  unfolding is_candidate_log_up_to_date get_last_log_index get_last_log_term
  second_vote ae rv n no_follower voted h same high absent votes member term fresh other =
      let (free, term', votes', logs, base, base_term, members) =
        follow_leader_ballot ae.term ae.leader_id n no_follower same in
      let (granted, kept, chosen) =
        fresh_vote rv (followed ae n) free (votes' ∙ votes) (members rv.candidate_id ∙ member)
          (term ∙ sym term') (rw (logs, base, base_term) fresh) in
      rw (refused_followed ae n h high absent) (
        granted,
        kept ∙ term',
        λ e. other (some-injective rv.candidate_id n.id (sym chosen ∙ e ∙ voted)),
      )

  covered_followed :
      (args : AppendEntriesArgs) (n : RaftNode P)
      → IsHeard args n
      → args.prev_log_index < n.last_included_index
      → handle_append_entries args n
        ≡ (followed args n, record { term = (followed args n).current_term; success = true })
  unfolding handle_append_entries
  covered_followed args n h low =
      let (_, base, _, _, _, _) = follow_leader_frame args.term args.leader_id n in
      let current : ltb args.term n.current_term ≡ false = ground (arith, h.1) in
      let low' : ltb args.prev_log_index (followed args n).last_included_index ≡ true =
        ground (arith, base, low) in
      rw (h.0, current, low')

  success_reply :
      (i : ℕ) (args : AppendEntriesArgs) (reply : AppendEntriesReply) (l : RaftNode P)
      → (matched following : ℕ) → l.state ≡ leader
      → l.current_term ≡ args.term
      → reply.term ≡ args.term
      → reply.success ≡ true
      → get_elem? l.match_index i ≡ some matched
      → get_elem? l.next_index i ≡ some following
      → on_append_reply i args.term args reply l
        ≡ ready ((note_reply i args reply matched following l).0, true)
  unfolding on_append_reply note_reply
  success_reply i args reply l matched following leads term term' accepted at at' =
      let same : (l.current_term == args.term) ≡ true = ground (arith, term) in
      let not_newer : ltb l.current_term reply.term ≡ false = ground (arith, term, term') in
      let led : is_leader l.state ≡ true = rw leads refl in
      rw (led, same, not_newer, at', at, accepted) refl

  -- A node whose snapshot point is above the previous index, and that hears a request from a
  -- member in its term or a later one, answers with success and keeps its log and its last index.
  -- If the entries sent reach beyond that last index, a leader in the term of the request, with
  -- places for that node in its vectors, takes the reply for a success and notes a match at an
  -- index above the last index of that node.
  pub covered_credit :
      (args : AppendEntriesArgs) (n l : RaftNode P) (i matched following : ℕ)
      → IsHeard args n
      → args.prev_log_index < n.last_included_index
      → get_last_log_index n < args.prev_log_index + length args.entries
      → l.state ≡ leader
      → l.current_term ≡ args.term
      → get_elem? l.match_index i ≡ some matched
      → get_elem? l.next_index i ≡ some following
      → let (m, reply) = handle_append_entries args n in
        (m.logs ≡ n.logs)
        × (get_last_log_index m ≡ get_last_log_index n)
        × (reply.success ≡ true)
        × (l' : RaftNode P) × (c : ℕ) × (on_append_reply i args.term args reply l
            ≡ ready (l', true))
        × (get_elem? l'.match_index i ≡ some c)
        × (get_last_log_index m < c)
  unfolding note_reply get_last_log_index
  covered_credit args n l i matched following h low beyond leads term at at' =
      let (logs, base, _, _, _, _) = follow_leader_frame args.term args.leader_id n in
      let credit = max matched (args.prev_log_index + length args.entries) in
      let reply : AppendEntriesReply = record {
        term = (followed args n).current_term;
        success = true;
      } in
      let above : back_index (followed args n).last_included_index (followed args n).logs < credit =
        rw (base, logs) (ground (arith, beyond)) in
      let slot : get_elem? (set l.match_index i credit) i ≡ some credit =
        get_elem?-set_self l.match_index i credit (get_elem?-some l.match_index i matched at) in
      rw (covered_followed args n h low) (
        logs,
        rw (base, logs) refl,
        refl,
        (note_reply i args reply matched following l).0,
        credit,
        success_reply i args reply l matched following leads term (followed-term args n h.1) refl at
            at',
        slot,
        above,
      )
