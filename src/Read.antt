-- ===== src/Read.antt =====
-- Linearizable reads in src/raftCore/raft_node.cpp: the locked sections of linearizableGet,
-- sendReadIndexHeartbeats and waitAppliedTo, and the first of ensureCurrentTermCommitted.
pub mod Fresh
use raft_kv_raft_leveldb.Types.{
  AppendEntriesArgs, AppendEntriesReply, ReadResult, is_leader, no_key, not_leader, ok, option_eq,
}
use raft_kv_raft_leveldb.Common.{
  Bool, List, Option, Text, [], false, if◌then◌else◌, leb, ltb, none, not, some, true, ℕ, ◌&&◌, ◌+◌,
  ◌==◌, ◌||◌, ◌∷◌,
}
use raft_kv_raft_leveldb.StateMachine.{get_value}
use raft_kv_raft_leveldb.Platform.{Platform}
use raft_kv_raft_leveldb.Node.{
  RaftNode, become_follower, get_last_log_index, get_last_log_term, get_log_term_at,
}

module _ {P : Platform} where
  -- `state_ != NodeState::LEADER || currentTerm_ != termSnapshot`
  unfoldable pub lost_lead : ℕ → RaftNode P → Bool
  lost_lead term_snapshot n = not (is_leader n.state) || not (n.current_term == term_snapshot)

  -- The first section of linearizableGet: the term of the read, unless the node is no leader.
  unfoldable pub begin_read : RaftNode P → Option ℕ
  begin_read n = if not (is_leader n.state) then none else some n.current_term

  -- The first section of ensureCurrentTermCommitted: false without a leader, true if an entry of
  -- the term is committed, and `none` if the call goes on to append one.
  unfoldable pub check_committed : RaftNode P → Option Bool
  check_committed n =
      if not (is_leader n.state)
      then some false
      else if ltb n.last_included_index n.commit_index
          && option_eq (get_log_term_at n n.commit_index) (some n.current_term)
      then some true
      else none

  -- The second section of linearizableGet: the read index.
  unfoldable pub take_read_index : ℕ → RaftNode P → Option ℕ
  take_read_index term_snapshot n = if lost_lead term_snapshot n then none else some n.commit_index

  -- The first section of sendReadIndexHeartbeats for a peer.
  unfoldable pub heartbeat_request : ℕ → RaftNode P → Option AppendEntriesArgs
  heartbeat_request term_snapshot n =
      if lost_lead term_snapshot n
      then none
      else some (record {
        term = n.current_term;
        leader_id = n.id;
        prev_log_index = get_last_log_index n;
        prev_log_term = some (get_last_log_term n);
        entries = [];
        leader_commit = n.commit_index;
      })

  -- Its second section, on a reply: the state, and the count of successes unless it returns false.
  unfoldable pub on_heartbeat_reply :
      ℕ → AppendEntriesReply → ℕ → RaftNode P → RaftNode P × Option ℕ
  on_heartbeat_reply term_snapshot reply success_count n =
      if ltb n.current_term reply.term
      then (become_follower reply.term n, none)
      else if lost_lead term_snapshot n
      then (n, none)
      else if reply.success
      then (n, some (success_count + 1))
      else (n, some success_count)

  -- The section of waitAppliedTo: its result, or `none` for another round.
  unfoldable pub check_applied : ℕ → ℕ → RaftNode P → Option Bool
  check_applied read_index term_snapshot n =
      if lost_lead term_snapshot n
      then some false
      else if leb read_index n.last_applied
      then some true
      else none

  -- The loop of waitAppliedTo over the states that its rounds find.
  unfoldable pub wait_applied_to : ℕ → ℕ → List (RaftNode P) → Bool
  wait_applied_to read_index term_snapshot [] = false
  wait_applied_to read_index term_snapshot (n ∷ ns) =
      let rest = wait_applied_to read_index term_snapshot ns in
      elim (check_applied read_index term_snapshot n) [ some result ↦ result | none ↦ rest ]

  -- The last section of linearizableGet: the result, and the value where there is one.
  unfoldable pub finish_read : ℕ → Text → RaftNode P → ReadResult × Option Text
  finish_read term_snapshot key n =
      if lost_lead term_snapshot n then (not_leader, none) else elim (get_value P n.kv_store key) [
        | some value ↦ (ok, some value)
        | none ↦ (no_key, none)
      ]
