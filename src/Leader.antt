-- ===== src/Leader.antt =====
-- The leader in src/raftCore/raft_node.cpp: appending a command, the locked sections of
-- replicateToPeer, and updateCommitIndex. Between the sections of one call other threads may run, so
-- each is a function of the state that it finds.
pub mod Commit
pub mod Request
pub mod Retry
use raft_kv_raft_leveldb.Common.{
  Bool, List, Option, Text, [], false, get_elem?, if◌then◌else◌, leb, length, ltb, max, none, not,
  set, some, suc, true, zero, ℕ, ◌++◌, ◌+◌, ◌-◌, ◌==◌, ◌||◌, ◌∷◌,
}
use raft_kv_raft_leveldb.Types.{
  AppendEntriesArgs, AppendEntriesReply, CommandType, LogEntry, PeerInfo, is_leader, log_entry,
  option_eq,
}
use raft_kv_raft_leveldb.Platform.{Platform}
use raft_kv_raft_leveldb.Node.{
  RaftNode, become_follower, get_last_log_index, get_log_term_at, log_at, persist,
}
use raft_kv_raft_leveldb.Quorum.{is_majority_matched_for_entry}
use raft_kv_raft_leveldb.Apply.{apply_committed_logs}

-- The outcome of a locked section: the caller returns false, the code leaves the bounds of a vector
-- or of the log, or the call goes on with a value.
pub data Outcome {ℓ} (A : Type ℓ) : Type ℓ where
  refused : Outcome A
  fault : Outcome A
  ready : A → Outcome A

-- How replicateToPeer goes on after its first section.
pub data Route : Type 0 where
  by_snapshot by_entries : Route

module _ {P : Platform} where
  -- `logs_.push_back(entry); persist();`
  unfoldable pub push_entry : LogEntry → RaftNode P → RaftNode P
  unfolding persist
  push_entry e n = persist (record n { logs = n.logs ++ e ∷ [] })

  -- The first locked section of leaderPut, leaderDelete and ensureCurrentTermCommitted: the new
  -- entry is appended and its index returned, unless the node is no leader.
  unfoldable pub append_command : CommandType → Text → Text → RaftNode P → RaftNode P × Option ℕ
  unfolding push_entry get_last_log_index
  append_command op key value n =
      if not (is_leader n.state)
      then (n, none)
      else let new_index = get_last_log_index n + 1 in
        (push_entry (log_entry n.current_term new_index op key value) n, some new_index)

  -- The first locked section of appendConfigJoint and appendConfigNew.
  unfoldable pub append_config :
      CommandType → Text → List PeerInfo → List PeerInfo → RaftNode P → RaftNode P × Bool
  unfolding push_entry get_last_log_index
  append_config op label old_cfg new_cfg n =
      if not (is_leader n.state)
      then (n, false)
      else let entry : LogEntry = record {
        term = n.current_term;
        index = get_last_log_index n + 1;
        op = op;
        key = label;
        value = label;
        old_config = old_cfg;
        new_config = new_cfg;
      } in
        (push_entry entry n, true)

  -- The first locked section of replicateToPeer.
  unfoldable pub choose_route : ℕ → RaftNode P → Outcome Route
  choose_route peer_idx n =
      if not (is_leader n.state) || leb (length n.peers) peer_idx
      then refused
      else elim (get_elem? n.next_index peer_idx) [
        | none ↦ fault
        | some next ↦ ready (if leb next n.last_included_index then by_snapshot else by_entries)
      ]

  -- The loop that collects the entries from `index` on, with the number of rounds.
  unfoldable pub entries_from : ℕ → ℕ → RaftNode P → List LogEntry
  entries_from zero index n = []
  entries_from (suc rounds) index n =
      let rest = entries_from rounds (index + 1) n in
      elim (log_at n index) [ none ↦ rest | some e ↦ e ∷ rest ]

  -- The request of the second locked section, for `nextIndex_[peerIdx]`.
  unfoldable pub append_request : ℕ → RaftNode P → AppendEntriesArgs
  append_request next n = record {
    term = n.current_term;
    leader_id = n.id;
    prev_log_index = next - 1;
    prev_log_term = get_log_term_at n (next - 1);
    entries = entries_from (get_last_log_index n + 1 - next) next n;
    leader_commit = n.commit_index;
  }

  -- The second locked section of replicateToPeer. The request for the index before 0, which
  -- `nextIndex_[peerIdx] == 0` asks for, is counted as a fault.
  unfoldable pub build_append_entries : ℕ → RaftNode P → Outcome (PeerInfo × AppendEntriesArgs)
  build_append_entries peer_idx n =
      if not (is_leader n.state) then refused else elim (get_elem? n.peers peer_idx) [
        | none ↦ fault
        | some peer ↦ elim (get_elem? n.next_index peer_idx) [
          | none ↦ fault
          | some next ↦ if next == 0 then fault else ready (peer, append_request next n)
        ]
      ]

  -- The end of that section, where `matched` and `next` are the values at `peerIdx`.
  unfoldable pub note_reply :
      ℕ → AppendEntriesArgs → AppendEntriesReply → ℕ → ℕ → RaftNode P → RaftNode P × Bool
  note_reply peer_idx args reply matched next n =
      let matched' = max matched (args.prev_log_index + length args.entries) in
      let lowered =
        if ltb (n.last_included_index + 1) next then next - 1 else n.last_included_index in
      if reply.success
      then (
        record n {
          match_index = set n.match_index peer_idx matched';
          next_index = set n.next_index peer_idx (matched' + 1);
        },
        true,
      )
      else (record n { next_index = set n.next_index peer_idx lowered }, false)

  -- The last locked section of replicateToPeer, with its result.
  unfoldable pub on_append_reply :
      ℕ → ℕ → AppendEntriesArgs → AppendEntriesReply → RaftNode P → Outcome (RaftNode P × Bool)
  on_append_reply peer_idx term_snapshot args reply n =
      if not (is_leader n.state) || not (n.current_term == term_snapshot)
      then ready (n, false)
      else if ltb n.current_term reply.term
      then ready (become_follower reply.term n, false)
      else elim (get_elem? n.next_index peer_idx) [
        | none ↦ fault
        | some next ↦ elim (get_elem? n.match_index peer_idx) [
          | none ↦
              -- A refusal does not touch matchIndex_.
              if reply.success then fault else ready (note_reply peer_idx args reply 0 next n)
          | some matched ↦ ready (note_reply peer_idx args reply matched next n)
        ]
      ]

  -- The loop of updateCommitIndex at `N = commitIndex_ + rounds`, downwards: the largest index that
  -- passes its tests.
  unfoldable pub find_commit : ℕ → RaftNode P → Option ℕ
  find_commit zero n = none
  find_commit (suc rounds) n =
      let rest = find_commit rounds n in
      let index = n.commit_index + suc rounds in
      if option_eq (get_log_term_at n index) (some n.current_term)
      then elim (log_at n index) [
        | none ↦ rest
        | some entry ↦ if is_majority_matched_for_entry n entry then some index else rest
      ]
      else rest

  -- updateCommitIndex
  unfoldable pub update_commit_index : RaftNode P → RaftNode P
  update_commit_index n =
      if not (is_leader n.state)
      then n
      else elim (find_commit (get_last_log_index n - n.commit_index) n) [
        | none ↦ n
        | some index ↦ apply_committed_logs (record n { commit_index = index })
      ]
