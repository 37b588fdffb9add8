-- ===== src/Exchange/Get.antt =====
-- linearizableGet of src/raftCore/raft_node.cpp as a whole, with the loops of sendReadIndexHeartbeats and
-- waitAppliedTo.
pub mod Reached
use raft_kv_raft_leveldb.Wire.{Parsed, build_append_entries_rpc, outside, parsed, rejected}
use raft_kv_raft_leveldb.Exchange.{
  Ran, World, and_then, done, ensure_current_term_committed, faulted, heard, pass,
}
use raft_kv_raft_leveldb.Exchange.Sections.{Ends, Of, OfResult, Reach-trans, and_then-Ends}
use raft_kv_raft_leveldb.Exchange.Operations.{commit_term, run-Ends}
use raft_kv_raft_leveldb.Run.{ReachOf, heartbeat_reply, here, next}
use raft_kv_raft_leveldb.Read.{
  begin_read, check_applied, finish_read, heartbeat_request, on_heartbeat_reply, take_read_index,
}
use raft_kv_raft_leveldb.Types.{
  AppendEntriesArgs, AppendEntriesReply, PeerInfo, ReadResult, not_leader, read_fail,
}
use raft_kv_raft_leveldb.Wire.Replies.{parse_append_entries_reply}
use raft_kv_raft_leveldb.Platform.{Platform}
use raft_kv_raft_leveldb.Node.{RaftNode}
use raft_kv_raft_leveldb.Common.{
  Bool, List, Option, Text, [], false, if◌then◌else◌, length, ltb, none, refl, some, suc, true,
  zero, ℕ, ◌+◌, ◌/◌, ◌<◌, ◌∷◌, ◌≡◌, ◌≤◌,
}

-- The result of a get, with the value where there is one.
abbrev pub Found : Type 0
Found = ReadResult × Option Text

module _ {P : Platform} (others : ℕ → RaftNode P → RaftNode P)
    (send : ℕ → PeerInfo → Text → Option Text) where
  -- The end of a round of sendReadIndexHeartbeats: it returns, or goes on with the count.
  abbrev pub after_heartbeat :
      ℕ → ℕ → RaftNode P × Option ℕ → (ℕ → World P → Ran (World P × Bool)) → Ran (World P × Bool)
  after_heartbeat total k (n, none) rest = done ((n, k), false)
  after_heartbeat total k (n, some count) rest =
      if ltb (total / 2) count then done ((n, k), true) else rest count (pass others send (n, k))

  abbrev pub on_heartbeat_response :
      ℕ
      → ℕ
      → ℕ
      → Parsed AppendEntriesReply
      → (ℕ → World P → Ran (World P × Bool))
      → World P
      → Ran (World P × Bool)
  on_heartbeat_response total term_snapshot count rejected rest w = rest count (pass others send w)
  on_heartbeat_response total term_snapshot count outside rest w = faulted
  on_heartbeat_response total term_snapshot count (parsed reply) rest w =
      after_heartbeat total w.1 (on_heartbeat_reply term_snapshot reply count w.0) rest

  -- A round of sendReadIndexHeartbeats behind its first section.
  abbrev pub send_heartbeat :
      ℕ
      → ℕ
      → PeerInfo
      → ℕ
      → (ℕ → World P → Ran (World P × Bool))
      → World P
      → Option AppendEntriesArgs
      → Ran (World P × Bool)
  send_heartbeat total term_snapshot peer count rest w none = done (w, false)
  send_heartbeat total term_snapshot peer count rest w (some args) =
      on_heartbeat_response total term_snapshot count
        (heard parse_append_entries_reply (send w.1 peer (build_append_entries_rpc args))) rest
        (pass others send w)

  -- The loop of sendReadIndexHeartbeats over the peers.
  unfoldable pub heartbeat_rounds : ℕ → ℕ → List PeerInfo → ℕ → World P → Ran (World P × Bool)
  heartbeat_rounds total term_snapshot [] count w = done (w, ltb (total / 2) count)
  heartbeat_rounds total term_snapshot (peer ∷ peers) count w =
      let rest = heartbeat_rounds total term_snapshot peers in
      send_heartbeat total term_snapshot peer count rest w (heartbeat_request term_snapshot w.0)

  -- sendReadIndexHeartbeats
  unfoldable pub send_read_index_heartbeats : ℕ → World P → Ran (World P × Bool)
  send_read_index_heartbeats term_snapshot w =
      heartbeat_rounds (length w.0.peers + 1) term_snapshot w.0.peers 1 w

  abbrev pub or_wait : Option Bool → World P → Ran (World P × Bool) → Ran (World P × Bool)
  or_wait (some result) w rest = done (w, result)
  or_wait none w rest = rest

  -- The loop of waitAppliedTo over so many rounds.
  unfoldable pub applied_rounds : ℕ → ℕ → ℕ → World P → Ran (World P × Bool)
  applied_rounds read_index term_snapshot zero w = done (w, false)
  applied_rounds read_index term_snapshot (suc rounds) w =
      let rest = applied_rounds read_index term_snapshot rounds (pass others send w) in
      or_wait (check_applied read_index term_snapshot w.0) w rest

  -- waitAppliedTo, where 10 ms pass in each round of the 1000 ms
  unfoldable pub wait_applied : ℕ → ℕ → World P → Ran (World P × Bool)
  wait_applied read_index term_snapshot w = applied_rounds read_index term_snapshot 100 w

  -- linearizableGet behind the section that takes the read index
  abbrev pub confirm_read : ℕ → Text → World P → Option ℕ → Ran (World P × Found)
  confirm_read term_snapshot key w none = done (w, (not_leader, none))
  confirm_read term_snapshot key w (some read_index) =
      and_then (send_read_index_heartbeats term_snapshot (pass others send w)) (λ a.
        if a.1
        then and_then (wait_applied read_index term_snapshot (pass others send a.0)) (λ b.
          if b.1
          then done (pass others send b.0, finish_read term_snapshot key (pass others send b.0).0)
          else done (b.0, (read_fail, none)))
        else done (a.0, (read_fail, none)))

  -- linearizableGet behind its first section
  abbrev pub read_in_term : ℕ → Text → World P → Option ℕ → Ran (World P × Found)
  read_in_term fuel key w none = done (w, (not_leader, none))
  read_in_term fuel key w (some term_snapshot) =
      and_then (ensure_current_term_committed others send fuel (pass others send w)) (λ r.
        if r.1
        then confirm_read term_snapshot key (pass others send r.0)
            (take_read_index term_snapshot (pass others send r.0).0)
        else done (r.0, (read_fail, none)))

  -- linearizableGet
  unfoldable pub linearizable_get : ℕ → Text → World P → Ran (World P × Found)
  linearizable_get fuel key w = read_in_term fuel key w (begin_read w.0)
