-- ===== src/Run/Removed.antt =====
-- replicateToPeer of src/raftCore/raft_node.cpp while a committed configuration entry takes its peer away.
use raft_kv_raft_leveldb.Run.Bounds.{on_append_reply_inside}
use raft_kv_raft_leveldb.Leader.{fault, on_append_reply}
use raft_kv_raft_leveldb.Common.{
  [], arith, get_elem?, get_elem?-past, length, none, true, ℕ, ◌<◌, ◌≡◌, ◌≢◌, ◌≤◌,
}
use raft_kv_raft_leveldb.Types.{
  AppendEntriesArgs, AppendEntriesReply, is_leader, LogEntry, config_new, contains, contains_id,
  stable,
}
use raft_kv_raft_leveldb.Platform.{Platform}
use raft_kv_raft_leveldb.Node.{RaftNode, init_leader_state}
use raft_kv_raft_leveldb.Apply.{
  apply_config_new, apply_entry, others, rebuild_peers_from_current_config, reset_if_leader,
}
use raft_kv_raft_leveldb.Apply.Fitted.{IsFitted, apply_config_new-IsFitted}

module _ {P : Platform} where
  -- A reply that is not newer, for an index behind the last peer, finds no place in the vectors.
  on_append_reply_stale :
      (i t : ℕ) (args : AppendEntriesArgs) (reply : AppendEntriesReply) (n : RaftNode P)
      → IsFitted n
      → is_leader n.state ≡ true
      → n.current_term ≡ t
      → length n.peers ≤ i
      → reply.term ≤ t
      → on_append_reply i t args reply n ≡ fault
  unfolding on_append_reply
  on_append_reply_stale i t args reply n f leads same past old =
      let missing : get_elem? n.next_index i ≡ none =
        get_elem?-past n.next_index i (ground (arith, f, leads, past)) in
      ground (arith, leads, old, missing, same)

  reset_if_leader-peers :
      (n : RaftNode P)
      → ((reset_if_leader n).peers ≡ n.peers)
        × ((reset_if_leader n).state ≡ n.state)
        × ((reset_if_leader n).current_term ≡ n.current_term)
  unfolding reset_if_leader init_leader_state
  reset_if_leader-peers n = ground arith

  -- A leader that stays in the configuration leads on in its term, with the other members as its peers.
  apply_config_new-peers :
      (e : LogEntry) (n : RaftNode P)
      → contains_id e.new_config n.id ≡ true
      → ((apply_config_new e n).peers ≡ others n.id e.new_config)
        × ((apply_config_new e n).state ≡ n.state)
        × ((apply_config_new e n).current_term ≡ n.current_term)
  unfolding apply_config_new rebuild_peers_from_current_config contains
  apply_config_new-peers e n stays = ground (
    arith,
    stays,
    reset_if_leader-peers (record n {
      config_state = stable;
      current_config = record { nodes = e.new_config };
      old_config = record { nodes = [] };
      new_config = record { nodes = [] };
      peers = others n.id e.new_config;
    }),
  )

  -- Take a leader whose nextIndex_ and matchIndex_ have one place for each peer, and a reply to a
  -- request of its term, of no newer term, for the index of a peer. In bounds as it is, its
  -- handling leaves the bounds of these vectors once a CONFIG_NEW entry is applied meanwhile that
  -- keeps the leader in the configuration and leaves it too few peers for that index: the node
  -- then still leads the same term, with the other members as its peers.
  pub on_append_reply_removed :
      (i : ℕ) (args : AppendEntriesArgs) (reply : AppendEntriesReply) (e : LogEntry)
      (n : RaftNode P)
      → IsFitted n
      → is_leader n.state ≡ true
      → i < length n.peers
      → reply.term ≤ n.current_term
      → e.op ≡ config_new
      → contains_id e.new_config n.id ≡ true
      → length (others n.id e.new_config) ≤ i
      → let m = apply_entry e n in
        (on_append_reply i n.current_term args reply n ≢ fault)
        × (is_leader m.state ≡ true)
        × (m.current_term ≡ n.current_term)
        × (m.peers ≡ others n.id e.new_config)
        × (on_append_reply i n.current_term args reply m ≡ fault)
  unfolding apply_entry
  on_append_reply_removed i args reply e n f leads inside old op stays fewer =
      let (peers, state, term) = apply_config_new-peers e n stays in
      let led : is_leader (apply_config_new e n).state ≡ true = rw state leads in
      rw op (
        on_append_reply_inside i n.current_term args reply n f inside,
        led,
        term,
        peers,
        on_append_reply_stale i n.current_term args reply (apply_config_new e n)
            (apply_config_new-IsFitted e n) led term (rw peers fewer) old,
      )
