-- ===== src/Snapshot.antt =====
-- InstallSnapshot in src/raftCore/raft_node.cpp: the follower's handler, and the locked sections of
-- the leader's sendSnapshotToPeer.
pub mod Install
use raft_kv_raft_leveldb.Common.{
  Bool, Option, false, get_elem?, if◌then◌else◌, leb, ltb, max, none, not, set, some, true, ℕ, ◌+◌,
  ◌==◌, ◌||◌,
}
use raft_kv_raft_leveldb.Types.{InstallSnapshotArgs, InstallSnapshotReply, PeerInfo, is_leader}
use raft_kv_raft_leveldb.Platform.{Platform}
use raft_kv_raft_leveldb.StateMachine.{dump, load_from_snapshot}
use raft_kv_raft_leveldb.Log.{entries_above}
use raft_kv_raft_leveldb.Node.{RaftNode, become_follower, persist}
use raft_kv_raft_leveldb.Append.{follow_leader}

module _ {P : Platform} where
  -- Steps 4 to 8 of handleInstallSnapshot.
  unfoldable pub install : InstallSnapshotArgs → RaftNode P → RaftNode P
  install args n = persist (record n {
    kv_store = load_from_snapshot P n.kv_store args.kv_data;
    logs = entries_above args.last_included_index n.logs;
    last_included_index = args.last_included_index;
    last_included_term = args.last_included_term;
    commit_index = max n.commit_index args.last_included_index;
    last_applied = max n.last_applied args.last_included_index;
  })

  -- handleInstallSnapshot
  unfoldable pub handle_install_snapshot :
      InstallSnapshotArgs → RaftNode P → RaftNode P × InstallSnapshotReply
  handle_install_snapshot args n =
      if ltb args.term n.current_term
      then (n, record { term = n.current_term })
      else let n₁ = follow_leader args.term args.leader_id n in
        if leb args.last_included_index n₁.last_included_index
        then (n₁, record { term = n₁.current_term })
        else (install args n₁, record { term = n₁.current_term })

  -- The first locked section of sendSnapshotToPeer: the peer and the request, unless it returns false.
  unfoldable pub build_install_snapshot : ℕ → RaftNode P → Option (PeerInfo × InstallSnapshotArgs)
  build_install_snapshot peer_idx n =
      if not (is_leader n.state) then none else elim (get_elem? n.peers peer_idx) [
        | none ↦ none
        | some peer ↦ some (
          peer,
          record {
            term = n.current_term;
            leader_id = n.id;
            last_included_index = n.last_included_index;
            last_included_term = n.last_included_term;
            kv_data = dump P n.kv_store;
          },
        )
      ]

  -- The last locked section of sendSnapshotToPeer, with its result. `none` is a write past the end
  -- of `matchIndex_` or `nextIndex_`.
  unfoldable pub on_snapshot_reply :
      ℕ → ℕ → InstallSnapshotReply → RaftNode P → Option (RaftNode P × Bool)
  on_snapshot_reply peer_idx term_snapshot reply n =
      if not (is_leader n.state) || not (n.current_term == term_snapshot)
      then some (n, false)
      else if ltb n.current_term reply.term
      then some (become_follower reply.term n, false)
      else elim (get_elem? n.match_index peer_idx) [
        | none ↦ none
        | some matched ↦ elim (get_elem? n.next_index peer_idx) [
          | none ↦ none
          | some _ ↦ some (
            record n {
              match_index = set n.match_index peer_idx (max matched n.last_included_index);
              next_index = set n.next_index peer_idx (n.last_included_index + 1);
            },
            true,
          )
        ]
      ]
