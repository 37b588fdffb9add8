-- ===== src/Snapshot/Install.antt =====
-- handleInstallSnapshot of src/raftCore/raft_node.cpp in a valid state.
use raft_kv_raft_leveldb.Common.{Bool-cases, arith, inl, inr, leb, ltb, max, ◌≡◌, ◌≤◌}
use raft_kv_raft_leveldb.Types.{InstallSnapshotArgs}
use raft_kv_raft_leveldb.Platform.{Platform}
use raft_kv_raft_leveldb.Log.Contig.{back_index-entries_above, entries_above-Contig}
use raft_kv_raft_leveldb.Node.{RaftNode, become_follower, get_last_log_index, persist}
use raft_kv_raft_leveldb.Node.Valid.{IsValid}
use raft_kv_raft_leveldb.Append.Cases.{follow_leader-IsValid}
use raft_kv_raft_leveldb.Snapshot.{handle_install_snapshot, install}
use raft_kv_raft_leveldb.Append.{follow_leader}

module _ {P : Platform} where
  install-IsValid :
      (args : InstallSnapshotArgs) (n : RaftNode P)
      → IsValid n
      → n.last_included_index ≤ args.last_included_index
      → IsValid (install args n)
  unfolding install persist
  install-IsValid args n v newer =
      let last =
        back_index-entries_above args.last_included_index n.last_included_index n.logs v.contig
          newer in
      record {
        contig =
            entries_above-Contig args.last_included_index n.last_included_index n.logs v.contig
              newer;
        snapshot_applied = omega arith;
        applied_committed = omega (arith, v.applied_committed);
        committed_logged = omega (arith, last, v.committed_logged);
      }

  -- Installing a snapshot, ignoring it or refusing it leaves a valid node valid.
  pub handle_install_snapshot-IsValid :
      (args : InstallSnapshotArgs) (n : RaftNode P)
      → IsValid n
      → IsValid (handle_install_snapshot args n).0
  unfolding handle_install_snapshot
  handle_install_snapshot-IsValid args n v =
      let w = follow_leader-IsValid args.term args.leader_id n v in
      elim (Bool-cases (ltb args.term n.current_term)) [
        | inl old ↦ rw old v
        | inr current ↦
            elim (Bool-cases (
              leb args.last_included_index
                (follow_leader args.term args.leader_id n).last_included_index)) [
                  | inl covered ↦ rw (current, covered) w
                  | inr newer ↦
                      rw (current, newer)
                        (install-IsValid args (follow_leader args.term args.leader_id n) w
                          (ground arith))
                ]
      ]

  -- On a valid node, whatever the request, the commit index, the last applied index, the snapshot
  -- point and the last index never go back, and the term becomes the request's if that is later.
  pub handle_install_snapshot_forward :
      (args : InstallSnapshotArgs) (n : RaftNode P)
      → IsValid n
      → let m = (handle_install_snapshot args n).0 in
        (n.commit_index ≤ m.commit_index)
        × (n.last_applied ≤ m.last_applied)
        × (n.last_included_index ≤ m.last_included_index)
        × (get_last_log_index n ≤ get_last_log_index m)
        × (m.current_term ≡ max n.current_term args.term)
  unfolding handle_install_snapshot install persist get_last_log_index follow_leader become_follower
  handle_install_snapshot_forward args n v = ground (
    arith,
    back_index-entries_above args.last_included_index n.last_included_index n.logs v.contig,
  )
