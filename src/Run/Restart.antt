-- ===== src/Run/Restart.antt =====
-- A node of src/raftCore/raft_node.cpp that stops and is constructed again over its state file.
use raft_kv_raft_leveldb.Wire.{parsed}
use raft_kv_raft_leveldb.Common.{ap, arith, refl, some, true, ℕ, ◌+◌, ◌∙◌, ◌≡◌}
use raft_kv_raft_leveldb.Platform.{Platform}
use raft_kv_raft_leveldb.Storage.Load.{load}
use raft_kv_raft_leveldb.Storage.Load.Reload.{IsWireState, load_text-state_text}
use raft_kv_raft_leveldb.Node.{RaftNode}
use raft_kv_raft_leveldb.Node.Valid.{IsValid}
use raft_kv_raft_leveldb.Node.Restart.{
  after_load, fresh, load_persistent_state, new_node, restored, saved_state,
}
use raft_kv_raft_leveldb.Run.Written.{IsSaved}
use raft_kv_raft_leveldb.Types.{follower}
use raft_kv_raft_leveldb.Storage.{PersistentStorage}
use raft_kv_raft_leveldb.Log.{entries_above}
use raft_kv_raft_leveldb.Log.Contig.{entries_above-all}

-- The state of a node after a restart: the term, the vote, the snapshot point and the log are those
-- before it, and the commit index and the last applied index are back at the snapshot point.
pub record IsRestart {P : Platform} (n m : RaftNode P) : Type 0 where
  pub id : m.id ≡ n.id
  pub current_term : m.current_term ≡ n.current_term
  pub voted_for : m.voted_for ≡ n.voted_for
  pub last_included_index : m.last_included_index ≡ n.last_included_index
  pub last_included_term : m.last_included_term ≡ n.last_included_term
  pub logs : m.logs ≡ n.logs
  pub commit_index : m.commit_index ≡ n.last_included_index
  pub last_applied : m.last_applied ≡ n.last_included_index
  pub state_file : m.storage.state_file ≡ n.storage.state_file
  pub state : m.state ≡ follower

module _ {P : Platform} (opens : (k : ℕ) → P.can_open k ≡ true) where
  load-IsSaved :
      (n : RaftNode P)
      → IsSaved n
      → IsWireState (saved_state n)
      → load P n.storage
        ≡ (record n.storage { attempts = n.storage.attempts + 1 }, parsed (saved_state n))
  unfolding load
  load-IsSaved n s w =
      rw (s.file, opens n.storage.attempts, load_text-state_text (saved_state n) w) refl

  -- The node that new_node constructs.
  restarted_lem :
      (n : RaftNode P) (draws : ℕ)
      → IsSaved n
      → IsWireState (saved_state n)
      → new_node n.id n.kv_store n.storage draws
        ≡ some (
            restored (saved_state n) (
              fresh n.id n.kv_store (record n.storage { attempts = n.storage.attempts + 1 }) draws))
  unfolding new_node load_persistent_state fresh restored
  restarted_lem n draws s w =
      ap (λ o. after_load o (fresh n.id n.kv_store n.storage draws)) (load-IsSaved n s w)

  restored-IsRestart :
      (n : RaftNode P) (storage : PersistentStorage) (draws : ℕ)
      → storage.state_file ≡ n.storage.state_file
      → IsSaved n
      → IsValid n
      → IsRestart n (restored (saved_state n) (fresh n.id n.kv_store storage draws))
        × IsValid (restored (saved_state n) (fresh n.id n.kv_store storage draws))
        × IsSaved (restored (saved_state n) (fresh n.id n.kv_store storage draws))
  unfolding restored fresh
  restored-IsRestart n storage draws file s v =
      let kept : entries_above n.last_included_index n.logs ≡ n.logs =
        entries_above-all n.last_included_index n.last_included_index n.logs v.contig
          (omega arith) in
      (
        record {
          id = refl;
          current_term = refl;
          voted_for = refl;
          last_included_index = refl;
          last_included_term = refl;
          logs = kept;
          commit_index = refl;
          last_applied = refl;
          state_file = file;
          state = refl;
        },
        record {
          contig = rw kept v.contig;
          snapshot_applied = omega arith;
          applied_committed = omega arith;
          committed_logged =
              rw kept (omega (arith, v.snapshot_applied, v.applied_committed, v.committed_logged));
        },
        record { file = rw kept (file ∙ s.file) },
      )

  -- Where the state file can be opened, a node that is valid and saved, with state that the text of the
  -- file can carry, is constructed again as a follower with its term, vote, snapshot point and log, and
  -- with the commit index and the last applied index at the snapshot point. It is valid and saved.
  pub new_node-IsSaved :
      (n : RaftNode P) (draws : ℕ)
      → IsSaved n
      → IsValid n
      → IsWireState (saved_state n)
      → (m : RaftNode P) × (new_node n.id n.kv_store n.storage draws ≡ some m)
        × IsRestart n m
        × IsValid m
        × IsSaved m
  new_node-IsSaved n draws s v w =
      let again = record n.storage { attempts = n.storage.attempts + 1 } in
      let m : RaftNode P = restored (saved_state n) (fresh n.id n.kv_store again draws) in
      let (restart, valid, saved) = restored-IsRestart n again draws refl s v in
      (m, restarted_lem n draws s w, restart, valid, saved)
