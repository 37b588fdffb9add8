-- ===== src/Storage.antt =====
-- src/persistence/storage.cpp: the state file of a node, rewritten whole by `save`.
pub mod Load
use raft_kv_raft_leveldb.Common.{
  Bool, List, Option, Text, codes, false, if◌then◌else◌, length, some, true, ℕ, ◌++◌, ◌+◌,
}
use raft_kv_raft_leveldb.Types.{LogEntry}
use raft_kv_raft_leveldb.Platform.{Platform}
use raft_kv_raft_leveldb.Format.{newline, show_entries, show_nat, show_option}

-- PersistentStorage: the content of the file, if it exists, and the attempts to open it so far.
pub record PersistentStorage : Type 0 where
  pub state_file : Option Text
  pub attempts : ℕ

-- What `save` writes to the file.
unfoldable pub state_text : ℕ → Option ℕ → ℕ → ℕ → List LogEntry → Text
state_text current_term voted_for last_included_index last_included_term logs =
    codes "currentTerm "
    ++ show_nat current_term
    ++ newline
    ++ codes "votedFor "
    ++ show_option voted_for
    ++ newline
    ++ codes "lastIncludedIndex "
    ++ show_nat last_included_index
    ++ newline
    ++ codes "lastIncludedTerm "
    ++ show_nat last_included_term
    ++ newline
    ++ codes "logCount "
    ++ show_nat (length logs)
    ++ newline
    ++ show_entries logs

module _ (P : Platform) where
  -- PersistentStorage::save, with its result
  unfoldable pub save :
      PersistentStorage → ℕ → Option ℕ → ℕ → ℕ → List LogEntry → PersistentStorage × Bool
  save s current_term voted_for last_included_index last_included_term logs =
      if P.can_open s.attempts
      then (
        record {
          state_file =
              some (state_text current_term voted_for last_included_index last_included_term logs);
          attempts = s.attempts + 1;
        },
        true,
      )
      else (record s { attempts = s.attempts + 1 }, false)
