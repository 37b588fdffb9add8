-- ===== src/Log.antt =====
-- The replicated log of src/raftCore/raft_node.cpp, as the vector `logs_` behind the snapshot point
-- `lastIncludedIndex_`, here `base`: reading positions, the loop of `handleAppendEntries` over the
-- new entries, and the loops that drop entries covered by a snapshot.
pub mod Contig
pub mod Merge
use raft_kv_raft_leveldb.Common.{
  Bool, List, Option, [], false, filter_by, get_elem?, if◌then◌else◌, leb, length, ltb, none, some,
  suc, take, true, zero, ℕ, ◌++◌, ◌+◌, ◌-◌, ◌==◌, ◌||◌, ◌∷◌,
}
use raft_kv_raft_leveldb.Types.{LogEntry}

-- `logs_.empty() ? lastIncludedIndex_ : logs_.back().index`
unfoldable pub back_index : ℕ → List LogEntry → ℕ
back_index base [] = base
back_index base (e ∷ es) = back_index e.index es

-- `logs_.empty() ? lastIncludedTerm_ : logs_.back().term`
unfoldable pub back_term : ℕ → List LogEntry → ℕ
back_term base_term [] = base_term
back_term base_term (e ∷ es) = back_term e.term es

-- logIndexToPos, `index - lastIncludedIndex_ - 1`; `none` is a negative position.
unfoldable pub index_to_pos : ℕ → ℕ → Option ℕ
index_to_pos base index = if ltb base index then some (index - base - 1) else none

-- The entry at a log index, where `pos >= 0 && pos < logs_.size()`.
unfoldable pub entry_at : ℕ → List LogEntry → ℕ → Option LogEntry
unfolding index_to_pos
entry_at base logs index = elim (index_to_pos base index) [
  | none ↦ none
  | some p ↦ get_elem? logs p
]

-- One round of the loop over `args.entries` in handleAppendEntries: the log and `logChanged`.
unfoldable pub append_entry : ℕ → LogEntry → List LogEntry × Bool → List LogEntry × Bool
append_entry base e (logs, changed) =
    if leb e.index base then (logs, changed) else elim (get_elem? logs (e.index - base - 1)) [
      | some old ↦
          if old.term == e.term
          then (logs, changed)
          else (take (e.index - base - 1) logs ++ e ∷ [], true)
      | none ↦ (logs ++ e ∷ [], true)
    ]

unfoldable pub append_entries : ℕ → List LogEntry → List LogEntry × Bool → List LogEntry × Bool
append_entries base [] s = s
append_entries base (e ∷ es) s = append_entries base es (append_entry base e s)

-- The loops that keep the entries with `e.index > upto`.
unfoldable pub entries_above : ℕ → List LogEntry → List LogEntry
entries_above upto logs = filter_by (λ e. ltb upto e.index) logs
