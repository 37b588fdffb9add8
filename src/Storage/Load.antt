-- ===== src/Storage/Load.antt =====
-- Reading the state file: PersistentStorage::load of src/persistence/storage.cpp.
pub mod Lines
pub mod Reload
use raft_kv_raft_leveldb.Types.{LogEntry}
use raft_kv_raft_leveldb.Input.{decode_config, get_int, get_size, to_nat, to_option, ℤ, ◌>>=◌}
use raft_kv_raft_leveldb.Wire.{
  Parsed, add_entry, after_type, get_head, held, make_entry, outside, parsed, rejected,
}
use raft_kv_raft_leveldb.Storage.{PersistentStorage}
use raft_kv_raft_leveldb.Common.{
  List, Option, Text, [], codes, if◌then◌else◌, none, some, suc, zero, ℕ, ◌+◌, ◌==◌, ◌∷◌,
}
use raft_kv_raft_leveldb.Platform.{Platform}

-- What the calls of std::getline read from a text, one line after the other.
unfoldable pub lines_of : Text → List Text
lines_of [] = []
lines_of (c ∷ cs) =
    let lines = lines_of cs in
    if c == 10
    then [] ∷ lines
    else elim lines [ [] ↦ (c ∷ []) ∷ [] | line ∷ others ↦ (c ∷ line) ∷ others ]

-- What is left after one std::getline.
abbrev pub tail_of : List Text → List Text
tail_of [] = []
tail_of (line ∷ lines) = lines

-- The entry of a line, if its numbers, key and value can be read. Nothing is tested after decodeConfig.
unfoldable pub read_line : Text → Option (Option LogEntry)
read_line line = do
  (head, rest) ← get_head line
  some (
      make_entry head (decode_config (some rest)).1 (decode_config (decode_config (some rest)).0).1)

-- An entry, or a line that cannot be read, in front of the entries behind it.
abbrev pub add_line : Option (Option LogEntry) → Parsed (List LogEntry) → Parsed (List LogEntry)
add_line none rest = rejected
add_line (some e) rest = add_entry e rest

-- The loop of `load` over so many entries; it passes over empty lines.
unfoldable pub load_entries : ℕ → List Text → Parsed (List LogEntry)
load_entries zero lines = parsed []
load_entries (suc count) [] = rejected
load_entries (suc count) ([] ∷ lines) = load_entries (suc count) lines
load_entries (suc count) ((c ∷ line) ∷ lines) =
    add_line (read_line (c ∷ line)) (load_entries count lines)

-- The numbers at the head of the file.
pub record StateHead : Type 0 where
  pub current_term : ℤ
  pub voted_for : ℤ
  pub last_included_index : ℤ
  pub last_included_term : ℤ
  pub log_count : ℕ

unfoldable pub get_state_head : Text → Option (StateHead × Text)
get_state_head text = do
  t₁ ← after_type (codes "currentTerm") text
  (current_term, t₂) ← get_int t₁
  t₃ ← after_type (codes "votedFor") t₂
  (voted_for, t₄) ← get_int t₃
  t₅ ← after_type (codes "lastIncludedIndex") t₄
  (last_included_index, t₆) ← get_int t₅
  t₇ ← after_type (codes "lastIncludedTerm") t₆
  (last_included_term, t₈) ← get_int t₇
  t₉ ← after_type (codes "logCount") t₈
  (log_count, rest) ← get_size t₉
  some (
    record {
      current_term = current_term;
      voted_for = voted_for;
      last_included_index = last_included_index;
      last_included_term = last_included_term;
      log_count = log_count;
    },
    rest,
  )

-- What `load` hands back through its references.
pub record SavedState : Type 0 where
  pub current_term : ℕ
  pub voted_for : Option ℕ
  pub last_included_index : ℕ
  pub last_included_term : ℕ
  pub logs : List LogEntry

unfoldable pub make_saved : StateHead → List LogEntry → Option SavedState
make_saved h logs = do
  current_term ← to_nat h.current_term
  voted_for ← to_option h.voted_for
  last_included_index ← to_nat h.last_included_index
  last_included_term ← to_nat h.last_included_term
  some (record {
    current_term = current_term;
    voted_for = voted_for;
    last_included_index = last_included_index;
    last_included_term = last_included_term;
    logs = logs;
  })

abbrev pub with_logs : StateHead → Parsed (List LogEntry) → Parsed SavedState
with_logs h rejected = rejected
with_logs h outside = outside
with_logs h (parsed logs) = held (make_saved h logs)

-- The rest of `load` behind the head.
unfoldable pub load_logs : Option (StateHead × Text) → Parsed SavedState
load_logs none = rejected
load_logs (some (head, rest)) =
    with_logs head (load_entries head.log_count (tail_of (lines_of rest)))

-- `load` on the content of an open file
unfoldable pub load_text : Text → Parsed SavedState
load_text text = load_logs (get_state_head text)

module _ (P : Platform) where
  -- PersistentStorage::load
  unfoldable pub load : PersistentStorage → PersistentStorage × Parsed SavedState
  load s = (
    record s { attempts = s.attempts + 1 },
    elim s.state_file [
      | none ↦ rejected
      | some text ↦ if P.can_open s.attempts then load_text text else rejected
    ],
  )
