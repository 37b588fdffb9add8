-- ===== src/Storage/Load/Reload.antt =====
-- `load` of src/persistence/storage.cpp reads back the state file that `save` wrote.
use raft_kv_raft_leveldb.Input.{decode_config, get_int, get_size, is_space, pos, to_nat}
use raft_kv_raft_leveldb.Wire.{after_type, get_head, parsed}
use raft_kv_raft_leveldb.Types.{LogEntry}
use raft_kv_raft_leveldb.Common.{
  All, List, Text, [], ap, append_assoc, codes, length, none, refl, some, suc, text_eq_refl, true,
  ℕ, ◌++◌, ◌<◌, ◌^◌, ◌∙◌, ◌∷◌, ◌≡◌,
}
use raft_kv_raft_leveldb.Format.{encode_config, op_code, show_entries, show_nat, show_option}
use raft_kv_raft_leveldb.Storage.{state_text}
use raft_kv_raft_leveldb.Storage.Load.{
  SavedState, StateHead, get_state_head, lines_of, load_entries, load_logs, load_text, make_saved,
  read_line,
}
use raft_kv_raft_leveldb.Storage.Load.Lines.{entry_line, lines_of-show_entries}
use raft_kv_raft_leveldb.Input.Numbers.{Stops, get_int-empty, get_int-show_nat}
use raft_kv_raft_leveldb.Input.Words.{
  IsSmall, IsWord, get_int-space, get_int_option-space, get_size-space, get_word-space, is_word,
  option_int, to_option-option_int,
}
use raft_kv_raft_leveldb.Input.Config.{decode_config-encode_config}
use raft_kv_raft_leveldb.Wire.Entries.{
  IsWireEntry, get_head-next, head_of, make_entry-head_of, op_code-small,
}
use raft_kv_raft_leveldb.Wire.Requests.{after_type-found}

after_type-space :
    (c : ℕ) (type rest : Text)
    → is_space c ≡ true
    → IsWord type
    → Stops rest
    → after_type type (c ∷ type ++ rest) ≡ some rest
unfolding after_type
after_type-space c type rest gap h stops =
    rw (get_word-space c gap type rest h stops, text_eq_refl type) refl

read_line-empty : read_line [] ≡ none
unfolding read_line get_head
read_line-empty = rw get_int-empty refl

read_line-next :
    (text t t₂ t₃ : Text) (e : LogEntry)
    → get_head text ≡ some (head_of e, t)
    → decode_config (some t) ≡ (some t₂, some e.old_config)
    → decode_config (some t₂) ≡ (some t₃, some e.new_config)
    → read_line text ≡ some (some e)
unfolding read_line
read_line-next text t t₂ t₃ e a b c = rw (a, b, c, make_entry-head_of e) refl

read_line-entry_line : (e : LogEntry) → IsWireEntry e → read_line (entry_line e) ≡ some (some e)
read_line-entry_line e h =
    let t₆ = 32 ∷ (encode_config e.new_config ++ []) in
    let t₅ = 32 ∷ (encode_config e.old_config ++ t₆) in
    let t₄ = 32 ∷ (e.value ++ t₅) in
    let t₃ = 32 ∷ (e.key ++ t₄) in
    let t₂ = 32 ∷ (show_nat (op_code e.op) ++ t₃) in
    let t₁ = 32 ∷ (show_nat e.term ++ t₂) in
    read_line-next _ t₅ t₆ [] e
      (get_head-next _ t₁ t₂ t₃ t₄ t₅ e.key e.value (pos e.index) (pos e.term) (pos (op_code e.op))
        (get_int-show_nat e.index t₁ h.index refl) (get_int-space 32 refl e.term t₂ h.term refl)
        (get_int-space 32 refl (op_code e.op) t₃ (op_code-small e.op) refl)
        (get_word-space 32 refl e.key t₄ h.key refl)
        (get_word-space 32 refl e.value t₅ h.value refl))
      (decode_config-encode_config 32 e.old_config t₆ refl h.old_config h.old_size refl)
      (decode_config-encode_config 32 e.new_config [] refl h.new_config h.new_size tt)

load_entries-next :
    (count : ℕ) (line : Text) (lines : List Text) (e : LogEntry) (es : List LogEntry)
    → read_line line ≡ some (some e)
    → load_entries count lines ≡ parsed es
    → load_entries (suc count) (line ∷ lines) ≡ parsed (e ∷ es)
unfolding load_entries
load_entries-next count [] lines e es h more = cc (h, read_line-empty)
load_entries-next count (c ∷ line) lines e es h more = rw (h, more) refl

load_entries-show_entries :
    (es : List LogEntry)
    → All IsWireEntry es
    → load_entries (length es) (lines_of (show_entries es)) ≡ parsed es
load_entries-show_entries [] h = unfold load_entries in refl
load_entries-show_entries (e ∷ es) h =
    ap (load_entries (length (e ∷ es))) (lines_of-show_entries e es h.0)
    ∙ load_entries-next (length es) (entry_line e) (lines_of (show_entries es)) e es
        (read_line-entry_line e h.0) (load_entries-show_entries es h.1)

-- State that the text of the file can carry.
pub record IsWireState (s : SavedState) : Type 0 where
  pub current_term : s.current_term < 2 ^ 31
  pub voted_for : IsSmall s.voted_for
  pub last_included_index : s.last_included_index < 2 ^ 31
  pub last_included_term : s.last_included_term < 2 ^ 31
  pub logs : All IsWireEntry s.logs
  pub size : length s.logs < 2 ^ 64

state_text-spread :
    (s : SavedState)
    → state_text s.current_term s.voted_for s.last_included_index s.last_included_term s.logs
      ≡ codes "currentTerm"
        ++ 32
          ∷ (show_nat s.current_term
              ++ 10
                ∷ (codes "votedFor"
                    ++ 32
                      ∷ (show_option s.voted_for
                          ++ 10
                            ∷ (codes "lastIncludedIndex"
                                ++ 32
                                  ∷ (show_nat s.last_included_index
                                      ++ 10
                                        ∷ (codes "lastIncludedTerm"
                                            ++ 32
                                              ∷ (show_nat s.last_included_term
                                                  ++ 10
                                                    ∷ (codes "logCount"
                                                        ++ 32
                                                          ∷ (show_nat (length s.logs)
                                                            ++ 10 ∷ show_entries s.logs)))))))))
unfolding state_text
state_text-spread s = simp append_assoc

abbrev state_head : SavedState → StateHead
state_head s = record {
  current_term = pos s.current_term;
  voted_for = option_int s.voted_for;
  last_included_index = pos s.last_included_index;
  last_included_term = pos s.last_included_term;
  log_count = length s.logs;
}

get_state_head-next :
    (s : SavedState) (t t₁ t₂ t₃ t₄ t₅ t₆ t₇ t₈ t₉ rest : Text)
    → after_type (codes "currentTerm") t ≡ some t₁
    → get_int t₁ ≡ some (pos s.current_term, t₂)
    → after_type (codes "votedFor") t₂ ≡ some t₃
    → get_int t₃ ≡ some (option_int s.voted_for, t₄)
    → after_type (codes "lastIncludedIndex") t₄ ≡ some t₅
    → get_int t₅ ≡ some (pos s.last_included_index, t₆)
    → after_type (codes "lastIncludedTerm") t₆ ≡ some t₇
    → get_int t₇ ≡ some (pos s.last_included_term, t₈)
    → after_type (codes "logCount") t₈ ≡ some t₉
    → get_size t₉ ≡ some (length s.logs, rest)
    → get_state_head t ≡ some (state_head s, rest)
unfolding get_state_head
get_state_head-next s t t₁ t₂ t₃ t₄ t₅ t₆ t₇ t₈ t₉ rest a b c d e f g h i j =
    rw (a, b, c, d, e, f, g, h, i, j) refl

load_logs-found :
    (s : SavedState)
    → All IsWireEntry s.logs
    → load_logs (some (state_head s, 10 ∷ show_entries s.logs)) ≡ parsed s
unfolding load_logs make_saved to_nat lines_of
load_logs-found s h = rw (load_entries-show_entries s.logs h, to_option-option_int s.voted_for) refl

-- State that the text of the file can carry is loaded as it was saved.
pub load_text-state_text :
    (s : SavedState)
    → IsWireState s
    → load_text
        (state_text s.current_term s.voted_for s.last_included_index s.last_included_term s.logs)
      ≡ parsed s
unfolding load_text
load_text-state_text s h =
    let t₉ = 32 ∷ (show_nat (length s.logs) ++ 10 ∷ show_entries s.logs) in
    let t₈ = 10 ∷ (codes "logCount" ++ t₉) in
    let t₇ = 32 ∷ (show_nat s.last_included_term ++ t₈) in
    let t₆ = 10 ∷ (codes "lastIncludedTerm" ++ t₇) in
    let t₅ = 32 ∷ (show_nat s.last_included_index ++ t₆) in
    let t₄ = 10 ∷ (codes "lastIncludedIndex" ++ t₅) in
    let t₃ = 32 ∷ (show_option s.voted_for ++ t₄) in
    let t₂ = 10 ∷ (codes "votedFor" ++ t₃) in
    let t₁ = 32 ∷ (show_nat s.current_term ++ t₂) in
    let rest = 10 ∷ show_entries s.logs in
    let text = codes "currentTerm" ++ t₁ in
    let head =
      get_state_head-next s text t₁ t₂ t₃ t₄ t₅ t₆ t₇ t₈ t₉ rest
        (after_type-found (codes "currentTerm") t₁ (is_word (codes "currentTerm") refl) refl)
        (get_int-space 32 refl s.current_term t₂ h.current_term refl)
        (after_type-space 10 (codes "votedFor") t₃ refl (is_word (codes "votedFor") refl) refl)
        (get_int_option-space 32 refl s.voted_for t₄ h.voted_for refl)
        (after_type-space 10 (codes "lastIncludedIndex") t₅ refl
          (is_word (codes "lastIncludedIndex") refl) refl)
        (get_int-space 32 refl s.last_included_index t₆ h.last_included_index refl)
        (after_type-space 10 (codes "lastIncludedTerm") t₇ refl
          (is_word (codes "lastIncludedTerm") refl) refl)
        (get_int-space 32 refl s.last_included_term t₈ h.last_included_term refl)
        (after_type-space 10 (codes "logCount") t₉ refl (is_word (codes "logCount") refl) refl)
        (get_size-space 32 refl (length s.logs) rest h.size refl) in
    ap (λ t. load_logs (get_state_head t)) (state_text-spread s)
    ∙ ap load_logs head
    ∙ load_logs-found s h.logs
