-- ===== src/Wire/Entries.antt =====
-- The entries of an AppendEntries request in src/raftCore/raft_node.cpp are read back as they were
-- written.
use raft_kv_raft_leveldb.Types.{
  CommandType, LogEntry, config_joint, config_new, del, get, noop, put,
}
use raft_kv_raft_leveldb.Input.{decode_config, get_int, get_word, pos, to_nat, to_op, ℤ}
use raft_kv_raft_leveldb.Input.Config.{IsWirePeer, decode_config-encode_config}
use raft_kv_raft_leveldb.Input.Words.{IsWord, get_int-space, get_word-space}
use raft_kv_raft_leveldb.Format.{encode_config, op_code, show_entries, show_entry, show_nat}
use raft_kv_raft_leveldb.Wire.{EntryHead, get_head, make_entry, parse_entries, parsed}
use raft_kv_raft_leveldb.Common.{
  All, List, Text, [], ap, append_assoc, arith, length, refl, some, suc, ℕ, ◌++◌, ◌<◌, ◌^◌, ◌∙◌,
  ◌∷◌, ◌≡◌,
}

-- An entry that its text can carry: numbers that an `int` can hold, and a key and a value that are words.
pub record IsWireEntry (e : LogEntry) : Type 0 where
  pub index : e.index < 2 ^ 31
  pub term : e.term < 2 ^ 31
  pub key : IsWord e.key
  pub value : IsWord e.value
  pub old_config : All IsWirePeer e.old_config
  pub old_size : length e.old_config < 2 ^ 64
  pub new_config : All IsWirePeer e.new_config
  pub new_size : length e.new_config < 2 ^ 64

-- The text of an entry behind a separator, with its tokens side by side.
show_entry-spread :
    (e : LogEntry) (rest : Text)
    → show_entry e ++ rest
      ≡ show_nat e.index
        ++ 32
          ∷ (show_nat e.term
              ++ 32
                ∷ (show_nat (op_code e.op)
                    ++ 32
                      ∷ (e.key
                          ++ 32
                            ∷ (e.value
                                ++ 32
                                  ∷ (encode_config e.old_config
                                      ++ 32 ∷ (encode_config e.new_config ++ 10 ∷ rest))))))
unfolding show_entry
show_entry-spread e rest = simp append_assoc

pub op_code-small : (op : CommandType) → op_code op < 2 ^ 31
unfolding op_code
op_code-small op = ground arith

to_op-op_code : (op : CommandType) → to_op (pos (op_code op)) ≡ some op
unfolding to_op op_code
to_op-op_code put = refl
to_op-op_code get = refl
to_op-op_code del = refl
to_op-op_code noop = refl
to_op-op_code config_joint = refl
to_op-op_code config_new = refl

pub get_head-next :
    (t t₁ t₂ t₃ t₄ t₅ key value : Text) (index term op : ℤ)
    → get_int t ≡ some (index, t₁)
    → get_int t₁ ≡ some (term, t₂)
    → get_int t₂ ≡ some (op, t₃)
    → get_word t₃ ≡ some (key, t₄)
    → get_word t₄ ≡ some (value, t₅)
    → get_head t
      ≡ some (record { index = index; term = term; op = op; key = key; value = value }, t₅)
unfolding get_head
get_head-next t t₁ t₂ t₃ t₄ t₅ key value index term op a b c d e = rw (a, b, c, d, e) refl

-- What stands behind the numbers, the key and the value.
abbrev configs_text : LogEntry → Text → Text
configs_text e rest =
    32 ∷ (encode_config e.old_config ++ 32 ∷ (encode_config e.new_config ++ 10 ∷ rest))

abbrev pub head_of : LogEntry → EntryHead
head_of e = record {
  index = pos e.index;
  term = pos e.term;
  op = pos (op_code e.op);
  key = e.key;
  value = e.value;
}

get_head-show_entry :
    (e : LogEntry) (rest : Text)
    → IsWireEntry e
    → get_head (10 ∷ (show_entry e ++ rest)) ≡ some (head_of e, configs_text e rest)
get_head-show_entry e rest h =
    let t₅ = configs_text e rest in
    let t₄ = 32 ∷ (e.value ++ t₅) in
    let t₃ = 32 ∷ (e.key ++ t₄) in
    let t₂ = 32 ∷ (show_nat (op_code e.op) ++ t₃) in
    let t₁ = 32 ∷ (show_nat e.term ++ t₂) in
    ap (λ t. get_head (10 ∷ t)) (show_entry-spread e rest)
    ∙ get_head-next _ t₁ t₂ t₃ t₄ t₅ e.key e.value (pos e.index) (pos e.term) (pos (op_code e.op))
        (get_int-space 10 refl e.index t₁ h.index refl)
        (get_int-space 32 refl e.term t₂ h.term refl)
        (get_int-space 32 refl (op_code e.op) t₃ (op_code-small e.op) refl)
        (get_word-space 32 refl e.key t₄ h.key refl)
        (get_word-space 32 refl e.value t₅ h.value refl)

pub make_entry-head_of :
    (e : LogEntry) → make_entry (head_of e) (some e.old_config) (some e.new_config) ≡ some e
unfolding make_entry to_nat
make_entry-head_of e = rw (to_op-op_code e.op) refl

parse_entries-next :
    (count : ℕ) (text t₁ t₂ t₃ : Text) (e : LogEntry) (es : List LogEntry)
    → get_head text ≡ some (head_of e, t₁)
    → decode_config (some t₁) ≡ (some t₂, some e.old_config)
    → decode_config (some t₂) ≡ (some t₃, some e.new_config)
    → parse_entries count (some t₃) ≡ parsed es
    → parse_entries (suc count) (some text) ≡ parsed (e ∷ es)
unfolding parse_entries
parse_entries-next count text t₁ t₂ t₃ e es a b c d =
    rw (a, b, c, d, make_entry-head_of e, parse_entries) refl

-- The entries behind the head of a request, or behind the line with their count.
pub parse_entries-show_entries :
    (es : List LogEntry)
    → All IsWireEntry es
    → parse_entries (length es) (some (10 ∷ show_entries es)) ≡ parsed es
parse_entries-show_entries [] h = unfold parse_entries in refl
parse_entries-show_entries (e ∷ es) h =
    let rest = show_entries es in
    let t₂ = 32 ∷ (encode_config e.new_config ++ 10 ∷ rest) in
    parse_entries-next (length es) (10 ∷ show_entries (e ∷ es)) (configs_text e rest) t₂ (10 ∷ rest)
      e es (unfold show_entries in get_head-show_entry e rest h.0)
      (decode_config-encode_config 32 e.old_config t₂ refl h.0.old_config h.0.old_size refl)
      (decode_config-encode_config 32 e.new_config (10 ∷ rest) refl h.0.new_config h.0.new_size
        refl)
      (parse_entries-show_entries es h.1)
