-- ===== src/Wire.antt =====
-- The texts of requests and replies in src/raftCore/raft_node.cpp: the build functions, and the parse
-- functions over the streams of Input.
pub mod Entries
pub mod Requests
pub mod Pairs
pub mod Replies
use raft_kv_raft_leveldb.Types.{
  AppendEntriesArgs, AppendEntriesReply, InstallSnapshotArgs, InstallSnapshotReply, LogEntry,
  PeerInfo, RequestVoteArgs, RequestVoteReply,
}
use raft_kv_raft_leveldb.Format.{newline, show_entries, show_nat, show_option, space}
use raft_kv_raft_leveldb.StateMachine.{map_set}
use raft_kv_raft_leveldb.Input.{
  decode_config, get_int, get_size, get_word, to_nat, to_op, to_option, ℤ, ◌>>=◌,
}
use raft_kv_raft_leveldb.Common.{
  Bool, List, Option, Text, [], codes, false, if◌then◌else◌, length, none, some, suc, text_eq, zero,
  ℕ, ◌++◌, ◌==◌, ◌∷◌,
}

-- What a parse function does: it returns false; it returns true with a value that the types of the
-- model do not hold, a negative number or a node that was read in part; or it returns true.
pub data Parsed {ℓ} (A : Type ℓ) : Type ℓ where
  rejected : Parsed A
  outside : Parsed A
  parsed : A → Parsed A

-- A value that was read, or none that the model holds.
abbrev pub held {ℓ} : {A : Type ℓ} → Option A → Parsed A
held none = outside
held (some a) = parsed a

-- `return !iss.fail()` after the reads.
abbrev pub checked {ℓ} : {A : Type ℓ} → Option (Option A) → Parsed A
checked none = rejected
checked (some o) = held o

-- buildRequestVoteRpc
unfoldable pub build_request_vote_rpc : RequestVoteArgs → Text
build_request_vote_rpc args =
    codes "RV "
    ++ show_nat args.term
    ++ space
    ++ show_nat args.candidate_id
    ++ space
    ++ show_nat args.last_log_index
    ++ space
    ++ show_nat args.last_log_term

-- The reads of parseRequestVoteRpc behind the type.
unfoldable pub get_vote_args : Text → Option (Option RequestVoteArgs)
get_vote_args text = do
  (term, t₁) ← get_int text
  (candidate_id, t₂) ← get_int t₁
  (last_log_index, t₃) ← get_int t₂
  (last_log_term, t₄) ← get_int t₃
  some (do
    a ← to_nat term
    b ← to_nat candidate_id
    c ← to_nat last_log_index
    d ← to_nat last_log_term
    some (record { term = a; candidate_id = b; last_log_index = c; last_log_term = d }))

-- The first word of a text, if it is the given one, and what follows it.
unfoldable pub after_type : Text → Text → Option Text
after_type type req = do (word, rest) ← get_word req; if text_eq word type then some rest else none

-- parseRequestVoteRpc
unfoldable pub parse_request_vote_rpc : Text → Parsed RequestVoteArgs
parse_request_vote_rpc req = checked (after_type (codes "RV") req >>= get_vote_args)

-- buildAppendEntriesRpc
unfoldable pub build_append_entries_rpc : AppendEntriesArgs → Text
build_append_entries_rpc args =
    codes "AE "
    ++ show_nat args.term
    ++ space
    ++ show_nat args.leader_id
    ++ space
    ++ show_nat args.prev_log_index
    ++ space
    ++ show_option args.prev_log_term
    ++ space
    ++ show_nat args.leader_commit
    ++ space
    ++ show_nat (length args.entries)
    ++ newline
    ++ show_entries args.entries

-- `iss >> e.index >> e.term >> opInt >> e.key >> e.value`
pub record EntryHead : Type 0 where
  pub index : ℤ
  pub term : ℤ
  pub op : ℤ
  pub key : Text
  pub value : Text

unfoldable pub get_head : Text → Option (EntryHead × Text)
get_head text = do
  (index, t₁) ← get_int text
  (term, t₂) ← get_int t₁
  (op, t₃) ← get_int t₂
  (key, t₄) ← get_word t₃
  (value, t₅) ← get_word t₄
  some (record { index = index; term = term; op = op; key = key; value = value }, t₅)

unfoldable pub make_entry :
    EntryHead → Option (List PeerInfo) → Option (List PeerInfo) → Option LogEntry
make_entry h old_config new_config = do
  index ← to_nat h.index
  term ← to_nat h.term
  op ← to_op h.op
  old ← old_config
  new ← new_config
  some (record {
    term = term;
    index = index;
    op = op;
    key = h.key;
    value = h.value;
    old_config = old;
    new_config = new;
  })

-- The entries so far and the next, where a later failure still rejects the request.
abbrev pub add_entry : Option LogEntry → Parsed (List LogEntry) → Parsed (List LogEntry)
add_entry e rejected = rejected
add_entry e outside = outside
add_entry none (parsed es) = outside
add_entry (some e) (parsed es) = parsed (e ∷ es)

-- The loop of parseAppendEntriesRpc over so many entries. Nothing is tested after the last decodeConfig.
unfoldable pub parse_entries : ℕ → Option Text → Parsed (List LogEntry)
parse_entries zero stream = parsed []
parse_entries (suc count) none = rejected
parse_entries (suc count) (some text) = elim (get_head text) [
  | none ↦ rejected
  | some (head, rest) ↦
      let (s₁, old) = decode_config (some rest) in
      let (s₂, new) = decode_config s₁ in
      add_entry (make_entry head old new) (parse_entries count s₂)
]

-- The numbers of an AppendEntries request.
pub record AppendHead : Type 0 where
  pub term : ℤ
  pub leader_id : ℤ
  pub prev_log_index : ℤ
  pub prev_log_term : ℤ
  pub leader_commit : ℤ
  pub count : ℕ

unfoldable pub get_append_head : Text → Option (AppendHead × Text)
get_append_head text = do
  (term, t₁) ← get_int text
  (leader_id, t₂) ← get_int t₁
  (prev_log_index, t₃) ← get_int t₂
  (prev_log_term, t₄) ← get_int t₃
  (leader_commit, t₅) ← get_int t₄
  (count, t₆) ← get_size t₅
  some (
    record {
      term = term;
      leader_id = leader_id;
      prev_log_index = prev_log_index;
      prev_log_term = prev_log_term;
      leader_commit = leader_commit;
      count = count;
    },
    t₆,
  )

unfoldable pub make_append_args : AppendHead → List LogEntry → Option AppendEntriesArgs
make_append_args h es = do
  term ← to_nat h.term
  leader_id ← to_nat h.leader_id
  prev_log_index ← to_nat h.prev_log_index
  prev_log_term ← to_option h.prev_log_term
  leader_commit ← to_nat h.leader_commit
  some (record {
    term = term;
    leader_id = leader_id;
    prev_log_index = prev_log_index;
    prev_log_term = prev_log_term;
    entries = es;
    leader_commit = leader_commit;
  })

-- The arguments, once the entries are read.
abbrev pub with_entries : AppendHead → Parsed (List LogEntry) → Parsed AppendEntriesArgs
with_entries h rejected = rejected
with_entries h outside = outside
with_entries h (parsed es) = held (make_append_args h es)

-- The rest of parseAppendEntriesRpc behind its numbers.
unfoldable pub read_entries : Option (AppendHead × Text) → Parsed AppendEntriesArgs
read_entries none = rejected
read_entries (some (head, rest)) = with_entries head (parse_entries head.count (some rest))

-- parseAppendEntriesRpc
unfoldable pub parse_append_entries_rpc : Text → Parsed AppendEntriesArgs
parse_append_entries_rpc req = read_entries (after_type (codes "AE") req >>= get_append_head)
