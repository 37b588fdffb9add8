-- ===== src/Rpc.antt =====
-- handleRpcText of src/raftCore/raft_node.cpp: the request in a text, and the answer. The requests of
-- the other nodes are answered at once. Those of clients are answered at once if the node is no leader;
-- otherwise they go on with the sections of Leader, Read and Apply.
pub mod Peers
pub mod Commands
use raft_kv_raft_leveldb.Input.{get_int, get_word, to_nat, ◌>>=◌}
use raft_kv_raft_leveldb.Wire.{
  Parsed, outside, parse_append_entries_rpc, parse_request_vote_rpc, parsed, rejected,
}
use raft_kv_raft_leveldb.Types.{
  AppendEntriesArgs, InstallSnapshotArgs, PeerInfo, ReadResult, RequestVoteArgs, is_leader, no_key,
  not_leader, ok, read_fail,
}
use raft_kv_raft_leveldb.Common.{
  Bool, Option, Text, codes, if◌then◌else◌, none, some, text_eq, ℕ, ◌++◌,
}
use raft_kv_raft_leveldb.Platform.{Platform}
use raft_kv_raft_leveldb.Wire.Pairs.{parse_install_snapshot_rpc}
use raft_kv_raft_leveldb.Wire.Replies.{
  build_append_entries_reply, build_install_snapshot_reply, build_request_vote_reply,
}
use raft_kv_raft_leveldb.Node.{RaftNode}
use raft_kv_raft_leveldb.Vote.{handle_request_vote}
use raft_kv_raft_leveldb.Append.{handle_append_entries}
use raft_kv_raft_leveldb.Snapshot.{handle_install_snapshot}

-- What handleRpcText finds in a text. `malformed` is answered "ERR"; `unheld` is a request whose
-- numbers the types of the model do not hold.
pub data Call : Type 0 where
  client_put : Text → Text → Call
  client_get : Text → Call
  add_node : PeerInfo → Call
  remove_node : ℕ → Call
  client_delete : Text → Call
  request_vote : RequestVoteArgs → Call
  append_entries : AppendEntriesArgs → Call
  install_snapshot : InstallSnapshotArgs → Call
  malformed : Call
  unheld : Call

-- A call whose reads may fail, and whose numbers may not be held.
abbrev pub read_call : Option (Option Call) → Call
read_call none = malformed
read_call (some none) = unheld
read_call (some (some c)) = c

abbrev pub get_put : Text → Option (Option Call)
get_put text = do
  (key, t₁) ← get_word text
  (value, t₂) ← get_word t₁
  some (some (client_put key value))

abbrev pub get_key : (Text → Call) → Text → Option (Option Call)
get_key call text = do (key, t₁) ← get_word text; some (some (call key))

abbrev pub get_add : Text → Option (Option Call)
get_add text = do
  (nid, t₁) ← get_int text
  (ip, t₂) ← get_word t₁
  (port, t₃) ← get_int t₂
  some (do i ← to_nat nid; p ← to_nat port; some (add_node (record { id = i; ip = ip; port = p })))

abbrev pub get_remove : Text → Option (Option Call)
get_remove text = do (nid, t₁) ← get_int text; some (do i ← to_nat nid; some (remove_node i))

-- The blocks of handleRpcText for clients, by the type of the request; `none` if it is none of theirs.
unfoldable pub client_call : Text → Text → Option Call
client_call type rest =
    if text_eq type (codes "CPUT")
    then some (read_call (get_put rest))
    else if text_eq type (codes "CGET")
    then some (read_call (get_key client_get rest))
    else if text_eq type (codes "CADD")
    then some (read_call (get_add rest))
    else if text_eq type (codes "CREMOVE")
    then some (read_call (get_remove rest))
    else if text_eq type (codes "CDEL")
    then some (read_call (get_key client_delete rest))
    else none

abbrev pub or_snapshot : Parsed InstallSnapshotArgs → Call
or_snapshot rejected = malformed
or_snapshot outside = unheld
or_snapshot (parsed args) = install_snapshot args

abbrev pub or_append : Parsed AppendEntriesArgs → Call → Call
or_append rejected other = other
or_append outside other = unheld
or_append (parsed args) other = append_entries args

abbrev pub or_vote : Parsed RequestVoteArgs → Call → Call
or_vote rejected other = other
or_vote outside other = unheld
or_vote (parsed args) other = request_vote args

-- The three parse functions in turn.
unfoldable pub peer_call : Text → Call
peer_call req =
    or_vote (parse_request_vote_rpc req)
      (or_append (parse_append_entries_rpc req) (or_snapshot (parse_install_snapshot_rpc req)))

abbrev pub or_peer : Option Call → Call → Call
or_peer none other = other
or_peer (some c) other = c

unfoldable pub choose_call : Text → Call
choose_call req = or_peer (do (type, rest) ← get_word req; client_call type rest) (peer_call req)

-- An answer with the state behind it, a request that goes on, or one that the model does not hold.
pub data Answer (P : Platform) : Type 0 where
  replies : RaftNode P × Text → Answer P
  goes_on : Call → Answer P
  not_held : Answer P

-- `ok ? "OK" : "FAIL"`, of a put, a delete and the changes of the members
unfoldable pub show_done : Bool → Text
show_done done = if done then codes "OK" else codes "FAIL"

-- The switch of handleClientGet, on the result and the value.
unfoldable pub show_read : ReadResult × Text → Text
show_read (ok, value) = codes "VALUE " ++ value
show_read (no_key, value) = codes "NO_KEY"
show_read (not_leader, value) = codes "NOT_LEADER"
show_read (read_fail, value) = codes "READ_FAIL"

module _ {P : Platform} where
  -- A request of a client: its first test.
  unfoldable pub leader_only : Call → RaftNode P → Answer P
  leader_only call n = if is_leader n.state then goes_on call else replies (n, codes "NOT_LEADER")

  unfoldable pub answer : Call → RaftNode P → Answer P
  answer (client_put key value) n = leader_only (client_put key value) n
  answer (client_get key) n = leader_only (client_get key) n
  answer (add_node node) n = leader_only (add_node node) n
  answer (remove_node nid) n = leader_only (remove_node nid) n
  answer (client_delete key) n = leader_only (client_delete key) n
  answer (request_vote args) n =
      let (m, reply) = handle_request_vote args n in replies (m, build_request_vote_reply reply)
  answer (append_entries args) n =
      let (m, reply) = handle_append_entries args n in replies (m, build_append_entries_reply reply)
  answer (install_snapshot args) n =
      let (m, reply) = handle_install_snapshot args n in
      replies (m, build_install_snapshot_reply reply)
  answer malformed n = replies (n, codes "ERR")
  answer unheld n = not_held

  -- handleRpcText
  unfoldable pub handle_rpc_text : Text → RaftNode P → Answer P
  handle_rpc_text req n = answer (choose_call req) n
