-- ===== src/Exchange/Serve.antt =====
-- handleRpcText of src/raftCore/raft_node.cpp as a whole, with the operations that the requests of clients
-- start.
use raft_kv_raft_leveldb.Exchange.{
  Ran, World, and_then, done, faulted, leader_delete, leader_put, pass,
}
use raft_kv_raft_leveldb.Exchange.Change.{add_node, remove_node}
use raft_kv_raft_leveldb.Exchange.Get.{linearizable_get}
use raft_kv_raft_leveldb.Rpc
use raft_kv_raft_leveldb.Rpc.{
  Answer, Call, append_entries, client_delete, client_get, client_put, goes_on, handle_rpc_text,
  install_snapshot, malformed, not_held, replies, request_vote, show_done, show_read, unheld,
}
use raft_kv_raft_leveldb.Rpc.Commands.{
  Command, IsWireCommand, found_in, handle_rpc_text-request_of, request_of,
}
use raft_kv_raft_leveldb.Types.{PeerInfo, is_leader}
use raft_kv_raft_leveldb.Platform.{Platform}
use raft_kv_raft_leveldb.Node.{RaftNode}
use raft_kv_raft_leveldb.Common.{
  Bool, Option, Text, [], ap, codes, false, if◌then◌else◌, none, refl, some, true, ℕ, ◌∙◌, ◌≡◌,
}

-- The value that a get leaves in its reference.
abbrev pub value_or_empty : Option Text → Text
value_or_empty none = []
value_or_empty (some value) = value

module _ {P : Platform} (others : ℕ → RaftNode P → RaftNode P)
    (send : ℕ → PeerInfo → Text → Option Text) where
  -- `ok ? "OK" : "FAIL"` behind an operation
  abbrev pub in_text : Ran (World P × Bool) → Ran (World P × Text)
  in_text r = and_then r (λ o. done (o.0, show_done o.1))

  -- handleClientPut, handleClientGet, handleClientDelete and the blocks of CADD and CREMOVE, behind their
  -- first test.
  unfoldable pub finish_call : ℕ → Call → World P → Ran (World P × Text)
  finish_call fuel (client_put key value) w =
      in_text (leader_put others send fuel key value (pass others send w))
  finish_call fuel (client_get key) w =
      and_then (linearizable_get others send fuel key w)
        (λ o. done (o.0, show_read (o.1.0, value_or_empty o.1.1)))
  finish_call fuel (Rpc.add_node node) w =
      in_text (add_node others send fuel node (pass others send w))
  finish_call fuel (Rpc.remove_node nid) w =
      in_text (remove_node others send fuel nid (pass others send w))
  finish_call fuel (client_delete key) w =
      in_text (leader_delete others send fuel key (pass others send w))
  finish_call fuel (request_vote args) w = faulted
  finish_call fuel (append_entries args) w = faulted
  finish_call fuel (install_snapshot args) w = faulted
  finish_call fuel malformed w = faulted
  finish_call fuel unheld w = faulted

  abbrev pub finish_answer : ℕ → World P → Answer P → Ran (World P × Text)
  finish_answer fuel w (replies (n, text)) = done ((n, w.1), text)
  finish_answer fuel w (goes_on call) = finish_call fuel call w
  finish_answer fuel w not_held = faulted

  -- handleRpcText
  unfoldable pub serve_rpc_text : ℕ → Text → World P → Ran (World P × Text)
  serve_rpc_text fuel req w = finish_answer fuel w (handle_rpc_text req w.0)

  finish_test :
      (fuel : ℕ) (w : World P) (b : Bool) (call : Call) (text : Text)
      → finish_answer fuel w (if b then goes_on call else replies (w.0, text))
        ≡ (if b then finish_call fuel call w else done (w, text))
  finish_test fuel w true call text = refl
  finish_test fuel w false call text = refl

  -- A command of a Clerk that its text can carry runs its operation at a leader, with the key, value and
  -- numbers that the Clerk was given; any other node keeps its state and answers "NOT_LEADER".
  pub serve_rpc_text-request_of :
      (fuel : ℕ) (c : Command) (w : World P)
      → IsWireCommand c
      → serve_rpc_text fuel (request_of c) w ≡ (
          if is_leader w.0.state
          then finish_call fuel (found_in c) w
          else done (w, codes "NOT_LEADER"))
  unfolding serve_rpc_text
  serve_rpc_text-request_of fuel c w h =
      ap (finish_answer fuel w) (handle_rpc_text-request_of c w.0 h)
      ∙ finish_test fuel w (is_leader w.0.state) (found_in c) (codes "NOT_LEADER")
