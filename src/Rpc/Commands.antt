-- ===== src/Rpc/Commands.antt =====
-- The commands that src/client/clerk.cpp sends are what handleRpcText of src/raftCore/raft_node.cpp
-- finds in their texts.

use raft_kv_raft_leveldb.Rpc.{
  Call, add_node, answer, choose_call, client_call, client_delete, client_get, client_put, goes_on,
  handle_rpc_text, leader_only, remove_node, replies,
}
use raft_kv_raft_leveldb.Clerk.{
  add_request, delete_request, get_request, put_request, remove_request,
}
use raft_kv_raft_leveldb.Common.{
  Text, [], ap, append-nil, append_assoc, codes, if◌then◌else◌, refl, some, text_eq, ℕ, ◌++◌, ◌<◌,
  ◌^◌, ◌∙◌, ◌∷◌, ◌≡◌,
}
use raft_kv_raft_leveldb.Types.{PeerInfo, is_leader}
use raft_kv_raft_leveldb.Platform.{Platform}
use raft_kv_raft_leveldb.Format.{show_nat}
use raft_kv_raft_leveldb.Input.{to_nat}
use raft_kv_raft_leveldb.Input.Words.{
  IsWord, get_int-space, get_word-IsWord, get_word-space, is_word,
}
use raft_kv_raft_leveldb.Input.Config.{IsWirePeer}
use raft_kv_raft_leveldb.Node.{RaftNode}

-- The commands of a Clerk.
pub data Command : Type 0 where
  of_put : Text → Text → Command
  of_get : Text → Command
  of_delete : Text → Command
  of_add : PeerInfo → Command
  of_remove : ℕ → Command

abbrev pub request_of : Command → Text
request_of (of_put key value) = put_request key value
request_of (of_get key) = get_request key
request_of (of_delete key) = delete_request key
request_of (of_add node) = add_request node
request_of (of_remove node_id) = remove_request node_id

abbrev pub found_in : Command → Call
found_in (of_put key value) = client_put key value
found_in (of_get key) = client_get key
found_in (of_delete key) = client_delete key
found_in (of_add node) = add_node node
found_in (of_remove node_id) = remove_node node_id

-- The command can be carried by its text: keys, values and addresses are words, and an `int` can hold
-- the numbers.
abbrev pub IsWireCommand : Command → Type 0
IsWireCommand (of_put key value) = IsWord key × IsWord value
IsWireCommand (of_get key) = IsWord key
IsWireCommand (of_delete key) = IsWord key
IsWireCommand (of_add node) = IsWirePeer node
IsWireCommand (of_remove node_id) = node_id < 2 ^ 31

choose_call-client :
    (text type rest : Text) (c : Call)
    → text ≡ type ++ 32 ∷ rest
    → IsWord type
    → client_call type (32 ∷ rest) ≡ some c
    → choose_call text ≡ c
unfolding choose_call
choose_call-client text type rest c layout word first =
    rw (layout, get_word-IsWord type (32 ∷ rest) word refl, first) refl

client_call-key :
    (key : Text)
    → IsWord key
    → (client_call (codes "CGET") (32 ∷ (key ++ [])) ≡ some (client_get key))
      × (client_call (codes "CDEL") (32 ∷ (key ++ [])) ≡ some (client_delete key))
unfolding client_call text_eq
client_call-key key h =
    (rw (get_word-space 32 refl key [] h tt) refl, rw (get_word-space 32 refl key [] h tt) refl)

client_call-put :
    (key value : Text)
    → IsWord key
    → IsWord value
    → client_call (codes "CPUT") (32 ∷ (key ++ 32 ∷ (value ++ []))) ≡ some (client_put key value)
unfolding client_call text_eq
client_call-put key value h k =
    rw
      (get_word-space 32 refl key (32 ∷ (value ++ [])) h refl, get_word-space 32 refl value [] k tt)
      refl

client_call-add :
    (node : PeerInfo)
    → IsWirePeer node
    → client_call
        (codes "CADD")
        (32 ∷ (show_nat node.id ++ 32 ∷ (node.ip ++ 32 ∷ (show_nat node.port ++ []))))
      ≡ some (add_node node)
unfolding client_call text_eq to_nat
client_call-add node h =
    let t₂ = 32 ∷ (show_nat node.port ++ []) in
    let t₁ = 32 ∷ (node.ip ++ t₂) in
    rw
      (
        get_int-space 32 refl node.id t₁ h.id refl,
        get_word-space 32 refl node.ip t₂ h.ip refl,
        get_int-space 32 refl node.port [] h.port tt,
      )
      refl

client_call-remove :
    (node_id : ℕ)
    → node_id < 2 ^ 31
    → client_call (codes "CREMOVE") (32 ∷ (show_nat node_id ++ [])) ≡ some (remove_node node_id)
unfolding client_call text_eq to_nat
client_call-remove node_id small = rw (get_int-space 32 refl node_id [] small tt) refl

choose_call-request_of : (c : Command) → IsWireCommand c → choose_call (request_of c) ≡ found_in c
unfolding put_request get_request delete_request add_request remove_request
choose_call-request_of (of_put key value) h =
    choose_call-client _ (codes "CPUT") _ _ (simp (append_assoc, append-nil))
      (is_word (codes "CPUT") refl) (client_call-put key value h.0 h.1)
choose_call-request_of (of_get key) h =
    choose_call-client _ (codes "CGET") _ _ (simp append-nil) (is_word (codes "CGET") refl)
      (client_call-key key h).0
choose_call-request_of (of_delete key) h =
    choose_call-client _ (codes "CDEL") _ _ (simp append-nil) (is_word (codes "CDEL") refl)
      (client_call-key key h).1
choose_call-request_of (of_add node) h =
    choose_call-client _ (codes "CADD") _ _ (simp (append_assoc, append-nil))
      (is_word (codes "CADD") refl) (client_call-add node h)
choose_call-request_of (of_remove node_id) h =
    choose_call-client _ (codes "CREMOVE") _ _ (simp append-nil) (is_word (codes "CREMOVE") refl)
      (client_call-remove node_id h)

module _ {P : Platform} where
  answer-found_in :
      (c : Command) (n : RaftNode P)
      → answer (found_in c) n
        ≡ (if is_leader n.state then goes_on (found_in c) else replies (n, codes "NOT_LEADER"))
  unfolding answer leader_only
  answer-found_in (of_put key value) n = refl
  answer-found_in (of_get key) n = refl
  answer-found_in (of_delete key) n = refl
  answer-found_in (of_add node) n = refl
  answer-found_in (of_remove node_id) n = refl

  -- A command of a Clerk that its text can carry goes on at a leader with the key, value and numbers
  -- that the Clerk was given; any other node keeps its state and answers "NOT_LEADER".
  pub handle_rpc_text-request_of :
      (c : Command) (n : RaftNode P)
      → IsWireCommand c
      → handle_rpc_text (request_of c) n
        ≡ (if is_leader n.state then goes_on (found_in c) else replies (n, codes "NOT_LEADER"))
  unfolding handle_rpc_text
  handle_rpc_text-request_of c n h =
      ap (λ call. answer call n) (choose_call-request_of c h) ∙ answer-found_in c n
