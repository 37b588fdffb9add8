-- ===== src/Rpc/Peers.antt =====
-- A request of another node, from its text to the text of the reply, in src/raftCore/raft_node.cpp.
use raft_kv_raft_leveldb.Common.{
  All, List, Text, [], ap, arith, codes, false, none, refl, some, text_eq, ◌++◌, ◌∙◌, ◌∷◌, ◌≡◌,
}
use raft_kv_raft_leveldb.Types.{AppendEntriesArgs, InstallSnapshotArgs, RequestVoteArgs}
use raft_kv_raft_leveldb.Input.{get_word}
use raft_kv_raft_leveldb.Wire.{
  after_type, build_append_entries_rpc, build_request_vote_rpc, parse_append_entries_rpc,
  parse_request_vote_rpc, read_entries, rejected,
}
use raft_kv_raft_leveldb.Wire.Requests.{
  IsWireAppend, IsWireVote, parse_append_entries_rpc-build, parse_request_vote_rpc-build,
}
use raft_kv_raft_leveldb.Wire.Pairs.{
  IsWireSnapshot, build_install_snapshot_rpc, parse_install_snapshot_rpc,
  parse_install_snapshot_rpc-build,
}
use raft_kv_raft_leveldb.Rpc.{
  Call, answer, append_entries, choose_call, client_call, handle_rpc_text, install_snapshot,
  malformed, peer_call, replies, request_vote,
}
use raft_kv_raft_leveldb.Input.Words.{IsWord, get_word-IsWord}
use raft_kv_raft_leveldb.Platform.{Platform}
use raft_kv_raft_leveldb.Wire.Replies.{
  build_append_entries_reply, build_install_snapshot_reply, build_request_vote_reply,
}
use raft_kv_raft_leveldb.Node.{RaftNode}
use raft_kv_raft_leveldb.Vote.{handle_request_vote}
use raft_kv_raft_leveldb.Append.{handle_append_entries}
use raft_kv_raft_leveldb.Snapshot.{handle_install_snapshot}

-- The requests that a node sends to another.
pub data Request : Type 0 where
  vote : RequestVoteArgs → Request
  entries : AppendEntriesArgs → Request
  snapshot : InstallSnapshotArgs → Request

abbrev pub text_of : Request → Text
text_of (vote args) = build_request_vote_rpc args
text_of (entries args) = build_append_entries_rpc args
text_of (snapshot args) = build_install_snapshot_rpc args

-- The request can be carried by its text.
abbrev pub IsWire : Request → Type 0
IsWire (vote args) = IsWireVote args
IsWire (entries args) = IsWireAppend args
IsWire (snapshot args) = IsWireSnapshot args

abbrev pub call_of : Request → Call
call_of (vote args) = request_vote args
call_of (entries args) = append_entries args
call_of (snapshot args) = install_snapshot args

abbrev word_of : Request → Text
word_of (vote args) = codes "RV"
word_of (entries args) = codes "AE"
word_of (snapshot args) = codes "IS"

-- The word in front of a request.
text_of-word : (q : Request) → (rest : Text) × (text_of q ≡ word_of q ++ 32 ∷ rest)
unfolding build_request_vote_rpc build_append_entries_rpc build_install_snapshot_rpc
text_of-word (vote args) = (_, refl)
text_of-word (entries args) = (_, refl)
text_of-word (snapshot args) = (_, refl)

word_of-IsWord : (q : Request) → IsWord (word_of q)
word_of-IsWord (vote args) = (omega arith, (refl, (refl, tt)))
word_of-IsWord (entries args) = (omega arith, (refl, (refl, tt)))
word_of-IsWord (snapshot args) = (omega arith, (refl, (refl, tt)))

get_word-text_of : (q : Request) → (rest : Text) × (get_word (text_of q) ≡ some (word_of q, rest))
get_word-text_of q =
    let (rest, layout) = text_of-word q in
    (
      32 ∷ rest,
      ap get_word layout ∙ get_word-IsWord (word_of q) (32 ∷ rest) (word_of-IsWord q) refl,
    )

after_type-other :
    (type text word rest : Text)
    → get_word text ≡ some (word, rest)
    → text_eq word type ≡ false
    → after_type type text ≡ none
unfolding after_type
after_type-other type text word rest first other = rw (first, other) refl

-- A request that has another type is rejected.
parse_request_vote_rpc-other :
    (text : Text) → after_type (codes "RV") text ≡ none → parse_request_vote_rpc text ≡ rejected
unfolding parse_request_vote_rpc
parse_request_vote_rpc-other text h = rw h refl

parse_append_entries_rpc-other :
    (text : Text) → after_type (codes "AE") text ≡ none → parse_append_entries_rpc text ≡ rejected
unfolding parse_append_entries_rpc read_entries
parse_append_entries_rpc-other text h = rw h refl

parse_install_snapshot_rpc-other :
    (text : Text) → after_type (codes "IS") text ≡ none → parse_install_snapshot_rpc text ≡ rejected
unfolding parse_install_snapshot_rpc
parse_install_snapshot_rpc-other text h = rw h refl

no_client_call : (q : Request) (rest : Text) → client_call (word_of q) rest ≡ none
unfolding client_call text_eq
no_client_call (vote args) rest = refl
no_client_call (entries args) rest = refl
no_client_call (snapshot args) rest = refl

-- A text whose type is none of the clients' goes to the parse functions.
choose_call-peer :
    (text word rest : Text)
    → get_word text ≡ some (word, rest)
    → client_call word rest ≡ none
    → choose_call text ≡ peer_call text
unfolding choose_call
choose_call-peer text word rest first other = rw (first, other) refl

peer_call-text_of : (q : Request) → IsWire q → peer_call (text_of q) ≡ call_of q
unfolding peer_call text_eq
peer_call-text_of (vote args) h = rw (parse_request_vote_rpc-build args h) refl
peer_call-text_of (entries args) h =
    let (rest, first) = get_word-text_of (entries args) in
    rw
      (
        parse_request_vote_rpc-other _ (after_type-other (codes "RV") _ _ rest first refl),
        parse_append_entries_rpc-build args h,
      )
      refl
peer_call-text_of (snapshot args) h =
    let (rest, first) = get_word-text_of (snapshot args) in
    rw
      (
        parse_request_vote_rpc-other _ (after_type-other (codes "RV") _ _ rest first refl),
        parse_append_entries_rpc-other _ (after_type-other (codes "AE") _ _ rest first refl),
        parse_install_snapshot_rpc-build args h,
      )
      refl

-- The handler of a request, with the text of its reply.
abbrev pub serve : {P : Platform} → Request → RaftNode P → RaftNode P × Text
serve (vote args) n =
    let (m, reply) = handle_request_vote args n in (m, build_request_vote_reply reply)
serve (entries args) n =
    let (m, reply) = handle_append_entries args n in (m, build_append_entries_reply reply)
serve (snapshot args) n =
    let (m, reply) = handle_install_snapshot args n in (m, build_install_snapshot_reply reply)

-- The types that handleRpcText knows.
abbrev pub known_types : List Text
known_types =
    codes "CPUT"
    ∷ codes "CGET"
    ∷ codes "CADD"
    ∷ codes "CREMOVE"
    ∷ codes "CDEL"
    ∷ codes "RV"
    ∷ codes "AE"
    ∷ codes "IS"
    ∷ []

module _ {P : Platform} where
  answer-call_of : (q : Request) (n : RaftNode P) → answer (call_of q) n ≡ replies (serve q n)
  unfolding answer
  answer-call_of (vote args) n = refl
  answer-call_of (entries args) n = refl
  answer-call_of (snapshot args) n = refl

  -- A request of another node that its text can carry is answered with the reply of its handler to
  -- the arguments that were sent, in the state that the handler leaves.
  pub handle_rpc_text-text_of :
      (q : Request) (n : RaftNode P)
      → IsWire q
      → handle_rpc_text (text_of q) n ≡ replies (serve q n)
  unfolding handle_rpc_text
  handle_rpc_text-text_of q n h =
      let (rest, first) = get_word-text_of q in
      ap (λ c. answer c n)
        (choose_call-peer (text_of q) (word_of q) rest first (no_client_call q rest)
          ∙ peer_call-text_of q h)
      ∙ answer-call_of q n

  -- A text whose first word is none of the known types is answered "ERR", and the state stays.
  pub handle_rpc_text-unknown :
      (req word rest : Text) (n : RaftNode P)
      → get_word req ≡ some (word, rest)
      → All (λ type. text_eq word type ≡ false) known_types
      → handle_rpc_text req n ≡ replies (n, codes "ERR")
  unfolding handle_rpc_text client_call peer_call answer
  handle_rpc_text-unknown req word rest n first h =
      let peers_h = h.1.1.1.1.1 in
      let none_of_theirs : client_call word rest ≡ none =
        rw (h.0, h.1.0, h.1.1.0, h.1.1.1.0, h.1.1.1.1.0) refl in
      let rejects : peer_call req ≡ malformed =
        rw
          (
            parse_request_vote_rpc-other req (after_type-other _ req word rest first peers_h.0),
            parse_append_entries_rpc-other req (after_type-other _ req word rest first peers_h.1.0),
            parse_install_snapshot_rpc-other req
                (after_type-other _ req word rest first peers_h.1.1.0),
          )
          refl in
      ap (λ c. answer c n) (choose_call-peer req word rest first none_of_theirs ∙ rejects)
