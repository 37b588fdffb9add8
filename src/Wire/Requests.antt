-- ===== src/Wire/Requests.antt =====
-- The requests of src/raftCore/raft_node.cpp are read back as they were written.
use raft_kv_raft_leveldb.Input.{get_int, get_size, pos, to_nat, ◌>>=◌}
use raft_kv_raft_leveldb.Input.Words.{
  IsSmall, IsWord, get_int-space, get_int_option-space, get_size-space, get_word-IsWord, option_int,
  to_option-option_int,
}
use raft_kv_raft_leveldb.Input.Numbers.{Stops}
use raft_kv_raft_leveldb.Types.{AppendEntriesArgs, RequestVoteArgs}
use raft_kv_raft_leveldb.Format.{show_entries, show_nat, show_option}
use raft_kv_raft_leveldb.Wire.{
  AppendHead, after_type, build_append_entries_rpc, build_request_vote_rpc, get_append_head,
  get_vote_args, make_append_args, parse_append_entries_rpc, parse_request_vote_rpc, parsed,
  read_entries,
}
use raft_kv_raft_leveldb.Wire.Entries.{IsWireEntry, parse_entries-show_entries}
use raft_kv_raft_leveldb.Common.{
  All, Text, [], ap, append-nil, append_assoc, arith, codes, length, refl, some, text_eq_refl, ◌++◌,
  ◌<◌, ◌^◌, ◌∙◌, ◌∷◌, ◌≡◌,
}

-- Numbers that an `int` can hold.
pub record IsWireVote (args : RequestVoteArgs) : Type 0 where
  pub term : args.term < 2 ^ 31
  pub candidate_id : args.candidate_id < 2 ^ 31
  pub last_log_index : args.last_log_index < 2 ^ 31
  pub last_log_term : args.last_log_term < 2 ^ 31

build_request_vote_rpc-spread :
    (args : RequestVoteArgs)
    → build_request_vote_rpc args
      ≡ codes "RV"
        ++ 32
          ∷ (show_nat args.term
              ++ 32
                ∷ (show_nat args.candidate_id
                    ++ 32
                      ∷ (show_nat args.last_log_index ++ 32 ∷ (show_nat args.last_log_term ++ []))))
unfolding build_request_vote_rpc
build_request_vote_rpc-spread args = simp (append_assoc, append-nil)

-- The type in front of a text is recognized.
pub after_type-found :
    (type rest : Text) → IsWord type → Stops rest → after_type type (type ++ rest) ≡ some rest
unfolding after_type
after_type-found type rest h stops = rw (get_word-IsWord type rest h stops, text_eq_refl type) refl

get_vote_args-next :
    (t t₁ t₂ t₃ t₄ : Text) (args : RequestVoteArgs)
    → get_int t ≡ some (pos args.term, t₁)
    → get_int t₁ ≡ some (pos args.candidate_id, t₂)
    → get_int t₂ ≡ some (pos args.last_log_index, t₃)
    → get_int t₃ ≡ some (pos args.last_log_term, t₄)
    → get_vote_args t ≡ some (some args)
unfolding get_vote_args to_nat
get_vote_args-next t t₁ t₂ t₃ t₄ args a b c d = rw (a, b, c, d) refl

-- A RequestVote request whose numbers an `int` can hold is read back as it was written.
pub parse_request_vote_rpc-build :
    (args : RequestVoteArgs)
    → IsWireVote args
    → parse_request_vote_rpc (build_request_vote_rpc args) ≡ parsed args
unfolding parse_request_vote_rpc
parse_request_vote_rpc-build args h =
    let t₃ = 32 ∷ (show_nat args.last_log_term ++ []) in
    let t₂ = 32 ∷ (show_nat args.last_log_index ++ t₃) in
    let t₁ = 32 ∷ (show_nat args.candidate_id ++ t₂) in
    let t = 32 ∷ (show_nat args.term ++ t₁) in
    let read =
      get_vote_args-next t t₁ t₂ t₃ [] args (get_int-space 32 refl args.term t₁ h.term refl)
        (get_int-space 32 refl args.candidate_id t₂ h.candidate_id refl)
        (get_int-space 32 refl args.last_log_index t₃ h.last_log_index refl)
        (get_int-space 32 refl args.last_log_term [] h.last_log_term tt) in
    rw
      (
        build_request_vote_rpc-spread args,
        after_type-found (codes "RV") t (omega arith, (refl, (refl, tt))) refl,
        read,
      )
      refl

-- A request whose numbers an `int` can hold, with entries that their text can carry.
pub record IsWireAppend (args : AppendEntriesArgs) : Type 0 where
  pub term : args.term < 2 ^ 31
  pub leader_id : args.leader_id < 2 ^ 31
  pub prev_log_index : args.prev_log_index < 2 ^ 31
  pub prev_log_term : IsSmall args.prev_log_term
  pub leader_commit : args.leader_commit < 2 ^ 31
  pub entries : All IsWireEntry args.entries
  pub size : length args.entries < 2 ^ 64

build_append_entries_rpc-spread :
    (args : AppendEntriesArgs)
    → build_append_entries_rpc args
      ≡ codes "AE"
        ++ 32
          ∷ (show_nat args.term
              ++ 32
                ∷ (show_nat args.leader_id
                    ++ 32
                      ∷ (show_nat args.prev_log_index
                          ++ 32
                            ∷ (show_option args.prev_log_term
                                ++ 32
                                  ∷ (show_nat args.leader_commit
                                      ++ 32
                                        ∷ (show_nat (length args.entries)
                                            ++ 10 ∷ show_entries args.entries))))))
unfolding build_append_entries_rpc
build_append_entries_rpc-spread args = simp append_assoc

abbrev append_head : AppendEntriesArgs → AppendHead
append_head args = record {
  term = pos args.term;
  leader_id = pos args.leader_id;
  prev_log_index = pos args.prev_log_index;
  prev_log_term = option_int args.prev_log_term;
  leader_commit = pos args.leader_commit;
  count = length args.entries;
}

get_append_head-next :
    (t t₁ t₂ t₃ t₄ t₅ t₆ : Text) (args : AppendEntriesArgs)
    → get_int t ≡ some (pos args.term, t₁)
    → get_int t₁ ≡ some (pos args.leader_id, t₂)
    → get_int t₂ ≡ some (pos args.prev_log_index, t₃)
    → get_int t₃ ≡ some (option_int args.prev_log_term, t₄)
    → get_int t₄ ≡ some (pos args.leader_commit, t₅)
    → get_size t₅ ≡ some (length args.entries, t₆)
    → get_append_head t ≡ some (append_head args, t₆)
unfolding get_append_head
get_append_head-next t t₁ t₂ t₃ t₄ t₅ t₆ args a b c d e f = rw (a, b, c, d, e, f) refl

make_append_args-append_head :
    (args : AppendEntriesArgs) → make_append_args (append_head args) args.entries ≡ some args
unfolding make_append_args to_nat
make_append_args-append_head args = rw (to_option-option_int args.prev_log_term) refl

get_append_head-build :
    (args : AppendEntriesArgs)
    → IsWireAppend args
    → (after_type (codes "AE") (build_append_entries_rpc args) >>= get_append_head)
      ≡ some (append_head args, 10 ∷ show_entries args.entries)
get_append_head-build args h =
    let t₆ = 10 ∷ show_entries args.entries in
    let t₅ = 32 ∷ (show_nat (length args.entries) ++ t₆) in
    let t₄ = 32 ∷ (show_nat args.leader_commit ++ t₅) in
    let t₃ = 32 ∷ (show_option args.prev_log_term ++ t₄) in
    let t₂ = 32 ∷ (show_nat args.prev_log_index ++ t₃) in
    let t₁ = 32 ∷ (show_nat args.leader_id ++ t₂) in
    let t = 32 ∷ (show_nat args.term ++ t₁) in
    let read =
      get_append_head-next t t₁ t₂ t₃ t₄ t₅ t₆ args (get_int-space 32 refl args.term t₁ h.term refl)
        (get_int-space 32 refl args.leader_id t₂ h.leader_id refl)
        (get_int-space 32 refl args.prev_log_index t₃ h.prev_log_index refl)
        (get_int_option-space 32 refl args.prev_log_term t₄ h.prev_log_term refl)
        (get_int-space 32 refl args.leader_commit t₅ h.leader_commit refl)
        (get_size-space 32 refl (length args.entries) t₆ h.size refl) in
    rw
      (
        build_append_entries_rpc-spread args,
        after_type-found (codes "AE") t (omega arith, (refl, (refl, tt))) refl,
      )
      read

-- An AppendEntries request is read back as it was written, if an `int` can hold its numbers and the
-- keys, values and addresses in its entries are words.
pub parse_append_entries_rpc-build :
    (args : AppendEntriesArgs)
    → IsWireAppend args
    → parse_append_entries_rpc (build_append_entries_rpc args) ≡ parsed args
unfolding parse_append_entries_rpc read_entries
parse_append_entries_rpc-build args h =
    ap read_entries (get_append_head-build args h)
    ∙ rw (parse_entries-show_entries args.entries h.entries, make_append_args-append_head args) refl
