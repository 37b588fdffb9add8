-- ===== src/Wire/Replies.antt =====
-- The texts of replies in src/raftCore/raft_node.cpp.
use raft_kv_raft_leveldb.Input.{get_int, negsuc, pos, to_nat, ℤ, ◌>>=◌}
use raft_kv_raft_leveldb.Wire.{Parsed, after_type, checked, parsed}
use raft_kv_raft_leveldb.Common.{
  Bool, Option, Text, [], ap, append-nil, append_assoc, arith, codes, false, if◌then◌else◌, refl,
  some, true, ℕ, ◌++◌, ◌<◌, ◌==◌, ◌^◌, ◌∙◌, ◌∷◌, ◌≡◌,
}
use raft_kv_raft_leveldb.Types.{AppendEntriesReply, InstallSnapshotReply, RequestVoteReply}
use raft_kv_raft_leveldb.Format.{show_nat, space}
use raft_kv_raft_leveldb.Input.Words.{get_int-space}
use raft_kv_raft_leveldb.Wire.Requests.{after_type-found}

-- `oss << (b ? 1 : 0)`
unfoldable pub show_bool : Bool → Text
show_bool b = show_nat (if b then 1 else 0)

-- buildRequestVoteReply
unfoldable pub build_request_vote_reply : RequestVoteReply → Text
build_request_vote_reply reply =
    codes "RVR " ++ show_nat reply.term ++ space ++ show_bool reply.vote_granted

-- buildAppendEntriesReply
unfoldable pub build_append_entries_reply : AppendEntriesReply → Text
build_append_entries_reply reply =
    codes "AER " ++ show_nat reply.term ++ space ++ show_bool reply.success

-- buildInstallSnapshotReply
unfoldable pub build_install_snapshot_reply : InstallSnapshotReply → Text
build_install_snapshot_reply reply = codes "ISR " ++ show_nat reply.term

-- `i == 1`
is_one : ℤ → Bool
is_one (pos n) = n == 1
is_one (negsuc n) = false

-- A term and a flag. The source tests the type after the reads, which comes to the same.
unfoldable pub get_term_flag : Text → Option (Option (ℕ × Bool))
unfolding is_one
get_term_flag text = do
  (term, t₁) ← get_int text
  (flag, t₂) ← get_int t₁
  some (do n ← to_nat term; some (n, is_one flag))

-- parseRequestVoteReply
unfoldable pub parse_request_vote_reply : Text → Parsed RequestVoteReply
parse_request_vote_reply resp = checked (do
  rest ← after_type (codes "RVR") resp
  numbers ← get_term_flag rest
  some (do (term, granted) ← numbers; some (record { term = term; vote_granted = granted })))

-- parseAppendEntriesReply
unfoldable pub parse_append_entries_reply : Text → Parsed AppendEntriesReply
parse_append_entries_reply resp = checked (do
  rest ← after_type (codes "AER") resp
  numbers ← get_term_flag rest
  some (do (term, success) ← numbers; some (record { term = term; success = success })))

-- parseInstallSnapshotReply
unfoldable pub parse_install_snapshot_reply : Text → Parsed InstallSnapshotReply
parse_install_snapshot_reply resp = checked (do
  rest ← after_type (codes "ISR") resp
  (term, t₁) ← get_int rest
  some (do n ← to_nat term; some (record { term = n })))

get_term_flag-next :
    (t t₁ t₂ : Text) (n m : ℕ)
    → get_int t ≡ some (pos n, t₁)
    → get_int t₁ ≡ some (pos m, t₂)
    → get_term_flag t ≡ some (some (n, m == 1))
unfolding get_term_flag to_nat
get_term_flag-next t t₁ t₂ n m a b = rw (a, b) refl

one_is_true : (b : Bool) → ((if b then 1 else 0) == 1) ≡ b
one_is_true true = refl
one_is_true false = refl

-- A term and a flag behind the type of a reply.
get_term_flag-build :
    (n : ℕ) (b : Bool)
    → n < 2 ^ 31
    → get_term_flag (32 ∷ (show_nat n ++ 32 ∷ (show_bool b ++ []))) ≡ some (some (n, b))
unfolding show_bool
get_term_flag-build n b small =
    get_term_flag-next _ (32 ∷ (show_nat (if b then 1 else 0) ++ [])) [] n (if b then 1 else 0)
      (get_int-space 32 refl n (32 ∷ (show_nat (if b then 1 else 0) ++ [])) small refl)
      (get_int-space 32 refl (if b then 1 else 0) [] (ground arith) tt)
    ∙ ap (λ f. some (some (n, f))) (one_is_true b)

-- A reply to RequestVote whose term an `int` can hold is read back as it was written.
pub parse_request_vote_reply-build :
    (reply : RequestVoteReply)
    → reply.term < 2 ^ 31
    → parse_request_vote_reply (build_request_vote_reply reply) ≡ parsed reply
unfolding parse_request_vote_reply
parse_request_vote_reply-build reply small =
    let t = 32 ∷ (show_nat reply.term ++ 32 ∷ (show_bool reply.vote_granted ++ [])) in
    let text : build_request_vote_reply reply ≡ codes "RVR" ++ t =
      unfold build_request_vote_reply in simp (append_assoc, append-nil) in
    rw
      (
        text,
        after_type-found (codes "RVR") t (omega arith, (refl, (refl, (refl, tt)))) refl,
        get_term_flag-build reply.term reply.vote_granted small,
      )
      refl

-- A reply to AppendEntries whose term an `int` can hold is read back as it was written.
pub parse_append_entries_reply-build :
    (reply : AppendEntriesReply)
    → reply.term < 2 ^ 31
    → parse_append_entries_reply (build_append_entries_reply reply) ≡ parsed reply
unfolding parse_append_entries_reply
parse_append_entries_reply-build reply small =
    let t = 32 ∷ (show_nat reply.term ++ 32 ∷ (show_bool reply.success ++ [])) in
    let text : build_append_entries_reply reply ≡ codes "AER" ++ t =
      unfold build_append_entries_reply in simp (append_assoc, append-nil) in
    rw
      (
        text,
        after_type-found (codes "AER") t (omega arith, (refl, (refl, (refl, tt)))) refl,
        get_term_flag-build reply.term reply.success small,
      )
      refl

-- A reply to InstallSnapshot whose term an `int` can hold is read back as it was written.
pub parse_install_snapshot_reply-build :
    (reply : InstallSnapshotReply)
    → reply.term < 2 ^ 31
    → parse_install_snapshot_reply (build_install_snapshot_reply reply) ≡ parsed reply
unfolding parse_install_snapshot_reply to_nat
parse_install_snapshot_reply-build reply small =
    let t = 32 ∷ (show_nat reply.term ++ []) in
    let text : build_install_snapshot_reply reply ≡ codes "ISR" ++ t =
      unfold build_install_snapshot_reply in simp append-nil in
    rw
      (
        text,
        after_type-found (codes "ISR") t (omega arith, (refl, (refl, (refl, tt)))) refl,
        get_int-space 32 refl reply.term [] small tt,
      )
      refl
