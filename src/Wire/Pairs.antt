-- ===== src/Wire/Pairs.antt =====
-- The text of an InstallSnapshot request in src/raftCore/raft_node.cpp.
use raft_kv_raft_leveldb.Wire.{Parsed, after_type, checked, parsed}
use raft_kv_raft_leveldb.Common.{
  All, List, Option, Text, [], ap, append_assoc, arith, codes, length, refl, some, suc, zero, ℕ,
  ◌++◌, ◌<◌, ◌^◌, ◌∙◌, ◌∷◌, ◌≡◌,
}
use raft_kv_raft_leveldb.Types.{InstallSnapshotArgs}
use raft_kv_raft_leveldb.Format.{newline, show_nat, space}
use raft_kv_raft_leveldb.StateMachine.{collect, map_set}
use raft_kv_raft_leveldb.Input.{get_int, get_size, get_word, pos, to_nat, ◌>>=◌}
use raft_kv_raft_leveldb.StateMachine.Transfer.{IsMap}
use raft_kv_raft_leveldb.StateMachine.Ordered.{collect-IsMap_self}
use raft_kv_raft_leveldb.Input.Words.{IsWord, get_int-space, get_size-space, get_word-space}
use raft_kv_raft_leveldb.Wire.Requests.{after_type-found}

-- The lines of a snapshot.
unfoldable pub show_pairs : List (Text × Text) → Text
show_pairs [] = []
show_pairs ((key, value) ∷ m) = key ++ space ++ value ++ newline ++ show_pairs m

-- buildInstallSnapshotRpc
unfoldable pub build_install_snapshot_rpc : InstallSnapshotArgs → Text
build_install_snapshot_rpc args =
    codes "IS "
    ++ show_nat args.term
    ++ space
    ++ show_nat args.leader_id
    ++ space
    ++ show_nat args.last_included_index
    ++ space
    ++ show_nat args.last_included_term
    ++ space
    ++ show_nat (length args.kv_data)
    ++ newline
    ++ show_pairs args.kv_data

-- The loop of parseInstallSnapshotRpc.
unfoldable pub get_pairs : ℕ → Text → List (Text × Text) → Option (List (Text × Text))
get_pairs zero text data_map = some data_map
get_pairs (suc count) text data_map = do
  (key, t₁) ← get_word text
  (value, t₂) ← get_word t₁
  get_pairs count t₂ (map_set key value data_map)

-- The reads of parseInstallSnapshotRpc behind the type.
unfoldable pub get_snapshot_args : Text → Option (Option InstallSnapshotArgs)
get_snapshot_args text = do
  (term, t₁) ← get_int text
  (leader_id, t₂) ← get_int t₁
  (last_included_index, t₃) ← get_int t₂
  (last_included_term, t₄) ← get_int t₃
  (count, t₅) ← get_size t₄
  kv_data ← get_pairs count t₅ []
  some (do
    a ← to_nat term
    b ← to_nat leader_id
    c ← to_nat last_included_index
    d ← to_nat last_included_term
    some (record {
      term = a;
      leader_id = b;
      last_included_index = c;
      last_included_term = d;
      kv_data = kv_data;
    }))

-- parseInstallSnapshotRpc
unfoldable pub parse_install_snapshot_rpc : Text → Parsed InstallSnapshotArgs
parse_install_snapshot_rpc req = checked (after_type (codes "IS") req >>= get_snapshot_args)

-- A request whose numbers an `int` can hold, with the pairs of a map whose keys and values are words.
pub record IsWireSnapshot (args : InstallSnapshotArgs) : Type 0 where
  pub term : args.term < 2 ^ 31
  pub leader_id : args.leader_id < 2 ^ 31
  pub last_included_index : args.last_included_index < 2 ^ 31
  pub last_included_term : args.last_included_term < 2 ^ 31
  pub words : All (λ p. IsWord p.0 × IsWord p.1) args.kv_data
  pub ordered : IsMap args.kv_data
  pub size : length args.kv_data < 2 ^ 64

show_pairs-next :
    (k v : Text) (m : List (Text × Text))
    → show_pairs ((k, v) ∷ m) ≡ k ++ 32 ∷ (v ++ 10 ∷ show_pairs m)
unfolding show_pairs
show_pairs-next k v m = simp append_assoc

get_pairs-next :
    (count : ℕ) (t t₁ t₂ k v : Text) (acc : List (Text × Text))
    → get_word t ≡ some (k, t₁)
    → get_word t₁ ≡ some (v, t₂)
    → get_pairs (suc count) t acc ≡ get_pairs count t₂ (map_set k v acc)
unfolding get_pairs
get_pairs-next count t t₁ t₂ k v acc a b = rw (a, b, get_pairs) refl

get_pairs-show_pairs :
    (m acc : List (Text × Text))
    → All (λ p. IsWord p.0 × IsWord p.1) m
    → get_pairs (length m) (10 ∷ show_pairs m) acc ≡ some (collect m acc)
unfolding collect
get_pairs-show_pairs [] acc h = unfold get_pairs in refl
get_pairs-show_pairs ((k, v) ∷ m) acc h =
    let t₂ = 10 ∷ show_pairs m in
    ap (λ t. get_pairs (suc (length m)) (10 ∷ t) acc) (show_pairs-next k v m)
    ∙ get_pairs-next (length m) _ (32 ∷ (v ++ t₂)) t₂ k v acc
        (get_word-space 10 refl k (32 ∷ (v ++ t₂)) h.0.0 refl)
        (get_word-space 32 refl v t₂ h.0.1 refl)
    ∙ get_pairs-show_pairs m (map_set k v acc) h.1

build_install_snapshot_rpc-spread :
    (args : InstallSnapshotArgs)
    → build_install_snapshot_rpc args
      ≡ codes "IS"
        ++ 32
          ∷ (show_nat args.term
              ++ 32
                ∷ (show_nat args.leader_id
                    ++ 32
                      ∷ (show_nat args.last_included_index
                          ++ 32
                            ∷ (show_nat args.last_included_term
                                ++ 32
                                  ∷ (show_nat (length args.kv_data)
                                      ++ 10 ∷ show_pairs args.kv_data)))))
unfolding build_install_snapshot_rpc
build_install_snapshot_rpc-spread args = simp append_assoc

get_snapshot_args-next :
    (t t₁ t₂ t₃ t₄ t₅ : Text) (args : InstallSnapshotArgs)
    → get_int t ≡ some (pos args.term, t₁)
    → get_int t₁ ≡ some (pos args.leader_id, t₂)
    → get_int t₂ ≡ some (pos args.last_included_index, t₃)
    → get_int t₃ ≡ some (pos args.last_included_term, t₄)
    → get_size t₄ ≡ some (length args.kv_data, t₅)
    → get_pairs (length args.kv_data) t₅ [] ≡ some args.kv_data
    → get_snapshot_args t ≡ some (some args)
unfolding get_snapshot_args to_nat
get_snapshot_args-next t t₁ t₂ t₃ t₄ t₅ args a b c d e f = rw (a, b, c, d, e, f) refl

-- An InstallSnapshot request is read back as it was written, if an `int` can hold its numbers, and its
-- data are a map whose keys and values are words.
pub parse_install_snapshot_rpc-build :
    (args : InstallSnapshotArgs)
    → IsWireSnapshot args
    → parse_install_snapshot_rpc (build_install_snapshot_rpc args) ≡ parsed args
unfolding parse_install_snapshot_rpc
parse_install_snapshot_rpc-build args h =
    let t₅ = 10 ∷ show_pairs args.kv_data in
    let t₄ = 32 ∷ (show_nat (length args.kv_data) ++ t₅) in
    let t₃ = 32 ∷ (show_nat args.last_included_term ++ t₄) in
    let t₂ = 32 ∷ (show_nat args.last_included_index ++ t₃) in
    let t₁ = 32 ∷ (show_nat args.leader_id ++ t₂) in
    let t = 32 ∷ (show_nat args.term ++ t₁) in
    let read =
      get_snapshot_args-next t t₁ t₂ t₃ t₄ t₅ args (get_int-space 32 refl args.term t₁ h.term refl)
        (get_int-space 32 refl args.leader_id t₂ h.leader_id refl)
        (get_int-space 32 refl args.last_included_index t₃ h.last_included_index refl)
        (get_int-space 32 refl args.last_included_term t₄ h.last_included_term refl)
        (get_size-space 32 refl (length args.kv_data) t₅ h.size refl)
        (get_pairs-show_pairs args.kv_data [] h.words
          ∙ ap some (collect-IsMap_self args.kv_data h.ordered)) in
    rw
      (
        build_install_snapshot_rpc-spread args,
        after_type-found (codes "IS") t (omega arith, (refl, (refl, tt))) refl,
        read,
      )
      refl
