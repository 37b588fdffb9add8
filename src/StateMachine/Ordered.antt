-- ===== src/StateMachine/Ordered.antt =====
-- Filling a std::map with the pairs of a map, as src/stateMachine/kv_store.cpp and the parsing of
-- snapshots do, gives that map.
use raft_kv_raft_leveldb.StateMachine.{collect, map_set}
use raft_kv_raft_leveldb.StateMachine.Transfer.{IsMap}
use raft_kv_raft_leveldb.Common.{
  List, Text, [], ap, append-nil, append_assoc, arith, false, refl, sym, text_eq, text_eq_iff,
  text_lt, text_lt_irrefl, text_lt_trans, true, ◌++◌, ◌∙◌, ◌∷◌, ◌≡◌,
}

-- A key is below every later one.
key_lt :
    (j w k v : Text) (acc m : List (Text × Text))
    → IsMap ((j, w) ∷ acc ++ (k, v) ∷ m)
    → text_lt j k ≡ true
key_lt j w k v [] m s = s.0
key_lt j w k v ((i, u) ∷ acc) m s = text_lt_trans j i k s.0 (key_lt i u k v acc m s.1)

-- A pair whose key is above all others goes to the end.
map_set-last :
    (k v : Text) (acc m : List (Text × Text))
    → IsMap (acc ++ (k, v) ∷ m)
    → map_set k v acc ≡ acc ++ (k, v) ∷ []
unfolding map_set
map_set-last k v [] m s = refl
map_set-last k v ((j, w) ∷ acc) m s =
    let below = key_lt j w k v acc m s in
    let other : text_eq j k ≡ false = ground (arith, below, text_eq_iff j k, text_lt_irrefl k) in
    let behind : text_lt k j ≡ false =
      ground (arith, below, text_lt_trans j k j, text_lt_irrefl j) in
    rw (other, behind, map_set-last k v acc m s.1) refl

collect-append : (m acc : List (Text × Text)) → IsMap (acc ++ m) → collect m acc ≡ acc ++ m
unfolding collect
collect-append [] acc s = sym (append-nil acc)
collect-append ((k, v) ∷ m) acc s =
    let e = append_assoc acc ((k, v) ∷ []) m in
    ap (collect m) (map_set-last k v acc m s) ∙ collect-append m (acc ++ (k, v) ∷ []) (rw e s) ∙ e

pub collect-IsMap_self : (m : List (Text × Text)) → IsMap m → collect m [] ≡ m
collect-IsMap_self m s = collect-append m [] s
