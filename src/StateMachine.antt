-- ===== src/StateMachine.antt =====
-- src/stateMachine/kv_store.cpp: the key-value state machine over LevelDB.
pub mod Effect
pub mod Transfer
pub mod Ordered
use raft_kv_raft_leveldb.Common.{
  List, Option, Text, [], if◌then◌else◌, none, some, text_eq, text_lt, ◌++◌, ◌∷◌,
}
use raft_kv_raft_leveldb.Types.{LogEntry, del, put}
use raft_kv_raft_leveldb.Platform.{
  BatchOp, Platform, batch_delete, batch_put, failed, found, not_found,
}

-- `db` is `none` where `db_` is nullptr.
pub record KvStore (P : Platform) : Type 0 where
  pub db : Option P.Db

-- `data[k] = v` on a std::map, whose keys are in order.
unfoldable pub map_set : Text → Text → List (Text × Text) → List (Text × Text)
map_set k v [] = (k, v) ∷ []
map_set k v ((j, w) ∷ m) =
    let rest = map_set k v m in
    if text_eq j k then (k, v) ∷ m else if text_lt k j then (k, v) ∷ (j, w) ∷ m else (j, w) ∷ rest

-- The loop of `dump` over what the iterator meets.
unfoldable pub collect : List (Text × Text) → List (Text × Text) → List (Text × Text)
unfolding map_set
collect [] data_map = data_map
collect ((k, v) ∷ rest) data_map = collect rest (map_set k v data_map)

-- The two loops of `loadFromSnapshot` that fill the batch.
unfoldable pub deletes : List (Text × Text) → List BatchOp
deletes [] = []
deletes ((k, v) ∷ m) = batch_delete k ∷ deletes m

unfoldable pub puts : List (Text × Text) → List BatchOp
puts [] = []
puts ((k, v) ∷ m) = batch_put k v ∷ puts m

module _ (P : Platform) where
  -- KVStore::apply on an open database
  unfoldable pub apply_db : P.Db → LogEntry → P.Db
  apply_db d e = elim e.op [ put ↦ (P.put d e.key e.value).0 | del ↦ (P.delete d e.key).0 | _ ↦ d ]

  -- KVStore::apply. A status that is not ok is logged and otherwise ignored.
  unfoldable pub apply : KvStore P → LogEntry → KvStore P
  unfolding apply_db
  apply s e = elim s.db [ none ↦ s | some d ↦ record { db = some (apply_db d e) } ]

  -- KVStore::get: the value, where the call returns true.
  unfoldable pub get_value : KvStore P → Text → Option Text
  get_value s k = elim s.db [
    | none ↦ none
    | some d ↦ elim (P.get d k) [ found v ↦ some v | not_found ↦ none | failed ↦ none ]
  ]

  -- KVStore::dump
  unfoldable pub dump : KvStore P → List (Text × Text)
  unfolding collect
  dump s = elim s.db [ none ↦ [] | some d ↦ collect (P.entries d) [] ]

  -- KVStore::loadFromSnapshot
  unfoldable pub load_from_snapshot : KvStore P → List (Text × Text) → KvStore P
  unfolding dump deletes puts
  load_from_snapshot s kv_data = elim s.db [
    | none ↦ s
    | some d ↦ record { db = some (P.write d (deletes (dump s) ++ puts kv_data)).0 }
  ]
