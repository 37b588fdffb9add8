-- ===== src/Platform.antt =====
-- What the sources call and do not implement: LevelDB (src/stateMachine/kv_store.cpp), the monotonic
-- clock and `std::rand` (src/raftCore/raft_node.cpp), and whether the state file can be opened
-- (src/persistence/storage.cpp). `DbLaws` is the documented behaviour of LevelDB that theorems name.
use raft_kv_raft_leveldb.Common.{
  Bool, List, Option, Text, [], if◌then◌else◌, none, some, text_eq, true, ℕ, ◌∷◌, ◌≡◌,
}

-- The outcome of leveldb::DB::Get: a value, IsNotFound, or another status.
pub data GetStatus : Type 0 where
  found : Text → GetStatus
  not_found : GetStatus
  failed : GetStatus

-- One entry of a leveldb::WriteBatch.
pub data BatchOp : Type 0 where
  batch_put : Text → Text → BatchOp
  batch_delete : Text → BatchOp

-- The calls of LevelDB return the database after the call and `status.ok()`. `entries` is what an
-- iterator from SeekToFirst meets. The clock, the random numbers and the outcome of opening the
-- state file are streams: the k-th reading, the k-th draw, the k-th attempt.
pub record Platform : Type 1 where
  pub Db : Type 0
  pub put : Db → Text → Text → Db × Bool
  pub delete : Db → Text → Db × Bool
  pub get : Db → Text → GetStatus
  pub write : Db → List BatchOp → Db × Bool
  pub entries : Db → List (Text × Text)
  pub now : ℕ → ℕ
  pub rand : ℕ → ℕ
  pub can_open : ℕ → Bool

-- The value of a key after a batch, by the value before it.
abbrev pub after_batch : Text → List BatchOp → GetStatus → GetStatus
after_batch k [] g = g
after_batch k (batch_put j v ∷ ops) g = after_batch k ops (if text_eq j k then found v else g)
after_batch k (batch_delete j ∷ ops) g = after_batch k ops (if text_eq j k then not_found else g)

-- The value that the last entry of a key gives it.
unfoldable pub value_in : Text → List (Text × Text) → Option Text
value_in k [] = none
value_in k ((j, v) ∷ m) = elim (value_in k m) [
  | some w ↦ some w
  | none ↦ if text_eq j k then some v else none
]

abbrev pub status_value : GetStatus → Option Text
status_value (found v) = some v
status_value not_found = none
status_value failed = none

-- A write whose status is ok has had its effect, and an iteration meets what can be read.
pub record DbLaws (P : Platform) : Type 0 where
  pub get-put :
      (d : P.Db) (k v : Text) (j : Text)
      → (P.put d k v).1 ≡ true
      → P.get (P.put d k v).0 j ≡ (if text_eq k j then found v else P.get d j)
  pub get-delete :
      (d : P.Db) (k : Text) (j : Text)
      → (P.delete d k).1 ≡ true
      → P.get (P.delete d k).0 j ≡ (if text_eq k j then not_found else P.get d j)
  pub get-write :
      (d : P.Db) (ops : List BatchOp) (j : Text)
      → (P.write d ops).1 ≡ true
      → P.get (P.write d ops).0 j ≡ after_batch j ops (P.get d j)
  pub value_in-entries : (d : P.Db) (j : Text) → status_value (P.get d j) ≡ value_in j (P.entries d)

-- The database answers every write with status ok.
pub record NeverFails (P : Platform) : Type 0 where
  pub put_ok : (d : P.Db) (k v : Text) → (P.put d k v).1 ≡ true
  pub delete_ok : (d : P.Db) (k : Text) → (P.delete d k).1 ≡ true
  pub write_ok : (d : P.Db) (ops : List BatchOp) → (P.write d ops).1 ≡ true
