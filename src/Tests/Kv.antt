-- ===== src/Tests/Kv.antt =====
-- The key-value store at concrete inputs.
use raft_kv_raft_leveldb.StateMachine.{KvStore, apply, dump, get_value, load_from_snapshot}
use raft_kv_raft_leveldb.StateMachine.Effect.{effect, effects, effects_again, get_value-apply}
use raft_kv_raft_leveldb.StateMachine.Transfer.{load_from_snapshot-dump}
use raft_kv_raft_leveldb.Platform.{batch_put}
use raft_kv_raft_leveldb.Common.{[], codes, none, refl, some, ◌++◌, ◌∷◌, ◌≡◌}
use raft_kv_raft_leveldb.Tests.Memory.{memory, memory-DbLaws, memory-NeverFails}
use raft_kv_raft_leveldb.Tests.Nodes.{first_entry, third_entry}

abbrev store : KvStore memory
store = record {
  db = some (batch_put (codes "a") (codes "x") ∷ batch_put (codes "b") (codes "y") ∷ []);
}

abbrev stale : KvStore memory
stale = record { db = some (batch_put (codes "c") (codes "z") ∷ []) }

get_value-apply_example :
    get_value memory (apply memory store third_entry) (codes "a")
    ≡ effect third_entry (codes "a") (get_value memory store (codes "a"))
get_value-apply_example =
    get_value-apply memory memory-DbLaws memory-NeverFails store
      (batch_put (codes "a") (codes "x") ∷ batch_put (codes "b") (codes "y") ∷ []) third_entry
      (codes "a") refl

effects_again_example :
    effects
      (third_entry ∷ [])
      (codes "a")
      (effects ((first_entry ∷ []) ++ third_entry ∷ []) (codes "a") none)
    ≡ effects ((first_entry ∷ []) ++ third_entry ∷ []) (codes "a") none
effects_again_example = effects_again (first_entry ∷ []) (third_entry ∷ []) (codes "a") none

load_from_snapshot-dump_example :
    get_value memory (load_from_snapshot memory stale (dump memory store)) (codes "c")
    ≡ get_value memory store (codes "c")
load_from_snapshot-dump_example =
    load_from_snapshot-dump memory memory-DbLaws memory-NeverFails store stale
      (batch_put (codes "a") (codes "x") ∷ batch_put (codes "b") (codes "y") ∷ [])
      (batch_put (codes "c") (codes "z") ∷ []) (codes "c") refl refl
