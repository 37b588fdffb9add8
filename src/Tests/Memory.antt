-- ===== src/Tests/Memory.antt =====
-- A database in memory, as the list of the operations on it: the behaviour that the theorems ask of
-- LevelDB can be had.
use raft_kv_raft_leveldb.Common.{
  List, Text, [], arith, if◌then◌else◌, none, refl, some, sym, text_eq, text_eq_iff, true, ◌++◌,
  ◌∷◌, ◌≡◌,
}
use raft_kv_raft_leveldb.Platform.{
  BatchOp, DbLaws, GetStatus, NeverFails, Platform, after_batch, batch_delete, batch_put, found,
  not_found, status_value, value_in,
}

abbrev pub remove : Text → List (Text × Text) → List (Text × Text)
remove k [] = []
remove k ((j, v) ∷ m) = let rest = remove k m in if text_eq k j then rest else (j, v) ∷ rest

-- What is stored after the operations.
abbrev pub contents : List BatchOp → List (Text × Text) → List (Text × Text)
contents [] m = m
contents (batch_put k v ∷ ops) m = contents ops (m ++ (k, v) ∷ [])
contents (batch_delete k ∷ ops) m = contents ops (remove k m)

value_in-snoc :
    (m : List (Text × Text)) (k v j : Text)
    → value_in j (m ++ (k, v) ∷ []) ≡ (if text_eq k j then some v else value_in j m)
unfolding value_in
value_in-snoc [] k v j = refl
value_in-snoc ((i, w) ∷ m) k v j = ground (arith, value_in-snoc m k v j)

value_in-remove :
    (m : List (Text × Text)) (k j : Text)
    → value_in j (remove k m) ≡ (if text_eq k j then none else value_in j m)
unfolding value_in
value_in-remove [] k j = ground arith
value_in-remove ((i, w) ∷ m) k j =
    ground (arith, value_in-remove m k j, text_eq_iff k j, text_eq_iff i j, text_eq_iff k i)

value_in-contents :
    (ops : List BatchOp) (m : List (Text × Text)) (g : GetStatus) (j : Text)
    → value_in j m ≡ status_value g
    → value_in j (contents ops m) ≡ status_value (after_batch j ops g)
value_in-contents [] m g j h = h
value_in-contents (batch_put k v ∷ ops) m g j h =
    value_in-contents ops (m ++ (k, v) ∷ []) (if text_eq k j then found v else g) j
      (ground (arith, value_in-snoc m k v j, h))
value_in-contents (batch_delete k ∷ ops) m g j h =
    value_in-contents ops (remove k m) (if text_eq k j then not_found else g) j
      (ground (arith, value_in-remove m k j, h))

after_batch-snoc :
    (ops more : List BatchOp) (j : Text) (g : GetStatus)
    → after_batch j (ops ++ more) g ≡ after_batch j more (after_batch j ops g)
after_batch-snoc [] more j g = refl
after_batch-snoc (batch_put k v ∷ ops) more j g = after_batch-snoc ops more j _
after_batch-snoc (batch_delete k ∷ ops) more j g = after_batch-snoc ops more j _

-- Every call succeeds, and the state file can always be opened.
abbrev pub memory : Platform
memory = record {
  Db = List BatchOp;
  put = λ d k v. (d ++ batch_put k v ∷ [], true);
  delete = λ d k. (d ++ batch_delete k ∷ [], true);
  get = λ d k. after_batch k d not_found;
  write = λ d ops. (d ++ ops, true);
  entries = λ d. contents d [];
  now = λ k. k;
  rand = λ k. k;
  can_open = λ k. true;
}

pub memory-DbLaws : DbLaws memory
memory-DbLaws = record {
  get-put = λ d k v j _. after_batch-snoc d (batch_put k v ∷ []) j not_found;
  get-delete = λ d k j _. after_batch-snoc d (batch_delete k ∷ []) j not_found;
  get-write = λ d ops j _. after_batch-snoc d ops j not_found;
  value_in-entries = λ d j. sym (value_in-contents d [] not_found j (unfold value_in in refl));
}

pub memory-NeverFails : NeverFails memory
memory-NeverFails = record {
  put_ok = λ d k v. refl;
  delete_ok = λ d k. refl;
  write_ok = λ d ops. refl;
}
