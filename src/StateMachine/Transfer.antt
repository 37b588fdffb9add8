-- ===== src/StateMachine/Transfer.antt =====
-- A snapshot of src/stateMachine/kv_store.cpp carried to another store: `dump` and then
-- `loadFromSnapshot`.
use mathlib.Core.Path.{subst}
use raft_kv_raft_leveldb.Common.{
  Bool-cases, List, Option, Text, [], ap, arith, if◌then◌else◌, inl, inr, none, refl, some, sym,
  text_eq, text_eq_sym, text_eq_iff, text_eq→eq, text_lt, text_lt_irrefl, text_lt_total,
  text_lt_trans, true, ◌++◌, ◌∙◌, ◌∷◌, ◌≡◌,
}
use raft_kv_raft_leveldb.Platform.{
  BatchOp, DbLaws, GetStatus, NeverFails, Platform, after_batch, batch_delete, batch_put, found,
  not_found, status_value, value_in,
}
use raft_kv_raft_leveldb.StateMachine.{
  KvStore, collect, deletes, dump, get_value, load_from_snapshot, map_set, puts,
}

-- The keys of a std::map rise strictly.
abbrev pub Before : Text → List (Text × Text) → Type 0
Before k [] = Unit {0}
Before k ((j, w) ∷ m) = text_lt k j ≡ true

abbrev pub IsMap : List (Text × Text) → Type 0
IsMap [] = Unit {0}
IsMap ((k, v) ∷ m) = Before k m × IsMap m

-- A key before the first is not in the map.
value_in-Before : (k : Text) (m : List (Text × Text)) → Before k m → IsMap m → value_in k m ≡ none
unfolding value_in
value_in-Before k [] b s = refl
value_in-Before k ((j, w) ∷ m) b s =
    let ih : value_in k m ≡ none = value_in-Before k m (further m s.0) s.1 in
    ground (arith, ih, text_eq_iff j k, text_lt_irrefl k, b)
  where
    further : (m' : List (Text × Text)) → Before j m' → Before k m'
    further [] c = tt
    further ((i, u) ∷ m') c = text_lt_trans k j i b c

Before-map_set :
    (i k v : Text) (m : List (Text × Text))
    → text_lt i k ≡ true
    → Before i m
    → Before i (map_set k v m)
unfolding map_set
Before-map_set i k v [] h b = h
Before-map_set i k v ((j, w) ∷ m) h b = ground (arith, h, b)

-- `data[k] = v` keeps the keys in order.
pub map_set-IsMap : (k v : Text) (m : List (Text × Text)) → IsMap m → IsMap (map_set k v m)
unfolding map_set
map_set-IsMap k v [] s = (tt, tt)
map_set-IsMap k v ((j, w) ∷ m) s = elim (Bool-cases (text_eq j k)) [
  | inl same ↦ rw same (subst (λ i. Before i m) (text_eq→eq j k same) s.0, s.1)
  | inr other ↦ elim (Bool-cases (text_lt k j)) [
    | inl before ↦ rw (other, before) (before, s)
    | inr behind ↦
        rw (other, behind)
          (
            Before-map_set j k v m (text_lt_total k j (rw text_eq_sym other) behind) s.0,
            map_set-IsMap k v m s.1,
          )
  ]
]

-- In a map with its keys in order, `data[k] = v` sets the value of that key and of no other.
pub value_in-map_set :
    (k v j : Text) (m : List (Text × Text))
    → IsMap m
    → value_in j (map_set k v m) ≡ (if text_eq k j then some v else value_in j m)
unfolding value_in map_set
value_in-map_set k v j [] s = refl
value_in-map_set k v j ((i, w) ∷ m) s = elim (Bool-cases (text_eq i k)) [
  | inl same ↦
      let e : i ≡ k = text_eq→eq i k same in
      let gone : value_in k m ≡ none = rw e at (value_in-Before i m s.0 s.1) in
      rw same (ground (arith, gone, text_eq_iff k j, e))
  | inr other ↦ elim (Bool-cases (text_lt k i)) [
    | inl before ↦
        let gone : value_in k ((i, w) ∷ m) ≡ none = value_in-Before k ((i, w) ∷ m) before s in
        rw (other, before) (ground (arith, gone, text_eq_iff k j))
    | inr behind ↦
        rw (other, behind)
          (ground (
            arith,
            value_in-map_set k v j m s.1,
            text_eq_iff k j,
            text_eq_iff i j,
            text_eq_iff i k,
          ))
  ]
]

-- What `dump` collects is a map, with the last value that the iterator meets.
collect-IsMap : (l acc : List (Text × Text)) → IsMap acc → IsMap (collect l acc)
unfolding collect
collect-IsMap [] acc s = s
collect-IsMap ((k, v) ∷ l) acc s = collect-IsMap l (map_set k v acc) (map_set-IsMap k v acc s)

abbrev or_else : Option Text → Option Text → Option Text
or_else (some w) o = some w
or_else none o = o

or_else_nothing : (o : Option Text) → or_else o none ≡ o
or_else_nothing none = refl
or_else_nothing (some w) = refl

value_in-collect :
    (l acc : List (Text × Text)) (j : Text)
    → IsMap acc
    → value_in j (collect l acc) ≡ or_else (value_in j l) (value_in j acc)
unfolding collect
value_in-collect [] acc j s = unfold value_in in refl
value_in-collect ((k, v) ∷ l) acc j s =
    value_in-collect l (map_set k v acc) j (map_set-IsMap k v acc s)
    ∙ step (value_in-map_set k v j acc s)
  where
    step :
        value_in j (map_set k v acc) ≡ (if text_eq k j then some v else value_in j acc)
        → or_else (value_in j l) (value_in j (map_set k v acc))
          ≡ or_else (value_in j ((k, v) ∷ l)) (value_in j acc)
    step e = unfold value_in in ground (arith, e)

after_batch-append :
    (xs ys : List BatchOp) (k : Text) (g : GetStatus)
    → after_batch k (xs ++ ys) g ≡ after_batch k ys (after_batch k xs g)
after_batch-append [] ys k g = refl
after_batch-append (batch_put j v ∷ xs) ys k g = after_batch-append xs ys k _
after_batch-append (batch_delete j ∷ xs) ys k g = after_batch-append xs ys k _

-- The deletions clear a key that is among the old data, and keep a key without a value so.
after_batch-deletes :
    (m : List (Text × Text)) (k : Text) (g : GetStatus)
    → (value_in k m ≡ none → status_value g ≡ none)
    → status_value (after_batch k (deletes m) g) ≡ none
unfolding deletes value_in
after_batch-deletes [] k g h = h refl
after_batch-deletes ((j, v) ∷ m) k g h =
    after_batch-deletes m k (if text_eq j k then not_found else g) (λ e. ground (arith, e, h))

after_batch-puts :
    (m : List (Text × Text)) (k : Text) (g : GetStatus)
    → status_value (after_batch k (puts m) g) ≡ or_else (value_in k m) (status_value g)
unfolding puts value_in
after_batch-puts [] k g = refl
after_batch-puts ((j, v) ∷ m) k g =
    ground (arith, after_batch-puts m k (if text_eq j k then found v else g))

-- Deleting the old entries and writing a map leaves the values of the map.
batch_replaces :
    (old new : List (Text × Text)) (k : Text) (g : GetStatus)
    → value_in k old ≡ status_value g
    → status_value (after_batch k (deletes old ++ puts new) g) ≡ value_in k new
batch_replaces old new k g h =
    let cleared = after_batch-deletes old k g (λ e. sym h ∙ e) in
    rw (after_batch-append (deletes old) (puts new) k g) (
      after_batch-puts new k (after_batch k (deletes old) g)
      ∙ rw cleared (or_else_nothing (value_in k new)))

module _ (P : Platform) (laws : DbLaws P) (fine : NeverFails P) where
  get_value-status :
      (s : KvStore P) (d : P.Db) (k : Text)
      → s.db ≡ some d
      → get_value P s k ≡ status_value (P.get d k)
  unfolding get_value
  get_value-status s d k opened = ground (arith, opened)

  -- `dump` reads every value that `get` does.
  value_in-dump :
      (s : KvStore P) (d : P.Db) (k : Text)
      → s.db ≡ some d
      → value_in k (dump P s) ≡ status_value (P.get d k)
  unfolding dump value_in
  value_in-dump s d k opened =
      rw (opened, dump)
        (value_in-collect (P.entries d) [] k tt
          ∙ or_else_nothing (value_in k (P.entries d))
          ∙ sym (laws.value_in-entries d k))

  get_value-loaded :
      (d : P.Db) (new : List (Text × Text)) (k : Text)
      → get_value P (load_from_snapshot P (record { db = some d }) new) k ≡ value_in k new
  unfolding load_from_snapshot
  get_value-loaded d new k =
      let old = dump P (record { db = some d }) in
      let ops = deletes old ++ puts new in
      get_value-status (record { db = some (P.write d ops).0 }) (P.write d ops).0 k refl
      ∙ ap status_value (laws.get-write d ops k (fine.write_ok d ops))
      ∙ batch_replaces old new k (P.get d k) (value_in-dump (record { db = some d }) d k refl)

  get_value-load_from_snapshot :
      (s : KvStore P) (d : P.Db) (new : List (Text × Text)) (k : Text)
      → s.db ≡ some d
      → get_value P (load_from_snapshot P s new) k ≡ value_in k new
  get_value-load_from_snapshot s d new k opened =
      let same : s ≡ record { db = some d } = λ i. record { db = opened i } in
      rw same (get_value-loaded d new k)

  -- With a database that obeys its documentation and never fails, an open store that loads the
  -- dump of another open store reads the same value as the other, or none, for every key.
  pub load_from_snapshot-dump :
      (s t : KvStore P) (d f : P.Db) (k : Text)
      → s.db ≡ some d
      → t.db ≡ some f
      → get_value P (load_from_snapshot P t (dump P s)) k ≡ get_value P s k
  load_from_snapshot-dump s t d f k opened opened' =
      get_value-load_from_snapshot t f (dump P s) k opened'
      ∙ value_in-dump s d k opened
      ∙ sym (get_value-status s d k opened)
