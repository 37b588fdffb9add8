-- ===== src/Log/Merge.antt =====
-- What the loop over the new entries in handleAppendEntries of src/raftCore/raft_node.cpp computes:
-- the log keeps the entries that agree in term and is cut at the first that does not.
use raft_kv_raft_leveldb.Common.{
  Bool, Bool-cases, List, [], append-nil, append_assoc, arith, false, get_elem?, get_elem?-append,
  if◌then◌else◌, inl, inr, leb, length, length-append, none, refl, suc, take-append, true, zero, ℕ,
  ◌++◌, ◌+◌, ◌-◌, ◌==◌, ◌||◌, ◌∷◌, ◌≡◌, ◌≤◌,
}
use raft_kv_raft_leveldb.Types.{LogEntry}
use raft_kv_raft_leveldb.Log.{append_entries, append_entry}
use raft_kv_raft_leveldb.Log.Contig.{Contig}

-- The rule of Raft for the entries after the matching one, without positions: agreeing entries are
-- kept, the rest of the local log too if the new entries run out, and the first conflict replaces
-- all that follows.
unfoldable pub merge : List LogEntry → List LogEntry → List LogEntry
merge local [] = local
merge [] (e ∷ es) = e ∷ es
merge (l ∷ ls) (e ∷ es) = let rest = merge ls es in if l.term == e.term then l ∷ rest else e ∷ es

-- Whether `merge` writes anything.
unfoldable pub merge_changes : List LogEntry → List LogEntry → Bool
merge_changes local [] = false
merge_changes [] (e ∷ es) = true
merge_changes (l ∷ ls) (e ∷ es) =
    let rest = merge_changes ls es in if l.term == e.term then rest else true

merge-nil : (es : List LogEntry) → merge [] es ≡ es
unfolding merge
merge-nil [] = refl
merge-nil (e ∷ es) = refl

-- A passed entry moves from the front of the rest to the end of the prefix.
append_snoc : (pre rest : List LogEntry) (l : LogEntry) → (pre ++ l ∷ []) ++ rest ≡ pre ++ l ∷ rest
append_snoc pre rest l = append_assoc pre (l ∷ []) rest

or_true : (b c : Bool) → (true || c) ≡ (b || true)
or_true true c = refl
or_true false c = refl

module _ (base : ℕ) where
  -- One round at the end of the log appends.
  append_entry_end :
      (pre : List LogEntry) (e : LogEntry) (b : Bool)
      → e.index ≡ suc (base + length pre)
      → append_entry base e (pre, b) ≡ (pre ++ e ∷ [], true)
  unfolding append_entry
  append_entry_end pre e b h =
      let below : leb e.index base ≡ false = ground arith in
      let pos : e.index - base - 1 ≡ length pre = omega arith in
      let found : get_elem? pre (length pre) ≡ none = rw append-nil at (get_elem?-append pre []) in
      rw (below, pos, found)

  -- One round inside the log keeps an entry of the same term, and cuts the log at any other.
  append_entry_inside :
      (pre ls : List LogEntry) (l e : LogEntry) (b : Bool)
      → e.index ≡ suc (base + length pre)
      → append_entry base e (pre ++ l ∷ ls, b)
        ≡ (if l.term == e.term then (pre ++ l ∷ ls, b) else (pre ++ e ∷ [], true))
  unfolding append_entry
  append_entry_inside pre ls l e b h =
      let below : leb e.index base ≡ false = ground arith in
      let pos : e.index - base - 1 ≡ length pre = omega arith in
      rw (below, pos, get_elem?-append pre (l ∷ ls), pos, take-append pre (l ∷ ls))

  -- The entry after a longer prefix.
  Contig-step :
      (pre : List LogEntry) (l : LogEntry) (es : List LogEntry)
      → Contig (suc (base + length pre)) es
      → Contig (base + length (pre ++ l ∷ [])) es
  Contig-step pre l es c =
      let e : base + length (pre ++ l ∷ []) ≡ suc (base + length pre) =
        omega (arith, length-append pre (l ∷ [])) in
      rw e c

  -- On the log `pre ++ local`, the loop over new entries that run on from the end of `pre` leaves
  -- `pre` and the merge of `local` with the new entries, and its flag is raised if the merge
  -- writes anything.
  pub append_entries-merge :
      (pre local new : List LogEntry) (b : Bool)
      → Contig (base + length pre) new
      → append_entries base new (pre ++ local, b)
        ≡ (pre ++ merge local new, b || merge_changes local new)
  unfolding append_entries merge merge_changes
  append_entries-merge pre local [] b c = ground arith
  append_entries-merge pre [] (e ∷ es) b c =
      let done : append_entry base e (pre ++ [], b) ≡ (pre ++ e ∷ [], true) =
        rw (append-nil pre) (append_entry_end pre e b c.0) in
      let ih : append_entries base es ((pre ++ e ∷ []) ++ [], true)
          ≡ ((pre ++ e ∷ []) ++ merge [] es, true || merge_changes [] es) =
        append_entries-merge (pre ++ e ∷ []) [] es true (Contig-step pre e es c.1) in
      rw done (
        cc (
          ih,
          append-nil (pre ++ e ∷ []),
          merge-nil es,
          append_snoc pre es e,
          or_true b (merge_changes [] es),
        ))
  append_entries-merge pre (l ∷ ls) (e ∷ es) b c = elim (Bool-cases (l.term == e.term)) [
    | inl same ↦
        let ih : append_entries base es ((pre ++ l ∷ []) ++ ls, b)
            ≡ ((pre ++ l ∷ []) ++ merge ls es, b || merge_changes ls es) =
          append_entries-merge (pre ++ l ∷ []) ls es b (Contig-step pre l es c.1) in
        rw (append_entry_inside pre ls l e b c.0, same)
          (cc (ih, append_snoc pre ls l, append_snoc pre (merge ls es) l))
    | inr conflict ↦
        let ih : append_entries base es ((pre ++ e ∷ []) ++ [], true)
            ≡ ((pre ++ e ∷ []) ++ merge [] es, true || merge_changes [] es) =
          append_entries-merge (pre ++ e ∷ []) [] es true (Contig-step pre e es c.1) in
        rw (append_entry_inside pre ls l e b c.0, conflict)
          (cc (
            ih,
            append-nil (pre ++ e ∷ []),
            merge-nil es,
            append_snoc pre es e,
            or_true b (merge_changes [] es),
          ))
  ]

-- Merging into a log that continues from the same place leaves no gap.
pub merge-Contig :
    (base : ℕ) (local new : List LogEntry)
    → Contig base local
    → Contig base new
    → Contig base (merge local new)
unfolding merge
merge-Contig base local [] cl cn = cl
merge-Contig base [] (e ∷ es) cl cn = cn
merge-Contig base (l ∷ ls) (e ∷ es) cl cn =
    ground (arith, cl, cn, merge-Contig (suc base) ls es cl.1 cn.1)

-- The first `k` new entries have the terms of the local entries in their places.
abbrev pub Agrees : ℕ → List LogEntry → List LogEntry → Type 0
Agrees zero local new = Unit {0}
Agrees (suc k) local [] = Unit {0}
Agrees (suc k) [] (e ∷ es) = Unit {0}
Agrees (suc k) (l ∷ ls) (e ∷ es) = (l.term ≡ e.term) × Agrees k ls es

-- What agrees is not cut off.
pub length-merge :
    (k : ℕ) (local new : List LogEntry)
    → Agrees k local new
    → k ≤ length local
    → k ≤ length (merge local new)
unfolding merge
length-merge zero local new a h = omega arith
length-merge (suc k) local [] a h = h
length-merge (suc k) [] (e ∷ es) a h = omega arith
length-merge (suc k) (l ∷ ls) (e ∷ es) a h = ground (arith, a.0, length-merge k ls es a.1)

-- Every new entry stands in its place, by its term.
abbrev pub Holds : List LogEntry → List LogEntry → Type 0
Holds log [] = Unit {0}
Holds [] (e ∷ es) = ⊥
Holds (l ∷ ls) (e ∷ es) = (l.term ≡ e.term) × Holds ls es

Holds-refl : (es : List LogEntry) → Holds es es
Holds-refl [] = tt
Holds-refl (e ∷ es) = (refl, Holds-refl es)

pub Holds-merge : (local new : List LogEntry) → Holds (merge local new) new
unfolding merge
Holds-merge local [] = tt
Holds-merge [] (e ∷ es) = Holds-refl (e ∷ es)
Holds-merge (l ∷ ls) (e ∷ es) = elim (Bool-cases (l.term == e.term)) [
  | inl same ↦ rw same (ground arith, Holds-merge ls es)
  | inr conflict ↦ rw conflict (Holds-refl (e ∷ es))
]

-- Unchanged means unchanged.
pub merge_changes-false :
    (local new : List LogEntry) → merge_changes local new ≡ false → merge local new ≡ local
unfolding merge merge_changes
merge_changes-false local [] h = refl
merge_changes-false [] (e ∷ es) h = cc
merge_changes-false (l ∷ ls) (e ∷ es) h = ground (arith, merge_changes-false ls es)
