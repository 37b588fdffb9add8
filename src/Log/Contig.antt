-- ===== src/Log/Contig.antt =====
-- A log without gaps: the indices run on from the snapshot point. What the position arithmetic of
-- src/raftCore/raft_node.cpp finds in such a log.
use raft_kv_raft_leveldb.Common.{
  Bool-cases, List, [], ap, arith, false, get_elem?, get_elem?-lt, get_elem?-some, inl, inr, length,
  ltb, lt→ltb, max, none, refl, some, suc, zero, ℕ, ◌++◌, ◌+◌, ◌-◌, ◌<◌, ◌∙◌, ◌∷◌, ◌≡◌, ◌≤◌,
}
use raft_kv_raft_leveldb.Types.{LogEntry}
use raft_kv_raft_leveldb.Log.{back_index, entries_above, entry_at}

-- The first entry has index `base + 1`, and each next entry the next index.
abbrev pub Contig : ℕ → List LogEntry → Type 0
Contig base [] = Unit {0}
Contig base (e ∷ es) = (e.index ≡ suc base) × Contig (suc base) es

pub back_index-Contig :
    (base : ℕ) (es : List LogEntry) → Contig base es → back_index base es ≡ base + length es
unfolding back_index
back_index-Contig base [] c = omega arith
back_index-Contig base (e ∷ es) c = rw c.0 (omega (arith, back_index-Contig (suc base) es c.1))

pub Contig-append :
    (base : ℕ) (xs ys : List LogEntry)
    → Contig base xs
    → Contig (base + length xs) ys
    → Contig base (xs ++ ys)
Contig-append base [] ys cx cy = let e : base + 0 ≡ base = omega arith in rw e at cy
Contig-append base (x ∷ xs) ys cx cy =
    let e : base + suc (length xs) ≡ suc base + length xs = omega arith in
    (cx.0, Contig-append (suc base) xs ys cx.1 (rw e at cy))

pub Contig-append_left :
    (base : ℕ) (xs ys : List LogEntry) → Contig base (xs ++ ys) → Contig base xs
Contig-append_left base [] ys c = tt
Contig-append_left base (x ∷ xs) ys c = (c.0, Contig-append_left (suc base) xs ys c.1)

pub Contig-append_right :
    (base : ℕ) (xs ys : List LogEntry) → Contig base (xs ++ ys) → Contig (base + length xs) ys
Contig-append_right base [] ys c = let e : base + 0 ≡ base = omega arith in rw e c
Contig-append_right base (x ∷ xs) ys c =
    let e : base + suc (length xs) ≡ suc base + length xs = omega arith in
    rw e (Contig-append_right (suc base) xs ys c.1)

-- A new last entry with the next index keeps the log without gaps.
pub Contig-snoc :
    (base : ℕ) (es : List LogEntry) (e : LogEntry)
    → Contig base es
    → e.index ≡ suc (back_index base es)
    → Contig base (es ++ e ∷ [])
Contig-snoc base es e c h =
    Contig-append base es (e ∷ []) c (h ∙ ap suc (back_index-Contig base es c), tt)

-- The entry found at a position carries the index that was asked for.
pub get_elem?-Contig :
    (base : ℕ) (es : List LogEntry) (p : ℕ) (e : LogEntry)
    → Contig base es
    → get_elem? es p ≡ some e
    → e.index ≡ suc (base + p)
get_elem?-Contig base [] p e c h = cc
get_elem?-Contig base (x ∷ es) zero e c h = ground (arith, c.0)
get_elem?-Contig base (x ∷ es) (suc p) e c h =
    omega (arith, get_elem?-Contig (suc base) es p e c.1 h)

-- Every index above the snapshot point and up to the last index has an entry.
pub entry_at-some :
    (base : ℕ) (es : List LogEntry) (i : ℕ)
    → Contig base es
    → base < i
    → i ≤ back_index base es
    → (e : LogEntry) × (entry_at base es i ≡ some e) × (e.index ≡ i)
unfolding entry_at
entry_at-some base es i c lo hi =
    let last : back_index base es ≡ base + length es = back_index-Contig base es c in
    let (e, found) = get_elem?-lt es (i - base - 1) (omega arith) in
    (
      e,
      rw (lt→ltb base i lo, entry_at) found,
      omega (arith, get_elem?-Contig base es (i - base - 1) e c found),
    )

-- All entries lie above a bound below the snapshot point.
pub entries_above-all :
    (upto base : ℕ) (es : List LogEntry) → Contig base es → upto ≤ base → entries_above upto es ≡ es
unfolding entries_above
entries_above-all upto base [] c h = refl
entries_above-all upto base (e ∷ es) c h =
    ground (arith, c.0, entries_above-all upto (suc base) es c.1)

-- In a log without gaps, the entries above a later snapshot point are without gaps from that
-- point on.
pub entries_above-Contig :
    (upto base : ℕ) (es : List LogEntry)
    → Contig base es
    → base ≤ upto
    → Contig upto (entries_above upto es)
unfolding entries_above
entries_above-Contig upto base [] c h = tt
entries_above-Contig upto base (e ∷ es) c h = elim (Bool-cases (ltb upto e.index)) [
  | inl above ↦
      let top : upto ≡ base = ground (arith, c.0) in
      let rest : entries_above upto es ≡ es =
        entries_above-all upto (suc base) es c.1 (omega arith) in
      rw (above, rest) (rw top c)
  | inr covered ↦
      let low : suc base ≤ upto = ground (arith, c.0) in
      rw covered (entries_above-Contig upto (suc base) es c.1 low)
]

-- Dropping the entries up to `upto` leaves the last index, unless it lies below `upto`.
pub back_index-entries_above :
    (upto base : ℕ) (es : List LogEntry)
    → Contig base es
    → base ≤ upto
    → back_index upto (entries_above upto es) ≡ max upto (back_index base es)
unfolding entries_above back_index
back_index-entries_above upto base [] c h = omega arith
back_index-entries_above upto base (e ∷ es) c h = elim (Bool-cases (ltb upto e.index)) [
  | inl above ↦
      let top : upto ≡ base = ground (arith, c.0) in
      let keep : entries_above upto es ≡ es =
        entries_above-all upto (suc base) es c.1 (omega arith) in
      let last : back_index e.index es ≡ suc base + length es =
        rw c.0 (back_index-Contig (suc base) es c.1) in
      rw (above, keep) (omega (arith, last))
  | inr covered ↦
      let low : suc base ≤ upto = ground (arith, c.0) in
      let ih : back_index upto (entries_above upto es) ≡ max upto (back_index (suc base) es) =
        back_index-entries_above upto (suc base) es c.1 low in
      rw (covered, c.0) ih
]

-- A position that the log holds, or the snapshot point, is at most the last index.
pub entry_at-le :
    (base : ℕ) (es : List LogEntry) (i : ℕ) (e : LogEntry)
    → Contig base es
    → entry_at base es i ≡ some e
    → (base < i) × (i ≤ back_index base es)
unfolding entry_at
entry_at-le base es i e c h = elim (Bool-cases (ltb base i)) [
  | inl above ↦
      let at : get_elem? es (i - base - 1) ≡ some e = rw (above, entry_at) at h in
      let lt : base < i = ground arith in
      (lt, omega (arith, get_elem?-some es (i - base - 1) e at, back_index-Contig base es c))
  | inr below ↦ cc (h, none_of_below below)
]
  where
    none_of_below : ltb base i ≡ false → entry_at base es i ≡ none
    none_of_below below = rw (below, entry_at)

-- The position of an entry behind the snapshot point.
pub get_elem?-entry_at :
    (base : ℕ) (es : List LogEntry) (i : ℕ) (e : LogEntry)
    → base < i
    → entry_at base es i ≡ some e
    → get_elem? es (i - base - 1) ≡ some e
unfolding entry_at
get_elem?-entry_at base es i e lo at = rw (lt→ltb base i lo, entry_at) at at

pub back_index-snoc :
    (base : ℕ) (es : List LogEntry) (e : LogEntry) → back_index base (es ++ e ∷ []) ≡ e.index
unfolding back_index
back_index-snoc base [] e = refl
back_index-snoc base (x ∷ es) e = back_index-snoc x.index es e
