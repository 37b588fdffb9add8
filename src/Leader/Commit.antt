-- ===== src/Leader/Commit.antt =====
-- updateCommitIndex of src/raftCore/raft_node.cpp: which index a leader commits.
use mathlib.Core.Path.{subst}
use raft_kv_raft_leveldb.Common.{
  Bool-cases, Option, Option-cases, arith, false, inl, inr, none, refl, some, suc, true, zero, ℕ,
  ◌+◌, ◌-◌, ◌<◌, ◌==◌, ◌≡◌, ◌≤◌, ◌⊎◌,
}
use raft_kv_raft_leveldb.Types.{LogEntry, is_leader, option_eq}
use raft_kv_raft_leveldb.Platform.{Platform}
use raft_kv_raft_leveldb.Node.{RaftNode, get_last_log_index, get_log_term_at, log_at}
use raft_kv_raft_leveldb.Quorum.{is_majority_matched_for_entry}
use raft_kv_raft_leveldb.Leader.{find_commit, update_commit_index}
use raft_kv_raft_leveldb.Node.Valid.{IsValid}
use raft_kv_raft_leveldb.Vote.Safety.{option_eq→eq}
use raft_kv_raft_leveldb.Log.{back_index}
use raft_kv_raft_leveldb.Apply.Compact.{apply_committed_logs-IsValid, apply_committed_logs_lem}

-- The rule of Raft for a leader's commit: the entry at the index is of the leader's own term, and
-- the configurations that count for it hold it by majorities.
pub record Committable {P : Platform} (n : RaftNode P) (index : ℕ) : Type 0 where
  pub entry : LogEntry
  pub at : log_at n index ≡ some entry
  pub own_term : get_log_term_at n index ≡ some n.current_term
  pub matched : is_majority_matched_for_entry n entry ≡ true

module _ {P : Platform} where
  -- What the loop finds from `rounds` above the commit index down.
  abbrev pub Found : ℕ → RaftNode P → Option ℕ → Type 0
  Found rounds n none =
      (i : ℕ) → n.commit_index < i → i ≤ n.commit_index + rounds → ¬ Committable n i
  Found rounds n (some i) =
      (n.commit_index < i)
      × (i ≤ n.commit_index + rounds)
      × Committable n i
      × ((j : ℕ) → i < j → j ≤ n.commit_index + rounds → ¬ Committable n j)

  -- The loop looks at one more index.
  Found-skip :
      (rounds : ℕ) (n : RaftNode P) (o : Option ℕ)
      → ¬ Committable n (n.commit_index + suc rounds)
      → Found rounds n o
      → Found (suc rounds) n o
  Found-skip rounds n none not_here f = λ i lo hi c.
      elim (Bool-cases (i == n.commit_index + suc rounds)) [
        | inl top ↦ not_here (let e : i ≡ n.commit_index + suc rounds = ground arith in rw e at c)
        | inr below ↦ f i lo (ground arith) c
      ]
  Found-skip rounds n (some k) not_here f = (
    f.0,
    omega arith,
    f.2,
    λ i lo hi c. elim (Bool-cases (i == n.commit_index + suc rounds)) [
      | inl top ↦ not_here (let e : i ≡ n.commit_index + suc rounds = ground arith in rw e at c)
      | inr below ↦ f.3 i lo (ground arith) c
    ],
  )

  -- The loop finds the largest index above the commit index that may be committed.
  find_commit-Found : (rounds : ℕ) (n : RaftNode P) → Found rounds n (find_commit rounds n)
  unfolding find_commit
  find_commit-Found zero n = λ i lo hi _. absurd (omega arith)
  find_commit-Found (suc rounds) n =
      let top = n.commit_index + suc rounds in
      let skip : ¬ Committable n top → Found (suc rounds) n (find_commit rounds n) =
        λ no_top. Found-skip rounds n (find_commit rounds n) no_top (find_commit-Found rounds n) in
      elim (Bool-cases (option_eq (get_log_term_at n top) (some n.current_term))) [
        | inr foreign ↦ rw foreign (skip (λ c. ground (arith, foreign, c.own_term)))
        | inl own ↦ elim (Option-cases (log_at n top)) [
          | inl absent ↦ rw (own, absent) (skip (λ c. cc (absent, c.at)))
          | inr (e, at) ↦ elim (Bool-cases (is_majority_matched_for_entry n e)) [
            | inl major ↦
                rw (own, at, major)
                  (
                    omega arith,
                    omega arith,
                    record { entry = e; at = at; own_term = option_eq→eq _ _ own; matched = major },
                    λ j lo hi _. absurd (omega arith),
                  )
            | inr minor ↦ rw (own, at, minor) (skip (λ c. other e at minor c))
          ]
        ]
      ]
    where
      other :
          {n : RaftNode P} {i : ℕ} (e : LogEntry)
          → log_at n i ≡ some e
          → is_majority_matched_for_entry n e ≡ false
          → ¬ Committable n i
      other {n} e at minor c = cc (at, c.at, minor, c.matched)

  pub find_commit-some :
      (n : RaftNode P) (rounds i : ℕ) → find_commit rounds n ≡ some i → Found rounds n (some i)
  find_commit-some n rounds i h = subst (Found rounds n) h (find_commit-Found rounds n)

  find_commit-none :
      (n : RaftNode P) (rounds : ℕ) → find_commit rounds n ≡ none → Found rounds n none
  find_commit-none n rounds h = subst (Found rounds n) h (find_commit-Found rounds n)

  abbrev pub rounds_of : RaftNode P → ℕ
  rounds_of n = get_last_log_index n - n.commit_index

  -- The rounds of the loop end at the last index.
  within :
      (n : RaftNode P)
      → IsValid n
      → (i : ℕ) → i ≤ get_last_log_index n
      → i ≤ n.commit_index + rounds_of n
  within n v i h = omega arith

  pub reach :
      (n : RaftNode P)
      → IsValid n
      → (i : ℕ) → i ≤ n.commit_index + rounds_of n
      → i ≤ back_index n.last_included_index n.logs
  unfolding get_last_log_index
  reach n v i h = omega (arith, v.committed_logged)

  pub committing-IsValid :
      (n : RaftNode P) (i : ℕ)
      → IsValid n
      → n.commit_index < i
      → i ≤ back_index n.last_included_index n.logs
      → IsValid (record n { commit_index = i })
  committing-IsValid n i v lo hi = record {
    contig = v.contig;
    snapshot_applied = v.snapshot_applied;
    applied_committed = omega (arith, v.applied_committed);
    committed_logged = hi;
  }

  -- No index above `lo` may be committed.
  abbrev pub NoneAbove : RaftNode P → ℕ → Type 0
  NoneAbove n lo = (i : ℕ) → lo < i → i ≤ get_last_log_index n → ¬ Committable n i

  -- On a valid node, updateCommitIndex changes nothing if the node is no leader or no index above
  -- the commit index may be committed. Otherwise a leader commits the largest index that may be
  -- committed, and has applied up to it. An index may be committed if its entry is of the
  -- leader's own term and passes the majority test for that entry.
  pub update_commit_index_lem :
      (n : RaftNode P)
      → IsValid n
      → let m = update_commit_index n in
        ((m ≡ n) × ((is_leader n.state ≡ false) ⊎ NoneAbove n n.commit_index))
        ⊎ ((is_leader n.state ≡ true)
            × Committable n m.commit_index
            × (n.commit_index < m.commit_index)
            × (m.last_applied ≡ m.commit_index)
            × NoneAbove n m.commit_index)
  unfolding update_commit_index
  update_commit_index_lem n v = elim (Bool-cases (is_leader n.state)) [
    | inr idle ↦ rw idle (inl (refl, inl refl))
    | inl leads ↦ elim (Option-cases (find_commit (rounds_of n) n)) [
      | inl nothing ↦
          rw (leads, nothing)
            (inl (
              refl,
              inr λ i lo hi. find_commit-none n (rounds_of n) nothing i lo (within n v i hi),
            ))
      | inr (i, chosen) ↦
          let f = find_commit-some n (rounds_of n) i chosen in
          let a =
            apply_committed_logs_lem (record n { commit_index = i })
              (committing-IsValid n i v f.0 (reach n v i f.1)) in
          rw (leads, chosen, a.last_applied, a.commit_index)
            (inr (refl, f.2, f.0, refl, λ j lo hi. f.3 j lo (within n v j hi)))
    ]
  ]

  -- updateCommitIndex keeps the invariant.
  pub update_commit_index-IsValid : (n : RaftNode P) → IsValid n → IsValid (update_commit_index n)
  unfolding update_commit_index
  update_commit_index-IsValid n v = elim (Bool-cases (is_leader n.state)) [
    | inr idle ↦ rw idle v
    | inl leads ↦ elim (Option-cases (find_commit (rounds_of n) n)) [
      | inl nothing ↦ rw (leads, nothing) v
      | inr (i, chosen) ↦
          let f = find_commit-some n (rounds_of n) i chosen in
          rw (leads, chosen)
            (apply_committed_logs-IsValid (record n { commit_index = i })
              (committing-IsValid n i v f.0 (reach n v i f.1)))
    ]
  ]
