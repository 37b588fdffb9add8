-- ===== src/Node/Member.antt =====
-- Membership of a configuration and the last entry of the log, described without the loops of
-- src/common/types.h and src/raftCore/raft_node.cpp.
use raft_kv_raft_leveldb.Common.{
  Bool-cases, List, [], arith, inl, inr, refl, true, ℕ, ◌++◌, ◌==◌, ◌<◌, ◌∷◌, ◌≡◌, ◌≤◌, ◌⊎◌, ap,
}
use raft_kv_raft_leveldb.Types.{
  ConfigState, LogEntry, PeerInfo, contains, contains_id, joint, stable,
}
use raft_kv_raft_leveldb.Platform.{Platform}
use raft_kv_raft_leveldb.Log.{back_index, back_term}
use raft_kv_raft_leveldb.Node.{
  RaftNode, get_last_log_index, get_last_log_term, is_candidate_log_up_to_date,
  is_node_in_current_voting_config,
}

-- A node with this id stands at some place of the list.
abbrev pub IsListed : ℕ → List PeerInfo → Type 0
IsListed id nodes =
    (before : List PeerInfo) × (p : PeerInfo) × (after : List PeerInfo) × (nodes
      ≡ before ++ p ∷ after)
    × (p.id ≡ id)

pub contains_id-IsListed :
    (nodes : List PeerInfo) (id : ℕ) → contains_id nodes id ≡ true → IsListed id nodes
unfolding contains_id
contains_id-IsListed [] id h = cc
contains_id-IsListed (p ∷ nodes) id h = elim (Bool-cases (p.id == id)) [
  | inl same ↦ ([], p, nodes, refl, ground (arith, same))
  | inr other ↦
      let (before, q, after, at, is) = contains_id-IsListed nodes id (ground (arith, h, other)) in
      (p ∷ before, q, after, ap (◌∷◌ p) at, is)
]

config_cases : (s : ConfigState) → (s ≡ stable) ⊎ (s ≡ joint)
config_cases stable = inl refl
config_cases joint = inr refl

-- What back_index and back_term read off a list that is not empty.
last_split :
    (e : LogEntry) (es : List LogEntry)
    → (before : List LogEntry) × (last : LogEntry) × (e ∷ es ≡ before ++ last ∷ [])
      × (back_index e.index es ≡ last.index)
      × (back_term e.term es ≡ last.term)
unfolding back_index back_term
last_split e [] = ([], e, refl, refl, refl)
last_split e (e' ∷ es) =
    let (before, last, is, index, term) = last_split e' es in
    (e ∷ before, last, ap (◌∷◌ e) is, index, term)

module _ {P : Platform} where
  -- A member of the voting configuration: in a joint one, of either half.
  abbrev pub IsMember : RaftNode P → ℕ → Type 0
  IsMember n id =
      ((n.config_state ≡ stable) × IsListed id n.current_config.nodes)
      ⊎ ((n.config_state ≡ joint)
          × (IsListed id n.old_config.nodes ⊎ IsListed id n.new_config.nodes))

  -- The index and the term of the last entry of the log, or of the snapshot point where the log is empty.
  abbrev pub IsLast : RaftNode P → ℕ → ℕ → Type 0
  IsLast n index term =
      ((n.logs ≡ []) × (index ≡ n.last_included_index) × (term ≡ n.last_included_term))
      ⊎ ((before : List LogEntry) × (e : LogEntry) × (n.logs ≡ before ++ e ∷ [])
          × (index ≡ e.index)
          × (term ≡ e.term))

  -- The comparison of logs of the Raft paper: by the term of the last entries, then by their index.
  abbrev pub IsUpToDate : RaftNode P → ℕ → ℕ → Type 0
  IsUpToDate n last_log_index last_log_term =
      (index : ℕ) × (term : ℕ) × IsLast n index term
      × ((term < last_log_term) ⊎ ((last_log_term ≡ term) × (index ≤ last_log_index)))

  pub in_voting_config-IsMember :
      (n : RaftNode P) (id : ℕ) → is_node_in_current_voting_config n id ≡ true → IsMember n id
  unfolding is_node_in_current_voting_config contains
  in_voting_config-IsMember n id h = elim (config_cases n.config_state) [
    | inl is_stable ↦
        inl
          (is_stable, contains_id-IsListed n.current_config.nodes id (ground (arith, h, is_stable)))
    | inr is_joint ↦ elim (Bool-cases (contains_id n.old_config.nodes id)) [
      | inl old ↦ inr (is_joint, inl (contains_id-IsListed n.old_config.nodes id old))
      | inr other ↦ inr (
        is_joint,
        inr (contains_id-IsListed n.new_config.nodes id (ground (arith, h, is_joint, other))),
      )
    ]
  ]

  back-IsLast : (n : RaftNode P) → IsLast n (get_last_log_index n) (get_last_log_term n)
  unfolding get_last_log_index get_last_log_term back_index back_term
  back-IsLast n = go n.logs
    where
      go :
          (logs : List LogEntry)
          → ((logs ≡ [])
              × (back_index n.last_included_index logs ≡ n.last_included_index)
              × (back_term n.last_included_term logs ≡ n.last_included_term))
            ⊎ ((before : List LogEntry) × (e : LogEntry) × (logs ≡ before ++ e ∷ [])
                × (back_index n.last_included_index logs ≡ e.index)
                × (back_term n.last_included_term logs ≡ e.term))
      go [] = inl (refl, refl, refl)
      go (e ∷ es) = inr (last_split e es)

  pub fresh_log-IsUpToDate :
      (n : RaftNode P) (index term : ℕ)
      → is_candidate_log_up_to_date n index term ≡ true
      → IsUpToDate n index term
  unfolding is_candidate_log_up_to_date
  fresh_log-IsUpToDate n index term h =
      (get_last_log_index n, get_last_log_term n, back-IsLast n, ground (arith, h))
