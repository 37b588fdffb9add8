-- ===== src/Quorum/Intersect.antt =====
-- Majorities meet: the counting behind the tests of src/raftCore/raft_node.cpp.
use raft_kv_raft_leveldb.Common.{
  Bool, Bool-cases, List, [], arith, if◌then◌else◌, inl, inr, length, ltb→lt, refl, suc, true, ℕ,
  ◌+◌, ◌/◌, ◌<◌, ◌∷◌, ◌≡◌,
}
use raft_kv_raft_leveldb.Types.{ClusterConfig, PeerInfo, contains_id, size}
use raft_kv_raft_leveldb.Platform.{Platform}
use raft_kv_raft_leveldb.Node.{RaftNode}
use raft_kv_raft_leveldb.Quorum.{
  contains_node_id, count_granted, count_matched, has_majority_in_config_by_ids, has_matched,
  is_majority_in_config,
}

count_by : (PeerInfo → Bool) → List PeerInfo → ℕ
count_by p [] = 0
count_by p (n ∷ ns) = let rest = count_by p ns in if p n then suc rest else rest

count_granted-by :
    (ns : List PeerInfo) (granted : List ℕ)
    → count_granted ns granted ≡ count_by (λ n. contains_node_id granted n.id) ns
unfolding count_granted count_by
count_granted-by [] granted = refl
count_granted-by (n ∷ ns) granted = ground (arith, count_granted-by ns granted)

count_matched-by :
    {P : Platform} (n : RaftNode P) (i : ℕ) (ns : List PeerInfo)
    → count_matched n i ns ≡ count_by (has_matched n i) ns
unfolding count_matched count_by
count_matched-by n i [] = refl
count_matched-by n i (m ∷ ns) = ground (arith, count_matched-by n i ns)

contains_id-head : (n : PeerInfo) (ns : List PeerInfo) → contains_id (n ∷ ns) n.id ≡ true
unfolding contains_id
contains_id-head n ns = ground arith

contains_id-tail :
    (n p : PeerInfo) (ns : List PeerInfo)
    → contains_id ns p.id ≡ true
    → contains_id (n ∷ ns) p.id ≡ true
unfolding contains_id
contains_id-tail n p ns h = ground arith

-- A member of the list that passes both tests.
abbrev pub InBoth : (PeerInfo → Bool) → (PeerInfo → Bool) → List PeerInfo → Type 0
InBoth p q ns = (m : PeerInfo) × (contains_id ns m.id ≡ true) × (p m ≡ true) × (q m ≡ true)

InBoth-tail :
    (p q : PeerInfo → Bool) (n : PeerInfo) (ns : List PeerInfo)
    → InBoth p q ns
    → InBoth p q (n ∷ ns)
InBoth-tail p q n ns (m, inside, a, b) = (m, contains_id-tail n m ns inside, a, b)

-- Two tests that together pass more often than the list is long pass at one member.
common_member :
    (p q : PeerInfo → Bool) (ns : List PeerInfo)
    → length ns < count_by p ns + count_by q ns
    → InBoth p q ns
unfolding count_by
common_member p q [] h = absurd (omega arith)
common_member p q (n ∷ ns) h = elim (Bool-cases (p n)) [
  | inl a ↦ elim (Bool-cases (q n)) [
    | inl b ↦ (n, contains_id-head n ns, a, b)
    | inr b ↦ InBoth-tail p q n ns (common_member p q ns (ground arith))
  ]
  | inr a ↦ InBoth-tail p q n ns (common_member p q ns (ground arith))
]

over_half : (a b k : ℕ) → k / 2 < a → k / 2 < b → k < a + b
over_half a b k h l = omega arith

-- Any two majorities of ids in one configuration share a member of it.
pub majorities_meet :
    (cfg : ClusterConfig) (g h : List ℕ)
    → has_majority_in_config_by_ids cfg g ≡ true
    → has_majority_in_config_by_ids cfg h ≡ true
    → InBoth (λ m. contains_node_id g m.id) (λ m. contains_node_id h m.id) cfg.nodes
unfolding has_majority_in_config_by_ids size
majorities_meet cfg g h a b = common_member _ _ cfg.nodes (
    over_half _ _ (length cfg.nodes) (rw count_granted-by at (ltb→lt _ _ a))
      (rw count_granted-by at (ltb→lt _ _ b)))

-- A majority of a configuration that holds the log up to an index and a majority of votes in it
-- share a member of the configuration.
pub matched_meets_granted :
    {P : Platform} (n : RaftNode P) (cfg : ClusterConfig) (i : ℕ) (g : List ℕ)
    → is_majority_in_config n cfg i ≡ true
    → has_majority_in_config_by_ids cfg g ≡ true
    → InBoth (has_matched n i) (λ m. contains_node_id g m.id) cfg.nodes
unfolding is_majority_in_config has_majority_in_config_by_ids size
matched_meets_granted n cfg i g a b = common_member _ _ cfg.nodes (
    over_half _ _ (length cfg.nodes) (rw (count_matched-by n i cfg.nodes) at (ltb→lt _ _ a))
      (rw (count_granted-by cfg.nodes g) at (ltb→lt _ _ b)))
