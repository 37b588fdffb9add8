-- ===== src/Read/Fresh.antt =====
-- What a linearizable read of src/raftCore/raft_node.cpp sees.
use raft_kv_raft_leveldb.Read.{
  check_applied, finish_read, lost_lead, take_read_index, wait_applied_to,
}
use raft_kv_raft_leveldb.Types.{is_leader, not_leader}
use raft_kv_raft_leveldb.StateMachine.{get_value}
use raft_kv_raft_leveldb.Run.{Reach}
use raft_kv_raft_leveldb.Run.Forward.{Reach-IsForward}
use raft_kv_raft_leveldb.Common.{
  List, Text, [], arith, false, inl, inr, some, true, ℕ, ◌∷◌, ◌≡◌, ◌≢◌, ◌≤◌, ◌⊎◌,
}
use raft_kv_raft_leveldb.Platform.{Platform}
use raft_kv_raft_leveldb.Node.{RaftNode}
use raft_kv_raft_leveldb.Node.Valid.{IsValid}
use raft_kv_raft_leveldb.Run.Valid.{Reach-IsValid}

-- The states that the rounds of a loop find one after the other, with any sections of Run.Reach in
-- between, from one state up to another.
pub data Rounds {P : Platform} : RaftNode P → List (RaftNode P) → RaftNode P → Type 0 where
  over : {n m : RaftNode P} → Reach n m → Rounds n [] m
  round :
      {n k m : RaftNode P} {ks : List (RaftNode P)}
      → Reach n k
      → Rounds k ks m
      → Rounds n (k ∷ ks) m

module _ {P : Platform} where
  Rounds-forward :
      {n m : RaftNode P} {ks : List (RaftNode P)}
      → Rounds n ks m
      → IsValid n
      → n.last_applied ≤ m.last_applied
  Rounds-forward (over r) v = (Reach-IsForward r v).last_applied
  Rounds-forward (round r rs) v =
      omega (arith, (Reach-IsForward r v).last_applied, Rounds-forward rs (Reach-IsValid r v))

  check_applied-true :
      (i t : ℕ) (n : RaftNode P) → check_applied i t n ≡ some true → i ≤ n.last_applied
  unfolding check_applied
  check_applied-true i t n h = ground arith

  wait_applied_to-next :
      (i t : ℕ) (k : RaftNode P) (ks : List (RaftNode P))
      → wait_applied_to i t (k ∷ ks) ≡ true
      → (check_applied i t k ≡ some true) ⊎ (wait_applied_to i t ks ≡ true)
  unfolding wait_applied_to
  wait_applied_to-next i t k ks h = ground arith

  wait_applied_to-reaches :
      (i t : ℕ) {n m : RaftNode P} {ks : List (RaftNode P)}
      → Rounds n ks m
      → IsValid n
      → wait_applied_to i t ks ≡ true
      → i ≤ m.last_applied
  unfolding wait_applied_to
  wait_applied_to-reaches i t (over r) v h = cc
  wait_applied_to-reaches i t (round {k = k} {ks = ks} r rs) v h =
      let w = Reach-IsValid r v in
      elim (wait_applied_to-next i t k ks h) [
        | inl now ↦ omega (arith, check_applied-true i t k now, Rounds-forward rs w)
        | inr later ↦ wait_applied_to-reaches i t rs w later
      ]

  finish_read-leads :
      (t : ℕ) (key : Text) (m : RaftNode P)
      → (finish_read t key m).0 ≢ not_leader
      → (lost_lead t m ≡ false) × ((finish_read t key m).1 ≡ get_value P m.kv_store key)
  unfolding finish_read
  finish_read-leads t key m h = ground arith

  -- A read that takes its index in a valid state, waits successfully and then answers with a
  -- value or with no key, answers with what the store reads in a state where the node still leads
  -- the same term and has applied every entry that was committed when the index was taken. Any
  -- sections may run in between, where the AppendEntries requests among them that the node stores
  -- run on from their previous index and do not contradict committed entries.
  pub read_sees_commits :
      (t i : ℕ) (key : Text) (n m : RaftNode P) (ks : List (RaftNode P))
      → IsValid n
      → take_read_index t n ≡ some i
      → Rounds n ks m
      → wait_applied_to i t ks ≡ true
      → (finish_read t key m).0 ≢ not_leader
      → (n.commit_index ≤ m.last_applied)
        × (is_leader m.state ≡ true)
        × (m.current_term ≡ n.current_term)
        × ((finish_read t key m).1 ≡ get_value P m.kv_store key)
  unfolding take_read_index lost_lead
  read_sees_commits t i key n m ks v taken rs waited answered =
      let (leads, value) = finish_read-leads t key m answered in
      let reached = wait_applied_to-reaches i t rs v waited in
      let index : n.commit_index ≡ i = ground (arith, taken) in
      let term : n.current_term ≡ t = ground (arith, taken) in
      (omega (arith, index, reached), ground (arith, leads), ground (arith, leads, term), value)
