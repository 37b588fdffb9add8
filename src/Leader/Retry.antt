-- ===== src/Leader/Retry.antt =====
-- The back-off of replicateToPeer in src/raftCore/raft_node.cpp: `nextIndex_` after refusals.
use raft_kv_raft_leveldb.Common.{
  arith, false, get_elem?, get_elem?-set_self, get_elem?-some, if◌then◌else◌, length, ltb, max,
  refl, set, some, suc, zero, ℕ, ◌+◌, ◌-◌, ◌<◌, ◌≡◌, ◌≤◌,
}
use raft_kv_raft_leveldb.Types.{AppendEntriesArgs, AppendEntriesReply, leader}
use raft_kv_raft_leveldb.Platform.{Platform}
use raft_kv_raft_leveldb.Node.{RaftNode}
use raft_kv_raft_leveldb.Leader.{by_snapshot, choose_route, note_reply, on_append_reply, ready}

-- `m` is `n` after peer `i` has refused a request so many times, with no other step in between.
pub data Refused {P : Platform} (i : ℕ) (n : RaftNode P) : ℕ → RaftNode P → Type 0 where
  start : Refused i n zero n
  again :
      {k : ℕ} {m m' : RaftNode P} (args : AppendEntriesArgs) (reply : AppendEntriesReply)
      → Refused i n k m
      → reply.success ≡ false
      → reply.term ≤ m.current_term
      → on_append_reply i m.current_term args reply m ≡ ready (m', false)
      → Refused i n (suc k) m'

-- What a refusal leaves, and how far `nextIndex_[i]` has come down.
pub record Lowered {P : Platform} (i next k : ℕ) (n m : RaftNode P) : Type 0 where
  pub state : m.state ≡ leader
  pub peers : m.peers ≡ n.peers
  pub last_included_index : m.last_included_index ≡ n.last_included_index
  pub current : ℕ
  pub at : get_elem? m.next_index i ≡ some current
  pub low : current ≤ max n.last_included_index (next - k)

module _ {P : Platform} where
  -- A refusal lowers `nextIndex_[i]` by one, down to the snapshot point, and changes nothing else.
  refusal_lem :
      (i current : ℕ) (m m' : RaftNode P) (args : AppendEntriesArgs) (reply : AppendEntriesReply)
      → m.state ≡ leader
      → get_elem? m.next_index i ≡ some current
      → reply.success ≡ false
      → reply.term ≤ m.current_term
      → on_append_reply i m.current_term args reply m ≡ ready (m', false)
      → m' ≡ record m {
        next_index = set m.next_index i (
            if ltb (m.last_included_index + 1) current then current - 1 else m.last_included_index);
      }
  unfolding on_append_reply note_reply
  refusal_lem i current m m' args reply lead at refusal old step = ground arith

  refusal-Lowered :
      (i next k : ℕ) (n m m' : RaftNode P) (args : AppendEntriesArgs) (reply : AppendEntriesReply)
      → Lowered i next k n m
      → reply.success ≡ false
      → reply.term ≤ m.current_term
      → on_append_reply i m.current_term args reply m ≡ ready (m', false)
      → Lowered i next (suc k) n m'
  refusal-Lowered i next k n m m' args reply l refusal old step =
      rw (refusal_lem i l.current m m' args reply l.state l.at refusal old step) (record {
        state = l.state;
        peers = l.peers;
        last_included_index = l.last_included_index;
        current =
            if ltb (m.last_included_index + 1) l.current
            then l.current - 1
            else m.last_included_index;
        at = get_elem?-set_self m.next_index i _ (get_elem?-some m.next_index i l.current l.at);
        low = ground (arith, l.low, l.last_included_index);
      })

  Refused-Lowered :
      (i next : ℕ) {n : RaftNode P} {k : ℕ} {m : RaftNode P}
      → n.state ≡ leader
      → get_elem? n.next_index i ≡ some next
      → Refused i n k m
      → Lowered i next k n m
  Refused-Lowered i next lead at start = record {
    state = lead;
    peers = refl;
    last_included_index = refl;
    current = next;
    at = at;
    low = omega arith;
  }
  Refused-Lowered i next lead at (again {k = k} {m = m} {m' = m'} args reply r refusal old step) =
      refusal-Lowered i next k _ m m' args reply (Refused-Lowered i next lead at r) refusal old step

  -- A peer that keeps refusing, in no later term than the leader's and with no other section in
  -- between, is sent the snapshot, at the latest after as many refusals as `nextIndex_` lies
  -- above the snapshot point.
  pub refusals_reach_snapshot :
      (i next k : ℕ) (n m : RaftNode P)
      → n.state ≡ leader
      → i < length n.peers
      → get_elem? n.next_index i ≡ some next
      → Refused i n k m
      → next ≤ n.last_included_index + k
      → choose_route i m ≡ ready by_snapshot
  unfolding choose_route
  refusals_reach_snapshot i next k n m lead inside at r enough =
      let l = Refused-Lowered i next lead at r in
      let here : i < length m.peers = rw l.peers inside in
      rw (l.state, l.at) (ground (arith, l.low, l.last_included_index))
