-- ===== src/Leader/Request.antt =====
-- What the leader of src/raftCore/raft_node.cpp sends, and what it concludes from the reply.
use raft_kv_raft_leveldb.Common.{
  Bool-cases, List, [], arith, drop, drop_all, get_elem?-drop, if◌then◌else◌, inl, inr, length,
  length-drop_le, refl, some, suc, sym, true, zero, ℕ, ◌+◌, ◌-◌, ◌<◌, ◌==◌, ◌∷◌, ◌≡◌, ◌≤◌,
}
use raft_kv_raft_leveldb.Types.{LogEntry}
use raft_kv_raft_leveldb.Platform.{Platform}
use raft_kv_raft_leveldb.Log.{back_index}
use raft_kv_raft_leveldb.Log.Contig.{Contig, back_index-Contig, entry_at-some, get_elem?-entry_at}
use raft_kv_raft_leveldb.Node.{RaftNode, get_last_log_index, get_log_term_at, has_log_at, log_at}
use raft_kv_raft_leveldb.Node.Valid.{IsValid}
use raft_kv_raft_leveldb.Leader.{append_request, entries_from}

Contig-drop :
    (base : ℕ) (es : List LogEntry) (p : ℕ)
    → Contig base es
    → p ≤ length es
    → Contig (base + p) (drop p es)
Contig-drop base es zero c h = let e : base + 0 ≡ base = omega arith in rw e c
Contig-drop base [] (suc p) c h = elim h [ ]
Contig-drop base (x ∷ es) (suc p) c h =
    let e : base + suc p ≡ suc base + p = omega arith in
    rw e (Contig-drop (suc base) es p c.1 (omega arith))

module _ {P : Platform} where
  entries_from-step :
      (rounds index : ℕ) (n : RaftNode P) (x : LogEntry)
      → log_at n index ≡ some x
      → entries_from (suc rounds) index n ≡ x ∷ entries_from rounds (index + 1) n
  unfolding entries_from
  entries_from-step rounds index n x here = rw (here, entries_from)

  -- The loop collects the rest of the log.
  entries_from-drop :
      (rounds index : ℕ) (n : RaftNode P)
      → IsValid n
      → n.last_included_index < index
      → index + rounds ≡ suc (back_index n.last_included_index n.logs)
      → entries_from rounds index n ≡ drop (index - n.last_included_index - 1) n.logs
  unfolding entries_from
  entries_from-drop zero index n v lo e =
      let end : index - n.last_included_index - 1 ≡ length n.logs =
        omega (arith, back_index-Contig n.last_included_index n.logs v.contig) in
      rw end (sym (drop_all n.logs))
  entries_from-drop (suc rounds) index n v lo e =
      let (x, at, _) = entry_at-some n.last_included_index n.logs index v.contig lo (omega arith) in
      let here : log_at n index ≡ some x = unfold log_at in at in
      let ih = entries_from-drop rounds (index + 1) n v (omega arith) (omega arith) in
      let next : index + 1 - n.last_included_index - 1 ≡ suc (index - n.last_included_index - 1) =
        omega arith in
      rw (entries_from-step rounds index n x here, ih, next)
        (sym (
          get_elem?-drop n.logs (index - n.last_included_index - 1) x
            (get_elem?-entry_at n.last_included_index n.logs index x lo at)))

  -- Every index from the snapshot point to the last is in the log, with a term.
  term_known :
      (n : RaftNode P) (i : ℕ)
      → IsValid n
      → n.last_included_index ≤ i
      → i ≤ back_index n.last_included_index n.logs
      → (has_log_at n i ≡ true) × ((t : ℕ) × (get_log_term_at n i ≡ some t))
  unfolding has_log_at get_log_term_at
  term_known n i v lo hi = elim (Bool-cases (i == n.last_included_index)) [
    | inl point ↦ rw point (refl, (if i == 0 then 0 else n.last_included_term, ground arith))
    | inr off ↦
        let (x, at, _) = entry_at-some n.last_included_index n.logs i v.contig (ground arith) hi in
        rw (off, at) (refl, (if i == 0 then 0 else x.term, ground arith))
  ]

  -- On a valid node, the request for a `nextIndex_` above the snapshot point and at most one past
  -- the last index carries exactly the rest of the log from that index on, without gaps behind
  -- its previous index, up to the last index; the log holds the previous index, and the term sent
  -- is known.
  pub append_request_lem :
      (next : ℕ) (n : RaftNode P)
      → IsValid n
      → n.last_included_index < next
      → next ≤ suc (get_last_log_index n)
      → let args = append_request next n in
        (args.entries ≡ drop (next - n.last_included_index - 1) n.logs)
        × (Contig args.prev_log_index args.entries)
        × (args.prev_log_index + length args.entries ≡ get_last_log_index n)
        × (has_log_at n args.prev_log_index ≡ true)
        × ((t : ℕ) × (args.prev_log_term ≡ some t))
  unfolding append_request get_last_log_index
  append_request_lem next n v lo hi =
      let last = back_index-Contig n.last_included_index n.logs v.contig in
      let p = next - n.last_included_index - 1 in
      let sent =
        entries_from-drop (back_index n.last_included_index n.logs + 1 - next) next n v lo
          (omega arith) in
      let prev : n.last_included_index + p ≡ next - 1 = omega arith in
      let short : p ≤ length n.logs = omega (arith, last) in
      let (known, term) = term_known n (next - 1) v (omega arith) (omega arith) in
      (
        sent,
        rw sent (rw prev at (Contig-drop n.last_included_index n.logs p v.contig short)),
        rw sent (omega (arith, last, length-drop_le p n.logs short)),
        known,
        term,
      )
