-- ===== src/Exchange/Sections.antt =====
-- The operations of Exchange are sequences of the sections of Run, with those of the other threads, and
-- their loops end.
use raft_kv_raft_leveldb.Run.{ReachOf, here, next}
use raft_kv_raft_leveldb.Leader.{
  Outcome, Route, by_entries, by_snapshot, fault, on_append_reply, ready, refused,
}
use raft_kv_raft_leveldb.Wire.{Parsed, outside, parsed, rejected}
use raft_kv_raft_leveldb.Exchange.{
  Ran, World, and_then, at_entries, at_snapshot, done, faulted, follow_route, on_append_response,
  on_snapshot_response, pass, replicate_all, replicate_to_peer, send_entries, send_snapshot,
  send_snapshot_to_peer, unfinished,
}
use raft_kv_raft_leveldb.Common.{
  Bool, Option, Text, arith, false, if◌then◌else◌, inl, inr, length, ltb, none, refl, some, suc,
  true, zero, ℕ, ◌+◌, ◌<◌, ◌≡◌, ◌≤◌, ◌⊎◌,
}
use raft_kv_raft_leveldb.Types.{
  AppendEntriesArgs, AppendEntriesReply, InstallSnapshotArgs, InstallSnapshotReply, PeerInfo,
}
use raft_kv_raft_leveldb.Platform.{Platform}
use raft_kv_raft_leveldb.Node.{RaftNode}
use raft_kv_raft_leveldb.Snapshot.{on_snapshot_reply}

pub Reach-trans :
    {P : Platform} {Ok : AppendEntriesArgs → RaftNode P → Type 0} {n m k : RaftNode P}
    → ReachOf Ok n m
    → ReachOf Ok m k
    → ReachOf Ok n k
Reach-trans a here = a
Reach-trans a (next b s) = next (Reach-trans a b) s

-- Where the operation returns, the predicate holds of the result; `U` is what is known of an operation
-- that runs out of fuel.
abbrev pub Ends {ℓ} : {A : Type ℓ} → Type 0 → (A → Type 0) → Ran A → Type 0
Ends U Q faulted = Unit {0}
Ends U Q unfinished = U
Ends U Q (done a) = Q a

pub and_then-Ends {ℓ} :
    {A B : Type ℓ} (U : Type 0) (Q : A → Type 0) (R : B → Type 0) (r : Ran A) (f : A → Ran B)
    → Ends U Q r
    → ((a : A) → Q a → Ends U R (f a))
    → Ends U R (and_then r f)
and_then-Ends U Q R faulted f h k = tt
and_then-Ends U Q R unfinished f h k = h
and_then-Ends U Q R (done a) f h k = k a h

-- A predicate of nodes, of the node of a world, and of the node of a result.
abbrev pub Of : {P : Platform} → (RaftNode P → Type 0) → World P → Type 0
Of Q w = Q w.0

abbrev pub OfResult : {P : Platform} → (RaftNode P → Type 0) → World P × Bool → Type 0
OfResult Q r = Q r.0.0

-- A predicate that the sections of the loop and the other threads keep, and that bounds the number of
-- peers, unless `U` holds.
pub record IsKept {P : Platform} (others : ℕ → RaftNode P → RaftNode P) (U : Type 0) (most : ℕ)
    (Q : RaftNode P → Type 0) : Type 0 where
  pub by_others : (k : ℕ) (n : RaftNode P) → Q n → Q (others k n)
  pub by_entries_reply :
      (i t : ℕ) (args : AppendEntriesArgs) (reply : AppendEntriesReply) (n m : RaftNode P)
      (b : Bool)
      → Q n
      → on_append_reply i t args reply n ≡ ready (m, b)
      → Q m
  pub by_snapshot_reply :
      (i t : ℕ) (reply : InstallSnapshotReply) (n m : RaftNode P) (b : Bool)
      → Q n
      → on_snapshot_reply i t reply n ≡ some (m, b)
      → Q m
  pub few : (n : RaftNode P) → Q n → (length n.peers ≤ most) ⊎ U

module _ {P : Platform} (others : ℕ → RaftNode P → RaftNode P)
    (send : ℕ → PeerInfo → Text → Option Text) (U : Type 0) (most : ℕ) (Q : RaftNode P → Type 0)
    (kept : IsKept others U most Q) where
  pub pass-Of : (w : World P) → Q w.0 → Q (pass others send w).0
  unfolding pass
  pass-Of w h = kept.by_others w.1 w.0 h

  at_snapshot-Ends :
      (i t : ℕ) (reply : InstallSnapshotReply) (w : World P) (o : Option (RaftNode P × Bool))
      → Q w.0
      → on_snapshot_reply i t reply w.0 ≡ o
      → Ends U (OfResult Q) (at_snapshot w.1 o)
  at_snapshot-Ends i t reply w none h e = tt
  at_snapshot-Ends i t reply w (some (m, b)) h e = kept.by_snapshot_reply i t reply w.0 m b h e

  at_entries-Ends :
      (i t : ℕ) (args : AppendEntriesArgs) (reply : AppendEntriesReply) (w : World P)
      (o : Outcome (RaftNode P × Bool))
      → Q w.0
      → on_append_reply i t args reply w.0 ≡ o
      → Ends U (OfResult Q) (at_entries w.1 o w)
  at_entries-Ends i t args reply w refused h e = h
  at_entries-Ends i t args reply w fault h e = tt
  at_entries-Ends i t args reply w (ready (m, b)) h e =
      kept.by_entries_reply i t args reply w.0 m b h e

  on_snapshot_response-Ends :
      (i t : ℕ) (p : Parsed InstallSnapshotReply) (w : World P)
      → Q w.0
      → Ends U (OfResult Q) (on_snapshot_response i t p w)
  on_snapshot_response-Ends i t rejected w h = h
  on_snapshot_response-Ends i t outside w h = tt
  on_snapshot_response-Ends i t (parsed reply) w h = at_snapshot-Ends i t reply w _ h refl

  on_append_response-Ends :
      (i t : ℕ) (args : AppendEntriesArgs) (p : Parsed AppendEntriesReply) (w : World P)
      → Q w.0
      → Ends U (OfResult Q) (on_append_response i t args p w)
  on_append_response-Ends i t args rejected w h = h
  on_append_response-Ends i t args outside w h = tt
  on_append_response-Ends i t args (parsed reply) w h = at_entries-Ends i t args reply w _ h refl

  send_snapshot-Ends :
      (i : ℕ) (w : World P) (o : Option (PeerInfo × InstallSnapshotArgs))
      → Q w.0
      → Ends U (OfResult Q) (send_snapshot others send i w o)
  send_snapshot-Ends i w none h = h
  send_snapshot-Ends i w (some (peer, args)) h =
      on_snapshot_response-Ends i args.term _ _ (pass-Of w h)

  send_entries-Ends :
      (i : ℕ) (w : World P) (o : Outcome (PeerInfo × AppendEntriesArgs))
      → Q w.0
      → Ends U (OfResult Q) (send_entries others send i w o)
  send_entries-Ends i w refused h = h
  send_entries-Ends i w fault h = tt
  send_entries-Ends i w (ready (peer, args)) h =
      on_append_response-Ends i args.term args _ _ (pass-Of w h)

  follow_route-Ends :
      (i : ℕ) (w : World P) (o : Outcome Route)
      → Q w.0
      → Ends U (OfResult Q) (follow_route others send i w o)
  unfolding send_snapshot_to_peer
  follow_route-Ends i w refused h = h
  follow_route-Ends i w fault h = tt
  follow_route-Ends i w (ready by_snapshot) h = send_snapshot-Ends i _ _ (pass-Of w h)
  follow_route-Ends i w (ready by_entries) h = send_entries-Ends i _ _ (pass-Of w h)

  replicate_to_peer-Ends :
      (i : ℕ) (w : World P) → Q w.0 → Ends U (OfResult Q) (replicate_to_peer others send i w)
  unfolding replicate_to_peer
  replicate_to_peer-Ends i w h = follow_route-Ends i w _ h

  next_low : (i : ℕ) (w : World P) → Q w.0 → ltb i (length w.0.peers) ≡ true → (i + 1 ≤ most) ⊎ U
  next_low i w h more = elim (kept.few w.0 h) [
    | inl bound ↦ inl (ground (arith, more, bound))
    | inr u ↦ inr u
  ]

  round-Ends :
      (b : Bool) (w : World P) (r : Ran (World P))
      → Q w.0
      → (b ≡ true → Ends U (Of Q) r)
      → Ends U (Of Q) (if b then r else done w)
  round-Ends true w r h k = k refl
  round-Ends false w r h k = h

  no_fuel : (i : ℕ) → (i ≤ most) ⊎ U → most < 0 + i → U
  no_fuel i (inl low) enough = absurd (omega (arith, low, enough))
  no_fuel i (inr u) enough = u

  -- With fuel for more rounds than there are peers, the loop ends.
  pub replicate_all-Ends :
      (fuel i : ℕ) (w : World P)
      → Q w.0
      → (i ≤ most) ⊎ U
      → most < fuel + i
      → Ends U (Of Q) (replicate_all others send fuel i w)
  unfolding replicate_all
  replicate_all-Ends zero i w h low enough = no_fuel i low enough
  replicate_all-Ends (suc fuel) i w h low enough =
      round-Ends (ltb i (length w.0.peers)) w _ h (λ more.
        and_then-Ends U (OfResult Q) (Of Q) (replicate_to_peer others send i w) _
          (replicate_to_peer-Ends i w h)
          (λ r good.
            replicate_all-Ends fuel (i + 1) (pass others send r.0) (pass-Of r.0 good)
              (next_low i w h more) (omega (arith, enough))))
