-- ===== src/Exchange/Members.antt =====
-- addNode and removeNode of src/raftCore/raft_node.cpp, up to the call of stop, are sequences of the
-- sections of Run.
use raft_kv_raft_leveldb.Exchange.{Ran, World, and_then, done, pass, replicate_and_commit}
use raft_kv_raft_leveldb.Exchange.Change.{
  after_config, append_config_joint, append_config_new, change_members, or_stop, same_state,
  wait_config_state, wait_rounds,
}
use raft_kv_raft_leveldb.Exchange.Sections.{Ends, IsKept, Of, OfResult, Reach-trans, and_then-Ends}
use raft_kv_raft_leveldb.Exchange.Operations.{after_config-Ends, replicate_and_commit-Ends}
use raft_kv_raft_leveldb.Run.{ReachOf, append_reply, commit, config, next, snapshot_reply}
use raft_kv_raft_leveldb.Types.{
  AppendEntriesArgs, ConfigState, PeerInfo, config_joint, config_new, is_leader, joint, stable,
}
use raft_kv_raft_leveldb.Platform.{Platform}
use raft_kv_raft_leveldb.Node.{RaftNode}
use raft_kv_raft_leveldb.Leader.{append_config}
use raft_kv_raft_leveldb.Common.{
  Bool, List, Option, Text, [], codes, false, if◌then◌else◌, inr, none, not, some, suc, true, zero,
  ℕ, ◌<◌,
}

module _ {P : Platform} (others : ℕ → RaftNode P → RaftNode P)
    (send : ℕ → PeerInfo → Text → Option Text) {Ok : AppendEntriesArgs → RaftNode P → Type 0}
    (moves : (k : ℕ) (n : RaftNode P) → ReachOf Ok n (others k n)) (fuel : ℕ)
    (enough : 0 < fuel) where
  Reach-IsKept : (n : RaftNode P) → IsKept others (Unit {0}) 0 (ReachOf Ok n)
  Reach-IsKept n = record {
    by_others = λ k m h. Reach-trans h (moves k m);
    by_entries_reply = λ i t args reply m m' b h e. next h (append_reply i t args reply e);
    by_snapshot_reply = λ i t reply m m' b h e. next h (snapshot_reply i t reply e);
    few = λ m h. inr tt;
  }

  Reach-pass :
      (n : RaftNode P) (w : World P) → ReachOf Ok n w.0 → ReachOf Ok n (pass others send w).0
  unfolding pass
  Reach-pass n w h = Reach-trans h (moves w.1 w.0)

  commit-Ends :
      (n : RaftNode P) (w : World P)
      → ReachOf Ok n w.0
      → Ends (Unit {0}) (Of (ReachOf Ok n)) (replicate_and_commit others send fuel w)
  commit-Ends n w h =
      replicate_and_commit-Ends others send (Unit {0}) 0 (ReachOf Ok n) (ReachOf Ok n)
        (Reach-IsKept n) (λ j l r. Reach-trans r (moves j l)) (λ l r. r) (λ l r. next r commit) fuel
        enough w h

  config-Ends :
      (n : RaftNode P) (k : ℕ) (p : RaftNode P × Bool)
      → ReachOf Ok n p.0
      → Ends (Unit {0}) (OfResult (ReachOf Ok n)) (after_config others send fuel k p)
  config-Ends n k p h =
      after_config-Ends others send (Unit {0}) 0 (ReachOf Ok n) (ReachOf Ok n) (Reach-IsKept n)
        (λ j l r. Reach-trans r (moves j l)) (λ l r. r) (λ l r. next r commit) fuel enough k p h

  if-Ends :
      (n : RaftNode P) (b : Bool) (r s : Ran (World P × Bool))
      → Ends (Unit {0}) (OfResult (ReachOf Ok n)) r
      → Ends (Unit {0}) (OfResult (ReachOf Ok n)) s
      → Ends (Unit {0}) (OfResult (ReachOf Ok n)) (if b then r else s)
  if-Ends n true r s h k = h
  if-Ends n false r s h k = k

  wait_rounds-Ends :
      (n : RaftNode P) (target : ConfigState) (rounds : ℕ) (w : World P)
      → ReachOf Ok n w.0
      → Ends (Unit {0}) (OfResult (ReachOf Ok n)) (wait_rounds others send fuel target rounds w)
  unfolding wait_rounds
  wait_rounds-Ends n target zero w h = h
  wait_rounds-Ends n target (suc rounds) w h =
      let again =
        λ (v : World P). wait_rounds others send fuel target rounds (pass others send v) in
      let round : Ran (World P × Bool) = and_then (replicate_and_commit others send fuel w) again in
      let waits : Ends (Unit {0}) (OfResult (ReachOf Ok n)) round =
        and_then-Ends (Unit {0}) (Of (ReachOf Ok n)) (OfResult (ReachOf Ok n))
          (replicate_and_commit others send fuel w) again (commit-Ends n w h)
          (λ v reached.
            wait_rounds-Ends n target rounds (pass others send v) (Reach-pass n v reached)) in
      if-Ends n (not (is_leader w.0.state)) (done (w, false))
        (if same_state w.0.config_state target then done (w, true) else round) h
        (if-Ends n (same_state w.0.config_state target) (done (w, true)) round h waits)

  or_stop-Ends :
      (n : RaftNode P) (r : Ran (World P × Bool)) (f : World P → Ran (World P × Bool))
      → Ends (Unit {0}) (OfResult (ReachOf Ok n)) r
      → ((w : World P) → ReachOf Ok n w.0 → Ends (Unit {0}) (OfResult (ReachOf Ok n)) (f w))
      → Ends (Unit {0}) (OfResult (ReachOf Ok n)) (or_stop others send r f)
  or_stop-Ends n r f h k =
      and_then-Ends (Unit {0}) (OfResult (ReachOf Ok n)) (OfResult (ReachOf Ok n)) r _ h
        (λ o reached. if-Ends n o.1 _ _ (k _ (Reach-pass n o.0 reached)) reached)

  append_config_joint-Ends :
      (n : RaftNode P) (old_cfg new_cfg : List PeerInfo) (w : World P)
      → ReachOf Ok n w.0
      → Ends
          (Unit {0})
          (OfResult (ReachOf Ok n))
          (append_config_joint others send fuel old_cfg new_cfg w)
  unfolding append_config_joint
  append_config_joint-Ends n old_cfg new_cfg w h =
      config-Ends n w.1 (append_config config_joint (codes "__config_joint__") old_cfg new_cfg w.0)
        (next h (config config_joint (codes "__config_joint__") old_cfg new_cfg))

  append_config_new-Ends :
      (n : RaftNode P) (new_cfg : List PeerInfo) (w : World P)
      → ReachOf Ok n w.0
      → Ends (Unit {0}) (OfResult (ReachOf Ok n)) (append_config_new others send fuel new_cfg w)
  unfolding append_config_new
  append_config_new-Ends n new_cfg w h =
      config-Ends n w.1 (append_config config_new (codes "__config_new__") [] new_cfg w.0)
        (next h (config config_new (codes "__config_new__") [] new_cfg))

  wait_config_state-Ends :
      (n : RaftNode P) (target : ConfigState) (w : World P)
      → ReachOf Ok n w.0
      → Ends (Unit {0}) (OfResult (ReachOf Ok n)) (wait_config_state others send fuel target w)
  unfolding wait_config_state
  wait_config_state-Ends n target w h = wait_rounds-Ends n target 150 w h

  -- A change of the members that returns leaves a node that is reached by sections in sequence.
  pub change_members-Ends :
      (n : RaftNode P) (o : Option (List PeerInfo × List PeerInfo)) (w : World P)
      → ReachOf Ok n w.0
      → Ends (Unit {0}) (OfResult (ReachOf Ok n)) (change_members others send fuel o w)
  unfolding change_members
  change_members-Ends n none w h = h
  change_members-Ends n (some (old_cfg, new_cfg)) w h =
      let settle = λ (w₃ : World P). wait_config_state others send fuel stable w₃ in
      let renew = λ (w₂ : World P).
        or_stop others send (append_config_new others send fuel new_cfg w₂) settle in
      let prepare =
        λ (w₁ : World P). or_stop others send (wait_config_state others send fuel joint w₁) renew in
      or_stop-Ends n (append_config_joint others send fuel old_cfg new_cfg (pass others send w))
        prepare (append_config_joint-Ends n old_cfg new_cfg (pass others send w) (Reach-pass n w h))
        (λ w₁ h₁.
          or_stop-Ends n (wait_config_state others send fuel joint w₁) renew
            (wait_config_state-Ends n joint w₁ h₁)
            (λ w₂ h₂.
              or_stop-Ends n (append_config_new others send fuel new_cfg w₂) settle
                (append_config_new-Ends n new_cfg w₂ h₂)
                (λ w₃ h₃. wait_config_state-Ends n stable w₃ h₃)))
