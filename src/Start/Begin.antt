-- ===== src/Start/Begin.antt =====
-- The node that main of src/node_main.cpp makes.
use raft_kv_raft_leveldb.Wire.{Parsed, outside, parsed, rejected}
use raft_kv_raft_leveldb.Clerk.{load_cluster_config}
use raft_kv_raft_leveldb.Common.{
  Bool-cases, filter_by, inl, inr, ap, ◌∙◌, ◌⊎◌, Bool, List, Option, Text, [], arith, false,
  if◌then◌else◌, none, not, refl, some, sym, true, ℕ, ◌==◌, ◌∷◌, ◌≡◌,
}
use raft_kv_raft_leveldb.Node.Member.{IsListed, IsMember, in_voting_config-IsMember}
use raft_kv_raft_leveldb.Start.Find.{
  IsAsked, IsFirstAt, build_peers-filter_by, contains_id-unlisted, find_self_node-IsFirstAt,
  is_learner-IsAsked, no_learner-IsAsked,
}
use raft_kv_raft_leveldb.Types.{PeerInfo, contains, contains_id, follower, stable}
use raft_kv_raft_leveldb.Platform.{Platform}
use raft_kv_raft_leveldb.Storage.{PersistentStorage}
use raft_kv_raft_leveldb.Storage.Load.{SavedState, load}
use raft_kv_raft_leveldb.StateMachine.{KvStore}
use raft_kv_raft_leveldb.Node.{
  RaftNode, is_node_in_current_voting_config, set_peers, set_self_address, set_voting_member,
}
use raft_kv_raft_leveldb.Node.Restart.{after_load, fresh, load_persistent_state, new_node, restored}
use raft_kv_raft_leveldb.Apply.Fitted.{IsFitted}
use raft_kv_raft_leveldb.Start.{
  begins, build_peers, find_self_node, is_learner, main, not_read, returns, set_up, with_self,
}

-- What the constructor gives a node, whatever the state file holds.
record IsConstructed {P : Platform} (id : ℕ) (n : RaftNode P) : Type 0 where
  pub id_is : n.id ≡ id
  pub state : n.state ≡ follower
  pub config_state : n.config_state ≡ stable
  pub voting_member : n.voting_member ≡ true

-- What main does with the nodes of the file and the arguments, in the words of the code.
record IsReady {P : Platform} (nodes : List PeerInfo) (self_ip : Text) (self_port : ℕ)
    (learner : Bool) (n : RaftNode P) : Type 0 where
  pub found_self :
      (self : PeerInfo) × (find_self_node nodes self_ip self_port ≡ some self) × (n.id ≡ self.id)
  pub self_ip_is : n.self_ip ≡ self_ip
  pub self_port_is : n.self_port ≡ self_port
  pub peers : n.peers ≡ build_peers nodes n.id
  pub no_peer : contains_id n.peers n.id ≡ false
  pub member : is_node_in_current_voting_config n n.id ≡ true
  pub voting_member : n.voting_member ≡ not learner
  pub state : n.state ≡ follower
  pub fitted : IsFitted n

-- A node that main runs on these arguments, where the configuration file has these nodes: it has the id
-- of the first node of the file with its address; its peers are the nodes of the other ids, in order; it
-- is a member of its own voting configuration and a follower, and votes unless an argument is --learner.
pub record IsBegun {P : Platform} (nodes : List PeerInfo) (self_ip : Text) (self_port : ℕ)
    (args : List Text) (n : RaftNode P) : Type 0 where
  pub found_self : (self : PeerInfo) × IsFirstAt nodes self_ip self_port self × (n.id ≡ self.id)
  pub self_ip_is : n.self_ip ≡ self_ip
  pub self_port_is : n.self_port ≡ self_port
  pub peers : n.peers ≡ filter_by (λ p. not (p.id == n.id)) nodes
  pub no_peer : ¬ IsListed n.id n.peers
  pub member : IsMember n n.id
  pub voting_member :
      (IsAsked args × (n.voting_member ≡ false)) ⊎ ((¬ IsAsked args) × (n.voting_member ≡ true))
  pub state : n.state ≡ follower
  pub fitted : IsFitted n

build_peers_others :
    (nodes : List PeerInfo) (id : ℕ) → contains_id (build_peers nodes id) id ≡ false
unfolding build_peers contains_id
build_peers_others [] id = refl
build_peers_others (n ∷ nodes) id =
    let rest = build_peers_others nodes id in go (n.id == id) refl rest
  where
    go :
        (b : Bool)
        → b ≡ (n.id == id)
        → contains_id (build_peers nodes id) id ≡ false
        → contains_id (if b then build_peers nodes id else n ∷ build_peers nodes id) id ≡ false
    go true e rest = rest
    go false e rest = rw (sym e) rest

module _ {P : Platform} where
  after_load-IsConstructed :
      (id : ℕ) (p : PersistentStorage × Parsed SavedState) (m n : RaftNode P)
      → IsConstructed id m
      → after_load p m ≡ some n
      → IsConstructed id n
  unfolding restored
  after_load-IsConstructed id (storage, rejected) m n h is = ground (arith, h, is)
  after_load-IsConstructed id (storage, outside) m n h is = ground (arith, is)
  after_load-IsConstructed id (storage, parsed s) m n h is = ground (arith, h, is)

  new_node-IsConstructed :
      (id : ℕ) (kv_store : KvStore P) (storage : PersistentStorage) (draws : ℕ) (n : RaftNode P)
      → new_node id kv_store storage draws ≡ some n
      → IsConstructed id n
  unfolding new_node load_persistent_state fresh
  new_node-IsConstructed id kv_store storage draws n is =
      after_load-IsConstructed id (load P storage) (fresh id kv_store storage draws) n
        (record { id_is = refl; state = refl; config_state = refl; voting_member = refl }) is

  begun_member :
      (peers : List PeerInfo) (self_ip : Text) (self_port : ℕ) (m : RaftNode P)
      → m.config_state ≡ stable
      → is_node_in_current_voting_config
          (set_peers peers (set_self_address self_ip self_port m))
          m.id
        ≡ true
  unfolding set_peers set_self_address is_node_in_current_voting_config contains contains_id
  begun_member peers self_ip self_port m still = ground (arith, still)

  module _ (nodes : List PeerInfo) (self : PeerInfo) (self_ip : Text) (self_port : ℕ) where
    set_up-IsReady :
        (learner : Bool) (m : RaftNode P)
        → find_self_node nodes self_ip self_port ≡ some self
        → IsConstructed self.id m
        → let n = set_peers (build_peers nodes self.id) (set_self_address self_ip self_port m) in
          IsReady nodes self_ip self_port learner (if learner then set_voting_member false n else n)
    unfolding set_voting_member set_peers set_self_address is_node_in_current_voting_config
    set_up-IsReady learner m found h = go learner
      where
        go :
            (learner : Bool)
            → let n =
                set_peers (build_peers nodes self.id) (set_self_address self_ip self_port m) in
              IsReady nodes self_ip self_port learner
                (if learner then set_voting_member false n else n)
        go true = record {
          found_self = (self, found, h.id_is);
          self_ip_is = refl;
          self_port_is = refl;
          peers = rw h.id_is refl;
          no_peer = rw h.id_is (build_peers_others nodes self.id);
          member = begun_member (build_peers nodes self.id) self_ip self_port m h.config_state;
          voting_member = refl;
          state = h.state;
          fitted = record { next_index = rw h.state refl; match_index = rw h.state refl };
        }
        go false = record {
          found_self = (self, found, h.id_is);
          self_ip_is = refl;
          self_port_is = refl;
          peers = rw h.id_is refl;
          no_peer = rw h.id_is (build_peers_others nodes self.id);
          member = begun_member (build_peers nodes self.id) self_ip self_port m h.config_state;
          voting_member = h.voting_member;
          state = h.state;
          fitted = record { next_index = rw h.state refl; match_index = rw h.state refl };
        }

module _ {P : Platform} (kv_store : KvStore P) (storage : PersistentStorage) (draws : ℕ) where
  begins_inj : {n m : RaftNode P} → begins n ≡ begins m → n ≡ m
  begins_inj e = cc

  with_self-IsReady :
      (nodes : List PeerInfo) (self_ip : Text) (self_port : ℕ) (learner : Bool)
      (self : Option PeerInfo) (n : RaftNode P)
      → find_self_node nodes self_ip self_port ≡ self
      → with_self kv_store storage draws nodes self_ip self_port learner self ≡ begins n
      → IsReady nodes self_ip self_port learner n
  with_self-IsReady nodes self_ip self_port learner none n found is = absurd (never is)
    where
      never : returns ≡ begins n → ⊥
      never e = cc
  with_self-IsReady nodes self_ip self_port learner (some self) n found is =
      go (new_node self.id kv_store storage draws) refl is
    where
      go :
          (made : Option (RaftNode P))
          → new_node self.id kv_store storage draws ≡ made
          → set_up kv_store storage draws (build_peers nodes self.id) self_ip self_port learner made
            ≡ begins n
          → IsReady nodes self_ip self_port learner n
      go none made_is e = absurd (never e)
        where
          never : not_read ≡ begins n → ⊥
          never e = cc
      go (some m) made_is e = rw (sym (begins_inj e)) (
          set_up-IsReady nodes self self_ip self_port learner m found
            (new_node-IsConstructed self.id kv_store storage draws m made_is))

  IsReady-IsBegun :
      (nodes : List PeerInfo) (self_ip : Text) (self_port : ℕ) (args : List Text) (n : RaftNode P)
      → IsReady nodes self_ip self_port (is_learner args) n
      → IsBegun nodes self_ip self_port args n
  IsReady-IsBegun nodes self_ip self_port args n s = record {
    found_self = (
      s.found_self.0,
      find_self_node-IsFirstAt nodes self_ip self_port s.found_self.0 s.found_self.1,
      s.found_self.2,
    );
    self_ip_is = s.self_ip_is;
    self_port_is = s.self_port_is;
    peers = s.peers ∙ build_peers-filter_by nodes n.id;
    no_peer = contains_id-unlisted n.peers n.id s.no_peer;
    member = in_voting_config-IsMember n n.id s.member;
    voting_member = elim (Bool-cases (is_learner args)) [
      | inl asked ↦ inl (is_learner-IsAsked args asked, s.voting_member ∙ ap not asked)
      | inr unasked ↦ inr (no_learner-IsAsked args unasked, s.voting_member ∙ ap not unasked)
    ];
    state = s.state;
    fitted = s.fitted;
  }

  -- Where main runs a node, and the configuration file can be read, the node has the id of the first node
  -- of the file whose ip and port are those of the arguments; its peers are the nodes of the file with
  -- other ids, in their order, and its own id is none of theirs; it is a member of its own voting
  -- configuration and a follower; it is no voting member if an argument is --learner, and is one
  -- otherwise; and nextIndex_ and matchIndex_ fit its peers.
  pub main-IsBegun :
      (atoi : Text → ℕ) (self_ip self_port : Text) (args : List Text) (file : Option Text)
      (nodes : List PeerInfo) (n : RaftNode P)
      → load_cluster_config file ≡ parsed nodes
      → main kv_store storage draws atoi (self_ip ∷ self_port ∷ args) file ≡ begins n
      → IsBegun nodes self_ip (atoi self_port) args n
  unfolding main
  main-IsBegun atoi self_ip self_port args file nodes n read is =
      IsReady-IsBegun nodes self_ip (atoi self_port) args n (
        with_self-IsReady nodes self_ip (atoi self_port) (is_learner args) _ n refl (rw read at is))
