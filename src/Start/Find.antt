-- ===== src/Start/Find.antt =====
-- What the loops of findSelfNode, buildPeers and main in src/node_main.cpp look for, described without
-- them.
use raft_kv_raft_leveldb.Common.{
  All, Bool-cases, List, Text, [], ap, arith, codes, false, filter_by, inl, inr, not, refl, some,
  sym, text_eq, text_eq_refl, text_eq→eq, true, ℕ, ◌&&◌, ◌++◌, ◌==◌, ◌∷◌, ◌≡◌,
}
use raft_kv_raft_leveldb.Types.{PeerInfo, contains_id}
use raft_kv_raft_leveldb.Start.{build_peers, find_self_node, is_learner}
use raft_kv_raft_leveldb.Node.Member.{IsListed}

-- `self` is the first node of the list with this address.
abbrev pub IsFirstAt : List PeerInfo → Text → ℕ → PeerInfo → Type 0
IsFirstAt nodes ip port self =
    (before : List PeerInfo) × (after : List PeerInfo) × (nodes ≡ before ++ self ∷ after)
    × (self.ip ≡ ip)
    × (self.port ≡ port)
    × All (λ p. ¬ ((p.ip ≡ ip) × (p.port ≡ port))) before

-- One of the arguments is --learner.
abbrev pub IsAsked : List Text → Type 0
IsAsked args =
    (before : List Text) × (after : List Text) × (args ≡ before ++ codes "--learner" ∷ after)

elsewhere :
    (p : PeerInfo) (ip : Text) (port : ℕ)
    → (text_eq p.ip ip && (p.port == port)) ≡ false
    → ¬ ((p.ip ≡ ip) × (p.port ≡ port))
elsewhere p ip port h both =
    let same : text_eq p.ip ip ≡ true = rw both.0 (text_eq_refl ip) in ground (arith, h, both, same)

pub find_self_node-IsFirstAt :
    (nodes : List PeerInfo) (ip : Text) (port : ℕ) (self : PeerInfo)
    → find_self_node nodes ip port ≡ some self
    → IsFirstAt nodes ip port self
unfolding find_self_node
find_self_node-IsFirstAt [] ip port self h = cc
find_self_node-IsFirstAt (p ∷ nodes) ip port self h =
    elim (Bool-cases (text_eq p.ip ip && (p.port == port))) [
      | inl here ↦
          let is : p ≡ self = ground (arith, h, here) in
          (
            [],
            nodes,
            ap (λ q. q ∷ nodes) is,
            rw (sym is) (text_eq→eq p.ip ip (ground (arith, here))),
            rw (sym is) (ground (arith, here)),
            tt,
          )
      | inr other ↦
          let (before, after, at, same_ip, same_port, none_before) =
            find_self_node-IsFirstAt nodes ip port self (ground (arith, h, other)) in
          (
            p ∷ before,
            after,
            ap (◌∷◌ p) at,
            same_ip,
            same_port,
            (elsewhere p ip port other, none_before),
          )
    ]

pub is_learner-IsAsked : (args : List Text) → is_learner args ≡ true → IsAsked args
unfolding is_learner
is_learner-IsAsked [] h = cc
is_learner-IsAsked (arg ∷ args) h = elim (Bool-cases (text_eq arg (codes "--learner"))) [
  | inl here ↦ ([], args, ap (λ a. a ∷ args) (text_eq→eq arg (codes "--learner") here))
  | inr other ↦
      let (before, after, at) = is_learner-IsAsked args (ground (arith, h, other)) in
      (arg ∷ before, after, ap (◌∷◌ arg) at)
]

is_learner-among :
    (before after : List Text) → is_learner (before ++ codes "--learner" ∷ after) ≡ true
unfolding is_learner
is_learner-among [] after = rw (text_eq_refl (codes "--learner")) refl
is_learner-among (arg ∷ before) after = ground (arith, is_learner-among before after)

pub no_learner-IsAsked : (args : List Text) → is_learner args ≡ false → ¬ IsAsked args
no_learner-IsAsked args h (before, after, at) =
    let asked : is_learner args ≡ true = rw at (is_learner-among before after) in cc

-- buildPeers keeps the nodes of other ids, in their order.
pub build_peers-filter_by :
    (nodes : List PeerInfo) (id : ℕ)
    → build_peers nodes id ≡ filter_by (λ p. not (p.id == id)) nodes
unfolding build_peers
build_peers-filter_by [] id = refl
build_peers-filter_by (p ∷ nodes) id = ground (arith, build_peers-filter_by nodes id)

contains_id-among :
    (before after : List PeerInfo) (p : PeerInfo) → contains_id (before ++ p ∷ after) p.id ≡ true
unfolding contains_id
contains_id-among [] after p = ground arith
contains_id-among (q ∷ before) after p = ground (arith, contains_id-among before after p)

pub contains_id-unlisted :
    (nodes : List PeerInfo) (id : ℕ) → contains_id nodes id ≡ false → ¬ IsListed id nodes
contains_id-unlisted nodes id h (before, p, after, at, is) =
    let listed : contains_id nodes id ≡ true = rw (at, sym is) (contains_id-among before after p) in
    cc
