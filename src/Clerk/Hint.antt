-- ===== src/Clerk/Hint.antt =====
-- The leader hint of src/client/clerk.cpp stays a position of the servers.
use mathlib.Core.Option.{some-injective}
use mathlib.Core.Path.{subst}
use native.Mathlib.Nat.{mod-lt}
use raft_kv_raft_leveldb.Types.{PeerInfo}
use raft_kv_raft_leveldb.Wire.{Parsed, outside, parsed, rejected}
use raft_kv_raft_leveldb.Clerk.{
  Clerk, ask, ask_servers, after_loop, command, or_next, reload_servers_from_config,
  load_cluster_config, take_servers,
}
use raft_kv_raft_leveldb.Common.{
  List, Option, Text, [], arith, length, max, none, refl, ◌∷◌, some, suc, zero, ℕ, ◌+◌, ◌%◌, ◌<◌,
  ◌≡◌,
}

-- `leaderHint_` is a position in `servers_`, or 0 where there are none.
pub record IsHint (c : Clerk) : Type 0 where
  pub hint : c.leader_hint < max 1 (length c.servers)

take_servers-IsHint :
    (p : Parsed (List PeerInfo)) (c d : Clerk) → IsHint c → take_servers p c ≡ some d → IsHint d
unfolding take_servers
take_servers-IsHint rejected c d h e = ground (arith, h.hint)
take_servers-IsHint outside c d h e = ground arith
take_servers-IsHint (parsed nodes) c d h e = record { hint = ground arith }

pub reload_servers_from_config-IsHint :
    (file : Option Text) (c d : Clerk)
    → IsHint c
    → reload_servers_from_config file c ≡ some d
    → IsHint d
unfolding reload_servers_from_config
reload_servers_from_config-IsHint file c d h e =
    take_servers-IsHint (load_cluster_config file) c d h e

module _ (send : ℕ → PeerInfo → Text → Option Text) (accept : Text → Option (Option Text)) where
  abbrev IsAnswered : Text → List PeerInfo → ℕ → Option Text → Type 0
  IsAnswered req servers idx result =
      (idx < length servers)
      × (attempt : ℕ) × (ask send accept req servers attempt idx ≡ some result)

  or_next-IsAnswered :
      (req : Text) (servers : List PeerInfo) (i at idx : ℕ) (result : Option Text)
      (rest : Option (ℕ × Option Text)) (o : Option (Option Text))
      → at < length servers
      → (rest ≡ some (idx, result) → IsAnswered req servers idx result)
      → ask send accept req servers i at ≡ o
      → or_next at o rest ≡ some (idx, result)
      → IsAnswered req servers idx result
  or_next-IsAnswered req servers i at idx result rest none inside later asked e = later e
  or_next-IsAnswered req servers i at idx result rest (some answer) inside later asked e =
      let same = some-injective (at, answer) (idx, result) e in
      subst (λ p. IsAnswered req servers p.0 p.1) same (inside, i, asked)

  -- The index that answered is a position of the servers, and its server gave the answer.
  pub ask_servers-IsAnswered :
      (req : Text) (servers : List PeerInfo) (start rounds i idx : ℕ) (result : Option Text)
      → 0 < length servers
      → ask_servers send accept req servers start rounds i ≡ some (idx, result)
      → IsAnswered req servers idx result
  unfolding ask_servers
  ask_servers-IsAnswered req servers start zero i idx result some_server e = cc e
  ask_servers-IsAnswered req servers start (suc rounds) i idx result some_server e =
      or_next-IsAnswered req servers i ((start + i) % length servers) idx result _ _
        (mod-lt (start + i) some_server)
        (ask_servers-IsAnswered req servers start rounds (i + 1) idx result some_server) refl e

  after_loop-IsHint :
      (req : Text) (c : Clerk) (o : Option (ℕ × Option Text))
      → IsHint c
      → ((idx : ℕ) (result : Option Text) → o ≡ some (idx, result) → idx < max 1 (length c.servers))
      → IsHint (after_loop c o).0
  after_loop-IsHint req c none h inside = h
  after_loop-IsHint req c (some (idx, result)) h inside = record { hint = inside idx result refl }

  answered_inside :
      (req : Text) (servers : List PeerInfo) (start idx : ℕ) (result : Option Text)
      → ask_servers send accept req servers start (length servers) 0 ≡ some (idx, result)
      → idx < max 1 (length servers)
  unfolding ask_servers
  answered_inside req [] start idx result e = cc e
  answered_inside req (s ∷ ss) start idx result e =
      let answered =
        ask_servers-IsAnswered req (s ∷ ss) start (length (s ∷ ss)) 0 idx result (omega arith) e in
      omega (arith, answered.0)

  -- After a command on a Clerk whose servers were just read, whether a server answered or not, the
  -- leader hint is a position of the servers, or 0 where there are none, if it was one before.
  pub command-IsHint :
      (file : Option Text) (req : Text) (c d : Clerk)
      → IsHint c
      → reload_servers_from_config file c ≡ some d
      → IsHint (command send accept req d).0
  unfolding command
  command-IsHint file req c d h e =
      after_loop-IsHint req d _ (reload_servers_from_config-IsHint file c d h e)
        (answered_inside req d.servers d.leader_hint)
