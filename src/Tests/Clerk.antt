-- ===== src/Tests/Clerk.antt =====
-- A Clerk whose hint points behind its servers, with the leader at the second of three.
use raft_kv_raft_leveldb.Clerk.{
  Clerk, accept_ok, ask, command, put_request, reload_servers_from_config,
}
use raft_kv_raft_leveldb.Clerk
use raft_kv_raft_leveldb.Tests.Nodes.{peer}
use raft_kv_raft_leveldb.Clerk.Hint.{IsHint, command-IsHint}
use raft_kv_raft_leveldb.Clerk.Search.{command_found}
use raft_kv_raft_leveldb.Common.{
  Option, Text, [], arith, codes, false, if◌then◌else◌, none, refl, some, suc, text_eq, zero, ℕ,
  ◌==◌, ◌∷◌, ◌≡◌,
}
use raft_kv_raft_leveldb.Types.{PeerInfo}
use raft_kv_raft_leveldb.Storage.Load.{lines_of}
use raft_kv_raft_leveldb.Input.{
  get_digits, get_int, get_sign, get_unsigned, get_word, number_from, skip_space, span, to_int,
  to_nat,
}

abbrev listed : Text
listed = codes "# nodes\n1 h 7000\n\n2 h 7000\n3 h 7000\n"

-- Node 2 is the leader; the others decline.
abbrev network : ℕ → PeerInfo → Text → Option Text
network attempt server req = if server.id == 2 then some (codes "OK") else some (codes "NOT_LEADER")

abbrev old_clerk : Clerk.Clerk
old_clerk = record { servers = []; leader_hint = 0 }

abbrev clerk : Clerk.Clerk
clerk = record { servers = peer 1 ∷ peer 2 ∷ peer 3 ∷ []; leader_hint = 0 }

reloaded : reload_servers_from_config (some listed) old_clerk ≡ some clerk
unfolding reload_servers_from_config Clerk.take_servers Clerk.load_cluster_config Clerk.load_nodes
    lines_of Clerk.get_node get_int get_digits get_unsigned span get_sign skip_space to_int
    number_from get_word to_nat
reloaded = refl

abbrev line : Text
line = put_request (codes "a") (codes "x")

ask_leader : (attempt : ℕ) → ask network accept_ok line clerk.servers attempt 1 ≡ some (some [])
unfolding ask accept_ok text_eq
ask_leader attempt = refl

ask_others :
    (attempt i : ℕ) → (i == 1) ≡ false → ask network accept_ok line clerk.servers attempt i ≡ none
unfolding ask accept_ok text_eq
ask_others attempt zero h = refl
ask_others attempt (suc zero) h = absurd (ground (arith, h))
ask_others attempt (suc (suc zero)) h = refl
ask_others attempt (suc (suc (suc i))) h = refl

command_found_example :
    command network accept_ok line clerk ≡ (record clerk { leader_hint = 1 }, some (some []))
command_found_example =
    command_found network accept_ok line (some listed) old_clerk clerk 1 (some [])
      (record { hint = omega arith }) reloaded (omega arith) ask_leader ask_others

command-IsHint_example : IsHint (command network accept_ok line clerk).0
command-IsHint_example =
    command-IsHint network accept_ok (some listed) line old_clerk clerk
      (record { hint = omega arith }) reloaded
