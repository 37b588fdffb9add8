-- ===== src/Tests/Start.antt =====
-- A process that starts node 2 of a configuration file with three nodes.
use raft_kv_raft_leveldb.Input.{
  to_nat, get_word, number_from, to_int, skip_space, get_sign, span, get_unsigned, get_digits,
  get_int,
}
use raft_kv_raft_leveldb.Start.{begins, build_peers, find_self_node, is_learner, main}
use raft_kv_raft_leveldb.Start.Begin.{IsBegun, main-IsBegun}
use raft_kv_raft_leveldb.Clerk.{get_node, load_nodes, load_cluster_config}
use raft_kv_raft_leveldb.Node.{RaftNode, set_peers, set_self_address}
use raft_kv_raft_leveldb.Node.Restart.{fresh, load_persistent_state, new_node}
use raft_kv_raft_leveldb.Storage.Load.{lines_of, load}
use raft_kv_raft_leveldb.Storage.{PersistentStorage}
use raft_kv_raft_leveldb.StateMachine.{KvStore}
use raft_kv_raft_leveldb.Types.{PeerInfo}
use raft_kv_raft_leveldb.Wire.{parsed}
use raft_kv_raft_leveldb.Tests.Memory.{memory}
use raft_kv_raft_leveldb.Tests.Nodes.{peer}
use raft_kv_raft_leveldb.Common.{List, Text, [], codes, none, refl, some, text_eq, ℕ, ◌∷◌, ◌≡◌}

abbrev listed : Text
listed = codes "# nodes\n1 h 7001\n2 h 7002\n3 g 7002\n"

abbrev nodes : List PeerInfo
nodes =
    record (peer 1) { port = 7001 }
    ∷ record (peer 2) { port = 7002 }
    ∷ record (peer 3) { ip = codes "g"; port = 7002 }
    ∷ []

-- std::atoi at the one text that is used.
abbrev atoi : Text → ℕ
atoi t = 7002

abbrev store : KvStore memory
store = record { db = some [] }

abbrev no_file : PersistentStorage
no_file = record { state_file = none; attempts = 0 }

abbrev begun : RaftNode memory
begun =
    set_peers
      (record (peer 1) { port = 7001 } ∷ record (peer 3) { ip = codes "g"; port = 7002 } ∷ [])
      (set_self_address (codes "h") 7002 (fresh 2 store (record no_file { attempts = 1 }) 0))

read_nodes : load_cluster_config (some listed) ≡ parsed nodes
unfolding load_cluster_config load_nodes lines_of get_node get_int get_digits get_unsigned span
    get_sign skip_space to_int number_from get_word to_nat
read_nodes = refl

begun_here : main store no_file 0 atoi (codes "h" ∷ codes "7002" ∷ []) (some listed) ≡ begins begun
unfolding main find_self_node build_peers is_learner text_eq new_node load_persistent_state load
    set_peers set_self_address fresh
begun_here = rw read_nodes refl

main-IsBegun_example : IsBegun nodes (codes "h") 7002 [] begun
main-IsBegun_example =
    main-IsBegun store no_file 0 atoi (codes "h") (codes "7002") [] (some listed) nodes begun
      read_nodes begun_here
