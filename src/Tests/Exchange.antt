-- ===== src/Tests/Exchange.antt =====
-- A leader of three nodes that puts a value, where every peer answers with success and the other threads
-- rest.
use raft_kv_raft_leveldb.Exchange.Serve.{finish_call, serve_rpc_text, serve_rpc_text-request_of}
use raft_kv_raft_leveldb.Rpc.{client_put}
use raft_kv_raft_leveldb.Rpc.Commands.{of_put, request_of}
use raft_kv_raft_leveldb.Input.Words.{is_word}
use raft_kv_raft_leveldb.Exchange.Sections.{Ends, OfResult}
use raft_kv_raft_leveldb.Exchange.Operations.{put_value, run, run-Ends}
use raft_kv_raft_leveldb.Exchange.{World, done}
use raft_kv_raft_leveldb.Exchange.Elect.{start_election, start_election_alone}
use raft_kv_raft_leveldb.Quorum.{has_election_majority}
use raft_kv_raft_leveldb.Run.{ReachOf, here}
use raft_kv_raft_leveldb.Types.{AppendEntriesArgs, PeerInfo, candidate, follower, leader}
use raft_kv_raft_leveldb.Node.{RaftNode}
use raft_kv_raft_leveldb.Tests.Memory.{memory}
use raft_kv_raft_leveldb.Tests.Nodes.{node, peer}
use raft_kv_raft_leveldb.Common.{Option, Text, [], arith, codes, refl, some, true, ℕ, ◌∷◌, ◌≡◌}

abbrev rest : ℕ → RaftNode memory → RaftNode memory
rest k n = n

-- Whatever requests arrive.
abbrev Any : AppendEntriesArgs → RaftNode memory → Type 0
Any args n = Unit

abbrev agree : ℕ → PeerInfo → Text → Option Text
agree k server req = some (codes "AER 2 1")

run-Ends_example :
    Ends ⊥
      (OfResult (ReachOf Any (node leader)))
      (run rest agree 4 (put_value (codes "a") (codes "x")) (node leader, 0))
run-Ends_example =
    run-Ends rest agree (λ k n. here) 2 (λ k n bound. bound) 4 (omega arith)
      (put_value (codes "a") (codes "x")) (node leader, 0) (omega arith)

serve_rpc_text-request_of_example :
    serve_rpc_text rest agree 4 (request_of (of_put (codes "a") (codes "x"))) (node leader, 0)
    ≡ finish_call rest agree 4 (client_put (codes "a") (codes "x")) (node leader, 0)
serve_rpc_text-request_of_example =
    serve_rpc_text-request_of rest agree 4 (of_put (codes "a") (codes "x")) (node leader, 0)
      (is_word (codes "a") refl, is_word (codes "x") refl)

-- A follower that is the only node of its cluster.
abbrev lone : RaftNode memory
lone = record (node follower) { peers = []; current_config = record { nodes = peer 1 ∷ [] } }

start_election_alone_example :
    (v : World memory) × (start_election rest agree (lone, 0) ≡ done v)
    × (v.0.state ≡ candidate)
    × (v.0.current_term ≡ 3)
    × (v.0.voted_for ≡ some 1)
    × (has_election_majority v.0 (1 ∷ []) ≡ true)
start_election_alone_example =
    start_election_alone rest agree (λ k n. refl) (lone, 0)
      (record {
        self = peer 1;
        config_state = refl;
        nodes = refl;
        self_id = refl;
        peers = refl;
        voting_member = refl;
        removed = refl;
        leaving = refl;
      })
