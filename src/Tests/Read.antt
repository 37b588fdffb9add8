-- ===== src/Tests/Read.antt =====
-- A linearizable read at a concrete state.
use raft_kv_raft_leveldb.Read.{
  check_applied, finish_read, lost_lead, take_read_index, wait_applied_to,
}
use raft_kv_raft_leveldb.Read.Fresh.{over, read_sees_commits, round}
use raft_kv_raft_leveldb.Run.{command, here, next}
use raft_kv_raft_leveldb.Leader.{append_command}
use raft_kv_raft_leveldb.StateMachine.{get_value}
use raft_kv_raft_leveldb.Types.{is_leader, leader, no_key, noop, not_leader}
use raft_kv_raft_leveldb.Common.{[], codes, refl, sym, true, ◌∙◌, ◌∷◌, ◌≡◌, ◌≢◌, ◌≤◌}
use raft_kv_raft_leveldb.Node.{RaftNode}
use raft_kv_raft_leveldb.Tests.Memory.{memory}
use raft_kv_raft_leveldb.Tests.Nodes.{node, node-IsValid}

-- The leader after another client's command.
abbrev busy : RaftNode memory
busy = (append_command noop (codes "c") (codes "x") (node leader)).0

no_key_differs : no_key ≢ not_leader
no_key_differs e = cc

busy_answers : (finish_read 2 (codes "a") busy).0 ≡ no_key
unfolding finish_read lost_lead append_command get_value
busy_answers = refl

read_sees_commits_example :
    (1 ≤ busy.last_applied)
    × (is_leader busy.state ≡ true)
    × (busy.current_term ≡ 2)
    × ((finish_read 2 (codes "a") busy).1 ≡ get_value memory busy.kv_store (codes "a"))
unfolding take_read_index lost_lead wait_applied_to check_applied
read_sees_commits_example =
    read_sees_commits 2 1 (codes "a") (node leader) busy (node leader ∷ []) (node-IsValid leader)
      refl (round here (over (next here (command noop (codes "c") (codes "x"))))) refl
      (λ e. no_key_differs (sym busy_answers ∙ e))
