-- ===== src/Exchange/Get/Reached.antt =====
-- linearizableGet of src/raftCore/raft_node.cpp ends, as a sequence of the sections of Run.
use raft_kv_raft_leveldb.Exchange.{World}
use raft_kv_raft_leveldb.Platform.{Platform}
use raft_kv_raft_leveldb.Node.{RaftNode}
use raft_kv_raft_leveldb.Exchange.Get.{Found}

-- The predicate holds of the node that a get leaves.
abbrev pub OfFound : {P : Platform} → (RaftNode P → Type 0) → World P × Found → Type 0
OfFound Q r = Q r.0.0
