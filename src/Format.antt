-- ===== src/Format.antt =====
-- The text of numbers, configurations and log entries as src/raftCore/raft_node.cpp and
-- src/persistence/storage.cpp write them to an output stream.
use raft_kv_raft_leveldb.Common.{
  List, Option, Text, [], codes, if◌then◌else◌, length, ltb, none, some, suc, zero, ℕ, ◌%◌, ◌++◌,
  ◌+◌, ◌/◌, ◌∷◌,
}
use raft_kv_raft_leveldb.Types.{
  CommandType, LogEntry, PeerInfo, config_joint, config_new, del, get, noop, put,
}

unfoldable pub show_digits : ℕ → ℕ → Text
show_digits zero n = []
show_digits (suc fuel) n =
    let rest = show_digits fuel (n / 10) in
    if ltb n 10 then (n + 48) ∷ [] else rest ++ (n % 10 + 48) ∷ []

-- `oss << n` for a number that is 0 or above.
unfoldable pub show_nat : ℕ → Text
unfolding show_digits
show_nat n = show_digits (suc n) n

-- `oss << n` where -1 is `none`.
unfoldable pub show_option : Option ℕ → Text
show_option none = codes "-1"
show_option (some n) = show_nat n

-- static_cast<int>(e.op)
unfoldable pub op_code : CommandType → ℕ
op_code put = 0
op_code get = 1
op_code del = 2
op_code noop = 3
op_code config_joint = 4
op_code config_new = 5

abbrev pub space : Text
space = codes " "

abbrev pub newline : Text
newline = 10 ∷ []

unfoldable pub show_peers : List PeerInfo → Text
show_peers [] = []
show_peers (n ∷ ns) =
    space ++ show_nat n.id ++ space ++ n.ip ++ space ++ show_nat n.port ++ show_peers ns

-- encodeConfig
unfoldable pub encode_config : List PeerInfo → Text
encode_config nodes = show_nat (length nodes) ++ show_peers nodes

-- One line for a log entry, in the state file and in an AppendEntries request.
unfoldable pub show_entry : LogEntry → Text
show_entry e =
    show_nat e.index
    ++ space
    ++ show_nat e.term
    ++ space
    ++ show_nat (op_code e.op)
    ++ space
    ++ e.key
    ++ space
    ++ e.value
    ++ space
    ++ encode_config e.old_config
    ++ space
    ++ encode_config e.new_config
    ++ newline

unfoldable pub show_entries : List LogEntry → Text
show_entries [] = []
show_entries (e ∷ es) = show_entry e ++ show_entries es
