-- ===== src/Clerk.antt =====
-- src/client/clerk.cpp: the client library, which sends a command to one server after the other.
pub mod Hint
pub mod Search
use raft_kv_raft_leveldb.Input.{get_int, get_word, to_nat, ◌>>=◌}
use raft_kv_raft_leveldb.Wire.{Parsed, checked, outside, parsed, rejected}
use raft_kv_raft_leveldb.Common.{
  Bool, List, Option, Text, [], codes, false, get_elem?, if◌then◌else◌, leb, length, none, some,
  suc, text_eq, true, zero, ℕ, ◌%◌, ◌++◌, ◌+◌, ◌==◌, ◌∷◌,
}
use raft_kv_raft_leveldb.Types.{PeerInfo}
use raft_kv_raft_leveldb.Format.{show_nat}
use raft_kv_raft_leveldb.Storage.Load.{lines_of}

-- One line of the configuration file.
unfoldable pub get_node : Text → Option (Option PeerInfo)
get_node line = do
  (id, t₁) ← get_int line
  (ip, t₂) ← get_word t₁
  (port, t₃) ← get_int t₂
  some (do i ← to_nat id; p ← to_nat port; some (record { id = i; ip = ip; port = p }))

-- The node of a line in front of the nodes behind it.
abbrev pub add_node_line : Parsed PeerInfo → Parsed (List PeerInfo) → Parsed (List PeerInfo)
add_node_line rejected rest = rejected
add_node_line outside rejected = rejected
add_node_line outside outside = outside
add_node_line outside (parsed nodes) = outside
add_node_line (parsed node) rejected = rejected
add_node_line (parsed node) outside = outside
add_node_line (parsed node) (parsed nodes) = parsed (node ∷ nodes)

-- The loop of loadClusterConfig, which passes over empty lines and comments.
unfoldable pub load_nodes : List Text → Parsed (List PeerInfo)
load_nodes [] = parsed []
load_nodes ([] ∷ lines) = load_nodes lines
load_nodes ((c ∷ line) ∷ lines) =
    let rest = load_nodes lines in
    if c == 35 then rest else add_node_line (checked (get_node (c ∷ line))) rest

-- loadClusterConfig, on the content of the file if it can be opened
unfoldable pub load_cluster_config : Option Text → Parsed (List PeerInfo)
load_cluster_config none = rejected
load_cluster_config (some text) = load_nodes (lines_of text)

-- The state of a Clerk.
pub record Clerk : Type 0 where
  pub servers : List PeerInfo
  pub leader_hint : ℕ

-- The end of reloadServersFromConfig; `none` is a file with numbers that the model does not hold.
unfoldable pub take_servers : Parsed (List PeerInfo) → Clerk → Option Clerk
take_servers rejected c = some c
take_servers outside c = none
take_servers (parsed nodes) c = some (record {
  servers = nodes;
  leader_hint = if leb (length nodes) c.leader_hint then 0 else c.leader_hint;
})

-- reloadServersFromConfig
unfoldable pub reload_servers_from_config : Option Text → Clerk → Option Clerk
reload_servers_from_config file c = take_servers (load_cluster_config file) c

-- The loop of findNodeById over the nodes.
unfoldable pub find_id : ℕ → List PeerInfo → Option PeerInfo
find_id node_id [] = none
find_id node_id (n ∷ ns) = if n.id == node_id then some n else find_id node_id ns

abbrev pub find_parsed : ℕ → Parsed (List PeerInfo) → Option PeerInfo
find_parsed node_id rejected = none
find_parsed node_id outside = none
find_parsed node_id (parsed nodes) = find_id node_id nodes

-- findNodeById
unfoldable pub find_node_by_id : Option Text → ℕ → Option PeerInfo
find_node_by_id file node_id = find_parsed node_id (load_cluster_config file)

-- What a put, a delete and a change of the members make of a response.
unfoldable pub accept_ok : Text → Option (Option Text)
accept_ok resp = if text_eq resp (codes "OK") then some (some []) else none

-- `resp.rfind("VALUE ", 0) == 0` with `resp.substr(6)`
unfoldable pub without_prefix : Text → Text → Option Text
without_prefix [] text = some text
without_prefix (p ∷ ps) [] = none
without_prefix (p ∷ ps) (c ∷ cs) = let rest = without_prefix ps cs in if p == c then rest else none

-- What a get makes of a response: the value, no value, or none if it asks the next server.
unfoldable pub accept_value : Text → Option (Option Text)
accept_value resp = elim (without_prefix (codes "VALUE ") resp) [
  | some value ↦ some (some value)
  | none ↦ if text_eq resp (codes "NO_KEY") then some none else none
]

-- The requests of the commands.
unfoldable pub put_request : Text → Text → Text
put_request key value = codes "CPUT " ++ key ++ codes " " ++ value

unfoldable pub get_request : Text → Text
get_request key = codes "CGET " ++ key

unfoldable pub delete_request : Text → Text
delete_request key = codes "CDEL " ++ key

unfoldable pub add_request : PeerInfo → Text
add_request node =
    codes "CADD " ++ show_nat node.id ++ codes " " ++ node.ip ++ codes " " ++ show_nat node.port

unfoldable pub remove_request : ℕ → Text
remove_request node_id = codes "CREMOVE " ++ show_nat node_id

abbrev pub is_some {ℓ} : {A : Type ℓ} → Option A → Bool
is_some none = false
is_some (some a) = true

-- The value of an answer that has one.
abbrev pub or_none : Option (Option Text) → Option Text
or_none none = none
or_none (some value) = value

-- The answer of the server at an index, or that of the rounds behind it.
abbrev pub or_next : ℕ → Option (Option Text) → Option (ℕ × Option Text) → Option (ℕ × Option Text)
or_next idx none rest = rest
or_next idx (some result) rest = some (idx, result)

-- The Clerk and the answer behind the loop.
abbrev pub after_loop : Clerk → Option (ℕ × Option Text) → Clerk × Option (Option Text)
after_loop c none = (c, none)
after_loop c (some (idx, result)) = (record c { leader_hint = idx }, some result)

-- `send` is TcpClient::sendMessage at the attempts of one command: the response of a server, if one came.
module _ (send : ℕ → PeerInfo → Text → Option Text) where
  -- One round: the response of the server at `idx`, as `accept` takes it.
  unfoldable pub ask :
      (Text → Option (Option Text)) → Text → List PeerInfo → ℕ → ℕ → Option (Option Text)
  ask accept req servers attempt idx = do
    server ← get_elem? servers idx
    resp ← send attempt server req
    accept resp

  -- The loop over the servers from the hint on, over so many rounds: the index that answered and
  -- its answer.
  unfoldable pub ask_servers :
      (Text → Option (Option Text)) → Text → List PeerInfo → ℕ → ℕ → ℕ → Option (ℕ × Option Text)
  ask_servers accept req servers start zero i = none
  ask_servers accept req servers start (suc rounds) i =
      let idx = (start + i) % length servers in
      let rest = ask_servers accept req servers start rounds (i + 1) in
      or_next idx (ask accept req servers i idx) rest

  -- A whole command behind the reload: the Clerk with its hint, and the answer.
  unfoldable pub command :
      (Text → Option (Option Text)) → Text → Clerk → Clerk × Option (Option Text)
  command accept req c =
      after_loop c (ask_servers accept req c.servers c.leader_hint (length c.servers) 0)

  -- Clerk::put
  unfoldable pub put : Option Text → Text → Text → Clerk → Option (Clerk × Bool)
  put file key value c = do
    c₁ ← reload_servers_from_config file c
    let (c₂, outcome) = command accept_ok (put_request key value) c₁ in some (c₂, is_some outcome)

  -- Clerk::get, with the value where it returns true
  unfoldable pub get : Option Text → Text → Clerk → Option (Clerk × Option Text)
  get file key c = do
    c₁ ← reload_servers_from_config file c
    let (c₂, outcome) = command accept_value (get_request key) c₁ in some (c₂, or_none outcome)

  -- Clerk::del
  unfoldable pub del : Option Text → Text → Clerk → Option (Clerk × Bool)
  del file key c = do
    c₁ ← reload_servers_from_config file c
    let (c₂, outcome) = command accept_ok (delete_request key) c₁ in some (c₂, is_some outcome)

  -- Clerk::sendAdminCommand; `later` is the file when it is read again.
  unfoldable pub send_admin_command :
      Option Text → Option Text → Text → Clerk → Option (Clerk × Bool)
  send_admin_command file later req c = do
    c₁ ← reload_servers_from_config file c
    let (c₂, outcome) = command accept_ok req c₁ in
        elim (is_some outcome) [
          | false ↦ some (c₂, false)
          | true ↦ do c₃ ← reload_servers_from_config later c₂; some (c₃, true)
        ]

  -- Clerk::addNode, where the file is read three times
  unfoldable pub add_node :
      Option Text → Option Text → Option Text → ℕ → Clerk → Option (Clerk × Bool)
  add_node first file later node_id c = elim (find_node_by_id first node_id) [
    | none ↦ some (c, false)
    | some node ↦ send_admin_command file later (add_request node) c
  ]

  -- Clerk::removeNode
  unfoldable pub remove_node : Option Text → Option Text → ℕ → Clerk → Option (Clerk × Bool)
  remove_node file later node_id c = send_admin_command file later (remove_request node_id) c
