-- ===== src/Server.antt =====
-- src/rpc/TcpServer.cpp: the connections of a server, and how it opens and accepts them. The events of a
-- connection are in Connection.
pub mod Accepted
pub mod Tended
use raft_kv_raft_leveldb.Connection.{
  Channel, EventLoop, Site, TcpConnection, enable_reading, is_closed, make_channel, make_connection,
}
use raft_kv_raft_leveldb.Common.{
  Bool, List, Option, [], false, if◌then◌else◌, none, some, true, ℕ, ◌==◌, ◌∷◌,
}

-- class TcpServer. `connections` is `connections_`, with at most one connection for a descriptor.
pub record TcpServer : Type 0 where
  pub port : ℕ
  pub listen_fd : Option ℕ
  pub running : Bool
  pub loop : EventLoop
  pub accept_channel : Option Channel
  pub connections : List (ℕ × TcpConnection)

-- TcpServer::TcpServer
unfoldable pub make_server : ℕ → TcpServer
make_server port = record {
  port = port;
  listen_fd = none;
  running = false;
  loop = record { calls = []; quit = false };
  accept_channel = none;
  connections = [];
}

-- TcpServer::start without the thread that it makes
unfoldable pub start : TcpServer → TcpServer
start server = record server { running = true }

-- TcpServer::startInLoop before the loop runs: the descriptor of `socket` if there is one, and whether
-- `bind` and `listen` succeed.
unfoldable pub start_in_loop : Option ℕ → Bool → Bool → TcpServer → TcpServer
start_in_loop none bound listening server = record server { listen_fd = none }
start_in_loop (some fd) false listening server = record server { listen_fd = some fd }
start_in_loop (some fd) true false server = record server { listen_fd = some fd }
start_in_loop (some fd) true true server =
    let (channel, loop) = enable_reading (make_channel fd) server.loop in
    record server { listen_fd = some fd; accept_channel = some channel; loop = loop }

-- EventLoop::quit
unfoldable pub quit : EventLoop → EventLoop
quit loop = record loop { quit = true }

-- TcpServer::stop behind the end of the thread
unfoldable pub stop : TcpServer → TcpServer
stop server = record server { running = false; loop = quit server.loop; listen_fd = none }

-- `connections_.erase`
unfoldable pub erase : ℕ → List (ℕ × TcpConnection) → List (ℕ × TcpConnection)
erase fd [] = []
erase fd ((j, c) ∷ rest) = let others = erase fd rest in if j == fd then others else (j, c) ∷ others

-- `connections_[fd] = conn`
unfoldable pub store : ℕ → TcpConnection → List (ℕ × TcpConnection) → List (ℕ × TcpConnection)
store fd c connections = (fd, c) ∷ erase fd connections

-- A round of the loop of handleAccept with a descriptor.
unfoldable pub accept_one : ℕ → TcpServer → TcpServer
accept_one fd server =
    let (c, loop) = make_connection fd server.loop in
    record server { connections = store fd c server.connections; loop = loop }

-- TcpServer::handleAccept, over the descriptors that accept returns before it fails.
unfoldable pub handle_accept : List ℕ → TcpServer → TcpServer
handle_accept [] server = server
handle_accept (fd ∷ fds) server = handle_accept fds (accept_one fd server)

-- The close callback of a connection.
unfoldable pub on_close : ℕ → TcpServer → TcpServer
on_close fd server = record server { connections = erase fd server.connections }

-- The connection of a descriptor.
unfoldable pub find_connection : ℕ → List (ℕ × TcpConnection) → Option TcpConnection
find_connection fd [] = none
find_connection fd ((j, c) ∷ rest) =
    let found = find_connection fd rest in if j == fd then some c else found

-- The server behind an event of the connection of a descriptor: its close callback has been called, if the
-- connection is closed.
unfoldable pub after_event : {K S : Type 0} → ℕ → TcpServer → Site K S → TcpServer
after_event fd server w =
    let server₁ = record server { loop = w.loop } in
    if is_closed w
    then on_close fd server₁
    else record server₁ { connections = store fd w.connection server.connections }
