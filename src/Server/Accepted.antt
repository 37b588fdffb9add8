-- ===== src/Server/Accepted.antt =====
-- The connections that src/rpc/TcpServer.cpp accepts, and what its loop watches for them.
use raft_kv_raft_leveldb.Server.{TcpServer, accept_one, erase, handle_accept, store}
use raft_kv_raft_leveldb.Connection.{
  Ctl, EventLoop, TcpConnection, enable_reading, make_channel, make_connection, update_channel,
}
use raft_kv_raft_leveldb.Connection.Watch.{IsLegal, IsOpen, make_connection-IsOpen, watched}
use raft_kv_raft_leveldb.Common.{
  All, Bool-cases, List, [], arith, false, inl, inr, none, refl, ℕ, ◌==◌, ◌∷◌, ◌∙◌, ◌≡◌,
}

-- A connection under its descriptor, watched as its state needs.
abbrev pub IsHeldOpen : EventLoop → ℕ × TcpConnection → Type 0
IsHeldOpen loop p = (p.1.channel.fd ≡ p.0) × IsOpen p.1 loop

-- Each connection of a server is open under its descriptor, and watched as its state needs; and no call of
-- epoll_ctl fails.
abbrev pub IsTended : TcpServer → Type 0
IsTended server = IsLegal server.loop.calls × All (IsHeldOpen server.loop) server.connections

-- The descriptors are different from each other, and none of them is watched.
abbrev pub AreNew : List ℕ → List Ctl → Type 0
AreNew [] calls = Unit
AreNew (fd ∷ fds) calls =
    (watched fd calls ≡ none) × All (λ j. (fd == j) ≡ false) fds × AreNew fds calls

watched-make_connection :
    (fd j : ℕ) (loop : EventLoop)
    → (fd == j) ≡ false
    → watched j (make_connection fd loop).1.calls ≡ watched j loop.calls
unfolding make_connection enable_reading update_channel make_channel
watched-make_connection fd j loop other = rw other refl

-- The connections that are open stay so when another descriptor is accepted; none of them has it, as it
-- was not watched.
others_open :
    (fd : ℕ) (loop : EventLoop) (connections : List (ℕ × TcpConnection))
    → watched fd loop.calls ≡ none
    → All (IsHeldOpen loop) connections
    → All (IsHeldOpen (make_connection fd loop).1) (erase fd connections)
unfolding erase
others_open fd loop [] fresh h = tt
others_open fd loop ((j, c) ∷ rest) fresh ((under, held), hs) =
    let others = others_open fd loop rest fresh hs in
    elim (Bool-cases (j == fd)) [
      | inl same ↦ rw same others
      | inr other ↦
          let (fd_is, inside, reading, writing, there) = held in
          let apart : (fd == c.channel.fd) ≡ false = ground (arith, under, other) in
          rw other (
            (
              under,
              (
                fd_is,
                inside,
                reading,
                writing,
                watched-make_connection fd c.channel.fd loop apart ∙ there,
              ),
            ),
            others,
          )
    ]

still_new :
    (fd : ℕ) (fds : List ℕ) (loop : EventLoop)
    → All (λ j. (fd == j) ≡ false) fds
    → AreNew fds loop.calls
    → AreNew fds (make_connection fd loop).1.calls
still_new fd [] loop apart new = tt
still_new fd (j ∷ fds) loop (other, apart) (fresh, each, new) =
    (watched-make_connection fd j loop other ∙ fresh, each, still_new fd fds loop apart new)

made_fd : (fd : ℕ) (loop : EventLoop) → (make_connection fd loop).0.channel.fd ≡ fd
unfolding make_connection enable_reading update_channel make_channel
made_fd fd loop = refl

new_behind :
    (fd : ℕ) (fds : List ℕ) (server : TcpServer)
    → All (λ j. (fd == j) ≡ false) fds
    → AreNew fds server.loop.calls
    → AreNew fds (accept_one fd server).loop.calls
unfolding accept_one
new_behind fd fds server each new = still_new fd fds server.loop each new

accept_one-IsTended :
    (fd : ℕ) (server : TcpServer)
    → watched fd server.loop.calls ≡ none
    → IsTended server
    → IsTended (accept_one fd server)
unfolding accept_one store
accept_one-IsTended fd server fresh (legal, held) =
    let (legal', is_open) = make_connection-IsOpen fd server.loop legal fresh in
    let others = others_open fd server.loop server.connections fresh held in
    (legal', ((made_fd fd server.loop, is_open), others))

-- handleAccept keeps it so that each connection of the server is open under its descriptor, watched
-- for reading and for writing as it needs, and that no call of epoll_ctl fails. The descriptors that
-- accept returns differ from each other and are not watched yet.
pub handle_accept-IsTended :
    (fds : List ℕ) (server : TcpServer)
    → AreNew fds server.loop.calls
    → IsTended server
    → IsTended (handle_accept fds server)
unfolding handle_accept
handle_accept-IsTended [] server new h = h
handle_accept-IsTended (fd ∷ fds) server (fresh, each, new) h =
    handle_accept-IsTended fds (accept_one fd server) (new_behind fd fds server each new)
      (accept_one-IsTended fd server fresh h)
