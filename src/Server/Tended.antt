-- ===== src/Server/Tended.antt =====
-- A server of src/rpc/TcpServer.cpp over time: the descriptors that it accepts, and the events of its
-- connections, in any order.
use raft_kv_raft_leveldb.Server.{
  TcpServer, after_event, erase, find_connection, handle_accept, make_server, on_close,
  start_in_loop, store,
}
use raft_kv_raft_leveldb.Server.Accepted.{AreNew, IsHeldOpen, IsTended, handle_accept-IsTended}
use raft_kv_raft_leveldb.Connection.{
  enable_reading, update_channel, make_channel, EventLoop, Ready, Site, TcpConnection, handle_event,
  handled, is_closed,
}
use raft_kv_raft_leveldb.Connection.Apart.{handle_event-IsApart}
use raft_kv_raft_leveldb.Connection.Watch.{IsWatched, handle_event-IsWatched, watched}
use raft_kv_raft_leveldb.Socket.{Socket}
use raft_kv_raft_leveldb.Common.{
  All, Bool-cases, List, Text, [], arith, false, inl, inr, none, refl, some, sym, true, ℕ, ◌==◌,
  ◌∷◌, ◌∙◌, ◌≡◌,
}

never_some {ℓ} : {A : Type ℓ} (a : A) → none ≡ some a → ⊥
never_some a e = cc

found-IsHeldOpen :
    (fd : ℕ) (loop : EventLoop) (connections : List (ℕ × TcpConnection)) (c : TcpConnection)
    → All (IsHeldOpen loop) connections
    → find_connection fd connections ≡ some c
    → IsHeldOpen loop (fd, c)
unfolding find_connection
found-IsHeldOpen fd loop [] c hs is = absurd (never_some c is)
found-IsHeldOpen fd loop ((j, d) ∷ rest) c (h, hs) is = elim (Bool-cases (j == fd)) [
  | inl same ↦
      let at : j ≡ fd = ground (arith, same) in
      let it : some d ≡ some c = rw same at is in let it' : d ≡ c = cc it in rw (sym it', sym at) h
  | inr other ↦ found-IsHeldOpen fd loop rest c hs (rw other at is)
]

-- The other connections, where the loop watches their descriptors as before.
others_held :
    (fd : ℕ) (loop loop' : EventLoop) (connections : List (ℕ × TcpConnection))
    → ((j : ℕ) → (fd == j) ≡ false → watched j loop'.calls ≡ watched j loop.calls)
    → All (IsHeldOpen loop) connections
    → All (IsHeldOpen loop') (erase fd connections)
unfolding erase
others_held fd loop loop' [] keeps hs = tt
others_held fd loop loop' ((j, c) ∷ rest) keeps ((under, held), hs) =
    let others = others_held fd loop loop' rest keeps hs in
    elim (Bool-cases (j == fd)) [
      | inl same ↦ rw same others
      | inr other ↦
          let (fd_is, inside, reading, writing, there) = held in
          let apart : (fd == c.channel.fd) ≡ false = ground (arith, under, other) in
          rw other
            ((under, (fd_is, inside, reading, writing, keeps c.channel.fd apart ∙ there)), others)
    ]

module _ {K S : Type 0} (socket : Socket K) (handle_rpc_text : S → Text → S × Text) where
  -- A step of a server: it accepts descriptors that are not watched yet, or an event of one of its
  -- connections is handled that does not touch the channel behind its destruction.
  pub data Step (server : TcpServer) : TcpServer → Type 0 where
    accepts : (fds : List ℕ) → AreNew fds server.loop.calls → Step server (handle_accept fds server)
    tends :
        (fuel fd : ℕ) (ready : Ready) (c : TcpConnection) (k : K) (s : S) {w : Site K S}
        → find_connection fd server.connections ≡ some c
        → handle_event socket handle_rpc_text fuel ready
            (record { connection = c; loop = server.loop; kernel = k; state = s })
          ≡ some (handled w)
        → Step server (after_event fd server w)

  pub data Serves (server : TcpServer) : TcpServer → Type 0 where
    begins : Serves server server
    goes_on : {a b : TcpServer} → Serves server a → Step a b → Serves server b

  after_event-IsTended :
      (fd : ℕ) (server : TcpServer) (w : Site K S)
      → All (IsHeldOpen w.loop) (erase fd server.connections)
      → w.connection.channel.fd ≡ fd
      → IsWatched w
      → IsTended (after_event fd server w)
  unfolding after_event on_close store
  after_event-IsTended fd server w others same (legal, inl is_open) =
      let open_now : is_closed w ≡ false = rw is_open.0 refl in
      rw open_now (legal, ((same, is_open), others))
  after_event-IsTended fd server w others same (legal, inr closed) =
      let closed_now : is_closed w ≡ true = rw closed.0 refl in rw closed_now (legal, others)

  Step-IsTended : {a b : TcpServer} → IsTended a → Step a b → IsTended b
  Step-IsTended {a = a} h (accepts fds new) = handle_accept-IsTended fds a new h
  Step-IsTended {a = a} (legal, held) (tends fuel fd ready c k s {w = w} found is) =
      let site : Site K S = record { connection = c; loop = a.loop; kernel = k; state = s } in
      let (under, is_open) = found-IsHeldOpen fd a.loop a.connections c held found in
      after_event-IsTended fd a w
        (others_held fd a.loop w.loop a.connections
          (λ j other.
            (handle_event-IsApart j socket handle_rpc_text fuel ready site w is).1 (rw under other))
          held)
        ((handle_event-IsApart 0 socket handle_rpc_text fuel ready site w is).0 ∙ under)
        (handle_event-IsWatched socket handle_rpc_text fuel ready site w legal is_open is)

  -- A server that has opened its socket, after it has accepted any descriptors that were not watched, and
  -- after any events of its connections that do not touch a channel behind its destruction: each
  -- connection that it holds is open under its descriptor, watched for reading, and for writing exactly
  -- while bytes are left to send; and no call of epoll_ctl has failed.
  pub Serves-IsTended :
      (port fd : ℕ) {server : TcpServer}
      → Serves (start_in_loop (some fd) true true (make_server port)) server
      → IsTended server
  unfolding start_in_loop make_server enable_reading update_channel make_channel
  Serves-IsTended port fd begins = ((refl, tt), tt)
  Serves-IsTended port fd (goes_on before step) =
      Step-IsTended (Serves-IsTended port fd before) step
