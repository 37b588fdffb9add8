-- ===== src/Connection.antt =====
-- src/rpc/TcpConnection.cpp with src/rpc/Channel.h, src/rpc/Channel.cpp and the calls of epoll_ctl in
-- src/rpc/EventLoop.h: a connection of the server, driven by the events of its descriptor.
mod Events
pub mod Apart
pub mod Freed
pub mod Served
pub mod Life
pub mod Roundtrip
pub mod Watch
use raft_kv_raft_leveldb.Input.{◌>>=◌}
use raft_kv_raft_leveldb.Socket.{Socket, read_fd, write_fd}
use raft_kv_raft_leveldb.Packet.{Buffer, append, encode_packet, readable_bytes, try_decode_packet}
use raft_kv_raft_leveldb.Common.{
  Bool, List, Option, Text, [], false, if◌then◌else◌, none, some, suc, true, zero, ℕ, ◌==◌, ◌∷◌,
}

-- A call of epoll_ctl: the descriptor, and whether it is watched for reading and for writing.
pub data Ctl : Type 0 where
  ctl_add : ℕ → Bool → Bool → Ctl
  ctl_mod : ℕ → Bool → Bool → Ctl
  ctl_del : ℕ → Ctl

-- class EventLoop: its calls of epoll_ctl, the last one first, and `quit_`.
pub record EventLoop : Type 0 where
  pub calls : List Ctl
  pub quit : Bool

-- class Channel. `reading` and `writing` are the bits EPOLLIN and EPOLLOUT of `events_`.
pub record Channel : Type 0 where
  pub fd : ℕ
  pub reading : Bool
  pub writing : Bool
  pub in_epoll : Bool

-- The constructor of Channel.
unfoldable pub make_channel : ℕ → Channel
make_channel fd = record { fd = fd; reading = false; writing = false; in_epoll = false }

-- EventLoop::updateChannel
unfoldable pub update_channel : Channel → EventLoop → Channel × EventLoop
update_channel c loop =
    if c.in_epoll
    then (c, record loop { calls = ctl_mod c.fd c.reading c.writing ∷ loop.calls })
    else (
      record c { in_epoll = true },
      record loop { calls = ctl_add c.fd c.reading c.writing ∷ loop.calls },
    )

-- EventLoop::removeChannel
unfoldable pub remove_channel : Channel → EventLoop → Channel × EventLoop
remove_channel c loop =
    if c.in_epoll
    then (record c { in_epoll = false }, record loop { calls = ctl_del c.fd ∷ loop.calls })
    else (c, loop)

-- Channel::enableReading
unfoldable pub enable_reading : Channel → EventLoop → Channel × EventLoop
enable_reading c loop = update_channel (record c { reading = true }) loop

-- Channel::enableWriting
unfoldable pub enable_writing : Channel → EventLoop → Channel × EventLoop
enable_writing c loop = update_channel (record c { writing = true }) loop

-- Channel::disableWriting
unfoldable pub disable_writing : Channel → EventLoop → Channel × EventLoop
disable_writing c loop = update_channel (record c { writing = false }) loop

-- Channel::disableAll
unfoldable pub disable_all : Channel → EventLoop → Channel × EventLoop
disable_all c loop = update_channel (record c { reading = false; writing = false }) loop

-- class TcpConnection. `fd` is none where `fd_` is -1.
pub record TcpConnection : Type 0 where
  pub fd : Option ℕ
  pub channel : Channel
  pub input : Buffer
  pub output : Buffer

-- A connection, the loop that watches it, the state of its socket, and the state that handleRpcText
-- works on.
pub record Site (K S : Type 0) : Type 0 where
  pub connection : TcpConnection
  pub loop : EventLoop
  pub kernel : K
  pub state : S

-- The constructor of TcpConnection.
unfoldable pub make_connection : ℕ → EventLoop → TcpConnection × EventLoop
make_connection fd loop =
    let (c, loop₁) = enable_reading (make_channel fd) loop in
    (
      record {
        fd = some fd;
        channel = c;
        input = record { bytes = [] };
        output = record { bytes = [] };
      },
      loop₁,
    )

-- `revents_`: EPOLLHUP or EPOLLERR, EPOLLIN, EPOLLOUT.
pub record Ready : Type 0 where
  pub hang_up : Bool
  pub readable : Bool
  pub writable : Bool

-- Whether the members of a channel are read behind the destruction of its connection.
pub data Handled (A : Type 0) : Type 0 where
  handled : A → Handled A
  dangling : Handled A

module _ {K S : Type 0} where
  -- A change of the channel and the loop.
  abbrev pub on_channel : (Channel → EventLoop → Channel × EventLoop) → Site K S → Site K S
  on_channel change w =
      let (c, loop) = change w.connection.channel w.loop in
      record w { connection = record w.connection { channel = c }; loop = loop }

  -- TcpConnection::handleClose. Its callback erases the connection from the server, which destroys it.
  unfoldable pub handle_close : Site K S → Site K S
  handle_close w =
      let w₁ = on_channel remove_channel w in
      record w₁ { connection = record w₁.connection { fd = none } }

  abbrev pub is_closed : Site K S → Bool
  is_closed w = elim w.connection.fd [ none ↦ true | some fd ↦ false ]

module _ {K S : Type 0} (socket : Socket K) (handle_rpc_text : S → Text → S × Text) where
  -- A round of the loop of handleRead before enableWriting, on a request and what is left of the
  -- input.
  abbrev pub put_answer : Text × Buffer → Site K S → Site K S
  put_answer (req, rest) w =
      let (state, resp) = handle_rpc_text w.state req in
      let c = w.connection in
      record w {
        connection = record c { input = rest; output = append c.output (encode_packet resp) };
        state = state;
      }

  abbrev pub answer_request : Text × Buffer → Site K S → Site K S
  answer_request packet w = on_channel enable_writing (put_answer packet w)

  -- The loop of handleRead over the packets. Each round consumes bytes, so that their number is
  -- fuel enough.
  unfoldable pub answer_requests : ℕ → Site K S → Site K S
  answer_requests zero w = w
  answer_requests (suc fuel) w = elim (try_decode_packet w.connection.input) [
    | none ↦ w
    | some packet ↦ answer_requests fuel (answer_request packet w)
  ]

  -- handleRead behind readFd
  abbrev pub after_read : Site K S → Buffer × K × Bool → Site K S
  after_read w (input, k, ok) =
      let w₁ = record w { connection = record w.connection { input = input }; kernel = k } in
      let served = answer_requests (readable_bytes input) w₁ in
      if ok then served else handle_close w₁

  -- TcpConnection::handleRead, where readFd calls recv at most so many times.
  unfoldable pub handle_read : ℕ → Site K S → Option (Site K S)
  handle_read fuel w = do
    out ← read_fd socket fuel w.connection.input w.kernel
    some (after_read w out)

  -- handleWrite behind writeFd
  abbrev pub after_write : Site K S → Buffer × K × Bool → Site K S
  after_write w (output, k, ok) =
      let w₁ = record w { connection = record w.connection { output = output }; kernel = k } in
      if ok
      then if readable_bytes output == 0 then handle_close (on_channel disable_writing w₁) else w₁
      else handle_close w₁

  -- TcpConnection::handleWrite
  unfoldable pub handle_write : Site K S → Site K S
  handle_write w = after_write w (write_fd socket w.connection.output w.kernel)

  -- Channel::handleEvent behind the read callback, which reads `revents_` of the channel again.
  abbrev pub behind_read : Ready → Site K S → Handled (Site K S)
  behind_read ready w =
      if is_closed w then dangling else handled (if ready.writable then handle_write w else w)

  -- Channel::handleEvent with the callbacks of a connection.
  unfoldable pub handle_event : ℕ → Ready → Site K S → Option (Handled (Site K S))
  handle_event fuel ready w = if ready.hang_up then some (handled (handle_close w)) else do
    w₁ ← if ready.readable then handle_read fuel w else some w
    some (behind_read ready w₁)
