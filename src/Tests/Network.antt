-- ===== src/Tests/Network.antt =====
-- A connection of a server that sends each request back, over a pipe that moves one byte in each call.
use raft_kv_raft_leveldb.Connection.{
  make_channel, update_channel, enable_reading, handle_close, handle_write, answer_requests,
  handle_read, EventLoop, Handled, Ready, Site, dangling, handle_event, handled, make_connection,
}
use raft_kv_raft_leveldb.Connection.Freed.{handle_event_dangling}
use raft_kv_raft_leveldb.Connection.Life.{IsAnswering, Life, Life-IsAnswering, event, later, new}
use raft_kv_raft_leveldb.Connection.Roundtrip.{send_message-answer}
use raft_kv_raft_leveldb.Connection.Watch.{IsWatched, handle_event-IsWatched}
use raft_kv_raft_leveldb.Server.{
  store, accept_one, find_connection, TcpServer, after_event, handle_accept, make_server,
  start_in_loop,
}
use raft_kv_raft_leveldb.Server.Accepted.{IsTended}
use raft_kv_raft_leveldb.Server.Tended.{Serves, Serves-IsTended, accepts, begins, goes_on, tends}
use raft_kv_raft_leveldb.Socket.{
  write_rounds, write_fd, Socket, read_fd, recv_error, send_message, took,
}
use raft_kv_raft_leveldb.Socket.Streams.{IsRead, read_fd-IsRead}
use raft_kv_raft_leveldb.Packet.{
  ntohl_bytes, try_decode_packet, append, readable_bytes, Buffer, encode_packet,
}
use raft_kv_raft_leveldb.Tests.Pipe.{Pipe, pipe, pipe-Steady, pipe_laws}
use raft_kv_raft_leveldb.Common.{
  Bool, Option, Text, [], arith, codes, false, none, refl, some, true, ℕ, ◌+◌, ◌++◌, ◌∷◌, ◌↔◌, ◌≡◌,
}

-- A server that counts the requests and sends them back.
abbrev echo : ℕ → Text → ℕ × Text
echo served body = (served + 1, body)

abbrev request : Text
request = codes "GET a"

-- The bytes of the packet of this request.
abbrev packet : Text
packet = 0 ∷ 0 ∷ 0 ∷ 5 ∷ request

abbrev loop : EventLoop
loop = record { calls = []; quit = false }

-- A new connection, to which the packet comes.
abbrev begun : Site Pipe ℕ
begun = record {
  connection = (make_connection 7 loop).0;
  loop = (make_connection 7 loop).1;
  kernel = record {
    given = [];
    coming = packet;
    gone = [];
    bytes = (
      omega arith,
      (
        omega arith,
        (
          omega arith,
          (
            omega arith,
            (omega arith, (omega arith, (omega arith, (omega arith, (omega arith, tt))))),
          ),
        ),
      ),
    );
  };
  state = 0;
}

abbrev readable : Ready
readable = record { hang_up = false; readable = true; writable = false }

abbrev writable : Ready
writable = record { hang_up = false; readable = false; writable = true }

-- The state behind an event.
abbrev behind : Site Pipe ℕ → Option (Handled (Site Pipe ℕ)) → Site Pipe ℕ
behind w none = w
behind w (some dangling) = w
behind w (some (handled w')) = w'

abbrev served : Site Pipe ℕ
served = behind begun (handle_event pipe echo 20 readable begun)

abbrev finished : Site Pipe ℕ
finished = behind served (handle_event pipe echo 20 writable served)

Life-served : Life pipe_laws echo begun served
unfolding handle_event make_connection handle_read read_fd answer_requests readable_bytes append
    try_decode_packet ntohl_bytes
Life-served = later new (event {w = begun} {w' = served} 20 readable (omega arith) refl)

life : Life pipe_laws echo begun finished
unfolding handle_event make_connection handle_read read_fd answer_requests readable_bytes append
    try_decode_packet ntohl_bytes
life = later Life-served (event {w = served} {w' = finished} 20 writable (omega arith) refl)

Life-IsAnswering_example : IsAnswering pipe_laws echo finished
unfolding make_connection
Life-IsAnswering_example = Life-IsAnswering pipe_laws echo refl refl refl refl life

-- The client's end, to which the response comes.
abbrev client : Pipe
client = record begun.kernel { gone = [] }

send_message-answer_example :
    let (response, c) = send_message pipe true request client in
    (pipe_laws.gone c ≡ pipe_laws.gone client ++ encode_packet request)
    × ((s : ℕ) × (response ≡ some (echo s request).1))
unfolding make_connection encode_packet handle_event handle_read read_fd answer_requests
    readable_bytes append try_decode_packet ntohl_bytes handle_write write_fd write_rounds
    handle_close
send_message-answer_example =
    send_message-answer pipe_laws pipe-Steady pipe_laws echo request client
      (omega arith, omega arith) (λ s. (omega arith, omega arith)) refl refl refl refl life refl
      refl (omega arith) refl

handle_event-IsWatched_example : IsWatched served
unfolding make_connection enable_reading update_channel make_channel handle_event handle_read
    read_fd answer_requests readable_bytes append try_decode_packet ntohl_bytes
handle_event-IsWatched_example =
    handle_event-IsWatched pipe echo 20 readable begun served (refl, tt)
      (refl, refl, refl, refl, refl) refl

read_fd-IsRead_example :
    (out : Buffer × Pipe × Bool) × (read_fd pipe 20 (record { bytes = [] }) begun.kernel ≡ some out)
    × IsRead pipe_laws (record { bytes = [] }) begun.kernel out
read_fd-IsRead_example =
    read_fd-IsRead pipe_laws 20 (record { bytes = [] }) begun.kernel (omega arith)

-- A socket whose peer has gone.
abbrev broken : Socket ℕ
broken = record { recv = λ k size. (recv_error, k); send = λ k chars. (took 0, k) }

abbrev dropped : Site ℕ ℕ
dropped = record {
  connection = (make_connection 7 loop).0;
  loop = (make_connection 7 loop).1;
  kernel = 0;
  state = 0;
}

handle_event_dangling_example :
    (handle_event broken echo 5 readable dropped ≡ some dangling) ↔ (false ≡ false)
unfolding make_connection read_fd
handle_event_dangling_example =
    handle_event_dangling broken echo 5 7 readable dropped (record { bytes = [] }) 0 false refl refl
      refl refl

abbrev listening : TcpServer
listening = start_in_loop (some 3) true true (make_server 9001)

-- The connection that the server accepts, with the packet on its way.
abbrev accepted : TcpServer
accepted = handle_accept (7 ∷ []) listening

abbrev arrived : Site Pipe ℕ
arrived = record begun { connection = (make_connection 7 listening.loop).0; loop = accepted.loop }

abbrev answered : Site Pipe ℕ
answered = behind arrived (handle_event pipe echo 20 readable arrived)

serving : Serves pipe echo listening (after_event 7 accepted answered)
unfolding handle_event make_connection handle_accept start_in_loop make_server enable_reading
    update_channel make_channel find_connection accept_one store handle_read read_fd answer_requests
    readable_bytes append try_decode_packet ntohl_bytes
serving =
    goes_on (goes_on begins (accepts (7 ∷ []) (refl, tt, tt)))
      (tends 20 7 readable arrived.connection arrived.kernel 0 {w = answered} refl refl)

Serves-IsTended_example : IsTended (after_event 7 accepted answered)
Serves-IsTended_example = Serves-IsTended pipe echo 9001 3 serving
