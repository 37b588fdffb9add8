-- ===== src/Socket.antt =====
-- The loops around recv and send: Buffer::readFd and Buffer::writeFd of src/rpc/Buffer.h, and writeN, readN
-- and TcpClient::sendMessage of src/rpc/tcp_client.cpp. A socket is a parameter, with its own state.
pub mod Streams
pub mod Client
use raft_kv_raft_leveldb.Packet.{Buffer, append, encode_packet, max_body, ntohl_bytes}
use raft_kv_raft_leveldb.Common.{
  Bool, Option, Text, [], drop, false, if◌then◌else◌, length, ltb, none, some, suc, take, true,
  zero, ℕ, ◌++◌, ◌-◌, ◌==◌, ◌||◌, ◌∷◌,
}

-- What recv returns: bytes, none at the end of the stream, or -1 with errno.
pub data Received : Type 0 where
  got : Text → Received
  recv_again : Received
  recv_error : Received

-- What send returns: the number of bytes that it takes, or -1 with errno.
pub data Sent : Type 0 where
  took : ℕ → Sent
  send_again : Sent
  send_error : Sent

-- The calls on a connected socket: recv with the size of the array, and send with the bytes.
pub record Socket (K : Type 0) : Type 0 where
  pub recv : K → ℕ → Received × K
  pub send : K → Text → Sent × K

module _ {K : Type 0} (socket : Socket K) where
  -- A round of the loop of readFd behind recv.
  abbrev pub read_round :
      Received × K → Buffer → (Buffer → K → Option (Buffer × K × Bool)) → Option (Buffer × K × Bool)
  read_round (got [], k) b rest = some (b, k, false)
  read_round (got (c ∷ t), k) b rest = rest (append b (c ∷ t)) k
  read_round (recv_again, k) b rest = some (b, k, true)
  read_round (recv_error, k) b rest = some (b, k, false)

  -- Buffer::readFd, over at most so many calls of recv.
  unfoldable pub read_fd : ℕ → Buffer → K → Option (Buffer × K × Bool)
  read_fd zero b k = none
  read_fd (suc fuel) b k = read_round (socket.recv k 4096) b (read_fd fuel)

  -- A round of the loop of writeFd behind send: the bytes that are left.
  abbrev pub write_round : Sent × K → Text → (Text → K → Text × K × Bool) → Text × K × Bool
  write_round (took zero, k) chars rest = (chars, k, false)
  write_round (took (suc n), k) chars rest = rest (drop (suc n) chars) k
  write_round (send_again, k) chars rest = (chars, k, true)
  write_round (send_error, k) chars rest = (chars, k, false)

  unfoldable pub write_rounds : ℕ → Text → K → Text × K × Bool
  write_rounds fuel [] k = ([], k, true)
  write_rounds zero (c ∷ chars) k = (c ∷ chars, k, true)
  write_rounds (suc fuel) (c ∷ chars) k =
      write_round (socket.send k (c ∷ chars)) (c ∷ chars) (write_rounds fuel)

  -- Buffer::writeFd. Each round but the last consumes bytes, so that their number is fuel enough.
  unfoldable pub write_fd : Buffer → K → Buffer × K × Bool
  write_fd b k =
      let (left, k₁, ok) = write_rounds (length b.bytes) b.bytes k in
      (record { bytes = left }, k₁, ok)

  -- A round of the loop of writeN behind send.
  abbrev pub write_n_round : Sent × K → Text → (Text → K → K × Bool) → K × Bool
  write_n_round (took zero, k) chars rest = (k, false)
  write_n_round (took (suc n), k) chars rest = rest (drop (suc n) chars) k
  write_n_round (send_again, k) chars rest = (k, false)
  write_n_round (send_error, k) chars rest = (k, false)

  -- writeN, on the bytes that are left, with fuel for its rounds
  unfoldable pub write_n : ℕ → Text → K → K × Bool
  write_n fuel [] k = (k, true)
  write_n zero (c ∷ chars) k = (k, false)
  write_n (suc fuel) (c ∷ chars) k =
      write_n_round (socket.send k (c ∷ chars)) (c ∷ chars) (write_n fuel)

  -- A round of the loop of readN behind recv, where so many bytes are missing.
  abbrev pub read_n_round :
      Received × K → ℕ → Text → (ℕ → Text → K → Option Text × K) → Option Text × K
  read_n_round (got [], k) missing buf rest = (none, k)
  read_n_round (got (c ∷ t), k) missing buf rest = rest (missing - length (c ∷ t)) (buf ++ c ∷ t) k
  read_n_round (recv_again, k) missing buf rest = (none, k)
  read_n_round (recv_error, k) missing buf rest = (none, k)

  -- readN, on the bytes that are missing and those that it has read, with fuel for its rounds
  unfoldable pub read_n : ℕ → ℕ → Text → K → Option Text × K
  read_n fuel zero buf k = (some buf, k)
  read_n zero (suc missing) buf k = (none, k)
  read_n (suc fuel) (suc missing) buf k =
      read_n_round (socket.recv k (suc missing)) (suc missing) buf (read_n fuel)

  -- The end of sendMessage behind the four bytes of the length.
  abbrev pub read_body : Option Text × K → Option Text × K
  read_body (none, k) = (none, k)
  read_body (some header, k) =
      let len = ntohl_bytes header in
      let response = read_n len len [] k in
      if (len == 0) || ltb max_body len then (none, k) else response

  abbrev pub read_response : K × Bool → Option Text × K
  read_response (k, false) = (none, k)
  read_response (k, true) = read_body (read_n 4 4 [] k)

  -- TcpClient::sendMessage, where `connected` says that the socket, the address and the connection
  -- were made. The response, if there is one.
  unfoldable pub send_message : Bool → Text → K → Option Text × K
  send_message connected request k =
      let packet = encode_packet request in
      let response = read_response (write_n (length packet) packet k) in
      if connected then response else (none, k)
