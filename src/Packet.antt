-- ===== src/Packet.antt =====
-- Packets of src/rpc/Buffer.h and src/rpc/TcpConnection.cpp: a length of four bytes in network order,
-- and the body. A buffer is what has arrived and is not yet consumed.
pub mod Stream
pub mod Decode
use raft_kv_raft_leveldb.Common.{
  Option, Text, [], drop, if◌then◌else◌, length, ltb, none, some, suc, take, zero, ℕ, ◌%◌, ◌*◌,
  ◌++◌, ◌+◌, ◌/◌, ◌==◌, ◌^◌, ◌||◌, ◌∷◌,
}

-- class Buffer, with `data_`
pub record Buffer : Type 0 where
  pub bytes : Text

-- Buffer::append
unfoldable pub append : Buffer → Text → Buffer
append b s = record { bytes = b.bytes ++ s }

-- Buffer::readableBytes
unfoldable pub readable_bytes : Buffer → ℕ
readable_bytes b = length b.bytes

-- Buffer::retrieve
unfoldable pub retrieve : Buffer → ℕ → Buffer
retrieve b len = record { bytes = drop len b.bytes }

-- The bytes of `htonl(static_cast<uint32_t>(size))` in memory.
unfoldable pub htonl_bytes : ℕ → Text
htonl_bytes size =
    let len = size % 2 ^ 32 in
    (len / 16777216) ∷ (len / 65536 % 256) ∷ (len / 256 % 256) ∷ (len % 256) ∷ []

-- `ntohl` of the first four bytes.
unfoldable pub ntohl_bytes : Text → ℕ
ntohl_bytes (a ∷ b ∷ c ∷ d ∷ rest) = ((a * 256 + b) * 256 + c) * 256 + d
ntohl_bytes _ = 0

-- encodePacket
unfoldable pub encode_packet : Text → Text
unfolding htonl_bytes
encode_packet body = htonl_bytes (length body) ++ body

-- The largest body that a packet may have, 64 MiB.
abbrev pub max_body : ℕ
max_body = 67108864

-- tryDecodePacket: the body, and the buffer after it.
unfoldable pub try_decode_packet : Buffer → Option (Text × Buffer)
unfolding readable_bytes retrieve
try_decode_packet input =
    if ltb (readable_bytes input) 4
    then none
    else let len = ntohl_bytes input.bytes in
      if (len == 0) || ltb max_body len
      then none
      else if ltb (readable_bytes input) (4 + len)
      then none
      else let input₁ = retrieve input 4 in some (take len input₁.bytes, retrieve input₁ len)

module _ {ℓ} {S : Type ℓ} (handle_rpc_text : S → Text → S × Text) where
  -- The loop of TcpConnection::handleRead with fuel for its rounds: the input, the output and the
  -- state that handleRpcText works on.
  unfoldable pub serve : ℕ → Buffer → Buffer → S → Buffer × Buffer × S
  serve zero input output s = (input, output, s)
  serve (suc fuel) input output s = elim (try_decode_packet input) [
    | none ↦ (input, output, s)
    | some packet ↦
        serve fuel packet.1 (append output (encode_packet (handle_rpc_text s packet.0).1))
          (handle_rpc_text s packet.0).0
  ]

  -- TcpConnection::handleRead after the bytes have been read into the input buffer. Each round
  -- consumes bytes, so that their number is fuel enough.
  unfoldable pub handle_read : Buffer → Buffer → S → Buffer × Buffer × S
  handle_read input output s = serve (readable_bytes input) input output s
