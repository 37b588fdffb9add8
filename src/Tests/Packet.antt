-- ===== src/Tests/Packet.antt =====
-- Packets at concrete inputs.
use raft_kv_raft_leveldb.Packet.{
  append, ntohl_bytes, try_decode_packet, readable_bytes, serve, encode_packet, handle_read,
}
use raft_kv_raft_leveldb.Packet.Stream.{packets}
use raft_kv_raft_leveldb.Common.{Text, [], codes, refl, ℕ, ◌++◌, ◌+◌, ◌∷◌, ◌≡◌}

-- A server that counts the requests and sends them back.
abbrev echo : ℕ → Text → ℕ × Text
echo served body = (served + 1, body)

-- Two packets and a part of a third in the buffer.
handle_read_run :
    handle_read echo
      (record { bytes = packets (codes "GET a" ∷ codes "GET b" ∷ []) ++ 0 ∷ 0 ∷ [] })
      (record { bytes = [] })
      0
    ≡ (
      record { bytes = 0 ∷ 0 ∷ [] },
      record { bytes = packets (codes "GET a" ∷ codes "GET b" ∷ []) },
      2,
    )
unfolding encode_packet handle_read serve readable_bytes try_decode_packet ntohl_bytes append
handle_read_run = refl
