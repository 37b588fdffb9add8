-- ===== src/Connection/Served.antt =====
-- The requests that a connection of src/rpc/TcpConnection.cpp has served, in the bytes that it has received
-- and those that it sends.
use raft_kv_raft_leveldb.Socket.Streams.{All-append}
use raft_kv_raft_leveldb.Packet.{Buffer, encode_packet, try_decode_packet}
use raft_kv_raft_leveldb.Packet.Decode.{IsByte, try_decode_packet-encode}
use raft_kv_raft_leveldb.Packet.Stream.{IsSendable, packets}
use raft_kv_raft_leveldb.Common.{
  All, List, Text, [], append-nil, append_assoc, refl, some, ◌++◌, ◌∷◌, ◌≡◌,
}

packets-append : (xs ys : List Text) → packets (xs ++ ys) ≡ packets xs ++ packets ys
packets-append [] ys = refl
packets-append (x ∷ xs) ys =
    rw (packets-append xs ys, append_assoc (encode_packet x) (packets xs) (packets ys)) refl

-- The requests that were served, each with the state that it met.
module _ {S : Type 0} where
  abbrev pub requests : List (S × Text) → List Text
  requests [] = []
  requests ((s, req) ∷ served) = req ∷ requests served

  requests-append : (xs ys : List (S × Text)) → requests (xs ++ ys) ≡ requests xs ++ requests ys
  requests-append [] ys = refl
  requests-append ((s, req) ∷ xs) ys = rw (requests-append xs ys) refl

All-append_one :
    (xs : List Text) (x : Text) → All IsSendable xs → IsSendable x → All IsSendable (xs ++ x ∷ [])
All-append_one [] x h h' = (h', tt)
All-append_one (y ∷ xs) x h h' = (h.0, All-append_one xs x h.1 h')

module _ {S : Type 0} (handle_rpc_text : S → Text → S × Text) where
  -- The responses to them.
  abbrev pub responses : List (S × Text) → List Text
  responses [] = []
  responses ((s, req) ∷ served) = (handle_rpc_text s req).1 ∷ responses served

  responses-append : (xs ys : List (S × Text)) → responses (xs ++ ys) ≡ responses xs ++ responses ys
  responses-append [] ys = refl
  responses-append ((s, req) ∷ xs) ys = rw (responses-append xs ys) refl

  -- Bytes received, with those of them in the input buffer, and bytes to be sent, as the served requests
  -- have them.
  abbrev pub IsServed : List (S × Text) → Text → Text → Text → Type 0
  IsServed served received input sent =
      All IsSendable (requests served)
      × (received ≡ packets (requests served) ++ input)
      × (sent ≡ packets (responses served))
      × All IsByte input

  pub serve_one-IsServed :
      (served : List (S × Text)) (received input sent req : Text) (rest : Buffer) (s : S)
      → IsServed served received input sent
      → try_decode_packet (record { bytes = input }) ≡ some (req, rest)
      → IsServed
          (served ++ (s, req) ∷ [])
          received
          rest.bytes
          (sent ++ encode_packet (handle_rpc_text s req).1)
  serve_one-IsServed served received input sent req rest s (ok, got_is, sent_is, bytes) is =
      let (sendable, input_is, bytes') = try_decode_packet-encode input req rest bytes is in
      let requests' = requests-append served ((s, req) ∷ []) in
      let responses' = responses-append served ((s, req) ∷ []) in
      let resp = (handle_rpc_text s req).1 in
      (
        rw requests' (All-append_one (requests served) req ok sendable),
        rw
            (
              got_is,
              input_is,
              requests',
              packets-append (requests served) (req ∷ []),
              append-nil (encode_packet req),
              append_assoc (packets (requests served)) (encode_packet req) rest.bytes,
            )
            refl,
        rw
            (
              sent_is,
              responses',
              packets-append (responses served) (resp ∷ []),
              append-nil (encode_packet resp),
            )
            refl,
        bytes',
      )

  pub more-IsServed :
      (served : List (S × Text)) (received input sent t : Text)
      → All IsByte t
      → IsServed served received input sent
      → IsServed served (received ++ t) (input ++ t) sent
  more-IsServed served received input sent t some_bytes (ok, got_is, sent_is, bytes) = (
    ok,
    rw (got_is, append_assoc (packets (requests served)) input t) refl,
    sent_is,
    All-append input t bytes some_bytes,
  )
