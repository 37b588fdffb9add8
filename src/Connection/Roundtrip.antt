-- ===== src/Connection/Roundtrip.antt =====
-- TcpClient::sendMessage of src/rpc/tcp_client.cpp and a connection of src/rpc/TcpConnection.cpp at the two
-- ends of a stream.
use raft_kv_raft_leveldb.Connection.{Site}
use raft_kv_raft_leveldb.Connection.Life.{Life, Life-IsAnswering}
use raft_kv_raft_leveldb.Connection.Served.{IsServed, requests}
use raft_kv_raft_leveldb.Socket.{Socket, send_message}
use raft_kv_raft_leveldb.Socket.Client.{Steady, send_message-packet}
use raft_kv_raft_leveldb.Socket.Streams.{StreamLaws}
use raft_kv_raft_leveldb.Packet.{encode_packet, htonl_bytes}
use raft_kv_raft_leveldb.Packet.Stream.{IsSendable, packets, try_decode-encode}
use raft_kv_raft_leveldb.Common.{
  List, Text, [], append-nil, append_assoc, ap, arith, length, refl, some, sym, true, ◌++◌, ◌<◌,
  ◌∙◌, ◌∷◌, ◌≡◌,
}

some_inj {ℓ} : {A : Type ℓ} {x y : A} → some x ≡ some y → x ≡ y
some_inj e = cc

-- Two packets that begin the same bytes are one.
same_packet :
    (req req' rest rest' : Text)
    → IsSendable req
    → IsSendable req'
    → encode_packet req ++ rest ≡ encode_packet req' ++ rest'
    → (req ≡ req') × (rest ≡ rest')
same_packet req req' rest rest' h h' same =
    let one = try_decode-encode req rest h in
    let other = try_decode-encode req' rest' h' in
    let both : (req, record { bytes = rest }) ≡ (req', record { bytes = rest' }) =
      some_inj (sym one ∙ rw same other) in
    (ap (λ p. p.0) both, ap (λ p. p.1.bytes) both)

no_packet : (req rest : Text) → encode_packet req ++ rest ≡ [] → ⊥
unfolding encode_packet htonl_bytes
no_packet req rest e = cc

first_request :
    (req request rest : Text)
    → IsSendable req
    → IsSendable request
    → encode_packet request ≡ encode_packet req ++ rest
    → (req ≡ request) × (rest ≡ [])
first_request req request rest h h' same =
    same_packet req request rest [] h h' (sym same ∙ sym (append-nil (encode_packet request)))

-- Where one packet was received, and something sent, it was that request that was answered.
served_one :
    {S : Type 0} (handle_rpc_text : S → Text → S × Text) (served : List (S × Text))
    (request input sent : Text)
    → IsSendable request
    → 0 < length sent
    → IsServed handle_rpc_text served (encode_packet request) input sent
    → (s : S) × (sent ≡ encode_packet (handle_rpc_text s request).1)
served_one handle_rpc_text [] request input sent h some_sent (ok, got_is, sent_is, bytes) =
    absurd (omega (arith, some_sent, ap length sent_is))
served_one handle_rpc_text ((s, req) ∷ []) request input sent h some_sent
      (ok, got_is, sent_is, bytes) =
    let (same, rest) =
      first_request req request ([] ++ input) ok.0 h
        (got_is ∙ append_assoc (encode_packet req) [] input) in
    (s, sent_is ∙ rw (same, append-nil (encode_packet (handle_rpc_text s request).1)) refl)
served_one handle_rpc_text ((s, req) ∷ (s', req') ∷ served) request input sent h some_sent
      (ok, got_is, sent_is, bytes) =
    let more = packets (requests ((s', req') ∷ served)) in
    let (same, rest) =
      first_request req request (more ++ input) ok.0 h
        (got_is ∙ append_assoc (encode_packet req) more input) in
    absurd (
      no_packet req' (packets (requests served) ++ input)
        (sym (append_assoc (encode_packet req') (packets (requests served)) input) ∙ rest))

module _ {C K S : Type 0} {client_socket : Socket C} {socket : Socket K}
    (client : StreamLaws client_socket) (steady : Steady client) (server : StreamLaws socket)
    (handle_rpc_text : S → Text → S × Text) where
  -- A connection of a server has received the packet of a request, and has sent all that it had to send, which
  -- is something. Then sendMessage, on a socket that blocks and to which these bytes come, sends the packet of
  -- this request and returns the response of handleRpcText to it at some state of the node, however the
  -- network cuts the bytes. The request and its responses are not empty and have at most 64 MiB.
  pub send_message-answer :
      {w w' : Site K S} (request : Text) (c : C)
      → IsSendable request
      → ((s : S) → IsSendable (handle_rpc_text s request).1)
      → w.connection.input.bytes ≡ []
      → w.connection.output.bytes ≡ []
      → server.given w.kernel ≡ []
      → server.gone w.kernel ≡ []
      → Life server handle_rpc_text w w'
      → server.given w'.kernel ≡ encode_packet request
      → w'.connection.output.bytes ≡ []
      → 0 < length (server.gone w'.kernel)
      → client.coming c ≡ server.gone w'.kernel
      → let (response, c') = send_message client_socket true request c in
        (client.gone c' ≡ client.gone c ++ encode_packet request)
        × ((s : S) × (response ≡ some (handle_rpc_text s request).1))
  send_message-answer request c h h' no_input no_output unread unsent life got_is all_sent some_sent
        coming =
      let (served, h₁) =
        Life-IsAnswering server handle_rpc_text no_input no_output unread unsent life in
      let (s, sent_is) =
        served_one handle_rpc_text served request _ _ h some_sent
          (rw (got_is, all_sent, append-nil (server.gone _)) at h₁) in
      let came = coming ∙ sent_is in
      let (response, gone, rest) =
        send_message-packet client steady request (handle_rpc_text s request).1 [] c (h' s)
          (came ∙ sym (append-nil _)) in
      (gone, (s, response))
