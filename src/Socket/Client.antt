-- ===== src/Socket/Client.antt =====
-- What TcpClient::sendMessage of src/rpc/tcp_client.cpp sends and receives over a stream socket that
-- blocks, however send and recv cut the bytes.
use raft_kv_raft_leveldb.Socket.{
  Received, Sent, Socket, got, read_body, read_n, read_n_round, read_response, recv_again,
  recv_error, send_again, send_error, send_message, took, write_n, write_n_round,
}
use raft_kv_raft_leveldb.Socket.Streams.{StreamLaws, bytes_of, number_of}
use raft_kv_raft_leveldb.Packet.{encode_packet, htonl_bytes, max_body, ntohl_bytes}
use raft_kv_raft_leveldb.Packet.Stream.{IsSendable, ntohl-htonl}
use raft_kv_raft_leveldb.Common.{
  Bool, Option, Text, [], ap, append-nil, append_assoc, arith, drop, false, length, length-append,
  ltb, none, refl, some, suc, sym, take, take-append-drop, true, zero, ℕ, ◌++◌, ◌+◌, ◌-◌, ◌<◌, ◌==◌,
  ◌∙◌, ◌∷◌, ◌≡◌, ◌≤◌,
}

-- A socket that blocks: recv returns bytes as long as some are coming, and send takes some.
pub record Steady {K : Type 0} {socket : Socket K} (laws : StreamLaws socket) : Type 0 where
  pub recv_some :
      (k : K) (size : ℕ)
      → 0 < length (laws.coming k)
      → 0 < size
      → 0 < length (bytes_of (socket.recv k size).0)
  pub send_some : (k : K) (chars : Text) → 0 < length chars → 0 < number_of (socket.send k chars).0

length-drop : (n : ℕ) (xs : Text) → length (drop n xs) ≤ length xs
length-drop zero xs = omega arith
length-drop (suc n) [] = omega arith
length-drop (suc n) (x ∷ xs) = omega (arith, length-drop n xs)

-- Two ways to cut the same bytes, the first of them no later than the second.
cut_earlier :
    (u v t w : Text)
    → u ++ v ≡ t ++ w
    → length u ≤ length t
    → (t' : Text) × (t ≡ u ++ t') × (v ≡ t' ++ w)
cut_earlier [] v t w same early = (t, refl, same)
cut_earlier (c ∷ u) v [] w same early = elim early [ ]
cut_earlier (c ∷ u) v (d ∷ t) w same early =
    let (t', is, rest) = cut_earlier u v t w (cc same) (omega (arith, early)) in (t', cc, rest)

module _ {K : Type 0} {socket : Socket K} (laws : StreamLaws socket) (steady : Steady laws) where
  IsAllSent : Text → K → K × Bool → Type 0
  IsAllSent chars k (k', ok) =
      (ok ≡ true) × (laws.gone k' ≡ laws.gone k ++ chars) × (laws.coming k' ≡ laws.coming k)

  write_n_round-IsAllSent :
      (fuel : ℕ) (chars : Text) (k : K) (r : Sent × K)
      → 0 < number_of r.0
      → length chars ≤ suc fuel
      → laws.gone r.1 ≡ laws.gone k ++ take (number_of r.0) chars
      → laws.coming r.1 ≡ laws.coming k
      → ((chars' : Text) (k' : K)
          → length chars' ≤ fuel
          → IsAllSent chars' k' (write_n socket fuel chars' k'))
      → IsAllSent chars k (write_n_round socket r chars (write_n socket fuel))
  unfolding IsAllSent
  write_n_round-IsAllSent fuel chars k (took zero, k') some_taken enough gone coming rest =
      absurd (omega (arith, some_taken))
  write_n_round-IsAllSent fuel [] k (took (suc n), k') some_taken enough gone coming rest =
      let (all, gone', coming') = rest [] k' (omega arith) in
      (all, rw (gone', gone, append-nil (laws.gone k ++ [])) refl, coming' ∙ coming)
  write_n_round-IsAllSent fuel (c ∷ chars) k (took (suc n), k') some_taken enough gone coming rest =
      let (all, gone', coming') =
        rest (drop n chars) k' (omega (arith, enough, length-drop n chars)) in
      (
        all,
        rw
            (
              gone',
              gone,
              append_assoc (laws.gone k) (c ∷ take n chars) (drop n chars),
              take-append-drop n chars,
            )
            refl,
        coming' ∙ coming,
      )
  write_n_round-IsAllSent fuel chars k (send_again, k') some_taken enough gone coming rest =
      absurd (omega (arith, some_taken))
  write_n_round-IsAllSent fuel chars k (send_error, k') some_taken enough gone coming rest =
      absurd (omega (arith, some_taken))

  write_n-IsAllSent :
      (fuel : ℕ) (chars : Text) (k : K)
      → length chars ≤ fuel
      → IsAllSent chars k (write_n socket fuel chars k)
  unfolding write_n IsAllSent
  write_n-IsAllSent fuel [] k enough = (refl, sym (append-nil (laws.gone k)), refl)
  write_n-IsAllSent zero (c ∷ chars) k enough = elim enough [ ]
  write_n-IsAllSent (suc fuel) (c ∷ chars) k enough =
      write_n_round-IsAllSent fuel (c ∷ chars) k (socket.send k (c ∷ chars))
        (steady.send_some k (c ∷ chars) (omega arith)) enough (laws.gone-send k (c ∷ chars))
        (laws.coming-send k (c ∷ chars)) (write_n-IsAllSent fuel)

  -- What readN returns where these bytes are the next to come.
  IsAllRead : Text → Text → Text → K → Option Text × K → Type 0
  IsAllRead buf t more k (read, k') =
      (read ≡ some (buf ++ t)) × (laws.coming k' ≡ more) × (laws.gone k' ≡ laws.gone k)

  read_n_round-IsAllRead :
      (fuel : ℕ) (buf t more : Text) (k : K) (r : Received × K)
      → 0 < length (bytes_of r.0)
      → length (bytes_of r.0) ≤ length t
      → length t ≤ suc fuel
      → bytes_of r.0 ++ laws.coming r.1 ≡ t ++ more
      → laws.gone r.1 ≡ laws.gone k
      → ((buf' t' : Text) (k' : K)
          → length t' ≤ fuel
          → laws.coming k' ≡ t' ++ more
          → IsAllRead buf' t' more k' (read_n socket fuel (length t') buf' k'))
      → IsAllRead buf t more k (read_n_round socket r (length t) buf (read_n socket fuel))
  unfolding IsAllRead
  read_n_round-IsAllRead fuel buf t more k (got [], k') some_read size enough coming gone rest =
      absurd (omega (arith, some_read))
  read_n_round-IsAllRead fuel buf t more k (got (c ∷ u), k') some_read size enough coming gone
        rest =
      let (t', is, then) = cut_earlier (c ∷ u) (laws.coming k') t more coming size in
      let lengths : length t ≡ length (c ∷ u) + length t' =
        ap length is ∙ length-append (c ∷ u) t' in
      let missing : length t - length (c ∷ u) ≡ length t' = omega (arith, lengths) in
      let (all, coming', gone') = rest (buf ++ c ∷ u) t' k' (omega (arith, lengths, enough)) then in
      rw missing (all ∙ rw (is, append_assoc buf (c ∷ u) t') refl, coming', gone' ∙ gone)
  read_n_round-IsAllRead fuel buf t more k (recv_again, k') some_read size enough coming gone rest =
      absurd (omega (arith, some_read))
  read_n_round-IsAllRead fuel buf t more k (recv_error, k') some_read size enough coming gone rest =
      absurd (omega (arith, some_read))

  read_n-IsAllRead :
      (fuel : ℕ) (more buf t : Text) (k : K)
      → length t ≤ fuel
      → laws.coming k ≡ t ++ more
      → IsAllRead buf t more k (read_n socket fuel (length t) buf k)
  unfolding read_n IsAllRead
  read_n-IsAllRead fuel more buf [] k enough coming = (rw (append-nil buf) refl, coming, refl)
  read_n-IsAllRead zero more buf (c ∷ t) k enough coming = elim enough [ ]
  read_n-IsAllRead (suc fuel) more buf (c ∷ t) k enough coming =
      let size = suc (length t) in
      let there : 0 < length (laws.coming k) = rw coming (omega arith) in
      read_n_round-IsAllRead fuel buf (c ∷ t) more k (socket.recv k size)
        (steady.recv_some k size there (omega arith)) (laws.recv_size k size) enough
        (sym (laws.coming-recv k size) ∙ coming) (laws.gone-recv k size)
        (read_n-IsAllRead fuel more)

  module _ (body more : Text) (h : IsSendable body) where
    read_body-packet :
        (p : Option Text × K)
        → p.0 ≡ some (htonl_bytes (length body))
        → laws.coming p.1 ≡ body ++ more
        → IsAllRead [] body more p.1 (read_body socket p)
    read_body-packet (none, k) header coming = absurd (none_some header)
      where
        none_some : none ≡ some (htonl_bytes (length body)) → ⊥
        none_some e = cc
    read_body-packet (some t, k) header coming =
        let t_is : t ≡ htonl_bytes (length body) = cc header in
        let len : ntohl_bytes t ≡ length body =
          rw (t_is, sym (append-nil (htonl_bytes (length body))), ntohl-htonl (length body) [])
            (omega (arith, h.1)) in
        let some_body : (length body == 0) ≡ false = ground (arith, h.0) in
        let not_long : ltb max_body (length body) ≡ false = ground (arith, h.1) in
        rw (len, some_body, not_long)
          (read_n-IsAllRead (length body) more [] body k (omega arith) coming)

    read_response-packet :
        (r : K × Bool)
        → r.1 ≡ true
        → laws.coming r.0 ≡ encode_packet body ++ more
        → IsAllRead [] body more r.0 (read_response socket r)
    unfolding encode_packet htonl_bytes IsAllRead
    read_response-packet (k, false) sent coming = absurd (false_true sent)
      where
        false_true : false ≡ true → ⊥
        false_true e = cc
    read_response-packet (k, true) sent coming =
        let (header, coming', gone') =
          read_n-IsAllRead 4 (body ++ more) [] (htonl_bytes (length body)) k (omega arith) coming in
        let (response, coming'', gone'') =
          read_body-packet (read_n socket 4 4 [] k) header coming' in
        (response, coming'', gone'' ∙ gone')

  -- Where a packet is the next to come, and is not empty and has at most 64 MiB, sendMessage sends the
  -- packet of the request and returns the body of the packet that comes, and reads no byte behind it.
  pub send_message-packet :
      (request body more : Text) (k : K)
      → IsSendable body
      → laws.coming k ≡ encode_packet body ++ more
      → let (response, k') = send_message socket true request k in
        (response ≡ some body)
        × (laws.gone k' ≡ laws.gone k ++ encode_packet request)
        × (laws.coming k' ≡ more)
  unfolding send_message IsAllSent IsAllRead
  send_message-packet request body more k h coming =
      let packet = encode_packet request in
      let r = write_n socket (length packet) packet k in
      let (sent, gone, coming') = write_n-IsAllSent (length packet) packet k (omega arith) in
      let (response, coming'', gone'') =
        read_response-packet body more h r sent (coming' ∙ coming) in
      (response, gone'' ∙ gone, coming'')
