-- ===== src/Packet/Stream.antt =====
-- A stream of packets of src/rpc/Buffer.h, cut by the network at any byte, is served packet by packet.
use raft_kv_raft_leveldb.Packet.{
  Buffer, append, encode_packet, handle_read, htonl_bytes, max_body, ntohl_bytes, readable_bytes,
  retrieve, serve, try_decode_packet,
}
use raft_kv_raft_leveldb.Common.{
  All, List, Text, [], append_assoc, arith, drop, false, length, length-append, length-take_le, ltb,
  none, refl, some, suc, take, take-append, true, zero, ℕ, ◌%◌, ◌++◌, ◌+◌, ◌<◌, ◌==◌, ◌^◌, ◌∙◌, ◌∷◌,
  ◌≡◌, ◌≤◌,
}

-- A body that a packet can carry.
abbrev pub IsSendable : Text → Type 0
IsSendable body = (0 < length body) × (length body ≤ max_body)

-- The bytes of the packets, one after the other.
abbrev pub packets : List Text → Text
packets [] = []
packets (body ∷ bodies) = encode_packet body ++ packets bodies

pub ntohl-htonl : (n : ℕ) (rest : Text) → ntohl_bytes (htonl_bytes n ++ rest) ≡ n % 2 ^ 32
unfolding ntohl_bytes htonl_bytes
ntohl-htonl n rest = omega arith

drop-append : {A : Type 0} (xs ys : List A) → drop (length xs) (xs ++ ys) ≡ ys
drop-append [] ys = refl
drop-append (x ∷ xs) ys = drop-append xs ys

length-encode : (body : Text) → length (encode_packet body) ≡ 4 + length body
unfolding encode_packet htonl_bytes
length-encode body = omega arith

-- Four bytes that give the length of the body, then the body.
decode_header :
    (a b c d : ℕ) (body rest : Text)
    → IsSendable body
    → ntohl_bytes (a ∷ b ∷ c ∷ d ∷ body ++ rest) ≡ length body
    → try_decode_packet (record { bytes = a ∷ b ∷ c ∷ d ∷ body ++ rest })
      ≡ some (body, record { bytes = rest })
unfolding try_decode_packet readable_bytes retrieve
decode_header a b c d body rest h len =
    let size = length-append body rest in
    let header : ltb (4 + length (body ++ rest)) 4 ≡ false = ground arith in
    let header' : ltb (length (a ∷ b ∷ c ∷ d ∷ body ++ rest)) 4 ≡ false = ground arith in
    let some_body : (length body == 0) ≡ false = ground (arith, h.0) in
    let not_long : ltb max_body (length body) ≡ false = ground (arith, h.1) in
    let arrived : ltb (length (a ∷ b ∷ c ∷ d ∷ body ++ rest)) (4 + length body) ≡ false =
      ground (arith, size) in
    rw (header', len, some_body, not_long, arrived, take-append body rest, drop-append body rest)
      refl

-- A packet with a body that is not empty and has at most 64 MiB is decoded to that body, whatever
-- has arrived behind it, which stays in the buffer.
pub try_decode-encode :
    (body rest : Text)
    → IsSendable body
    → try_decode_packet (record { bytes = encode_packet body ++ rest })
      ≡ some (body, record { bytes = rest })
unfolding encode_packet htonl_bytes
try_decode-encode body rest h =
    let len = ntohl-htonl (length body) (body ++ rest) in
    decode_header _ _ _ _ body rest h (omega (arith, len, h.1))

-- Four bytes that give a length, with too little behind them.
decode_short :
    (a b c d : ℕ) (part : Text)
    → length part < ntohl_bytes (a ∷ b ∷ c ∷ d ∷ part)
    → try_decode_packet (record { bytes = a ∷ b ∷ c ∷ d ∷ part }) ≡ none
unfolding try_decode_packet readable_bytes retrieve
decode_short a b c d part h =
    let partial : ltb (length (a ∷ b ∷ c ∷ d ∷ part)) (4 + ntohl_bytes (a ∷ b ∷ c ∷ d ∷ part))
        ≡ true =
      ground (arith, h) in
    rw partial (ground arith)

few_bytes : (part : Text) → length part < 4 → try_decode_packet (record { bytes = part }) ≡ none
unfolding try_decode_packet readable_bytes
few_bytes part h = let few : ltb (length part) 4 ≡ true = ground (arith, h) in rw few refl

-- A packet of which the last bytes are missing is left in the buffer.
pub try_decode-take :
    (k : ℕ) (body : Text)
    → IsSendable body
    → k < length (encode_packet body)
    → try_decode_packet (record { bytes = take k (encode_packet body) }) ≡ none
unfolding encode_packet htonl_bytes
try_decode-take zero body h cut = few_bytes _ (omega arith)
try_decode-take (suc zero) body h cut = few_bytes _ (omega arith)
try_decode-take (suc (suc zero)) body h cut = few_bytes _ (omega arith)
try_decode-take (suc (suc (suc zero))) body h cut = few_bytes _ (omega arith)
try_decode-take (suc (suc (suc (suc k)))) body h cut =
    let len = ntohl-htonl (length body) (take k body) in
    let short = length-take_le k body (omega arith) in
    decode_short _ _ _ _ (take k body) (omega (arith, len, short, h.1))

-- The output that the packets call for, and the state after them.
module _ {ℓ} {S : Type ℓ} (handle_rpc_text : S → Text → S × Text) where
  abbrev pub answers : List Text → Text → S → Text
  answers [] out s = out
  answers (body ∷ bodies) out s =
      answers bodies (out ++ encode_packet (handle_rpc_text s body).1) (handle_rpc_text s body).0

  abbrev pub after_all : List Text → S → S
  after_all [] s = s
  after_all (body ∷ bodies) s = after_all bodies (handle_rpc_text s body).0

  serve_stop :
      (fuel : ℕ) (input output : Buffer) (s : S)
      → try_decode_packet input ≡ none
      → serve handle_rpc_text fuel input output s ≡ (input, output, s)
  unfolding serve
  serve_stop zero input output s cut = refl
  serve_stop (suc fuel) input output s cut = rw (cut, serve) refl

  serve_more :
      (fuel : ℕ) (input output rest : Buffer) (body : Text) (s : S)
      → try_decode_packet input ≡ some (body, rest)
      → serve handle_rpc_text (suc fuel) input output s
        ≡ serve handle_rpc_text fuel rest
            (append output (encode_packet (handle_rpc_text s body).1))
            (handle_rpc_text s body).0
  unfolding serve
  serve_more fuel input output rest body s whole = rw (whole, serve) refl

  serve-packets :
      (fuel : ℕ) (bodies : List Text) (tail out : Text) (s : S)
      → All IsSendable bodies
      → try_decode_packet (record { bytes = tail }) ≡ none
      → length (packets bodies) ≤ fuel
      → serve handle_rpc_text fuel
          (record { bytes = packets bodies ++ tail })
          (record { bytes = out })
          s
        ≡ (record { bytes = tail }, record { bytes = answers bodies out s }, after_all bodies s)
  unfolding append
  serve-packets fuel [] tail out s h cut enough = serve_stop fuel _ _ s cut
  serve-packets zero (body ∷ bodies) tail out s h cut enough =
      absurd
        (omega (arith, length-append (encode_packet body) (packets bodies), length-encode body))
  serve-packets (suc fuel) (body ∷ bodies) tail out s h cut enough =
      let size = length-append (encode_packet body) (packets bodies) in
      let first =
        serve_more fuel _ (record { bytes = out }) (record { bytes = packets bodies ++ tail }) body
          s (try_decode-encode body (packets bodies ++ tail) h.0) in
      rw (append_assoc (encode_packet body) (packets bodies) tail) (
        first
        ∙ serve-packets fuel bodies tail _ _ h.1 cut (omega (arith, size, length-encode body)))

  -- Whatever packets have arrived, with a part of one more behind them, handleRead answers each
  -- packet in its order and leaves the part in the buffer. The bodies are not empty and have at most
  -- 64 MiB.
  pub handle_read-packets :
      (bodies : List Text) (last : Text) (k : ℕ) (out : Text) (s : S)
      → All IsSendable bodies
      → IsSendable last
      → k < length (encode_packet last)
      → let part = take k (encode_packet last) in
        handle_read handle_rpc_text
          (record { bytes = packets bodies ++ part })
          (record { bytes = out })
          s
        ≡ (record { bytes = part }, record { bytes = answers bodies out s }, after_all bodies s)
  unfolding handle_read readable_bytes
  handle_read-packets bodies last k out s h h' cut =
      serve-packets _ bodies (take k (encode_packet last)) out s h (try_decode-take k last h' cut)
        (omega (arith, length-append (packets bodies) (take k (encode_packet last))))
