-- ===== src/Packet/Decode.antt =====
-- What tryDecodePacket of src/rpc/TcpConnection.cpp takes from the buffer was a packet.
use raft_kv_raft_leveldb.Packet.{
  Buffer, encode_packet, htonl_bytes, max_body, ntohl_bytes, readable_bytes, retrieve,
  try_decode_packet,
}
use raft_kv_raft_leveldb.Packet.Stream.{IsSendable}
use raft_kv_raft_leveldb.Common.{
  All, Bool, Option, Text, [], ap, arith, drop, false, if◌then◌else◌, length, length-take_le, ltb,
  none, refl, some, suc, take, take-append-drop, true, zero, ℕ, ◌%◌, ◌*◌, ◌/◌, ◌++◌, ◌+◌, ◌<◌, ◌==◌,
  ◌^◌, ◌||◌, ◌∙◌, ◌∷◌, ◌≡◌, ◌≤◌,
}

abbrev pub IsByte : ℕ → Type 0
IsByte c = c < 256

htonl-ntohl :
    (a b c d : ℕ) (rest : Text)
    → IsByte a
    → IsByte b
    → IsByte c
    → IsByte d
    → htonl_bytes (ntohl_bytes (a ∷ b ∷ c ∷ d ∷ rest)) ≡ a ∷ b ∷ c ∷ d ∷ []
unfolding htonl_bytes ntohl_bytes
htonl-ntohl a b c d rest ha hb hc hd =
    let n = ((a * 256 + b) * 256 + c) * 256 + d in
    let small : n % 2 ^ 32 ≡ n = omega arith in
    let first : n / 16777216 ≡ a = omega arith in
    let second : n / 65536 % 256 ≡ b = omega arith in
    let third : n / 256 % 256 ≡ c = omega arith in
    let fourth : n % 256 ≡ d = omega arith in rw (small, first, second, third, fourth) refl

All-drop : (n : ℕ) (t : Text) → All IsByte t → All IsByte (drop n t)
All-drop zero t h = h
All-drop (suc n) [] h = tt
All-drop (suc n) (c ∷ t) h = All-drop n t h.1

never_some {ℓ} : {A : Type ℓ} (a : A) → none ≡ some a → ⊥
never_some a e = cc

-- A result behind three guards.
past_guards {ℓ} :
    {A : Type ℓ} (c₁ c₂ c₃ : Bool) (o : Option A) (a : A)
    → (if c₁ then none else if c₂ then none else if c₃ then none else o) ≡ some a
    → (c₂ ≡ false) × (c₃ ≡ false) × (o ≡ some a)
past_guards true c₂ c₃ o a e = absurd (never_some a e)
past_guards false true c₃ o a e = absurd (never_some a e)
past_guards false false true o a e = absurd (never_some a e)
past_guards false false false o a e = (refl, refl, e)

-- A buffer with four bytes at least.
decode_some :
    (a b c d : ℕ) (t body : Text) (rest : Buffer)
    → try_decode_packet (record { bytes = a ∷ b ∷ c ∷ d ∷ t }) ≡ some (body, rest)
    → let len = ntohl_bytes (a ∷ b ∷ c ∷ d ∷ t) in
      (0 < len)
      × (len ≤ max_body)
      × (len ≤ length t)
      × (body ≡ take len t)
      × (rest ≡ record { bytes = drop len t })
unfolding try_decode_packet readable_bytes retrieve
decode_some a b c d t body rest is =
    let len = ntohl_bytes (a ∷ b ∷ c ∷ d ∷ t) in
    let header = ltb (length (a ∷ b ∷ c ∷ d ∷ t)) 4 in
    let bad = (len == 0) || ltb max_body len in
    let missing = ltb (length (a ∷ b ∷ c ∷ d ∷ t)) (4 + len) in
    let out : Option (Text × Buffer) = some (take len t, record { bytes = drop len t }) in
    let (size, arrived, found) = past_guards header bad missing out (body, rest) is in
    (ground (arith, size), ground (arith, size), ground (arith, arrived), cc found, cc found)

decode_few :
    (t body : Text) (rest : Buffer)
    → length t < 4
    → try_decode_packet (record { bytes = t }) ≡ some (body, rest)
    → ⊥
unfolding try_decode_packet readable_bytes
decode_few t body rest few is =
    let short : ltb (length t) 4 ≡ true = ground arith in
    never_some {A = Text × Buffer} (body, rest) (rw short at is)

encode_is : (body : Text) → encode_packet body ≡ htonl_bytes (length body) ++ body
unfolding encode_packet
encode_is body = refl

-- Where tryDecodePacket finds a body, the buffer began with the packet of that body, which is not empty
-- and has at most 64 MiB, and the buffer is left with the bytes behind it.
pub try_decode_packet-encode :
    (t body : Text) (rest : Buffer)
    → All IsByte t
    → try_decode_packet (record { bytes = t }) ≡ some (body, rest)
    → IsSendable body × (t ≡ encode_packet body ++ rest.bytes) × All IsByte rest.bytes
try_decode_packet-encode [] body rest h is = absurd (decode_few _ body rest (omega arith) is)
try_decode_packet-encode (a ∷ []) body rest h is = absurd (decode_few _ body rest (omega arith) is)
try_decode_packet-encode (a ∷ b ∷ []) body rest h is =
    absurd (decode_few _ body rest (omega arith) is)
try_decode_packet-encode (a ∷ b ∷ c ∷ []) body rest h is =
    absurd (decode_few _ body rest (omega arith) is)
try_decode_packet-encode (a ∷ b ∷ c ∷ d ∷ t) body rest (ha, (hb, (hc, (hd, h)))) is =
    let len = ntohl_bytes (a ∷ b ∷ c ∷ d ∷ t) in
    let (some_body, not_long, there, body_is, rest_is) = decode_some a b c d t body rest is in
    let size : length body ≡ len = ap length body_is ∙ length-take_le len t there in
    (
      (rw size some_body, rw size not_long),
      rw
          (
            encode_is body,
            size,
            htonl-ntohl a b c d t ha hb hc hd,
            body_is,
            rest_is,
            take-append-drop len t,
          )
          refl,
      rw rest_is (All-drop len t h),
    )
