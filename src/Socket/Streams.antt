-- ===== src/Socket/Streams.antt =====
-- What the loops of src/rpc/Buffer.h do to the bytes of a stream socket, however recv and send cut them.
use raft_kv_raft_leveldb.Socket.{
  Received, Sent, Socket, got, read_fd, read_round, recv_again, recv_error, send_again, send_error,
  took, write_fd, write_round, write_rounds,
}
use raft_kv_raft_leveldb.Packet.{Buffer, append}
use raft_kv_raft_leveldb.Packet.Decode.{IsByte}
use raft_kv_raft_leveldb.Common.{
  All, Bool, Text, [], ap, append-nil, append_assoc, arith, drop, false, length, length-append,
  refl, some, suc, sym, take, take-append-drop, true, zero, ℕ, ◌++◌, ◌<◌, ◌∙◌, ◌∷◌, ◌≡◌, ◌≤◌,
}

-- The bytes that a call of recv returns.
abbrev pub bytes_of : Received → Text
bytes_of (got t) = t
bytes_of recv_again = []
bytes_of recv_error = []

-- The number of bytes that a call of send takes.
abbrev pub number_of : Sent → ℕ
number_of (took n) = n
number_of send_again = 0
number_of send_error = 0

pub All-append : (xs ys : Text) → All IsByte xs → All IsByte ys → All IsByte (xs ++ ys)
All-append [] ys h h' = h'
All-append (x ∷ xs) ys h h' = (h.0, All-append xs ys h.1 h')

-- A stream socket, as its manual has it: `given` are the bytes that recv has returned so far, `coming`
-- those that are still to be returned, `gone` those that send has taken. recv returns the next of the
-- coming bytes and has no reason to wait while there are any; send takes bytes from the front.
pub record StreamLaws {K : Type 0} (socket : Socket K) : Type 0 where
  pub given : K → Text
  pub coming : K → Text
  pub gone : K → Text
  pub given-recv :
      (k : K) (size : ℕ) → given (socket.recv k size).1 ≡ given k ++ bytes_of (socket.recv k size).0
  pub coming-recv :
      (k : K) (size : ℕ)
      → coming k ≡ bytes_of (socket.recv k size).0 ++ coming (socket.recv k size).1
  pub gone-recv : (k : K) (size : ℕ) → gone (socket.recv k size).1 ≡ gone k
  pub recv_size : (k : K) (size : ℕ) → length (bytes_of (socket.recv k size).0) ≤ size
  pub recv_bytes : (k : K) (size : ℕ) → All IsByte (bytes_of (socket.recv k size).0)
  pub recv_waits : (k : K) (size : ℕ) → (socket.recv k size).0 ≡ recv_again → coming k ≡ []
  pub given-send : (k : K) (chars : Text) → given (socket.send k chars).1 ≡ given k
  pub coming-send : (k : K) (chars : Text) → coming (socket.send k chars).1 ≡ coming k
  pub gone-send :
      (k : K) (chars : Text)
      → gone (socket.send k chars).1 ≡ gone k ++ take (number_of (socket.send k chars).0) chars

module _ {K : Type 0} {socket : Socket K} (laws : StreamLaws socket) where
  -- What readFd leaves: the bytes in the buffer run on with those that recv has returned.
  abbrev pub IsRead : Buffer → K → Buffer × K × Bool → Type 0
  IsRead b k (b', k', ok) =
      (t : Text) × (b'.bytes ≡ b.bytes ++ t)
      × (laws.given k' ≡ laws.given k ++ t)
      × (laws.coming k ≡ t ++ laws.coming k')
      × (laws.gone k' ≡ laws.gone k)
      × All IsByte t
      × (ok ≡ true → laws.coming k' ≡ [])

  -- What a call of recv does to the stream.
  abbrev IsNext : K → Received × K → Type 0
  IsNext k (r, k') =
      (laws.given k' ≡ laws.given k ++ bytes_of r)
      × (laws.coming k ≡ bytes_of r ++ laws.coming k')
      × (laws.gone k' ≡ laws.gone k)
      × All IsByte (bytes_of r)
      × (r ≡ recv_again → laws.coming k ≡ [])

  recv-IsNext : (k : K) (size : ℕ) → IsNext k (socket.recv k size)
  recv-IsNext k size = (
    laws.given-recv k size,
    laws.coming-recv k size,
    laws.gone-recv k size,
    laws.recv_bytes k size,
    laws.recv_waits k size,
  )

  no_more :
      (b : Buffer) (k k' : K) (r : Received) (ok : Bool)
      → IsNext k (r, k')
      → bytes_of r ≡ []
      → (ok ≡ true → r ≡ recv_again)
      → IsRead b k (b, k', ok)
  no_more b k k' r ok next none_of waits = (
    [],
    sym (append-nil b.bytes),
    rw (next.0, none_of) refl,
    rw (next.1, none_of) refl,
    next.2,
    tt,
    λ yes. rw (sym (next.4 (waits yes)), next.1, none_of) refl,
  )

  one_more :
      (b : Buffer) (k k' : K) (t : Text) (out : Buffer × K × Bool)
      → IsNext k (got t, k')
      → IsRead (append b t) k' out
      → IsRead b k out
  unfolding append
  one_more b k k' t out next (t', in_buffer, given, coming, gone, bytes, all) = (
    t ++ t',
    rw (in_buffer, append_assoc b.bytes t t') refl,
    rw (given, next.0, append_assoc (laws.given k) t t') refl,
    rw (next.1, coming, append_assoc t t' (laws.coming out.1)) refl,
    gone ∙ next.2,
    All-append t t' next.3 bytes,
    all,
  )

  read_round-IsRead :
      (fuel : ℕ) (b : Buffer) (k : K) (r : Received × K)
      → IsNext k r
      → length (laws.coming k) < suc fuel
      → ((b' : Buffer) (k' : K)
          → length (laws.coming k') < fuel
          → (out : Buffer × K × Bool) × (read_fd socket fuel b' k' ≡ some out) × IsRead b' k' out)
      → (out : Buffer × K × Bool) × (read_round socket r b (read_fd socket fuel) ≡ some out)
        × IsRead b k out
  read_round-IsRead fuel b k (got [], k') next enough rest =
      ((b, k', false), refl, no_more b k k' (got []) false next refl (λ no. cc))
  read_round-IsRead fuel b k (got (c ∷ t), k') next enough rest =
      let size = length-append (c ∷ t) (laws.coming k') in
      let same = ap length next.1 in
      let (out, is, read) = rest (append b (c ∷ t)) k' (omega arith) in
      (out, is, one_more b k k' (c ∷ t) out next read)
  read_round-IsRead fuel b k (recv_again, k') next enough rest =
      ((b, k', true), refl, no_more b k k' recv_again true next refl (λ yes. refl))
  read_round-IsRead fuel b k (recv_error, k') next enough rest =
      ((b, k', false), refl, no_more b k k' recv_error false next refl (λ no. cc))

  -- readFd ends, if its rounds may be more than the bytes that are coming. It adds to the buffer the
  -- bytes that recv returns, in their order, and where it returns true it has left none.
  pub read_fd-IsRead :
      (fuel : ℕ) (b : Buffer) (k : K)
      → length (laws.coming k) < fuel
      → (out : Buffer × K × Bool) × (read_fd socket fuel b k ≡ some out) × IsRead b k out
  unfolding read_fd
  read_fd-IsRead zero b k enough = absurd (omega (arith, enough))
  read_fd-IsRead (suc fuel) b k enough =
      read_round-IsRead fuel b k (socket.recv k 4096) (recv-IsNext k 4096) enough
        (read_fd-IsRead fuel)

  -- What a loop over send leaves: the bytes that send has taken, and those that are left, run on as
  -- they did before.
  abbrev pub IsWritten : Text → K → Text × K → Type 0
  IsWritten chars k (left, k') =
      (laws.gone k' ++ left ≡ laws.gone k ++ chars)
      × (laws.given k' ≡ laws.given k)
      × (laws.coming k' ≡ laws.coming k)

  abbrev IsTaken : Text → K → Sent × K → Type 0
  IsTaken chars k (s, k') =
      (laws.gone k' ≡ laws.gone k ++ take (number_of s) chars)
      × (laws.given k' ≡ laws.given k)
      × (laws.coming k' ≡ laws.coming k)

  write_stop :
      (chars : Text) (k k' : K) (s : Sent)
      → IsTaken chars k (s, k')
      → number_of s ≡ 0
      → IsWritten chars k (chars, k')
  write_stop chars k k' s (gone, given, coming) none_of =
      (rw (gone, none_of, append-nil (laws.gone k)) refl, given, coming)

  write_on :
      (chars : Text) (k k' : K) (n : ℕ) (out : Text × K)
      → IsTaken chars k (took n, k')
      → IsWritten (drop n chars) k' out
      → IsWritten chars k out
  write_on chars k k' n out taken rest = (
    rw
        (
          rest.0,
          taken.0,
          append_assoc (laws.gone k) (take n chars) (drop n chars),
          take-append-drop n chars,
        )
        refl,
    rest.1 ∙ taken.1,
    rest.2 ∙ taken.2,
  )

  write_round-IsWritten :
      (fuel : ℕ) (chars : Text) (k : K) (r : Sent × K)
      → IsTaken chars k r
      → ((chars' : Text) (k' : K)
          → let out = write_rounds socket fuel chars' k' in IsWritten chars' k' (out.0, out.1))
      → let out = write_round socket r chars (write_rounds socket fuel) in
        IsWritten chars k (out.0, out.1)
  write_round-IsWritten fuel chars k (took zero, k') taken rest =
      write_stop chars k k' (took 0) taken refl
  write_round-IsWritten fuel chars k (took (suc n), k') taken rest =
      write_on chars k k' (suc n) _ taken (rest (drop (suc n) chars) k')
  write_round-IsWritten fuel chars k (send_again, k') taken rest =
      write_stop chars k k' send_again taken refl
  write_round-IsWritten fuel chars k (send_error, k') taken rest =
      write_stop chars k k' send_error taken refl

  write_rounds-IsWritten :
      (fuel : ℕ) (chars : Text) (k : K)
      → let out = write_rounds socket fuel chars k in IsWritten chars k (out.0, out.1)
  unfolding write_rounds
  write_rounds-IsWritten fuel [] k = (refl, refl, refl)
  write_rounds-IsWritten zero (c ∷ chars) k = (refl, refl, refl)
  write_rounds-IsWritten (suc fuel) (c ∷ chars) k =
      write_round-IsWritten fuel (c ∷ chars) k (socket.send k (c ∷ chars))
        (
          laws.gone-send k (c ∷ chars),
          laws.given-send k (c ∷ chars),
          laws.coming-send k (c ∷ chars),
        )
        (write_rounds-IsWritten fuel)

  -- writeFd sends bytes from the front of the buffer, in their order, and keeps the others.
  pub write_fd-IsWritten :
      (b : Buffer) (k : K)
      → let out = write_fd socket b k in IsWritten b.bytes k (out.0.bytes, out.1)
  unfolding write_fd
  write_fd-IsWritten b k = write_rounds-IsWritten (length b.bytes) b.bytes k
