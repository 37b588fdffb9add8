-- ===== src/Connection/Watch.antt =====
-- What the loop of src/rpc/EventLoop.h watches for a connection of src/rpc/TcpConnection.cpp.
use raft_kv_raft_leveldb.Connection.{
  Ctl, EventLoop, Ready, Site, TcpConnection, after_read, after_write, answer_request,
  answer_requests, ctl_add, ctl_del, ctl_mod, disable_writing, enable_reading, enable_writing,
  handle_close, handle_event, handle_write, handled, is_closed, make_channel, make_connection,
  on_channel, put_answer, remove_channel, update_channel,
}
use raft_kv_raft_leveldb.Connection.Events.{IsBehindRead, IsBehindWrite, handle_event-cases}
use raft_kv_raft_leveldb.Socket.{Socket, write_fd, write_rounds}
use raft_kv_raft_leveldb.Packet.{
  Buffer, append, encode_packet, htonl_bytes, readable_bytes, try_decode_packet,
}
use raft_kv_raft_leveldb.Common.{
  Bool, Bool-cases, List, Option, Option-cases, Text, [], arith, false, if◌then◌else◌, length,
  length-append, ltb, lt→ltb, none, refl, some, suc, sym, true, zero, ℕ, ◌++◌, ◌<◌, ◌==◌, ◌∙◌, ◌∷◌,
  ◌≡◌, ◌⊎◌, inl, inr,
}

-- What epoll watches a descriptor for, after these calls: reading and writing, or nothing.
abbrev pub watched : ℕ → List Ctl → Option (Bool × Bool)
watched fd [] = none
watched fd (ctl_add j r w ∷ calls) = if j == fd then some (r, w) else watched fd calls
watched fd (ctl_mod j r w ∷ calls) = if j == fd then some (r, w) else watched fd calls
watched fd (ctl_del j ∷ calls) = if j == fd then none else watched fd calls

-- epoll_ctl succeeds: what it adds is not watched yet, what it changes or deletes is.
abbrev IsAccepted : Ctl → List Ctl → Type 0
IsAccepted (ctl_add j r w) calls = watched j calls ≡ none
IsAccepted (ctl_mod j r w) calls = (e : Bool × Bool) × (watched j calls ≡ some e)
IsAccepted (ctl_del j) calls = (e : Bool × Bool) × (watched j calls ≡ some e)

abbrev pub IsLegal : List Ctl → Type 0
IsLegal [] = Unit
IsLegal (call ∷ calls) = IsAccepted call calls × IsLegal calls

-- The channel of an open connection is watched for reading, and for writing exactly while bytes are
-- left to send.
abbrev pub IsOpen : TcpConnection → EventLoop → Type 0
IsOpen c loop =
    (c.fd ≡ some c.channel.fd)
    × (c.channel.in_epoll ≡ true)
    × (c.channel.reading ≡ true)
    × (c.channel.writing ≡ ltb 0 (length c.output.bytes))
    × (watched c.channel.fd loop.calls ≡ some (true, c.channel.writing))

-- Nothing is watched for a closed connection.
abbrev pub IsClosed : TcpConnection → EventLoop → Type 0
IsClosed c loop = (c.fd ≡ none) × (watched c.channel.fd loop.calls ≡ none)

module _ {K S : Type 0} where
  abbrev pub IsWatched : Site K S → Type 0
  IsWatched w = IsLegal w.loop.calls × (IsOpen w.connection w.loop ⊎ IsClosed w.connection w.loop)

==_self : (n : ℕ) → (n == n) ≡ true
==_self n = ground arith

-- A new connection is watched for reading, if its descriptor was not watched before.
pub make_connection-IsOpen :
    (fd : ℕ) (loop : EventLoop)
    → IsLegal loop.calls
    → watched fd loop.calls ≡ none
    → let (c, loop') = make_connection fd loop in IsLegal loop'.calls × IsOpen c loop'
unfolding make_connection enable_reading update_channel make_channel
make_connection-IsOpen fd loop legal fresh =
    ((fresh, legal), (refl, refl, refl, refl, rw (==_self fd) refl))

module _ {K S : Type 0} where
  IsLegalOpen : Site K S → Type 0
  IsLegalOpen w = IsLegal w.loop.calls × IsOpen w.connection w.loop

  handle_close-IsWatched :
      (w : Site K S)
      → IsLegal w.loop.calls
      → w.connection.channel.in_epoll ≡ true
      → (e : Bool × Bool) → watched w.connection.channel.fd w.loop.calls ≡ some e
      → IsLegal (handle_close w).loop.calls
        × IsClosed (handle_close w).connection (handle_close w).loop
  unfolding handle_close remove_channel
  handle_close-IsWatched w legal inside e there =
      rw inside (((e, there), legal), (refl, rw (==_self w.connection.channel.fd) refl))

  -- enableWriting behind bytes that are added to the output.
  enable_writing-IsOpen :
      (w : Site K S)
      → IsLegal w.loop.calls
      → w.connection.fd ≡ some w.connection.channel.fd
      → w.connection.channel.in_epoll ≡ true
      → w.connection.channel.reading ≡ true
      → (e : Bool × Bool) → watched w.connection.channel.fd w.loop.calls ≡ some e
      → 0 < length w.connection.output.bytes
      → IsLegalOpen (on_channel enable_writing w)
  unfolding enable_writing update_channel IsLegalOpen
  enable_writing-IsOpen w legal fd inside reading e there left =
      rw (inside, lt→ltb 0 (length w.connection.output.bytes) left)
        (
          ((e, there), legal),
          (fd, refl, reading, refl, rw (==_self w.connection.channel.fd, reading) refl),
        )

module _ {K S : Type 0} (socket : Socket K) (handle_rpc_text : S → Text → S × Text) where
  answered_some : (out packet : Text) → 0 < length (out ++ encode_packet packet)
  unfolding encode_packet htonl_bytes
  answered_some out packet = omega (arith, length-append out (encode_packet packet))

  answer_request-IsOpen :
      (p : Text × Buffer) (w : Site K S)
      → IsLegalOpen w
      → IsLegalOpen (answer_request socket handle_rpc_text p w)
  unfolding IsLegalOpen append
  answer_request-IsOpen p w (legal, (fd, inside, reading, writing, there)) =
      enable_writing-IsOpen (put_answer socket handle_rpc_text p w) legal fd inside reading _ there
        (answered_some _ _)

  answer_requests-IsOpen :
      (fuel : ℕ) (w : Site K S)
      → IsLegalOpen w
      → IsLegalOpen (answer_requests socket handle_rpc_text fuel w)
  unfolding answer_requests
  answer_requests-IsOpen zero w h = h
  answer_requests-IsOpen (suc fuel) w h =
      elim (Option-cases (try_decode_packet w.connection.input)) [
        | inl stop ↦ rw (stop, answer_requests) h
        | inr (p, more) ↦
            rw (more, answer_requests) (answer_requests-IsOpen fuel _ (answer_request-IsOpen p w h))
      ]

  -- What an event finds of an open connection, while its output is being changed.
  abbrev IsHeld : Site K S → Type 0
  IsHeld w =
      IsLegal w.loop.calls
      × (w.connection.channel.in_epoll ≡ true)
      × (w.connection.channel.reading ≡ true)
      × (watched w.connection.channel.fd w.loop.calls ≡ some (true, w.connection.channel.writing))

  closed_now : (w : Site K S) → IsHeld w → IsWatched (handle_close w)
  closed_now w (legal, inside, reading, there) =
      let (legal', closed) = handle_close-IsWatched w legal inside _ there in (legal', inr closed)

  after_read-IsWatched :
      (w : Site K S) (out : Buffer × K × Bool)
      → IsLegalOpen w
      → IsWatched (after_read socket handle_rpc_text w out)
  unfolding IsLegalOpen
  after_read-IsWatched w (input, k, true) h =
      let (legal, is_open) = answer_requests-IsOpen (readable_bytes input) _ h in
      (legal, inl is_open)
  after_read-IsWatched w (input, k, false) (legal, (fd, inside, reading, writing, there)) =
      closed_now _ (legal, inside, reading, there)

  disabled-IsWatched :
      (w : Site K S) → IsHeld w → IsWatched (handle_close (on_channel disable_writing w))
  unfolding disable_writing update_channel
  disabled-IsWatched w (legal, inside, reading, there) =
      let self = ==_self w.connection.channel.fd in
      let (legal', closed) =
        handle_close-IsWatched (on_channel disable_writing w) (rw inside ((_, there), legal))
          (rw inside refl) (true, false) (rw (inside, reading, self) refl) in
      (legal', inr closed)

  after_write-IsWatched :
      (w : Site K S) (out : Buffer × K × Bool)
      → IsLegalOpen w
      → (0 < length out.0.bytes → w.connection.channel.writing ≡ true)
      → IsWatched (after_write socket handle_rpc_text w out)
  unfolding IsLegalOpen readable_bytes
  after_write-IsWatched w (output, k, true) (legal, (fd, inside, reading, writing, there)) left =
      elim (Bool-cases (length output.bytes == 0)) [
        | inl empty ↦ rw empty (disabled-IsWatched _ (legal, inside, reading, there))
        | inr more ↦ rw more (
            let some_left : 0 < length output.bytes = ground (arith, more) in
            let full = lt→ltb 0 (length output.bytes) some_left in
            (legal, inl (fd, inside, reading, left some_left ∙ sym full, there)))
      ]
  after_write-IsWatched w (output, k, false) (legal, (fd, inside, reading, writing, there)) left =
      closed_now _ (legal, inside, reading, there)

  -- writeFd leaves bytes only where there were some.
  left_writing :
      (c : TcpConnection) (k : K)
      → c.channel.writing ≡ ltb 0 (length c.output.bytes)
      → 0 < length (write_fd socket c.output k).0.bytes
      → c.channel.writing ≡ true
  unfolding write_fd write_rounds
  left_writing c k writing left = writing ∙ go c.output.bytes left
    where
      go : (t : Text) → 0 < length (write_rounds socket (length t) t k).0 → ltb 0 (length t) ≡ true
      go [] some_left = absurd (omega (arith, some_left))
      go (x ∷ t) some_left = ground arith

  handle_write-IsWatched :
      (w : Site K S) → IsLegalOpen w → IsWatched (handle_write socket handle_rpc_text w)
  unfolding handle_write IsLegalOpen
  handle_write-IsWatched w h =
      after_write-IsWatched w _ h (left_writing w.connection w.kernel h.1.3)

  still_open : (w : Site K S) → IsWatched w → is_closed w ≡ false → IsLegalOpen w
  unfolding IsLegalOpen
  still_open w (legal, inl is_open) no_end = (legal, is_open)
  still_open w (legal, inr closed) no_end = absurd (never (is_closed w) (rw closed.0 refl) no_end)
    where
      never : (b : Bool) → b ≡ true → b ≡ false → ⊥
      never b e e' = cc

  behind_write-IsWatched :
      (w₁ w' : Site K S) → IsWatched w₁ → IsBehindWrite socket handle_rpc_text w₁ w' → IsWatched w'
  behind_write-IsWatched w₁ w' h (no_end, inl is) =
      rw is (handle_write-IsWatched w₁ (still_open w₁ h no_end))
  behind_write-IsWatched w₁ w' h (no_end, inr is) = rw is h

  behind_read-IsWatched :
      (fuel : ℕ) (w w₁ : Site K S)
      → IsLegalOpen w
      → IsBehindRead socket handle_rpc_text fuel w w₁
      → IsWatched w₁
  unfolding IsLegalOpen
  behind_read-IsWatched fuel w w₁ (legal, is_open) (inl is) = rw is (legal, inl is_open)
  behind_read-IsWatched fuel w w₁ h (inr (out, read, is)) = rw is (after_read-IsWatched w out h)

  -- After any event of an open connection that is watched, and that does not touch the channel behind its
  -- destruction, the connection is watched for reading, and for writing exactly while bytes are left to
  -- send; or it is closed and not watched. Every call of epoll_ctl has had its effect.
  pub handle_event-IsWatched :
      (fuel : ℕ) (ready : Ready) (w w' : Site K S)
      → IsLegal w.loop.calls
      → IsOpen w.connection w.loop
      → handle_event socket handle_rpc_text fuel ready w ≡ some (handled w')
      → IsWatched w'
  unfolding IsLegalOpen
  handle_event-IsWatched fuel ready w w' legal is_open is =
      elim (handle_event-cases socket handle_rpc_text fuel ready w w' is) [
        | inl closed ↦ rw closed (closed_now w (legal, is_open.1, is_open.2, is_open.4))
        | inr (w₁, read, write) ↦
            behind_write-IsWatched w₁ w' (behind_read-IsWatched fuel w w₁ (legal, is_open) read)
              write
      ]
