-- ===== src/Connection/Events.antt =====
-- The ways through Channel::handleEvent of src/rpc/Channel.h with the callbacks of a connection, and the loop
-- of handleRead in src/rpc/TcpConnection.cpp without the channel.
use raft_kv_raft_leveldb.Connection.{
  Ready, Site, after_read, answer_request, answer_requests, behind_read, dangling, handle_close,
  handle_event, handle_read, handle_write, handled, is_closed,
}
use raft_kv_raft_leveldb.Input.{◌>>=◌}
use raft_kv_raft_leveldb.Socket.{Socket, read_fd}
use raft_kv_raft_leveldb.Packet.{Buffer, serve, try_decode_packet}
use raft_kv_raft_leveldb.Common.{
  Bool, Option, Option-cases, Text, suc, zero, false, if◌then◌else◌, inl, inr, none, refl, some,
  true, ℕ, ◌≡◌, ◌⊎◌,
}

-- A choice that ends well, taken apart.
handled-cases :
    {A : Type 0} (c b : Bool) (x y z : A)
    → (if c then dangling else handled (if b then x else y)) ≡ handled z
    → (c ≡ false) × ((z ≡ x) ⊎ (z ≡ y))
handled-cases true b x y z e = absurd (never e)
  where
    never : dangling ≡ handled z → ⊥
    never e = cc
handled-cases false true x y z e = (refl, inl (cc e))
handled-cases false false x y z e = (refl, inr (cc e))

never_some {ℓ} : {A : Type ℓ} (a : A) → none ≡ some a → ⊥
never_some a e = cc

some-cases :
    {A B : Type 0} (b : Bool) (o : Option A) (f : A → B) (x y : B)
    → (if b then some x else (o >>= λ a. some (f a))) ≡ some y
    → (y ≡ x) ⊎ ((a : A) × (o ≡ some a) × (f a ≡ y))
some-cases true o f x y e = inl (cc e)
some-cases false none f x y e = absurd (never_some y e)
some-cases false (some a) f x y e = inr (a, refl, cc e)

if-cases :
    {A B : Type 0} (b : Bool) (o : Option A) (f : A → B) (x y : B)
    → (if b then (o >>= λ a. some (f a)) else some x) ≡ some y
    → (y ≡ x) ⊎ ((a : A) × (o ≡ some a) × (y ≡ f a))
if-cases false o f x y e = inl (cc e)
if-cases true none f x y e = absurd (never_some y e)
if-cases true (some a) f x y e = inr (a, refl, cc e)

module _ {K S : Type 0} (socket : Socket K) (handle_rpc_text : S → Text → S × Text) where
  -- The state behind the read callback, if it was called.
  abbrev pub IsBehindRead : ℕ → Site K S → Site K S → Type 0
  IsBehindRead fuel w w₁ =
      (w₁ ≡ w)
      ⊎ ((out : Buffer × K × Bool) × (read_fd socket fuel w.connection.input w.kernel ≡ some out)
          × (w₁ ≡ after_read socket handle_rpc_text w out))

  -- The state behind the write callback, if it was called, where the connection is open.
  abbrev pub IsBehindWrite : Site K S → Site K S → Type 0
  IsBehindWrite w₁ w' =
      (is_closed w₁ ≡ false) × ((w' ≡ handle_write socket handle_rpc_text w₁) ⊎ (w' ≡ w₁))

  behind_read-cases :
      (ready : Ready) (w₁ w' : Site K S)
      → behind_read socket handle_rpc_text ready w₁ ≡ handled w'
      → IsBehindWrite w₁ w'
  behind_read-cases ready w₁ w' is = handled-cases (is_closed w₁) ready.writable _ w₁ w' is

  -- An event that does not touch the channel behind its destruction closes the connection for EPOLLHUP
  -- or EPOLLERR, or it calls the read callback or not, and then the write callback or not.
  pub handle_event-cases :
      (fuel : ℕ) (ready : Ready) (w w' : Site K S)
      → handle_event socket handle_rpc_text fuel ready w ≡ some (handled w')
      → (w' ≡ handle_close w) ⊎ ((w₁ : Site K S) × IsBehindRead fuel w w₁ × IsBehindWrite w₁ w')
  unfolding handle_event handle_read
  handle_event-cases fuel ready w w' is =
      elim (some-cases ready.hang_up _ (behind_read socket handle_rpc_text ready) _ (handled w')
        is) [
          | inl closed ↦ inl (cc closed)
          | inr (w₁, read, behind) ↦ inr (
            w₁,
            if-cases ready.readable (read_fd socket fuel w.connection.input w.kernel)
                (after_read socket handle_rpc_text w) w w₁ read,
            behind_read-cases ready w₁ w' behind,
          )
        ]

module _ {K S : Type 0} (socket : Socket K) (handle_rpc_text : S → Text → S × Text) where
  -- The loop of handleRead does with the buffers and the state of the node what it does without a channel.
  pub answer_requests-serve :
      (fuel : ℕ) (w : Site K S)
      → let v = answer_requests socket handle_rpc_text fuel w in
        (v.connection.input, v.connection.output, v.state)
        ≡ serve handle_rpc_text fuel w.connection.input w.connection.output w.state
  unfolding answer_requests serve
  answer_requests-serve zero w = refl
  answer_requests-serve (suc fuel) w = elim (Option-cases (try_decode_packet w.connection.input)) [
    | inl stop ↦ rw (stop, answer_requests, serve) refl
    | inr (p, more) ↦
        rw (more, answer_requests, serve)
          (answer_requests-serve fuel (answer_request socket handle_rpc_text p w))
  ]
