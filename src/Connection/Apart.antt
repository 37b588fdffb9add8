-- ===== src/Connection/Apart.antt =====
-- An event of one connection leaves the other descriptors watched as they were.
use raft_kv_raft_leveldb.Connection.{
  Channel, EventLoop, Ready, Site, after_read, after_write, answer_request, answer_requests,
  disable_writing, enable_writing, handle_close, handle_event, handle_write, handled, on_channel,
  put_answer, remove_channel, update_channel,
}
use raft_kv_raft_leveldb.Connection.Events.{IsBehindRead, IsBehindWrite, handle_event-cases}
use raft_kv_raft_leveldb.Connection.Watch.{watched}
use raft_kv_raft_leveldb.Socket.{Socket}
use raft_kv_raft_leveldb.Packet.{Buffer, readable_bytes, try_decode_packet}
use raft_kv_raft_leveldb.Common.{
  Bool, Bool-cases, Option-cases, Text, false, if◌then◌else◌, inl, inr, refl, some, suc, true, zero,
  ℕ, ◌==◌, ◌∙◌, ◌≡◌,
}

updated :
    (j : ℕ) (c : Channel) (loop : EventLoop)
    → ((update_channel c loop).0.fd ≡ c.fd)
      × ((c.fd == j) ≡ false → watched j (update_channel c loop).1.calls ≡ watched j loop.calls)
unfolding update_channel
updated j c loop = elim (Bool-cases c.in_epoll) [
  | inl inside ↦ rw inside (refl, λ other. rw other refl)
  | inr outside ↦ rw outside (refl, λ other. rw other refl)
]

module _ {K S : Type 0} (j : ℕ) where
  -- The connection has kept its descriptor, and the descriptor `j` is watched as before, if it is
  -- another one.
  abbrev pub IsApart : Site K S → Site K S → Type 0
  IsApart w w' =
      (w'.connection.channel.fd ≡ w.connection.channel.fd)
      × ((w.connection.channel.fd == j) ≡ false → watched j w'.loop.calls ≡ watched j w.loop.calls)

  IsApart-trans : (u v w : Site K S) → IsApart u v → IsApart v w → IsApart u w
  IsApart-trans u v w (fd, keeps) (fd', keeps') =
      (fd' ∙ fd, λ other. keeps' (rw fd other) ∙ keeps other)

  enable_writing-IsApart : (w : Site K S) → IsApart w (on_channel enable_writing w)
  unfolding enable_writing
  enable_writing-IsApart w = updated j (record w.connection.channel { writing = true }) w.loop

  disable_writing-IsApart : (w : Site K S) → IsApart w (on_channel disable_writing w)
  unfolding disable_writing
  disable_writing-IsApart w = updated j (record w.connection.channel { writing = false }) w.loop

  handle_close-IsApart : (w : Site K S) → IsApart w (handle_close w)
  unfolding handle_close remove_channel
  handle_close-IsApart w = elim (Bool-cases w.connection.channel.in_epoll) [
    | inl inside ↦ rw inside (refl, λ other. rw other refl)
    | inr outside ↦ rw outside (refl, λ other. refl)
  ]

  module _ (socket : Socket K) (handle_rpc_text : S → Text → S × Text) where
    answer_requests-IsApart :
        (fuel : ℕ) (w : Site K S) → IsApart w (answer_requests socket handle_rpc_text fuel w)
    unfolding answer_requests
    answer_requests-IsApart zero w = (refl, λ other. refl)
    answer_requests-IsApart (suc fuel) w =
        elim (Option-cases (try_decode_packet w.connection.input)) [
          | inl stop ↦ rw (stop, answer_requests) (refl, λ other. refl)
          | inr (p, more) ↦
              rw (more, answer_requests)
                (IsApart-trans w (answer_request socket handle_rpc_text p w)
                  (answer_requests socket handle_rpc_text fuel
                    (answer_request socket handle_rpc_text p w))
                  (enable_writing-IsApart (put_answer socket handle_rpc_text p w))
                  (answer_requests-IsApart fuel (answer_request socket handle_rpc_text p w)))
        ]

    after_read-IsApart :
        (w : Site K S) (out : Buffer × K × Bool)
        → IsApart w (after_read socket handle_rpc_text w out)
    after_read-IsApart w (b, k, true) =
        answer_requests-IsApart (readable_bytes b)
          (record w { connection = record w.connection { input = b }; kernel = k })
    after_read-IsApart w (b, k, false) =
        handle_close-IsApart
          (record w { connection = record w.connection { input = b }; kernel = k })

    after_write-IsApart :
        (w : Site K S) (out : Buffer × K × Bool)
        → IsApart w (after_write socket handle_rpc_text w out)
    after_write-IsApart w (b, k, ok) = go ok (readable_bytes b == 0)
      where
        go :
            (ok empty : Bool)
            → let w₁ = record w { connection = record w.connection { output = b }; kernel = k } in
              IsApart w (
                if ok
                then if empty then handle_close (on_channel disable_writing w₁) else w₁
                else handle_close w₁)
        go true true =
            let w₁ = record w { connection = record w.connection { output = b }; kernel = k } in
            IsApart-trans w (on_channel disable_writing w₁)
              (handle_close (on_channel disable_writing w₁)) (disable_writing-IsApart w₁)
              (handle_close-IsApart (on_channel disable_writing w₁))
        go true false = (refl, λ other. refl)
        go false empty =
            handle_close-IsApart
              (record w { connection = record w.connection { output = b }; kernel = k })

    behind_write-IsApart :
        (w₁ w' : Site K S) → IsBehindWrite socket handle_rpc_text w₁ w' → IsApart w₁ w'
    unfolding handle_write
    behind_write-IsApart w₁ w' (still, inl is) = rw is (after_write-IsApart w₁ _)
    behind_write-IsApart w₁ w' (still, inr is) = rw is (refl, λ other. refl)

    behind_read-IsApart :
        (fuel : ℕ) (w w₁ : Site K S) → IsBehindRead socket handle_rpc_text fuel w w₁ → IsApart w w₁
    behind_read-IsApart fuel w w₁ (inl is) = rw is (refl, λ other. refl)
    behind_read-IsApart fuel w w₁ (inr (out, read, is)) = rw is (after_read-IsApart w out)

    pub handle_event-IsApart :
        (fuel : ℕ) (ready : Ready) (w w' : Site K S)
        → handle_event socket handle_rpc_text fuel ready w ≡ some (handled w')
        → IsApart w w'
    handle_event-IsApart fuel ready w w' is =
        elim (handle_event-cases socket handle_rpc_text fuel ready w w' is) [
          | inl closed ↦ rw closed (handle_close-IsApart w)
          | inr (w₁, read, write) ↦
              IsApart-trans w w₁ w' (behind_read-IsApart fuel w w₁ read)
                (behind_write-IsApart w₁ w' write)
        ]
