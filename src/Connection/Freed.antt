-- ===== src/Connection/Freed.antt =====
-- Channel::handleEvent of src/rpc/Channel.h where its read callback closes the connection, and with it
-- destroys the channel.
use raft_kv_raft_leveldb.Connection.{
  Ready, Site, after_read, answer_request, answer_requests, behind_read, dangling, handle_close,
  handle_event, handle_read, remove_channel,
}
use raft_kv_raft_leveldb.Socket.{Socket, read_fd}
use raft_kv_raft_leveldb.Packet.{Buffer, readable_bytes, try_decode_packet}
use raft_kv_raft_leveldb.Common.{
  Bool, Option-cases, Text, inl, inr, false, refl, some, suc, true, zero, ℕ, ◌∙◌, ◌↔◌, ◌≡◌,
}

module _ {K S : Type 0} (socket : Socket K) (handle_rpc_text : S → Text → S × Text) where
  answer_requests_fd :
      (fuel : ℕ) (w : Site K S)
      → (answer_requests socket handle_rpc_text fuel w).connection.fd ≡ w.connection.fd
  unfolding answer_requests
  answer_requests_fd zero w = refl
  answer_requests_fd (suc fuel) w = elim (Option-cases (try_decode_packet w.connection.input)) [
    | inl stop ↦ rw (stop, answer_requests) refl
    | inr (p, more) ↦
        rw (more, answer_requests)
          (answer_requests_fd fuel (answer_request socket handle_rpc_text p w))
  ]

  closed_behind :
      (fd : ℕ) (ready : Ready) (w : Site K S) (out : Buffer × K × Bool)
      → w.connection.fd ≡ some fd
      → (behind_read socket handle_rpc_text ready (after_read socket handle_rpc_text w out)
          ≡ dangling)
        ↔ (out.2 ≡ false)
  unfolding handle_close remove_channel
  closed_behind fd ready w (b, k, true) is_open =
      let same =
        answer_requests_fd (readable_bytes b)
          (record w { connection = record w.connection { input = b }; kernel = k })
        ∙ is_open in
      rw same (λ e. cc, λ e. cc)
  closed_behind fd ready w (b, k, false) is_open = (λ e. refl, λ e. refl)

  -- Where an event of an open connection says that its socket can be read, and no EPOLLHUP or EPOLLERR,
  -- handleEvent reads a channel that is destroyed exactly if readFd returns false.
  pub handle_event_dangling :
      (fuel fd : ℕ) (ready : Ready) (w : Site K S) (b : Buffer) (k : K) (ok : Bool)
      → w.connection.fd ≡ some fd
      → ready.hang_up ≡ false
      → ready.readable ≡ true
      → read_fd socket fuel w.connection.input w.kernel ≡ some (b, k, ok)
      → (handle_event socket handle_rpc_text fuel ready w ≡ some dangling) ↔ (ok ≡ false)
  unfolding handle_event handle_read
  handle_event_dangling fuel fd ready w b k ok is_open no_hang_up readable read =
      let behind = closed_behind fd ready w (b, k, ok) is_open in
      rw (no_hang_up, readable, read) (λ e. behind.0 (cc e), λ e. cc (behind.1 e))
