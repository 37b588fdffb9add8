-- ===== src/Connection/Life.antt =====
-- A connection of src/rpc/TcpConnection.cpp over time: the bytes that it has received and those that it
-- has sent, however the network cuts them.
use raft_kv_raft_leveldb.Connection.{
  EventLoop, Ready, Site, after_read, after_write, answer_request, answer_requests, disable_writing,
  handle_close, handle_event, handle_write, handled, on_channel,
}
use raft_kv_raft_leveldb.Connection.Events.{IsBehindRead, IsBehindWrite, handle_event-cases}
use raft_kv_raft_leveldb.Connection.Served.{IsServed, more-IsServed, serve_one-IsServed}
use raft_kv_raft_leveldb.Socket.{Socket}
use raft_kv_raft_leveldb.Socket.Streams.{
  IsRead, IsWritten, StreamLaws, read_fd-IsRead, write_fd-IsWritten,
}
use raft_kv_raft_leveldb.Packet.{Buffer, append, encode_packet, readable_bytes, try_decode_packet}
use raft_kv_raft_leveldb.Common.{
  Bool, List, Option-cases, Text, [], append_assoc, false, if◌then◌else◌, inl, inr, length, refl,
  some, suc, sym, true, zero, ℕ, ◌++◌, ◌<◌, ◌==◌, ◌∙◌, ◌∷◌, ◌≡◌,
}

module _ {K S : Type 0} {socket : Socket K} (laws : StreamLaws socket)
    (handle_rpc_text : S → Text → S × Text) where
  -- What a connection has received is the packets of some requests, in their order, and behind them
  -- what is in its input buffer. What it has sent, and behind that what is in its output buffer, is the
  -- packets of the responses to these requests, in the same order. Each response is the one of handleRpcText at some
  -- state of the node.
  abbrev pub IsAnswering : Site K S → Type 0
  IsAnswering w =
      (served : List (S × Text)) × IsServed handle_rpc_text served (laws.given w.kernel)
        w.connection.input.bytes (laws.gone w.kernel ++ w.connection.output.bytes)

  answer_requests-IsAnswering :
      (fuel : ℕ) (w : Site K S)
      → IsAnswering w
      → IsAnswering (answer_requests socket handle_rpc_text fuel w)
  unfolding answer_requests append
  answer_requests-IsAnswering zero w h = h
  answer_requests-IsAnswering (suc fuel) w (served, h) =
      elim (Option-cases (try_decode_packet w.connection.input)) [
        | inl stop ↦ rw (stop, answer_requests) (served, h)
        | inr ((req, rest), more) ↦
            rw (more, answer_requests)
              (answer_requests-IsAnswering fuel
                (answer_request socket handle_rpc_text (req, rest) w)
                (
                  served ++ (w.state, req) ∷ [],
                  rw
                      (sym (
                        append_assoc (laws.gone w.kernel) w.connection.output.bytes
                          (encode_packet (handle_rpc_text w.state req).1)))
                      (serve_one-IsServed handle_rpc_text served _ _ _ req rest w.state h more),
                ))
      ]

  handle_close-IsAnswering : (w : Site K S) → IsAnswering w → IsAnswering (handle_close w)
  unfolding handle_close
  handle_close-IsAnswering w h = h

  after_read-IsAnswering :
      (w : Site K S) (out : Buffer × K × Bool)
      → IsRead laws w.connection.input w.kernel out
      → IsAnswering w
      → IsAnswering (after_read socket handle_rpc_text w out)
  after_read-IsAnswering w (b, k, ok) (t, in_buffer, given, coming, gone, bytes, all) (served, h) =
      let w₁ = record w { connection = record w.connection { input = b }; kernel = k } in
      let h₁ : IsAnswering w₁ = (
        served,
        rw (in_buffer, given, gone) (more-IsServed handle_rpc_text served _ _ _ t bytes h),
      ) in
      go ok h₁
    where
      go :
          (ok : Bool)
          → IsAnswering (record w { connection = record w.connection { input = b }; kernel = k })
          → IsAnswering (after_read socket handle_rpc_text w (b, k, ok))
      go true h₁ = answer_requests-IsAnswering (readable_bytes b) _ h₁
      go false h₁ = handle_close-IsAnswering _ h₁

  after_write-IsAnswering :
      (w : Site K S) (out : Buffer × K × Bool)
      → IsWritten laws w.connection.output.bytes w.kernel (out.0.bytes, out.1)
      → IsAnswering w
      → IsAnswering (after_write socket handle_rpc_text w out)
  after_write-IsAnswering w (b, k, ok) (gone, given, coming) (served, h) =
      go ok (readable_bytes b == 0) (served, rw (gone, given) h)
    where
      go :
          (ok empty : Bool)
          → IsAnswering (record w { connection = record w.connection { output = b }; kernel = k })
          → let w₁ = record w { connection = record w.connection { output = b }; kernel = k } in
            IsAnswering (
              if ok
              then if empty then handle_close (on_channel disable_writing w₁) else w₁
              else handle_close w₁)
      go true true h₁ = handle_close-IsAnswering _ h₁
      go true false h₁ = h₁
      go false empty h₁ = handle_close-IsAnswering _ h₁

  behind_read-IsAnswering :
      (fuel : ℕ) (w w₁ : Site K S)
      → length (laws.coming w.kernel) < fuel
      → IsAnswering w
      → IsBehindRead socket handle_rpc_text fuel w w₁
      → IsAnswering w₁
  behind_read-IsAnswering fuel w w₁ enough h (inl is) = rw is h
  behind_read-IsAnswering fuel w w₁ enough h (inr (out, read, is)) =
      let (out', read', h') = read_fd-IsRead laws fuel w.connection.input w.kernel enough in
      let same : out' ≡ out = cc (sym read' ∙ read) in
      rw is (after_read-IsAnswering w out (rw (sym same) h') h)

  behind_write-IsAnswering :
      (w₁ w' : Site K S)
      → IsAnswering w₁
      → IsBehindWrite socket handle_rpc_text w₁ w'
      → IsAnswering w'
  unfolding handle_write
  behind_write-IsAnswering w₁ w' h (still, inl is) =
      rw is
        (after_write-IsAnswering w₁ _ (write_fd-IsWritten laws w₁.connection.output w₁.kernel) h)
  behind_write-IsAnswering w₁ w' h (still, inr is) = rw is h

  -- What happens to a connection: more bytes arrive, other threads and connections change the state of
  -- the node and the loop, or an event is handled that does not touch the channel behind its
  -- destruction. The calls of recv may be as many as it takes.
  pub data Step : Site K S → Site K S → Type 0 where
    arrives :
        {w : Site K S} (k : K)
        → laws.given k ≡ laws.given w.kernel
        → laws.gone k ≡ laws.gone w.kernel
        → Step w (record w { kernel = k })
    elsewhere :
        {w : Site K S} (s : S) (loop : EventLoop) → Step w (record w { state = s; loop = loop })
    event :
        {w w' : Site K S} (fuel : ℕ) (ready : Ready)
        → length (laws.coming w.kernel) < fuel
        → handle_event socket handle_rpc_text fuel ready w ≡ some (handled w')
        → Step w w'

  pub data Life (w : Site K S) : Site K S → Type 0 where
    new : Life w w
    later : {w₁ w₂ : Site K S} → Life w w₁ → Step w₁ w₂ → Life w w₂

  Step-IsAnswering : {w w' : Site K S} → IsAnswering w → Step w w' → IsAnswering w'
  Step-IsAnswering (served, h) (arrives k given gone) = (served, rw (given, gone) h)
  Step-IsAnswering h (elsewhere s loop) = h
  Step-IsAnswering h (event {w = w} {w' = w'} fuel ready enough is) =
      elim (handle_event-cases socket handle_rpc_text fuel ready w w' is) [
        | inl closed ↦ rw closed (handle_close-IsAnswering w h)
        | inr (w₁, read, write) ↦
            behind_write-IsAnswering w₁ w' (behind_read-IsAnswering fuel w w₁ enough h read) write
      ]

  -- A connection that has received and sent nothing, after any number of events, none of which reads the
  -- channel behind its destruction, is answering: what it has received is the packets of some requests, in their order, and behind them what is in its input
  -- buffer. What it has sent, and behind that what is in its output buffer, is the packets of the
  -- responses to these requests, in the same order. Each response is the one of handleRpcText at some
  -- state of the node.
  pub Life-IsAnswering :
      {w w' : Site K S}
      → w.connection.input.bytes ≡ []
      → w.connection.output.bytes ≡ []
      → laws.given w.kernel ≡ []
      → laws.gone w.kernel ≡ []
      → Life w w'
      → IsAnswering w'
  Life-IsAnswering no_input no_output unread unsent new =
      ([], (tt, rw (unread, no_input) refl, rw (unsent, no_output) refl, rw no_input tt))
  Life-IsAnswering no_input no_output unread unsent (later life step) =
      Step-IsAnswering (Life-IsAnswering no_input no_output unread unsent life) step
