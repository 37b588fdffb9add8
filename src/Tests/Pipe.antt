-- ===== src/Tests/Pipe.antt =====
-- A stream socket that moves one byte in each call.
use raft_kv_raft_leveldb.Socket.{Received, Sent, Socket, got, recv_again, took}
use raft_kv_raft_leveldb.Socket.Client.{Steady}
use raft_kv_raft_leveldb.Socket.Streams.{StreamLaws, bytes_of, number_of}
use raft_kv_raft_leveldb.Packet.Decode.{IsByte}
use raft_kv_raft_leveldb.Common.{
  All, Text, [], append-nil, arith, length, refl, suc, sym, take, zero, ℕ, ◌++◌, ◌<◌, ◌∷◌, ◌≡◌, ◌≤◌,
}

pub record Pipe : Type 0 where
  pub given : Text
  pub coming : Text
  pub gone : Text
  pub bytes : All IsByte coming

abbrev take_one : Text → Text → (coming : Text) → All IsByte coming → ℕ → Received × Pipe
take_one given gone [] h size =
    (recv_again, record { given = given; coming = []; gone = gone; bytes = tt })
take_one given gone (c ∷ t) h zero =
    (got [], record { given = given; coming = c ∷ t; gone = gone; bytes = h })
take_one given gone (c ∷ t) h (suc n) =
    (got (c ∷ []), record { given = given ++ c ∷ []; coming = t; gone = gone; bytes = h.1 })

abbrev put_one : Pipe → Text → Sent × Pipe
put_one k [] = (took 0, k)
put_one k (c ∷ chars) = (took 1, record k { gone = k.gone ++ c ∷ [] })

abbrev pub pipe : Socket Pipe
pipe = record { recv = λ k size. take_one k.given k.gone k.coming k.bytes size; send = put_one }

-- What a call of recv does to a pipe.
abbrev IsMoved : Text → Text → Text → ℕ → Received × Pipe → Type 0
IsMoved given coming gone size (r, k) =
    (k.given ≡ given ++ bytes_of r)
    × (coming ≡ bytes_of r ++ k.coming)
    × (k.gone ≡ gone)
    × (length (bytes_of r) ≤ size)
    × All IsByte (bytes_of r)
    × (r ≡ recv_again → coming ≡ [])
    × (0 < length coming → 0 < size → 0 < length (bytes_of r))

take_one-IsMoved :
    (given gone coming : Text) (h : All IsByte coming) (size : ℕ)
    → IsMoved given coming gone size (take_one given gone coming h size)
take_one-IsMoved given gone [] h size =
    (sym (append-nil given), refl, refl, omega arith, tt, λ e. refl, λ some_left room. some_left)
take_one-IsMoved given gone (c ∷ t) h zero =
    (sym (append-nil given), refl, refl, omega arith, tt, λ e. cc, λ some_left room. room)
take_one-IsMoved given gone (c ∷ t) h (suc n) =
    (refl, refl, refl, omega arith, (h.0, tt), λ e. cc, λ some_left room. omega arith)

pub moved : (k : Pipe) (size : ℕ) → IsMoved k.given k.coming k.gone size (pipe.recv k size)
moved k size = take_one-IsMoved k.given k.gone k.coming k.bytes size

abbrev IsPut : Pipe → Text → Sent × Pipe → Type 0
IsPut k chars (s, k') =
    (k'.given ≡ k.given)
    × (k'.coming ≡ k.coming)
    × (k'.gone ≡ k.gone ++ take (number_of s) chars)
    × (0 < length chars → 0 < number_of s)

pub put_one-IsPut : (k : Pipe) (chars : Text) → IsPut k chars (put_one k chars)
put_one-IsPut k [] = (refl, refl, sym (append-nil k.gone), λ some_left. some_left)
put_one-IsPut k (c ∷ chars) = (refl, refl, refl, λ some_left. omega arith)

abbrev pub pipe_laws : StreamLaws pipe
pipe_laws = record {
  given = λ k. k.given;
  coming = λ k. k.coming;
  gone = λ k. k.gone;
  given-recv = λ k size. (moved k size).0;
  coming-recv = λ k size. (moved k size).1;
  gone-recv = λ k size. (moved k size).2;
  recv_size = λ k size. (moved k size).3;
  recv_bytes = λ k size. (moved k size).4;
  recv_waits = λ k size. (moved k size).5;
  given-send = λ k chars. (put_one-IsPut k chars).0;
  coming-send = λ k chars. (put_one-IsPut k chars).1;
  gone-send = λ k chars. (put_one-IsPut k chars).2;
}

pub pipe-Steady : Steady pipe_laws
pipe-Steady = record {
  recv_some = λ k size. (moved k size).6;
  send_some = λ k chars. (put_one-IsPut k chars).3;
}
