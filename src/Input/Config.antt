-- ===== src/Input/Config.antt =====
-- decodeConfig of src/raftCore/raft_node.cpp reads back what encodeConfig wrote.
use raft_kv_raft_leveldb.Input.{
  decode_config, decode_nodes, get_int, get_size, get_word, is_space, pos, to_nat,
}
use raft_kv_raft_leveldb.Input.Words.{IsWord, get_int-space, get_size-space, get_word-space}
use raft_kv_raft_leveldb.Types.{PeerInfo}
use raft_kv_raft_leveldb.Common.{
  All, List, Text, [], ap, append_assoc, length, refl, some, suc, true, ℕ, ◌++◌, ◌<◌, ◌^◌, ◌∙◌, ◌∷◌,
  ◌≡◌,
}
use raft_kv_raft_leveldb.Format.{encode_config, show_nat, show_peers, space}
use raft_kv_raft_leveldb.Input.Numbers.{Stops}

-- A node whose address is one word and whose numbers an `int` can hold.
pub record IsWirePeer (p : PeerInfo) : Type 0 where
  pub id : p.id < 2 ^ 31
  pub ip : IsWord p.ip
  pub port : p.port < 2 ^ 31

show_peers-Stops : (ns : List PeerInfo) (rest : Text) → Stops rest → Stops (show_peers ns ++ rest)
unfolding show_peers
show_peers-Stops [] rest stops = stops
show_peers-Stops (n ∷ ns) rest stops = refl

-- Three tokens in front of more text, behind which stands the rest.
spread :
    (a b c d rest : Text)
    → space ++ a ++ space ++ b ++ space ++ c ++ d ++ rest
      ≡ 32 ∷ (a ++ 32 ∷ (b ++ 32 ∷ (c ++ (d ++ rest))))
spread a b c d rest = simp append_assoc

decode_nodes-next :
    (count i p : ℕ) (ip t t₁ t₂ t₃ rest : Text) (ns : List PeerInfo)
    → get_int t ≡ some (pos i, t₁)
    → get_word t₁ ≡ some (ip, t₂)
    → get_int t₂ ≡ some (pos p, t₃)
    → decode_nodes count t₃ ≡ (some rest, some ns)
    → decode_nodes (suc count) t ≡ (some rest, some (record { id = i; ip = ip; port = p } ∷ ns))
unfolding decode_nodes to_nat
decode_nodes-next count i p ip t t₁ t₂ t₃ rest ns a b c d = rw (a, b, c, d, decode_nodes) refl

show_peers-next :
    (n : PeerInfo) (ns : List PeerInfo) (rest : Text)
    → show_peers (n ∷ ns) ++ rest
      ≡ 32 ∷ (show_nat n.id ++ 32 ∷ (n.ip ++ 32 ∷ (show_nat n.port ++ (show_peers ns ++ rest))))
unfolding show_peers
show_peers-next n ns rest = spread (show_nat n.id) n.ip (show_nat n.port) (show_peers ns) rest

decode_nodes-show_peers :
    (ns : List PeerInfo) (rest : Text)
    → All IsWirePeer ns
    → Stops rest
    → decode_nodes (length ns) (show_peers ns ++ rest) ≡ (some rest, some ns)
decode_nodes-show_peers [] rest h stops = unfold decode_nodes show_peers in refl
decode_nodes-show_peers (n ∷ ns) rest h stops =
    let more = show_peers ns ++ rest in
    ap (decode_nodes (suc (length ns))) (show_peers-next n ns rest)
    ∙ decode_nodes-next (length ns) n.id n.port n.ip _
        (32 ∷ (n.ip ++ 32 ∷ (show_nat n.port ++ more))) (32 ∷ (show_nat n.port ++ more)) more rest
        ns (get_int-space 32 refl n.id (32 ∷ (n.ip ++ 32 ∷ (show_nat n.port ++ more))) h.0.id refl)
        (get_word-space 32 refl n.ip (32 ∷ (show_nat n.port ++ more)) h.0.ip refl)
        (get_int-space 32 refl n.port more h.0.port (show_peers-Stops ns rest stops))
        (decode_nodes-show_peers ns rest h.1 stops)

decode_config-count :
    (c count : ℕ) (text rest : Text)
    → get_size (c ∷ text) ≡ some (count, rest)
    → decode_config (some (c ∷ text)) ≡ decode_nodes count rest
unfolding decode_config
decode_config-count c count text rest h = rw (h, decode_config) refl

pub decode_config-encode_config :
    (c : ℕ) (ns : List PeerInfo) (rest : Text)
    → is_space c ≡ true
    → All IsWirePeer ns
    → length ns < 2 ^ 64
    → Stops rest
    → decode_config (some (c ∷ encode_config ns ++ rest)) ≡ (some rest, some ns)
unfolding encode_config
decode_config-encode_config c ns rest gap h count stops =
    decode_config-count c (length ns) _ _ (
      ap (λ t. get_size (c ∷ t)) (append_assoc (show_nat (length ns)) (show_peers ns) rest)
      ∙ get_size-space c gap (length ns) (show_peers ns ++ rest) count
          (show_peers-Stops ns rest stops))
    ∙ decode_nodes-show_peers ns rest h stops
