-- ===== src/Storage/Load/Lines.antt =====
-- The lines of the state file are the entries that `save` wrote.
use mathlib.Core.Path.{subst}
use raft_kv_raft_leveldb.Storage.Load.{lines_of}
use raft_kv_raft_leveldb.Types.{LogEntry, PeerInfo}
use raft_kv_raft_leveldb.Format.{
  encode_config, op_code, show_entries, show_entry, show_nat, show_peers,
}
use raft_kv_raft_leveldb.Input.Config.{IsWirePeer}
use raft_kv_raft_leveldb.Wire.Entries.{IsWireEntry}
use raft_kv_raft_leveldb.Common.{
  All, List, Text, [], ap, append_assoc, arith, false, length, not, refl, sym, true, ℕ, ◌++◌, ◌==◌,
  ◌∙◌, ◌∷◌, ◌≡◌,
}
use raft_kv_raft_leveldb.Input.{is_digit, is_space}
use raft_kv_raft_leveldb.Input.Numbers.{show_nat-All}

-- Text within one line.
abbrev pub IsLine : Text → Type 0
IsLine s = All (λ c. (c == 10) ≡ false) s

IsLine-append : (s t : Text) → IsLine s → IsLine t → IsLine (s ++ t)
IsLine-append [] t a b = b
IsLine-append (c ∷ s) t a b = (a.0, IsLine-append s t a.1 b)

IsWord-IsLine : (w : Text) → All (λ c. not (is_space c) ≡ true) w → IsLine w
IsWord-IsLine [] h = tt
IsWord-IsLine (c ∷ w) h = (ground (arith, h.0), IsWord-IsLine w h.1)

digits-IsLine : (ds : Text) → All (λ c. is_digit c ≡ true) ds → IsLine ds
digits-IsLine [] h = tt
digits-IsLine (c ∷ ds) h = (ground (arith, h.0), digits-IsLine ds h.1)

show_nat-IsLine : (n : ℕ) → IsLine (show_nat n)
show_nat-IsLine n = digits-IsLine (show_nat n) (show_nat-All n)

show_peers_spread :
    (n : PeerInfo) (ns : List PeerInfo)
    → show_peers (n ∷ ns)
      ≡ 32 ∷ (show_nat n.id ++ 32 ∷ (n.ip ++ 32 ∷ (show_nat n.port ++ show_peers ns)))
unfolding show_peers
show_peers_spread n ns = simp append_assoc

show_peers-IsLine : (ns : List PeerInfo) → All IsWirePeer ns → IsLine (show_peers ns)
show_peers-IsLine [] h = unfold show_peers in tt
show_peers-IsLine (n ∷ ns) h = subst IsLine (sym (show_peers_spread n ns)) (
  refl,
  IsLine-append (show_nat n.id) _ (show_nat-IsLine n.id) (
    refl,
    IsLine-append n.ip _ (IsWord-IsLine n.ip h.0.ip.1) (
      refl,
      IsLine-append (show_nat n.port) _ (show_nat-IsLine n.port) (show_peers-IsLine ns h.1),
    ),
  ),
)

encode_config-IsLine : (ns : List PeerInfo) → All IsWirePeer ns → IsLine (encode_config ns)
unfolding encode_config
encode_config-IsLine ns h =
    IsLine-append (show_nat (length ns)) (show_peers ns) (show_nat-IsLine (length ns))
      (show_peers-IsLine ns h)

-- The text of an entry without the end of its line, its tokens side by side.
abbrev pub entry_line : LogEntry → Text
entry_line e =
    show_nat e.index
    ++ 32
      ∷ (show_nat e.term
          ++ 32
            ∷ (show_nat (op_code e.op)
                ++ 32
                  ∷ (e.key
                      ++ 32
                        ∷ (e.value
                            ++ 32
                              ∷ (encode_config e.old_config
                                  ++ 32 ∷ (encode_config e.new_config ++ []))))))

show_entry-line : (e : LogEntry) (rest : Text) → show_entry e ++ rest ≡ entry_line e ++ 10 ∷ rest
unfolding show_entry
show_entry-line e rest = simp append_assoc

entry_line-IsLine : (e : LogEntry) → IsWireEntry e → IsLine (entry_line e)
entry_line-IsLine e h = IsLine-append (show_nat e.index) _ (show_nat-IsLine e.index) (
  refl,
  IsLine-append (show_nat e.term) _ (show_nat-IsLine e.term) (
    refl,
    IsLine-append (show_nat (op_code e.op)) _ (show_nat-IsLine (op_code e.op)) (
      refl,
      IsLine-append e.key _ (IsWord-IsLine e.key h.key.1) (
        refl,
        IsLine-append e.value _ (IsWord-IsLine e.value h.value.1) (
          refl,
          IsLine-append (encode_config e.old_config) _
              (encode_config-IsLine e.old_config h.old_config)
              (
                refl,
                IsLine-append (encode_config e.new_config) []
                    (encode_config-IsLine e.new_config h.new_config) tt,
              ),
        ),
      ),
    ),
  ),
)

-- A line in front of more text.
pub lines_of-append :
    (line rest : Text) → IsLine line → lines_of (line ++ 10 ∷ rest) ≡ line ∷ lines_of rest
unfolding lines_of
lines_of-append [] rest h = refl
lines_of-append (c ∷ line) rest h = rw (h.0, lines_of-append line rest h.1) refl

pub lines_of-show_entries :
    (e : LogEntry) (es : List LogEntry)
    → IsWireEntry e
    → lines_of (show_entries (e ∷ es)) ≡ entry_line e ∷ lines_of (show_entries es)
unfolding show_entries
lines_of-show_entries e es h =
    ap lines_of (show_entry-line e (show_entries es))
    ∙ lines_of-append (entry_line e) (show_entries es) (entry_line-IsLine e h)
