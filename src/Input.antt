-- ===== src/Input.antt =====
-- Reading from a std::istream as src/raftCore/raft_node.cpp, src/persistence/storage.cpp and
-- src/client/clerk.cpp do it: `>>` into a std::string, an `int` and a `size_t`, and decodeConfig. These
-- are the documented rules of the library in the classic locale. A stream is the text that is not yet
-- read, and `none` once its failbit is set, after which every `>>` does nothing.
pub mod Numbers
pub mod Words
pub mod Config
use raft_kv_raft_leveldb.Types.{
  CommandType, PeerInfo, config_joint, config_new, del, get, noop, put,
}
use raft_kv_raft_leveldb.Common.{
  Bool, List, Option, Text, [], false, if◌then◌else◌, leb, ltb, none, not, some, suc, true, zero, ℕ,
  ◌%◌, ◌&&◌, ◌*◌, ◌+◌, ◌-◌, ◌==◌, ◌^◌, ◌||◌, ◌∷◌,
}

-- An `int` of the source.
pub data ℤ : Type 0 where
  pos negsuc : ℕ → ℤ

-- Reads in a row: the first that fails ends them.
infixl 5 ◌>>=◌
abbrev pub ◌>>=◌ {ℓ κ} : {A : Type ℓ} {B : Type κ} → Option A → (A → Option B) → Option B
none >>= f = none
some a >>= f = f a

-- `std::isspace`
abbrev pub is_space : ℕ → Bool
is_space c = c == 32 || (leb 9 c && leb c 13)

abbrev pub is_digit : ℕ → Bool
is_digit c = leb 48 c && leb c 57

-- The white space that every `>>` passes over.
unfoldable pub skip_space : Text → Text
skip_space [] = []
skip_space (c ∷ cs) = let rest = skip_space cs in if is_space c then rest else c ∷ cs

-- The longest front that passes the test, and what follows it.
unfoldable pub span : (ℕ → Bool) → Text → Text × Text
span p [] = ([], [])
span p (c ∷ cs) = let (front, rest) = span p cs in if p c then (c ∷ front, rest) else ([], c ∷ cs)

-- What `>>` makes of the bytes that it finds, which must be some.
abbrev pub as_word : Text × Text → Option (Text × Text)
as_word ([], rest) = none
as_word (c ∷ cs, rest) = some (c ∷ cs, rest)

-- `iss >> s`
unfoldable pub get_word : Text → Option (Text × Text)
get_word text = as_word (span (λ c. not (is_space c)) (skip_space text))

-- The number that decimal digits show, after a number already read.
unfoldable pub number_from : ℕ → Text → ℕ
number_from n [] = n
number_from n (c ∷ cs) = number_from (n * 10 + (c - 48)) cs

-- An optional sign: whether it is a minus, and what follows it.
unfoldable pub get_sign : Text → Bool × Text
get_sign [] = (false, [])
get_sign (c ∷ cs) = if c == 45 then (true, cs) else if c == 43 then (false, cs) else (false, c ∷ cs)

-- The sign, the value of the digits, of which there must be some, and what follows them.
abbrev pub as_number : Bool → Text × Text → Option (Bool × ℕ × Text)
as_number minus ([], rest) = none
as_number minus (c ∷ cs, rest) = some (minus, number_from 0 (c ∷ cs), rest)

unfoldable pub get_unsigned : Bool × Text → Option (Bool × ℕ × Text)
get_unsigned (minus, text) = as_number minus (span is_digit text)

unfoldable pub get_digits : Text → Option (Bool × ℕ × Text)
get_digits text = get_unsigned (get_sign (skip_space text))

-- The value of an `int` from its sign and magnitude, where it has one of 32 bits.
unfoldable pub to_int : Bool → ℕ → Option ℤ
to_int minus zero = some (pos zero)
to_int false (suc n) = if ltb (suc n) (2 ^ 31) then some (pos (suc n)) else none
to_int true (suc n) = if ltb n (2 ^ 31) then some (negsuc n) else none

-- `iss >> i` for an `int`
unfoldable pub get_int : Text → Option (ℤ × Text)
get_int text = do (minus, n, rest) ← get_digits text; i ← to_int minus n; some (i, rest)

-- `iss >> n` for a `size_t`: a minus wraps around.
unfoldable pub get_size : Text → Option (ℕ × Text)
get_size text = do
  (minus, n, rest) ← get_digits text
  if ltb n (2 ^ 64) then some (if minus then (2 ^ 64 - n) % 2 ^ 64 else n, rest) else none

-- `static_cast<CommandType>(i)`; `none` for a value that names no command.
unfoldable pub to_op : ℤ → Option CommandType
to_op (pos zero) = some put
to_op (pos (suc zero)) = some get
to_op (pos (suc (suc zero))) = some del
to_op (pos (suc (suc (suc zero)))) = some noop
to_op (pos (suc (suc (suc (suc zero))))) = some config_joint
to_op (pos (suc (suc (suc (suc (suc zero)))))) = some config_new
to_op _ = none

-- An `int` that the model keeps at 0 or above; `none` below.
unfoldable pub to_nat : ℤ → Option ℕ
to_nat (pos n) = some n
to_nat (negsuc n) = none

-- An `int` whose value -1 stands for nobody; `none` below that.
unfoldable pub to_option : ℤ → Option (Option ℕ)
to_option (pos n) = some (some n)
to_option (negsuc zero) = some none
to_option (negsuc (suc n)) = none

-- The loop of decodeConfig: the stream after it, and the nodes. The nodes are `none` where the source
-- has a node that a failed read left in part at its defaults (id -1), or with a negative number.
unfoldable pub decode_nodes : ℕ → Text → Option Text × Option (List PeerInfo)
decode_nodes zero text = (some text, some [])
decode_nodes (suc count) text = elim (get_int text) [
  | none ↦ (none, none)
  | some (id, t₁) ↦ elim (get_word t₁) [
    | none ↦ (none, none)
    | some (ip, t₂) ↦ elim (get_int t₂) [
      | none ↦ (none, none)
      | some (port, t₃) ↦
          let (rest, nodes) = decode_nodes count t₃ in
          (
            rest,
            do
              i ← to_nat id
              p ← to_nat port
              ns ← nodes
              some (record { id = i; ip = ip; port = p } ∷ ns),
          )
    ]
  ]
]

-- decodeConfig. Where the count cannot be read it is 0.
unfoldable pub decode_config : Option Text → Option Text × Option (List PeerInfo)
decode_config none = (none, some [])
decode_config (some text) = elim (get_size text) [
  | none ↦ (none, some [])
  | some (count, rest) ↦ decode_nodes count rest
]
