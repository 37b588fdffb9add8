-- ===== src/Input/Words.antt =====
-- A word that `<<` writes is read back by `>>`, and white space in front of a token is passed over.
use raft_kv_raft_leveldb.Input.{
  as_word, get_digits, get_int, get_sign, get_size, get_unsigned, get_word, is_space, negsuc, pos,
  skip_space, span, to_option, ℤ,
}
use raft_kv_raft_leveldb.Input.Numbers.{
  Stops, get_int-minus_one, get_int-show_nat, get_size-show_nat, skip_space-token, span-append,
}
use raft_kv_raft_leveldb.Common.{
  All, Bool, Option, Text, [], ap, arith, false, if◌then◌else◌, length, ltb, none, not, refl, some,
  true, ℕ, ◌&&◌, ◌++◌, ◌<◌, ◌^◌, ◌∙◌, ◌∷◌, ◌≡◌,
}
use raft_kv_raft_leveldb.Format.{show_nat, show_option}

-- Text that `>>` reads as one word: not empty, and without white space.
abbrev pub IsWord : Text → Type 0
IsWord w = (0 < length w) × All (λ c. not (is_space c) ≡ true) w

span_word : (rest : Text) → Stops rest → span (λ c. not (is_space c)) rest ≡ ([], rest)
unfolding span
span_word [] h = refl
span_word (c ∷ cs) h = rw h refl

pub get_word-IsWord :
    (w rest : Text) → IsWord w → Stops rest → get_word (w ++ rest) ≡ some (w, rest)
unfolding get_word
get_word-IsWord [] rest h stops = absurd (omega (arith, h.0))
get_word-IsWord (c ∷ w) rest h stops =
    let token : is_space c ≡ false = ground (arith, h.1.0) in
    ap (λ t. as_word (span (λ b. not (is_space b)) t)) (skip_space-token c (w ++ rest) token)
    ∙ ap as_word (span-append (λ b. not (is_space b)) (c ∷ w) rest h.1 (span_word rest stops))

skip_space-space :
    (c : ℕ) (text : Text) → is_space c ≡ true → skip_space (c ∷ text) ≡ skip_space text
unfolding skip_space
skip_space-space c text h = rw h refl

-- An optional number that an `int` can hold.
abbrev pub IsSmall : Option ℕ → Type 0
IsSmall none = Unit {0}
IsSmall (some n) = n < 2 ^ 31

-- The `int` of an optional number, -1 for none.
abbrev pub option_int : Option ℕ → ℤ
option_int none = negsuc 0
option_int (some n) = pos n

pub to_option-option_int : (o : Option ℕ) → to_option (option_int o) ≡ some o
unfolding to_option
to_option-option_int none = refl
to_option-option_int (some n) = refl

get_int_option :
    (o : Option ℕ) (rest : Text)
    → IsSmall o
    → Stops rest
    → get_int (show_option o ++ rest) ≡ some (option_int o, rest)
unfolding show_option
get_int_option none rest small stops = get_int-minus_one rest stops
get_int_option (some n) rest small stops = get_int-show_nat n rest small stops

-- The test that a text is one word.
abbrev all_token : Text → Bool
all_token [] = true
all_token (c ∷ cs) = if is_space c then false else all_token cs

all_token-IsToken : (w : Text) → all_token w ≡ true → All (λ c. not (is_space c) ≡ true) w
all_token-IsToken [] h = tt
all_token-IsToken (c ∷ w) h = ground (arith, h, all_token-IsToken w)

pub is_word : (w : Text) → (ltb 0 (length w) && all_token w) ≡ true → IsWord w
is_word w h = ground (arith, h, all_token-IsToken w)

module _ (c : ℕ) (h : is_space c ≡ true) where
  pub get_word-space :
      (w rest : Text) → IsWord w → Stops rest → get_word (c ∷ w ++ rest) ≡ some (w, rest)
  get_word-space w rest word stops =
      unfold get_word in
      ap (λ t. as_word (span (λ b. not (is_space b)) t)) (skip_space-space c (w ++ rest) h)
      ∙ get_word-IsWord w rest word stops

  get_digits-space : (text : Text) → get_digits (c ∷ text) ≡ get_digits text
  unfolding get_digits
  get_digits-space text = ap (λ t. get_unsigned (get_sign t)) (skip_space-space c text h)

  get_int-pass : (text : Text) → get_int (c ∷ text) ≡ get_int text
  unfolding get_int
  get_int-pass text = rw (get_digits-space text) refl

  get_size-pass : (text : Text) → get_size (c ∷ text) ≡ get_size text
  unfolding get_size
  get_size-pass text = rw (get_digits-space text) refl

  pub get_int-space :
      (n : ℕ) (rest : Text)
      → n < 2 ^ 31
      → Stops rest
      → get_int (c ∷ show_nat n ++ rest) ≡ some (pos n, rest)
  get_int-space n rest small stops =
      get_int-pass (show_nat n ++ rest) ∙ get_int-show_nat n rest small stops

  pub get_size-space :
      (n : ℕ) (rest : Text)
      → n < 2 ^ 64
      → Stops rest
      → get_size (c ∷ show_nat n ++ rest) ≡ some (n, rest)
  get_size-space n rest small stops =
      get_size-pass (show_nat n ++ rest) ∙ get_size-show_nat n rest small stops

  pub get_int_option-space :
      (o : Option ℕ) (rest : Text)
      → IsSmall o
      → Stops rest
      → get_int (c ∷ (show_option o ++ rest)) ≡ some (option_int o, rest)
  get_int_option-space o rest small stops =
      get_int-pass (show_option o ++ rest) ∙ get_int_option o rest small stops
