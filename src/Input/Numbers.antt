-- ===== src/Input/Numbers.antt =====
-- A number that `<<` writes is read back by `>>`.
use raft_kv_raft_leveldb.Format.{show_digits, show_nat}
use raft_kv_raft_leveldb.Input.{
  as_number, get_digits, get_int, get_sign, get_size, get_unsigned, is_digit, is_space, negsuc,
  number_from, pos, skip_space, span, to_int, ◌>>=◌,
}
use raft_kv_raft_leveldb.Common.{
  All, Bool, Bool-cases, Text, [], ap, arith, false, inl, inr, length, length-append, ltb, none,
  refl, some, suc, true, zero, ℕ, ◌%◌, ◌*◌, ◌++◌, ◌+◌, ◌-◌, ◌/◌, ◌<◌, ◌==◌, ◌^◌, ◌∙◌, ◌∷◌, ◌≡◌,
}

-- What follows a token: nothing, or white space.
abbrev pub Stops : Text → Type 0
Stops [] = Unit {0}
Stops (c ∷ cs) = is_space c ≡ true

number_from-append : (n : ℕ) (s t : Text) → number_from n (s ++ t) ≡ number_from (number_from n s) t
unfolding number_from
number_from-append n [] t = refl
number_from-append n (c ∷ s) t = number_from-append (n * 10 + (c - 48)) s t

All-append :
    (p : ℕ → Bool) (s t : Text)
    → All (λ c. p c ≡ true) s
    → All (λ c. p c ≡ true) t
    → All (λ c. p c ≡ true) (s ++ t)
All-append p [] t a b = b
All-append p (c ∷ s) t a b = (a.0, All-append p s t a.1 b)

-- The digits show the number, and are digits.
show_digits-number : (fuel n : ℕ) → n < fuel → number_from 0 (show_digits fuel n) ≡ n
unfolding show_digits number_from
show_digits-number zero n h = absurd (omega arith)
show_digits-number (suc fuel) n h = elim (Bool-cases (ltb n 10)) [
  | inl small ↦ rw small (omega arith)
  | inr large ↦
      let ih = show_digits-number fuel (n / 10) (ground (arith, large)) in
      rw (large, number_from-append 0 (show_digits fuel (n / 10)) ((n % 10 + 48) ∷ []), ih)
        (omega arith)
]

show_digits-All : (fuel n : ℕ) → n < fuel → All (λ c. is_digit c ≡ true) (show_digits fuel n)
unfolding show_digits
show_digits-All zero n h = absurd (omega arith)
show_digits-All (suc fuel) n h = elim (Bool-cases (ltb n 10)) [
  | inl small ↦ rw small (ground arith, tt)
  | inr large ↦ rw large (
      All-append is_digit (show_digits fuel (n / 10)) ((n % 10 + 48) ∷ [])
        (show_digits-All fuel (n / 10) (ground (arith, large))) (ground arith, tt))
]

-- A front that passes the test, before one that does not.
pub span-append :
    (p : ℕ → Bool) (s t : Text)
    → All (λ c. p c ≡ true) s
    → span p t ≡ ([], t)
    → span p (s ++ t) ≡ (s, t)
unfolding span
span-append p [] t a b = b
span-append p (c ∷ s) t a b = rw (a.0, span-append p s t a.1 b) refl

-- Text that starts a token: no sign, and no white space.
span-Stops : (rest : Text) → Stops rest → span is_digit rest ≡ ([], rest)
unfolding span
span-Stops [] h = refl
span-Stops (c ∷ cs) h = ground (arith, h)

pub skip_space-token : (c : ℕ) (cs : Text) → is_space c ≡ false → skip_space (c ∷ cs) ≡ c ∷ cs
unfolding skip_space
skip_space-token c cs h = rw h refl

get_sign-digit : (c : ℕ) (cs : Text) → is_digit c ≡ true → get_sign (c ∷ cs) ≡ (false, c ∷ cs)
unfolding get_sign
get_sign-digit c cs h =
    let not_minus : (c == 45) ≡ false = ground (arith, h) in
    let not_plus : (c == 43) ≡ false = ground (arith, h) in rw (not_minus, not_plus) refl

-- The digits of a number, once white space is passed.
digits_read :
    (c : ℕ) (ds rest : Text)
    → All (λ d. is_digit d ≡ true) (c ∷ ds)
    → Stops rest
    → get_digits (c ∷ ds ++ rest) ≡ some (false, number_from 0 (c ∷ ds), rest)
unfolding get_digits get_unsigned
digits_read c ds rest h stops =
    let not_space : is_space c ≡ false = ground (arith, h.0) in
    ap get_unsigned
      (ap get_sign (skip_space-token c (ds ++ rest) not_space) ∙ get_sign-digit c (ds ++ rest) h.0)
    ∙ ap (as_number false) (span-append is_digit (c ∷ ds) rest h (span-Stops rest stops))

get_digits-All :
    (ds rest : Text)
    → All (λ d. is_digit d ≡ true) ds
    → 0 < length ds
    → Stops rest
    → get_digits (ds ++ rest) ≡ some (false, number_from 0 ds, rest)
get_digits-All [] rest h size stops = absurd (omega arith)
get_digits-All (c ∷ ds) rest h size stops = digits_read c ds rest h stops

show_digits-length : (fuel n : ℕ) → n < fuel → 0 < length (show_digits fuel n)
unfolding show_digits
show_digits-length zero n h = absurd (omega arith)
show_digits-length (suc fuel) n h =
    ground (arith, length-append (show_digits fuel (n / 10)) ((n % 10 + 48) ∷ []))

-- What `<<` writes for a number is its sign and magnitude.
pub get_digits-show_nat :
    (n : ℕ) (rest : Text) → Stops rest → get_digits (show_nat n ++ rest) ≡ some (false, n, rest)
unfolding show_nat
get_digits-show_nat n rest stops =
    rw
      (
        get_digits-All (show_digits (suc n) n) rest (show_digits-All (suc n) n (omega arith))
            (show_digits-length (suc n) n (omega arith)) stops,
        show_digits-number (suc n) n (omega arith),
      )
      refl

to_int-pos : (n : ℕ) → n < 2 ^ 31 → to_int false n ≡ some (pos n)
unfolding to_int
to_int-pos zero h = refl
to_int-pos (suc n) h = let small : ltb (suc n) (2 ^ 31) ≡ true = ground (arith, h) in rw small refl

-- A number below 2 ^ 31 is read back as an `int`.
pub get_int-show_nat :
    (n : ℕ) (rest : Text)
    → n < 2 ^ 31
    → Stops rest
    → get_int (show_nat n ++ rest) ≡ some (pos n, rest)
unfolding get_int
get_int-show_nat n rest h stops = rw (get_digits-show_nat n rest stops, to_int-pos n h) refl

-- A number below 2 ^ 64 is read back as a `size_t`.
pub get_size-show_nat :
    (n : ℕ) (rest : Text) → n < 2 ^ 64 → Stops rest → get_size (show_nat n ++ rest) ≡ some (n, rest)
unfolding get_size
get_size-show_nat n rest h stops =
    let small : ltb n (2 ^ 64) ≡ true = ground (arith, h) in
    rw (get_digits-show_nat n rest stops, small) refl

-- So is -1.
pub get_int-minus_one :
    (rest : Text) → Stops rest → get_int (45 ∷ 49 ∷ rest) ≡ some (negsuc 0, rest)
unfolding get_int get_digits get_unsigned skip_space get_sign number_from to_int
get_int-minus_one rest stops =
    ap (λ s. as_number true s >>= λ r. to_int r.0 r.1 >>= λ i. some (i, r.2))
      (span-append is_digit (49 ∷ []) rest (refl, tt) (span-Stops rest stops))

pub show_nat-All : (n : ℕ) → All (λ c. is_digit c ≡ true) (show_nat n)
unfolding show_nat
show_nat-All n = show_digits-All (suc n) n (omega arith)

pub get_int-empty : get_int [] ≡ none
unfolding get_int get_digits get_unsigned span get_sign skip_space
get_int-empty = refl
