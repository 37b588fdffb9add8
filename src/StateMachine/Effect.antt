-- ===== src/StateMachine/Effect.antt =====
-- The abstract key-value map behind src/stateMachine/kv_store.cpp: what an entry does to the value of
-- a key, and that entries may be applied again.
use raft_kv_raft_leveldb.Common.{
  Bool-cases, List, Option, Text, [], ap, arith, if◌then◌else◌, inl, inr, none, refl, some, text_eq,
  ◌++◌, ◌∙◌, ◌∷◌, ◌≡◌, ◌⊎◌,
}
use raft_kv_raft_leveldb.Types.{
  CommandType, LogEntry, config_joint, config_new, del, get, noop, put,
}
use raft_kv_raft_leveldb.Platform.{DbLaws, NeverFails, Platform}
use raft_kv_raft_leveldb.StateMachine.{KvStore, apply, get_value}

-- The value of key `k` after an entry, by the value before it.
unfoldable pub effect : LogEntry → Text → Option Text → Option Text
effect e k old = elim e.op [
  | put ↦ if text_eq e.key k then some e.value else old
  | del ↦ if text_eq e.key k then none else old
  | _ ↦ old
]

unfoldable pub effects : List LogEntry → Text → Option Text → Option Text
effects [] k old = old
effects (e ∷ es) k old = effects es k (effect e k old)

-- A map from values to values that forgets its argument, or returns it.
abbrev IsSteady : (Option Text → Option Text) → Type 0
IsSteady f = ((a b : Option Text) → f a ≡ f b) ⊎ ((a : Option Text) → f a ≡ a)

IsSteady-idem : (f : Option Text → Option Text) → IsSteady f → (a : Option Text) → f (f a) ≡ f a
IsSteady-idem f (inl c) a = c (f a) a
IsSteady-idem f (inr i) a = i (f a)

IsSteady-comp :
    (f g : Option Text → Option Text) → IsSteady f → IsSteady g → IsSteady (λ a. f (g a))
IsSteady-comp f g (inl c) s = inl (λ a b. c (g a) (g b))
IsSteady-comp f g (inr i) (inl c) = inl (λ a b. ap f (c a b))
IsSteady-comp f g (inr i) (inr j) = inr (λ a. i (g a) ∙ j a)

effect-IsSteady : (e : LogEntry) (k : Text) → IsSteady (effect e k)
unfolding effect
effect-IsSteady e k = by_op e.op
  where
    by_op :
        (op : CommandType)
        → IsSteady (λ old. elim op [
          | put ↦ if text_eq e.key k then some e.value else old
          | del ↦ if text_eq e.key k then none else old
          | _ ↦ old
        ])
    by_op put = elim (Bool-cases (text_eq e.key k)) [
      | inl hit ↦ inl (λ a b. rw hit)
      | inr miss ↦ inr (λ a. rw miss)
    ]
    by_op del = elim (Bool-cases (text_eq e.key k)) [
      | inl hit ↦ inl (λ a b. rw hit)
      | inr miss ↦ inr (λ a. rw miss)
    ]
    by_op get = inr (λ a. refl)
    by_op noop = inr (λ a. refl)
    by_op config_joint = inr (λ a. refl)
    by_op config_new = inr (λ a. refl)

effects-IsSteady : (es : List LogEntry) (k : Text) → IsSteady (effects es k)
unfolding effects
effects-IsSteady [] k = inr (λ a. refl)
effects-IsSteady (e ∷ es) k =
    IsSteady-comp (effects es k) (effect e k) (effects-IsSteady es k) (effect-IsSteady e k)

effects-append :
    (xs ys : List LogEntry) (k : Text) (a : Option Text)
    → effects (xs ++ ys) k a ≡ effects ys k (effects xs k a)
unfolding effects
effects-append [] ys k a = refl
effects-append (x ∷ xs) ys k a = effects-append xs ys k (effect x k a)

-- Applying the last entries once more changes no key.
pub effects_again :
    (xs ys : List LogEntry) (k : Text) (a : Option Text)
    → effects ys k (effects (xs ++ ys) k a) ≡ effects (xs ++ ys) k a
effects_again xs ys k a =
    rw (effects-append xs ys k a)
      (IsSteady-idem (effects ys k) (effects-IsSteady ys k) (effects xs k a))

module _ (P : Platform) (laws : DbLaws P) (fine : NeverFails P) where
  -- With a database that obeys its documentation and never fails, applying an entry to an open
  -- store changes what every key reads to by the effect of the entry on that key.
  pub get_value-apply :
      (s : KvStore P) (d : P.Db) (e : LogEntry) (k : Text)
      → s.db ≡ some d
      → get_value P (apply P s e) k ≡ effect e k (get_value P s k)
  unfolding get_value apply effect
  get_value-apply s d e k opened = ground (
    arith,
    laws.get-put d e.key e.value k,
    laws.get-delete d e.key k,
    fine.put_ok d e.key e.value,
    fine.delete_ok d e.key,
  )
