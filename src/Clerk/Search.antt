-- ===== src/Clerk/Search.antt =====
-- The loops of src/client/clerk.cpp find the one server that answers, wherever the hint points.
use native.Mathlib.Nat.{add-mod_left, mod-eq_of_lt}
use raft_kv_raft_leveldb.Types.{PeerInfo}
use raft_kv_raft_leveldb.Clerk.{
  Clerk, after_loop, ask, ask_servers, command, reload_servers_from_config,
}
use raft_kv_raft_leveldb.Clerk.Hint.{IsHint, reload_servers_from_config-IsHint}
use raft_kv_raft_leveldb.Common.{
  Bool-cases, List, Option, Text, ap, arith, false, inl, inr, length, none, leb, refl, some, sym,
  suc, zero, ℕ, ◌%◌, ◌+◌, ◌-◌, ◌<◌, ◌==◌, ◌∙◌, ◌≡◌, ◌≤◌,
}

-- The round that reaches a position.
offset :
    (start j count : ℕ)
    → start < count
    → j < count
    → (t : ℕ) × (t < count) × ((start + t) % count ≡ j)
offset start j count lo hi = elim (Bool-cases (leb start j)) [
  | inl above ↦
      let fits : start ≤ j = ground (arith, above) in
      let sum : start + (j - start) ≡ j = omega (arith, fits) in
      (j - start, omega (arith, hi), ap (λ k. k % count) sum ∙ mod-eq_of_lt hi)
  | inr below ↦
      let small : j < start = ground (arith, below) in
      let sum : start + (count - start + j) ≡ count + j = omega (arith, lo) in
      (
        count - start + j,
        omega (arith, lo, small),
        ap (λ k. k % count) sum ∙ add-mod_left count j ∙ mod-eq_of_lt hi,
      )
]

module _ (send : ℕ → PeerInfo → Text → Option Text) (accept : Text → Option (Option Text))
    (req : Text) (servers : List PeerInfo) (j : ℕ) (result : Option Text)
    (answers : (attempt : ℕ) → ask send accept req servers attempt j ≡ some result)
    (silent : (attempt i : ℕ)
      → (i == j) ≡ false
      → ask send accept req servers attempt i ≡ none) where
  -- A round that asks another server stands before the one that reaches `j`.
  not_yet :
      (start t i idx : ℕ)
      → (start + t) % length servers ≡ j
      → (start + i) % length servers ≡ idx
      → (idx == j) ≡ false
      → i ≤ t
      → i + 1 ≤ t
  not_yet start t i idx reach at there lo = elim (Bool-cases (i == t)) [
    | inr earlier ↦ ground (arith, earlier, lo)
    | inl now ↦
        let same : i ≡ t = ground (arith, now) in
        let meets : idx ≡ j = sym at ∙ ap (λ k. (start + k) % length servers) same ∙ reach in
        absurd (ground (arith, meets, there))
  ]

  ask_servers_found :
      (start t rounds i : ℕ)
      → (start + t) % length servers ≡ j
      → i ≤ t
      → t < i + rounds
      → ask_servers send accept req servers start rounds i ≡ some (j, result)
  unfolding ask_servers
  ask_servers_found start t zero i reach lo hi = absurd (omega (arith, lo, hi))
  ask_servers_found start t (suc rounds) i reach lo hi =
      let idx = (start + i) % length servers in
      elim (Bool-cases (idx == j)) [
        | inl here ↦ let same : idx ≡ j = ground (arith, here) in rw (same, answers i) refl
        | inr there ↦
            let past = not_yet start t i idx reach refl there lo in
            rw (silent i idx there)
              (ask_servers_found start t rounds (i + 1) reach past (omega (arith, hi)))
      ]

  command_found_from :
      (hint : ℕ)
      → hint < length servers
      → j < length servers
      → command send accept req (record { servers = servers; leader_hint = hint })
        ≡ (record { servers = servers; leader_hint = j }, some result)
  unfolding command
  command_found_from hint h inside =
      let (t, small, reach) = offset hint j (length servers) h inside in
      ap (after_loop (record { servers = servers; leader_hint = hint }))
        (ask_servers_found hint t (length servers) 0 reach (omega arith) (omega (arith, small)))

-- If one server takes a command at every attempt and no other does, then a command on a Clerk whose
-- servers were just read gives the answer of that server, and the leader hint is its position.
pub command_found :
    (send : ℕ → PeerInfo → Text → Option Text) (accept : Text → Option (Option Text)) (req : Text)
    (file : Option Text) (c d : Clerk) (j : ℕ) (result : Option Text)
    → IsHint c
    → reload_servers_from_config file c ≡ some d
    → j < length d.servers
    → ((attempt : ℕ) → ask send accept req d.servers attempt j ≡ some result)
    → ((attempt i : ℕ) → (i == j) ≡ false → ask send accept req d.servers attempt i ≡ none)
    → command send accept req d ≡ (record d { leader_hint = j }, some result)
command_found send accept req file c d j result h e inside answers silent =
    let hint = (reload_servers_from_config-IsHint file c d h e).hint in
    command_found_from send accept req d.servers j result answers silent d.leader_hint
      (omega (arith, hint, inside)) inside
