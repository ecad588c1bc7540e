-- ===== src/Registry/Placement.antt =====
-- `find_available_ss` of nameserver.c: the round-robin choice of a server for a new file.
use name_file_system_docs.Base.{
  ℕ, zero, suc, ◌+◌, ◌-◌, ◌%◌, ◌<◌, ◌≡◌, sym, ap, ◌∙◌, inl, inr, true, false, none, some, List, [],
  ◌∷◌, arith,
}
use name_file_system_docs.Base.Tests.{leb, ◌==◌, Bool-cases, Option-cases}
use name_file_system_docs.Base.Lists.{length}
use native.Mathlib.Nat.{add-mod_right, mod-eq_of_lt, mod-lt}
use name_file_system_docs.Registry.Routing.{
  StorageServer, Routes, is_alive, first_alive, find_available_ss,
}

is_alive-lt :
    (servers : List StorageServer) (i : ℕ) → is_alive servers i ≡ true → i < length servers
unfolding is_alive
is_alive-lt [] i h = absurd (ground arith)
is_alive-lt (s ∷ ss) zero h = omega arith
is_alive-lt (s ∷ ss) (suc i) h = omega (arith, is_alive-lt ss i h)

-- The servers on the `d` places from `start` on are down.
abbrev pub AllDown : List StorageServer → ℕ → ℕ → Type 0
AllDown servers start zero = Unit
AllDown servers start (suc d) =
    (is_alive servers (start % length servers) ≡ false) × AllDown servers (start + 1) d

first_alive-some :
    (servers : List StorageServer) (start left i : ℕ)
    → first_alive servers start left ≡ some i
    → (d : ℕ) × (d < left)
      × (i ≡ (start + d) % length servers)
      × (is_alive servers i ≡ true)
      × AllDown servers start d
unfolding first_alive
first_alive-some servers start zero i h = absurd (ground arith)
first_alive-some servers start (suc left) i h =
    elim (Bool-cases (is_alive servers (start % length servers))) [
      | inl alive ↦
          let here : start % length servers ≡ i = ground arith in
          (
            0,
            omega arith,
            sym here ∙ ap (λ (k : ℕ). k % length servers) (omega arith),
            ap (is_alive servers) (sym here) ∙ alive,
            tt,
          )
      | inr down ↦
          let (d, lt, at, alive, before) =
            first_alive-some servers (start + 1) left i (rw down at h) in
          (
            suc d,
            omega arith,
            at ∙ ap (λ (k : ℕ). k % length servers) (omega arith),
            alive,
            (down, before),
          )
    ]

first_alive-none :
    (servers : List StorageServer) (start left k : ℕ)
    → first_alive servers start left ≡ none
    → k < left
    → is_alive servers ((start + k) % length servers) ≡ false
unfolding first_alive
first_alive-none servers start zero k h lt = absurd (omega arith)
first_alive-none servers start (suc left) zero h lt =
    let e : start + 0 ≡ start = omega arith in rw e (ground arith)
first_alive-none servers start (suc left) (suc k) h lt =
    let e : start + suc k ≡ start + 1 + k = omega arith in
    rw e (first_alive-none servers (start + 1) left k (ground arith) (omega arith))

-- Every place is met within one round.
place : (start i n : ℕ) → start < n → i < n → (k : ℕ) × (k < n) × ((start + k) % n ≡ i)
place start i n h g = elim (Bool-cases (leb start i)) [
  | inl before ↦
      let e : start + (i - start) ≡ i = ground arith in
      (i - start, omega arith, rw e (mod-eq_of_lt g))
  | inr after ↦
      let e : start + (i + n - start) ≡ i + n = ground arith in
      (i + n - start, ground arith, rw e (add-mod_right i n ∙ mod-eq_of_lt g))
]

-- The choice is sound and fair. A server that `find_available_ss` names exists and is alive; the
-- servers between the one after the last choice and this one, going round, are all down; and the
-- next search starts behind it.
pub find_available_fair :
    (r : Routes) (i : ℕ)
    → (find_available_ss r).0 ≡ some i
    → (is_alive r.servers i ≡ true)
      × (i < length r.servers)
      × ((find_available_ss r).1 ≡ record r { next_start = i + 1 })
      × ((d : ℕ) × (d < length r.servers)
          × (i ≡ (r.next_start % length r.servers + d) % length r.servers)
          × AllDown r.servers (r.next_start % length r.servers) d)
unfolding find_available_ss
find_available_fair r i h = elim (Bool-cases (length r.servers == 0)) [
  | inl empty ↦ absurd (ground arith)
  | inr some_server ↦
      let n = length r.servers in
      let found : first_alive r.servers (r.next_start % n) n ≡ some i = ground arith in
      let (d, lt, at, alive, before) = first_alive-some r.servers (r.next_start % n) n i found in
      (
        alive,
        is_alive-lt r.servers i alive,
        rw (some_server, found, find_available_ss),
        (d, lt, at, before),
      )
]

-- The choice is complete: while any server is alive, `find_available_ss` names one.
pub find_available_total :
    (r : Routes) (i : ℕ)
    → is_alive r.servers i ≡ true
    → (j : ℕ) × ((find_available_ss r).0 ≡ some j)
unfolding find_available_ss
find_available_total r i alive =
    let n = length r.servers in
    let inside = is_alive-lt r.servers i alive in
    let some_server : (length r.servers == 0) ≡ false = ground arith in
    elim (Option-cases (first_alive r.servers (r.next_start % n) n)) [
      | inr (j, found) ↦ (j, rw (some_server, found, find_available_ss))
      | inl none_found ↦
          let start : r.next_start % n < n = mod-lt r.next_start (ground arith) in
          let (k, lt, at) = place (r.next_start % n) i n start inside in
          absurd (
            ground (
              arith,
              at,
              ap (is_alive r.servers) at,
              first_alive-none r.servers (r.next_start % n) n k none_found lt,
            ))
    ]
