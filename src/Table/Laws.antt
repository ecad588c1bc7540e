-- ===== src/Table/Laws.antt =====
-- What the walks of Table/Chain.antt do to a lookup, and the two invariants of a table: no chain
-- holds a key twice, and an entry stands in the chain of its key's hash.
use name_file_system_docs.Base.{◌≡◌, refl, subst, inl, inr, true, none, some, List, [], ◌∷◌, arith}
use name_file_system_docs.Base.Tests.{if◌then◌else◌, Bool-cases}
use name_file_system_docs.Base.Lists.{All}
use mathlib.Core.Option
use name_file_system_docs.Table.Chain.{Keyed, find, modify, unlink}

module _ {E K : Type 0} (keyed : Keyed E K) where
  open keyed use {key, matches, matches_iff, bucket_of}

  -- A later entry of the chain has no key that an earlier one has.
  abbrev pub Distinct : List E → Type 0
  Distinct [] = Unit
  Distinct (e ∷ c) = (find keyed (key e) c ≡ none) × Distinct c

  matches_refl : (k : K) → matches k k ≡ true
  matches_refl k = (matches_iff k k).1 refl

  pub key-find : (k : K) (c : List E) (e : E) → find keyed k c ≡ some e → key e ≡ k
  unfolding find
  key-find k [] e h = ground arith
  key-find k (x ∷ c) e h = ground (arith, matches_iff (key x) k, key-find k c e)

  pub find-modify :
      (k j : K) (f : E → E) (c : List E)
      → ((e : E) → key (f e) ≡ key e)
      → find keyed j (modify keyed k f c)
        ≡ (if matches k j then Option.map f (find keyed k c) else find keyed j c)
  unfolding find modify
  find-modify k j f [] kept = ground arith
  find-modify k j f (x ∷ c) kept = ground (
    arith,
    kept x,
    matches_iff (key x) k,
    matches_iff (key x) j,
    matches_iff k j,
    find-modify k j f c kept,
  )

  pub find-unlink :
      (k j : K) (c : List E)
      → Distinct c
      → find keyed j (unlink keyed k c) ≡ (if matches k j then none else find keyed j c)
  unfolding find unlink
  find-unlink k j [] d = ground arith
  find-unlink k j (x ∷ c) d =
      ground (
        arith,
        matches_iff (key x) k,
        matches_iff (key x) j,
        matches_iff k j,
        find-unlink k j c d.1,
      )

  pub modify-Distinct :
      (k : K) (f : E → E) (c : List E)
      → ((e : E) → key (f e) ≡ key e)
      → Distinct c
      → Distinct (modify keyed k f c)
  unfolding modify
  modify-Distinct k f [] kept d = tt
  modify-Distinct k f (x ∷ c) kept d = elim (Bool-cases (matches (key x) k)) [
    | inl hit ↦ rw (hit, kept x) d
    | inr miss ↦ rw miss (
      ground (
        arith,
        d.0,
        find-modify k (key x) f c kept,
        matches_iff k (key x),
        matches_iff (key x) k,
      ),
      modify-Distinct k f c kept d.1,
    )
  ]

  pub unlink-Distinct : (k : K) (c : List E) → Distinct c → Distinct (unlink keyed k c)
  unfolding unlink
  unlink-Distinct k [] d = tt
  unlink-Distinct k (x ∷ c) d = elim (Bool-cases (matches (key x) k)) [
    | inl hit ↦ rw hit d.1
    | inr miss ↦ rw miss (
      ground
          (arith, d.0, find-unlink k (key x) c d.1, matches_iff k (key x), matches_iff (key x) k),
      unlink-Distinct k c d.1,
    )
  ]

  -- What no walk changes: a property of the entries.
  module _ (P : E → Type 0) where
    pub find-All : (k : K) (c : List E) (e : E) → All P c → find keyed k c ≡ some e → P e
    unfolding find
    find-All k [] e a h = ground arith
    find-All k (x ∷ c) e a h = elim (Bool-cases (matches (key x) k)) [
      | inl hit ↦ subst P (ground arith) a.0
      | inr miss ↦ find-All k c e a.1 (ground arith)
    ]

    pub modify-All :
        (k : K) (f : E → E) (c : List E)
        → ((e : E) → P e → P (f e))
        → All P c
        → All P (modify keyed k f c)
    unfolding modify
    modify-All k f [] kept a = tt
    modify-All k f (x ∷ c) kept a = elim (Bool-cases (matches (key x) k)) [
      | inl hit ↦ rw hit (kept x a.0, a.1)
      | inr miss ↦ rw miss (a.0, modify-All k f c kept a.1)
    ]

    pub unlink-All : (k : K) (c : List E) → All P c → All P (unlink keyed k c)
    unfolding unlink
    unlink-All k [] a = tt
    unlink-All k (x ∷ c) a = elim (Bool-cases (matches (key x) k)) [
      | inl hit ↦ rw hit a.1
      | inr miss ↦ rw miss (a.0, unlink-All k c a.1)
    ]
