-- ===== src/Table/Found.antt =====
-- The entries of all chains in their order: the first with a given key is the one a lookup finds.
use name_file_system_docs.Base.{
  ℕ, zero, suc, ◌+◌, ◌≤◌, ◌<◌, ◌≡◌, refl, sym, ap, ◌∙◌, subst, ◌≢◌, inl, inr, Option, none, some,
  List, [], ◌∷◌, ◌++◌, arith,
}
use name_file_system_docs.Base.Tests.{◌==◌, ==_iff, Bool-cases}
use name_file_system_docs.Base.Lists.{All}
use name_file_system_docs.Table.Chain.{Keyed, Buckets, find, lookup, entries_from}
use name_file_system_docs.Table.Valid.{IsTable}

abbrev pub first_of : {A : Type 0} → Option A → Option A → Option A
first_of none b = b
first_of (some a) b = some a

pub or_none : {A : Type 0} (o : Option A) → first_of o none ≡ o
or_none none = refl
or_none (some e) = refl

module _ {E K : Type 0} (keyed : Keyed E K) (k : K) where
  open keyed use {key, matches, matches_iff, bucket_of}

  find-append : (c d : List E) → find keyed k (c ++ d) ≡ first_of (find keyed k c) (find keyed k d)
  unfolding find
  find-append [] d = refl
  find-append (e ∷ c) d = elim (Bool-cases (matches (key e) k)) [
    | inl hit ↦ rw hit refl
    | inr miss ↦ rw miss (find-append c d)
  ]

  find-elsewhere :
      (i : ℕ) (c : List E)
      → All (λ e. bucket_of (key e) ≡ i) c
      → i ≢ bucket_of k
      → find keyed k c ≡ none
  unfolding find
  find-elsewhere i [] a away = refl
  find-elsewhere i (e ∷ c) a away = elim (Bool-cases (matches (key e) k)) [
    | inl hit ↦ absurd (away (sym a.0 ∙ ap bucket_of ((matches_iff (key e) k).0 hit)))
    | inr miss ↦ rw miss (find-elsewhere i c a.1 away)
  ]

  -- Behind the chain of the key nothing is found.
  find-behind :
      (t : Buckets E) (i n : ℕ)
      → IsTable keyed t
      → bucket_of k < i
      → find keyed k (entries_from t i n) ≡ none
  unfolding entries_from
  find-behind t i zero v h = unfold find in refl
  find-behind t i (suc n) v h =
      find-append (t i) (entries_from t (i + 1) n)
      ∙ rw
          (
            find-elsewhere i (t i) (v i).1 (λ e. omega (arith, e)),
            find-behind t (i + 1) n v (omega arith),
          )
          refl

  find-entries_from :
      (t : Buckets E) (i n : ℕ)
      → IsTable keyed t
      → i ≤ bucket_of k
      → bucket_of k < i + n
      → find keyed k (entries_from t i n) ≡ lookup keyed t k
  unfolding entries_from
  find-entries_from t i zero v low high = absurd (omega arith)
  find-entries_from t i (suc n) v low high =
      find-append (t i) (entries_from t (i + 1) n) ∙ elim (Bool-cases (i == bucket_of k)) [
        | inl here ↦
            let at : i ≡ bucket_of k = (==_iff i (bucket_of k)).0 here in
            let past = find-behind t (i + 1) n v (omega (arith, at)) in
            rw past (
              subst (λ (j : ℕ). first_of (find keyed k (t j)) none ≡ lookup keyed t k) (sym at)
                (or_none (lookup keyed t k)))
        | inr away ↦
            let other : i ≢ bucket_of k = λ e. ground (arith, ==_iff i (bucket_of k)) in
            rw (find-elsewhere i (t i) (v i).1 other)
              (find-entries_from t (i + 1) n v (omega (arith, other)) (omega arith))
      ]

  pub find-entries :
      (t : Buckets E) (n : ℕ)
      → IsTable keyed t
      → bucket_of k < n
      → find keyed k (entries_from t 0 n) ≡ lookup keyed t k
  find-entries t n v fits = find-entries_from t 0 n v (omega arith) (omega (arith, fits))
