-- ===== src/Table/Walk.antt =====
-- The loops over all chains: an entry that satisfies a test and has a given key is met exactly if
-- a lookup of that key finds one.
use name_file_system_docs.Base.{
  ℕ, zero, suc, ◌+◌, ◌<◌, ◌≡◌, refl, sym, ap, ◌∙◌, ◌≢◌, inl, inr, Bool, false, ◌&&◌, ◌||◌, Option,
  none, some, List, [], ◌∷◌, ◌++◌, arith,
}
use name_file_system_docs.Base.Tests.{ltb, leb, ◌==◌, ==_iff, Bool-cases}
use name_file_system_docs.Base.Lists.{length, All, length-append, All-append}
use name_file_system_docs.Table.Chain.{Keyed, Buckets, find, lookup, entries_from}
use name_file_system_docs.Table.Laws.{Distinct}
use name_file_system_docs.Table.Valid.{IsTable}
use name_file_system_docs.Table.Sizes.{total, total-zero, total-add_one}

abbrev pub any {ℓ} : {A : Type ℓ} → (A → Bool) → List A → Bool
any p [] = false
any p (x ∷ xs) = p x || any p xs

any-append :
    {A : Type 0} (p : A → Bool) (xs ys : List A) → any p (xs ++ ys) ≡ (any p xs || any p ys)
any-append p [] ys = refl
any-append p (x ∷ xs) ys = ground (arith, any-append p xs ys)

abbrev pub holds : {E : Type 0} → (E → Bool) → Option E → Bool
holds p none = false
holds p (some e) = p e

module _ {E K : Type 0} (keyed : Keyed E K) (k : K) (p : E → Bool) where
  open keyed use {key, matches, matches_iff, bucket_of}

  abbrev pub hits : E → Bool
  hits e = matches (key e) k && p e

  any-absent : (c : List E) → find keyed k c ≡ none → any hits c ≡ false
  unfolding find
  any-absent [] h = refl
  any-absent (e ∷ c) h = ground (arith, any-absent c)

  any-find : (c : List E) → Distinct keyed c → any hits c ≡ holds p (find keyed k c)
  unfolding find
  any-find [] d = refl
  any-find (e ∷ c) d = elim (Bool-cases (matches (key e) k)) [
    | inl hit ↦
        let gone : any hits c ≡ false = any-absent c (rw (← (matches_iff (key e) k).0 hit) d.0) in
        rw (hit, gone) (ground arith)
    | inr miss ↦ rw miss (any-find c d.1)
  ]

  any-elsewhere :
      (i : ℕ) (c : List E)
      → All (λ e. bucket_of (key e) ≡ i) c
      → i ≢ bucket_of k
      → any hits c ≡ false
  any-elsewhere i [] a away = refl
  any-elsewhere i (e ∷ c) a away = elim (Bool-cases (matches (key e) k)) [
    | inl hit ↦ absurd (away (sym a.0 ∙ ap bucket_of ((matches_iff (key e) k).0 hit)))
    | inr miss ↦ rw miss (any-elsewhere i c a.1 away)
  ]

  any-entries_from :
      (t : Buckets E) (i n : ℕ)
      → IsTable keyed t
      → any hits (entries_from t i n)
        ≡ (leb i (bucket_of k) && ltb (bucket_of k) (i + n) && holds p (lookup keyed t k))
  unfolding entries_from
  any-entries_from t i zero v = ground arith
  any-entries_from t i (suc n) v = rw any-append (elim (Bool-cases (i == bucket_of k)) [
    | inl here ↦ ground (
      arith,
      any-entries_from t (i + 1) n v,
      ==_iff i (bucket_of k),
      any-find (t (bucket_of k)) (v (bucket_of k)).0,
    )
    | inr away ↦ ground (
      arith,
      any-entries_from t (i + 1) n v,
      any-elsewhere i (t i) (v i).1 (λ e. ground (arith, ==_iff i (bucket_of k))),
    )
  ])

  -- The loop over all `n` chains meets a hit exactly if the lookup finds one.
  pub any-entries :
      (t : Buckets E) (n : ℕ)
      → IsTable keyed t
      → bucket_of k < n
      → any hits (entries_from t 0 n) ≡ holds p (lookup keyed t k)
  any-entries t n v fits = any-entries_from t 0 n v ∙ ground arith

All-entries_from :
    {E : Type 0} (P : E → Type 0) (t : Buckets E) (i n : ℕ)
    → ((i : ℕ) → All P (t i))
    → All P (entries_from t i n)
unfolding entries_from
All-entries_from P t i zero v = tt
All-entries_from P t i (suc n) v =
    All-append P (t i) (entries_from t (i + 1) n) (v i) (All-entries_from P t (i + 1) n v)

pub All-entries :
    {E : Type 0} (P : E → Type 0) (t : Buckets E) (n : ℕ)
    → ((i : ℕ) → All P (t i))
    → All P (entries_from t 0 n)
All-entries P t n v = All-entries_from P t 0 n v

regroup : (i n : ℕ) → i + 1 + n ≡ i + suc n
regroup i n = omega arith

zero_plus : (n : ℕ) → 0 + n ≡ n
zero_plus n = omega arith

total-step :
    {E : Type 0} (t : Buckets E) (i n : ℕ)
    → total t i + length (entries_from t i n) ≡ total t (i + n)
unfolding entries_from
total-step t i zero = ground arith
total-step t i (suc n) = omega (
  arith,
  length-append (t i) (entries_from t (i + 1) n),
  total-step t (i + 1) n,
  total-add_one t i,
  ap (total t) (regroup i n),
)

pub length-entries : {E : Type 0} (t : Buckets E) (n : ℕ) → length (entries_from t 0 n) ≡ total t n
length-entries t n = omega (arith, total-step t 0 n, total-zero t, ap (total t) (zero_plus n))
