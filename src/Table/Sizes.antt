-- ===== src/Table/Sizes.antt =====
-- The number of entries in the chains, which the tables' counters follow.
use name_file_system_docs.Base.{ℕ, zero, suc, ◌+◌, ◌<◌, ◌≡◌, refl, ap, some, List, [], ◌∷◌, arith}
use name_file_system_docs.Base.Tests.{ltb, if◌then◌else◌}
use name_file_system_docs.Base.Lists.{length}
use name_file_system_docs.Table.Chain.{
  Keyed, Buckets, find, modify, unlink, lookup, write, prepend, update, delete,
}

-- The number of entries in the first `n` chains.
pub total : {E : Type 0} → Buckets E → ℕ → ℕ
total t zero = 0
total t (suc n) = total t n + length (t n)

pub total-zero : {E : Type 0} (t : Buckets E) → total t 0 ≡ 0
unfolding total
total-zero t = refl

pub total-add_one :
    {E : Type 0} (t : Buckets E) (n : ℕ) → total t (n + 1) ≡ total t n + length (t n)
unfolding total
total-add_one t n = let e : n + 1 ≡ suc n = omega arith in ap (total t) e

pub total-empty : (E : Type 0) (n : ℕ) → total {E = E} (λ _. []) n ≡ 0
unfolding total
total-empty E zero = refl
total-empty E (suc n) = omega (arith, total-empty E n)

-- A write changes the total by the change of that chain.
pub total-write :
    {E : Type 0} (t : Buckets E) (i : ℕ) (c : List E) (n : ℕ)
    → total (write t i c) n + (if ltb i n then length (t i) else 0)
      ≡ total t n + (if ltb i n then length c else 0)
unfolding total
total-write t i c zero = ground arith
total-write t i c (suc n) = ground (arith, total-write t i c n)

module _ {E K : Type 0} (keyed : Keyed E K) where
  open keyed use {bucket_of}

  length-modify : (k : K) (f : E → E) (c : List E) → length (modify keyed k f c) ≡ length c
  unfolding modify
  length-modify k f [] = refl
  length-modify k f (e ∷ c) = ground (arith, length-modify k f c)

  pub length-unlink :
      (k : K) (c : List E) (e : E)
      → find keyed k c ≡ some e
      → length (unlink keyed k c) + 1 ≡ length c
  unfolding find unlink
  length-unlink k [] e h = ground arith
  length-unlink k (x ∷ c) e h = ground (arith, length-unlink k c e)

  module _ (t : Buckets E) (n : ℕ) (k : K) (fits : bucket_of k < n) where
    pub total-prepend : (e : E) → total (prepend keyed t k e) n ≡ total t n + 1
    total-prepend e = ground (arith, total-write t (bucket_of k) (e ∷ t (bucket_of k)) n)

    pub total-update : (f : E → E) → total (update keyed t k f) n ≡ total t n
    total-update f = ground (
      arith,
      total-write t (bucket_of k) (modify keyed k f (t (bucket_of k))) n,
      length-modify k f (t (bucket_of k)),
    )

    pub total-delete :
        (e : E) → lookup keyed t k ≡ some e → total (delete keyed t k) n + 1 ≡ total t n
    total-delete e h = ground (
      arith,
      total-write t (bucket_of k) (unlink keyed k (t (bucket_of k))) n,
      length-unlink k (t (bucket_of k)) e h,
    )
