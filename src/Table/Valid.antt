-- ===== src/Table/Valid.antt =====
-- The invariant of a whole table, kept by the three writes, and what each write does to a lookup.
use name_file_system_docs.Base.{ℕ, ◌≡◌, ap, subst, inl, inr, none, some, List, [], ◌∷◌, arith}
use name_file_system_docs.Base.Tests.{◌==◌, if◌then◌else◌, ==_iff, Bool-cases}
use name_file_system_docs.Base.Lists.{All}
use name_file_system_docs.Base.Strings.{same}
use mathlib.Core.Option
use name_file_system_docs.Table.Chain.{
  Keyed, Buckets, find, modify, unlink, lookup, write, prepend, update, delete,
}
use name_file_system_docs.Table.Laws.{
  Distinct, key-find, find-modify, find-unlink, modify-Distinct, unlink-Distinct, modify-All,
  unlink-All,
}

module _ {E K : Type 0} (keyed : Keyed E K) where
  open keyed use {key, matches, matches_iff, bucket_of}

  -- Every entry stands in the chain of its key, and no chain holds a key twice.
  abbrev pub IsTable : Buckets E → Type 0
  IsTable t = (i : ℕ) → Distinct keyed (t i) × All (λ e. bucket_of (key e) ≡ i) (t i)

  pub empty-IsTable : IsTable (λ _. [])
  empty-IsTable i = (tt, tt)

  pub write-IsTable :
      (t : Buckets E) (i : ℕ) (c : List E)
      → IsTable t
      → Distinct keyed c
      → All (λ e. bucket_of (key e) ≡ i) c
      → IsTable (write t i c)
  write-IsTable t i c v d p j = elim (Bool-cases (i == j)) [
    | inl here ↦
        let at : i ≡ j = (==_iff i j).0 here in
        rw here (d, subst (λ (n : ℕ). All (λ e. bucket_of (key e) ≡ n) c) at p)
    | inr away ↦ rw away (v j)
  ]

  pub prepend-IsTable :
      (t : Buckets E) (k : K) (e : E)
      → IsTable t
      → key e ≡ k
      → lookup keyed t k ≡ none
      → IsTable (prepend keyed t k e)
  prepend-IsTable t k e v same absent =
      write-IsTable t (bucket_of k) (e ∷ t (bucket_of k)) v (rw same absent, (v (bucket_of k)).0)
        (ap bucket_of same, (v (bucket_of k)).1)

  pub update-IsTable :
      (t : Buckets E) (k : K) (f : E → E)
      → ((e : E) → key (f e) ≡ key e)
      → IsTable t
      → IsTable (update keyed t k f)
  update-IsTable t k f kept v =
      write-IsTable t (bucket_of k) (modify keyed k f (t (bucket_of k))) v
        (modify-Distinct keyed k f (t (bucket_of k)) kept (v (bucket_of k)).0)
        (modify-All keyed (λ e. bucket_of (key e) ≡ bucket_of k) k f (t (bucket_of k))
          (λ e p. rw (kept e) p) (v (bucket_of k)).1)

  pub delete-IsTable : (t : Buckets E) (k : K) → IsTable t → IsTable (delete keyed t k)
  delete-IsTable t k v =
      write-IsTable t (bucket_of k) (unlink keyed k (t (bucket_of k))) v
        (unlink-Distinct keyed k (t (bucket_of k)) (v (bucket_of k)).0)
        (unlink-All keyed (λ e. bucket_of (key e) ≡ bucket_of k) k (t (bucket_of k))
          (v (bucket_of k)).1)

  pub lookup-prepend :
      (t : Buckets E) (k j : K) (e : E)
      → key e ≡ k
      → lookup keyed (prepend keyed t k e) j ≡ (if matches k j then some e else lookup keyed t j)
  unfolding find
  lookup-prepend t k j e same =
      ground (arith, matches_iff k j, matches_iff (key e) j, ==_iff (bucket_of k) (bucket_of j))

  pub lookup-update :
      (t : Buckets E) (k j : K) (f : E → E)
      → ((e : E) → key (f e) ≡ key e)
      → lookup keyed (update keyed t k f) j
        ≡ (if matches k j then Option.map f (lookup keyed t k) else lookup keyed t j)
  lookup-update t k j f kept = ground (
    arith,
    matches_iff k j,
    ==_iff (bucket_of k) (bucket_of j),
    find-modify keyed k j f (t (bucket_of k)) kept,
  )

  pub lookup-delete :
      (t : Buckets E) (k j : K)
      → IsTable t
      → lookup keyed (delete keyed t k) j ≡ (if matches k j then none else lookup keyed t j)
  lookup-delete t k j v = ground (
    arith,
    matches_iff k j,
    ==_iff (bucket_of k) (bucket_of j),
    find-unlink keyed k j (t (bucket_of k)) (v (bucket_of k)).0,
  )

  pub key-lookup : (t : Buckets E) (k : K) (e : E) → lookup keyed t k ≡ some e → key e ≡ k
  key-lookup t k e h = key-find keyed k (t (bucket_of k)) e h
