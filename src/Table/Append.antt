-- ===== src/Table/Append.antt =====
-- A new entry at the end of its chain.
use name_file_system_docs.Base.{◌≡◌, refl, ap, ◌∙◌, none, some, List, [], ◌∷◌, ◌++◌, arith}
use name_file_system_docs.Base.Tests.{if◌then◌else◌, ==_iff}
use name_file_system_docs.Base.Lists.{All}
use name_file_system_docs.Base.Strings.{same}
use name_file_system_docs.Table.Chain.{Keyed, Buckets, find, lookup, append_to}
use name_file_system_docs.Table.Laws.{Distinct}
use name_file_system_docs.Table.Valid.{IsTable, write-IsTable}

module _ {E K : Type 0} (keyed : Keyed E K) where
  open keyed use {key, matches, matches_iff, bucket_of}

  find-append :
      (k : K) (c : List E) (e : E)
      → find keyed (key e) c ≡ none
      → find keyed k (c ++ (e ∷ [])) ≡ (if matches (key e) k then some e else find keyed k c)
  unfolding find
  find-append k [] e absent = ground arith
  find-append k (x ∷ c) e absent = ground (
    arith,
    find-append k c e,
    matches_iff (key e) k,
    matches_iff (key x) k,
    matches_iff (key x) (key e),
  )

  append-Distinct :
      (c : List E) (e : E)
      → Distinct keyed c
      → find keyed (key e) c ≡ none
      → Distinct keyed (c ++ (e ∷ []))
  unfolding find
  append-Distinct [] e d absent = (refl, tt)
  append-Distinct (x ∷ c) e d absent = (
    find-append (key x) c e (ground (arith, absent))
        ∙ ground (arith, d.0, absent, matches_iff (key e) (key x), matches_iff (key x) (key e)),
    append-Distinct c e d.1 (ground (arith, absent)),
  )

  append-All : (P : E → Type 0) (c : List E) (e : E) → All P c → P e → All P (c ++ (e ∷ []))
  append-All P [] e a p = (p, tt)
  append-All P (x ∷ c) e a p = (a.0, append-All P c e a.1 p)

  pub append_to-IsTable :
      (t : Buckets E) (k : K) (e : E)
      → IsTable keyed t
      → key e ≡ k
      → lookup keyed t k ≡ none
      → IsTable keyed (append_to keyed t k e)
  append_to-IsTable t k e v same absent =
      write-IsTable keyed t (bucket_of k) (t (bucket_of k) ++ (e ∷ [])) v
        (append-Distinct (t (bucket_of k)) e (v (bucket_of k)).0 (rw same absent))
        (append-All (λ x. bucket_of (key x) ≡ bucket_of k) (t (bucket_of k)) e (v (bucket_of k)).1
          (ap bucket_of same))

  pub lookup-append_to :
      (t : Buckets E) (k j : K) (e : E)
      → key e ≡ k
      → lookup keyed t k ≡ none
      → lookup keyed (append_to keyed t k e) j ≡ (if matches k j then some e else lookup keyed t j)
  lookup-append_to t k j e same absent = ground (
    arith,
    matches_iff k j,
    matches_iff (key e) j,
    ==_iff (bucket_of k) (bucket_of j),
    find-append j (t (bucket_of k)) e,
  )
