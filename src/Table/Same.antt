-- ===== src/Table/Same.antt =====
-- A write that puts back what it found leaves the table as it was.
use name_file_system_docs.Base.{◌≡◌, refl, ap, ◌∙◌, fun_ext, inl, inr, some, List, [], ◌∷◌, arith}
use name_file_system_docs.Base.Tests.{◌==◌, ==_iff, Bool-cases}
use name_file_system_docs.Table.Chain.{Keyed, Buckets, find, modify, lookup, update}

module _ {E K : Type 0} (keyed : Keyed E K) where
  open keyed use {key, matches, bucket_of}

  modify_same :
      (k : K) (h : E → E) (c : List E) (e : E)
      → find keyed k c ≡ some e
      → h e ≡ e
      → modify keyed k h c ≡ c
  unfolding find modify
  modify_same k h [] e there kept = refl
  modify_same k h (x ∷ c) e there kept = elim (Bool-cases (matches (key x) k)) [
    | inl hit ↦ let here : x ≡ e = ground arith in rw (hit, here, kept)
    | inr miss ↦ rw (miss, modify_same k h c e (ground arith) kept)
  ]

  pub update_same :
      (t : Buckets E) (k : K) (h : E → E) (e : E)
      → lookup keyed t k ≡ some e
      → h e ≡ e
      → update keyed t k h ≡ t
  update_same t k h e there kept = fun_ext (λ j. elim (Bool-cases (bucket_of k == j)) [
    | inl q ↦
        let i : bucket_of k ≡ j = (==_iff (bucket_of k) j).0 q in
        rw q (modify_same k h (t (bucket_of k)) e there kept ∙ ap t i)
    | inr n ↦ rw n
  ])
