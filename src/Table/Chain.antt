-- ===== src/Table/Chain.antt =====
-- One chain and the array of chains: the walks that the C functions of every hash table share.
use name_file_system_docs.Base.{
  ℕ, zero, suc, ◌+◌, ◌≡◌, ◌↔◌, Bool, true, Option, none, some, List, [], ◌∷◌, ◌++◌,
}
use name_file_system_docs.Base.Tests.{◌==◌, if◌then◌else◌}

-- What a table needs of its entries: the compared key, the comparison, the hash.
pub record Keyed (E K : Type 0) : Type 0 where
  pub key : E → K
  pub matches : K → K → Bool
  pub matches_iff : (a b : K) → (matches a b ≡ true) ↔ (a ≡ b)
  pub bucket_of : K → ℕ

abbrev pub Buckets : Type 0 → Type 0
Buckets E = ℕ → List E

-- `buckets[i] = c`
abbrev pub write : {E : Type 0} → Buckets E → ℕ → List E → Buckets E
write t i c j = if i == j then c else t j

-- The entries of the chains `i`, `i + 1`, …, `i + n - 1`, in the order of the loops
-- `for (i = 0; i < SIZE; i++) { e = buckets[i]; while (e) { …; e = e->next; } }`.
unfoldable pub entries_from : {E : Type 0} → Buckets E → ℕ → ℕ → List E
entries_from t i zero = []
entries_from t i (suc n) = t i ++ entries_from t (i + 1) n

module _ {E K : Type 0} (keyed : Keyed E K) where
  open keyed use {key, matches, bucket_of}

  -- `while (e) { if (match) return e; e = e->next; }`
  unfoldable pub find : K → List E → Option E
  find k [] = none
  find k (e ∷ c) = if matches (key e) k then some e else find k c

  -- The same walk, that changes the entry in place.
  unfoldable pub modify : K → (E → E) → List E → List E
  modify k f [] = []
  modify k f (e ∷ c) = if matches (key e) k then f e ∷ c else e ∷ modify k f c

  -- The same walk, that unlinks the entry (`prev->next = e->next`, or the head).
  unfoldable pub unlink : K → List E → List E
  unlink k [] = []
  unlink k (e ∷ c) = if matches (key e) k then c else e ∷ unlink k c

  abbrev pub lookup : Buckets E → K → Option E
  lookup t k = find k (t (bucket_of k))

  -- `new->next = buckets[h]; buckets[h] = new`
  abbrev pub prepend : Buckets E → K → E → Buckets E
  prepend t k e = write t (bucket_of k) (e ∷ t (bucket_of k))

  abbrev pub update : Buckets E → K → (E → E) → Buckets E
  update t k f = write t (bucket_of k) (modify k f (t (bucket_of k)))

  abbrev pub delete : Buckets E → K → Buckets E
  delete t k = write t (bucket_of k) (unlink k (t (bucket_of k)))

  -- `prev->next = new` at the end of the walk, or the head of an empty chain.
  abbrev pub append_to : Buckets E → K → E → Buckets E
  append_to t k e = write t (bucket_of k) (t (bucket_of k) ++ (e ∷ []))
