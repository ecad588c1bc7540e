-- ===== src/Lock/Cleanup.antt =====
-- `lock_cleanup_expired` of sentence_lock.c: what the sweep keeps, and what it counts.
use name_file_system_docs.Base.{
  ℕ, zero, suc, ◌+◌, ◌≤◌, ◌<◌, ◌≡◌, refl, ◌∙◌, inl, inr, ◌&&◌, Option, none, some, List, [], ◌∷◌,
  arith,
}
use name_file_system_docs.Base.Tests.{ltb, leb, if◌then◌else◌, Bool-cases, Option-cases}
use name_file_system_docs.Base.Lists.{length, All}
use name_file_system_docs.Base.Strings.{CString}
use name_file_system_docs.Table.Chain.{find, lookup, write}
use name_file_system_docs.Table.Laws.{Distinct}
use name_file_system_docs.Table.Valid.{IsTable}
use name_file_system_docs.Table.Sizes.{total, total-write}
use name_file_system_docs.Lock.{
  LockEntry, LockTable, LockKey, lock_keys, lock_is_locked, hash_lock_key, lock_hash_size,
  same_key_iff, entry_key, is_expired, sweep, sweep_from, lock_cleanup_expired,
}

-- What an observer at `now` sees of an entry: nothing, once it is expired.
abbrev pub unexpired : ℕ → Option LockEntry → Option LockEntry
unexpired now none = none
unexpired now (some e) = if is_expired now e then none else some e

hash_lock_key-lt : (k : LockKey) → hash_lock_key k < lock_hash_size
unfolding hash_lock_key
hash_lock_key-lt k = omega arith

find-sweep :
    (now : ℕ) (k : LockKey) (c : List LockEntry)
    → Distinct lock_keys c
    → find lock_keys k (sweep now c).0 ≡ unexpired now (find lock_keys k c)
unfolding find sweep
find-sweep now k [] d = refl
find-sweep now k (e ∷ c) d =
    ground (arith, find-sweep now k c d.1, same_key_iff (entry_key e) k, d.0)

sweep-Distinct :
    (now : ℕ) (c : List LockEntry) → Distinct lock_keys c → Distinct lock_keys (sweep now c).0
unfolding sweep
sweep-Distinct now [] d = tt
sweep-Distinct now (e ∷ c) d = elim (Bool-cases (is_expired now e)) [
  | inl old ↦ rw old (sweep-Distinct now c d.1)
  | inr fresh ↦ rw fresh (find-sweep now (entry_key e) c d.1 ∙ rw d.0, sweep-Distinct now c d.1)
]

sweep-All :
    (P : LockEntry → Type 0) (now : ℕ) (c : List LockEntry) → All P c → All P (sweep now c).0
unfolding sweep
sweep-All P now [] a = tt
sweep-All P now (e ∷ c) a = elim (Bool-cases (is_expired now e)) [
  | inl old ↦ rw old (sweep-All P now c a.1)
  | inr fresh ↦ rw fresh (a.0, sweep-All P now c a.1)
]

length-sweep : (now : ℕ) (c : List LockEntry) → length (sweep now c).0 + (sweep now c).1 ≡ length c
unfolding sweep
length-sweep now [] = omega arith
length-sweep now (e ∷ c) = ground (arith, length-sweep now c)

-- The loop over the chains changes those in its range, each by one sweep.
sweep_from-at :
    (now : ℕ) (t : LockTable) (i n j : ℕ)
    → (sweep_from now t i n).0 j ≡ (if leb i j && ltb j (i + n) then (sweep now (t j)).0 else t j)
unfolding sweep_from
sweep_from-at now t i zero j = ground arith
sweep_from-at now t i (suc n) j =
    ground (arith, sweep_from-at now (write t i (sweep now (t i)).0) (i + 1) n j)

total-sweep_from :
    (now : ℕ) (t : LockTable) (i n m : ℕ)
    → i + n ≤ m
    → total (sweep_from now t i n).0 m + (sweep_from now t i n).1 ≡ total t m
unfolding sweep_from
total-sweep_from now t i zero m h = omega arith
total-sweep_from now t i (suc n) m h = ground (
  arith,
  total-sweep_from now (write t i (sweep now (t i)).0) (i + 1) n m,
  total-write t i (sweep now (t i)).0 m,
  length-sweep now (t i),
)

pub cleanup-IsTable :
    (now : ℕ) (t : LockTable)
    → IsTable lock_keys t
    → IsTable lock_keys (lock_cleanup_expired now t).0
unfolding lock_cleanup_expired
cleanup-IsTable now t v i =
    rw (sweep_from-at now t 0 lock_hash_size i)
      (elim (Bool-cases (leb 0 i && ltb i (0 + lock_hash_size))) [
        | inl inside ↦ rw inside (sweep-Distinct now (t i) (v i).0, sweep-All _ now (t i) (v i).1)
        | inr outside ↦ rw outside (v i)
      ])

-- The sweep takes exactly the expired locks away: a lookup afterwards finds what it found before,
-- unless that had expired.
pub lookup-cleanup :
    (now : ℕ) (t : LockTable) (k : LockKey)
    → IsTable lock_keys t
    → lookup lock_keys (lock_cleanup_expired now t).0 k ≡ unexpired now (lookup lock_keys t k)
unfolding lock_cleanup_expired
lookup-cleanup now t k v = ground (
  arith,
  sweep_from-at now t 0 lock_hash_size (hash_lock_key k),
  hash_lock_key-lt k,
  find-sweep now k (t (hash_lock_key k)) (v (hash_lock_key k)).0,
)

-- The number that `lock_cleanup_expired` returns is the number of entries it removed.
cleanup_count :
    (now : ℕ) (t : LockTable)
    → total (lock_cleanup_expired now t).0 lock_hash_size + (lock_cleanup_expired now t).1
      ≡ total t lock_hash_size
unfolding lock_cleanup_expired
cleanup_count now t = total-sweep_from now t 0 lock_hash_size lock_hash_size (omega arith)

-- A sweep at `now` is invisible to every question that is asked at that time or later: for each
-- sentence and client, `lock_is_locked` answers as it would have without the sweep. The table
-- is well formed.
pub is_locked-cleanup :
    (now later : ℕ) (t : LockTable) (k : LockKey) (client : CString)
    → IsTable lock_keys t
    → now ≤ later
    → lock_is_locked (lock_cleanup_expired now t).0 k client later ≡ lock_is_locked t k client later
unfolding lock_is_locked
is_locked-cleanup now later t k client v h =
    rw (lookup-cleanup now t k v, lock_is_locked)
      (elim (Option-cases (lookup lock_keys t k)) [
        | inl free ↦ rw (free, lock_is_locked)
        | inr (e, taken) ↦ rw (taken, lock_is_locked) (ground arith)
      ])
