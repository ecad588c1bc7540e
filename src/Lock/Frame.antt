-- ===== src/Lock/Frame.antt =====
-- What acquire and release of sentence_lock.c do to the table: the invariant, and every lookup.
use name_file_system_docs.Base.{ℕ, ◌-◌, ◌≤◌, ◌≡◌, refl, ap, ◌∙◌, inl, inr, ◌&&◌, none, some, arith}
use name_file_system_docs.Base.Tests.{◌==◌, if◌then◌else◌, Bool-cases, Option-cases}
use name_file_system_docs.Base.Lists.{length, take_all}
use name_file_system_docs.Base.Strings.{CString, same, eq_of_same, copy_str}
use name_file_system_docs.Protocol.{err_success, max_username_len}
use name_file_system_docs.Table.Chain.{lookup, update}
use name_file_system_docs.Table.Valid.{
  IsTable, prepend-IsTable, update-IsTable, delete-IsTable, lookup-prepend, lookup-update,
  lookup-delete, key-lookup,
}
use name_file_system_docs.Lock.{
  LockEntry, LockTable, LockKey, lock_keys, lock_acquire, lock_release, lock_is_locked, new_entry,
  same_key, entry_key, is_expired,
}

-- A name that its buffer holds whole.
abbrev pub Fits : ℕ → CString → Type 0
Fits n s = length s ≤ n - 1

-- The entry of a sentence that `client` locked at `now`.
abbrev pub held_by : LockKey → CString → ℕ → LockEntry
held_by k client now = record {
  filename = k.0;
  sentence_num = k.1;
  client_id = client;
  timestamp = now;
}

new_entry-eq :
    (k : LockKey) (client : CString) (now : ℕ)
    → Fits 256 k.0
    → Fits 64 client
    → new_entry k client now ≡ held_by k client now
unfolding new_entry
new_entry-eq k client now f g = rw (take_all 255 k.0 f, take_all 63 client g)

pub acquire-IsTable :
    (t : LockTable) (k : LockKey) (client : CString) (now : ℕ)
    → Fits 256 k.0
    → Fits 64 client
    → IsTable lock_keys t
    → IsTable lock_keys (lock_acquire t k client now).1
unfolding lock_acquire
acquire-IsTable t k client now f g v = elim (Option-cases (lookup lock_keys t k)) [
  | inl free ↦
      rw (free, lock_acquire)
        (prepend-IsTable lock_keys t k (new_entry k client now) v
          (ap entry_key (new_entry-eq k client now f g)) free)
  | inr (e, taken) ↦
      rw (taken, lock_acquire)
        (elim (Bool-cases (is_expired now e)) [
          | inl old ↦ rw old (update-IsTable lock_keys t k _ (λ _. refl) v)
          | inr fresh ↦ rw fresh (elim (Bool-cases (same e.client_id client)) [
            | inl mine ↦ rw mine (update-IsTable lock_keys t k _ (λ _. refl) v)
            | inr other ↦ rw other v
          ])
        ])
]

pub release-IsTable :
    (t : LockTable) (k : LockKey) (client : CString)
    → IsTable lock_keys t
    → IsTable lock_keys (lock_release t k client).1
unfolding lock_release
release-IsTable t k client v = elim (Option-cases (lookup lock_keys t k)) [
  | inl free ↦ rw (free, lock_release) v
  | inr (e, taken) ↦
      rw (taken, lock_release)
        (elim (Bool-cases (same e.client_id client)) [
          | inl mine ↦ rw mine (delete-IsTable lock_keys t k v)
          | inr other ↦ rw other v
        ])
]

-- After a granted request the sentence is held by the client from `now` on; no other sentence's
-- lock changes, and a refused request changes none.
pub lookup-acquire :
    (t : LockTable) (k j : LockKey) (client : CString) (now : ℕ)
    → Fits 256 k.0
    → Fits 64 client
    → lookup lock_keys (lock_acquire t k client now).1 j ≡ (
        if lock_is_locked t k client now
        then lookup lock_keys t j
        else if same_key k j
        then some (held_by k client now)
        else lookup lock_keys t j)
unfolding lock_acquire lock_is_locked
lookup-acquire t k j client now f g = elim (Option-cases (lookup lock_keys t k)) [
  | inl free ↦
      rw (free, lock_acquire, lock_is_locked)
        (ground (
          arith,
          new_entry-eq k client now f g,
          lookup-prepend lock_keys t k j (new_entry k client now)
              (ap entry_key (new_entry-eq k client now f g)),
        ))
  | inr (e, taken) ↦
      rw (taken, lock_acquire, lock_is_locked)
        (elim (Bool-cases (is_expired now e)) [
          | inl old ↦ rw old (
              refreshed e taken
                (λ e. record e { client_id = copy_str max_username_len client; timestamp = now })
                (λ _. refl)
                (ground (arith, key-lookup lock_keys t k e taken, take_all 63 client g)))
          | inr fresh ↦ rw fresh (elim (Bool-cases (same e.client_id client)) [
            | inl mine ↦ rw mine (
                refreshed e taken (λ e. record e { timestamp = now }) (λ _. refl)
                  (ground (arith, key-lookup lock_keys t k e taken, eq_of_same e.client_id client)))
            | inr other ↦ rw other
          ])
        ])
]
  where
    refreshed :
        (e : LockEntry)
        → lookup lock_keys t k ≡ some e
        → (h : LockEntry → LockEntry) → ((e : LockEntry) → entry_key (h e) ≡ entry_key e)
        → h e ≡ held_by k client now
        → lookup lock_keys (update lock_keys t k h) j
          ≡ (if same_key k j then some (held_by k client now) else lookup lock_keys t j)
    refreshed e taken h kept at = lookup-update lock_keys t k j h kept ∙ rw (taken, at)

pub lookup-release :
    (t : LockTable) (k j : LockKey) (client : CString)
    → IsTable lock_keys t
    → lookup lock_keys (lock_release t k client).1 j ≡ (
        if (lock_release t k client).0 == err_success && same_key k j
        then none
        else lookup lock_keys t j)
unfolding lock_release
lookup-release t k j client v = elim (Option-cases (lookup lock_keys t k)) [
  | inl free ↦ rw (free, lock_release) (ground arith)
  | inr (e, taken) ↦ rw (taken, lock_release) (ground (arith, lookup-delete lock_keys t k j v))
]
