-- ===== src/Lock.antt =====
-- storage_server/sentence_lock.c and .h: the table of sentence locks. Every function holds the
-- table's mutex from its first read to its last write, so each is one atomic step; the clock that
-- it reads, `time(NULL)`, is the argument `now`. A sentence number is the bit pattern of its `int`.
pub mod Frame
pub mod Exclusion
pub mod Cleanup
pub mod Tests
use name_file_system_docs.Base.{
  ℕ, zero, suc, ◌+◌, ◌-◌, ◌*◌, ◌%◌, ◌^◌, ◌≡◌, ◌↔◌, Bool, true, false, ◌&&◌, none, some, List, [],
  ◌∷◌, arith,
}
use name_file_system_docs.Base.Tests.{ltb, leb, ◌==◌, if◌then◌else◌, ==_iff}
use name_file_system_docs.Base.Strings.{CString, same, same_iff, copy_str}
use name_file_system_docs.Protocol.{
  err_success, err_access_denied, err_not_found, err_locked, max_filename_len, max_username_len,
}
use name_file_system_docs.Table.Chain.{Keyed, Buckets, lookup, write, prepend, update, delete}

abbrev pub lock_hash_size : ℕ
lock_hash_size = 509

abbrev pub lock_timeout : ℕ
lock_timeout = 60

pub record LockEntry : Type 0 where
  pub filename : CString
  pub sentence_num : ℕ
  pub client_id : CString
  pub timestamp : ℕ

abbrev pub LockTable : Type 0
LockTable = Buckets LockEntry

abbrev pub LockKey : Type 0
LockKey = CString × ℕ

-- The loop of `hash_lock_key`, on 32-bit unsigned numbers.
djb2 : ℕ → CString → ℕ
djb2 hash [] = hash
djb2 hash (c ∷ s) = djb2 ((hash * 33 + c) % 2 ^ 32) s

unfoldable pub hash_lock_key : LockKey → ℕ
unfolding djb2
hash_lock_key k = ((djb2 5381 k.0 + k.1 * 31) % 2 ^ 32) % lock_hash_size

-- `strcmp(entry->filename, filename) == 0 && entry->sentence_num == sentence_num`
abbrev pub same_key : LockKey → LockKey → Bool
same_key a b = same a.0 b.0 && a.1 == b.1

pub same_key_iff : (a b : LockKey) → (same_key a b ≡ true) ↔ (a ≡ b)
same_key_iff (f, n) (g, m) =
    (λ h. ground (arith, same_iff f g, ==_iff n m), λ e. ground (arith, same_iff f g, ==_iff n m))

abbrev pub entry_key : LockEntry → LockKey
entry_key e = (e.filename, e.sentence_num)

abbrev pub lock_keys : Keyed LockEntry LockKey
lock_keys = record {
  key = entry_key;
  matches = same_key;
  matches_iff = same_key_iff;
  bucket_of = hash_lock_key;
}

-- `now - entry->timestamp >= LOCK_TIMEOUT`; a clock that went back gives a difference below the
-- timeout here as it gives a negative one there.
abbrev pub is_expired : ℕ → LockEntry → Bool
is_expired now e = leb lock_timeout (now - e.timestamp)

unfoldable pub lock_table_init : LockTable
lock_table_init i = []

unfoldable pub new_entry : LockKey → CString → ℕ → LockEntry
new_entry k client now = record {
  filename = copy_str max_filename_len k.0;
  sentence_num = k.1;
  client_id = copy_str max_username_len client;
  timestamp = now;
}

unfoldable pub lock_acquire : LockTable → LockKey → CString → ℕ → ℕ × LockTable
unfolding new_entry
lock_acquire t k client now = elim (lookup lock_keys t k) [
  | some e ↦
      if is_expired now e
      then (
        err_success,
        update lock_keys t k
            (λ e. record e { client_id = copy_str max_username_len client; timestamp = now }),
      )
      else if same e.client_id client
      then (err_success, update lock_keys t k (λ e. record e { timestamp = now }))
      else (err_locked, t)
  | none ↦ (err_success, prepend lock_keys t k (new_entry k client now))
]

unfoldable pub lock_release : LockTable → LockKey → CString → ℕ × LockTable
lock_release t k client = elim (lookup lock_keys t k) [
  | some e ↦
      if same e.client_id client
      then (err_success, delete lock_keys t k)
      else (err_access_denied, t)
  | none ↦ (err_not_found, t)
]

unfoldable pub lock_is_locked : LockTable → LockKey → CString → ℕ → Bool
lock_is_locked t k client now = elim (lookup lock_keys t k) [
  | some e ↦ if is_expired now e then false else if same e.client_id client then false else true
  | none ↦ false
]

-- One chain of `lock_cleanup_expired`: what stays, and the number removed.
unfoldable pub sweep : ℕ → List LockEntry → List LockEntry × ℕ
sweep now [] = ([], 0)
sweep now (e ∷ c) =
    let (kept, cleaned) = sweep now c in
    if is_expired now e then (kept, cleaned + 1) else (e ∷ kept, cleaned)

-- The chains from `i` on, `n` of them.
unfoldable pub sweep_from : ℕ → LockTable → ℕ → ℕ → LockTable × ℕ
sweep_from now t i zero = (t, 0)
sweep_from now t i (suc n) =
    let (kept, cleaned) = sweep now (t i) in
    let (t', more) = sweep_from now (write t i kept) (i + 1) n in (t', cleaned + more)

unfoldable pub lock_cleanup_expired : ℕ → LockTable → LockTable × ℕ
lock_cleanup_expired now t = sweep_from now t 0 lock_hash_size

-- `buckets[i] = NULL` for every index.
unfoldable pub lock_table_destroy : LockTable → LockTable
lock_table_destroy t i = if ltb i lock_hash_size then [] else t i
