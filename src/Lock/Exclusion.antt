-- ===== src/Lock/Exclusion.antt =====
-- Mutual exclusion of sentence_lock.c over every order of calls of the other clients and of the
-- background sweep. Each call holds the mutex, so a run is a sequence of calls, each with the time
-- that it reads.
use name_file_system_docs.Base.{
  ℕ, ◌+◌, ◌≤◌, ◌<◌, ◌≡◌, sym, ap, ◌∙◌, ◌≢◌, inl, inr, true, false, some, List, [], ◌∷◌, arith,
}
use name_file_system_docs.Base.Tests.{if◌then◌else◌, Option-cases}
use name_file_system_docs.Base.Lists.{All}
use name_file_system_docs.Base.Strings.{CString, same_refl, eq_of_same}
use name_file_system_docs.Protocol.{err_success, err_access_denied, err_locked}
use name_file_system_docs.Table.Chain.{lookup}
use name_file_system_docs.Table.Valid.{IsTable}
use name_file_system_docs.Lock.{
  LockTable, LockKey, lock_keys, lock_is_locked, lock_acquire, lock_release, lock_cleanup_expired,
  lock_timeout, same_key_iff,
}
use name_file_system_docs.Lock.Frame.{
  Fits, held_by, acquire-IsTable, release-IsTable, lookup-acquire, lookup-release,
}
use name_file_system_docs.Lock.Cleanup.{cleanup-IsTable, lookup-cleanup}

-- A call of the lock table's interface.
pub data Call : Type 0 where
  acquire : LockKey → CString → Call
  release : LockKey → CString → Call
  cleanup : Call

unfoldable pub step : LockTable → ℕ × Call → LockTable
step t (now, acquire k client) = (lock_acquire t k client now).1
step t (now, release k client) = (lock_release t k client).1
step t (now, cleanup) = (lock_cleanup_expired now t).0

unfoldable pub run : LockTable → List (ℕ × Call) → LockTable
run t [] = t
run t (c ∷ cs) = run (step t c) cs

-- Names that the entry's buffers hold, as the message fields guarantee.
abbrev pub HasNames : ℕ × Call → Type 0
HasNames (now, acquire k client) = Fits 256 k.0 × Fits 64 client
HasNames (now, release k client) = Unit
HasNames (now, cleanup) = Unit

-- The call is not made by `holder`, and comes before a lock taken at `since` expires.
abbrev pub IsOther : CString → ℕ → ℕ × Call → Type 0
IsOther holder since (now, acquire k client) = (client ≢ holder) × (now < since + lock_timeout)
IsOther holder since (now, release k client) = (client ≢ holder) × (now < since + lock_timeout)
IsOther holder since (now, cleanup) = now < since + lock_timeout

step-IsTable :
    (t : LockTable) (c : ℕ × Call) → HasNames c → IsTable lock_keys t → IsTable lock_keys (step t c)
unfolding step
step-IsTable t (now, acquire k client) n v = acquire-IsTable t k client now n.0 n.1 v
step-IsTable t (now, release k client) n v = release-IsTable t k client v
step-IsTable t (now, cleanup) n v = cleanup-IsTable now t v

-- Every sequence of calls keeps the table's invariant: each lock stands in the chain of its own
-- hash, and no sentence has two locks. The names of the calls fit their arrays.
pub run-IsTable :
    (t : LockTable) (cs : List (ℕ × Call))
    → All HasNames cs
    → IsTable lock_keys t
    → IsTable lock_keys (run t cs)
unfolding run
run-IsTable t [] n v = v
run-IsTable t (c ∷ cs) n v = run-IsTable (step t c) cs n.1 (step-IsTable t c n.0 v)

module _ (k : LockKey) (holder : CString) (since : ℕ) where
  -- The sentence is locked by `holder`, who took or renewed the lock at `since`.
  abbrev pub IsHeld : LockTable → Type 0
  IsHeld t = lookup lock_keys t k ≡ some (held_by k holder since)

  is_locked-other :
      (t : LockTable) (client : CString) (now : ℕ)
      → IsHeld t
      → client ≢ holder
      → now < since + lock_timeout
      → lock_is_locked t k client now ≡ true
  unfolding lock_is_locked
  is_locked-other t client now h other soon =
      rw (h, lock_is_locked) (ground (arith, eq_of_same holder client))

  release-other :
      (t : LockTable) (client : CString)
      → IsHeld t
      → client ≢ holder
      → lock_release t k client ≡ (err_access_denied, t)
  unfolding lock_release
  release-other t client h other = rw (h, lock_release) (ground (arith, eq_of_same holder client))

  pub release-holder : (t : LockTable) → IsHeld t → (lock_release t k holder).0 ≡ err_success
  unfolding lock_release
  release-holder t h = rw (h, lock_release) (ground (arith, same_refl holder))

  is_locked-holder : (t : LockTable) (now : ℕ) → IsHeld t → lock_is_locked t k holder now ≡ false
  unfolding lock_is_locked
  is_locked-holder t now h = rw (h, lock_is_locked) (ground (arith, same_refl holder))

  step-IsHeld :
      (t : LockTable) (c : ℕ × Call)
      → HasNames c
      → IsOther holder since c
      → IsTable lock_keys t
      → IsHeld t
      → IsHeld (step t c)
  unfolding step
  step-IsHeld t (now, acquire j client) n o v h = ground (
    arith,
    lookup-acquire t j k client now n.0 n.1,
    same_key_iff j k,
    is_locked-other t client now h o.0 o.1,
  )
  step-IsHeld t (now, release j client) n o v h =
      ground (arith, lookup-release t j k client v, same_key_iff j k, release-other t client h o.0)
  step-IsHeld t (now, cleanup) n o v h = lookup-cleanup now t k v ∙ rw h (ground arith)

  run-IsHeld :
      (t : LockTable) (cs : List (ℕ × Call))
      → All HasNames cs
      → All (IsOther holder since) cs
      → IsTable lock_keys t
      → IsHeld t
      → IsHeld (run t cs)
  unfolding run
  run-IsHeld t [] n o v h = h
  run-IsHeld t (c ∷ cs) n o v h =
      run-IsHeld (step t c) cs n.1 o.1 (step-IsTable t c n.0 v) (step-IsHeld t c n.0 o.0 v h)

-- `lock_acquire` grants a request exactly when `lock_is_locked` says that the sentence is not
-- locked for that client at that time; else it answers ERR_LOCKED and leaves the table as it was.
pub acquire-is_locked :
    (t : LockTable) (k : LockKey) (client : CString) (now : ℕ)
    → ((lock_acquire t k client now).0
        ≡ (if lock_is_locked t k client now then err_locked else err_success))
      × ((if lock_is_locked t k client now then (lock_acquire t k client now).1 else t) ≡ t)
unfolding lock_acquire lock_is_locked
acquire-is_locked t k client now = elim (Option-cases (lookup lock_keys t k)) [
  | inl free ↦ rw (free, lock_acquire, lock_is_locked) (ground arith)
  | inr (e, taken) ↦ rw (taken, lock_acquire, lock_is_locked) (ground arith)
]

pub acquire-IsHeld :
    (t : LockTable) (k : LockKey) (client : CString) (now : ℕ)
    → Fits 256 k.0
    → Fits 64 client
    → (lock_acquire t k client now).0 ≡ err_success
    → IsHeld k client now (lock_acquire t k client now).1
acquire-IsHeld t k client now f g granted = ground (
  arith,
  lookup-acquire t k k client now f g,
  same_key_iff k k,
  (acquire-is_locked t k client now).0,
)

module _ (t : LockTable) (v : IsTable lock_keys t) (k : LockKey) (holder client : CString)
    (since now : ℕ) (f : Fits 256 k.0) (g : Fits 64 holder)
    (granted : (lock_acquire t k holder since).0 ≡ err_success) (other : client ≢ holder) where
  -- Mutual exclusion. A client was granted a sentence at `since`; then come any calls of other
  -- clients on any sentences, and sweeps, all before the lock is 60 seconds old. Until then
  -- every other client's request for the sentence is refused with ERR_LOCKED and changes
  -- nothing, its release is refused with ERR_ACCESS_DENIED and changes nothing, and the holder
  -- still may write and can release the lock. The table is well formed, and names fit their
  -- arrays.
  pub lock_exclusion :
      (cs : List (ℕ × Call))
      → All HasNames cs
      → All (IsOther holder since) cs
      → now < since + lock_timeout
      → let u = run (lock_acquire t k holder since).1 cs in
        (lock_acquire u k client now ≡ (err_locked, u))
        × (lock_release u k client ≡ (err_access_denied, u))
        × (lock_is_locked u k holder now ≡ false)
        × ((lock_release u k holder).0 ≡ err_success)
  lock_exclusion cs n o soon =
      let first = (lock_acquire t k holder since).1 in
      let held =
        run-IsHeld k holder since first cs n o (acquire-IsTable t k holder since f g v)
          (acquire-IsHeld t k holder since f g granted) in
      let u = run first cs in
      (
        ground (
          arith,
          acquire-is_locked u k client now,
          is_locked-other k holder since u client now held other soon,
        ),
        release-other k holder since u client held other,
        is_locked-holder k holder since u now held,
        release-holder k holder since u held,
      )

  -- Takeover. Once the lock is 60 seconds old, any other client's request is granted, also if
  -- no sweep came between; the sentence is then locked by the new client, and the former holder
  -- can no longer release it. As above, a client was granted the sentence at `since`, and only
  -- calls of other clients and sweeps came before the lock was 60 seconds old; the table is
  -- well formed, and names fit.
  pub lock_takeover :
      (cs : List (ℕ × Call))
      → All HasNames cs
      → All (IsOther holder since) cs
      → Fits 64 client
      → since + lock_timeout ≤ now
      → let u = run (lock_acquire t k holder since).1 cs in
        ((lock_acquire u k client now).0 ≡ err_success)
        × IsHeld k client now (lock_acquire u k client now).1
        × ((lock_release (lock_acquire u k client now).1 k holder).0 ≡ err_access_denied)
  unfolding lock_is_locked
  lock_takeover cs n o fits late =
      let first = (lock_acquire t k holder since).1 in
      let u = run first cs in
      let held =
        run-IsHeld k holder since first cs n o (acquire-IsTable t k holder since f g v)
          (acquire-IsHeld t k holder since f g granted) in
      let free : lock_is_locked u k client now ≡ false = rw (held, lock_is_locked) (ground arith) in
      let ok : (lock_acquire u k client now).0 ≡ err_success =
        (acquire-is_locked u k client now).0 ∙ rw free in
      let mine = acquire-IsHeld u k client now f fits ok in
      (
        ok,
        mine,
        ap (λ (r : ℕ × LockTable). r.0)
            (release-other k client now (lock_acquire u k client now).1 holder mine
              (λ e. other (sym e))),
      )
