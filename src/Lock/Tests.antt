-- ===== src/Lock/Tests.antt =====
-- Runs of the lock table on concrete inputs, and the theorems of its modules at such inputs.
use name_file_system_docs.Base.{ℕ, ◌≡◌, refl, ◌≢◌, false, List, [], ◌∷◌, arith}
use name_file_system_docs.Base.Strings.{CString, same}
use name_file_system_docs.Protocol.{err_success, err_access_denied, err_locked, err_not_found}
use name_file_system_docs.Table.Chain.{find, modify, unlink}
use name_file_system_docs.Table.Valid.{IsTable, empty-IsTable}
use name_file_system_docs.Lock.{
  LockTable, LockKey, lock_keys, lock_is_locked, lock_acquire, lock_release, lock_cleanup_expired,
  lock_table_init, hash_lock_key, sweep, sweep_from,
}
use name_file_system_docs.Lock.Exclusion.{
  Call, acquire, release, cleanup, run, step, run-IsTable, lock_exclusion,
}

abbrev doc : LockKey
doc = (b'd' ∷ b'o' ∷ b'c' ∷ [], 2)

abbrev alice : CString
alice = b'a' ∷ []

abbrev bob : CString
bob = b'b' ∷ []

computing : Unit {0}
unfolding find modify unlink same sweep hash_lock_key lock_acquire lock_release lock_is_locked
    lock_table_init lock_cleanup_expired sweep_from run
computing = tt

abbrev locked : LockTable
locked = (lock_acquire lock_table_init doc alice 100).1

refused : (lock_acquire locked doc bob 159).0 ≡ err_locked
unfolding computing
refused = refl

expired : (lock_acquire locked doc bob 160).0 ≡ err_success
unfolding computing
expired = refl

released : (lock_release (lock_release locked doc alice).1 doc alice).0 ≡ err_not_found
unfolding computing
released = refl

swept : (lock_cleanup_expired 160 locked).1 ≡ 1
unfolding computing
swept = refl

init-IsTable : IsTable lock_keys lock_table_init
unfolding lock_table_init
init-IsTable = empty-IsTable lock_keys

abbrev calls : List (ℕ × Call)
calls = (120, acquire doc bob) ∷ (130, cleanup) ∷ (140, release doc bob) ∷ []

granted : (lock_acquire lock_table_init doc alice 100).0 ≡ err_success
unfolding computing
granted = refl

bob≢alice : bob ≢ alice
bob≢alice e = ground arith

lock_exclusion_example :
    let u = run (lock_acquire lock_table_init doc alice 100).1 calls in
    (lock_acquire u doc bob 150 ≡ (err_locked, u))
    × (lock_release u doc bob ≡ (err_access_denied, u))
    × (lock_is_locked u doc alice 150 ≡ false)
    × ((lock_release u doc alice).0 ≡ err_success)
lock_exclusion_example =
    lock_exclusion lock_table_init init-IsTable doc alice bob 100 150 (omega arith) (omega arith)
      granted bob≢alice calls (omega arith)
      ((bob≢alice, omega arith), (omega arith, ((bob≢alice, omega arith), tt))) (omega arith)

locked-IsTable : IsTable lock_keys locked
unfolding run step
locked-IsTable =
    run-IsTable lock_table_init ((100, acquire doc alice) ∷ []) (omega arith) init-IsTable
