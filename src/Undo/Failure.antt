-- ===== src/Undo/Failure.antt =====
-- What undo_buffer.c does when `malloc` fails, and with files past the limit.
use name_file_system_docs.Base.{
  ℕ, ◌≤◌, ◌<◌, ◌≡◌, refl, ◌∙◌, ◌≢◌, ◌⊎◌, inl, inr, Bool, true, false, none, some, List, arith,
}
use name_file_system_docs.Base.Tests.{ltb}
use name_file_system_docs.Base.Strings.{CString, same_refl}
use name_file_system_docs.Protocol.{err_success, err_server_error}
use name_file_system_docs.Table.Chain.{lookup, update}
use name_file_system_docs.Table.Valid.{lookup-update}
use name_file_system_docs.Undo.{
  UndoEntry, UndoTable, null_copy, undo_keys, max_undo_size, undo_save, undo_restore,
  undo_available, copy_out,
}

-- A save that returns an error leaves the table as it was, for a file with no entry or with a
-- size past the limit.
save_refused :
    (t : UndoTable) (f : CString) (content : List ℕ) (size : ℕ) (node_alloc content_alloc : Bool)
    → (max_undo_size < size) ⊎ (lookup undo_keys t.buckets f ≡ none)
    → (undo_save t f content size node_alloc content_alloc).0 ≢ err_success
    → undo_save t f content size node_alloc content_alloc ≡ (err_server_error, t)
unfolding undo_save
save_refused t f content size node_alloc content_alloc (inl large) e = ground arith
save_refused t f content size node_alloc content_alloc (inr absent) e = ground (arith, absent)

-- The failure that is not handled. If a file has a valid undo entry and the allocation of the
-- new copy fails, `undo_save` reports an error, but it has freed the old copy, left its pointer
-- null and the entry valid: `undo_available` still answers yes, and the next undo copies from a
-- null pointer. The size is within the limit.
pub save_failed_null_copy :
    (t : UndoTable) (f : CString) (content : List ℕ) (size : ℕ) (node_alloc : Bool) (e : UndoEntry)
    → lookup undo_keys t.buckets f ≡ some e
    → e.valid ≡ true
    → size ≤ max_undo_size
    → let r = undo_save t f content size node_alloc false in
      (r.0 ≡ err_server_error)
      × (undo_available r.1 f ≡ true)
      × (undo_restore r.1 f true ≡ null_copy)
unfolding undo_save undo_restore copy_out undo_available
save_failed_null_copy t f content size node_alloc e there valid small =
    let nulled : UndoEntry → UndoEntry = λ e. record e { content = none } in
    let after : lookup undo_keys (update undo_keys t.buckets f nulled) f
        ≡ some (record e { content = none }) =
      lookup-update undo_keys t.buckets f f nulled (λ _. refl) ∙ rw (same_refl f, there) in
    let limit : ltb max_undo_size size ≡ false = ground arith in
    rw (limit, there, undo_save)
      (refl, rw (after, undo_available) valid, rw (after, undo_restore) (ground arith))
