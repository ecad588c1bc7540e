-- ===== src/Undo/Tests.antt =====
-- Runs of the undo table on concrete inputs, and the theorems of its modules at such inputs.
use name_file_system_docs.Base.{ℕ, ◌≡◌, refl, true, false, some, List, [], ◌∷◌, arith}
use name_file_system_docs.Base.Tests.{if◌then◌else◌}
use name_file_system_docs.Base.Lists.{take}
use name_file_system_docs.Base.Strings.{CString, same}
use name_file_system_docs.Protocol.{err_success, err_not_found}
use name_file_system_docs.Table.Chain.{find, lookup, modify, unlink}
use name_file_system_docs.Undo.{
  UndoEntry, UndoTable, restored, failed, undo_keys, undo_table_init, undo_save, undo_restore,
  undo_available, undo_clear_file, copy_out, hash_filename,
}
use name_file_system_docs.Undo.Spec.{IsValid, view, init-IsValid, save-IsValid, save-view}
use name_file_system_docs.Undo.Restore.{table_after, save_restore}

abbrev doc : CString
doc = b'd' ∷ b'o' ∷ b'c' ∷ []

abbrev note : CString
note = b'n' ∷ []

abbrev text : List ℕ
text = b'o' ∷ b'l' ∷ b'd' ∷ []

computing : Unit {0}
unfolding find modify unlink same hash_filename undo_table_init undo_save undo_restore
    undo_available undo_clear_file copy_out view
computing = tt

abbrev one_saved : UndoTable
one_saved = (undo_save undo_table_init doc text 3 true true).1

one_saved-IsValid : IsValid one_saved
one_saved-IsValid =
    save-IsValid undo_table_init init-IsValid doc (omega arith) text 3 (omega arith) (omega arith)

restores :
    undo_restore one_saved doc true
    ≡ restored text 3 (table_after one_saved (undo_restore one_saved doc true))
unfolding computing
restores = refl

latest : undo_available (undo_clear_file one_saved doc) doc ≡ false
unfolding computing
latest = refl

save-view_example :
    ((undo_save one_saved note text 2 true true).0 ≡ err_success)
    × (view (undo_save one_saved note text 2 true true).1 doc
        ≡ (if same note doc then some (take 2 text) else view one_saved doc))
save-view_example =
    save-view one_saved one_saved-IsValid note (omega arith) text 2 (omega arith) (omega arith) doc

save_restore_example :
    let u = (undo_save one_saved note text 2 true true).1 in
    let after = table_after u (undo_restore u note true) in
    (undo_restore u note true ≡ restored (take 2 text) 2 after)
    × (undo_restore after note true ≡ failed err_not_found after)
save_restore_example =
    save_restore one_saved one_saved-IsValid note (omega arith) text 2 (omega arith) (omega arith)

abbrev saved_entry : UndoEntry
saved_entry = record { filename = doc; content = some text; size = 3; valid = true }

there : lookup undo_keys one_saved.buckets doc ≡ some saved_entry
unfolding computing
there = refl
