-- ===== src/Storage/Tests/Requests.antt =====
-- Undo and moves on the server of the tests.
use name_file_system_docs.Base.{◌≡◌, refl, true, false, none, some, [], ◌∷◌, arith}
use name_file_system_docs.Base.Strings.{same}
use name_file_system_docs.Disk.{directory, regular}
use name_file_system_docs.Folder.{path_below}
use name_file_system_docs.Protocol.{err_not_found, err_success, op_move, op_read}
use name_file_system_docs.Storage.{Calls, Message, Server, path_in}
use name_file_system_docs.Storage.Forwarded.{forwarded_request}
use name_file_system_docs.Storage.Moved.{moved_unreadable}
use name_file_system_docs.Storage.Reading.{Holds}
use name_file_system_docs.Storage.Requests.{handle_read_from_client, op_stop, with_code}
use name_file_system_docs.Storage.Tests.{
  all_granted, ann, bob, computing, document, letter_a, message, server,
}
use name_file_system_docs.Undo.{UndoTable, undo_save, undo_table_init}
use name_file_system_docs.Undo.Spec.{save-IsValid, save-view, view}
use name_file_system_docs.Undo.Spec as Undo

-- An undo copy of the document is kept.
abbrev with_copy : UndoTable
with_copy = (undo_save undo_table_init letter_a document 6 true true).1

abbrev can_undo : Server
can_undo = record server { undo_table = with_copy }

abbrev no_write : Calls
no_write = record all_granted { creates = false }

copy-IsValid : Undo.IsValid with_copy
copy-IsValid =
    save-IsValid undo_table_init Undo.init-IsValid letter_a (omega arith) document 6 (omega arith)
      (omega arith)

copy_kept : view with_copy letter_a ≡ some document
unfolding same
copy_kept =
    (save-view undo_table_init Undo.init-IsValid letter_a (omega arith) document 6 (omega arith)
      (omega arith) letter_a).1

abbrev ann_moves : Message
ann_moves = message op_move ann 0 0 []

abbrev bob_reads : Message
bob_reads = message op_read bob 0 0 []

places :
    (server.disk (path_in server.storage_dir (b'f' ∷ [])) ≡ some directory)
    × Holds server letter_a document
    × (server.disk (path_below server.storage_dir (b'f' ∷ []) letter_a) ≡ none)
unfolding computing path_below
places = (refl, refl, refl)

moved_unreadable_example :
    (s' : Server) × (forwarded_request server ann_moves all_granted ≡ (with_code err_success, s'))
    × (s'.disk (path_below server.storage_dir (b'f' ∷ []) letter_a) ≡ some (regular document))
    × (handle_read_from_client s' bob_reads all_granted ≡ with_code err_not_found ∷ op_stop ∷ [])
moved_unreadable_example =
    moved_unreadable server ann_moves bob_reads all_granted all_granted document refl refl places.0
      places.1 places.2 refl
