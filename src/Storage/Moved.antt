-- ===== src/Storage/Moved.antt =====
-- A file that was moved into a folder, and the READs after it: `ns_inbound_thread` and
-- `handle_read_from_client` in storage_server.c with folder_manager.c.
use name_file_system_docs.Base.{ℕ, ◌≡◌, refl, ap, ◌∙◌, Bool, true, none, some, List, [], ◌∷◌}
use name_file_system_docs.Base.Strings.{CString}
use name_file_system_docs.Disk.{directory, regular}
use name_file_system_docs.Folder.{folder_move_file, path_below}
use name_file_system_docs.Folder.Moves.{move_moves}
use name_file_system_docs.Protocol.{err_not_found, err_success, max_content_len, op_move}
use name_file_system_docs.Storage.{Calls, Message, Server, get_file_path, path_in}
use name_file_system_docs.Storage.Atomic.{moved}
use name_file_system_docs.Storage.Forwarded.{forwarded_request, with_disk}
use name_file_system_docs.Storage.Reading.{Holds, read_absent}
use name_file_system_docs.Storage.Requests.{handle_read_from_client, op_stop, with_code}

read_missing :
    (s : Server) (msg : Message) (calls : Calls)
    → s.disk (get_file_path s msg.filename) ≡ none
    → handle_read_from_client s msg calls ≡ with_code err_not_found ∷ op_stop ∷ []
unfolding handle_read_from_client
read_missing s msg calls absent =
    simp (read_absent s msg.filename calls.opens max_content_len absent, handle_read_from_client)
      refl

moved_step :
    (s : Server) (msg : Message) (calls : Calls)
    → msg.operation ≡ op_move
    → forwarded_request s msg calls
      ≡ with_disk s
          (folder_move_file s.storage_dir s.disk msg.filename msg.folder_name calls.renames)
unfolding forwarded_request
moved_step s msg calls op = simp (op, forwarded_request) refl

-- A moved file cannot be read. A MOVE that the name server passes on, of a file that is there into a
-- folder that is there and has none of that name, succeeds and keeps the bytes; but from then on every
-- READ of the file by a client is answered with ERR_NOT_FOUND, since only the storage directory
-- itself is looked into. The call of `rename` is granted.
pub moved_unreadable :
    (s : Server) (msg read : Message) (calls at_read : Calls) (c : List ℕ)
    → msg.operation ≡ op_move
    → calls.renames ≡ true
    → s.disk (path_in s.storage_dir msg.folder_name) ≡ some directory
    → Holds s msg.filename c
    → s.disk (path_below s.storage_dir msg.folder_name msg.filename) ≡ none
    → read.filename ≡ msg.filename
    → (s' : Server) × (forwarded_request s msg calls ≡ (with_code err_success, s'))
      × (s'.disk (path_below s.storage_dir msg.folder_name msg.filename) ≡ some (regular c))
      × (handle_read_from_client s' read at_read ≡ with_code err_not_found ∷ op_stop ∷ [])
moved_unreadable s msg read calls at_read c op granted folder there free name =
    let (d', moved, here, gone, others) =
      move_moves s.storage_dir s.disk msg.filename msg.folder_name c folder there free in
    let s' = record s { disk = d' } in
    (
      s',
      moved_step s msg calls op
          ∙ ap
              (λ (b : Bool).
                with_disk s (folder_move_file s.storage_dir s.disk msg.filename msg.folder_name b))
              granted
          ∙ ap (with_disk s) moved,
      here,
      read_missing s' read at_read (ap (λ (f : CString). d' (path_in s.storage_dir f)) name ∙ gone),
    )
