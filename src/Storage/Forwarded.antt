-- ===== src/Storage/Forwarded.antt =====
-- The requests that the name server passes on: the body of `ns_inbound_thread` in
-- storage_server/storage_server.c, and the handlers of folders. The text of an answer is left out where
-- it is fixed by the code or lists names.
use name_file_system_docs.Base.{ℕ, ◌||◌, Option, none, some, []}
use name_file_system_docs.Base.Tests.{◌==◌, if◌then◌else◌}
use name_file_system_docs.Base.Strings.{CString, copy_str}
use name_file_system_docs.Disk.{Disk}
use name_file_system_docs.Folder.{
  folder_create, folder_list_files, folder_move_file, max_files_per_folder,
}
use name_file_system_docs.Index.{index_file, index_remove_file}
use name_file_system_docs.Parser.Words.{words}
use name_file_system_docs.Protocol.{
  err_conflict, err_created, err_not_found, err_not_implemented, err_success, max_content_len,
  op_create, op_createfolder, op_delete, op_get_metadata, op_move, op_read, op_replicate,
  op_viewfolder,
}
use name_file_system_docs.Storage.{
  Calls, Message, Server, create_file, delete_file, get_file_metadata, read_file,
}
use name_file_system_docs.Storage.Requests.{Packet, with_code, with_counts, with_names, with_text}

abbrev pub with_disk : Server → ℕ × Disk → Packet × Server
with_disk s (code, d) = (with_code code, record s { disk = d })

unfoldable pub handle_createfolder_request : Server → Message → Calls → Packet × Server
handle_createfolder_request s msg calls =
    with_disk s (folder_create s.storage_dir s.disk msg.folder_name calls.makes)

unfoldable pub handle_move_request : Server → Message → Calls → Packet × Server
handle_move_request s msg calls =
    with_disk s (folder_move_file s.storage_dir s.disk msg.filename msg.folder_name calls.renames)

unfoldable pub handle_viewfolder_request : Server → Message → Calls → Packet
handle_viewfolder_request s msg calls =
    elim (folder_list_files s.storage_dir s.disk msg.folder_name calls.entries
      max_files_per_folder) [
        | none ↦ with_code err_not_found
        | some files ↦ with_names err_success files
      ]

-- `index_file` of a new, empty file.
abbrev pub forward_create : Server → Message → ℕ × Disk → Packet × Server
forward_create s msg (code, d) = (
  with_code code,
  record s {
    disk = d;
    search_index =
        if code == err_created
        then (index_file s.search_index msg.filename []).1
        else s.search_index;
  },
)

abbrev pub forward_delete : Server → Message → ℕ × Disk → Packet × Server
forward_delete s msg (code, d) = (
  with_code code,
  record s {
    disk = d;
    search_index =
        if code == err_success
        then (index_remove_file s.search_index msg.filename).0
        else s.search_index;
  },
)

abbrev pub metadata_packet : ℕ × Option (ℕ × ℕ × ℕ) → Packet
metadata_packet (code, none) = with_code code
metadata_packet (code, some (size, words, chars)) = with_counts size words chars

abbrev pub content_packet : ℕ × Option CString → Packet
content_packet (code, none) = with_code code
content_packet (code, some content) = with_text code (copy_str max_content_len content)

-- OP_REPLICATE: a file that is there already counts as a success.
abbrev pub replicate_packet : Server → ℕ × Disk → Packet × Server
replicate_packet s (code, d) = (
  with_code (if code == err_created || code == err_conflict then err_success else code),
  record s { disk = d },
)

unfoldable pub forwarded_request : Server → Message → Calls → Packet × Server
unfolding handle_createfolder_request handle_move_request handle_viewfolder_request
forwarded_request s msg calls =
    if msg.operation == op_create
    then forward_create s msg (create_file s msg.filename calls.creates)
    else if msg.operation == op_delete
    then forward_delete s msg (delete_file s msg.filename calls.unlinks)
    else if msg.operation == op_get_metadata
    then (metadata_packet (get_file_metadata s msg.filename calls.opens), s)
    else if msg.operation == op_createfolder
    then handle_createfolder_request s msg calls
    else if msg.operation == op_move
    then handle_move_request s msg calls
    else if msg.operation == op_viewfolder
    then (handle_viewfolder_request s msg calls, s)
    else if msg.operation == op_read
    then (content_packet (read_file s msg.filename calls.opens max_content_len), s)
    else if msg.operation == op_replicate
    then replicate_packet s (create_file s msg.filename calls.creates)
    else (with_code err_not_implemented, s)
