-- ===== src/Storage.antt =====
-- storage_server/storage_server.c: the state of a storage server and its operations on files. What a
-- library call is granted is an argument, and a log entry leaves no trace.
pub mod Writing
pub mod Reading
pub mod Commit
pub mod Atomic
pub mod Start
pub mod Requests
pub mod Session
pub mod Undoing
pub mod Searching
pub mod Forwarded
pub mod Connection
pub mod Kept
pub mod Sessions
pub mod Abandoned
pub mod Moved
pub mod Tests
use name_file_system_docs.Base.{
  ℕ, zero, suc, ◌+◌, Bool, false, ◌||◌, not, Option, none, some, List, [], ◌∷◌, ◌++◌,
}
use name_file_system_docs.Base.Tests.{leb, ◌==◌, if◌then◌else◌}
use name_file_system_docs.Base.Lists.{length}
use name_file_system_docs.Base.Strings.{CString, same, copy_str}
use name_file_system_docs.Disk.{
  Disk, fread_string, is_regular, is_there, open_read, unlink, write_file,
}
use name_file_system_docs.Index.{InvertedIndex}
use name_file_system_docs.Lock.{LockTable}
use name_file_system_docs.Protocol.{
  err_conflict, err_created, err_not_found, err_server_error, err_success, max_content_len,
  max_filename_len, max_path_len,
}
use name_file_system_docs.Undo.{UndoTable}

-- `struct WriteSession`; `word_count` is the length of `words`.
pub record WriteSession : Type 0 where
  pub filename : CString
  pub sentence_num : ℕ
  pub client_id : CString
  pub words : List CString
  pub active : Bool

-- The globals of the server, with the disk that it works on.
pub record Server : Type 0 where
  pub storage_dir : CString
  pub disk : Disk
  pub lock_table : LockTable
  pub undo_table : UndoTable
  pub search_index : InvertedIndex
  pub write_session : WriteSession

-- The fields of `Message` that the storage server reads. Numbers are bit patterns of their `int`.
pub record Message : Type 0 where
  pub operation : ℕ
  pub sender_id : CString
  pub filename : CString
  pub sentence_num : ℕ
  pub word_index : ℕ
  pub content : CString
  pub folder_name : CString
  pub checkpoint_tag : CString

-- What the calls of the library come to during one handler: the clock, whether a file opens for
-- reading, for writing, and again for reading, whether `rename`, `unlink` and `mkdir` are granted,
-- whether the two allocations of the undo buffer succeed, whether the n-th word of a stream is sent,
-- and what `readdir` gives of a directory, in its order, `none` if it does not open.
pub record Calls : Type 0 where
  pub now : ℕ
  pub opens : Bool
  pub creates : Bool
  pub reopens : Bool
  pub renames : Bool
  pub unlinks : Bool
  pub makes : Bool
  pub node_alloc : Bool
  pub content_alloc : Bool
  pub sends : ℕ → Bool
  pub entries : Option (List CString)

-- `snprintf(path, MAX_PATH_LEN, "%s/%s", dir, name)`
unfoldable pub path_in : CString → CString → CString
path_in dir name = copy_str max_path_len (dir ++ (b'/' ∷ name))

abbrev pub get_file_path : Server → CString → CString
get_file_path s filename = path_in s.storage_dir filename

abbrev pub file_exists : Server → CString → Bool
file_exists s filename = is_there (s.disk (get_file_path s filename))

unfoldable pub create_file : Server → CString → Bool → ℕ × Disk
create_file s filename creates =
    if file_exists s filename
    then (err_conflict, s.disk)
    else elim (write_file s.disk (get_file_path s filename) creates []) [
      | none ↦ (err_server_error, s.disk)
      | some d ↦ (err_created, d)
    ]

-- The code, and what is in the buffer; `none` for a buffer that is left as it was.
unfoldable pub read_file : Server → CString → Bool → ℕ → ℕ × Option CString
read_file s filename opens buffer_size =
    if not (file_exists s filename)
    then (err_not_found, none)
    else elim (open_read s.disk (get_file_path s filename) opens) [
      | none ↦ (err_server_error, none)
      | some bytes ↦ (err_success, some (fread_string buffer_size bytes))
    ]

unfoldable pub delete_file : Server → CString → Bool → ℕ × Disk
delete_file s filename unlinks =
    if not (file_exists s filename)
    then (err_not_found, s.disk)
    else elim (unlink s.disk (get_file_path s filename) unlinks) [
      | none ↦ (err_server_error, s.disk)
      | some d ↦ (err_success, d)
    ]

-- `c == ' ' || c == '\t' || c == '\n' || c == '\r'`
unfoldable pub is_blank : ℕ → Bool
is_blank c = c == b' ' || c == 9 || c == 10 || c == 13

-- The loop of `get_file_metadata`: `word_count` and `char_count`.
unfoldable pub count_from : Bool → ℕ → ℕ → List ℕ → ℕ × ℕ
count_from in_word words chars [] = (words, chars)
count_from in_word words chars (c ∷ s) =
    count_from (not (is_blank c)) (if is_blank c || in_word then words else words + 1) (chars + 1) s

-- The size, the words and the characters of `metadata_str`; its times are the system's.
unfoldable pub get_file_metadata : Server → CString → Bool → ℕ × Option (ℕ × ℕ × ℕ)
get_file_metadata s filename opens =
    if not (file_exists s filename)
    then (err_not_found, none)
    else elim (open_read s.disk (get_file_path s filename) opens) [
      | none ↦ (err_server_error, none)
      | some bytes ↦
          let counts = count_from false 0 0 bytes in
          (err_success, some (length bytes, counts.0, counts.1))
    ]

-- The loop of `scan_storage_files` over what `readdir` gives, `room` the free places of `files`.
unfoldable pub scan_storage_files : Server → List CString → ℕ → List CString
scan_storage_files s entries zero = []
scan_storage_files s [] (suc room) = []
scan_storage_files s (e ∷ entries) (suc room) =
    let found = copy_str max_filename_len e ∷ scan_storage_files s entries room in
    let rest = scan_storage_files s entries (suc room) in
    if same e (b'.' ∷ []) || same e (b'.' ∷ b'.' ∷ [])
    then rest
    else if is_regular (s.disk (path_in s.storage_dir e))
    then found
    else rest

-- The loop of `register_with_nameserver`: names with a bar behind each, while they fit. A name that
-- does not fit is cut off again with the last bar.
unfoldable pub serialize_from : CString → List CString → CString
serialize_from file_list [] = file_list
serialize_from file_list (f ∷ fs) =
    if leb max_content_len (length file_list + (length f + 1))
    then file_list
    else serialize_from (file_list ++ (f ++ (b'|' ∷ []))) fs

-- The trailing delimiter is removed.
unfoldable pub without_bar : CString → CString
without_bar [] = []
without_bar (c ∷ []) = if c == b'|' then [] else c ∷ []
without_bar (c ∷ d ∷ s) = c ∷ without_bar (d ∷ s)

-- `content` of the registration message.
unfoldable pub registration_content : List CString → CString
registration_content files = without_bar (serialize_from [] files)
