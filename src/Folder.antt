-- ===== src/Folder.antt =====
-- storage_server/folder_manager.c and .h: folders below the storage directory.
pub mod Moves
pub mod Tests
use name_file_system_docs.Base.{
  ℕ, zero, suc, Bool, ◌||◌, not, Option, none, some, List, [], ◌∷◌, ◌++◌,
}
use name_file_system_docs.Base.Tests.{◌==◌, if◌then◌else◌}
use name_file_system_docs.Base.Lists.{length}
use name_file_system_docs.Base.Strings.{CString, same, copy_str}
use name_file_system_docs.Disk.{Disk, is_directory, is_regular, is_there, mkdir, rename}
use name_file_system_docs.Protocol.{
  err_conflict, err_created, err_not_found, err_server_error, err_success, max_filename_len,
  max_path_len,
}
use name_file_system_docs.Registry.Routing.{max_files}
use name_file_system_docs.Storage.{path_in}

abbrev pub max_files_per_folder : ℕ
max_files_per_folder = 100

-- `snprintf(path, sizeof(path), "%s/%s/%s", STORAGE_DIR, folder_name, filename)`
unfoldable pub path_below : CString → CString → CString → CString
path_below dir folder_name filename =
    copy_str max_path_len (dir ++ (b'/' ∷ (folder_name ++ (b'/' ∷ filename))))

unfoldable pub folder_create : CString → Disk → CString → Bool → ℕ × Disk
folder_create dir d folder_name makes =
    if is_directory (d (path_in dir folder_name))
    then (err_conflict, d)
    else elim (mkdir d (path_in dir folder_name) makes) [
      | none ↦ (err_server_error, d)
      | some e ↦ (err_created, e)
    ]

unfoldable pub folder_move_file : CString → Disk → CString → CString → Bool → ℕ × Disk
folder_move_file dir d filename folder_name renames =
    if not (is_directory (d (path_in dir folder_name)))
    then (err_not_found, d)
    else if not (is_regular (d (path_in dir filename)))
    then (err_not_found, d)
    else if is_there (d (path_below dir folder_name filename))
    then (err_conflict, d)
    else elim (rename d (path_in dir filename) (path_below dir folder_name filename) renames) [
      | none ↦ (err_server_error, d)
      | some e ↦ (err_success, e)
    ]

-- The loop of `folder_list_files` over what `readdir` gives; `room` is the free places of `files`.
unfoldable pub list_regular : Disk → CString → List CString → ℕ → List CString
list_regular d folder_path entries zero = []
list_regular d folder_path [] (suc room) = []
list_regular d folder_path (e ∷ entries) (suc room) =
    let rest = list_regular d folder_path entries (suc room) in
    let found = copy_str max_filename_len e ∷ list_regular d folder_path entries room in
    if same e (b'.' ∷ []) || same e (b'.' ∷ b'.' ∷ [])
    then rest
    else if is_regular (d (path_in folder_path e))
    then found
    else rest

-- The first `none` is a folder that does not open, the result -1.
unfoldable pub folder_list_files :
    CString → Disk → CString → Option (List CString) → ℕ → Option (List CString)
folder_list_files dir d folder_name none room = none
folder_list_files dir d folder_name (some entries) room =
    some (list_regular d (path_in dir folder_name) entries room)

unfoldable pub folder_exists : CString → Disk → CString → Bool
folder_exists dir d folder_name = is_directory (d (path_in dir folder_name))

unfoldable pub folder_get_file_path : CString → CString → CString → CString
folder_get_file_path dir folder_name filename =
    if length folder_name == 0 then path_in dir filename else path_below dir folder_name filename
