-- ===== src/Checkpoint.antt =====
-- storage_server/checkpoint_manager.c and .h: named copies of a file, below the storage directory. The
-- directory and the disk are arguments; each function returns the disk. A copy is made in pieces of
-- 4096 bytes until none is left, which comes to all the bytes.
pub mod Copies
pub mod Listing
pub mod Tests
use name_file_system_docs.Base.{
  ℕ, zero, suc, Bool, true, false, ◌&&◌, ◌||◌, not, Option, none, some, List, [], ◌∷◌, ◌++◌,
}
use name_file_system_docs.Base.Tests.{ltb, ◌==◌, if◌then◌else◌}
use name_file_system_docs.Base.Lists.{length}
use name_file_system_docs.Base.Strings.{CString, same, copy_str}
use name_file_system_docs.Disk.{Disk, fread_string, is_there, mkdir, open_read, write_file}
use name_file_system_docs.Protocol.{
  err_conflict, err_created, err_not_found, err_server_error, err_success, max_path_len,
}
use name_file_system_docs.Storage.{Calls, path_in}

abbrev pub max_checkpoints : ℕ
max_checkpoints = 50

abbrev pub max_tag_len : ℕ
max_tag_len = 64

-- ".checkpoints"
abbrev pub checkpoint_dir : CString
checkpoint_dir =
    b'.' ∷ b'c' ∷ b'h' ∷ b'e' ∷ b'c' ∷ b'k' ∷ b'p' ∷ b'o' ∷ b'i' ∷ b'n' ∷ b't' ∷ b's' ∷ []

-- ".checkpoint"
abbrev pub extension : CString
extension = b'.' ∷ b'c' ∷ b'h' ∷ b'e' ∷ b'c' ∷ b'k' ∷ b'p' ∷ b'o' ∷ b'i' ∷ b'n' ∷ b't' ∷ []

unfoldable pub checkpoint_init : CString → Disk → Bool → Disk
checkpoint_init dir d makes =
    if is_there (d (path_in dir checkpoint_dir))
    then d
    else elim (mkdir d (path_in dir checkpoint_dir) makes) [ none ↦ d | some e ↦ e ]

unfoldable pub get_checkpoint_dir : CString → CString → CString
get_checkpoint_dir dir filename =
    copy_str max_path_len (dir ++ (b'/' ∷ (checkpoint_dir ++ (b'/' ∷ filename))))

unfoldable pub get_checkpoint_path : CString → CString → CString → CString
get_checkpoint_path dir filename tag =
    copy_str max_path_len (get_checkpoint_dir dir filename ++ (b'/' ∷ (tag ++ extension)))

-- Copying a file: ERR_SERVER_ERROR if one of the two does not open, in which case the disk is as it
-- was, else the code.
unfoldable pub copy_file : Disk → CString → CString → Calls → ℕ → ℕ × Disk
copy_file d src dest calls code = elim (open_read d src calls.opens) [
  | none ↦ (err_server_error, d)
  | some bytes ↦ elim (write_file d dest calls.creates bytes) [
    | none ↦ (err_server_error, d)
    | some e ↦ (code, e)
  ]
]

-- The directory of the file's checkpoints; `none` is a failure to make it.
unfoldable pub made_dir : CString → Disk → CString → Bool → Option Disk
made_dir dir d filename makes =
    if is_there (d (get_checkpoint_dir dir filename))
    then some d
    else mkdir d (get_checkpoint_dir dir filename) makes

unfoldable pub checkpoint_create : CString → Disk → CString → CString → Calls → ℕ × Disk
checkpoint_create dir d filename tag calls =
    if not (is_there (d (path_in dir filename)))
    then (err_not_found, d)
    else elim (made_dir dir d filename calls.makes) [
      | none ↦ (err_server_error, d)
      | some e ↦
          if is_there (e (get_checkpoint_path dir filename tag))
          then (err_conflict, e)
          else copy_file e (path_in dir filename) (get_checkpoint_path dir filename tag) calls
              err_created
    ]

-- The code, and what is in the buffer.
unfoldable pub checkpoint_view : CString → Disk → CString → CString → Bool → ℕ → ℕ × Option CString
checkpoint_view dir d filename tag opens content_size =
    if not (is_there (d (get_checkpoint_path dir filename tag)))
    then (err_not_found, none)
    else elim (open_read d (get_checkpoint_path dir filename tag) opens) [
      | none ↦ (err_server_error, none)
      | some bytes ↦ (err_success, some (fread_string content_size bytes))
    ]

unfoldable pub checkpoint_revert : CString → Disk → CString → CString → Calls → ℕ × Disk
checkpoint_revert dir d filename tag calls =
    if not (is_there (d (get_checkpoint_path dir filename tag)))
    then (err_not_found, d)
    else copy_file d (get_checkpoint_path dir filename tag) (path_in dir filename) calls err_success

-- `strncmp(ext, s, 11) == 0`: the text starts with `ext`.
unfoldable pub starts_with : CString → CString → Bool
starts_with [] s = true
starts_with (x ∷ ext) [] = false
starts_with (x ∷ ext) (c ∷ s) = (x == c) && starts_with ext s

-- `strstr(s, ".checkpoint")`: the text in front of the first occurrence, and from it on.
unfoldable pub strstr : CString → CString → Option (CString × CString)
strstr ext [] = if starts_with ext [] then some ([], []) else none
strstr ext (c ∷ s) =
    let later = strstr ext s in
    if starts_with ext (c ∷ s)
    then some ([], c ∷ s)
    else elim later [ none ↦ none | some (front, at) ↦ some (c ∷ front, at) ]

-- The tag that a directory entry stands for: the extension is its end, and the tag fits.
unfoldable pub tag_of : CString → Option CString
tag_of entry = elim (strstr extension entry) [
  | none ↦ none
  | some (tag, at) ↦ if same at extension && ltb (length tag) max_tag_len then some tag else none
]

-- The loop of `checkpoint_list` over what `readdir` gives; `room` is the free places of `tags`. The
-- entries `.` and `..` have no extension.
unfoldable pub list_tags : List CString → ℕ → List CString
list_tags entries zero = []
list_tags [] (suc room) = []
list_tags (e ∷ entries) (suc room) =
    let rest = list_tags entries (suc room) in
    let more = list_tags entries room in
    if same e (b'.' ∷ []) || same e (b'.' ∷ b'.' ∷ [])
    then rest
    else elim (tag_of e) [ none ↦ rest | some tag ↦ tag ∷ more ]

-- `none` is a directory that does not open.
unfoldable pub checkpoint_list : Option (List CString) → ℕ → List CString
checkpoint_list none max_tags = []
checkpoint_list (some entries) max_tags = list_tags entries max_tags

unfoldable pub checkpoint_exists : CString → Disk → CString → CString → Bool
checkpoint_exists dir d filename tag = is_there (d (get_checkpoint_path dir filename tag))
