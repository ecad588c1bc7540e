-- ===== src/Disk.antt =====
-- What the storage server uses of the C library's files: `stat`, `fopen` with `fread` or `fwrite`,
-- `rename`, `unlink` and `mkdir`. A disk is a map from paths to what stands there; two paths are one
-- place if they are the same string, so that links and `..` are left out. Each call takes whether
-- the system grants it: permissions, open files, a missing parent directory. A granted write writes
-- all its bytes.
pub mod Laws
use name_file_system_docs.Base.{
  ℕ, ◌-◌, Bool, true, false, ◌||◌, not, Option, none, some, List, [], ◌∷◌,
}
use name_file_system_docs.Base.Tests.{◌==◌, if◌then◌else◌}
use name_file_system_docs.Base.Lists.{take}
use name_file_system_docs.Base.Strings.{CString, same}

-- A directory, or a regular file with its bytes.
pub data Node : Type 0 where
  regular : List ℕ → Node
  directory : Node

abbrev pub Disk : Type 0
Disk = CString → Option Node

abbrev pub put : Disk → CString → Option Node → Disk
put d path node other = if same path other then node else d other

-- `stat(path, &st) == 0`
abbrev pub is_there : Option Node → Bool
is_there none = false
is_there (some n) = true

-- `S_ISREG(st.st_mode)` after a `stat` that succeeds.
abbrev pub is_regular : Option Node → Bool
is_regular (some (regular c)) = true
is_regular _ = false

-- `S_ISDIR(st.st_mode)` after a `stat` that succeeds.
abbrev pub is_directory : Option Node → Bool
is_directory (some directory) = true
is_directory _ = false

-- The bytes that reads of an opened file give. A directory opens for reading, and gives none.
abbrev pub bytes_of : Node → List ℕ
bytes_of (regular c) = c
bytes_of directory = []

abbrev pub bytes_at : Option Node → Option (List ℕ)
bytes_at none = none
bytes_at (some n) = some (bytes_of n)

-- `fopen(path, "r")`, with the bytes to be read; `none` is a null pointer.
unfoldable pub open_read : Disk → CString → Bool → Option (List ℕ)
open_read d path granted = if granted then bytes_at (d path) else none

-- `fopen(path, "w")`, `fwrite` of the bytes, `fclose`; `none` is a null pointer.
unfoldable pub write_file : Disk → CString → Bool → List ℕ → Option Disk
write_file d path granted bytes =
    if not granted || is_directory (d path) then none else some (put d path (some (regular bytes)))

-- `rename` of a regular file; `none` is an error.
unfoldable pub rename : Disk → CString → CString → Bool → Option Disk
rename d old new granted =
    if not granted || not (is_regular (d old)) || is_directory (d new)
    then none
    else some (put (put d old none) new (d old))

-- `unlink`; `none` is an error.
unfoldable pub unlink : Disk → CString → Bool → Option Disk
unlink d path granted =
    if not granted || not (is_regular (d path)) then none else some (put d path none)

-- `mkdir`; `none` is an error.
unfoldable pub mkdir : Disk → CString → Bool → Option Disk
mkdir d path granted =
    if not granted || is_there (d path) then none else some (put d path (some directory))

-- A buffer that was filled and ended by a zero, as a C string.
unfoldable pub upto_nul : List ℕ → CString
upto_nul [] = []
upto_nul (c ∷ s) = if c == 0 then [] else c ∷ upto_nul s

-- `fread(buffer, 1, buffer_size - 1, fp)`, `buffer[bytes_read] = '\0'`: the buffer as a string.
unfoldable pub fread_string : ℕ → List ℕ → CString
fread_string buffer_size bytes = upto_nul (take (buffer_size - 1) bytes)
