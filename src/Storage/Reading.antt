-- ===== src/Storage/Reading.antt =====
-- `read_file` of storage_server.c on a file that is there, and on one that is not.
use name_file_system_docs.Base.{ℕ, ◌≡◌, Bool, true, none, some, List}
use name_file_system_docs.Base.Strings.{CString}
use name_file_system_docs.Protocol.{err_not_found, err_success, max_content_len}
use name_file_system_docs.Storage.{Server, file_exists, get_file_path, read_file}
use name_file_system_docs.Disk.{regular, open_read, fread_string}

-- What a server sees of a file: the bytes before the first zero, of the first 4095.
abbrev pub visible : List ℕ → CString
visible c = fread_string max_content_len c

-- The file `f` of the server holds the bytes `c`.
abbrev pub Holds : Server → CString → List ℕ → Type 0
Holds s f c = s.disk (get_file_path s f) ≡ some (regular c)

pub exists_there : (s : Server) (f : CString) (c : List ℕ) → Holds s f c → file_exists s f ≡ true
exists_there s f c h = rw h

pub read_there :
    (s : Server) (f : CString) (c : List ℕ) (opens : Bool) (n : ℕ)
    → opens ≡ true
    → Holds s f c
    → read_file s f opens n ≡ (err_success, some (fread_string n c))
unfolding read_file open_read
read_there s f c opens n granted h = rw (h, granted)

pub read_absent :
    (s : Server) (f : CString) (opens : Bool) (n : ℕ)
    → s.disk (get_file_path s f) ≡ none
    → read_file s f opens n ≡ (err_not_found, none)
unfolding read_file
read_absent s f opens n absent = rw absent
