-- ===== src/Folder/Tests.antt =====
-- A move of a small file, and the theorems about it there.
use name_file_system_docs.Base.{◌≡◌, refl, none, some, [], ◌∷◌}
use name_file_system_docs.Base.Tests.{if◌then◌else◌}
use name_file_system_docs.Base.Strings.{CString, same}
use name_file_system_docs.Disk.{Disk, directory, regular}
use name_file_system_docs.Folder.{path_below}
use name_file_system_docs.Storage.{path_in}

abbrev dir : CString
dir = b'd' ∷ []

abbrev file : CString
file = b'a' ∷ []

abbrev folder : CString
folder = b'f' ∷ []

-- The file "d/a" and the folder "d/f".
abbrev disk : Disk
disk path =
    if same (b'd' ∷ b'/' ∷ b'a' ∷ []) path
    then some (regular (1 ∷ []))
    else if same (b'd' ∷ b'/' ∷ b'f' ∷ []) path
    then some directory
    else none

facts :
    (disk (path_in dir folder) ≡ some directory)
    × (disk (path_in dir file) ≡ some (regular (1 ∷ [])))
    × (disk (path_below dir folder file) ≡ none)
unfolding path_in path_below same
facts = (refl, refl, refl)
