-- ===== src/Checkpoint/Tests.antt =====
-- Checkpoints of a small file, and the theorems about them there.
use name_file_system_docs.Base.{ℕ, ◌≡◌, refl, true, false, none, some, List, [], ◌∷◌, ◌++◌}
use name_file_system_docs.Base.Tests.{ltb, if◌then◌else◌}
use name_file_system_docs.Base.Lists.{length}
use name_file_system_docs.Base.Strings.{CString, same}
use name_file_system_docs.Checkpoint.{
  checkpoint_create, checkpoint_revert, extension, get_checkpoint_dir, get_checkpoint_path,
  list_tags, made_dir, max_tag_len, starts_with, strstr, tag_of,
}
use name_file_system_docs.Checkpoint.Copies.{create_revert}
use name_file_system_docs.Checkpoint.Listing.{tag_of-entry}
use name_file_system_docs.Disk.{Disk, directory, is_directory, is_there, mkdir, put, regular}
use name_file_system_docs.Protocol.{err_created, err_success}
use name_file_system_docs.Storage.{Calls, path_in}

abbrev dir : CString
dir = b'd' ∷ []

abbrev file : CString
file = b'a' ∷ []

abbrev tag : CString
tag = b'v' ∷ b'1' ∷ []

abbrev bytes : List ℕ
bytes = 1 ∷ 2 ∷ []

-- "d/a" alone.
abbrev disk : Disk
disk path = if same (b'd' ∷ b'/' ∷ b'a' ∷ []) path then some (regular bytes) else none

abbrev granted : Calls
granted = record {
  now = 5;
  opens = true;
  creates = true;
  reopens = true;
  renames = true;
  unlinks = true;
  makes = true;
  node_alloc = true;
  content_alloc = true;
  sends = λ _. true;
  entries = some [];
}

abbrev with_dir : Disk
with_dir = put disk (get_checkpoint_dir dir file) (some directory)

facts :
    (disk (path_in dir file) ≡ some (regular bytes))
    × (made_dir dir disk file true ≡ some with_dir)
    × (is_there (with_dir (get_checkpoint_path dir file tag)) ≡ false)
unfolding path_in same made_dir mkdir get_checkpoint_dir get_checkpoint_path
facts = (refl, refl, refl)

create_revert_example :
    (d' : Disk) × (checkpoint_create dir disk file tag granted ≡ (err_created, d'))
    × ((later : Disk)
        → later (get_checkpoint_path dir file tag) ≡ d' (get_checkpoint_path dir file tag)
        → is_directory (later (path_in dir file)) ≡ false
        → checkpoint_revert dir later file tag granted
          ≡ (err_success, put later (path_in dir file) (some (regular bytes))))
create_revert_example =
    create_revert dir disk file tag granted granted bytes with_dir facts.0 facts.1 facts.2 refl refl
      refl refl

tag_of-entry_example : tag_of (tag ++ extension) ≡ (elim (strstr extension tag) [
  | none ↦ if ltb (length tag) max_tag_len then some tag else none
  | some found ↦ none
])
tag_of-entry_example = tag_of-entry tag

-- "x.checkpoint" is a tag that is passed over.
passed_over : tag_of ((b'x' ∷ extension) ++ extension) ≡ none
unfolding tag_of strstr starts_with same
passed_over = refl

listed : list_tags ((b'.' ∷ []) ∷ (tag ++ extension) ∷ []) 50 ≡ tag ∷ []
unfolding list_tags tag_of strstr starts_with same
listed = refl
