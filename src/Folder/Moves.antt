-- ===== src/Folder/Moves.antt =====
-- folder_manager.c: what a move does to the disk, and what no folder operation does.
use name_file_system_docs.Base.{
  ℕ, ◌≡◌, refl, ap, ◌≢◌, inl, inr, Bool, true, false, none, some, List, arith,
}
use name_file_system_docs.Base.Tests.{Bool-cases}
use name_file_system_docs.Base.Strings.{CString, same, same_refl, eq_of_same}
use name_file_system_docs.Disk.{Disk, Node, directory, put, regular, rename}
use name_file_system_docs.Disk.Laws.{put_here}
use name_file_system_docs.Folder.{folder_move_file, path_below}
use name_file_system_docs.Protocol.{err_success}
use name_file_system_docs.Storage.{path_in}

module _ (dir : CString) (d : Disk) (f folder : CString) where
  abbrev src : CString
  src = path_in dir f

  abbrev dest : CString
  dest = path_below dir folder f

  -- A move of a file that is there into a folder that is there and has none of that name: the file
  -- stands in the folder with its bytes, and no longer in its old place, and every other path is
  -- as it was. The call of `rename` is granted.
  pub move_moves :
      (c : List ℕ)
      → d (path_in dir folder) ≡ some directory
      → d src ≡ some (regular c)
      → d dest ≡ none
      → (d' : Disk) × (folder_move_file dir d f folder true ≡ (err_success, d'))
        × (d' dest ≡ some (regular c))
        × (d' src ≡ none)
        × ((q : CString) → same src q ≡ false → same dest q ≡ false → d' q ≡ d q)
  unfolding folder_move_file rename
  move_moves c inside there free =
      let apart : same dest src ≡ false = elim (Bool-cases (same dest src)) [
        | inr apart ↦ apart
        | inl equal ↦ let same_node = ap d (eq_of_same dest src equal) in absurd (cc)
      ] in
      (
        put (put d src none) dest (some (regular c)),
        simp (inside, there, free, folder_move_file) refl,
        put_here (put d src none) dest (some (regular c)),
        rw (apart, same_refl src),
        λ q other away. rw (away, other),
      )

  -- A move that is refused, for whatever reason, changes nothing; and no move overwrites: of the
  -- paths but the file's own, each that was there is there with what it held.
  pub move_keeps :
      (renames : Bool)
      → ((folder_move_file dir d f folder renames).0 ≢ err_success
          → (folder_move_file dir d f folder renames).1 ≡ d)
        × ((q : CString) (n : Node)
            → same src q ≡ false
            → d q ≡ some n
            → (folder_move_file dir d f folder renames).1 q ≡ some n)
  unfolding folder_move_file rename
  move_keeps renames = (λ bad. ground arith, λ q n away there. ground (arith, eq_of_same dest q))
