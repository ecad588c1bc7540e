-- ===== src/Storage/Atomic.antt =====
-- WRITE_COMMIT of storage_server.c when the temporary file cannot be made, or not be moved.
use name_file_system_docs.Base.{
  ℕ, ◌≡◌, refl, ap, ◌∙◌, inl, inr, Bool, true, false, ◌&&◌, some, List,
}
use name_file_system_docs.Base.Tests.{if◌then◌else◌, Bool-cases}
use name_file_system_docs.Base.Strings.{CString, same}
use name_file_system_docs.Disk.{Disk, is_directory, put, regular, rename, write_file}
use name_file_system_docs.Protocol.{err_server_error, err_success}
use name_file_system_docs.Storage.{Calls, Server, get_file_path}
use name_file_system_docs.Storage.Commit.{
  IsFinished, IsReady, commit_written, edited, renamed_written, stored_away, stored_here,
}
use name_file_system_docs.Storage.Writing.{
  close_session, index_again, renamed, temp_filepath, write_back, write_commit,
}

-- What `rename` of the temporary file leaves, granted or not.
abbrev pub moved : Disk → CString → CString → Bool → Disk
moved d path text granted =
    renamed (put d (temp_filepath path) (some (regular text))) (temp_filepath path) path granted

module _ (d : Disk) (path : CString) (text : CString)
    (apart : same (temp_filepath path) path ≡ false) (file : is_directory (d path) ≡ false) where
  pub moved_here :
      (granted : Bool)
      → moved d path text granted path ≡ (if granted then some (regular text) else d path)
  unfolding rename
  moved_here true =
      ap (λ (e : Disk). e path) (renamed_written d path text apart file)
      ∙ stored_here d path text apart
  moved_here false = rw apart

  moved_away :
      (granted : Bool) (q : CString)
      → same path q ≡ false
      → same (temp_filepath path) q ≡ false
      → moved d path text granted q ≡ d q
  unfolding rename
  moved_away true q away other =
      ap (λ (e : Disk). e q) (renamed_written d path text apart file)
      ∙ stored_away d path text apart q away
      ∙ rw other
  moved_away false q away other = rw other

module _ (s : Server) (calls : Calls) (text : CString) where
  abbrev pub path_of : CString
  path_of = get_file_path s s.write_session.filename

  write_back_refused :
      calls.creates ≡ false → write_back s calls text ≡ (err_server_error, close_session s)
  unfolding write_back write_file
  write_back_refused h = simp (h, write_back) refl

  -- The server once the temporary file is made.
  abbrev pub after_move : Server
  after_move =
      index_again (close_session (record s { disk = moved s.disk path_of text calls.renames }))
        s.write_session.filename calls.reopens

  pub write_back_made :
      calls.creates ≡ true
      → is_directory (s.disk (temp_filepath path_of)) ≡ false
      → write_back s calls text ≡ (err_success, after_move)
  unfolding write_back write_file
  write_back_made h free = simp (h, free, write_back) refl

-- All or nothing. A commit of an active session on a file that can be read always answers: with
-- ERR_SERVER_ERROR if the temporary file cannot be made, else with ERR_SUCCESS. The file then is what
-- it was, byte for byte, or its text with the session's sentence replaced, the latter exactly if the
-- temporary file is made and moved. The text is what the handlers read of the file, its first 4095
-- bytes up to a zero, so that of a longer file what stands behind is lost by the edit. Every file but it and the temporary one is what it was; the
-- session is closed and its lock given back. The sentence number lies in the file or at its end, and
-- the words fit the buffer; neither file is a directory, and they have different paths.
pub commit_all_or_nothing :
    (s : Server) (calls : Calls) (c : List ℕ) (sentence : CString)
    → let path = get_file_path s s.write_session.filename in
      calls.opens ≡ true
      → IsReady s c sentence
      → is_directory (s.disk (temp_filepath path)) ≡ false
      → same (temp_filepath path) path ≡ false
      → (s' : Server) × (write_commit s calls
          ≡ some (if calls.creates then err_success else err_server_error, s'))
        × (s'.disk path ≡ (
            if calls.creates && calls.renames
            then some (regular (edited s c sentence))
            else some (regular c)))
        × ((q : CString)
            → same path q ≡ false
            → same (temp_filepath path) q ≡ false
            → s'.disk q ≡ s.disk q)
        × IsFinished s s'
commit_all_or_nothing s calls c sentence opens r free apart =
    let path = get_file_path s s.write_session.filename in
    let text = edited s c sentence in
    let file : is_directory (s.disk path) ≡ false = rw r.there in
    let written = commit_written s calls c sentence opens r in
    elim (Bool-cases calls.creates) [
      | inr refused ↦ (
        close_session s,
        written ∙ ap some (write_back_refused s calls text refused) ∙ simp refused refl,
        r.there ∙ simp refused refl,
        λ q away other. refl,
        record { inactive = refl; unlocked = refl; undo = refl; dir = refl },
      )
      | inl made ↦ (
        after_move s calls text,
        written ∙ ap some (write_back_made s calls text made free) ∙ simp made refl,
        moved_here s.disk path text apart file calls.renames ∙ simp (made, r.there) refl,
        moved_away s.disk path text apart file calls.renames,
        record { inactive = refl; unlocked = refl; undo = refl; dir = refl },
      )
    ]
