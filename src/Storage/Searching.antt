-- ===== src/Storage/Searching.antt =====
-- WRITE_COMMIT and the search index of storage_server.c: what a commit stores can be searched for.
use name_file_system_docs.Base.{
  ℕ, ◌≤◌, ◌<◌, ◌≡◌, refl, sym, ap, ◌∙◌, subst, true, false, Option, none, some, List,
}
use name_file_system_docs.Base.Tests.{◌==◌, if◌then◌else◌}
use name_file_system_docs.Base.Lists.{length}
use name_file_system_docs.Base.Strings.{CString, same}
use name_file_system_docs.Disk.{is_directory}
use name_file_system_docs.Index.{InvertedIndex, has_file, index_file, to_lowercase}
use name_file_system_docs.Index.Entries.{files_of}
use name_file_system_docs.Index.Search.{content_words, finds, finds-index_file, listing_fits}
use name_file_system_docs.Index.Words.{is_word}
use name_file_system_docs.Protocol.{err_success, max_content_len}
use name_file_system_docs.Storage.{Calls, Server, get_file_path}
use name_file_system_docs.Storage.Atomic.{after_move, moved, moved_here, path_of, write_back_made}
use name_file_system_docs.Storage.Commit.{IsReady, commit_written, edited}
use name_file_system_docs.Storage.Reading.{read_there, visible}
use name_file_system_docs.Storage.Writing.{close_session, temp_filepath, write_commit}
use name_file_system_docs.Index.Entries as Index

module _ (s : Server) (calls : Calls) (c : List ℕ) (sentence : CString) where
  -- The text that the index is given.
  abbrev indexed_text : CString
  indexed_text = visible (edited s c sentence)

  committed_index :
      calls.renames ≡ true
      → calls.reopens ≡ true
      → same
          (temp_filepath (get_file_path s s.write_session.filename))
          (get_file_path s s.write_session.filename)
        ≡ false
      → is_directory (s.disk (get_file_path s s.write_session.filename)) ≡ false
      → (after_move s calls (edited s c sentence)).search_index
        ≡ (index_file s.search_index s.write_session.filename indexed_text).1
  committed_index renames reopens apart file =
      let text = edited s c sentence in
      let at =
        close_session
          (record s { disk = moved s.disk (path_of s calls text) text calls.renames }) in
      let read = read_there at s.write_session.filename text calls.reopens max_content_len reopens (
        moved_here s.disk (path_of s calls text) text apart file calls.renames
        ∙ simp renames refl) in
      ap
        (λ (r : ℕ × Option CString). elim r.1 [
          | none ↦ s.search_index
          | some content ↦ (index_file s.search_index s.write_session.filename content).1
        ])
        read

  -- What is committed is found. After a commit that stores and reads back its text, a search for a
  -- word, in upper or lower case, lists the file exactly if the word is among those of the first
  -- 4095 bytes of its new text, and any other file exactly if the index had it for the word before;
  -- but if the names for the word need more than 4095 bytes, the search overflows its buffer. The
  -- session is ready, its new text is not empty, no word is in 50 files already, the index is well
  -- formed, the name has at most 254 bytes, and the two paths differ and are no directories.
  pub commit_found :
      (word g : CString)
      → let path = get_file_path s s.write_session.filename in
        calls.opens ≡ true
        → calls.creates ≡ true
        → calls.renames ≡ true
        → calls.reopens ≡ true
        → IsReady s c sentence
        → is_directory (s.disk (temp_filepath path)) ≡ false
        → same (temp_filepath path) path ≡ false
        → length s.write_session.filename ≤ 254
        → (length indexed_text == 0) ≡ false
        → ((w : CString) → length (Index.files_of s.search_index w) < 50)
        → Index.IsValid s.search_index
        → (s' : Server) × (write_commit s calls ≡ some (err_success, s'))
          × Index.IsValid s'.search_index
          × (finds s'.search_index word g ≡ (
              if listing_fits (Index.files_of s'.search_index (to_lowercase word))
              then some (
                  if same s.write_session.filename g
                  then is_word (content_words indexed_text) (to_lowercase word)
                  else has_file (Index.files_of s.search_index (to_lowercase word)) g)
              else none))
  commit_found word g opens creates renames reopens r free apart fits some_text few valid =
      let text = edited s c sentence in
      let at = committed_index renames reopens apart (rw r.there) in
      let (good, shown, count) =
        finds-index_file s.search_index s.write_session.filename indexed_text word g fits some_text
          few valid in
      (
        after_move s calls text,
        commit_written s calls c sentence opens r
            ∙ ap some (write_back_made s calls text creates free),
        subst Index.IsValid (sym at) good,
        subst
            (λ (i : InvertedIndex). finds i word g ≡ (
              if listing_fits (Index.files_of i (to_lowercase word))
              then some (
                  if same s.write_session.filename g
                  then is_word (content_words indexed_text) (to_lowercase word)
                  else has_file (Index.files_of s.search_index (to_lowercase word)) g)
              else none))
            (sym at) shown,
      )
