-- ===== src/Storage/Commit.antt =====
-- WRITE_COMMIT of storage_server.c: the new text of the file, and what a commit leaves
-- of the session.
use name_file_system_docs.Base.{
  ℕ, ◌≤◌, ◌≡◌, refl, ap, ◌∙◌, true, false, Option, none, some, List, arith,
}
use name_file_system_docs.Base.Tests.{if◌then◌else◌}
use name_file_system_docs.Base.Lists.{length}
use name_file_system_docs.Base.Strings.{CString, same, same_refl}
use name_file_system_docs.Parser.{parse_sentences, rebuild_file}
use name_file_system_docs.Session.{commit_sentences, new_sentence}
use name_file_system_docs.Session.Commit.{commit-spliced, spliced}
use name_file_system_docs.Storage.Reading.{Holds, read_there, visible}
use name_file_system_docs.Storage.Writing.{new_content, write_commit}
use name_file_system_docs.Disk.Laws.{rename_written}
use name_file_system_docs.Storage.Writing.{renamed}
use name_file_system_docs.Disk.{is_directory}
use name_file_system_docs.Lock.{lock_release}
use name_file_system_docs.Protocol.{max_content_len}
use name_file_system_docs.Storage.{Calls, Server, WriteSession, read_file}
use name_file_system_docs.Storage.Writing.{write_back}
use name_file_system_docs.Disk.{Disk, put, regular}
use name_file_system_docs.Storage.Writing.{temp_filepath}

-- Writing the temporary file and moving it, when all calls are granted.
abbrev pub stored : Disk → CString → CString → Disk
stored d path text =
    put (put (put d (temp_filepath path) (some (regular text))) (temp_filepath path) none) path
      (some (regular text))

module _ (d : Disk) (path : CString) (text : CString)
    (apart : same (temp_filepath path) path ≡ false) where
  pub stored_here : stored d path text path ≡ some (regular text)
  stored_here = rw (same_refl path)

  pub stored_away :
      (q : CString)
      → same path q ≡ false
      → stored d path text q ≡ (if same (temp_filepath path) q then none else d q)
  stored_away q away = rw away (ground arith)

-- What a session leaves behind that has committed: it is closed, its lock is given back, and the
-- undo buffer is as it was.
pub record IsFinished (s s' : Server) : Type 0 where
  pub inactive : s'.write_session.active ≡ false
  pub unlocked :
      s'.lock_table
      ≡ (lock_release s.lock_table
          (s.write_session.filename, s.write_session.sentence_num)
          s.write_session.client_id).1
  pub undo : s'.undo_table ≡ s.undo_table
  pub dir : s'.storage_dir ≡ s.storage_dir

pub renamed_written :
    (d : Disk) (path : CString) (text : CString)
    → same (temp_filepath path) path ≡ false
    → is_directory (d path) ≡ false
    → renamed (put d (temp_filepath path) (some (regular text))) (temp_filepath path) path true
      ≡ stored d path text
renamed_written d path text apart file =
    rw (rename_written d (temp_filepath path) path text apart file, renamed)

-- What a commit needs of the session: it is active, its sentence lies in the file or at its end, and
-- its words fit the buffer of the new sentence.
pub record IsReady (s : Server) (c : List ℕ) (sentence : CString) : Type 0 where
  pub active : s.write_session.active ≡ true
  pub there : Holds s s.write_session.filename c
  pub within : s.write_session.sentence_num ≤ length (parse_sentences (visible c))
  pub built : new_sentence s.write_session.words ≡ some sentence

-- The text that the session makes of the file.
abbrev pub edited : Server → List ℕ → CString → CString
edited s c sentence = spliced (parse_sentences (visible c)) s.write_session.sentence_num sentence

commit_step :
    (s : Server) (calls : Calls) (content text : CString)
    → s.write_session.active ≡ true
    → (read_file s s.write_session.filename calls.opens max_content_len).1 ≡ some content
    → new_content s.write_session content ≡ some text
    → write_commit s calls ≡ some (write_back s calls text)
unfolding write_commit
commit_step s calls content text active read made = simp (active, read, made, write_commit) refl

content_built :
    (w : WriteSession) (content sentence : CString) (after : List CString)
    → new_sentence w.words ≡ some sentence
    → commit_sentences (parse_sentences content) w.sentence_num sentence ≡ some after
    → new_content w content ≡ some (rebuild_file after)
unfolding new_content
content_built w content sentence after built committed = simp (built, committed, new_content) refl

module _ (s : Server) (calls : Calls) (c : List ℕ) (sentence : CString) where
  content_edited :
      IsReady s c sentence → new_content s.write_session (visible c) ≡ some (edited s c sentence)
  content_edited r =
      let (after, committed, text) =
        commit-spliced (parse_sentences (visible c)) s.write_session.sentence_num sentence
          r.within in
      content_built s.write_session (visible c) sentence after r.built committed ∙ ap some text

  pub commit_written :
      calls.opens ≡ true
      → IsReady s c sentence
      → write_commit s calls ≡ some (write_back s calls (edited s c sentence))
  commit_written opens r =
      commit_step s calls (visible c) (edited s c sentence) r.active
        (ap (λ (p : ℕ × Option CString). p.1)
          (read_there s s.write_session.filename c calls.opens max_content_len opens r.there))
        (content_edited r)
