-- ===== src/Storage/Session.antt =====
-- A whole write session of storage_server.c: WRITE_START, WRITE_UPDATEs, WRITE_COMMIT, and an UNDO.
use name_file_system_docs.Base.{
  ℕ, ◌≤◌, ◌≡◌, refl, sym, ap, ◌∙◌, subst, inl, inr, true, false, Option, none, some, List, [], ◌∷◌,
}
use name_file_system_docs.Base.Tests.{Option-cases}
use name_file_system_docs.Base.Lists.{length, take_all}
use name_file_system_docs.Base.Strings.{CString, same, same_refl}
use name_file_system_docs.Lock.{LockKey, LockTable, lock_keys, same_key}
use name_file_system_docs.Session.Commit.{spliced}
use name_file_system_docs.Storage.Atomic.{commit_all_or_nothing}
use name_file_system_docs.Table.Chain.{lookup}
use name_file_system_docs.Table.Valid.{IsTable}
use name_file_system_docs.Undo.{UndoTable, saved}
use name_file_system_docs.Undo.Spec.{view}
use name_file_system_docs.Disk.{is_directory}
use name_file_system_docs.Lock.Frame.{Fits}
use name_file_system_docs.Parser.{parse_sentences}
use name_file_system_docs.Storage.Reading.{Holds, visible}
use name_file_system_docs.Storage.Start.{IsFree, start_opens, start_words, taken, taken_back}
use name_file_system_docs.Parser.Words.{words}
use name_file_system_docs.Protocol.{err_success}
use name_file_system_docs.Session.{new_sentence, update_words}
use name_file_system_docs.Storage.{Calls, Message, Server, WriteSession, get_file_path, path_in}
use name_file_system_docs.Storage.Writing.{
  session_of, temp_filepath, write_commit, write_start, write_update,
}
use name_file_system_docs.Undo.Spec as Undo

-- The updates of a session, one message after another; the answers are left out.
unfoldable pub write_updates : Server → List Message → Server
write_updates s [] = s
write_updates s (m ∷ ms) = write_updates (write_update s m).1 ms

-- What the updates make of the words; `none` if one has an index past the words.
unfoldable pub inserted_words : List CString → List Message → Option (List CString)
inserted_words words [] = some words
inserted_words words (m ∷ ms) = elim (update_words words m.word_index m.content) [
  | none ↦ none
  | some more ↦ inserted_words more ms
]

abbrev with_words : Server → List CString → Server
with_words s words = record s { write_session = record s.write_session { words = words } }

update_active :
    (s : Server) (m : Message) (more : List CString)
    → s.write_session.active ≡ true
    → update_words s.write_session.words m.word_index m.content ≡ some more
    → write_update s m ≡ (err_success, with_words s more)
unfolding write_update
update_active s m more active valid = simp (active, valid, write_update) refl

inserted_step :
    (words : List CString) (m : Message) (ms : List Message) (o : Option (List CString))
    → update_words words m.word_index m.content ≡ o
    → inserted_words words (m ∷ ms) ≡ (elim o [ none ↦ none | some more ↦ inserted_words more ms ])
unfolding inserted_words
inserted_step words m ms o e =
    ap (λ (o : Option (List CString)). elim o [ none ↦ none | some more ↦ inserted_words more ms ])
      e

-- The updates of an active session change its words alone, to what the insertions make of them.
pub updates_words :
    (s : Server) (ms : List Message) (words : List CString)
    → s.write_session.active ≡ true
    → inserted_words s.write_session.words ms ≡ some words
    → write_updates s ms ≡ with_words s words
unfolding write_updates
updates_words s [] words active done =
    let e : s.write_session.words ≡ words = unfold inserted_words in cc in ap (with_words s) e
updates_words s (m ∷ ms) words active done =
    elim (Option-cases (update_words s.write_session.words m.word_index m.content)) [
      | inl bad ↦ let fault = inserted_step s.write_session.words m ms none bad in absurd (cc)
      | inr (more, valid) ↦
          ap (λ (r : ℕ × Server). write_updates r.1 ms) (update_active s m more active valid)
          ∙ updates_words (with_words s more) ms words active
              (sym (inserted_step s.write_session.words m ms (some more) valid) ∙ done)
    ]

-- The whole session.
unfoldable pub whole_session : Server → Message → Calls → List Message → Calls → Option (ℕ × Server)
whole_session s start at_start updates at_commit = elim (write_start s start at_start) [
  | none ↦ none
  | some (code, s') ↦ write_commit (write_updates s' updates) at_commit
]

-- What a session needs: the file is there with the bytes `c`, the calls are granted, the sentence is
-- free and lies in the file or at its end, its words, with the insertions, are `words`, and fit the
-- buffer of the new sentence; the names fit their arrays, and the state is well formed.
pub record IsSession (s : Server) (start : Message) (at_start : Calls) (updates : List Message)
    (at_commit : Calls) (c : List ℕ) (old words : List CString) (sentence : CString) : Type 0 where
  pub there : Holds s start.filename c
  pub opens : at_start.opens ≡ true
  pub node_alloc : at_start.node_alloc ≡ true
  pub content_alloc : at_start.content_alloc ≡ true
  pub free : IsFree s start at_start
  pub within : start.sentence_num ≤ length (parse_sentences (visible c))
  pub old_words : start_words start c ≡ some old
  pub inserted : inserted_words old updates ≡ some words
  pub built : new_sentence words ≡ some sentence
  pub valid_locks : IsTable lock_keys s.lock_table
  pub valid_undo : Undo.IsValid s.undo_table
  pub filename_fits : Fits 256 start.filename
  pub sender_fits : Fits 64 start.sender_id
  pub reads : at_commit.opens ≡ true
  pub creates : at_commit.creates ≡ true
  pub renames : at_commit.renames ≡ true
  pub temp_free : is_directory (s.disk (temp_filepath (get_file_path s start.filename))) ≡ false
  pub apart :
      same (temp_filepath (get_file_path s start.filename)) (get_file_path s start.filename) ≡ false

-- The session in the middle.
abbrev pub session_at : Message → List CString → WriteSession
session_at start words = record {
  filename = start.filename;
  sentence_num = start.sentence_num;
  client_id = start.sender_id;
  words = words;
  active = true;
}

session_of-eq :
    (start : Message) (words : List CString)
    → Fits 256 start.filename
    → Fits 64 start.sender_id
    → session_of start words ≡ session_at start words
session_of-eq start words f g = rw (take_all 255 start.filename f, take_all 63 start.sender_id g)

module _ (s : Server) (start : Message) (at_start : Calls) (updates : List Message)
    (at_commit : Calls) (c : List ℕ) (old words : List CString) (sentence : CString)
    (h : IsSession s start at_start updates at_commit c old words sentence) where
  -- The server once the session is open, with `ws` for its words.
  abbrev open_with : UndoTable → List CString → Server
  open_with undo ws = record s {
    lock_table = taken s start at_start;
    write_session = session_at start ws;
    undo_table = undo;
  }

  session_opened :
      (undo : UndoTable) × (write_start s start at_start ≡ some (err_success, open_with undo old))
      × Undo.IsValid undo
      × (view undo start.filename ≡ some (visible c))
  session_opened =
      let (undo, opened, valid, saved) =
        start_opens s start at_start c old start.filename h.there h.opens h.free h.within
          h.old_words h.valid_undo h.filename_fits h.node_alloc h.content_alloc in
      (
        undo,
        opened
            ∙ ap
                (λ (w : WriteSession).
                  some (err_success, record (open_with undo old) { write_session = w }))
                (session_of-eq start old h.filename_fits h.sender_fits),
        valid,
        saved ∙ rw (same_refl start.filename),
      )

  session_reaches :
      (undo : UndoTable)
      → write_start s start at_start ≡ some (err_success, open_with undo old)
      → whole_session s start at_start updates at_commit
        ≡ write_commit (open_with undo words) at_commit
  unfolding whole_session
  session_reaches undo opened =
      ap
        (λ (r : Option (ℕ × Server)). elim r [
          | none ↦ none
          | some (code, s') ↦ write_commit (write_updates s' updates) at_commit
        ])
        opened
      ∙ ap (λ (s' : Server). write_commit s' at_commit)
          (updates_words (open_with undo old) updates words refl h.inserted)

  -- A whole session edits one sentence. The file's text is what the handlers read of it: its first
  -- 4095 bytes, up to a zero. The file then is that text with the sentence of the session replaced
  -- by the sentence's words with the session's insertions, so that of a longer file what stands
  -- behind is lost; every file but it and the
  -- temporary one is what it was; the session is closed, its sentence is free and every other lock
  -- is as it was; and an undo of the file would bring back the text from before.
  pub session_edits :
      let path = get_file_path s start.filename in
      (s' : Server) × (whole_session s start at_start updates at_commit ≡ some (err_success, s'))
      × (s'.storage_dir ≡ s.storage_dir)
      × Holds s' start.filename (spliced (parse_sentences (visible c)) start.sentence_num sentence)
      × ((q : CString)
          → same path q ≡ false
          → same (temp_filepath path) q ≡ false
          → s'.disk q ≡ s.disk q)
      × (s'.write_session.active ≡ false)
      × (lookup lock_keys s'.lock_table (start.filename, start.sentence_num) ≡ none)
      × ((j : LockKey)
          → same_key (start.filename, start.sentence_num) j ≡ false
          → lookup lock_keys s'.lock_table j ≡ lookup lock_keys s.lock_table j)
      × Undo.IsValid s'.undo_table
      × (view s'.undo_table start.filename ≡ some (visible c))
  session_edits =
      let (undo, opened, valid, saved) = session_opened in
      let (s', committed, here, away, done) =
        commit_all_or_nothing (open_with undo words) at_commit c sentence h.reads
          (record { active = refl; there = h.there; within = h.within; built = h.built })
          h.temp_free h.apart in
      let back =
        taken_back s.lock_table (start.filename, start.sentence_num) start.sender_id at_start.now
          h.filename_fits h.sender_fits h.valid_locks h.free in
      (
        s',
        session_reaches undo opened ∙ committed ∙ simp h.creates refl,
        done.dir,
        ap (λ (dir : CString). s'.disk (path_in dir start.filename)) done.dir
            ∙ here
            ∙ simp (h.creates, h.renames) refl,
        away,
        done.inactive,
        ap (λ (t : LockTable). lookup lock_keys t (start.filename, start.sentence_num))
              done.unlocked
            ∙ back.0,
        λ j other. ap (λ (t : LockTable). lookup lock_keys t j) done.unlocked ∙ back.1 j other,
        subst Undo.IsValid (sym done.undo) valid,
        ap (λ (u : UndoTable). view u start.filename) done.undo ∙ saved,
      )
