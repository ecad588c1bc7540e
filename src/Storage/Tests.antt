-- ===== src/Storage/Tests.antt =====
-- A storage server with one document, and whole sessions of it there.
mod Runs
mod Requests
use name_file_system_docs.Base.{ℕ, ◌≡◌, refl, true, false, none, some, List, [], ◌∷◌, arith}
use name_file_system_docs.Base.Tests.{if◌then◌else◌}
use name_file_system_docs.Base.Strings.{CString, same}
use name_file_system_docs.Acl.Rights.{reads}
use name_file_system_docs.Parser.Words.{words}
use name_file_system_docs.Disk.Laws.{IsText}
use name_file_system_docs.Index.Entries.{files_of}
use name_file_system_docs.Index.Search.{content_words, finds}
use name_file_system_docs.Index.Words.{is_word}
use name_file_system_docs.Lock.Frame.{acquire-IsTable}
use name_file_system_docs.Storage.Abandoned.{abandoned_commit}
use name_file_system_docs.Storage.Connection.{
  Event, disconnected, forwarded, lost, next_message, received, run, step, waiting, writing,
}
use name_file_system_docs.Storage.Forwarded.{forwarded_request}
use name_file_system_docs.Storage.Searching.{commit_found}
use name_file_system_docs.Storage.Sessions.{ArePolite, IsIdle, run-IsIdle}
use name_file_system_docs.Session.Commit.{spliced}
use name_file_system_docs.Storage.Atomic.{commit_all_or_nothing}
use name_file_system_docs.Storage.Commit.{IsFinished, IsReady, edited}
use name_file_system_docs.Storage.Reading.{Holds, visible}
use name_file_system_docs.Storage.Requests.{handle_undo_request}
use name_file_system_docs.Storage.Start.{OnlyLocks, start_refused, taken}
use name_file_system_docs.Storage.Undoing.{session_undone}
use name_file_system_docs.Table.Chain.{find, lookup}
use name_file_system_docs.Undo.Spec.{view}
use name_file_system_docs.Disk.{
  Disk, directory, fread_string, is_directory, open_read, regular, upto_nul,
}
use name_file_system_docs.Index.{index_init, index_keys, to_lowercase}
use name_file_system_docs.Lock.{
  LockKey, hash_lock_key, lock_acquire, lock_is_locked, lock_keys, lock_release, lock_table_init,
  new_entry, same_key,
}
use name_file_system_docs.Parser.{
  has_delimiter, inserted, is_delimiter, isspace, joined, parse_sentences, parse_words, parts_from,
  rebuild_file, sentences_from, split_by_delimiters, words_loop,
}
use name_file_system_docs.Protocol.{
  err_index_error, err_success, op_read, op_undo, op_write_commit, op_write_start, op_write_update,
}
use name_file_system_docs.Session.{commit_sentences, new_sentence, update_words}
use name_file_system_docs.Storage.{
  Calls, Message, Server, WriteSession, get_file_path, path_in, read_file,
}
use name_file_system_docs.Storage.Session.{IsSession, inserted_words, session_edits, whole_session}
use name_file_system_docs.Storage.Writing.{
  close_session, open_session, read_sentences, target_words, temp_filepath, unlock, write_commit,
  write_start, write_update,
}
use name_file_system_docs.Table.Valid.{IsTable, empty-IsTable}
use name_file_system_docs.Undo.{undo_table_init}
use name_file_system_docs.Undo.Spec as Undo
use name_file_system_docs.Index.Entries as Index

-- The functions that the tests compute.
unfoldable pub computing : Unit {0}
unfolding path_in is_delimiter parse_sentences sentences_from isspace parse_words words_loop
    update_words new_sentence joined commit_sentences split_by_delimiters parts_from has_delimiter
    rebuild_file same upto_nul fread_string temp_filepath target_words inserted_words
    lock_table_init lock_is_locked read_file open_read find
computing = tt

abbrev pub letter_a : CString
letter_a = b'a' ∷ []

-- "Hi. Go"
abbrev pub document : List ℕ
document = b'H' ∷ b'i' ∷ b'.' ∷ b' ' ∷ b'G' ∷ b'o' ∷ []

-- The file "a" below the storage directory "d", and a folder "f".
abbrev pub disk_of : CString → List ℕ → Disk
disk_of path c q =
    if same path q
    then some (regular c)
    else if same (b'd' ∷ b'/' ∷ b'f' ∷ []) q
    then some directory
    else none

abbrev pub nobody : WriteSession
nobody = record { filename = []; sentence_num = 0; client_id = []; words = []; active = false }

abbrev pub server : Server
server = record {
  storage_dir = b'd' ∷ [];
  disk = disk_of (b'd' ∷ b'/' ∷ b'a' ∷ []) document;
  lock_table = lock_table_init;
  undo_table = undo_table_init;
  search_index = index_init;
  write_session = nobody;
}

abbrev pub all_granted : Calls
all_granted = record {
  now = 5;
  opens = true;
  creates = true;
  reopens = true;
  renames = true;
  unlinks = true;
  makes = true;
  node_alloc = true;
  content_alloc = true;
  sends = λ _. true;
  entries = some [];
}

abbrev pub message : ℕ → CString → ℕ → ℕ → CString → Message
message operation sender n i word = record {
  operation = operation;
  sender_id = sender;
  filename = letter_a;
  sentence_num = n;
  word_index = i;
  content = word;
  folder_name = b'f' ∷ [];
  checkpoint_tag = b't' ∷ [];
}

abbrev pub ann : CString
ann = b'a' ∷ b'n' ∷ b'n' ∷ []

abbrev pub bob : CString
bob = b'b' ∷ b'o' ∷ b'b' ∷ []

-- Ann writes the second sentence.
abbrev pub ann_starts : Message
ann_starts = message op_write_start ann 1 0 []

abbrev pub ann_updates : Message
ann_updates = message op_write_update ann 1 1 (b'n' ∷ b'o' ∷ b'w' ∷ b'!' ∷ [])

-- "Go now!"
abbrev pub new_text : CString
new_text = b'G' ∷ b'o' ∷ b' ' ∷ b'n' ∷ b'o' ∷ b'w' ∷ b'!' ∷ []

abbrev pub go : List CString
go = (b'G' ∷ b'o' ∷ []) ∷ []

abbrev pub go_now : List CString
go_now = (b'G' ∷ b'o' ∷ []) ∷ (b'n' ∷ b'o' ∷ b'w' ∷ b'!' ∷ []) ∷ []

pub empty_index : Index.IsValid index_init
unfolding index_init find
empty_index = record {
  table = empty-IsTable index_keys;
  unique = λ word. tt;
  bounded = λ word. omega arith;
}

pub ann-IsSession :
    IsSession server ann_starts all_granted
      (ann_updates ∷ [])
      all_granted
      document
      go
      go_now
      new_text
unfolding computing
ann-IsSession = record {
  there = refl;
  opens = refl;
  node_alloc = refl;
  content_alloc = refl;
  free = refl;
  within = omega arith;
  old_words = refl;
  inserted = refl;
  built = refl;
  valid_locks = empty-IsTable lock_keys;
  valid_undo = Undo.init-IsValid;
  filename_fits = omega arith;
  sender_fits = omega arith;
  reads = refl;
  creates = refl;
  renames = refl;
  temp_free = refl;
  apart = refl;
}

-- Bob's requests.
abbrev pub bob_undoes : Message
bob_undoes = message op_undo bob 0 0 []

session_edits_example :
    (s' : Server) × (whole_session server ann_starts all_granted (ann_updates ∷ []) all_granted
      ≡ some (err_success, s'))
    × (s'.storage_dir ≡ server.storage_dir)
    × Holds s' letter_a (spliced (parse_sentences (visible document)) 1 new_text)
    × ((q : CString)
        → same (get_file_path server letter_a) q ≡ false
        → same (temp_filepath (get_file_path server letter_a)) q ≡ false
        → s'.disk q ≡ server.disk q)
    × (s'.write_session.active ≡ false)
    × (lookup lock_keys s'.lock_table (letter_a, 1) ≡ none)
    × ((j : LockKey)
        → same_key (letter_a, 1) j ≡ false
        → lookup lock_keys s'.lock_table j ≡ lookup lock_keys server.lock_table j)
    × Undo.IsValid s'.undo_table
    × (view s'.undo_table letter_a ≡ some (visible document))
session_edits_example =
    session_edits server ann_starts all_granted (ann_updates ∷ []) all_granted document go go_now
      new_text ann-IsSession

pub document-IsText : IsText document
document-IsText = (refl, (refl, (refl, (refl, (refl, (refl, tt))))))

session_undone_example :
    (s' : Server) × (s'' : Server) × (whole_session server ann_starts all_granted
        (ann_updates ∷ [])
        all_granted
      ≡ some (err_success, s'))
    × (handle_undo_request s' bob_undoes all_granted ≡ some (err_success, s''))
    × Holds s'' letter_a document
    × ((q : CString)
        → same (get_file_path server letter_a) q ≡ false
        → same (temp_filepath (get_file_path server letter_a)) q ≡ false
        → s''.disk q ≡ server.disk q)
session_undone_example =
    session_undone server ann_starts all_granted (ann_updates ∷ []) all_granted document go go_now
      new_text bob_undoes all_granted ann-IsSession document-IsText (omega arith) refl refl refl

-- The server in the middle of Ann's session, with the new words.
abbrev pub in_session : Server
in_session = record server {
  lock_table = taken server ann_starts all_granted;
  write_session = record {
    filename = letter_a;
    sentence_num = 1;
    client_id = ann;
    words = go_now;
    active = true;
  };
}

pub ann-IsReady : IsReady in_session document new_text
unfolding computing
ann-IsReady = record { active = refl; there = refl; within = omega arith; built = refl }

pub temp_is_free :
    (is_directory (in_session.disk (temp_filepath (get_file_path in_session letter_a))) ≡ false)
    × (same (temp_filepath (get_file_path in_session letter_a)) (get_file_path in_session letter_a)
        ≡ false)
unfolding computing
temp_is_free = (refl, refl)

-- The temporary file cannot be moved.
abbrev no_rename : Calls
no_rename = record all_granted { renames = false }

commit_all_or_nothing_example :
    (s' : Server) × (write_commit in_session no_rename ≡ some (err_success, s'))
    × (s'.disk (get_file_path in_session letter_a) ≡ some (regular document))
    × ((q : CString)
        → same (get_file_path in_session letter_a) q ≡ false
        → same (temp_filepath (get_file_path in_session letter_a)) q ≡ false
        → s'.disk q ≡ in_session.disk q)
    × IsFinished in_session s'
commit_all_or_nothing_example =
    commit_all_or_nothing in_session no_rename document new_text refl ann-IsReady temp_is_free.0
      temp_is_free.1
