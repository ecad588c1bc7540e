-- ===== src/Storage/Writing.antt =====
-- `handle_write_session` of storage_server/storage_server.c: the three operations of a write session
-- on the disk, the locks, the undo buffer and the index. `none` is a fault: a write past a buffer, a
-- sentence past the file's end, or a use of a buffer that was never filled. The number is the code
-- of the response.
use name_file_system_docs.Base.{ℕ, Bool, true, false, not, Option, none, some, List, [], ◌∷◌, ◌++◌}
use name_file_system_docs.Base.Tests.{ltb, ◌==◌, if◌then◌else◌}
use name_file_system_docs.Base.Lists.{length, get_elem?}
use name_file_system_docs.Base.Strings.{CString, copy_str}
use name_file_system_docs.Index.{InvertedIndex}
use mathlib.Core.Option
use name_file_system_docs.Disk.{Disk, rename, write_file}
use name_file_system_docs.Index.{index_file}
use name_file_system_docs.Lock.{lock_acquire, lock_release}
use name_file_system_docs.Parser.{parse_sentences, parse_words, rebuild_file}
use name_file_system_docs.Parser.Words.{words}
use name_file_system_docs.Protocol.{
  err_bad_request, err_index_error, err_locked, err_not_found, err_server_error, err_success,
  max_content_len, max_filename_len, max_path_len, max_username_len,
}
use name_file_system_docs.Session.{commit_sentences, new_sentence, update_words}
use name_file_system_docs.Storage.{
  Calls, Message, Server, WriteSession, file_exists, get_file_path, read_file,
}
use name_file_system_docs.Undo.{undo_save}

-- `lock_release` with the message's file, sentence and sender.
abbrev pub unlock : Server → Message → Server
unlock s msg = record s {
  lock_table = (lock_release s.lock_table (msg.filename, msg.sentence_num) msg.sender_id).1;
}

-- The words of the sentence that the session starts from.
unfoldable pub target_words : List CString → ℕ → Option (List CString)
target_words sentences sentence_num = elim (get_elem? sentences sentence_num) [
  | none ↦ some []
  | some sentence ↦ parse_words sentence
]

-- The assignments to `write_session`.
abbrev pub session_of : Message → List CString → WriteSession
session_of msg words = record {
  filename = copy_str max_filename_len msg.filename;
  sentence_num = msg.sentence_num;
  client_id = copy_str max_username_len msg.sender_id;
  words = words;
  active = true;
}

-- WRITE_START once the sentences are read.
unfoldable pub open_session : Server → Message → Calls → CString → Option (ℕ × Server)
open_session s msg calls file_content =
    let sentences = parse_sentences file_content in
    if ltb (length sentences) msg.sentence_num
    then some (err_index_error, unlock s msg)
    else elim (target_words sentences msg.sentence_num) [
      | none ↦ none
      | some words ↦ some (
        err_success,
        record s {
          write_session = session_of msg words;
          undo_table =
              (undo_save s.undo_table msg.filename file_content (length file_content)
                calls.node_alloc calls.content_alloc).1;
        },
      )
    ]

-- WRITE_START with the lock taken.
unfoldable pub read_sentences : Server → Message → Calls → Option (ℕ × Server)
read_sentences s msg calls =
    let (code, buffer) = read_file s msg.filename calls.opens max_content_len in
    elim buffer [
      | none ↦ some (code, unlock s msg)
      | some file_content ↦ open_session s msg calls file_content
    ]

unfoldable pub write_start : Server → Message → Calls → Option (ℕ × Server)
write_start s msg calls =
    let (lock_result, locks) =
      lock_acquire s.lock_table (msg.filename, msg.sentence_num) msg.sender_id calls.now in
    if not (file_exists s msg.filename)
    then some (err_not_found, s)
    else if lock_result == err_locked
    then some (err_locked, s)
    else read_sentences (record s { lock_table = locks }) msg calls

unfoldable pub write_update : Server → Message → ℕ × Server
write_update s msg =
    if not s.write_session.active
    then (err_bad_request, s)
    else elim (update_words s.write_session.words msg.word_index msg.content) [
      | none ↦ (err_index_error, s)
      | some words ↦
          (err_success, record s { write_session = record s.write_session { words = words } })
    ]

-- `lock_release` with the session's file, sentence and client, and `active = 0`.
abbrev pub close_session : Server → Server
close_session s = record s {
  lock_table =
      (lock_release s.lock_table (s.write_session.filename, s.write_session.sentence_num)
        s.write_session.client_id).1;
  write_session = record s.write_session { active = false };
}

-- The index brought up to date with the file as it is read again.
abbrev pub indexed : Server → CString → Bool → InvertedIndex
indexed s filename reopens = elim (read_file s filename reopens max_content_len).1 [
  | none ↦ s.search_index
  | some content ↦ (index_file s.search_index filename content).1
]

abbrev pub index_again : Server → CString → Bool → Server
index_again s filename reopens = record s { search_index = indexed s filename reopens }

-- The disk after `rename`, whose result the source does not look at.
abbrev pub renamed : Disk → CString → CString → Bool → Disk
renamed d old new granted = elim (rename d old new granted) [ none ↦ d | some e ↦ e ]

-- `snprintf(temp_filepath, sizeof(temp_filepath), "%s.tmp", filepath)`
unfoldable pub temp_filepath : CString → CString
temp_filepath path = copy_str max_path_len (path ++ (b'.' ∷ b't' ∷ b'm' ∷ b'p' ∷ []))

-- WRITE_COMMIT from the new content of the file on.
unfoldable pub write_back : Server → Calls → CString → ℕ × Server
write_back s calls new_content =
    let path = get_file_path s s.write_session.filename in
    elim (write_file s.disk (temp_filepath path) calls.creates new_content) [
      | none ↦ (err_server_error, close_session s)
      | some d ↦ (
        err_success,
        index_again
            (close_session (record s { disk = renamed d (temp_filepath path) path calls.renames }))
            s.write_session.filename calls.reopens,
      )
    ]

-- The new content: the words as a sentence in its place among the sentences of the file.
unfoldable pub new_content : WriteSession → CString → Option CString
new_content session file_content = elim (new_sentence session.words) [
  | none ↦ none
  | some sentence ↦
      Option.map rebuild_file
        (commit_sentences (parse_sentences file_content) session.sentence_num sentence)
]

-- The result of `read_file` is not looked at: if it fails, the buffer was never filled.
unfoldable pub write_commit : Server → Calls → Option (ℕ × Server)
write_commit s calls =
    if not s.write_session.active
    then some (err_bad_request, s)
    else elim (read_file s s.write_session.filename calls.opens max_content_len).1 [
      | none ↦ none
      | some file_content ↦
          Option.map (write_back s calls) (new_content s.write_session file_content)
    ]
