-- ===== src/Storage/Tests/Runs.antt =====
-- Refused starts, abandoned sessions and searches on the server of the tests.
use name_file_system_docs.Base.{◌<◌, ◌≡◌, refl, false, none, some, List, [], ◌∷◌, arith}
use name_file_system_docs.Base.Tests.{◌==◌, if◌then◌else◌}
use name_file_system_docs.Base.Lists.{length}
use name_file_system_docs.Base.Strings.{CString, same}
use name_file_system_docs.Disk.{regular}
use name_file_system_docs.Index.{has_file, index_init, to_lowercase}
use name_file_system_docs.Index.Entries.{files_of}
use name_file_system_docs.Index.Search.{content_words, finds, listing_fits}
use name_file_system_docs.Index.Words.{is_word}
use name_file_system_docs.Lock.{
  hash_lock_key, lock_acquire, lock_keys, lock_release, lock_table_init, new_entry,
}
use name_file_system_docs.Lock.Frame.{acquire-IsTable}
use name_file_system_docs.Protocol.{
  err_index_error, err_success, op_read, op_write_commit, op_write_start,
}
use name_file_system_docs.Storage.{Message, Server, get_file_path}
use name_file_system_docs.Storage.Abandoned.{abandoned_commit}
use name_file_system_docs.Storage.Commit.{edited}
use name_file_system_docs.Storage.Connection.{
  Event, disconnected, forwarded, lost, next_message, received, run, step, waiting, writing,
}
use name_file_system_docs.Storage.Forwarded.{forwarded_request}
use name_file_system_docs.Storage.Reading.{visible}
use name_file_system_docs.Storage.Searching.{commit_found}
use name_file_system_docs.Storage.Sessions.{ArePolite, IsIdle, run-IsIdle}
use name_file_system_docs.Storage.Start.{OnlyLocks, start_refused, taken}
use name_file_system_docs.Storage.Tests.{
  all_granted, ann, ann-IsReady, ann_updates, bob, computing, document, empty_index, in_session,
  letter_a, message, new_text, temp_is_free,
}
use name_file_system_docs.Storage.Writing.{
  close_session, open_session, read_sentences, unlock, write_commit, write_start, write_update,
}
use name_file_system_docs.Table.Chain.{find}
use name_file_system_docs.Table.Valid.{IsTable, empty-IsTable}
use name_file_system_docs.Index.Entries as Index

-- Bob asks for a sentence that is far past the end.
abbrev bob_starts : Message
bob_starts = message op_write_start bob 9 0 []

-- What is left of Ann's session when Bob is refused.
abbrev after_refusal : Server
after_refusal =
    unlock (record in_session { lock_table = taken in_session bob_starts all_granted }) bob_starts

valid_locks : IsTable lock_keys in_session.lock_table
unfolding lock_table_init
valid_locks =
    acquire-IsTable lock_table_init (letter_a, 1) ann 5 (omega arith) (omega arith)
      (empty-IsTable lock_keys)

bob_refused : write_start in_session bob_starts all_granted ≡ some (err_index_error, after_refusal)
unfolding computing write_start lock_acquire read_sentences open_session lock_release new_entry
    hash_lock_key
bob_refused = refl

start_refused_example : OnlyLocks in_session (letter_a, 9) after_refusal
start_refused_example =
    start_refused in_session bob_starts all_granted err_index_error after_refusal (omega arith)
      (omega arith) valid_locks bob_refused (omega arith)

abbrev pinged : Message
pinged = message op_read ann 0 0 []

abbrev bob_commits : Message
bob_commits = message op_write_commit bob 0 0 []

abandoned_commit_example :
    (s' : Server) × (run
        (writing, in_session)
        (received pinged all_granted
          ∷ received bob_starts all_granted
          ∷ received bob_commits all_granted
          ∷ [])
      ≡ some (waiting, s'))
    × (s'.disk (get_file_path in_session letter_a)
        ≡ some (regular (edited in_session document new_text)))
abandoned_commit_example =
    abandoned_commit in_session document new_text pinged bob_starts bob_commits all_granted
      all_granted all_granted err_index_error after_refusal ann-IsReady refl refl refl bob_refused
      (omega arith) (omega arith) (omega arith) valid_locks refl refl refl temp_is_free.0
      temp_is_free.1

abbrev FindsNow : Server → Type 0
FindsNow s' = finds s'.search_index (b'n' ∷ b'o' ∷ b'w' ∷ []) letter_a ≡ (
    if listing_fits (Index.files_of s'.search_index (to_lowercase (b'n' ∷ b'o' ∷ b'w' ∷ [])))
    then some (
        if same letter_a letter_a
        then is_word (content_words (visible (edited in_session document new_text)))
            (to_lowercase (b'n' ∷ b'o' ∷ b'w' ∷ []))
        else has_file (Index.files_of index_init (to_lowercase (b'n' ∷ b'o' ∷ b'w' ∷ []))) letter_a)
    else none)

has_text : (length (visible (edited in_session document new_text)) == 0) ≡ false
unfolding computing
has_text = refl

few_files : (w : CString) → length (Index.files_of index_init w) < 50
unfolding index_init find
few_files w = omega arith

commit_found_example :
    (s' : Server) × (write_commit in_session all_granted ≡ some (err_success, s'))
    × Index.IsValid s'.search_index
    × FindsNow s'
commit_found_example =
    commit_found in_session all_granted document new_text (b'n' ∷ b'o' ∷ b'w' ∷ []) letter_a refl
      refl refl refl ann-IsReady temp_is_free.0 temp_is_free.1 (omega arith) has_text few_files
      empty_index

abbrev ann_leaves : List Event
ann_leaves = received ann_updates all_granted ∷ lost ∷ forwarded pinged all_granted ∷ []

ann_is_polite : ArePolite (writing, in_session) ann_leaves
unfolding computing step next_message write_update disconnected forwarded_request
ann_is_polite = (refl, (tt, (tt, tt)))

abbrev ended : Server
ended = close_session (record in_session {
  write_session = record in_session.write_session {
    words =
        (b'G' ∷ b'o' ∷ [])
        ∷ (b'n' ∷ b'o' ∷ b'w' ∷ b'!' ∷ [])
        ∷ (b'n' ∷ b'o' ∷ b'w' ∷ b'!' ∷ [])
        ∷ [];
  };
})

ann_left : run (writing, in_session) ann_leaves ≡ some (waiting, ended)
unfolding computing run step next_message write_update disconnected forwarded_request
ann_left = refl

run-IsIdle_example : IsIdle (waiting, ended)
run-IsIdle_example =
    run-IsIdle (writing, in_session) ann_leaves (waiting, ended) tt ann_is_polite ann_left
