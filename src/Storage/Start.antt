-- ===== src/Storage/Start.antt =====
-- WRITE_START of storage_server.c: what it sets up, and what each refusal leaves.
use name_file_system_docs.Base.{
  ℕ, ◌≤◌, ◌≡◌, refl, ap, ◌∙◌, subst, ◌≢◌, ◌⊎◌, inl, inr, true, false, Option, none, some, List,
  arith,
}
use name_file_system_docs.Base.Tests.{ltb, if◌then◌else◌, Bool-cases, Option-cases}
use name_file_system_docs.Base.Lists.{length, take_all}
use name_file_system_docs.Base.Strings.{CString, same}
use name_file_system_docs.Table.Chain.{lookup}
use name_file_system_docs.Table.Valid.{IsTable}
use name_file_system_docs.Lock.Frame.{Fits, acquire-IsTable, lookup-acquire, lookup-release}
use name_file_system_docs.Disk.Laws.{length-fread}
use name_file_system_docs.Lock.{
  LockKey, LockTable, lock_acquire, lock_is_locked, lock_keys, lock_release, same_key, same_key_iff,
}
use name_file_system_docs.Lock.Exclusion.{acquire-IsHeld, acquire-is_locked, release-holder}
use name_file_system_docs.Parser.{parse_sentences}
use name_file_system_docs.Parser.Words.{words}
use name_file_system_docs.Protocol.{
  err_index_error, err_locked, err_not_found, err_success, max_content_len,
}
use name_file_system_docs.Storage.{Calls, Message, Server, file_exists, read_file}
use name_file_system_docs.Storage.Reading.{Holds, exists_there, read_there, visible}
use name_file_system_docs.Storage.Writing.{
  open_session, read_sentences, session_of, target_words, unlock, write_start,
}
use name_file_system_docs.Undo.{UndoTable, undo_save}
use name_file_system_docs.Undo.Spec.{save-IsValid, save-view, view}
use name_file_system_docs.Undo.Spec as Undo

-- What a session starts from: the sentences, and the words of the one that is to be written.
abbrev pub start_words : Message → List ℕ → Option (List CString)
start_words msg c = target_words (parse_sentences (visible c)) msg.sentence_num

-- The table of locks with the lock of the message's sentence taken.
abbrev pub taken : Server → Message → Calls → LockTable
taken s msg calls =
    (lock_acquire s.lock_table (msg.filename, msg.sentence_num) msg.sender_id calls.now).1

abbrev pub IsFree : Server → Message → Calls → Type 0
IsFree s msg calls =
    lock_is_locked s.lock_table (msg.filename, msg.sentence_num) msg.sender_id calls.now ≡ false

opened :
    (s : Server) (msg : Message) (calls : Calls) (content : CString) (words : List CString)
    → msg.sentence_num ≤ length (parse_sentences content)
    → target_words (parse_sentences content) msg.sentence_num ≡ some words
    → open_session s msg calls content
      ≡ some (
        err_success,
        record s {
          write_session = session_of msg words;
          undo_table =
              (undo_save s.undo_table msg.filename content
                (length content)
                calls.node_alloc
                calls.content_alloc).1;
        },
      )
unfolding open_session
opened s msg calls content words within start =
    let inside : ltb (length (parse_sentences content)) msg.sentence_num ≡ false = ground arith in
    simp (inside, start, open_session) refl

read_opened :
    (s : Server) (msg : Message) (calls : Calls) (content : CString)
    → (read_file s msg.filename calls.opens max_content_len).1 ≡ some content
    → read_sentences s msg calls ≡ open_session s msg calls content
unfolding read_sentences
read_opened s msg calls content read = simp (read, read_sentences) refl

start_read :
    (s : Server) (msg : Message) (calls : Calls)
    → file_exists s msg.filename ≡ true
    → IsFree s msg calls
    → write_start s msg calls
      ≡ read_sentences (record s { lock_table = taken s msg calls }) msg calls
unfolding write_start
start_read s msg calls there free =
    let granted : (lock_acquire s.lock_table (msg.filename, msg.sentence_num) msg.sender_id
          calls.now).0
        ≡ err_success =
      (acquire-is_locked s.lock_table (msg.filename, msg.sentence_num) msg.sender_id calls.now).0
      ∙ rw free in
    simp (there, granted, write_start) refl

-- A session is opened. If the file is there and opens, the sentence is not locked for another client,
-- its number is that of a sentence or the next one, and no word of it overflows its buffer, then the
-- answer is ERR_SUCCESS: the lock is taken, the session holds the words of the sentence, or none at
-- the end of the file, and belongs to the sender, an undo of the file would bring back its text, and
-- any other file's undo, the disk and the index are as before. The names fit, the undo buffer is
-- well formed, and memory is given.
pub start_opens :
    (s : Server) (msg : Message) (calls : Calls) (c : List ℕ) (words : List CString) (g : CString)
    → Holds s msg.filename c
    → calls.opens ≡ true
    → IsFree s msg calls
    → msg.sentence_num ≤ length (parse_sentences (visible c))
    → start_words msg c ≡ some words
    → Undo.IsValid s.undo_table
    → Fits 256 msg.filename
    → calls.node_alloc ≡ true
    → calls.content_alloc ≡ true
    → (undo : UndoTable) × (write_start s msg calls
        ≡ some (
          err_success,
          record s {
            lock_table = taken s msg calls;
            write_session = session_of msg words;
            undo_table = undo;
          },
        ))
      × Undo.IsValid undo
      × (view undo g ≡ (if same msg.filename g then some (visible c) else view s.undo_table g))
start_opens s msg calls c words g there opens free within start valid fits node content =
    let locked = record s { lock_table = taken s msg calls } in
    let text = visible c in
    let size = length-fread 4096 c in
    (
      (undo_save s.undo_table msg.filename text (length text) true true).1,
      start_read s msg calls (exists_there s msg.filename c there) free
          ∙ read_opened locked msg calls text (
              ap (λ (p : ℕ × Option CString). p.1)
                (read_there locked msg.filename c calls.opens max_content_len opens there))
          ∙ opened locked msg calls text words within start
          ∙ simp (node, content) refl,
      save-IsValid s.undo_table valid msg.filename fits text (length text) (omega arith)
          (omega arith),
      (save-view s.undo_table valid msg.filename fits text (length text) (omega arith) (omega arith)
            g).1
          ∙ rw (take_all (length text) text (omega arith)),
    )

-- What a refused start leaves of the table of locks `t`: the sentence's lock as it was or, once it was
-- taken for the sender, free; and every other lock as it was.
abbrev pub LeavesLocks : LockTable → LockTable → LockKey → Type 0
LeavesLocks t t' k =
    ((t' ≡ t) ⊎ (lookup lock_keys t' k ≡ none))
    × ((j : LockKey) → same_key k j ≡ false → lookup lock_keys t' j ≡ lookup lock_keys t j)

-- Taking a free lock and giving it back frees it, and leaves every other lock.
pub taken_back :
    (t : LockTable) (k : LockKey) (client : CString) (now : ℕ)
    → Fits 256 k.0
    → Fits 64 client
    → IsTable lock_keys t
    → lock_is_locked t k client now ≡ false
    → let t' = (lock_release (lock_acquire t k client now).1 k client).1 in
      (lookup lock_keys t' k ≡ none)
      × ((j : LockKey) → same_key k j ≡ false → lookup lock_keys t' j ≡ lookup lock_keys t j)
taken_back t k client now f g v free =
    let u = (lock_acquire t k client now).1 in
    let valid = acquire-IsTable t k client now f g v in
    let held = acquire-IsHeld t k client now f g ((acquire-is_locked t k client now).0 ∙ rw free) in
    (
      lookup-release u k k client valid
          ∙ ground (arith, release-holder k client now u held, same_key_iff k k),
      λ j other.
          lookup-release u k j client valid
          ∙ ground (arith, other, free, lookup-acquire t k j client now f g),
    )

untouched : (t : LockTable) (k : LockKey) → LeavesLocks t t k
untouched t k = (inl refl, λ j other. refl)

-- A server that differs in its locks alone, and there in the sentence `k` at most.
abbrev pub OnlyLocks : Server → LockKey → Server → Type 0
OnlyLocks s k s' =
    (s' ≡ record s { lock_table = s'.lock_table }) × LeavesLocks s.lock_table s'.lock_table k

answered :
    (r : Option (ℕ × Server)) (s : Server) (k : LockKey) (code₀ : ℕ) (t : LockTable) (code : ℕ)
    (s' : Server)
    → r ≡ some (code₀, record s { lock_table = t })
    → LeavesLocks s.lock_table t k
    → r ≡ some (code, s')
    → OnlyLocks s k s'
answered r s k code₀ t code s' e leaves answer =
    let at : record s { lock_table = t } ≡ s' = cc in subst (OnlyLocks s k) at (refl, leaves)

read_refused :
    (s : Server) (msg : Message) (calls : Calls)
    → (read_file s msg.filename calls.opens max_content_len).1 ≡ none
    → read_sentences s msg calls
      ≡ some ((read_file s msg.filename calls.opens max_content_len).0, unlock s msg)
unfolding read_sentences
read_refused s msg calls unread = simp (unread, read_sentences) refl

open_refused :
    (s : Server) (msg : Message) (calls : Calls) (content : CString)
    → ltb (length (parse_sentences content)) msg.sentence_num ≡ true
    → open_session s msg calls content ≡ some (err_index_error, unlock s msg)
unfolding open_session
open_refused s msg calls content outside = simp (outside, open_session) refl

open_fault :
    (s : Server) (msg : Message) (calls : Calls) (content : CString)
    → ltb (length (parse_sentences content)) msg.sentence_num ≡ false
    → target_words (parse_sentences content) msg.sentence_num ≡ none
    → open_session s msg calls content ≡ none
unfolding open_session
open_fault s msg calls content inside overflow = simp (inside, overflow, open_session) refl

module _ (s : Server) (msg : Message) (calls : Calls) (code : ℕ) (s' : Server)
    (f : Fits 256 msg.filename) (g : Fits 64 msg.sender_id) (v : IsTable lock_keys s.lock_table)
    (answer : write_start s msg calls ≡ some (code, s')) (bad : code ≢ err_success) where
  abbrev key : LockKey
  key = (msg.filename, msg.sentence_num)

  abbrev locked : Server
  locked = record s { lock_table = taken s msg calls }

  text_refused :
      (content : CString)
      → write_start s msg calls ≡ open_session locked msg calls content
      → LeavesLocks s.lock_table (unlock locked msg).lock_table key
      → OnlyLocks s key s'
  text_refused content start back =
      elim (Bool-cases (ltb (length (parse_sentences content)) msg.sentence_num)) [
        | inl outside ↦
            answered (write_start s msg calls) s key err_index_error (unlock locked msg).lock_table
              code s' (start ∙ open_refused locked msg calls content outside) back answer
        | inr inside ↦
            elim (Option-cases (target_words (parse_sentences content) msg.sentence_num)) [
              | inl overflow ↦
                  let fault = start ∙ open_fault locked msg calls content inside overflow in
                  absurd (cc)
              | inr (words, read) ↦
                  let success = start ∙ opened locked msg calls content words (ground arith) read in
                  absurd (bad (cc))
            ]
      ]

  -- A refused WRITE_START leaves no trace but in the locks: for every code other than
  -- ERR_SUCCESS, the disk, the undo buffer, the index and the current session are as they were,
  -- the lock of the sentence is as it was or free, and every other lock is as it was. The names
  -- fit, and the table of locks is well formed.
  pub start_refused : OnlyLocks s key s'
  unfolding write_start
  start_refused = elim (Bool-cases (file_exists s msg.filename)) [
    | inr missing ↦
        answered (write_start s msg calls) s key err_not_found s.lock_table code s'
          (simp (missing, write_start) refl) (untouched s.lock_table key) answer
    | inl there ↦ elim (Bool-cases (lock_is_locked s.lock_table key msg.sender_id calls.now)) [
      | inl busy ↦
          let refused : (lock_acquire s.lock_table key msg.sender_id calls.now).0 ≡ err_locked =
            (acquire-is_locked s.lock_table key msg.sender_id calls.now).0 ∙ rw busy in
          answered (write_start s msg calls) s key err_locked s.lock_table code s'
            (simp (there, refused, write_start) refl) (untouched s.lock_table key) answer
      | inr free ↦
          let (gone, others) = taken_back s.lock_table key msg.sender_id calls.now f g v free in
          let back : LeavesLocks s.lock_table (unlock locked msg).lock_table key =
            (inr gone, others) in
          let start = start_read s msg calls there free in
          elim (Option-cases (read_file locked msg.filename calls.opens max_content_len).1) [
            | inl unread ↦
                answered (write_start s msg calls) s key
                  (read_file locked msg.filename calls.opens max_content_len).0
                  (unlock locked msg).lock_table code s'
                  (start ∙ read_refused locked msg calls unread) back answer
            | inr (content, filled) ↦
                text_refused content (start ∙ read_opened locked msg calls content filled) back
          ]
    ]
  ]
