-- ===== src/Storage/Requests.antt =====
-- The handlers of storage_server/storage_server.c for UNDO, STREAM, READ and SEARCH. `none` is a fault.
use name_file_system_docs.Base.{ℕ, ◌+◌, Bool, not, Option, none, some, List, [], ◌∷◌}
use name_file_system_docs.Base.Tests.{ltb, if◌then◌else◌}
use name_file_system_docs.Base.Lists.{length, take}
use name_file_system_docs.Base.Strings.{CString, copy_str}
use mathlib.Core.Option
use name_file_system_docs.Disk.{write_file}
use name_file_system_docs.Index.{index_search}
use name_file_system_docs.Parser.{parse_words}
use name_file_system_docs.Protocol.{err_not_found, err_server_error, err_success, max_content_len}
use name_file_system_docs.Storage.{Calls, Message, Server, file_exists, get_file_path, read_file}
use name_file_system_docs.Undo.{
  Restoration, UndoTable, failed, null_copy, restored, undo_available, undo_restore,
}

-- What the server sends: a response of which the code alone is modelled, one with its text, with the
-- names in it, or with the size, the words and the characters in it, a word of a stream, or OP_STOP.
pub data Packet : Type 0 where
  with_code : ℕ → Packet
  with_text : ℕ → CString → Packet
  with_names : ℕ → List CString → Packet
  with_counts : ℕ → ℕ → ℕ → Packet
  stream_word : ℕ → CString → Packet
  op_stop : Packet

-- The file is written in place.
unfoldable pub write_restored : Server → Message → Calls → List ℕ → UndoTable → ℕ × Server
write_restored s msg calls content undo =
    elim (write_file s.disk (get_file_path s msg.filename) calls.creates content) [
      | none ↦ (err_server_error, record s { undo_table = undo })
      | some d ↦ (err_success, record s { undo_table = undo; disk = d })
    ]

abbrev pub after_restore : Server → Message → Calls → Restoration → Option (ℕ × Server)
after_restore s msg calls (restored content size undo) =
    some (write_restored s msg calls (take size content) undo)
after_restore s msg calls (failed code undo) = some (code, record s { undo_table = undo })
after_restore s msg calls null_copy = none

unfoldable pub handle_undo_request : Server → Message → Calls → Option (ℕ × Server)
handle_undo_request s msg calls =
    if not (undo_available s.undo_table msg.filename)
    then some (err_not_found, s)
    else after_restore s msg calls (undo_restore s.undo_table msg.filename calls.content_alloc)

-- The loop of `handle_stream_request` from word `i` on; `sent i` says whether `send_message` of that
-- word returns a positive number. If it does not, the stream ends there.
unfoldable pub stream_words : (ℕ → Bool) → ℕ → List CString → List Packet
stream_words sent i [] = op_stop ∷ []
stream_words sent i (w ∷ ws) =
    let rest = stream_words sent (i + 1) ws in
    if sent i
    then stream_word i (copy_str max_content_len w) ∷ rest
    else stream_word i (copy_str max_content_len w) ∷ []

unfoldable pub handle_stream_request : Server → Message → Calls → Option (List Packet)
handle_stream_request s msg calls =
    let (code, buffer) = read_file s msg.filename calls.opens max_content_len in
    if not (file_exists s msg.filename) then some (with_code err_not_found ∷ []) else elim buffer [
      | none ↦ some (with_code code ∷ [])
      | some content ↦
          Option.map (λ ws. with_code err_success ∷ stream_words calls.sends 0 ws)
            (parse_words content)
    ]

unfoldable pub handle_read_from_client : Server → Message → Calls → List Packet
handle_read_from_client s msg calls =
    let (result, buffer) = read_file s msg.filename calls.opens max_content_len in
    elim buffer [
      | none ↦ with_code result ∷ op_stop ∷ []
      | some content ↦ with_text result (copy_str max_content_len content) ∷ op_stop ∷ []
    ]

-- The code, and the names of the files in the answer, before its text is cut to the message.
unfoldable pub handle_search_request : Server → Message → Option (List Packet)
handle_search_request s msg =
    Option.map
      (λ names.
        (if ltb 0 (length names) then with_names err_success names else with_code err_not_found)
        ∷ [])
      (index_search s.search_index msg.content)
