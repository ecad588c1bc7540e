-- ===== src/Session.antt =====
-- The sentence work of `handle_write_session` in storage_server/storage_server.c: the words of a
-- session under WRITE_UPDATE, and the sentences that a WRITE_COMMIT makes. The files, the lock and
-- the messages around them are left out here.
pub mod Commit
pub mod Tests
use name_file_system_docs.Base.{ℕ, suc, Option, none, some, List, [], ◌∷◌, ◌++◌}
use name_file_system_docs.Base.Tests.{ltb, leb, ◌==◌, if◌then◌else◌}
use name_file_system_docs.Base.Lists.{length, take, drop, set}
use name_file_system_docs.Base.Strings.{CString}
use name_file_system_docs.Protocol.{max_content_len}
use name_file_system_docs.Parser.{split_by_delimiters, has_delimiter, joined}

-- WRITE_UPDATE of an active session: `none` for ERR_INDEX_ERROR. A negative index is, as its bit
-- pattern, past the number of words.
unfoldable pub update_words : List CString → ℕ → CString → Option (List CString)
update_words words word_idx new_word =
    if ltb (length words) word_idx
    then none
    else some (take word_idx words ++ (new_word ∷ drop word_idx words))

-- `new_sentence`: the words with spaces between them. `none` is a write past its 4096 bytes, which
-- the source does not guard against.
unfoldable pub new_sentence : List CString → Option CString
new_sentence words =
    if leb max_content_len (length (joined words)) then none else some (joined words)

-- The new sentences of the file. `none` is a fault: the file has lost sentences since the session
-- started, so that `sentence_num` is past their end and the arrays are overrun.
unfoldable pub commit_sentences : List CString → ℕ → CString → Option (List CString)
commit_sentences sentences sentence_num new =
    if length sentences == 0
    then some (if has_delimiter new then split_by_delimiters new else new ∷ [])
    else if ltb (length sentences) sentence_num
    then none
    else if has_delimiter new
    then some (
        take sentence_num sentences
        ++ (split_by_delimiters new ++ drop (suc sentence_num) sentences))
    else if sentence_num == length sentences
    then some (sentences ++ (new ∷ []))
    else some (set sentences sentence_num new)
