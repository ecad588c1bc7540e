-- ===== src/Parser.antt =====
-- storage_server/sentence_parser.c and .h: a file's text as sentences, and a sentence as words. An
-- array of strings with its count is a list; growing the arrays, and freeing them, leaves no trace.
pub mod Sentences
pub mod Words
pub mod Insert
pub mod Tests
use name_file_system_docs.Base.{
  ℕ, Bool, true, false, ◌&&◌, ◌||◌, not, Option, none, some, List, [], ◌∷◌, ◌++◌, map,
}
use name_file_system_docs.Base.Tests.{ltb, leb, ◌==◌, if◌then◌else◌}
use name_file_system_docs.Base.Lists.{length, take, drop}
use name_file_system_docs.Base.Strings.{CString, emit}
use mathlib.Core.Option

-- `c == '.' || c == '!' || c == '?'`
unfoldable pub is_delimiter : ℕ → Bool
is_delimiter c = c == b'.' || c == b'!' || c == b'?'

-- `isspace` in the C locale.
unfoldable pub isspace : ℕ → Bool
isspace c = c == b' ' || (leb 9 c && leb c 13)

-- The loop of `parse_sentences`; `seg` is the text from `start` up to `ptr`. At the end the text
-- from `start` on is added if it is not empty.
unfoldable pub sentences_from : CString → CString → List CString
sentences_from seg [] = emit seg []
sentences_from seg (c ∷ s) =
    let closed = sentences_from [] s in
    let open_ = sentences_from (seg ++ (c ∷ [])) s in
    if is_delimiter c then (seg ++ (c ∷ [])) ∷ closed else open_

unfoldable pub parse_sentences : CString → List CString
parse_sentences content = sentences_from [] content

-- `split_by_delimiters` is written out again in the source, with the same loop.
unfoldable pub parts_from : CString → CString → List CString
parts_from part [] = emit part []
parts_from part (c ∷ s) =
    let closed = parts_from [] s in
    let longer = parts_from (part ++ (c ∷ [])) s in
    if is_delimiter c then (part ++ (c ∷ [])) ∷ closed else longer

unfoldable pub split_by_delimiters : CString → List CString
split_by_delimiters str = parts_from [] str

unfoldable pub has_delimiter : CString → Bool
has_delimiter [] = false
has_delimiter (c ∷ s) = if is_delimiter c then true else has_delimiter s

-- `strcat` of all.
unfoldable pub rebuild_file : List CString → CString
rebuild_file [] = []
rebuild_file (s ∷ ss) = s ++ rebuild_file ss

-- `char word_buf[1024]`
abbrev pub word_buf_len : ℕ
word_buf_len = 1024

-- The end of a word: its terminating zero is written at `word_buf[word_len]`.
abbrev pub end_word : CString → Option (List CString) → Option (List CString)
end_word buf rest = if leb word_buf_len (length buf) then none else Option.map (λ ws. buf ∷ ws) rest

-- The loop of `parse_words`; `buf` is `word_buf` up to `word_len`. `none` is a write past the end
-- of `word_buf`, which the source does not guard against.
unfoldable pub words_loop : CString → CString → Option (List CString)
words_loop [] [] = some []
words_loop (b ∷ buf) [] = end_word (b ∷ buf) (some [])
words_loop [] (c ∷ s) =
    let rest = words_loop [] s in
    let longer = words_loop (c ∷ []) s in if isspace c then rest else longer
words_loop (b ∷ buf) (c ∷ s) =
    let rest = end_word (b ∷ buf) (words_loop [] s) in
    let longer = words_loop ((b ∷ buf) ++ (c ∷ [])) s in
    if isspace c then rest else if leb word_buf_len (length (b ∷ buf)) then none else longer

unfoldable pub parse_words : CString → Option (List CString)
parse_words sentence = words_loop [] sentence

-- What `insert_word` comes to: the new sentence, `NULL` for a bad index, or one of its two faults:
-- a write past `word_buf`, and the read of `new_sentence[-1]`.
pub data Insertion : Type 0 where
  inserted : CString → Insertion
  bad_index : Insertion
  buffer_overflow : Insertion
  read_before_start : Insertion

-- `strcat(words[i]); strcat(" ");` for each.
unfoldable pub spaced : List CString → CString
spaced [] = []
spaced (w ∷ ws) = w ++ (b' ' ∷ spaced ws)

-- The last loop: no space after the last word.
unfoldable pub joined : List CString → CString
joined [] = []
joined (w ∷ []) = w
joined (w ∷ v ∷ ws) = w ++ (b' ' ∷ joined (v ∷ ws))

abbrev pub keep_first : ℕ → Insertion → Insertion
keep_first c (inserted s) = inserted (c ∷ s)
keep_first c bad_index = bad_index
keep_first c buffer_overflow = buffer_overflow
keep_first c read_before_start = read_before_start

-- The test at the end on `new_sentence[len - 1]` and `new_sentence[len - 2]`, and the cut.
unfoldable pub trim : CString → Insertion
trim [] = inserted []
trim (c ∷ []) = if c == b' ' then read_before_start else inserted (c ∷ [])
trim (c ∷ d ∷ []) =
    if d == b' ' && not (is_delimiter c) then inserted (c ∷ []) else inserted (c ∷ d ∷ [])
trim (c ∷ d ∷ e ∷ s) = keep_first c (trim (d ∷ e ∷ s))

-- The sentence before the last test.
abbrev pub with_word : List CString → ℕ → CString → CString
with_word words i word = spaced (take i words) ++ (word ++ (b' ' ∷ joined (drop i words)))

-- A negative `word_idx` is, as its bit pattern, past the number of words of any sentence.
unfoldable pub insert_word : CString → ℕ → CString → Insertion
insert_word sentence word_idx word = elim (parse_words sentence) [
  | none ↦ buffer_overflow
  | some words ↦
      if ltb (length words) word_idx then bad_index else trim (with_word words word_idx word)
]
