-- ===== src/Index.antt =====
-- storage_server/inverted_index.c and .h: which files hold which words. A file name is copied by
-- `strncpy` of 255 bytes into memory that is not cleared, so that the copy of a name of 255 bytes or
-- more is left without a terminating zero. The definitions are those of shorter names, and the
-- theorems take names of at most 254 bytes. `tolower` and `isalnum` are those of the C locale; bytes above 127 are no letters.
pub mod Names
pub mod Entries
pub mod Removal
pub mod Words
pub mod Search
pub mod Tests
use name_file_system_docs.Base.{
  ℕ, zero, suc, ◌+◌, ◌-◌, ◌*◌, ◌%◌, ◌^◌, Bool, true, false, ◌&&◌, ◌||◌, not, Option, none, some,
  List, [], ◌∷◌, ◌++◌, map,
}
use name_file_system_docs.Base.Tests.{ltb, leb, ◌==◌, if◌then◌else◌}
use name_file_system_docs.Base.Lists.{length}
use name_file_system_docs.Base.Strings.{CString, same, same_iff, copy_str, as_signed}
use name_file_system_docs.Protocol.{max_filename_len, max_content_len}
use name_file_system_docs.Table.Chain.{Keyed, Buckets, lookup, write, update, append_to}

abbrev pub max_word_len : ℕ
max_word_len = 100

abbrev pub max_files_per_word : ℕ
max_files_per_word = 50

abbrev pub index_size : ℕ
index_size = 2003

-- `files.file_count` is the length of `filenames`.
pub record IndexNode : Type 0 where
  pub word : CString
  pub filenames : List CString

abbrev pub InvertedIndex : Type 0
InvertedIndex = Buckets IndexNode

abbrev tolower : ℕ → ℕ
tolower c = if leb b'A' c && leb c b'Z' then c + 32 else c

hash_from : ℕ → CString → ℕ
unfolding as_signed
hash_from hash [] = hash
hash_from hash (c ∷ s) = hash_from ((hash * 33 + as_signed (2 ^ 64) (tolower c)) % 2 ^ 64) s

unfoldable pub hash_word : CString → ℕ
unfolding hash_from
hash_word word = hash_from 5381 word % index_size

unfoldable pub to_lowercase : CString → CString
to_lowercase s = map tolower (copy_str max_word_len s)

unfoldable pub is_separator : ℕ → Bool
is_separator c =
    not ((leb b'0' c && leb c b'9') || (leb b'A' c && leb c b'Z') || (leb b'a' c && leb c b'z'))

abbrev pub index_keys : Keyed IndexNode CString
index_keys = record {
  key = λ n. n.word;
  matches = same;
  matches_iff = same_iff;
  bucket_of = hash_word;
}

unfoldable pub index_init : InvertedIndex
index_init i = []

-- The loop `strcmp(filenames[i], filename) == 0`.
unfoldable pub has_file : List CString → CString → Bool
has_file [] f = false
has_file (g ∷ gs) f = if same g f then true else has_file gs f

-- The result is `true` for 0 and `false` for -1. `word` is a word of at most 99 bytes in lower case
-- from the second test on, and `f` has at most 254 bytes, which `strncpy` then pads with zeros.
unfoldable pub add_normalized : InvertedIndex → CString → CString → Bool × InvertedIndex
add_normalized index word f = elim (lookup index_keys index word) [
  | some n ↦
      if has_file n.filenames f
      then (true, index)
      else if ltb (length n.filenames) max_files_per_word
      then (
        true,
        update index_keys index word
            (λ n. record n { filenames = n.filenames ++ (copy_str max_filename_len f ∷ []) }),
      )
      else (false, index)
  | none ↦ (
    true,
    append_to index_keys index word
        (record { word = word; filenames = copy_str max_filename_len f ∷ [] }),
  )
]

unfoldable pub index_add_word : InvertedIndex → CString → CString → Bool × InvertedIndex
index_add_word index word f =
    if length word == 0 then (false, index) else add_normalized index (to_lowercase word) f

-- The shift of the names after the first that is `f`.
unfoldable pub drop_file : List CString → CString → List CString
drop_file [] f = []
drop_file (g ∷ gs) f = if same g f then gs else g ∷ drop_file gs f

-- One chain: the file is taken out of each word's list, and a word that is left with none goes.
unfoldable pub strip : CString → List IndexNode → List IndexNode × ℕ
strip f [] = ([], 0)
strip f (n ∷ c) =
    let (kept, removed) = strip f c in
    if has_file n.filenames f
    then (
      if length (drop_file n.filenames f) == 0
          then kept
          else record n { filenames = drop_file n.filenames f } ∷ kept,
      removed + 1,
    )
    else (n ∷ kept, removed)

-- The chains from `i` on, `n` of them.
unfoldable pub strip_from : CString → InvertedIndex → ℕ → ℕ → InvertedIndex × ℕ
strip_from f index i zero = (index, 0)
strip_from f index i (suc n) =
    let (kept, removed) = strip f (index i) in
    let (index', more) = strip_from f (write index i kept) (i + 1) n in (index', removed + more)

unfoldable pub index_remove_file : InvertedIndex → CString → InvertedIndex × ℕ
index_remove_file index f = strip_from f index 0 index_size

-- What the loop with `strcat` leaves behind `result`: the names with a newline between two.
unfoldable pub further_names : List CString → CString
further_names [] = []
further_names (f ∷ fs) = 10 ∷ (f ++ further_names fs)

unfoldable pub result_text : List CString → CString
result_text [] = []
result_text (f ∷ fs) = f ++ further_names fs

-- The names whose text the search leaves in `result`; a word that no file has gives none, and a fixed
-- text. `none` is an overflow of `result`.
unfoldable pub index_search : InvertedIndex → CString → Option (List CString)
index_search index word = elim (lookup index_keys index (to_lowercase word)) [
  | some n ↦
      if ltb (length (result_text n.filenames)) max_content_len then some n.filenames else none
  | none ↦ some []
]

-- A word that has ended is indexed if it has two bytes or more; the first component counts it.
unfoldable pub end_word : InvertedIndex → CString → CString → ℕ × InvertedIndex
end_word index f word =
    if leb 2 (length word) then (1, (index_add_word index word f).1) else (0, index)

-- `if (word_idx < MAX_WORD_LEN - 1) word[word_idx++] = buffer[i];`
abbrev pub grow : CString → ℕ → CString
grow word c = if ltb (length word) (max_word_len - 1) then word ++ (c ∷ []) else word

unfoldable pub index_loop : InvertedIndex → CString → CString → CString → ℕ × InvertedIndex
index_loop index f word [] = end_word index f word
index_loop index f word (c ∷ s) =
    let ended = index_loop (end_word index f word).1 f [] s in
    let longer = index_loop index f (grow word c) s in
    if is_separator c then ((end_word index f word).0 + ended.0, ended.1) else longer

unfoldable pub index_file : InvertedIndex → CString → CString → ℕ × InvertedIndex
index_file index f content =
    if length content == 0
    then (0, index)
    else index_loop (index_remove_file index f).0 f [] (copy_str max_content_len content)

unfoldable pub index_destroy : InvertedIndex → InvertedIndex
index_destroy index i = if ltb i index_size then [] else index i
