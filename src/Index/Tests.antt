-- ===== src/Index/Tests.antt =====
-- Runs of the inverted index on concrete texts, and the theorems about it there.
use name_file_system_docs.Base.{◌<◌, ◌≡◌, refl, true, none, some, [], ◌∷◌, arith}
use name_file_system_docs.Base.Tests.{if◌then◌else◌}
use name_file_system_docs.Base.Lists.{length}
use name_file_system_docs.Base.Strings.{CString, same}
use name_file_system_docs.Table.Chain.{find, modify}
use name_file_system_docs.Index.{
  InvertedIndex, index_init, hash_word, to_lowercase, is_separator, has_file, drop_file,
  add_normalized, index_add_word, end_word, index_loop, index_file, strip, index_search,
  result_text, further_names,
}
use name_file_system_docs.Index.Entries.{IsValid, files_of}
use name_file_system_docs.Index.Words.{is_word, kept, runs_from}
use name_file_system_docs.Index.Search.{finds, listing_fits, content_words, finds-index_file}

abbrev doc : CString
doc = b'd' ∷ []

abbrev note : CString
note = b'n' ∷ []

-- "To do, a"
abbrev text : CString
text = b'T' ∷ b'o' ∷ b' ' ∷ b'd' ∷ b'o' ∷ b',' ∷ b' ' ∷ b'a' ∷ []

computing : Unit {0}
unfolding find modify same index_init hash_word to_lowercase is_separator has_file drop_file
    add_normalized index_add_word end_word index_loop strip index_search is_word kept runs_from
    finds result_text further_names
computing = tt

abbrev filled : InvertedIndex
filled = (index_loop index_init doc [] text).1

two_words : (index_loop index_init doc [] text).0 ≡ 2
unfolding computing
two_words = refl

found : finds filled (b't' ∷ b'O' ∷ []) doc ≡ some true
unfolding computing
found = refl

init-IsValid : IsValid index_init
unfolding index_init find
init-IsValid = record { table = λ i. (tt, tt); unique = λ w. tt; bounded = λ w. omega arith }

none_yet : (w : CString) → length (files_of index_init w) < 50
unfolding index_init find
none_yet w = omega arith

finds-index_file_example :
    let r = index_file index_init doc text in
    IsValid r.1
    × (finds r.1 (b'T' ∷ b'O' ∷ []) doc ≡ (
        if listing_fits (files_of r.1 (to_lowercase (b'T' ∷ b'O' ∷ [])))
        then some (
            if same doc doc
            then is_word (content_words text) (to_lowercase (b'T' ∷ b'O' ∷ []))
            else has_file (files_of index_init (to_lowercase (b'T' ∷ b'O' ∷ []))) doc)
        else none))
    × (r.0 ≡ length (content_words text))
finds-index_file_example =
    finds-index_file index_init doc text (b'T' ∷ b'O' ∷ []) doc (omega arith) (ground arith)
      none_yet init-IsValid

indexed-IsValid : IsValid (index_file index_init doc text).1
indexed-IsValid =
    (finds-index_file index_init doc text [] doc (omega arith) (ground arith) none_yet
      init-IsValid).0
