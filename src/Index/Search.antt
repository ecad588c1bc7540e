-- ===== src/Index/Search.antt =====
-- `index_file` and `index_search` of inverted_index.c together: a search finds the files that have
-- the word.
use name_file_system_docs.Base.{
  ℕ, ◌+◌, ◌≤◌, ◌<◌, ◌≡◌, refl, ◌∙◌, Bool, false, Option, none, some, List, [], ◌∷◌, arith,
}
use name_file_system_docs.Base.Tests.{ltb, leb, ◌==◌, if◌then◌else◌}
use name_file_system_docs.Base.Lists.{length, take, length-append}
use name_file_system_docs.Base.Strings.{CString, same}
use mathlib.Core.Option
use name_file_system_docs.Protocol.{max_content_len}
use name_file_system_docs.Index.{
  InvertedIndex, to_lowercase, has_file, index_file, index_remove_file, index_search, result_text,
  further_names,
}
use name_file_system_docs.Index.Entries.{files_of, IsValid}
use name_file_system_docs.Index.Removal.{remove_file_words}
use name_file_system_docs.Index.Words.{
  runs_from, kept, is_word, add_each, HasRoom, add_each-has_file, add_each-IsValid, loop-runs,
}

-- The words of a file's content: its runs of letters and digits, in the first 4095 bytes.
abbrev pub content_words : CString → List CString
content_words content = kept (runs_from [] (take 4095 content))

-- Whether a search for the word lists the file, if its answer fits.
unfoldable pub finds : InvertedIndex → CString → CString → Option Bool
finds index word g = Option.map (λ fs. has_file fs g) (index_search index word)

-- The bytes of the names, each with one more for the newline or the zero behind it.
pub listing_size : List CString → ℕ
listing_size [] = 0
listing_size (f ∷ fs) = length f + 1 + listing_size fs

-- The names, with a newline between two and a zero at the end, fit the buffer of the answer.
abbrev pub listing_fits : List CString → Bool
listing_fits names = leb (listing_size names) 4096

length-further_names : (fs : List CString) → length (further_names fs) ≡ listing_size fs
unfolding further_names listing_size
length-further_names [] = refl
length-further_names (f ∷ fs) =
    omega (arith, length-append f (further_names fs), length-further_names fs)

result_text-fits :
    (fs : List CString) → ltb (length (result_text fs)) max_content_len ≡ listing_fits fs
unfolding result_text listing_size
result_text-fits [] = refl
result_text-fits (f ∷ fs) =
    ground (arith, length-append f (further_names fs), length-further_names fs)

finds-has_file :
    (index : InvertedIndex) (word g : CString)
    → let names = files_of index (to_lowercase word) in
      finds index word g ≡ (if listing_fits names then some (has_file names g) else none)
unfolding finds index_search has_file result_text listing_size
finds-has_file index word g = ground (arith, result_text-fits (files_of index (to_lowercase word)))

-- A search finds the files that have the word. After a file with content is indexed, a search
-- for any word, in upper or lower case, lists this file exactly if the word is among those of
-- its new content, and any other file exactly if the index had it for the word before; but if
-- the names for the word need more than 4095 bytes, the search overflows its buffer. The index
-- stays well formed, and the result is the number of the words. The condition is that no word is
-- in 50 files already. The index is well formed, and the name has at most 254 bytes.
pub finds-index_file :
    (index : InvertedIndex) (f content word g : CString)
    → length f ≤ 254
    → (length content == 0) ≡ false
    → ((w : CString) → length (files_of index w) < 50)
    → IsValid index
    → let r = index_file index f content in
      IsValid r.1
      × (finds r.1 word g ≡ (
          if listing_fits (files_of r.1 (to_lowercase word))
          then some (
              if same f g
              then is_word (content_words content) (to_lowercase word)
              else has_file (files_of index (to_lowercase word)) g)
          else none))
      × (r.0 ≡ length (content_words content))
unfolding index_file
finds-index_file index f content word g fits some_text few v =
    let removed = (index_remove_file index f).0 in
    let words = content_words content in
    let low = to_lowercase word in
    let (valid, listed, fewer) = remove_file_words index f low g v in
    let room : HasRoom removed f =
      λ w. ground (arith, (remove_file_words index f w g v).2, few w) in
    rw (some_text, loop-runs removed f [] (take 4095 content))
      (
        add_each-IsValid removed f words fits valid,
        finds-has_file (add_each removed f words) word g
            ∙ rw (add_each-has_file removed f words low g fits room) (ground (arith, listed)),
        refl,
      )
