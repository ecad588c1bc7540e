-- ===== src/Parser/Tests.antt =====
-- Runs of the sentence functions on concrete texts, and the theorems about them there.
use name_file_system_docs.Base.{ℕ, zero, suc, ◌≡◌, refl, inr, false, some, [], ◌∷◌, arith}
use name_file_system_docs.Base.Strings.{CString}
use name_file_system_docs.Parser.{
  is_delimiter, isspace, sentences_from, parse_sentences, parts_from, split_by_delimiters,
  has_delimiter, rebuild_file, words_loop, parse_words, inserted, bad_index, spaced, joined, trim,
  insert_word,
}
use name_file_system_docs.Parser.Sentences.{AreSentences, rebuild-parse_sentences}
use name_file_system_docs.Parser.Words.{words, words_from, all_short, guarded, parse_words-guarded}
use name_file_system_docs.Parser.Insert.{insert_word-parse_words}

computing : Unit {0}
unfolding is_delimiter isspace sentences_from parse_sentences parts_from split_by_delimiters
    has_delimiter rebuild_file words_loop parse_words spaced joined trim insert_word words_from
    all_short
computing = tt

-- "Hi. Go on"
abbrev text : CString
text = b'H' ∷ b'i' ∷ b'.' ∷ b' ' ∷ b'G' ∷ b'o' ∷ b' ' ∷ b'o' ∷ b'n' ∷ []

abbrev hi : CString
hi = b'H' ∷ b'i' ∷ b'.' ∷ []

abbrev go_on : CString
go_on = b' ' ∷ b'G' ∷ b'o' ∷ b' ' ∷ b'o' ∷ b'n' ∷ []

two_sentences : parse_sentences text ≡ hi ∷ go_on ∷ []
unfolding computing
two_sentences = refl

two_words : parse_words go_on ≡ some ((b'G' ∷ b'o' ∷ []) ∷ (b'o' ∷ b'n' ∷ []) ∷ [])
unfolding computing
two_words = refl

-- A word in the middle: the sentence loses the space in front of it.
in_the_middle :
    insert_word go_on 1 (b'x' ∷ []) ≡ inserted (b'G' ∷ b'o' ∷ b' ' ∷ b'x' ∷ b' ' ∷ b'o' ∷ b'n' ∷ [])
unfolding computing
in_the_middle = refl

-- At the end, after a delimiter, the space that was added stays.
after_delimiter :
    insert_word hi 1 (b'!' ∷ []) ≡ inserted (b'H' ∷ b'i' ∷ b'.' ∷ b' ' ∷ b'!' ∷ b' ' ∷ [])
unfolding computing
after_delimiter = refl

past_the_end : insert_word hi 2 (b'x' ∷ []) ≡ bad_index
unfolding computing
past_the_end = refl

sentences : AreSentences (hi ∷ go_on ∷ [])
unfolding computing
sentences = ((b'H' ∷ b'i' ∷ [], b'.', refl, refl, refl), inr ((λ e. ground arith), refl))

rebuild-parse_sentences_example :
    (rebuild_file (parse_sentences text) ≡ text) × AreSentences (parse_sentences text)
rebuild-parse_sentences_example = rebuild-parse_sentences text

parse_words-guarded_example : parse_words go_on ≡ guarded (words go_on)
parse_words-guarded_example = parse_words-guarded go_on

insert_word-parse_words_example :
    (r : CString) × (insert_word hi 1 (b'x' ∷ []) ≡ inserted r)
    × (parse_words r ≡ some (hi ∷ (b'x' ∷ []) ∷ []))
unfolding computing
insert_word-parse_words_example =
    insert_word-parse_words hi (b'x' ∷ []) (hi ∷ []) refl 1 ((b'x' ∷ []) ∷ []) (omega arith)
      (λ e. ground arith) refl

abbrev letters : ℕ → CString
letters zero = []
letters (suc n) = b'a' ∷ letters n

long_word : all_short (words (letters 1024)) ≡ false
unfolding computing
long_word = refl
