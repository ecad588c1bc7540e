-- ===== src/Session/Tests.antt =====
-- Commits of a write session on concrete sentences, and the theorem about them there.
use name_file_system_docs.Base.{◌≡◌, refl, none, some, List, [], ◌∷◌, ◌++◌}
use name_file_system_docs.Base.Strings.{CString}
use name_file_system_docs.Parser.{
  is_delimiter, split_by_delimiters, parts_from, has_delimiter, rebuild_file, joined,
}
use name_file_system_docs.Session.{update_words, new_sentence, commit_sentences}

computing : Unit {0}
unfolding is_delimiter split_by_delimiters parts_from has_delimiter rebuild_file joined update_words
    new_sentence commit_sentences
computing = tt

-- "Hi." and " Go"
abbrev hi : CString
hi = b'H' ∷ b'i' ∷ b'.' ∷ []

abbrev go : CString
go = b' ' ∷ b'G' ∷ b'o' ∷ []

abbrev file : List CString
file = hi ∷ go ∷ []

updated : update_words (hi ∷ []) 1 (b'x' ∷ []) ≡ some (hi ∷ (b'x' ∷ []) ∷ [])
unfolding computing
updated = refl

built : new_sentence (hi ∷ (b'x' ∷ []) ∷ []) ≡ some (hi ++ (b' ' ∷ b'x' ∷ []))
unfolding computing
built = refl

-- The new sentence has a delimiter in the middle, and becomes two.
divided :
    commit_sentences file 0 (hi ++ (b' ' ∷ b'x' ∷ [])) ≡ some (hi ∷ (b' ' ∷ b'x' ∷ []) ∷ go ∷ [])
unfolding computing
divided = refl

gone : commit_sentences file 3 hi ≡ none
unfolding computing
gone = refl
