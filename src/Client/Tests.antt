-- ===== src/Client/Tests.antt =====
-- A line of the client.
use name_file_system_docs.Base.{ℕ, ◌≡◌, refl, Bool, true, ◌&&◌, not, List, [], ◌∷◌, arith}
use name_file_system_docs.Base.Lists.{All}
use name_file_system_docs.Base.Strings.{CString}
use name_file_system_docs.Base.Split.{separated}
use name_file_system_docs.Client.{is_empty, is_space}
use name_file_system_docs.Client.Dialogue.{dialogue}
use name_file_system_docs.Acl.Saved.{codes, decimal, lines_text}
use name_file_system_docs.Client.Lines.{IsWord, NoSpace}
use name_file_system_docs.Client.Typed.{FitsLine, dialogue-edits, edit_lines}

abbrev grant_words : List CString
grant_words = codes "-W" ∷ codes "doc" ∷ codes "bob" ∷ []

abbrev no_space : CString → Bool
no_space [] = true
no_space (c ∷ s) = not (is_space c) && no_space s

by_test : (s : CString) → no_space s ≡ true → NoSpace s
by_test [] h = tt
by_test (c ∷ s) h = (ground arith, by_test s (ground arith))

abbrev are_words : List CString → Bool
are_words [] = true
are_words (w ∷ ws) = not (is_empty w) && no_space w && are_words ws

words_by_test : (ws : List CString) → are_words ws ≡ true → All IsWord ws
words_by_test [] h = tt
words_by_test ([] ∷ ws) h = absurd (ground arith)
words_by_test ((c ∷ w) ∷ ws) h =
    (((λ e. cc), by_test (c ∷ w) (ground arith)), words_by_test ws (ground arith))

word : (w : CString) → are_words (w ∷ []) ≡ true → IsWord w
word w h = (words_by_test (w ∷ []) h).0

abbrev edits : List (ℕ × CString)
edits = (0, codes "hello") ∷ (12, codes "world") ∷ []

lines_fit : All FitsLine edits
unfolding decimal separated
lines_fit = (omega arith, (omega arith, tt))

dialogue-edits_example : dialogue (lines_text (edit_lines edits)) ≡ (edits, true)
dialogue-edits_example =
    dialogue-edits edits
      ((omega arith, word (codes "hello") refl), ((omega arith, word (codes "world") refl), tt))
      lines_fit
