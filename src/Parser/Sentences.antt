-- ===== src/Parser/Sentences.antt =====
-- The sentence functions of sentence_parser.c: splitting and rebuilding are inverse, on texts and
-- on lists of sentences.
use name_file_system_docs.Base.{
  ℕ, ◌≡◌, refl, sym, ap, ◌∙◌, ◌≢◌, ◌⊎◌, inl, inr, true, false, ◌||◌, List, [], ◌∷◌, ◌++◌,
  append-nil, append_assoc, arith,
}
use name_file_system_docs.Base.Tests.{Bool-cases}
use name_file_system_docs.Base.Strings.{CString, emit}
use name_file_system_docs.Parser.{
  is_delimiter, sentences_from, parse_sentences, parts_from, split_by_delimiters, has_delimiter,
  rebuild_file,
}

has_delimiter-append :
    (s t : CString) → has_delimiter (s ++ t) ≡ (has_delimiter s || has_delimiter t)
unfolding has_delimiter
has_delimiter-append [] t = refl
has_delimiter-append (c ∷ s) t = ground (arith, has_delimiter-append s t)

-- A sentence with its delimiter at the end and nowhere else.
abbrev pub IsClosed : CString → Type 0
IsClosed s =
    (body : CString) × (d : ℕ) × (s ≡ body ++ (d ∷ []))
    × (has_delimiter body ≡ false)
    × (is_delimiter d ≡ true)

-- Text with no delimiter, and not empty.
abbrev pub IsOpen : CString → Type 0
IsOpen s = (s ≢ []) × (has_delimiter s ≡ false)

-- Closed sentences, but for the last, which may be open.
abbrev pub AreSentences : List CString → Type 0
AreSentences [] = Unit
AreSentences (s ∷ []) = IsClosed s ⊎ IsOpen s
AreSentences (s ∷ t ∷ ss) = IsClosed s × AreSentences (t ∷ ss)

cons-AreSentences :
    (s : CString) (ss : List CString) → IsClosed s → AreSentences ss → AreSentences (s ∷ ss)
cons-AreSentences s [] c a = inl c
cons-AreSentences s (t ∷ ss) c a = (c, a)

sentences_from-AreSentences :
    (seg s : CString) → has_delimiter seg ≡ false → AreSentences (sentences_from seg s)
unfolding sentences_from has_delimiter
sentences_from-AreSentences [] [] h = tt
sentences_from-AreSentences (b ∷ seg) [] h = inr (λ e. ground arith, h)
sentences_from-AreSentences seg (c ∷ s) h = elim (Bool-cases (is_delimiter c)) [
  | inl stop ↦ rw stop (
      cons-AreSentences (seg ++ (c ∷ [])) (sentences_from [] s) (seg, c, refl, h, stop)
        (sentences_from-AreSentences [] s refl))
  | inr go ↦ rw go (
      sentences_from-AreSentences (seg ++ (c ∷ [])) s
        (has_delimiter-append seg (c ∷ []) ∙ ground arith))
]

rebuild-sentences_from : (seg s : CString) → rebuild_file (sentences_from seg s) ≡ seg ++ s
unfolding rebuild_file sentences_from
rebuild-sentences_from [] [] = refl
rebuild-sentences_from (b ∷ seg) [] = refl
rebuild-sentences_from seg (c ∷ s) = elim (Bool-cases (is_delimiter c)) [
  | inl stop ↦ rw stop (
      ap (λ (t : CString). (seg ++ (c ∷ [])) ++ t) (rebuild-sentences_from [] s)
      ∙ append_assoc seg (c ∷ []) s)
  | inr go ↦ rw go (rebuild-sentences_from (seg ++ (c ∷ [])) s ∙ append_assoc seg (c ∷ []) s)
]

-- Splitting a text loses nothing: the sentences of `parse_sentences` put together by
-- `rebuild_file` are the text, and each of them ends in its only delimiter, but for the last,
-- which may have none and is not empty.
pub rebuild-parse_sentences :
    (content : CString)
    → (rebuild_file (parse_sentences content) ≡ content) × AreSentences (parse_sentences content)
unfolding parse_sentences has_delimiter
rebuild-parse_sentences content =
    (rebuild-sentences_from [] content, sentences_from-AreSentences [] content refl)

-- Text with no delimiter is gathered, whatever follows.
sentences_from-append :
    (seg body s : CString)
    → has_delimiter body ≡ false
    → sentences_from seg (body ++ s) ≡ sentences_from (seg ++ body) s
unfolding sentences_from has_delimiter
sentences_from-append seg [] s h = rw (append-nil seg)
sentences_from-append seg (c ∷ body) s h = elim (Bool-cases (is_delimiter c)) [
  | inl stop ↦ absurd (ground arith)
  | inr go ↦ rw go (
      sentences_from-append (seg ++ (c ∷ [])) body s (ground arith)
      ∙ ap (λ (t : CString). sentences_from t s) (append_assoc seg (c ∷ []) body))
]

sentences_from-open :
    (seg s : CString) → has_delimiter s ≡ false → sentences_from seg s ≡ emit (seg ++ s) []
unfolding sentences_from
sentences_from-open seg s h =
    ap (sentences_from seg) (sym (append-nil s)) ∙ sentences_from-append seg s [] h

emit_some : (s : CString) → s ≢ [] → emit s [] ≡ s ∷ []
emit_some [] h = absurd (h refl)
emit_some (c ∷ s) h = refl

parse_closed :
    (s rest : CString) → IsClosed s → sentences_from [] (s ++ rest) ≡ s ∷ sentences_from [] rest
unfolding sentences_from
parse_closed s rest (body, d, e, plain, stop) =
    ap (λ (t : CString). sentences_from [] (t ++ rest)) e
    ∙ ap (sentences_from []) (append_assoc body (d ∷ []) rest)
    ∙ sentences_from-append [] body (d ∷ rest) plain
    ∙ rw (stop, e)

-- Rebuilding loses nothing either: a list of closed sentences, of which the last may be open, is
-- what `parse_sentences` makes of the file rebuilt from it.
pub parse_sentences-rebuild :
    (ss : List CString) → AreSentences ss → parse_sentences (rebuild_file ss) ≡ ss
unfolding parse_sentences rebuild_file
parse_sentences-rebuild [] a = unfold sentences_from in refl
parse_sentences-rebuild (s ∷ []) (inl c) = parse_closed s [] c ∙ unfold sentences_from in refl
parse_sentences-rebuild (s ∷ []) (inr (some_text, plain)) =
    ap (sentences_from []) (append-nil s) ∙ sentences_from-open [] s plain ∙ emit_some s some_text
parse_sentences-rebuild (s ∷ t ∷ ss) (c, a) =
    parse_closed s (rebuild_file (t ∷ ss)) c
    ∙ ap (λ (r : List CString). s ∷ r) (parse_sentences-rebuild (t ∷ ss) a)

parts_from-sentences_from : (part s : CString) → parts_from part s ≡ sentences_from part s
unfolding parts_from sentences_from
parts_from-sentences_from part [] = refl
parts_from-sentences_from part (c ∷ s) =
    ground (arith, parts_from-sentences_from [] s, parts_from-sentences_from (part ++ (c ∷ [])) s)

-- The two splitting functions of the file are one function.
pub split-parse_sentences : (s : CString) → split_by_delimiters s ≡ parse_sentences s
unfolding split_by_delimiters parse_sentences
split-parse_sentences s = parts_from-sentences_from [] s
