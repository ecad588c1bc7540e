-- ===== src/Session/Commit.antt =====
-- The commit of a write session: in every branch the new text of the file is the old one with the
-- one sentence replaced, or with one more at the end.
use name_file_system_docs.Base.{
  ℕ, zero, suc, ◌≤◌, ◌<◌, ◌≡◌, refl, sym, ap, ◌∙◌, inl, inr, false, some, List, [], ◌∷◌, ◌++◌,
  append-nil, append_assoc, arith,
}
use name_file_system_docs.Base.Tests.{ltb, ◌==◌, ==_iff, Bool-cases}
use name_file_system_docs.Base.Lists.{length, take, drop, set}
use name_file_system_docs.Base.Strings.{CString}
use name_file_system_docs.Parser.{split_by_delimiters, has_delimiter, rebuild_file}
use name_file_system_docs.Parser.Sentences.{rebuild-parse_sentences, split-parse_sentences}
use name_file_system_docs.Session.{commit_sentences}

rebuild-append :
    (ss ts : List CString) → rebuild_file (ss ++ ts) ≡ rebuild_file ss ++ rebuild_file ts
unfolding rebuild_file
rebuild-append [] ts = refl
rebuild-append (s ∷ ss) ts =
    ap (λ (t : CString). s ++ t) (rebuild-append ss ts)
    ∙ sym (append_assoc s (rebuild_file ss) (rebuild_file ts))

rebuild-split : (s : CString) → rebuild_file (split_by_delimiters s) ≡ s
rebuild-split s = ap rebuild_file (split-parse_sentences s) ∙ (rebuild-parse_sentences s).0

-- The text with the sentence `n` replaced by `new`.
abbrev pub spliced : List CString → ℕ → CString → CString
spliced ss n new = rebuild_file (take n ss) ++ (new ++ rebuild_file (drop (suc n) ss))

rebuild-set :
    (ss : List CString) (n : ℕ) (new : CString)
    → n < length ss
    → rebuild_file (set ss n new) ≡ spliced ss n new
unfolding rebuild_file
rebuild-set [] n new h = absurd (omega arith)
rebuild-set (s ∷ ss) zero new h = refl
rebuild-set (s ∷ ss) (suc n) new h =
    ap (λ (t : CString). s ++ t) (rebuild-set ss n new (omega arith))
    ∙ sym (append_assoc s (rebuild_file (take n ss)) (new ++ rebuild_file (drop (suc n) ss)))

rebuild_end :
    (ss : List CString) (new : CString)
    → rebuild_file (ss ++ (new ∷ [])) ≡ spliced ss (length ss) new
unfolding rebuild_file
rebuild_end [] new = refl
rebuild_end (s ∷ ss) new =
    ap (λ (t : CString). s ++ t) (rebuild_end ss new)
    ∙ sym (
        append_assoc s (rebuild_file (take (length ss) ss))
          (new ++ rebuild_file (drop (suc (length ss)) ss)))

-- Replacement by parts.
rebuild-parts :
    (ss : List CString) (n : ℕ) (new : CString)
    → rebuild_file (take n ss ++ (split_by_delimiters new ++ drop (suc n) ss)) ≡ spliced ss n new
rebuild-parts ss n new =
    rebuild-append (take n ss) (split_by_delimiters new ++ drop (suc n) ss)
    ∙ ap (λ (t : CString). rebuild_file (take n ss) ++ t)
        (rebuild-append (split_by_delimiters new) (drop (suc n) ss)
          ∙ ap (λ (t : CString). t ++ rebuild_file (drop (suc n) ss)) (rebuild-split new))

-- A commit replaces one sentence of the text and leaves every other byte alone. If the session's
-- sentence number is at most the number of the file's sentences, the commit does not fault, and
-- the file's new text is the sentences in front, the new sentence, and the sentences behind,
-- whether the new sentence is split at delimiters, appended, or put in the place of the old.
pub commit-spliced :
    (ss : List CString) (n : ℕ) (new : CString)
    → n ≤ length ss
    → (after : List CString) × (commit_sentences ss n new ≡ some after)
      × (rebuild_file after ≡ spliced ss n new)
unfolding commit_sentences rebuild_file
commit-spliced [] (suc n) new h = absurd (omega arith)
commit-spliced [] zero new h = elim (Bool-cases (has_delimiter new)) [
  | inl split ↦ (split_by_delimiters new, rw split, rebuild-split new ∙ sym (append-nil new))
  | inr whole ↦ (new ∷ [], rw whole, refl)
]
commit-spliced (s ∷ ss) n new h =
    let inside : ltb (length (s ∷ ss)) n ≡ false = ground arith in
    let filled : (length (s ∷ ss) == 0) ≡ false = ground arith in
    elim (Bool-cases (has_delimiter new)) [
      | inl split ↦ (
        take n (s ∷ ss) ++ (split_by_delimiters new ++ drop (suc n) (s ∷ ss)),
        rw (filled, inside, split),
        rebuild-parts (s ∷ ss) n new,
      )
      | inr whole ↦ elim (Bool-cases (n == length (s ∷ ss))) [
        | inl last ↦ (
          (s ∷ ss) ++ (new ∷ []),
          rw (filled, inside, whole, last),
          rebuild_end (s ∷ ss) new
              ∙ ap (λ (k : ℕ). spliced (s ∷ ss) k new) (sym ((==_iff n (length (s ∷ ss))).0 last)),
        )
        | inr within ↦ (
          set (s ∷ ss) n new,
          rw (filled, inside, whole, within),
          rebuild-set (s ∷ ss) n new (ground (arith, ==_iff n (length (s ∷ ss)))),
        )
      ]
    ]
