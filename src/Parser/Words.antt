-- ===== src/Parser/Words.antt =====
-- `parse_words` of sentence_parser.c: what the words of a text are, and when its buffer holds them.
use name_file_system_docs.Base.{
  ℕ, ◌≡◌, refl, ap, ◌∙◌, ◌≢◌, inl, inr, Bool, true, false, ◌&&◌, ◌||◌, not, Option, none, some,
  List, [], ◌∷◌, ◌++◌, append-nil, append_assoc, arith,
}
use name_file_system_docs.Base.Tests.{leb, if◌then◌else◌, Bool-cases}
use name_file_system_docs.Base.Lists.{length, All, length-append}
use name_file_system_docs.Base.Strings.{CString, emit}
use name_file_system_docs.Parser.{isspace, words_loop, parse_words, end_word, word_buf_len}

-- The words of a text, with no limit on their length: the longest runs without space.
unfoldable pub words_from : CString → CString → List CString
words_from run [] = emit run []
words_from run (c ∷ s) =
    let rest = words_from [] s in
    let longer = words_from (run ++ (c ∷ [])) s in if isspace c then emit run rest else longer

abbrev pub words : CString → List CString
words s = words_from [] s

-- Every word fits the buffer with its terminating zero.
unfoldable pub all_short : List CString → Bool
all_short [] = true
all_short (w ∷ ws) = not (leb word_buf_len (length w)) && all_short ws

abbrev pub guarded : List CString → Option (List CString)
guarded ws = if all_short ws then some ws else none

all_short-long :
    (run s : CString) → leb word_buf_len (length run) ≡ true → all_short (words_from run s) ≡ false
unfolding all_short words_from
all_short-long [] [] h = absurd (ground arith)
all_short-long (b ∷ run) [] h = ground arith
all_short-long run (c ∷ s) h = elim (Bool-cases (isspace c)) [
  | inl space ↦ rw space (emitted run h)
  | inr letter ↦ rw letter (all_short-long (run ++ (c ∷ [])) s (rw length-append (ground arith)))
]
  where
    emitted :
        (run : CString)
        → leb word_buf_len (length run) ≡ true
        → all_short (emit run (words_from [] s)) ≡ false
    emitted [] h = absurd (ground arith)
    emitted (b ∷ run) h = ground arith

loop-guarded : (buf s : CString) → words_loop buf s ≡ guarded (words_from buf s)
unfolding words_loop words_from all_short
loop-guarded [] [] = refl
loop-guarded (b ∷ buf) [] = ground arith
loop-guarded [] (c ∷ s) = ground (arith, loop-guarded [] s, loop-guarded (c ∷ []) s)
loop-guarded (b ∷ buf) (c ∷ s) = elim (Bool-cases (isspace c)) [
  | inl space ↦ rw (space, loop-guarded [] s) (finished (words_from [] s))
  | inr letter ↦ rw letter (elim (Bool-cases (leb word_buf_len (length (b ∷ buf)))) [
    | inl long ↦
        let longer : leb word_buf_len (length ((b ∷ buf) ++ (c ∷ []))) ≡ true =
          rw length-append (ground arith) in
        rw (long, all_short-long ((b ∷ buf) ++ (c ∷ [])) s longer)
    | inr short ↦ rw short (loop-guarded ((b ∷ buf) ++ (c ∷ [])) s)
  ])
]
  where
    finished : (ws : List CString) → end_word (b ∷ buf) (guarded ws) ≡ guarded ((b ∷ buf) ∷ ws)
    finished ws = ground arith

-- `parse_words` returns the words of the sentence, all of them and in order, exactly if each is
-- shorter than 1024 bytes; a longer word is written past the end of `word_buf`.
pub parse_words-guarded : (s : CString) → parse_words s ≡ guarded (words s)
unfolding parse_words
parse_words-guarded s = loop-guarded [] s

-- A space ends a word and starts afresh.
pub words_from-append :
    (run s t : CString) (c : ℕ)
    → isspace c ≡ true
    → words_from run (s ++ (c ∷ t)) ≡ words_from run s ++ words t
unfolding words_from
words_from-append [] [] t c h = rw h
words_from-append (b ∷ run) [] t c h = rw h
words_from-append [] (d ∷ s) t c h =
    ground (arith, words_from-append [] s t c h, words_from-append (d ∷ []) s t c h)
words_from-append (b ∷ run) (d ∷ s) t c h =
    ground (arith, words_from-append [] s t c h, words_from-append ((b ∷ run) ++ (d ∷ [])) s t c h)

pub has_space : CString → Bool
has_space [] = false
has_space (c ∷ s) = isspace c || has_space s

-- A word: not empty, and without space.
abbrev pub IsWord : CString → Type 0
IsWord w = (w ≢ []) × (has_space w ≡ false)

words_from-run : (run w : CString) → has_space w ≡ false → words_from run w ≡ emit (run ++ w) []
unfolding words_from has_space
words_from-run run [] h = rw (append-nil run)
words_from-run run (c ∷ w) h = elim (Bool-cases (isspace c)) [
  | inl space ↦ absurd (ground arith)
  | inr letter ↦ rw letter (
      words_from-run (run ++ (c ∷ [])) w (ground arith)
      ∙ ap (λ (t : CString). emit t []) (append_assoc run (c ∷ []) w))
]

pub words-IsWord : (w : CString) → IsWord w → words w ≡ w ∷ []
words-IsWord [] (h, plain) = absurd (h refl)
words-IsWord (c ∷ w) (h, plain) = words_from-run [] (c ∷ w) plain

has_space-append : (s t : CString) → has_space (s ++ t) ≡ (has_space s || has_space t)
unfolding has_space
has_space-append [] t = refl
has_space-append (c ∷ s) t = ground (arith, has_space-append s t)

emit-All :
    (run : CString) (rest : List CString)
    → has_space run ≡ false
    → All IsWord rest
    → All IsWord (emit run rest)
emit-All [] rest h a = a
emit-All (b ∷ run) rest h a = ((λ e. ground arith, h), a)

words_from-All : (run s : CString) → has_space run ≡ false → All IsWord (words_from run s)
unfolding words_from has_space
words_from-All run [] h = emit-All run [] h tt
words_from-All run (c ∷ s) h = elim (Bool-cases (isspace c)) [
  | inl space ↦ rw space (emit-All run (words_from [] s) h (words_from-All [] s refl))
  | inr letter ↦
      rw letter (words_from-All (run ++ (c ∷ [])) s (has_space-append run (c ∷ []) ∙ ground arith))
]

pub words-All : (s : CString) → All IsWord (words s)
unfolding has_space
words-All s = words_from-All [] s refl
