-- ===== src/Parser/Insert.antt =====
-- `insert_word` of sentence_parser.c: what it does to the words of a sentence.
use name_file_system_docs.Base.{
  ℕ, zero, suc, ◌≤◌, ◌<◌, ◌≡◌, refl, sym, ap, ◌∙◌, subst, ◌≢◌, ◌⊎◌, inl, inr, true, false, ◌&&◌,
  not, none, some, List, [], ◌∷◌, ◌++◌, append-nil, append_assoc, arith,
}
use name_file_system_docs.Base.Tests.{ltb, ◌==◌, Bool-cases}
use name_file_system_docs.Base.Lists.{length, take, drop, All, length-append}
use name_file_system_docs.Base.Strings.{CString}
use name_file_system_docs.Parser.{
  isspace, is_delimiter, parse_words, inserted, bad_index, buffer_overflow, read_before_start,
  spaced, joined, trim, with_word, insert_word,
}
use name_file_system_docs.Parser.Words.{
  words, words_from, IsWord, guarded, all_short, parse_words-guarded, words_from-append,
  words-IsWord, words-All,
}

space_is : isspace b' ' ≡ true
unfolding isspace
space_is = refl

-- A word and a space in front.
words-cons : (w t : CString) → IsWord w → words (w ++ (b' ' ∷ t)) ≡ w ∷ words t
words-cons w t h =
    words_from-append [] w t b' ' space_is
    ∙ ap (λ (l : List CString). l ++ words t) (words-IsWord w h)

words-spaced :
    (ws : List CString) (t : CString) → All IsWord ws → words (spaced ws ++ t) ≡ ws ++ words t
unfolding spaced
words-spaced [] t a = refl
words-spaced (w ∷ ws) t a =
    ap words (append_assoc w (b' ' ∷ spaced ws) t)
    ∙ words-cons w (spaced ws ++ t) a.0
    ∙ ap (λ (l : List CString). w ∷ l) (words-spaced ws t a.1)

words-joined : (ws : List CString) → All IsWord ws → words (joined ws) ≡ ws
unfolding joined words_from
words-joined [] a = refl
words-joined (w ∷ []) a = words-IsWord w a.0
words-joined (w ∷ v ∷ ws) a =
    words-cons w (joined (v ∷ ws)) a.0
    ∙ ap (λ (l : List CString). w ∷ l) (words-joined (v ∷ ws) a.1)

take-All : (P : CString → Type 0) (n : ℕ) (ws : List CString) → All P ws → All P (take n ws)
take-All P zero ws a = tt
take-All P (suc n) [] a = tt
take-All P (suc n) (w ∷ ws) a = (a.0, take-All P n ws a.1)

drop-All : (P : CString → Type 0) (n : ℕ) (ws : List CString) → All P ws → All P (drop n ws)
drop-All P zero ws a = a
drop-All P (suc n) [] a = tt
drop-All P (suc n) (w ∷ ws) a = drop-All P n ws a.1

-- The text that is built has the new words between the old.
words-with_word :
    (ws : List CString) (i : ℕ) (word : CString)
    → All IsWord ws
    → words (with_word ws i word) ≡ take i ws ++ (words word ++ drop i ws)
words-with_word ws i word a =
    words-spaced (take i ws) (word ++ (b' ' ∷ joined (drop i ws))) (take-All IsWord i ws a)
    ∙ ap (λ (l : List CString). take i ws ++ l)
        (words_from-append [] word (joined (drop i ws)) b' ' space_is
          ∙ ap (λ (l : List CString). words word ++ l)
              (words-joined (drop i ws) (drop-All IsWord i ws a)))

-- A space at the end changes no word.
words-end_space : (s : CString) → words (s ++ (b' ' ∷ [])) ≡ words s
unfolding words_from
words-end_space s = words_from-append [] s [] b' ' space_is ∙ append-nil (words s)

-- The text is cut at most by a space at its end, or has just one space.
trim-cases :
    (s : CString)
    → (trim s ≡ inserted s)
      ⊎ ((r : CString) × (trim s ≡ inserted r) × (s ≡ r ++ (b' ' ∷ [])))
      ⊎ ((trim s ≡ read_before_start) × (s ≡ b' ' ∷ []))
unfolding trim
trim-cases [] = inl refl
trim-cases (c ∷ []) = elim (Bool-cases (c == b' ')) [
  | inl space ↦ inr (inr (rw space, ground arith))
  | inr other ↦ inl (rw other)
]
trim-cases (c ∷ d ∷ []) = elim (Bool-cases (d == b' ' && not (is_delimiter c))) [
  | inl cut ↦ inr (inl (c ∷ [], rw cut, ground arith))
  | inr kept ↦ inl (rw kept)
]
trim-cases (c ∷ d ∷ e ∷ s) = elim (trim-cases (d ∷ e ∷ s)) [
  | inl whole ↦ inl (rw whole)
  | inr (inl (r, cut, shape)) ↦ inr (inl (c ∷ r, rw cut, ap (λ (t : CString). c ∷ t) shape))
  | inr (inr (fault, shape)) ↦ absurd (ground arith)
]

all_short-append : (ws vs : List CString) → all_short (ws ++ vs) ≡ (all_short ws && all_short vs)
unfolding all_short
all_short-append [] vs = refl
all_short-append (w ∷ ws) vs = ground (arith, all_short-append ws vs)

all_short-take : (n : ℕ) (ws : List CString) → all_short ws ≡ true → all_short (take n ws) ≡ true
unfolding all_short
all_short-take zero ws h = refl
all_short-take (suc n) [] h = refl
all_short-take (suc n) (w ∷ ws) h = ground (arith, all_short-take n ws)

all_short-drop : (n : ℕ) (ws : List CString) → all_short ws ≡ true → all_short (drop n ws) ≡ true
unfolding all_short
all_short-drop zero ws h = h
all_short-drop (suc n) [] h = refl
all_short-drop (suc n) (w ∷ ws) h = all_short-drop n ws (ground arith)

-- What a successful parse says.
parsed :
    (s : CString) (ws : List CString)
    → parse_words s ≡ some ws
    → (words s ≡ ws) × (all_short ws ≡ true)
parsed s ws h = elim (Bool-cases (all_short (words s))) [
  | inl short ↦
      let e : guarded (words s) ≡ some ws = sym (parse_words-guarded s) ∙ h in
      let same_words : words s ≡ ws = ground (arith, e, short) in
      (same_words, ap all_short (sym same_words) ∙ short)
  | inr long ↦
      let e : guarded (words s) ≡ some ws = sym (parse_words-guarded s) ∙ h in
      absurd (ground (arith, e, long))
]

length-with_word :
    (ws : List CString) (i : ℕ) (word : CString) → length word < length (with_word ws i word)
length-with_word ws i word = omega (
  arith,
  length-append (spaced (take i ws)) (word ++ (b' ' ∷ joined (drop i ws))),
  length-append word (b' ' ∷ joined (drop i ws)),
)

module _ (s word : CString) (ws : List CString) (parse_s : parse_words s ≡ some ws) where
  -- Inserting text at a word index that the sentence has, or at its end, puts exactly the words of
  -- the text between the words of the sentence, if the text is not empty and all words fit the
  -- parser's buffer. Neither fault occurs.
  pub insert_word-parse_words :
      (i : ℕ) (vs : List CString)
      → i ≤ length ws
      → word ≢ []
      → parse_words word ≡ some vs
      → (r : CString) × (insert_word s i word ≡ inserted r)
        × (parse_words r ≡ some (take i ws ++ (vs ++ drop i ws)))
  unfolding insert_word
  insert_word-parse_words i vs fits some_text parse_word =
      let (s_words, s_short) = parsed s ws parse_s in
      let (w_words, w_short) = parsed word vs parse_word in
      let words_in : All IsWord ws = subst (All IsWord) s_words (words-All s) in
      let built : words (with_word ws i word) ≡ take i ws ++ (vs ++ drop i ws) =
        words-with_word ws i word words_in
        ∙ ap (λ (l : List CString). take i ws ++ (l ++ drop i ws)) w_words in
      let short : all_short (take i ws ++ (vs ++ drop i ws)) ≡ true =
        all_short-append (take i ws) (vs ++ drop i ws)
        ∙ rw
            (all_short-append, all_short-take i ws s_short, w_short, all_short-drop i ws s_short) in
      let index : ltb (length ws) i ≡ false = ground arith in
      let finish = λ (r : CString) (e : words r ≡ take i ws ++ (vs ++ drop i ws)).
        let g : parse_words r ≡ some (take i ws ++ (vs ++ drop i ws)) =
          parse_words-guarded r ∙ rw (e, short) in
        g in
      elim (trim-cases (with_word ws i word)) [
        | inl whole ↦ (
          with_word ws i word,
          rw (parse_s, insert_word, index) whole,
          finish (with_word ws i word) built,
        )
        | inr (inl (r, cut, shape)) ↦ (
          r,
          rw (parse_s, insert_word, index) cut,
          finish r (sym (words-end_space r) ∙ ap words (sym shape) ∙ built),
        )
        | inr (inr (fault, shape)) ↦ absurd (
            some_text (
              no_bytes word (omega (arith, length-with_word ws i word, ap (length {A = ℕ}) shape))))
      ]
    where
      no_bytes : (w : CString) → length w < 1 → w ≡ []
      no_bytes [] h = refl
      no_bytes (c ∷ w) h = absurd (omega arith)

  -- An index past the number of words is refused.
  insert_word-bad_index : (i : ℕ) → length ws < i → insert_word s i word ≡ bad_index
  unfolding insert_word
  insert_word-bad_index i h =
      let index : ltb (length ws) i ≡ true = ground arith in rw (parse_s, insert_word, index)

-- The fault that is left. The empty text put into a sentence with no words makes one space, whose
-- byte before the first `insert_word` reads.
pub insert_word_empty :
    (s : CString) → parse_words s ≡ some [] → insert_word s 0 [] ≡ read_before_start
unfolding insert_word spaced joined trim
insert_word_empty s h = rw (h, insert_word)

-- Overflow. A sentence with a word of 1024 bytes or more makes the parser write past its buffer,
-- whatever is inserted and where.
insert_word_overflow :
    (s word : CString) (i : ℕ)
    → all_short (words s) ≡ false
    → insert_word s i word ≡ buffer_overflow
unfolding insert_word
insert_word_overflow s word i long =
    let e : parse_words s ≡ none = parse_words-guarded s ∙ rw long in rw (e, insert_word)
