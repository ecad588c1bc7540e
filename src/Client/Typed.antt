-- ===== src/Client/Typed.antt =====
-- The dialogue of WRITE in client/client.c: the edits that are typed are the updates that are sent.
use name_file_system_docs.Base.{
  ℕ, zero, suc, ◌+◌, ◌-◌, ◌*◌, ◌/◌, ◌%◌, ◌^◌, ◌≤◌, ◌<◌, ◌≡◌, refl, ap, ◌∙◌, ◌≢◌, inl, inr, true,
  false, some, List, [], ◌∷◌, ◌++◌, map, arith,
}
use name_file_system_docs.Base.Tests.{ltb, Bool-cases}
use name_file_system_docs.Base.Lists.{length, All, length-append, take_all}
use name_file_system_docs.Base.Strings.{CString, same, copy_str}
use name_file_system_docs.Base.Split.{Lacks, Lacks-append, separated}
use name_file_system_docs.Acl.Saved.Lines.{IsLine, by_test, fgets-lines_text, with_newlines}
use name_file_system_docs.Client.{cut_spaces, skip_spaces, trim}
use name_file_system_docs.Client.Lines.{IsWord}
use name_file_system_docs.Client.Dialogue.{and_line, dialogue_loop, max_input, update}
use name_file_system_docs.Client.Lines.{NoSpace, NoSpace-Lacks, not_empty, trim-words}
use name_file_system_docs.Protocol.{max_content_len}
use name_file_system_docs.Client.Dialogue.{
  at_space, atoi, dialogue, dialogue_loop, digits_value, max_input, is_digit, update_of, write_line,
}
use name_file_system_docs.Acl.Saved.{codes, decimal, lines_text}

-- The bound of the numbers with so many digits.
abbrev pub limit : ℕ → ℕ
limit zero = 1
limit (suc digits) = 10 * limit digits

abbrev AllDigits : CString → Type 0
AllDigits [] = Unit
AllDigits (c ∷ s) = (is_digit c ≡ true) × AllDigits s

AllDigits-append : (s t : CString) → AllDigits s → AllDigits t → AllDigits (s ++ t)
AllDigits-append [] t a b = b
AllDigits-append (c ∷ s) t a b = (a.0, AllDigits-append s t a.1 b)

decimal-AllDigits : (fuel n : ℕ) → AllDigits (decimal fuel n)
unfolding decimal
decimal-AllDigits zero n = tt
decimal-AllDigits (suc fuel) n = elim (Bool-cases (ltb n 10)) [
  | inl small ↦ rw small (ground arith, tt)
  | inr large ↦ rw large (AllDigits-append _ _ (decimal-AllDigits fuel (n / 10)) (ground arith, tt))
]

digits_value-append :
    (n : ℕ) (s : CString) (c : ℕ)
    → AllDigits s
    → is_digit c ≡ true
    → digits_value n (s ++ (c ∷ [])) ≡ digits_value n s * 10 + (c - 48)
unfolding digits_value
digits_value-append n [] c a d = rw d refl
digits_value-append n (x ∷ s) c a d = rw a.0 (digits_value-append (n * 10 + (x - 48)) s c a.1 d)

-- `atoi` reads back what `%d` wrote.
digits_value-decimal : (fuel n : ℕ) → n < limit fuel → digits_value 0 (decimal fuel n) ≡ n
unfolding decimal
digits_value-decimal zero n h = unfold digits_value in omega arith
digits_value-decimal (suc fuel) n h = elim (Bool-cases (ltb n 10)) [
  | inl small ↦ rw small (unfold digits_value in ground arith)
  | inr large ↦
      let digit : is_digit (n % 10 + 48) ≡ true = ground arith in
      rw large (
        digits_value-append 0 (decimal fuel (n / 10)) (n % 10 + 48)
          (decimal-AllDigits fuel (n / 10)) digit
        ∙ rw (digits_value-decimal fuel (n / 10) (omega (arith, h))) (omega arith))
]

at_space-append : (s t : CString) → Lacks b' ' s → at_space (s ++ (b' ' ∷ t)) ≡ some (s, t)
unfolding at_space
at_space-append [] t h = refl
at_space-append (c ∷ s) t h = rw (h.0, at_space-append s t h.1) refl

abbrev DigitFirst : CString → Type 0
DigitFirst [] = ⊥
DigitFirst (c ∷ s) = is_digit c ≡ true

first-append : (s t : CString) → DigitFirst s → DigitFirst (s ++ t)
first-append [] t h = absurd h
first-append (c ∷ s) t h = h

decimal-DigitFirst : (fuel n : ℕ) → DigitFirst (decimal (suc fuel) n)
unfolding decimal
decimal-DigitFirst zero n = elim (Bool-cases (ltb n 10)) [
  | inl small ↦ rw small (ground arith)
  | inr large ↦ rw large (ground arith)
]
decimal-DigitFirst (suc fuel) n = elim (Bool-cases (ltb n 10)) [
  | inl small ↦ rw small (ground arith)
  | inr large ↦ rw large (
      first-append (decimal (suc fuel) (n / 10)) ((n % 10 + 48) ∷ [])
        (decimal-DigitFirst fuel (n / 10)))
]

digit_differs : (s t : CString) (c : ℕ) → DigitFirst s → is_digit c ≡ false → same s (c ∷ t) ≡ false
unfolding same
digit_differs [] t c h k = absurd h
digit_differs (x ∷ s) t c h k = ground (arith, h, k)

atoi-DigitFirst : (s : CString) → DigitFirst s → atoi s ≡ (false, digits_value 0 s)
unfolding atoi
atoi-DigitFirst [] h = absurd h
atoi-DigitFirst (c ∷ s) h = ground (arith, h)

not_nil : (s : CString) → DigitFirst s → s ≢ []
not_nil [] h = absurd h
not_nil (c ∷ s) h = λ e. cc

digits-NoSpace : (s : CString) → AllDigits s → NoSpace s
digits-NoSpace [] a = tt
digits-NoSpace (c ∷ s) a = (ground (arith, a.0), digits-NoSpace s a.1)

decimal-IsWord : (fuel n : ℕ) → IsWord (decimal (suc fuel) n)
decimal-IsWord fuel n = (
  not_nil (decimal (suc fuel) n) (decimal-DigitFirst fuel n),
  digits-NoSpace _ (decimal-AllDigits (suc fuel) n),
)

-- An edit as it is typed: the index, an `int`, and the word, with a space between them.
abbrev pub typed_edit : ℕ × CString → CString
typed_edit (i, w) = separated b' ' (decimal 10 i ∷ w ∷ [])

abbrev pub IsEdit : ℕ × CString → Type 0
IsEdit (i, w) = (i < 2 ^ 31) × IsWord w

write_line-edit :
    (i : ℕ) (w : CString)
    → IsEdit (i, w)
    → write_line (typed_edit (i, w)) ≡ update i (copy_str max_content_len w)
unfolding write_line separated update_of
write_line-edit i w h =
    let line = decimal 10 i ++ (b' ' ∷ w) in
    let digit = first-append (decimal 10 i) (b' ' ∷ w) (decimal-DigitFirst 9 i) in
    let index = NoSpace-Lacks (decimal 10 i) (digits-NoSpace _ (decimal-AllDigits 10 i)) in
    rw
      (
        not_empty line (not_nil line digit),
        digit_differs line (codes "TIRW") b'E' digit refl,
        digit_differs line (codes "tirw") b'e' digit refl,
        digit_differs line (codes "ANCEL") b'C' digit refl,
        digit_differs line (codes "ancel") b'c' digit refl,
        at_space-append (decimal 10 i) w index,
        atoi-DigitFirst (decimal 10 i) (decimal-DigitFirst 9 i),
        digits_value-decimal 10 i (omega (arith, h.0)),
        not_empty w h.1.0,
      )
      refl

-- The lines that are typed: the edits, and then ETIRW.
abbrev pub edit_lines : List (ℕ × CString) → List CString
edit_lines es = map typed_edit es ++ (codes "ETIRW" ∷ [])

loop-edits :
    (es : List (ℕ × CString))
    → All IsEdit es
    → dialogue_loop (with_newlines (edit_lines es))
      ≡ (map (λ e. (e.0, copy_str max_content_len e.1)) es, true)
unfolding dialogue_loop
loop-edits [] a = unfold write_line trim skip_spaces cut_spaces same in refl
loop-edits ((i, w) ∷ es) a =
    let line_words : All IsWord (decimal 10 i ∷ w ∷ []) = (decimal-IsWord 9 i, (a.0.1, tt)) in
    ap (λ (l : CString). and_line (write_line l) (dialogue_loop (with_newlines (edit_lines es))))
      (trim-words (decimal 10 i) (w ∷ []) line_words)
    ∙ rw (write_line-edit i w a.0, loop-edits es a.1) refl

-- The line of an edit, its newline and a zero fit the buffer of `fgets`.
abbrev pub FitsLine : ℕ × CString → Type 0
FitsLine e = length (typed_edit e) + 2 ≤ max_input

NoSpace-no_newline : (w : CString) → NoSpace w → Lacks 10 w
NoSpace-no_newline [] h = tt
NoSpace-no_newline (c ∷ w) h = (ground (arith, h.0), NoSpace-no_newline w h.1)

typed_edit-IsLine : (e : ℕ × CString) → IsEdit e → FitsLine e → IsLine max_input (typed_edit e)
unfolding separated
typed_edit-IsLine (i, w) h k = (
  Lacks-append 10 (decimal 10 i) (b' ' ∷ w)
      (NoSpace-no_newline _ (digits-NoSpace _ (decimal-AllDigits 10 i)))
      (refl, NoSpace-no_newline w h.1.1),
  k,
)

edit_lines-IsLine :
    (es : List (ℕ × CString))
    → All IsEdit es
    → All FitsLine es
    → All (IsLine max_input) (edit_lines es)
edit_lines-IsLine [] a k = ((by_test 10 (codes "ETIRW") refl, omega arith), tt)
edit_lines-IsLine (e ∷ es) a k = (typed_edit-IsLine e a.0 k.0, edit_lines-IsLine es a.1 k.1)

words_whole :
    (es : List (ℕ × CString))
    → All FitsLine es
    → map (λ (e : ℕ × CString). (e.0, copy_str max_content_len e.1)) es ≡ es
unfolding separated
words_whole [] k = refl
words_whole ((i, w) ∷ es) k =
    let short : length w ≤ 4095 = omega (arith, k.0, length-append (decimal 10 i) (b' ' ∷ w)) in
    rw (take_all 4095 w short, words_whole es k.1) refl

-- Edits that are typed line by line, and then ETIRW, are sent as updates in their order, whole, and
-- then the commit is sent. The indices are below 2^31, the words are not empty and have no white space in
-- them, and each line has at most 1022 bytes before its newline, so that `fgets` reads it whole.
pub dialogue-edits :
    (es : List (ℕ × CString))
    → All IsEdit es
    → All FitsLine es
    → dialogue (lines_text (edit_lines es)) ≡ (es, true)
unfolding dialogue
dialogue-edits es a k =
    ap dialogue_loop (fgets-lines_text max_input (edit_lines es) (edit_lines-IsLine es a k))
    ∙ loop-edits es a
    ∙ ap (λ us. (us, true)) (words_whole es k)
