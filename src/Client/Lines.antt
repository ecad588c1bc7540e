-- ===== src/Client/Lines.antt =====
-- The parsing of a line in client/client.c: the words that were typed come back.
use name_file_system_docs.Base.{
  ℕ, ◌≡◌, refl, ap, ◌∙◌, subst, ◌≢◌, inl, inr, false, ◌&&◌, some, List, [], ◌∷◌, ◌++◌, map,
  append-nil, arith,
}
use name_file_system_docs.Base.Tests.{Bool-cases}
use name_file_system_docs.Base.Lists.{All}
use name_file_system_docs.Base.Strings.{CString, copy_str, tokens}
use name_file_system_docs.Base.Split.{Lacks, separated, IsPart, tokens-separated}
use name_file_system_docs.Client.{
  argument, cut_spaces, input_of, is_empty, is_space, parse_input, skip_spaces, toupper, trim,
}
use name_file_system_docs.Protocol.{max_filename_len}
use name_file_system_docs.Storage.Connection.{kept}

-- A word without any space in it.
abbrev pub NoSpace : CString → Type 0
NoSpace [] = Unit
NoSpace (c ∷ s) = (is_space c ≡ false) × NoSpace s

abbrev pub IsWord : CString → Type 0
IsWord w = (w ≢ []) × NoSpace w

pub NoSpace-Lacks : (w : CString) → NoSpace w → Lacks b' ' w
NoSpace-Lacks [] h = tt
NoSpace-Lacks (c ∷ w) h = (ground (arith, h.0), NoSpace-Lacks w h.1)

cut_spaces-word : (w s : CString) → NoSpace w → cut_spaces s ≡ s → cut_spaces (w ++ s) ≡ w ++ s
unfolding cut_spaces
cut_spaces-word [] s h k = k
cut_spaces-word (c ∷ w) s h k = rw (h.0, cut_spaces-word w s h.1 k) refl

pub not_empty : (s : CString) → s ≢ [] → is_empty s ≡ false
not_empty [] h = absurd (h refl)
not_empty (c ∷ s) h = refl

cut_spaces-separator :
    (c : ℕ) (s : CString) → s ≢ [] → cut_spaces s ≡ s → cut_spaces (c ∷ s) ≡ c ∷ s
unfolding cut_spaces
cut_spaces-separator c s h k = rw (k, not_empty s h) (ground arith)

separated-ne : (w : CString) (ws : List CString) → IsWord w → separated b' ' (w ∷ ws) ≢ []
unfolding separated
separated-ne [] ws h = absurd (h.0 refl)
separated-ne (c ∷ w) [] h = h.0
separated-ne (c ∷ w) (v ∷ ws) h = λ e. cc

cut_spaces-separated :
    (ws : List CString) → All IsWord ws → cut_spaces (separated b' ' ws) ≡ separated b' ' ws
unfolding separated
cut_spaces-separated [] a = unfold cut_spaces in refl
cut_spaces-separated (w ∷ []) a =
    subst (λ (s : CString). cut_spaces s ≡ s) (append-nil w)
      (cut_spaces-word w [] a.0.1 (unfold cut_spaces in refl))
cut_spaces-separated (w ∷ v ∷ ws) a =
    let rest = separated b' ' (v ∷ ws) in
    cut_spaces-word w (b' ' ∷ rest) a.0.1
      (cut_spaces-separator b' ' rest (separated-ne v ws a.1.0) (cut_spaces-separated (v ∷ ws) a.1))

-- The newline that `fgets` leaves at the end of the line is cut off.
cut_spaces-newline : (s : CString) → cut_spaces s ≡ s → cut_spaces (s ++ (10 ∷ [])) ≡ s
unfolding cut_spaces
cut_spaces-newline [] h = ground arith
cut_spaces-newline (c ∷ s) h = elim (Bool-cases (is_space c && is_empty (cut_spaces s))) [
  | inl gone ↦ absurd (ground (arith, h, gone))
  | inr kept ↦
      let same_rest : cut_spaces s ≡ s = ground (arith, h, kept) in
      rw (cut_spaces-newline s same_rest) (ground (arith, kept, same_rest))
]

-- The first byte is no space.
abbrev Starts : CString → Type 0
Starts [] = ⊥
Starts (c ∷ s) = is_space c ≡ false

skip_spaces-Starts : (s t : CString) → Starts s → skip_spaces (s ++ t) ≡ s ++ t
unfolding skip_spaces
skip_spaces-Starts [] t h = absurd h
skip_spaces-Starts (c ∷ s) t h = rw h refl

separated-Starts : (w : CString) (ws : List CString) → IsWord w → Starts (separated b' ' (w ∷ ws))
unfolding separated
separated-Starts [] ws h = absurd (h.0 refl)
separated-Starts (c ∷ w) [] h = h.1.0
separated-Starts (c ∷ w) (v ∷ ws) h = h.1.0

words-parts : (ws : List CString) → All IsWord ws → All (IsPart b' ') ws
words-parts [] a = tt
words-parts (w ∷ ws) a = ((a.0.0, NoSpace-Lacks w a.0.1), words-parts ws a.1)

pub trim-words :
    (w : CString) (ws : List CString)
    → All IsWord (w ∷ ws)
    → trim (separated b' ' (w ∷ ws) ++ (10 ∷ [])) ≡ separated b' ' (w ∷ ws)
unfolding trim
trim-words w ws a =
    let line = separated b' ' (w ∷ ws) in
    ap cut_spaces (skip_spaces-Starts line (10 ∷ []) (separated-Starts w ws a.0))
    ∙ cut_spaces-newline line (cut_spaces-separated (w ∷ ws) a)

-- Words with a space between them and a newline behind them are parsed into the command in capitals
-- and the first three arguments, each cut to its buffer.
pub parse_input-words :
    (w : CString) (ws : List CString)
    → All IsWord (w ∷ ws)
    → parse_input (separated b' ' (w ∷ ws) ++ (10 ∷ []))
      ≡ some (record {
        command = map toupper (copy_str max_filename_len w);
        arg1 = argument ws 0;
        arg2 = argument ws 1;
        arg3 = argument ws 2;
      })
unfolding parse_input
parse_input-words w ws a =
    ap (λ (s : CString). input_of (tokens b' ' s)) (trim-words w ws a)
    ∙ ap input_of (tokens-separated b' ' (w ∷ ws) (words-parts (w ∷ ws) a))
