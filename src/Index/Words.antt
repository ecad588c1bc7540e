-- ===== src/Index/Words.antt =====
-- The words of a text as inverted_index.c reads them, and what `index_file`'s loop adds for them.
use name_file_system_docs.Base.{
  ℕ, zero, suc, ◌+◌, ◌≤◌, ◌≡◌, refl, sym, ap, ◌∙◌, inl, inr, Bool, true, false, ◌&&◌, ◌||◌, List,
  [], ◌∷◌, ◌++◌, arith,
}
use name_file_system_docs.Base.Tests.{ltb, leb, ◌==◌, if◌then◌else◌, Bool-cases}
use name_file_system_docs.Base.Lists.{length, take}
use name_file_system_docs.Base.Strings.{CString, same, same_refl, eq_of_same, emit}
use name_file_system_docs.Index.{
  InvertedIndex, to_lowercase, is_separator, has_file, add_normalized, index_add_word, end_word,
  grow, index_loop,
}
use name_file_system_docs.Index.Names.{has_file-append}
use name_file_system_docs.Index.Entries.{files_of, IsValid, files-add, add-IsValid}

-- The longest runs of letters and digits of a text; `run` is the one being read.
unfoldable pub runs_from : CString → CString → List CString
runs_from run [] = emit run []
runs_from run (c ∷ s) =
    let rest = runs_from [] s in
    let longer = runs_from (run ++ (c ∷ [])) s in if is_separator c then emit run rest else longer

-- Of each run the first 99 bytes count, if there are two at least.
unfoldable pub kept : List CString → List CString
kept [] = []
kept (w ∷ ws) = if leb 2 (length (take 99 w)) then take 99 w ∷ kept ws else kept ws

-- `v` is one of the words in lower case.
unfoldable pub is_word : List CString → CString → Bool
is_word [] v = false
is_word (w ∷ ws) v = same (to_lowercase w) v || is_word ws v

-- The words are added one after another.
pub add_each : InvertedIndex → CString → List CString → InvertedIndex
add_each index f [] = index
add_each index f (w ∷ ws) = add_each (add_normalized index (to_lowercase w) f).1 f ws

-- Every word has the file, or room for it.
abbrev pub HasRoom : InvertedIndex → CString → Type 0
HasRoom index f =
    (v : CString) → (has_file (files_of index v) f || ltb (length (files_of index v)) 50) ≡ true

module _ (index : InvertedIndex) (w f : CString) (fits : length f ≤ 254)
    (room : HasRoom index f) where
  add-room : HasRoom (add_normalized index w f).1 f
  add-room v =
      let (ok, files) = files-add index w f v fits in
      rw files (ground (arith, ok, room v, has_file-append (files_of index w) f f, same_refl f))

  add-has_file :
      (v g : CString)
      → has_file (files_of (add_normalized index w f).1 v) g
        ≡ (has_file (files_of index v) g || (same f g && same w v))
  add-has_file v g =
      let (ok, files) = files-add index w f v fits in
      ap (λ (fs : List CString). has_file fs g) files
      ∙ ground (
        arith,
        ok,
        room w,
        has_file-append (files_of index w) f g,
        eq_of_same f g,
        eq_of_same w v,
        ap (has_file (files_of index w)),
        ap (λ (u : CString). files_of index u),
      )

pub add_each-has_file :
    (index : InvertedIndex) (f : CString) (ws : List CString) (v g : CString)
    → length f ≤ 254
    → HasRoom index f
    → has_file (files_of (add_each index f ws) v) g
      ≡ (has_file (files_of index v) g || (same f g && is_word ws v))
unfolding add_each is_word
add_each-has_file index f [] v g fits room = ground arith
add_each-has_file index f (w ∷ ws) v g fits room =
    add_each-has_file (add_normalized index (to_lowercase w) f).1 f ws v g fits
      (add-room index (to_lowercase w) f fits room)
    ∙ ground (arith, add-has_file index (to_lowercase w) f fits room v g)

pub add_each-IsValid :
    (index : InvertedIndex) (f : CString) (ws : List CString)
    → length f ≤ 254
    → IsValid index
    → IsValid (add_each index f ws)
unfolding add_each
add_each-IsValid index f [] fits v = v
add_each-IsValid index f (w ∷ ws) fits v =
    add_each-IsValid (add_normalized index (to_lowercase w) f).1 f ws fits
      (add-IsValid index (to_lowercase w) f fits v)

-- The word buffer holds the first 99 bytes of the run.
grow-take : (run : CString) (c : ℕ) → grow (take 99 run) c ≡ take 99 (run ++ (c ∷ []))
grow-take run c = cut 99 run
  where
    cut :
        (n : ℕ) (run : CString)
        → (if ltb (length (take n run)) n then take n run ++ (c ∷ []) else take n run)
          ≡ take n (run ++ (c ∷ []))
    cut zero run = ground arith
    cut (suc zero) [] = ground arith
    cut (suc (suc n)) [] = ground arith
    cut (suc n) (x ∷ xs) = ground (arith, cut n xs)

end_word-kept :
    (index : InvertedIndex) (f run : CString) (ws : List CString)
    → ((end_word index f (take 99 run)).0 + length (kept ws) ≡ length (kept (emit run ws)))
      × (add_each (end_word index f (take 99 run)).1 f (kept ws)
          ≡ add_each index f (kept (emit run ws)))
unfolding end_word kept index_add_word add_each
end_word-kept index f [] ws = (ground arith, refl)
end_word-kept index f (b ∷ run) ws = elim (Bool-cases (leb 2 (length (take 99 (b ∷ run))))) [
  | inl long ↦
      let some_text : (length (take 99 (b ∷ run)) == 0) ≡ false = ground arith in
      rw (long, some_text) (omega arith, refl)
  | inr short ↦ rw short (omega arith, refl)
]

pair :
    (p : ℕ × InvertedIndex) (n : ℕ) (index : InvertedIndex) → p.0 ≡ n → p.1 ≡ index → p ≡ (n, index)
pair p n index e e' = rw (sym e, sym e') refl

pub loop-runs :
    (index : InvertedIndex) (f run s : CString)
    → index_loop index f (take 99 run) s
      ≡ (length (kept (runs_from run s)), add_each index f (kept (runs_from run s)))
unfolding index_loop runs_from end_word kept add_each
loop-runs index f run [] =
    let (count, added) = end_word-kept index f run [] in pair _ _ _ (omega (arith, count)) added
loop-runs index f run (c ∷ s) = elim (Bool-cases (is_separator c)) [
  | inl stop ↦
      let (count, added) = end_word-kept index f run (runs_from [] s) in
      rw (stop, loop-runs (end_word index f (take 99 run)).1 f [] s) (pair _ _ _ count added)
  | inr letter ↦ rw (letter, grow-take run c, loop-runs index f (run ++ (c ∷ [])) s)
]
