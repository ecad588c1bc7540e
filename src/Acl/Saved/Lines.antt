-- ===== src/Acl/Saved/Lines.antt =====
-- Reading the data file of acl.c line by line, and one line field by field.
use name_file_system_docs.Base.{
  ℕ, zero, suc, ◌+◌, ◌≤◌, ◌≡◌, refl, ap, ◌∙◌, ◌≢◌, Bool, true, false, ◌&&◌, not, List, [], ◌∷◌,
  ◌++◌, append-nil, append_assoc, arith,
}
use name_file_system_docs.Base.Tests.{◌==◌}
use name_file_system_docs.Base.Lists.{length, All, length-append}
use name_file_system_docs.Base.Strings.{CString}
use name_file_system_docs.Base.Split.{Lacks, Lacks-append, separated, IsPart}
use name_file_system_docs.Acl.{AclEntry}
use name_file_system_docs.Acl.Saved.{
  count_prefix, entry_line, fgets_from, has_prefix, lines_text, scan_fields, scanset,
}

-- The test for a text that is written out.
abbrev pub lacks : ℕ → CString → Bool
lacks d [] = true
lacks d (c ∷ s) = not (c == d) && lacks d s

pub by_test : (d : ℕ) (s : CString) → lacks d s ≡ true → Lacks d s
by_test d [] h = tt
by_test d (c ∷ s) h = (ground arith, by_test d s (ground arith))

-- A line that `fgets` reads whole into so many bytes: no newline in it, and room behind it for one and
-- for the zero.
abbrev pub IsLine : ℕ → CString → Type 0
IsLine size l = Lacks 10 l × (length l + 2 ≤ size)

fgets-append :
    (size : ℕ) (line l s : CString)
    → Lacks 10 l
    → length line + length l + 2 ≤ size
    → fgets_from size line (l ++ (10 ∷ s)) ≡ ((line ++ l) ++ (10 ∷ [])) ∷ fgets_from size [] s
unfolding fgets_from
fgets-append size line [] s h k = rw append-nil
fgets-append size line (c ∷ l) s h k =
    let on =
      fgets-append size (line ++ (c ∷ [])) l s h.1 (omega (arith, length-append line (c ∷ []))) in
    ground (arith, h.0, on, append_assoc line (c ∷ []) l)

-- Each line with its newline.
abbrev pub with_newlines : List CString → List CString
with_newlines [] = []
with_newlines (l ∷ ls) = (l ++ (10 ∷ [])) ∷ with_newlines ls

-- `fgets` reads back the lines that were written.
pub fgets-lines_text :
    (size : ℕ) (ls : List CString)
    → All (IsLine size) ls
    → fgets_from size [] (lines_text ls) ≡ with_newlines ls
unfolding lines_text
fgets-lines_text size [] h = unfold fgets_from in refl
fgets-lines_text size (l ∷ ls) h =
    fgets-append size [] l (lines_text ls) h.0.0 (omega (arith, h.0.1))
    ∙ ap (λ (r : List CString). (l ++ (10 ∷ [])) ∷ r) (fgets-lines_text size ls h.1)

-- A field and what ends it.
pub scanset-append :
    (n stop : ℕ) (a s : CString)
    → Lacks stop a
    → length a ≤ n
    → scanset n stop (a ++ (stop ∷ s)) ≡ (a, stop ∷ s)
unfolding scanset
scanset-append zero stop [] s h k = refl
scanset-append zero stop (c ∷ a) s h k = absurd (omega arith)
scanset-append (suc n) stop [] s h k = ground arith
scanset-append (suc n) stop (c ∷ a) s h k =
    ground (arith, h.0, scanset-append n stop a s h.1 (omega arith))

-- A field that is not empty, with a bar behind it.
pub scan_field :
    (n : ℕ) (fields : List (ℕ × ℕ)) (a s : CString)
    → IsPart b'|' a
    → length a ≤ n
    → scan_fields ((n, b'|') ∷ fields) (a ++ (b'|' ∷ s)) ≡ a ∷ scan_fields fields s
unfolding scan_fields
scan_field n fields [] s h k = absurd (h.0 refl)
scan_field n fields (c ∷ a) s h k = simp (scanset-append n b'|' (c ∷ a) s h.1 k, scan_fields) refl

-- An empty field ends the reading.
pub scan_empty :
    (n : ℕ) (stop : ℕ) (fields : List (ℕ × ℕ)) (s : CString)
    → scan_fields ((n, stop) ∷ fields) (stop ∷ s) ≡ []
unfolding scan_fields scanset
scan_empty zero stop fields s = refl
scan_empty (suc n) stop fields s = ground arith

-- The last field.
pub scan_last :
    (a : CString)
    → a ≢ []
    → Lacks 10 a
    → length a ≤ 4095
    → scan_fields ((4095, 10) ∷ []) (a ++ (10 ∷ [])) ≡ a ∷ []
unfolding scan_fields
scan_last [] ne h k = absurd (ne refl)
scan_last (c ∷ a) ne h k = simp (scanset-append 4095 10 (c ∷ a) [] h k, scan_fields) refl

-- What begins a line up to a bar.
pub has_prefix_before_bar :
    (p f s : CString) → Lacks b'|' p → has_prefix p (f ++ (b'|' ∷ s)) ≡ has_prefix p f
unfolding has_prefix
has_prefix_before_bar [] f s h = refl
has_prefix_before_bar (x ∷ p) [] s h = ground (arith, h.0)
has_prefix_before_bar (x ∷ p) (c ∷ f) s h =
    ap (λ (b : Bool). (x == c) && b) (has_prefix_before_bar p f s h.1)

pub no_newline : (f : CString) → Lacks 10 f → has_prefix (10 ∷ []) f ≡ false
unfolding has_prefix
no_newline [] h = refl
no_newline (c ∷ f) h = ground (arith, h.0)

-- A user's name that the file can hold.
abbrev pub IsUser : CString → Type 0
IsUser u = IsPart b',' u × Lacks b'|' u × Lacks 10 u

-- An entry whose line is read back: names without bars, newlines and, for users, commas, that are not
-- empty; a line of at most 4094 bytes that is no comment and no count.
pub record IsPrintable (e : AclEntry) : Type 0 where
  pub named : IsPart b'|' e.filename
  pub name_line : Lacks 10 e.filename
  pub name_fits : length e.filename ≤ 255
  pub owned : IsPart b'|' e.owner
  pub owner_line : Lacks 10 e.owner
  pub owner_fits : length e.owner ≤ 63
  pub readers : All IsUser e.read_users
  pub writers : All IsUser e.write_users
  pub line_fits : length (entry_line e) ≤ 4094
  pub no_comment : has_prefix (b'#' ∷ []) e.filename ≡ false
  pub no_count : has_prefix count_prefix e.filename ≡ false

pub Lacks-separated :
    (d x : ℕ) (us : List CString) → (d == x) ≡ false → All (Lacks x) us → Lacks x (separated d us)
unfolding separated
Lacks-separated d x [] h a = tt
Lacks-separated d x (u ∷ []) h a = a.0
Lacks-separated d x (u ∷ v ∷ us) h a =
    Lacks-append x u (d ∷ separated d (v ∷ us)) a.0 (h, Lacks-separated d x (v ∷ us) h a.1)

pub separated-ne : (d : ℕ) (u : CString) (us : List CString) → u ≢ [] → separated d (u ∷ us) ≢ []
unfolding separated
separated-ne d [] us h = absurd (h refl)
separated-ne d (c ∷ u) [] h = h
separated-ne d (c ∷ u) (v ∷ us) h = λ e. cc

-- The fields of the users: where there are no readers, nothing behind them is read.
abbrev pub saved_fields : List CString → List CString → List CString
saved_fields [] ws = []
saved_fields (r ∷ rs) [] = separated b',' (r ∷ rs) ∷ []
saved_fields (r ∷ rs) (w ∷ ws) = separated b',' (r ∷ rs) ∷ separated b',' (w ∷ ws) ∷ []
