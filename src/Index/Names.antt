-- ===== src/Index/Names.antt =====
-- The list of files of one word in inverted_index.c: no file twice, and what its two changes do.
use name_file_system_docs.Base.{
  ◌+◌, ◌≡◌, refl, ◌∙◌, inl, inr, false, ◌&&◌, ◌||◌, not, List, [], ◌∷◌, ◌++◌, arith,
}
use name_file_system_docs.Base.Tests.{if◌then◌else◌, Bool-cases}
use name_file_system_docs.Base.Lists.{length}
use name_file_system_docs.Base.Strings.{CString, same, same_iff}
use name_file_system_docs.Index.{has_file, drop_file}

abbrev pub Unique : List CString → Type 0
Unique [] = Unit
Unique (g ∷ gs) = (has_file gs g ≡ false) × Unique gs

pub has_file-append :
    (fs : List CString) (f g : CString) → has_file (fs ++ (f ∷ [])) g ≡ (has_file fs g || same f g)
unfolding has_file
has_file-append [] f g = ground arith
has_file-append (h ∷ hs) f g = ground (arith, has_file-append hs f g)

pub append-Unique :
    (fs : List CString) (f : CString) → Unique fs → has_file fs f ≡ false → Unique (fs ++ (f ∷ []))
unfolding has_file
append-Unique [] f u new = (refl, tt)
append-Unique (h ∷ hs) f u new = (
  has_file-append hs f h ∙ ground (arith, u.0, same_iff h f, same_iff f h),
  append-Unique hs f u.1 (ground arith),
)

pub has_file-drop :
    (fs : List CString) (f g : CString)
    → Unique fs
    → has_file (drop_file fs f) g ≡ (not (same f g) && has_file fs g)
unfolding has_file drop_file
has_file-drop [] f g u = ground arith
has_file-drop (h ∷ hs) f g u =
    ground (arith, has_file-drop hs f g u.1, u.0, same_iff h f, same_iff h g, same_iff f g)

pub drop-Unique : (fs : List CString) (f : CString) → Unique fs → Unique (drop_file fs f)
unfolding drop_file
drop-Unique [] f u = tt
drop-Unique (h ∷ hs) f u = elim (Bool-cases (same h f)) [
  | inl hit ↦ rw hit u.1
  | inr miss ↦ rw miss (has_file-drop hs f h u.1 ∙ ground (arith, u.0), drop-Unique hs f u.1)
]

pub length-drop :
    (fs : List CString) (f : CString)
    → length (drop_file fs f) + (if has_file fs f then 1 else 0) ≡ length fs
unfolding has_file drop_file
length-drop [] f = omega arith
length-drop (h ∷ hs) f = ground (arith, length-drop hs f)
