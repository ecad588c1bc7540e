-- ===== src/Disk/Laws.antt =====
-- Laws of the disk's operations, and of reading a file as a C string.
use name_file_system_docs.Base.{
  ℕ, ◌-◌, ◌≤◌, ◌≡◌, refl, true, false, Option, none, some, List, [], ◌∷◌, arith,
}
use name_file_system_docs.Base.Tests.{◌==◌}
use name_file_system_docs.Base.Lists.{length, take, length-take, take_all}
use name_file_system_docs.Base.Strings.{CString, same, same_refl}
use name_file_system_docs.Disk.{
  Node, regular, Disk, put, is_directory, write_file, rename, upto_nul, fread_string,
}

-- Bytes without a zero.
abbrev pub IsText : List ℕ → Type 0
IsText [] = Unit
IsText (c ∷ s) = ((c == 0) ≡ false) × IsText s

pub upto_nul-IsText : (s : List ℕ) → IsText (upto_nul s)
unfolding upto_nul
upto_nul-IsText [] = tt
upto_nul-IsText (c ∷ s) = ground (arith, upto_nul-IsText s)

pub upto_nul_text : (s : List ℕ) → IsText s → upto_nul s ≡ s
unfolding upto_nul
upto_nul_text [] h = refl
upto_nul_text (c ∷ s) h = ground (arith, upto_nul_text s h.1)

length-upto_nul : (s : List ℕ) → length (upto_nul s) ≤ length s
unfolding upto_nul
length-upto_nul [] = omega arith
length-upto_nul (c ∷ s) = ground (arith, length-upto_nul s)

pub length-fread : (n : ℕ) (s : List ℕ) → length (fread_string n s) ≤ n - 1
unfolding fread_string
length-fread n s = omega (arith, length-upto_nul (take (n - 1) s), length-take (n - 1) s)

pub fread_text : (n : ℕ) (s : List ℕ) → IsText s → length s ≤ n - 1 → fread_string n s ≡ s
unfolding fread_string
fread_text n s t h = rw (take_all (n - 1) s h) (upto_nul_text s t)

pub fread-IsText : (n : ℕ) (s : List ℕ) → IsText (fread_string n s)
unfolding fread_string
fread-IsText n s = upto_nul-IsText (take (n - 1) s)

pub put_here : (d : Disk) (p : CString) (n : Option Node) → put d p n p ≡ n
put_here d p n = rw (same_refl p)

pub put_away : (d : Disk) (p q : CString) (n : Option Node) → same p q ≡ false → put d p n q ≡ d q
put_away d p q n h = rw h

-- A file that is there opens and is written, whatever it holds.
pub write_granted :
    (d : Disk) (p : CString) (bytes : List ℕ)
    → is_directory (d p) ≡ false
    → write_file d p true bytes ≡ some (put d p (some (regular bytes)))
unfolding write_file
write_granted d p bytes h = rw h

-- A file just written is moved to its place.
pub rename_written :
    (d : Disk) (tmp path : CString) (bytes : List ℕ)
    → same tmp path ≡ false
    → is_directory (d path) ≡ false
    → rename (put d tmp (some (regular bytes))) tmp path true
      ≡ some (put (put (put d tmp (some (regular bytes))) tmp none) path (some (regular bytes)))
unfolding rename
rename_written d tmp path bytes apart file = rw (same_refl tmp, apart, file)
