-- ===== src/Base/Strings.antt =====
-- C strings: the bytes before the terminating zero. `strcmp(a, b) == 0` and the bounded copy
-- `strncpy(d, s, n - 1); d[n - 1] = '\0'`, which every component uses for its names; the C
-- library is modelled by what the standard says of these calls.
use Prim.Native.Nat.{ℕ, ◌+◌, ◌-◌}
use mathlib.Core.Bool.{Bool, true, false, ◌&&◌}
use mathlib.Core.List.{List, [], ◌∷◌, ◌++◌}
use mathlib.Core.Logic.{◌↔◌}
use mathlib.Core.Path.{◌≡◌, refl}
use native.Mathlib.Omega.{arith}
use name_file_system_docs.Base.Lists.{take}
use name_file_system_docs.Base.Tests.{◌==◌, ltb, if◌then◌else◌}

abbrev pub CString : Type 0
CString = List ℕ

-- `strcmp(a, b) == 0`
unfoldable pub same : CString → CString → Bool
same [] [] = true
same [] (y ∷ ys) = false
same (x ∷ xs) [] = false
same (x ∷ xs) (y ∷ ys) = (x == y) && same xs ys

pub same_refl : (s : CString) → same s s ≡ true
unfolding same
same_refl [] = refl
same_refl (x ∷ xs) = ground (arith, same_refl xs)

pub eq_of_same : (s t : CString) → same s t ≡ true → s ≡ t
unfolding same
eq_of_same [] [] h = refl
eq_of_same [] (y ∷ ys) h = ground arith
eq_of_same (x ∷ xs) [] h = ground arith
eq_of_same (x ∷ xs) (y ∷ ys) h = ground (arith, eq_of_same xs ys)

pub same_iff : (s t : CString) → (same s t ≡ true) ↔ (s ≡ t)
same_iff s t = (eq_of_same s t, λ e. ground (arith, same_refl s))

-- The bounded copy into a buffer of `n` bytes.
abbrev pub copy_str : ℕ → CString → CString
copy_str n s = take (n - 1) s

-- `char` is signed on the platforms the Makefile builds for: a byte from 128 on is negative, and
-- adding it to an unsigned accumulator of modulus `m` adds `m - (256 - c)`.
unfoldable pub as_signed : ℕ → ℕ → ℕ
as_signed m c = if ltb c 128 then c else c + m - 256

abbrev pub emit : CString → List CString → List CString
emit [] rest = rest
emit (c ∷ run) rest = (c ∷ run) ∷ rest

-- The tokens that `strtok(s, d)` gives, one after another: the longest runs without `d`; `run` is
-- the one being read.
unfoldable pub tokens_from : ℕ → CString → CString → List CString
tokens_from d run [] = emit run []
tokens_from d run (c ∷ s) =
    let rest = tokens_from d [] s in
    let longer = tokens_from d (run ++ (c ∷ [])) s in if c == d then emit run rest else longer

unfoldable pub tokens : ℕ → CString → List CString
tokens d s = tokens_from d [] s
