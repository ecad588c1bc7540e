-- ===== src/Base/Split.antt =====
-- A text of parts with a separator between them, as the C code writes lists of names, and `strtok` of
-- it. Stands for no code of its own.
use Prim.Native.Nat.{ℕ}
use mathlib.Core.Bool.{false}
use mathlib.Core.List.{List, [], ◌∷◌, ◌++◌, append-nil, append_assoc}
use mathlib.Core.Logic.{◌≢◌}
use mathlib.Core.Path.{◌≡◌, refl, ap, ◌∙◌}
use native.Mathlib.Omega.{arith}
use name_file_system_docs.Base.Strings.{CString, emit, tokens_from, tokens}
use name_file_system_docs.Base.Tests.{◌==◌}
use name_file_system_docs.Base.Lists.{All}

-- A text without the byte `d`.
abbrev pub Lacks : ℕ → CString → Type 0
Lacks d [] = Unit
Lacks d (c ∷ s) = ((c == d) ≡ false) × Lacks d s

pub Lacks-append : (d : ℕ) (s t : CString) → Lacks d s → Lacks d t → Lacks d (s ++ t)
Lacks-append d [] t h k = k
Lacks-append d (c ∷ s) t h k = (h.0, Lacks-append d s t h.1 k)

-- The parts with `d` between them.
unfoldable pub separated : ℕ → List CString → CString
separated d [] = []
separated d (p ∷ []) = p
separated d (p ∷ q ∷ ps) = p ++ (d ∷ separated d (q ∷ ps))

-- What `strtok` can give back: parts that are not empty and lack the separator.
abbrev pub IsPart : ℕ → CString → Type 0
IsPart d p = (p ≢ []) × Lacks d p

tokens_from-append :
    (d : ℕ) (run p s : CString)
    → Lacks d p
    → tokens_from d run (p ++ s) ≡ tokens_from d (run ++ p) s
unfolding tokens_from
tokens_from-append d run [] s h = ap (λ (r : CString). tokens_from d r s) (rw append-nil)
tokens_from-append d run (c ∷ p) s h =
    let on = tokens_from-append d (run ++ (c ∷ [])) p s h.1 in
    ground (arith, h.0, on, append_assoc run (c ∷ []) p)

emit_part : (p : CString) (rest : List CString) → p ≢ [] → emit p rest ≡ p ∷ rest
emit_part [] rest h = absurd (h refl)
emit_part (c ∷ p) rest h = refl

tokens_separator :
    (d : ℕ) (run s : CString) → tokens_from d run (d ∷ s) ≡ emit run (tokens_from d [] s)
unfolding tokens_from
tokens_separator d run s = ground arith

-- `strtok` gives the parts back.
pub tokens-separated :
    (d : ℕ) (ps : List CString) → All (IsPart d) ps → tokens d (separated d ps) ≡ ps
unfolding tokens separated
tokens-separated d [] h = unfold tokens_from in refl
tokens-separated d (p ∷ []) h =
    ap (tokens_from d []) (rw append-nil)
    ∙ tokens_from-append d [] p [] h.0.1
    ∙ unfold tokens_from in emit_part p [] h.0.0
tokens-separated d (p ∷ q ∷ ps) h =
    tokens_from-append d [] p (d ∷ separated d (q ∷ ps)) h.0.1
    ∙ tokens_separator d p (separated d (q ∷ ps))
    ∙ emit_part p (tokens_from d [] (separated d (q ∷ ps))) h.0.0
    ∙ ap (λ (r : List CString). p ∷ r) (tokens-separated d (q ∷ ps) h.1)
