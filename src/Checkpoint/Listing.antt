-- ===== src/Checkpoint/Listing.antt =====
-- `checkpoint_list` of checkpoint_manager.c: the tags that it lists.
use name_file_system_docs.Base.{
  ℕ, zero, suc, ◌<◌, ◌≡◌, refl, ap, inl, inr, Bool, true, false, ◌&&◌, ◌||◌, none, some, List, [],
  ◌∷◌, ◌++◌, arith,
}
use name_file_system_docs.Base.Tests.{ltb, ◌==◌, if◌then◌else◌, Bool-cases, Option-cases}
use name_file_system_docs.Base.Lists.{length, take, length-append}
use name_file_system_docs.Base.Strings.{CString, same, same_refl, eq_of_same}
use name_file_system_docs.Checkpoint.{
  extension, list_tags, max_tag_len, starts_with, strstr, tag_of,
}

-- A text without a dot.
abbrev HasNoDot : CString → Type 0
HasNoDot [] = Unit
HasNoDot (c ∷ s) = ((c == b'.') ≡ false) × HasNoDot s

-- An occurrence of a text without a dot does not reach over one.
starts_before_dot :
    (e t r : CString) → HasNoDot e → starts_with e (t ++ (b'.' ∷ r)) ≡ starts_with e t
unfolding starts_with
starts_before_dot [] t r h = refl
starts_before_dot (x ∷ e) [] r h = ground (arith, h.0)
starts_before_dot (x ∷ e) (c ∷ t) r h =
    ap (λ (b : Bool). (x == c) && b) (starts_before_dot e t r h.1)

-- ".checkpoint" without its dot
abbrev bare : CString
bare = b'c' ∷ b'h' ∷ b'e' ∷ b'c' ∷ b'k' ∷ b'p' ∷ b'o' ∷ b'i' ∷ b'n' ∷ b't' ∷ []

bare-HasNoDot : HasNoDot bare
bare-HasNoDot = (refl, (refl, (refl, (refl, (refl, (refl, (refl, (refl, (refl, (refl, tt))))))))))

starts_extension :
    (c : ℕ) (t : CString)
    → starts_with extension (c ∷ (t ++ extension)) ≡ starts_with extension (c ∷ t)
unfolding starts_with
starts_extension c t =
    ap (λ (b : Bool). (b'.' == c) && b) (starts_before_dot bare t bare bare-HasNoDot)

strstr_end : strstr extension extension ≡ some ([], extension)
unfolding strstr starts_with
strstr_end = refl

-- A tag that does not hold ".checkpoint" is followed by the first occurrence.
strstr_entry :
    (tag : CString)
    → strstr extension tag ≡ none
    → strstr extension (tag ++ extension) ≡ some (tag, extension)
unfolding strstr
strstr_entry [] h = strstr_end
strstr_entry (c ∷ t) h = elim (Bool-cases (starts_with extension (c ∷ t))) [
  | inl starts ↦ absurd (ground arith)
  | inr no_start ↦ elim (Option-cases (strstr extension t)) [
    | inr (at, found) ↦ absurd (ground arith)
    | inl unfound ↦ rw (starts_extension c t, no_start, strstr_entry t unfound, strstr)
  ]
]

starts_with-append : (e s r : CString) → starts_with e s ≡ true → starts_with e (s ++ r) ≡ true
unfolding starts_with
starts_with-append [] s r h = refl
starts_with-append (x ∷ e) [] r h = absurd (cc)
starts_with-append (x ∷ e) (c ∷ s) r h = ground (arith, starts_with-append e s r)

-- In a tag that holds ".checkpoint", the first occurrence is that one, and more comes behind it.
strstr_holding :
    (tag front at : CString)
    → strstr extension tag ≡ some (front, at)
    → (strstr extension (tag ++ extension) ≡ some (front, at ++ extension)) × (0 < length at)
unfolding strstr
strstr_holding [] front at h = absurd (unfold starts_with in (cc))
strstr_holding (c ∷ t) front at h = elim (Bool-cases (starts_with extension (c ∷ t))) [
  | inl starts ↦
      let longer = starts_with-append extension (c ∷ t) extension starts in ground (arith, longer)
  | inr no_start ↦ elim (Option-cases (strstr extension t)) [
    | inl unfound ↦ absurd (ground arith)
    | inr ((f, a), found) ↦
        let (later, more) = strstr_holding t f a found in
        ground (arith, starts_extension c t, later, more)
  ]
]

longer-same : (at : CString) → 0 < length at → same (at ++ extension) extension ≡ false
longer-same at more = elim (Bool-cases (same (at ++ extension) extension)) [
  | inr differs ↦ differs
  | inl equal ↦
      let sizes = ap length (eq_of_same (at ++ extension) extension equal) in
      absurd (omega (arith, length-append at extension, sizes))
]

-- The tags that a listing shows. The name of the file that `checkpoint_create` makes for a tag is read
-- back as the tag exactly if the tag has at most 63 bytes and does not hold ".checkpoint"; else
-- `checkpoint_list` passes the checkpoint over.
pub tag_of-entry :
    (tag : CString)
    → tag_of (tag ++ extension) ≡ (elim (strstr extension tag) [
      | none ↦ if ltb (length tag) max_tag_len then some tag else none
      | some found ↦ none
    ])
unfolding tag_of
tag_of-entry tag = elim (Option-cases (strstr extension tag)) [
  | inl clean ↦ rw clean (simp (strstr_entry tag clean, same_refl extension, tag_of) refl)
  | inr ((front, at), holding) ↦
      let (found, more) = strstr_holding tag front at holding in
      let differs : same (at ++ extension) extension ≡ false = longer-same at more in
      rw holding (simp (found, differs, tag_of) refl)
]

-- The tags of all entries, in their order.
pub tags : List CString → List CString
tags [] = []
tags (e ∷ entries) =
    let rest = tags entries in elim (tag_of e) [ none ↦ rest | some tag ↦ tag ∷ rest ]

-- `.` and `..` are no tags.
dot-tag_of :
    (e : CString) → (same e (b'.' ∷ []) || same e (b'.' ∷ b'.' ∷ [])) ≡ true → tag_of e ≡ none
unfolding tag_of strstr starts_with
dot-tag_of e h = elim (Bool-cases (same e (b'.' ∷ []))) [
  | inl dot ↦ rw (eq_of_same e (b'.' ∷ []) dot)
  | inr other ↦ rw (eq_of_same e (b'.' ∷ b'.' ∷ []) (ground arith))
]

-- `checkpoint_list` gives the first tags of the directory, as many as it has room for.
pub list_tags-take :
    (entries : List CString) (room : ℕ) → list_tags entries room ≡ take room (tags entries)
unfolding list_tags tags
list_tags-take entries zero = refl
list_tags-take [] (suc room) = refl
list_tags-take (e ∷ entries) (suc room) =
    ground (arith, dot-tag_of e, list_tags-take entries room, list_tags-take entries (suc room))
