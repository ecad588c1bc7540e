-- ===== src/Index/Entries.antt =====
-- `index_add_word` of inverted_index.c on the table: the files that each word has afterwards.
use name_file_system_docs.Base.{
  ◌≤◌, ◌≡◌, refl, sym, ap, ◌∙◌, subst, inl, inr, Bool, true, false, ◌&&◌, ◌||◌, not, Option, none,
  some, List, [], ◌∷◌, ◌++◌, arith,
}
use name_file_system_docs.Base.Tests.{ltb, if◌then◌else◌, Bool-cases, Option-cases}
use name_file_system_docs.Base.Lists.{length, length-append, take_all}
use name_file_system_docs.Base.Strings.{CString, same, same_iff}
use name_file_system_docs.Table.Chain.{lookup}
use name_file_system_docs.Table.Valid.{IsTable, update-IsTable, lookup-update}
use name_file_system_docs.Table.Append.{append_to-IsTable, lookup-append_to}
use name_file_system_docs.Index.{IndexNode, InvertedIndex, index_keys, has_file, add_normalized}
use name_file_system_docs.Index.Names.{Unique, append-Unique}

-- The files of a word in lower case.
abbrev pub names_of : Option IndexNode → List CString
names_of none = []
names_of (some n) = n.filenames

abbrev pub files_of : InvertedIndex → CString → List CString
files_of index word = names_of (lookup index_keys index word)

-- A well-formed index: every word once, in the chain of its hash; no file twice for a word, and at
-- most 50.
pub record IsValid (index : InvertedIndex) : Type 0 where
  pub table : IsTable index_keys index
  pub unique : (word : CString) → Unique (files_of index word)
  pub bounded : (word : CString) → length (files_of index word) ≤ 50

-- What adding a file to a word does to the lists of all words.
pub files-add :
    (index : InvertedIndex) (word f v : CString)
    → length f ≤ 254
    → let r = add_normalized index word f in
      (r.0 ≡ (has_file (files_of index word) f || ltb (length (files_of index word)) 50))
      × (files_of r.1 v ≡ (
          if same word v && r.0 && not (has_file (files_of index word) f)
          then files_of index word ++ (f ∷ [])
          else files_of index v))
unfolding add_normalized has_file
files-add index word f v fits = elim (Option-cases (lookup index_keys index word)) [
  | inl new ↦
      rw (new, add_normalized, take_all 255 f (omega (arith, fits)))
        (
          ground arith,
          ap names_of (
                lookup-append_to index_keys index word v
                  (record { word = word; filenames = f ∷ [] }) refl new)
              ∙ ground arith,
        )
  | inr (n, there) ↦
      rw (there, add_normalized, take_all 255 f (omega (arith, fits)))
        (elim (Bool-cases (has_file n.filenames f)) [
          | inl known ↦ rw known (ground arith, ground (arith, there, same_iff word v))
          | inr other ↦ rw other (elim (Bool-cases (ltb (length n.filenames) 50)) [
            | inl room ↦ rw room (
              ground arith,
              ap names_of (
                    lookup-update index_keys index word v
                      (λ n. record n { filenames = n.filenames ++ (f ∷ []) }) (λ _. refl))
                  ∙ ground (arith, there),
            )
            | inr at_limit ↦ rw at_limit (ground arith, ground arith)
          ])
        ])
]

add-IsTable :
    (index : InvertedIndex) (word f : CString)
    → IsTable index_keys index
    → IsTable index_keys (add_normalized index word f).1
unfolding add_normalized
add-IsTable index word f v = elim (Option-cases (lookup index_keys index word)) [
  | inl new ↦ rw (new, add_normalized) (append_to-IsTable index_keys index word _ v refl new)
  | inr (n, there) ↦
      rw (there, add_normalized)
        (elim (Bool-cases (has_file n.filenames f)) [
          | inl known ↦ rw known v
          | inr other ↦ rw other (elim (Bool-cases (ltb (length n.filenames) 50)) [
            | inl room ↦ rw room (update-IsTable index_keys index word _ (λ _. refl) v)
            | inr at_limit ↦ rw at_limit v
          ])
        ])
]

either :
    (P : List CString → Type 0) (b : Bool) (x y : List CString)
    → (b ≡ true → P x)
    → P y
    → P (if b then x else y)
either P true x y p q = p refl
either P false x y p q = q

-- Adding a file to a word keeps the index well formed.
pub add-IsValid :
    (index : InvertedIndex) (word f : CString)
    → length f ≤ 254
    → IsValid index
    → IsValid (add_normalized index word f).1
add-IsValid index word f fits v =
    let r = add_normalized index word f in
    let (ok, files) = files-add index word f word fits in
    let old = files_of index word in
    let cond = λ (w : CString). same word w && r.0 && not (has_file old f) in
    record {
      table = add-IsTable index word f v.table;
      unique = λ w. subst Unique (sym (files-add index word f w fits).1) (
          either Unique (cond w) (old ++ (f ∷ [])) (files_of index w)
            (λ b. append-Unique old f (v.unique word) (ground (arith, b))) (v.unique w));
      bounded = λ w.
          subst (λ (fs : List CString). length fs ≤ 50) (sym (files-add index word f w fits).1)
            (either (λ fs. length fs ≤ 50) (cond w) (old ++ (f ∷ [])) (files_of index w)
              (λ b. rw length-append (ground (arith, b, ok))) (v.bounded w));
    }
