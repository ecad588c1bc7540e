-- ===== src/Index/Removal.antt =====
-- `index_remove_file` of inverted_index.c: no word has the file afterwards, and every other file
-- stays with its words.
use name_file_system_docs.Base.{
  ℕ, zero, suc, ◌+◌, ◌≤◌, ◌<◌, ◌≡◌, refl, sym, ap, ◌∙◌, subst, inl, inr, ◌&&◌, not, Option, none,
  some, List, [], ◌∷◌, arith,
}
use name_file_system_docs.Base.Tests.{ltb, leb, ◌==◌, if◌then◌else◌, Bool-cases}
use name_file_system_docs.Base.Lists.{length, All}
use name_file_system_docs.Base.Strings.{CString, same, eq_of_same, same_iff}
use name_file_system_docs.Table.Chain.{find, lookup, write}
use name_file_system_docs.Table.Laws.{Distinct}
use name_file_system_docs.Table.Valid.{IsTable}
use name_file_system_docs.Index.{
  IndexNode, InvertedIndex, index_keys, index_size, hash_word, has_file, drop_file, strip,
  strip_from, index_remove_file,
}
use name_file_system_docs.Index.Names.{Unique, has_file-drop, drop-Unique, length-drop}
use name_file_system_docs.Index.Entries.{names_of, files_of, IsValid}

-- What is left of an entry: nothing, if `f` was its only file.
abbrev left_of : CString → Option IndexNode → Option IndexNode
left_of f none = none
left_of f (some n) =
    if has_file n.filenames f
    then (if length (drop_file n.filenames f) == 0
        then none
        else some (record n { filenames = drop_file n.filenames f }))
    else some n

find-strip :
    (f word : CString) (c : List IndexNode)
    → Distinct index_keys c
    → find index_keys word (strip f c).0 ≡ left_of f (find index_keys word c)
unfolding find strip
find-strip f word [] d = refl
find-strip f word (n ∷ c) d = ground (arith, find-strip f word c d.1, same_iff n.word word, d.0)

strip-Distinct :
    (f : CString) (c : List IndexNode) → Distinct index_keys c → Distinct index_keys (strip f c).0
unfolding strip
strip-Distinct f [] d = tt
strip-Distinct f (n ∷ c) d =
    let fresh : find index_keys n.word (strip f c).0 ≡ none =
      find-strip f n.word c d.1 ∙ ap (left_of f) d.0 in
    elim (Bool-cases (has_file n.filenames f)) [
      | inr other ↦ rw other (fresh, strip-Distinct f c d.1)
      | inl hit ↦ rw hit (elim (Bool-cases (length (drop_file n.filenames f) == 0)) [
        | inl gone ↦ rw gone (strip-Distinct f c d.1)
        | inr more ↦ rw more (fresh, strip-Distinct f c d.1)
      ])
    ]

strip-All :
    (i : ℕ) (f : CString) (c : List IndexNode)
    → All (λ n. hash_word n.word ≡ i) c
    → All (λ n. hash_word n.word ≡ i) (strip f c).0
unfolding strip
strip-All i f [] a = tt
strip-All i f (n ∷ c) a = elim (Bool-cases (has_file n.filenames f)) [
  | inr other ↦ rw other (a.0, strip-All i f c a.1)
  | inl hit ↦ rw hit (elim (Bool-cases (length (drop_file n.filenames f) == 0)) [
    | inl gone ↦ rw gone (strip-All i f c a.1)
    | inr more ↦ rw more (a.0, strip-All i f c a.1)
  ])
]

-- The loop over the chains changes those in its range, each by one walk.
strip_from-at :
    (f : CString) (index : InvertedIndex) (i n j : ℕ)
    → (strip_from f index i n).0 j
      ≡ (if leb i j && ltb j (i + n) then (strip f (index j)).0 else index j)
unfolding strip_from
strip_from-at f index i zero j = ground arith
strip_from-at f index i (suc n) j =
    ground (arith, strip_from-at f (write index i (strip f (index i)).0) (i + 1) n j)

hash_word-lt : (word : CString) → hash_word word < index_size
unfolding hash_word
hash_word-lt word = omega arith

lookup-remove :
    (index : InvertedIndex) (f word : CString)
    → IsTable index_keys index
    → lookup index_keys (index_remove_file index f).0 word
      ≡ left_of f (lookup index_keys index word)
unfolding index_remove_file
lookup-remove index f word v = ground (
  arith,
  strip_from-at f index 0 index_size (hash_word word),
  hash_word-lt word,
  find-strip f word (index (hash_word word)) (v (hash_word word)).0,
)

remove-IsTable :
    (index : InvertedIndex) (f : CString)
    → IsTable index_keys index
    → IsTable index_keys (index_remove_file index f).0
unfolding index_remove_file
remove-IsTable index f v i =
    rw (strip_from-at f index 0 index_size i)
      (elim (Bool-cases (leb 0 i && ltb i (0 + index_size))) [
        | inl inside ↦
            rw inside (strip-Distinct f (index i) (v i).0, strip-All i f (index i) (v i).1)
        | inr outside ↦ rw outside (v i)
      ])

-- The list of a word afterwards is the list before without the file.
names-left :
    (f : CString) (o : Option IndexNode)
    → names_of (left_of f o)
      ≡ (if has_file (names_of o) f then drop_file (names_of o) f else names_of o)
unfolding has_file
names-left f none = refl
names-left f (some n) = elim (Bool-cases (has_file n.filenames f)) [
  | inr other ↦ rw other
  | inl hit ↦ rw hit (elim (Bool-cases (length (drop_file n.filenames f) == 0)) [
    | inl gone ↦ rw gone (nothing (drop_file n.filenames f) (ground arith))
    | inr more ↦ rw more
  ])
]
  where
    nothing : (fs : List CString) → length fs ≡ 0 → [] ≡ fs
    nothing [] h = refl
    nothing (g ∷ gs) h = absurd (omega arith)

files-remove :
    (index : InvertedIndex) (f word : CString)
    → IsTable index_keys index
    → files_of (index_remove_file index f).0 word ≡ (
        if has_file (files_of index word) f
        then drop_file (files_of index word) f
        else files_of index word)
files-remove index f word v =
    ap names_of (lookup-remove index f word v) ∙ names-left f (lookup index_keys index word)

-- Removing a file keeps the index well formed; afterwards the file is under no word, and every
-- other file is under the words that it was under. No word has more files than before. The
-- index was well formed.
pub remove_file_words :
    (index : InvertedIndex) (f word g : CString)
    → IsValid index
    → let u = (index_remove_file index f).0 in
      IsValid u
      × (has_file (files_of u word) g ≡ (not (same f g) && has_file (files_of index word) g))
      × (length (files_of u word) ≤ length (files_of index word))
unfolding has_file
remove_file_words index f word g v = (
  record {
    table = remove-IsTable index f v.table;
    unique = λ w.
        subst Unique (sym (files-remove index f w v.table))
          (elim (Bool-cases (has_file (files_of index w) f)) [
            | inl hit ↦ rw hit (drop-Unique (files_of index w) f (v.unique w))
            | inr other ↦ rw other (v.unique w)
          ]);
    bounded = λ w. omega (arith, shorter w, v.bounded w);
  },
  ap (λ (fs : List CString). has_file fs g) (files-remove index f word v.table)
      ∙ ground (
        arith,
        has_file-drop (files_of index word) f g (v.unique word),
        eq_of_same f g,
        ap (has_file (files_of index word)),
      ),
  shorter word,
)
  where
    shorter :
        (w : CString)
        → length (files_of (index_remove_file index f).0 w) ≤ length (files_of index w)
    shorter w =
        rw (files-remove index f w v.table) (ground (arith, length-drop (files_of index w) f))
