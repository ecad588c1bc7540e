-- ===== src/Undo/Spec.antt =====
-- undo_buffer.c against its contract: a partial map from file names to the bytes that an undo
-- brings back.
use name_file_system_docs.Base.{
  ℕ, ◌≤◌, ◌<◌, ◌≡◌, refl, ap, ◌∙◌, ◌⊎◌, inl, inr, Bool, true, false, Option, none, some, List,
  arith,
}
use name_file_system_docs.Base.Tests.{ltb, ◌==◌, if◌then◌else◌, Bool-cases, Option-cases}
use name_file_system_docs.Base.Lists.{length, take, All, length-take, take_all}
use name_file_system_docs.Base.Strings.{CString, same}
use name_file_system_docs.Protocol.{err_success}
use name_file_system_docs.Table.Chain.{Buckets, lookup, write, update}
use name_file_system_docs.Table.Laws.{modify-All}
use name_file_system_docs.Table.Valid.{
  IsTable, prepend-IsTable, update-IsTable, lookup-prepend, lookup-update, empty-IsTable,
}
use name_file_system_docs.Table.Sizes.{total, total-prepend, total-update, total-empty}
use name_file_system_docs.Undo.{
  UndoEntry, UndoTable, undo_keys, undo_hash_size, max_undo_size, hash_filename, undo_table_init,
  undo_save, saved,
}

abbrev pub view_of : Option UndoEntry → Option (List ℕ)
view_of none = none
view_of (some e) = if e.valid then e.content else none

-- What an undo would bring back.
unfoldable pub view : UndoTable → CString → Option (List ℕ)
view t f = view_of (lookup undo_keys t.buckets f)

pub view_of-if :
    (b : Bool) (o : Option UndoEntry) (p : Option UndoEntry)
    → view_of (if b then o else p) ≡ (if b then view_of o else view_of p)
view_of-if true o p = refl
view_of-if false o p = refl

-- A valid entry has its content, of the size that it records.
abbrev pub IsCoherent : UndoEntry → Type 0
IsCoherent e = (e.valid ≡ false) ⊎ ((c : List ℕ) × (e.content ≡ some c) × (length c ≡ e.size))

pub record IsValid (t : UndoTable) : Type 0 where
  pub table : IsTable undo_keys t.buckets
  pub counted : total t.buckets undo_hash_size ≡ t.entry_count
  pub coherent : (i : ℕ) → All IsCoherent (t.buckets i)

pub hash_filename-lt : (f : CString) → hash_filename f < undo_hash_size
unfolding hash_filename
hash_filename-lt f = omega arith

pub write-coherent :
    (t : Buckets UndoEntry) (i : ℕ) (c : List UndoEntry)
    → ((i : ℕ) → All IsCoherent (t i))
    → All IsCoherent c
    → (j : ℕ) → All IsCoherent (write t i c j)
write-coherent t i c v h j = elim (Bool-cases (i == j)) [
  | inl here ↦ rw here h
  | inr away ↦ rw away (v j)
]

pub update-IsValid :
    (t : UndoTable) (f : CString) (h : UndoEntry → UndoEntry)
    → ((e : UndoEntry) → (h e).filename ≡ e.filename)
    → ((e : UndoEntry) → IsCoherent e → IsCoherent (h e))
    → IsValid t
    → IsValid (record t { buckets = update undo_keys t.buckets f h })
update-IsValid t f h kept good v = record {
  table = update-IsTable undo_keys t.buckets f h kept v.table;
  counted = total-update undo_keys t.buckets undo_hash_size f (hash_filename-lt f) h ∙ v.counted;
  coherent = write-coherent t.buckets (hash_filename f) _ v.coherent (
      modify-All undo_keys IsCoherent f h (t.buckets (hash_filename f)) good
        (v.coherent (hash_filename f)));
}

pub init-IsValid : IsValid undo_table_init
unfolding undo_table_init
init-IsValid = record {
  table = empty-IsTable undo_keys;
  counted = total-empty UndoEntry undo_hash_size;
  coherent = λ i. tt;
}

module _ (t : UndoTable) (v : IsValid t) (f : CString) (fits : length f ≤ 255) where
  module _ (content : List ℕ) (size : ℕ) (whole : size ≤ length content)
      (small : size ≤ max_undo_size) where
    saved-coherent : (e : UndoEntry) → IsCoherent (saved content size e)
    saved-coherent e = inr (take size content, refl, omega (arith, length-take size content))

    fits_limit : ltb max_undo_size size ≡ false
    fits_limit = ground arith

    -- `undo_save`, given memory, keeps the table well formed: every entry in its chain and
    -- once, `entry_count` the number of entries, and every valid entry with content of its
    -- size. The name fits, and `size` is within the buffer and the limit.
    pub save-IsValid : IsValid (undo_save t f content size true true).1
    unfolding undo_save
    save-IsValid = elim (Option-cases (lookup undo_keys t.buckets f)) [
      | inr (e, there) ↦
          rw (fits_limit, there, undo_save)
            (update-IsValid t f (saved content size) (λ _. refl) (λ e _. saved-coherent e) v)
      | inl absent ↦
          rw (fits_limit, absent, undo_save)
            (record {
              table = prepend-IsTable undo_keys t.buckets f _ v.table (take_all 255 f fits) absent;
              counted =
                  total-prepend undo_keys t.buckets undo_hash_size f (hash_filename-lt f) _
                  ∙ omega (arith, v.counted);
              coherent = write-coherent t.buckets (hash_filename f) _ v.coherent (
                inr (take size content, refl, omega (arith, length-take size content)),
                v.coherent (hash_filename f),
              );
            })
    ]

    -- A save with memory succeeds; an undo of the file would then bring back the first `size`
    -- bytes of the saved buffer, and every other file's undo is what it was. The table is well
    -- formed, the name fits, and `size` is within the buffer and the limit.
    pub save-view :
        (g : CString)
        → ((undo_save t f content size true true).0 ≡ err_success)
          × (view (undo_save t f content size true true).1 g
              ≡ (if same f g then some (take size content) else view t g))
    unfolding undo_save view
    save-view g = elim (Option-cases (lookup undo_keys t.buckets f)) [
      | inr (e, there) ↦
          rw (fits_limit, there, undo_save)
            (
              refl,
              ap view_of (lookup-update undo_keys t.buckets f g (saved content size) (λ _. refl))
                  ∙ rw (view_of-if (same f g), there),
            )
      | inl absent ↦
          rw (fits_limit, absent, undo_save)
            (
              refl,
              ap view_of (lookup-prepend undo_keys t.buckets f g _ (take_all 255 f fits))
                  ∙ view_of-if (same f g) _ _,
            )
    ]
