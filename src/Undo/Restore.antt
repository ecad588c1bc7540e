-- ===== src/Undo/Restore.antt =====
-- `undo_restore`, `undo_available` and `undo_clear_file` of undo_buffer.c against the same contract.
use name_file_system_docs.Base.{
  ℕ, ◌≤◌, ◌≡◌, refl, ap, ◌∙◌, inl, inr, true, false, not, Option, none, some, List, arith,
}
use name_file_system_docs.Base.Tests.{if◌then◌else◌, Bool-cases, Option-cases}
use name_file_system_docs.Base.Lists.{length, take, length-take, take_all}
use name_file_system_docs.Base.Strings.{CString, same, same_refl, same_iff}
use name_file_system_docs.Protocol.{err_server_error, err_not_found}
use name_file_system_docs.Table.Chain.{lookup, update}
use name_file_system_docs.Table.Laws.{find-All, unlink-All}
use name_file_system_docs.Table.Valid.{delete-IsTable, lookup-update, lookup-delete}
use name_file_system_docs.Table.Sizes.{total-delete}
use name_file_system_docs.Undo.{
  UndoEntry, UndoTable, Restoration, restored, failed, null_copy, undo_keys, undo_hash_size,
  max_undo_size, hash_filename, undo_save, undo_restore, undo_available, undo_clear_file, copy_out,
  cleared,
}
use name_file_system_docs.Undo.Spec.{
  view, view_of, view_of-if, IsCoherent, IsValid, hash_filename-lt, update-IsValid, save-IsValid,
  save-view, write-coherent,
}

-- The table after an undo.
abbrev pub table_after : UndoTable → Restoration → UndoTable
table_after t (restored c n u) = u
table_after t (failed code u) = u
table_after t null_copy = t

abbrev clear_entry : UndoTable → CString → UndoTable
clear_entry t f = record t { buckets = update undo_keys t.buckets f cleared }

-- The undo that the contract asks for, by what the file's view holds.
abbrev pub undo_of : UndoTable → CString → Option (List ℕ) → Restoration
undo_of t f none = failed err_not_found t
undo_of t f (some c) = restored c (length c) (clear_entry t f)

module _ (t : UndoTable) (v : IsValid t) (f : CString) where
  -- With memory, an undo returns the whole content that the view holds and its length, or
  -- ERR_NOT_FOUND where it holds none; it never copies from a null pointer. The table is well
  -- formed.
  pub restore-undo_of : undo_restore t f true ≡ undo_of t f (view t f)
  unfolding undo_restore view copy_out
  restore-undo_of = elim (Option-cases (lookup undo_keys t.buckets f)) [
    | inl absent ↦ rw (absent, undo_restore)
    | inr (e, there) ↦
        rw (there, undo_restore)
          (elim (Bool-cases e.valid) [
            | inr invalid ↦ ground arith
            | inl valid ↦ valid_entry e valid (
                find-All undo_keys IsCoherent f (t.buckets (hash_filename f)) e
                  (v.coherent (hash_filename f)) there)
          ])
  ]
    where
      valid_entry :
          (e : UndoEntry)
          → e.valid ≡ true
          → IsCoherent e
          → (if not e.valid
              then failed err_not_found t
              else if true
              then copy_out t f e e.content
              else failed err_server_error t)
            ≡ undo_of t f (if e.valid then e.content else none)
      valid_entry e valid (inl invalid) = absurd (ground arith)
      valid_entry e valid (inr (c, content, size)) = ground (arith, take_all e.size c)

  clear_entry-view :
      (g : CString) → view (clear_entry t f) g ≡ (if same f g then none else view t g)
  unfolding view
  clear_entry-view g =
      ap view_of (lookup-update undo_keys t.buckets f g cleared (λ _. refl))
      ∙ view_of-if (same f g) _ _
      ∙ elim (Option-cases (lookup undo_keys t.buckets f)) [
        | inl absent ↦ rw absent
        | inr (e, there) ↦ rw there
      ]

  -- An undo is used up: afterwards the file has none, the other files have theirs, and the
  -- table is well formed. The table was well formed, and memory is given.
  pub restore_frame :
      (g : CString)
      → IsValid (table_after t (undo_restore t f true))
        × (view (table_after t (undo_restore t f true)) g ≡ (if same f g then none else view t g))
  restore_frame g = rw restore-undo_of (elim (Option-cases (view t f)) [
    | inl absent ↦ rw absent (v, ground (arith, absent, same_iff f g))
    | inr (c, there) ↦
        rw there (update-IsValid t f cleared (λ _. refl) (λ _ _. inl refl) v, clear_entry-view g)
  ])

  -- `undo_available` tells, on a well-formed table, whether an undo would succeed.
  pub available-view : undo_available t f ≡ (elim (view t f) [ none ↦ false | some c ↦ true ])
  unfolding undo_available view
  available-view = elim (Option-cases (lookup undo_keys t.buckets f)) [
    | inl absent ↦ rw (absent, undo_available)
    | inr (e, there) ↦
        rw (there, undo_available)
          (coherent e (
            find-All undo_keys IsCoherent f (t.buckets (hash_filename f)) e
              (v.coherent (hash_filename f)) there))
  ]
    where
      coherent :
          (e : UndoEntry)
          → IsCoherent e
          → e.valid ≡ (elim (if e.valid then e.content else none) [ none ↦ false | some c ↦ true ])
      coherent e (inl invalid) = ground arith
      coherent e (inr (c, content, size)) = ground arith

  -- Clearing a file's undo removes its entry and no other, and the count follows.
  clear_frame :
      (g : CString)
      → IsValid (undo_clear_file t f)
        × (view (undo_clear_file t f) g ≡ (if same f g then none else view t g))
  unfolding undo_clear_file view
  clear_frame g = elim (Option-cases (lookup undo_keys t.buckets f)) [
    | inl absent ↦ rw (absent, undo_clear_file) (v, ground (arith, absent, same_iff f g))
    | inr (e, there) ↦
        rw (there, undo_clear_file)
          (
            record {
              table = delete-IsTable undo_keys t.buckets f v.table;
              counted = omega (
                arith,
                v.counted,
                total-delete undo_keys t.buckets undo_hash_size f (hash_filename-lt f) e there,
              );
              coherent = write-coherent t.buckets (hash_filename f) _ v.coherent (
                  unlink-All undo_keys IsCoherent f (t.buckets (hash_filename f))
                    (v.coherent (hash_filename f)));
            },
            ap view_of (lookup-delete undo_keys t.buckets f g v.table) ∙ view_of-if (same f g) _ _,
          )
  ]

module _ (t : UndoTable) (v : IsValid t) (f : CString) (fits : length f ≤ 255) (content : List ℕ)
    (size : ℕ) (whole : size ≤ length content) (small : size ≤ max_undo_size) where
  -- Round trip. Saving `size` bytes for a file and undoing returns these bytes and that size;
  -- the undo is good for once: a second one answers ERR_NOT_FOUND and changes nothing. The
  -- table is well formed, the name fits, memory is given, and `size` is within the buffer and
  -- the limit of 1 MB.
  pub save_restore :
      let u = (undo_save t f content size true true).1 in
      let after = table_after u (undo_restore u f true) in
      (undo_restore u f true ≡ restored (take size content) size after)
      × (undo_restore after f true ≡ failed err_not_found after)
  save_restore =
      let u = (undo_save t f content size true true).1 in
      let valid = save-IsValid t v f fits content size whole small in
      let held : view u f ≡ some (take size content) =
        (save-view t v f fits content size whole small f).1 ∙ rw (same_refl f) in
      let shape = restore-undo_of u valid f ∙ ap (undo_of u f) held in
      let after = table_after u (undo_restore u f true) in
      let frame = restore_frame u valid f f in
      let gone : view after f ≡ none = frame.1 ∙ rw (same_refl f) in
      (
        ground (arith, shape, length-take size content),
        restore-undo_of after frame.0 f ∙ ap (undo_of after f) gone,
      )
