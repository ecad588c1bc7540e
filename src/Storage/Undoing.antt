-- ===== src/Storage/Undoing.antt =====
-- `handle_undo_request` of storage_server.c, alone and after a write session.
use name_file_system_docs.Base.{
  ℕ, ◌≤◌, ◌≡◌, refl, sym, ap, ◌∙◌, true, false, Option, none, some, List, arith,
}
use name_file_system_docs.Base.Tests.{if◌then◌else◌}
use name_file_system_docs.Base.Lists.{length, take_all}
use name_file_system_docs.Base.Strings.{CString, same, same_refl}
use name_file_system_docs.Disk.{is_directory, put, regular, write_file}
use name_file_system_docs.Disk.Laws.{IsText, fread_text, put_away, put_here}
use name_file_system_docs.Index.Words.{kept}
use name_file_system_docs.Protocol.{err_not_found, err_server_error, err_success}
use name_file_system_docs.Storage.Reading.{Holds}
use name_file_system_docs.Storage.Session.{IsSession, session_edits, whole_session}
use name_file_system_docs.Storage.Writing.{temp_filepath}
use name_file_system_docs.Storage.{Calls, Message, Server, get_file_path, path_in}
use name_file_system_docs.Storage.Requests.{handle_undo_request, write_restored}
use name_file_system_docs.Undo.{UndoTable, restored, saved, undo_available, undo_restore}
use name_file_system_docs.Undo.Restore.{
  available-view, restore-undo_of, restore_frame, table_after, undo_of,
}
use name_file_system_docs.Undo.Spec.{view}
use name_file_system_docs.Undo.Spec as Undo

undo_none :
    (s : Server) (msg : Message) (calls : Calls)
    → Undo.IsValid s.undo_table
    → view s.undo_table msg.filename ≡ none
    → handle_undo_request s msg calls ≡ some (err_not_found, s)
unfolding handle_undo_request
undo_none s msg calls valid gone =
    let unavailable : undo_available s.undo_table msg.filename ≡ false =
      available-view s.undo_table valid msg.filename
      ∙ ap (λ (o : Option (List ℕ)). elim o [ none ↦ false | some c ↦ true ]) gone in
    simp (unavailable, handle_undo_request) refl

module _ (s : Server) (msg : Message) (calls : Calls) (c : List ℕ)
    (valid : Undo.IsValid s.undo_table) (saved : view s.undo_table msg.filename ≡ some c)
    (alloc : calls.content_alloc ≡ true) where
  -- The undo buffer with the file's copy used up.
  abbrev used_up : UndoTable
  used_up = table_after s.undo_table (undo_restore s.undo_table msg.filename true)

  undo_written : handle_undo_request s msg calls ≡ some (write_restored s msg calls c used_up)
  unfolding handle_undo_request
  undo_written =
      let t = s.undo_table in
      let shape = restore-undo_of t valid msg.filename ∙ ap (undo_of t msg.filename) saved in
      let restores : undo_restore t msg.filename calls.content_alloc
          ≡ restored c (length c) used_up =
        ap (undo_restore t msg.filename) alloc
        ∙ shape
        ∙ ap (restored c (length c)) (sym (ap (table_after t) shape)) in
      let available : undo_available t msg.filename ≡ true =
        available-view t valid msg.filename
        ∙ ap (λ (o : Option (List ℕ)). elim o [ none ↦ false | some c ↦ true ]) saved in
      simp (available, restores, handle_undo_request)
        (ap (λ (d : List ℕ). some (write_restored s msg calls d used_up))
          (take_all (length c) c (omega arith)))

  written_granted :
      calls.creates ≡ true
      → is_directory (s.disk (get_file_path s msg.filename)) ≡ false
      → write_restored s msg calls c used_up ≡ (
        err_success,
        record s {
          undo_table = used_up;
          disk = put s.disk (get_file_path s msg.filename) (some (regular c));
        },
      )
  unfolding write_restored write_file
  written_granted creates file = simp (creates, file, write_restored) refl

  written_refused :
      calls.creates ≡ false
      → write_restored s msg calls c used_up ≡ (err_server_error, record s { undo_table = used_up })
  unfolding write_restored write_file
  written_refused refused = simp (refused, write_restored) refl

  -- An UNDO puts the saved text back: the file holds it, every other file is what it was, and the
  -- undo is used up, for this file only. Nothing else changes, so that the search index still
  -- knows the words of the text that was undone. The copy is there, memory is given, the file can
  -- be written, and the undo buffer is well formed.
  pub undo_puts_back :
      calls.creates ≡ true
      → is_directory (s.disk (get_file_path s msg.filename)) ≡ false
      → (g : CString)
      → (s' : Server) × (handle_undo_request s msg calls ≡ some (err_success, s'))
        × Holds s' msg.filename c
        × ((q : CString) → same (get_file_path s msg.filename) q ≡ false → s'.disk q ≡ s.disk q)
        × Undo.IsValid s'.undo_table
        × (view s'.undo_table g ≡ (if same msg.filename g then none else view s.undo_table g))
        × (s'.search_index ≡ s.search_index)
        × (s'.lock_table ≡ s.lock_table)
        × (s'.write_session ≡ s.write_session)
  undo_puts_back creates file g =
      let (kept, views) = restore_frame s.undo_table valid msg.filename g in
      (
        record s {
          undo_table = used_up;
          disk = put s.disk (get_file_path s msg.filename) (some (regular c));
        },
        undo_written ∙ ap some (written_granted creates file),
        put_here s.disk (get_file_path s msg.filename) (some (regular c)),
        λ q away. put_away s.disk (get_file_path s msg.filename) q (some (regular c)) away,
        kept,
        views,
        refl,
        refl,
        refl,
      )

  -- A copy can be lost. If the file cannot be opened for writing, the UNDO answers
  -- ERR_SERVER_ERROR and leaves the file, but the copy is used up all the same: no later UNDO
  -- brings it back. The copy was there, memory is given, and the undo buffer is well formed.
  pub undo_lost :
      calls.creates ≡ false
      → (s' : Server) × (handle_undo_request s msg calls ≡ some (err_server_error, s'))
        × (s'.disk ≡ s.disk)
        × ((again : Calls) → handle_undo_request s' msg again ≡ some (err_not_found, s'))
  undo_lost refused =
      let s' = record s { undo_table = used_up } in
      let (kept, views) = restore_frame s.undo_table valid msg.filename msg.filename in
      (
        s',
        undo_written ∙ ap some (written_refused refused),
        refl,
        λ again. undo_none s' msg again kept (views ∙ rw (same_refl msg.filename)),
      )

-- Writing and undoing gives the file back. A whole session on a text of at most 4095 bytes without
-- zeros, and then an UNDO of the file: the file holds its bytes from before the session, and every
-- other file but the temporary one is what it was. The session is one that succeeds, and the UNDO is
-- given memory and can write the file.
pub session_undone :
    (s : Server) (start : Message) (at_start : Calls) (updates : List Message) (at_commit : Calls)
    (c : List ℕ) (old words : List CString) (sentence : CString) (undo : Message) (at_undo : Calls)
    → IsSession s start at_start updates at_commit c old words sentence
    → IsText c
    → length c ≤ 4095
    → undo.filename ≡ start.filename
    → at_undo.content_alloc ≡ true
    → at_undo.creates ≡ true
    → let path = get_file_path s start.filename in
      (s' : Server) × (s'' : Server) × (whole_session s start at_start updates at_commit
        ≡ some (err_success, s'))
      × (handle_undo_request s' undo at_undo ≡ some (err_success, s''))
      × Holds s'' start.filename c
      × ((q : CString)
          → same path q ≡ false
          → same (temp_filepath path) q ≡ false
          → s''.disk q ≡ s.disk q)
session_undone s start at_start updates at_commit c old words sentence undo at_undo h t short name
      alloc creates =
    let (s', run, dir, there, away, inactive, free, others, valid, saved) =
      session_edits s start at_start updates at_commit c old words sentence h in
    let path : get_file_path s' undo.filename ≡ get_file_path s start.filename =
      ap (path_in s'.storage_dir) name ∙ ap (λ (d : CString). path_in d start.filename) dir in
    let copy : view s'.undo_table undo.filename ≡ some c =
      ap (view s'.undo_table) name ∙ saved ∙ ap some (fread_text 4096 c t short) in
    let file : is_directory (s'.disk (get_file_path s' undo.filename)) ≡ false =
      ap (λ (f : CString). is_directory (s'.disk (path_in s'.storage_dir f))) name ∙ rw there in
    let (s'', undone, here, rest, _, _, _, _, _) =
      undo_puts_back s' undo at_undo c valid copy alloc creates file start.filename in
    (
      s',
      s'',
      run,
      undone,
      ap (λ (f : CString). s''.disk (path_in s''.storage_dir f)) (sym name) ∙ here,
      λ q other temp. rest q (ap (λ (p : CString). same p q) path ∙ other) ∙ away q other temp,
    )
