-- ===== src/Acl/Changes.antt =====
-- What revoking, adding a file and removing a file in acl.c do to the answers of the checks.
use name_file_system_docs.Base.{
  ℕ, ◌≤◌, ◌≡◌, refl, sym, ap, ◌∙◌, inl, inr, true, false, ◌&&◌, ◌||◌, not, none, some, arith,
}
use name_file_system_docs.Base.Tests.{if◌then◌else◌, Bool-cases, Option-cases}
use name_file_system_docs.Base.Lists.{length, take_all}
use name_file_system_docs.Base.Strings.{CString, same, eq_of_same}
use name_file_system_docs.Table.Valid.{lookup-prepend, lookup-delete}
use name_file_system_docs.Acl.Users.{is_in_list, is_in_list-remove}
use name_file_system_docs.Acl.Valid.{IsValid, find-IsEntry}
use name_file_system_docs.Acl.Rights.{
  reads, writes, check_read-reads, check_write-writes, seen_update, same_file,
}
use name_file_system_docs.Acl.{
  AclTable, acl_keys, acl_find_entry, new_entry, acl_add_file, acl_remove_access, acl_remove_file,
  acl_check_read, acl_check_write, acl_check_owner, without,
}

module _ (acl : AclTable) (f user : CString) where
  -- Revocation. After `acl_remove_access` the user has no right on that file but the owner's,
  -- no other user and no other file is affected, and the call succeeds exactly if the user
  -- stood in one of the two lists. The table is well formed.
  pub remove_access_rights :
      (g w : CString)
      → IsValid acl
      → let r = acl_remove_access acl f user in
        (acl_check_read r.1 g w
          ≡ (if same f g && same user w then acl_check_owner acl g w else acl_check_read acl g w))
        × (acl_check_write r.1 g w ≡ (
            if same f g && same user w then acl_check_owner acl g w else acl_check_write acl g w))
        × (r.0 ≡ (elim (acl_find_entry acl f) [
          | none ↦ false
          | some e ↦ is_in_list e.read_users user || is_in_list e.write_users user
        ]))
  unfolding acl_remove_access acl_check_owner
  remove_access_rights g w v =
      let r = acl_remove_access acl f user in
      rw
        (
          check_read-reads r.1 g w,
          check_read-reads acl g w,
          check_write-writes r.1 g w,
          check_write-writes acl g w,
        )
        (elim (Option-cases (acl_find_entry acl f)) [
          | inl absent ↦
              rw (absent, acl_remove_access)
                (elim (Bool-cases (same f g)) [
                  | inl q ↦
                      let none_here : acl_find_entry acl g ≡ none =
                        ap (acl_find_entry acl) (sym (eq_of_same f g q)) ∙ absent in
                      rw (q, none_here) (ground arith)
                  | inr n ↦ rw n (ground arith)
                ])
          | inr (e, there) ↦
              let entry = find-IsEntry acl f e v there in
              rw
                (
                  there,
                  acl_remove_access,
                  seen_update acl f g (without user) e (reads w) (λ _. refl) there,
                  seen_update acl f g (without user) e (writes w) (λ _. refl) there,
                )
                (elim (Bool-cases (same f g)) [
                  | inl q ↦
                      rw (q, same_file acl f e g there q)
                        (ground (
                          arith,
                          same_file acl f e g there q,
                          is_in_list-remove e.read_users user w entry.readers.unique,
                          is_in_list-remove e.write_users user w entry.writers.unique,
                        ))
                  | inr n ↦ rw n (
                      ground (
                        arith,
                        is_in_list-remove e.read_users user w entry.readers.unique,
                        is_in_list-remove e.write_users user w entry.writers.unique,
                      ))
                ])
        ])

-- A new file is its owner's alone: `acl_add_file` succeeds exactly if the name is not listed, then
-- the owner reads and writes it and nobody else does, and no other file's answers change.
pub add_file_rights :
    (acl : AclTable) (f owner : CString) (now : ℕ) (g w : CString)
    → length f ≤ 255
    → length owner ≤ 63
    → let r = acl_add_file acl f owner now in
      (r.0 ≡ (elim (acl_find_entry acl f) [ none ↦ true | some e ↦ false ]))
      × (acl_check_read r.1 g w
          ≡ (if r.0 && same f g then same owner w else acl_check_read acl g w))
      × (acl_check_write r.1 g w
          ≡ (if r.0 && same f g then same owner w else acl_check_write acl g w))
unfolding acl_add_file new_entry is_in_list
add_file_rights acl f owner now g w fits fits' =
    let r = acl_add_file acl f owner now in
    rw
      (
        check_read-reads r.1 g w,
        check_read-reads acl g w,
        check_write-writes r.1 g w,
        check_write-writes acl g w,
      )
      (elim (Option-cases (acl_find_entry acl f)) [
        | inr (e, there) ↦ rw (there, acl_add_file) (ground arith)
        | inl absent ↦
            let after =
              lookup-prepend acl_keys acl.buckets f g (new_entry f owner now)
                (take_all 255 f fits) in
            rw (absent, acl_add_file)
              (
                refl,
                ap (reads w) after ∙ ground (arith, take_all 63 owner fits'),
                ap (writes w) after ∙ ground (arith, take_all 63 owner fits'),
              )
      ])

-- Removing a file takes every right on it away and touches no other file. The call succeeds
-- exactly if the file was listed. The table is well formed.
pub remove_file_rights :
    (acl : AclTable) (f g w : CString)
    → IsValid acl
    → let r = acl_remove_file acl f in
      (r.0 ≡ (elim (acl_find_entry acl f) [ none ↦ false | some e ↦ true ]))
      × (acl_check_read r.1 g w ≡ (not (same f g) && acl_check_read acl g w))
      × (acl_check_write r.1 g w ≡ (not (same f g) && acl_check_write acl g w))
unfolding acl_remove_file
remove_file_rights acl f g w v =
    let r = acl_remove_file acl f in
    rw
      (
        check_read-reads r.1 g w,
        check_read-reads acl g w,
        check_write-writes r.1 g w,
        check_write-writes acl g w,
      )
      (elim (Option-cases (acl_find_entry acl f)) [
        | inr (e, there) ↦
            let after = lookup-delete acl_keys acl.buckets f g v.table in
            rw (there, acl_remove_file)
              (refl, ap (reads w) after ∙ ground arith, ap (writes w) after ∙ ground arith)
        | inl absent ↦
            rw (absent, acl_remove_file)
              (ground (arith, absent, ap (acl_find_entry acl), eq_of_same f g))
      ])
