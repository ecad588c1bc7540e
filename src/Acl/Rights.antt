-- ===== src/Acl/Rights.antt =====
-- What each operation of acl.c does to the answers of `acl_check_read` and `acl_check_write`.
use name_file_system_docs.Base.{
  ℕ, ◌≤◌, ◌≡◌, refl, sym, ap, ◌∙◌, inl, inr, Bool, true, false, ◌&&◌, ◌||◌, not, Option, none, some,
  arith,
}
use name_file_system_docs.Base.Tests.{ltb, ◌==◌, if◌then◌else◌, Bool-cases, Option-cases}
use name_file_system_docs.Base.Lists.{length}
use name_file_system_docs.Base.Strings.{CString, same, eq_of_same}
use name_file_system_docs.Protocol.{access_read, access_write}
use name_file_system_docs.Table.Chain.{lookup, update}
use name_file_system_docs.Table.Valid.{lookup-update}
use name_file_system_docs.Acl.Users.{is_in_list, add_to_list, is_in_list-add}
use name_file_system_docs.Acl.{
  AclEntry, AclTable, acl_keys, acl_find_entry, acl_add_access, acl_check_read, acl_check_write,
  acl_check_owner, acl_can_access, has_access,
}

-- The answers as functions of the entry that the walk finds.
abbrev pub reads : CString → Option AclEntry → Bool
reads user none = false
reads user (some e) = has_access user e

abbrev pub writes : CString → Option AclEntry → Bool
writes user none = false
writes user (some e) = same e.owner user || is_in_list e.write_users user

pub check_read-reads :
    (acl : AclTable) (f user : CString)
    → acl_check_read acl f user ≡ reads user (acl_find_entry acl f)
unfolding acl_check_read
check_read-reads acl f user = ground arith

pub check_write-writes :
    (acl : AclTable) (f user : CString)
    → acl_check_write acl f user ≡ writes user (acl_find_entry acl f)
unfolding acl_check_write
check_write-writes acl f user = ground arith

-- Write permission implies read permission, the owner has both, and `acl_can_access` is read
-- permission.
pub access_order :
    (acl : AclTable) (f user : CString)
    → ((acl_check_owner acl f user && not (acl_check_write acl f user)) ≡ false)
      × ((acl_check_write acl f user && not (acl_check_read acl f user)) ≡ false)
      × (acl_can_access acl f user ≡ acl_check_read acl f user)
unfolding acl_check_owner acl_check_write acl_check_read acl_can_access
access_order acl f user = elim (Option-cases (acl_find_entry acl f)) [
  | inl absent ↦ rw (absent, acl_check_owner, acl_check_write, acl_check_read) (ground arith)
  | inr (e, there) ↦ rw (there, acl_check_owner, acl_check_write, acl_check_read) (ground arith)
]

-- How a change `h` of the entry of `f` shows in an answer `see` about any file `g`.
pub seen_update :
    (acl : AclTable) (f g : CString) (h : AclEntry → AclEntry) (e : AclEntry)
    (see : Option AclEntry → Bool)
    → ((e : AclEntry) → (h e).filename ≡ e.filename)
    → acl_find_entry acl f ≡ some e
    → see (lookup acl_keys (update acl_keys acl.buckets f h) g)
      ≡ (if same f g then see (some (h e)) else see (acl_find_entry acl g))
seen_update acl f g h e see kept there =
    ap see (lookup-update acl_keys acl.buckets f g h kept) ∙ ground (arith, there)

pub same_file :
    (acl : AclTable) (f : CString) (e : AclEntry) (g : CString)
    → acl_find_entry acl f ≡ some e
    → same f g ≡ true
    → acl_find_entry acl g ≡ some e
same_file acl f e g there q = ap (acl_find_entry acl) (sym (eq_of_same f g q)) ∙ there

module _ (acl : AclTable) (f user : CString) where
  -- A granted right is the right asked for. After `acl_add_access` for `user` on `f`, a user
  -- can read a file exactly if they could before, or the call succeeded and this is `user` on
  -- `f`; the same for writing, if the call granted ACCESS_WRITE. The name fits its array.
  pub add_access_rights :
      (access_type : ℕ) (g w : CString)
      → length user ≤ 63
      → let r = acl_add_access acl f user access_type in
        (acl_check_read r.1 g w ≡ (acl_check_read acl g w || (r.0 && same f g && same user w)))
        × (acl_check_write r.1 g w ≡ (
            acl_check_write acl g w
            || (access_type == access_write && r.0 && same f g && same user w)))
  unfolding acl_add_access
  add_access_rights access_type g w fits =
      let r = acl_add_access acl f user access_type in
      rw
        (
          check_read-reads r.1 g w,
          check_read-reads acl g w,
          check_write-writes r.1 g w,
          check_write-writes acl g w,
        )
        (elim (Option-cases (acl_find_entry acl f)) [
          | inl absent ↦ rw (absent, acl_add_access) (ground arith)
          | inr (e, there) ↦
              rw (there, acl_add_access)
                (elim (Bool-cases (access_type == access_read)) [
                  | inl reading ↦
                      let h : AclEntry → AclEntry =
                        λ e. record e { read_users = (add_to_list e.read_users user).1 } in
                      rw
                        (
                          reading,
                          seen_update acl f g h e (reads w) (λ _. refl) there,
                          seen_update acl f g h e (writes w) (λ _. refl) there,
                        )
                        (elim (Bool-cases (same f g)) [
                          | inl q ↦
                              rw (q, same_file acl f e g there q)
                                (ground (arith, is_in_list-add e.read_users user w fits))
                          | inr n ↦ rw n (ground arith)
                        ])
                  | inr neither ↦ rw neither (elim (Bool-cases (access_type == access_write)) [
                    | inl writing ↦
                        let h : AclEntry → AclEntry =
                          λ e. record e { write_users = (add_to_list e.write_users user).1 } in
                        rw
                          (
                            writing,
                            seen_update acl f g h e (reads w) (λ _. refl) there,
                            seen_update acl f g h e (writes w) (λ _. refl) there,
                          )
                          (elim (Bool-cases (same f g)) [
                            | inl q ↦
                                rw (q, same_file acl f e g there q)
                                  (ground (arith, is_in_list-add e.write_users user w fits))
                            | inr n ↦ rw n (ground arith)
                          ])
                    | inr invalid ↦ rw invalid (ground arith)
                  ])
                ])
        ])

  -- `acl_add_access` succeeds exactly if the file is listed, the access type is ACCESS_READ or
  -- ACCESS_WRITE, and the user is in that list already or the list holds fewer than 50; if it
  -- fails, no answer changes.
  add_access_result :
      (access_type : ℕ)
      → (acl_add_access acl f user access_type).0 ≡ (elim (acl_find_entry acl f) [
        | none ↦ false
        | some e ↦
            if access_type == access_read
            then is_in_list e.read_users user || ltb (length e.read_users) 50
            else access_type == access_write
              && (is_in_list e.write_users user || ltb (length e.write_users) 50)
      ])
  unfolding acl_add_access add_to_list
  add_access_result access_type = ground arith
