-- ===== src/Acl/Refused.antt =====
-- A call of acl.c that reports a failure has changed nothing.
use name_file_system_docs.Base.{ℕ, ◌≡◌, refl, ap, ◌∙◌, inl, inr, false, ◌||◌, List, [], ◌∷◌, arith}
use name_file_system_docs.Base.Tests.{◌==◌, Bool-cases, Option-cases}
use name_file_system_docs.Base.Strings.{CString}
use name_file_system_docs.Table.Same.{update_same}
use name_file_system_docs.Protocol.{access_read, access_write}
use name_file_system_docs.Acl.Users.{add_to_list, remove_from_list}
use name_file_system_docs.Acl.{
  AclEntry, AclTable, acl_keys, acl_find_entry, acl_add_access, acl_remove_access, acl_remove_file,
  not_full, without,
}

list_kept :
    (us : List CString) (user : CString)
    → not_full (add_to_list us user).0 ≡ false
    → (add_to_list us user).1 ≡ us
unfolding add_to_list
list_kept us user h = ground arith

list_unremoved :
    (us : List CString) (user : CString)
    → (remove_from_list us user).0 ≡ false
    → (remove_from_list us user).1 ≡ us
unfolding remove_from_list
list_unremoved [] user h = refl
list_unremoved (u ∷ us) user h = ground (arith, list_unremoved us user)

pub add_access_refused :
    (acl : AclTable) (f user : CString) (access_type : ℕ)
    → (acl_add_access acl f user access_type).0 ≡ false
    → (acl_add_access acl f user access_type).1 ≡ acl
unfolding acl_add_access
add_access_refused acl f user access_type h = elim (Option-cases (acl_find_entry acl f)) [
  | inl absent ↦ rw (absent, acl_add_access)
  | inr (e, there) ↦ elim (Bool-cases (access_type == access_read)) [
    | inl reading ↦
        let kept : (add_to_list e.read_users user).1 ≡ e.read_users =
          list_kept e.read_users user (rw (there, acl_add_access, reading) at h) in
        rw (there, acl_add_access, reading)
          (ap (λ (b : ℕ → List AclEntry). record acl { buckets = b })
            (update_same acl_keys acl.buckets f _ e there
              (ap (λ (us : List CString). record e { read_users = us }) kept)))
    | inr other ↦ elim (Bool-cases (access_type == access_write)) [
      | inl writing ↦
          let kept : (add_to_list e.write_users user).1 ≡ e.write_users =
            list_kept e.write_users user (rw (there, acl_add_access, other, writing) at h) in
          rw (there, acl_add_access, other, writing)
            (ap (λ (b : ℕ → List AclEntry). record acl { buckets = b })
              (update_same acl_keys acl.buckets f _ e there
                (ap (λ (us : List CString). record e { write_users = us }) kept)))
      | inr invalid ↦ rw (there, acl_add_access, other, invalid)
    ]
  ]
]

pub remove_access_refused :
    (acl : AclTable) (f user : CString)
    → (acl_remove_access acl f user).0 ≡ false
    → (acl_remove_access acl f user).1 ≡ acl
unfolding acl_remove_access
remove_access_refused acl f user h = elim (Option-cases (acl_find_entry acl f)) [
  | inl absent ↦ rw (absent, acl_remove_access)
  | inr (e, there) ↦
      let failed : ((remove_from_list e.read_users user).0
            || (remove_from_list e.write_users user).0)
          ≡ false =
        rw (there, acl_remove_access) at h in
      let readers : (remove_from_list e.read_users user).1 ≡ e.read_users =
        list_unremoved e.read_users user (ground (arith, failed)) in
      let writers : (remove_from_list e.write_users user).1 ≡ e.write_users =
        list_unremoved e.write_users user (ground (arith, failed)) in
      rw (there, acl_remove_access)
        (ap (λ (b : ℕ → List AclEntry). record acl { buckets = b })
          (update_same acl_keys acl.buckets f (without user) e there (
            ap
              (λ (us : List CString). record e {
                read_users = us;
                write_users = (remove_from_list e.write_users user).1;
              })
              readers
            ∙ ap (λ (us : List CString). record e { write_users = us }) writers)))
]

pub remove_file_refused :
    (acl : AclTable) (f : CString)
    → (acl_remove_file acl f).0 ≡ false
    → (acl_remove_file acl f).1 ≡ acl
unfolding acl_remove_file
remove_file_refused acl f h = ground arith
