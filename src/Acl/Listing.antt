-- ===== src/Acl/Listing.antt =====
-- `acl_get_accessible_files` and `acl_get_all_files` of acl.c against the checks.
use name_file_system_docs.Base.{
  ℕ, zero, suc, ◌≤◌, ◌≡◌, refl, ◌∙◌, Bool, true, false, ◌&&◌, none, some, List, [], ◌∷◌, arith,
}
use name_file_system_docs.Base.Lists.{length, All, take_all}
use name_file_system_docs.Base.Strings.{CString, same}
use name_file_system_docs.Table.Chain.{entries_from}
use name_file_system_docs.Table.Walk.{any, holds, any-entries, All-entries, length-entries}
use name_file_system_docs.Acl.Users.{is_in_list}
use name_file_system_docs.Acl.Valid.{IsValid, IsEntry, acl_hash-lt}
use name_file_system_docs.Acl.Rights.{check_read-reads}
use name_file_system_docs.Acl.{
  AclEntry, AclTable, acl_keys, acl_find_entry, acl_hash_size, acl_check_read, has_access, collect,
  acl_get_all_files, acl_get_accessible_files,
}

-- With room for all entries, the loop lists a name exactly if an entry of it is wanted.
collect-any :
    (wanted : AclEntry → Bool) (room : ℕ) (es : List AclEntry) (f : CString)
    → length es ≤ room
    → All IsEntry es
    → is_in_list (collect wanted room es) f ≡ any (λ e. same e.filename f && wanted e) es
unfolding collect is_in_list
collect-any wanted room [] f h a = refl
collect-any wanted zero (e ∷ es) f h a = absurd (omega arith)
collect-any wanted (suc room) (e ∷ es) f h a = ground (
  arith,
  collect-any wanted room es f (omega arith) a.1,
  collect-any wanted (suc room) es f (omega arith) a.1,
  take_all 255 e.filename a.0.named,
)

-- However small the room, a listed name is one of a wanted entry.
collect_sound :
    (wanted : AclEntry → Bool) (room : ℕ) (es : List AclEntry) (f : CString)
    → All IsEntry es
    → is_in_list (collect wanted room es) f ≡ true
    → any (λ e. same e.filename f && wanted e) es ≡ true
unfolding collect is_in_list
collect_sound wanted room [] f a h = h
collect_sound wanted zero (e ∷ es) f a h = absurd (ground arith)
collect_sound wanted (suc room) (e ∷ es) f a h = ground (
  arith,
  collect_sound wanted room es f a.1,
  collect_sound wanted (suc room) es f a.1,
  take_all 255 e.filename a.0.named,
)

length-collect :
    (wanted : AclEntry → Bool) (room : ℕ) (es : List AclEntry)
    → length (collect wanted room es) ≤ room
unfolding collect
length-collect wanted room [] = omega arith
length-collect wanted zero (e ∷ es) = omega arith
length-collect wanted (suc room) (e ∷ es) =
    ground (arith, length-collect wanted room es, length-collect wanted (suc room) es)

module _ (acl : AclTable) (v : IsValid acl) (user f : CString) (max_files : ℕ) where
  listed-entry :
      (wanted : AclEntry → Bool)
      → any (λ e. same e.filename f && wanted e) (entries_from acl.buckets 0 acl_hash_size)
        ≡ holds wanted (acl_find_entry acl f)
  listed-entry wanted =
      any-entries acl_keys f wanted acl.buckets acl_hash_size v.table (acl_hash-lt f)

  -- `acl_get_accessible_files` lists what `acl_check_read` allows: with room for every file of
  -- the table, a name is listed exactly if the user may read it. The table is well formed.
  pub accessible-check_read :
      acl.file_count ≤ max_files
      → is_in_list (acl_get_accessible_files acl user max_files) f ≡ acl_check_read acl f user
  unfolding acl_get_accessible_files
  accessible-check_read room =
      collect-any (has_access user) max_files (entries_from acl.buckets 0 acl_hash_size) f
        (omega (arith, length-entries acl.buckets acl_hash_size, v.counted))
        (All-entries IsEntry acl.buckets acl_hash_size v.entries)
      ∙ listed-entry (has_access user)
      ∙ ground (arith, check_read-reads acl f user)

  -- With less room it lists at most `max_files` names, each of which the user may read.
  accessible_bounded :
      is_in_list (acl_get_accessible_files acl user max_files) f ≡ true
      → (acl_check_read acl f user ≡ true)
        × (length (acl_get_accessible_files acl user max_files) ≤ max_files)
  unfolding acl_get_accessible_files
  accessible_bounded listed = (
    ground (
      arith,
      collect_sound (has_access user) max_files (entries_from acl.buckets 0 acl_hash_size) f
          (All-entries IsEntry acl.buckets acl_hash_size v.entries) listed,
      listed-entry (has_access user),
      check_read-reads acl f user,
    ),
    length-collect (has_access user) max_files (entries_from acl.buckets 0 acl_hash_size),
  )

  -- `acl_get_all_files` lists exactly the files of the table, given room for all.
  all_files-find_entry :
      acl.file_count ≤ max_files
      → is_in_list (acl_get_all_files acl max_files) f
        ≡ (elim (acl_find_entry acl f) [ none ↦ false | some e ↦ true ])
  unfolding acl_get_all_files
  all_files-find_entry room =
      collect-any (λ _. true) max_files (entries_from acl.buckets 0 acl_hash_size) f
        (omega (arith, length-entries acl.buckets acl_hash_size, v.counted))
        (All-entries IsEntry acl.buckets acl_hash_size v.entries)
      ∙ listed-entry (λ _. true)
      ∙ ground arith
