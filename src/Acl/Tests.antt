-- ===== src/Acl/Tests.antt =====
-- Runs of the access control list on concrete inputs, and the theorems of its modules there.
use name_file_system_docs.Base.{
  ◌≡◌, refl, true, false, ◌&&◌, ◌||◌, none, some, List, [], ◌∷◌, arith,
}
use name_file_system_docs.Base.Tests.{if◌then◌else◌}
use name_file_system_docs.Base.Strings.{CString, same}
use name_file_system_docs.Protocol.{access_read, access_write}
use name_file_system_docs.Table.Chain.{find, modify, unlink, entries_from}
use name_file_system_docs.Acl.{
  AclTable, acl_find_entry, acl_hash, acl_init, new_entry, acl_add_file, acl_add_access,
  acl_remove_access, acl_remove_file, acl_check_read, acl_check_write, acl_check_owner,
  acl_get_accessible_files, collect,
}
use name_file_system_docs.Acl.Users.{is_in_list, add_to_list, remove_from_list}
use name_file_system_docs.Acl.Valid.{IsValid, init-IsValid}
use name_file_system_docs.Acl.Changes.{remove_access_rights}
use name_file_system_docs.Acl.History.{
  Change, add_file, add_access, apply, apply_all, apply_all-IsValid, no_right-apply_all,
}

abbrev doc : CString
doc = b'd' ∷ b'o' ∷ b'c' ∷ []

abbrev alice : CString
alice = b'a' ∷ []

abbrev bob : CString
bob = b'b' ∷ []

abbrev carol : CString
carol = b'c' ∷ []

computing : Unit {0}
unfolding find modify unlink same is_in_list add_to_list remove_from_list acl_hash acl_init
    new_entry acl_add_file acl_add_access acl_remove_access acl_remove_file acl_check_read
    acl_check_write acl_check_owner apply apply_all entries_from collect acl_get_accessible_files
computing = tt

abbrev history : List Change
history = add_file doc alice 7 ∷ add_access doc bob access_read ∷ []

abbrev shared : AclTable
shared = apply_all acl_init history

shared-IsValid : IsValid shared
shared-IsValid =
    apply_all-IsValid acl_init history ((omega arith, omega arith), (omega arith, tt)) init-IsValid

bob_reads : acl_check_read shared doc bob ≡ true
unfolding computing
bob_reads = refl

bob_writes_not : acl_check_write shared doc bob ≡ false
unfolding computing
bob_writes_not = refl

bob_lists : acl_get_accessible_files shared bob 1000 ≡ doc ∷ []
unfolding computing
bob_lists = refl

carol_reads_not : acl_check_read shared doc carol ≡ false
unfolding computing
carol_reads_not = refl

remove_access_rights_example :
    let r = acl_remove_access shared doc bob in
    (acl_check_read r.1 doc bob ≡ (
      if same doc doc && same bob bob
      then acl_check_owner shared doc bob
      else acl_check_read shared doc bob))
    × (acl_check_write r.1 doc bob ≡ (
        if same doc doc && same bob bob
        then acl_check_owner shared doc bob
        else acl_check_write shared doc bob))
    × (r.0 ≡ (elim (acl_find_entry shared doc) [
      | none ↦ false
      | some e ↦ is_in_list e.read_users bob || is_in_list e.write_users bob
    ]))
remove_access_rights_example = remove_access_rights shared doc bob doc bob shared-IsValid

no_right-apply_all_example :
    acl_check_read (apply_all shared (add_access doc bob access_write ∷ [])) doc carol ≡ false
unfolding same
no_right-apply_all_example =
    no_right-apply_all shared doc carol (add_access doc bob access_write ∷ []) (omega arith, tt)
      (refl, tt) shared-IsValid carol_reads_not

listed : is_in_list (acl_get_accessible_files shared bob 1) doc ≡ true
unfolding computing
listed = refl
