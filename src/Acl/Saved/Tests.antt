-- ===== src/Acl/Saved/Tests.antt =====
-- The data file of acl.c on a table with one file that has a writer and no readers.
use name_file_system_docs.Base.{ℕ, ◌≡◌, refl, inl, inr, true, [], ◌∷◌, arith}
use name_file_system_docs.Base.Tests.{◌==◌, Bool-cases}
use name_file_system_docs.Base.Lists.{All}
use name_file_system_docs.Base.Strings.{CString, same}
use name_file_system_docs.Base.Split.{separated}
use name_file_system_docs.Acl.{
  AclEntry, AclTable, acl_add_access, acl_add_file, acl_check_write, acl_find_entry, acl_hash,
  acl_init, new_entry,
}
use name_file_system_docs.Acl.Saved.{acl_load, acl_save, entry_line, has_prefix}
use name_file_system_docs.Acl.Saved.Lines.{IsPrintable, by_test}
use name_file_system_docs.Acl.Users.{add_to_list, is_in_list}
use name_file_system_docs.Protocol.{access_write}
use name_file_system_docs.Table.Chain.{find, modify}
use mathlib.Core.Option
use name_file_system_docs.Acl.Valid.{IsValid, init-IsValid}
use name_file_system_docs.Acl.History.{add_file, add_access, apply, apply_all, apply_all-IsValid}
use name_file_system_docs.Acl.Saved.Reload.{reloaded}
use name_file_system_docs.Acl.Saved.Restart.{save_load}

abbrev doc : CString
doc = b'd' ∷ b'o' ∷ b'c' ∷ []

abbrev alice : CString
alice = b'a' ∷ []

abbrev bob : CString
bob = b'b' ∷ []

abbrev before : AclTable
before = apply_all acl_init (add_file doc alice 7 ∷ add_access doc bob access_write ∷ [])

before-IsValid : IsValid before
before-IsValid =
    apply_all-IsValid acl_init _ ((omega arith, omega arith), (omega arith, tt)) init-IsValid

abbrev stored : AclEntry
stored = record {
  filename = doc;
  owner = alice;
  read_users = [];
  write_users = bob ∷ [];
  created_time = 7;
}

stored-IsPrintable : IsPrintable stored
unfolding entry_line has_prefix separated
stored-IsPrintable = record {
  named = ((λ e. cc), by_test b'|' doc refl);
  name_line = by_test 10 doc refl;
  name_fits = omega arith;
  owned = ((λ e. cc), by_test b'|' alice refl);
  owner_line = by_test 10 alice refl;
  owner_fits = omega arith;
  readers = tt;
  writers = ((((λ e. cc), by_test b',' bob refl), by_test b'|' bob refl, by_test 10 bob refl), tt);
  line_fits = omega arith;
  no_comment = refl;
  no_count = refl;
}

before-IsPrintable : (i : ℕ) → All IsPrintable (before.buckets i)
unfolding find modify same is_in_list add_to_list acl_hash acl_init new_entry acl_add_file
    acl_add_access apply apply_all
before-IsPrintable i = elim (Bool-cases (acl_hash doc == i)) [
  | inl here ↦ rw here (stored-IsPrintable, tt)
  | inr away ↦ rw away tt
]

save_load_example :
    acl_find_entry (acl_load acl_init (acl_save before) 9) doc
    ≡ Option.map (reloaded 9) (acl_find_entry before doc)
save_load_example = save_load before 9 doc before-IsValid before-IsPrintable

writer_before : acl_check_write before doc bob ≡ true
unfolding find modify same is_in_list add_to_list acl_hash acl_init new_entry acl_add_file
    acl_add_access acl_check_write apply apply_all
writer_before = refl
