-- ===== src/Acl/Report.antt =====
-- The reports of nameserver/acl.c: `acl_get_access_list` of one file, and `acl_get_all_users` of the
-- whole table. `is_user_in_acl_list` is the same walk as `is_in_list`.
use name_file_system_docs.Base.{ℕ, Option, none, some, List, [], ◌∷◌, ◌++◌}
use name_file_system_docs.Base.Tests.{leb, if◌then◌else◌}
use name_file_system_docs.Base.Lists.{length}
use name_file_system_docs.Base.Strings.{CString, copy_str}
use name_file_system_docs.Acl.{AclEntry, AclTable, acl_find_entry, acl_hash_size}
use name_file_system_docs.Acl.Users.{is_in_list}
use name_file_system_docs.Protocol.{max_content_len, max_username_len}
use name_file_system_docs.Table.Chain.{entries_from}
use name_file_system_docs.Acl.Saved.{codes}

-- `offset += snprintf(temp + offset, sizeof(temp) - offset, ", %s (RW)", …)` for each user; what
-- does not fit is cut where the whole is copied.
unfoldable pub write_marks : List CString → CString
write_marks [] = []
write_marks (u ∷ us) = codes ", " ++ (u ++ (codes " (RW)" ++ write_marks us))

unfoldable pub read_marks : List CString → List CString → CString
read_marks writers [] = []
read_marks writers (u ∷ us) =
    let rest = read_marks writers us in
    if is_in_list writers u then rest else codes ", " ++ (u ++ (codes " (R)" ++ rest))

-- `temp` has `max_content_len` bytes, the caller's buffer `buf_size`.
unfoldable pub acl_get_access_list : AclTable → CString → ℕ → Option CString
acl_get_access_list acl f buf_size = elim (acl_find_entry acl f) [
  | none ↦ none
  | some e ↦ some (
      copy_str buf_size (
        copy_str max_content_len (
          e.owner
          ++ (codes " (RW)"
              ++ (write_marks e.write_users ++ read_marks e.write_users e.read_users)))))
]

-- `users[user_count]` is filled, unless there is no room or the user is there.
unfoldable pub add_new : ℕ → List CString → CString → List CString
add_new max_users users u =
    if leb max_users (length users)
    then users
    else if is_in_list users u
    then users
    else users ++ (copy_str max_username_len u ∷ [])

unfoldable pub add_each : ℕ → List CString → List CString → List CString
add_each max_users users [] = users
add_each max_users users (u ∷ us) = add_each max_users (add_new max_users users u) us

unfoldable pub add_entries : ℕ → List CString → List AclEntry → List CString
add_entries max_users users [] = users
add_entries max_users users (e ∷ es) =
    let owned = add_new max_users users e.owner in
    let rest =
      add_entries max_users
        (add_each max_users (add_each max_users owned e.read_users) e.write_users) es in
    if leb max_users (length users) then users else rest

unfoldable pub acl_get_all_users : AclTable → ℕ → List CString
acl_get_all_users acl max_users =
    add_entries max_users [] (entries_from acl.buckets 0 acl_hash_size)
