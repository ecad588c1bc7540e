-- ===== src/Acl.antt =====
-- nameserver/acl.c and .h: who may read and write a file. The name server calls these functions
-- from its one `select` loop. The arrays `read_users` and `write_users` with their counts are
-- lists; an `int` result 0 or -1 is `true` or `false`. Node allocation is taken to succeed.
pub mod Users
pub mod Valid
pub mod Rights
pub mod Refused
pub mod Changes
pub mod History
pub mod Listing
pub mod Saved
pub mod Report
pub mod Everyone
pub mod Tests
use name_file_system_docs.Base.{
  ℕ, zero, suc, ◌+◌, ◌-◌, ◌*◌, ◌%◌, ◌^◌, Bool, true, false, ◌||◌, Option, none, some, List, [], ◌∷◌,
}
use name_file_system_docs.Base.Tests.{◌==◌, if◌then◌else◌}
use name_file_system_docs.Base.Strings.{CString, same, same_iff, copy_str, as_signed}
use name_file_system_docs.Protocol.{access_read, access_write, max_filename_len, max_username_len}
use name_file_system_docs.Table.Chain.{
  Keyed, Buckets, lookup, write, prepend, update, delete, entries_from,
}
use Users.{Added, added, already, full, is_in_list, add_to_list, remove_from_list}

abbrev pub acl_hash_size : ℕ
acl_hash_size = 1009

pub record AclEntry : Type 0 where
  pub filename : CString
  pub owner : CString
  pub read_users : List CString
  pub write_users : List CString
  pub created_time : ℕ

pub record AclTable : Type 0 where
  pub buckets : Buckets AclEntry
  pub file_count : ℕ

-- The loop of `acl_hash`, on a 64-bit unsigned number.
djb2 : ℕ → CString → ℕ
unfolding as_signed
djb2 hash [] = hash
djb2 hash (c ∷ s) = djb2 ((hash * 33 + as_signed (2 ^ 64) c) % 2 ^ 64) s

unfoldable pub acl_hash : CString → ℕ
unfolding djb2
acl_hash s = djb2 5381 s % acl_hash_size

abbrev pub acl_keys : Keyed AclEntry CString
acl_keys = record {
  key = λ e. e.filename;
  matches = same;
  matches_iff = same_iff;
  bucket_of = acl_hash;
}

abbrev pub acl_find_entry : AclTable → CString → Option AclEntry
acl_find_entry acl f = lookup acl_keys acl.buckets f

unfoldable pub acl_init : AclTable
acl_init = record { buckets = λ _. []; file_count = 0 }

unfoldable pub new_entry : CString → CString → ℕ → AclEntry
new_entry f owner now = record {
  filename = copy_str max_filename_len f;
  owner = copy_str max_username_len owner;
  read_users = [];
  write_users = [];
  created_time = now;
}

unfoldable pub acl_add_file : AclTable → CString → CString → ℕ → Bool × AclTable
acl_add_file acl f owner now = elim (acl_find_entry acl f) [
  | some e ↦ (false, acl)
  | none ↦ (
    true,
    record {
      buckets = prepend acl_keys acl.buckets f (new_entry f owner now);
      file_count = acl.file_count + 1;
    },
  )
]

unfoldable pub acl_check_read : AclTable → CString → CString → Bool
acl_check_read acl f user = elim (acl_find_entry acl f) [
  | none ↦ false
  | some e ↦
      if same e.owner user
      then true
      else if is_in_list e.read_users user
      then true
      else if is_in_list e.write_users user
      then true
      else false
]

unfoldable pub acl_check_write : AclTable → CString → CString → Bool
acl_check_write acl f user = elim (acl_find_entry acl f) [
  | none ↦ false
  | some e ↦
      if same e.owner user then true else if is_in_list e.write_users user then true else false
]

unfoldable pub acl_check_owner : AclTable → CString → CString → Bool
acl_check_owner acl f user = elim (acl_find_entry acl f) [
  | none ↦ false
  | some e ↦ same e.owner user
]

-- `result >= 0`
abbrev pub not_full : Added → Bool
not_full added = true
not_full already = true
not_full full = false

unfoldable pub acl_add_access : AclTable → CString → CString → ℕ → Bool × AclTable
acl_add_access acl f user access_type = elim (acl_find_entry acl f) [
  | none ↦ (false, acl)
  | some e ↦
      if access_type == access_read
      then (
        not_full (add_to_list e.read_users user).0,
        record acl {
          buckets =
              update acl_keys acl.buckets f
                (λ e. record e { read_users = (add_to_list e.read_users user).1 });
        },
      )
      else if access_type == access_write
      then (
        not_full (add_to_list e.write_users user).0,
        record acl {
          buckets =
              update acl_keys acl.buckets f
                (λ e. record e { write_users = (add_to_list e.write_users user).1 });
        },
      )
      else (false, acl)
]

abbrev pub without : CString → AclEntry → AclEntry
without user e = record e {
  read_users = (remove_from_list e.read_users user).1;
  write_users = (remove_from_list e.write_users user).1;
}

unfoldable pub acl_remove_access : AclTable → CString → CString → Bool × AclTable
acl_remove_access acl f user = elim (acl_find_entry acl f) [
  | none ↦ (false, acl)
  | some e ↦ (
    (remove_from_list e.read_users user).0 || (remove_from_list e.write_users user).0,
    record acl { buckets = update acl_keys acl.buckets f (without user) },
  )
]

unfoldable pub acl_remove_file : AclTable → CString → Bool × AclTable
acl_remove_file acl f = elim (acl_find_entry acl f) [
  | some e ↦
      (true, record { buckets = delete acl_keys acl.buckets f; file_count = acl.file_count - 1 })
  | none ↦ (false, acl)
]

-- `buf_size` is the caller's; the copy is bounded by it.
unfoldable pub acl_get_owner : AclTable → CString → ℕ → Option CString
acl_get_owner acl f buf_size = elim (acl_find_entry acl f) [
  | none ↦ none
  | some e ↦ some (copy_str buf_size e.owner)
]

-- The two nested loops of `acl_get_all_files` and `acl_get_accessible_files`, with their condition
-- `count < max_files`; `room` is `max_files - count`.
unfoldable pub collect : (AclEntry → Bool) → ℕ → List AclEntry → List CString
collect wanted room [] = []
collect wanted zero (e ∷ es) = []
collect wanted (suc room) (e ∷ es) =
    let rest = collect wanted room es in
    let others = collect wanted (suc room) es in
    if wanted e then copy_str max_filename_len e.filename ∷ rest else others

unfoldable pub acl_get_all_files : AclTable → ℕ → List CString
acl_get_all_files acl max_files =
    collect (λ _. true) max_files (entries_from acl.buckets 0 acl_hash_size)

abbrev pub has_access : CString → AclEntry → Bool
has_access user e =
    same e.owner user || is_in_list e.read_users user || is_in_list e.write_users user

unfoldable pub acl_get_accessible_files : AclTable → CString → ℕ → List CString
acl_get_accessible_files acl user max_files =
    collect (has_access user) max_files (entries_from acl.buckets 0 acl_hash_size)

-- The pointers are never null here.
unfoldable pub acl_can_access : AclTable → CString → CString → Bool
acl_can_access acl f user =
    acl_check_read acl f user || acl_check_write acl f user || acl_check_owner acl f user

unfoldable pub acl_is_owner : AclTable → CString → CString → Bool
acl_is_owner acl f user = acl_check_owner acl f user

unfoldable pub acl_add_user : AclTable → CString → CString → Bool × AclTable
acl_add_user acl f user = acl_add_access acl f user access_read
