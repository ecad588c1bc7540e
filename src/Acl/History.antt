-- ===== src/Acl/History.antt =====
-- Sequences of the operations of acl.c.
use name_file_system_docs.Base.{ℕ, ◌≤◌, ◌≡◌, false, ◌&&◌, List, [], ◌∷◌, arith}
use name_file_system_docs.Base.Lists.{length, All}
use name_file_system_docs.Base.Strings.{CString, same}
use name_file_system_docs.Acl.{
  AclTable, acl_check_read, acl_check_owner, acl_add_file, acl_add_access, acl_remove_access,
  acl_remove_file,
}
use name_file_system_docs.Acl.Valid.{
  IsValid, add_file-IsValid, add_access-IsValid, remove_access-IsValid, remove_file-IsValid,
}
use name_file_system_docs.Acl.Rights.{add_access_rights}
use name_file_system_docs.Acl.Changes.{remove_access_rights, add_file_rights, remove_file_rights}

-- A call that changes the table.
pub data Change : Type 0 where
  add_file : CString → CString → ℕ → Change
  add_access : CString → CString → ℕ → Change
  remove_access : CString → CString → Change
  remove_file : CString → Change

unfoldable pub apply : AclTable → Change → AclTable
apply acl (add_file f owner now) = (acl_add_file acl f owner now).1
apply acl (add_access f user access_type) = (acl_add_access acl f user access_type).1
apply acl (remove_access f user) = (acl_remove_access acl f user).1
apply acl (remove_file f) = (acl_remove_file acl f).1

unfoldable pub apply_all : AclTable → List Change → AclTable
apply_all acl [] = acl
apply_all acl (c ∷ cs) = apply_all (apply acl c) cs

-- Names that the entry's buffers hold.
abbrev pub HasNames : Change → Type 0
HasNames (add_file f owner now) = (length f ≤ 255) × (length owner ≤ 63)
HasNames (add_access f user access_type) = length user ≤ 63
HasNames (remove_access f user) = Unit
HasNames (remove_file f) = Unit

apply-IsValid : (acl : AclTable) (c : Change) → HasNames c → IsValid acl → IsValid (apply acl c)
unfolding apply
apply-IsValid acl (add_file f owner now) n v = add_file-IsValid acl v f owner now n.0 n.1
apply-IsValid acl (add_access f user access_type) n v =
    add_access-IsValid acl v f user access_type n
apply-IsValid acl (remove_access f user) n v = remove_access-IsValid acl v f user
apply-IsValid acl (remove_file f) n v = remove_file-IsValid acl v f

-- Every history of calls keeps the table well formed: each entry once and in the chain of its
-- name's hash, `file_count` the number of entries, and in each entry at most 50 readers and 50
-- writers, nobody twice in a list. The names of the calls fit their arrays.
pub apply_all-IsValid :
    (acl : AclTable) (cs : List Change) → All HasNames cs → IsValid acl → IsValid (apply_all acl cs)
unfolding apply_all
apply_all-IsValid acl [] n v = v
apply_all-IsValid acl (c ∷ cs) n v =
    apply_all-IsValid (apply acl c) cs n.1 (apply-IsValid acl c n.0 v)

-- The call gives no right on `f` to `user`.
abbrev pub GrantsNot : CString → CString → Change → Type 0
GrantsNot f user (add_file g owner now) = (same g f && same owner user) ≡ false
GrantsNot f user (add_access g w access_type) = (same g f && same w user) ≡ false
GrantsNot f user (remove_access g w) = Unit
GrantsNot f user (remove_file g) = Unit

apply-no_right :
    (acl : AclTable) (f user : CString) (c : Change)
    → HasNames c
    → GrantsNot f user c
    → IsValid acl
    → acl_check_read acl f user ≡ false
    → acl_check_owner acl f user ≡ false
    → acl_check_read (apply acl c) f user ≡ false
unfolding apply
apply-no_right acl f user (add_file g owner now) n not_to v h o =
    ground (arith, add_file_rights acl g owner now f user n.0 n.1)
apply-no_right acl f user (add_access g w access_type) n not_to v h o =
    ground (arith, add_access_rights acl g w access_type f user n)
apply-no_right acl f user (remove_access g w) n not_to v h o =
    ground (arith, remove_access_rights acl g w f user v)
apply-no_right acl f user (remove_file g) n not_to v h o =
    ground (arith, remove_file_rights acl g f user v)

check_owner-read :
    (acl : AclTable) (f user : CString)
    → acl_check_read acl f user ≡ false
    → acl_check_owner acl f user ≡ false
unfolding acl_check_read acl_check_owner
check_owner-read acl f user h = ground arith

-- No right comes from nowhere. A user who may not read a file may not read it after any history
-- of calls in which nobody creates the file in the user's name or grants the user access to it.
-- The table is well formed, and names fit their arrays.
pub no_right-apply_all :
    (acl : AclTable) (f user : CString) (cs : List Change)
    → All HasNames cs
    → All (GrantsNot f user) cs
    → IsValid acl
    → acl_check_read acl f user ≡ false
    → acl_check_read (apply_all acl cs) f user ≡ false
unfolding apply_all
no_right-apply_all acl f user [] n g v h = h
no_right-apply_all acl f user (c ∷ cs) n g v h =
    no_right-apply_all (apply acl c) f user cs n.1 g.1 (apply-IsValid acl c n.0 v)
      (apply-no_right acl f user c n.0 g.0 v h (check_owner-read acl f user h))
