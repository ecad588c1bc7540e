-- ===== src/Acl/Everyone.antt =====
-- The users that `acl_get_all_users` of nameserver/acl.c gathers, against the rights in the table.
use name_file_system_docs.Base.{ℕ, ◌≤◌, ◌<◌, ◌≡◌, refl, ◌∙◌, inl, inr, ◌||◌, List, [], ◌∷◌, arith}
use name_file_system_docs.Base.Tests.{leb, Bool-cases, both_branches}
use name_file_system_docs.Base.Lists.{length, All, length-append, length-take, take_all, All-append}
use name_file_system_docs.Base.Strings.{CString, same, same_iff, copy_str}
use name_file_system_docs.Acl.{AclEntry, AclTable, acl_hash_size, has_access}
use name_file_system_docs.Acl.Report.{acl_get_all_users, add_each, add_entries, add_new}
use name_file_system_docs.Protocol.{max_username_len}
use name_file_system_docs.Table.Chain.{entries_from}
use name_file_system_docs.Acl.Valid.{IsEntry, IsValid}
use name_file_system_docs.Acl.Users.{Unique, Unique-append, is_in_list, is_in_list-append}
use name_file_system_docs.Table.Walk.{any, All-entries}

-- Where there is room, the list gets the user, and it never holds one twice.
add_new_lem :
    (n : ℕ) (users : List CString) (u w : CString)
    → length u ≤ 63
    → length (add_new n users u) < n
    → is_in_list (add_new n users u) w ≡ (is_in_list users w || same u w)
unfolding add_new
add_new_lem n users u w fits room = ground (
  arith,
  is_in_list-append users u w,
  take_all 63 u fits,
  same_iff u w,
  length-append users (u ∷ []),
)

length-add_new :
    (n : ℕ) (users : List CString) (u : CString) → length users ≤ length (add_new n users u)
unfolding add_new
length-add_new n users u = ground (arith, length-append users (copy_str max_username_len u ∷ []))

add_new-Unique :
    (n : ℕ) (users : List CString) (u : CString)
    → length u ≤ 63
    → Unique users
    → Unique (add_new n users u)
unfolding add_new
add_new-Unique n users u fits h = elim (Bool-cases (leb n (length users))) [
  | inl at_limit ↦ rw at_limit h
  | inr room ↦ rw room (elim (Bool-cases (is_in_list users u)) [
    | inl old ↦ rw old h
    | inr new ↦ rw (new, take_all 63 u fits) (Unique-append users u h new)
  ])
]

length-add_each : (n : ℕ) (users us : List CString) → length users ≤ length (add_each n users us)
unfolding add_each
length-add_each n users [] = omega arith
length-add_each n users (u ∷ us) =
    omega (arith, length-add_new n users u, length-add_each n (add_new n users u) us)

add_each_lem :
    (n : ℕ) (users us : List CString) (w : CString)
    → All (λ u. length u ≤ 63) us
    → length (add_each n users us) < n
    → is_in_list (add_each n users us) w ≡ (is_in_list users w || is_in_list us w)
unfolding add_each is_in_list
add_each_lem n users [] w fits room = ground arith
add_each_lem n users (u ∷ us) w fits room =
    let next = add_new n users u in
    let fewer : length next < n = omega (arith, length-add_each n next us, room) in
    ground (arith, add_each_lem n next us w fits.1 room, add_new_lem n users u w fits.0 fewer)

add_each-Unique :
    (n : ℕ) (users us : List CString)
    → All (λ u. length u ≤ 63) us
    → Unique users
    → Unique (add_each n users us)
unfolding add_each
add_each-Unique n users [] fits h = h
add_each-Unique n users (u ∷ us) fits h =
    add_each-Unique n (add_new n users u) us fits.1 (add_new-Unique n users u fits.0 h)

length-add_entries :
    (n : ℕ) (users : List CString) (es : List AclEntry)
    → length users ≤ length (add_entries n users es)
unfolding add_entries
length-add_entries n users [] = omega arith
length-add_entries n users (e ∷ es) =
    let owned = add_new n users e.owner in
    let read = add_each n owned e.read_users in
    let written = add_each n read e.write_users in
    ground (
      arith,
      length-add_new n users e.owner,
      length-add_each n owned e.read_users,
      length-add_each n read e.write_users,
      length-add_entries n written es,
    )

add_entries_lem :
    (n : ℕ) (users : List CString) (es : List AclEntry) (w : CString)
    → All IsEntry es
    → length (add_entries n users es) < n
    → is_in_list (add_entries n users es) w ≡ (is_in_list users w || any (has_access w) es)
unfolding add_entries
add_entries_lem n users [] w v room = ground arith
add_entries_lem n users (e ∷ es) w v room =
    let owned = add_new n users e.owner in
    let read = add_each n owned e.read_users in
    let written = add_each n read e.write_users in
    elim (Bool-cases (leb n (length users))) [
      | inl at_limit ↦ absurd (ground arith)
      | inr more ↦
          let last : length (add_entries n written es) < n = ground arith in
          let on = length-add_entries n written es in
          let up = length-add_each n read e.write_users in
          let up' = length-add_each n owned e.read_users in
          let here = add_entries_lem n written es w v.1 last in
          let one = add_each_lem n read e.write_users w v.0.writers.named (omega arith) in
          let two = add_each_lem n owned e.read_users w v.0.readers.named (omega arith) in
          let three = add_new_lem n users e.owner w v.0.owned (omega arith) in
          rw (more, here, one, two, three) (ground arith)
    ]

add_entries-Unique :
    (n : ℕ) (users : List CString) (es : List AclEntry)
    → All IsEntry es
    → Unique users
    → Unique (add_entries n users es)
unfolding add_entries
add_entries-Unique n users [] v h = h
add_entries-Unique n users (e ∷ es) v h =
    let owned = add_new n users e.owner in
    let read = add_each n owned e.read_users in
    let unique = add_new-Unique n users e.owner v.0.owned h in
    let unique' = add_each-Unique n owned e.read_users v.0.readers.named unique in
    elim (Bool-cases (leb n (length users))) [
      | inl at_limit ↦ rw at_limit h
      | inr more ↦ rw more (
          add_entries-Unique n (add_each n read e.write_users) es v.1
            (add_each-Unique n read e.write_users v.0.writers.named unique'))
    ]

-- A list with room left holds exactly the users that own, read or write some file, none of them twice.
pub all_users-has_access :
    (acl : AclTable) (n : ℕ) (w : CString)
    → IsValid acl
    → length (acl_get_all_users acl n) < n
    → Unique (acl_get_all_users acl n)
      × (is_in_list (acl_get_all_users acl n) w
          ≡ any (has_access w) (entries_from acl.buckets 0 acl_hash_size))
unfolding acl_get_all_users
all_users-has_access acl n w v room =
    let entries = All-entries IsEntry acl.buckets acl_hash_size v.entries in
    (
      add_entries-Unique n [] (entries_from acl.buckets 0 acl_hash_size) entries tt,
      add_entries_lem n [] (entries_from acl.buckets 0 acl_hash_size) w entries room
          ∙ unfold is_in_list in refl,
    )

module _ (n : ℕ) where
  add_new-named :
      (users : List CString) (u : CString)
      → All (λ u. length u ≤ 63) users
      → All (λ u. length u ≤ 63) (add_new n users u)
  unfolding add_new
  add_new-named users u a =
      both_branches (All (λ u. length u ≤ 63)) (leb n (length users)) users _ a (
        both_branches (All (λ u. length u ≤ 63)) (is_in_list users u) users _ a
          (All-append _ users _ a (omega (arith, length-take 63 u), tt)))

  add_each-named :
      (users us : List CString)
      → All (λ u. length u ≤ 63) users
      → All (λ u. length u ≤ 63) (add_each n users us)
  unfolding add_each
  add_each-named users [] a = a
  add_each-named users (u ∷ us) a = add_each-named (add_new n users u) us (add_new-named users u a)

  add_entries-named :
      (users : List CString) (es : List AclEntry)
      → All (λ u. length u ≤ 63) users
      → All (λ u. length u ≤ 63) (add_entries n users es)
  unfolding add_entries
  add_entries-named users [] a = a
  add_entries-named users (e ∷ es) a =
      let owned = add_new n users e.owner in
      let read = add_each n owned e.read_users in
      let there =
        add_each-named read e.write_users
          (add_each-named owned e.read_users (add_new-named users e.owner a)) in
      both_branches (All (λ u. length u ≤ 63)) (leb n (length users)) users _ a
        (add_entries-named (add_each n read e.write_users) es there)

  pub all_users-named : (acl : AclTable) → All (λ u. length u ≤ 63) (acl_get_all_users acl n)
  unfolding acl_get_all_users
  all_users-named acl = add_entries-named [] _ tt
