-- ===== src/Acl/Valid.antt =====
-- The invariant of the access control list, kept by every operation of acl.c that changes it.
use name_file_system_docs.Base.{ℕ, ◌≤◌, ◌<◌, ◌≡◌, refl, ◌∙◌, inl, inr, some, List, [], arith}
use name_file_system_docs.Base.Tests.{◌==◌, Bool-cases, Option-cases}
use name_file_system_docs.Base.Lists.{length, All, length-take, take_all}
use name_file_system_docs.Base.Strings.{CString}
use name_file_system_docs.Protocol.{access_read, access_write}
use name_file_system_docs.Table.Chain.{Buckets, write, update}
use name_file_system_docs.Table.Laws.{find-All, modify-All, unlink-All}
use name_file_system_docs.Table.Valid.{
  IsTable, prepend-IsTable, update-IsTable, delete-IsTable, empty-IsTable,
}
use name_file_system_docs.Table.Sizes.{
  total, total-prepend, total-update, total-delete, total-empty,
}
use name_file_system_docs.Acl.Users.{IsUserList, add-IsUserList, remove-IsUserList}
use name_file_system_docs.Acl.{
  AclEntry, AclTable, acl_keys, acl_hash, acl_hash_size, acl_init, acl_find_entry, new_entry,
  acl_add_file, acl_add_access, acl_remove_access, acl_remove_file, without,
}

pub record IsEntry (e : AclEntry) : Type 0 where
  pub named : length e.filename ≤ 255
  pub owned : length e.owner ≤ 63
  pub readers : IsUserList e.read_users
  pub writers : IsUserList e.write_users

pub record IsValid (acl : AclTable) : Type 0 where
  pub table : IsTable acl_keys acl.buckets
  pub counted : total acl.buckets acl_hash_size ≡ acl.file_count
  pub entries : (i : ℕ) → All IsEntry (acl.buckets i)

pub acl_hash-lt : (f : CString) → acl_hash f < acl_hash_size
unfolding acl_hash
acl_hash-lt f = omega arith

write-entries :
    (t : Buckets AclEntry) (i : ℕ) (c : List AclEntry)
    → ((i : ℕ) → All IsEntry (t i))
    → All IsEntry c
    → (j : ℕ) → All IsEntry (write t i c j)
write-entries t i c v h j = elim (Bool-cases (i == j)) [
  | inl here ↦ rw here h
  | inr away ↦ rw away (v j)
]

pub find-IsEntry :
    (acl : AclTable) (f : CString) (e : AclEntry)
    → IsValid acl
    → acl_find_entry acl f ≡ some e
    → IsEntry e
find-IsEntry acl f e v there =
    find-All acl_keys IsEntry f (acl.buckets (acl_hash f)) e (v.entries (acl_hash f)) there

pub init-IsValid : IsValid acl_init
unfolding acl_init
init-IsValid = record {
  table = empty-IsTable acl_keys;
  counted = total-empty AclEntry acl_hash_size;
  entries = λ i. tt;
}

no_users : IsUserList []
no_users = record { unique = tt; bounded = omega arith; named = tt }

-- A change in place of one file's entry that keeps its name and its entry well formed.
update-IsValid :
    (acl : AclTable) (f : CString) (h : AclEntry → AclEntry)
    → ((e : AclEntry) → (h e).filename ≡ e.filename)
    → ((e : AclEntry) → IsEntry e → IsEntry (h e))
    → IsValid acl
    → IsValid (record acl { buckets = update acl_keys acl.buckets f h })
update-IsValid acl f h kept good v = record {
  table = update-IsTable acl_keys acl.buckets f h kept v.table;
  counted = total-update acl_keys acl.buckets acl_hash_size f (acl_hash-lt f) h ∙ v.counted;
  entries =
      write-entries acl.buckets (acl_hash f) _ v.entries
        (modify-All acl_keys IsEntry f h (acl.buckets (acl_hash f)) good (v.entries (acl_hash f)));
}

module _ (acl : AclTable) (v : IsValid acl) (f : CString) where
  pub add_file-IsValid :
      (owner : CString) (now : ℕ)
      → length f ≤ 255
      → length owner ≤ 63
      → IsValid (acl_add_file acl f owner now).1
  unfolding acl_add_file new_entry
  add_file-IsValid owner now fits fits' = elim (Option-cases (acl_find_entry acl f)) [
    | inr (e, there) ↦ rw (there, acl_add_file) v
    | inl absent ↦
        rw (absent, acl_add_file)
          (record {
            table = prepend-IsTable acl_keys acl.buckets f _ v.table (take_all 255 f fits) absent;
            counted =
                total-prepend acl_keys acl.buckets acl_hash_size f (acl_hash-lt f) _
                ∙ omega (arith, v.counted);
            entries = write-entries acl.buckets (acl_hash f) _ v.entries (
              record {
                named = omega (arith, length-take 255 f);
                owned = omega (arith, length-take 63 owner);
                readers = no_users;
                writers = no_users;
              },
              v.entries (acl_hash f),
            );
          })
  ]

  pub add_access-IsValid :
      (user : CString) (access_type : ℕ)
      → length user ≤ 63
      → IsValid (acl_add_access acl f user access_type).1
  unfolding acl_add_access
  add_access-IsValid user access_type fits = elim (Option-cases (acl_find_entry acl f)) [
    | inl absent ↦ rw (absent, acl_add_access) v
    | inr (e, there) ↦
        rw (there, acl_add_access)
          (elim (Bool-cases (access_type == access_read)) [
            | inl reading ↦ rw reading (
                update-IsValid acl f _ (λ _. refl)
                  (λ e w. record {
                    named = w.named;
                    owned = w.owned;
                    readers = add-IsUserList e.read_users user fits w.readers;
                    writers = w.writers;
                  })
                  v)
            | inr neither ↦ rw neither (elim (Bool-cases (access_type == access_write)) [
              | inl writing ↦ rw writing (
                  update-IsValid acl f _ (λ _. refl)
                    (λ e w. record {
                      named = w.named;
                      owned = w.owned;
                      readers = w.readers;
                      writers = add-IsUserList e.write_users user fits w.writers;
                    })
                    v)
              | inr invalid ↦ rw invalid v
            ])
          ])
  ]

  pub remove_access-IsValid : (user : CString) → IsValid (acl_remove_access acl f user).1
  unfolding acl_remove_access
  remove_access-IsValid user = elim (Option-cases (acl_find_entry acl f)) [
    | inl absent ↦ rw (absent, acl_remove_access) v
    | inr (e, there) ↦
        rw (there, acl_remove_access)
          (update-IsValid acl f (without user) (λ _. refl)
            (λ e w. record {
              named = w.named;
              owned = w.owned;
              readers = remove-IsUserList e.read_users user w.readers;
              writers = remove-IsUserList e.write_users user w.writers;
            })
            v)
  ]

  pub remove_file-IsValid : IsValid (acl_remove_file acl f).1
  unfolding acl_remove_file
  remove_file-IsValid = elim (Option-cases (acl_find_entry acl f)) [
    | inl absent ↦ rw (absent, acl_remove_file) v
    | inr (e, there) ↦
        rw (there, acl_remove_file)
          (record {
            table = delete-IsTable acl_keys acl.buckets f v.table;
            counted = omega (
              arith,
              v.counted,
              total-delete acl_keys acl.buckets acl_hash_size f (acl_hash-lt f) e there,
            );
            entries =
                write-entries acl.buckets (acl_hash f) _ v.entries (
                  unlink-All acl_keys IsEntry f (acl.buckets (acl_hash f))
                    (v.entries (acl_hash f)));
          })
  ]
