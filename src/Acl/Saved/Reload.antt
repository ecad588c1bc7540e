-- ===== src/Acl/Saved/Reload.antt =====
-- `acl_save` followed by `acl_load` of nameserver/acl.c: what a restart of the name server keeps.
use name_file_system_docs.Base.{
  ℕ, ◌+◌, ◌≤◌, ◌≡◌, refl, sym, ap, ◌∙◌, inl, inr, true, false, none, some, List, [], ◌∷◌, ◌++◌, map,
  arith,
}
use name_file_system_docs.Base.Tests.{if◌then◌else◌, Bool-cases, Option-cases}
use name_file_system_docs.Base.Lists.{length, All, take_all}
use name_file_system_docs.Base.Strings.{CString, same, same_iff}
use name_file_system_docs.Base.Split.{tokens-separated}
use name_file_system_docs.Table.Chain.{find, prepend}
use name_file_system_docs.Table.Valid.{lookup-prepend}
use name_file_system_docs.Acl.{
  AclEntry, AclTable, acl_add_file, acl_find_entry, acl_keys, new_entry,
}
use name_file_system_docs.Acl.Saved.{add_fields, add_users, entry_line, load_line, load_lines}
use name_file_system_docs.Acl.Saved.Added.{Becomes, add_users-Becomes, read-IsSide, write-IsSide}
use name_file_system_docs.Acl.Saved.Fields.{All-map, load_line-entry_line}
use name_file_system_docs.Acl.Saved.Lines.{IsPrintable, IsUser, saved_fields, with_newlines}
use name_file_system_docs.Acl.Users.{IsUserList}
use name_file_system_docs.Acl.Valid.{IsEntry}
use name_file_system_docs.Protocol.{access_read, access_write}
use mathlib.Core.Option
use name_file_system_docs.Table.Found.{first_of, or_none}

-- The writers that a line gives back: none where it has no readers.
abbrev pub kept_writers : List CString → List CString → List CString
kept_writers [] ws = []
kept_writers (r ∷ rs) ws = ws

-- What is left of an entry that was saved and loaded.
abbrev pub reloaded : ℕ → AclEntry → AclEntry
reloaded now e = record e {
  write_users = kept_writers e.read_users e.write_users;
  created_time = now;
}

abbrev blank : ℕ → CString → CString → AclEntry
blank now f owner = record {
  filename = f;
  owner = owner;
  read_users = [];
  write_users = [];
  created_time = now;
}

Becomes-same :
    (acl : AclTable) (f : CString) (e : AclEntry)
    → acl_find_entry acl f ≡ some e
    → Becomes acl acl f e
Becomes-same acl f e there j = ground (arith, there, same_iff f j)

Becomes-trans :
    (acl next last : AclTable) (f : CString) (e e' : AclEntry)
    → Becomes acl next f e
    → Becomes next last f e'
    → Becomes acl last f e'
Becomes-trans acl next last f e e' one two j = ground (arith, one j, two j)

Becomes-at :
    (acl next : AclTable) (f : CString) (e : AclEntry)
    → Becomes acl next f e
    → acl_find_entry next f ≡ some e
Becomes-at acl next f e h = h f ∙ rw ((same_iff f f).1 refl) refl

fields-Becomes :
    (now : ℕ) (acl : AclTable) (f owner : CString) (rs ws : List CString)
    → acl_find_entry acl f ≡ some (blank now f owner)
    → IsUserList rs × All IsUser rs
    → IsUserList ws × All IsUser ws
    → Becomes acl
        (add_fields acl f (saved_fields rs ws))
        f
        (record (blank now f owner) { read_users = rs; write_users = kept_writers rs ws })
fields-Becomes now acl f owner [] ws there a b = Becomes-same acl f _ there
fields-Becomes now acl f owner (r ∷ rs) [] there a b =
    rw (tokens-separated b',' (r ∷ rs) (All-map (λ u h. h.0) (r ∷ rs) a.1))
      (add_users-Becomes read-IsSide f acl (r ∷ rs) _ there a.0)
fields-Becomes now acl f owner (r ∷ rs) (w ∷ ws) there a b =
    let readers = add_users-Becomes read-IsSide f acl (r ∷ rs) _ there a.0 in
    let next = add_users acl f access_read (r ∷ rs) in
    rw
      (
        tokens-separated b',' (r ∷ rs) (All-map (λ u h. h.0) (r ∷ rs) a.1),
        tokens-separated b',' (w ∷ ws) (All-map (λ u h. h.0) (w ∷ ws) b.1),
      )
      (Becomes-trans acl next (add_users next f access_write (w ∷ ws)) f _ _ readers
        (add_users-Becomes write-IsSide f next (w ∷ ws) _ (Becomes-at acl next f _ readers) b.0))

-- The table with a new entry.
abbrev with_blank : AclTable → ℕ → CString → CString → AclTable
with_blank acl now f owner = record {
  buckets = prepend acl_keys acl.buckets f (blank now f owner);
  file_count = acl.file_count + 1;
}

add_file-blank :
    (acl : AclTable) (now : ℕ) (f owner : CString)
    → length f ≤ 255
    → length owner ≤ 63
    → acl_find_entry acl f ≡ none
    → acl_add_file acl f owner now ≡ (true, with_blank acl now f owner)
unfolding acl_add_file new_entry
add_file-blank acl now f owner k l absent =
    rw (absent, acl_add_file, take_all 255 f k, take_all 63 owner l) refl

add_file-there :
    (acl : AclTable) (now : ℕ) (f owner : CString) (e : AclEntry)
    → acl_find_entry acl f ≡ some e
    → acl_add_file acl f owner now ≡ (false, acl)
unfolding acl_add_file
add_file-there acl now f owner e there = rw (there, acl_add_file) refl

blank-Becomes :
    (acl : AclTable) (now : ℕ) (f owner : CString)
    → Becomes acl (with_blank acl now f owner) f (blank now f owner)
blank-Becomes acl now f owner j = lookup-prepend acl_keys acl.buckets f j (blank now f owner) refl

-- A line of an entry: a file that the table lacks is added, one that it has stays as it is.
load_entry :
    (now : ℕ) (acl : AclTable) (e : AclEntry) (j : CString)
    → IsEntry e
    → IsPrintable e
    → acl_find_entry (load_line now acl (entry_line e ++ (10 ∷ []))) j
      ≡ first_of (acl_find_entry acl j) (if same e.filename j then some (reloaded now e) else none)
load_entry now acl e j v p =
    ap (λ (a : AclTable). acl_find_entry a j) (load_line-entry_line e p now acl)
    ∙ elim (Option-cases (acl_find_entry acl e.filename)) [
      | inr (old, there) ↦
          rw (add_file-there acl now e.filename e.owner old there)
            (elim (Option-cases (acl_find_entry acl j)) [
              | inr (other, here) ↦ rw here refl
              | inl none_here ↦ ground (arith, there, none_here, same_iff e.filename j)
            ])
      | inl absent ↦
          let first = with_blank acl now e.filename e.owner in
          let new = blank-Becomes acl now e.filename e.owner in
          let there = Becomes-at acl first e.filename _ new in
          let filled =
            fields-Becomes now first e.filename e.owner e.read_users e.write_users there
              (v.readers, p.readers) (v.writers, p.writers) in
          rw (add_file-blank acl now e.filename e.owner v.named v.owned absent) (
            Becomes-trans acl first
              (add_fields first e.filename (saved_fields e.read_users e.write_users)) e.filename _ _
              new filled j
            ∙ ground (arith, absent, same_iff e.filename j))
    ]

-- The lines of a list of entries.
pub load_entries :
    (now : ℕ) (acl : AclTable) (es : List AclEntry) (j : CString)
    → All IsEntry es
    → All IsPrintable es
    → acl_find_entry (load_lines now acl (with_newlines (map entry_line es))) j
      ≡ first_of (acl_find_entry acl j) (Option.map (reloaded now) (find acl_keys j es))
unfolding load_lines find
load_entries now acl [] j v p = sym (or_none (acl_find_entry acl j))
load_entries now acl (e ∷ es) j v p =
    load_entries now (load_line now acl (entry_line e ++ (10 ∷ []))) es j v.1 p.1
    ∙ rw (load_entry now acl e j v.0 p.0) (elim (Option-cases (acl_find_entry acl j)) [
      | inr (other, here) ↦ rw here refl
      | inl none_here ↦ rw none_here (elim (Bool-cases (same e.filename j)) [
        | inl hit ↦ rw hit refl
        | inr miss ↦ rw miss refl
      ])
    ])
