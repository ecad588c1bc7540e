-- ===== src/Acl/Saved/Restart.antt =====
-- The whole data file of acl.c: the lines in front of the entries, and a lookup in the table that
-- `acl_load` makes of what `acl_save` wrote.
use name_file_system_docs.Base.{
  ℕ, zero, suc, ◌+◌, ◌/◌, ◌%◌, ◌≤◌, ◌≡◌, refl, ap, ◌∙◌, inl, inr, List, [], ◌∷◌, ◌++◌, map, arith,
}
use name_file_system_docs.Base.Tests.{ltb, Bool-cases}
use name_file_system_docs.Base.Lists.{length, All, length-append}
use name_file_system_docs.Base.Strings.{CString}
use name_file_system_docs.Base.Split.{Lacks, Lacks-append}
use name_file_system_docs.Protocol.{max_content_len}
use name_file_system_docs.Acl.{
  AclEntry, AclTable, acl_find_entry, acl_hash_size, acl_init, acl_keys,
}
use name_file_system_docs.Acl.Saved.{
  acl_load, acl_save, codes, comments, count_prefix, decimal, entry_line, has_prefix, load_line,
  load_lines,
}
use name_file_system_docs.Acl.Saved.Fields.{entry_line-IsLine}
use name_file_system_docs.Acl.Saved.Lines.{
  IsLine, IsPrintable, by_test, fgets-lines_text, with_newlines,
}
use name_file_system_docs.Acl.Valid.{IsEntry, acl_hash-lt}
use name_file_system_docs.Table.Chain.{entries_from, find}
use mathlib.Core.Option
use name_file_system_docs.Acl.Valid.{IsValid}
use name_file_system_docs.Acl.Saved.Reload.{reloaded, load_entries}
use name_file_system_docs.Table.Walk.{All-entries}
use name_file_system_docs.Table.Found.{find-entries}

Lacks-decimal : (fuel n : ℕ) → Lacks 10 (decimal fuel n)
unfolding decimal
Lacks-decimal zero n = tt
Lacks-decimal (suc fuel) n = elim (Bool-cases (ltb n 10)) [
  | inl small ↦ rw small (ground arith, tt)
  | inr large ↦
      rw large
        (Lacks-append 10 (decimal fuel (n / 10)) _ (Lacks-decimal fuel (n / 10)) (ground arith, tt))
]

length-decimal : (fuel n : ℕ) → length (decimal fuel n) ≤ fuel
unfolding decimal
length-decimal zero n = omega arith
length-decimal (suc fuel) n = ground (
  arith,
  length-decimal fuel (n / 10),
  length-append (decimal fuel (n / 10)) ((n % 10 + 48) ∷ []),
)

count_prefix-IsLine : (n : ℕ) → IsLine max_content_len (count_prefix ++ decimal 10 n)
count_prefix-IsLine n = (
  Lacks-append 10 count_prefix (decimal 10 n) (by_test 10 count_prefix refl) (Lacks-decimal 10 n),
  omega (arith, length-append count_prefix (decimal 10 n), length-decimal 10 n),
)

All-map_lines :
    (es : List AclEntry) → All IsPrintable es → All (IsLine max_content_len) (map entry_line es)
All-map_lines [] p = tt
All-map_lines (e ∷ es) p = (entry_line-IsLine e p.0, All-map_lines es p.1)

-- The lines in front of the entries change nothing.
load-header :
    (now n : ℕ) (acl : AclTable) (ls : List CString)
    → load_lines now acl (with_newlines (comments ++ ((count_prefix ++ decimal 10 n) ∷ ls)))
      ≡ load_lines now acl (with_newlines ls)
unfolding load_lines load_line has_prefix
load-header now n acl ls = refl

-- A table whose entries are all printable, written by `acl_save` and read by `acl_load` into an empty
-- table: a lookup gives the entry that it gave before, with the time of loading, and without its
-- writers where it had no readers; and none where it gave none.
pub save_load :
    (acl : AclTable) (now : ℕ) (f : CString)
    → IsValid acl
    → ((i : ℕ) → All IsPrintable (acl.buckets i))
    → acl_find_entry (acl_load acl_init (acl_save acl) now) f
      ≡ Option.map (reloaded now) (acl_find_entry acl f)
unfolding acl_load acl_save
save_load acl now f v p =
    let es = entries_from acl.buckets 0 acl_hash_size in
    let printable = All-entries IsPrintable acl.buckets acl_hash_size p in
    let lines = comments ++ ((count_prefix ++ decimal 10 acl.file_count) ∷ map entry_line es) in
    let whole : All (IsLine max_content_len) lines = (
      (by_test 10 (codes "# ACL Data File - Docs++") refl, omega arith),
      (
        (by_test 10 (codes "# Format: filename|owner|read_users|write_users") refl, omega arith),
        (
          (by_test 10 (codes "# Version: 1.0") refl, omega arith),
          (count_prefix-IsLine acl.file_count, All-map_lines es printable),
        ),
      ),
    ) in
    ap (λ (ls : List CString). acl_find_entry (load_lines now acl_init ls) f)
      (fgets-lines_text max_content_len lines whole)
    ∙ ap (λ (a : AclTable). acl_find_entry a f)
        (load-header now acl.file_count acl_init (map entry_line es))
    ∙ load_entries now acl_init es f (All-entries IsEntry acl.buckets acl_hash_size v.entries)
        printable
    ∙ rw (find-entries acl_keys f acl.buckets acl_hash_size v.table (acl_hash-lt f))
        (unfold acl_init find in refl)
