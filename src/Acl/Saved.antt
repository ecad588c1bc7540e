-- ===== src/Acl/Saved.antt =====
-- `acl_save` and `acl_load` of nameserver/acl.c: the bytes of the data file, and a table read back from
-- them. Both files open; a file that does not leaves the table as it is.
pub mod Lines
pub mod Fields
pub mod Added
pub mod Reload
pub mod Restart
pub mod Tests
use name_file_system_docs.Base.{
  ℕ, zero, suc, ◌+◌, ◌-◌, ◌/◌, ◌%◌, Bool, true, false, ◌&&◌, ◌||◌, List, [], ◌∷◌, ◌++◌, map,
}
use name_file_system_docs.Base.Tests.{ltb, leb, ◌==◌, if◌then◌else◌}
use name_file_system_docs.Base.Lists.{length}
use name_file_system_docs.Base.Strings.{CString, emit, tokens}
use name_file_system_docs.Base.Split.{separated}
use Prim.Native.Char.{code}
use Prim.Native.String.{String}
use name_file_system_docs.Acl.{AclEntry, AclTable, acl_add_access, acl_add_file, acl_hash_size}
use name_file_system_docs.Protocol.{access_read, access_write, max_content_len}
use name_file_system_docs.Storage.Start.{taken}
use name_file_system_docs.Table.Chain.{entries_from}

-- `fprintf(fp, "%d", n)` with at most `fuel` digits; ten are enough for an `int`.
unfoldable pub decimal : ℕ → ℕ → CString
decimal zero n = []
decimal (suc fuel) n =
    let front = decimal fuel (n / 10) in
    if ltb n 10 then (n + 48) ∷ [] else front ++ ((n % 10 + 48) ∷ [])

-- "file_count="
abbrev pub count_prefix : CString
count_prefix = b'f' ∷ b'i' ∷ b'l' ∷ b'e' ∷ b'_' ∷ b'c' ∷ b'o' ∷ b'u' ∷ b'n' ∷ b't' ∷ b'=' ∷ []

-- The bytes of a literal.
abbrev pub codes : String → CString
codes String.[] = []
codes (String.◌∷◌ c s) = code c ∷ codes s

-- The three lines that begin with `#`.
abbrev pub comments : List CString
comments =
    codes "# ACL Data File - Docs++"
    ∷ codes "# Format: filename|owner|read_users|write_users"
    ∷ codes "# Version: 1.0"
    ∷ []

-- One entry: its line without the newline.
unfoldable pub entry_line : AclEntry → CString
entry_line e =
    e.filename
    ++ (b'|'
        ∷ (e.owner
            ++ (b'|' ∷ (separated b',' e.read_users ++ (b'|' ∷ separated b',' e.write_users)))))

-- The lines with a newline behind each.
unfoldable pub lines_text : List CString → CString
lines_text [] = []
lines_text (l ∷ ls) = l ++ (10 ∷ lines_text ls)

unfoldable pub acl_save : AclTable → CString
acl_save acl = lines_text (
    comments
    ++ ((count_prefix ++ decimal 10 acl.file_count)
        ∷ map entry_line (entries_from acl.buckets 0 acl_hash_size)))

-- `fgets(line, size, fp)` over and over; `line` is what is read of the current one.
unfoldable pub fgets_from : ℕ → CString → List ℕ → List CString
fgets_from size line [] = emit line []
fgets_from size line (c ∷ s) =
    let next = (line ++ (c ∷ [])) ∷ fgets_from size [] s in
    let longer = fgets_from size (line ++ (c ∷ [])) s in
    if c == 10 then next else if leb (size - 1) (length line + 1) then next else longer

-- `%n[^stop]` of `sscanf`: what it takes, and what follows.
unfoldable pub scanset : ℕ → ℕ → CString → CString × CString
scanset zero stop s = ([], s)
scanset (suc n) stop [] = ([], [])
scanset (suc n) stop (c ∷ s) =
    let (taken, rest) = scanset n stop s in if c == stop then ([], c ∷ s) else (c ∷ taken, rest)

-- `sscanf` with one such field after another and a bar between them: the fields that were filled. A
-- field takes one byte at least.
unfoldable pub scan_fields : List (ℕ × ℕ) → CString → List CString
scan_fields [] s = []
scan_fields ((n, stop) ∷ fields) s =
    let (taken, rest) = scanset n stop s in
    let behind : List CString = elim rest [
      | [] ↦ []
      | d ∷ r ↦ if d == b'|' then scan_fields fields r else []
    ] in
    elim taken [ [] ↦ [] | c ∷ t ↦ (c ∷ t) ∷ behind ]

-- "%255[^|]|%63[^|]|%4095[^|]|%4095[^\n]"
abbrev pub format : List (ℕ × ℕ)
format = (255, b'|') ∷ (63, b'|') ∷ (4095, b'|') ∷ (4095, 10) ∷ []

-- `acl_add_access` for each name.
unfoldable pub add_users : AclTable → CString → ℕ → List CString → AclTable
add_users acl f access_type [] = acl
add_users acl f access_type (u ∷ us) =
    add_users (acl_add_access acl f u access_type).1 f access_type us

-- The users of the third and the fourth field, where they were filled.
abbrev pub add_fields : AclTable → CString → List CString → AclTable
add_fields acl f [] = acl
add_fields acl f (readers ∷ []) = add_users acl f access_read (tokens b',' readers)
add_fields acl f (readers ∷ writers ∷ _) =
    add_users (add_users acl f access_read (tokens b',' readers)) f access_write
      (tokens b',' writers)

abbrev pub load_fields : ℕ → AclTable → List CString → AclTable
load_fields now acl (f ∷ owner ∷ users) =
    if (acl_add_file acl f owner now).0
    then add_fields (acl_add_file acl f owner now).1 f users
    else acl
load_fields now acl _ = acl

-- `strncmp(line, s, strlen(s)) == 0`
unfoldable pub has_prefix : CString → CString → Bool
has_prefix [] s = true
has_prefix (x ∷ p) [] = false
has_prefix (x ∷ p) (c ∷ s) = (x == c) && has_prefix p s

unfoldable pub load_line : ℕ → AclTable → CString → AclTable
load_line now acl line =
    if has_prefix (b'#' ∷ []) line || has_prefix (10 ∷ []) line
    then acl
    else if has_prefix count_prefix line
    then acl
    else load_fields now acl (scan_fields format line)

unfoldable pub load_lines : ℕ → AclTable → List CString → AclTable
load_lines now acl [] = acl
load_lines now acl (l ∷ ls) = load_lines now (load_line now acl l) ls

unfoldable pub acl_load : AclTable → List ℕ → ℕ → AclTable
acl_load acl bytes now = load_lines now acl (fgets_from max_content_len [] bytes)
