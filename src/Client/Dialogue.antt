-- ===== src/Client/Dialogue.antt =====
-- The dialogue of WRITE in client/client.c, `cmd_write` once the session is open: what each line that
-- the user types sends to the storage server.
use name_file_system_docs.Base.{
  ℕ, ◌+◌, ◌-◌, ◌*◌, Bool, true, false, ◌&&◌, ◌||◌, not, Option, none, some, List, [], ◌∷◌,
}
use name_file_system_docs.Base.Tests.{leb, ◌==◌, if◌then◌else◌}
use name_file_system_docs.Base.Strings.{CString, same, copy_str}
use name_file_system_docs.Client.Commands.{typed}
use name_file_system_docs.Client.{is_empty, trim}
use name_file_system_docs.Protocol.{max_content_len}
use name_file_system_docs.Acl.Saved.{codes, fgets_from}

abbrev pub is_digit : ℕ → Bool
is_digit c = leb 48 c && leb c 57

-- The digits that `atoi` reads. A number outside the range of an `int`, for which C promises nothing,
-- is taken as it is.
unfoldable pub digits_value : ℕ → CString → ℕ
digits_value n [] = n
digits_value n (c ∷ s) =
    let rest = digits_value (n * 10 + (c - 48)) s in if is_digit c then rest else n

-- `atoi`, with its sign, of a text that begins with no space.
unfoldable pub atoi : CString → Bool × ℕ
atoi [] = (false, 0)
atoi (c ∷ s) =
    if c == b'-'
    then (true, digits_value 0 s)
    else if c == b'+'
    then (false, digits_value 0 s)
    else (false, digits_value 0 (c ∷ s))

-- `strchr(line, ' ')`: what stands before the first space, and behind it.
unfoldable pub at_space : CString → Option (CString × CString)
at_space [] = none
at_space (c ∷ s) =
    if c == b' '
    then some ([], s)
    else (elim (at_space s) [ none ↦ none | some (before, behind) ↦ some (c ∷ before, behind) ])

-- What a line does: nothing but a text on the screen, an update, the commit, or the end without one.
pub data WriteLine : Type 0 where
  refused : WriteLine
  update : ℕ → CString → WriteLine
  commit : WriteLine
  cancel : WriteLine

unfoldable pub update_of : Option (CString × CString) → WriteLine
update_of none = refused
update_of (some (index, content)) =
    if (atoi index).0 && not ((atoi index).1 == 0)
    then refused
    else if is_empty content
    then refused
    else update (atoi index).1 (copy_str max_content_len content)

-- One round of the loop, on the line without the spaces around it.
unfoldable pub write_line : CString → WriteLine
write_line line =
    if is_empty line
    then refused
    else if same line (codes "ETIRW") || same line (codes "etirw")
    then commit
    else if same line (codes "CANCEL") || same line (codes "cancel")
    then cancel
    else update_of (at_space line)

-- A line in front of what the later ones send.
abbrev pub and_line : WriteLine → List (ℕ × CString) × Bool → List (ℕ × CString) × Bool
and_line refused later = later
and_line (update i w) later = ((i, w) ∷ later.0, later.1)
and_line commit later = ([], true)
and_line cancel later = ([], false)

-- The loop on the lines that it reads, each as `fgets` gives it. The server answers each message, and
-- the loop goes on whatever the code of the answer is.
unfoldable pub dialogue_loop : List CString → List (ℕ × CString) × Bool
dialogue_loop [] = ([], false)
dialogue_loop (line ∷ lines) = and_line (write_line (trim line)) (dialogue_loop lines)

-- The size of `input_line`.
abbrev pub max_input : ℕ
max_input = 1024

-- What the bytes that are typed send to the storage server: the updates up to a commit or a cancel, and
-- whether the commit was sent. A line that is longer than the buffer is read in
-- pieces, each of which is a line to the loop.
unfoldable pub dialogue : List ℕ → List (ℕ × CString) × Bool
dialogue typed = dialogue_loop (fgets_from max_input [] typed)
