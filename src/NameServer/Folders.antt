-- ===== src/NameServer/Folders.antt =====
-- The handlers of nameserver.c that ask storage servers and change nothing: EXEC, CREATEFOLDER, MOVE,
-- VIEWFOLDER and SEARCH.
use name_file_system_docs.Base.{
  ℕ, ◌+◌, ◌-◌, ◌*◌, Bool, false, not, Option, none, some, List, [], ◌∷◌, ◌++◌,
}
use name_file_system_docs.Base.Tests.{ltb, leb, ◌==◌, if◌then◌else◌}
use name_file_system_docs.Base.Lists.{length, drop}
use name_file_system_docs.Base.Strings.{CString, copy_str}
use name_file_system_docs.Acl.{acl_check_read, acl_is_owner}
use name_file_system_docs.NameServer.{Message, NameServer, Reply, ack, passed_on}
use name_file_system_docs.NameServer.Files.{
  Forward, no_connection, no_reply, no_socket, not_sent, replied,
}
use name_file_system_docs.Protocol.{
  err_access_denied, err_not_found, err_server_error, err_ss_unavailable, err_success,
  max_content_len,
}
use name_file_system_docs.Registry.FileMap.{hashmap_find}
use name_file_system_docs.Registry.Routing.{StorageServer, find_ss_for_file}
use mathlib.Core.Option
use name_file_system_docs.Acl.Saved.{codes, decimal}

-- How the request for the content of a file goes: no connection; no answer, or one with an error;
-- or the content.
pub data Fetched : Type 0 where
  no_server : Fetched
  not_read : Fetched
  fetched : CString → Fetched

-- The output of a command, as `fgets` gives it, and what `pclose` returns: a status, or `none` for -1;
-- or `popen` fails.
abbrev pub Shell : Type 0
Shell = CString → Option (List CString × Option ℕ)

-- The loop that fills `output`.
unfoldable pub collect_output : ℕ → List CString → CString
collect_output total_len [] = []
collect_output total_len (line ∷ lines) =
    let rest = collect_output (total_len + length line) lines in
    if ltb (total_len + length line) (max_content_len - 1) then line ++ rest else []

-- `strlen(s) > 0 ? s : other`
abbrev pub text_or : CString → CString → CString
text_or [] other = other
text_or (c ∷ s) other = c ∷ s

-- `exit_status == 0`
abbrev pub is_success : Option ℕ → Bool
is_success none = false
is_success (some n) = n == 0

-- `%d` of the status.
abbrev pub status_text : Option ℕ → CString
status_text none = codes "-1"
status_text (some n) = decimal 10 n

-- The answer to a command, from its output and its exit status.
unfoldable pub exec_answer : CString → Option ℕ → Reply × CString
exec_answer output exit_status =
    if is_success exit_status
    then (ack err_success, (text_or output (codes "(command produced no output)")))
    else (
      ack err_server_error,
      copy_str max_content_len (
          codes "Command failed with exit code "
          ++ (status_text exit_status ++ (codes ". Output: " ++ text_or output (codes "(none)")))),
    )

-- What an EXEC answers, and the command that it ran.
pub record Executed : Type 0 where
  pub reply : Reply
  pub content : CString
  pub command : Option CString

abbrev pub not_executed : Reply → Executed
not_executed reply = record { reply = reply; content = []; command = none }

-- The rest of the handler once the file may be read.
unfoldable pub execute : Fetched → Shell → Executed
execute no_server popen = not_executed (ack err_ss_unavailable)
execute not_read popen = not_executed (ack err_server_error)
execute (fetched content) popen =
    let command = copy_str max_content_len content in
    elim (popen command) [
      | none ↦ record { reply = ack err_server_error; content = []; command = some command }
      | some (lines, exit_status) ↦
          let (reply, text) = exec_answer (collect_output 0 lines) exit_status in
          record { reply = reply; content = text; command = some command }
    ]

unfoldable pub handle_exec_request : NameServer → Message → Fetched → Shell → Executed × NameServer
handle_exec_request ns msg content popen =
    let searched = record ns { routes = (find_ss_for_file ns.routes msg.filename).1 } in
    elim (find_ss_for_file ns.routes msg.filename).0 [
      | none ↦ (not_executed (ack err_not_found), searched)
      | some i ↦
          if not (acl_check_read ns.acl msg.filename msg.sender_id)
          then (not_executed (ack err_access_denied), searched)
          else (execute content popen, searched)
    ]

-- The first server that is alive.
unfoldable pub first_server : List StorageServer → ℕ → Option ℕ
first_server [] i = none
first_server (s ∷ ss) i = let rest = first_server ss (i + 1) in if s.is_alive then some i else rest

-- The results of the two calls that send and receive are not looked at. `receive_message` clears the
-- answer first, so where nothing comes the client gets a message with the code 0.
unfoldable pub pass_on : Forward → Reply
pass_on no_socket = ack err_ss_unavailable
pass_on no_connection = ack err_ss_unavailable
pass_on not_sent = passed_on 0
pass_on no_reply = passed_on 0
pass_on (replied code) = passed_on code

unfoldable pub handle_createfolder_request : NameServer → Forward → Reply
handle_createfolder_request ns forward = elim (first_server ns.routes.servers 0) [
  | none ↦ ack err_ss_unavailable
  | some i ↦ pass_on forward
]

unfoldable pub handle_viewfolder_request : NameServer → Forward → Reply
handle_viewfolder_request ns forward = elim (first_server ns.routes.servers 0) [
  | none ↦ ack err_ss_unavailable
  | some i ↦ pass_on forward
]

unfoldable pub handle_move_request : NameServer → Message → Forward → Reply
handle_move_request ns msg forward =
    if not (acl_is_owner ns.acl msg.filename msg.sender_id)
    then ack err_access_denied
    else elim (hashmap_find ns.routes.files.file_map msg.filename) [
      | none ↦ ack err_not_found
      | some i ↦ pass_on forward
    ]

-- How a server answers a SEARCH: it is not reached, no answer comes, or one with its code and text.
pub data Found : Type 0 where
  not_reached : Found
  silent : Found
  found : ℕ → CString → Found

-- `strchr(content, '\\n')`
unfoldable pub from_newline : CString → Option CString
from_newline [] = none
from_newline (c ∷ s) = if c == 10 then some (c ∷ s) else from_newline s

-- `all_results`, `total_files` and `ss_queried`.
pub record Gathered : Type 0 where
  pub all_results : CString
  pub total_files : ℕ
  pub ss_queried : ℕ

-- A newline behind earlier results.
abbrev pub separated_from : CString → CString
separated_from [] = []
separated_from (c ∷ s) = (c ∷ s) ++ (10 ∷ [])

-- The text of one answer: what stands behind the first 18 bytes, and then what stands from the first
-- newline on. The array behind a shorter text is taken to be zero, as `INIT_MESSAGE` leaves it.
unfoldable pub append_results : Gathered → CString → Gathered
append_results g content =
    let joined = separated_from g.all_results in
    let results = joined ++ drop (length (codes "Files containing '")) content in
    elim (from_newline content) [
      | none ↦ record g { all_results = results }
      | some lines ↦ record g { all_results = results ++ lines; total_files = g.total_files + 1 }
    ]

unfoldable pub gather_one : Gathered → Found → Gathered
gather_one g not_reached = g
gather_one g silent = record g { ss_queried = g.ss_queried + 1 }
gather_one g (found code content) =
    let all = append_results g content in
    if code == err_success
    then record all { ss_queried = g.ss_queried + 1 }
    else record g { ss_queried = g.ss_queried + 1 }

-- The loop over the servers. `all_results` has twice `max_content_len` bytes; `none` is an overflow.
unfoldable pub gather : (ℕ → Found) → Gathered → List StorageServer → ℕ → Option Gathered
gather ask g [] i = some g
gather ask g (s ∷ ss) i =
    let next = gather_one g (ask i) in
    let rest = gather ask next ss (i + 1) in
    let skipped = gather ask g ss (i + 1) in
    if not s.is_alive
    then skipped
    else if leb (max_content_len * 2) (length next.all_results)
    then none
    else rest

abbrev pub nothing_gathered : Gathered
nothing_gathered = record { all_results = []; total_files = 0; ss_queried = 0 }

unfoldable pub search_answer : CString → Gathered → Reply × CString
search_answer word g =
    if g.ss_queried == 0
    then (ack err_ss_unavailable, codes "No storage servers available")
    else if g.total_files == 0
    then (
      ack err_not_found,
      copy_str max_content_len (codes "No files found containing '" ++ (word ++ codes "'")),
    )
    else (
      ack err_success,
      copy_str max_content_len
          (codes "Files containing '" ++ (word ++ (codes "':" ++ (10 ∷ g.all_results)))),
    )

unfoldable pub handle_search_request : NameServer → Message → (ℕ → Found) → Option (Reply × CString)
handle_search_request ns msg ask =
    Option.map (search_answer msg.content) (gather ask nothing_gathered ns.routes.servers 0)
