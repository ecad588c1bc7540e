-- ===== src/Client.antt =====
-- client/client.c: what a line that the user types makes the client do. The parsing of the line, the
-- choice of the command and the first message of each are modelled, with the operation that goes to a
-- storage server behind it, and in the modules below the dialogue of WRITE. What is printed is left
-- out.
pub mod Commands
pub mod Lines
pub mod Dialogue
pub mod Typed
pub mod Rights
pub mod Tests
use name_file_system_docs.Base.{
  ℕ, zero, suc, ◌-◌, Bool, true, false, ◌&&◌, ◌||◌, Option, none, some, List, [], ◌∷◌, map,
}
use name_file_system_docs.Base.Tests.{leb, ◌==◌, if◌then◌else◌}
use name_file_system_docs.Base.Strings.{CString, same, copy_str, tokens}
use name_file_system_docs.Protocol.{
  access_read, access_write, max_content_len, max_filename_len, max_username_len, op_addaccess,
  op_approverequest, op_checkpoint, op_create, op_createfolder, op_delete, op_denyrequest, op_exec,
  op_info, op_list, op_listcheckpoints, op_move, op_read, op_remaccess, op_requestaccess, op_revert,
  op_search, op_stream, op_undo, op_view, op_viewcheckpoint, op_viewfolder, op_viewrequests,
  op_write, op_write_start,
}
use name_file_system_docs.Acl.Saved.{codes}
use name_file_system_docs.NameServer.{Message}
use mathlib.Core.Option

-- `isspace` of the C locale.
abbrev pub is_space : ℕ → Bool
is_space c = c == b' ' || leb 9 c && leb c 13

unfoldable pub skip_spaces : CString → CString
skip_spaces [] = []
skip_spaces (c ∷ s) = if is_space c then skip_spaces s else c ∷ s

abbrev pub is_empty : CString → Bool
is_empty [] = true
is_empty (c ∷ s) = false

-- The loop from the end back, down to the last byte that is no space.
unfoldable pub cut_spaces : CString → CString
cut_spaces [] = []
cut_spaces (c ∷ s) = let rest = cut_spaces s in if is_space c && is_empty rest then [] else c ∷ rest

unfoldable pub trim : CString → CString
trim s = cut_spaces (skip_spaces s)

unfoldable pub toupper : ℕ → ℕ
toupper c = if leb 97 c && leb c 122 then c - 32 else c

-- `command` and `arg1` to `arg3`, empty where there is none.
pub record Input : Type 0 where
  pub command : CString
  pub arg1 : CString
  pub arg2 : CString
  pub arg3 : CString

-- The token with this number, in a buffer of `MAX_FILENAME_LEN` bytes.
abbrev pub argument : List CString → ℕ → CString
argument [] i = []
argument (t ∷ ts) zero = copy_str max_filename_len t
argument (t ∷ ts) (suc i) = argument ts i

-- `none` is the result 0.
abbrev pub input_of : List CString → Option Input
input_of [] = none
input_of (t ∷ ts) = some (record {
  command = map toupper (copy_str max_filename_len t);
  arg1 = argument ts 0;
  arg2 = argument ts 1;
  arg3 = argument ts 2;
})

unfoldable pub parse_input : CString → Option Input
parse_input line = input_of (tokens b' ' (trim line))

-- The commands that `main` compares with.
pub data Command : Type 0 where
  create_command read_command write_command delete_command undo_command stream_command exec_command
        list_command view_command info_command addaccess_command remaccess_command
        createfolder_command move_command viewfolder_command checkpoint_command
        viewcheckpoint_command revert_command listcheckpoints_command requestaccess_command
        viewrequests_command approverequest_command denyrequest_command search_command help_command
        exit_command unknown_command :
      Command

unfoldable pub command_of : CString → Command
command_of command =
    if same command (codes "CREATE")
    then create_command
    else if same command (codes "READ")
    then read_command
    else if same command (codes "WRITE")
    then write_command
    else if same command (codes "DELETE")
    then delete_command
    else if same command (codes "UNDO")
    then undo_command
    else if same command (codes "STREAM")
    then stream_command
    else if same command (codes "EXEC")
    then exec_command
    else if same command (codes "LIST")
    then list_command
    else if same command (codes "VIEW")
    then view_command
    else if same command (codes "INFO")
    then info_command
    else if same command (codes "ADDACCESS")
    then addaccess_command
    else if same command (codes "REMACCESS")
    then remaccess_command
    else if same command (codes "CREATEFOLDER")
    then createfolder_command
    else if same command (codes "MOVE")
    then move_command
    else if same command (codes "VIEWFOLDER")
    then viewfolder_command
    else if same command (codes "CHECKPOINT")
    then checkpoint_command
    else if same command (codes "VIEWCHECKPOINT")
    then viewcheckpoint_command
    else if same command (codes "REVERT")
    then revert_command
    else if same command (codes "LISTCHECKPOINTS")
    then listcheckpoints_command
    else if same command (codes "REQUESTACCESS")
    then requestaccess_command
    else if same command (codes "VIEWREQUESTS")
    then viewrequests_command
    else if same command (codes "APPROVEREQUEST")
    then approverequest_command
    else if same command (codes "DENYREQUEST")
    then denyrequest_command
    else if same command (codes "SEARCH")
    then search_command
    else if same command (codes "HELP")
    then help_command
    else if same command (codes "EXIT") || same command (codes "QUIT")
    then exit_command
    else unknown_command
