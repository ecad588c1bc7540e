-- ===== src/Client/Commands.antt =====
-- The commands of client/client.c: of each the check of its arguments and its first message, and the
-- branches of `main`.
use name_file_system_docs.Base.{ℕ, Bool, ◌||◌, Option, none, some, []}
use name_file_system_docs.Base.Tests.{if◌then◌else◌}
use name_file_system_docs.Base.Strings.{CString, same, copy_str}
use name_file_system_docs.Client.{
  create_command, read_command, write_command, delete_command, undo_command, stream_command,
  exec_command, list_command, view_command, info_command, addaccess_command, remaccess_command,
  createfolder_command, move_command, viewfolder_command, checkpoint_command,
  viewcheckpoint_command, revert_command, listcheckpoints_command, requestaccess_command,
  viewrequests_command, approverequest_command, denyrequest_command, search_command, help_command,
  exit_command, unknown_command,
}
use name_file_system_docs.Client.{
  Command, Input, command_of, exit_command, is_empty, parse_input, unknown_command,
}
use name_file_system_docs.Protocol.{
  access_read, access_write, max_content_len, max_filename_len, max_username_len, op_addaccess,
  op_approverequest, op_checkpoint, op_create, op_createfolder, op_delete, op_denyrequest, op_exec,
  op_info, op_list, op_listcheckpoints, op_move, op_read, op_remaccess, op_requestaccess, op_revert,
  op_search, op_stream, op_undo, op_view, op_viewcheckpoint, op_viewfolder, op_viewrequests,
  op_write, op_write_start,
}
use name_file_system_docs.Acl.Saved.{codes}
use name_file_system_docs.NameServer.{Message}

-- The first message to the name server, with its operation and its flags, and the operation that goes
-- to a storage server if the name server answers with one. A folder's name, the number of a sentence
-- and the tag of a checkpoint, which the name server only passes on, are left out.
pub record Request : Type 0 where
  pub operation : ℕ
  pub view_flags : ℕ
  pub message : Message
  pub follow_up : Option ℕ

pub data Step : Type 0 where
  prints : Step
  asks : Request → Step
  leaves : Step

-- A message as `INIT_MESSAGE` makes it, with the sender's name.
abbrev pub blank : CString → Message
blank user = record {
  sender_id = copy_str max_username_len user;
  target_user = [];
  filename = [];
  content = [];
  access_type = 0;
  ip_address = [];
  nm_port = 0;
  client_port = 0;
}

abbrev pub about : CString → CString → Message
about user filename = record (blank user) { filename = copy_str max_filename_len filename }

abbrev pub plain : ℕ → Message → Step
plain op msg = asks (record { operation = op; view_flags = 0; message = msg; follow_up = none })

abbrev pub routed : ℕ → Message → ℕ → Step
routed op msg next =
    asks (record { operation = op; view_flags = 0; message = msg; follow_up = some next })

-- The usage is printed where an argument is missing.
abbrev pub with_one : CString → Step → Step
with_one a request = if is_empty a then prints else request

abbrev pub with_two : CString → CString → Step → Step
with_two a b request = if is_empty a || is_empty b then prints else request

-- The flags of VIEW; `none` for an invalid one.
unfoldable pub view_flags_of : CString → Option ℕ
view_flags_of flags =
    if is_empty flags
    then some 0
    else if same flags (codes "-a")
    then some 1
    else if same flags (codes "-l")
    then some 2
    else if same flags (codes "-al") || same flags (codes "-la")
    then some 3
    else none

unfoldable pub access_type_of : CString → Option ℕ
access_type_of flag =
    if same flag (codes "-R") || same flag (codes "-r")
    then some access_read
    else if same flag (codes "-W") || same flag (codes "-w")
    then some access_write
    else none

unfoldable pub view_step : CString → Option ℕ → Step
view_step user none = prints
view_step user (some flags) =
    asks
      (record { operation = op_view; view_flags = flags; message = blank user; follow_up = none })

unfoldable pub grant_step : CString → CString → CString → Option ℕ → Step
grant_step user filename target none = prints
grant_step user filename target (some access_type) =
    plain op_addaccess (record (about user filename) {
      target_user = copy_str max_username_len target;
      access_type = access_type;
    })

abbrev pub cmd_create : CString → CString → Step
cmd_create user filename = with_one filename (plain op_create (about user filename))

abbrev pub cmd_read : CString → CString → Step
cmd_read user filename = with_one filename (routed op_read (about user filename) op_read)

-- `atoi` of the sentence's number is an argument: whether it is negative.
abbrev pub cmd_write : CString → CString → CString → Bool → Step
cmd_write user filename sentence_num negative =
    with_two filename sentence_num
      (if negative then prints else routed op_write (about user filename) op_write_start)

abbrev pub cmd_delete : CString → CString → Step
cmd_delete user filename = with_one filename (plain op_delete (about user filename))

abbrev pub cmd_undo : CString → CString → Step
cmd_undo user filename = with_one filename (routed op_undo (about user filename) op_undo)

abbrev pub cmd_stream : CString → CString → Step
cmd_stream user filename = with_one filename (routed op_stream (about user filename) op_stream)

abbrev pub cmd_exec : CString → CString → Step
cmd_exec user filename = with_one filename (plain op_exec (about user filename))

abbrev pub cmd_list : CString → Step
cmd_list user = plain op_list (blank user)

abbrev pub cmd_view : CString → CString → Step
cmd_view user flags = view_step user (view_flags_of flags)

abbrev pub cmd_info : CString → CString → Step
cmd_info user filename = with_one filename (plain op_info (about user filename))

abbrev pub cmd_addaccess : CString → CString → CString → CString → Step
cmd_addaccess user flag filename username =
    if is_empty flag || is_empty filename || is_empty username
    then prints
    else grant_step user filename username (access_type_of flag)

abbrev pub cmd_remaccess : CString → CString → CString → Step
cmd_remaccess user filename username = with_two filename username (
    plain op_remaccess
      (record (about user filename) { target_user = copy_str max_username_len username }))

abbrev pub cmd_createfolder : CString → CString → Step
cmd_createfolder user foldername = with_one foldername (plain op_createfolder (blank user))

abbrev pub cmd_move : CString → CString → CString → Step
cmd_move user filename foldername =
    with_two filename foldername (plain op_move (about user filename))

abbrev pub cmd_viewfolder : CString → CString → Step
cmd_viewfolder user foldername = with_one foldername (plain op_viewfolder (blank user))

abbrev pub cmd_checkpoint : CString → CString → CString → Step
cmd_checkpoint user filename tag =
    with_two filename tag (routed op_read (about user filename) op_checkpoint)

abbrev pub cmd_viewcheckpoint : CString → CString → CString → Step
cmd_viewcheckpoint user filename tag =
    with_two filename tag (routed op_read (about user filename) op_viewcheckpoint)

abbrev pub cmd_revert : CString → CString → CString → Step
cmd_revert user filename tag =
    with_two filename tag (routed op_read (about user filename) op_revert)

abbrev pub cmd_listcheckpoints : CString → CString → Step
cmd_listcheckpoints user filename =
    with_one filename (routed op_read (about user filename) op_listcheckpoints)

abbrev pub cmd_requestaccess : CString → CString → Step
cmd_requestaccess user filename = with_one filename (plain op_requestaccess (about user filename))

abbrev pub cmd_viewrequests : CString → CString → Step
cmd_viewrequests user filename = with_one filename (plain op_viewrequests (about user filename))

abbrev pub cmd_approverequest : CString → CString → CString → Step
cmd_approverequest user filename username = with_two filename username (
    plain op_approverequest
      (record (about user filename) { content = copy_str max_content_len username }))

abbrev pub cmd_denyrequest : CString → CString → CString → Step
cmd_denyrequest user filename username = with_two filename username (
    plain op_denyrequest
      (record (about user filename) { content = copy_str max_content_len username }))

abbrev pub cmd_search : CString → CString → Step
cmd_search user word =
    with_one word
      (plain op_search (record (blank user) { content = copy_str max_content_len word }))

-- The branches of `main`; `negative` says that `atoi` of the second argument is negative.
unfoldable pub command_step : Command → CString → Input → Bool → Step
command_step create_command user i negative = cmd_create user i.arg1
command_step read_command user i negative = cmd_read user i.arg1
command_step write_command user i negative = cmd_write user i.arg1 i.arg2 negative
command_step delete_command user i negative = cmd_delete user i.arg1
command_step undo_command user i negative = cmd_undo user i.arg1
command_step stream_command user i negative = cmd_stream user i.arg1
command_step exec_command user i negative = cmd_exec user i.arg1
command_step list_command user i negative = cmd_list user
command_step view_command user i negative = cmd_view user i.arg1
command_step info_command user i negative = cmd_info user i.arg1
command_step addaccess_command user i negative = cmd_addaccess user i.arg1 i.arg2 i.arg3
command_step remaccess_command user i negative = cmd_remaccess user i.arg1 i.arg2
command_step createfolder_command user i negative = cmd_createfolder user i.arg1
command_step move_command user i negative = cmd_move user i.arg1 i.arg2
command_step viewfolder_command user i negative = cmd_viewfolder user i.arg1
command_step checkpoint_command user i negative = cmd_checkpoint user i.arg1 i.arg2
command_step viewcheckpoint_command user i negative = cmd_viewcheckpoint user i.arg1 i.arg2
command_step revert_command user i negative = cmd_revert user i.arg1 i.arg2
command_step listcheckpoints_command user i negative = cmd_listcheckpoints user i.arg1
command_step requestaccess_command user i negative = cmd_requestaccess user i.arg1
command_step viewrequests_command user i negative = cmd_viewrequests user i.arg1
command_step approverequest_command user i negative = cmd_approverequest user i.arg1 i.arg2
command_step denyrequest_command user i negative = cmd_denyrequest user i.arg1 i.arg2
command_step search_command user i negative = cmd_search user i.arg1
command_step help_command user i negative = prints
command_step exit_command user i negative = leaves
command_step unknown_command user i negative = prints

-- One round of the loop of `main`, on a line as `fgets` gives it.
unfoldable pub typed : CString → CString → Bool → Step
typed user line negative = elim (parse_input line) [
  | none ↦ prints
  | some i ↦
      if is_empty i.command then prints else command_step (command_of i.command) user i negative
]
