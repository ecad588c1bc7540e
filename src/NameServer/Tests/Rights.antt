-- ===== src/NameServer/Tests/Rights.antt =====
-- An approval, as a line that is typed and as a message that is served, on the run of the tests.
use name_file_system_docs.Base.{◌≡◌, refl, false, none, some, [], arith}
use name_file_system_docs.Base.Strings.{CString, same, tokens_from, tokens}
use name_file_system_docs.Acl.Saved.{codes}
use name_file_system_docs.Client.{
  Input, command_of, cut_spaces, parse_input, skip_spaces, toupper, trim,
}
use name_file_system_docs.Client.Commands.{Request, asks, command_step, typed}
use name_file_system_docs.Client.Rights.{
  command_gives, command_gives_write, command_takes, typed_rights,
}
use name_file_system_docs.NameServer.{Message, NameServer}
use name_file_system_docs.NameServer.Codes.{MayChange, connection_rights}
use name_file_system_docs.NameServer.Dispatch.{
  brief, handle_connection, operation_of, received, serve,
}
use name_file_system_docs.NameServer.Serving.{SuitsIncoming}
use name_file_system_docs.NameServer.Sharing.{handle_approverequest_request}
use name_file_system_docs.NameServer.Tests.{alice, bob, doc, working, working-IsValid}
use name_file_system_docs.NameServer.Tests.Reports.{out}
use name_file_system_docs.NameServer.Wire.{Changes}

abbrev line : CString
line = codes "ApproveRequest d b"

abbrev input : Input
input = record { command = codes "APPROVEREQUEST"; arg1 = doc; arg2 = bob; arg3 = [] }

abbrev approval : Message
approval = record {
  sender_id = alice;
  target_user = [];
  filename = doc;
  content = bob;
  access_type = 0;
  ip_address = [];
  nm_port = 0;
  client_port = 0;
}

abbrev request : Request
request = record { operation = 102; view_flags = 0; message = approval; follow_up = none }

abbrev after_approval : NameServer
after_approval = (handle_approverequest_request working approval).1

parsed : parse_input line ≡ some input
unfolding parse_input trim skip_spaces cut_spaces toupper tokens tokens_from
parsed = refl

asked : typed alice line false ≡ asks request
unfolding typed parse_input trim skip_spaces cut_spaces toupper tokens tokens_from command_of
    command_step same
asked = refl

suits : SuitsIncoming working (received 102 0 approval)
unfolding operation_of
suits = (record { sender = omega arith; target = omega arith; file = omega arith }, omega arith)

served :
    handle_connection working (received 102 0 approval) out
    ≡ some (brief (handle_approverequest_request working approval).0, after_approval)
unfolding handle_connection operation_of serve
served = refl

connection_rights_example : MayChange 102 working approval after_approval.acl doc bob
connection_rights_example =
    connection_rights working 102 0 approval out
      (brief (handle_approverequest_request working approval).0) after_approval doc bob suits
      working-IsValid.acl served

typed_rights_example :
    Changes working.acl after_approval.acl doc bob
      (command_gives working alice input doc bob)
      (command_gives_write working alice input doc bob)
      (command_takes working alice input doc bob)
typed_rights_example =
    typed_rights working alice line input false request out
      (brief (handle_approverequest_request working approval).0) after_approval doc bob parsed asked
      suits working-IsValid.acl served
