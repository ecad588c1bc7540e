-- ===== src/NameServer/Dispatch.antt =====
-- `handle_connection` of nameserver.c: one connection of the `select` loop, from the message on it to
-- the handler of its operation.
use name_file_system_docs.Base.{ℕ, Bool, Option, some, List}
use name_file_system_docs.Base.Tests.{◌==◌, if◌then◌else◌}
use name_file_system_docs.Base.Strings.{CString}
use name_file_system_docs.NameServer.Listing.{
  Info, Metadata, handle_info_request, handle_list_request, handle_view_request,
}
use name_file_system_docs.NameServer.Sharing.{
  handle_addaccess_request, handle_approverequest_request, handle_denyrequest_request,
  handle_remaccess_request, handle_requestaccess_request, handle_viewrequests_request,
}
use name_file_system_docs.Protocol.{
  err_not_implemented, op_addaccess, op_approverequest, op_create, op_createfolder, op_delete,
  op_denyrequest, op_exec, op_heartbeat, op_info, op_list, op_move, op_read, op_register_client,
  op_register_ss, op_remaccess, op_requestaccess, op_search, op_stream, op_undo,
  op_unregister_client, op_view, op_viewfolder, op_viewrequests, op_write,
}
use mathlib.Core.Option
use name_file_system_docs.NameServer.Folders.{
  Executed, Fetched, Found, Shell, handle_createfolder_request, handle_exec_request,
  handle_move_request, handle_search_request, handle_viewfolder_request,
}
use name_file_system_docs.NameServer.Files.{
  Forward, handle_create_request, handle_delete_request, handle_read_request, handle_stream_request,
  handle_undo_request, handle_write_request,
}
use name_file_system_docs.NameServer.{
  Message, NameServer, Reply, ack, handle_client_registration, handle_heartbeat,
  mark_client_disconnected,
}
use name_file_system_docs.Registry.Routing.{handle_ss_registration}

-- What comes on a connection: nothing, since the peer has closed it or the reading fails, or a
-- message with its operation and its view flags. The address is the one that `accept` gave.
pub data Incoming : Type 0 where
  closed : CString → ℕ → Incoming
  broken : Incoming
  received : ℕ → ℕ → Message → Incoming

-- What the storage servers, the shell and the clock do while the connection is served.
pub record Outside : Type 0 where
  pub forward : Forward
  pub reached : Bool
  pub now : ℕ
  pub metadata : CString → Metadata
  pub content : Fetched
  pub popen : Shell
  pub answers : ℕ → Found

-- What is sent back: nothing; an answer; or one whose text the model has, or has the parts of.
pub data Answer : Type 0 where
  silence : Answer
  brief : Reply → Answer
  worded : Reply → CString → Answer
  detailed : Reply → Option Info → Answer
  listed : Reply → List CString → Answer
  executed : Executed → Answer

-- The cases of the switch.
pub data Operation : Type 0 where
  on_register_ss on_register_client on_unregister_client on_create on_read on_delete on_write
        on_undo on_addaccess on_remaccess on_list on_view on_info on_stream on_exec on_createfolder
        on_move on_viewfolder on_requestaccess on_viewrequests on_approverequest on_denyrequest
        on_heartbeat on_search on_unknown :
      Operation

unfoldable pub operation_of : ℕ → Operation
operation_of op =
    if op == op_register_ss
    then on_register_ss
    else if op == op_register_client
    then on_register_client
    else if op == op_unregister_client
    then on_unregister_client
    else if op == op_create
    then on_create
    else if op == op_read
    then on_read
    else if op == op_delete
    then on_delete
    else if op == op_write
    then on_write
    else if op == op_undo
    then on_undo
    else if op == op_addaccess
    then on_addaccess
    else if op == op_remaccess
    then on_remaccess
    else if op == op_list
    then on_list
    else if op == op_view
    then on_view
    else if op == op_info
    then on_info
    else if op == op_stream
    then on_stream
    else if op == op_exec
    then on_exec
    else if op == op_createfolder
    then on_createfolder
    else if op == op_move
    then on_move
    else if op == op_viewfolder
    then on_viewfolder
    else if op == op_requestaccess
    then on_requestaccess
    else if op == op_viewrequests
    then on_viewrequests
    else if op == op_approverequest
    then on_approverequest
    else if op == op_denyrequest
    then on_denyrequest
    else if op == op_heartbeat
    then on_heartbeat
    else if op == op_search
    then on_search
    else on_unknown

abbrev with_brief : Reply × NameServer → Option (Answer × NameServer)
with_brief (reply, ns) = some (brief reply, ns)

-- The handlers, called on the whole message; `none` is the overflow in SEARCH.
unfoldable pub serve : Operation → ℕ → NameServer → Message → Outside → Option (Answer × NameServer)
serve on_register_ss flags ns msg out =
    let (code, routes) =
      handle_ss_registration ns.routes msg.ip_address msg.nm_port msg.client_port msg.content
        out.now in
    some (brief (ack code), record ns { routes = routes })
serve on_register_client flags ns msg out = with_brief (handle_client_registration ns msg out.now)
serve on_unregister_client flags ns msg out = some (
  silence,
  record ns { clients = mark_client_disconnected ns.clients msg.ip_address msg.nm_port },
)
serve on_create flags ns msg out =
    with_brief (handle_create_request ns msg out.forward out.reached out.now)
serve on_read flags ns msg out = with_brief (handle_read_request ns msg)
serve on_delete flags ns msg out = with_brief (handle_delete_request ns msg out.forward)
serve on_write flags ns msg out = with_brief (handle_write_request ns msg)
serve on_undo flags ns msg out = with_brief (handle_undo_request ns msg)
serve on_addaccess flags ns msg out = with_brief (handle_addaccess_request ns msg)
serve on_remaccess flags ns msg out = with_brief (handle_remaccess_request ns msg)
serve on_list flags ns msg out =
    let (reply, text) = handle_list_request ns in some (worded reply text, ns)
serve on_view flags ns msg out =
    let (answer, next) = handle_view_request ns msg flags out.metadata in
    some (worded answer.0 answer.1, next)
serve on_info flags ns msg out =
    let (answer, next) = handle_info_request ns msg (out.metadata msg.filename) in
    some (detailed answer.0 answer.1, next)
serve on_stream flags ns msg out = with_brief (handle_stream_request ns msg)
serve on_exec flags ns msg out =
    let (answer, next) = handle_exec_request ns msg out.content out.popen in
    some (executed answer, next)
serve on_createfolder flags ns msg out =
    some (brief (handle_createfolder_request ns out.forward), ns)
serve on_move flags ns msg out = some (brief (handle_move_request ns msg out.forward), ns)
serve on_viewfolder flags ns msg out = some (brief (handle_viewfolder_request ns out.forward), ns)
serve on_requestaccess flags ns msg out = with_brief (handle_requestaccess_request ns msg out.now)
serve on_viewrequests flags ns msg out =
    let (reply, requests) = handle_viewrequests_request ns msg in some (listed reply requests, ns)
serve on_approverequest flags ns msg out = with_brief (handle_approverequest_request ns msg)
serve on_denyrequest flags ns msg out = with_brief (handle_denyrequest_request ns msg)
serve on_heartbeat flags ns msg out = with_brief (handle_heartbeat ns msg out.now)
serve on_search flags ns msg out =
    Option.map (λ (a : Reply × CString). (worded a.0 a.1, ns))
      (handle_search_request ns msg out.answers)
serve on_unknown flags ns msg out = some (brief (ack err_not_implemented), ns)

unfoldable pub handle_connection : NameServer → Incoming → Outside → Option (Answer × NameServer)
handle_connection ns (closed ip port) out =
    some (silence, record ns { clients = mark_client_disconnected ns.clients ip port })
handle_connection ns broken out = some (silence, ns)
handle_connection ns (received op flags msg) out = serve (operation_of op) flags ns msg out
