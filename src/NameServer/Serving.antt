-- ===== src/NameServer/Serving.antt =====
-- `handle_connection` of nameserver.c against the events of NameServer/Events: what a connection does
-- to the state is what some history of events does, so that the invariants of histories hold of it.
use name_file_system_docs.Base.{ℕ, ◌≤◌, subst, Option, none, some}
use name_file_system_docs.Base.Lists.{length, All}
use name_file_system_docs.Base.Strings.{CString}
use name_file_system_docs.NameServer.Searches.{
  IsHistory, no_event, one_event, view-IsHistory, info-IsHistory, exec-IsHistory,
}
use mathlib.Core.Option
use name_file_system_docs.NameServer.Dispatch.{
  on_addaccess, on_approverequest, on_create, on_createfolder, on_delete, on_denyrequest, on_exec,
  on_heartbeat, on_info, on_list, on_move, on_read, on_register_client, on_register_ss,
  on_remaccess, on_requestaccess, on_search, on_stream, on_undo, on_unknown, on_unregister_client,
  on_view, on_viewfolder, on_viewrequests, on_write, received, worded,
}
use name_file_system_docs.NameServer.Events.{
  Fits, add_access, approve_request, create, delete_file, deny_request, disconnect, handle,
  heartbeat, read_file, register_client, register_server, remove_access, request_access,
  stream_file, undo_file, write_file,
}
use name_file_system_docs.NameServer.Folders.{handle_search_request}
use name_file_system_docs.Registry.Routing.{listed_files}
use name_file_system_docs.NameServer.Valid.{IsValid}
use name_file_system_docs.NameServer.Invariant.{run-IsValid}
use name_file_system_docs.NameServer.Dispatch.{
  Answer, Incoming, Operation, Outside, broken, closed, handle_connection, on_heartbeat, on_search,
  on_unknown, operation_of, serve,
}
use name_file_system_docs.Registry.Coherence.{HasRoom}
use name_file_system_docs.NameServer.{Message, NameServer, Reply}

-- What the message must be like: its names fit, those of a registration too, and at a CREATE the
-- storage servers have room for one more file.
abbrev pub Suits : Operation → NameServer → Message → Type 0
Suits on_create ns msg = Fits msg × HasRoom ns.routes
Suits on_register_ss ns msg = All (λ f. length f ≤ 255) (listed_files msg.content)
Suits on_approverequest ns msg = Fits msg × (length msg.content ≤ 63)
Suits op ns msg = Fits msg

-- The state after the handler, where it returns.
abbrev pub Leads : NameServer → Option (Answer × NameServer) → Type 0
Leads ns none = Unit
Leads ns (some (answer, u)) = IsHistory ns u

answered-Leads :
    (ns : NameServer) (r : Option (Reply × CString))
    → Leads ns (Option.map (λ (a : Reply × CString). (worded a.0 a.1, ns)) r)
answered-Leads ns none = tt
answered-Leads ns (some a) = no_event ns

serve-Leads :
    (op : Operation) (flags : ℕ) (ns : NameServer) (msg : Message) (out : Outside)
    → Suits op ns msg
    → Leads ns (serve op flags ns msg out)
unfolding serve handle
serve-Leads on_register_ss flags ns msg out v = one_event ns (register_server msg out.now) v tt
serve-Leads on_register_client flags ns msg out v = one_event ns (register_client msg out.now) v tt
serve-Leads on_unregister_client flags ns msg out v =
    one_event ns (disconnect msg.ip_address msg.nm_port) tt tt
serve-Leads on_create flags ns msg out v =
    one_event ns (create msg out.forward out.reached out.now) v.0 v.1
serve-Leads on_read flags ns msg out v = one_event ns (read_file msg) v tt
serve-Leads on_delete flags ns msg out v = one_event ns (delete_file msg out.forward) v tt
serve-Leads on_write flags ns msg out v = one_event ns (write_file msg) v tt
serve-Leads on_undo flags ns msg out v = one_event ns (undo_file msg) v tt
serve-Leads on_addaccess flags ns msg out v = one_event ns (add_access msg) v tt
serve-Leads on_remaccess flags ns msg out v = one_event ns (remove_access msg) v tt
serve-Leads on_list flags ns msg out v = no_event ns
serve-Leads on_view flags ns msg out v = view-IsHistory ns msg flags out.metadata v
serve-Leads on_info flags ns msg out v = info-IsHistory ns msg (out.metadata msg.filename) v
serve-Leads on_stream flags ns msg out v = one_event ns (stream_file msg) v tt
serve-Leads on_exec flags ns msg out v = exec-IsHistory ns msg out.content out.popen v
serve-Leads on_createfolder flags ns msg out v = no_event ns
serve-Leads on_move flags ns msg out v = no_event ns
serve-Leads on_viewfolder flags ns msg out v = no_event ns
serve-Leads on_requestaccess flags ns msg out v = one_event ns (request_access msg out.now) v tt
serve-Leads on_viewrequests flags ns msg out v = no_event ns
serve-Leads on_approverequest flags ns msg out v = one_event ns (approve_request msg) v tt
serve-Leads on_denyrequest flags ns msg out v = one_event ns (deny_request msg) v tt
serve-Leads on_heartbeat flags ns msg out v = one_event ns (heartbeat msg out.now) v tt
serve-Leads on_search flags ns msg out v =
    answered-Leads ns (handle_search_request ns msg out.answers)
serve-Leads on_unknown flags ns msg out v = no_event ns

abbrev pub SuitsIncoming : NameServer → Incoming → Type 0
SuitsIncoming ns (closed ip port) = Unit
SuitsIncoming ns broken = Unit
SuitsIncoming ns (received op flags msg) = Suits (operation_of op) ns msg

-- Whatever comes on a connection, with names that fit their arrays and room at a CREATE: where the
-- handler returns, the state is one that a history of admissible events leads to.
pub connection-Leads :
    (ns : NameServer) (i : Incoming) (out : Outside)
    → SuitsIncoming ns i
    → Leads ns (handle_connection ns i out)
unfolding handle_connection handle
connection-Leads ns (closed ip port) out v = one_event ns (disconnect ip port) tt tt
connection-Leads ns broken out v = no_event ns
connection-Leads ns (received op flags msg) out v = serve-Leads (operation_of op) flags ns msg out v

-- So a connection keeps the state of the name server well formed.
abbrev pub Stays : Option (Answer × NameServer) → Type 0
Stays none = Unit
Stays (some (answer, u)) = IsValid u

stays : (ns : NameServer) (r : Option (Answer × NameServer)) → IsValid ns → Leads ns r → Stays r
stays ns none v l = tt
stays ns (some (answer, u)) v (es, a, e) = subst IsValid e (run-IsValid ns es a v)

pub connection-IsValid :
    (ns : NameServer) (i : Incoming) (out : Outside)
    → SuitsIncoming ns i
    → IsValid ns
    → Stays (handle_connection ns i out)
connection-IsValid ns i out s v =
    stays ns (handle_connection ns i out) v (connection-Leads ns i out s)
