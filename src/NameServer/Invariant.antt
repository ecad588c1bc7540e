-- ===== src/NameServer/Invariant.antt =====
-- Every event of nameserver.c keeps the invariant of the state, and so does every history.
use name_file_system_docs.Base.{List, [], ◌∷◌}
use name_file_system_docs.Registry.Coherence.{servers-IsCoherent, registration-IsCoherent}
use name_file_system_docs.NameServer.{NameServer}
use name_file_system_docs.NameServer.Cases.{after_route}
use name_file_system_docs.NameServer.Events.{
  Event, create, delete_file, read_file, write_file, undo_file, stream_file, add_access,
  remove_access, request_access, approve_request, deny_request, register_client, disconnect,
  register_server, heartbeat, check_servers, handle, run, HasNames,
}
use name_file_system_docs.NameServer.Valid.{IsValid, RoomFor, Admissible, searched-IsValid}
use name_file_system_docs.NameServer.Handlers.{
  create-IsValid, delete-IsValid, grant-IsValid, revoke-IsValid, approval-IsValid, denial-IsValid,
  ask-IsValid, heartbeat-IsValid, register-IsValid,
}

-- An event whose names fit, at a time when the servers have room, keeps the state well formed.
handle-IsValid :
    (ns : NameServer) (e : Event) → HasNames e → RoomFor ns e → IsValid ns → IsValid (handle ns e)
unfolding handle
handle-IsValid ns (create msg forward reached now) n room v =
    create-IsValid ns v msg forward reached now n room
handle-IsValid ns (delete_file msg forward) n room v = delete-IsValid ns v msg forward n
handle-IsValid ns (read_file msg) n room v =
    after_route IsValid ns msg _ (searched-IsValid ns msg.filename n.file v)
handle-IsValid ns (write_file msg) n room v =
    after_route IsValid ns msg _ (searched-IsValid ns msg.filename n.file v)
handle-IsValid ns (undo_file msg) n room v =
    after_route IsValid ns msg _ (searched-IsValid ns msg.filename n.file v)
handle-IsValid ns (stream_file msg) n room v =
    after_route IsValid ns msg _ (searched-IsValid ns msg.filename n.file v)
handle-IsValid ns (add_access msg) n room v = grant-IsValid ns v msg n
handle-IsValid ns (remove_access msg) n room v = revoke-IsValid ns v msg
handle-IsValid ns (request_access msg now) n room v = ask-IsValid ns v msg now n
handle-IsValid ns (approve_request msg) n room v = approval-IsValid ns v msg n.1
handle-IsValid ns (deny_request msg) n room v = denial-IsValid ns v msg
handle-IsValid ns (register_client msg now) n room v = register-IsValid ns v msg now
handle-IsValid ns (disconnect ip port) n room v = record {
  routes = v.routes;
  acl = v.acl;
  requests = v.requests;
}
handle-IsValid ns (register_server msg now) n room v = record {
  routes =
      registration-IsCoherent ns.routes msg.ip_address msg.nm_port msg.client_port msg.content now n
        v.routes;
  acl = v.acl;
  requests = v.requests;
}
handle-IsValid ns (heartbeat msg now) n room v = heartbeat-IsValid ns v msg now
handle-IsValid ns (check_servers now) n room v = record {
  routes = servers-IsCoherent ns.routes _ ns.routes.next_start v.routes;
  acl = v.acl;
  requests = v.requests;
}

-- The invariant of the name server. Every history of events keeps the state well formed, if names
-- fit their arrays and every storage server has room for one more file when a file is created: the
-- file map, the cache and the tables of rights and of requests are well formed, and a server that the
-- cache has for a file is one that the file map or the replication map has for it.
pub run-IsValid :
    (ns : NameServer) (es : List Event) → Admissible ns es → IsValid ns → IsValid (run ns es)
unfolding run
run-IsValid ns [] a v = v
run-IsValid ns (e ∷ es) a v = run-IsValid (handle ns e) es a.2 (handle-IsValid ns e a.0 a.1 v)
