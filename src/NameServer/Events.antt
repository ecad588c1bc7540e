-- ===== src/NameServer/Events.antt =====
-- The events that change the name server's state in nameserver.c, as `handle_connection` and the
-- thread of the failure detection bring them about, and histories of them.
use name_file_system_docs.Base.{ℕ, ◌≤◌, Bool, List, [], ◌∷◌}
use name_file_system_docs.Base.Lists.{length, All}
use name_file_system_docs.Base.Strings.{CString}
use name_file_system_docs.Registry.Routing.{handle_ss_registration, listed_files}
use name_file_system_docs.NameServer.{
  Message, NameServer, mark_client_disconnected, handle_client_registration, handle_heartbeat,
  failure_detection,
}
use name_file_system_docs.NameServer.Files.{
  Forward, handle_create_request, handle_read_request, handle_write_request, handle_undo_request,
  handle_stream_request, handle_delete_request,
}
use name_file_system_docs.NameServer.Sharing.{
  handle_addaccess_request, handle_remaccess_request, handle_requestaccess_request,
  handle_approverequest_request, handle_denyrequest_request,
}

pub data Event : Type 0 where
  create : Message → Forward → Bool → ℕ → Event
  delete_file : Message → Forward → Event
  read_file : Message → Event
  write_file : Message → Event
  undo_file : Message → Event
  stream_file : Message → Event
  add_access : Message → Event
  remove_access : Message → Event
  request_access : Message → ℕ → Event
  approve_request : Message → Event
  deny_request : Message → Event
  register_client : Message → ℕ → Event
  disconnect : CString → ℕ → Event
  register_server : Message → ℕ → Event
  heartbeat : Message → ℕ → Event
  check_servers : ℕ → Event

-- The state after an event.
unfoldable pub handle : NameServer → Event → NameServer
handle ns (create msg forward reached now) = (handle_create_request ns msg forward reached now).1
handle ns (delete_file msg forward) = (handle_delete_request ns msg forward).1
handle ns (read_file msg) = (handle_read_request ns msg).1
handle ns (write_file msg) = (handle_write_request ns msg).1
handle ns (undo_file msg) = (handle_undo_request ns msg).1
handle ns (stream_file msg) = (handle_stream_request ns msg).1
handle ns (add_access msg) = (handle_addaccess_request ns msg).1
handle ns (remove_access msg) = (handle_remaccess_request ns msg).1
handle ns (request_access msg now) = (handle_requestaccess_request ns msg now).1
handle ns (approve_request msg) = (handle_approverequest_request ns msg).1
handle ns (deny_request msg) = (handle_denyrequest_request ns msg).1
handle ns (register_client msg now) = (handle_client_registration ns msg now).1
handle ns (disconnect ip port) = record ns { clients = mark_client_disconnected ns.clients ip port }
handle ns (register_server msg now) = record ns {
  routes =
      (handle_ss_registration ns.routes msg.ip_address msg.nm_port msg.client_port msg.content
        now).1;
}
handle ns (heartbeat msg now) = (handle_heartbeat ns msg now).1
handle ns (check_servers now) = record ns {
  routes = record ns.routes { servers = failure_detection now ns.routes.servers };
}

unfoldable pub run : NameServer → List Event → NameServer
run ns [] = ns
run ns (e ∷ es) = run (handle ns e) es

-- A message's names fit their arrays, with the terminating zero. The requester that an approval
-- names stands in `content`, and is one that fits the array of user names.
pub record Fits (msg : Message) : Type 0 where
  pub sender : length msg.sender_id ≤ 63
  pub target : length msg.target_user ≤ 63
  pub file : length msg.filename ≤ 255

abbrev pub HasNames : Event → Type 0
HasNames (create msg forward reached now) = Fits msg
HasNames (delete_file msg forward) = Fits msg
HasNames (read_file msg) = Fits msg
HasNames (write_file msg) = Fits msg
HasNames (undo_file msg) = Fits msg
HasNames (stream_file msg) = Fits msg
HasNames (add_access msg) = Fits msg
HasNames (remove_access msg) = Fits msg
HasNames (request_access msg now) = Fits msg
HasNames (approve_request msg) = Fits msg × (length msg.content ≤ 63)
HasNames (deny_request msg) = Fits msg
HasNames (register_client msg now) = Fits msg
HasNames (disconnect ip port) = Unit
HasNames (register_server msg now) = All (λ f. length f ≤ 255) (listed_files msg.content)
HasNames (heartbeat msg now) = Fits msg
HasNames (check_servers now) = Unit
