-- ===== src/Storage/Connection.antt =====
-- `client_server_thread` of storage_server/storage_server.c: one client after another, each with one
-- message, or with a WRITE session of several. With the thread of the name server's requests and the
-- one that sweeps the locks, a run of the server is a sequence of events; a handler is one event.
use name_file_system_docs.Base.{ℕ, ◌||◌, Option, none, some, List, [], ◌∷◌}
use name_file_system_docs.Base.Tests.{◌==◌, if◌then◌else◌}
use name_file_system_docs.Base.Strings.{copy_str}
use name_file_system_docs.Checkpoint.{
  checkpoint_create, checkpoint_list, checkpoint_revert, checkpoint_view, max_checkpoints,
}
use name_file_system_docs.Lock.{lock_cleanup_expired}
use name_file_system_docs.Protocol.{
  err_bad_request, err_not_implemented, err_success, max_content_len, op_checkpoint,
  op_listcheckpoints, op_read, op_revert, op_search, op_stream, op_undo, op_viewcheckpoint,
  op_write_commit, op_write_start, op_write_update,
}
use name_file_system_docs.Storage.{Calls, Message, Server}
use name_file_system_docs.Storage.Forwarded.{forwarded_request}
use name_file_system_docs.Storage.Requests.{
  Packet, handle_read_from_client, handle_search_request, handle_stream_request,
  handle_undo_request, with_code, with_names, with_text,
}
use name_file_system_docs.Storage.Writing.{close_session, write_commit, write_start, write_update}

-- The handlers of checkpoints.
unfoldable pub handle_checkpoint_request : Server → Message → Calls → Packet × Server
handle_checkpoint_request s msg calls =
    let (code, d) = checkpoint_create s.storage_dir s.disk msg.filename msg.checkpoint_tag calls in
    (with_code code, record s { disk = d })

unfoldable pub handle_viewcheckpoint_request : Server → Message → Calls → Packet
handle_viewcheckpoint_request s msg calls =
    let (code, buffer) =
      checkpoint_view s.storage_dir s.disk msg.filename msg.checkpoint_tag calls.opens
        max_content_len in
    elim buffer [
      | none ↦ with_code code
      | some content ↦ with_text code (copy_str max_content_len content)
    ]

unfoldable pub handle_revert_request : Server → Message → Calls → Packet × Server
handle_revert_request s msg calls =
    let (code, d) = checkpoint_revert s.storage_dir s.disk msg.filename msg.checkpoint_tag calls in
    (with_code code, record s { disk = d })

unfoldable pub handle_listcheckpoints_request : Calls → Packet
handle_listcheckpoints_request calls =
    with_names err_success (checkpoint_list calls.entries max_checkpoints)

-- Whether the thread waits for a client, or for the next message of a WRITE session.
pub data Link : Type 0 where
  waiting : Link
  writing : Link

-- What the thread has come to: its place, the server, and the packets sent. `none` is a fault.
abbrev pub Turn : Type 0
Turn = Option (Link × Server × List Packet)

abbrev pub coded : Link → Option (ℕ × Server) → Turn
coded link none = none
coded link (some (code, s)) = some (link, s, with_code code ∷ [])

abbrev pub replied : Packet × Server → Turn
replied (p, s) = some (waiting, s, p ∷ [])

abbrev pub sent : Server → Option (List Packet) → Turn
sent s none = none
sent s (some packets) = some (waiting, s, packets)

-- The first message of a client.
unfoldable pub first_message : Server → Message → Calls → Turn
first_message s msg calls =
    if msg.operation == op_write_start
    then coded writing (write_start s msg calls)
    else if msg.operation == op_read
    then some (waiting, s, handle_read_from_client s msg calls)
    else if msg.operation == op_write_update || msg.operation == op_write_commit
    then some (waiting, s, with_code err_bad_request ∷ [])
    else if msg.operation == op_undo
    then coded waiting (handle_undo_request s msg calls)
    else if msg.operation == op_stream
    then sent s (handle_stream_request s msg calls)
    else if msg.operation == op_checkpoint
    then replied (handle_checkpoint_request s msg calls)
    else if msg.operation == op_viewcheckpoint
    then replied (handle_viewcheckpoint_request s msg calls, s)
    else if msg.operation == op_revert
    then replied (handle_revert_request s msg calls)
    else if msg.operation == op_listcheckpoints
    then replied (handle_listcheckpoints_request calls, s)
    else if msg.operation == op_search
    then sent s (handle_search_request s msg)
    else some (waiting, s, with_code err_not_implemented ∷ [])

-- A further message of a WRITE session. Any operation but the two ends the connection, and leaves the
-- session as it is.
unfoldable pub next_message : Server → Message → Calls → Turn
next_message s msg calls =
    if msg.operation == op_write_update
    then coded writing (some (write_update s msg))
    else if msg.operation == op_write_commit
    then coded waiting (write_commit s calls)
    else some (waiting, s, [])

-- The client is lost: a session that is active is closed.
unfoldable pub disconnected : Link → Server → Turn
disconnected waiting s = some (waiting, s, [])
disconnected writing s = some (waiting, if s.write_session.active then close_session s else s, [])

-- A message of the client that the thread is at, its loss, a request of the name server, and a sweep
-- of the locks.
pub data Event : Type 0 where
  received : Message → Calls → Event
  lost : Event
  forwarded : Message → Calls → Event
  swept : ℕ → Event

abbrev pub Running : Type 0
Running = Link × Server

abbrev pub kept : Turn → Option Running
kept none = none
kept (some (link, s, packets)) = some (link, s)

unfoldable pub step : Running → Event → Option Running
step (waiting, s) (received msg calls) = kept (first_message s msg calls)
step (writing, s) (received msg calls) = kept (next_message s msg calls)
step (link, s) lost = kept (disconnected link s)
step (link, s) (forwarded msg calls) = some (link, (forwarded_request s msg calls).1)
step (link, s) (swept now) =
    some (link, record s { lock_table = (lock_cleanup_expired now s.lock_table).0 })

-- A run ends where a fault is.
unfoldable pub run : Running → List Event → Option Running
run r [] = some r
run r (e ∷ es) = elim (step r e) [ none ↦ none | some r' ↦ run r' es ]
