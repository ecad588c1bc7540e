-- ===== src/NameServer/Files.antt =====
-- The handlers of nameserver.c for files: CREATE and DELETE, which a storage server carries out,
-- and READ, WRITE, UNDO and STREAM, which send the client to one.
use name_file_system_docs.Base.{ℕ, Bool, ◌||◌, not, none, some, List, [], ◌∷◌}
use name_file_system_docs.Base.Tests.{ltb, ◌==◌, if◌then◌else◌}
use name_file_system_docs.Base.Lists.{length, get_elem?, set}
use name_file_system_docs.Base.Strings.{CString, same, copy_str}
use name_file_system_docs.Protocol.{
  err_success, err_created, err_bad_request, err_access_denied, err_not_found, err_conflict,
  err_server_error, err_ss_unavailable,
}
use name_file_system_docs.Acl.{acl_add_file, acl_remove_file, acl_check_read, acl_check_write}
use name_file_system_docs.Registry.FileMap.{hashmap_remove}
use name_file_system_docs.Registry.Routing.{
  StorageServer, Routes, max_ip_len, find_ss_for_file, file_exists, find_available_ss,
  add_replication_entry, add_file_to_ss,
}
use name_file_system_docs.NameServer.{
  Message, Reply, ack, route_info, passed_on, NameServer, contains_invalid_chars,
}

-- How the call of a storage server goes: no socket, no connection, the message is not sent, no
-- answer comes, or an answer with this code.
pub data Forward : Type 0 where
  no_socket : Forward
  no_connection : Forward
  not_sent : Forward
  no_reply : Forward
  replied : ℕ → Forward

-- `acl_add_file`, and `acl_save` if it succeeds.
unfoldable pub add_owner : NameServer → Message → ℕ → NameServer
add_owner ns msg now =
    let (ok, acl) = acl_add_file ns.acl msg.filename msg.sender_id now in
    if ok then record ns { acl = acl; acl_data = acl } else ns

-- The replica `j` is entered; if its server can be reached, so is the file, on that server.
abbrev pub replicated : Routes → CString → ℕ → ℕ → Bool → Routes
replicated r f i j reached =
    let u = record r { replication_map = add_replication_entry r.replication_map f i (some j) } in
    if reached then add_file_to_ss u j f else u

-- `reached` says that a socket to the replica's server was created and connected.
unfoldable pub replicate : Routes → CString → ℕ → Bool → Routes
replicate r f i reached =
    let u = (find_available_ss r).1 in
    if ltb 1 (length r.servers)
    then elim (find_available_ss r).0 [
      | none ↦ u
      | some j ↦ if not (j == i) then replicated u f i j reached else u
    ]
    else r

-- What a CREATE that the storage server `i` has carried out changes.
unfoldable pub created : NameServer → Message → ℕ → Bool → ℕ → NameServer
unfolding add_owner
created ns msg i reached now =
    let placed = record ns { routes = add_file_to_ss ns.routes i msg.filename } in
    let owned = add_owner placed msg now in
    record owned { routes = replicate owned.routes msg.filename i reached }

-- The rest of the handler once the server `i` is chosen: the forwarding, and the answer to it.
unfoldable pub forward_create : NameServer → Message → ℕ → Bool → ℕ → Forward → Reply × NameServer
forward_create ns msg i reached now no_socket = (ack err_server_error, ns)
forward_create ns msg i reached now no_connection = (ack err_ss_unavailable, ns)
forward_create ns msg i reached now not_sent = (ack err_server_error, ns)
forward_create ns msg i reached now no_reply = (ack err_server_error, ns)
forward_create ns msg i reached now (replied code) = (
  passed_on code,
  if code == err_success || code == err_created then created ns msg i reached now else ns,
)

unfoldable pub handle_create_request :
    NameServer → Message → Forward → Bool → ℕ → Reply × NameServer
handle_create_request ns msg forward reached now =
    let checked = record ns { routes = (file_exists ns.routes msg.filename).1 } in
    let chosen = record ns { routes = (find_available_ss checked.routes).1 } in
    if contains_invalid_chars msg.filename
    then (ack err_bad_request, ns)
    else if (file_exists ns.routes msg.filename).0
    then (ack err_conflict, checked)
    else elim (find_available_ss checked.routes).0 [
      | none ↦ (ack err_ss_unavailable, chosen)
      | some i ↦ forward_create chosen msg i reached now forward
    ]

-- The address that the client is sent to; the array is zeroed beyond the servers.
abbrev pub client_address : List StorageServer → ℕ → Reply
client_address servers i = elim (get_elem? servers i) [
  | none ↦ route_info [] 0
  | some s ↦ route_info (copy_str max_ip_len s.ip) s.client_port
]

-- READ, WRITE, UNDO and STREAM are written out four times in the source, with the same steps: the
-- server is searched, the permission is tested, and the client gets the server's address.
unfoldable pub route : NameServer → Message → Bool → Reply × NameServer
route ns msg permitted =
    let searched = record ns { routes = (find_ss_for_file ns.routes msg.filename).1 } in
    elim (find_ss_for_file ns.routes msg.filename).0 [
      | none ↦ (ack err_not_found, searched)
      | some i ↦ (
        if not permitted then ack err_access_denied else client_address ns.routes.servers i,
        searched,
      )
    ]

abbrev pub handle_read_request : NameServer → Message → Reply × NameServer
handle_read_request ns msg = route ns msg (acl_check_read ns.acl msg.filename msg.sender_id)

abbrev pub handle_write_request : NameServer → Message → Reply × NameServer
handle_write_request ns msg = route ns msg (acl_check_write ns.acl msg.filename msg.sender_id)

abbrev pub handle_undo_request : NameServer → Message → Reply × NameServer
handle_undo_request ns msg = route ns msg (acl_check_write ns.acl msg.filename msg.sender_id)

abbrev pub handle_stream_request : NameServer → Message → Reply × NameServer
handle_stream_request ns msg = route ns msg (acl_check_read ns.acl msg.filename msg.sender_id)

-- The first entry with that name is taken out of the server's list.
unfoldable pub drop_file : List CString → CString → List CString
drop_file [] f = []
drop_file (g ∷ gs) f = if same g f then gs else g ∷ drop_file gs f

abbrev pub drop_from_ss : List StorageServer → ℕ → CString → List StorageServer
drop_from_ss servers i f = elim (get_elem? servers i) [
  | none ↦ servers
  | some s ↦ set servers i (record s { files = drop_file s.files f })
]

-- What a DELETE that the storage server `i` has carried out changes.
unfoldable pub deleted : NameServer → CString → ℕ → NameServer
deleted ns f i =
    let (ok, acl) = acl_remove_file ns.acl f in
    record ns {
      routes = record ns.routes {
        files = hashmap_remove ns.routes.files f;
        servers = drop_from_ss ns.routes.servers i f;
      };
      acl = acl;
      acl_data = if ok then acl else ns.acl_data;
    }

-- The rest of the handler once the server `i` is found.
unfoldable pub forward_delete : NameServer → Message → ℕ → Forward → Reply × NameServer
forward_delete ns msg i no_socket = (ack err_server_error, ns)
forward_delete ns msg i no_connection = (ack err_server_error, ns)
forward_delete ns msg i not_sent = (ack err_server_error, ns)
forward_delete ns msg i no_reply = (ack err_server_error, ns)
forward_delete ns msg i (replied code) =
    (passed_on code, if code == err_success then deleted ns msg.filename i else ns)

unfoldable pub handle_delete_request : NameServer → Message → Forward → Reply × NameServer
handle_delete_request ns msg forward =
    let searched = record ns { routes = (find_ss_for_file ns.routes msg.filename).1 } in
    if not (acl_check_write ns.acl msg.filename msg.sender_id)
    then (ack err_access_denied, ns)
    else elim (find_ss_for_file ns.routes msg.filename).0 [
      | none ↦ (ack err_not_found, searched)
      | some i ↦ forward_delete searched msg i forward
    ]
