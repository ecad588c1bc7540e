-- ===== src/NameServer.antt =====
-- nameserver/nameserver.c: the state of the name server, its messages and answers, the clients,
-- and the heartbeats. The request handlers are in the modules below. A handler is a function from
-- the state and the message to the answer and the new state; what a storage server does when it is
-- called, and the time, are arguments. The text of an answer is for people and is left out.
pub mod Files
pub mod Sharing
pub mod Listing
pub mod Folders
pub mod Dispatch
pub mod Searches
pub mod Serving
pub mod Wire
pub mod Codes
pub mod Reports
pub mod Cases
pub mod Events
pub mod Valid
pub mod Handlers
pub mod Invariant
pub mod Deletion
pub mod Creation
pub mod Ownership
pub mod Authority
pub mod Persistence
pub mod Monitor
pub mod Tests
use name_file_system_docs.Base.{
  ℕ, ◌-◌, Bool, true, false, ◌&&◌, ◌||◌, none, some, List, [], ◌∷◌, ◌++◌,
}
use name_file_system_docs.Base.Tests.{ltb, leb, ◌==◌, if◌then◌else◌}
use name_file_system_docs.Base.Lists.{length, get_elem?, set}
use name_file_system_docs.Base.Strings.{CString, same, copy_str}
use name_file_system_docs.Protocol.{
  max_username_len, err_success, err_bad_request, err_not_found, err_server_error,
}
use name_file_system_docs.Acl.{AclTable, acl_init}
use name_file_system_docs.Requests.{RequestTable, request_table_init}
use name_file_system_docs.Registry.FileMap.{init_files}
use name_file_system_docs.Registry.Routing.{StorageServer, Routes, find_server, max_ip_len}

-- The fields of a message that the handlers read.
pub record Message : Type 0 where
  pub sender_id : CString
  pub target_user : CString
  pub filename : CString
  pub content : CString
  pub access_type : ℕ
  pub ip_address : CString
  pub nm_port : ℕ
  pub client_port : ℕ

-- OP_ACK with a code; OP_ROUTE_INFO with an address; or the storage server's answer, passed on.
pub data Reply : Type 0 where
  ack : ℕ → Reply
  route_info : CString → ℕ → Reply
  passed_on : ℕ → Reply

pub record ClientInfo : Type 0 where
  pub username : CString
  pub ip : CString
  pub port : ℕ
  pub connected_time : ℕ
  pub is_active : Bool

-- The globals. `acl_data` is the table that the last `acl_save` was called with.
pub record NameServer : Type 0 where
  pub routes : Routes
  pub acl : AclTable
  pub acl_data : AclTable
  pub clients : List ClientInfo
  pub requests : RequestTable

abbrev pub max_concurrent_clients : ℕ
max_concurrent_clients = 100

-- The state at the start, with no saved table to load.
unfoldable pub init_registries : NameServer
init_registries = record {
  routes = record { files = init_files; servers = []; replication_map = []; next_start = 0 };
  acl = acl_init;
  acl_data = acl_init;
  clients = [];
  requests = request_table_init;
}

unfoldable pub contains_invalid_chars : CString → Bool
contains_invalid_chars [] = false
contains_invalid_chars (c ∷ s) = if c == b'|' || c == b',' then true else contains_invalid_chars s

-- The loop of `user_exists`.
unfoldable pub user_exists : List ClientInfo → CString → Bool
user_exists [] user = false
user_exists (c ∷ cs) user = if same c.username user then true else user_exists cs user

unfoldable pub mark_client_disconnected : List ClientInfo → CString → ℕ → List ClientInfo
mark_client_disconnected [] ip port = []
mark_client_disconnected (c ∷ cs) ip port =
    if c.is_active && same c.ip ip && c.port == port
    then record c { is_active = false } ∷ cs
    else c ∷ mark_client_disconnected cs ip port

unfoldable pub handle_client_registration : NameServer → Message → ℕ → Reply × NameServer
handle_client_registration ns msg now =
    if contains_invalid_chars msg.sender_id
    then (ack err_bad_request, ns)
    else if leb max_concurrent_clients (length ns.clients)
    then (ack err_server_error, ns)
    else (
      ack err_success,
      record ns {
        clients =
            ns.clients
            ++ (record {
              username = copy_str max_username_len msg.sender_id;
              ip = copy_str max_ip_len msg.ip_address;
              port = msg.nm_port;
              connected_time = now;
              is_active = true;
            }
                ∷ []);
      },
    )

unfoldable pub handle_heartbeat : NameServer → Message → ℕ → Reply × NameServer
handle_heartbeat ns msg now = elim (find_server ns.routes.servers msg.ip_address msg.nm_port 0) [
  | none ↦ (ack err_not_found, ns)
  | some i ↦ (
    ack err_success,
    record ns {
      routes = record ns.routes {
        servers = elim (get_elem? ns.routes.servers i) [
          | none ↦ ns.routes.servers
          | some s ↦ set ns.routes.servers i (record s { last_heartbeat = now; is_alive = true })
        ];
      };
    },
  )
]

abbrev pub heartbeat_timeout : ℕ
heartbeat_timeout = 15

-- One round of `failure_detection_thread`. Time does not run backwards, so the difference is one
-- of natural numbers; where the clock is set back the source's is negative, and not above the
-- limit either.
unfoldable pub failure_detection : ℕ → List StorageServer → List StorageServer
failure_detection now [] = []
failure_detection now (s ∷ ss) =
    (if s.is_alive && ltb heartbeat_timeout (now - s.last_heartbeat)
      then record s { is_alive = false }
      else s)
    ∷ failure_detection now ss
