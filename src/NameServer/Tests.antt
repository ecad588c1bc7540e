-- ===== src/NameServer/Tests.antt =====
-- A run of the name server on concrete events, and the theorems about its handlers there.
mod Files
mod Reports
mod Rights
use name_file_system_docs.Base.{
  ℕ, ◌+◌, ◌≡◌, refl, true, false, ◌&&◌, ◌||◌, not, some, List, [], ◌∷◌, arith,
}
use name_file_system_docs.Base.Tests.{◌==◌, if◌then◌else◌}
use name_file_system_docs.Base.Strings.{CString, same, tokens_from, tokens}
use name_file_system_docs.Protocol.{err_success, err_created, err_access_denied, access_read}
use name_file_system_docs.Table.Chain.{find, modify, unlink}
use name_file_system_docs.Acl.{
  acl_hash, acl_init, new_entry, acl_add_file, acl_add_access, acl_remove_access, acl_remove_file,
  acl_check_read, acl_check_write, acl_check_owner, acl_can_access, acl_get_owner, acl_is_owner,
  acl_add_user,
}
use name_file_system_docs.Acl.Users.{is_in_list, add_to_list, remove_from_list}
use name_file_system_docs.Acl.Valid.{init-IsValid}
use name_file_system_docs.Requests.{request_add, request_approve, request_deny, has_duplicate}
use name_file_system_docs.Requests.Laws.{is_waiting}
use name_file_system_docs.Registry.Cache.{empty_cache, lru_get, lru_put, lru_invalidate, drop_tail}
use name_file_system_docs.Registry.FileMap.{
  init_files, init-IsValid as map_init-IsValid, hash_string, hashmap_find, hashmap_add,
  hashmap_remove, map_add, map_remove,
}
use name_file_system_docs.Registry.Routing.{
  StorageServer, Routes, is_alive, find_ss_for_file, find_in_map, fail_over, file_exists,
  find_replica_ss, add_replication_entry, put_replica, first_alive, find_available_ss,
  add_file_to_ss, handle_ss_registration, find_server, add_all, listed_files,
}
use name_file_system_docs.Registry.Lookup.{IsCoherent}
use name_file_system_docs.Registry.Coherence.{room_at, available-IsCoherent, add_file-IsCoherent}
use name_file_system_docs.NameServer.{
  Message, ack, route_info, passed_on, NameServer, init_registries, contains_invalid_chars,
  user_exists, handle_client_registration, handle_heartbeat, failure_detection,
}
use name_file_system_docs.NameServer.Files.{
  replied, add_owner, replicate, created, deleted, drop_file, forward_create, forward_delete, route,
  client_address, handle_create_request, handle_delete_request, handle_read_request,
  handle_write_request, handle_undo_request, handle_stream_request,
}
use name_file_system_docs.NameServer.Sharing.{
  handle_addaccess_request, handle_requestaccess_request, handle_approverequest_request,
}
use name_file_system_docs.NameServer.Events.{
  Event, create, request_access, approve_request, register_server, handle, run, Fits,
}
use name_file_system_docs.NameServer.Valid.{IsValid}
use name_file_system_docs.NameServer.Invariant.{run-IsValid}
use name_file_system_docs.NameServer.Authority.{gives, handle-gives}
use name_file_system_docs.NameServer.Persistence.{IsSaved, run-IsSaved, approval_unsaved}
use name_file_system_docs.NameServer.Monitor.{rounds, all_within, heartbeat_lasts}
use name_file_system_docs.NameServer.Deletion.{IsAnswer, routing_sound, delete_forgets}
use name_file_system_docs.NameServer.Creation.{replica_lost}
use name_file_system_docs.NameServer.Ownership.{create_read}

computing : Unit {0}
unfolding find modify unlink same tokens tokens_from is_in_list add_to_list remove_from_list
    acl_hash acl_init new_entry acl_add_file acl_add_access acl_remove_access acl_remove_file
    acl_check_read acl_check_write acl_check_owner acl_can_access acl_get_owner acl_is_owner
    acl_add_user request_add request_approve request_deny has_duplicate is_waiting empty_cache
    lru_get lru_put lru_invalidate drop_tail init_files hash_string hashmap_find hashmap_add
    hashmap_remove map_add map_remove is_alive find_ss_for_file find_in_map fail_over file_exists
    find_replica_ss add_replication_entry put_replica first_alive find_available_ss add_file_to_ss
    handle_ss_registration find_server add_all listed_files init_registries contains_invalid_chars
    user_exists handle_client_registration handle_heartbeat failure_detection add_owner replicate
    created deleted drop_file forward_create forward_delete route handle_create_request
    handle_delete_request handle_addaccess_request handle_requestaccess_request
    handle_approverequest_request handle run rounds all_within
computing = tt

abbrev doc : CString
doc = b'd' ∷ []

abbrev alice : CString
alice = b'a' ∷ []

abbrev bob : CString
bob = b'b' ∷ []

-- A message about `doc` from a user, that names another in `content` and `target_user`.
abbrev about : CString → CString → Message
about sender other = record {
  sender_id = sender;
  target_user = other;
  filename = doc;
  content = other;
  access_type = access_read;
  ip_address = b'9' ∷ [];
  nm_port = 1;
  client_port = 0;
}

-- The registration of a storage server with no files.
abbrev server : CString → Message
server ip = record {
  sender_id = [];
  target_user = [];
  filename = [];
  content = [];
  access_type = 0;
  ip_address = ip;
  nm_port = 8081;
  client_port = 8082;
}

abbrev opening : List Event
opening = register_server (server (b'1' ∷ [])) 5 ∷ register_server (server (b'2' ∷ [])) 6 ∷ []

abbrev up : NameServer
up = run init_registries opening

abbrev events : List Event
events =
    create (about alice bob) (replied err_created) false 7 ∷ request_access (about bob alice) 8 ∷ []

abbrev working : NameServer
working = run up events

init-IsValid' : IsValid init_registries
unfolding init_registries init_files empty_cache find
init-IsValid' = record {
  routes = record { valid = map_init-IsValid; coherent = λ f. tt };
  acl = init-IsValid;
  requests = record { single = tt; bounded = omega arith };
}

fits : Fits (about alice bob)
fits = record { sender = omega arith; target = omega arith; file = omega arith }

fits' : Fits (about bob alice)
fits' = record { sender = omega arith; target = omega arith; file = omega arith }

up-IsValid : IsValid up
unfolding computing
up-IsValid = run-IsValid init_registries opening (tt, tt, (tt, tt, tt)) init-IsValid'

working-IsValid : IsValid working
unfolding computing
working-IsValid =
    run-IsValid up events (fits, (omega arith, (omega arith, tt)), (fits', tt, tt)) up-IsValid

owned : (handle_read_request working (about alice bob)).0 ≡ route_info (b'1' ∷ []) 8082
unfolding computing
owned = refl

denied : (handle_read_request working (about bob alice)).0 ≡ ack err_access_denied
unfolding computing
denied = refl

waiting : (handle_approverequest_request working (about alice bob)).0 ≡ ack err_success
unfolding computing
waiting = refl

run-IsValid_example : IsValid (run up events)
unfolding computing
run-IsValid_example =
    run-IsValid up events (fits, (omega arith, (omega arith, tt)), (fits', tt, tt)) up-IsValid

handle-gives_example :
    (acl_check_read (handle working (approve_request (about alice bob))).acl doc bob
      && not (
          acl_check_read working.acl doc bob
          || gives working doc bob (approve_request (about alice bob))))
    ≡ false
handle-gives_example =
    handle-gives working (approve_request (about alice bob)) doc bob (fits, omega arith)
      working-IsValid.acl

run-IsSaved_example : IsSaved (run init_registries opening)
unfolding init_registries
run-IsSaved_example = run-IsSaved init_registries opening (tt, (tt, tt)) refl

approval_unsaved_example :
    (acl_check_read (handle working (approve_request (about alice bob))).acl doc bob ≡ true)
    × ((handle working (approve_request (about alice bob))).acl_data ≡ working.acl_data)
approval_unsaved_example = approval_unsaved working (about alice bob) (omega arith) waiting

abbrev times : List ℕ
times = 12 ∷ 25 ∷ []

abbrev beat : Message
beat = record (server (b'2' ∷ [])) { client_port = 0 }

known : find_server working.routes.servers beat.ip_address beat.nm_port 0 ≡ some 1
unfolding computing
known = refl

heartbeat_lasts_example :
    is_alive (rounds times (handle_heartbeat working beat 11).1.routes.servers) 1 ≡ (
      if 1 == 1
      then all_within (11 + 15) times
      else is_alive (rounds times working.routes.servers) 1)
heartbeat_lasts_example = heartbeat_lasts working beat 11 1 1 times known
