-- ===== src/NameServer/Tests/Files.antt =====
-- The theorems about the files' handlers of nameserver.c, on the run of the tests.
use name_file_system_docs.Base.{◌≡◌, refl, true, false, ◌&&◌, not, none, some, List, [], ◌∷◌, arith}
use name_file_system_docs.Base.Tests.{if◌then◌else◌}
use name_file_system_docs.Base.Strings.{same}
use name_file_system_docs.Protocol.{err_success, err_created}
use name_file_system_docs.Acl.{acl_check_read, acl_check_write}
use name_file_system_docs.Registry.FileMap.{hashmap_find}
use name_file_system_docs.Registry.Routing.{
  find_replica_ss, StorageServer, Routes, find_ss_for_file, find_available_ss, add_file_to_ss,
}
use name_file_system_docs.Registry.Lookup.{IsCoherent}
use name_file_system_docs.Registry.Coherence.{room_at, available-IsCoherent, add_file-IsCoherent}
use name_file_system_docs.NameServer.{passed_on}
use name_file_system_docs.NameServer.Files.{
  replied, replicate, client_address, handle_create_request, handle_delete_request,
  handle_read_request, handle_write_request, handle_undo_request, handle_stream_request,
}
use name_file_system_docs.NameServer.Deletion.{IsAnswer, routing_sound, delete_forgets}
use name_file_system_docs.NameServer.Creation.{replica_lost}
use name_file_system_docs.NameServer.Ownership.{create_read}
use name_file_system_docs.NameServer.Tests.{
  computing, doc, alice, bob, about, up, working, fits, up-IsValid, working-IsValid,
}

routing_sound_example :
    let msg = about bob alice in
    let may_read = acl_check_read working.acl doc bob in
    let may_write = acl_check_write working.acl doc bob in
    IsAnswer working doc may_read (handle_read_request working msg).0
    × IsAnswer working doc may_read (handle_stream_request working msg).0
    × IsAnswer working doc may_write (handle_write_request working msg).0
    × IsAnswer working doc may_write (handle_undo_request working msg).0
routing_sound_example = routing_sound working (about bob alice) (omega arith) working-IsValid

may_delete : acl_check_write working.acl doc alice ≡ true
unfolding computing
may_delete = refl

doc_on_first : (find_ss_for_file working.routes doc).0 ≡ some 0
unfolding computing
doc_on_first = refl

delete_forgets_example :
    let (reply, u) = handle_delete_request working (about alice bob) (replied err_success) in
    (reply ≡ passed_on err_success)
    × ((find_ss_for_file u.routes doc).0 ≡ none)
    × (acl_check_read u.acl doc alice
        ≡ (not (same doc doc) && acl_check_read working.acl doc alice))
    × (acl_check_write u.acl doc alice
        ≡ (not (same doc doc) && acl_check_write working.acl doc alice))
    × (hashmap_find u.routes.files.file_map doc
        ≡ (if same doc doc then none else hashmap_find working.routes.files.file_map doc))
delete_forgets_example =
    delete_forgets working (about alice bob) 0 doc alice (omega arith) working-IsValid may_delete
      doc_on_first

create_read_example :
    let (reply, u) = handle_create_request up (about alice bob) (replied err_created) false 7 in
    (reply ≡ passed_on err_created)
    × ((handle_read_request u (about alice bob)).0 ≡ client_address up.routes.servers 0)
    × (acl_check_read u.acl doc bob ≡ same alice bob)
    × (acl_check_write u.acl doc bob ≡ same alice bob)
unfolding computing
create_read_example =
    create_read up (about alice bob) 0 7 bob fits up-IsValid (omega arith, (omega arith, tt)) refl
      refl refl refl

-- `doc` has been placed on the first server; the second is up next.
abbrev placed : Routes
placed = add_file_to_ss (find_available_ss up.routes).1 0 doc

placed-IsCoherent : IsCoherent placed
placed-IsCoherent =
    add_file-IsCoherent (find_available_ss up.routes).1 0 doc (omega arith)
      (available-IsCoherent up.routes up-IsValid.routes)

-- The first server is up, the second down.
abbrev survivors : List StorageServer
survivors =
    record {
      ip = b'1' ∷ [];
      nm_port = 8081;
      client_port = 8082;
      is_alive = true;
      last_heartbeat = 5;
      files = doc ∷ [];
    }
    ∷ []

replica_lost_example :
    let u = replicate placed doc 0 true in
    (hashmap_find u.files.file_map doc ≡ some 1)
    × (find_replica_ss u.replication_map doc ≡ some 1)
    × ((find_ss_for_file (record u { servers = survivors }) doc).0 ≡ none)
unfolding computing
replica_lost_example =
    replica_lost placed doc 0 1 (omega arith) placed-IsCoherent refl survivors
      (λ s e. room_at placed.servers 1 s (omega arith, (omega arith, tt)) e) (omega arith)
      (omega arith) refl refl refl
