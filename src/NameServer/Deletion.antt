-- ===== src/NameServer/Deletion.antt =====
-- DELETE and the routing handlers of nameserver.c: whom they send where, and what is left.
use name_file_system_docs.Base.{
  ℕ, ◌≤◌, ◌≡◌, refl, ap, ◌∙◌, ◌⊎◌, inl, inr, Bool, true, false, ◌&&◌, not, Option, none, some,
  arith,
}
use name_file_system_docs.Base.Tests.{if◌then◌else◌}
use name_file_system_docs.Base.Lists.{length}
use name_file_system_docs.Base.Strings.{CString, same}
use name_file_system_docs.Protocol.{err_success, err_not_found, err_access_denied}
use name_file_system_docs.Acl.{acl_check_read, acl_check_write}
use name_file_system_docs.Acl.Changes.{remove_file_rights}
use name_file_system_docs.Registry.FileMap.{hashmap_find, hashmap_remove_frame}
use name_file_system_docs.Registry.Routing.{Routes, is_alive, find_ss_for_file}
use name_file_system_docs.Registry.Lookup.{
  IsCoherent, Serves, Outcome, has_live_replica, find_ss_for_file-Outcome, find_ss-removed,
}
use name_file_system_docs.Registry.Coherence.{servers-IsCoherent, search-IsSearched}
use name_file_system_docs.NameServer.{Message, Reply, ack, passed_on, NameServer}
use name_file_system_docs.NameServer.Files.{
  replied, deleted, drop_from_ss, forward_delete, handle_delete_request, route, client_address,
  handle_read_request, handle_write_request, handle_undo_request, handle_stream_request,
}
use name_file_system_docs.NameServer.Valid.{IsValid}

-- The answer to a client that wants the file: that it is not found, if it is in no map or nobody
-- who has it is alive; else the address of a server that serves it and is alive, if the client is
-- permitted, and ERR_ACCESS_DENIED if not.
abbrev pub IsAnswer : NameServer → CString → Bool → Reply → Type 0
IsAnswer ns f permitted reply =
    ((reply ≡ ack err_not_found)
      × ((hashmap_find ns.routes.files.file_map f ≡ none)
          ⊎ ((p : ℕ) × (hashmap_find ns.routes.files.file_map f ≡ some p)
              × (is_alive ns.routes.servers p ≡ false)
              × (has_live_replica ns.routes f ≡ false))))
    ⊎ ((i : ℕ) × (is_alive ns.routes.servers i ≡ true)
        × Serves ns.routes f i
        × (reply
            ≡ (if permitted then client_address ns.routes.servers i else ack err_access_denied)))

route-IsAnswer :
    (ns : NameServer) (msg : Message) (permitted : Bool)
    → length msg.filename ≤ 255
    → IsCoherent ns.routes
    → IsAnswer ns msg.filename permitted (route ns msg permitted).0
unfolding route
route-IsAnswer ns msg permitted fits v =
    by_outcome (find_ss_for_file ns.routes msg.filename) refl
      (find_ss_for_file-Outcome ns.routes v msg.filename fits)
  where
    by_outcome :
        (o : Option ℕ × Routes)
        → find_ss_for_file ns.routes msg.filename ≡ o
        → Outcome ns.routes v msg.filename fits o
        → IsAnswer ns msg.filename permitted (route ns msg permitted).0
    by_outcome (none, u) e (why, s) = inl (rw (e, route), why)
    by_outcome (some i, u) e (alive, serves, s) =
        inr (i, alive, serves, rw (e, route) (ground arith))

-- READ and STREAM need the right to read, WRITE and UNDO the right to write; only a client that
-- has it is told a server's address, and the server is alive and has the file by the maps. A
-- client is told ERR_NOT_FOUND only if the file is in no map, or neither its server nor a
-- replica is alive. The state is well formed and the name fits.
pub routing_sound :
    (ns : NameServer) (msg : Message)
    → length msg.filename ≤ 255
    → IsValid ns
    → let may_read = acl_check_read ns.acl msg.filename msg.sender_id in
      let may_write = acl_check_write ns.acl msg.filename msg.sender_id in
      IsAnswer ns msg.filename may_read (handle_read_request ns msg).0
      × IsAnswer ns msg.filename may_read (handle_stream_request ns msg).0
      × IsAnswer ns msg.filename may_write (handle_write_request ns msg).0
      × IsAnswer ns msg.filename may_write (handle_undo_request ns msg).0
routing_sound ns msg fits v = (
  route-IsAnswer ns msg _ fits v.routes,
  route-IsAnswer ns msg _ fits v.routes,
  route-IsAnswer ns msg _ fits v.routes,
  route-IsAnswer ns msg _ fits v.routes,
)

-- A DELETE that the file's server has carried out, by a client who may write the file, removes
-- it: the file is found on no server, nobody may read or write it, and who may read and who may
-- write any other file, and the file map's entry for it, are what they were. The state is well formed and the
-- name fits.
pub delete_forgets :
    (ns : NameServer) (msg : Message) (i : ℕ) (g w : CString)
    → length msg.filename ≤ 255
    → IsValid ns
    → acl_check_write ns.acl msg.filename msg.sender_id ≡ true
    → (find_ss_for_file ns.routes msg.filename).0 ≡ some i
    → let (reply, u) = handle_delete_request ns msg (replied err_success) in
      (reply ≡ passed_on err_success)
      × ((find_ss_for_file u.routes msg.filename).0 ≡ none)
      × (acl_check_read u.acl g w ≡ (not (same msg.filename g) && acl_check_read ns.acl g w))
      × (acl_check_write u.acl g w ≡ (not (same msg.filename g) && acl_check_write ns.acl g w))
      × (hashmap_find u.routes.files.file_map g
          ≡ (if same msg.filename g then none else hashmap_find ns.routes.files.file_map g))
unfolding handle_delete_request forward_delete deleted
delete_forgets ns msg i g w fits v permitted found =
    let after = search-IsSearched ns.routes msg.filename fits v.routes in
    let r : Routes = (find_ss_for_file ns.routes msg.filename).1 in
    let servers = drop_from_ss r.servers i msg.filename in
    let coherent = servers-IsCoherent r servers r.next_start after.coherent in
    rw (permitted, found, handle_delete_request)
      (
        refl,
        find_ss-removed (record r { servers = servers }) msg.filename fits coherent,
        (remove_file_rights ns.acl msg.filename g w v.acl).1,
        (remove_file_rights ns.acl msg.filename g w v.acl).2,
        (hashmap_remove_frame r.files after.coherent.valid msg.filename g).0
            ∙ ap (λ m. if same msg.filename g then none else hashmap_find m g) after.same_map,
      )
