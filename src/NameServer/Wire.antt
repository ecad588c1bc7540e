-- ===== src/NameServer/Wire.antt =====
-- The codes that `handle_connection` of nameserver.c dispatches on: which of them change who may read
-- and who may write a file.
use name_file_system_docs.Base.{
  ℕ, ◌≤◌, ◌≡◌, refl, sym, subst, Bool, false, ◌&&◌, ◌||◌, not, Option, none, some, arith,
}
use name_file_system_docs.Base.Tests.{◌==◌, both_branches}
use name_file_system_docs.Base.Lists.{length}
use name_file_system_docs.Base.Strings.{CString, same, same_iff}
use mathlib.Core.Option
use name_file_system_docs.NameServer.Serving.{Suits}
use name_file_system_docs.NameServer.Folders.{
  Fetched, Shell, handle_exec_request, handle_search_request,
}
use name_file_system_docs.NameServer.Listing.{Metadata, handle_info_request, handle_view_request}
use name_file_system_docs.NameServer.Sharing.{
  handle_addaccess_request, handle_approverequest_request, handle_denyrequest_request,
  handle_remaccess_request, handle_requestaccess_request,
}
use name_file_system_docs.Protocol.{access_read}
use name_file_system_docs.Acl.{
  AclTable, acl_check_owner, acl_check_read, acl_check_write, acl_find_entry, acl_is_owner,
  acl_add_user,
}
use name_file_system_docs.Acl.Changes.{add_file_rights, remove_access_rights, remove_file_rights}
use name_file_system_docs.Acl.Rights.{access_order, add_access_rights}
use name_file_system_docs.Acl.Valid.{IsValid}
use name_file_system_docs.Requests.Laws.{is_waiting, answer-approve}
use name_file_system_docs.NameServer.{
  Message, NameServer, Reply, handle_client_registration, handle_heartbeat,
}
use name_file_system_docs.NameServer.Files.{
  Forward, add_owner, created, deleted, handle_create_request, handle_delete_request, route,
}
use name_file_system_docs.NameServer.Cases.{after_create, after_delete, after_route}
use name_file_system_docs.NameServer.Dispatch.{
  on_addaccess, on_approverequest, on_create, on_createfolder, on_delete, on_denyrequest, on_exec,
  on_heartbeat, on_info, on_list, on_move, on_read, on_register_client, on_register_ss,
  on_remaccess, on_requestaccess, on_search, on_stream, on_undo, on_unknown, on_unregister_client,
  on_view, on_viewfolder, on_viewrequests, on_write, worded,
}
use name_file_system_docs.NameServer.Dispatch.{Answer, Operation, Outside, serve}
use name_file_system_docs.NameServer.Events.{Fits}

-- Of two tables: who may read the file only in the second has been given it, who may write it only in
-- the second too, and from one who may read it only in the first it has been taken.
abbrev pub Changes : AclTable → AclTable → CString → CString → Bool → Bool → Bool → Type 0
Changes acl after f user given given_write taken =
    ((acl_check_read after f user && not (acl_check_read acl f user || given)) ≡ false)
    × ((acl_check_write after f user && not (acl_check_write acl f user || given_write)) ≡ false)
    × ((acl_check_read acl f user && not (acl_check_read after f user || taken)) ≡ false)

Changes-same :
    (acl : AclTable) (f user : CString) (given given_write taken : Bool)
    → Changes acl acl f user given given_write taken
Changes-same acl f user given given_write taken = (ground arith, ground arith, ground arith)

unlisted-unread :
    (acl : AclTable) (f user : CString)
    → acl_find_entry acl f ≡ none
    → acl_check_read acl f user ≡ false
unfolding acl_check_read
unlisted-unread acl f user absent = rw (absent, acl_check_read) refl

module _ (ns : NameServer) (msg : Message) (f user : CString) where
  -- What the request does, by the operation that its code stands for.
  abbrev pub Does : Operation → AclTable → Type 0
  Does on_create after =
      let by_creator = same msg.filename f && same msg.sender_id user in
      Changes ns.acl after f user by_creator by_creator false
  Does on_delete after =
      Changes ns.acl after f user false false
        (same msg.filename f && acl_check_write ns.acl f msg.sender_id)
  Does on_addaccess after =
      let by_owner =
        same msg.filename f
        && same msg.target_user user
        && acl_check_owner ns.acl f msg.sender_id in
      Changes ns.acl after f user by_owner (msg.access_type == 2 && by_owner) false
  Does on_remaccess after =
      Changes ns.acl after f user false false
        (same msg.filename f && same msg.target_user user && acl_check_owner ns.acl f msg.sender_id)
  Does on_approverequest after =
      Changes ns.acl after f user
        (same msg.filename f
          && same msg.content user
          && acl_check_owner ns.acl f msg.sender_id
          && is_waiting ns.requests f user msg.sender_id)
        false false
  Does op after = Changes ns.acl after f user false false false

  abbrev pub Kept : AclTable → Type 0
  Kept after = Changes ns.acl after f user false false false

  kept : Kept ns.acl
  kept = Changes-same ns.acl f user false false false

  same_acl-Kept : (after : AclTable) → after ≡ ns.acl → Kept after
  same_acl-Kept after e = subst Kept (sym e) kept

  create-Does :
      (forward : Forward) (reached : Bool) (now : ℕ)
      → Fits msg
      → Does on_create (handle_create_request ns msg forward reached now).1.acl
  unfolding created add_owner
  create-Does forward reached now fits =
      let same_acl = Changes-same ns.acl f user _ _ false in
      after_create (λ u. Does on_create u.acl) ns msg forward reached now same_acl same_acl same_acl
        (λ i new server.
          let rights =
            add_file_rights ns.acl msg.filename msg.sender_id now f user fits.file fits.sender in
          (
            ground (arith, rights),
            ground (arith, rights),
            ground
                (arith, rights, unlisted-unread ns.acl msg.filename user, same_iff msg.filename f),
          ))

  delete-Does :
      (forward : Forward)
      → IsValid ns.acl
      → Does on_delete (handle_delete_request ns msg forward).1.acl
  unfolding deleted
  delete-Does forward v =
      let same_acl = Changes-same ns.acl f user false false _ in
      after_delete (λ u. Does on_delete u.acl) ns msg forward same_acl same_acl
        (λ i p found_on.
          let rights = remove_file_rights ns.acl msg.filename f user v in
          (
            ground (arith, rights),
            ground (arith, rights),
            ground (arith, rights, p, same_iff msg.filename f),
          ))

  route-Kept : (permitted : Bool) → Kept (route ns msg permitted).1.acl
  route-Kept permitted = after_route (λ u. Kept u.acl) ns msg permitted kept

  addaccess-Does : Fits msg → Does on_addaccess (handle_addaccess_request ns msg).1.acl
  unfolding handle_addaccess_request
  addaccess-Does fits =
      let rights =
        add_access_rights ns.acl msg.filename msg.target_user msg.access_type f user fits.target in
      let name = same_iff msg.filename f in
      (ground (arith, rights, name), ground (arith, rights, name), ground (arith, rights, name))

  remaccess-Does : IsValid ns.acl → Does on_remaccess (handle_remaccess_request ns msg).1.acl
  unfolding handle_remaccess_request
  remaccess-Does v =
      let rights = remove_access_rights ns.acl msg.filename msg.target_user f user v in
      let order = access_order ns.acl f user in
      let name = same_iff msg.filename f in
      (
        ground (arith, rights, order),
        ground (arith, rights, order),
        ground (arith, rights, order, name),
      )

  approverequest-Does :
      length msg.content ≤ 63 → Does on_approverequest (handle_approverequest_request ns msg).1.acl
  unfolding handle_approverequest_request acl_add_user acl_is_owner
  approverequest-Does fits =
      let rights = add_access_rights ns.acl msg.filename msg.content access_read f user fits in
      let waits = answer-approve ns.requests msg.filename msg.content msg.sender_id in
      let name = same_iff msg.filename f in
      let requester = same_iff msg.content user in
      (
        ground (arith, rights, waits, name, requester),
        ground (arith, rights),
        ground (arith, rights),
      )

  view-Kept :
      (flags : ℕ) (ask : CString → Metadata) → Kept (handle_view_request ns msg flags ask).1.acl
  unfolding handle_view_request
  view-Kept flags ask =
      both_branches (λ (r : (Reply × CString) × NameServer). Kept r.1.acl) _ _ _ kept kept

  info-Kept : (metadata : Metadata) → Kept (handle_info_request ns msg metadata).1.acl
  unfolding handle_info_request
  info-Kept metadata = same_acl-Kept (handle_info_request ns msg metadata).1.acl (ground arith)

  exec-Kept :
      (content : Fetched) (popen : Shell) → Kept (handle_exec_request ns msg content popen).1.acl
  unfolding handle_exec_request
  exec-Kept content popen =
      same_acl-Kept (handle_exec_request ns msg content popen).1.acl (ground arith)

  -- What is so of the state after the handler, where it returns.
  abbrev pub Done : Operation → Option (Answer × NameServer) → Type 0
  Done op none = Unit
  Done op (some (answer, u)) = Does op u.acl

  searched-Done :
      (r : Option (Reply × CString))
      → Done on_search (Option.map (λ (a : Reply × CString). (worded a.0 a.1, ns)) r)
  searched-Done none = tt
  searched-Done (some a) = kept

  pub serve-Done :
      (op : Operation) (flags : ℕ) (out : Outside)
      → Suits op ns msg
      → IsValid ns.acl
      → Done op (serve op flags ns msg out)
  unfolding serve handle_client_registration handle_heartbeat handle_requestaccess_request
      handle_denyrequest_request
  serve-Done on_register_ss flags out n v = kept
  serve-Done on_register_client flags out n v =
      same_acl-Kept (handle_client_registration ns msg out.now).1.acl (ground arith)
  serve-Done on_unregister_client flags out n v = kept
  serve-Done on_create flags out n v = create-Does out.forward out.reached out.now n.0
  serve-Done on_read flags out n v = route-Kept _
  serve-Done on_delete flags out n v = delete-Does out.forward v
  serve-Done on_write flags out n v = route-Kept _
  serve-Done on_undo flags out n v = route-Kept _
  serve-Done on_addaccess flags out n v = addaccess-Does n
  serve-Done on_remaccess flags out n v = remaccess-Does v
  serve-Done on_list flags out n v = kept
  serve-Done on_view flags out n v = view-Kept flags out.metadata
  serve-Done on_info flags out n v = info-Kept (out.metadata msg.filename)
  serve-Done on_stream flags out n v = route-Kept _
  serve-Done on_exec flags out n v = exec-Kept out.content out.popen
  serve-Done on_createfolder flags out n v = kept
  serve-Done on_move flags out n v = kept
  serve-Done on_viewfolder flags out n v = kept
  serve-Done on_requestaccess flags out n v =
      same_acl-Kept (handle_requestaccess_request ns msg out.now).1.acl (ground arith)
  serve-Done on_viewrequests flags out n v = kept
  serve-Done on_approverequest flags out n v = approverequest-Does n.1
  serve-Done on_denyrequest flags out n v =
      same_acl-Kept (handle_denyrequest_request ns msg).1.acl (ground arith)
  serve-Done on_heartbeat flags out n v =
      same_acl-Kept (handle_heartbeat ns msg out.now).1.acl (ground arith)
  serve-Done on_search flags out n v = searched-Done (handle_search_request ns msg out.answers)
  serve-Done on_unknown flags out n v = kept
