-- ===== src/NameServer/Handlers.antt =====
-- Each handler of nameserver.c keeps the invariant of the state.
use name_file_system_docs.Base.{
  ℕ, ◌≤◌, ◌<◌, ◌≡◌, sym, ap, ◌∙◌, subst, inl, inr, Bool, true, ◌&&◌, not, List,
}
use name_file_system_docs.Base.Tests.{leb, ◌==◌, Bool-cases, Option-cases}
use name_file_system_docs.Base.Lists.{length, All}
use name_file_system_docs.Acl.Valid.{IsValid as IsAcl, add_access-IsValid, remove_access-IsValid}
use name_file_system_docs.Acl.{
  acl_check_owner, acl_is_owner, AclTable, acl_add_access, acl_add_user, acl_remove_access,
  acl_get_owner, acl_can_access,
}
use name_file_system_docs.Requests.Laws.{
  IsValid as IsRequests, add-IsValid, approve-IsValid, deny-approve,
}
use name_file_system_docs.Requests.{RequestTable, request_approve, request_deny}
use name_file_system_docs.NameServer.{contains_invalid_chars, user_exists}
use name_file_system_docs.Protocol.{access_write, err_success, access_read, max_username_len}
use name_file_system_docs.Registry.FileMap.{hashmap_find}
use name_file_system_docs.Registry.Routing.{StorageServer, Routes, is_alive, find_server}
use name_file_system_docs.Registry.Placement.{find_available_fair}
use name_file_system_docs.Registry.Coherence.{servers-IsCoherent, available_keeps, HasRoom}
use name_file_system_docs.NameServer.{
  Message, NameServer, handle_client_registration, handle_heartbeat,
}
use name_file_system_docs.NameServer.Files.{Forward, handle_create_request, handle_delete_request}
use name_file_system_docs.NameServer.Sharing.{
  handle_addaccess_request, handle_remaccess_request, handle_requestaccess_request,
  handle_approverequest_request, handle_denyrequest_request,
}
use name_file_system_docs.NameServer.Cases.{checked, chosen, searched, after_create, after_delete}
use name_file_system_docs.NameServer.Events.{Fits}
use name_file_system_docs.NameServer.Valid.{
  IsValid, created-IsValid, deleted-IsValid, searched-IsValid, checked-IsValid, available-IsValid,
  chosen-servers,
}

module _ (ns : NameServer) (v : IsValid ns) (msg : Message) where
  pub create-IsValid :
      (forward : Forward) (reached : Bool) (now : ℕ)
      → Fits msg
      → HasRoom ns.routes
      → IsValid (handle_create_request ns msg forward reached now).1
  create-IsValid forward reached now n room =
      let c = checked-IsValid ns msg.filename n.file v in
      let a = available-IsValid ns msg.filename c in
      let servers = chosen-servers ns msg.filename n.file v in
      after_create IsValid ns msg forward reached now v c a (λ i new found.
        let alive : is_alive (chosen ns msg.filename).routes.servers i ≡ true =
          ap (λ (u : Routes). is_alive u.servers i)
            (available_keeps (checked ns msg.filename).routes)
          ∙ (find_available_fair (checked ns msg.filename).routes i found).0 in
        created-IsValid (chosen ns msg.filename) msg i reached now n alive
          (subst (λ (ss : List StorageServer). All (λ s. length s.files < 1000) ss) (sym servers)
            room)
          a)

  pub delete-IsValid :
      (forward : Forward) → Fits msg → IsValid (handle_delete_request ns msg forward).1
  delete-IsValid forward n =
      let s = searched-IsValid ns msg.filename n.file v in
      after_delete IsValid ns msg forward v s
        (λ i p found. deleted-IsValid (searched ns msg.filename) msg.filename i s)

  -- The table of rights and the requests are replaced.
  with_acl :
      (acl acl_data : AclTable) (requests : RequestTable)
      → IsAcl acl
      → IsRequests requests
      → IsValid (record ns { acl = acl; acl_data = acl_data; requests = requests })
  with_acl acl acl_data requests a r = record { routes = v.routes; acl = a; requests = r }

  pub grant-IsValid : Fits msg → IsValid (handle_addaccess_request ns msg).1
  unfolding handle_addaccess_request
  grant-IsValid n =
      let granted =
        add_access-IsValid ns.acl v.acl msg.filename msg.target_user msg.access_type n.target in
      elim (Bool-cases (contains_invalid_chars msg.target_user)) [
        | inl h ↦ rw h v
        | inr h ↦ rw h (elim (Bool-cases (user_exists ns.clients msg.target_user)) [
          | inr h ↦ rw h v
          | inl h ↦ rw h (elim (Bool-cases (acl_check_owner ns.acl msg.filename msg.sender_id)) [
            | inr h ↦ rw h v
            | inl h ↦
                rw h
                  (elim (Bool-cases (
                    not (msg.access_type == access_read)
                    && not (msg.access_type == access_write))) [
                      | inl h ↦ rw h (v)
                      | inr h ↦
                          rw h
                            (elim (Bool-cases (
                              not
                                (acl_add_access ns.acl msg.filename msg.target_user
                                  msg.access_type).0)) [
                                    | inl h ↦ rw h (with_acl _ _ _ granted v.requests)
                                    | inr h ↦ rw h (with_acl _ _ _ granted v.requests)
                                  ])
                    ])
          ])
        ])
      ]

  pub revoke-IsValid : IsValid (handle_remaccess_request ns msg).1
  unfolding handle_remaccess_request
  revoke-IsValid =
      let revoked = remove_access-IsValid ns.acl v.acl msg.filename msg.target_user in
      elim (Bool-cases (not (acl_check_owner ns.acl msg.filename msg.sender_id))) [
        | inl h ↦ rw h (v)
        | inr h ↦
            rw h
              (elim (Bool-cases (not (acl_remove_access ns.acl msg.filename msg.target_user).0)) [
                | inl h ↦ rw h (with_acl _ _ _ revoked v.requests)
                | inr h ↦ rw h (with_acl _ _ _ revoked v.requests)
              ])
      ]

  pub approval-IsValid : length msg.content ≤ 63 → IsValid (handle_approverequest_request ns msg).1
  unfolding handle_approverequest_request acl_add_user
  approval-IsValid fits =
      let granted = add_access-IsValid ns.acl v.acl msg.filename msg.content access_read fits in
      let decided = approve-IsValid ns.requests msg.filename msg.content msg.sender_id v.requests in
      elim (Bool-cases (not (acl_is_owner ns.acl msg.filename msg.sender_id))) [
        | inl h ↦ rw h (v)
        | inr h ↦
            rw h
              (elim (Bool-cases (
                (request_approve ns.requests msg.filename msg.content msg.sender_id).0
                == err_success)) [
                  | inl h ↦ rw h (with_acl _ _ _ granted decided)
                  | inr h ↦ rw h (with_acl _ _ _ v.acl decided)
                ])
      ]

  pub denial-IsValid : IsValid (handle_denyrequest_request ns msg).1
  unfolding handle_denyrequest_request
  denial-IsValid =
      let decided : IsRequests (request_deny ns.requests msg.filename msg.content msg.sender_id).1 =
        subst (λ (t : ℕ × RequestTable). IsRequests t.1)
          (sym (deny-approve ns.requests msg.filename msg.content msg.sender_id))
          (approve-IsValid ns.requests msg.filename msg.content msg.sender_id v.requests) in
      elim (Bool-cases (not (acl_is_owner ns.acl msg.filename msg.sender_id))) [
        | inl h ↦ rw h (v)
        | inr h ↦ rw h (with_acl _ _ _ v.acl decided)
      ]

  pub ask-IsValid : (now : ℕ) → Fits msg → IsValid (handle_requestaccess_request ns msg now).1
  unfolding handle_requestaccess_request
  ask-IsValid now n = elim (Option-cases (hashmap_find ns.routes.files.file_map msg.filename)) [
    | inl unknown ↦ rw (unknown, handle_requestaccess_request) v
    | inr (i, known) ↦
        rw (known, handle_requestaccess_request)
          (elim (Bool-cases (acl_can_access ns.acl msg.filename msg.sender_id)) [
            | inl may ↦ rw may v
            | inr not_yet ↦
                rw not_yet
                  (elim (Option-cases (acl_get_owner ns.acl msg.filename max_username_len)) [
                    | inl nobody ↦ rw (nobody, handle_requestaccess_request) v
                    | inr (owner, owned) ↦
                        rw (owned, handle_requestaccess_request)
                          (with_acl _ _ _ v.acl (
                            add-IsValid ns.requests msg.filename msg.sender_id owner access_read now
                              n.file n.sender v.requests))
                  ])
          ])
  ]

  pub heartbeat-IsValid : (now : ℕ) → IsValid (handle_heartbeat ns msg now).1
  unfolding handle_heartbeat
  heartbeat-IsValid now =
      elim (Option-cases (find_server ns.routes.servers msg.ip_address msg.nm_port 0)) [
        | inl unknown ↦ rw (unknown, handle_heartbeat) v
        | inr (i, known) ↦ rw (known, handle_heartbeat) (with_servers _)
      ]
    where
      with_servers :
          (servers : List StorageServer)
          → IsValid (record ns { routes = record ns.routes { servers = servers } })
      with_servers servers = record {
        routes = servers-IsCoherent ns.routes servers ns.routes.next_start v.routes;
        acl = v.acl;
        requests = v.requests;
      }

  pub register-IsValid : (now : ℕ) → IsValid (handle_client_registration ns msg now).1
  unfolding handle_client_registration
  register-IsValid now = elim (Bool-cases (contains_invalid_chars msg.sender_id)) [
    | inl h ↦ rw h (v)
    | inr h ↦ rw h (elim (Bool-cases (leb 100 (length ns.clients))) [
      | inl h ↦ rw h (v)
      | inr h ↦ rw h (record { routes = v.routes; acl = v.acl; requests = v.requests })
    ])
  ]
