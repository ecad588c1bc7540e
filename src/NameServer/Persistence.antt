-- ===== src/NameServer/Persistence.antt =====
-- What nameserver.c writes to the file of access rights: `acl_save` follows every change but one.
use name_file_system_docs.Base.{ℕ, ◌≤◌, ◌≡◌, Bool, true, List, [], ◌∷◌, arith}
use name_file_system_docs.Base.Lists.{length, All}
use name_file_system_docs.Base.Strings.{CString, same_refl}
use name_file_system_docs.Acl.{acl_add_user, acl_check_read}
use name_file_system_docs.Acl.Rights.{add_access_rights}
use name_file_system_docs.Acl.Refused.{
  add_access_refused, remove_access_refused, remove_file_refused,
}
use name_file_system_docs.Protocol.{access_read, err_success}
use name_file_system_docs.NameServer.{
  Message, NameServer, ack, handle_client_registration, handle_heartbeat,
}
use name_file_system_docs.NameServer.Files.{add_owner, created, deleted}
use name_file_system_docs.NameServer.Sharing.{
  handle_addaccess_request, handle_remaccess_request, handle_requestaccess_request,
  handle_approverequest_request, handle_denyrequest_request,
}
use name_file_system_docs.NameServer.Cases.{after_create, after_delete, after_route}
use name_file_system_docs.NameServer.Events.{
  Event, create, delete_file, read_file, write_file, undo_file, stream_file, add_access,
  remove_access, request_access, approve_request, deny_request, register_client, disconnect,
  register_server, heartbeat, check_servers, handle, run,
}

-- The saved table is the current one.
abbrev pub IsSaved : NameServer → Type 0
IsSaved ns = ns.acl_data ≡ ns.acl

-- The event is not an approval.
abbrev pub IsOther : Event → Type 0
IsOther (approve_request msg) = ⊥
IsOther e = Unit

add_owner-IsSaved :
    (ns : NameServer) (msg : Message) (now : ℕ) → IsSaved ns → IsSaved (add_owner ns msg now)
unfolding add_owner
add_owner-IsSaved ns msg now s = ground arith

created-IsSaved :
    (ns : NameServer) (msg : Message) (i : ℕ) (reached : Bool) (now : ℕ)
    → IsSaved ns
    → IsSaved (created ns msg i reached now)
unfolding created
created-IsSaved ns msg i reached now s = add_owner-IsSaved _ msg now s

deleted-IsSaved : (ns : NameServer) (f : CString) (i : ℕ) → IsSaved ns → IsSaved (deleted ns f i)
unfolding deleted
deleted-IsSaved ns f i s = ground (arith, remove_file_refused ns.acl f)

step-IsSaved : (ns : NameServer) (e : Event) → IsOther e → IsSaved ns → IsSaved (handle ns e)
unfolding handle handle_addaccess_request handle_remaccess_request handle_requestaccess_request
    handle_denyrequest_request handle_client_registration handle_heartbeat
step-IsSaved ns (create msg forward reached now) o s =
    after_create IsSaved ns msg forward reached now s s s
      (λ i new server. created-IsSaved _ msg i reached now s)
step-IsSaved ns (delete_file msg forward) o s =
    after_delete IsSaved ns msg forward s s (λ i p found. deleted-IsSaved _ msg.filename i s)
step-IsSaved ns (read_file msg) o s = after_route IsSaved ns msg _ s
step-IsSaved ns (write_file msg) o s = after_route IsSaved ns msg _ s
step-IsSaved ns (undo_file msg) o s = after_route IsSaved ns msg _ s
step-IsSaved ns (stream_file msg) o s = after_route IsSaved ns msg _ s
step-IsSaved ns (add_access msg) o s =
    ground (arith, add_access_refused ns.acl msg.filename msg.target_user msg.access_type)
step-IsSaved ns (remove_access msg) o s =
    ground (arith, remove_access_refused ns.acl msg.filename msg.target_user)
step-IsSaved ns (request_access msg now) o s = ground arith
step-IsSaved ns (approve_request msg) o s = absurd o
step-IsSaved ns (deny_request msg) o s = ground arith
step-IsSaved ns (register_client msg now) o s = ground arith
step-IsSaved ns (disconnect ip port) o s = s
step-IsSaved ns (register_server msg now) o s = s
step-IsSaved ns (heartbeat msg now) o s = ground arith
step-IsSaved ns (check_servers now) o s = s

-- Every history without an approval leaves the saved table of access rights equal to the one in
-- memory, if it was so at the start.
pub run-IsSaved :
    (ns : NameServer) (es : List Event) → All IsOther es → IsSaved ns → IsSaved (run ns es)
unfolding run
run-IsSaved ns [] o s = s
run-IsSaved ns (e ∷ es) o s = run-IsSaved (handle ns e) es o.1 (step-IsSaved ns e o.0 s)

-- An approval that succeeds is not saved. The requester may read the file from then on, but by
-- the saved table, which a restart would load, nothing has changed. The requester's name fits
-- its array.
pub approval_unsaved :
    (ns : NameServer) (msg : Message)
    → length msg.content ≤ 63
    → (handle_approverequest_request ns msg).0 ≡ ack err_success
    → (acl_check_read (handle ns (approve_request msg)).acl msg.filename msg.content ≡ true)
      × ((handle ns (approve_request msg)).acl_data ≡ ns.acl_data)
unfolding handle handle_approverequest_request acl_add_user
approval_unsaved ns msg fits ok =
    let granted =
      add_access_rights ns.acl msg.filename msg.content access_read msg.filename msg.content fits in
    ground (arith, granted, same_refl msg.filename, same_refl msg.content)
