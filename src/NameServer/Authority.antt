-- ===== src/NameServer/Authority.antt =====
-- Who can give a right, over all the handlers of nameserver.c.
use name_file_system_docs.Base.{ℕ, ◌≡◌, Bool, false, ◌&&◌, ◌||◌, not, arith}
use name_file_system_docs.Base.Strings.{CString, same, same_iff}
use name_file_system_docs.Protocol.{access_read}
use name_file_system_docs.Acl.{
  AclTable, acl_check_read, acl_check_owner, acl_is_owner, acl_add_user,
}
use name_file_system_docs.Acl.Rights.{add_access_rights, access_order}
use name_file_system_docs.Acl.Changes.{remove_access_rights, add_file_rights, remove_file_rights}
use name_file_system_docs.Acl.Valid.{IsValid}
use name_file_system_docs.Requests.Laws.{is_waiting, answer-approve}
use name_file_system_docs.NameServer.{
  Message, NameServer, handle_client_registration, handle_heartbeat,
}
use name_file_system_docs.NameServer.Files.{add_owner, created, deleted}
use name_file_system_docs.NameServer.Cases.{
  chosen, searched, after_create, after_delete, after_route,
}
use name_file_system_docs.NameServer.Sharing.{
  handle_addaccess_request, handle_remaccess_request, handle_requestaccess_request,
  handle_approverequest_request, handle_denyrequest_request,
}
use name_file_system_docs.NameServer.Events.{
  Event, create, delete_file, read_file, write_file, undo_file, stream_file, add_access,
  remove_access, request_access, approve_request, deny_request, register_client, disconnect,
  register_server, heartbeat, check_servers, handle, Fits, HasNames,
}

-- The event is one that may give `user` the right to read `f`: the user creates the file, or its
-- owner grants the user access or approves the user's pending request.
abbrev pub gives : NameServer → CString → CString → Event → Bool
gives ns f user (create msg forward reached now) = same msg.filename f && same msg.sender_id user
gives ns f user (add_access msg) =
    same msg.filename f && same msg.target_user user && acl_check_owner ns.acl f msg.sender_id
gives ns f user (approve_request msg) =
    same msg.filename f
    && same msg.content user
    && acl_check_owner ns.acl f msg.sender_id
    && is_waiting ns.requests f user msg.sender_id
gives ns f user e = false

-- No right appears between two tables but by `given`.
abbrev NoneNew : AclTable → AclTable → CString → CString → Bool → Type 0
NoneNew acl after f user given =
    (acl_check_read after f user && not (acl_check_read acl f user || given)) ≡ false

NoneNew-same : (acl : AclTable) (f user : CString) (given : Bool) → NoneNew acl acl f user given
NoneNew-same acl f user given = ground arith

owner_reads :
    (acl : AclTable) (f user : CString)
    → (acl_check_owner acl f user && not (acl_check_read acl f user)) ≡ false
owner_reads acl f user = ground (arith, access_order acl f user)

created-NoneNew :
    (ns : NameServer) (msg : Message) (i : ℕ) (reached : Bool) (now : ℕ) (f user : CString)
    → Fits msg
    → NoneNew ns.acl
        (created ns msg i reached now).acl
        f
        user
        (same msg.filename f && same msg.sender_id user)
unfolding created add_owner
created-NoneNew ns msg i reached now f user fits =
    ground
      (arith, add_file_rights ns.acl msg.filename msg.sender_id now f user fits.file fits.sender)

deleted-NoneNew :
    (ns : NameServer) (g : CString) (i : ℕ) (f user : CString)
    → IsValid ns.acl
    → NoneNew ns.acl (deleted ns g i).acl f user false
unfolding deleted
deleted-NoneNew ns g i f user v = ground (arith, remove_file_rights ns.acl g f user v)

-- Only the owner gives rights. Whatever the event, a user who can read a file afterwards could
-- read it before, or the event is a CREATE of the file by this user, an ADDACCESS for this user by
-- the file's owner, or the owner's approval of a request of this user that was pending. The names
-- of the event fit their arrays, and the table of rights is well formed.
pub handle-gives :
    (ns : NameServer) (e : Event) (f user : CString)
    → HasNames e
    → IsValid ns.acl
    → (acl_check_read (handle ns e).acl f user
        && not (acl_check_read ns.acl f user || gives ns f user e))
      ≡ false
unfolding handle handle_addaccess_request handle_remaccess_request handle_requestaccess_request
    handle_approverequest_request handle_denyrequest_request handle_client_registration
    handle_heartbeat acl_add_user acl_is_owner
handle-gives ns (create msg forward reached now) f user n v =
    after_create (λ u. NoneNew ns.acl u.acl f user (same msg.filename f && same msg.sender_id user))
      ns msg forward reached now (NoneNew-same ns.acl f user _) (NoneNew-same ns.acl f user _)
      (NoneNew-same ns.acl f user _)
      (λ i new server. created-NoneNew (chosen ns msg.filename) msg i reached now f user n)
handle-gives ns (delete_file msg forward) f user n v =
    after_delete (λ u. NoneNew ns.acl u.acl f user false) ns msg forward
      (NoneNew-same ns.acl f user false) (NoneNew-same ns.acl f user false)
      (λ i p found. deleted-NoneNew (searched ns msg.filename) msg.filename i f user v)
handle-gives ns (read_file msg) f user n v =
    after_route (λ u. NoneNew ns.acl u.acl f user false) ns msg _ (NoneNew-same ns.acl f user false)
handle-gives ns (write_file msg) f user n v =
    after_route (λ u. NoneNew ns.acl u.acl f user false) ns msg _ (NoneNew-same ns.acl f user false)
handle-gives ns (undo_file msg) f user n v =
    after_route (λ u. NoneNew ns.acl u.acl f user false) ns msg _ (NoneNew-same ns.acl f user false)
handle-gives ns (stream_file msg) f user n v =
    after_route (λ u. NoneNew ns.acl u.acl f user false) ns msg _ (NoneNew-same ns.acl f user false)
handle-gives ns (add_access msg) f user n v = ground (
  arith,
  add_access_rights ns.acl msg.filename msg.target_user msg.access_type f user n.target,
  same_iff msg.filename f,
)
handle-gives ns (remove_access msg) f user n v = ground (
  arith,
  remove_access_rights ns.acl msg.filename msg.target_user f user v,
  owner_reads ns.acl f user,
)
handle-gives ns (request_access msg now) f user n v = ground arith
handle-gives ns (approve_request msg) f user n v = ground (
  arith,
  add_access_rights ns.acl msg.filename msg.content access_read f user n.1,
  answer-approve ns.requests msg.filename msg.content msg.sender_id,
  same_iff msg.filename f,
  same_iff msg.content user,
)
handle-gives ns (deny_request msg) f user n v = ground arith
handle-gives ns (register_client msg now) f user n v = ground arith
handle-gives ns (disconnect ip port) f user n v = ground arith
handle-gives ns (register_server msg now) f user n v = ground arith
handle-gives ns (heartbeat msg now) f user n v = ground arith
handle-gives ns (check_servers now) f user n v = ground arith
