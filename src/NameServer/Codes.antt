-- ===== src/NameServer/Codes.antt =====
-- The codes that `handle_connection` of nameserver.c dispatches on: which of them change who may read
-- and who may write a file.
use name_file_system_docs.Base.{
  ℕ, ◌≡◌, sym, subst, inl, inr, Bool, ◌&&◌, ◌||◌, Option, none, some, arith,
}
use name_file_system_docs.Base.Tests.{◌==◌, if◌then◌else◌, ==_iff, Bool-cases}
use name_file_system_docs.Base.Strings.{CString, same}
use name_file_system_docs.Acl.{AclTable, acl_check_owner, acl_check_write}
use name_file_system_docs.Acl.Valid.{IsValid}
use name_file_system_docs.Requests.Laws.{is_waiting}
use name_file_system_docs.NameServer.{Message, NameServer}
use name_file_system_docs.NameServer.Dispatch.{
  Answer, Operation, Outside, handle_connection, operation_of, received, on_addaccess,
  on_approverequest, on_create, on_delete, on_remaccess,
}
use name_file_system_docs.NameServer.Serving.{SuitsIncoming}
use name_file_system_docs.NameServer.Wire.{Changes, Does, Done, Kept, serve-Done}
use name_file_system_docs.Protocol.{
  op_register_ss, op_register_client, op_unregister_client, op_create, op_read, op_delete, op_write,
  op_undo, op_addaccess, op_remaccess, op_list, op_view, op_info, op_stream, op_exec,
  op_createfolder, op_move, op_viewfolder, op_requestaccess, op_viewrequests, op_approverequest,
  op_denyrequest, op_heartbeat, op_search,
}

-- The code is that of a request by which `user` may come to read `f`: a CREATE of it by this user, an
-- ADDACCESS for this user by the owner, or the owner's approval of this user's pending request.
abbrev pub may_give : ℕ → NameServer → Message → CString → CString → Bool
may_give op ns msg f user =
    (op == 10 && same msg.filename f && same msg.sender_id user)
    || (op == 30
        && same msg.filename f
        && same msg.target_user user
        && acl_check_owner ns.acl f msg.sender_id)
    || (op == 102
        && same msg.filename f
        && same msg.content user
        && acl_check_owner ns.acl f msg.sender_id
        && is_waiting ns.requests f user msg.sender_id)

-- By which `user` may come to write `f`: a CREATE, or an ADDACCESS for writing.
abbrev pub may_give_write : ℕ → NameServer → Message → CString → CString → Bool
may_give_write op ns msg f user =
    (op == 10 && same msg.filename f && same msg.sender_id user)
    || (op == 30
        && msg.access_type == 2
        && same msg.filename f
        && same msg.target_user user
        && acl_check_owner ns.acl f msg.sender_id)

-- By which `user` may cease to read `f`: a DELETE of it by one who may write it, or the owner's
-- REMACCESS of this user.
abbrev pub may_take : ℕ → NameServer → Message → CString → CString → Bool
may_take op ns msg f user =
    (op == 13 && same msg.filename f && acl_check_write ns.acl f msg.sender_id)
    || (op == 31
        && same msg.filename f
        && same msg.target_user user
        && acl_check_owner ns.acl f msg.sender_id)

-- What a request of this code may change.
abbrev pub MayChange : ℕ → NameServer → Message → AclTable → CString → CString → Type 0
MayChange op ns msg after f user =
    Changes ns.acl after f user (may_give op ns msg f user) (may_give_write op ns msg f user)
      (may_take op ns msg f user)

module _ (ns : NameServer) (msg : Message) (f user : CString) where
  -- What a request does by its operation is what it may do by its code.
  abbrev Decoded : ℕ → Operation → Type 0
  Decoded op x = (after : AclTable) → Does ns msg f user x after → MayChange op ns msg after f user

  at_code :
      (op k : ℕ) (x y : Operation)
      → Decoded k x
      → Decoded op y
      → Decoded op (if op == k then x else y)
  at_code op k x y here later = elim (Bool-cases (op == k)) [
    | inl is ↦ rw is (subst (λ (n : ℕ). Decoded n x) (sym ((==_iff op k).0 is)) here)
    | inr not_it ↦ rw not_it later
  ]

  weaker : (op : ℕ) (after : AclTable) → Kept ns msg f user after → MayChange op ns msg after f user
  weaker op after (r, w, l) = (ground (arith, r), ground (arith, w), ground (arith, l))

  create-Decoded : Decoded op_create on_create
  create-Decoded after (r, w, l) = (ground (arith, r), ground (arith, w), ground (arith, l))

  delete-Decoded : Decoded op_delete on_delete
  delete-Decoded after (r, w, l) = (ground (arith, r), ground (arith, w), ground (arith, l))

  addaccess-Decoded : Decoded op_addaccess on_addaccess
  addaccess-Decoded after (r, w, l) = (ground (arith, r), ground (arith, w), ground (arith, l))

  remaccess-Decoded : Decoded op_remaccess on_remaccess
  remaccess-Decoded after (r, w, l) = (ground (arith, r), ground (arith, w), ground (arith, l))

  approverequest-Decoded : Decoded op_approverequest on_approverequest
  approverequest-Decoded after (r, w, l) = (ground (arith, r), ground (arith, w), ground (arith, l))

  operation_of-Decoded : (op : ℕ) → Decoded op (operation_of op)
  unfolding operation_of
  operation_of-Decoded op = at_code op op_register_ss _ _ (weaker op_register_ss) (
      at_code op op_register_client _ _ (weaker op_register_client) (
        at_code op op_unregister_client _ _ (weaker op_unregister_client) (
          at_code op op_create _ _ create-Decoded (
            at_code op op_read _ _ (weaker op_read) (
              at_code op op_delete _ _ delete-Decoded (
                at_code op op_write _ _ (weaker op_write) (
                  at_code op op_undo _ _ (weaker op_undo) (
                    at_code op op_addaccess _ _ addaccess-Decoded (
                      at_code op op_remaccess _ _ remaccess-Decoded (
                        at_code op op_list _ _ (weaker op_list) (
                          at_code op op_view _ _ (weaker op_view) (
                            at_code op op_info _ _ (weaker op_info) (
                              at_code op op_stream _ _ (weaker op_stream) (
                                at_code op op_exec _ _ (weaker op_exec) (
                                  at_code op op_createfolder _ _ (weaker op_createfolder) (
                                    at_code op op_move _ _ (weaker op_move) (
                                      at_code op op_viewfolder _ _ (weaker op_viewfolder) (
                                        at_code op op_requestaccess _ _ (weaker op_requestaccess) (
                                          at_code op op_viewrequests _ _ (weaker op_viewrequests) (
                                            at_code op op_approverequest _ _ approverequest-Decoded
                                              (at_code op op_denyrequest _ _ (weaker op_denyrequest)
                                                (at_code op op_heartbeat _ _ (weaker op_heartbeat) (
                                                  at_code op op_search _ _ (weaker op_search)
                                                    (weaker op))))))))))))))))))))))))

  changes :
      (op flags : ℕ) (out : Outside) (r : Option (Answer × NameServer)) (answer : Answer)
      (u : NameServer)
      → Done ns msg f user (operation_of op) r
      → r ≡ some (answer, u)
      → MayChange op ns msg u.acl f user
  changes op flags out none answer u d e = absurd (ground arith)
  changes op flags out (some (a, w)) answer u d e =
      let same_state : w ≡ u = ground arith in
      subst (λ (x : NameServer). MayChange op ns msg x.acl f user) same_state
        (operation_of-Decoded op w.acl d)

-- Which codes change rights. After a message has been served, a user who can read a file could read it
-- before, or the code was 10 (CREATE) and the message this user's for this file, or 30 (ADDACCESS) for
-- this user from the file's owner, or 102 (APPROVEREQUEST) from the owner for a request of this user
-- that was pending. One who can write it could before, or it was such a 10, or such a 30 of the access
-- type 2. And a user who could read it still can, or the code was 13 (DELETE) for the file from one who
-- may write it, or 31 (REMACCESS) of this user from the owner. So no other code changes who can read a
-- file. The table of rights is well formed, names fit, and servers have room at a CREATE.
pub connection_rights :
    (ns : NameServer) (op flags : ℕ) (msg : Message) (out : Outside) (answer : Answer)
    (u : NameServer) (f user : CString)
    → SuitsIncoming ns (received op flags msg)
    → IsValid ns.acl
    → handle_connection ns (received op flags msg) out ≡ some (answer, u)
    → MayChange op ns msg u.acl f user
unfolding handle_connection
connection_rights ns op flags msg out answer u f user n v served =
    changes ns msg f user op flags out _ answer u
      (serve-Done ns msg f user (operation_of op) flags out n v) served
