-- ===== src/Client/Rights.antt =====
-- What the commands of client/client.c do to the rights in the table of nameserver/nameserver.c.
use name_file_system_docs.Base.{
  ℕ, ◌≡◌, refl, subst, inl, inr, Bool, true, false, ◌&&◌, ◌||◌, not, Option, none, some, arith,
}
use name_file_system_docs.Base.Tests.{if◌then◌else◌, Bool-cases, both_branches}
use name_file_system_docs.Base.Strings.{CString, same, copy_str}
use name_file_system_docs.Client.{
  Command, Input, command_of, is_empty, parse_input, create_command, delete_command, exit_command,
  addaccess_command, remaccess_command, approverequest_command, unknown_command,
}
use name_file_system_docs.Client.Commands.{
  Request, Step, access_type_of, asks, command_step, grant_step, leaves, prints, typed,
  view_flags_of, view_step,
}
use name_file_system_docs.Acl.{acl_check_owner, acl_check_write}
use name_file_system_docs.Acl.Saved.{codes}
use name_file_system_docs.Acl.Valid.{IsValid}
use name_file_system_docs.Requests.Laws.{is_waiting}
use name_file_system_docs.NameServer.{NameServer}
use name_file_system_docs.NameServer.Dispatch.{Answer, Outside, handle_connection, received}
use name_file_system_docs.NameServer.Serving.{SuitsIncoming}
use name_file_system_docs.NameServer.Wire.{Changes}
use name_file_system_docs.NameServer.Codes.{
  MayChange, may_give, may_give_write, may_take, connection_rights,
}
use name_file_system_docs.Protocol.{max_content_len, max_filename_len, max_username_len}

-- The first command and its arguments may let `w` read `f`: CREATE, ADDACCESS or APPROVEREQUEST.
abbrev pub command_gives : NameServer → CString → Input → CString → CString → Bool
command_gives ns user i f w =
    let sender = copy_str max_username_len user in
    (same i.command (codes "CREATE") && same (copy_str max_filename_len i.arg1) f && same sender w)
    || (same i.command (codes "ADDACCESS")
        && same (copy_str max_filename_len i.arg2) f
        && same (copy_str max_username_len i.arg3) w
        && acl_check_owner ns.acl f sender)
    || (same i.command (codes "APPROVEREQUEST")
        && same (copy_str max_filename_len i.arg1) f
        && same (copy_str max_content_len i.arg2) w
        && acl_check_owner ns.acl f sender
        && is_waiting ns.requests f w sender)

-- They may let `w` write `f`: CREATE, or ADDACCESS with the flag for writing.
abbrev pub command_gives_write : NameServer → CString → Input → CString → CString → Bool
command_gives_write ns user i f w =
    let sender = copy_str max_username_len user in
    (same i.command (codes "CREATE") && same (copy_str max_filename_len i.arg1) f && same sender w)
    || (same i.command (codes "ADDACCESS")
        && (same i.arg1 (codes "-W") || same i.arg1 (codes "-w"))
        && same (copy_str max_filename_len i.arg2) f
        && same (copy_str max_username_len i.arg3) w
        && acl_check_owner ns.acl f sender)

-- They may keep `w` from reading `f`: DELETE or REMACCESS.
abbrev pub command_takes : NameServer → CString → Input → CString → CString → Bool
command_takes ns user i f w =
    let sender = copy_str max_username_len user in
    (same i.command (codes "DELETE")
      && same (copy_str max_filename_len i.arg1) f
      && acl_check_write ns.acl f sender)
    || (same i.command (codes "REMACCESS")
        && same (copy_str max_filename_len i.arg1) f
        && same (copy_str max_username_len i.arg2) w
        && acl_check_owner ns.acl f sender)

module _ (ns : NameServer) (user : CString) (i : Input) (negative : Bool) (f w : CString) where
  -- What the request may change is what the command may change.
  abbrev Within : Step → Type 0
  Within prints = Unit
  Within leaves = Unit
  Within (asks r) =
      ((may_give r.operation ns r.message f w && not (command_gives ns user i f w)) ≡ false)
      × ((may_give_write r.operation ns r.message f w && not (command_gives_write ns user i f w))
          ≡ false)
      × ((may_take r.operation ns r.message f w && not (command_takes ns user i f w)) ≡ false)

  asked : (b : Bool) (request : Step) → Within request → Within (if b then prints else request)
  asked b request h = both_branches Within b prints request tt h

  view_step-Within : (flags : Option ℕ) → Within (view_step user flags)
  unfolding view_step
  view_step-Within none = tt
  view_step-Within (some flags) = (refl, refl, refl)

  grant_step-Within :
      (access_type : Option ℕ)
      → same i.command (codes "ADDACCESS") ≡ true
      → access_type_of i.arg1 ≡ access_type
      → Within (grant_step user i.arg2 i.arg3 access_type)
  unfolding grant_step access_type_of
  grant_step-Within none is flag = tt
  grant_step-Within (some access_type) is flag =
      (ground (arith, is), ground (arith, is, flag), refl)

  abbrev IsTyped : Command → Type 0
  IsTyped c = Within (command_step c user i negative)

  create-Within : same i.command (codes "CREATE") ≡ true → IsTyped create_command
  unfolding command_step
  create-Within is = asked (is_empty i.arg1) _ (ground (arith, is), ground (arith, is), refl)

  delete-Within : same i.command (codes "DELETE") ≡ true → IsTyped delete_command
  unfolding command_step
  delete-Within is = asked (is_empty i.arg1) _ (refl, refl, ground (arith, is))

  addaccess-Within : same i.command (codes "ADDACCESS") ≡ true → IsTyped addaccess_command
  unfolding command_step
  addaccess-Within is =
      asked (is_empty i.arg1 || is_empty i.arg2 || is_empty i.arg3) _
        (grant_step-Within (access_type_of i.arg1) is refl)

  remaccess-Within : same i.command (codes "REMACCESS") ≡ true → IsTyped remaccess_command
  unfolding command_step
  remaccess-Within is =
      asked (is_empty i.arg1 || is_empty i.arg2) _ (refl, refl, ground (arith, is))

  approverequest-Within :
      same i.command (codes "APPROVEREQUEST") ≡ true → IsTyped approverequest_command
  unfolding command_step
  approverequest-Within is =
      asked (is_empty i.arg1 || is_empty i.arg2) _ (ground (arith, is), refl, refl)

  at_word :
      (k : CString) (x y : Command)
      → (same i.command k ≡ true → IsTyped x)
      → IsTyped y
      → IsTyped (if same i.command k then x else y)
  at_word k x y here later = elim (Bool-cases (same i.command k)) [
    | inl is ↦ rw is (here is)
    | inr not_it ↦ rw not_it later
  ]

  command_of-Within : IsTyped (command_of i.command)
  unfolding command_of command_step
  command_of-Within = at_word (codes "CREATE") _ _ create-Within (
      at_word (codes "READ") _ _ (λ is. asked (is_empty i.arg1) _ (refl, refl, refl))
        (at_word (codes "WRITE") _ _
          (λ is. asked (is_empty i.arg1 || is_empty i.arg2) _ (asked negative _ (refl, refl, refl)))
          (at_word (codes "DELETE") _ _ delete-Within (
            at_word (codes "UNDO") _ _ (λ is. asked (is_empty i.arg1) _ (refl, refl, refl))
              (at_word (codes "STREAM") _ _ (λ is. asked (is_empty i.arg1) _ (refl, refl, refl))
                (at_word (codes "EXEC") _ _ (λ is. asked (is_empty i.arg1) _ (refl, refl, refl))
                  (at_word (codes "LIST") _ _ (λ is. (refl, refl, refl))
                    (at_word (codes "VIEW") _ _ (λ is. view_step-Within (view_flags_of i.arg1))
                      (at_word (codes "INFO") _ _
                        (λ is. asked (is_empty i.arg1) _ (refl, refl, refl))
                        (at_word (codes "ADDACCESS") _ _ addaccess-Within (
                          at_word (codes "REMACCESS") _ _ remaccess-Within (
                            at_word (codes "CREATEFOLDER") _ _
                              (λ is. asked (is_empty i.arg1) _ (refl, refl, refl))
                              (at_word (codes "MOVE") _ _
                                (λ is.
                                  asked (is_empty i.arg1 || is_empty i.arg2) _ (refl, refl, refl))
                                (at_word (codes "VIEWFOLDER") _ _
                                  (λ is. asked (is_empty i.arg1) _ (refl, refl, refl))
                                  (at_word (codes "CHECKPOINT") _ _
                                    (λ is.
                                      asked (is_empty i.arg1 || is_empty i.arg2) _
                                        (refl, refl, refl))
                                    (at_word (codes "VIEWCHECKPOINT") _ _
                                      (λ is.
                                        asked (is_empty i.arg1 || is_empty i.arg2) _
                                          (refl, refl, refl))
                                      (at_word (codes "REVERT") _ _
                                        (λ is.
                                          asked (is_empty i.arg1 || is_empty i.arg2) _
                                            (refl, refl, refl))
                                        (at_word (codes "LISTCHECKPOINTS") _ _
                                          (λ is. asked (is_empty i.arg1) _ (refl, refl, refl))
                                          (at_word (codes "REQUESTACCESS") _ _
                                            (λ is. asked (is_empty i.arg1) _ (refl, refl, refl))
                                            (at_word (codes "VIEWREQUESTS") _ _
                                              (λ is. asked (is_empty i.arg1) _ (refl, refl, refl))
                                              (at_word (codes "APPROVEREQUEST") _ _
                                                approverequest-Within
                                                (at_word (codes "DENYREQUEST") _ _
                                                  (λ is.
                                                    asked (is_empty i.arg1 || is_empty i.arg2) _
                                                      (refl, refl, refl))
                                                  (at_word (codes "SEARCH") _ _
                                                    (λ is.
                                                      asked (is_empty i.arg1) _ (refl, refl, refl))
                                                    (at_word (codes "HELP") _ _ (λ is. tt)
                                                      (both_branches IsTyped _ exit_command
                                                        unknown_command tt
                                                        tt)))))))))))))))))))))))))

  typed-Within : (line : CString) → parse_input line ≡ some i → Within (typed user line negative)
  unfolding typed
  typed-Within line parsed = rw (parsed, typed) (asked (is_empty i.command) _ command_of-Within)

  asked_for :
      (s : Step) (r : Request) (u : NameServer)
      → Within s
      → s ≡ asks r
      → MayChange r.operation ns r.message u.acl f w
      → Changes ns.acl u.acl f w
          (command_gives ns user i f w)
          (command_gives_write ns user i f w)
          (command_takes ns user i f w)
  asked_for prints r u h e m = absurd (ground arith)
  asked_for leaves r u h e m = absurd (ground arith)
  asked_for (asks q) r u h e m =
      let same_request : q ≡ r = ground arith in
      let (gives, writes, takes) = subst (λ (x : Request). Within (asks x)) same_request h in
      (ground (arith, m.0, gives), ground (arith, m.1, writes), ground (arith, m.2, takes))

-- Which commands change rights. A line is typed, the client's request for it reaches the name server,
-- and the name server serves it. Then a user `w` who can read a file could read it before, or the line
-- is a CREATE of the file and `w` typed it, or an ADDACCESS of the file for `w` by its owner, or the
-- owner's APPROVEREQUEST for `w`, who has asked. One who can write it could before, or the line is such
-- a CREATE, or such an ADDACCESS with the flag -W or -w. And a user who could read it still can, or the
-- line is a DELETE of it by one who may write it, or the owner's REMACCESS for `w`. So no other command
-- changes who can read a file. The table of rights is well formed, names fit, and the servers have room
-- at a CREATE.
pub typed_rights :
    (ns : NameServer) (user line : CString) (i : Input) (negative : Bool) (r : Request)
    (out : Outside) (answer : Answer) (u : NameServer) (f w : CString)
    → parse_input line ≡ some i
    → typed user line negative ≡ asks r
    → SuitsIncoming ns (received r.operation r.view_flags r.message)
    → IsValid ns.acl
    → handle_connection ns (received r.operation r.view_flags r.message) out ≡ some (answer, u)
    → Changes ns.acl u.acl f w
        (command_gives ns user i f w)
        (command_gives_write ns user i f w)
        (command_takes ns user i f w)
typed_rights ns user line i negative r out answer u f w parsed asks_r n v served =
    asked_for ns user i negative f w (typed user line negative) r u
      (typed-Within ns user i negative f w line parsed) asks_r
      (connection_rights ns r.operation r.view_flags r.message out answer u f w n v served)
