-- ===== src/NameServer/Sharing.antt =====
-- The handlers of nameserver.c for access: ADDACCESS, REMACCESS, REQUESTACCESS, VIEWREQUESTS,
-- APPROVEREQUEST and DENYREQUEST.
use name_file_system_docs.Base.{ℕ, ◌&&◌, not, none, some, List, [], ◌∷◌}
use name_file_system_docs.Base.Tests.{◌==◌, if◌then◌else◌}
use name_file_system_docs.Base.Strings.{CString, same}
use name_file_system_docs.Protocol.{
  max_username_len, access_read, access_write, err_success, err_bad_request, err_access_denied,
  err_not_found, err_conflict, err_server_error,
}
use name_file_system_docs.Acl.{
  acl_check_owner, acl_is_owner, acl_can_access, acl_get_owner, acl_add_access, acl_add_user,
  acl_remove_access,
}
use name_file_system_docs.Requests.{
  AccessRequest, request_add, request_get_for_owner, request_approve, request_deny,
}
use name_file_system_docs.Registry.FileMap.{hashmap_find}
use name_file_system_docs.NameServer.{
  Message, Reply, ack, NameServer, contains_invalid_chars, user_exists,
}

unfoldable pub handle_addaccess_request : NameServer → Message → Reply × NameServer
handle_addaccess_request ns msg =
    let (ok, acl) = acl_add_access ns.acl msg.filename msg.target_user msg.access_type in
    if contains_invalid_chars msg.target_user
    then (ack err_bad_request, ns)
    else if not (user_exists ns.clients msg.target_user)
    then (ack err_bad_request, ns)
    else if not (acl_check_owner ns.acl msg.filename msg.sender_id)
    then (ack err_access_denied, ns)
    else if not (msg.access_type == access_read) && not (msg.access_type == access_write)
    then (ack err_bad_request, ns)
    else if not ok
    then (ack err_server_error, record ns { acl = acl })
    else (ack err_success, record ns { acl = acl; acl_data = acl })

unfoldable pub handle_remaccess_request : NameServer → Message → Reply × NameServer
handle_remaccess_request ns msg =
    let (ok, acl) = acl_remove_access ns.acl msg.filename msg.target_user in
    if not (acl_check_owner ns.acl msg.filename msg.sender_id)
    then (ack err_access_denied, ns)
    else if not ok
    then (ack err_not_found, record ns { acl = acl })
    else (ack err_success, record ns { acl = acl; acl_data = acl })

-- The buffer `owner` has MAX_USERNAME_LEN bytes.
unfoldable pub handle_requestaccess_request : NameServer → Message → ℕ → Reply × NameServer
handle_requestaccess_request ns msg now =
    elim (hashmap_find ns.routes.files.file_map msg.filename) [
      | none ↦ (ack err_not_found, ns)
      | some i ↦
          if acl_can_access ns.acl msg.filename msg.sender_id
          then (ack err_conflict, ns)
          else elim (acl_get_owner ns.acl msg.filename max_username_len) [
            | none ↦ (ack err_not_found, ns)
            | some owner ↦
                let (code, requests) =
                  request_add ns.requests msg.filename msg.sender_id owner access_read now in
                (
                  ack (if code == err_success then err_success else err_server_error),
                  record ns { requests = requests },
                )
          ]
    ]

-- The requests that the answer's text lists, each with its requester and its file.
unfoldable pub listed_for_file : CString → List AccessRequest → List CString
listed_for_file f [] = []
listed_for_file f (r ∷ rs) =
    if same r.filename f then r.requester ∷ listed_for_file f rs else listed_for_file f rs

-- It changes nothing; the list is what the answer's text is made of, up to the room in it.
unfoldable pub handle_viewrequests_request : NameServer → Message → Reply × List CString
handle_viewrequests_request ns msg =
    if not (acl_is_owner ns.acl msg.filename msg.sender_id) then (ack err_access_denied, []) else (
      ack err_success,
      listed_for_file msg.filename (request_get_for_owner ns.requests msg.sender_id 100),
    )

-- The requester stands in the message's `content`.
unfoldable pub handle_approverequest_request : NameServer → Message → Reply × NameServer
handle_approverequest_request ns msg =
    let (code, requests) = request_approve ns.requests msg.filename msg.content msg.sender_id in
    let (ok, acl) = acl_add_user ns.acl msg.filename msg.content in
    if not (acl_is_owner ns.acl msg.filename msg.sender_id)
    then (ack err_access_denied, ns)
    else if code == err_success
    then (
      ack (if ok then err_success else err_server_error),
      record ns { requests = requests; acl = acl },
    )
    else (ack err_not_found, record ns { requests = requests })

unfoldable pub handle_denyrequest_request : NameServer → Message → Reply × NameServer
handle_denyrequest_request ns msg =
    let (code, requests) = request_deny ns.requests msg.filename msg.content msg.sender_id in
    if not (acl_is_owner ns.acl msg.filename msg.sender_id) then (ack err_access_denied, ns) else (
      ack (if code == err_success then err_success else err_not_found),
      record ns { requests = requests },
    )
