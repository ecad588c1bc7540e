-- ===== src/Requests.antt =====
-- nameserver/access_requests.c and .h: the requests for access that wait for a file's owner. The
-- array with its count is a list; `is_pending` marks the requests that are not yet decided.
pub mod Laws
pub mod History
pub mod Tests
use name_file_system_docs.Base.{ℕ, zero, suc, Bool, true, false, ◌&&◌, List, [], ◌∷◌, ◌++◌}
use name_file_system_docs.Base.Tests.{leb, if◌then◌else◌}
use name_file_system_docs.Base.Lists.{length}
use name_file_system_docs.Base.Strings.{CString, same, copy_str}
use name_file_system_docs.Protocol.{
  max_filename_len, max_username_len, err_success, err_conflict, err_not_found, err_server_error,
}

abbrev pub max_requests : ℕ
max_requests = 100

pub record AccessRequest : Type 0 where
  pub filename : CString
  pub requester : CString
  pub owner : CString
  pub request_time : ℕ
  pub access_type : ℕ
  pub is_pending : Bool

abbrev pub RequestTable : Type 0
RequestTable = List AccessRequest

abbrev pub request_table_init : RequestTable
request_table_init = []

abbrev pub is_duplicate : CString → CString → AccessRequest → Bool
is_duplicate f requester r = r.is_pending && same r.filename f && same r.requester requester

unfoldable pub has_duplicate : CString → CString → RequestTable → Bool
has_duplicate f requester [] = false
has_duplicate f requester (r ∷ rs) =
    if is_duplicate f requester r then true else has_duplicate f requester rs

unfoldable pub request_add : RequestTable → CString → CString → CString → ℕ → ℕ → ℕ × RequestTable
request_add t f requester owner access_type now =
    if leb max_requests (length t)
    then (err_server_error, t)
    else if has_duplicate f requester t
    then (err_conflict, t)
    else (
      err_success,
      t
          ++ (record {
            filename = copy_str max_filename_len f;
            requester = copy_str max_username_len requester;
            owner = copy_str max_username_len owner;
            request_time = now;
            access_type = access_type;
            is_pending = true;
          }
              ∷ []),
    )

-- `room` is `max_requests - count` of the caller's array.
unfoldable pub request_get_for_owner : RequestTable → CString → ℕ → List AccessRequest
request_get_for_owner [] owner room = []
request_get_for_owner (r ∷ rs) owner zero = []
request_get_for_owner (r ∷ rs) owner (suc room) =
    let taken = request_get_for_owner rs owner room in
    let skipped = request_get_for_owner rs owner (suc room) in
    if r.is_pending && same r.owner owner then r ∷ taken else skipped

abbrev pub is_asked : CString → CString → CString → AccessRequest → Bool
is_asked f requester owner r =
    r.is_pending && same r.filename f && same r.requester requester && same r.owner owner

-- `request_approve` and `request_deny` differ in what they log.
unfoldable pub request_approve : RequestTable → CString → CString → CString → ℕ × RequestTable
request_approve [] f requester owner = (err_not_found, [])
request_approve (r ∷ rs) f requester owner =
    let (code, rest) = request_approve rs f requester owner in
    if is_asked f requester owner r
    then (err_success, record r { is_pending = false } ∷ rs)
    else (code, r ∷ rest)

unfoldable pub request_deny : RequestTable → CString → CString → CString → ℕ × RequestTable
request_deny [] f requester owner = (err_not_found, [])
request_deny (r ∷ rs) f requester owner =
    let (code, rest) = request_deny rs f requester owner in
    if is_asked f requester owner r
    then (err_success, record r { is_pending = false } ∷ rs)
    else (code, r ∷ rest)
