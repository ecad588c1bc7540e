-- ===== src/Requests/Tests.antt =====
-- Runs of the access requests on concrete inputs, and the theorems about them there.
use name_file_system_docs.Base.{ℕ, zero, suc, ◌≡◌, refl, false, [], ◌∷◌, arith}
use name_file_system_docs.Base.Lists.{length}
use name_file_system_docs.Base.Strings.{CString, same}
use name_file_system_docs.Protocol.{err_conflict, err_not_found, err_server_error, access_read}
use name_file_system_docs.Requests.{
  AccessRequest, RequestTable, request_table_init, request_add, request_approve, request_deny,
  request_get_for_owner, has_duplicate,
}
use name_file_system_docs.Requests.Laws.{IsValid, add-IsValid}
use name_file_system_docs.Requests.History.{request_add_full, approve, run}

abbrev doc : CString
doc = b'd' ∷ []

abbrev alice : CString
alice = b'a' ∷ []

abbrev bob : CString
bob = b'b' ∷ []

computing : Unit {0}
unfolding same request_add request_approve request_deny request_get_for_owner has_duplicate
computing = tt

abbrev asked : RequestTable
asked = (request_add request_table_init doc bob alice access_read 3).1

twice : (request_add asked doc bob alice access_read 4).0 ≡ err_conflict
unfolding computing
twice = refl

denied_by_other : (request_deny asked doc bob bob).0 ≡ err_not_found
unfolding computing
denied_by_other = refl

listed : length (request_get_for_owner asked alice 50) ≡ 1
unfolding computing
listed = refl

asked-IsValid : IsValid asked
asked-IsValid =
    add-IsValid request_table_init doc bob alice access_read 3 (omega arith) (omega arith)
      (record { single = tt; bounded = omega arith })

abbrev copies : ℕ → AccessRequest → RequestTable
copies zero r = []
copies (suc n) r = r ∷ copies n r

abbrev decided : AccessRequest
decided = record {
  filename = doc;
  requester = bob;
  owner = alice;
  request_time = 0;
  access_type = access_read;
  is_pending = false;
}

request_add_full_example :
    let t = run (copies 100 decided) (approve doc bob alice ∷ []) in
    request_add t doc bob alice access_read 9 ≡ (err_server_error, t)
request_add_full_example =
    request_add_full (copies 100 decided) (approve doc bob alice ∷ []) doc bob alice access_read 9
      refl
