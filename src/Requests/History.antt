-- ===== src/Requests/History.antt =====
-- Histories of the table of access requests: what no run of calls can undo.
use name_file_system_docs.Base.{ℕ, ◌≡◌, ap, ◌∙◌, List, [], ◌∷◌, arith}
use name_file_system_docs.Base.Lists.{length}
use name_file_system_docs.Base.Strings.{CString}
use name_file_system_docs.Protocol.{err_server_error}
use name_file_system_docs.Requests.{RequestTable, request_add, request_approve, request_deny}
use name_file_system_docs.Requests.Laws.{deny-approve, length-approve}

-- A call that changes the table.
pub data Call : Type 0 where
  add : CString → CString → CString → ℕ → ℕ → Call
  approve : CString → CString → CString → Call
  deny : CString → CString → CString → Call

unfoldable pub step : RequestTable → Call → RequestTable
step t (add f requester owner access_type now) = (request_add t f requester owner access_type now).1
step t (approve f requester owner) = (request_approve t f requester owner).1
step t (deny f requester owner) = (request_deny t f requester owner).1

unfoldable pub run : RequestTable → List Call → RequestTable
run t [] = t
run t (c ∷ cs) = run (step t c) cs

length-step : (t : RequestTable) (c : Call) → length t ≡ 100 → length (step t c) ≡ 100
unfolding step request_add
length-step t (add f requester owner access_type now) h = ground arith
length-step t (approve f requester owner) h = length-approve t f requester owner ∙ h
length-step t (deny f requester owner) h =
    ap (λ (r : ℕ × RequestTable). length r.1) (deny-approve t f requester owner)
    ∙ (length-approve t f requester owner ∙ h)

-- The table fills up for good. Once it holds a hundred requests, decided or not, every further
-- request is refused with ERR_SERVER_ERROR, whatever is approved and denied in between.
pub request_add_full :
    (t : RequestTable) (cs : List Call) (f requester owner : CString) (access_type now : ℕ)
    → length t ≡ 100
    → request_add (run t cs) f requester owner access_type now ≡ (err_server_error, run t cs)
unfolding run request_add
request_add_full t [] f requester owner access_type now h = ground arith
request_add_full t (c ∷ cs) f requester owner access_type now h =
    request_add_full (step t c) cs f requester owner access_type now (length-step t c h)
