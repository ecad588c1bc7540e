-- ===== src/NameServer/Tests/Reports.antt =====
-- LIST, EXEC, SEARCH and the dispatch of nameserver.c on the run of the tests.
use name_file_system_docs.Base.{
  ◌+◌, ◌≤◌, ◌<◌, ◌≡◌, refl, true, false, ◌||◌, none, some, [], ◌∷◌, ◌++◌, arith,
}
use name_file_system_docs.Base.Tests.{if◌then◌else◌}
use name_file_system_docs.Base.Lists.{length, All}
use name_file_system_docs.Base.Strings.{CString, same, copy_str}
use name_file_system_docs.Acl.{acl_check_read, acl_hash_size, has_access}
use name_file_system_docs.Acl.Report.{acl_get_all_users, add_each, add_entries, add_new}
use name_file_system_docs.Acl.Saved.{codes, decimal}
use name_file_system_docs.Acl.Users.{is_in_list}
use name_file_system_docs.NameServer.{ack, max_concurrent_clients}
use name_file_system_docs.NameServer.Files.{no_reply}
use name_file_system_docs.NameServer.Folders.{Shell, execute, fetched, handle_exec_request, silent}
use name_file_system_docs.NameServer.Listing.{
  add_clients, all_users, handle_list_request, unanswered,
}
use name_file_system_docs.Protocol.{err_success, max_content_len}
use name_file_system_docs.NameServer.Tests.{
  computing, doc, alice, bob, about, working, working-IsValid,
}
use name_file_system_docs.NameServer.Dispatch.{Outside}
use name_file_system_docs.NameServer.Reports.{
  all_users-named_by, exec-fits, exec_guarded, is_connected, lines_of, list_header,
}
use name_file_system_docs.Table.Walk.{any}
use name_file_system_docs.Table.Chain.{entries_from}

-- `echo hi` succeeds and prints a line.
abbrev echo : CString
echo = codes "echo hi"

abbrev popen : Shell
popen command = if same command echo then some (codes "hi" ∷ [], some 0) else none

abbrev pub out : Outside
out = record {
  forward = no_reply;
  reached = false;
  now = 9;
  metadata = λ f. unanswered;
  content = fetched echo;
  popen = popen;
  answers = λ i. silent;
}

ran : (handle_exec_request working (about alice bob) (fetched echo) popen).0.command ≡ some echo
unfolding computing handle_exec_request execute
ran = refl

no_clients : All (λ c. length c.username ≤ 63) working.clients
unfolding computing
no_clients = tt

few_known : length (acl_get_all_users working.acl max_concurrent_clients) < max_concurrent_clients
unfolding computing acl_get_all_users add_entries add_each add_new entries_from
few_known = omega arith

few_listed : length (all_users working) < 200
unfolding computing all_users add_clients acl_get_all_users add_entries add_each add_new
    entries_from
few_listed = omega arith

exec_guarded_example :
    (acl_check_read working.acl doc alice ≡ true)
    × (text : CString) × (fetched echo ≡ fetched text)
    × (echo ≡ copy_str max_content_len text)
exec_guarded_example = exec_guarded working (about alice bob) (fetched echo) popen echo ran

exec-fits_example :
    length (handle_exec_request working (about alice bob) (fetched echo) popen).0.content ≤ 4095
exec-fits_example = exec-fits working (about alice bob) (fetched echo) popen

short_list : length (list_header working) + length (lines_of (all_users working)) ≤ 3996
unfolding computing all_users add_clients acl_get_all_users add_entries add_each add_new
    entries_from lines_of decimal
short_list = omega arith

all_users-named_by_example :
    (handle_list_request working
      ≡ (ack err_success, list_header working ++ lines_of (all_users working)))
    × (is_in_list (all_users working) alice ≡ (
        any (has_access alice) (entries_from working.acl.buckets 0 acl_hash_size)
        || any (is_connected alice) working.clients))
all_users-named_by_example =
    all_users-named_by working alice working-IsValid.acl no_clients few_known few_listed short_list
