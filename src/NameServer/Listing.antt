-- ===== src/NameServer/Listing.antt =====
-- The handlers of nameserver.c that report: LIST, VIEW, INFO and EXEC. They change nothing but the
-- cache, in which the search for a file's server leaves its trace.
use name_file_system_docs.Base.{
  ℕ, zero, suc, ◌+◌, ◌-◌, ◌*◌, ◌/◌, ◌%◌, Bool, ◌&&◌, not, Option, none, some, List, [], ◌∷◌, ◌++◌,
  map,
}
use name_file_system_docs.Base.Tests.{ltb, leb, ◌==◌, if◌then◌else◌}
use name_file_system_docs.Base.Lists.{length, get_elem?}
use name_file_system_docs.Base.Strings.{CString, copy_str}
use mathlib.Core.Option
use name_file_system_docs.Acl.{
  acl_check_read, acl_get_accessible_files, acl_get_all_files, acl_get_owner,
}
use name_file_system_docs.Acl.Users.{is_in_list}
use name_file_system_docs.NameServer.{
  ClientInfo, Message, NameServer, Reply, ack, max_concurrent_clients, passed_on,
}
use name_file_system_docs.Parser.Words.{words}
use name_file_system_docs.Protocol.{
  err_access_denied, err_not_found, err_server_error, err_ss_unavailable, err_success,
  max_content_len, max_username_len,
}
use name_file_system_docs.Registry.Routing.{Routes, StorageServer, find_ss_for_file, max_files}
use name_file_system_docs.Acl.Saved.{codes, decimal}
use name_file_system_docs.Acl.Report.{acl_get_all_users, acl_get_access_list}

-- `offset += snprintf(list + offset, size - offset, "  - %s\n", name)` while there are `margin` bytes
-- left; the last line is cut where the buffer ends.
unfoldable pub name_lines : ℕ → List CString → CString
name_lines offset [] = []
name_lines offset (f ∷ fs) =
    let line = codes "  - " ++ (f ++ (10 ∷ [])) in
    let rest = name_lines (offset + length line) fs in
    if ltb offset (max_content_len - 100) then line ++ rest else []

-- A header with a number in it.
abbrev pub counted : CString → ℕ → CString
counted words n = words ++ (codes " (" ++ (decimal 10 n ++ (codes "):" ++ (10 ∷ []))))

abbrev pub with_names : CString → List CString → CString
with_names header names = copy_str max_content_len (header ++ name_lines (length header) names)

-- The connected clients that the list lacks; `is_user_duplicate` is the same walk as `is_in_list`.
unfoldable pub add_clients : List CString → List ClientInfo → List CString
add_clients users [] = users
add_clients users (c ∷ cs) =
    let joined = add_clients (users ++ (copy_str max_username_len c.username ∷ [])) cs in
    let rest = add_clients users cs in
    if leb (max_concurrent_clients * 2) (length users)
    then users
    else if c.is_active && not (is_in_list users c.username)
    then joined
    else rest

unfoldable pub all_users : NameServer → List CString
all_users ns =
    add_clients (map (copy_str max_username_len) (acl_get_all_users ns.acl max_concurrent_clients))
      ns.clients

unfoldable pub handle_list_request : NameServer → Reply × CString
handle_list_request ns = (
  ack err_success,
  with_names (counted (codes "Users in system") (length (all_users ns))) (all_users ns),
)

-- What `sscanf` reads of the metadata, with the times as `strftime` writes them.
pub record Counts : Type 0 where
  pub size : ℕ
  pub word_count : ℕ
  pub char_count : ℕ
  pub created_str : CString
  pub modified_str : CString
  pub accessed_str : CString

-- How the request for the metadata goes: no connection, no answer, or an answer with its code and
-- what is read of it.
pub data Metadata : Type 0 where
  unreachable : Metadata
  unanswered : Metadata
  answered : ℕ → Option Counts → Metadata

abbrev pub view_flag_all : ℕ
view_flag_all = 1

abbrev pub view_flag_long : ℕ
view_flag_long = 2

-- `flags & VIEW_FLAG_ALL` and `flags & VIEW_FLAG_LONG`
abbrev pub shows_all : ℕ → Bool
shows_all flags = flags % 2 == 1

abbrev pub is_long : ℕ → Bool
is_long flags = flags / 2 % 2 == 1

unfoldable pub spaces : ℕ → CString
spaces zero = []
spaces (suc n) = b' ' ∷ spaces n

-- `%-ns`
abbrev pub padded : ℕ → CString → CString
padded n s = s ++ spaces (n - length s)

abbrev pub row : CString → CString → CString → CString → CString → CString
row name size modified words chars =
    padded 30 name
    ++ (b' '
        ∷ (padded 10 size
            ++ (b' '
                ∷ (padded 20 modified
                    ++ (b' ' ∷ (padded 10 words ++ (b' ' ∷ (padded 10 chars ++ (10 ∷ [])))))))))

abbrev pub columns : CString
columns =
    row (codes "Filename") (codes "Size") (codes "Modified") (codes "Words") (codes "Chars")
    ++ (codes "----------------------------------------------------------------------------"
        ++ (10 ∷ []))

-- The line of a file whose server has answered.
abbrev pub metadata_row : CString → Metadata → CString
metadata_row f unreachable = []
metadata_row f unanswered = []
metadata_row f (answered code none) = []
metadata_row f (answered code (some c)) =
    if code == err_success
    then row f (decimal 20 c.size) c.modified_str (decimal 10 c.word_count)
        (decimal 10 c.char_count)
    else []

-- The loop over the files: each is searched, and its server is asked.
unfoldable pub metadata_rows : (CString → Metadata) → Routes → ℕ → List CString → CString × Routes
metadata_rows ask r offset [] = ([], r)
metadata_rows ask r offset (f ∷ fs) =
    let line : CString = elim (find_ss_for_file r f).0 [
      | none ↦ []
      | some i ↦ metadata_row f (ask f)
    ] in
    let (rest, last) = metadata_rows ask (find_ss_for_file r f).1 (offset + length line) fs in
    if ltb offset (max_content_len - 200) then (line ++ rest, last) else ([], r)

abbrev pub viewed : NameServer → CString → ℕ → List CString
viewed ns user flags =
    if shows_all flags
    then acl_get_all_files ns.acl max_files
    else acl_get_accessible_files ns.acl user max_files

unfoldable pub handle_view_request :
    NameServer → Message → ℕ → (CString → Metadata) → (Reply × CString) × NameServer
handle_view_request ns msg flags ask =
    let files = viewed ns msg.sender_id flags in
    let title = if shows_all flags then codes "All files" else codes "Accessible files" in
    let header = counted title (length files) in
    let wide = header ++ columns in
    let (rows, routes) = metadata_rows ask ns.routes (length wide) files in
    if is_long flags
    then ((ack err_success, copy_str max_content_len (wide ++ rows)), record ns { routes = routes })
    else ((ack err_success, with_names header files), ns)

-- What the text of INFO is made of.
pub record Info : Type 0 where
  pub owner : CString
  pub access_list : CString
  pub counts : Counts
  pub ss_index : ℕ
  pub server : Option StorageServer

abbrev pub or_else : Option CString → CString → CString
or_else none s = s
or_else (some t) s = t

-- The rest of the handler once the server `i` is found.
unfoldable pub info_answer : NameServer → Message → ℕ → Metadata → Reply × Option Info
info_answer ns msg i unreachable = (ack err_ss_unavailable, none)
info_answer ns msg i unanswered = (ack err_server_error, none)
info_answer ns msg i (answered code counts) =
    if not (code == err_success) then (passed_on code, none) else (
      passed_on err_success,
      Option.map
          (λ (c : Counts). record {
            owner = or_else (acl_get_owner ns.acl msg.filename max_username_len) (codes "unknown");
            access_list =
                or_else (acl_get_access_list ns.acl msg.filename 512)
                  (codes "No access information");
            counts = c;
            ss_index = i;
            server = get_elem? ns.routes.servers i;
          })
          counts,
    )

unfoldable pub handle_info_request :
    NameServer → Message → Metadata → (Reply × Option Info) × NameServer
handle_info_request ns msg metadata =
    let searched = record ns { routes = (find_ss_for_file ns.routes msg.filename).1 } in
    if not (acl_check_read ns.acl msg.filename msg.sender_id)
    then ((ack err_access_denied, none), ns)
    else elim (find_ss_for_file ns.routes msg.filename).0 [
      | none ↦ ((ack err_not_found, none), searched)
      | some i ↦ (info_answer searched msg i metadata, searched)
    ]
