-- ===== src/NameServer/Reports.antt =====
-- What LIST of nameserver.c names, and what EXEC runs and answers.
use name_file_system_docs.Base.{
  ℕ, ◌+◌, ◌≤◌, ◌<◌, ◌≡◌, refl, ap, ◌∙◌, inl, inr, Bool, true, ◌&&◌, ◌||◌, not, Option, some, List,
  [], ◌∷◌, ◌++◌, map, append_assoc, arith,
}
use name_file_system_docs.Base.Tests.{ltb, leb, Bool-cases, Option-cases}
use name_file_system_docs.Base.Lists.{length, All, length-append, length-take, take_all}
use name_file_system_docs.Base.Strings.{CString, same, same_iff, copy_str}
use name_file_system_docs.Acl.Saved.{codes}
use name_file_system_docs.Registry.Routing.{find_ss_for_file}
use name_file_system_docs.Acl.{acl_check_read, acl_hash_size, has_access}
use name_file_system_docs.Acl.Report.{acl_get_all_users}
use name_file_system_docs.NameServer.{ClientInfo, Message, NameServer, ack, max_concurrent_clients}
use name_file_system_docs.NameServer.Folders.{
  Fetched, Shell, collect_output, exec_answer, execute, fetched, handle_exec_request, is_success,
  no_server, not_read, status_text, text_or,
}
use name_file_system_docs.NameServer.Listing.{
  add_clients, all_users, counted, handle_list_request, name_lines,
}
use name_file_system_docs.Protocol.{err_success, max_content_len, max_username_len}
use name_file_system_docs.Table.Sizes.{total}
use name_file_system_docs.Table.Walk.{any}
use name_file_system_docs.Acl.Valid.{IsValid}
use name_file_system_docs.Acl.Users.{is_in_list, is_in_list-append}
use name_file_system_docs.Acl.Everyone.{all_users-has_access, all_users-named}
use name_file_system_docs.Table.Chain.{entries_from}

-- A connected client with that name.
abbrev pub is_connected : CString → ClientInfo → Bool
is_connected w c = c.is_active && same c.username w

length-add_clients :
    (users : List CString) (cs : List ClientInfo) → length users ≤ length (add_clients users cs)
unfolding add_clients
length-add_clients users [] = omega arith
length-add_clients users (c ∷ cs) = ground (
  arith,
  length-append users (copy_str max_username_len c.username ∷ []),
  length-add_clients (users ++ (copy_str max_username_len c.username ∷ [])) cs,
  length-add_clients users cs,
)

add_clients_lem :
    (users : List CString) (cs : List ClientInfo) (w : CString)
    → All (λ c. length c.username ≤ 63) cs
    → length (add_clients users cs) < 200
    → is_in_list (add_clients users cs) w ≡ (is_in_list users w || any (is_connected w) cs)
unfolding add_clients
add_clients_lem users [] w a room = ground arith
add_clients_lem users (c ∷ cs) w a room = elim (Bool-cases (leb 200 (length users))) [
  | inl at_limit ↦ absurd (ground arith)
  | inr more ↦ elim (Bool-cases (c.is_active && not (is_in_list users c.username))) [
    | inl joins ↦
        let next = users ++ (copy_str max_username_len c.username ∷ []) in
        let fewer : length (add_clients next cs) < 200 = ground (arith, more, joins) in
        rw (more, joins)
          (ground (
            arith,
            add_clients_lem next cs w a.1 fewer,
            is_in_list-append users (copy_str max_username_len c.username) w,
            take_all 63 c.username a.0,
            joins,
          ))
    | inr known ↦
        let fewer : length (add_clients users cs) < 200 = ground (arith, more, known) in
        rw (more, known)
          (ground (arith, add_clients_lem users cs w a.1 fewer, same_iff c.username w, known))
  ]
]

copies : (us : List CString) → All (λ u. length u ≤ 63) us → map (copy_str max_username_len) us ≡ us
copies [] a = refl
copies (u ∷ us) a = rw (take_all 63 u a.0, copies us a.1) refl

-- A line for each name.
unfoldable pub lines_of : List CString → CString
lines_of [] = []
lines_of (f ∷ fs) = codes "  - " ++ (f ++ (10 ∷ lines_of fs))

-- A line and what follows.
length-line :
    (f : CString) (fs : List CString)
    → length (lines_of (f ∷ fs)) ≡ length (codes "  - " ++ (f ++ (10 ∷ []))) + length (lines_of fs)
unfolding lines_of
length-line f fs = omega (arith, length-append f (10 ∷ lines_of fs), length-append f (10 ∷ []))

name_lines_lem :
    (offset : ℕ) (fs : List CString)
    → offset + length (lines_of fs) ≤ 3996
    → name_lines offset fs ≡ lines_of fs
unfolding name_lines lines_of
name_lines_lem offset [] k = refl
name_lines_lem offset (f ∷ fs) k =
    let size = length-line f fs in
    let more : ltb offset 3996 ≡ true = ground (arith, size) in
    rw
      (
        more,
        name_lines_lem (offset + length (codes "  - " ++ (f ++ (10 ∷ [])))) fs
            (omega (arith, k, size)),
      )
      (ap (λ t. codes "  - " ++ t) (append_assoc f (10 ∷ []) (lines_of fs)))

-- The header of LIST.
abbrev pub list_header : NameServer → CString
list_header ns = counted (codes "Users in system") (length (all_users ns))

list_answer :
    (ns : NameServer)
    → length (list_header ns) + length (lines_of (all_users ns)) ≤ 3996
    → handle_list_request ns ≡ (ack err_success, list_header ns ++ lines_of (all_users ns))
unfolding handle_list_request
list_answer ns short =
    let header = list_header ns in
    let users = all_users ns in
    rw (name_lines_lem (length header) users short) (
      ap (λ t. (ack err_success, t))
        (take_all 4095 (header ++ lines_of users)
          (omega (arith, short, length-append header (lines_of users)))))

gathered :
    (ns : NameServer) (w : CString)
    → IsValid ns.acl
    → All (λ c. length c.username ≤ 63) ns.clients
    → length (acl_get_all_users ns.acl max_concurrent_clients) < max_concurrent_clients
    → length (all_users ns) < 200
    → is_in_list (all_users ns) w ≡ (
        any (has_access w) (entries_from ns.acl.buckets 0 acl_hash_size)
        || any (is_connected w) ns.clients)
unfolding all_users
gathered ns w v a few fewer =
    let known = acl_get_all_users ns.acl max_concurrent_clients in
    add_clients_lem (map (copy_str max_username_len) known) ns.clients w a fewer
    ∙ rw
        (
          copies known (all_users-named max_concurrent_clients ns.acl),
          (all_users-has_access ns.acl max_concurrent_clients w v few).1,
        )
        refl

-- LIST answers with a header and a line for each name of a list, and the list names exactly the users
-- that have a right to some file and the connected clients. The table of rights is well formed, the
-- names of clients fit their arrays, the two arrays of names have room, and the header and the lines
-- are at most 3996 bytes.
pub all_users-named_by :
    (ns : NameServer) (w : CString)
    → IsValid ns.acl
    → All (λ c. length c.username ≤ 63) ns.clients
    → length (acl_get_all_users ns.acl max_concurrent_clients) < max_concurrent_clients
    → length (all_users ns) < 200
    → length (list_header ns) + length (lines_of (all_users ns)) ≤ 3996
    → (handle_list_request ns ≡ (ack err_success, list_header ns ++ lines_of (all_users ns)))
      × (is_in_list (all_users ns) w ≡ (
          any (has_access w) (entries_from ns.acl.buckets 0 acl_hash_size)
          || any (is_connected w) ns.clients))
all_users-named_by ns w v a few fewer short = (list_answer ns short, gathered ns w v a few fewer)

execute_lem :
    (content : Fetched) (popen : Shell) (c : CString)
    → (execute content popen).command ≡ some c
    → (text : CString) × (content ≡ fetched text) × (c ≡ copy_str max_content_len text)
unfolding execute
execute_lem no_server popen c h = absurd (ground arith)
execute_lem not_read popen c h = absurd (ground arith)
execute_lem (fetched text) popen c h = elim (Option-cases (popen (copy_str max_content_len text))) [
  | inl no_pipe ↦ (text, refl, ground (arith, no_pipe))
  | inr (out, ran) ↦ (text, refl, ground (arith, ran))
]

-- EXEC runs a command only where its sender may read the file and the content came; and then it runs
-- that content, cut to a buffer.
pub exec_guarded :
    (ns : NameServer) (msg : Message) (content : Fetched) (popen : Shell) (c : CString)
    → (handle_exec_request ns msg content popen).0.command ≡ some c
    → (acl_check_read ns.acl msg.filename msg.sender_id ≡ true)
      × (text : CString) × (content ≡ fetched text)
      × (c ≡ copy_str max_content_len text)
unfolding handle_exec_request
exec_guarded ns msg content popen c h =
    let place = (find_ss_for_file ns.routes msg.filename).0 in
    elim (Option-cases place) [
      | inl nowhere ↦ absurd (ground (arith, nowhere))
      | inr (i, there) ↦ elim (Bool-cases (acl_check_read ns.acl msg.filename msg.sender_id)) [
        | inr denied ↦ absurd (ground (arith, there, denied))
        | inl permitted ↦
            let (text, came, cut) =
              execute_lem content popen c (ground (arith, there, permitted)) in
            (permitted, text, came, cut)
      ]
    ]

collect_output-fits :
    (total : ℕ) (lines : List CString)
    → total ≤ 4094
    → total + length (collect_output total lines) ≤ 4094
unfolding collect_output
collect_output-fits total [] k = omega arith
collect_output-fits total (l ∷ ls) k = elim (Bool-cases (ltb (total + length l) 4095)) [
  | inl more ↦ rw more (
      omega (
        arith,
        length-append l (collect_output (total + length l) ls),
        collect_output-fits (total + length l) ls (ground arith),
      ))
  | inr end ↦ rw end (omega arith)
]

text_or-fits :
    (s other : CString) → length s ≤ 4095 → length other ≤ 4095 → length (text_or s other) ≤ 4095
text_or-fits [] other k l = l
text_or-fits (c ∷ s) other k l = k

exec_answer-fits :
    (output : CString) (exit_status : Option ℕ)
    → length output ≤ 4095
    → length (exec_answer output exit_status).1 ≤ 4095
unfolding exec_answer
exec_answer-fits output exit_status k = elim (Bool-cases (is_success exit_status)) [
  | inl success ↦
      rw success (text_or-fits output (codes "(command produced no output)") k (omega arith))
  | inr failure ↦ rw failure (
      omega (
        arith,
        length-take 4095 (
            codes "Command failed with exit code "
            ++ (status_text exit_status
                ++ (codes ". Output: " ++ text_or output (codes "(none)")))),
      ))
]

execute-fits : (content : Fetched) (popen : Shell) → length (execute content popen).content ≤ 4095
unfolding execute
execute-fits no_server popen = omega arith
execute-fits not_read popen = omega arith
execute-fits (fetched text) popen = elim (Option-cases (popen (copy_str max_content_len text))) [
  | inl no_pipe ↦ rw (no_pipe, execute) (omega arith)
  | inr ((lines, exit_status), ran) ↦
      rw (ran, execute)
        (exec_answer-fits (collect_output 0 lines) exit_status
          (omega (arith, collect_output-fits 0 lines (omega arith))))
]

-- Whatever a command prints, the answer of EXEC fits the content of a message.
pub exec-fits :
    (ns : NameServer) (msg : Message) (content : Fetched) (popen : Shell)
    → length (handle_exec_request ns msg content popen).0.content ≤ 4095
unfolding handle_exec_request
exec-fits ns msg content popen = ground (arith, execute-fits content popen)
