-- ===== src/NameServer/Searches.antt =====
-- The searches for files' servers that the reports of nameserver.c make: they leave the state that
-- READ requests for the files leave, so that a report is a history of NameServer/Events.
use name_file_system_docs.Base.{ℕ, zero, suc, ◌≤◌, ◌≡◌, refl, inl, inr, Bool, List, [], ◌∷◌, arith}
use name_file_system_docs.Base.Tests.{Bool-cases, Option-cases, both_branches}
use name_file_system_docs.Base.Lists.{length, All, length-take}
use name_file_system_docs.Base.Strings.{CString}
use name_file_system_docs.Acl.{
  AclEntry, acl_check_read, acl_get_accessible_files, acl_get_all_files, collect,
}
use name_file_system_docs.NameServer.Events.{Event, Fits, HasNames, handle, read_file, run}
use name_file_system_docs.NameServer.Folders.{Fetched, Shell, handle_exec_request}
use name_file_system_docs.NameServer.Listing.{
  Metadata, handle_info_request, handle_view_request, metadata_rows, shows_all,
}
use name_file_system_docs.Registry.Routing.{Routes, find_ss_for_file, max_files}
use name_file_system_docs.NameServer.Valid.{Admissible, RoomFor}
use name_file_system_docs.NameServer.Cases.{after_route}
use name_file_system_docs.NameServer.{Message, NameServer, Reply}

-- Admissible events that lead from one state to another.
abbrev pub IsHistory : NameServer → NameServer → Type 0
IsHistory ns u = (es : List Event) × Admissible ns es × (run ns es ≡ u)

pub no_event : (ns : NameServer) → IsHistory ns ns
unfolding run
no_event ns = ([], tt, refl)

pub one_event :
    (ns : NameServer) (e : Event) → HasNames e → RoomFor ns e → IsHistory ns (handle ns e)
unfolding run
one_event ns e names room = (e ∷ [], (names, room, tt), refl)

-- A search for a file's server leaves the state that a READ of the file leaves.
abbrev searched : NameServer → CString → NameServer
searched ns f = record ns { routes = (find_ss_for_file ns.routes f).1 }

abbrev named : Message → CString → Message
named msg f = record msg { filename = f }

named-Fits : (msg : Message) (f : CString) → Fits msg → length f ≤ 255 → Fits (named msg f)
named-Fits msg f v k = record { sender = v.sender; target = v.target; file = k }

read-searched :
    (ns : NameServer) (msg : Message) (f : CString)
    → handle ns (read_file (named msg f)) ≡ searched ns f
unfolding handle
read-searched ns msg f = after_route (λ (u : NameServer). u ≡ searched ns f) ns (named msg f) _ refl

then-IsHistory :
    (ns u : NameServer) (msg : Message) (f : CString)
    → Fits msg
    → length f ≤ 255
    → IsHistory (searched ns f) u
    → IsHistory ns u
unfolding run
then-IsHistory ns u msg f v k (es, a, e) =
    let same = read-searched ns msg f in
    (read_file (named msg f) ∷ es, (named-Fits msg f v k, tt, rw same a), rw same e)

search-IsHistory :
    (ns : NameServer) (msg : Message) (f : CString)
    → Fits msg
    → length f ≤ 255
    → IsHistory ns (searched ns f)
search-IsHistory ns msg f v k =
    then-IsHistory ns (searched ns f) msg f v k (no_event (searched ns f))

-- The loop of VIEW searches one file after another.
rows-IsHistory :
    (ask : CString → Metadata) (msg : Message)
    → Fits msg
    → (ns : NameServer) (offset : ℕ) (fs : List CString) → All (λ f. length f ≤ 255) fs
    → IsHistory ns (record ns { routes = (metadata_rows ask ns.routes offset fs).1 })
unfolding metadata_rows
rows-IsHistory ask msg v ns offset [] a = no_event ns
rows-IsHistory ask msg v ns offset (f ∷ fs) a =
    both_branches (λ (r : CString × Routes). IsHistory ns (record ns { routes = r.1 })) _ _ _
      (then-IsHistory ns _ msg f v a.0 (rows-IsHistory ask msg v (searched ns f) _ fs a.1))
      (no_event ns)

collect-All :
    (wanted : AclEntry → Bool) (room : ℕ) (es : List AclEntry)
    → All (λ f. length f ≤ 255) (collect wanted room es)
unfolding collect
collect-All wanted room [] = tt
collect-All wanted zero (e ∷ es) = tt
collect-All wanted (suc room) (e ∷ es) = elim (Bool-cases (wanted e)) [
  | inl hit ↦ rw hit (omega (arith, length-take 255 e.filename), collect-All wanted room es)
  | inr miss ↦ rw miss (collect-All wanted (suc room) es)
]

pub view-IsHistory :
    (ns : NameServer) (msg : Message) (flags : ℕ) (ask : CString → Metadata)
    → Fits msg
    → IsHistory ns (handle_view_request ns msg flags ask).1
unfolding handle_view_request acl_get_all_files acl_get_accessible_files
view-IsHistory ns msg flags ask v =
    both_branches (λ (r : (Reply × CString) × NameServer). IsHistory ns r.1) _ _ _
      (rows-IsHistory ask msg v ns _ _ (
        both_branches (All (λ f. length f ≤ 255)) (shows_all flags) _ _ (collect-All _ max_files _)
          (collect-All _ max_files _)))
      (no_event ns)

pub info-IsHistory :
    (ns : NameServer) (msg : Message) (metadata : Metadata)
    → Fits msg
    → IsHistory ns (handle_info_request ns msg metadata).1
unfolding handle_info_request
info-IsHistory ns msg metadata v =
    let one = search-IsHistory ns msg msg.filename v v.file in
    elim (Bool-cases (acl_check_read ns.acl msg.filename msg.sender_id)) [
      | inr denied ↦ rw (denied, handle_info_request) (no_event ns)
      | inl permitted ↦ elim (Option-cases (find_ss_for_file ns.routes msg.filename).0) [
        | inl none_found ↦ rw (permitted, none_found, handle_info_request) one
        | inr (i, there) ↦ rw (permitted, there, handle_info_request) one
      ]
    ]

pub exec-IsHistory :
    (ns : NameServer) (msg : Message) (content : Fetched) (popen : Shell)
    → Fits msg
    → IsHistory ns (handle_exec_request ns msg content popen).1
unfolding handle_exec_request
exec-IsHistory ns msg content popen v =
    let one = search-IsHistory ns msg msg.filename v v.file in
    elim (Option-cases (find_ss_for_file ns.routes msg.filename).0) [
      | inl none_found ↦ rw (none_found, handle_exec_request) one
      | inr (i, there) ↦ elim (Bool-cases (acl_check_read ns.acl msg.filename msg.sender_id)) [
        | inr denied ↦ rw (there, denied, handle_exec_request) one
        | inl permitted ↦ rw (there, permitted, handle_exec_request) one
      ]
    ]
