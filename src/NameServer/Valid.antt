-- ===== src/NameServer/Valid.antt =====
-- The invariant of the name server's whole state, kept by every event of nameserver.c.
use name_file_system_docs.Base.{
  ℕ, ◌≤◌, ◌≡◌, sym, ap, ◌∙◌, subst, inl, inr, Bool, true, false, none, some, List, [], ◌∷◌, arith,
}
use name_file_system_docs.Base.Tests.{ltb, ◌==◌, Bool-cases, Option-cases}
use name_file_system_docs.Base.Lists.{length}
use name_file_system_docs.Base.Strings.{CString}
use name_file_system_docs.Acl.Valid.{IsValid as IsAcl, add_file-IsValid, remove_file-IsValid}
use name_file_system_docs.Acl.{acl_add_file}
use name_file_system_docs.Requests.Laws.{IsValid as IsRequests}
use name_file_system_docs.Registry.Cache.{cached}
use name_file_system_docs.Registry.Routing.{
  Routes, is_alive, file_exists, find_available_ss, add_file_to_ss,
}
use name_file_system_docs.Registry.Coherence.{room_at}
use name_file_system_docs.Registry.Lookup.{IsCoherent}
use name_file_system_docs.Registry.Upkeep.{hashmap_remove-IsCoherent}
use name_file_system_docs.Registry.Coherence.{
  servers-IsCoherent, available_keeps, available-IsCoherent, search-IsSearched, HasRoom,
  add_file-IsCoherent, add_file-IsPlaced, add_replication-IsCoherent,
}
use name_file_system_docs.NameServer.{Message, NameServer}
use name_file_system_docs.NameServer.Files.{add_owner, replicated, replicate, created, deleted}
use name_file_system_docs.NameServer.Cases.{checked, chosen, searched}
use name_file_system_docs.NameServer.Events.{Event, create, handle, Fits, HasNames}

pub record IsValid (ns : NameServer) : Type 0 where
  pub routes : IsCoherent ns.routes
  pub acl : IsAcl ns.acl
  pub requests : IsRequests ns.requests

-- At a CREATE every storage server has room for a file more.
abbrev pub RoomFor : NameServer → Event → Type 0
RoomFor ns (create msg forward reached now) = HasRoom ns.routes
RoomFor ns e = Unit

-- The names of the events fit, and there is room when they happen.
abbrev pub Admissible : NameServer → List Event → Type 0
Admissible ns [] = Unit
Admissible ns (e ∷ es) = HasNames e × RoomFor ns e × Admissible (handle ns e) es

replicated-IsCoherent :
    (r : Routes) (f : CString) (i j : ℕ) (reached : Bool)
    → length f ≤ 255
    → cached r.files.lru_cache f ≡ none
    → IsCoherent r
    → IsCoherent (replicated r f i j reached)
replicated-IsCoherent r f i j true fits unknown v =
    add_file-IsCoherent _ j f fits (add_replication-IsCoherent r i f fits v (some j) unknown)
replicated-IsCoherent r f i j false fits unknown v =
    add_replication-IsCoherent r i f fits v (some j) unknown

pub replicate-IsCoherent :
    (r : Routes) (f : CString) (i : ℕ) (reached : Bool)
    → length f ≤ 255
    → cached r.files.lru_cache f ≡ none
    → IsCoherent r
    → IsCoherent (replicate r f i reached)
unfolding replicate
replicate-IsCoherent r f i reached fits unknown v = elim (Bool-cases (ltb 1 (length r.servers))) [
  | inr alone ↦ rw alone v
  | inl others ↦ rw others (elim (Option-cases (find_available_ss r).0) [
    | inl down ↦ rw (down, replicate) (available-IsCoherent r v)
    | inr (j, found) ↦
        rw (found, replicate)
          (elim (Bool-cases (j == i)) [
            | inl itself ↦ rw itself (available-IsCoherent r v)
            | inr another ↦ rw another (
                replicated-IsCoherent (find_available_ss r).1 f i j reached fits
                  (ap (λ (u : Routes). cached u.files.lru_cache f) (available_keeps r) ∙ unknown)
                  (available-IsCoherent r v))
          ])
  ])
]

add_owner-acl :
    (ns : NameServer) (msg : Message) (now : ℕ)
    → Fits msg
    → IsAcl ns.acl
    → IsAcl (add_owner ns msg now).acl
unfolding add_owner
add_owner-acl ns msg now n v =
    elim (Bool-cases (acl_add_file ns.acl msg.filename msg.sender_id now).0) [
      | inl new ↦ rw new (add_file-IsValid ns.acl v msg.filename msg.sender_id now n.file n.sender)
      | inr known ↦ rw known v
    ]

add_owner_keeps :
    (ns : NameServer) (msg : Message) (now : ℕ)
    → ((add_owner ns msg now).routes ≡ ns.routes) × ((add_owner ns msg now).requests ≡ ns.requests)
unfolding add_owner
add_owner_keeps ns msg now = ground arith

pub created-IsValid :
    (ns : NameServer) (msg : Message) (i : ℕ) (reached : Bool) (now : ℕ)
    → Fits msg
    → is_alive ns.routes.servers i ≡ true
    → HasRoom ns.routes
    → IsValid ns
    → IsValid (created ns msg i reached now)
unfolding created
created-IsValid ns msg i reached now n alive room v =
    let placed : NameServer = record ns { routes = add_file_to_ss ns.routes i msg.filename } in
    let (kept, kept') = add_owner_keeps placed msg now in
    let forgot =
      (add_file-IsPlaced ns.routes i msg.filename n.file v.routes alive
        (λ t. room_at ns.routes.servers i t room)).1 in
    record {
      routes =
          subst (λ (r : Routes). IsCoherent (replicate r msg.filename i reached)) (sym kept)
            (replicate-IsCoherent placed.routes msg.filename i reached n.file forgot
              (add_file-IsCoherent ns.routes i msg.filename n.file v.routes));
      acl = add_owner-acl placed msg now n v.acl;
      requests = subst IsRequests (sym kept') v.requests;
    }

pub deleted-IsValid :
    (ns : NameServer) (f : CString) (i : ℕ) → IsValid ns → IsValid (deleted ns f i)
unfolding deleted
deleted-IsValid ns f i v = record {
  routes =
      servers-IsCoherent _ _ ns.routes.next_start (hashmap_remove-IsCoherent ns.routes v.routes f);
  acl = remove_file-IsValid ns.acl v.acl f;
  requests = v.requests;
}

pub searched-IsValid :
    (ns : NameServer) (f : CString) → length f ≤ 255 → IsValid ns → IsValid (searched ns f)
searched-IsValid ns f fits v = record {
  routes = (search-IsSearched ns.routes f fits v.routes).coherent;
  acl = v.acl;
  requests = v.requests;
}

pub available-IsValid :
    (ns : NameServer) (f : CString) → IsValid (checked ns f) → IsValid (chosen ns f)
available-IsValid ns f v = record {
  routes = available-IsCoherent (checked ns f).routes v.routes;
  acl = v.acl;
  requests = v.requests;
}

pub checked-IsValid :
    (ns : NameServer) (f : CString) → length f ≤ 255 → IsValid ns → IsValid (checked ns f)
unfolding file_exists
checked-IsValid ns f fits v = searched-IsValid ns f fits v

-- The choice of a server keeps the servers, and so does the search.
pub chosen-servers :
    (ns : NameServer) (f : CString)
    → length f ≤ 255
    → IsValid ns
    → (chosen ns f).routes.servers ≡ ns.routes.servers
unfolding file_exists
chosen-servers ns f fits v =
    ap (λ (u : Routes). u.servers) (available_keeps (checked ns f).routes)
    ∙ (search-IsSearched ns.routes f fits v.routes).same_servers
