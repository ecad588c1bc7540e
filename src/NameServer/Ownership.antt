-- ===== src/NameServer/Ownership.antt =====
-- CREATE of nameserver.c: where the new file is, and whose it is.
use name_file_system_docs.Base.{
  ℕ, zero, suc, ◌≡◌, refl, sym, ap, ◌∙◌, inl, inr, true, false, none, some, List, [], ◌∷◌, ◌++◌,
  arith,
}
use name_file_system_docs.Base.Tests.{ltb, Bool-cases, Option-cases}
use name_file_system_docs.Base.Lists.{length, get_elem?, set}
use name_file_system_docs.Base.Strings.{CString, same, same_refl, copy_str}
use name_file_system_docs.Registry.FileMap.{Files}
use name_file_system_docs.NameServer.Valid.{
  replicate-IsCoherent, IsValid, checked-IsValid, available-IsValid, chosen-servers,
}
use name_file_system_docs.Registry.Placement.{find_available_fair}
use name_file_system_docs.Protocol.{err_created}
use name_file_system_docs.Acl.{acl_find_entry, acl_add_file, acl_check_read, acl_check_write}
use name_file_system_docs.Acl.Changes.{add_file_rights}
use name_file_system_docs.Registry.Cache.{cached}
use name_file_system_docs.Registry.FileMap.{hashmap_find}
use name_file_system_docs.Registry.Routing.{
  StorageServer, Routes, is_alive, find_ss_for_file, find_available_ss, file_exists, add_file_to_ss,
}
use name_file_system_docs.Registry.Uncached.{find_uncached}
use name_file_system_docs.Registry.Placement.{find_available_fair}
use name_file_system_docs.Registry.Coherence.{
  available_keeps, HasRoom, room_at, RoomAt, add_file-IsCoherent, add_file-IsPlaced,
}
use name_file_system_docs.NameServer.{Message, passed_on, NameServer, contains_invalid_chars}
use name_file_system_docs.NameServer.Files.{
  replied, add_owner, replicate, created, client_address, handle_read_request, route,
  forward_create, handle_create_request,
}
use name_file_system_docs.NameServer.Cases.{checked, chosen}
use name_file_system_docs.NameServer.Events.{Fits}
use name_file_system_docs.NameServer.Valid.{
  IsValid, checked-IsValid, available-IsValid, chosen-servers,
}
use name_file_system_docs.NameServer.Creation.{replicate_unreached}

-- A server's list of files has no part in its address and its life.
address-set :
    (servers : List StorageServer) (i : ℕ) (s : StorageServer) (files : List CString)
    → get_elem? servers i ≡ some s
    → let after = set servers i (record s { files = files }) in
      (client_address after i ≡ client_address servers i) × (is_alive after i ≡ is_alive servers i)
unfolding is_alive
address-set [] i s files there = absurd (ground arith)
address-set (x ∷ xs) zero s files there = ground arith
address-set (x ∷ xs) (suc i) s files there = address-set xs i s files there

add_file_address :
    (r : Routes) (i : ℕ) (f : CString)
    → (client_address (add_file_to_ss r i f).servers i ≡ client_address r.servers i)
      × (is_alive (add_file_to_ss r i f).servers i ≡ is_alive r.servers i)
unfolding add_file_to_ss
add_file_address r i f = elim (Option-cases (get_elem? r.servers i)) [
  | inl gone ↦ rw (gone, add_file_to_ss) (refl, refl)
  | inr (s, there) ↦ elim (Bool-cases (ltb (length s.files) 1000)) [
    | inl room ↦
        let (at, alive) = address-set r.servers i s (s.files ++ (copy_str 256 f ∷ [])) there in
        rw (there, add_file_to_ss, room) (at, alive)
    | inr at_limit ↦ rw (there, add_file_to_ss, at_limit) (refl, refl)
  ]
]

-- The file that a CREATE has placed on server `i` is found there, and is its creator's alone.
created_served :
    (ns : NameServer) (msg : Message) (i now : ℕ) (w : CString)
    → Fits msg
    → IsValid ns
    → is_alive ns.routes.servers i ≡ true
    → RoomAt ns.routes i
    → acl_find_entry ns.acl msg.filename ≡ none
    → let u = created ns msg i false now in
      ((find_ss_for_file u.routes msg.filename).0 ≡ some i)
      × (client_address u.routes.servers i ≡ client_address ns.routes.servers i)
      × (acl_check_read u.acl msg.filename w ≡ same msg.sender_id w)
      × (acl_check_write u.acl msg.filename w ≡ same msg.sender_id w)
unfolding created add_owner
created_served ns msg i now w n v alive room unlisted =
    let f = msg.filename in
    let r : Routes = add_file_to_ss ns.routes i f in
    let coherent = add_file-IsCoherent ns.routes i f n.file v.routes in
    let (same_map, forgot, placed) = add_file-IsPlaced ns.routes i f n.file v.routes alive room in
    let (address, life) = add_file_address ns.routes i f in
    let (files, servers) = replicate_unreached r f i in
    let (new, reads, writes) = add_file_rights ns.acl f msg.sender_id now f w n.file n.sender in
    let is_new : (acl_add_file ns.acl f msg.sender_id now).0 ≡ true = new ∙ rw unlisted in
    let q : Routes = replicate r f i false in
    let alive' : is_alive q.servers i ≡ true =
      ap (λ (ss : List StorageServer). is_alive ss i) servers ∙ life ∙ alive in
    let found : (find_ss_for_file q f).0 ≡ some i =
      find_uncached q f i (replicate-IsCoherent r f i false n.file forgot coherent)
        (ap (λ (s : Files). cached s.lru_cache f) files ∙ forgot)
        (ap (λ (s : Files). hashmap_find s.file_map f) files ∙ placed f ∙ rw (same_refl f))
      ∙ rw alive' in
    rw is_new (
      found,
      ap (λ (ss : List StorageServer). client_address ss i) servers ∙ address,
      reads ∙ rw (is_new, same_refl f),
      writes ∙ rw (is_new, same_refl f),
    )

routed :
    (ns : NameServer) (msg : Message) (i : ℕ)
    → (find_ss_for_file ns.routes msg.filename).0 ≡ some i
    → acl_check_read ns.acl msg.filename msg.sender_id ≡ true
    → (handle_read_request ns msg).0 ≡ client_address ns.routes.servers i
unfolding route
routed ns msg i found may = rw (found, route, may)

-- A created file belongs to its creator, who is sent to it. If the name is valid, the file is
-- nowhere found and not listed, server `i` is chosen and creates the file, and no replica is
-- reached, then the creator's READ is answered with the address of server `i`, and nobody else
-- may read or write the file. The state is well formed, names fit, and the servers have room.
pub create_read :
    (ns : NameServer) (msg : Message) (i now : ℕ) (w : CString)
    → Fits msg
    → IsValid ns
    → HasRoom ns.routes
    → contains_invalid_chars msg.filename ≡ false
    → (file_exists ns.routes msg.filename).0 ≡ false
    → acl_find_entry ns.acl msg.filename ≡ none
    → (find_available_ss (checked ns msg.filename).routes).0 ≡ some i
    → let (reply, u) = handle_create_request ns msg (replied err_created) false now in
      (reply ≡ passed_on err_created)
      × ((handle_read_request u msg).0 ≡ client_address ns.routes.servers i)
      × (acl_check_read u.acl msg.filename w ≡ same msg.sender_id w)
      × (acl_check_write u.acl msg.filename w ≡ same msg.sender_id w)
unfolding handle_create_request forward_create
create_read ns msg i now w n v room good new unlisted found =
    let c = checked-IsValid ns msg.filename n.file v in
    let a = available-IsValid ns msg.filename c in
    let s = chosen ns msg.filename in
    let servers = chosen-servers ns msg.filename n.file v in
    let alive : is_alive s.routes.servers i ≡ true =
      ap (λ (u : Routes). is_alive u.servers i) (available_keeps (checked ns msg.filename).routes)
      ∙ (find_available_fair (checked ns msg.filename).routes i found).0 in
    let room' : RoomAt s.routes i = λ t e.
      room_at ns.routes.servers i t room
        (ap (λ (ss : List StorageServer). get_elem? ss i) (sym servers) ∙ e) in
    let (served, address, reads, writes) = created_served s msg i now w n a alive room' unlisted in
    let (served', address', mine, writes') =
      created_served s msg i now msg.sender_id n a alive room' unlisted in
    rw (good, new, found, handle_create_request)
      (
        refl,
        routed (created s msg i false now) msg i served (mine ∙ same_refl msg.sender_id)
            ∙ address
            ∙ ap (λ (ss : List StorageServer). client_address ss i) servers,
        reads,
        writes,
      )
