-- ===== src/Registry/Coherence.antt =====
-- The cache of nameserver.c stays coherent under every operation of the registry.
use name_file_system_docs.Base.{
  ℕ, zero, suc, ◌%◌, ◌≤◌, ◌<◌, ◌≡◌, refl, sym, ◌∙◌, subst, inl, inr, true, Option, none, some, List,
  [], ◌∷◌, arith,
}
use name_file_system_docs.Base.Tests.{ltb, leb, ◌==◌, if◌then◌else◌, Bool-cases, Option-cases}
use name_file_system_docs.Base.Lists.{length, get_elem?, All}
use name_file_system_docs.Base.Strings.{CString, same, same_refl}
use name_file_system_docs.Registry.Cache.{cached}
use name_file_system_docs.Registry.FileMap.{hashmap_find, hashmap_add, hashmap_add_frame}
use name_file_system_docs.Registry.Routing.{
  StorageServer, Routes, is_alive, find_ss_for_file, first_alive, find_available_ss,
  add_replication_entry, add_file_to_ss, find_server, listed_files, add_all, handle_ss_registration,
}
use name_file_system_docs.Registry.Lookup.{
  IsCoherent, IsSearched, Outcome, find_ss_for_file-Outcome,
}
use name_file_system_docs.Registry.Upkeep.{
  coherent_after, hashmap_add-IsCoherent, add_all_frame, add_replication_frame,
}

-- Coherence does not look at the servers or at the place of the next choice.
pub servers-IsCoherent :
    (r : Routes) (servers : List StorageServer) (next : ℕ)
    → IsCoherent r
    → IsCoherent (record r { servers = servers; next_start = next })
servers-IsCoherent r servers next v = record {
  valid = v.valid;
  coherent = λ g.
      coherent_after r (record r { servers = servers; next_start = next }) g v
        (inr (refl, refl, refl));
}

pub available_keeps :
    (r : Routes)
    → (find_available_ss r).1 ≡ record r { next_start = (find_available_ss r).1.next_start }
unfolding find_available_ss
available_keeps r = elim (Bool-cases (length r.servers == 0)) [
  | inl empty ↦ rw empty
  | inr some_server ↦
      rw some_server
        (elim (Option-cases
          (first_alive r.servers (r.next_start % length r.servers) (length r.servers))) [
            | inl down ↦ rw (down, find_available_ss)
            | inr (i, alive) ↦ rw (alive, find_available_ss)
          ])
]

pub available-IsCoherent : (r : Routes) → IsCoherent r → IsCoherent (find_available_ss r).1
available-IsCoherent r v =
    subst IsCoherent (sym (available_keeps r))
      (servers-IsCoherent r r.servers (find_available_ss r).1.next_start v)

pub search-IsSearched :
    (r : Routes) (f : CString)
    → length f ≤ 255
    → IsCoherent r
    → IsSearched r (find_ss_for_file r f).1
search-IsSearched r f fits v = seen (find_ss_for_file r f) (find_ss_for_file-Outcome r v f fits)
  where
    seen : (o : Option ℕ × Routes) → Outcome r v f fits o → IsSearched r o.1
    seen (some i, u) (alive, serves, s) = s
    seen (none, u) (down, s) = s

-- Room for one more file on a server, and on every server.
abbrev pub RoomAt : Routes → ℕ → Type 0
RoomAt r i = (s : StorageServer) → get_elem? r.servers i ≡ some s → length s.files < 1000

abbrev pub HasRoom : Routes → Type 0
HasRoom r = All (λ s. length s.files < 1000) r.servers

pub room_at :
    (servers : List StorageServer) (i : ℕ) (s : StorageServer)
    → All (λ s. length s.files < 1000) servers
    → get_elem? servers i ≡ some s
    → length s.files < 1000
room_at [] i s room there = absurd (ground arith)
room_at (x ∷ xs) zero s room there = ground (arith, room.0)
room_at (x ∷ xs) (suc i) s room there = room_at xs i s room.1 there

-- The file is entered on a server that is there and has room.
abbrev pub IsPlaced : Routes → Routes → ℕ → CString → Type 0
IsPlaced r u i f =
    (u.replication_map ≡ r.replication_map)
    × (cached u.files.lru_cache f ≡ none)
    × ((g : CString)
        → hashmap_find u.files.file_map g
          ≡ (if same f g then some i else hashmap_find r.files.file_map g))

module _ (r : Routes) (i : ℕ) (f : CString) (fits : length f ≤ 255) (v : IsCoherent r) where
  added_files :
      (servers : List StorageServer)
      → IsCoherent (record r { servers = servers; files = hashmap_add r.files f i })
  added_files servers =
      servers-IsCoherent (record r { files = hashmap_add r.files f i }) servers r.next_start
        (hashmap_add-IsCoherent r v f i fits)

  pub add_file-IsCoherent : IsCoherent (add_file_to_ss r i f)
  unfolding add_file_to_ss
  add_file-IsCoherent = elim (Option-cases (get_elem? r.servers i)) [
    | inl gone ↦ rw (gone, add_file_to_ss) v
    | inr (s, there) ↦ elim (Bool-cases (ltb (length s.files) 1000)) [
      | inl room ↦ rw (there, add_file_to_ss, room) (added_files _)
      | inr at_limit ↦ rw (there, add_file_to_ss, at_limit) v
    ]
  ]

  pub add_file-IsPlaced :
      is_alive r.servers i ≡ true → RoomAt r i → IsPlaced r (add_file_to_ss r i f) i f
  unfolding add_file_to_ss is_alive
  add_file-IsPlaced alive room = elim (Option-cases (get_elem? r.servers i)) [
    | inl gone ↦ absurd (ground (arith, rw (gone, is_alive) at alive))
    | inr (s, there) ↦
        let fits_in : ltb (length s.files) 1000 ≡ true = ground (arith, room s there) in
        rw (there, add_file_to_ss, fits_in)
          (
            refl,
            (hashmap_add_frame r.files v.valid f i f fits).1 ∙ rw (same_refl f),
            λ g. (hashmap_add_frame r.files v.valid f i g fits).0,
          )
  ]

  pub add_replication-IsCoherent :
      (j : Option ℕ)
      → cached r.files.lru_cache f ≡ none
      → IsCoherent (record r { replication_map = add_replication_entry r.replication_map f i j })
  unfolding add_replication_entry
  add_replication-IsCoherent j unknown = elim (Bool-cases (leb 1000 (length r.replication_map))) [
    | inl at_limit ↦ rw at_limit v
    | inr room ↦ (add_replication_frame r f f i j fits (ground arith) unknown v).1
  ]

pub registration-IsCoherent :
    (r : Routes) (ip : CString) (nm_port client_port : ℕ) (content : CString) (now : ℕ)
    → All (λ f. length f ≤ 255) (listed_files content)
    → IsCoherent r
    → IsCoherent (handle_ss_registration r ip nm_port client_port content now).1
unfolding handle_ss_registration
registration-IsCoherent r ip nm_port client_port content now fits v =
    let coherent = λ (i : ℕ). (add_all_frame r (listed_files content) i [] fits v).0 in
    elim (Option-cases (find_server r.servers ip nm_port 0)) [
      | inr (i, known) ↦
          rw (known, handle_ss_registration)
            (servers-IsCoherent (record r { files = add_all r.files (listed_files content) i }) _
              r.next_start (coherent i))
      | inl new ↦ elim (Bool-cases (leb 10 (length r.servers))) [
        | inl at_limit ↦ rw (new, handle_ss_registration, at_limit) v
        | inr room ↦
            rw (new, handle_ss_registration, room)
              (servers-IsCoherent
                (record r { files = add_all r.files (listed_files content) (length r.servers) }) _
                r.next_start (coherent (length r.servers)))
      ]
    ]
