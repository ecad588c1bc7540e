-- ===== src/NameServer/Creation.antt =====
-- The replication at the end of CREATE in nameserver.c: what the replica does to the maps.
use name_file_system_docs.Base.{
  ℕ, ◌+◌, ◌≤◌, ◌<◌, ◌≡◌, refl, ap, ◌∙◌, inl, inr, true, false, none, some, List, arith,
}
use name_file_system_docs.Base.Tests.{ltb, ◌==◌, Bool-cases, Option-cases}
use name_file_system_docs.Base.Lists.{length}
use name_file_system_docs.Base.Strings.{CString, same_refl}
use name_file_system_docs.Registry.Cache.{cached}
use name_file_system_docs.Registry.FileMap.{hashmap_find}
use name_file_system_docs.Registry.Routing.{
  StorageServer, Routes, is_alive, find_ss_for_file, find_replica_ss, find_available_ss,
  add_replication_entry, fail_over,
}
use name_file_system_docs.Registry.Lookup.{IsCoherent}
use name_file_system_docs.Registry.Uncached.{find_uncached}
use name_file_system_docs.Registry.Placement.{find_available_fair}
use name_file_system_docs.Registry.Upkeep.{add_replication_frame}
use name_file_system_docs.Registry.Coherence.{
  servers-IsCoherent, available_keeps, RoomAt, add_file-IsCoherent, add_file-IsPlaced,
}
use name_file_system_docs.NameServer.Files.{replicate}

-- Without a replica, replication changes no map of files and no server.
pub replicate_unreached :
    (r : Routes) (f : CString) (i : ℕ)
    → ((replicate r f i false).files ≡ r.files) × ((replicate r f i false).servers ≡ r.servers)
unfolding replicate
replicate_unreached r f i = elim (Bool-cases (ltb 1 (length r.servers))) [
  | inr alone ↦ rw alone (refl, refl)
  | inl others ↦ rw others (elim (Option-cases (find_available_ss r).0) [
    | inl down ↦ rw (down, replicate) kept
    | inr (j, found) ↦
        rw (found, replicate)
          (elim (Bool-cases (j == i)) [
            | inl itself ↦ rw itself kept
            | inr another ↦ rw another kept
          ])
  ])
]
  where
    kept : ((find_available_ss r).1.files ≡ r.files) × ((find_available_ss r).1.servers ≡ r.servers)
    kept = (
      ap (λ (u : Routes). u.files) (available_keeps r),
      ap (λ (u : Routes). u.servers) (available_keeps r),
    )

module _ (r : Routes) (f : CString) (i j : ℕ) (fits : length f ≤ 255) (v : IsCoherent r)
    (unknown : cached r.files.lru_cache f ≡ none) where
  -- With another server within reach, the file's map entry and its replica are the same server.
  replicate_reached :
      RoomAt r j
      → length r.replication_map < 1000
      → 1 < length r.servers
      → (find_available_ss r).0 ≡ some j
      → (j == i) ≡ false
      → let u = replicate r f i true in
        IsCoherent u
        × (cached u.files.lru_cache f ≡ none)
        × (hashmap_find u.files.file_map f ≡ some j)
        × (find_replica_ss u.replication_map f ≡ some j)
  unfolding replicate
  replicate_reached room space several found other =
      let more : ltb 1 (length r.servers) ≡ true = ground arith in
      let (alive, lt, next, fair) = find_available_fair r j found in
      let r' : Routes = record r { next_start = j + 1 } in
      let v' = servers-IsCoherent r r.servers (j + 1) v in
      let (entry, w) = add_replication_frame r' f f i (some j) fits space unknown v' in
      let u : Routes = record r' {
        replication_map = add_replication_entry r.replication_map f i (some j);
      } in
      let (same_map, forgot, placed) = add_file-IsPlaced u j f fits w alive room in
      rw (more, found, replicate, other, next)
        (
          add_file-IsCoherent u j f fits w,
          forgot,
          placed f ∙ rw (same_refl f),
          ap (λ m. find_replica_ss m f) same_map ∙ entry ∙ rw (same_refl f),
        )

  -- The replica shadows the file's own server. If replication, which CREATE starts with the server
  -- `i` that it has placed the file on, chooses another server `j` and reaches it, then both the
  -- file map and the replication map name `j` and not `i`; and with any servers of which `j` is
  -- down, the file is not found, whether `i` is up or not. The cache agrees with the maps and does
  -- not know the file, as CREATE leaves it; the name fits, there is more than one server, and
  -- server `j` and the replication map have room.
  pub replica_lost :
      (servers : List StorageServer)
      → RoomAt r j
      → length r.replication_map < 1000
      → 1 < length r.servers
      → (find_available_ss r).0 ≡ some j
      → (j == i) ≡ false
      → is_alive servers j ≡ false
      → let u = replicate r f i true in
        (hashmap_find u.files.file_map f ≡ some j)
        × (find_replica_ss u.replication_map f ≡ some j)
        × ((find_ss_for_file (record u { servers = servers }) f).0 ≡ none)
  unfolding fail_over
  replica_lost servers room space several found other down =
      let (w, forgot, named, entry) = replicate_reached room space several found other in
      let u = replicate r f i true in
      (
        named,
        entry,
        find_uncached (record u { servers = servers }) f j
              (servers-IsCoherent u servers u.next_start w) forgot named
            ∙ rw (down, entry) (rw down),
      )
