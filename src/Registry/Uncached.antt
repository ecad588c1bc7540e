-- ===== src/Registry/Uncached.antt =====
-- `find_ss_for_file` of nameserver.c for a file that the cache does not hold.
use name_file_system_docs.Base.{ℕ, ◌≡◌, refl, ◌∙◌, inl, inr, Option, none, some, arith}
use name_file_system_docs.Base.Tests.{if◌then◌else◌, Bool-cases}
use name_file_system_docs.Base.Strings.{CString}
use name_file_system_docs.Registry.Cache.{lru_get, cached}
use name_file_system_docs.Registry.Known.{cached-get}
use name_file_system_docs.Registry.FileMap.{hashmap_find}
use name_file_system_docs.Registry.Routing.{
  Routes, is_alive, find_replica_ss, find_ss_for_file, find_in_map, fail_over, after_get,
}
use name_file_system_docs.Registry.Lookup.{IsCoherent}

-- The failover sees the servers only.
fail_over_server :
    (r : Routes) (f : CString) (o : Option ℕ)
    → (fail_over (after_get r f) f o).0 ≡ (fail_over r f o).0
unfolding fail_over
fail_over_server r f none = refl
fail_over_server r f (some j) = ground arith

-- A file that the cache does not know is looked up in the map.
pub find_uncached :
    (r : Routes) (f : CString) (i : ℕ)
    → IsCoherent r
    → cached r.files.lru_cache f ≡ none
    → hashmap_find r.files.file_map f ≡ some i
    → (find_ss_for_file r f).0 ≡ (
        if is_alive r.servers i
        then some i
        else (fail_over r f (find_replica_ss r.replication_map f)).0)
unfolding find_ss_for_file find_in_map
find_uncached r f i v forgot found =
    let miss : (lru_get r.files.lru_cache f).0 ≡ none =
      (cached-get r.files.lru_cache v.valid.cache f f).0 ∙ forgot in
    elim (Bool-cases (is_alive r.servers i)) [
      | inl alive ↦ rw (miss, found, find_ss_for_file, alive)
      | inr down ↦
          rw (miss, found, find_ss_for_file, down)
            (fail_over_server r f (find_replica_ss r.replication_map f))
    ]
