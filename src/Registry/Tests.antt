-- ===== src/Registry/Tests.antt =====
-- Runs of the name server's maps on concrete inputs, and the theorems of their modules there.
use name_file_system_docs.Base.{ℕ, ◌≡◌, refl, true, false, none, some, List, [], ◌∷◌, ◌++◌, arith}
use name_file_system_docs.Base.Lists.{take}
use name_file_system_docs.Base.Strings.{CString, same, tokens_from, tokens}
use name_file_system_docs.Table.Chain.{find, modify, unlink}
use name_file_system_docs.Registry.Cache.{
  LruCache, lru_get, lru_put, lru_invalidate, empty_cache, cached, drop_tail, lru_cache_size,
}
use name_file_system_docs.Registry.Cache
use name_file_system_docs.Registry.Recency.{put_all, touch_all, touch, put_all_recent}
use name_file_system_docs.Registry.FileMap.{
  init_files, init-IsValid, hash_string, hashmap_find, hashmap_add, hashmap_remove, map_add,
  map_remove,
}
use name_file_system_docs.Registry.Routing.{
  StorageServer, Routes, is_alive, find_ss_for_file, find_in_map, fail_over, find_replica_ss,
  add_replication_entry, put_replica, first_alive, find_available_ss, handle_ss_registration,
  find_server, add_all, listed_files,
}
use name_file_system_docs.Registry.Lookup.{IsCoherent, Outcome, find_ss_for_file-Outcome}

abbrev doc : CString
doc = b'd' ∷ b'o' ∷ b'c' ∷ []

abbrev note : CString
note = b'n' ∷ []

computing : Unit {0}
unfolding find modify unlink same empty_cache lru_get lru_put lru_invalidate drop_tail init_files
    hash_string hashmap_find hashmap_add hashmap_remove map_add map_remove is_alive find_ss_for_file
    find_in_map fail_over find_replica_ss add_replication_entry put_replica first_alive
    find_available_ss handle_ss_registration find_server add_all listed_files tokens tokens_from
    put_all touch_all touch
computing = tt

abbrev start : Routes
start = record { files = init_files; servers = []; replication_map = []; next_start = 0 }

start-IsCoherent : IsCoherent start
unfolding init_files empty_cache find
start-IsCoherent = record { valid = init-IsValid; coherent = λ f. tt }

-- Two servers register; the first holds `doc`, the second `note`.
abbrev one : ℕ × Routes
one = handle_ss_registration start (b'1' ∷ []) 8081 8082 doc 5

abbrev two : Routes
two = (handle_ss_registration one.1 (b'2' ∷ []) 8081 8082 (note ++ (b'|' ∷ doc)) 6).1

found_on : (find_ss_for_file two note).0 ≡ some 1
unfolding computing
found_on = refl

moved : (find_ss_for_file two doc).0 ≡ some 1
unfolding computing
moved = refl

round : (find_available_ss (find_available_ss two).1).0 ≡ some 1
unfolding computing
round = refl

abbrev up : StorageServer
up = record {
  ip = b'1' ∷ [];
  nm_port = 8081;
  client_port = 8082;
  is_alive = true;
  last_heartbeat = 0;
  files = [];
}

abbrev serving : Routes
serving = record start { servers = up ∷ record up { is_alive = false } ∷ []; next_start = 1 }

serving-IsCoherent : IsCoherent serving
unfolding init_files empty_cache find
serving-IsCoherent = record { valid = init-IsValid; coherent = λ f. tt }

abbrev puts : List (CString × ℕ)
puts = (doc, 0) ∷ (note, 1) ∷ (doc, 2) ∷ []

put_all_recent_example :
    ((put_all empty_cache puts).nodes ≡ take lru_cache_size (touch_all [] puts))
    × Cache.IsValid (put_all empty_cache puts)
put_all_recent_example = put_all_recent puts (omega arith)

find_ss_for_file-Outcome_example :
    Outcome serving serving-IsCoherent doc (omega arith) (find_ss_for_file serving doc)
find_ss_for_file-Outcome_example =
    find_ss_for_file-Outcome serving serving-IsCoherent doc (omega arith)

first_up : is_alive serving.servers 0 ≡ true
unfolding is_alive
first_up = refl

chosen : (find_available_ss serving).0 ≡ some 0
unfolding computing
chosen = refl

unknown : cached serving.files.lru_cache doc ≡ none
unfolding computing
unknown = refl
