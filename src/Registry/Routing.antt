-- ===== src/Registry/Routing.antt =====
-- Routing in nameserver/nameserver.c: the storage servers, the replication map, the search for a
-- file's server with failover, the round-robin choice, and the registration of a server. The
-- array `storage_servers` is zeroed beyond `ss_count`, so a server that is not there is not alive.
use name_file_system_docs.Base.{
  ℕ, zero, suc, ◌+◌, ◌%◌, Bool, true, false, ◌&&◌, not, Option, none, some, List, [], ◌∷◌, ◌++◌,
  map,
}
use name_file_system_docs.Base.Tests.{ltb, leb, ◌==◌, if◌then◌else◌}
use name_file_system_docs.Base.Lists.{length, take, get_elem?, set}
use name_file_system_docs.Base.Strings.{CString, same, copy_str, tokens}
use name_file_system_docs.Protocol.{
  max_filename_len, max_content_len, err_success, err_server_error,
}
use name_file_system_docs.Registry.Cache.{lru_get, lru_put}
use name_file_system_docs.Registry.FileMap.{Files, hashmap_find, hashmap_add}

abbrev pub max_files : ℕ
max_files = 1000

abbrev pub max_storage_servers : ℕ
max_storage_servers = 10

abbrev pub max_ip_len : ℕ
max_ip_len = 16

-- `file_count` is the length of `files`.
pub record StorageServer : Type 0 where
  pub ip : CString
  pub nm_port : ℕ
  pub client_port : ℕ
  pub is_alive : Bool
  pub last_heartbeat : ℕ
  pub files : List CString

-- `replica_ss` is `none` for -1.
pub record ReplicationEntry : Type 0 where
  pub filename : CString
  pub primary_ss : ℕ
  pub replica_ss : Option ℕ

-- The globals; `next_start` is the static `last_used + 1` of `find_available_ss`.
pub record Routes : Type 0 where
  pub files : Files
  pub servers : List StorageServer
  pub replication_map : List ReplicationEntry
  pub next_start : ℕ

unfoldable pub is_alive : List StorageServer → ℕ → Bool
is_alive servers i = elim (get_elem? servers i) [ some s ↦ s.is_alive | none ↦ false ]

unfoldable pub find_replica_ss : List ReplicationEntry → CString → Option ℕ
find_replica_ss [] f = none
find_replica_ss (e ∷ es) f = if same e.filename f then e.replica_ss else find_replica_ss es f

-- The loop of `add_replication_entry`, and the new entry at the end if it finds none.
unfoldable pub put_replica : List ReplicationEntry → CString → ℕ → Option ℕ → List ReplicationEntry
put_replica [] f primary replica =
    record { filename = copy_str max_filename_len f; primary_ss = primary; replica_ss = replica }
    ∷ []
put_replica (e ∷ es) f primary replica =
    if same e.filename f
    then record e { replica_ss = replica } ∷ es
    else e ∷ put_replica es f primary replica

unfoldable pub add_replication_entry :
    List ReplicationEntry → CString → ℕ → Option ℕ → List ReplicationEntry
add_replication_entry es f primary replica =
    if leb max_files (length es) then es else put_replica es f primary replica

-- `if (ss_index >= 0) lru_put(filename, ss_index); return ss_index;`
abbrev pub remember : Routes → CString → ℕ → Option ℕ × Routes
remember r f i =
    (some i, record r { files = record r.files { lru_cache = lru_put r.files.lru_cache f i } })

-- The failover to the replica.
unfoldable pub fail_over : Routes → CString → Option ℕ → Option ℕ × Routes
fail_over r f none = (none, r)
fail_over r f (some j) = if is_alive r.servers j then remember r f j else (none, r)

-- `find_ss_for_file` after the cache was asked.
unfoldable pub find_in_map : Routes → CString → Option ℕ → Option ℕ × Routes
unfolding fail_over
find_in_map r f none = (none, r)
find_in_map r f (some i) =
    if not (is_alive r.servers i)
    then fail_over r f (find_replica_ss r.replication_map f)
    else remember r f i

abbrev pub after_get : Routes → CString → Routes
after_get r f = record r { files = record r.files { lru_cache = (lru_get r.files.lru_cache f).1 } }

unfoldable pub find_ss_for_file : Routes → CString → Option ℕ × Routes
unfolding find_in_map
find_ss_for_file r f =
    let slow = find_in_map (after_get r f) f (hashmap_find r.files.file_map f) in
    elim (lru_get r.files.lru_cache f).0 [
      | some i ↦ if is_alive r.servers i then (some i, after_get r f) else slow
      | none ↦ slow
    ]

unfoldable pub file_exists : Routes → CString → Bool × Routes
unfolding find_ss_for_file
file_exists r f =
    (elim (find_ss_for_file r f).0 [ some i ↦ true | none ↦ false ], (find_ss_for_file r f).1)

-- The loop of `find_available_ss` from `start_idx + i` on, with `left` rounds to go.
unfoldable pub first_alive : List StorageServer → ℕ → ℕ → Option ℕ
first_alive servers start zero = none
first_alive servers start (suc left) =
    let idx = start % length servers in
    let rest = first_alive servers (start + 1) left in
    if is_alive servers idx then some idx else rest

unfoldable pub find_available_ss : Routes → Option ℕ × Routes
find_available_ss r =
    if length r.servers == 0
    then (none, r)
    else elim (first_alive r.servers (r.next_start % length r.servers) (length r.servers)) [
      | some idx ↦ (some idx, record r { next_start = idx + 1 })
      | none ↦ (none, r)
    ]

unfoldable pub add_file_to_ss : Routes → ℕ → CString → Routes
add_file_to_ss r i f = elim (get_elem? r.servers i) [
  | none ↦ r
  | some s ↦
      if ltb (length s.files) max_files
      then record r {
        servers =
            set r.servers i (record s { files = s.files ++ (copy_str max_filename_len f ∷ []) });
        files = hashmap_add r.files f i;
      }
      else r
]

-- The first server with that address, `i` being the index of the head.
unfoldable pub find_server : List StorageServer → CString → ℕ → ℕ → Option ℕ
find_server [] ip port i = none
find_server (s ∷ ss) ip port i =
    if same s.ip ip && s.nm_port == port then some i else find_server ss ip port (i + 1)

-- `hashmap_add(token, ss_index)` for each token.
unfoldable pub add_all : Files → List CString → ℕ → Files
add_all s [] i = s
add_all s (f ∷ fs) i = add_all (hashmap_add s f i) fs i

-- The names of a registration message, at most MAX_FILES.
unfoldable pub listed_files : CString → List CString
listed_files content = take max_files (tokens b'|' (copy_str max_content_len content))

-- The arguments are the message's `ip_address`, `nm_port`, `client_port` and `content`, and the
-- time; the result is the error code of the answer.
unfoldable pub handle_ss_registration : Routes → CString → ℕ → ℕ → CString → ℕ → ℕ × Routes
handle_ss_registration r ip nm_port client_port content now =
    let names = listed_files content in
    let stored = map (copy_str max_filename_len) names in
    elim (find_server r.servers ip nm_port 0) [
      | some i ↦ (
        err_success,
        record r {
          servers = elim (get_elem? r.servers i) [
            | none ↦ r.servers
            | some s ↦ set r.servers i (record s {
              is_alive = true;
              last_heartbeat = now;
              client_port = client_port;
              files = stored;
            })
          ];
          files = add_all r.files names i;
        },
      )
      | none ↦ if leb max_storage_servers (length r.servers) then (err_server_error, r) else (
        err_success,
        record r {
          servers =
              r.servers
              ++ (record {
                ip = copy_str max_ip_len ip;
                nm_port = nm_port;
                client_port = client_port;
                is_alive = true;
                last_heartbeat = now;
                files = stored;
              }
                  ∷ []);
          files = add_all r.files names (length r.servers);
        },
      )
    ]
