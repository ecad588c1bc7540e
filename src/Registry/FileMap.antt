-- ===== src/Registry/FileMap.antt =====
-- The file map of nameserver/nameserver.c: which storage server has a file, and the calls that
-- change it, which also drop the file from the LRU cache. Allocation is taken to succeed.
use name_file_system_docs.Base.{
  ℕ, ◌+◌, ◌-◌, ◌*◌, ◌%◌, ◌^◌, ◌≤◌, ◌<◌, ◌≡◌, refl, ap, ◌∙◌, inl, inr, Option, none, some, [], ◌∷◌,
  arith,
}
use name_file_system_docs.Base.Tests.{if◌then◌else◌, Option-cases}
use name_file_system_docs.Base.Lists.{length, take_all}
use name_file_system_docs.Base.Strings.{CString, same, same_iff, copy_str, as_signed}
use name_file_system_docs.Protocol.{max_filename_len}
use name_file_system_docs.Table.Chain.{Keyed, Buckets, lookup, prepend, update, delete}
use name_file_system_docs.Table.Valid.{
  IsTable, prepend-IsTable, update-IsTable, delete-IsTable, lookup-prepend, lookup-update,
  lookup-delete,
}
use name_file_system_docs.Table.Sizes.{total, total-prepend, total-update, total-delete}
use name_file_system_docs.Table.Sizes.{total-empty}
use name_file_system_docs.Table.Valid.{empty-IsTable}
use name_file_system_docs.Registry.Cache.{
  empty_cache, LruCache, cached, lru_invalidate, invalidate-IsValid,
}
use name_file_system_docs.Registry.Cache
use name_file_system_docs.Registry.Known.{cached-invalidate}

abbrev pub hash_table_size : ℕ
hash_table_size = 1009

pub record HashNode : Type 0 where
  pub filename : CString
  pub ss_index : ℕ

pub record HashMap : Type 0 where
  pub buckets : Buckets HashNode
  pub size : ℕ

-- The globals `file_map` and `lru_cache`.
pub record Files : Type 0 where
  pub file_map : HashMap
  pub lru_cache : LruCache

djb2 : ℕ → CString → ℕ
unfolding as_signed
djb2 hash [] = hash
djb2 hash (c ∷ s) = djb2 ((hash * 33 + as_signed (2 ^ 64) c) % 2 ^ 64) s

unfoldable pub hash_string : CString → ℕ
unfolding djb2
hash_string s = djb2 5381 s % hash_table_size

abbrev pub map_keys : Keyed HashNode CString
map_keys = record {
  key = λ n. n.filename;
  matches = same;
  matches_iff = same_iff;
  bucket_of = hash_string;
}

-- The result -1 is `none`.
unfoldable pub hashmap_find : HashMap → CString → Option ℕ
hashmap_find m f = elim (lookup map_keys m.buckets f) [ some n ↦ some n.ss_index | none ↦ none ]

-- The file map's part of `hashmap_add`.
unfoldable pub map_add : HashMap → CString → ℕ → HashMap
map_add m f i = elim (lookup map_keys m.buckets f) [
  | some n ↦ record m { buckets = update map_keys m.buckets f (λ n. record n { ss_index = i }) }
  | none ↦ record {
    buckets =
        prepend map_keys m.buckets f
          (record { filename = copy_str max_filename_len f; ss_index = i });
    size = m.size + 1;
  }
]

unfoldable pub hashmap_add : Files → CString → ℕ → Files
hashmap_add s f i = record {
  lru_cache = lru_invalidate s.lru_cache f;
  file_map = map_add s.file_map f i;
}

-- The file map's part of `hashmap_remove`.
unfoldable pub map_remove : HashMap → CString → HashMap
map_remove m f = elim (lookup map_keys m.buckets f) [
  | some n ↦ record { buckets = delete map_keys m.buckets f; size = m.size - 1 }
  | none ↦ m
]

unfoldable pub hashmap_remove : Files → CString → Files
hashmap_remove s f = record {
  lru_cache = lru_invalidate s.lru_cache f;
  file_map = map_remove s.file_map f;
}

pub record IsValid (s : Files) : Type 0 where
  pub table : IsTable map_keys s.file_map.buckets
  pub counted : total s.file_map.buckets hash_table_size ≡ s.file_map.size
  pub cache : Cache.IsValid s.lru_cache

-- The maps as `init_registries` leaves them.
unfoldable pub init_files : Files
init_files = record { file_map = record { buckets = λ _. []; size = 0 }; lru_cache = empty_cache }

pub init-IsValid : IsValid init_files
unfolding init_files empty_cache
init-IsValid = record {
  table = empty-IsTable map_keys;
  counted = total-empty HashNode hash_table_size;
  cache = record { distinct = tt; counted = refl; bounded = omega arith };
}

hash_string-lt : (f : CString) → hash_string f < hash_table_size
unfolding hash_string
hash_string-lt f = omega arith

index_of : Option HashNode → Option ℕ
index_of none = none
index_of (some n) = some n.ss_index

find-index_of :
    (m : HashMap) (f : CString) → hashmap_find m f ≡ index_of (lookup map_keys m.buckets f)
unfolding hashmap_find index_of
find-index_of m f = ground arith

module _ (s : Files) (v : IsValid s) (f : CString) where
  -- `hashmap_add` makes the file's server `i` and changes no other file's; the cache forgets the
  -- file, and the invariants hold on.
  pub hashmap_add_frame :
      (i : ℕ) (g : CString)
      → length f ≤ 255
      → let u = hashmap_add s f i in
        (hashmap_find u.file_map g ≡ (if same f g then some i else hashmap_find s.file_map g))
        × (cached u.lru_cache g ≡ (if same f g then none else cached s.lru_cache g))
        × IsValid u
  unfolding hashmap_add map_add index_of
  hashmap_add_frame i g fits =
      let u = hashmap_add s f i in
      let t = s.file_map.buckets in
      let forgets = cached-invalidate s.lru_cache v.cache f g in
      let cache = invalidate-IsValid s.lru_cache v.cache f in
      rw (find-index_of u.file_map g, find-index_of s.file_map g)
        (elim (Option-cases (lookup map_keys t f)) [
          | inr (n, there) ↦
              let h : HashNode → HashNode = λ n. record n { ss_index = i } in
              rw (there, map_add)
                (
                  ap index_of (lookup-update map_keys t f g h (λ _. refl)) ∙ ground (arith, there),
                  forgets,
                  record {
                    table = update-IsTable map_keys t f h (λ _. refl) v.table;
                    counted =
                        total-update map_keys t hash_table_size f (hash_string-lt f) h ∙ v.counted;
                    cache = cache;
                  },
                )
          | inl absent ↦
              let name = take_all 255 f fits in
              rw (absent, map_add)
                (
                  ap index_of (lookup-prepend map_keys t f g _ name) ∙ ground arith,
                  forgets,
                  record {
                    table = prepend-IsTable map_keys t f _ v.table name absent;
                    counted =
                        total-prepend map_keys t hash_table_size f (hash_string-lt f) _
                        ∙ omega (arith, v.counted);
                    cache = cache;
                  },
                )
        ])

  -- `hashmap_remove` takes the file out of the map and out of the cache, and no other.
  pub hashmap_remove_frame :
      (g : CString)
      → let u = hashmap_remove s f in
        (hashmap_find u.file_map g ≡ (if same f g then none else hashmap_find s.file_map g))
        × (cached u.lru_cache g ≡ (if same f g then none else cached s.lru_cache g))
        × IsValid u
  unfolding hashmap_remove map_remove index_of
  hashmap_remove_frame g =
      let u = hashmap_remove s f in
      let t = s.file_map.buckets in
      let forgets = cached-invalidate s.lru_cache v.cache f g in
      let cache = invalidate-IsValid s.lru_cache v.cache f in
      rw (find-index_of u.file_map g, find-index_of s.file_map g)
        (elim (Option-cases (lookup map_keys t f)) [
          | inr (n, there) ↦
              rw (there, map_remove)
                (
                  ap index_of (lookup-delete map_keys t f g v.table) ∙ ground arith,
                  forgets,
                  record {
                    table = delete-IsTable map_keys t f v.table;
                    counted = omega (
                      arith,
                      v.counted,
                      total-delete map_keys t hash_table_size f (hash_string-lt f) n there,
                    );
                    cache = cache;
                  },
                )
          | inl absent ↦
              rw (absent, map_remove)
                (
                  ground (arith, same_iff f g, absent),
                  forgets,
                  record { table = v.table; counted = v.counted; cache = cache },
                )
        ])
