-- ===== src/Registry/Cache.antt =====
-- The LRU cache of nameserver/nameserver.c: its doubly linked list as a list, `head` first.
-- Allocation is taken to succeed. A storage server's index is a natural number; the result -1 of
-- `lru_get` is `none`.
use name_file_system_docs.Base.{
  ℕ, ◌+◌, ◌-◌, ◌≤◌, ◌≡◌, refl, ap, ◌∙◌, inl, inr, Option, none, some, List, [], ◌∷◌, arith,
}
use name_file_system_docs.Base.Tests.{ltb, if◌then◌else◌, Bool-cases, Option-cases}
use name_file_system_docs.Base.Lists.{length, take_all}
use name_file_system_docs.Base.Strings.{CString, same, same_refl, same_iff, copy_str}
use mathlib.Core.Option
use name_file_system_docs.Protocol.{max_filename_len}
use name_file_system_docs.Table.Chain.{Keyed, find, unlink}
use name_file_system_docs.Table.Laws.{Distinct, key-find, find-unlink, unlink-Distinct}
use name_file_system_docs.Table.Sizes.{length-unlink}

abbrev pub lru_cache_size : ℕ
lru_cache_size = 100

pub record LruNode : Type 0 where
  pub filename : CString
  pub ss_index : ℕ

pub record LruCache : Type 0 where
  pub nodes : List LruNode
  pub size : ℕ
  pub hits : ℕ
  pub misses : ℕ

-- The walk from `head` compares names only; there is one list and no hash.
abbrev pub lru_keys : Keyed LruNode CString
lru_keys = record {
  key = λ n. n.filename;
  matches = same;
  matches_iff = same_iff;
  bucket_of = λ _. 0;
}

unfoldable pub empty_cache : LruCache
empty_cache = record { nodes = []; size = 0; hits = 0; misses = 0 }

-- `node` is the first of its name: it is taken out where the walk found it, and put first.
unfoldable pub lru_move_to_front : LruNode → List LruNode → List LruNode
lru_move_to_front node nodes = node ∷ unlink lru_keys node.filename nodes

unfoldable pub lru_get : LruCache → CString → Option ℕ × LruCache
unfolding lru_move_to_front
lru_get c f = elim (find lru_keys f c.nodes) [
  | some n ↦ (some n.ss_index, record c { nodes = lru_move_to_front n c.nodes; hits = c.hits + 1 })
  | none ↦ (none, record c { misses = c.misses + 1 })
]

-- `tail = old->prev`, and so on.
unfoldable pub drop_tail : List LruNode → List LruNode
drop_tail [] = []
drop_tail (n ∷ []) = []
drop_tail (n ∷ m ∷ ns) = n ∷ drop_tail (m ∷ ns)

abbrev pub evict : LruCache → LruCache
evict c =
    if ltb lru_cache_size c.size
    then record c { nodes = drop_tail c.nodes; size = c.size - 1 }
    else c

unfoldable pub lru_put : LruCache → CString → ℕ → LruCache
unfolding lru_move_to_front
lru_put c f i = elim (find lru_keys f c.nodes) [
  | some n ↦ record c { nodes = lru_move_to_front (record n { ss_index = i }) c.nodes }
  | none ↦ evict (record c {
    nodes = record { filename = copy_str max_filename_len f; ss_index = i } ∷ c.nodes;
    size = c.size + 1;
  })
]

unfoldable pub lru_invalidate : LruCache → CString → LruCache
lru_invalidate c f = elim (find lru_keys f c.nodes) [
  | some n ↦ record c { nodes = unlink lru_keys f c.nodes; size = c.size - 1 }
  | none ↦ c
]

-- No name twice, `size` the number of nodes, and no more than the capacity.
pub record IsValid (c : LruCache) : Type 0 where
  pub distinct : Distinct lru_keys c.nodes
  pub counted : length c.nodes ≡ c.size
  pub bounded : c.size ≤ lru_cache_size

-- What the cache knows of a name, with no effect on the order.
abbrev pub cached : LruCache → CString → Option ℕ
cached c f = Option.map (λ n. n.ss_index) (find lru_keys f c.nodes)

length-drop_tail : (n : LruNode) (ns : List LruNode) → length (drop_tail (n ∷ ns)) ≡ length ns
unfolding drop_tail
length-drop_tail n [] = refl
length-drop_tail n (m ∷ ns) = omega (arith, length-drop_tail m ns)

find-drop_tail :
    (f : CString) (ns : List LruNode)
    → find lru_keys f ns ≡ none
    → find lru_keys f (drop_tail ns) ≡ none
unfolding drop_tail find
find-drop_tail f [] h = refl
find-drop_tail f (n ∷ []) h = refl
find-drop_tail f (n ∷ m ∷ ns) h = ground (arith, find-drop_tail f (m ∷ ns))

drop_tail-Distinct : (ns : List LruNode) → Distinct lru_keys ns → Distinct lru_keys (drop_tail ns)
unfolding drop_tail
drop_tail-Distinct [] d = tt
drop_tail-Distinct (n ∷ []) d = tt
drop_tail-Distinct (n ∷ m ∷ ns) d =
    (find-drop_tail n.filename (m ∷ ns) d.0, drop_tail-Distinct (m ∷ ns) d.1)

module _ (c : LruCache) (v : IsValid c) (f : CString) where
  front-Distinct :
      (n m : LruNode)
      → find lru_keys f c.nodes ≡ some n
      → m.filename ≡ n.filename
      → Distinct lru_keys (lru_move_to_front m c.nodes)
  unfolding lru_move_to_front
  front-Distinct n m there e = (
    ground (
      arith,
      find-unlink lru_keys m.filename m.filename c.nodes v.distinct,
      same_refl m.filename,
    ),
    unlink-Distinct lru_keys m.filename c.nodes v.distinct,
  )

  front-length :
      (n m : LruNode)
      → find lru_keys f c.nodes ≡ some n
      → m.filename ≡ n.filename
      → length (lru_move_to_front m c.nodes) ≡ length c.nodes
  unfolding lru_move_to_front
  front-length n m there e =
      let name : m.filename ≡ f = e ∙ key-find lru_keys f c.nodes n there in
      rw name (omega (arith, length-unlink lru_keys f c.nodes n there))

  pub get-IsValid : IsValid (lru_get c f).1
  unfolding lru_get
  get-IsValid = elim (Option-cases (find lru_keys f c.nodes)) [
    | inl absent ↦
        rw (absent, lru_get)
          (record { distinct = v.distinct; counted = v.counted; bounded = v.bounded })
    | inr (n, there) ↦
        rw (there, lru_get)
          (record {
            distinct = front-Distinct n n there refl;
            counted = front-length n n there refl ∙ v.counted;
            bounded = v.bounded;
          })
  ]

  pub put-IsValid : (i : ℕ) → length f ≤ 255 → IsValid (lru_put c f i)
  unfolding lru_put
  put-IsValid i fits = elim (Option-cases (find lru_keys f c.nodes)) [
    | inr (n, there) ↦
        rw (there, lru_put)
          (record {
            distinct = front-Distinct n (record n { ss_index = i }) there refl;
            counted = front-length n (record n { ss_index = i }) there refl ∙ v.counted;
            bounded = v.bounded;
          })
    | inl absent ↦
        let node : LruNode = record { filename = copy_str max_filename_len f; ss_index = i } in
        let fresh : Distinct lru_keys (node ∷ c.nodes) =
          (ap (λ g. find lru_keys g c.nodes) (take_all 255 f fits) ∙ absent, v.distinct) in
        rw (absent, lru_put)
          (elim (Bool-cases (ltb lru_cache_size (c.size + 1))) [
            | inl over ↦ rw over (record {
              distinct = drop_tail-Distinct (node ∷ c.nodes) fresh;
              counted = omega (arith, length-drop_tail node c.nodes, v.counted);
              bounded = omega (arith, v.bounded);
            })
            | inr room ↦ rw room (record {
              distinct = fresh;
              counted = omega (arith, v.counted);
              bounded = ground arith;
            })
          ])
  ]

  pub invalidate-IsValid : IsValid (lru_invalidate c f)
  unfolding lru_invalidate
  invalidate-IsValid = elim (Option-cases (find lru_keys f c.nodes)) [
    | inl absent ↦ rw (absent, lru_invalidate) v
    | inr (n, there) ↦
        rw (there, lru_invalidate)
          (record {
            distinct = unlink-Distinct lru_keys f c.nodes v.distinct;
            counted = omega (arith, length-unlink lru_keys f c.nodes n there, v.counted);
            bounded = omega (arith, v.bounded);
          })
  ]
