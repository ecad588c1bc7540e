-- ===== src/Registry/Known.antt =====
-- What the LRU cache of nameserver.c knows after each of its operations.
use name_file_system_docs.Base.{
  ℕ, ◌+◌, ◌≤◌, ◌<◌, ◌≡◌, refl, ap, ◌∙◌, ◌⊎◌, inl, inr, true, Option, none, some, List, [], ◌∷◌,
  arith,
}
use name_file_system_docs.Base.Tests.{ltb, if◌then◌else◌, Bool-cases, Option-cases}
use name_file_system_docs.Base.Lists.{length, take_all}
use name_file_system_docs.Base.Strings.{CString, same, same_refl, same_iff, copy_str}
use mathlib.Core.Option
use name_file_system_docs.Protocol.{max_filename_len}
use name_file_system_docs.Table.Chain.{find}
use name_file_system_docs.Table.Laws.{key-find, find-unlink}
use name_file_system_docs.Registry.Cache.{
  LruNode, LruCache, lru_keys, lru_cache_size, lru_get, lru_put, lru_invalidate, lru_move_to_front,
  drop_tail, IsValid, cached,
}

find-drop_tail :
    (g : CString) (ns : List LruNode)
    → (find lru_keys g (drop_tail ns) ≡ none)
      ⊎ (find lru_keys g (drop_tail ns) ≡ find lru_keys g ns)
unfolding drop_tail find
find-drop_tail g [] = inl refl
find-drop_tail g (n ∷ []) = inl refl
find-drop_tail g (n ∷ m ∷ ns) = ground (arith, find-drop_tail g (m ∷ ns))

abbrev index_of : Option LruNode → Option ℕ
index_of o = Option.map (λ n. n.ss_index) o

find-evicted :
    (n : LruNode) (ns : List LruNode) (g : CString)
    → 0 < length ns
    → find lru_keys g (drop_tail (n ∷ ns))
      ≡ (if same n.filename g then some n else find lru_keys g (drop_tail ns))
unfolding drop_tail find
find-evicted n [] g h = absurd (omega arith)
find-evicted n (m ∷ ns) g h = refl

module _ (c : LruCache) (v : IsValid c) (f : CString) where
  find-front :
      (n : LruNode) (g : CString)
      → n.filename ≡ f
      → find lru_keys g (lru_move_to_front n c.nodes)
        ≡ (if same f g then some n else find lru_keys g c.nodes)
  unfolding find lru_move_to_front
  find-front n g e = ground (arith, find-unlink lru_keys n.filename g c.nodes v.distinct)

  -- `lru_get` returns what the cache knows of the name, and changes no answer.
  pub cached-get :
      (g : CString) → ((lru_get c f).0 ≡ cached c f) × (cached (lru_get c f).1 g ≡ cached c g)
  unfolding lru_get
  cached-get g = elim (Option-cases (find lru_keys f c.nodes)) [
    | inl absent ↦ rw (absent, lru_get) (refl, refl)
    | inr (n, there) ↦
        rw (there, lru_get)
          (
            refl,
            ground
                (arith, find-front n g (key-find lru_keys f c.nodes n there), same_iff f g, there),
          )
  ]

  -- Invalidating a name makes the cache forget it, and it alone.
  pub cached-invalidate :
      (g : CString) → cached (lru_invalidate c f) g ≡ (if same f g then none else cached c g)
  unfolding lru_invalidate
  cached-invalidate g = elim (Option-cases (find lru_keys f c.nodes)) [
    | inl absent ↦ rw (absent, lru_invalidate) (ground (arith, same_iff f g, absent))
    | inr (n, there) ↦
        rw (there, lru_invalidate) (ground (arith, find-unlink lru_keys f g c.nodes v.distinct))
  ]

  put_evicting :
      (i : ℕ) (g name : CString)
      → name ≡ f
      → 0 < length c.nodes
      → let ns = drop_tail (record { filename = name; ss_index = i } ∷ c.nodes) in
        (index_of (find lru_keys f ns) ≡ some i)
        × ((index_of (find lru_keys g ns) ≡ none)
            ⊎ (index_of (find lru_keys g ns) ≡ (if same f g then some i else cached c g)))
  put_evicting i g name e h =
      let node : LruNode = record { filename = name; ss_index = i } in
      let seen = λ (k : CString). ap index_of (find-evicted node c.nodes k h) in
      (
        seen f ∙ rw (e, same_refl f),
        elim (Bool-cases (same f g)) [
          | inl q ↦ inr (seen g ∙ rw (e, q))
          | inr n ↦ elim (find-drop_tail g c.nodes) [
            | inl gone ↦ inl (seen g ∙ rw (e, n, gone))
            | inr kept ↦ inr (seen g ∙ rw (e, n, kept))
          ]
        ],
      )

  -- After `lru_put` the cache knows the name with the new index; of every other name it knows
  -- what it knew, or nothing, if that name was evicted.
  pub cached-put :
      (i : ℕ) (g : CString)
      → length f ≤ 255
      → (cached (lru_put c f i) f ≡ some i)
        × ((cached (lru_put c f i) g ≡ none)
            ⊎ (cached (lru_put c f i) g ≡ (if same f g then some i else cached c g)))
  unfolding lru_put drop_tail find
  cached-put i g fits = elim (Option-cases (find lru_keys f c.nodes)) [
    | inr (n, there) ↦
        let m : LruNode = record n { ss_index = i } in
        let name : m.filename ≡ f = key-find lru_keys f c.nodes n there in
        rw (there, lru_put)
          (
            ground (arith, find-front m f name, same_refl f),
            inr (ground (arith, find-front m g name)),
          )
    | inl absent ↦
        let node : LruNode = record { filename = copy_str max_filename_len f; ss_index = i } in
        let some_nodes : ltb lru_cache_size (c.size + 1) ≡ true → 0 < length c.nodes =
          λ over. ground (arith, v.counted) in
        rw (absent, lru_put)
          (elim (Bool-cases (ltb lru_cache_size (c.size + 1))) [
            | inl over ↦ rw over (
                put_evicting i g (copy_str max_filename_len f) (take_all 255 f fits)
                  (some_nodes over))
            | inr room ↦
                rw (room, take_all 255 f fits) (ground (arith, same_refl f), inr (ground arith))
          ])
  ]
