-- ===== src/Registry/Lookup.antt =====
-- `find_ss_for_file` of nameserver.c: which server it may name, with the cache in front of the map
-- and the failover behind it.
use name_file_system_docs.Base.{
  ℕ, ◌≤◌, ◌≡◌, refl, sym, ap, ◌∙◌, subst, ◌⊎◌, inl, inr, Bool, true, false, Option, none, some,
  arith,
}
use name_file_system_docs.Base.Tests.{Bool-cases, Option-cases}
use name_file_system_docs.Base.Lists.{length}
use name_file_system_docs.Base.Strings.{CString, same, same_refl, eq_of_same}
use name_file_system_docs.Registry.Cache.{lru_get, lru_put, cached, get-IsValid, put-IsValid}
use name_file_system_docs.Registry.Known.{cached-get, cached-put}
use name_file_system_docs.Registry.FileMap.{
  Files, hashmap_find, hashmap_add, hashmap_remove, hashmap_add_frame, hashmap_remove_frame,
}
use name_file_system_docs.Registry.FileMap
use name_file_system_docs.Registry.Routing.{
  Routes, is_alive, find_replica_ss, find_ss_for_file, find_in_map, fail_over, remember, after_get,
}

-- The maps let server `i` serve the file: it is in the file map, with `i` or with `i` as replica.
abbrev pub Serves : Routes → CString → ℕ → Type 0
Serves r f i =
    (hashmap_find r.files.file_map f ≡ some i)
    ⊎ ((p : ℕ) × (hashmap_find r.files.file_map f ≡ some p)
        × (find_replica_ss r.replication_map f ≡ some i))

-- What the cache says of a file is so by the maps.
abbrev pub Backed : Routes → CString → Option ℕ → Type 0
Backed r f none = Unit
Backed r f (some i) = Serves r f i

pub Serves-of :
    (r : Routes) (f : CString) (o : Option ℕ) (i : ℕ) → Backed r f o → o ≡ some i → Serves r f i
Serves-of r f none i b e = absurd (ground arith)
Serves-of r f (some j) i b e = subst (λ (k : ℕ). Serves r f k) (ground arith) b

pub Backed-of :
    (r : Routes) (f : CString) (o : Option ℕ) → ((i : ℕ) → o ≡ some i → Serves r f i) → Backed r f o
Backed-of r f none h = tt
Backed-of r f (some j) h = h j refl

-- The cache and the map are well formed, and the cache says nothing that the maps do not.
pub record IsCoherent (r : Routes) : Type 0 where
  pub valid : FileMap.IsValid r.files
  pub coherent : (f : CString) → Backed r f (cached r.files.lru_cache f)

-- What a search leaves alone.
pub record IsSearched (r u : Routes) : Type 0 where
  pub same_map : u.files.file_map ≡ r.files.file_map
  pub same_servers : u.servers ≡ r.servers
  pub same_replicas : u.replication_map ≡ r.replication_map
  pub coherent : IsCoherent u

-- The file has a replica on a server that is alive.
abbrev pub has_live_replica : Routes → CString → Bool
has_live_replica r f = elim (find_replica_ss r.replication_map f) [
  | none ↦ false
  | some j ↦ is_alive r.servers j
]

module _ (r : Routes) (v : IsCoherent r) (f : CString) (fits : length f ≤ 255) where
  after_get-IsCoherent : IsCoherent (after_get r f)
  after_get-IsCoherent = record {
    valid = record {
      table = v.valid.table;
      counted = v.valid.counted;
      cache = get-IsValid r.files.lru_cache v.valid.cache f;
    };
    coherent = λ g.
        subst (Backed r g) (sym (cached-get r.files.lru_cache v.valid.cache f g).1) (v.coherent g);
  }

  remember-IsCoherent : (i : ℕ) → Serves r f i → IsCoherent (remember (after_get r f) f i).1
  remember-IsCoherent i serves =
      let c = (lru_get r.files.lru_cache f).1 in
      let good = after_get-IsCoherent in
      let put = λ (g : CString). cached-put c good.valid.cache f i g fits in
      record {
        valid = record {
          table = v.valid.table;
          counted = v.valid.counted;
          cache = put-IsValid c good.valid.cache f i fits;
        };
        coherent = λ g. Backed-of (remember (after_get r f) f i).1 g _ (λ j e.
            elim (Bool-cases (same f g)) [
              | inl q ↦
                  let same_name : f ≡ g = eq_of_same f g q in
                  let seen : cached (lru_put c f i) f ≡ some j =
                    ap (cached (lru_put c f i)) same_name ∙ e in
                  let same_index : i ≡ j = ground (arith, (put f).0, seen) in
                  subst (λ (h : CString). Serves r h j) same_name
                    (subst (λ (k : ℕ). Serves r f k) same_index serves)
              | inr n ↦ elim ((put g).1) [
                | inl gone ↦ absurd (ground arith)
                | inr kept ↦ Serves-of r g _ j (good.coherent g) (sym (kept ∙ rw n) ∙ e)
              ]
            ]);
      }

  searched : (c : Routes) → c ≡ after_get r f → IsSearched r c
  searched c e = subst (IsSearched r) (sym e) (record {
    same_map = refl;
    same_servers = refl;
    same_replicas = refl;
    coherent = after_get-IsCoherent;
  })

  remembered : (i : ℕ) → Serves r f i → IsSearched r (remember (after_get r f) f i).1
  remembered i serves = record {
    same_map = refl;
    same_servers = refl;
    same_replicas = refl;
    coherent = remember-IsCoherent i serves;
  }

  -- The outcomes of the search.
  abbrev pub Outcome : Option ℕ × Routes → Type 0
  Outcome (some i, u) = (is_alive r.servers i ≡ true) × Serves r f i × IsSearched r u
  Outcome (none, u) =
      ((hashmap_find r.files.file_map f ≡ none)
        ⊎ ((p : ℕ) × (hashmap_find r.files.file_map f ≡ some p)
            × (is_alive r.servers p ≡ false)
            × (has_live_replica r f ≡ false)))
      × IsSearched r u

  fail_over-Outcome :
      (p : ℕ) (o : Option ℕ)
      → hashmap_find r.files.file_map f ≡ some p
      → is_alive r.servers p ≡ false
      → find_replica_ss r.replication_map f ≡ o
      → Outcome (fail_over (after_get r f) f o)
  unfolding fail_over
  fail_over-Outcome p none e dead o = (inr (p, e, dead, rw (o, has_live_replica)), searched _ refl)
  fail_over-Outcome p (some j) e dead o = elim (Bool-cases (is_alive r.servers j)) [
    | inl alive ↦ rw alive (alive, inr (p, e, o), remembered j (inr (p, e, o)))
    | inr dead' ↦ rw dead' (inr (p, e, dead, rw (o, has_live_replica) dead'), searched _ refl)
  ]

  find_in_map-Outcome :
      (o : Option ℕ)
      → hashmap_find r.files.file_map f ≡ o
      → Outcome (find_in_map (after_get r f) f o)
  unfolding find_in_map
  find_in_map-Outcome none e = (inl e, searched _ refl)
  find_in_map-Outcome (some p) e = elim (Bool-cases (is_alive r.servers p)) [
    | inl alive ↦ rw alive (alive, inl e, remembered p (inl e))
    | inr dead ↦ rw dead (fail_over-Outcome p (find_replica_ss r.replication_map f) e dead refl)
  ]

  -- The search is safe and complete, whatever the cache holds. A server that it names is alive
  -- and is the one that the file map names, or the file's replica. It names none only if the
  -- file is not in the map, or its server is down and its replica, if it has one, is down too.
  -- The maps and the servers are left alone, and the cache stays coherent with them. This holds
  -- in a state where the cache agrees with the maps, for a name that fits its array.
  pub find_ss_for_file-Outcome : Outcome (find_ss_for_file r f)
  unfolding find_ss_for_file
  find_ss_for_file-Outcome =
      let slow = find_in_map-Outcome (hashmap_find r.files.file_map f) refl in
      elim (Option-cases (lru_get r.files.lru_cache f).0) [
        | inl miss ↦ rw (miss, find_ss_for_file) slow
        | inr (i, hit) ↦
            rw (hit, find_ss_for_file)
              (elim (Bool-cases (is_alive r.servers i)) [
                | inl alive ↦ rw alive (
                  alive,
                  Serves-of r f _ i (v.coherent f)
                      (sym (cached-get r.files.lru_cache v.valid.cache f f).0 ∙ hit),
                  searched _ refl,
                )
                | inr dead ↦ rw dead slow
              ])
      ]

-- A removed file is found nowhere any more.
pub find_ss-removed :
    (r : Routes) (f : CString)
    → length f ≤ 255
    → IsCoherent r
    → (find_ss_for_file (record r { files = hashmap_remove r.files f }) f).0 ≡ none
unfolding find_ss_for_file find_in_map
find_ss-removed r f fits v =
    let gone = hashmap_remove_frame r.files v.valid f f in
    let forgot : cached (hashmap_remove r.files f).lru_cache f ≡ none = gone.1 ∙ rw (same_refl f) in
    let u : Routes = record r { files = hashmap_remove r.files f } in
    let miss : (lru_get u.files.lru_cache f).0 ≡ none =
      (cached-get u.files.lru_cache gone.2.cache f f).0 ∙ forgot in
    let absent : hashmap_find u.files.file_map f ≡ none = gone.0 ∙ rw (same_refl f) in
    rw (miss, absent, find_ss_for_file)

-- An added file is found on the server that it was added to, if that is alive.
find_ss-added :
    (r : Routes) (f : CString) (i : ℕ)
    → length f ≤ 255
    → IsCoherent r
    → is_alive r.servers i ≡ true
    → (find_ss_for_file (record r { files = hashmap_add r.files f i }) f).0 ≡ some i
unfolding find_ss_for_file find_in_map
find_ss-added r f i fits v alive =
    let there = hashmap_add_frame r.files v.valid f i f fits in
    let forgot : cached (hashmap_add r.files f i).lru_cache f ≡ none = there.1 ∙ rw (same_refl f) in
    let u : Routes = record r { files = hashmap_add r.files f i } in
    let miss : (lru_get u.files.lru_cache f).0 ≡ none =
      (cached-get u.files.lru_cache there.2.cache f f).0 ∙ forgot in
    let found : hashmap_find u.files.file_map f ≡ some i = there.0 ∙ rw (same_refl f) in
    rw (miss, found, find_ss_for_file, alive)
