-- ===== src/Registry/Upkeep.antt =====
-- The changes of the maps in nameserver.c keep the cache coherent: adding and removing a file, the
-- replication map, and the registration of a storage server.
use name_file_system_docs.Base.{
  ℕ, ◌≤◌, ◌<◌, ◌≡◌, refl, sym, ap, ◌∙◌, ◌⊎◌, inl, inr, Bool, false, ◌||◌, Option, none, some, List,
  [], ◌∷◌, arith,
}
use name_file_system_docs.Base.Tests.{leb, if◌then◌else◌, Bool-cases}
use name_file_system_docs.Base.Lists.{length, All, take_all}
use name_file_system_docs.Base.Strings.{CString, same, eq_of_same, same_iff}
use name_file_system_docs.Registry.Cache.{cached}
use name_file_system_docs.Registry.FileMap.{
  hashmap_find, hashmap_add, hashmap_remove, hashmap_add_frame, hashmap_remove_frame,
}
use name_file_system_docs.Registry.Routing.{
  ReplicationEntry, Routes, find_replica_ss, put_replica, add_replication_entry, add_all,
}
use name_file_system_docs.Registry.Lookup.{IsCoherent, Backed, Serves, Serves-of, Backed-of}

-- What the maps say of one file decides who serves it.
Serves-by :
    (r u : Routes) (f : CString) (i : ℕ)
    → hashmap_find u.files.file_map f ≡ hashmap_find r.files.file_map f
    → find_replica_ss u.replication_map f ≡ find_replica_ss r.replication_map f
    → Serves r f i
    → Serves u f i
Serves-by r u f i e e' (inl h) = inl (e ∙ h)
Serves-by r u f i e e' (inr (p, h, q)) = inr (p, e ∙ h, e' ∙ q)

-- A change that keeps each file's maps, or makes the cache forget the file.
pub coherent_after :
    (r u : Routes) (f : CString)
    → IsCoherent r
    → (cached u.files.lru_cache f ≡ none)
      ⊎ ((cached u.files.lru_cache f ≡ cached r.files.lru_cache f)
          × (hashmap_find u.files.file_map f ≡ hashmap_find r.files.file_map f)
          × (find_replica_ss u.replication_map f ≡ find_replica_ss r.replication_map f))
    → Backed u f (cached u.files.lru_cache f)
coherent_after r u f v (inl gone) = rw gone tt
coherent_after r u f v (inr (c, m, p)) =
    Backed-of u f _ (λ i e. Serves-by r u f i m p (Serves-of r f _ i (v.coherent f) (sym c ∙ e)))

module _ (r : Routes) (v : IsCoherent r) (f : CString) where
  pub hashmap_add-IsCoherent :
      (i : ℕ) → length f ≤ 255 → IsCoherent (record r { files = hashmap_add r.files f i })
  hashmap_add-IsCoherent i fits =
      let u : Routes = record r { files = hashmap_add r.files f i } in
      let frame = λ (g : CString). hashmap_add_frame r.files v.valid f i g fits in
      record {
        valid = (frame f).2;
        coherent = λ g. coherent_after r u g v (elim (Bool-cases (same f g)) [
          | inl q ↦ inl ((frame g).1 ∙ rw q)
          | inr n ↦ inr ((frame g).1 ∙ rw n, (frame g).0 ∙ rw n, refl)
        ]);
      }

  pub hashmap_remove-IsCoherent : IsCoherent (record r { files = hashmap_remove r.files f })
  hashmap_remove-IsCoherent =
      let u : Routes = record r { files = hashmap_remove r.files f } in
      let frame = λ (g : CString). hashmap_remove_frame r.files v.valid f g in
      record {
        valid = (frame f).2;
        coherent = λ g. coherent_after r u g v (elim (Bool-cases (same f g)) [
          | inl q ↦ inl ((frame g).1 ∙ rw q)
          | inr n ↦ inr ((frame g).1 ∙ rw n, (frame g).0 ∙ rw n, refl)
        ]);
      }

-- The files of the list are on server `i`, the other files where they were.
pub is_listed : List CString → CString → Bool
is_listed [] g = false
is_listed (f ∷ fs) g = same f g || is_listed fs g

pub add_all_frame :
    (r : Routes) (fs : List CString) (i : ℕ) (g : CString)
    → All (λ f. length f ≤ 255) fs
    → IsCoherent r
    → IsCoherent (record r { files = add_all r.files fs i })
      × (hashmap_find (add_all r.files fs i).file_map g
          ≡ (if is_listed fs g then some i else hashmap_find r.files.file_map g))
unfolding add_all is_listed
add_all_frame r [] i g fits v = (v, refl)
add_all_frame r (f ∷ fs) i g fits v =
    let u : Routes = record r { files = hashmap_add r.files f i } in
    let (coherent, found) = add_all_frame u fs i g fits.1 (hashmap_add-IsCoherent r v f i fits.0) in
    (coherent, found ∙ ground (arith, (hashmap_add_frame r.files v.valid f i g fits.0).0))

find-put_replica :
    (es : List ReplicationEntry) (f g : CString) (primary : ℕ) (replica : Option ℕ)
    → length f ≤ 255
    → find_replica_ss (put_replica es f primary replica) g
      ≡ (if same f g then replica else find_replica_ss es g)
unfolding find_replica_ss put_replica
find-put_replica [] f g primary replica fits = rw (take_all 255 f fits)
find-put_replica (e ∷ es) f g primary replica fits = ground (
  arith,
  find-put_replica es f g primary replica fits,
  same_iff e.filename f,
  same_iff e.filename g,
  same_iff f g,
)

-- While the map has room, `add_replication_entry` makes `replica` the file's replica and changes
-- no other file's; and the cache stays coherent if it knows nothing of the file.
pub add_replication_frame :
    (r : Routes) (f g : CString) (primary : ℕ) (replica : Option ℕ)
    → length f ≤ 255
    → length r.replication_map < 1000
    → cached r.files.lru_cache f ≡ none
    → IsCoherent r
    → let u = record r {
      replication_map = add_replication_entry r.replication_map f primary replica;
    } in
      (find_replica_ss (add_replication_entry r.replication_map f primary replica) g
        ≡ (if same f g then replica else find_replica_ss r.replication_map g))
      × IsCoherent u
unfolding add_replication_entry
add_replication_frame r f g primary replica fits room unknown v =
    let full : leb 1000 (length r.replication_map) ≡ false = ground arith in
    let found = λ (h : CString). find-put_replica r.replication_map f h primary replica fits in
    let u : Routes = record r {
      replication_map = put_replica r.replication_map f primary replica;
    } in
    rw full (
      found g,
      record {
        valid = v.valid;
        coherent = λ h. coherent_after r u h v (elim (Bool-cases (same f h)) [
          | inl q ↦ inl (ap (cached r.files.lru_cache) (sym (eq_of_same f h q)) ∙ unknown)
          | inr n ↦ inr (refl, refl, found h ∙ rw n)
        ]);
      },
    )
