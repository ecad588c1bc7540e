-- ===== src/Registry/Recency.antt =====
-- The LRU cache of nameserver.c against its contract: it holds the names that were used last.
use name_file_system_docs.Base.{
  ℕ, zero, suc, ◌+◌, ◌≤◌, ◌<◌, min, ◌≡◌, refl, sym, ap, ◌∙◌, inl, inr, true, false, none, some,
  List, [], ◌∷◌, arith,
}
use name_file_system_docs.Base.Tests.{ltb, Bool-cases, Option-cases}
use name_file_system_docs.Base.Lists.{length, take, All, length-take, take_all}
use name_file_system_docs.Base.Strings.{CString, same}
use name_file_system_docs.Table.Chain.{find, unlink}
use name_file_system_docs.Table.Laws.{key-find}
use name_file_system_docs.Registry.Cache.{
  LruNode, LruCache, lru_keys, lru_cache_size, empty_cache, lru_put, lru_move_to_front, drop_tail,
  IsValid, put-IsValid,
}

-- The contract: all names that were ever put, the last one first.
unfoldable pub touch : CString → ℕ → List LruNode → List LruNode
touch f i l = record { filename = f; ss_index = i } ∷ unlink lru_keys f l

unlink-take_found :
    (f : CString) (n : ℕ) (l : List LruNode) (m : LruNode)
    → find lru_keys f (take (suc n) l) ≡ some m
    → unlink lru_keys f (take (suc n) l) ≡ take n (unlink lru_keys f l)
unfolding find unlink
unlink-take_found f n [] m h = absurd (ground arith)
unlink-take_found f zero (x ∷ l) m h = ground arith
unlink-take_found f (suc n) (x ∷ l) m h = elim (Bool-cases (same x.filename f)) [
  | inl hit ↦ rw hit
  | inr miss ↦ rw miss (ap (λ (t : List LruNode). x ∷ t) (unlink-take_found f n l m (rw miss at h)))
]

take-unlink_absent :
    (f : CString) (n : ℕ) (l : List LruNode)
    → find lru_keys f (take (suc n) l) ≡ none
    → take n (unlink lru_keys f l) ≡ take n l
unfolding find unlink
take-unlink_absent f zero l h = refl
take-unlink_absent f (suc n) [] h = refl
take-unlink_absent f (suc n) (x ∷ l) h = elim (Bool-cases (same x.filename f)) [
  | inl hit ↦ absurd (ground arith)
  | inr miss ↦ rw miss (ap (λ (t : List LruNode). x ∷ t) (take-unlink_absent f n l (rw miss at h)))
]

drop_tail-take :
    (x : LruNode) (n : ℕ) (l : List LruNode)
    → n < length l
    → drop_tail (x ∷ take (suc n) l) ≡ x ∷ take n l
unfolding drop_tail
drop_tail-take x zero [] h = absurd (omega arith)
drop_tail-take x zero (y ∷ l) h = refl
drop_tail-take x (suc n) [] h = absurd (omega arith)
drop_tail-take x (suc n) (y ∷ l) h =
    ap (λ (t : List LruNode). x ∷ t) (drop_tail-take y n l (omega arith))

-- The list holds the names that were put last: the first hundred of all, in their order.
abbrev pub Holds : LruCache → List LruNode → Type 0
Holds c l = c.nodes ≡ take lru_cache_size l

length_full : (a b s : ℕ) → a ≡ s → a ≡ min 100 b → ltb lru_cache_size (s + 1) ≡ true → 99 < b
length_full a b s p q r = ground arith

length_part : (a b s : ℕ) → a ≡ s → a ≡ min 100 b → ltb lru_cache_size (s + 1) ≡ false → b ≤ 99
length_part a b s p q r = ground arith

put-Holds :
    (c : LruCache) (l : List LruNode) (f : CString) (i : ℕ)
    → length f ≤ 255
    → IsValid c
    → Holds c l
    → Holds (lru_put c f i) (touch f i l)
unfolding lru_put touch lru_move_to_front
put-Holds c l f i fits v h =
    let at = λ (g : CString). ap (find lru_keys g) (sym h) in
    elim (Option-cases (find lru_keys f c.nodes)) [
      | inr (n, there) ↦
          rw (there, lru_put)
            (ground (
              arith,
              key-find lru_keys f c.nodes n there,
              h,
              unlink-take_found f 99 l n (at f ∙ there),
            ))
      | inl absent ↦
          let skipped = take-unlink_absent f 99 l (at f ∙ absent) in
          rw (absent, lru_put)
            (elim (Bool-cases (ltb lru_cache_size (c.size + 1))) [
              | inl over ↦
                  let longer : 99 < length l =
                    length_full (length c.nodes) (length l) c.size v.counted
                      (ap length h ∙ length-take 100 l) over in
                  rw (over, take_all 255 f fits, h, skipped)
                    (drop_tail-take (record { filename = f; ss_index = i }) 99 l longer)
              | inr room ↦
                  let short : length l ≤ 99 =
                    length_part (length c.nodes) (length l) c.size v.counted
                      (ap length h ∙ length-take 100 l) room in
                  rw (
                    room,
                    take_all 255 f fits,
                    h,
                    skipped,
                    take_all 99 l short,
                    take_all 100 l (omega (arith, short)),
                  )
            ])
    ]

-- The cache after the puts, the first one first, and the contract's list.
unfoldable pub put_all : LruCache → List (CString × ℕ) → LruCache
put_all c [] = c
put_all c ((f, i) ∷ ps) = put_all (lru_put c f i) ps

unfoldable pub touch_all : List LruNode → List (CString × ℕ) → List LruNode
touch_all l [] = l
touch_all l ((f, i) ∷ ps) = touch_all (touch f i l) ps

put_all-Holds :
    (c : LruCache) (l : List LruNode) (ps : List (CString × ℕ))
    → All (λ p. length p.0 ≤ 255) ps
    → IsValid c
    → Holds c l
    → Holds (put_all c ps) (touch_all l ps) × IsValid (put_all c ps)
unfolding put_all touch_all
put_all-Holds c l [] a v h = (h, v)
put_all-Holds c l ((f, i) ∷ ps) a v h =
    put_all-Holds (lru_put c f i) (touch f i l) ps a.1 (put-IsValid c v f i a.0)
      (put-Holds c l f i a.0 v h)

-- Refinement. After any puts into an empty cache its nodes are the hundred names that were put
-- last, most recent first, each with the index of its last put; `size` counts them, and no name
-- stands twice. The names fit their arrays.
pub put_all_recent :
    (ps : List (CString × ℕ))
    → All (λ p. length p.0 ≤ 255) ps
    → ((put_all empty_cache ps).nodes ≡ take lru_cache_size (touch_all [] ps))
      × IsValid (put_all empty_cache ps)
unfolding empty_cache
put_all_recent ps a =
    put_all-Holds empty_cache [] ps a
      (record { distinct = tt; counted = refl; bounded = omega arith }) refl
