-- ===== src/Acl/Saved/Added.antt =====
-- `acl_add_access` for one name after another, as `acl_load` calls it: the names stand behind those
-- that the entry held.
use name_file_system_docs.Base.{
  ℕ, ◌≤◌, ◌≡◌, refl, sym, ap, ◌∙◌, subst, false, ◌||◌, some, List, [], ◌∷◌, ◌++◌, append-nil,
  append_assoc, arith,
}
use name_file_system_docs.Base.Tests.{leb, if◌then◌else◌}
use name_file_system_docs.Base.Lists.{length, All, length-append, take_all}
use name_file_system_docs.Base.Strings.{CString, same, same_iff}
use name_file_system_docs.Acl.{AclEntry, AclTable, acl_add_access, acl_find_entry, acl_keys}
use name_file_system_docs.Acl.Saved.{add_users}
use name_file_system_docs.Protocol.{access_read, access_write}
use name_file_system_docs.Table.Valid.{lookup-update}
use name_file_system_docs.Acl.Users.{
  Added, IsUserList, Unique, acl_max_users, add_to_list, added, is_in_list,
}

is_in_list-middle :
    (us vs : List CString) (v w : CString)
    → is_in_list (us ++ (v ∷ vs)) w ≡ (is_in_list us w || same v w || is_in_list vs w)
unfolding is_in_list
is_in_list-middle [] vs v w = ground arith
is_in_list-middle (u ∷ us) vs v w = ground (arith, is_in_list-middle us vs v w)

Unique-middle :
    (us vs : List CString) (v : CString) → Unique (us ++ (v ∷ vs)) → is_in_list us v ≡ false
unfolding is_in_list
Unique-middle [] vs v h = refl
Unique-middle (u ∷ us) vs v h =
    ground (
      arith,
      is_in_list-middle us vs v u,
      h.0,
      Unique-middle us vs v h.1,
      same_iff u v,
      same_iff v u,
    )

named-middle :
    (us vs : List CString) (v : CString) → All (λ u. length u ≤ 63) (us ++ (v ∷ vs)) → length v ≤ 63
named-middle [] vs v h = h.0
named-middle (u ∷ us) vs v h = named-middle us vs v h.1

-- Where the whole list is well formed, its next name is added behind the earlier ones.
add_to_list-middle :
    (us vs : List CString) (v : CString)
    → IsUserList (us ++ (v ∷ vs))
    → add_to_list us v ≡ (added, us ++ (v ∷ []))
unfolding add_to_list
add_to_list-middle us vs v w =
    let absent = Unique-middle us vs v w.unique in
    let fits = take_all 63 v (named-middle us vs v w.named) in
    let room : leb acl_max_users (length us) ≡ false =
      ground (arith, length-append us (v ∷ vs), w.bounded) in
    rw (absent, room, fits) refl

-- What a lookup gives after a change of one entry.
abbrev pub Becomes : AclTable → AclTable → CString → AclEntry → Type 0
Becomes acl next f e =
    (j : CString) → acl_find_entry next j ≡ (if same f j then some e else acl_find_entry acl j)

-- One of the two lists of an entry, and what `acl_add_access` does to it.
pub record IsSide (access_type : ℕ) (get : AclEntry → List CString)
    (put : AclEntry → List CString → AclEntry) : Type 0 where
  pub put_same : (e : AclEntry) → put e (get e) ≡ e
  pub get_put : (e : AclEntry) (us : List CString) → get (put e us) ≡ us
  pub put_put : (e : AclEntry) (us vs : List CString) → put (put e us) vs ≡ put e vs
  pub step :
      (acl : AclTable) (f u : CString) (e : AclEntry)
      → acl_find_entry acl f ≡ some e
      → Becomes acl (acl_add_access acl f u access_type).1 f (put e (add_to_list (get e) u).1)

pub read-IsSide : IsSide access_read (λ e. e.read_users) (λ e us. record e { read_users = us })
unfolding acl_add_access
read-IsSide = record {
  put_same = λ e. refl;
  get_put = λ e us. refl;
  put_put = λ e us vs. refl;
  step = λ acl f u e there j.
      rw (there, acl_add_access)
        (lookup-update acl_keys acl.buckets f j _ (λ e. refl) ∙ rw there refl);
}

pub write-IsSide : IsSide access_write (λ e. e.write_users) (λ e us. record e { write_users = us })
unfolding acl_add_access
write-IsSide = record {
  put_same = λ e. refl;
  get_put = λ e us. refl;
  put_put = λ e us vs. refl;
  step = λ acl f u e there j.
      rw (there, acl_add_access)
        (lookup-update acl_keys acl.buckets f j _ (λ e. refl) ∙ rw there refl);
}

module _ {access_type : ℕ} {get : AclEntry → List CString}
    {put : AclEntry → List CString → AclEntry} (side : IsSide access_type get put)
    (f : CString) where
  pub add_users-Becomes :
      (acl : AclTable) (us : List CString) (e : AclEntry)
      → acl_find_entry acl f ≡ some e
      → IsUserList (get e ++ us)
      → Becomes acl (add_users acl f access_type us) f (put e (get e ++ us))
  unfolding add_users
  add_users-Becomes acl [] e there w j =
      rw (append-nil, side.put_same e) ground (arith, there, same_iff f j)
  add_users-Becomes acl (u ∷ us) e there w j =
      let next = (acl_add_access acl f u access_type).1 in
      let e' = put e (get e ++ (u ∷ [])) in
      let stepped : Becomes acl next f e' = λ j.
        rw (← ap (λ (r : Added × List CString). r.1) (add_to_list-middle (get e) us u w))
          (side.step acl f u e there j) in
      let found : acl_find_entry next f ≡ some e' = stepped f ∙ rw ((same_iff f f).1 refl) refl in
      let whole : get e' ++ us ≡ get e ++ (u ∷ us) =
        rw (side.get_put e (get e ++ (u ∷ []))) (append_assoc (get e) (u ∷ []) us) in
      add_users-Becomes next us e' found (subst IsUserList (sym whole) w) j
      ∙ rw (whole, side.put_put e (get e ++ (u ∷ [])) (get e ++ (u ∷ us)), stepped j) (ground arith)
