-- ===== src/Acl/Users.antt =====
-- The list helpers of nameserver/acl.c: `is_in_list`, `add_to_list` and `remove_from_list`.
use name_file_system_docs.Base.{
  ℕ, ◌≤◌, ◌≡◌, refl, ◌∙◌, inl, inr, Bool, true, false, ◌&&◌, ◌||◌, List, [], ◌∷◌, ◌++◌, arith,
}
use name_file_system_docs.Base.Tests.{leb, if◌then◌else◌, Bool-cases}
use name_file_system_docs.Base.Lists.{length, All, length-append, take_all, All-append}
use name_file_system_docs.Base.Strings.{CString, same, same_iff, copy_str}
use name_file_system_docs.Protocol.{max_username_len}

abbrev pub acl_max_users : ℕ
acl_max_users = 50

-- The results 1, 0 and -1 of `add_to_list`.
pub data Added : Type 0 where
  added already full : Added

unfoldable pub is_in_list : List CString → CString → Bool
is_in_list [] user = false
is_in_list (u ∷ us) user = if same u user then true else is_in_list us user

unfoldable pub add_to_list : List CString → CString → Added × List CString
add_to_list us user =
    if is_in_list us user
    then (already, us)
    else if leb acl_max_users (length us)
    then (full, us)
    else (added, us ++ (copy_str max_username_len user ∷ []))

unfoldable pub remove_from_list : List CString → CString → Bool × List CString
remove_from_list [] user = (false, [])
remove_from_list (u ∷ us) user =
    let (removed, rest) = remove_from_list us user in
    if same u user then (true, us) else (removed, u ∷ rest)

-- A list with room, no user twice, and names that their buffers hold.
abbrev pub Unique : List CString → Type 0
Unique [] = Unit
Unique (u ∷ us) = (is_in_list us u ≡ false) × Unique us

pub record IsUserList (us : List CString) : Type 0 where
  pub unique : Unique us
  pub bounded : length us ≤ acl_max_users
  pub named : All (λ u. length u ≤ 63) us

pub is_in_list-append :
    (us : List CString) (v w : CString)
    → is_in_list (us ++ (v ∷ [])) w ≡ (is_in_list us w || same v w)
unfolding is_in_list
is_in_list-append [] v w = ground arith
is_in_list-append (u ∷ us) v w = ground (arith, is_in_list-append us v w)

pub Unique-append :
    (us : List CString) (v : CString)
    → Unique us
    → is_in_list us v ≡ false
    → Unique (us ++ (v ∷ []))
unfolding is_in_list
Unique-append [] v h absent = (refl, tt)
Unique-append (u ∷ us) v h absent = (
  is_in_list-append us v u ∙ ground (arith, h.0, same_iff u v, same_iff v u),
  Unique-append us v h.1 (ground arith),
)

pub is_in_list-remove :
    (us : List CString) (user w : CString)
    → Unique us
    → (is_in_list (remove_from_list us user).1 w ≡ (if same user w then false else is_in_list us w))
      × ((remove_from_list us user).0 ≡ is_in_list us user)
unfolding is_in_list remove_from_list
is_in_list-remove [] user w h = ground arith
is_in_list-remove (u ∷ us) user w h =
    ground
      (arith, is_in_list-remove us user w h.1, same_iff u user, same_iff u w, same_iff user w, h.0)

remove-All :
    (P : CString → Type 0) (us : List CString) (user : CString)
    → All P us
    → All P (remove_from_list us user).1
unfolding remove_from_list
remove-All P [] user a = tt
remove-All P (u ∷ us) user a = elim (Bool-cases (same u user)) [
  | inl hit ↦ rw hit a.1
  | inr miss ↦ rw miss (a.0, remove-All P us user a.1)
]

remove-Unique :
    (us : List CString) (user : CString) → Unique us → Unique (remove_from_list us user).1
unfolding remove_from_list
remove-Unique [] user h = tt
remove-Unique (u ∷ us) user h = elim (Bool-cases (same u user)) [
  | inl hit ↦ rw hit h.1
  | inr miss ↦ rw miss (
    ground (arith, is_in_list-remove us user u h.1, h.0, same_iff u user, same_iff user u),
    remove-Unique us user h.1,
  )
]

length-remove-le :
    (us : List CString) (user : CString) → length (remove_from_list us user).1 ≤ length us
unfolding remove_from_list
length-remove-le [] user = omega arith
length-remove-le (u ∷ us) user = ground (arith, length-remove-le us user)

-- `add_to_list` and `remove_from_list` keep a user list well formed: at most 50 users, none twice.
pub add-IsUserList :
    (us : List CString) (user : CString)
    → length user ≤ 63
    → IsUserList us
    → IsUserList (add_to_list us user).1
unfolding add_to_list
add-IsUserList us user fits v = elim (Bool-cases (is_in_list us user)) [
  | inl old ↦ rw old v
  | inr new ↦ rw new (elim (Bool-cases (leb acl_max_users (length us))) [
    | inl at_limit ↦ rw at_limit v
    | inr room ↦
        rw (room, take_all 63 user fits)
          (record {
            unique = Unique-append us user v.unique new;
            bounded = rw length-append (ground arith);
            named = All-append _ us (user ∷ []) v.named (fits, tt);
          })
  ])
]

pub remove-IsUserList :
    (us : List CString) (user : CString) → IsUserList us → IsUserList (remove_from_list us user).1
remove-IsUserList us user v = record {
  unique = remove-Unique us user v.unique;
  bounded = omega (arith, length-remove-le us user, v.bounded);
  named = remove-All _ us user v.named;
}

-- After `add_to_list` the list holds the users that it held, and the new one unless it was full.
pub is_in_list-add :
    (us : List CString) (user w : CString)
    → length user ≤ 63
    → is_in_list (add_to_list us user).1 w ≡ (
        is_in_list us w
        || (elim (add_to_list us user).0 [ full ↦ false | _ ↦ true ] && same user w))
unfolding add_to_list
is_in_list-add us user w fits =
    ground (arith, is_in_list-append us user w, take_all 63 user fits, same_iff user w)
