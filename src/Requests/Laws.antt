-- ===== src/Requests/Laws.antt =====
-- What access_requests.c promises: one pending request for a file and a user, decided once, by the
-- owner that it names; and what it does not do, take a decided request out of the table.
use name_file_system_docs.Base.{
  ℕ, ◌≤◌, ◌≡◌, refl, inl, inr, Bool, false, ◌&&◌, ◌||◌, [], ◌∷◌, ◌++◌, arith,
}
use name_file_system_docs.Base.Tests.{leb, ◌==◌, if◌then◌else◌, Bool-cases}
use name_file_system_docs.Base.Lists.{length, length-append, take_all}
use name_file_system_docs.Base.Strings.{CString, same, same_iff}
use name_file_system_docs.Protocol.{err_success, err_conflict, err_not_found, err_server_error}
use name_file_system_docs.Requests.{
  AccessRequest, RequestTable, max_requests, is_duplicate, has_duplicate, is_asked, request_add,
  request_approve, request_deny,
}

-- Some request of the table is pending with these names.
unfoldable pub is_waiting : RequestTable → CString → CString → CString → Bool
is_waiting [] f requester owner = false
is_waiting (r ∷ rs) f requester owner =
    is_asked f requester owner r || is_waiting rs f requester owner

-- No two pending requests are for one file and one user, and the table has its size.
abbrev pub NoTwins : RequestTable → Type 0
NoTwins [] = Unit
NoTwins (r ∷ rs) = ((r.is_pending && has_duplicate r.filename r.requester rs) ≡ false) × NoTwins rs

pub record IsValid (t : RequestTable) : Type 0 where
  pub single : NoTwins t
  pub bounded : length t ≤ max_requests

has_duplicate-append :
    (t : RequestTable) (r : AccessRequest) (f requester : CString)
    → has_duplicate f requester (t ++ (r ∷ []))
      ≡ (has_duplicate f requester t || is_duplicate f requester r)
unfolding has_duplicate
has_duplicate-append [] r f requester = ground arith
has_duplicate-append (q ∷ t) r f requester = ground (arith, has_duplicate-append t r f requester)

NoTwins-append :
    (t : RequestTable) (r : AccessRequest)
    → NoTwins t
    → has_duplicate r.filename r.requester t ≡ false
    → NoTwins (t ++ (r ∷ []))
unfolding has_duplicate
NoTwins-append [] r n h = (ground arith, tt)
NoTwins-append (q ∷ t) r n h = (
  rw (has_duplicate-append t r q.filename q.requester) (
      ground (
        arith,
        n.0,
        same_iff q.filename r.filename,
        same_iff r.filename q.filename,
        same_iff q.requester r.requester,
        same_iff r.requester q.requester,
      )),
  NoTwins-append t r n.1 (ground arith),
)

has_duplicate-approve :
    (t : RequestTable) (f requester owner g q : CString)
    → has_duplicate g q t ≡ false
    → has_duplicate g q (request_approve t f requester owner).1 ≡ false
unfolding has_duplicate request_approve
has_duplicate-approve [] f requester owner g q h = refl
has_duplicate-approve (r ∷ t) f requester owner g q h =
    ground (arith, has_duplicate-approve t f requester owner g q)

approve-NoTwins :
    (t : RequestTable) (f requester owner : CString)
    → NoTwins t
    → NoTwins (request_approve t f requester owner).1
unfolding request_approve
approve-NoTwins [] f requester owner n = tt
approve-NoTwins (r ∷ t) f requester owner n = elim (Bool-cases (is_asked f requester owner r)) [
  | inl hit ↦ rw hit (refl, n.1)
  | inr miss ↦ rw miss (
    ground (arith, n.0, has_duplicate-approve t f requester owner r.filename r.requester),
    approve-NoTwins t f requester owner n.1,
  )
]

pub length-approve :
    (t : RequestTable) (f requester owner : CString)
    → length (request_approve t f requester owner).1 ≡ length t
unfolding request_approve
length-approve [] f requester owner = refl
length-approve (r ∷ t) f requester owner = ground (arith, length-approve t f requester owner)

-- Denying a request does to the table what approving it does.
pub deny-approve :
    (t : RequestTable) (f requester owner : CString)
    → request_deny t f requester owner ≡ request_approve t f requester owner
unfolding request_deny request_approve
deny-approve [] f requester owner = refl
deny-approve (r ∷ t) f requester owner = rw (deny-approve t f requester owner)

pub add-IsValid :
    (t : RequestTable) (f requester owner : CString) (access_type now : ℕ)
    → length f ≤ 255
    → length requester ≤ 63
    → IsValid t
    → IsValid (request_add t f requester owner access_type now).1
unfolding request_add
add-IsValid t f requester owner access_type now fits fits' v =
    elim (Bool-cases (leb max_requests (length t))) [
      | inl at_limit ↦ rw at_limit v
      | inr room ↦ rw room (elim (Bool-cases (has_duplicate f requester t)) [
        | inl twin ↦ rw twin v
        | inr new ↦ rw new (record {
          single =
              NoTwins-append t _ v.single
                (rw (take_all 255 f fits, take_all 63 requester fits') new);
          bounded = rw length-append (ground arith);
        })
      ])
    ]

pub approve-IsValid :
    (t : RequestTable) (f requester owner : CString)
    → IsValid t
    → IsValid (request_approve t f requester owner).1
approve-IsValid t f requester owner v = record {
  single = approve-NoTwins t f requester owner v.single;
  bounded = omega (arith, length-approve t f requester owner, v.bounded);
}

no_duplicate_waiting :
    (t : RequestTable) (f requester owner : CString)
    → has_duplicate f requester t ≡ false
    → is_waiting t f requester owner ≡ false
unfolding has_duplicate is_waiting
no_duplicate_waiting [] f requester owner h = refl
no_duplicate_waiting (r ∷ t) f requester owner h =
    ground (arith, no_duplicate_waiting t f requester owner)

once :
    (t : RequestTable) (f requester owner : CString)
    → NoTwins t
    → let u = request_approve t f requester owner in
      (u.0 ≡ (if is_waiting t f requester owner then err_success else err_not_found))
      × (is_waiting u.1 f requester owner ≡ false)
      × ((if is_waiting t f requester owner then t else u.1) ≡ t)
unfolding request_approve is_waiting
once [] f requester owner n = (refl, refl, refl)
once (r ∷ t) f requester owner n = elim (Bool-cases (is_asked f requester owner r)) [
  | inl hit ↦
      let no_twin : has_duplicate f requester t ≡ false =
        ground (arith, n.0, hit, same_iff r.filename f, same_iff r.requester requester) in
      rw hit (refl, no_duplicate_waiting t f requester owner no_twin, refl)
  | inr miss ↦ rw miss (ground (arith, miss, once t f requester owner n.1))
]

-- A decision is made once. On a table with no twins, approving succeeds exactly if such a request
-- waits; afterwards it no longer waits, so that a second decision would answer ERR_NOT_FOUND; and
-- a refused decision leaves the table as it was.
pub approve_once :
    (t : RequestTable) (f requester owner : CString)
    → IsValid t
    → let u = request_approve t f requester owner in
      (u.0 ≡ (if is_waiting t f requester owner then err_success else err_not_found))
      × (is_waiting u.1 f requester owner ≡ false)
      × ((if is_waiting t f requester owner then t else u.1) ≡ t)
approve_once t f requester owner v = once t f requester owner v.single

is_waiting-append :
    (t : RequestTable) (r : AccessRequest) (f requester owner : CString)
    → is_waiting (t ++ (r ∷ [])) f requester owner
      ≡ (is_waiting t f requester owner || is_asked f requester owner r)
unfolding is_waiting
is_waiting-append [] r f requester owner = ground arith
is_waiting-append (q ∷ t) r f requester owner =
    ground (arith, is_waiting-append t r f requester owner)

-- `request_add` answers by the table's room and by whether the user already has a pending
-- request for the file, whoever it names as owner; if it succeeds the request waits, and
-- nothing changes about any other. The names fit their arrays.
pub add_waiting :
    (t : RequestTable) (f requester owner : CString) (access_type now : ℕ) (g q o : CString)
    → length f ≤ 255
    → length requester ≤ 63
    → length owner ≤ 63
    → let u = request_add t f requester owner access_type now in
      (u.0 ≡ (
        if leb 100 (length t)
        then err_server_error
        else if has_duplicate f requester t
        then err_conflict
        else err_success))
      × (is_waiting u.1 g q o ≡ (
          is_waiting t g q o
          || (u.0 == err_success && same f g && same requester q && same owner o)))
unfolding request_add
add_waiting t f requester owner access_type now g q o fits fits' fits'' =
    elim (Bool-cases (leb max_requests (length t))) [
      | inl at_limit ↦ rw at_limit (refl, ground arith)
      | inr room ↦ rw room (elim (Bool-cases (has_duplicate f requester t)) [
        | inl twin ↦ rw twin (refl, ground arith)
        | inr new ↦
            rw
              (
                new,
                is_waiting-append,
                take_all 255 f fits,
                take_all 63 requester fits',
                take_all 63 owner fits'',
              )
              (refl, ground arith)
      ])
    ]

-- An approval succeeds only if the request waits.
pub answer-approve :
    (t : RequestTable) (f requester owner : CString)
    → ((request_approve t f requester owner).0 == err_success) ≡ is_waiting t f requester owner
unfolding request_approve is_waiting
answer-approve [] f requester owner = refl
answer-approve (r ∷ t) f requester owner = ground (arith, answer-approve t f requester owner)
