-- ===== src/Socket/Chunks.antt =====
-- The loops of common/socket_utils.c whatever the sizes of the chunks: what is sent arrives.
use name_file_system_docs.Base.{
  ℕ, zero, suc, ◌+◌, ◌-◌, ◌≤◌, min, ◌≡◌, refl, sym, ap, ◌∙◌, none, some, [], ◌∷◌, ◌++◌, append-nil,
  append_assoc, arith,
}
use name_file_system_docs.Base.Lists.{length, take, drop, take-split, drop-split, length-drop}
use name_file_system_docs.Base.Strings.{CString}
use name_file_system_docs.Socket.{Script, complete, receive_loop, send_loop}

-- A script whose calls move at least one byte each.
abbrev pub IsMoving : Script → Type 0
IsMoving [] = Unit
IsMoving (none ∷ script) = ⊥
IsMoving (some zero ∷ script) = ⊥
IsMoving (some (suc n) ∷ script) = IsMoving script

-- What a loop has received without an error is the next bytes of the connection, and no more.
pub receive_loop-complete :
    (room : ℕ) (buf bs : CString) (script : Script) (s : CString)
    → (receive_loop room buf script s).0 ≡ complete bs
    → (bs ≡ buf ++ take room s)
      × (room ≤ length s)
      × ((receive_loop room buf script s).1 ≡ drop room s)
unfolding receive_loop
receive_loop-complete zero buf bs script s h = (rw append-nil ground (arith, h), omega arith, refl)
receive_loop-complete (suc room) buf bs [] s h = absurd (ground arith)
receive_loop-complete (suc room) buf bs (none ∷ script) s h = absurd (ground arith)
receive_loop-complete (suc room) buf bs (some zero ∷ script) s h = absurd (ground arith)
receive_loop-complete (suc room) buf bs (some (suc n) ∷ script) [] h = absurd (ground arith)
receive_loop-complete (suc room) buf bs (some (suc n) ∷ script) (b ∷ s) h =
    let k = min (min n room) (length s) in
    let (made, whole, rest) =
      receive_loop-complete (room - k) (buf ++ (b ∷ take k s)) bs script (drop k s) h in
    let parts : k + (room - k) ≡ room = omega arith in
    (
      made
          ∙ append_assoc buf (b ∷ take k s) (take (room - k) (drop k s))
          ∙ ap (λ (t : CString). buf ++ (b ∷ t)) (sym (take-split k (room - k) room s parts)),
      omega (arith, whole, length-drop k s),
      rest ∙ sym (drop-split k (room - k) room s parts),
    )

-- Where the bytes are there and every call moves one at least, as many calls as bytes are enough.
pub receive_loop-moving :
    (room : ℕ) (buf : CString) (script : Script) (s : CString)
    → IsMoving script
    → room ≤ length script
    → room ≤ length s
    → (bs : CString) × ((receive_loop room buf script s).0 ≡ complete bs)
unfolding receive_loop
receive_loop-moving zero buf script s m enough there = (buf, refl)
receive_loop-moving (suc room) buf [] s m enough there = absurd (omega arith)
receive_loop-moving (suc room) buf (none ∷ script) s m enough there = absurd m
receive_loop-moving (suc room) buf (some zero ∷ script) s m enough there = absurd m
receive_loop-moving (suc room) buf (some (suc n) ∷ script) [] m enough there = absurd (omega arith)
receive_loop-moving (suc room) buf (some (suc n) ∷ script) (b ∷ s) m enough there =
    let k = min (min n room) (length s) in
    receive_loop-moving (room - k) (buf ++ (b ∷ take k s)) script (drop k s) m (omega arith)
      (omega (arith, length-drop k s))

pub take_then_drop : (n : ℕ) (s : CString) → take n s ++ drop n s ≡ s
take_then_drop zero s = refl
take_then_drop (suc n) [] = refl
take_then_drop (suc n) (b ∷ s) = ap (λ (t : CString). b ∷ t) (take_then_drop n s)

-- What was sent without an error is the whole message.
pub send_loop-complete :
    (msg : CString) (script : Script) (sent bs : CString)
    → (send_loop msg script sent).0 ≡ complete bs
    → (send_loop msg script sent).1 ≡ sent ++ msg
unfolding send_loop
send_loop-complete [] script sent bs h = rw append-nil refl
send_loop-complete (b ∷ msg) [] sent bs h = absurd (ground arith)
send_loop-complete (b ∷ msg) (none ∷ script) sent bs h = absurd (ground arith)
send_loop-complete (b ∷ msg) (some zero ∷ script) sent bs h = absurd (ground arith)
send_loop-complete (b ∷ msg) (some (suc n) ∷ script) sent bs h =
    send_loop-complete (drop n msg) script (sent ++ (b ∷ take n msg)) bs h
    ∙ append_assoc sent (b ∷ take n msg) (drop n msg)
    ∙ ap (λ (t : CString). sent ++ (b ∷ t)) (take_then_drop n msg)
