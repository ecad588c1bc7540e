-- ===== src/Socket/Messages.antt =====
-- Whole messages over one connection of common/socket_utils.c, and a connection that is cut.
use name_file_system_docs.Base.{
  ℕ, zero, suc, ◌-◌, ◌≤◌, ◌<◌, min, ◌≡◌, refl, ap, ◌∙◌, Option, none, some, List, [], ◌∷◌, ◌++◌,
  map, append-nil, append_assoc, arith,
}
use name_file_system_docs.Base.Tests.{◌==◌, if◌then◌else◌}
use name_file_system_docs.Base.Lists.{length, take, drop, All, length-append, length-drop}
use name_file_system_docs.Base.Strings.{CString}
use name_file_system_docs.Socket.{
  Transfer, Script, blocked, closed, complete, failed, receive_loop, receive_message, send_loop,
  send_message,
}
use mathlib.Core.Option
use name_file_system_docs.Socket.Chunks.{
  IsMoving, receive_loop-complete, receive_loop-moving, send_loop-complete, take_then_drop,
}

take_front : (a s : CString) → take (length a) (a ++ s) ≡ a
take_front [] s = refl
take_front (c ∷ a) s = ap (λ (t : CString). c ∷ t) (take_front a s)

drop_front : (a s : CString) → drop (length a) (a ++ s) ≡ s
drop_front [] s = refl
drop_front (c ∷ a) s = drop_front a s

-- A message that stands on the connection is received, and what stands behind it stays.
receive_front :
    (msg rest : CString) (script : Script)
    → IsMoving script
    → length msg ≤ length script
    → receive_message (length msg) script (msg ++ rest) ≡ (complete msg, rest)
unfolding receive_message
receive_front msg rest script m enough =
    let there : length msg ≤ length (msg ++ rest) = omega (arith, length-append msg rest) in
    let (bs, done) = receive_loop-moving (length msg) [] script (msg ++ rest) m enough there in
    let (made, whole, left) = receive_loop-complete (length msg) [] bs script (msg ++ rest) done in
    rw (done, left, made, take_front msg rest, drop_front msg rest) refl

-- What follows where the message went through.
abbrev if_complete : Transfer → Option CString → Option CString
if_complete (complete bs) after = after
if_complete (closed bs) after = none
if_complete failed after = none
if_complete blocked after = none

-- `send_message` for one message after another, each with its script; `none` if one is not sent whole.
abbrev pub send_all : List (CString × Script) → CString → Option CString
send_all [] connection = some connection
send_all ((msg, script) ∷ sends) connection =
    if_complete (send_message msg script connection).0
      (send_all sends (send_message msg script connection).1)

-- A message in front of the later ones.
abbrev and_later : Transfer → Option (List CString) → Option (List CString)
and_later (complete bs) later = Option.map (λ (rest : List CString). bs ∷ rest) later
and_later (closed bs) later = none
and_later failed later = none
and_later blocked later = none

-- `receive_message` for as many messages as there are scripts.
abbrev pub receive_all : ℕ → List Script → CString → Option (List CString)
receive_all size [] connection = some []
receive_all size (script ∷ scripts) connection =
    and_later (receive_message size script connection).0
      (receive_all size scripts (receive_message size script connection).1)

abbrev pub laid : List (CString × Script) → CString
laid [] = []
laid ((msg, script) ∷ sends) = msg ++ laid sends

sent_whole :
    (msg : CString) (script : Script) (outcome : Transfer) (next : Option CString) (after : CString)
    → (send_loop msg script []).0 ≡ outcome
    → if_complete outcome next ≡ some after
    → (next ≡ some after) × ((send_loop msg script []).1 ≡ msg)
sent_whole msg script (complete bs) next after o h = (h, send_loop-complete msg script [] bs o)
sent_whole msg script (closed bs) next after o h = absurd (ground arith)
sent_whole msg script failed next after o h = absurd (ground arith)
sent_whole msg script blocked next after o h = absurd (ground arith)

send_all-laid :
    (sends : List (CString × Script)) (connection after : CString)
    → send_all sends connection ≡ some after
    → after ≡ connection ++ laid sends
unfolding send_message
send_all-laid [] connection after h = rw append-nil ground (arith, h)
send_all-laid ((msg, script) ∷ sends) connection after h =
    let (later, whole) = sent_whole msg script _ _ after refl h in
    send_all-laid sends (connection ++ (send_loop msg script []).1) after later
    ∙ rw whole (append_assoc connection msg (laid sends))

receive_all-laid :
    (size : ℕ) (sends : List (CString × Script)) (scripts : List Script)
    → All (λ s. length s.0 ≡ size) sends
    → All (λ s. IsMoving s × (size ≤ length s)) scripts
    → length scripts ≡ length sends
    → receive_all size scripts (laid sends) ≡ some (map (λ s. s.0) sends)
receive_all-laid size [] [] a b even = refl
receive_all-laid size [] (script ∷ scripts) a b even = absurd (omega (arith, even))
receive_all-laid size (s ∷ sends) [] a b even = absurd (omega (arith, even))
receive_all-laid size ((msg, sending) ∷ sends) (script ∷ scripts) a b even =
    let one : receive_message size script (msg ++ laid sends) ≡ (complete msg, laid sends) =
      rw (← a.0) (receive_front msg (laid sends) script b.0.0 (omega (arith, a.0, b.0.1))) in
    ap (λ (r : Transfer × CString). and_later r.0 (receive_all size scripts r.1)) one
    ∙ ap (and_later (complete msg))
        (receive_all-laid size sends scripts a.1 b.1 (omega (arith, even)))

-- Messages of one size, sent whole one after another over a connection, are received as they were
-- sent and in their order, whatever chunks the calls move: where every call moves one byte at least,
-- as many calls as bytes are enough.
pub messages_arrive :
    (size : ℕ) (sends : List (CString × Script)) (scripts : List Script) (connection : CString)
    → send_all sends [] ≡ some connection
    → All (λ s. length s.0 ≡ size) sends
    → All (λ s. IsMoving s × (size ≤ length s)) scripts
    → length scripts ≡ length sends
    → receive_all size scripts connection ≡ some (map (λ s. s.0) sends)
messages_arrive size sends scripts connection sent a b even =
    rw (send_all-laid sends [] connection sent) (receive_all-laid size sends scripts a b even)

receive_loop-short :
    (room : ℕ) (buf : CString) (script : Script) (s : CString)
    → IsMoving script
    → length s < room
    → length s < length script
    → receive_loop room buf script s ≡ (closed (buf ++ s), [])
unfolding receive_loop
receive_loop-short zero buf script s m short enough = absurd (omega arith)
receive_loop-short (suc room) buf [] s m short enough = absurd (omega arith)
receive_loop-short (suc room) buf (none ∷ script) s m short enough = absurd m
receive_loop-short (suc room) buf (some zero ∷ script) s m short enough = absurd m
receive_loop-short (suc room) buf (some (suc n) ∷ script) [] m short enough = rw append-nil refl
receive_loop-short (suc room) buf (some (suc n) ∷ script) (b ∷ s) m short enough =
    let k = min (min n room) (length s) in
    let later =
      receive_loop-short (room - k) (buf ++ (b ∷ take k s)) script (drop k s) m
        (omega (arith, length-drop k s)) (omega (arith, length-drop k s)) in
    later
    ∙ ap (λ (t : CString). (closed t, []))
        (append_assoc buf (b ∷ take k s) (drop k s)
          ∙ ap (λ (t : CString). buf ++ (b ∷ t)) (take_then_drop k s))

-- A connection that is closed before a whole message has come gives none: it is a clean end where no
-- byte has come, and an error otherwise.
pub receive_cut :
    (size : ℕ) (script : Script) (s : CString)
    → IsMoving script
    → length s < size
    → length s < length script
    → receive_message size script s ≡ (if length s == 0 then closed [] else failed, [])
unfolding receive_message
receive_cut size script [] m short enough =
    rw (receive_loop-short size [] script [] m short enough) refl
receive_cut size script (b ∷ s) m short enough =
    rw (receive_loop-short size [] script (b ∷ s) m short enough) (ground arith)
