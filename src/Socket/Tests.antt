-- ===== src/Socket/Tests.antt =====
-- Two messages of four bytes, sent and received in chunks of other sizes.
use name_file_system_docs.Base.{◌≡◌, refl, some, List, [], ◌∷◌, ◌++◌, map, arith}
use name_file_system_docs.Base.Tests.{◌==◌, if◌then◌else◌}
use name_file_system_docs.Base.Lists.{length}
use name_file_system_docs.Base.Strings.{CString}
use name_file_system_docs.Socket.{Script, closed, failed, receive_message, send_loop, send_message}
use name_file_system_docs.Socket.Messages.{send_all, receive_all, messages_arrive, receive_cut}

abbrev one : CString
one = 1 ∷ 2 ∷ 3 ∷ 4 ∷ []

abbrev two : CString
two = 5 ∷ 6 ∷ 7 ∷ 8 ∷ []

abbrev threes : Script
threes = some 3 ∷ some 3 ∷ some 3 ∷ some 3 ∷ []

abbrev ones : Script
ones = some 1 ∷ some 1 ∷ some 1 ∷ some 1 ∷ []

abbrev sends : List (CString × Script)
sends = (one, threes) ∷ (two, ones) ∷ []

sent_both : send_all sends [] ≡ some (one ++ two)
unfolding send_message send_loop
sent_both = refl

messages_arrive_example :
    receive_all 4 (ones ∷ threes ∷ []) (one ++ two) ≡ some (map (λ s. s.0) sends)
messages_arrive_example =
    messages_arrive 4 sends (ones ∷ threes ∷ []) (one ++ two) sent_both (refl, (refl, tt))
      ((tt, omega arith), ((tt, omega arith), tt)) refl

receive_cut_example :
    receive_message 5 (some 1 ∷ threes) one ≡ (if length one == 0 then closed [] else failed, [])
receive_cut_example = receive_cut 5 (some 1 ∷ threes) one tt (omega arith) (omega arith)
