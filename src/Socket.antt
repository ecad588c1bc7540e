-- ===== src/Socket.antt =====
-- common/socket_utils.c: the loops that send and receive a whole message. What the kernel does at each
-- call of `send` or `recv` is a step of a script: an error, or the most bytes that the call moves. A
-- connection is the list of the bytes on their way. The other functions of the file are single
-- calls of the system.
pub mod Chunks
pub mod Messages
pub mod Tests
use name_file_system_docs.Base.{ℕ, zero, suc, ◌-◌, min, Option, none, some, List, [], ◌∷◌, ◌++◌}
use name_file_system_docs.Base.Lists.{length, take, drop}
use name_file_system_docs.Base.Strings.{CString}
use name_file_system_docs.Storage.Connection.{sent}
use mathlib.Core.Option

abbrev pub Script : Type 0
Script = List (Option ℕ)

-- What the loops return: all bytes; less than that, of a connection that was closed; -1; or not yet.
pub data Transfer : Type 0 where
  complete : CString → Transfer
  closed : CString → Transfer
  failed : Transfer
  blocked : Transfer

-- The loop of `send_message`, with what is left to send and what was put on the connection; a call
-- that takes no byte ends it with the number of bytes that were sent.
unfoldable pub send_loop : CString → Script → CString → Transfer × CString
send_loop [] script sent = (complete sent, sent)
send_loop (b ∷ bs) [] sent = (blocked, sent)
send_loop (b ∷ bs) (none ∷ script) sent = (failed, sent)
send_loop (b ∷ bs) (some zero ∷ script) sent = (closed sent, sent)
send_loop (b ∷ bs) (some (suc n) ∷ script) sent =
    send_loop (drop n bs) script (sent ++ (b ∷ take n bs))

unfoldable pub send_message : CString → Script → CString → Transfer × CString
send_message msg script connection =
    let (outcome, sent) = send_loop msg script [] in (outcome, connection ++ sent)

-- The loop of `send_data`, which calls again where no byte was taken.
unfoldable pub send_data_loop : CString → Script → CString → Transfer × CString
send_data_loop [] script sent = (complete sent, sent)
send_data_loop (b ∷ bs) [] sent = (blocked, sent)
send_data_loop (b ∷ bs) (none ∷ script) sent = (failed, sent)
send_data_loop (b ∷ bs) (some zero ∷ script) sent = send_data_loop (b ∷ bs) script sent
send_data_loop (b ∷ bs) (some (suc n) ∷ script) sent =
    send_data_loop (drop n bs) script (sent ++ (b ∷ take n bs))

unfoldable pub send_data : CString → Script → CString → Transfer × CString
send_data bytes script connection =
    let (outcome, sent) = send_data_loop bytes script [] in (outcome, connection ++ sent)

-- The loop of `receive_message`: `room` is `msg_size - total_received`, `buf` what was received. A
-- call gives what the script allows, what was asked for and what is there, whichever is least, and no
-- byte where the peer has closed the connection.
unfoldable pub receive_loop : ℕ → CString → Script → CString → Transfer × CString
receive_loop zero buf script s = (complete buf, s)
receive_loop (suc room) buf [] s = (blocked, s)
receive_loop (suc room) buf (none ∷ script) s = (failed, s)
receive_loop (suc room) buf (some zero ∷ script) s = (closed buf, s)
receive_loop (suc room) buf (some (suc n) ∷ script) [] = (closed buf, [])
receive_loop (suc room) buf (some (suc n) ∷ script) (b ∷ s) =
    let k = min (min n room) (length s) in
    receive_loop (room - k) (buf ++ (b ∷ take k s)) script (drop k s)

-- A connection that is closed before the first byte is no error; behind it, it is one.
unfoldable pub receive_message : ℕ → Script → CString → Transfer × CString
receive_message msg_size script connection =
    let (outcome, rest) = receive_loop msg_size [] script connection in
    (
      elim outcome [
        | complete buf ↦ complete buf
        | closed buf ↦ elim buf [ [] ↦ closed [] | b ∷ bs ↦ failed ]
        | failed ↦ failed
        | blocked ↦ blocked
      ],
      rest,
    )

-- `receive_data` returns what it has where the connection is closed.
unfoldable pub receive_data : ℕ → Script → CString → Transfer × CString
receive_data size script connection = receive_loop size [] script connection
