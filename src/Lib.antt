-- ===== src/Lib.antt =====
-- Docs++, a distributed file system for shared documents. A name server keeps who may read and
-- write which file and on which storage server it lies; storage servers keep the files, lock them
-- by the sentence while they are edited, and hold one undo for each; clients ask the name server
-- and are sent to a storage server.
--
-- The parts and their files:
--
--   Protocol     common/protocol.h: status codes, access types, sizes.
--   Table        the chained hash tables that nameserver/acl.c, nameserver/nameserver.c,
--                storage_server/sentence_lock.c, storage_server/undo_buffer.c and
--                storage_server/inverted_index.c each write out.
--   Base         what the parts share: C strings, lists and tests on the native numbers.
--   Lock         storage_server/sentence_lock.c: `lock_acquire`, `lock_release`,
--                `lock_is_locked`, `lock_cleanup_expired`. The mutex makes every call atomic, so
--                what threads do is a sequence of calls; the time of a call is an argument.
--   Undo         storage_server/undo_buffer.c. Whether a `malloc` succeeds is an argument.
--   Parser       storage_server/sentence_parser.c. Faults of memory are results of the model.
--   Acl          nameserver/acl.c: the table in memory, and in Acl/Saved the bytes that `acl_save`
--                writes and `acl_load` reads.
--   Requests     nameserver/access_requests.c.
--   Registry     nameserver/nameserver.c: the file map with its LRU cache, the replication map,
--                the search for a file's server, the choice of a server, the registration.
--   Index        storage_server/inverted_index.c: `index_file`, `index_remove_file` and
--                `index_search`; the words of a text are described apart from its loop. File names
--                have at most 254 bytes in the theorems, since the copy of a longer one has no zero.
--   Session      storage_server/storage_server.c, `handle_write_session`: the words of a session
--                and the sentences of its commit.
--   Socket       common/socket_utils.c: the loops of `send_message`, `receive_message`, `send_data` and
--                `receive_data`. What each call of the kernel does is a script, an argument; a loop
--                is structural recursion on it, and as many calls as bytes are enough. The handlers
--                take whole messages, which `receive_message` gives or refuses.
--   Disk         the calls of the C library on files that the storage server makes, over a map from
--                paths to files and directories.
--   Storage      storage_server/storage_server.c: its state, its operations on files, the three
--                operations of a write session over Lock, Undo, Parser, Session, Index and Disk,
--                the handlers of READ, STREAM, UNDO, SEARCH and of what the name server passes on,
--                and the thread of the clients as a state machine over events.
--   Checkpoint   storage_server/checkpoint_manager.c.
--   Folder       storage_server/folder_manager.c.
--   Client       client/client.c: the line that a user types, `parse_input`, the branches of `main`, and
--                of each command the check of its arguments and its first message; the dialogue of
--                WRITE, with `fgets` and `atoi`. The servers are taken to be reached and to answer.
--   NameServer   nameserver/nameserver.c: the handlers, over Registry, Acl and Requests, the
--                clients, the heartbeats, the dispatch on the codes of messages, and histories of
--                events.
--
-- State is a record and an operation a function that returns the answer and the new state. A
-- string is the list of its bytes before the terminating zero, and a copy into a buffer is cut to
-- the buffer's size less one. A hash is computed with the wrap-around of its C type. Table entries
-- are lists in the order of the chain, as the pointers link them. A loop over a chain or an array
-- is structural recursion, the round robin is recursion on the number of servers, which bounds the
-- loop of the source as well. Only the digits of a number printed by `%d` take fuel, ten, the most
-- that an `int` has.
--
-- What a peer does is an argument of a handler: `Forward` for the storage server that a CREATE or
-- DELETE is passed to, a Boolean for the connection to the replica. The log is left out, and so is
-- the text of answers, except where it is what was asked for: LIST, VIEW, EXEC and SEARCH, and the
-- parts of it for INFO and VIEWREQUESTS. In the name server `acl_data` is the table that was last
-- given to `acl_save`; the format of the file is in Acl/Saved. Allocation succeeds, except in
-- Undo. The name server is one thread with `select`, and the thread of the failure detection is
-- taken to run between two requests.
--
-- What a call of the library is granted is an argument of the storage server's handlers, the record
-- `Calls`: whether a file opens, a rename or an allocation succeeds, the time, what `readdir` gives.
-- Paths are equal as strings or name different files. The thread of the clients serves one after
-- another, so a run of the storage server is a sequence of events, in which requests of the name
-- server and sweeps of the locks come anywhere between two messages; a handler is one event. A fault
-- of memory, such as a word too long for its buffer, is the result `none`, at which a run ends.
--
-- Not modelled: the connections of the client and what it prints, and the logger.
pub mod Base
pub mod Protocol
pub mod Table
pub mod Lock
pub mod Undo
pub mod Acl
pub mod Registry
pub mod Parser
pub mod Requests
pub mod Index
pub mod Session
pub mod Socket
pub mod Client
pub mod Disk
pub mod Storage
pub mod Checkpoint
pub mod Folder
pub mod NameServer
