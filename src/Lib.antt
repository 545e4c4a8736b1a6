-- ===== src/Lib.antt =====
-- A verification library of mini-redis: a single-threaded key-value server with its own data
-- structures, and the client that speaks its protocol.
--
-- The program. src/server/server.cpp reads frames from its connections, src/protocol/wire.cpp
-- parses a frame into arguments, src/server/command.cpp runs the command on the keyspace of
-- src/store/database.cpp and writes a reply by src/protocol/serialize.cpp. The keyspace is the
-- hash table of src/store/hashtable.cpp, its timers are the heap of src/ds/heap.cpp, and a sorted
-- set (src/ds/zset.cpp) indexes its pairs by the AVL tree of src/ds/avl.cpp and by a hash table.
-- client/client.cpp encodes requests and prints replies.
--
-- The files, by the code they model:
--   Base: numbers, tests, lists, bytes, integers and doubles that the parts share. Base.Double has the
--     order of doubles on their 64 bits.
--   Hash: include/common/hash.h (str_hash).
--   Wire: include/protocol/wire.h, src/protocol/wire.cpp (parse_req) and the encoder of requests in
--     send_command of client/client.cpp. Wire.RoundTrip and Wire.Accepts hold the proofs.
--   Avl: include/ds/avl.h and src/ds/avl.cpp (avl_fix, avl_del, avl_offset). Avl.Shape has the
--     invariant and the in-order list, Avl.Path the same for a node with its parents, Avl.Rotate and
--     Avl.Rebalance one node, Avl.Fix, Avl.Delete and Avl.Offset the operations.
--   Heap: include/ds/heap.h and src/ds/heap.cpp (heap_update, heap_upsert, heap_delete), with the
--     index fields of the owners of the timers as a function from addresses. Heap.Order has the
--     invariant, Heap.Hole the array while an item is held out of it, Heap.Up and Heap.Down the loops.
--   HashTable: include/store/hashtable.h and src/store/hashtable.cpp. HashTable.Slots and
--     HashTable.Table have the chains and one table, HashTable.Rehash the invariant of the two tables
--     and the migration, the other modules one operation each.
--   SortedSet: include/ds/zset.h and src/ds/zset.cpp, over Avl and HashTable, with the pairs in a
--     memory by address. SortedSet.Order has the order of the pairs, SortedSet.Sorted lists in that
--     order, SortedSet.Walk tree_insert, SortedSet.Remove the place of a pair in the tree and its
--     removal, SortedSet.Valid the invariant of the two indexes and zset_lookup, SortedSet.Update,
--     SortedSet.Insert, SortedSet.Delete, SortedSet.Seek, SortedSet.Offset and SortedSet.Clear one
--     operation each.
--   Keyspace: include/store/entry.h, include/store/database.h and src/store/database.cpp, with the
--     entries in a memory by address. Keyspace.Valid has the invariant, Keyspace.Timers that of the
--     timers, Keyspace.Ttl entry_set_ttl, Keyspace.Remove entry_del.
--   Command: include/server/command.h and src/server/command.cpp. Command.Numbers has the parsers of
--     numbers, Command.Decimal what str2int reads, Command.Timers and Command.Sets the handlers on
--     timers and sorted sets, Command.Dispatch do_request. Command.Forget has the deletion of an entry, Command.Lookup
--     lookup_entry, Command.Create a new key; Command.Answers, Command.TimerAnswers,
--     Command.SetAnswers, Command.QueryAnswers and Command.Total that each handler answers;
--     Command.Effects, Command.Reaped, Command.RoundTrip and Command.Expiry what GET answers
--     afterwards, Command.Query the pages of ZQUERY.
--   Serialize: include/protocol/serialize.h, src/protocol/serialize.cpp and print_value of
--     client/client.cpp. Serialize.Values has reply values as trees and their bytes,
--     Serialize.RoundTrip what the client prints of them, Serialize.Arrays the arrays whose count is
--     patched in, Serialize.Stable replies with bytes behind them or cut short.
--   Io: include/net/io_helpers.h and src/net/io_helpers.cpp (read_full, write_all), over the read and
--     write of the system as parameters. Io.Stream has what the system promises of a stream, and the
--     proofs.
--   ThreadPool: include/threadpool/thread_pool.h and src/threadpool/thread_pool.cpp. Reach is the
--     relation of the threads' steps; ThreadPool.Steps has what holds in every state reached,
--     ThreadPool.Drains the destructor.
--   IdleList: include/ds/dlist.h, over a store of links. IdleList.Ring has what it is to be a list and
--     IdleList.Edits the operations.
--   Server: of src/server/server.cpp and include/server/conn.h, the framing of requests
--     (try_one_request, handle_read, handle_write), with the execution of commands and what the system
--     answers to a read and a write as parameters, next_timer_ms, and, in Server.Reaper, the deletion
--     of overdue keys in process_timers. Server.Loop has the table of the connections and the idle
--     list, as the list of its descriptors, with accept_new, what run does for a ready descriptor and
--     process_timers as steps. Server.Frames, Server.Writes, Server.Timers, Server.Idle and
--     Server.Closing have the proofs.
-- Each part has its runs at concrete inputs, and the instances of its theorems, in a module Tests.
--
-- Faults. A null pointer that is followed, an index out of range and an assertion that fails are
-- the value `none` of the model, so that a theorem that gives `some` says that none of them
-- happens.
--
-- Numbers. An unsigned 32-bit or 64-bit number is a natural number with its wrap-around written
-- out. Bounds that the theorems assume are far above what memory holds: fewer than 2 ^ 32 nodes
-- in an AVL tree (its counts have 32 bits), 2 ^ 59 timers, 2 ^ 60 nodes of a hash table.
-- The record HasRoom of the commands asks for fewer than 2 ^ 32 keys, 2 ^ 31 pairs in a set and
-- 2 ^ 31 bytes in a name; the reply so far is to have fewer than 2 ^ 62 bytes.
--
-- Fuel. up_loop has one round more than the position, which at least halves; down_loop one more
-- than the length, below which the position rises; help_loop 128 rounds for the nodes it may
-- move, one for each slot it may skip and one to stop; offset_loop a round for each node it can
-- pass on the way up and down. read_loop and write_loop one round more than the bytes to move, of
-- which each round moves one at least; drain one round more than the bytes that are there, of
-- which each request takes four; print_loop one round more than the bytes, of which each nested
-- value takes one; reap_keys the works that the source allows; query_loop one round more than the limit, of which each round emits two.
-- The theorems say that each of them returns, so the fuel is enough.
--
-- Not modelled: strtod, which is a parameter; the workers' side of the deletion of an entry, of which
-- only the queueing is; the destructor of the server; the set-up of sockets, poll, the clock, logging
-- and container_of, which are the system's or glue; and the failure of calloc and malloc.
pub mod Base
pub mod Wire
pub mod Avl
pub mod Heap
pub mod HashTable
pub mod Serialize
pub mod Io
pub mod ThreadPool
pub mod IdleList
pub mod Server
pub mod Hash
pub mod SortedSet
pub mod Keyspace
pub mod Command
