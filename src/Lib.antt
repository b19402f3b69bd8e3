-- ===== src/Lib.antt =====
-- A verification library for the game server portfolio: the server core that the projects share
-- (NetLib) and the chat server on top of it, in the copy of projects/multithread-chat-server/Server;
-- the group echo server; the database server; the lock-free memory pool and queue.
--
-- The program. A server owns an array of sessions, an IOCP completion port and worker threads. A
-- receive completes into the session's ring of bytes; the worker cuts the ring into packets, decrypts
-- each and hands it to the server above (`OnRecv`); a packet to send is encrypted once, put into the
-- session's ring of packets and gathered into one send. A control word counts the operations in
-- flight and decides who cleans a session up. The chat server keeps its players in a grid of sectors
-- and sends a message to the players in the nine sectors around the sender. The group echo server hands
-- the events of a session as jobs to the group that owns its player, a login group first and then one
-- of several echo groups, each with its own thread. The database server has two threads that put
-- requests into a queue and one that takes them out and sends their queries to MySQL, trades as
-- transactions or not. The pool and the queue are used from any number of threads without a lock.
--
-- The files and the code they model (paths below projects/multithread-chat-server/Server):
--   RingBuffer   NetLib/RingBuffer.h, function by function. Bounds: the invariant and the sizes;
--                Window: cells of a storage that wraps; Put, Get: what the calls add and take; Segments: the
--                WSABUF pairs and a receive into them; Queue: the bounded queue that a ring implements.
--   Encryption   NetLib/Encryption.h: checksum and cipher. RoundTrip, CheckSum: their laws.
--   Packet       NetLib/Packet.h, function by function. Bounds: the positions; Bytes: integers in
--                memory; Unread: the bytes to read as a queue; Fields: integers written and read.
--   Frame        NetLib/BaseServer.cpp, the wire format. Send: the encryption step of `SendPacket`;
--                Receive: the loop of the RECV case of `workerThread`; Parse: a round by the
--                bytes in the ring; Deliver: a whole frame; Stream: a stream of frames; Total: the
--                loop ends; Complete: the whole RECV case, with the calls of
--                `OnRecv` on the session, and `postRecv`; Calls, Posting and Receiving: what they leave.
--   Session      NetLib/Session.h and `decreaseSessionIoCount`, `requestRelease` and `releaseSession` of
--                NetLib/BaseServer.cpp on the control word. Life: its steps and their phases; Release: what
--                every interleaving keeps; Pool: `createSession`, `findSession` and the return of a
--                session, with Handles, Steps and Stale on what an id finds;
--                Open: a session whose end is not requested; Control: the calls by the counts.
--   Sending      `SendPacket`, `postSend`, `DisConnect`, the SEND completion and the end of `releaseSession`
--                in NetLib/BaseServer.cpp. Refs: the references to the packets, whatever the threads do;
--                Flow: the packets that wait are sent.
--   Chat         ChatingServer/ChatServer.cpp, Sector.h and Player.h: the sectors. Swap: the erase;
--                Move: who stands where; Around: the table; Broadcast: who is reached;
--                Dispatch: `packetProc`, which handler a packet goes to, and its Guards; Handlers:
--                the handlers, `OnClientJoin`, `OnClientLeave` and `OnRecv`, with what is Guarded.
--   Timeout      ChatingServer/Player.h and `CheckTimeOut` of ChatServer.cpp: the idle clock.
--   MemoryPoolTls NetLib/MemoryPoolTLS.h: the pool of nodes with a list for each thread. Chains, Reserve: the
--                calls on one list; Moves: `Alloc`; Freed: `Free`; Shrink: `Shrink` and the destructor; Ownership:
--                which nodes are in use over any sequence of calls.
--   LockFreeMemoryPool  projects/memory-pool/LockFreeMemoryPool.h, over the list that Windows provides.
--                Calls: `Alloc` and `Free`; Ownership: which nodes are in use.
--   LockFreeQueue  projects/lock-free-queue/LockFreeQueue.h, and its copies in the NetLib folders: every load, store
--                and exchange of `Enqueue`, `TryDequeue`, `Retire` and `ScanRetired` as a step of a thread.
--                Spec: the queue that it promises; Threads: the calls; Invariant, Fits: where each node is, and what
--                a thread relies on; Frame, Moves, Quiet: what a step leaves to the others; Chain,
--                Places, Call, Link, Swap, Scan, Retire, Delete: the steps that change nodes; Enqueue,
--                Dequeue, Acts: all steps; Linear: what every run keeps; Destroy: the destructor.
--   GroupServer  projects/group-echo-server/Server/GroupServer: the players of the sessions and the groups
--                with their mailboxes. Handlers: what a group does with its jobs; Mail, Turns,
--                Steps: what each operation adds; Worlds: the steps of all threads; Owners: who
--                holds a player and a packet.
--   DbServer     projects/login-chat-system/DBServer: DBServer.cpp, DBQuery.h and Dbconnector.h, the handlers of the
--                messages. Trade: a trade in a transaction; Buyer: who pays; Writer: the queue and its
--                threads, with Order, what they keep, Steps, and Stopped: the end and the wake-ups.
--   Base         names of the libraries, Boolean tests, arrays as lists and their lemmas.
-- Each part has a module Examples with runs at concrete values.
--
-- How the code is read. A `w`-bit integer wraps with `% 2 ^ w`; an `int` that no caller makes
-- negative is a natural number. A byte is a number below 256. A method of an object is a function
-- from the object to its results and the object after it; a `memcpy` is `blit` and `slice`. A step
-- of several threads is one successful compare-and-swap or one section under a lock; steps
-- interleave in any order. A call of the memory pool, and the handling of one job of a group, is
-- one step; `OnClientJoin` of the group echo server is three, `Clear`, the store of the group and the
-- section under the lock, and `OnClientLeave` two, the section under the lock and the check behind it. The
-- receive loop runs on fuel, one unit per round. A round that hands over a packet
-- takes at least three bytes, so a third of the bytes in the ring, and one more, are enough. In
-- the lock-free queue a step is one load, store or exchange, in the order of the code: memory
-- orderings weaker than sequential consistency are not modelled, nor is the deletion of the hazard
-- records; a loop that pushes a hazard record or a retired node is one step. Its destructor runs on
-- fuel for the scan, twice the hazard records and retired nodes and 6, and for the chain of nodes,
-- two more than there are. A step of the database server's threads is one section under the lock,
-- one call for the event or the flag, or the handling of a message. The loop of `Shrink` takes a
-- node at least each time, so that one more than the nodes in its list are enough.
--
-- Parameters. What `OnRecv` calls on the session of its packet, `DisConnect` or `SendPacket`, is an
-- argument of the RECV case, in which no other thread calls in between. What the packet pool's
-- `Alloc` returns, call by call, is an argument of the receive loop; what `new` returns, the time, and what `SendPacket` answers are arguments too, and so are
-- `wcsncpy_s` and the Redis client in the chat handlers, and the interlocked list of Windows in
-- the lock-free memory pool; the database is the interface `Database`, with what MySQL documents of
-- transactions; what a socket receive writes is described by `Received`, as WSARecv documents it.
--
-- Not modelled: sockets, threads, the completion port, logging and timing; the Redis client; the
-- idle check of the group echo server; the login server; the monitor thread of the database server
-- and how it connects.
pub mod Base
pub mod RingBuffer
pub mod Encryption
pub mod Packet
pub mod Frame
pub mod Session
pub mod Chat
pub mod Timeout
pub mod MemoryPoolTls
pub mod GroupServer
pub mod Sending
pub mod LockFreeMemoryPool
pub mod LockFreeQueue
pub mod DbServer
