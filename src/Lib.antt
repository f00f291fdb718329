-- ===== src/Lib.antt =====
-- A model of quarrel, a library of multi-instance Paxos.
--
-- A client proposes a value at a Proposer, which sends prepare and accept requests for the next entry
-- of an instance to all acceptors and counts their answers. An Acceptor takes requests from a queue per
-- worker, looks the entry up in the log of the instance (PlogMng, with one EntryMng per instance), and
-- answers. An EntryMng keeps its entries in an LruMap in front of a store that the user supplies.
--
--  * Prelude: names of the libraries, Boolean tests, lists, integers, association lists, words.
--  * Ptype: core/ptype.h, core/ptype.cpp.  Config: core/config.h.
--  * IdGen: util/idgen.hpp.  LruMap: util/lrumap.hpp.
--  * Util: util/queue.h, util/waitgroup.hpp, util/worker_pool.hpp, util/timing_wheel.hpp,
--    util/fix_count_allocator.hpp, util/future.hpp, util/time.hpp.
--  * IoUring: util/iouring.h, util/iouring.cc. IoUring/Worker holds the state of a worker and the issue of
--    a request, IoUring/Kernel the completions, IoUring/Poll a turn of the loop, IoUring/Service the
--    start and the stop; IoUring/Laws is about where the requests are.
--  * Logger: util/logger.h, util/logger.cpp.
--  * Conn: network/conn.h, network/conn.cpp. Conn itself holds RemoteConn, Conn/Manager holds ConnMng;
--    Conn/Pending, Conn/Waiting and Conn/Answers are about the requests that wait for an answer.
--  * PaxosGroup: core/paxos_group.h, core/paxos_group.cpp.
--  * Plog: core/plog.h, core/plog.cpp. Plog/Entry, Plog/EntryMng and Plog/PlogMng hold the classes of
--    these names, Plog/EntryMng/Recover the recovery, Plog/Codec the bytes of an entry; Plog/Cache is
--    about what the cached entries are.
--  * Acceptor: core/acceptor.h, core/acceptor.cpp. Acceptor/Defs holds the handlers, the other files
--    what they do to the log.
--  * Proposer: core/proposer.h, core/proposer.cpp. Proposer/State holds the state of an instance,
--    Proposer/Propose the start of a proposal, Proposer/Respond the handlers of the two kinds of
--    responses, Proposer/Route the choice of the handler and of the instance, Proposer/Create the
--    constructor; Proposer/Ids is about the ids that proposers draw.
--  * Paxos: core/paxos.h, core/paxos.cpp.
--  * Protocol: what the proposer makes of the acceptor's answers. Protocol/History lists the requests of
--    an acceptor with its answers, Protocol/Agreement is about the answers of several acceptors,
--    Protocol/Delivery about proposers that get these answers, and Protocol/Rivals about the
--    proposers of two servers; Protocol/Votes is what an answer tells of the acceptor's log.
--  * Tests: runs of the code, and each theorem at a concrete input.
--
-- An operation of a class is a function of the same name in the spelling of this library, from the
-- state to the new state, with its value in front where it has one. Numbers of w bits are natural
-- numbers, and where an operation can pass 2 ^ w it is reduced. A handler's calls are made in the order
-- of the source. A broadcast of a proposer and a timer that it starts are values of the handler's
-- outcome; a promise is the list of the codes that it was given, and a callback is a number. The store
-- behind an EntryMng is a record of functions, the argument of every operation that reaches it.
--
-- The loop of the recovery has fuel, since the store decides how often it turns; the fuel to give is one
-- more than the largest number of an entry in the store, since each batch moves the start forward
-- (Plog/EntryMng/Recover/Ends). GenGroup has the number of rows of its array, which its assertions say
-- is what it needs. The loop that fills a batch of the ring has the room that is left in the batch, which
-- its own condition tests. No other definition has fuel. A wait for ever is no result, as are an index that is
-- out of range, a failed assertion, and the end of the process by a thread that was not joined.
--
-- What the system answers is given: a turn of the ring's loop has the completion, the number of vacant
-- entries and the result of the submission; a line of the log its time and what the C library prints; a
-- wait for futures the readiness and the clock at each look.
--
-- A failed write of a connection and the arrival of a message may come between any two operations of
-- it: they are events, and a run is a list of them. A turn of the timing wheel is an operation; the time
-- between two turns is not part of the model.
--
-- Not modelled: several threads inside of one queue or of one turn of the ring's loop; blocking waits;
-- the allocator over FixCountLockFreeQueue, and LockFreeQueueV2, which no file declares (the ring has
-- the latter as a parameter); the setters of the logger; wrappers of the standard library; the threads
-- themselves, which only repeat the modelled turns.
pub mod Prelude
pub mod Ptype
pub mod IdGen
pub mod LruMap
pub mod Plog
pub mod Config
pub mod Conn
pub mod PaxosGroup
pub mod Util
pub mod IoUring
pub mod Logger
pub mod Tests
pub mod Acceptor
pub mod Proposer
pub mod Paxos
pub mod Protocol
