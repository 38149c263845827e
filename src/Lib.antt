-- ===== src/Lib.antt =====
-- cxx: a collection of C++ components, modelled part by part. Paths are from the repository's
-- root.
--
-- The automatic teller (include/atm). Three machines run as threads and talk through message
-- queues. Messaging models include/atm/Message.hpp and Dispatcher.hpp: Queue::push and waitAndPop,
-- the dispatcher and waitAndDispatcher of a chain of handlers, and which object of a chain waits.
-- Atm.Message and Atm.As are the structs of WithdrawMsg.hpp and the casts to them. Atm.Bank,
-- Atm.Interface and Atm.Teller are BankMachine.hpp, InterfaceMachine.hpp and ATM.hpp: `receive` is
-- one message in the wait of `run`, and `enter` is what a state function of the teller does before
-- its wait. Atm.System puts the machines together as testATM of test/test.cpp does; a run is a
-- list of moves, in which each thread does its next step whenever it is chosen, and the user
-- presses keys. The three machines share nothing but the queues. Atm.System.Strays lists which
-- messages a machine has handlers for. Atm.System.Races and Atm.System.Heist are schedules with a
-- cancel_pressed before the bank has answered.
--
-- The echo session (include/asio). Session models MsgNode and CSession of CSession.h and
-- CSession.cpp, and Session.HandleRead the read handler. A handler is a function of the session
-- and of what Boost.Asio calls it with, and its calls of the socket and of the server are effects
-- in order. Session.Frame describes the wire format on its own, one byte at a time. Session.Writes
-- puts the session together with the writes that are on their way, and Session.Dialogue with the
-- bytes that arrive as well. The loop of HandleRead has fuel, one more than the bytes that were
-- read: every round that goes on uses a byte.
--
-- The shared data structures. CircleQueue is SafeCircleQueue of
-- include/data_struct/SafeCircleQueue.hpp; its destructor's loop has fuel, whose amount is a
-- variable of the statement. CircleQueue.NoLock is SafeCircleQueNOLock of that file, where a step
-- is one access to an atomic or to a cell, and CircleQueue.NoLock.Pair one thread that emplaces
-- and one that pops, under any schedule. SafeMap is SafeMap.hpp; the hash is a parameter, and the
-- key type comes with an equality test. SafeMap.Locks has getMap among the updates of other
-- threads, which wait where it holds the lock of their bucket: a step is one lock or the copy of
-- one bucket. SafeQueue is the class SafeQueue of SafeQueue.hpp, and SafeQueue.Enhance its
-- SafeQueueEnhance, on a store in which freed nodes stay marked; SafeQueue.Enhance.Locks has the
-- accesses of its calls in any order that the two locks allow. SafeStack is SafeStack.hpp.
-- SafeList is SafeList.hpp, on a store of nodes too: a lock of a node is an access to it, a
-- pointer that no code has set is none, and an access to a freed node is a fault; a walk has fuel,
-- one more than the elements. Channel is CSPChannel of include/CSPChannel.hpp, and ThreadPool is
-- include/ThreadPool.hpp, with the phases of its workers; commit is two steps, the test of stop_
-- and the rest under the lock, and the destructor's stop may come between them, since a task may
-- call commit while the destructor joins. A call that returns is one change of the state, and a
-- history is the sequence of these changes: an operation holds its lock from its first access to
-- its last, but for the waits; the channel's stop is one write of an atomic; SafeQueueEnhance has
-- a lock for each end, so a step there is one access to a node, to head_ or to tail_; and the
-- calls of SafeList, which has a lock for each node, are taken one after another.
--
-- Server is CServer of include/asio/CServer.cpp, the map of sessions under its handlers.
-- Server.World puts it together with all of its sessions and their sockets: a run is a list of
-- completions of Boost.Asio, an accept or an operation of one session, with an error or without;
-- each calls the handler, whose calls of Boost.Asio start the next operations, and an exception
-- that leaves a handler leaves io_context::run and ends the run. A session goes by its identifier,
-- and one that has no operation left gets no event. AsioThreadPool is include/AsioThreadPool.hpp,
-- the choice of an io_context, and AsioThreadPool.Threads its constructor and stop, with
-- io_context as a parameter: its work is counted, and run returns when there is none.
-- WebSocketServer is the accepting coroutine of include/chat/WebSocketServer.hpp, with the sockets
-- as a parameter.
--
-- FileManager is FileManager of include/file_transfer/FileManager.hpp: handle_connection with the
-- handlers that it starts, and the recursive search, with the file system as a parameter.
-- FileManager.Paths is how a path with .. in it is resolved, on its own.
--
-- MyUtility is generateUniqueId of include/chat/MyUtility.hpp: a call reads the clock from a list
-- of its readings and may use several of them.
--
-- Redis is RedisClient of include/chat/Redis.hpp and Database is include/chat/Database.hpp, each
-- with the server and the library that speaks to it as a parameter; the documented behaviour that
-- a theorem relies on is a record of laws. The condition of the select is the expression that its
-- text stands for, and a row is the list of its columns with their values.
--
-- Common has the names that all parts share: Boolean tests and the conditional, lists measured by
-- native numbers, and key types with an equality test. A module Tests of a part applies its
-- theorems to concrete values.
--
-- An `int`, a `std::size_t` and the amount of a message are natural numbers; the bank's balance
-- and the shorts of the session keep their wrap-around. A char is a byte. The queue of a machine,
-- a session's queue and the tasks of a pool have no bound but those in the code. Memory is not
-- exhausted.
--
-- Not modelled: more than two threads on SafeCircleQueNOLock; sha256 of MyUtility, which returns
-- the empty string; the notifications of the condition variables; futures; the coroutines of the
-- file server as such, and AsyncServer (include/file_transfer/AsyncServer.hpp), which only starts
-- them; the sessions of the WebSocket server, which have no bodies here; the code that protoc
-- generates (include/grpc).
pub mod Common
pub mod Messaging
pub mod Atm
pub mod Session
pub mod CircleQueue
pub mod SafeMap
pub mod SafeQueue
pub mod SafeStack
pub mod Channel
pub mod ThreadPool
pub mod FileManager
pub mod Server
pub mod AsioThreadPool
pub mod MyUtility
pub mod SafeList
pub mod Redis
pub mod Database
pub mod WebSocketServer
