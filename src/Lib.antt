-- ===== src/Lib.antt =====
-- Data structures for threads, smart pointers, error codes and network programs in C++, as models
-- with proofs.
--
-- null/ has header-only templates, system/ small programs on Boost.System, and asio/ programs on
-- Boost.Asio. The parts are independent of one another but for null/weak_ptr.h, which shares the
-- control block of null/shared_ptr.h, and null/concurrent_lru_cache.h, which repeats the code of
-- null/lru_cache.h; the two echo clients share the text of their counters and monitor.
--
-- * Ring (null/spsc_ring_buffer.h): `Ring` is the class; `init`, `push`, `pop`, `size`, `is_full`
--   and `is_empty` are its functions, in size_t with its wrap-around. Ring/Machine cuts push and
--   pop at their atomic accesses: an event is one access of one thread, and a run takes them in any
--   order, sequentially consistent. Ring/Weak has the acquire loads and release stores of the source,
--   where a load may give an older value of the other thread's index.
-- * Lru (null/lru_cache.h): std::list as nodes with addresses, so that an iterator and the pointer
--   that get returns are an address; std::unordered_map as an association list. `none` of `init`
--   is the exception of the constructor.
-- * ConcurrentLru (null/concurrent_lru_cache.h): the same cache behind a mutex. A call is cut at
--   the lock, at each access of the list and of the map, which a thread may make whoever holds the
--   mutex, and at the return; a run takes these steps of any threads in any order.
--   ConcurrentLru/Alone has a call without other threads.
-- * BlockingQueue (null/concurrent_blocking_queue.h): what a thread does while it holds the mutex is
--   one step. A thread in a wait stands in a list of its condition variable, from which notify_one,
--   notify_all, a spurious wake-up or a timeout takes it; notify_one picks any waiter.
-- * SharedPtr (null/shared_ptr.h, null/weak_ptr.h): the heap of control blocks, where an access to a
--   block that is not there is a fault, `none`; SharedPtr/Handles has the member functions of one
--   object, and SharedPtr/Program the objects of a program by their places in a list. The loop of
--   lock_use_count runs on the number of spurious failures of its exchange, after which the exchange
--   succeeds, so that no fuel is needed. These calls are those of one thread.
--   SharedPtr/Threads has one control block and many threads, cut at their atomic accesses.
-- * UniquePtr (null/unique_ptr.h): objects with a deleter that has a state, and a log of the calls of
--   deleters; UniquePtr/Program has any sequence of calls.
-- * System (system/mylib_error.h, system/mylib_classic.cc, system/mylib_result.cc,
--   system/test_result.cc): over Boost.System, which is the record `Boost`; System/Laws has what its
--   documentation says, and System/Tests one Boost.System that obeys it.
-- * EchoClient (asio/echo/client.cc): sessions and the monitor, cut at their accesses of the atomic
--   counters, in any order. The argument of the program may be negative.
-- * EchoServer (asio/echo/server.cc): one session, with a clock; a handler is one step, since the
--   strand runs one at a time, and a wait that has expired has its handler in a queue.
-- * CoClient (asio/echo/co_client.cc): the same client with coroutines; it takes the counters, the
--   monitor and the launch of the sessions from EchoClient, since their code is the same.
-- * Channel (asio/echo/server.cc, asio/proxy/server.cc): the bytes from a receive to a write through a
--   buffer of buffer_size, shared by the servers. A buffer keeps its old bytes behind those that a
--   receive gives; `resize` is that of the std::vector in asio/echo/co_server.cc, whose max_receive is
--   the same number.
-- * CoServer (asio/echo/co_server.cc): one session with its coroutines echo and wait or watch; a step
--   runs one of them from a wait to the next, and the session's destructor closes the socket when
--   the last has ended.
-- * Proxy (asio/proxy/server.cc): one session, with a clock; Proxy/Watching is the class watchdog, and
--   a Relay one direction with its buffer and watchdog. A handler is one step.
-- * Acceptor (asio/proxy/server.cc): the class server, over the interface Protocol of its sessions,
--   of which Proxy has the instance. A session starts in one step with its accept, since one thread
--   runs the program. The servers of asio/echo/ differ: they run many threads, and
--   asio/echo/server.cc starts a session off its strand.
-- * Prelude has names shared by all, Boolean tests on numbers, lists, and the integers of a signed int.
--
-- Counters of type int and long have no bound here; the number of connections that the clients are
-- asked for is an integer with its sign. Not modelled: the orders of memory weaker than sequential
-- consistency in null/shared_ptr.h, and in size of null/spsc_ring_buffer.h; a read through a
-- pointer that get of null/concurrent_lru_cache.h returned, behind its mutex; the threads, sockets
-- and printing of the programs in asio/, their functions main, the servers of asio/echo/, and the
-- short examples of asio/basic, asio/socket, asio/coro and debug/, which only call libraries.
pub mod Prelude
pub mod Ring
pub mod Lru
pub mod ConcurrentLru
pub mod BlockingQueue
pub mod SharedPtr
pub mod UniquePtr
pub mod System
pub mod EchoClient
pub mod CoClient
pub mod Channel
pub mod EchoServer
pub mod CoServer
pub mod Proxy
pub mod Acceptor
