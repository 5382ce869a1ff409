-- ===== src/Lib.antt =====
-- nermalproxy: an HTTP proxy that filters hosts, with users, schedules and usage statistics.
--
-- At the start the configuration is read (ConfigFile.cpp) and turned into users, policies and
-- blacklists (main.cpp). A client connects, and the proxy opens a session for its descriptor
-- (Session.cpp). The client is identified by its address or by a name and password in Base64
-- (UserAuth.cpp); the user's schedule (TimeMap.cpp) and domain policies (Policy.cpp,
-- BlackList.cpp, `isAllowed` of ProxyConnector.cpp) decide which hosts it may reach at what
-- time. When the session ends, its traffic is added to the statistics of the user, which go to
-- log files once a day. A pool of workers detects requests and connects to hosts
-- (ProxyConnector.cpp, HostResolver.cpp); their messages go through a pipe (AsyncMessenger.cpp)
-- to the event loop (SocketManager.cpp), which also accepts clients and passes data on.
--
-- Which file models what (a file's child modules hold the proofs about it):
--   Prelude.antt     names of the libraries, Booleans, lists, bit operations, and `Outcome`: a
--                    result, or the fault that the C++ code would run into.
--   CText.antt       texts as lists of bytes: string equality, `strchr`, `%s`, decimals.
--   Log.antt         Log.cpp: the lines of the log, and where they go.
--   Clock.antt       Timestamp.cpp: `Timestamp`.
--   TimeMap.antt     TimeMap.hpp and TimeMap.cpp: `TimeMap`, `WeeklyAccess`.
--   Base64.antt      UserAuth.cpp: `AuthManager::Base64Decode`.
--   Auth.antt        UserAuth.cpp: `User`, `AuthManager`.
--   Blacklist.antt   BlackList.cpp: `Blacklist`, `BlacklistList`.
--   Policy.antt      Policy.cpp: `UserPolicy`, `UserPolicyList`; ProxyConnector.cpp: `isAllowed`.
--   Stats.antt       UserAuth.cpp: `SiteStats`, `UserStats`, `GlobalStats`.
--   Session.antt     Session.cpp: `Session`, `SessionManager`.
--   HostCache.antt   HostInfoManager.cpp and HostResolver.cpp: `HostInfoCache`, `HostResolver`.
--   Gate.antt        SocketManager.cpp: `HandleCommandSocketRead`; ProxyConnector.cpp:
--                    `ConnectProxy`.
--   Relay.antt       ClientSocket.cpp: `ClientSocket`; SocketManager.cpp:
--                    `HandleClientSocketRead`.
--   Detection.antt   ProxyConnector.cpp: `asyncDetector`.
--   Messenger.antt   AsyncMessenger.hpp and AsyncMessenger.cpp: messages and `AsyncMessenger`;
--                    CommandSocket.cpp.
--   Pool.antt        ProxyConnector.cpp: `ThreadPool`.
--   Connect.antt     ProxyConnector.cpp: `asyncConnector`.
--   Server.antt      ServerSocket.cpp: `ServerSocket`.
--   Loop.antt        SocketManager.cpp: `SocketManager` with its list of sockets,
--                    `HandleServerSocketRead`; in Loop/Dispatching.antt `HandleCommandSocketRead`
--                    and `ProcessSockets`.
--   System.antt      the event loop and the workers together, as steps in any order; in
--                    System/Starting.antt the part of `main` that creates them.
--   Config.antt      ConfigFile.cpp: `ConfigFile`, `ConfigData`, `ConfigSection` and
--                    `MultiValueAttribute`.
--   Setup.antt       main.cpp: `DoConfig`.
--   Tests.antt       runs on small inputs, and one instance of each result.
--
-- Conventions. A singleton is an argument and a result of the functions that use it. A method
-- that returns a pointer or a reference which the caller uses at once is a function that finds
-- the object, or that changes it. A loop over a list is a function by clauses on the list.
-- Memory errors are the cases of `Fault`. Characters are bytes; `std::uint64_t` and
-- `std::uint32_t` wrap around; `int` counters (session ids, indices, connection counts, lengths)
-- are taken to stay in range. Fields that a constructor leaves uninitialised are arguments.
--
-- Fuel. The index loops of `isAllowed` run on fuel; one more than the number of domains of the
-- longer of the two policies is enough, and `connect_proxy` gives them more than all policies
-- have. Decimals are printed on fuel 20, the digits of a 64-bit number. Every other function
-- is by structural recursion.
--
-- Concurrency. Of the sessions, a worker reads and writes that of its job only, and of the other
-- shared state the cache of hosts, under its lock; it sends its message last, but for the
-- clearing of the cache. So a handler of a worker is one step of System.antt, at its end, on the
-- state of that time. `async_connector` has a second argument for the sessions behind its
-- message, where the clearing of the cache reads the session once more; a step of System.antt
-- allows any. What other workers do to the cache between its look-up and its clearing is left
-- out. Each access to the list of work is one step under its lock, and waiting for the semaphore
-- is another. System.antt has a queue of messages in place of the pipe, which implements one
-- (Messenger/Queue.antt). `none` is a call that waits, or never returns.
--
-- From outside come: the clock and `localtime`, the contents of files and whether they open, the
-- answers of `getaddrinfo`, `inet_pton`, `::socket`, `::connect`, `::accept`, `::pipe` and the
-- epoll calls, the outcomes of `::read` and `::write`, and what uninitialised memory holds. They
-- are arguments. Only a `::write` of 2^64-1 bytes is fixed: it fails with EFAULT. Numbers that
-- `%d` reads stop at the bounds of a 64-bit `long`. The times that the schedules are asked for
-- may be negative.
--
-- Not modelled: the calls of `Log` in the other functions, `Daemonize`, the arguments of the
-- program and its signals, and the options of sockets apart from the keep-alive of a connection.
-- The locks of Session.cpp and HostInfoManager.cpp make each of their calls one step, which is all
-- that is used of them.
pub mod Prelude
pub mod CText
pub mod Log
pub mod Clock
pub mod TimeMap
pub mod Base64
pub mod Auth
pub mod Blacklist
pub mod Policy
pub mod Stats
pub mod Session
pub mod HostCache
pub mod Gate
pub mod Messenger
pub mod Pool
pub mod Relay
pub mod Detection
pub mod Connect
pub mod Server
pub mod Loop
pub mod System
pub mod Config
pub mod Setup
mod Tests
