-- ===== src/Lib.antt =====
-- A verification library of the kyrosz7u/knpnl network library: a reactor over epoll with buffered
-- connections and an HTTP server on top.
--
-- The parts and how they interact. A `FixedBuffer` (base/Buffer.h, base/Buffer.cpp) is a block of
-- bytes with a read and a write pointer; each connection has one to read into and one to write
-- from, and each log line is built in one. An `EventLoop` (event/EventLoop.cpp) waits in its
-- `Poller` (event/Poller.cpp) for the events of its `Channel`s (event/Channel.cpp), lets them call
-- back, and runs the tasks that other threads have queued. A `TcpConnection`
-- (net/TcpConnection.cpp) empties its socket into its read buffer (`readFd`), hands the buffer to
-- the message callback, and sends its write buffer and a mapped file (`sendMessage`). The HTTP
-- server's callback is the parser of `HttpRequest` (net/http/HttpRequest.cpp), which works inside
-- the read buffer, by two state machines: one finds the lines, the other reads them.
--
-- The files.
--   Prelude        shared names, Boolean tests, lists, blocks of bytes, signed integers
--   Kernel         what is asked of the kernel: `recv`, `writev` and `accept4`, with their laws
--   Kernel/Threads what is asked of pthreads
--   Kernel/Sockets sockets that keep these laws, for the examples
--   Buffer         FixedBuffer: append, append_char, read_ptr_move (readPtrMove), add, reset, clear
--   Buffer/ReadFd  FixedBuffer::readFd
--   Buffer/Copy    the copies of a FixedBuffer
--   Http/CString   strpbrk, strspn, strcasecmp, strncasecmp, strchr, atol on lists of bytes
--   Http/Request   HttpRequest: parse_line, parse_request, parse_header, parse_content, init (Init)
--   Http/Process   HttpRequest::processRead; Process/Whole follows one request through its rounds
--   Http/Response  net/http/HttpResponse.cpp and base/FileSystem.cpp: appendToBuffer, openFile, Open
--   Http/Server    net/http/HttpServer.cpp: onMessageCallback, WriteCompleteCallback
--   Http/Session   HttpServer.cpp on TcpConnection.cpp: one connection, from event to event
--   LogStream      base/LogStream.cpp: convert, convertHex, formatInteger and the operators <<
--   Event/Poller, Event/Channel    the poller, what epoll keeps, and the channels
--   Event/EventLoop                the task queue and the wake-up, as steps of several threads
--   Event/TimerQueue               event/TimerQueue.cpp and Timer.cpp: the set of timers, its rounds
--   Event/TimerQueue/Calls         the calls of AddTimer, Remove and ResetTimer from any thread
--   Event/LoopChannels             event/EventLoop.cpp: constructor, destructor, AddChannel, …
--   Event/LoopThread               event/LoopThread.cpp: a thread with its loop, and how it is stopped
--   Event/LoopThreadPool           event/LoopThreadPool.cpp: getNextLoop, the destructor
--   Net/TcpConnection              TcpConnection::sendMessage
--   Net/Connection                 net/TcpConnection.cpp: the states and the handlers of a connection
--   Net/Connection/Calls           Send and Close from any thread, RunInLoop, closeInLoop
--   Net/Socket                     net/Socket.cpp: the calls of the kernel that a socket makes
--   Net/Acceptor                   net/Acceptor.cpp: constructor, Listen, handlerRead
--   Net/TcpServer                  net/TcpServer.cpp: newConnection, Close, removeInLoop, Start, the destructor
--   Net/Serving                    a server, its connections and their loops, as interleaved steps;
--                                  Serving/Handlers ties their states to those of Net/Connection
--   Thread                         base/Thread.cpp: start, join, the destructor
--   ThreadPool                     base/ThreadPool.cpp, as steps of producers, workers and a stopper
--   Timestamp, Mutex               base/Timestamp.cpp, base/Mutex.cpp
--   Logger                         base/Logger.cpp and Logger.h: levels, FileName, the head of a line
--   Unittest                       unittest/: the tests of the repository, run on these models
-- Children of these modules hold the proofs, and modules called Tests hold runs and examples.
--
-- How states and operations correspond. A pointer into a block is its offset from the start of the
-- block; `size_t` and `unsigned int` arithmetic keeps its wrap (`sub_size`, `add_u32`). An
-- operation returns the new state, with its result beside it; a return code is an integer. A
-- failed assertion is `none` in Event, Net/Acceptor, Net/Connection and Net/TcpServer, and so is what
-- the language leaves undefined in Event/TimerQueue. The text that the HTTP parsers get is the block
-- from the read pointer on, and the NULs that they write into it are part of the result. Where several
-- threads work on a part (Event/EventLoop, ThreadPool, Net/Serving), its operations are the steps of a
-- relation, and what holds in every reachable state is shown by induction on it; what a thread does
-- under a lock is one step. Records of what has happened (`asked` and `done`, `added` and `taken`) are
-- in these states for the theorems; no step looks at them, but for the queue in Net/Serving.
--
-- Loops and fuel. `parseLine` recurs on the bytes that are left. `readFd` has fuel 2 * capacity + 2
-- (each byte read takes a round, and between two reads there is one move at most), `sendMessage`
-- one more than the bytes to send, `processRead` 2 * used + 1 (each round takes bytes out of the
-- buffer or moves the index on). The theorems about them show that the fuel suffices.
-- `handlerRead` has one round more than connections wait.
--
-- What is assumed. `recv`, `writev` and `accept4` behave as Kernel says: non-blocking sockets, whose
-- states stand for all that arrives until the call ends. Once `SHUT_RD` has shut one that is not
-- broken, what waits in it can still be read, and then the end is (Net/Connection/Calls). Threads are
-- created, joined and detached as Kernel/Threads says. `memcpy` moves bytes also where its two
-- ranges overlap. Reads and writes of `isWakeup` and `mQuit` are atomic and are seen by all threads
-- in one order. `atol` stays within the range of a `long`. A descriptor is given out again only after
-- the connection that had it was destroyed, and `TcpServer::Close`, which takes no lock, reads the map
-- between two changes of it.
--
-- The memory that `setFile` points to is a function of the offset, also behind the end of the
-- mapping; that it may not be readable there is one of the errors of `writev`.
--
-- What is not modelled: the life of a mapped file; conditions, but for the wait in ThreadPool; the
-- setters of callbacks; base/StringPiece.h, a copy of another project's class, which is read as the
-- list of its bytes. Conversions from and to `double` are left to the caller or to `snprintf`.
pub mod Prelude
pub mod Kernel
pub mod Buffer
pub mod Http
pub mod LogStream
pub mod Logger
pub mod Thread
pub mod ThreadPool
pub mod Event
pub mod Net
pub mod Timestamp
pub mod Mutex
pub mod Unittest
