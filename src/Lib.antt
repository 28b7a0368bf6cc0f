-- ===== src/Lib.antt =====
-- Sinetlib: a network library with a reactor, an HTTP server on it and an asynchronous logger.
--
-- The program's parts, and the files that model them (sources under the directory src):
--   Net/Buffer        net/iobuffer.h, net/iobuffer.cpp: class IOBuffer, a vector of bytes with two
--                     indices. Children: the representation invariant (Valid), the readable
--                     bytes behind each operation (Contents, Reading), a queue of bytes as the
--                     specification (Refine), the searches (Search).
--   Net/EventBase     net/eventbase.h, net/eventbase.cpp: the events of a descriptor, and the dispatch
--                     of HandleEvent.
--   Net/Connection    net/connection.h, net/connection.cpp: Send, Shutdown, HandleRead, HandleWrite
--                     and HandleClose over an input and an output IOBuffer. Stream is about what the
--                     peer gets, Growth about the size of the vectors.
--   Net/ThreadPool    net/threadpool.h, net/threadpool.cpp: the loops handed out in turn.
--   Net/Epoller       net/epoller.h, net/epoller.cpp: the map of descriptors beside the event table of
--                     the kernel. Covers is about what Poll finds.
--   Net/Looper        net/looper.h, net/looper.cpp: the loop, its queue of tasks and the wake-ups as
--                     steps between its thread and others. Wakes is about what becomes of a task,
--                     Early about tasks that are added before Start.
--   Net/LooperThread  net/looperthread.h, net/looperthread.cpp: GetLoop and the new thread as steps
--                     around a mutex and a condition variable. Places is the invariant, Handshake
--                     about what GetLoop returns.
--   Net/TimerQueue    net/timer.h, net/timerqueue.h, net/timerqueue.cpp: AddTimer, ResetTimerfd and
--                     HandelTimerExpired. Order is about the queue, Expired about a timeout.
--   Net/Server        net/server.h, net/server.cpp: new connections, their loops and the map.
--                     Placed is about where connections go. Life has connections come and go, and
--                     Removal is about the tasks that remove them.
--   Http/Request      http/httprequest.h.
--   Http/Parser       http/httpparser.h, http/httpparser.cpp: ParseRequestLine and ParseRequest, the
--                     state machines, over an interface `Source` that IOBuffer and plain bytes fill.
--                     Stoi is std::stoi; the other children are proofs on the request line (Line,
--                     LineSound), parameters (Query), header lines (Fields), whole requests (Whole),
--                     the loop (Loop), more bytes (Grow, Resume), requests in pieces
--                     (Prefix, Waiting, Pieces) and the buffer (Input, Size).
--   Http/Matcher, Http/Router   http/matcher.*, http/route.*, http/router.*: patterns and routes.
--                     Braces and Pieces are about what Init makes of a pattern, First about the
--                     route that is taken.
--   Http/Response     http/httpresponse.h, http/httpresponse.cpp.
--   Http/Server       http/httpserver.cpp: OnMessage and OnRequest, which put the parser, the router,
--                     the response and the connection together. Files is about a route to a
--                     FileHandler, down to the bytes on the connection.
--   Http/Server/Setup http/httpserver.h: the object HttpServer with its routes and its one FileHandler,
--                     and the calls that set it up.
--   Http/Session      one connection as the loop calls it: HandleEvent, HandleRead, HandleWrite and
--                     OnMessage together. Served says what reports bring; Calls, Messages,
--                     Arrivals and Answered are about what the peer gets.
--   Http/File         http/file.h, http/file.cpp: names, kinds, extensions, ReadAsText, ListDir.
--   Http/FileHandler  http/filehandler.h, http/filehandler.cpp: the answer for a file, a directory and
--                     a missing path. Served and Length are about the length that it announces.
--   Util              base/util.cpp: letter case, times, and how Accept takes an error.
--   Log/Logger        log/logger.h, log/logger.cpp: one logged statement and its line.
--   Log/Output        log/logger.cpp: the output functions, and the AsyncLogger that the default one
--                     starts, with steps of all threads. Lines and Lost are about what becomes of
--                     the lines.
--   Log/Stream        log/logstream.h, log/logstream.cpp: fixed buffers, Convert and operator<<.
--   Log/Async         log/asynclogger.h, log/asynclogger.cpp: producers and the log thread as
--                     interleaved steps. Safe is about their faults; Tidy, Keeps and Order
--                     about what is written.
--   Log/File          log/fileutil.*, log/logfile.*: the loop over partial writes and the flush
--                     counter.
--   Base              Boolean tests, lists, texts, integers and ranges that all of these share.
--   Net/Tests, Net/LoopTests, Http/Tests, Http/FileTests, Http/RouteTests,
--   Http/SessionTests, Http/Server/Tests and Log/Tests apply the theorems at concrete inputs.
--
-- How code corresponds to definitions: a class is a record with its fields, a method a function from
-- the object to the object it leaves, with its result beside it; names are those of the source, in
-- lower case with underscores. Effects on other objects (callbacks, the loop, `shutdown`) are lists of
-- values in the order of the calls. A pointer into a buffer is a distance from its first readable byte.
-- Bytes are numbers. Undefined behaviour that the code could meet is the result `none` or `fault`, but
-- for the request line of Http/Parser, where a `space` at the end stands for an empty rest.
--
-- Bounds and fuel. A `size_t` wraps at 2 ^ 64; the theorems on IOBuffer ask that the vector with all
-- that is asked for stays below that (`Fits`). ParseRequest's loop runs on fuel, the number of readable
-- bytes and two: every round that goes on takes a line, which has two bytes or more. The request line's
-- loop has four states and moves on in each round. The loop over parameters has the number of bytes and
-- one, the loop of Convert the number itself and one. HandelTimerExpired's loop has the number of timers
-- in the queue and one: timers that a callback adds do not expire in the same round. ReadAsText's loop
-- has the number of bytes and one.
--
-- Arguments stand for what is not in the repository: what `write` and `readv` answer, the match of
-- std::regex, the order of iteration over an unordered_map, the text that snprintf makes of a double,
-- how much fwrite takes, the clock, the file system, and the kernel's event table, whose documented
-- behaviour is the record IsEventTable. The concurrent queue of tasks is a list of which any element may
-- be taken; `try_dequeue` may miss a task while another thread is in AddTask or has woken the loop.
--
-- Not modelled: the calls of the socket library and the formats of a time in base/util.cpp, the
-- opening and closing of log files, the copied libraries base/concurrentqueue.h and base/anyone.h, and
-- the examples. These are input and output around the parts above. Left out as well are a pattern that
-- std::regex refuses, and what a session reads behind `shutdown` of its writing side.
pub mod Base
pub mod Net
pub mod Http
pub mod Util
pub mod Log
