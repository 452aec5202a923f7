-- ===== src/Lib.antt =====
-- co_uring_web: a web server over io_uring or epoll. A scheduler thread accepts connections and
-- hands their coroutines to worker threads through a lock-free queue; each worker drives its
-- requests with a scheduler that keeps deadlines in a timer queue; the HTTP service parses what was
-- read and writes a response.
--
-- Prelude: shared names, bytes, bit operations and OrdMap, a sorted association list that stands for
--   std::map, and, where the order of iteration does not matter, for std::unordered_map.
-- Timer: TimerQueue of include/timer.h and src/timer.cpp. The operations are add, remove and
--   pop_expired, over a record of the class's three fields; the clock is an argument.
-- LockfreeQueue: LockfreeQueue of include/lockfree_queue.h. `push` and `pop` are whole calls; Threads
--   takes them apart into atomic steps of one producer and any number of consumers, whose orders
--   are the lists of steps. The steps are sequentially consistent; what weaker orders the hardware
--   may show is not modelled.
-- Http: the status texts, HttpRequest::fromRawData and the conversions of HttpResponse, of
--   include/http.h and src/http.cpp. Texts are lists of byte values. The parser works on the text
--   that remains; the conversions write into a byte buffer, where a write out of range is
--   `fault` for memcpy and `[]`, and an exception for `at`. Indices are `int` in the code: texts of
--   2 ^ 31 bytes and more are left out.
-- Utils: helpers of include/utils.h and src/utils.cpp: Split (the splits and stringsJoin), Utf8
--   (fromUnicode), Hash (the string hashes, with getContentType of src/http.cpp) and Address (addr2str,
--   in a buffer of 16 bytes); Decimal is std::to_string.
-- Uring: UringScheduler of include/core.h and src/core.cpp: handleRead, handleWrite and poll over the
--   map of pending requests and the timer queue. Requests lie in a memory that is passed along; the
--   completions that the kernel returns are an argument, in any order. Runs has the states that a
--   scheduler comes to, as an indexed data type, and Follows the runs behind a request.
-- Epoll: EpollScheduler of the same files. The system calls are a record over a state of the kernel's
--   own, which every operation is given; Poll has the events and the timers.
-- Server: TcpServer::run and Scheduler of include/core.h. Dispatch is about the queue that a connection
--   is put in, Rounds about the loop of a worker, Waits about a coroutine that awaits a request. The
--   class below Scheduler is an interface, SchedulerImpl, which Epoll and Uring fill. Timeouts is about a
--   coroutine over Uring that awaits a request with a timeout. A coroutine is a function on the
--   scheduler's state.
-- Json: JsonObj, JsonParser and the copies of include/json.h and src/json.cpp. A value is a tree, and a
--   null pointer in it a tree of its own kind. The two parameters of the parser and of `dump` are the
--   stream operators for double; a text that remains stands for startIndex. Access has operator[] and
--   getData.
-- Logger: LoggerInfoBuilder of include/logger.h, which builds a line in a buffer of 512 bytes, and the
--   destructor of Logger. The texts that snprintf makes are given. The buffer is that of Http/Response.
--   Logger/Rotate: GlobalLoggerManager of src/logger.cpp, over a directory that maps names to files.
-- Service: static_web_http of include/http.h, a function on the state of the world over a record of the
--   calls that it makes. Ledger and, for Echo, Stream are that record with a list of the open
--   descriptors, or a transcript, kept beside the state.
-- Echo: the coroutine Echo of echo.cpp, over the same record.
-- Config: Config::init of include/config.h and src/config.cpp, over what Json parses.
--
-- Fuel: the loop over header lines runs on the length of the text, which every line shortens;
-- to_string writes up to 20 digits, as many as a 64-bit number has. A split by a string runs on the
-- length of the text plus one, and so do the loops of the JSON parser, which take a character in each
-- round or in every nested call. The loop of handleWrite over epoll runs on the size of the request,
-- of which each round writes a byte. The search for a queue with room runs on the number of workers,
-- and the loop that empties a queue on its capacity plus one. The loop of Echo, which a client can keep
-- up for ever, runs for as many rounds as are asked for.
--
-- Not modelled: the sockets and threads of include/core.h and how a compiler suspends a coroutine, the
-- main programs, the time header of a log line, and the helpers that only call zlib or the C library.
pub mod Prelude
pub mod Timer
pub mod LockfreeQueue
pub mod Utils
pub mod Http
pub mod Uring
pub mod Epoll
pub mod Server
pub mod Json
pub mod Logger
pub mod Config
pub mod Service
pub mod Echo
