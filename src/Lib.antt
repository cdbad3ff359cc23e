-- ===== src/Lib.antt =====
-- A model of the HTTP proxy: its cache, its messages, its resolver and its timeouts.
--
-- The proxy reads a request from a client, resolves the host on a thread of the resolver, connects,
-- relays the request and the response, keeps responses in a cache and validates them. All sockets
-- are served from one loop over epoll.
--
-- Parts, and the code that each models:
-- - SimpleCache: proxy/request_processing/simple_cache.h. `insert`, `has`, `find`, `erase` and `size`
--   over nodes linked by iterators; `Fifo` is the queue that they promise.
-- - HeaderParser: proxy/request_processing/header_parser.h and header_parser.cpp. `Property`,
--   `RequestLine`, `ResponseLine` and `Header` are the classes `header_property`, `request_line`,
--   `response_line` and `http_header`; `Policy` is `should_cache`, `make_validate_header`, `to_url`.
-- - RawMessage and BufferedMessage: proxy/request_processing/buffered_message.h and .cpp. Messages
--   between two sockets; `Headers` gives a buffered message the two headers of HeaderParser.
-- - Resolver: proxy/request_processing/resolver.h and resolver.cpp. `step` is what a thread does
--   between two places where another may run; it uses SimpleCache for the addresses. `Order` are
--   threads that interleave, `Serves` is one that is left alone, against `Reference`.
-- - FdState: proxy/epoll_queue/fd_state.h and fd_state.cpp.
-- - EpollCore: proxy/epoll_queue/epoll_core.h and epoll_core.cpp: handlers and the loop over events.
--   `Dispatch` is the order in which events are handled, `Rounds` the rounds of the loop.
-- - EpollQueue: proxy/epoll_queue/epoll_queue.h and .cpp, with the timeouts of connection.h and
--   epoll_elem.h: what is saved, closed, touched, and what the timer closes.
-- - ProxyServer: proxy/proxy_server.h and proxy_server.cpp, with the elements of
--   proxy/epoll_queue/epoll_elem.cpp. `Handler`, `Action`, `OnRequest`, `OnResponse` and
--   `OnConnection` are the closures that the code passes on, as data with what they capture.
--   `Elems` are the registrations, `Pages` the cache of pages, `Actions` what the methods start and
--   the calls of the closures, `Connecting`, `Transfers` and `Handlers` what each handler does with
--   an event; `Handlers.run` calls a handler, and `Loop.run_server` is `run` over EpollCore.
--   `Startup` are the constructors, with the one of `epoll_queue`, and main.cpp. `Kept`
--   is the frame of all of that: what it does to the cache and to the raw messages.
--   `Reaches` are the runs of the server, `Tunnel` and `Caching` what they do to a tunnel and to the
--   pages, `Replays` how a page comes back, `Linked` how handlers find their elements and messages,
--   `Hazards`, `Retries` and `Stale` where they go wrong, `Serving` and `Mains` what `Startup` gives
--   and how its loop ends.
--   A message that closures share is a place in one of three lists of the state; an iterator is its
--   key, a connection's is a number that is never used again. A dangling reference, which the code
--   would follow, is the fault `undefined`; an exception of a destructor is `terminated`.
-- - SocketWrap, EventFd, SignalFd, TimerFd: the wrappers of descriptors in proxy/util and of
--   proxy/epoll_queue/timer_fd.cpp, which `Startup` uses.
-- - FileDescriptor: proxy/util/file_descriptor.cpp. `read` and `write`, and the objects that own
--   descriptors, each at an address, with what their destructors close (`Owners`).
-- - Text: `to_lower` of proxy/util/util.cpp, and what the code uses of `std::string`.
-- - Base: shared names, Boolean tests, lists, and the outcome of a C++ call. An exception, a step
--   outside the language and the end of fuel are outcomes of their own.
-- - Tests: each result at a concrete input.
--
-- Bounds: `size_t` has 64 bits, and its sums and differences wrap around, also with
-- `std::string::npos`. A text in memory is shorter than 2^63 bytes. The loop over the lines of a
-- header has as many rounds as the message has bytes, and one more: each round moves on by a byte
-- at least. The loop of `swap` has a round for each place of the array, and one more: behind it
-- the loop has left the array. The loop over events ends by a handler or a signal alone: it gets a
-- number of rounds.
--
-- Parameters: the system calls, `getaddrinfo`, `htons`, and what a handler of EpollCore does.
-- `read` and `write` move no more bytes than they are asked to. In ProxyServer the record `Os` is
-- what the system answers during one call of a handler; the theorems hold for all answers that they
-- do not name, and each call may have its own; `Boot` is what it answers to the constructors.
--
-- Not modelled: the destructors at the end of `main`; the end of the resolver's threads, which in
-- `Reaches` and `Loop` change the resolver between two calls of handlers in whatever way, and whose
-- own steps are in Resolver; logging, and copies and moves that only copy fields. A message that
-- was moved out of a place stays there.
pub mod Base
pub mod BufferedMessage
pub mod EpollCore
pub mod EpollQueue
pub mod EventFd
pub mod FdState
pub mod FileDescriptor
pub mod HeaderParser
pub mod ProxyServer
pub mod RawMessage
pub mod Resolver
pub mod SignalFd
pub mod SimpleCache
pub mod SocketWrap
pub mod Tests
pub mod Text
pub mod TimerFd
