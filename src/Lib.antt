-- ===== src/Lib.antt =====
-- prime_server: a server, proxies and workers that pass requests along over ZeroMQ, with a codec for
-- netstrings and one for HTTP.
--
-- A client's bytes reach `server_t` (Server) on a stream socket. It keeps a parser in the session of
-- each client, forwards each whole request to a proxy, and keeps it on the books until a worker's
-- result comes back on the loopback, it times out, or the client goes away. `proxy_t` (Proxy) gives
-- jobs to workers that said they are idle. `worker_t` (Worker) runs the application's function and
-- gives up jobs that the server interrupts. `client_t` (Client) sends requests in batches and collects the
-- responses, `beacon_t` (Beacon) keeps the list of services that announce themselves, and http_util
-- (HttpUtil) answers requests for files; the programs (Programs) put a worker's function to it all.
--
-- The files, and the code that they model:
--   Netstring          src/netstring_protocol.cpp: netstring_entity_t, netstring_client_t
--   Http               prime_server/http_protocol.hpp: the types and tables
--   Http/Entity        src/http_protocol.cpp: http_entity_t::consume_until
--   Http/Query         src/http_protocol.cpp: http_request_t::split_path_query
--   Http/Request       src/http_protocol.cpp: http_request_t::from_stream
--   Http/Response      src/http_protocol.cpp: http_response_t::from_stream
--   Http/Client        src/http_protocol.cpp: http_client_t::stream_responses
--   Http/Message       src/http_protocol.cpp: to_string, generic, from_info, to_info, keep_alive
--   Http/Strings       src/http_protocol.cpp: from_string of requests and responses
--   Server             src/prime_server.cpp: server_t
--   Protocols          the two codecs as what server_t is instantiated with
--   Proxy              src/prime_server.cpp: proxy_t
--   Worker             src/prime_server.cpp: worker_t
--   Client             src/prime_server.cpp: client_t::batch
--   Sockets            src/zmq_helpers.cpp: socket_t::recv_all, socket_t::send_all
--   Beacon             src/zmq_helpers.cpp: beacon_t
--   HttpUtil           src/http_util.cpp
--   Programs/Primes    src/prime_serverd.cpp: the two work functions in main
--   Programs/Files     src/prime_filed.cpp, src/prime_echod.cpp, src/prime_workerd.cpp: their work functions
--   Stdlib             what the code uses of the standard library: std::stoul, std::to_string, ...
--   Prelude            lists, maps, tests on numbers, and code that changes an object and may throw
-- A child of a module holds theorems on it, and Tests holds runs and instances of them.
--
-- State is passed explicitly: a method is a function from the object to an `Exit`, which is a value
-- and the object, the object at a throw of the standard library, or undefined behaviour. ZeroMQ is
-- the environment: what a send does is a function of all that was sent before, what a poll brings
-- is a list of inputs, and the clock is part of them. Maps are association lists; where the code keeps
-- iterators into one across inserts, in the beacon, which of them a rehash made invalid is part of the
-- state. `uint32_t`, `uint64_t` and `size_t` keep their wrap-around where a computation can reach it.
-- libcurl is a function that may fail.
--
-- Fuel: the netstring loop takes a byte each round, so `length + 1` rounds are enough; the HTTP loops
-- take a byte at least every other round, so `2 * length + 2` rounds are enough;
-- `handle_timeouts` pops an entry of the history each round; the search for a divisor of `n` takes at
-- most `n` rounds, and the loop over the dots of a path one for each byte at most. `batch` is a
-- recursion on the messages that come in, and a run of a worker or of `serve` on its rounds.
--
-- Not modelled: what `isdigit` does on a byte from 128 on, which is a negative `char`; logging;
-- quiesce and its thread; options of sockets, polls and the wrappers of messages and contexts in
-- zmq_helpers; the actor of the beacon; the mains of the programs, which read a command
-- line and start threads. They hand over to ZeroMQ, CZMQ and the system and keep no state of their own.
pub mod Prelude
pub mod Stdlib
pub mod Netstring
pub mod Server
pub mod Http
pub mod Proxy
pub mod Worker
pub mod Protocols
pub mod Programs
pub mod HttpUtil
pub mod Sockets
pub mod Client
pub mod Beacon
mod Tests
