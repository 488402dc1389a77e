-- ===== src/Lib.antt =====
-- Kingdom: a messaging server (kds) with sessions, a PostgreSQL database and a blockchain sidecar.
--
-- The parts and the files that model them, one function here for one function there:
--   Base, Outcome        helpers on lists, bytes and association lists; results of calls that throw
--   Platform             what the code uses of nlohmann::json, OpenSSL, libsodium and PostgreSQL's
--                        text of arrays: a record of functions, a parameter of every definition
--   Numerals             parseId, std::stoull and std::to_string (kds/src/controller/Controller.cc)
--   Database             kds/src/db/Database.cc: the tables, a transaction on them, each method
--   Jwt                  kds/src/security/JwtUtils.hh: base64url, signatures, bearer tokens
--   Security             kds/src/security: TokenBlacklist, the predicates, their factory, the chain
--   Server               the members of kd::Controller that handlers use, and handlers as actions
--   Controller           kds/src/controller/Controller.cc: rate limit, validation, sessions, each
--                        handler, the routes, one round of the resolver, and the running server
--   Toolkit              what the client uses of nlohmann::json, libsodium and OpenSSL, as records of
--                        functions; Toolkit/Laws states what their documentation promises
--   Drive                the files of the client's disk, and what may fail there
--   KeyStore             libkd/src/LocalKeyStore.cc: key bundles, the key file, messages for a bundle
--   MessageStore         libkd/src/MessageStore.cc: messages in memory, the store file and its
--                        encryption; Message.cc and Conversation.cc
--   Client               libkd/src/Client.cc: the requests, pinned keys, login, logout and signup
--   Tests                concrete inputs, with a small JSON and a small crypto library
-- The password functions are of libkd/src/User.cc, the records of libkd/include/kd.
--
-- How the parts interact: `serve` runs the filter chain on the request without its body, which the
-- server reads later (before_body). An error of the chain is the answer, otherwise the route's handler runs; it reads and writes the database by the methods of
-- Database alone. Controller/Keeps.antt states that as an interface: a relation on databases that
-- the methods keep (record Operations) is kept by every answer. Database/Validity and
-- Database/Narrowing fill the interface. `run` puts requests, resolver rounds and restarts in
-- sequence; the mutex of the database makes each method one step, and each request is one step too.
--
-- The client is a chain of calls that may throw, on a disk where each step may fail by path. What a
-- server answers is a parameter (Transport); Client/Routed relates the requests to the routes of
-- Controller. MessageStore and Client use KeyStore; KeyStore uses nothing of the server.
--
-- Modelling decisions. Bytes are numbers. Ids are numbers: the cast between uint64_t and BIGINT is a
-- bijection. A transaction that throws restores the tables and leaves the sequences advanced. A
-- handler goes on, answers, or throws. A request reads each clock once. Times of the rate limit are
-- nanoseconds of the steady clock, from which a new entry of the map starts at 0. The sum of the
-- session's times wraps at 2^64. The n-th random value of a call of the client is a function of n. The
-- texts of exceptions leave out the path, the field or the status that the sources append. A value
-- of JSON is what json compares equal, and a number that is written signed is read back unsigned.
-- Permissions of files are a step that may fail and changes nothing else. The counts of the rate limit
-- are unbounded numbers: 2^31 requests of one address within a window are not modelled. Of an answer
-- with 404 the error handler replaces the content, also where a handler gave it. HEAD finds the
-- routes of GET. A stream that is tested may still lose its text when it is closed; this step
-- (close_stream) stands in the writing of message stores. The files of keys are written without
-- it: their text is long enough to be passed on before the test, and a loss at the close of the
-- known keys is not modelled.
--
-- Bounds and fuel: printing a number has 20 digits of fuel, and 10^20 exceeds 2^64; reading an array
-- has one round for each byte of the text, and each round takes at least one; padding has three
-- rounds, and a block has four bytes.
--
-- Not modelled: logging, response headers, TLS, the reading of the environment
-- (kds/src/controller/configure.cc), a negative KD_RATE_LIMIT_MAX_REQUESTS, requests that interleave
-- inside a handler, the clearing of keys in memory, two processes of the client on one disk, the
-- windows of the client (kdctl), the sidecar and the contract (blockchain), scripts and tests.
pub mod Base
pub mod Outcome
pub mod Platform
pub mod Numerals
pub mod Database
pub mod Jwt
pub mod Security
pub mod Server
pub mod Controller
pub mod Toolkit
pub mod Drive
pub mod KeyStore
pub mod MessageStore
pub mod Client
pub mod Tests
