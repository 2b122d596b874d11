-- ===== src/Lib.antt =====
-- The core of cxxmcp, a C++17 SDK of the Model Context Protocol.
--
-- The program. Servers and clients exchange JSON-RPC messages over transports. On the server, long
-- operations run as tasks: `TaskOperationProcessor` keeps a table of them and hands the work to a
-- thread pool with bounded queues, the `Executor`; clients list, poll, cancel and fetch tasks.
-- Registries hold the tools, prompts and resources that a server offers, and run their handlers; the
-- server authenticates, limits and dispatches requests to them, and keeps subscriptions. The
-- authorization code reads and writes tokens in base64url and compares secrets in constant time.
--
-- Files, and what they model (paths from the repository's root):
--   Core/Executor: sdk/core/include/cxxmcp/core/executor.hpp. `post`, `enqueue`, `shutdown` and
--     `cancel_and_stop` are the lock sections of those methods, `worker_wake` is one round of
--     `worker_loop`. Core/Executor/Queues has the theorems over histories of lock sections.
--   Cancellation: sdk/include/cxxmcp/cancellation.hpp, the sections of sources, tokens and registrations.
--     Cancellation/Delivery has the theorem over histories of sections.
--   Server/TaskManager: sdk/server/src/task_manager.cpp with its header and protocol/task.hpp. State
--     has the records, Cursor the cursor of `tasks/list`, Trim `refresh_locked` and
--     `trim_completed_locked`, Operations the lock sections of submission and completion, Methods the
--     public methods and histories, Samples a concrete processor. The other files hold theorems, named
--     for what they prove.
--   Server/Registry: sdk/server/src/registry.cpp with its header and the records of protocol/tool.hpp.
--     Names has the checks of names and URIs, Catalog the map with its sorted cache, which the four
--     registries share (`add`, `list`, moves), Tools the tool registry with `call`, and Others the
--     registries of prompts, resources and resource templates.
--   Protocol: JSON-RPC messages. Json has what is used of the JSON library, Types the records of
--     protocol/types.hpp, Limits, Decode and Encode the functions of sdk/protocol/src/serialization.cpp.
--     RoundTrip has the theorems on writing and reading, Ids and Limits/Depth those named so.
--   Auth/Base64Url: sdk/auth/include/cxxmcp/auth/openssl/base64url.hpp.
--   Auth/ConstantTime: sdk/auth/include/cxxmcp/auth/constant_time.hpp.
--   Auth/WwwAuth: sdk/auth/include/cxxmcp/auth/www_auth.hpp (Scan, Parser) and `analyze_auth_response` of
--     lifecycle.hpp beside it (Decision). Total and the others hold theorems.
--   Auth/OAuthUrl: the query parameters and scope lists of lifecycle.hpp. Parts has
--     the parts of a URL that `build_authorization_url` tests, and Request that function. Decoding and
--     Reader have a percent decoder and a reader of the query, which the repository has not, Query what
--     that reader finds, and Scopes the theorem on scope lists.
--   Server/AuthChallenge: `build_www_authenticate_header` of sdk/server/src/http_transport.cpp, with
--     theorems on the server and the client together.
--   Server/Auth: sdk/server/include/cxxmcp/server/auth.hpp, the provider of static bearer tokens. Tokens
--     and Padded hold theorems.
--   Server/Subscriptions: resource subscriptions and broadcasts of sdk/server/src/server.cpp. Table has
--     lemmas on the table of subscriptions, Routing the theorem over histories of calls.
--   Server/Requests: the table of cancellable requests of server.cpp, over the sources of Cancellation.
--     Keys has lemmas on the table's keys, Reach the theorem over histories.
--   Server/Dispatch: `handle_request` of server.cpp, with the wire version of server/transport.hpp, the
--     versions of protocol/serialization.hpp and the request of server/rate_limit.hpp. Parts has what the
--     dispatcher calls, Wire the versions and the fields added to results, Replies the responses,
--     Branches the methods' branches, Methods the choice among them, Handle the steps around it.
--     Responses and Fits have lemmas, Answered and Stamped the theorems.
--   Prelude: shared types (results and errors of core/result.hpp, error codes of protocol/types.hpp),
--     list, text and decimal lemmas, and association lists for the hash maps.
--
-- Concurrency. Every access to shared state is one atomic operation or under the component's mutex, so
-- a history is a list of such sections in the order in which they happen, and theorems on histories
-- hold for every interleaving. The whole of `submit_operation` is composed with no other thread between
-- its lock sections.
--
-- Numbers. `size_t` and `uint64_t` are natural numbers with their wrap-around written out where a sum
-- can reach it. Durations are counts with the conversion to nanoseconds modulo 2^64; signed overflow,
-- which C++ leaves undefined, is taken to wrap. The loops recurse on lists, and
-- `limits_loop` on the number of nodes it may still visit, as the code counts them. Only the loops of
-- the header parser take fuel, one more than the length of their input: every round but the last
-- takes a byte.
--
-- Parameters. JSON values are of a type `Json`. Protocol takes the library's functions on them as a
-- record, its parser and printer included, with their documented behaviour as `JsonLaws`; a round trip
-- supposes that the parser reads the one text in question. The library's exceptions are not modelled.
-- The clocks' readings, the timestamps, how a task's operation ends, handlers and the
-- schema validator are arguments. A tool's handler returns; the other handlers of a request may throw,
-- and do not call the server again. The dispatcher's operations other than the tools are arguments.
-- An association list gives the iteration order of a hash map, in which the updates of one refresh
-- are emitted.
--
-- Not modelled: transports, the client, the peer layer, the server's router, its handling of
-- notifications and its requests to clients, JSON conversion of the protocol's other types, OpenSSL,
-- the authorization endpoints, the rest of lifecycle.hpp, the executor's timers and the vendored
-- libraries.
pub mod Prelude
pub mod Core
pub mod Cancellation
pub mod Protocol
pub mod Auth
pub mod Server
