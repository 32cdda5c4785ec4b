-- ===== src/Lib.antt =====
-- Verification library for the KUKSA.val server (kuksa-val-server).
--
-- The server keeps a tree of vehicle signals and serves requests of clients to get, set and
-- subscribe to them. A client is a KuksaChannel with the permissions of its token. The handlers of
-- VssCommandProcessor check a request, ask AccessChecker for the channel's rights and call
-- VssDatabase; setSignal passes the value through VSSTypeSanitizer, stamps the node with the
-- time, replaces it in the tree, and calls SubscriptionHandler, which queues a notification for
-- each subscriber; its worker thread sends them.
--
-- Which file models which part (paths below kuksa-val-server):
-- - Path.antt: VSSPath (src/VSSPath.cpp). fromVSS is from_vss, gen1togen2 is gen1_to_gen2, and so on.
--   Path/Names: the JSONPaths of clients' paths.
-- - Access.antt: AccessChecker (src/AccessChecker.cpp). checkSignalAccess is check_signal_access.
-- - Channel.antt: KuksaChannel (include/KuksaChannel.hpp).
-- - Exception.antt: include/exception.hpp; code that may throw returns a Result.
-- - Sanitizer.antt and its children: src/VSSTypeSanitizer.cpp. checkNumTypes<T> is
--   check_num_types with the type argument as a record; checkAndSanitizeType is
--   check_and_sanitize_type and returns the value that the reference holds afterwards.
-- - Response.antt: src/JsonResponses.cpp.
-- - Subscription.antt and its children: src/SubscriptionHandler.cpp. State has the operations on the
--   subscriptions, Worker a round of subThreadRunner, Threads the interleavings of the worker, a
--   publisher and stopThread as a step relation over both mutexes and the condition variable.
-- - Database.antt and its children: src/VssDatabase.cpp. Nodes has the tests on paths, Signals
--   setSignal and getSignal, Leaves getLeafPaths, Defaults applyDefaultValues, Loading
--   initJsonTree, Metadata updateJsonTree and updateMetaData, MetaData
--   getMetaData, Recording the database of src/VssDatabase_Record.cpp. Code that writes before it throws returns its state
--   beside the error.
-- - Command.antt and its children: the handlers processSet, processGet, processSubscribe,
--   processUnsubscribe, processUpdateVSSTree, processUpdateMetaData, processGetMetaData
--   (Description) and processAuthorize (Authorize), and processQuery (Query), which dispatches to
--   them (src/VssCommandSet.cpp, src/VssCommandGet.cpp, src/VssCommandSubscribe.cpp,
--   src/VssCommandUnsubscribe.cpp, src/VssCommandProcessor.cpp). World is all that a query may
--   change.
-- - Authenticator.antt: src/Authenticator.cpp. validateToken is validate_token, and so on.
-- - Grpc.antt and its children: src/grpcHandler.cpp. Sessions and authorize stand in the parent,
--   Values has grpc_fill_value, Get, Set and Subscribe the other three calls; what a stream does to
--   the subscriptions of others stands in Subscribe/Isolation.antt.
-- - WebServer.antt and its children: of src/WebSockHttpFlexServer.cpp the table of connections,
--   HandleRequest, SendToConnection, and the reads and the queue of a web socket session.
-- - Publisher.antt: src/MQTTPublisher.cpp, start and sendPathValue; the return codes of
--   mosquitto_publish are a parameter.
-- - Overlays.antt: src/OverlayLoader.cpp.
-- - Json.antt, Numbers.antt: JSON values, and the integer types with their limits.
-- - External/Interfaces.antt: what Boost, std::regex, jsoncons and the C library do for the
--   server, as records of operations with the laws that the server relies on; External/Sample has
--   values that meet them. That a path selects, after json_replace, what has been put there is
--   asked for paths of names alone, without filters and wildcards. The schema validation of requests, the output streams and the
--   arithmetic of float and double are such parameters too.
-- - Prelude.antt: names and helpers that all share.
-- - Tests.antt: runs at concrete inputs.
--
-- Bounds and fuel. Integers of C++ have their limits written out, and dt.size() - 2 its wrap
-- around. getLeafPaths recurses along the tree through JSONPath queries and takes fuel, one unit
-- for each level of branches; a run out of fuel is told apart from every answer, and fuel above
-- the height of the path is enough. The worker takes
-- one round for each notification in its queue.
--
-- getVSSTokens has as much fuel as its text has characters, which is enough; the arrays of
-- getMetaData with their 16 elements are written out, and a write behind them is an outcome of its
-- own. The MQTT client has the configured number of attempts to connect.
--
-- Not modelled: log messages, the order of an object's members, spurious wake-ups, reads of the
-- tree between two locks of rwMutex_, and a data race on the unguarded test of the buffer. Of the
-- web server: sockets, TLS, timers, pings and HTTP sessions, which answer no request. Of the gRPC
-- service: the generated transport and the start of the server. The command line in src/main.cpp,
-- the logger, and the reading of keys and certificates from files are input and output.
mod Prelude
pub mod Json
pub mod Exception
pub mod Numbers
pub mod External
pub mod Path
pub mod Channel
pub mod Access
pub mod Authenticator
pub mod Grpc
pub mod Publisher
pub mod WebServer
pub mod Overlays
pub mod Sanitizer
pub mod Response
pub mod Subscription
pub mod Database
pub mod Command
mod Tests
