-- ===== src/Lib.antt =====
-- The network engine: byte rings, framing, sessions and timers, and what the applications of the
-- runtime share.
--
-- The program is a TCP server library. A worker thread runs an event loop; each connection is a
-- session with two byte rings. Bytes that arrive go into the receive ring, the framer cuts them into
-- messages, and the session hands each payload to the application through its manager. Packets to be
-- sent go out with one system call or, as far as the kernel does not take them, into the send ring,
-- which is flushed later. The applications keep a registry of their sessions and topics on each worker
-- and read and write the fields of their packets.
--
-- Which file models which part, with paths from the repository's root:
--   Prelude: lists, Boolean tests and machine words over the native numbers.
--   Buffer/Ring: engine/src/hypernet/buffer/RingBuffer.cpp and its header. The ring is a record of
--     its members; a pointer into it is an index. Valid has the invariant and `contents`, the bytes
--     stored in order; Write, Read, Views and Receive have the operations on them.
--   Protocol/Endian, Protocol/Framer, Protocol/Message: engine/include/hypernet/protocol, Endian.hpp,
--     LengthPrefixFramer.hpp, Dispatcher.hpp and OpcodeU16.hpp. Framer/Spec describes one call on
--     bytes, Framer/Stream a whole stream.
--   Map: the hash maps as lists; Laws, Unique and Weight have what holds of a lookup, of the keys, and of
--     a sum over the entries.
--   Buffer/Pool: engine/src/hypernet/buffer/BufferPool.cpp; a block is its offset in the storage,
--     a product in size_t.
--   Protocol/Dispatch: the table of handlers of Dispatcher.hpp; a handler is a name.
--   Core/Config: engine/src/hypernet/EngineConfig.cpp, and EffectiveOptions.hpp of
--     engine/include/hypernet/core.
--   Core/Timer: engine/src/hypernet/core/TimerWheel.cpp. A callback is a name; a parameter says what
--     it does and which timers it asks for.
--   Net/Session: engine/src/hypernet/net/Session.cpp. `Core` has the members that callbacks can reach,
--     `log` what the session does to its surroundings. Close is `beginClose_` and `closeFromManager_`,
--     Receive `onReadable_` and `processRecvFrames_`, Send the functions that send, Timeouts the idle
--     and heartbeat timers (Fires has the loop that runs them), Events `handleEvent` and `onError_`.
--   Net/Manager: engine/src/hypernet/net/SessionManager.cpp. The application is a parameter: what its
--     callbacks do to the manager. Ids are its session ids, Table the invariant of its table, Accept,
--     Messages and Policy what happens to it.
--   Net/EventLoop: engine/src/hypernet/net/EventLoop.cpp and core/TaskQueue.cpp. A turn drains the
--     tasks, ticks the wheel of Core/Timer, dispatches the events, ticks and drains again. Wakeup has
--     the eventfd, with posts and the parts of a turn as the steps of threads.
--   Connector: engine/src/hypernet/connector/ConnectorManager.cpp. Requests are those to named
--     connectors, Dials the outgoing connections. Callbacks, timers and what goes to sockets are
--     recorded as acts; timers come back as calls.
--   Protocol/Codec: engine/include/hypernet/protocol/MessageCodec.hpp.
--   App/Packet: PacketReader.hpp and PacketWriter.hpp of runtime/extensions/app.
--   App/Registry: SessionRegistry.cpp and SessionStateMachine.cpp of runtime/extensions/app. Store has
--     the sessions, Index the subscriptions, Api the public operations.
--   App/Broadcaster: TopicBroadcaster.cpp of runtime/extensions/app: the jobs posted to the workers, and
--     whom a job hands to the router.
--   Trading: the gateway's and the exchange's controllers of domains/trading/src/trading/feature, and
--     UpstreamGateway.hpp of runtime/extensions/app. Relay has the way of a ping over the
--     connections to exchanges, whose two ends are parameters.
--   Engine: engine/src/hypernet/Engine.cpp and core/WorkerContext.cpp. Outcome is what a call of the main
--     thread comes to, Worker a worker and the calls made of it (Life its thread), Control the engine
--     and the requests to stop it, Shutdown and Run the two big procedures. A thread is not there, in
--     its loop, or returned; what is posted to its loop runs at its next turn. What the outside does
--     (start of threads and listeners, answers to queries, clock, signals) is given in advance.
--   Net/Router: engine/src/hypernet/net/SessionRouterFactory.cpp and WorkerSchedulerFactory.cpp.
--   Net/Acceptor: engine/src/hypernet/net/Acceptor.cpp.
--   Core/Config/Loader: engine/src/hypernet/core/ConfigLoader.cpp, over tables whose parser is a
--     parameter; Keys has the names.
--   Monitoring/Http: engine/src/hypernet/monitoring/HttpStatusServer.cpp.
--   Tests: runs of the model, and the theorems at concrete inputs.
--
-- What the kernel answers to a call is a list, one entry for each call. A function that still needs
-- an answer when the list is empty returns `none`. The loop over the frames of the receive ring has
-- fuel: a frame takes four bytes at least, so that one turn for each byte and one more are enough.
-- The loop that consumes the send ring takes one byte at least in each turn.
--
-- All calls are on the owner worker, but for those of Engine and Net/Router, which the main thread
-- and other workers make; the aborts on another thread are left out, but for the registry, whose
-- test of the thread returns early. Counters of 64 bits wrap where the source could wrap them. The
-- drain of the tasks has fuel; the costs of Net/EventLoop/Drain say how much of it is enough.
--
-- Not modelled are logging, metrics other than the counts that the session manager and a close
-- touch, sockets and epoll, the TOML parser, the thread of the status server, the services of the
-- applications, and the bytes of the trading packets. The drain of a shutdown has fuel, of which
-- more than the milliseconds of its timeout is enough, since each poll takes one at least.
pub mod Prelude
pub mod Map
pub mod Buffer
pub mod Protocol
pub mod Core
pub mod Net
pub mod App
pub mod Connector
pub mod Engine
pub mod Monitoring
pub mod Trading
mod Tests
