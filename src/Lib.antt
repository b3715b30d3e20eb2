-- ===== src/Lib.antt =====
-- CommandRelay: a bridge that shares terminal panes with remote clients. The bridge server accepts
-- websocket connections, reads messages in the wire protocol, streams the output of the panes that a
-- client attaches to, and types the input that a client may send into them.
--
-- The parts and the files that model them, with paths from the repository's root:
--
-- * Engine (src/bridge/bridge-engine.ts, class `BridgeEngine`): the panes that are watched. The map
--   of panes holds references into a store of watchers (Engine/Watcher: the event history of one
--   pane, `nextEvent`, `computeDelta`, and what `attach` sends to resume a stream), since `attach`
--   and `pollOnce` keep a watcher across an `await`. Each method is cut at its `await`s: `attach` is
--   `attach_start` and `attach_finish`, `pollOnce` is `poll_start`, a `poll_round` for each pane,
--   and `poll_stop`. Engine/Interleaving runs the parts in any order.
-- * Ownership (src/server/bridge-server-utils.ts, class `PaneInputOwnershipArbiter`): who may type
--   into a pane, by leases that run out. Ownership/State has the older map from pane to client, and
--   the functions that take either. Ownership/View is the abstract view, the owner of a pane at a
--   time.
-- * RateLimiter (src/server/rate-limiter.ts, class `SlidingWindowRateLimiter`), with its
--   specification in RateLimiter/Window.
-- * Messages (src/server/message-validation.ts) and InputPolicy (src/server/input-policy.ts).
-- * Server (src/server/bridge-server.ts, `startBridgeServer` and `handleClientMessage`): the state of
--   all clients, a function for each case of the message switch (Server/Handler, Server/Input,
--   Server/Dispatch), and the handlers of a connection, a message and a close. A handler takes the
--   shared state and gives the state after it with the list of its effects (Server/Effects):
--   envelopes sent, audit entries, telemetry records, and calls of `sendInput`. It uses Engine,
--   Ownership, RateLimiter, Messages, InputPolicy and Protocol. Server/Sessions has the answer to
--   `list_sessions` (also src/server/session-list-runtime-metadata.ts).
-- * Protocol (packages/commandrelay-protocol/src/index.ts): envelopes and their parser.
-- * Multiplexer (src/runtime/runtime-multiplexer.ts, class `RuntimeMultiplexer`): several runtimes
--   behind one, with pane ids that name the backend.
-- * Cache (packages/proxy-agent/src/bounded-agent-cache.ts and
--   packages/proxy-undici/src/bounded-dispatcher-cache.ts): the bounded caches of proxy agents and
--   dispatchers, which are the same code.
-- * SshSession (src/ssh/session-state-machine.ts): the control states of an SSH session.
-- * SshTarget (src/ssh/ssh-target.ts): the parser of SSH targets, over UTF-16 code units.
-- * Failures (src/server/bridge-runtime-failures.ts): how errors, closes of a connection and the
--   replay metadata of Engine are reported.
-- * Proxy (packages/proxy-core/src/index.ts): which proxy a request to a target takes. Proxy/Rules
--   and Proxy/Settings read `NO_PROXY` and the proxy variables, Proxy/Routes resolves a target, and
--   Proxy/Explain (packages/cli-proxy/src/route-explainer.ts) repeats the decision with its reasons.
--   Proxy/Agents (packages/proxy-agent/src/proxy-agent-factory.ts) gives each resolved target an
--   agent, through Cache, and Proxy/Runtime
--   (packages/proxy-runtime/src/proxy-runtime-controller.ts) holds the settings in use.
-- * Relay (packages/commandrelay-relay-proxy/src: index.ts and request-guards.ts): one session of the
--   relay, between a client's socket and an upstream one. Relay/Sessions has all sessions, the
--   guards of an upgrade and the statistics.
-- * ProxyCli (packages/cli-proxy/src/arg-parser.ts): the parser of the command line.
-- * Telemetry (src/telemetry/bridge-telemetry.ts and bridge-status.ts): counters, latencies, recent
--   errors, and the status computed from them.
-- * Client (packages/commandrelay-client/src: index.ts, validation.ts and
--   commandrelay-client-types.ts): the client's connection and its pending requests, as steps that
--   the caller, the sockets and the timers take in any order, `connect` in two steps about its
--   `await`. It reads what Protocol reads.
-- * Common, shared by all: tests, lists, JavaScript's Map and Set as lists in insertion order, and
--   what the program uses of JavaScript's strings (Common/Units for strings as lists of code units).
--   Examples has each theorem at a concrete input, and small runs.
--
-- Numbers are natural numbers, or integers where the source compares with negative ones; none comes
-- near the bounds of a double, and latencies are whole milliseconds. Pane output, targets, `NO_PROXY`
-- and the arguments of a command line are lists of UTF-16 code units; other text is a native string,
-- without lone surrogates. Every loop is structural recursion, except that the digits of a number n
-- are written with fuel n + 1, since a division by ten makes a positive number smaller. Clock
-- readings, captures, the panes that a runtime lists, `localeCompare`, `isIP`, `JSON.parse`,
-- `new URL`, the hash of tokens, the constructors of agents, and what a socket or a timer reports
-- are arguments. `toLowerCase` is that of ASCII.
--
-- Left out: the handlers of the server run one after another, although the source may switch at an
-- `await`; of `attach` and `pollOnce` in the engine all interleavings are modelled. The upgrade
-- of the bridge, static files, the attach-lag map, request ids, hashes in audit entries and the log are not
-- modelled, nor the relay's settings, its watch of TLS files and its status pages, the options of
-- agents, the texts of errors and of reported issues, and the packages and modules not named above.
pub mod Common
pub mod SshSession
pub mod SshTarget
pub mod Ownership
pub mod RateLimiter
pub mod Engine
pub mod Messages
pub mod InputPolicy
pub mod Server
pub mod Cache
pub mod Multiplexer
pub mod Protocol
pub mod Proxy
pub mod Telemetry
pub mod Client
pub mod ProxyCli
pub mod Relay
pub mod Failures
pub mod Examples
