-- ===== src/Lib.antt =====
-- telecode: Claude Code sessions that run on a developer's machine, followed and steered from a
-- browser. A daemon on the machine and the browsers each hold a WebSocket to the relay, which
-- authenticates them, multiplexes the frames of a channel `(user, device)`, keeps the registry of
-- devices and sessions, and replays what a returning browser has missed. It never reads the
-- end-to-end encrypted payloads.
--
-- The files:
-- - Base: JavaScript's `Map` (Base.Dict), lists, `===`, the length of a text (Base.Text), a stable
--   `sort` (Base.Sorting).
-- - Protocol: packages/protocol/src/session.ts (statuses, origins) and envelope.ts (message types), and
--   the payload schemas that the relay, the daemon's gates and the web reducer parse, over JSON values
--   (Protocol.Payload, Protocol.Frames, Protocol.History, Protocol.Replies); Protocol.Prompt is
--   packages/protocol/src/prompt.ts.
-- - Sessions: apps/relay/src/registry/session-registry.ts on the `sessions` table of
--   apps/relay/src/db/schema.ts. A table is the list of its rows; a statement of the registry is a
--   function of the table, the time and the new ids. `Sessions.Pages` has the lists and the keyset
--   pages; `Sessions.Mutation` names the writes as one data type, over which the children state
--   what every write keeps; `Sessions.Terminal` says in words of its own which rows the guards select.
-- - Devices: apps/relay/src/registry/device-registry.ts on the `devices` table.
-- - Pairing: apps/relay/src/device-auth.ts, the device authorization grant. The two maps of pending
--   codes and the map of failures are the fields of `Service`; `approve` is its synchronous part
--   `claim`, the registry's `bind_device`, and `settle` or `release` after the `await`.
-- - Relay: apps/relay/src/relay.ts. `Relay.Hub` has the state that the sockets share, a record of the
--   maps of `buildRelay`, the registries' tables and the log of what was sent, closed and pushed;
--   `Relay.Socket` is a socket's hello, its later frames and its close; `Relay.Browser` is
--   `routeFromBrowser`; `Relay.Daemon` and `Relay.Daemon.Route` are `routeFromDaemon` with
--   `reconcileSessions`. `Relay.Cache` is `cacheFrame` and `replayCache`; `Relay.Heartbeat` the
--   keepalive sweep; `Relay.Connections` the cap on sockets for an address. A frame is handled from
--   its arrival to its end in one step, and the registry's writes succeed; a raw text comes with the
--   envelope that `parseEnvelope` makes of it. `Relay.Effects` splits both routes into
--   small effects, by which `Relay.Isolation` (what is written) and `Relay.Delivery` (what is sent)
--   are proved; `Relay.Reconcile` and `Relay.Offline` are about one route each, `Relay.Presence`
--   about a reconnection, and `Relay.Reachable` about every run; `Relay.Sample` is the tests' data.
--   Times, random ids and codes, and the outcome of a ping or a send are arguments.
-- - Daemon: packages/daemon/src. `Daemon.Policy` is permission-policy.ts and adopt/
--   adopted-gate-decision.ts. `Daemon.Gates` has the state of daemon.ts that its gates read and write,
--   the session records and the pending permissions and questions, with `requestPermission` and
--   `requestQuestionAnswer`; `Daemon.Gates.Settle` the timers, the operator's replies, `stopTurn`,
--   `handleControl` and `stop`. A gate's promise is its request id, and the call of its resolver an
--   entry of the log of resolutions. `Daemon.Gates.Effects` splits every operation into the effects of
--   one data type, over which the other children state what holds of any run.
--   `Daemon.Adoption` is adopt/adopted-sessions.ts and adopt/is-adoption-allowed.ts, with
--   `handleAdoptedAck` and the part of `handleHookEvent` that adopts: a promise of `ensureAdopted` is
--   its number, and its settlements and the announcements are logs.
-- - Web: apps/web/src/lib. `Web.Transcript` is session.ts, the reducer of a session's view: the types
--   and the passes over the entries here, `applyEnvelope` in `Web.Transcript.Fold`, the user's actions
--   in `Web.Transcript.Actions`. `Web.Transcript.Log` names the operations on a view as one data type,
--   and `Web.Transcript.Lifecycle` what each may do to an entry. An entry's key `e<n>` is `numbered n`.
--   `Web.Rows` and `Web.Groups` are session-groups.ts, `Web.Threads` threads.ts, `Web.Lineage`
--   lineage.ts and `Web.Inbox` inbox.ts.
-- - System: the daemon's gates and the web reducer together, through the history payload that the
--   daemon sends to a browser which subscribes; and the manager of adopted sessions with the relay's
--   `session.adopted`.
--
-- What is a parameter: the digest of a device token (`hash`), which the theorems take as any function,
-- with the assumption, where it is needed, that no device holds the new token's digest yet; whether
-- a text is a uuid; the order of ids, a rank in which no two ids are alike; and, in
-- `Relay.Hub.Environment`, the check of a channel token, `JSON.stringify`, and which sockets fail to
-- receive a broadcast; the log of what was sent holds every other call of `send`.
--
-- Numbers are natural numbers: times in milliseconds, counts and lengths. A subtraction of times in
-- the source is written as an addition on the other side of the comparison. The loops are recursion on
-- lists, but for three walks on fuel. The walk over the pages of a listing takes the number of pages
-- and is shown to end within the number of rows. The walks along the parent links of `Web.Threads` and
-- `Web.Lineage` have one round more than there are sessions, have no result when the rounds run out,
-- and are shown to have one always, because a round visits a session that was not visited before.
--
-- What is not modelled: the relay's HTTP routes, the interleaving of frames of different sockets at the
-- relay's awaits, registry writes that fail, telemetry and logs; of the daemon, the agent's runs,
-- handovers, the other hook events, persistence, worktrees and the connection, and the awaits within a
-- handler: the diff-stat of a gate comes with its request, and whether a turn can be aborted is the
-- argument `in_flight`; the pages and the store of the web application; the cryptography, so that a
-- sealed payload is the JSON value it decrypts to; the database's own enforcement of row security; I/O.
pub mod Base
pub mod Protocol
pub mod Sessions
pub mod Web
pub mod Daemon
pub mod System
pub mod Devices
pub mod Pairing
pub mod Relay
