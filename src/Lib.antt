-- ===== src/Lib.antt =====
-- A verification library beside the packages of the OpenCode toolbelt.
--
-- Common: numbers, lists, integers, texts and dynamic values that the models share.
-- Auth: packages/opencode-auth-core/src. `Lock` models lock.ts (acquireFileLock), `Runtime` one
-- coordinated refresh of token-runtime.ts (acquireCoordinated, refreshOrLogin,
-- recoverFromRejectedRefresh) with ensureToken of oauth/client.ts, and `Flight` the slot that the
-- concurrent callers of `ensure` share. The cache, the file system, the clock, the token endpoint and
-- the logins are parameters, by the number of the access, so that other processes may do anything in
-- between. The loop of the lock has fuel; one round more than the attempt at which the clock has
-- reached the deadline is enough.
-- `DeviceCode` models the device-code login of oauth/device-code.ts and toTokenSet of oauth/client.ts; its
-- loop has fuel, one round more than the intervals until the code expires are enough. `Config` models
-- validateAuthConfig of config.ts, over dynamic values.
-- Broker: packages/opencode-browser/src/broker.ts and the frames of protocol.ts. `InFlight` models the
-- commands in flight (settleReject, abandon, handleResult, the timer and the abort listener),
-- `Routing` the choice of an executor (resolveExecutor, pickExecutor), `Dispatch` what is sent to it
-- (route, sendToExecutor, releaseForAgent), `Handlers` the registration of clients (handleHello),
-- `Closing` the extension's part of onClose, and `Events` the machine whose `step` takes a frame, a
-- closed connection, a local command, a timer, an abort or the stop of the broker, and then runs the
-- promise callbacks that this has left. A connection is a number; `can_send` says which connections take
-- a frame at the step, and `reloaded` is what reloadToken returns. Of errors the codes are kept, not the messages. Delays are natural numbers, a
-- negative one is 0. aggregateTabs, decodeFrame and start are not modelled.
-- AgentClient: packages/opencode-browser/src/agent-client.ts, a guest of the broker: its socket, the calls
-- that wait for `ready`, and its commands in flight, as a run of events.
-- Devtools: packages/opencode-devtools/src/groups. Of http.ts, `Http.Hosts` models isBlockedHost, over the
-- code units of a host name, `Http.Guarded` assertAllowed, fetchGuarded and the requests of both tools,
-- and `Http.Bodies` readBody. The loop of fetchGuarded runs on the number of redirects that are left.
-- `Radix` models math_base of math.ts; the printing of a number has fuel, one more than the number.
-- Extension: apps/browser-extension/src/background/bridge-client.ts, the socket of the extension with
-- its reconnects, where the writing of a status that it awaits may fail. Election: packages/opencode-browser/src/endpoint.ts, which hosts the broker or joins it
-- as a guest. Both are step relations whose steps are the ends of awaits, the timers and the calls.
-- ProviderSync: packages/opencode-provider-sync/src. `Models` models model-normalization.ts
-- (normalizeModelId, diffModels) and parseModelsResponse of model-discovery.ts, `Scheduler` scheduler.ts
-- as a step relation, and `Engine` the part of engine.ts that shares a server's state with other
-- processes (readCachedToken, setCached, syncServer, ensureServerReady); `Engine.Ownership` the registry of
-- the engines that poll (claimSchedulerOwnership, releaseSchedulerOwnership, start, stop). The file, the
-- clock, the token runtime and the models endpoint are parameters of a sync.
-- Ratelimit: packages/opencode-ratelimit/src. `Config` models config.ts (parseRateLimitOptions,
-- normalizeTiers, selectTier), `Headers` headers.ts (parseRateLimit), whose integers are rounded to
-- doubles, `Fetch` and `Gate` plugin.ts (the response handling and the attempt loop of
-- makeRateLimitFetch; waitGate).
-- RepoAuth: packages/opencode-repo-auth/src. `Git` models normalizeRemote and stripDotGit of git.ts, and
-- `Config` config.ts (parseRepoAuthOptions, oauth2ManagedProviderIds, hasOAuth2Conflict), whose block is
-- what Auth's validateAuthConfig takes.
-- Telemetry: packages/opencode-core-otel/src/recorder.ts, TelemetryRecorder, each of whose handlers gives
-- the metrics and the ends of spans as values: `Recorder` models sessions, diffs and tool calls, `Chats`
-- the requests to a provider, `Permissions` the decisions, and `Lifecycle` the end of a session
-- (forgetSession), the shutdown, and all events and hooks together.
--
-- Conventions. JavaScript numbers are exact integers, so that the rounding of doubles above 2^53 is
-- not modelled, but in Ratelimit.Headers; strings that code walks are lists of UTF-16 code units. Code between two awaits runs
-- at one reading of the clock, and interleavings are explicit sequences of such steps. Logging is left out.
--
-- Not modelled: the requests of the OAuth client, discovery and the token files
-- (packages/opencode-auth-core/src/oauth, cache.ts), the packages models-info, code-index, lightbridge and
-- oauth2, the rest of repo-auth and of the devtools, the exporters and the configuration of telemetry, the
-- tools of packages/opencode-browser, and the rest of apps/browser-extension; of these much is input and output,
-- or glue to OpenCode.
pub mod AgentClient
pub mod Devtools
pub mod Extension
pub mod Election
pub mod ProviderSync
pub mod Auth
pub mod Broker
pub mod Common
pub mod Ratelimit
pub mod RepoAuth
pub mod Telemetry
