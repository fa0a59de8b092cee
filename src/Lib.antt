-- ===== src/Lib.antt =====
-- aztunnel carries TCP connections through an Azure Relay hybrid connection. A listener
-- (internal/listener) keeps a control channel to the relay (internal/relay/control.go); a sender
-- (internal/sender) dials the relay for each local connection, the relay tells the listener to meet
-- it, and over the WebSocket that joins the two they exchange an envelope and a response
-- (internal/protocol) and then bridge bytes (internal/relay/bridge.go).
--
-- The files and what they model:
--   Common            no source: Booleans, lists, byte strings, integers; Query is the documented form
--                     of a query of net/url.
--   GoError           Go's error chains with errors.Is and errors.As.
--   Causes            internal/bridgecause/causes.go: `Name` is `name`.
--   Bridge            internal/relay/bridge.go. Machine is `Bridge` with its two pumps and its ping
--                     loop as `step` on a state; Classify is `causeFromPumpExit` and the filters.
--   Socks5            internal/sender/socks5/socks5.go: `Handshake` is `handshake` in a monad over
--                     a connection with its input, its output and the writes it still takes.
--   Protocol          internal/protocol/envelope.go.
--   Metrics           internal/metrics/metrics.go: `DialReason`; Targets is `SanitizeTarget` with its
--                     callers in parallel, Connections is `ConnectionOpened` and `Done`.
--   Tunnel            the effects of the handlers on the world, in order.
--   Listener          internal/listener/listener.go: Connection is `handleConnection`, Allow and
--                     HostPort are `isAllowed` and what it splits, Dial is `classifyDialError`.
--   Sender            internal/sender: Exchange is `sendEnvelopeAndCheck`, Modes is
--                     `forwardConnection` and `Connect`, Proxy is `handleSOCKS5`, Accepting is the
--                     accept loop of `PortForward` and `SOCKS5Proxy`; EndToEnd sets the sender against
--                     the listener.
--   Relay             the rest of internal/relay: Semaphore is `connSemaphore`, Control is
--                     `runControlLoop` with its goroutines, Renew is `renewOnce`, Serve is
--                     `ListenAndServe`, Dial is `DialWithRetry`, Rounds is `Dial`, Token is `EntraTokenProvider`, Sas is
--                     `GenerateSASToken`, Redact is `sanitizeErr`, Endpoint is `ParseRelay`.
--   Arc               internal/arc/arc.go: Client is `GetRelayCredentials` and
--                     `EnsureHybridConnectivity`, Dial is `DialWithOptions`, Redact its `sanitizeErr`;
--                     Setup is how cmd/aztunnel/arc_connect.go and arc_port_forward.go use them.
--   Command           cmd/aztunnel/main.go: `resolveAuth`, `resolveHyco`, `resolveResourceID` and
--                     `resolveMetrics` on the flags and a function for the environment.
--   MockRelay         mockrelay/server, the relay that the tests run against. Hub is `hub` of
--                     server.go, Traffic any sequence of calls on it, Robin and Slots their proofs.
--                     Rendezvous is `handleConnect` and `handleAccept` of rendezvous.go as goroutines
--                     with program counters; Pairing, Ownership and Taking are their invariants,
--                     Handover, Endings and Unstuck what follows. Delay is delay_profile.go, and Timing sets the sleeps of
--                     the handlers against it. Auth is auth.go, with Tokens and Bearer as its proofs;
--                     Pipeline is `pipelinedCopy` of bridge_ws.go, Flow its proofs; BridgeWs is
--                     `bridgeWS`, with Closings, Duplex and Unblocked as its proofs. Routes is
--                     `handleHC`, `parseEntity`, `rendezvousURL` and `validatePublicURL`, Addresses
--                     their proofs; Listen is `handleListen` of control.go with the faults of
--                     options.go, Sessions their proofs.
--   Examples          runs at concrete inputs.
--
-- Concurrency is in the schedules: a goroutine's operation is an event, and a theorem over all lists
-- of events is one over all interleavings. What the outside answers (the network, the credential,
-- the clock, the relay) is in an event or in a `World`. The loops that wait for the outside recurse
-- on the list of its answers, and say so in their result where that list ends; `renewOnce` recurses
-- on the attempts that are left, of which there are `max_renew_retries`. The loop of `sanitizeErr` has
-- fuel above the length of the text, which every round shortens.
--
-- In a rendezvous, the pending entry's channels count how often they were closed, the deferred calls
-- of `handleConnect` are a stack, and the answers of the network, the timers and the websocket library
-- are the events; other connects of the entity reserve and release slots in between.
--
-- Parameters, because the code is not in the repository: encoding/json (`Codec`), package net
-- (`Resolver` and `ip_string`), net/url (`UrlLibrary`, `UriLibrary`), HMAC, base64 and the
-- encoding of queries (`Library`, `TokenLibrary`, with `QueryLaws` for what the code relies on),
-- the pipeline and the credential of azcore, and the WebSocket library. Log lines keep their level
-- and message, without attributes. Durations are nanoseconds without an upper bound.
--
-- Not modelled: the parsing of flags and the wiring of the commands, TLS and HTTP settings, certificates, the
-- wiring of the control channel in the listener's `ListenAndServe`, the timing of a token provider
-- (`WithMetrics`), the timer of the mock's idle watchdog (a read that fails), the serving of HTTP,
-- and the tests in e2e.
pub mod Common
pub mod GoError
pub mod Causes
pub mod Bridge
pub mod Socks5
pub mod Protocol
pub mod Metrics
pub mod Tunnel
pub mod Listener
pub mod Sender
pub mod Relay
pub mod Arc
pub mod Command
pub mod MockRelay
mod Examples
