-- ===== src/Lib.antt =====
-- mProxy stands between clients and a backend. A server (pkg/server) accepts connections or
-- datagrams, a parser of the protocol (pkg/parser) takes each packet apart, asks a handler
-- (pkg/handler) whether it may pass, lets the handler change it, and sends it on. Beside these
-- stand what the production program puts around a handler or a backend: a circuit breaker, a rate
-- limiter, a pool of connections, and wrapped errors. A TLS server may verify its clients' certificates
-- by lists of revoked ones or by an OCSP responder (pkg/tls). The programs in cmd/ put a server, a
-- parser and a handler together (pkg/proxy) as the environment says.
--
-- The files and the code:
-- - Prelude and its children: library names that all files share, lists and Boolean tests over the
--   native naturals, Go's `int` and `int64` (Prelude/Int) and Go's maps (Prelude/Maps).
-- - Errors: pkg/errors/errors.go, with `fmt.Errorf`'s `%w` and `errors.Is`.
-- - Breaker: pkg/breaker/breaker.go. `before_call` and `after_call` are the two locked parts of
--   `Call`; Breaker/Automaton has the machine that they implement.
-- - RateLimit: pkg/ratelimit/ratelimit.go.
-- - Pool: pkg/pool/pool.go. `begin_get`, `wake` and `end_dial` are the parts of `Get`, `put` is `Close`
--   of a connection, `clean_tick` a round of the cleaner; Pool/System is the step relation of a pool
--   and its callers.
-- - Handler: pkg/handler/handler.go. Parser: pkg/parser/parser.go. Parser/Mqtt:
--   pkg/parser/mqtt/parser.go.
-- - Parser/Coap: pkg/parser/coap/parser.go. Parser/Http: pkg/parser/http/parser.go.
-- - Production: cmd/production/handlers.go, with the handlers as functions from a handler to one on a
--   larger state.
-- - Tcp/Connection, Tcp/Server: pkg/server/tcp/server.go.
-- - Health: pkg/health/health.go.
-- - Parser/WebSocket, Parser/WebSocket/Conn: pkg/parser/websocket/parser.go and conn.go.
-- - Tls/Certs, Tls/Crl, Tls/Ocsp: pkg/tls/verifier/crl/crl.go and pkg/tls/verifier/ocsp/ocsp.go.
-- - Tls/Verifications, Tls/Setup: pkg/tls/verifications.go, config.go, tls.go and verifier/verifier.go.
-- - Proxy: pkg/proxy/mqtt.go and pkg/proxy/coap.go, the servers with their parsers.
-- - Program: cmd/main.go and config.go.
-- - Production/Main: cmd/production/main.go.
-- - Udp/Session: pkg/server/udp/session.go. Udp/Server: pkg/server/udp/server.go, whose goroutines are
--   events that come in any order.
-- - Examples: runs of the definitions at concrete inputs.
--
-- Machine integers: a Go `int` or `int64` is an integer of Prelude/Int whose sums are wrapped to 64
-- bits where the code adds; an instant is a natural number of nanoseconds on the monotonic clock, and
-- `time.Since` is cut at the ends of `time.Duration`. Every loop is over a list. Fuel is used in two
-- places: the decimal digits of a number in an error's text (Errors), with one round more than the
-- number, and a number has fewer digits than that; and a sequence of calls of `Read` on a WebSocket
-- (Parser/WebSocket/Conn), with one call more than there are bytes, which is shown to be enough.
--
-- What a program of another package does is a parameter: the handler's hooks (a record over a state
-- of the handler's own), reading and writing packets, dialling, files and HTTP exchanges, certificates
-- and their signatures, URLs, and the floating-point product in the limiter's refill. Where two
-- goroutines meet at a mutex, an operation is one locked part and a run is any sequence of such parts;
-- but the limiter's `AllowN` (its look-up, the making of a bucket and the bucket's own `AllowN`) and
-- `GetOrCreate` of the UDP sessions (its look-up and what it does if that fails) are one step each, and
-- `cleanup_expired` is both passes of the cleanup, which the UDP server's events separate.
-- In the servers a step is a whole round of a loop, with its packet: the hooks that one packet calls
-- are not interleaved with another's. A UDP worker makes two steps of a job: it finds the session, and
-- it parses the datagram and starts the reader of a new session. A TCP stream looks at its context
-- before it parses and again after that, so that a forced shutdown lets it send one more packet.
--
-- Not modelled: the logger, the sockets' options, the timers' own working (a timer that fires is an
-- event), metrics, and the servers of net/http.
-- Of the packages, pkg/metrics is not modelled, nor are the examples; of cmd/production/main.go, the
-- servers for metrics and health are not.
pub mod Prelude
pub mod Errors
pub mod Breaker
pub mod RateLimit
pub mod Pool
pub mod Handler
pub mod Parser
pub mod Udp
pub mod Tcp
pub mod Production
pub mod Proxy
pub mod Program
pub mod Health
pub mod Tls
mod Examples
