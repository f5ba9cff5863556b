-- ===== src/Lib.antt =====
-- The DenBrowser attestation proxy (proxy/src): a reverse proxy that forwards a request to its
-- upstream only when the request carries a fresh token, encrypted to the proxy's key by the browser.
--
-- The parts and where they are modelled:
--   Attest       proxy/src/attest.rs. `verify_headers` is phase 1: it reads the headers and the
--                replay cache, and decrypts the token; `commit_nonce` and `verify_body_and_commit`
--                are phase 2, the locked steps that change the cache. NonceCache is the cache with
--                its queue, Window the clock checks, Token the plaintext, Mint the client as the
--                tests of attest.rs write it, Replay a history of commits.
--   Audit        proxy/src/audit.rs. Reason has the table of refusals, Request the audit state of
--                one request (`RequestAudit`) and its methods, Finish its record.
--   Machine      proxy/src/machine.rs. `verify_cert`, `resolve_cached` and `verify`; DnsCache is the
--                cache of DNS answers, of which `resolve_cached` takes the lock twice.
--   RateLimit    proxy/src/ratelimit.rs. `from_config` and `admit`, which returns the limiter with
--                the counts it has recorded.
--   Mtls         proxy/src/mtls.rs. The identity of a client certificate, and its name as text.
--   Passthrough  proxy/src/passthrough.rs. The bypass for allowlisted clients.
--   Config       proxy/src/config.rs. The sections of the configuration file, as records.
--                ProxySettings and LoggingSettings have the two `validate`, Loading `parse` and
--                `load`; Env is `expand_str` of proxy/src/config/env.rs and Env/Tree its `expand`.
--   Logging      proxy/src/logging.rs. `init` with its filter and its log file; JsonLines is the
--                format of a line, with `SystemRecord` and `emit` of audit.rs.
--   TlsKey       proxy/src/tls_key.rs. `passphrase` and `load`.
--   UpstreamTls  proxy/src/upstream_tls.rs. `from_config` and `apply`.
--   Proxy        proxy/src/main.rs. Steps has the checks of `request_filter`, one function for each
--                early return, and Filter their order; Http the headers and the upstream's filter;
--                Exchange the other hooks, and one exchange from its start to its audit line;
--                Reached the single steps that calls take on the state they share.
--   Startup      `main` of proxy/src/main.rs, up to the listener, and requests after that.
--
-- `main` loads the configuration, installs the log, checks the sections in turn, and builds from
-- them the components that `request_filter` uses. `request_filter` calls the other parts in this
-- order: the rate limiter, the bypass, the headers, phase 1, the machine identity, the body, phase
-- 2. Each decision is recorded in the audit state, from which `logging` makes the audit line.
--
-- State. What requests share (the limiter's counts, the nonces, the DNS answers) is one record,
-- passed in and returned. Each access under a lock is one step; between two steps of a call, other
-- requests may do anything to the state, which is a function that the call is given (`Meets`,
-- `Lookup`). Clock readings and the resolver's answers are arguments too. A HashSet is a list of
-- which only membership is read, a HashMap a list of its entries.
--
-- Numbers are natural numbers, or integers for i64 and isize, with saturation and the bounds of i64
-- and u64 written out. Durations and instants count nanoseconds. Text is a list of code points.
-- Loops are recursion over the list they read, so no fuel is needed; but the printer of decimals
-- counts down from the number itself, and the loop of `expand_str` has one more than the length of
-- the string as the bound on its passes, since each pass shortens the rest.
--
-- Parameters, with the documented behaviour that a theorem uses as hypotheses: base64, P-256, SHA-256
-- and AES-GCM (`Crates`, `Client`), the estimator of pingora_limits and globs (`Limits`), networks
-- (`Nets`), X.509, the resolver and the text of an address (`Trust`), the calendar (`Calendar`), the
-- parser of TOML (`Toml`), the filter, the appender and the subscriber of tracing (`Tracing`),
-- serde_json (`Json`), the parser of private keys (`OpenSsl`), and what the process finds when it
-- starts: files, environment, pingora's server and the acceptor of OpenSSL (`World`).
--
-- Not modelled: command-line parsing, the informational lines of `main`, the text of the errors that
-- end the process, the construction of pingora's services, what OpenSSL does with the settings of
-- its acceptor, the bridge from `log` to tracing beyond its level, the zeroing and hiding of
-- secrets in memory, and the browser.
--
-- Examples holds concrete parameters and inputs.
pub mod Prelude
pub mod Net
pub mod Config
pub mod Audit
pub mod Attest
pub mod RateLimit
pub mod Mtls
pub mod Machine
pub mod Logging
pub mod TlsKey
pub mod UpstreamTls
pub mod Passthrough
pub mod Proxy
pub mod Startup
pub mod Examples
