-- ===== src/Lib.antt =====
-- The consent-filter plugin for APISIX: a response that carries personal data is released only if the
-- data's owners consented to its disclosure to the consuming participant.
--
-- The request phase (internal/plugin/consent.go, RequestFilter) keeps the claims of the caller's token
-- in the request-context store (internal/plugin/context.go) under Nginx's request id. The response phase
-- (ResponseFilter) takes them out again, finds the two participants, asks the owner resolver
-- (internal/ownerresolver/client.go) whose data the body is, and has the consent client
-- (internal/consent/client.go) check each owner. The configuration (internal/plugin/config.go) is read
-- once per route. An outcome is counted (internal/metrics/metrics.go), recorded
-- (internal/audit/audit.go) and enforced; the reasons that are recorded are sanitized
-- (internal/logging/logging.go).
--
-- Context models internal/plugin/context.go: the map with its counter is the record Store, each function
-- under the mutex takes a store and returns the next, and the time is an argument. The sort of the
-- eviction is a parameter, any function with the contract of sort.Slice.
-- Consent models internal/consent/models.go, and its children internal/consent/client.go: Record the
-- consent records, Cache the configuration and the keys, Client the exchanges, with Credentials, Check
-- (CheckConsent) and Registry (ParticipantSelfDescriptionByDID) below it. Runtime has what these calls
-- share: the package's caches and the log of the exchanges are the record World, an action maps a world
-- to a result and a world, and the services, the clock and the functions of Go's library are the record
-- Runtime, of which nothing is assumed except where a theorem says so.
-- Resolver models internal/ownerresolver/client.go on the same actions.
-- Filter models the outcome, the fail policy and the claims in internal/plugin/consent.go,
-- Filter.Phase its evaluate and evaluateWithResolver, Filter.Audit its recordAudit, Filter.Denial its
-- denyResponse, and Filter.Owners its checkOwners and reduceOwnerResults: the goroutines are a list of
-- states, and a step relation has a step for each move that one of them can make, and one for the end
-- of the phase's time. Filter.Gate joins the phase, the owners' checks and the client,
-- Filter.Passage all of it, from a response's arrival to its passing,
-- and Filter.Enforcement models the rest of ResponseFilter: what it does with an outcome,
-- with Filter.Metering for what the phase counts before it.
-- Audit models internal/audit/audit.go: an emitter with its worker is the record Emitter, a Move is a
-- call of Emit or a case of one of the worker's selects, and a list of moves is an interleaving; Payload
-- has the request of an export, Registry the emitters of the process, and Log the log that the events
-- are to form, with Simulation and Refinement beside it, and Shutdown and Settling for the end of the
-- worker. Logging models internal/logging/logging.go, on code points and bytes, and Metrics
-- internal/metrics/metrics.go, with Exposition for its page;
-- Process has the numbers that the packages publish there, and what main.go does at the end.
-- ClaimPath models the claim paths in internal/plugin/consent.go, and Token its RequestFilter and
-- internal/jwt/extractor.go. Config models internal/plugin/config.go.
-- Json has the values of encoding/json and its decoding into Go variables, Failure the errors, with the
-- sentinels that errors.Is finds, and Common the helpers: texts, integers, maps, lists and
-- their arrangements, with Lexicographic for a sort that meets the contract of sort.Strings.
--
-- Numbers are natural numbers where the code's are never negative, and ℤ elsewhere; durations are
-- nanoseconds, and the products of an int64 wrap. Recursion on fuel occurs twice: itoa has fuel for
-- twenty digits, which an int does not exceed, and the loop of parseClaimSegment has more fuel than the
-- text has characters, of which every round takes one at least.
--
-- Parameters stand for sort.Strings, sort.Slice, Duration.String, float64, the verb %q and the
-- canonical form of a header's name.
--
-- Not modelled: the levels of the logs and the runner's logger, and the lines that are logged, but for
-- their rate limiting; the runner and the listener of the metrics, which main.go
-- starts; and locks. The functions of the other packages that hold one hold it throughout, so that they
-- are single steps. The calls of the consent client on one cache interleave: the Runtime has what the
-- others do to the caches at each exchange and before each reading of the clock, in any way at all.
pub mod Audit
pub mod ClaimPath
pub mod Common
pub mod Config
pub mod Consent
pub mod Context
pub mod Failure
pub mod Filter
pub mod Json
pub mod Logging
pub mod Metrics
pub mod Process
pub mod Resolver
pub mod Runtime
pub mod Token
