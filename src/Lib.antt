-- ===== src/Lib.antt =====
-- Verification of the decision logic of the Baran command line and its switchboard.
--
-- The program deploys relays as Acurast jobs, keeps their catalog in a replicated document store,
-- and settles windows of traffic under a leader that the relays elect. The parts modelled here are
-- the ones that decide something; chains, devices and HTTP stand outside.
--
-- - Store (src/switchboard-core/src/replicated-doc-store.ts): documents with revisions, tombstones, a
--   feed of changes and leases. Types, Revision, Documents and Leases are the code: a snapshot is a
--   record, an operation takes it and gives a result with the next snapshot, and an exception is the
--   value `err`. Files is the JSON file form: what a process remembers and what the file holds. Trace
--   has calls as values; Writes, Feed, Stale, Exclusion and Files/Refines have the theorems. The
--   clock, the random token and the SHA-256 digest are arguments.
-- - Relay: Lifecycle (src/switchboard-core/src/relay-lifecycle.ts) and its theorems in Authority;
--   Leadership (src/switchboard-core/src/relay-leadership.ts) with Election and Failover, where the
--   hash score and `localeCompare` are arguments; Duration, Budget, Diff
--   (src/switchboard-core/cli/src/relay/duration.ts, budget.ts, diff.ts), Status (status.ts in the same
--   folder), Readiness with ReadinessEnds, and Peers (readiness.ts there). The outside of Readiness is a
--   state with a clock, and requests, pauses and the extra signal change it.
-- - Wallet (src/switchboard-core/cli/src/acurast-wallet-lock.ts): the lock file as a step relation on
--   the file and the phase of every process, so that interleavings are sequences of steps. The
--   judgement that a lock is stale is an argument, a predicate on the process that wrote it.
-- - Acurast (src/switchboard-core/src/acurast-env-budget.ts): the audits of environments.
-- - Runtime (src/switchboard-core/src/runtime/index.ts and gateway-upstream-admission.ts): bytes, raw
--   and DER signatures, and the two normalisers of secp256k1 signatures. Recovery of an address is an
--   argument that may fail; a serialized signature stands as its three numbers.
-- - Ingress (src/switchboard-core/src/ingress-quote.ts and quote-binding.ts): the building of a quote,
--   with `BigInt` of JavaScript in BigInt, and Binding, the check of a quote against a request, with Matches, Bound and Accepts on what
--   passes.
--   Addresses, hashes and labels are made by functions of ethers and of other files, which are
--   arguments that may fail.
-- - Dns (src/switchboard-core/src/cloudflare-dns.ts and domain-pool.ts): names of hosts and records, the
--   zone of a hostname, the pool of domains, and the operations on records: Api and Requests have the
--   requests and the reading of responses, Upsert the operations, each a function of the state of the
--   outside. ZoneLaws is the interface that Cloudflare's documented behaviour fills; Records, Clearing
--   and Cname use it; ZoneOf says which zone a hostname is resolved to. The
--   digest of a seed and the HTTP client are arguments.
-- - Hostname (src/switchboard-core/src/customer-hostname.ts): attachments of customers' hostnames, the
--   hints on DNS providers, and the check of CNAME records. A resolver is an argument that may fail.
-- - Discovery (src/switchboard-core/src/report-signing.ts, network-manifest.ts, service-catalog.ts and
--   service-discovery.ts): Types has the documents, Outside what is taken from elsewhere (requests,
--   parsing by the schemas, addresses, digests, URLs and signatures) and the errors, Signing, Manifests
--   and Catalogs the verification, Discover the loop, and Members what is given to users. Trust,
--   ManifestTrust and Resolved have what a success has checked, Failing when the loop throws, Offered
--   which members are offered.
-- - Operator (src/switchboard-core/src/operator-capability.ts): Types has the reports and profiles,
--   Addresses the addresses that DNS may point at, with Blocks on the reserved ones, Processors and
--   Normal the processors and the normal form of a report, Select and Choose the tests and the loops of
--   the two selections of gateways, Owner and Passes what the tests mean, Eligible and Agree what they choose. `isIP` and the decoding of
--   Substrate addresses are arguments.
--
-- Numbers that the code keeps as doubles but uses as counts, times and amounts are natural numbers
-- without a bound; where the code tests `Number.isFinite` or `Number.isInteger` the model has NaN, the
-- infinities and binary fractions (Prelude/Number). Texts that the code takes apart are lists of code
-- units, other texts are native strings. Only the polling of a relay runs on fuel, one unit for each
-- attempt, and ReadinessEnds says how much is enough; every other loop is structural.
--
-- Not modelled: the command line, bootstrap and scripts, which read flags, files and the network; the
-- chain clients and hardware wallets; the signing of documents, and the tests that a
-- schema makes of single fields; the economics and route metrics of capability reports.
pub mod Acurast
pub mod Discovery
pub mod Dns
pub mod Hostname
pub mod Ingress
pub mod Operator
pub mod Prelude
pub mod Relay
pub mod Runtime
pub mod Store
pub mod Wallet
