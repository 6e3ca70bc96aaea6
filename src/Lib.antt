-- ===== src/Lib.antt =====
-- A model of Sandstorm's TypeScript packages: the router that picks a sandbox provider for a
-- run, the machine-learning router behind it, and the security and edge services beside them.
--
-- - Core: packages/core/src/types.ts (`SandboxSpec`, `SandboxConstraints`, `SandboxResult`,
--   the security events), shared by all.
-- - Arbitrage: packages/arbitrage/src/arbitrage-engine.ts. `select_provider` is `selectProvider`
--   with `selectFallbackProvider`; Arbitrage/Rules is `selectRuleBasedProvider` and
--   `estimateRuleBased`; the engine calls an ML router through the interface `IMlRouter`.
-- - MlRouter: packages/ml-router/src. Selection is the choice among candidates, Features the
--   `FeatureExtractor`, Router `predict`, Loading the model cache and the A/B test, and Batch
--   `predictBatch`.
-- - Security: packages/security/src. Security/Monitor, Queries and Evaluation are the class
--   `SecurityMonitor` (store and index, `getEvents` and `getMetrics`, `evaluateEvent` and
--   `captureEvent`); Security/Siem is `SiemIntegration`, with Security/Siem/Interleaving for
--   calls whose posts overlap and Security/Siem/Lost for a
--   configuration without a webhook; Security/Aggregator is `deduplicate`, `findSequence` and two of the
--   correlations of `SecurityAggregator`; Security/Dashboard is the alerts of `SecurityDashboard`.
-- - EdgeAgent: packages/edge-agent/src. EdgeAgent/Run is the counters of `EdgeAgent.run`, with
--   EdgeAgent/Run/Balance for overlapping calls; EdgeAgent/Relay is `CloudTelemetryRelay`, whose
--   flushes overlap (EdgeAgent/Relay/Events), and EdgeAgent/Podman `PodmanAdapter`.
-- - Adapters: packages/adapters. Adapters/E2b, Daytona, Modal, BareMetal and AppleContainers are the
--   five provider classes, each with `run` as one piece of code that reads and changes the provider
--   and the service behind it and may throw (Common/Io); the service's kit is a parameter of the
--   module, and what a proof needs of it is a record of laws (`IsSdk`, `IsHost`). Common/Io/Logic
--   has the rules by which the proofs follow the code, and Adapters/Leaks those for sandboxes that
--   are created and ended. In Adapters/BareMetal the nodes and their choice are Nodes, the work
--   over SSH is Machine; the loop of `waitForNode` has as fuel the 60 attempts that the code makes.
-- - BootcBuilder: packages/bootc-builder/src/builder.ts, over a Docker client as a parameter.
--   Adapters/BareMetal/Builder makes it the builder of images that the bare metal adapter takes.
-- - Sdk: packages/sdk/src. Sdk/Edge is `EdgeModeClient` and `SandstormEdge`, over the HTTP requests as a
--   parameter; a list is sorted by insertion (Common/Sorting).
--
-- Numbers that the code computes with as floating-point are elements of a type A with the
-- operations of `JsNumber`; where an order law is used it is the hypothesis `IsOrdered`, which
-- the fixed-point numbers `micro` fulfil. An asynchronous call is modelled by its outcome, a
-- `Result`; what the environment answers (availability of a provider, the model store, the
-- telemetry service, time, random draws, text processing) is an argument.
-- The time in ms that a timestamp denotes is a function of its text into ℕ. Maps are association
-- lists in the order of insertion. Every other loop runs over a list but that
-- of `predictBatch` (MlRouter/Batch), whose index is an integer and which has one unit of fuel for each
-- round: with a batch size that is not negative each round takes at least one request.
--
-- Not modelled: HTTP clients, the monitoring subprocesses (Python, Falco, eBPF), the
-- statistics of podman, the stream handlers of the adapters, the dashboard app, build scripts, and the
-- Rust services. Runs of an adapter that overlap are not modelled. The batch sizes of the SIEM queue
-- and of the telemetry relay are natural numbers, and that of `predictBatch` an integer: fractions are
-- left out.
pub mod Common
pub mod Core
pub mod Arbitrage
pub mod MlRouter
pub mod Security
pub mod EdgeAgent
pub mod Adapters
pub mod BootcBuilder
pub mod Sdk
