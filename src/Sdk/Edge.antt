-- ===== src/Sdk/Edge.antt =====
-- packages/sdk/src/edge-mode.ts: the client of one edge agent, and the client of several with the cloud
-- behind them.
pub mod Choice
pub mod Fallback
use sandstorm_monorepo.Common.{
  ℕ, zero, suc, String, Bool, true, false, ◌&&◌, ◌||◌, not, Option, none, some, List, [], ◌∷◌,
  head?, if◌then◌else◌, nat_eq,
}
use sandstorm_monorepo.Common.Number.{JsNumber, ◌⊕◌, ◌⊗◌, ◌⊘◌, ◌≺◌, num, dec}
use sandstorm_monorepo.Common.Text.{◌+s◌}
use sandstorm_monorepo.Common.Sorting.{sort_by}
use sandstorm_monorepo.Common.Dict.{get, set}
use sandstorm_monorepo.Common.Io.{
  Thrown, error_of, Answer, Io, ◌>>=◌, ◌>>◌, give, raise, change, look, recover, or_raise, on_throw,
  catch, collect, for_each, swallow,
}
use sandstorm_monorepo.Core.Sandbox.{SandboxSpec, SandboxResult}
use sandstorm_monorepo.Adapters.World.{World, call, on_provider, has_text}
use sandstorm_monorepo.Sdk.{RunOptions, RunConstraints, spec_of, full_spec_of}

pub record EdgeAgentConfig (A : Type 0) : Type 0 where
  pub agent_url : String
  pub api_key : Option String
  pub timeout : Option A

pub data AgentStatus : Type 0 where
  starting running degraded stopping stopped : AgentStatus

pub data RuntimeKind : Type 0 where
  podman docker : RuntimeKind

pub record EdgeAgentInfo (A : Type 0) : Type 0 where
  pub agent_id : String
  pub status : AgentStatus
  pub version : String
  pub runtime_type : RuntimeKind
  pub runtime_version : String
  pub rootless : Bool
  pub total_memory : A
  pub used_memory : A
  pub total_cpu_cores : A
  pub cpu_usage_percent : A
  pub running_count : A
  pub completed : A
  pub failed : A
  pub queued : A

-- A client, by its place in the list of clients.
pub record EdgeModeClient (A : Type 0) : Type 0 where
  pub place : ℕ
  pub config : EdgeAgentConfig A

pub record SandstormEdgeConfig (A : Type 0) : Type 0 where
  pub api_key : Option String
  pub base_url : Option String
  pub edge_agents : Option (List (EdgeAgentConfig A))
  pub prefer_edge : Bool
  pub edge_fallback_to_cloud : Bool

-- `has_cloud` tells whether there is a client of the cloud. `infos` are the fields `agentInfo` of the
-- clients, each under its client's place.
pub record SandstormEdge (A : Type 0) : Type 0 where
  pub config : SandstormEdgeConfig A
  pub has_cloud : Bool
  pub edge_clients : List (EdgeModeClient A)
  pub infos : List (ℕ × EdgeAgentInfo A)

-- The requests: to an agent, and to the cloud. `health` answers the status code.
pub record Http (A R : Type 0) : Type 0 where
  pub status : EdgeAgentConfig A → R → Answer (EdgeAgentInfo A) × R
  pub health : EdgeAgentConfig A → R → Answer A × R
  pub run_on_edge : EdgeAgentConfig A → SandboxSpec A → R → Answer (SandboxResult A) × R
  pub run_on_cloud : SandboxSpec A → Option (RunConstraints A) → R → Answer (SandboxResult A) × R
  -- `String(error)`
  pub describe : Thrown → String

abbrev pub clients_from : {A : Type 0} → ℕ → List (EdgeAgentConfig A) → List (EdgeModeClient A)
clients_from k [] = []
clients_from k (c ∷ cs) = (record { place = k; config = c }) ∷ clients_from (suc k) cs

abbrev pub clients_of : {A : Type 0} → Option (List (EdgeAgentConfig A)) → List (EdgeModeClient A)
clients_of none = []
clients_of (some configs) = clients_from 0 configs

abbrev pub new_edge : {A : Type 0} → SandstormEdgeConfig A → SandstormEdge A
new_edge config = record {
  config = config;
  has_cloud = has_text config.api_key;
  edge_clients = clients_of config.edge_agents;
  infos = [];
}

-- The values of those that were fulfilled, and the clients that answered with true.
abbrev pub fulfilled : {B : Type 0} → List (Option B) → List B
fulfilled [] = []
fulfilled (none ∷ rest) = fulfilled rest
fulfilled (some b ∷ rest) = b ∷ fulfilled rest

abbrev pub answered_true : {B : Type 0} → List (B × Bool) → List B
answered_true [] = []
answered_true ((b, true) ∷ rest) = b ∷ answered_true rest
answered_true ((b, false) ∷ rest) = answered_true rest

abbrev pub first_client : {B C : Type 0} → List (B × C) → Option B
first_client [] = none
first_client ((b, c) ∷ rest) = some b

module _ {A : Type 0} ⦃n : JsNumber A⦄ where
  -- `latencies.sort((a, b) => a.latency - b.latency)`
  abbrev pub no_later : {B : Type 0} → B × A → B × A → Bool
  no_later (b, l) (c, k) = not (k ≺ l)

  -- The client with the lowest latency.
  abbrev pub closest : {B : Type 0} → List (B × A) → Option B
  closest latencies = first_client (sort_by no_later latencies)

  abbrev pub latency_of : EdgeAgentInfo A → A
  latency_of info =
      n.round (num 100 ⊗ (num 1 ⊕ info.queued ⊗ dec 5 1) ⊗ (num 1 ⊕ (info.running_count ⊘ num 10)))

  abbrev pub quota_of : EdgeAgentInfo A → A
  quota_of info = info.completed ⊕ info.failed

module _ {A R : Type 0} ⦃n : JsNumber A⦄ (http : Http A R) where
  abbrev pub EdgeWorld : Type 0
  EdgeWorld = World (SandstormEdge A) R

  abbrev pub set_info : ℕ → EdgeAgentInfo A → SandstormEdge A → SandstormEdge A
  set_info place info edge = record edge { infos = set place info edge.infos }

  unfoldable pub get_status : EdgeModeClient A → Io EdgeWorld (EdgeAgentInfo A)
  get_status client = do
    info ← call (http.status client.config)
    change (on_provider (set_info client.place info))
    give info

  unfoldable pub connect : EdgeModeClient A → Io EdgeWorld (Unit {0})
  unfolding get_status
  connect client =
      on_throw (get_status client >>= λ info. give tt) (give tt)
        (λ e. error_of ("Failed to connect to edge agent: " +s http.describe e))

  unfoldable pub is_available : EdgeModeClient A → Io EdgeWorld Bool
  is_available client =
      recover (call (http.health client.config) >>= λ status. give (n.same status (num 200))) false

  -- `this.agentInfo`, after a connection if there is none yet.
  abbrev pub info_or_connect :
      EdgeModeClient A → Option (EdgeAgentInfo A) → Io EdgeWorld (EdgeAgentInfo A)
  info_or_connect client (some info) = give info
  info_or_connect client none = do
    connect client
    found ← look (λ (w : EdgeWorld). get client.place w.provider.infos)
    or_raise found (error_of "Cannot read properties of undefined (reading 'sandboxes')")

  unfoldable pub ready_info : EdgeModeClient A → Io EdgeWorld (EdgeAgentInfo A)
  unfolding connect
  ready_info client =
      look (λ (w : EdgeWorld). get client.place w.provider.infos) >>= info_or_connect client

  unfoldable pub estimate_latency : EdgeModeClient A → Io EdgeWorld A
  unfolding ready_info
  estimate_latency client = ready_info client >>= λ info. give (latency_of info)

  -- What is used of the quota, whose limit is infinite.
  unfoldable pub get_quota : EdgeModeClient A → Io EdgeWorld A
  unfolding ready_info
  get_quota client = ready_info client >>= λ info. give (quota_of info)

  unfoldable pub run_on : EdgeModeClient A → SandboxSpec A → Io EdgeWorld (SandboxResult A)
  run_on client spec = call (http.run_on_edge client.config spec)

  unfoldable pub run_with_options : EdgeModeClient A → RunOptions A → Io EdgeWorld (SandboxResult A)
  unfolding run_on
  run_with_options client options = run_on client (full_spec_of options)

  abbrev pub snapshot : String → Io EdgeWorld String
  snapshot id = raise (error_of "Snapshots not supported on edge agents")

  abbrev pub restore : String → Io EdgeWorld String
  restore id = raise (error_of "Snapshots not supported on edge agents")

  unfoldable pub connect_edge_agents : Io EdgeWorld (Unit {0})
  unfolding connect
  connect_edge_agents = do
    clients ← look (λ (w : EdgeWorld). w.provider.edge_clients)
    for_each clients (λ client. swallow (connect client))

  unfoldable pub get_edge_agents_status : Io EdgeWorld (List (EdgeAgentInfo A))
  unfolding get_status
  get_edge_agents_status = do
    clients ← look (λ (w : EdgeWorld). w.provider.edge_clients)
    statuses ←
        collect clients (λ client. recover (get_status client >>= λ info. give (some info)) none)
    give (fulfilled statuses)

  unfoldable pub get_available_edge_clients : Io EdgeWorld (List (EdgeModeClient A))
  unfolding is_available
  get_available_edge_clients = do
    clients ← look (λ (w : EdgeWorld). w.provider.edge_clients)
    checks ←
        collect clients (λ client. is_available client >>= λ available. give (client, available))
    give (answered_true checks)

  unfoldable pub select_best_edge_client : List (EdgeModeClient A) → Io EdgeWorld (EdgeModeClient A)
  unfolding estimate_latency
  select_best_edge_client clients = do
    latencies ←
        collect clients (λ client. estimate_latency client >>= λ latency. give (client, latency))
    or_raise (closest {A = A} latencies)
        (error_of "Cannot read properties of undefined (reading 'client')")

  abbrev pub cloud_or_raise :
      Bool → SandboxSpec A → Option (RunConstraints A) → Io EdgeWorld (SandboxResult A)
  cloud_or_raise false spec constraints =
      raise (error_of "No cloud client configured and edge execution failed")
  cloud_or_raise true spec constraints = call (http.run_on_cloud spec constraints)

  unfoldable pub run_on_cloud_client : RunOptions A → Io EdgeWorld (SandboxResult A)
  run_on_cloud_client options = look (λ (w : EdgeWorld). w.provider.has_cloud) >>= λ has_cloud.
      cloud_or_raise has_cloud (spec_of options) options.constraints

  -- The error of an edge run, or the cloud where the configuration falls back to it.
  abbrev pub after_failure : Bool → RunOptions A → Thrown → Io EdgeWorld (SandboxResult A)
  after_failure false options e = raise e
  after_failure true options e = run_on_cloud_client options

  unfoldable pub run_or_fall_back : EdgeModeClient A → RunOptions A → Io EdgeWorld (SandboxResult A)
  unfolding run_on run_on_cloud_client
  run_or_fall_back client options = do
    falls_back ←
        look (λ (w : EdgeWorld). w.provider.config.edge_fallback_to_cloud && w.provider.has_cloud)
    catch (run_on client (spec_of options)) (after_failure falls_back options)

  abbrev pub run_on_best : RunOptions A → List (EdgeModeClient A) → Io EdgeWorld (SandboxResult A)
  run_on_best options [] = run_on_cloud_client options
  run_on_best options (c ∷ cs) = do
    client ← select_best_edge_client (c ∷ cs)
    run_or_fall_back client options

  abbrev pub has_clients : List (EdgeModeClient A) → Bool
  has_clients [] = false
  has_clients (c ∷ cs) = true

  abbrev pub run_preferring : Bool → RunOptions A → Io EdgeWorld (SandboxResult A)
  run_preferring false options = run_on_cloud_client options
  run_preferring true options = get_available_edge_clients >>= run_on_best options

  unfoldable pub run : RunOptions A → Io EdgeWorld (SandboxResult A)
  unfolding get_available_edge_clients select_best_edge_client run_or_fall_back run_on_cloud_client
  run options = do
    prefers ←
        look
          (λ (w : EdgeWorld). w.provider.config.prefer_edge && has_clients w.provider.edge_clients)
    run_preferring prefers options
