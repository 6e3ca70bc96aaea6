-- ===== src/Core/Sandbox.antt =====
-- packages/core/src/types.ts: a run's specification, its constraints and its result. `A` is the
-- type of JavaScript's numbers; a `z.record` is a list of entries.
use sandstorm_monorepo.Common.{String, Bool, Option, none, List}
use sandstorm_monorepo.Core.Provider.{SandboxProvider}
use sandstorm_monorepo.Core.Language.{
  Language, python, IsolationLevel, standard, RuntimeType, Architecture,
}

pub record SandboxSpec (A : Type 0) : Type 0 where
  pub code : String
  pub language : Language
  pub cpu : Option A
  pub memory : Option A
  pub timeout : Option A
  pub gpu : Option Bool
  pub gpu_type : Option String
  pub requirements : Option (List String)
  pub environment : Option (List (String × String))
  pub files : Option (List (String × String))
  pub stateful : Option Bool
  pub region : Option String
  pub bootc_hash : Option String
  pub dockerfile : Option String
  pub isolation_level : IsolationLevel
  pub runtime_preference : Option RuntimeType
  pub streaming : Option Bool
  pub container_image : Option String
  pub workspace_template : Option String
  pub git_repo : Option String
  pub git_branch : Option String
  pub persist_session : Option Bool
  pub session_id : Option String
  pub volumes : Option (List (String × String))
  pub secrets : Option (List String)
  pub network_access : Option Bool
  pub custom_template : Option String
  pub custom_kernel : Option String
  pub enable_rosetta : Option Bool
  pub architecture : Option Architecture

pub record SandboxConstraints (A : Type 0) : Type 0 where
  pub max_cost : Option A
  pub max_latency : Option A
  pub preferred_providers : Option (List SandboxProvider)
  pub exclude_providers : Option (List SandboxProvider)
  pub preferred_region : Option String
  pub require_gpu : Option Bool

pub data LogLevel : Type 0 where
  debug info warn error : LogLevel

pub record LogLine : Type 0 where
  pub timestamp : String
  pub level : LogLevel
  pub message : String

pub record RunMetrics (A : Type 0) : Type 0 where
  pub cpu_usage : Option A
  pub memory_usage : Option A
  pub gpu_usage : Option A
  pub network_rx_bytes : Option A
  pub network_tx_bytes : Option A

pub record SandboxResult (A : Type 0) : Type 0 where
  pub id : String
  pub provider : SandboxProvider
  pub stdout : String
  pub stderr : String
  pub exit_code : A
  pub duration : A
  pub cost : A
  pub files : Option (List (String × String))
  pub logs : Option (List LogLine)
  pub metrics : Option (RunMetrics A)

-- `M` is the type of the metadata.
pub record SandboxSnapshot (A M : Type 0) : Type 0 where
  pub id : String
  pub sandbox_id : String
  pub provider : SandboxProvider
  pub timestamp : String
  pub filesystem_hash : String
  pub memory_hash : Option String
  pub size : A
  pub metadata : Option M

-- A specification with the code alone, as test data.
abbrev pub plain_spec : (A : Type 0) → String → SandboxSpec A
plain_spec A source = record {
  code = source;
  language = python;
  cpu = none;
  memory = none;
  timeout = none;
  gpu = none;
  gpu_type = none;
  requirements = none;
  environment = none;
  files = none;
  stateful = none;
  region = none;
  bootc_hash = none;
  dockerfile = none;
  isolation_level = standard;
  runtime_preference = none;
  streaming = none;
  container_image = none;
  workspace_template = none;
  git_repo = none;
  git_branch = none;
  persist_session = none;
  session_id = none;
  volumes = none;
  secrets = none;
  network_access = none;
  custom_template = none;
  custom_kernel = none;
  enable_rosetta = none;
  architecture = none;
}

abbrev pub no_constraints : (A : Type 0) → SandboxConstraints A
no_constraints A = record {
  max_cost = none;
  max_latency = none;
  preferred_providers = none;
  exclude_providers = none;
  preferred_region = none;
  require_gpu = none;
}
