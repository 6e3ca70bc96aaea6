-- ===== src/MlRouter/Types.antt =====
-- packages/ml-router/src/types.ts: features, predictions, and the router's interface.
use sandstorm_monorepo.Common.{String, Bool, Option}
use sandstorm_monorepo.Common.Result.{Result}
use sandstorm_monorepo.Core.Provider.{SandboxProvider}
use sandstorm_monorepo.Core.Sandbox.{SandboxSpec, SandboxConstraints}

-- The extractor gives `language` as a number, and so does this record.
pub record FeatureVector (A : Type 0) : Type 0 where
  pub code_length : A
  pub language : A
  pub cpu_requested : A
  pub memory_requested : A
  pub has_gpu : A
  pub has_requirements : A
  pub requirements_count : A
  pub has_environment : A
  pub environment_count : A
  pub has_files : A
  pub files_count : A
  pub is_stateful : A
  pub timeout_ms : A
  pub hour_of_day : A
  pub day_of_week : A
  pub is_weekend : A
  pub provider_e2b : A
  pub provider_modal : A
  pub provider_daytona : A
  pub provider_morph : A
  pub provider_kubernetes : A
  pub provider_custom : A
  pub avg_provider_latency : A
  pub avg_provider_cost : A
  pub provider_failure_rate : A
  pub provider_availability : A
  pub edge_queue_depth : A
  pub edge_running : A
  pub edge_cpu_percent : A
  pub edge_memory_percent : A

pub record PredictionResult (A : Type 0) : Type 0 where
  pub provider : SandboxProvider
  pub predicted_cost : A
  pub predicted_latency : A
  pub confidence : A
  pub features : FeatureVector A
  pub model_version : String

pub record TrainingDataPoint (A : Type 0) : Type 0 where
  pub features : FeatureVector A
  pub actual_cost : A
  pub actual_latency : A
  pub success : Bool
  pub timestamp : String

pub record AbTestConfig (A : Type 0) : Type 0 where
  pub enabled : Bool
  pub control_model_version : String
  pub treatment_model_version : String
  pub traffic_split : A
  pub start_time : String
  pub end_time : Option String

-- `IMLRouter`, as far as the arbitrage engine calls it: `predict` may throw.
pub record IMlRouter (A : Type 0) : Type 0 where
  pub predict : SandboxSpec A → SandboxConstraints A → Result (PredictionResult A)
