-- ===== src/MlRouter/Features.antt =====
-- packages/ml-router/src/feature-extractor.ts: the features of a run on a provider.
pub mod OneHot
pub mod History
use sandstorm_monorepo.Common.{
  ℕ, zero, suc, String, Bool, true, false, ◌&&◌, not, Option, none, some, List, [], ◌∷◌, length,
  filter, ltb, ◌==◌, string_eq, if◌then◌else◌,
}
use sandstorm_monorepo.Common.Number.{JsNumber, ◌⊕◌, ◌⊖◌, ◌⊘◌, num, dec, or_number}
use sandstorm_monorepo.Core.Provider.{
  SandboxProvider, e2b, modal, daytona, morph, kubernetes, edge, custom, provider_eq,
}
use sandstorm_monorepo.Core.Language.{
  Language, python, javascript, typescript, go, rust, java, cpp, shell,
}
use sandstorm_monorepo.Core.Sandbox.{SandboxSpec}
use sandstorm_monorepo.MlRouter.Types.{FeatureVector, TrainingDataPoint}

-- What the extractor reads of the platform: the local time, the length of a text in UTF-16 units,
-- and `Math.log1p`.
pub record Host (A : Type 0) : Type 0 where
  pub hours : A
  pub day : A
  pub weekend : Bool
  pub text_length : String → ℕ
  pub log1p : A → A

pub record EdgeAgentSnapshot (A : Type 0) : Type 0 where
  pub agent_id : String
  pub status : Option String
  pub queue_depth : A
  pub running : A
  pub cpu_percent : Option A
  pub memory_percent : Option A

-- `languageToIndex[language] || 0`
abbrev pub language_to_index : Language → ℕ
language_to_index python = 0
language_to_index javascript = 1
language_to_index typescript = 2
language_to_index go = 3
language_to_index rust = 4
language_to_index java = 5
language_to_index cpp = 6
language_to_index shell = 7
language_to_index _ = 0

-- The size of an optional array, or of an optional record of entries.
abbrev pub size : {B : Type 0} → Option (List B) → ℕ
size none = 0
size (some xs) = length xs

abbrev pub flag : Option Bool → Bool
flag none = false
flag (some b) = b

abbrev pub marks : Option SandboxProvider → SandboxProvider → Bool
marks none provider = false
marks (some p) provider = p == provider

abbrev pub is_running : Option String → Bool
is_running none = false
is_running (some s) = s == "running"

module _ {A : Type 0} ⦃n : JsNumber A⦄ where
  abbrev pub bit : Bool → A
  bit true = num 1
  bit false = num 0

  abbrev pub get_default_latency : SandboxProvider → A
  get_default_latency e2b = num 2000
  get_default_latency modal = num 1500
  get_default_latency daytona = num 3000
  get_default_latency morph = num 2500
  get_default_latency kubernetes = num 1000
  get_default_latency custom = num 5000
  get_default_latency _ = num 3000

  abbrev pub get_default_cost : SandboxProvider → A
  get_default_cost e2b = dec 1 3
  get_default_cost modal = dec 8 4
  get_default_cost daytona = dec 15 4
  get_default_cost morph = dec 12 4
  get_default_cost kubernetes = dec 5 4
  get_default_cost custom = dec 2 3
  get_default_cost _ = dec 1 3

  unfoldable pub extract_features : Host A → SandboxSpec A → SandboxProvider → FeatureVector A
  extract_features host spec provider = record {
    code_length = num (host.text_length spec.code);
    language = num (language_to_index spec.language);
    cpu_requested = or_number spec.cpu (num 1);
    memory_requested = or_number spec.memory (num 512);
    has_gpu = bit (flag spec.gpu);
    has_requirements = bit (ltb 0 (size spec.requirements));
    requirements_count = num (size spec.requirements);
    has_environment = bit (ltb 0 (size spec.environment));
    environment_count = num (size spec.environment);
    has_files = bit (ltb 0 (size spec.files));
    files_count = num (size spec.files);
    is_stateful = bit (flag spec.stateful);
    timeout_ms = or_number spec.timeout (num 30000);
    hour_of_day = host.hours;
    day_of_week = host.day;
    is_weekend = bit host.weekend;
    provider_e2b = bit (provider == e2b);
    provider_modal = bit (provider == modal);
    provider_daytona = bit (provider == daytona);
    provider_morph = bit (provider == morph);
    provider_kubernetes = bit (provider == kubernetes);
    provider_custom = bit (provider == custom);
    avg_provider_latency = num 0;
    avg_provider_cost = num 0;
    provider_failure_rate = num 0;
    provider_availability = num 1;
    edge_queue_depth = num 0;
    edge_running = num 0;
    edge_cpu_percent = num 0;
    edge_memory_percent = num 0;
  }

  -- The first of the keys that begin with `provider` whose value is 1. Behind the six one-hot keys
  -- stand two more, which name no provider.
  unfoldable pub marked_provider : FeatureVector A → Option SandboxProvider
  marked_provider f =
      if n.same f.provider_e2b (num 1)
      then some e2b
      else if n.same f.provider_modal (num 1)
      then some modal
      else if n.same f.provider_daytona (num 1)
      then some daytona
      else if n.same f.provider_morph (num 1)
      then some morph
      else if n.same f.provider_kubernetes (num 1)
      then some kubernetes
      else if n.same f.provider_custom (num 1)
      then some custom
      else none

  unfoldable pub provider_data :
      SandboxProvider → List (TrainingDataPoint A) → List (TrainingDataPoint A)
  unfolding marked_provider
  provider_data provider = filter (λ dp. marks (marked_provider dp.features) provider)

  -- `list.reduce((sum, x) => sum + f(x), 0)`
  abbrev pub sum_from : {B : Type 0} → (B → A) → A → List B → A
  sum_from f acc [] = acc
  sum_from f acc (x ∷ xs) = sum_from f (acc ⊕ f x) xs

  abbrev pub mean : {B : Type 0} → (B → A) → List B → A
  mean f xs = sum_from f (num 0) xs ⊘ num (length xs)

  unfoldable pub with_history :
      SandboxProvider → List (TrainingDataPoint A) → FeatureVector A → FeatureVector A
  with_history provider [] features = record features {
    avg_provider_latency = get_default_latency provider;
    avg_provider_cost = get_default_cost provider;
    provider_failure_rate = dec 1 2;
    provider_availability = dec 99 2;
  }
  with_history provider (dp ∷ dps) features =
      let points = dp ∷ dps in
      let failures = length (filter (λ (p : TrainingDataPoint A). not p.success) points) in
      let failure_rate = num failures ⊘ num (length points) in
      record features {
        avg_provider_latency = mean (λ (p : TrainingDataPoint A). p.actual_latency) points;
        avg_provider_cost = mean (λ (p : TrainingDataPoint A). p.actual_cost) points;
        provider_failure_rate = failure_rate;
        provider_availability = num 1 ⊖ failure_rate;
      }

  abbrev pub or_zero : Option A → A
  or_zero none = num 0
  or_zero (some a) = a

  abbrev pub cohort_of :
      List (EdgeAgentSnapshot A) → List (EdgeAgentSnapshot A) → List (EdgeAgentSnapshot A)
  cohort_of [] agents = agents
  cohort_of (a ∷ healthy) agents = a ∷ healthy

  unfoldable pub with_edge : List (EdgeAgentSnapshot A) → FeatureVector A → FeatureVector A
  with_edge [] features = features
  with_edge (a ∷ rest) features =
      let agents = a ∷ rest in
      let healthy = filter (λ (s : EdgeAgentSnapshot A). is_running s.status) agents in
      let cohort = cohort_of healthy agents in
      record features {
        edge_queue_depth = mean (λ (s : EdgeAgentSnapshot A). s.queue_depth) cohort;
        edge_running = mean (λ (s : EdgeAgentSnapshot A). s.running) cohort;
        edge_cpu_percent = mean (λ (s : EdgeAgentSnapshot A). or_zero s.cpu_percent) cohort;
        edge_memory_percent = mean (λ (s : EdgeAgentSnapshot A). or_zero s.memory_percent) cohort;
      }

  unfoldable pub extract_features_with_history :
      Host A
      → SandboxSpec A
      → SandboxProvider
      → List (TrainingDataPoint A)
      → List (EdgeAgentSnapshot A)
      → FeatureVector A
  unfolding extract_features provider_data with_history with_edge
  extract_features_with_history host spec provider historical_data edge_agents =
      let features =
        with_history provider (provider_data provider historical_data)
          (extract_features host spec provider) in
      if provider == edge then with_edge edge_agents features else features

  unfoldable pub normalize_features : Host A → FeatureVector A → FeatureVector A
  normalize_features host f = record f {
    code_length = host.log1p f.code_length;
    cpu_requested = f.cpu_requested ⊘ num 64;
    memory_requested = f.memory_requested ⊘ num 65536;
    hour_of_day = f.hour_of_day ⊘ num 24;
    day_of_week = f.day_of_week ⊘ num 7;
    timeout_ms = f.timeout_ms ⊘ num 3600000;
    requirements_count = host.log1p f.requirements_count;
    environment_count = host.log1p f.environment_count;
    files_count = host.log1p f.files_count;
    avg_provider_latency = host.log1p f.avg_provider_latency;
    avg_provider_cost = host.log1p f.avg_provider_cost;
    edge_queue_depth = host.log1p f.edge_queue_depth;
    edge_running = host.log1p f.edge_running;
    edge_cpu_percent = f.edge_cpu_percent ⊘ num 100;
    edge_memory_percent = f.edge_memory_percent ⊘ num 100;
  }
