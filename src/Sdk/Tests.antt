-- ===== src/Sdk/Tests.antt =====
-- packages/sdk: two agents, of which every run on the edge fails, and a cloud that answers.
use sandstorm_monorepo.Common.{
  ℕ, String, true, false, none, [], ◌∷◌, Memᴰ, ◌≡◌, refl, All, string_eq,
}
use sandstorm_monorepo.Common.Number.{micro, micro-IsOrdered}
use sandstorm_monorepo.Common.Io.{returned, thrown, error_of}
use sandstorm_monorepo.Common.Io.Logic.{Ends}
use sandstorm_monorepo.Core.Provider.{edge}
use sandstorm_monorepo.Core.Sandbox.{SandboxResult}
use sandstorm_monorepo.Sdk.{RunOptions}
use sandstorm_monorepo.Sdk.Edge.{EdgeAgentInfo, running, podman, Http, run}
use sandstorm_monorepo.Sdk.Edge.Choice.{closest-least}
use sandstorm_monorepo.Sdk.Edge.Fallback.{HasFallback, Answers, run-returns}

closest-least_example :
    (latency : ℕ) × Memᴰ {A = String × ℕ} ("b", latency) (("a", 300) ∷ ("b", 100) ∷ ("c", 100) ∷ [])
    × All
        (λ (entry : String × ℕ). micro.lt entry.1 latency ≡ false)
        (("a", 300) ∷ ("b", 100) ∷ ("c", 100) ∷ [])
closest-least_example =
    closest-least micro-IsOrdered (("a", 300) ∷ ("b", 100) ∷ ("c", 100) ∷ []) "b" refl

abbrev info : EdgeAgentInfo ℕ
info = record {
  agent_id = "a1";
  status = running;
  version = "1";
  runtime_type = podman;
  runtime_version = "5";
  rootless = true;
  total_memory = 0;
  used_memory = 0;
  total_cpu_cores = 0;
  cpu_usage_percent = 0;
  running_count = 1000000;
  completed = 0;
  failed = 0;
  queued = 2000000;
}

abbrev result : SandboxResult ℕ
result = record {
  id = "r";
  provider = edge;
  stdout = "1";
  stderr = "";
  exit_code = 0;
  duration = 0;
  cost = 0;
  files = none;
  logs = none;
  metrics = none;
}

abbrev http : Http ℕ ℕ
http = record {
  status = λ c r. (returned info, r);
  health = λ c r. (returned 200000000, r);
  run_on_edge = λ c s r. (thrown (error_of "out of memory"), r);
  run_on_cloud = λ s c r. (returned result, r);
  describe = λ e. "Error";
}

http-Answers : Answers http
http-Answers = record { status_answers = λ c r. tt; cloud_answers = λ s c r. tt }

abbrev options : RunOptions ℕ
options = record {
  code = "print(1)";
  language = none;
  requirements = none;
  environment = none;
  files = none;
  constraints = none;
}

run-returns_example : Ends (HasFallback http) (run http options) (λ _ _. Unit {0}) (λ _. ⊥)
run-returns_example = run-returns http http-Answers options
