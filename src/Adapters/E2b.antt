-- ===== src/Adapters/E2b.antt =====
-- packages/adapters/e2b/src/provider.ts: the class `E2BProvider`. The kit `@e2b/code-interpreter` is
-- the parameter `E2bSdk`; ids, times and durations are arguments. Setting the key in the process
-- environment and logging are left out.
pub mod Restores
use sandstorm_monorepo.Common.{
  ℕ, suc, String, Bool, true, false, ◌&&◌, not, Option, none, some, List, [], ◌∷◌, ◌++◌,
  if◌then◌else◌, ltb, ◌==◌, string_eq, length,
}
use sandstorm_monorepo.Common.Number.{JsNumber, ◌⊕◌, ◌⊗◌, ◌⊘◌, ◌≻◌, num, dec, or_number}
use sandstorm_monorepo.Common.Text.{◌+s◌, or_text}
use sandstorm_monorepo.Common.Dict.{get, set, delete}
use sandstorm_monorepo.Common.Io.{
  Thrown, error_of, Answer, Io, ◌>>=◌, ◌>>◌, give, raise, change, look, swallow, succeeds, or_raise,
  only_if, on_throw, for_each, for_each_in, collect,
}
use sandstorm_monorepo.Core.Provider.{e2b}
use sandstorm_monorepo.Core.Language.{
  Language, python, javascript, typescript, ruby, cpp, shell, go, rust, java,
}
use sandstorm_monorepo.Core.Sandbox.{SandboxSpec, SandboxResult, SandboxSnapshot}
use sandstorm_monorepo.Adapters.World.{
  World, call, on_provider, service_error, logs_of, has_text, record_of, RunStamp, is_true, size_of,
  exceeds, times_if, plus_if, update,
}

pub record E2bConfig (A : Type 0) : Type 0 where
  pub api_key : String
  pub default_timeout : A
  pub base_url : Option String
  pub max_retries : ℕ
  pub enable_telemetry : Bool

pub record E2bSandboxMetrics (A : Type 0) : Type 0 where
  pub execution_time : A
  pub cpu_time : A
  pub memory_peak : A
  pub network_in : A
  pub network_out : A
  pub files_created : ℕ
  pub packages_installed : List String

-- What the kit returns for a piece of code.
pub record Artifact : Type 0 where
  pub kind : String
  pub path : Option String

pub record Execution : Type 0 where
  pub results : Option (List Artifact)
  pub text : Option String
  pub error : Option String
  pub logs : Option (List String)

pub record E2bSdk (A H R : Type 0) : Type 0 where
  pub create : A → R → Answer H × R
  pub close : H → R → Answer (Unit {0}) × R
  pub run_code : H → String → R → Answer Execution × R
  pub write : H → String → String → R → Answer (Unit {0}) × R
  pub read : H → String → R → Answer String × R
  pub list : H → String → R → Answer (List String) × R

pub record E2bProvider (A H : Type 0) : Type 0 where
  pub config : E2bConfig A
  pub active_sandboxes : List (String × H)
  pub sandbox_metrics : List (String × E2bSandboxMetrics A)

abbrev pub new_provider : {A H : Type 0} → E2bConfig A → E2bProvider A H
new_provider config = record { config = config; active_sandboxes = []; sandbox_metrics = [] }

-- The languages that the table lacks fall back to Python too.
abbrev pub map_language : Language → String
map_language python = "python"
map_language javascript = "js"
map_language typescript = "js"
map_language ruby = "ruby"
map_language cpp = "cpp"
map_language shell = "bash"
map_language _ = "python"

module _ {A : Type 0} ⦃n : JsNumber A⦄ where
  unfoldable pub estimate_cost : E2bConfig A → SandboxSpec A → A
  estimate_cost config spec =
      let seconds = or_number spec.timeout config.default_timeout ⊘ num 1000 in
      let start = if is_true spec.gpu then num 10 else num 1 in
      let multiplier =
        times_if (is_true spec.stateful) (dec 12 1)
          (times_if (exceeds spec.memory (num 4096)) (dec 15 1) start) in
      dec 14 5 ⊗ seconds ⊗ multiplier

  unfoldable pub estimate_latency : SandboxSpec A → A
  estimate_latency spec = plus_if (is_true spec.stateful) (num 100) (
      plus_if (ltb 0 (size_of spec.requirements)) (num (size_of spec.requirements) ⊗ num 500)
        (num 150))

  abbrev pub get_quota : A × A
  get_quota = (num 0, num 1000000)

  abbrev pub no_metrics : E2bSandboxMetrics A
  no_metrics = record {
    execution_time = num 0;
    cpu_time = num 0;
    memory_peak = num 0;
    network_in = num 0;
    network_out = num 0;
    files_created = 0;
    packages_installed = [];
  }

module _ {A H R : Type 0} ⦃n : JsNumber A⦄ (sdk : E2bSdk A H R) where
  abbrev pub E2bWorld : Type 0
  E2bWorld = World (E2bProvider A H) R

  abbrev pub set_active : String → H → E2bProvider A H → E2bProvider A H
  set_active id sandbox p = record p { active_sandboxes = set id sandbox p.active_sandboxes }

  abbrev pub delete_active : String → E2bProvider A H → E2bProvider A H
  delete_active id p = record p { active_sandboxes = delete id p.active_sandboxes }

  abbrev pub set_metrics : String → E2bSandboxMetrics A → E2bProvider A H → E2bProvider A H
  set_metrics id m p = record p { sandbox_metrics = set id m p.sandbox_metrics }

  -- The run goes on to change the metrics that it has put into the map.
  abbrev pub change_metrics :
      String → (E2bSandboxMetrics A → E2bSandboxMetrics A) → E2bProvider A H → E2bProvider A H
  change_metrics id f p = record p { sandbox_metrics = update id f p.sandbox_metrics }

  -- One requirement, for the two languages with a package manager.
  unfoldable pub install : String → H → String → String → Io E2bWorld (Unit {0})
  install id sandbox language requirement =
      if language == "python"
      then (call (sdk.run_code sandbox ("!pip install " +s requirement)) >>= λ _. change (
          on_provider (
            change_metrics id
              (λ m. record m { packages_installed = m.packages_installed ++ requirement ∷ [] }))))
      else if language == "js"
      then (call (sdk.run_code sandbox ("!npm install " +s requirement)) >>= λ _. change (
          on_provider (
            change_metrics id
              (λ m. record m { packages_installed = m.packages_installed ++ requirement ∷ [] }))))
      else give tt

  -- The file of one artifact, if it is one.
  abbrev pub read_path : H → Option String → Io E2bWorld (Option (String × String))
  read_path sandbox none = give none
  read_path sandbox (some path) =
      if path == ""
      then give none
      else call (sdk.read sandbox path) >>= λ content. give (some (path, content))

  unfoldable pub read_artifact : H → Artifact → Io E2bWorld (Option (String × String))
  read_artifact sandbox a = if a.kind == "file" then read_path sandbox a.path else give none

  abbrev pub artifacts : Option (List Artifact) → List Artifact
  artifacts none = []
  artifacts (some list) = list

  abbrev pub exit_of : Option String → A
  exit_of e = if has_text e then num 1 else num 0

  abbrev pub result_of :
      RunStamp A
      → SandboxSpec A
      → Execution
      → List (String × String)
      → E2bSandboxMetrics A
      → SandboxResult A
  result_of stamp spec execution files m = record {
    id = stamp.id;
    provider = e2b;
    stdout = or_text execution.text "";
    stderr = or_text execution.error "";
    exit_code = exit_of execution.error;
    duration = stamp.duration;
    cost = (stamp.duration ⊘ num 1000) ⊗ dec 14 5 ⊗ (if is_true spec.gpu then num 10 else num 1);
    files = some files;
    logs = logs_of stamp.now execution.logs;
    metrics = some (record {
      cpu_usage = some m.cpu_time;
      memory_usage = some m.memory_peak;
      gpu_usage = none;
      network_rx_bytes = none;
      network_tx_bytes = none;
    });
  }

  -- What `run` does with the sandbox that it has created. The metrics in the result are those it
  -- began with: only their other fields change.
  unfoldable pub run_in : RunStamp A → SandboxSpec A → H → Io E2bWorld (SandboxResult A)
  unfolding install read_artifact
  run_in stamp spec sandbox = do
    change (on_provider (set_active stamp.id sandbox))
    change (on_provider (set_metrics stamp.id no_metrics))
    for_each_in spec.environment (λ (key, value).
        call (sdk.run_code sandbox ("import os; os.environ['" +s key +s "'] = '" +s value +s "'"))
        >>= λ _. give tt)
    for_each_in spec.files (λ (path, content).
        call (sdk.write sandbox path content)
        >> change (
            on_provider
              (change_metrics stamp.id (λ m. record m { files_created = suc m.files_created }))))
    for_each_in spec.requirements (install stamp.id sandbox (map_language spec.language))
    execution ← call (sdk.run_code sandbox spec.code)
    files ← collect (artifacts execution.results) (read_artifact sandbox)
    change
        (on_provider (change_metrics stamp.id (λ m. record m { execution_time = stamp.duration })))
    call (sdk.close sandbox)
    change (on_provider (delete_active stamp.id))
    give (result_of stamp spec execution (record_of [] files) no_metrics)

  -- The `catch`, once there is a sandbox.
  unfoldable pub clean_up_after : String → H → Io E2bWorld (Unit {0})
  clean_up_after id sandbox = do
    swallow (call (sdk.close sandbox))
    change (on_provider (delete_active id))

  unfoldable pub run : RunStamp A → SandboxSpec A → Io E2bWorld (SandboxResult A)
  unfolding run_in clean_up_after
  run stamp spec =
      on_throw
        (do
          timeout ←
              look (λ (w : E2bWorld). or_number spec.timeout w.provider.config.default_timeout)
          sandbox ← call (sdk.create timeout)
          on_throw (run_in stamp spec sandbox) (clean_up_after stamp.id sandbox) (λ e. e))
        (give tt) (service_error "E2B")

  unfoldable pub is_available : Io E2bWorld Bool
  is_available = succeeds (do sandbox ← call (sdk.create (num 5000)); call (sdk.close sandbox))

  -- `hash_files` stands for the text that Node's `Buffer` makes of the sorted names.
  unfoldable pub snapshot :
      (List String → String)
      → String
      → String
      → String
      → Io E2bWorld (SandboxSnapshot A (ℕ × Option (E2bSandboxMetrics A)))
  snapshot hash_files id now sandbox_id = do
    found ← look (λ (w : E2bWorld). get sandbox_id w.provider.active_sandboxes)
    sandbox ← or_raise found (error_of ("Sandbox " +s sandbox_id +s " not found or already closed"))
    files ← call (sdk.list sandbox "/")
    metrics ← look (λ (w : E2bWorld). get sandbox_id w.provider.sandbox_metrics)
    give (record {
      id = id;
      sandbox_id = sandbox_id;
      provider = e2b;
      timestamp = now;
      filesystem_hash = hash_files files;
      memory_hash = none;
      size = num (length files) ⊗ num 1024;
      metadata = some (length files, metrics);
    })

  abbrev pub restore : String → Io E2bWorld String
  restore id = raise (error_of "Snapshot restoration not yet implemented for E2B provider")

  abbrev pub clear : E2bProvider A H → E2bProvider A H
  clear p = record p { active_sandboxes = []; sandbox_metrics = [] }

  unfoldable pub cleanup : Io E2bWorld (Unit {0})
  cleanup = do
    active ← look (λ (w : E2bWorld). w.provider.active_sandboxes)
    for_each active (λ (id, sandbox). swallow (call (sdk.close sandbox)))
    change (on_provider clear)
