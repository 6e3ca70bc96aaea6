-- ===== src/Adapters/Modal.antt =====
-- packages/adapters/modal/src/provider.ts: the class `ModalProvider`. The kit `modal` is the parameter
-- `ModalSdk`; ids, times and durations are arguments. Setting the key in the process environment and
-- logging are left out.
pub mod Commands
pub mod Restores
use sandstorm_monorepo.Common.{
  String, Bool, Option, none, some, List, [], ◌∷◌, if◌then◌else◌, string_eq,
}
use sandstorm_monorepo.Common.Number.{JsNumber, ◌⊘◌, num, or_number}
use sandstorm_monorepo.Common.Text.{◌+s◌, substring}
use sandstorm_monorepo.Common.Dict.{get, set, delete}
use sandstorm_monorepo.Common.Io.{
  error_of, Answer, Io, ◌>>=◌, ◌>>◌, give, raise, change, look, swallow, succeeds, or_raise,
  on_throw, for_each, for_each_in,
}
use sandstorm_monorepo.Core.Provider.{modal}
use sandstorm_monorepo.Core.Language.{Language}
use sandstorm_monorepo.Core.Sandbox.{SandboxSpec, SandboxResult, SandboxSnapshot}
use sandstorm_monorepo.Adapters.World.{
  World, call, on_provider, service_error, RunStamp, is_true, update,
}
use sandstorm_monorepo.Adapters.Modal.Commands.{
  ModalConfig, ModalResourceMetrics, image_name, get_install_command, get_exec_command,
  map_gpu_type, calculate_actual_cost, no_metrics, measured,
}

-- What the kit is asked for; the timeout is in seconds.
pub record ModalOptions (A : Type 0) : Type 0 where
  pub cpu : A
  pub memory : A
  pub gpu : Option String
  pub timeout : A

-- The types are those of apps, images, sandboxes, processes and the service's states.
pub record ModalSdk (A App Image H Process R : Type 0) : Type 0 where
  pub lookup : String → R → Answer App × R
  pub image_from_registry : App → String → R → Answer Image × R
  pub create_sandbox : App → Image → ModalOptions A → R → Answer H × R
  pub exec : H → List String → R → Answer Process × R
  pub stdout : Process → Option (R → Answer String × R)
  pub stderr : Process → Option (R → Answer String × R)
  pub wait : Process → R → Answer A × R
  pub terminate : H → R → Answer (Unit {0}) × R

pub record ModalProvider (A App H : Type 0) : Type 0 where
  pub config : ModalConfig A
  pub app : Option App
  pub active_sandboxes : List (String × H)
  pub sandbox_metrics : List (String × ModalResourceMetrics A)

abbrev pub new_provider : {A App H : Type 0} → ModalConfig A → ModalProvider A App H
new_provider config = record {
  config = config;
  app = none;
  active_sandboxes = [];
  sandbox_metrics = [];
}

module _ {A App Image H Process R : Type 0} ⦃n : JsNumber A⦄
    (sdk : ModalSdk A App Image H Process R) where
  abbrev pub ModalWorld : Type 0
  ModalWorld = World (ModalProvider A App H) R

  abbrev pub set_app : App → ModalProvider A App H → ModalProvider A App H
  set_app app p = record p { app = some app }

  abbrev pub set_active : String → H → ModalProvider A App H → ModalProvider A App H
  set_active id sandbox p = record p { active_sandboxes = set id sandbox p.active_sandboxes }

  abbrev pub delete_active : String → ModalProvider A App H → ModalProvider A App H
  delete_active id p = record p { active_sandboxes = delete id p.active_sandboxes }

  abbrev pub set_metrics : String → ModalProvider A App H → ModalProvider A App H
  set_metrics id p = record p { sandbox_metrics = set id no_metrics p.sandbox_metrics }

  abbrev pub measure : String → A → SandboxSpec A → ModalProvider A App H → ModalProvider A App H
  measure id duration spec p = record p {
    sandbox_metrics = update id (measured duration spec) p.sandbox_metrics;
  }

  unfoldable pub is_available : Io ModalWorld Bool
  is_available = succeeds (do
    config ← look (λ (w : ModalWorld). w.provider.config)
    app ← call (sdk.lookup config.workspace)
    change (on_provider (set_app app)))

  abbrev pub app_or_raise : Io ModalWorld App
  app_or_raise = do
    app ← look (λ (w : ModalWorld). w.provider.app)
    or_raise app (error_of "Modal app not initialized")

  -- An app that is not there yet is looked up first.
  unfoldable pub ready_app : Option App → Io ModalWorld App
  unfolding is_available
  ready_app (some app) = give app
  ready_app none = is_available >>= λ _. app_or_raise

  unfoldable pub get_image_for_language : Language → Io ModalWorld Image
  get_image_for_language language = do
    app ← app_or_raise
    config ← look (λ (w : ModalWorld). w.provider.config)
    call (sdk.image_from_registry app (image_name config.default_image language))

  abbrev pub options_of : ModalConfig A → SandboxSpec A → ModalOptions A
  options_of config spec = record {
    cpu = or_number spec.cpu (num 1);
    memory = or_number spec.memory (num 512);
    gpu = if is_true spec.gpu then some (map_gpu_type spec.gpu_type) else none;
    timeout = or_number spec.timeout config.default_timeout ⊘ num 1000;
  }

  abbrev pub shell_line : H → String → Io ModalWorld (Unit {0})
  shell_line sandbox line = call (sdk.exec sandbox ("sh" ∷ "-c" ∷ line ∷ [])) >>= λ _. give tt

  abbrev pub install_by : H → Option (List String) → Io ModalWorld (Unit {0})
  install_by sandbox none = give tt
  install_by sandbox (some command) =
      call (sdk.exec sandbox command) >>= λ process. call (sdk.wait process) >>= λ _. give tt

  abbrev pub install : H → Language → Option (List String) → Io ModalWorld (Unit {0})
  install sandbox language none = give tt
  install sandbox language (some []) = give tt
  install sandbox language (some (r ∷ rs)) =
      install_by sandbox (get_install_command language (r ∷ rs))

  -- An output of the process, or the empty text.
  abbrev pub text_of : Option (R → Answer String × R) → Io ModalWorld String
  text_of none = give ""
  text_of (some read_text) = call read_text

  abbrev pub result_of : RunStamp A → SandboxSpec A → String → String → A → SandboxResult A
  result_of stamp spec stdout stderr exit_code = record {
    id = stamp.id;
    provider = modal;
    stdout = stdout;
    stderr = stderr;
    exit_code = exit_code;
    duration = stamp.duration;
    cost = calculate_actual_cost (measured stamp.duration spec no_metrics) spec;
    files = none;
    logs = some [];
    metrics = some (record {
      cpu_usage = some ((measured stamp.duration spec no_metrics).cpu_cycles ⊘ num 1000000000);
      memory_usage = some (num 0);
      gpu_usage = none;
      network_rx_bytes = none;
      network_tx_bytes = none;
    });
  }

  -- What `run` does with the sandbox that it has created. `temp` is the id of the code's file.
  unfoldable pub run_in : RunStamp A → String → SandboxSpec A → H → Io ModalWorld (SandboxResult A)
  run_in stamp temp spec sandbox = do
    change (on_provider (set_active stamp.id sandbox))
    change (on_provider (set_metrics stamp.id))
    for_each_in spec.environment
        (λ (key, value). shell_line sandbox ("export " +s key +s "=\"" +s value +s "\""))
    for_each_in spec.files
        (λ (path, content). shell_line sandbox ("echo '" +s content +s "' > " +s path))
    install sandbox spec.language spec.requirements
    process ← call (sdk.exec sandbox (get_exec_command temp spec.language spec.code))
    stdout ← text_of (sdk.stdout process)
    stderr ← text_of (sdk.stderr process)
    exit_code ← call (sdk.wait process)
    change (on_provider (measure stamp.id stamp.duration spec))
    call (sdk.terminate sandbox)
    change (on_provider (delete_active stamp.id))
    give (result_of stamp spec stdout stderr exit_code)

  -- The `catch`, once there is a sandbox.
  unfoldable pub clean_up_after : String → H → Io ModalWorld (Unit {0})
  clean_up_after id sandbox =
      swallow (call (sdk.terminate sandbox)) >> change (on_provider (delete_active id))

  unfoldable pub run : RunStamp A → String → SandboxSpec A → Io ModalWorld (SandboxResult A)
  unfolding run_in clean_up_after ready_app get_image_for_language
  run stamp temp spec =
      on_throw
        (do
          known ← look (λ (w : ModalWorld). w.provider.app)
          app ← ready_app known
          image ← get_image_for_language spec.language
          config ← look (λ (w : ModalWorld). w.provider.config)
          sandbox ← call (sdk.create_sandbox app image (options_of config spec))
          on_throw (run_in stamp temp spec sandbox) (clean_up_after stamp.id sandbox) (λ e. e))
        (give tt) (service_error "Modal")

  unfoldable pub snapshot :
      String → String → String → Io ModalWorld (SandboxSnapshot A (Option (ModalResourceMetrics A)))
  snapshot snapshot_id now sandbox_id = do
    found ← look (λ (w : ModalWorld). get sandbox_id w.provider.active_sandboxes)
    sandbox ←
        or_raise found (error_of ("Sandbox " +s sandbox_id +s " not found or already terminated"))
    metrics ← look (λ (w : ModalWorld). get sandbox_id w.provider.sandbox_metrics)
    give (record {
      id = snapshot_id;
      sandbox_id = sandbox_id;
      provider = modal;
      timestamp = now;
      filesystem_hash = "modal-snapshot-" +s substring snapshot_id 0 8;
      memory_hash = none;
      size = num 0;
      metadata = some metrics;
    })

  abbrev pub restore : String → Io ModalWorld String
  restore id = raise (error_of "Snapshot restoration not yet implemented for Modal provider")

  abbrev pub clear : ModalProvider A App H → ModalProvider A App H
  clear p = record p { active_sandboxes = []; sandbox_metrics = [] }

  unfoldable pub cleanup : Io ModalWorld (Unit {0})
  cleanup = do
    active ← look (λ (w : ModalWorld). w.provider.active_sandboxes)
    for_each active (λ (id, sandbox). swallow (call (sdk.terminate sandbox)))
    change (on_provider clear)
