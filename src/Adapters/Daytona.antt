-- ===== src/Adapters/Daytona.antt =====
-- packages/adapters/daytona/src: the class `DaytonaProvider`. The kit `@daytonaio/sdk` is
-- the parameter `DaytonaSdk`; ids, times, durations and the random number are arguments.
pub mod Costs
pub mod Tables
pub mod Restores
pub mod Workspaces
use sandstorm_monorepo.Common.{
  ℕ, String, Bool, true, false, not, Option, none, some, List, [], if◌then◌else◌, ◌==◌, string_eq,
}
use sandstorm_monorepo.Common.Number.{JsNumber, ◌⊗◌, ◌⊕◌, num, dec, or_number}
use sandstorm_monorepo.Common.Text.{◌+s◌, text_includes, join, or_text, substring}
use sandstorm_monorepo.Common.Dict.{get, set, delete}
use sandstorm_monorepo.Common.Io.{
  Thrown, error_of, value_of, Answer, Io, ◌>>=◌, ◌>>◌, give, change, look, swallow, succeeds,
  or_raise, only_if, on_throw, for_each, for_each_in,
}
use sandstorm_monorepo.Core.Provider.{daytona}
use sandstorm_monorepo.Core.Language.{
  Language, python, javascript, typescript, go, rust, java, cpp, shell,
}
use sandstorm_monorepo.Core.Sandbox.{SandboxSpec, SandboxResult, SandboxSnapshot}
use sandstorm_monorepo.Adapters.World.{
  World, call, on_provider, service_error, logs_of, has_text, RunStamp, is_true, update,
}
use sandstorm_monorepo.Adapters.Daytona.Costs.{DaytonaConfig, calculate_actual_cost}
use sandstorm_monorepo.Adapters.Daytona.Tables.{
  WorkspaceTemplate, WorkspaceStatus, ready, DaytonaWorkspace, DaytonaWorkspaceMetrics,
  DaytonaOptions, CodeOutput, DaytonaSdk, DaytonaProvider, get_workspace_template,
  map_language_to_daytona, get_install_command, wrap_error, DaytonaStamp,
}

module _ {A H R : Type 0} ⦃n : JsNumber A⦄ (sdk : DaytonaSdk A H R) where
  abbrev pub DaytonaWorld : Type 0
  DaytonaWorld = World (DaytonaProvider A) R

  abbrev pub set_workspace : String → DaytonaWorkspace A → DaytonaProvider A → DaytonaProvider A
  set_workspace id w p = record p { active_workspaces = set id w p.active_workspaces }

  abbrev pub delete_workspace : String → DaytonaProvider A → DaytonaProvider A
  delete_workspace id p = record p { active_workspaces = delete id p.active_workspaces }

  abbrev pub set_metrics : String → DaytonaProvider A → DaytonaProvider A
  set_metrics id p = record p {
    workspace_metrics =
        set id
          (record {
            cpu = num 0;
            memory = num 0;
            disk_read = num 0;
            disk_write = num 0;
            network_in = num 0;
            network_out = num 0;
            process_count = num 0;
          })
          p.workspace_metrics;
  }

  -- The simulated usage of the processor and the memory.
  abbrev pub cpu_of : A → A
  cpu_of random = random ⊗ num 50 ⊕ num 25

  abbrev pub memory_of : Option A → A
  memory_of none = num 358
  memory_of (some m) = if n.truthy m then m ⊗ dec 7 1 else num 358

  abbrev pub change_usage : String → A → A → DaytonaProvider A → DaytonaProvider A
  change_usage id cpu memory p = record p {
    workspace_metrics =
        update id (λ m. record m { cpu = cpu; memory = memory }) p.workspace_metrics;
  }

  abbrev pub options_of : DaytonaConfig A → SandboxSpec A → DaytonaOptions A
  options_of config spec = record {
    language = map_language_to_daytona spec.language;
    cpu = spec.cpu;
    memory = spec.memory;
    timeout = some (or_number spec.timeout config.default_timeout);
    template = some (get_workspace_template spec.language);
    persistent = none;
  }

  -- `workspace.id || id`
  abbrev pub id_or : H → String → String
  id_or workspace id = if sdk.id_of workspace == "" then id else sdk.id_of workspace

  abbrev pub workspace_info : DaytonaStamp A → SandboxSpec A → H → DaytonaWorkspace A
  workspace_info stamp spec workspace = record {
    id = id_or workspace stamp.base.id;
    name = "sandbox-" +s stamp.base.id;
    status = ready;
    template = get_workspace_template spec.language;
    created_at = stamp.created_at;
    last_activity = stamp.last_activity;
    cpu = or_number spec.cpu (num 1);
    memory = or_number spec.memory (num 512);
    disk = num 10240;
  }

  unfoldable pub install : H → Language → List String → Io DaytonaWorld (Unit {0})
  install workspace language [] = give tt
  install workspace language requirements = elim (get_install_command language requirements) [
    | none ↦ give tt
    | some command ↦ call (sdk.execute workspace command)
  ]

  abbrev pub requirements_of : Option (List String) → List String
  requirements_of none = []
  requirements_of (some list) = list

  abbrev pub result_of : DaytonaStamp A → SandboxSpec A → CodeOutput → SandboxResult A
  result_of stamp spec output = record {
    id = stamp.base.id;
    provider = daytona;
    stdout = or_text output.result "";
    stderr = or_text output.error "";
    exit_code = if has_text output.error then num 1 else num 0;
    duration = stamp.base.duration;
    cost = calculate_actual_cost stamp.base.duration spec;
    files = none;
    logs = logs_of stamp.base.now output.logs;
    metrics = some (record {
      cpu_usage = some (cpu_of stamp.random);
      memory_usage = some (memory_of spec.memory);
      gpu_usage = none;
      network_rx_bytes = none;
      network_tx_bytes = none;
    });
  }

  -- What `run` does with the workspace that it has created.
  unfoldable pub run_in : DaytonaStamp A → SandboxSpec A → H → Io DaytonaWorld (SandboxResult A)
  unfolding install
  run_in stamp spec workspace = do
    change (on_provider (set_workspace stamp.base.id (workspace_info stamp spec workspace)))
    change (on_provider (set_metrics stamp.base.id))
    for_each_in spec.environment (λ (key, value). call (sdk.set_env workspace key value))
    for_each_in spec.files (λ (path, content). call (sdk.write workspace path content))
    install workspace spec.language (requirements_of spec.requirements)
    output ← call (sdk.code_run workspace spec.code)
    change (on_provider (change_usage stamp.base.id (cpu_of stamp.random) (memory_of spec.memory)))
    only_if (not (is_true spec.stateful)) (
        call (sdk.destroy (sdk.id_of workspace))
        >> change (on_provider (delete_workspace stamp.base.id)))
    give (result_of stamp spec output)

  -- The `catch`, once there is a workspace.
  unfoldable pub clean_up_after : String → H → Io DaytonaWorld (Unit {0})
  clean_up_after id workspace = only_if (not (sdk.id_of workspace == "")) (
      swallow (call (sdk.destroy (sdk.id_of workspace)))
      >> change (on_provider (delete_workspace id)))

  unfoldable pub run : DaytonaStamp A → SandboxSpec A → Io DaytonaWorld (SandboxResult A)
  unfolding run_in clean_up_after
  run stamp spec =
      on_throw
        (do
          config ← look (λ (w : DaytonaWorld). w.provider.config)
          workspace ← call (sdk.create (options_of config spec))
          on_throw (run_in stamp spec workspace) (clean_up_after stamp.base.id workspace) (λ e. e))
        (give tt) wrap_error

  unfoldable pub is_available : Io DaytonaWorld Bool
  is_available = succeeds (do
    workspace ← call (
        sdk.create (record {
          language = "python";
          cpu = none;
          memory = none;
          timeout = some (num 5000);
          template = none;
          persistent = none;
        }))
    only_if (not (sdk.id_of workspace == "")) (call (sdk.destroy (sdk.id_of workspace))))

  unfoldable pub snapshot :
      String
      → String
      → String
      → Io DaytonaWorld (SandboxSnapshot A (WorkspaceTemplate × Option (DaytonaWorkspaceMetrics A)))
  snapshot snapshot_id now sandbox_id = do
    found ← look (λ (w : DaytonaWorld). get sandbox_id w.provider.active_workspaces)
    workspace ←
        or_raise found (error_of ("Workspace " +s sandbox_id +s " not found or already destroyed"))
    metrics ← look (λ (w : DaytonaWorld). get sandbox_id w.provider.workspace_metrics)
    give (record {
      id = snapshot_id;
      sandbox_id = sandbox_id;
      provider = daytona;
      timestamp = now;
      filesystem_hash = "daytona-snapshot-" +s substring snapshot_id 0 8;
      memory_hash = none;
      size = workspace.disk ⊗ dec 3 1;
      metadata = some (workspace.template, metrics);
    })

  -- The answer is a fresh id, whatever the snapshot.
  abbrev pub restore : String → String → Io DaytonaWorld String
  restore fresh snapshot_id = give fresh

  unfoldable pub create_workspace :
      String → String → String → String → WorkspaceTemplate → Bool → Io DaytonaWorld String
  create_workspace fresh created_at last_activity name template persistent = do
    workspace ← call (
        sdk.create (record {
          language = "python";
          cpu = none;
          memory = none;
          timeout = none;
          template = some template;
          persistent = some persistent;
        }))
    change (
        on_provider (
          set_workspace (id_or workspace fresh) (record {
            id = id_or workspace fresh;
            name = name;
            status = ready;
            template = template;
            created_at = created_at;
            last_activity = last_activity;
            cpu = num 2;
            memory = num 2048;
            disk = num 10240;
          })))
    give (id_or workspace fresh)

  -- The workspace that is found only gets its date: the code goes to `run`, which creates another.
  unfoldable pub run_in_workspace :
      DaytonaStamp A → String → String → SandboxSpec A → Io DaytonaWorld (SandboxResult A)
  unfolding run
  run_in_workspace stamp now workspace_id spec = do
    found ← look (λ (w : DaytonaWorld). get workspace_id w.provider.active_workspaces)
    workspace ← or_raise found (error_of ("Workspace " +s workspace_id +s " not found"))
    change (
        on_provider (λ p. record p {
          active_workspaces =
              update workspace_id (λ w. record w { last_activity = now }) p.active_workspaces;
        }))
    run stamp (record spec { stateful = some true })

  unfoldable pub get_workspace_metrics : String → Io DaytonaWorld (DaytonaWorkspaceMetrics A)
  get_workspace_metrics workspace_id = do
    found ← look (λ (w : DaytonaWorld). get workspace_id w.provider.workspace_metrics)
    or_raise found (error_of ("No metrics found for workspace " +s workspace_id))

  abbrev pub clear : DaytonaProvider A → DaytonaProvider A
  clear p = record p { active_workspaces = []; workspace_metrics = [] }

  unfoldable pub cleanup : Io DaytonaWorld (Unit {0})
  cleanup = do
    active ← look (λ (w : DaytonaWorld). w.provider.active_workspaces)
    for_each active (λ (id, workspace). swallow (call (sdk.destroy workspace.id)))
    change (on_provider clear)
