-- ===== src/Adapters/AppleContainers.antt =====
-- packages/adapters/apple-containers/src/provider.ts: the class `AppleContainersProvider`. The programs
-- that it starts and the file system are the parameter `Host`; ids and durations are arguments. The
-- stream handlers, which only get a copy of the output, are left out, and so are the start time that an
-- instance keeps and the map of metrics, which nothing fills or reads.
pub mod Commands
pub mod Untouched
pub mod Restores
pub mod Rejects
use sandstorm_monorepo.Common.{
  ℕ, String, Bool, true, false, not, Option, none, some, List, [], ◌∷◌, ◌++◌, length, if◌then◌else◌,
  ◌==◌, string_eq,
}
use sandstorm_monorepo.Common.Number.{JsNumber, ◌≺◌, num, or_number}
use sandstorm_monorepo.Common.Text.{◌+s◌, JsText, or_text, trim, split, dirname}
use sandstorm_monorepo.Common.Dict.{get, set, delete}
use sandstorm_monorepo.Common.Io.{
  Thrown, error_of, value_of, Answer, Io, ◌>>=◌, ◌>>◌, give, raise, settle, change, look, swallow,
  recover, only_if, on_throw, for_each,
}
use sandstorm_monorepo.Core.Provider.{SandboxProvider, apple_containers}
use sandstorm_monorepo.Core.Language.{Language}
use sandstorm_monorepo.Core.Sandbox.{SandboxSpec, SandboxResult}
use sandstorm_monorepo.Adapters.World.{World, call, on_provider, RunStamp}
use sandstorm_monorepo.Adapters.AppleContainers.Commands.{
  AppleContainersConfig, get_image_for_language, get_file_extension, get_install_commands,
  get_execution_command, create_args, estimate_cost,
}

pub record SandboxInstance : Type 0 where
  pub id : String
  pub provider : SandboxProvider
  pub container_id : String

-- How a program with a timeout ends: well, or with what the error tells.
pub data ExecEnd (A : Type 0) : Type 0 where
  ended : String → String → ExecEnd A
  failed : Bool → Option String → Option String → Option A → ExecEnd A

-- `execa` answers the standard output; `exec_status` the exit code, without a throw for one that is not 0.
pub record Host (A R : Type 0) : Type 0 where
  pub execa : String → List String → R → Answer String × R
  pub exec_status : String → List String → R → Answer (Option A) × R
  pub exec_timeout : String → List String → A → R → Answer (ExecEnd A) × R
  pub make_dir : String → R → Answer (Unit {0}) × R
  pub write_file : String → String → R → Answer (Unit {0}) × R
  pub remove_dir : String → R → Answer (Unit {0}) × R
  -- `String(error)`
  pub describe : Thrown → String

pub record AppleContainersProvider (A : Type 0) : Type 0 where
  pub config : AppleContainersConfig A
  pub active_sandboxes : List (String × SandboxInstance)

abbrev pub new_provider : {A : Type 0} → AppleContainersConfig A → AppleContainersProvider A
new_provider config = record { config = config; active_sandboxes = [] }

-- Of the error that a run ends with.
abbrev pub wrap_error : Thrown → Thrown
wrap_error (error_of m) = error_of ("Apple Containers execution failed: " +s m)
wrap_error (value_of t) = error_of "Apple Containers execution failed: Unknown error"

module _ {A R : Type 0} ⦃n : JsNumber A⦄ ⦃t : JsText A⦄ (host : Host A R) where
  abbrev pub AppleWorld : Type 0
  AppleWorld = World (AppleContainersProvider A) R

  -- A command of the container program.
  unfoldable pub container : List String → Io AppleWorld String
  container args = look (λ (w : AppleWorld). w.provider.config) >>= λ config.
      call (host.execa config.container_path args)

  abbrev pub is_zero : Option A → Bool
  is_zero none = false
  is_zero (some code) = n.same code (num 0)

  -- The first part of a version such as 15.1.
  abbrev pub major_of : List String → A
  major_of [] = n.nan
  major_of (part ∷ parts) = t.number part

  -- The container program is there and its system runs.
  abbrev pub is_running : Io AppleWorld Bool
  is_running = do
    version ← container ("--version" ∷ [])
    config ← look (λ (w : AppleWorld). w.provider.config)
    code ← call (host.exec_status config.container_path ("system" ∷ "status" ∷ []))
    give (is_zero code)

  abbrev pub is_running_from : A → Io AppleWorld Bool
  is_running_from major = if major ≺ num 15 then give false else is_running

  unfoldable pub is_available : String → Io AppleWorld Bool
  unfolding container
  is_available platform =
      if not (platform == "darwin")
      then give false
      else recover
          (do
            arch ← call (host.execa "uname" ("-m" ∷ []))
            version ← call (host.execa "sw_vers" ("-productVersion" ∷ []))
            is_running_from (major_of (split "." version)))
          false

  unfoldable pub pull_image : String → Io AppleWorld (Unit {0})
  unfolding container
  pull_image image =
      on_throw (container ("image" ∷ "pull" ∷ image ∷ []) >>= λ _. give tt) (give tt)
        (λ e. error_of ("Failed to pull image " +s image +s ": " +s host.describe e))

  unfoldable pub create_container : String → SandboxSpec A → String → Io AppleWorld String
  unfolding container
  create_container id spec image = do
    config ← look (λ (w : AppleWorld). w.provider.config)
    stdout ← container (create_args config id spec image)
    started ← container ("start" ∷ trim stdout ∷ [])
    give (trim stdout)

  -- `tmp` is the directory for temporary files, and `id` a fresh id.
  unfoldable pub prepare_code : String → String → SandboxSpec A → Io AppleWorld String
  prepare_code tmp id spec = do
    let dir = tmp +s "/sandstorm-" +s id
    let file = dir +s "/main" +s get_file_extension spec.language
    call (host.make_dir dir)
    call (host.write_file file spec.code)
    give file

  abbrev pub requirements_of : Option (List String) → List String
  requirements_of none = []
  requirements_of (some list) = list

  unfoldable pub install_dependencies : String → SandboxSpec A → Io AppleWorld (Unit {0})
  unfolding container
  install_dependencies id spec =
      for_each (get_install_commands spec.language (requirements_of spec.requirements))
        (λ command. container ("exec" ∷ id ∷ command) >>= λ _. give tt)

  -- Output and exit code of the program.
  abbrev pub outcome : A → ExecEnd A → Io AppleWorld (String × String × A)
  outcome timeout (ended stdout stderr) = give (stdout, stderr, num 0)
  outcome timeout (failed timed_out stdout stderr code) =
      if timed_out
      then raise (error_of ("Execution timed out after " +s t.show timeout +s "ms"))
      else give (or_text stdout "", or_text stderr "", or_number code (num 1))

  unfoldable pub execute_code :
      String → SandboxSpec A → String → Io AppleWorld (String × String × A)
  unfolding container install_dependencies
  execute_code id spec file = do
    let path = "/tmp/code" +s get_file_extension spec.language
    copied ← container ("cp" ∷ file ∷ (id +s ":" +s path) ∷ [])
    install_dependencies id spec
    config ← look (λ (w : AppleWorld). w.provider.config)
    let timeout = or_number spec.timeout config.default_timeout
    end ← call (
        host.exec_timeout config.container_path
          ("exec" ∷ id ∷ get_execution_command spec.language path) timeout)
    outcome timeout end

  abbrev pub delete_active : String → AppleContainersProvider A → AppleContainersProvider A
  delete_active id p = record p { active_sandboxes = delete id p.active_sandboxes }

  abbrev pub remove_code : Option String → Io AppleWorld (Unit {0})
  remove_code none = give tt
  remove_code (some file) =
      only_if (not (file == "")) (swallow (call (host.remove_dir (dirname file))))

  unfoldable pub cleanup_sandbox : String → String → Option String → Io AppleWorld (Unit {0})
  unfolding container
  cleanup_sandbox id container_id code_file = do
    change (on_provider (delete_active id))
    only_if (not (container_id == "")) (swallow (container ("rm" ∷ "-f" ∷ container_id ∷ [])))
    remove_code code_file

  abbrev pub set_active : String → String → AppleContainersProvider A → AppleContainersProvider A
  set_active id container_id p = record p {
    active_sandboxes =
        set id (record { id = id; provider = apple_containers; container_id = container_id })
          p.active_sandboxes;
  }

  abbrev pub result_of : RunStamp A → String × String × A → A → SandboxResult A
  result_of stamp (stdout, stderr, code) cost = record {
    id = stamp.id;
    provider = apple_containers;
    stdout = stdout;
    stderr = stderr;
    exit_code = code;
    duration = stamp.duration;
    cost = cost;
    files = none;
    logs = none;
    metrics = some (record {
      cpu_usage = some (num 0);
      memory_usage = some (num 0);
      gpu_usage = none;
      network_rx_bytes = none;
      network_tx_bytes = none;
    });
  }

  -- What `run` does with the container that it has created.
  unfoldable pub run_in :
      RunStamp A → String → String → SandboxSpec A → String → Io AppleWorld (SandboxResult A)
  unfolding prepare_code execute_code cleanup_sandbox
  run_in stamp tmp temp_id spec container_id = do
    change (on_provider (set_active stamp.id container_id))
    file ← prepare_code tmp temp_id spec
    result ← execute_code container_id spec file
    config ← look (λ (w : AppleWorld). w.provider.config)
    cost ← settle (estimate_cost config (record spec { timeout = some stamp.duration }))
    cleanup_sandbox stamp.id container_id (some file)
    give (result_of stamp result cost)

  -- The `catch`, for the instance that the map has.
  abbrev pub clean_up_instance : String → Option SandboxInstance → Io AppleWorld (Unit {0})
  clean_up_instance id none = give tt
  clean_up_instance id (some instance_of) =
      only_if (not (instance_of.container_id == ""))
        (cleanup_sandbox id instance_of.container_id none)

  unfoldable pub clean_up_after : String → Io AppleWorld (Unit {0})
  unfolding cleanup_sandbox
  clean_up_after id =
      look (λ (w : AppleWorld). get id w.provider.active_sandboxes) >>= clean_up_instance id

  unfoldable pub run :
      RunStamp A → String → String → SandboxSpec A → Io AppleWorld (SandboxResult A)
  unfolding pull_image create_container run_in clean_up_after
  run stamp tmp temp_id spec =
      on_throw
        (do
          let image = get_image_for_language spec.language spec.container_image
          pull_image image
          container_id ← create_container stamp.id spec image
          run_in stamp tmp temp_id spec container_id)
        (clean_up_after stamp.id) wrap_error

  abbrev pub snapshot : String → Io AppleWorld String
  snapshot id = raise (error_of "Snapshots are not yet supported in Apple Containers")

  abbrev pub restore : String → Io AppleWorld String
  restore id = raise (error_of "Snapshot restore is not yet supported in Apple Containers")

  abbrev pub get_quota : AppleContainersProvider A → ℕ × ℕ
  get_quota p = (length p.active_sandboxes, 100)

  abbrev pub clear : AppleContainersProvider A → AppleContainersProvider A
  clear p = record p { active_sandboxes = [] }

  unfoldable pub cleanup : Io AppleWorld (Unit {0})
  unfolding container
  cleanup = do
    active ← look (λ (w : AppleWorld). w.provider.active_sandboxes)
    for_each active (λ (id, instance_of).
        only_if (not (instance_of.container_id == ""))
          (swallow (container ("rm" ∷ "-f" ∷ instance_of.container_id ∷ []))))
    change (on_provider clear)
