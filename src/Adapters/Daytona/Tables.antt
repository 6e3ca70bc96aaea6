-- ===== src/Adapters/Daytona/Tables.antt =====
-- packages/adapters/daytona/src: workspaces, what the kit is asked for, and the tables for a language.
use sandstorm_monorepo.Common.{String, Bool, Option, none, some, List, [], if◌then◌else◌, string_eq}
use sandstorm_monorepo.Common.Text.{◌+s◌, text_includes, join}
use sandstorm_monorepo.Common.Io.{Thrown, error_of, value_of, Answer}
use sandstorm_monorepo.Core.Language.{
  Language, python, javascript, typescript, go, rust, java, cpp, shell,
}
use sandstorm_monorepo.Adapters.World.{service_error, RunStamp}
use sandstorm_monorepo.Adapters.Daytona.Costs.{DaytonaConfig}

pub data WorkspaceTemplate : Type 0 where
  default_template python_template python_ml javascript_template go_template rust_template
        java_template dotnet ruby_template custom_template :
      WorkspaceTemplate

pub data WorkspaceStatus : Type 0 where
  creating ready running stopped error : WorkspaceStatus

pub record DaytonaWorkspace (A : Type 0) : Type 0 where
  pub id : String
  pub name : String
  pub status : WorkspaceStatus
  pub template : WorkspaceTemplate
  pub created_at : String
  pub last_activity : String
  pub cpu : A
  pub memory : A
  pub disk : A

pub record DaytonaWorkspaceMetrics (A : Type 0) : Type 0 where
  pub cpu : A
  pub memory : A
  pub disk_read : A
  pub disk_write : A
  pub network_in : A
  pub network_out : A
  pub process_count : A

-- What the kit is asked for, and what it returns for a piece of code.
pub record DaytonaOptions (A : Type 0) : Type 0 where
  pub language : String
  pub cpu : Option A
  pub memory : Option A
  pub timeout : Option A
  pub template : Option WorkspaceTemplate
  pub persistent : Option Bool

pub record CodeOutput : Type 0 where
  pub result : Option String
  pub error : Option String
  pub logs : Option (List String)

-- A workspace without an id has the empty text as its id.
pub record DaytonaSdk (A H R : Type 0) : Type 0 where
  pub create : DaytonaOptions A → R → Answer H × R
  pub id_of : H → String
  pub destroy : String → R → Answer (Unit {0}) × R
  pub set_env : H → String → String → R → Answer (Unit {0}) × R
  pub write : H → String → String → R → Answer (Unit {0}) × R
  pub execute : H → String → R → Answer (Unit {0}) × R
  pub code_run : H → String → R → Answer CodeOutput × R

pub record DaytonaProvider (A : Type 0) : Type 0 where
  pub config : DaytonaConfig A
  pub active_workspaces : List (String × DaytonaWorkspace A)
  pub workspace_metrics : List (String × DaytonaWorkspaceMetrics A)

abbrev pub new_provider : {A : Type 0} → DaytonaConfig A → DaytonaProvider A
new_provider config = record { config = config; active_workspaces = []; workspace_metrics = [] }

-- The languages that the tables lack take the default.
abbrev pub get_workspace_template : Language → WorkspaceTemplate
get_workspace_template python = python_template
get_workspace_template javascript = javascript_template
get_workspace_template typescript = javascript_template
get_workspace_template go = go_template
get_workspace_template rust = rust_template
get_workspace_template java = java_template
get_workspace_template _ = default_template

abbrev pub map_language_to_daytona : Language → String
map_language_to_daytona javascript = "javascript"
map_language_to_daytona typescript = "typescript"
map_language_to_daytona go = "go"
map_language_to_daytona rust = "rust"
map_language_to_daytona java = "java"
map_language_to_daytona cpp = "cpp"
map_language_to_daytona shell = "bash"
map_language_to_daytona _ = "python"

abbrev pub get_install_command : Language → List String → Option String
get_install_command python requirements = some ("pip install " +s join " " requirements)
get_install_command javascript requirements = some ("npm install " +s join " " requirements)
get_install_command typescript requirements = some ("npm install " +s join " " requirements)
get_install_command go requirements = some ("go get " +s join " " requirements)
get_install_command rust requirements = some ("cargo add " +s join " " requirements)
get_install_command _ requirements = none

abbrev pub wrap_error : Thrown → Thrown
wrap_error (value_of t) = service_error "Daytona" (value_of t)
wrap_error (error_of m) =
    if text_includes m "rate limit"
    then error_of ("Daytona rate limit exceeded: " +s m)
    else if text_includes m "quota"
    then error_of ("Daytona quota exceeded: " +s m)
    else if text_includes m "timeout"
    then error_of ("Daytona execution timeout: " +s m)
    else if text_includes m "not found"
    then error_of ("Daytona workspace not found: " +s m)
    else error_of m

-- What a run is given beside its id and times: two dates and `Math.random()`.
pub record DaytonaStamp (A : Type 0) : Type 0 where
  pub base : RunStamp A
  pub created_at : String
  pub last_activity : String
  pub random : A
