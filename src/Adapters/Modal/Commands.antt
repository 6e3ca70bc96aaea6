-- ===== src/Adapters/Modal/Commands.antt =====
-- packages/adapters/modal/src: the configuration, the images and commands for a language, and what a
-- run costs and how long it takes to start.
use sandstorm_monorepo.Common.{
  String, Bool, Option, none, some, List, [], ◌∷◌, if◌then◌else◌, ltb, ◌==◌, string_eq,
}
use sandstorm_monorepo.Common.Number.{JsNumber, ◌⊕◌, ◌⊗◌, ◌⊘◌, num, dec, or_number}
use sandstorm_monorepo.Common.Text.{◌+s◌, replace_all, substring}
use sandstorm_monorepo.Core.Language.{
  Language, python, javascript, typescript, go, rust, java, cpp, shell,
}
use sandstorm_monorepo.Core.Sandbox.{SandboxSpec}
use sandstorm_monorepo.Adapters.World.{has_text, is_true, size_of, plus_if}

pub record ModalConfig (A : Type 0) : Type 0 where
  pub api_key : String
  pub workspace : String
  pub default_timeout : A
  pub default_image : String
  pub region : Option String
  pub enable_telemetry : Bool

pub record ModalResourceMetrics (A : Type 0) : Type 0 where
  pub cpu_cycles : A
  pub memory_peak : A
  pub gpu_utilization : Option A
  pub network_in : A
  pub network_out : A
  pub execution_time : A
  pub queue_time : A

-- The table of images; a language that it lacks takes the configured one.
abbrev pub image_name : String → Language → String
image_name default_image python = "python:3.11-slim"
image_name default_image javascript = "node:20-slim"
image_name default_image typescript = "node:20-slim"
image_name default_image go = "golang:1.21-alpine"
image_name default_image rust = "rust:1.75-slim"
image_name default_image java = "openjdk:21-slim"
image_name default_image cpp = "gcc:13"
image_name default_image shell = "ubuntu:22.04"
image_name default_image _ = default_image

abbrev pub get_install_command : Language → List String → Option (List String)
get_install_command python requirements = some ("pip" ∷ "install" ∷ requirements)
get_install_command javascript requirements = some ("npm" ∷ "install" ∷ requirements)
get_install_command typescript requirements = some ("npm" ∷ "install" ∷ requirements)
get_install_command go requirements = some ("go" ∷ "get" ∷ requirements)
get_install_command _ requirements = none

-- `echo 'code' > file`, with the quotes of the code escaped.
abbrev pub echo_to : String → String → String
echo_to code file = "echo '" +s replace_all "'" "'\\''" code +s "' > " +s file +s " && "

abbrev pub exec_script : String → Language → String → String
exec_script file python code = echo_to code (file +s ".py") +s "python " +s file +s ".py"
exec_script file javascript code = echo_to code (file +s ".js") +s "node " +s file +s ".js"
exec_script file typescript code = echo_to code (file +s ".ts") +s "npx ts-node " +s file +s ".ts"
exec_script file go code = echo_to code (file +s ".go") +s "go run " +s file +s ".go"
exec_script file rust code =
    echo_to code (file +s ".rs") +s "rustc " +s file +s ".rs -o " +s file +s " && " +s file
exec_script file java code = echo_to code "Main.java" +s "javac Main.java && java Main"
exec_script file cpp code =
    echo_to code (file +s ".cpp") +s "g++ " +s file +s ".cpp -o " +s file +s " && " +s file
exec_script file _ code = code

-- `id` is the fresh id that the file is named by.
abbrev pub get_exec_command : String → Language → String → List String
get_exec_command id language code =
    "sh" ∷ "-c" ∷ exec_script ("/tmp/code_" +s substring id 0 8) language code ∷ []

abbrev pub gpu_name : String → String
gpu_name gpu =
    if gpu == "T4"
    then "nvidia-tesla-t4"
    else if gpu == "A10G"
    then "nvidia-a10g"
    else if gpu == "A100"
    then "nvidia-a100"
    else if gpu == "H100"
    then "nvidia-h100"
    else if gpu == "L4"
    then "nvidia-l4"
    else "any"

abbrev pub map_gpu_type : Option String → String
map_gpu_type none = "any"
map_gpu_type (some gpu) = gpu_name gpu

module _ {A : Type 0} ⦃n : JsNumber A⦄ where
  abbrev pub gpu_rate : String → A
  gpu_rate gpu =
      if gpu == "A10G"
      then dec 278 6
      else if gpu == "A100"
      then dec 1111 6
      else if gpu == "H100"
      then dec 2778 6
      else if gpu == "L4"
      then dec 194 6
      else dec 76 6

  -- `if (spec.gpu && spec.gpuType) cost += rate * seconds`
  abbrev pub plus_gpu : Option String → A → A → A
  plus_gpu none seconds cost = cost
  plus_gpu (some gpu) seconds cost = if gpu == "" then cost else cost ⊕ gpu_rate gpu ⊗ seconds

  abbrev pub with_gpu : SandboxSpec A → A → A → A
  with_gpu spec seconds cost =
      if is_true spec.gpu then plus_gpu spec.gpu_type seconds cost else cost

  abbrev pub get_quota : A × A
  get_quota = (num 0, num 30)

  unfoldable pub estimate_cost : ModalConfig A → SandboxSpec A → A
  estimate_cost config spec =
      let seconds = or_number spec.timeout config.default_timeout ⊘ num 1000 in
      with_gpu spec seconds (dec 1 6 ⊗ seconds ⊗ or_number spec.cpu (num 1))

  unfoldable pub estimate_latency : SandboxSpec A → A
  estimate_latency spec =
      plus_if (ltb 0 (size_of spec.requirements)) (num (size_of spec.requirements) ⊗ num 300) (
        plus_if (is_true spec.gpu) (num 1000)
          (plus_if (has_text spec.dockerfile) (num 2000) (num 500)))

  unfoldable pub calculate_actual_cost : ModalResourceMetrics A → SandboxSpec A → A
  calculate_actual_cost metrics spec =
      with_gpu spec (metrics.execution_time ⊘ num 1000)
        (metrics.cpu_cycles ⊗ (dec 1 6 ⊘ num 2400000000))

  -- The metrics of a run that took `duration` ms, from those it began with.
  abbrev pub no_metrics : ModalResourceMetrics A
  no_metrics = record {
    cpu_cycles = num 0;
    memory_peak = num 0;
    gpu_utilization = none;
    network_in = num 0;
    network_out = num 0;
    execution_time = num 0;
    queue_time = num 0;
  }

  abbrev pub measured : A → SandboxSpec A → ModalResourceMetrics A → ModalResourceMetrics A
  measured duration spec m = record m {
    execution_time = duration;
    cpu_cycles = (duration ⊘ num 1000) ⊗ or_number spec.cpu (num 1) ⊗ num 2400000000;
  }
