-- ===== src/Adapters/AppleContainers/Commands.antt =====
-- packages/adapters/apple-containers/src: the configuration, the images and commands for a language, and
-- what a run costs and how long it takes to start.
use sandstorm_monorepo.Common.{
  String, Bool, true, false, ◌&&◌, Option, none, some, List, [], ◌∷◌, ◌++◌, map, if◌then◌else◌,
  ◌==◌, string_eq,
}
use sandstorm_monorepo.Common.Number.{JsNumber, ◌⊕◌, ◌⊗◌, ◌⊘◌, num, dec, or_number}
use sandstorm_monorepo.Common.Text.{◌+s◌, JsText}
use sandstorm_monorepo.Common.Io.{Answer, thrown, returned, error_of}
use sandstorm_monorepo.Core.Language.{
  Language, python, javascript, typescript, go, rust, java, cpp, csharp, php, ruby, shell,
  Architecture, arm64, amd64,
}
use sandstorm_monorepo.Core.Sandbox.{SandboxSpec}
use sandstorm_monorepo.Adapters.World.{has_text, is_true, plus_if}

pub record AppleContainersConfig (A : Type 0) : Type 0 where
  pub default_timeout : A
  pub max_memory_gb : A
  pub max_cpu_cores : A
  pub enable_rosetta : Bool
  pub custom_kernel : Option String
  pub registry_auth : Option (List (String × String × String))
  pub container_path : String

abbrev pub language_image : Language → String
language_image python = "docker.io/python:3.11-slim"
language_image javascript = "docker.io/node:20-slim"
language_image typescript = "docker.io/node:20-slim"
language_image go = "docker.io/golang:1.21-alpine"
language_image rust = "docker.io/rust:1.75-slim"
language_image java = "docker.io/eclipse-temurin:21-jre"
language_image cpp = "docker.io/gcc:13"
language_image csharp = "docker.io/mcr.microsoft.com/dotnet/sdk:8.0"
language_image php = "docker.io/php:8.3-cli"
language_image ruby = "docker.io/ruby:3.3-slim"
language_image shell = "docker.io/alpine:latest"

abbrev pub get_image_for_language : Language → Option String → String
get_image_for_language language none = language_image language
get_image_for_language language (some image) =
    if image == "" then language_image language else image

abbrev pub get_file_extension : Language → String
get_file_extension python = ".py"
get_file_extension javascript = ".js"
get_file_extension typescript = ".ts"
get_file_extension go = ".go"
get_file_extension rust = ".rs"
get_file_extension java = ".java"
get_file_extension cpp = ".cpp"
get_file_extension csharp = ".cs"
get_file_extension php = ".php"
get_file_extension ruby = ".rb"
get_file_extension shell = ".sh"

abbrev pub get_install_commands : Language → List String → List (List String)
get_install_commands language [] = []
get_install_commands python requirements = ("pip" ∷ "install" ∷ requirements) ∷ []
get_install_commands javascript requirements = ("npm" ∷ "install" ∷ requirements) ∷ []
get_install_commands typescript requirements = ("npm" ∷ "install" ∷ requirements) ∷ []
get_install_commands go requirements = map (λ r. "go" ∷ "get" ∷ r ∷ []) requirements
get_install_commands ruby requirements = ("gem" ∷ "install" ∷ requirements) ∷ []
get_install_commands php requirements = ("composer" ∷ "require" ∷ requirements) ∷ []
get_install_commands _ requirements = []

abbrev pub get_execution_command : Language → String → List String
get_execution_command python path = "python" ∷ path ∷ []
get_execution_command javascript path = "node" ∷ path ∷ []
get_execution_command typescript path = "ts-node" ∷ path ∷ []
get_execution_command go path = "go" ∷ "run" ∷ path ∷ []
get_execution_command rust path =
    "rustc" ∷ path ∷ "-o" ∷ "/tmp/program" ∷ "&&" ∷ "/tmp/program" ∷ []
get_execution_command java path = "java" ∷ path ∷ []
get_execution_command cpp path = "g++" ∷ path ∷ "-o" ∷ "/tmp/program" ∷ "&&" ∷ "/tmp/program" ∷ []
get_execution_command csharp path = "dotnet" ∷ "run" ∷ path ∷ []
get_execution_command php path = "php" ∷ path ∷ []
get_execution_command ruby path = "ruby" ∷ path ∷ []
get_execution_command shell path = "sh" ∷ path ∷ []

abbrev pub environment_args : Option (List (String × String)) → List String
environment_args none = []
environment_args (some []) = []
environment_args (some ((key, value) ∷ rest)) =
    "-e" ∷ (key +s "=" +s value) ∷ environment_args (some rest)

abbrev pub is_amd64 : Option Architecture → Bool
is_amd64 none = false
is_amd64 (some arm64) = false
is_amd64 (some amd64) = true

module _ {A : Type 0} ⦃n : JsNumber A⦄ where
  abbrev pub create_args :
      ⦃t : JsText A⦄ → AppleContainersConfig A → String → SandboxSpec A → String → List String
  create_args ⦃t⦄ config id spec image =
      ("create"
        ∷ "--memory"
        ∷ (t.show (or_number spec.memory (num 512)) +s "M")
        ∷ "--cpus"
        ∷ t.show (or_number spec.cpu (num 1))
        ∷ "--name"
        ∷ ("sandstorm-" +s id)
        ∷ [])
      ++ (if config.enable_rosetta && is_amd64 spec.architecture then "--rosetta" ∷ [] else [])
      ++ environment_args spec.environment
      ++ image ∷ "sleep" ∷ "infinity" ∷ []

  -- The error of a specification with a GPU comes before the timeout is looked at.
  abbrev pub estimate_cost : AppleContainersConfig A → SandboxSpec A → Answer A
  estimate_cost config spec =
      let gigabytes = or_number spec.memory (num 512) ⊘ num 1024 in
      let rate = dec 5 3 ⊗ or_number spec.cpu (num 1) ⊗ (num 1 ⊕ gigabytes ⊗ dec 2 1) in
      if is_true spec.gpu
      then thrown (error_of "GPU acceleration is not supported in Apple Containers")
      else returned (rate ⊗ (or_number spec.timeout config.default_timeout ⊘ num 60000))

  unfoldable pub estimate_latency : SandboxSpec A → A
  estimate_latency spec =
      plus_if (has_text spec.container_image) (num 2000) (num 800)
      ⊕ (or_number spec.memory (num 512) ⊘ num 1024) ⊗ num 100
