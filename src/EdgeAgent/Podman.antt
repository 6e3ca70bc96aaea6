-- ===== src/EdgeAgent/Podman.antt =====
-- packages/edge-agent/src/adapters/podman.ts: `PodmanAdapter`. The file system and the processes are the
-- parameter `PodmanHost`: a run of a container answers with its output and the samples that were taken
-- meanwhile. The socket's path, which nothing reads, and the parsing of statistics are left out.
pub mod Cleans
mod Tests
use sandstorm_monorepo.Common.{
  ℕ, suc, ltb, String, Bool, true, false, not, Option, none, some, List, [], ◌∷◌, ◌++◌, length,
  if◌then◌else◌, ◌==◌, string_eq,
}
use sandstorm_monorepo.Common.Number.{JsNumber, ◌⊕◌, ◌⊖◌, ◌⊘◌, ◌≺◌, num, or_number}
use sandstorm_monorepo.Common.Text.{◌+s◌, JsText, text_includes, replace_first, dirname}
use sandstorm_monorepo.Common.Io.{
  Thrown, Answer, Io, ◌>>=◌, ◌>>◌, give, recover, swallow, ensure, for_each_in,
}
use sandstorm_monorepo.Core.Provider.{edge}
use sandstorm_monorepo.Core.Language.{
  Language, python, javascript, typescript, go, rust, java, cpp, shell,
}
use sandstorm_monorepo.Core.Sandbox.{SandboxSpec, SandboxResult}

-- The fields of the agent's configuration that a run reads.
pub record PodmanConfig : Type 0 where
  pub rootless : Bool
  pub temp_dir : String
  pub enable_network_isolation : Bool

pub record Sample (A : Type 0) : Type 0 where
  pub cpu_percent : A
  pub memory : A
  pub network_rx_bytes : A
  pub network_tx_bytes : A

-- How the child process closes.
pub record Closed (A : Type 0) : Type 0 where
  pub stdout : String
  pub stderr : String
  pub code : Option A
  pub timed_out : Bool
  pub samples : List (Sample A)

-- `exec_async` answers the standard output of a shell command. `fixed` is `Number(x.toFixed(2))` on a
-- finite number, and `minus_one` the number -1.
pub record PodmanHost (A R : Type 0) : Type 0 where
  pub make_dir : String → R → Answer (Unit {0}) × R
  pub write_file : String → String → R → Answer (Unit {0}) × R
  pub read_dir : String → R → Answer (List String) × R
  pub read_file : String → R → Answer String × R
  pub remove_dir : String → R → Answer (Unit {0}) × R
  pub exec_async : String → R → Answer String × R
  pub spawn : List String → A → R → Answer (Closed A) × R
  pub fixed : A → Option A
  pub minus_one : A

abbrev pub get_image : Language → String
get_image python = "docker.io/python:3.11-slim"
get_image javascript = "docker.io/node:20-slim"
get_image typescript = "docker.io/node:20-slim"
get_image go = "docker.io/golang:1.21-alpine"
get_image rust = "docker.io/rust:1.75-slim"
get_image java = "docker.io/openjdk:17-slim"
get_image cpp = "docker.io/gcc:13"
get_image _ = "docker.io/alpine:latest"

abbrev pub get_file_name : Language → String
get_file_name python = "main.py"
get_file_name javascript = "main.js"
get_file_name typescript = "main.ts"
get_file_name go = "main.go"
get_file_name rust = "main.rs"
get_file_name java = "Main.java"
get_file_name cpp = "main.cpp"
get_file_name shell = "main.sh"
get_file_name _ = "main.txt"

abbrev pub in_shell : String → List String
in_shell line = "sh" ∷ "-c" ∷ line ∷ []

abbrev pub get_command : Language → String → List String
get_command python file = "python" ∷ file ∷ []
get_command javascript file = "node" ∷ file ∷ []
get_command typescript file = in_shell ("npx tsx " +s file)
get_command go file = in_shell ("go run " +s file)
get_command rust file = in_shell ("rustc " +s file +s " -o main && ./main")
get_command java file = in_shell ("javac " +s file +s " && java " +s replace_first ".java" "" file)
get_command cpp file = in_shell ("g++ " +s file +s " -o main && ./main")
get_command shell file = "sh" ∷ file ∷ []
get_command _ file = "cat" ∷ file ∷ []

abbrev pub environment_args : List (String × String) → List String
environment_args [] = []
environment_args ((key, value) ∷ rest) = "-e" ∷ (key +s "=" +s value) ∷ environment_args rest

abbrev pub optional_args : Option (List (String × String)) → List String
optional_args none = []
optional_args (some entries) = environment_args entries

module _ {A : Type 0} ⦃n : JsNumber A⦄ where
  abbrev pub run_args :
      ⦃t : JsText A⦄ → PodmanConfig → String → String → SandboxSpec A → List String
  run_args ⦃t⦄ config id work_dir spec =
      ("run"
        ∷ "--name"
        ∷ id
        ∷ "--workdir"
        ∷ "/workspace"
        ∷ "-v"
        ∷ (work_dir +s ":/workspace:Z")
        ∷ "--memory"
        ∷ (t.show (or_number spec.memory (num 512)) +s "m")
        ∷ "--cpus"
        ∷ t.show (or_number spec.cpu (num 1))
        ∷ [])
      ++ (if config.rootless
          then "--userns=keep-id" ∷ "--security-opt" ∷ "label=disable" ∷ []
          else [])
      ++ (if config.enable_network_isolation then "--network" ∷ "none" ∷ [] else [])
      ++ optional_args spec.environment
      ++ ("--timeout"
          ∷ t.show (n.ceil (or_number spec.timeout (num 60000) ⊘ num 1000))
          ∷ get_image spec.language
          ∷ get_command spec.language (get_file_name spec.language))

  abbrev pub greater : A → A → A
  greater a b = if a ≺ b then b else a

  abbrev pub peak_memory : A → List (Sample A) → A
  peak_memory peak [] = peak
  peak_memory peak (s ∷ rest) = peak_memory (greater peak s.memory) rest

  abbrev pub total_cpu : A → List (Sample A) → A
  total_cpu total [] = total
  total_cpu total (s ∷ rest) = total_cpu (total ⊕ s.cpu_percent) rest

  abbrev pub average_cpu : Option A → List (Sample A) → A
  average_cpu cpu [] = or_number cpu (num 0)
  average_cpu cpu (s ∷ rest) = total_cpu (num 0) (s ∷ rest) ⊘ num (length (s ∷ rest))

  abbrev pub last_of : Sample A → List (Sample A) → Sample A
  last_of s [] = s
  last_of s (next ∷ rest) = last_of next rest

  -- What grew between the first and the last of several samples, or the value of a single one.
  abbrev pub growth : (Sample A → A) → List (Sample A) → A
  growth field [] = num 0
  growth field (s ∷ []) = field s
  growth field (s ∷ next ∷ rest) = greater (field (last_of next rest) ⊖ field s) (num 0)

abbrev pub files_or_none : List (String × String) → Option (List (String × String))
files_or_none [] = none
files_or_none (f ∷ fs) = some (f ∷ fs)

module _ {A R : Type 0} ⦃n : JsNumber A⦄ ⦃t : JsText A⦄ (host : PodmanHost A R) where
  unfoldable pub is_available : Io R Bool
  is_available =
      recover
        (host.exec_async "podman --version" >>= λ stdout.
          give (text_includes stdout "podman version"))
        false

  -- Both commands are in one try.
  unfoldable pub cleanup : String → Io R (Unit {0})
  cleanup id = swallow (
      host.exec_async ("podman stop " +s id +s " || true") >>= λ _.
      host.exec_async ("podman rm " +s id +s " || true"))

  -- The files that the run has left, up to the first that cannot be read.
  abbrev pub read_files : String → String → List String → Io R (List (String × String))
  read_files work_dir code_file [] = give []
  read_files work_dir code_file (file ∷ files) =
      let rest = read_files work_dir code_file files in
      elim (file == code_file) [
        | true ↦ rest
        | false ↦
            recover (host.read_file (work_dir +s "/" +s file) >>= λ content. give (some content))
              none
            >>= λ read. elim read [
              | none ↦ give []
              | some content ↦ rest >>= λ others. give ((file, content) ∷ others)
            ]
      ]

  abbrev pub exit_code : Closed A → A
  exit_code c = if c.timed_out then host.minus_one else or_number c.code (num 0)

  abbrev pub result_of :
      String → A → SandboxSpec A → Closed A → List (String × String) → SandboxResult A
  result_of id duration spec c files = record {
    id = id;
    provider = edge;
    stdout = c.stdout;
    stderr = if c.timed_out then c.stderr +s "\n[Process timed out]" else c.stderr;
    exit_code = exit_code c;
    duration = duration;
    cost = num 0;
    files = files_or_none files;
    logs = none;
    metrics = some (record {
      cpu_usage = host.fixed (average_cpu spec.cpu c.samples);
      memory_usage =
          some (or_number (some (peak_memory (num 0) c.samples)) (or_number spec.memory (num 0)));
      gpu_usage = none;
      network_rx_bytes = some (growth (λ (s : Sample A). s.network_rx_bytes) c.samples);
      network_tx_bytes = some (growth (λ (s : Sample A). s.network_tx_bytes) c.samples);
    });
  }

  -- The body of the try.
  unfoldable pub run_in :
      PodmanConfig → String → A → SandboxSpec A → String → Io R (SandboxResult A)
  run_in config id duration spec work_dir = do
    host.make_dir work_dir
    host.write_file (work_dir +s "/" +s get_file_name spec.language) spec.code
    for_each_in spec.files (λ (path, content).
        host.make_dir (dirname (work_dir +s "/" +s path))
        >> host.write_file (work_dir +s "/" +s path) content)
    closed ← host.spawn (run_args config id work_dir spec) (or_number spec.timeout (num 60000))
    names ← recover (host.read_dir work_dir) []
    files ← read_files work_dir (get_file_name spec.language) names
    give (result_of id duration spec closed files)

  unfoldable pub run_sandbox : PodmanConfig → String → A → SandboxSpec A → Io R (SandboxResult A)
  unfolding run_in cleanup
  run_sandbox config id duration spec =
      let work_dir = config.temp_dir +s "/" +s id in
      ensure (run_in config id duration spec work_dir)
        (swallow (host.remove_dir work_dir) >> cleanup id)
