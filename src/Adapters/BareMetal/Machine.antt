-- ===== src/Adapters/BareMetal/Machine.antt =====
-- packages/adapters/bare-metal/src/provider.ts: what is done on a node over SSH. The kit `node-ssh` is
-- the parameter `Ssh`; the directory's time stamp is an argument. Logging is left out.
use sandstorm_monorepo.Common.{
  ℕ, zero, suc, String, Bool, true, false, not, Option, none, some, List, [], if◌then◌else◌, ◌==◌,
  string_eq, filter, map,
}
use sandstorm_monorepo.Common.Number.{JsNumber, ◌⊘◌, num, or_number}
use sandstorm_monorepo.Common.Text.{◌+s◌, join, trim, split, replace_first, JsText}
use sandstorm_monorepo.Common.Dict.{get}
use sandstorm_monorepo.Common.Io.{
  error_of, Answer, Io, ◌>>=◌, ◌>>◌, give, raise, look, succeeds, or_raise, for_each_in, collect,
}
use sandstorm_monorepo.Core.Language.{
  Language, python, javascript, typescript, go, rust, java, cpp, shell,
}
use sandstorm_monorepo.Core.Sandbox.{SandboxSpec}
use sandstorm_monorepo.Adapters.World.{World, call, record_of, is_true}
use sandstorm_monorepo.Adapters.BareMetal.Nodes.{BareMetalNode, BareMetalConfig, BareMetalProvider}

pub record SshLogin (A : Type 0) : Type 0 where
  pub host : String
  pub username : String
  pub private_key : Option String
  pub password : Option String
  pub port : A
  pub ready_timeout : Option A

-- A command with its input and its directory.
pub record SshCommand : Type 0 where
  pub command : String
  pub stdin : Option String
  pub cwd : Option String

pub record SshOutput (A : Type 0) : Type 0 where
  pub stdout : String
  pub stderr : String
  pub code : Option A

pub record Ssh (A R : Type 0) : Type 0 where
  pub connect : SshLogin A → R → Answer (Unit {0}) × R
  pub dispose : R → Answer (Unit {0}) × R
  pub exec_command : SshCommand → R → Answer (SshOutput A) × R

pub record NodeMetrics (A : Type 0) : Type 0 where
  pub cpu : A
  pub memory : A
  pub gpu : Option A

pub record NodeResult (A : Type 0) : Type 0 where
  pub stdout : String
  pub stderr : String
  pub exit_code : A
  pub files : Option (List (String × String))
  pub metrics : NodeMetrics A

abbrev pub get_file_extension : Language → String
get_file_extension python = "py"
get_file_extension javascript = "js"
get_file_extension typescript = "ts"
get_file_extension go = "go"
get_file_extension rust = "rs"
get_file_extension java = "java"
get_file_extension cpp = "cpp"
get_file_extension shell = "sh"
get_file_extension _ = "txt"

abbrev pub get_execution_command : Language → String → String
get_execution_command python file = "python3 " +s file
get_execution_command javascript file = "node " +s file
get_execution_command typescript file = "npx ts-node " +s file
get_execution_command go file = "go run " +s file
get_execution_command rust file = "rustc " +s file +s " -o /tmp/rust_binary && /tmp/rust_binary"
get_execution_command java file = "javac " +s file +s " && java " +s replace_first ".java" "" file
get_execution_command cpp file = "g++ " +s file +s " -o /tmp/cpp_binary && /tmp/cpp_binary"
get_execution_command shell file = "bash " +s file
get_execution_command _ file = "cat " +s file

-- The exports before the command.
abbrev pub env_vars : Option (List (String × String)) → String
env_vars none = ""
env_vars (some entries) =
    join "; " (map (λ (key, value). "export " +s key +s "=\"" +s value +s "\"") entries) +s "; "

module _ {A R : Type 0} ⦃n : JsNumber A⦄ ⦃t : JsText A⦄ (ssh : Ssh A R) where
  abbrev pub BareMetalWorld : Type 0
  BareMetalWorld = World (BareMetalProvider A) R

  abbrev pub login : BareMetalConfig A → BareMetalNode A → Option A → SshLogin A
  login config node ready_timeout = record {
    host = node.ip_address;
    username = config.ssh_config.username;
    private_key = config.ssh_config.private_key;
    password = config.ssh_config.password;
    port = or_number config.ssh_config.port (num 22);
    ready_timeout = ready_timeout;
  }

  unfoldable pub connect_to_node : BareMetalNode A → Io BareMetalWorld (Unit {0})
  connect_to_node node = look (λ (w : BareMetalWorld). w.provider.config) >>= λ config.
      call (ssh.connect (login config node none))

  -- One attempt to reach the node.
  abbrev pub attempt : BareMetalNode A → Io BareMetalWorld Bool
  attempt node = succeeds (do
    config ← look (λ (w : BareMetalWorld). w.provider.config)
    call (ssh.connect (login config node (some (num 5000))))
    call ssh.dispose)

  -- The loop, with the number of attempts that it has left.
  unfoldable pub wait_attempts : ℕ → BareMetalNode A → Io BareMetalWorld (Unit {0})
  wait_attempts zero node = raise (error_of ("Node " +s node.id +s " failed to come online"))
  wait_attempts (suc left) node =
      let rest = wait_attempts left node in
      attempt node >>= λ online. if online then give tt else rest

  unfoldable pub wait_for_node : BareMetalNode A → Io BareMetalWorld (Unit {0})
  unfolding wait_attempts
  wait_for_node node = wait_attempts 60 node

  abbrev pub generate_ipxe_script : BareMetalConfig A → String → String
  generate_ipxe_script config hash =
      "#!ipxe\nkernel " +s config.bootc_registry +s "/sandstorm/bootc-" +s hash
      +s "/kernel\ninitrd " +s config.bootc_registry +s "/sandstorm/bootc-" +s hash
      +s "/initrd\nimgargs kernel root=live:" +s config.bootc_registry +s "/sandstorm/bootc-"
      +s hash +s "/rootfs.img\nboot"

  -- Both only log.
  abbrev pub configure_node_boot : BareMetalNode A → String → Io BareMetalWorld (Unit {0})
  configure_node_boot node script = give tt

  abbrev pub reboot_node : BareMetalNode A → Io BareMetalWorld (Unit {0})
  reboot_node node = give tt

  unfoldable pub provision_node : String → String → Io BareMetalWorld (Unit {0})
  unfolding wait_for_node
  provision_node id hash = do
    found ← look (λ (w : BareMetalWorld). get id w.provider.active_nodes)
    node ← or_raise found (error_of ("Node " +s id +s " not found"))
    config ← look (λ (w : BareMetalWorld). w.provider.config)
    configure_node_boot node (generate_ipxe_script config hash)
    reboot_node node
    wait_for_node node

  abbrev pub command_only : String → Io BareMetalWorld (SshOutput A)
  command_only command =
      call (ssh.exec_command (record { command = command; stdin = none; cwd = none }))

  abbrev pub command_with : String → String → Io BareMetalWorld (SshOutput A)
  command_with command stdin =
      call (ssh.exec_command (record { command = command; stdin = some stdin; cwd = none }))

  -- `parseFloat(text) || 0`
  abbrev pub number_of : String → A
  number_of text = or_number (some (t.parse text)) (num 0)

  abbrev pub collect_gpu : Bool → Io BareMetalWorld (Option A)
  collect_gpu false = give none
  collect_gpu true = do
    output ←
        command_only
          "nvidia-smi --query-gpu=utilization.gpu --format=csv,noheader,nounits 2>/dev/null || echo '0'"
    give (some (number_of output.stdout))

  unfoldable pub collect_metrics : BareMetalNode A → Io BareMetalWorld (NodeMetrics A)
  collect_metrics node = do
    cpu ← command_only "top -bn1 | grep 'Cpu(s)' | awk '{print $2}' | cut -d'%' -f1"
    memory ← command_only "free -m | awk 'NR==2{printf \"%.2f\", $3*100/$2}'"
    gpu ← collect_gpu node.specs.gpu
    give (record { cpu = number_of cpu.stdout; memory = number_of memory.stdout; gpu = gpu })

  unfoldable pub collect_output_files : String → Io BareMetalWorld (List (String × String))
  collect_output_files work_dir = do
    listing ← command_only ("find " +s work_dir +s " -type f")
    files ← collect (filter (λ path. not (trim path == "")) (split "\n" listing.stdout)) (λ path.
        command_only ("cat " +s path) >>= λ content.
        give (some (replace_first (work_dir +s "/") "" path, content.stdout)))
    give (record_of [] files)

  abbrev pub output_files_if : Bool → String → Io BareMetalWorld (Option (List (String × String)))
  output_files_if false work_dir = give none
  output_files_if true work_dir = collect_output_files work_dir >>= λ files. give (some files)

  -- `work_id` is the time in the directory's name.
  unfoldable pub execute_on_node :
      String → BareMetalNode A → SandboxSpec A → Io BareMetalWorld (NodeResult A)
  unfolding connect_to_node collect_metrics collect_output_files
  execute_on_node work_id node spec = do
    let work_dir = "/tmp/sandstorm-" +s work_id
    let code_file = work_dir +s "/code." +s get_file_extension spec.language
    connect_to_node node
    command_only ("mkdir -p " +s work_dir) >>= λ _. give tt
    command_with ("cat > " +s code_file) spec.code >>= λ _. give tt
    for_each_in spec.files (λ (path, content).
        command_only ("mkdir -p $(dirname " +s work_dir +s "/" +s path +s ")") >>= λ _.
        command_with ("cat > " +s work_dir +s "/" +s path) content >>= λ _. give tt)
    output ← call (
        ssh.exec_command (record {
          command =
              env_vars spec.environment
              +s "timeout "
              +s t.show (n.ceil (or_number spec.timeout (num 300000) ⊘ num 1000))
              +s " "
              +s get_execution_command spec.language code_file;
          stdin = none;
          cwd = some work_dir;
        }))
    metrics ← collect_metrics node
    files ← output_files_if (is_true spec.stateful) work_dir
    command_only ("rm -rf " +s work_dir) >>= λ _. give tt
    give (record {
      stdout = output.stdout;
      stderr = output.stderr;
      exit_code = or_number output.code (num 0);
      files = files;
      metrics = metrics;
    })
