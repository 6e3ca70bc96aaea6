-- ===== src/Adapters/BareMetal.antt =====
-- packages/adapters/bare-metal/src: the class `BareMetalProvider`. SSH and the builder of images are
-- parameters; ids, times and durations are arguments.
pub mod Nodes
pub mod Machine
pub mod Pool
pub mod Untouched
pub mod Claims
pub mod Waits
pub mod Builder
use sandstorm_monorepo.Common.{
  String, Bool, true, false, Option, none, some, List, [], ◌∷◌, if◌then◌else◌, ◌==◌, string_eq,
}
use sandstorm_monorepo.Common.Number.{JsNumber, ◌⊗◌, ◌⊘◌, num}
use sandstorm_monorepo.Common.Text.{◌+s◌, trim, JsText}
use sandstorm_monorepo.Common.Io.{
  error_of, Answer, Io, ◌>>=◌, ◌>>◌, give, raise, change, look, or_raise, on_throw,
}
use sandstorm_monorepo.Core.Provider.{bare_metal}
use sandstorm_monorepo.Core.Language.{shell}
use sandstorm_monorepo.Core.Sandbox.{SandboxSpec, SandboxResult, SandboxSnapshot, plain_spec}
use sandstorm_monorepo.Adapters.World.{World, call, on_provider, has_text, RunStamp, is_true}
use sandstorm_monorepo.Adapters.BareMetal.Nodes.{
  BareMetalConfig, BareMetalNode, BareMetalProvider, NodeSpecs, available, provisioning, running,
  find_node_by_sandbox, put_node, free_provisioning, select_node, estimate_cost,
}
use sandstorm_monorepo.Adapters.BareMetal.Machine.{
  Ssh, SshOutput, NodeResult, BareMetalWorld, connect_to_node, provision_node, execute_on_node,
  command_only,
}

-- What the adapter asks the builder for, and the builder: `build_image` answers the image's hash.
pub record ImageRequest : Type 0 where
  pub base_image : String
  pub dockerfile : String
  pub packages : Option (List String)
  pub boot_type : String

pub record ImageBuilder (R : Type 0) : Type 0 where
  pub build_image : ImageRequest → R → Answer String × R
  pub push_image : String → String → R → Answer String × R

pub record NodeSnapshot (A : Type 0) : Type 0 where
  pub node_id : String
  pub filesystem_snapshot : String
  pub memory_snapshot : Option String
  pub bootc_hash : String
  pub cpu : Option A
  pub memory : Option A
  pub gpu : Option Bool

module _ {A R : Type 0} ⦃n : JsNumber A⦄ ⦃t : JsText A⦄ (ssh : Ssh A R)
    (builder : ImageBuilder R) where
  -- The image that the specification names, or that is built from its Dockerfile; the empty text for none.
  abbrev pub build : Option String → Option (List String) → Io (BareMetalWorld ssh) String
  build none requirements = give ""
  build (some dockerfile) requirements = if dockerfile == "" then give "" else (do
    hash ← call (
        builder.build_image (record {
          base_image = "quay.io/fedora/fedora-bootc:40";
          dockerfile = dockerfile;
          packages = requirements;
          boot_type = "efi";
        }))
    config ← look (λ (w : BareMetalWorld ssh). w.provider.config)
    pushed ← call (builder.push_image hash config.bootc_registry)
    give hash)

  abbrev pub image_for : Option String → SandboxSpec A → Io (BareMetalWorld ssh) String
  image_for none spec = build spec.dockerfile spec.requirements
  image_for (some hash) spec =
      if hash == "" then build spec.dockerfile spec.requirements else give hash

  abbrev pub result_of : RunStamp A → SandboxSpec A → NodeResult A → SandboxResult A
  result_of stamp spec r = record {
    id = stamp.id;
    provider = bare_metal;
    stdout = r.stdout;
    stderr = r.stderr;
    exit_code = r.exit_code;
    duration = stamp.duration;
    cost = estimate_cost spec ⊗ (stamp.duration ⊘ num 3600000);
    files = r.files;
    logs = none;
    metrics = some (record {
      cpu_usage = some r.metrics.cpu;
      memory_usage = some r.metrics.memory;
      gpu_usage = if is_true spec.gpu then r.metrics.gpu else none;
      network_rx_bytes = none;
      network_tx_bytes = none;
    });
  }

  abbrev pub provision_with : BareMetalNode A → String → Io (BareMetalWorld ssh) String
  provision_with node hash =
      if hash == ""
      then raise (error_of "No bootc image specified and no Dockerfile provided")
      else (provision_node ssh node.id hash >> give hash)

  -- The image for the node that was chosen.
  unfoldable pub prepare : BareMetalNode A → SandboxSpec A → Io (BareMetalWorld ssh) String
  unfolding provision_node
  prepare node spec = do hash ← image_for spec.bootc_hash spec; provision_with node hash

  -- The `try` of `run`. The status of the node is changed twice, and nothing makes it available again.
  unfoldable pub run_on_node :
      RunStamp A → String → SandboxSpec A → Io (BareMetalWorld ssh) (SandboxResult A)
  unfolding prepare execute_on_node
  run_on_node stamp work_id spec = do
    found ← look (λ (w : BareMetalWorld ssh). select_node spec w.provider)
    node ← or_raise found (error_of "No available nodes meet the requirements")
    change (on_provider (put_node (record node { status = provisioning })))
    hash ← prepare node spec
    change (on_provider (put_node (record node { status = running; bootc_hash = some hash })))
    result ← execute_on_node ssh work_id node spec
    give (result_of stamp spec result)

  unfoldable pub run :
      RunStamp A → String → SandboxSpec A → Io (BareMetalWorld ssh) (SandboxResult A)
  unfolding run_on_node
  run stamp work_id spec =
      on_throw (run_on_node stamp work_id spec) (change (on_provider free_provisioning)) (λ e. e)

  unfoldable pub create_filesystem_snapshot :
      BareMetalNode A → String → Io (BareMetalWorld ssh) String
  create_filesystem_snapshot node id =
      command_only ssh ("lvcreate -L10G -s -n snapshot-" +s id +s " /dev/vg0/root") >>= λ _.
      command_only ssh ("sha256sum /dev/vg0/snapshot-" +s id +s " | awk '{print $1}'") >>= λ output.
      give (trim output.stdout)

  abbrev pub has_code_zero : Option A → Bool
  has_code_zero none = false
  has_code_zero (some code) = n.same code (num 0)

  unfoldable pub supports_memory_snapshot : BareMetalNode A → Io (BareMetalWorld ssh) Bool
  supports_memory_snapshot node =
      command_only ssh "which criu" >>= λ output. give (has_code_zero output.code)

  unfoldable pub create_memory_snapshot : BareMetalNode A → String → Io (BareMetalWorld ssh) String
  create_memory_snapshot node id = do
    config ← look (λ (w : BareMetalWorld ssh). w.provider.config)
    command_only ssh ("mkdir -p " +s config.snapshot_storage_path +s "/" +s id) >>= λ _. give tt
    command_only ssh
          ("criu dump -t 1 -D " +s config.snapshot_storage_path +s "/" +s id +s " --shell-job")
        >>= λ _. give tt
    output ← command_only ssh (
        "find " +s config.snapshot_storage_path +s "/" +s id
        +s " -type f -exec sha256sum {} \\; | sha256sum | awk '{print $1}'")
    give (trim output.stdout)

  unfoldable pub get_snapshot_size : BareMetalNode A → String → Io (BareMetalWorld ssh) A
  get_snapshot_size node id =
      command_only ssh
        ("lvs --noheadings -o size /dev/vg0/snapshot-" +s id +s " | awk '{print $1}'")
      >>= λ output. give (t.parse (trim output.stdout) ⊗ num 1024 ⊗ num 1024 ⊗ num 1024)

  abbrev pub memory_snapshot_if :
      Bool → BareMetalNode A → String → Io (BareMetalWorld ssh) (Option String)
  memory_snapshot_if false node id = give none
  memory_snapshot_if true node id = create_memory_snapshot node id >>= λ hash. give (some hash)

  unfoldable pub snapshot :
      String
      → String
      → String
      → Io (BareMetalWorld ssh) (SandboxSnapshot A (String × Option String))
  unfolding connect_to_node
  snapshot snapshot_id now sandbox_id = do
    found ← look (λ (w : BareMetalWorld ssh). find_node_by_sandbox sandbox_id w.provider)
    node ← or_raise found (error_of ("No node found running sandbox " +s sandbox_id))
    connect_to_node ssh node
    filesystem_hash ← create_filesystem_snapshot node snapshot_id
    supported ← supports_memory_snapshot node
    memory_hash ← memory_snapshot_if supported node snapshot_id
    size ← get_snapshot_size node snapshot_id
    give (record {
      id = snapshot_id;
      sandbox_id = sandbox_id;
      provider = bare_metal;
      timestamp = now;
      filesystem_hash = filesystem_hash;
      memory_hash = memory_hash;
      size = size;
      metadata = some (node.id, node.bootc_hash);
    })

  -- No snapshot is ever found.
  abbrev pub load_snapshot_metadata : String → Io (BareMetalWorld ssh) (Option (NodeSnapshot A))
  load_snapshot_metadata id = give none

  -- Both only log.
  abbrev pub restore_filesystem_snapshot :
      BareMetalNode A → NodeSnapshot A → Io (BareMetalWorld ssh) (Unit {0})
  restore_filesystem_snapshot node s = give tt

  abbrev pub restore_memory_snapshot :
      BareMetalNode A → NodeSnapshot A → Io (BareMetalWorld ssh) (Unit {0})
  restore_memory_snapshot node s = give tt

  unfoldable pub restore : String → String → Io (BareMetalWorld ssh) String
  unfolding provision_node
  restore fresh id = do
    loaded ← load_snapshot_metadata id
    s ← or_raise loaded (error_of ("Snapshot " +s id +s " not found"))
    found ← look (λ (w : BareMetalWorld ssh).
        select_node
          (record (plain_spec A "") {
            language = shell;
            cpu = s.cpu;
            memory = s.memory;
            gpu = s.gpu;
          })
          w.provider)
    node ← or_raise found (error_of "No available nodes for restore")
    provision_node ssh node.id s.bootc_hash
    restore_filesystem_snapshot node s
    if has_text s.memory_snapshot then restore_memory_snapshot node s else give tt
    give fresh
