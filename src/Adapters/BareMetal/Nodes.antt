-- ===== src/Adapters/BareMetal/Nodes.antt =====
-- packages/core/src/types.ts, packages/adapters/bare-metal/src: the nodes, the configuration, the map of
-- nodes, and the operations that only read or change that map.
use sandstorm_monorepo.Common.{
  ℕ, String, Bool, true, false, ◌&&◌, ◌||◌, not, Option, none, some, List, [], ◌∷◌, if◌then◌else◌,
  ◌==◌, string_eq, ltb, length, filter, find, head?,
}
use sandstorm_monorepo.Common.Number.{JsNumber, ◌⊕◌, ◌⊗◌, ◌⊘◌, ◌≺◌, num, dec, or_number}
use sandstorm_monorepo.Common.Dict.{set, values}
use sandstorm_monorepo.Core.Sandbox.{SandboxSpec}
use sandstorm_monorepo.Adapters.World.{has_text, is_true}

pub data NodeStatus : Type 0 where
  available provisioning running error : NodeStatus

pub record NodeSpecs (A : Type 0) : Type 0 where
  pub cpu : A
  pub memory : A
  pub disk : A
  pub gpu : Bool
  pub gpu_type : Option String

pub record BareMetalNode (A : Type 0) : Type 0 where
  pub id : String
  pub ip_address : String
  pub mac_address : String
  pub hostname : String
  pub status : NodeStatus
  pub bootc_hash : Option String
  pub specs : NodeSpecs A

pub record SshConfig (A : Type 0) : Type 0 where
  pub username : String
  pub private_key : Option String
  pub password : Option String
  pub port : Option A

pub record BareMetalConfig (A : Type 0) : Type 0 where
  pub nodes : List (BareMetalNode A)
  pub bootc_registry : String
  pub ssh_config : SshConfig A
  pub ipxe_server_url : String
  pub snapshot_storage_path : String

pub record BareMetalProvider (A : Type 0) : Type 0 where
  pub config : BareMetalConfig A
  pub active_nodes : List (String × BareMetalNode A)

abbrev pub is_available_status : NodeStatus → Bool
is_available_status available = true
is_available_status _ = false

abbrev pub is_provisioning_status : NodeStatus → Bool
is_provisioning_status provisioning = true
is_provisioning_status _ = false

abbrev pub is_running_status : NodeStatus → Bool
is_running_status running = true
is_running_status _ = false

-- `if (type && node type !== type) return false`
abbrev pub has_gpu_type : Option String → Option String → Bool
has_gpu_type none own = true
has_gpu_type (some wanted) none = wanted == ""
has_gpu_type (some wanted) (some own) = (wanted == "") || (own == wanted)

module _ {A : Type 0} where
  -- `this.activeNodes.set(node.id, node)`
  abbrev pub set_node :
      BareMetalNode A → List (String × BareMetalNode A) → List (String × BareMetalNode A)
  set_node node nodes = set node.id node nodes

  abbrev pub put_node : BareMetalNode A → BareMetalProvider A → BareMetalProvider A
  put_node node p = record p { active_nodes = set_node node p.active_nodes }

  abbrev pub set_all :
      List (BareMetalNode A) → List (String × BareMetalNode A) → List (String × BareMetalNode A)
  set_all [] nodes = nodes
  set_all (node ∷ rest) nodes = set_all rest (set_node node nodes)

  abbrev pub new_provider : BareMetalConfig A → BareMetalProvider A
  new_provider config = record { config = config; active_nodes = set_all config.nodes [] }

  abbrev pub available_nodes : List (String × BareMetalNode A) → List (BareMetalNode A)
  available_nodes nodes =
      filter (λ (node : BareMetalNode A). is_available_status node.status) (values nodes)

  abbrev pub is_available : BareMetalProvider A → Bool
  is_available p = ltb 0 (length (available_nodes p.active_nodes))

  abbrev pub get_quota : BareMetalProvider A → ℕ × ℕ
  get_quota p = (
    length (
        filter (λ (node : BareMetalNode A). is_running_status node.status) (values p.active_nodes)),
    length p.active_nodes,
  )

  -- The first node that runs, whatever the sandbox.
  abbrev pub find_node_by_sandbox : String → BareMetalProvider A → Option (BareMetalNode A)
  find_node_by_sandbox sandbox_id p =
      head?
        (filter (λ (node : BareMetalNode A). is_running_status node.status) (values p.active_nodes))

  -- What the `catch` of `run` does to the map.
  abbrev pub freed :
      Option (BareMetalNode A) → List (String × BareMetalNode A) → List (String × BareMetalNode A)
  freed none nodes = nodes
  freed (some node) nodes = set_node (record node { status = available }) nodes

  abbrev pub first_provisioning : List (String × BareMetalNode A) → Option (BareMetalNode A)
  first_provisioning nodes =
      find (λ (node : BareMetalNode A). is_provisioning_status node.status) (values nodes)

  abbrev pub free_provisioning : BareMetalProvider A → BareMetalProvider A
  free_provisioning p = record p {
    active_nodes = freed (first_provisioning p.active_nodes) p.active_nodes;
  }

module _ {A : Type 0} ⦃n : JsNumber A⦄ where
  -- `if (wanted && own < wanted) return false`
  abbrev pub has_enough : Option A → A → Bool
  has_enough none own = true
  has_enough (some wanted) own = not (n.truthy wanted && (own ≺ wanted))

  abbrev pub meets : SandboxSpec A → BareMetalNode A → Bool
  meets spec node =
      has_enough spec.cpu node.specs.cpu
      && has_enough spec.memory node.specs.memory
      && (not (is_true spec.gpu) || node.specs.gpu)
      && has_gpu_type spec.gpu_type node.specs.gpu_type

  abbrev pub choose : SandboxSpec A → List (String × BareMetalNode A) → Option (BareMetalNode A)
  choose spec nodes = head? (filter (meets spec) (available_nodes nodes))

  abbrev pub select_node : SandboxSpec A → BareMetalProvider A → Option (BareMetalNode A)
  select_node spec p = choose spec p.active_nodes

  unfoldable pub estimate_cost : SandboxSpec A → A
  estimate_cost spec =
      dec 5 1
      ⊕ or_number spec.cpu (num 1) ⊗ dec 1 1
      ⊕ (or_number spec.memory (num 512) ⊘ num 1024) ⊗ dec 5 2
      ⊕ (if is_true spec.gpu then num 2 else num 0)

  unfoldable pub estimate_latency : SandboxSpec A → A
  estimate_latency spec = (if has_text spec.bootc_hash then num 30000 else num 120000) ⊕ num 100
