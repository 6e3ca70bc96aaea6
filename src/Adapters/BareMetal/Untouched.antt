-- ===== src/Adapters/BareMetal/Untouched.antt =====
-- packages/adapters/bare-metal: work on a node leaves the map of nodes as it is.
use sandstorm_monorepo.Common.{
  ℕ, zero, suc, String, Bool, true, false, none, List, ◌≡◌, if◌then◌else◌, string_eq,
}
use sandstorm_monorepo.Common.Number.{JsNumber}
use sandstorm_monorepo.Common.Text.{JsText}
use sandstorm_monorepo.Common.Io.{Answer, thrown, returned, give}
use sandstorm_monorepo.Common.Io.Logic.{
  Post, Keeps, give-Ends, raise-Ends, look-Ends, bind-Ends, then-Ends, succeeds-Keeps,
  or_raise-Keeps,
}
use sandstorm_monorepo.Common.Io.Logic.Loops.{for_each_in-Keeps, collect-Keeps}
use sandstorm_monorepo.Core.Sandbox.{SandboxSpec}
use sandstorm_monorepo.Adapters.World.{call, is_true}
use sandstorm_monorepo.Adapters.Leaks.{call-Ends}
use sandstorm_monorepo.Adapters.BareMetal.Nodes.{BareMetalNode}
use sandstorm_monorepo.Adapters.BareMetal.Machine.{
  Ssh, BareMetalWorld, connect_to_node, wait_attempts, wait_for_node, provision_node, command_only,
  collect_gpu, collect_metrics, collect_output_files, output_files_if, execute_on_node,
}

module _ {A R : Type 0} ⦃n : JsNumber A⦄ ⦃t : JsText A⦄ (ssh : Ssh A R) where
  -- The map of nodes is `nodes`.
  pub record NodesAre (nodes : List (String × BareMetalNode A)) (w : BareMetalWorld ssh)
      : Type 0 where
    pub nodes_are : w.provider.active_nodes ≡ nodes

  module _ {nodes : List (String × BareMetalNode A)} where
    -- A call of SSH or of the builder does not change the provider.
    pub call-Keeps : {B : Type 0} (op : R → Answer B × R) → Keeps (NodesAre nodes) (call op)
    call-Keeps {B} op = call-Ends op λ w p. go w (op w.remote) p
      where
        go :
            (w : BareMetalWorld ssh) (r : Answer B × R)
            → NodesAre nodes w
            → Post
                (λ _ s. NodesAre nodes (record w { remote = s }))
                (λ s. NodesAre nodes (record w { remote = s }))
                r
        go w (thrown e, s) p = record { nodes_are = p.nodes_are }
        go w (returned b, s) p = record { nodes_are = p.nodes_are }

  module _ {nodes : List (String × BareMetalNode A)} where
    connect-Keeps : (node : BareMetalNode A) → Keeps (NodesAre nodes) (connect_to_node ssh node)
    unfolding connect_to_node
    connect-Keeps node = bind-Ends (look-Ends _ (λ w p. p)) λ config. call-Keeps _

    wait-Keeps :
        (left : ℕ) (node : BareMetalNode A) → Keeps (NodesAre nodes) (wait_attempts ssh left node)
    unfolding wait_attempts
    wait-Keeps zero node = raise-Ends _ (λ w p. p)
    wait-Keeps (suc left) node =
        let rest = wait-Keeps left node in
        bind-Ends
          (succeeds-Keeps
            (bind-Ends (look-Ends _ (λ w p. p)) λ config. then-Ends (call-Keeps _) (call-Keeps _)))
          λ online.
            elim online
              as (λ b.
                Keeps (NodesAre nodes) (if b then give tt else wait_attempts ssh left node)) [
                  | true ↦ give-Ends tt (λ w p. p)
                  | false ↦ rest
                ]

    pub provision-Keeps : (id hash : String) → Keeps (NodesAre nodes) (provision_node ssh id hash)
    unfolding provision_node wait_for_node
    provision-Keeps id hash = bind-Ends (look-Ends _ (λ w p. p)) λ found.
        bind-Ends (or_raise-Keeps found _) λ node. bind-Ends (look-Ends _ (λ w p. p)) λ config.
          then-Ends (give-Ends tt (λ w p. p))
            (then-Ends (give-Ends tt (λ w p. p)) (wait-Keeps 60 node))

    command-Keeps : (command : String) → Keeps (NodesAre nodes) (command_only ssh command)
    command-Keeps command = call-Keeps _

    gpu-Keeps : (b : Bool) → Keeps (NodesAre nodes) (collect_gpu ssh b)
    gpu-Keeps false = give-Ends none (λ w p. p)
    gpu-Keeps true = bind-Ends (command-Keeps _) λ output. give-Ends _ (λ w p. p)

    metrics-Keeps : (node : BareMetalNode A) → Keeps (NodesAre nodes) (collect_metrics ssh node)
    unfolding collect_metrics
    metrics-Keeps node = bind-Ends (command-Keeps _) λ cpu.
        bind-Ends (command-Keeps _)
          λ memory. bind-Ends (gpu-Keeps node.specs.gpu) λ gpu. give-Ends _ (λ w p. p)

    files-Keeps :
        (b : Bool) (work_dir : String) → Keeps (NodesAre nodes) (output_files_if ssh b work_dir)
    unfolding collect_output_files
    files-Keeps false work_dir = give-Ends none (λ w p. p)
    files-Keeps true work_dir =
        bind-Ends
          (bind-Ends (command-Keeps _) λ listing.
            bind-Ends
              (collect-Keeps _
                λ path. bind-Ends (command-Keeps _) λ content. give-Ends _ (λ w p. p))
              λ files. give-Ends _ (λ w p. p))
          λ files. give-Ends _ (λ w p. p)

    pub execute-Keeps :
        (work_id : String) (node : BareMetalNode A) (spec : SandboxSpec A)
        → Keeps (NodesAre nodes) (execute_on_node ssh work_id node spec)
    unfolding execute_on_node
    execute-Keeps work_id node spec = then-Ends (connect-Keeps node) (
        then-Ends (bind-Ends (command-Keeps _) λ _. give-Ends tt (λ w p. p)) (
          then-Ends (bind-Ends (call-Keeps _) λ _. give-Ends tt (λ w p. p)) (
            then-Ends
              (for_each_in-Keeps spec.files λ (path, content).
                bind-Ends (command-Keeps _)
                  λ _. bind-Ends (call-Keeps _) λ _. give-Ends tt (λ w p. p))
              (bind-Ends (call-Keeps _) λ output. bind-Ends (metrics-Keeps node) λ metrics.
                bind-Ends (files-Keeps (is_true spec.stateful) _) λ files.
                  then-Ends (bind-Ends (command-Keeps _) λ _. give-Ends tt (λ w p. p))
                    (give-Ends _ (λ w p. p))))))
