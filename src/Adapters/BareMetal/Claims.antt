-- ===== src/Adapters/BareMetal/Claims.antt =====
-- packages/adapters/bare-metal: what `run` does to the map of nodes.
use sandstorm_monorepo.Common.{
  suc, String, true, Bool-cases, Option, none, some, List, ◌≡◌, refl, sym, ap, ◌∙◌, ◌⊎◌, inl, inr,
  ◌==◌, string_eq, length,
}
use sandstorm_monorepo.Common.Number.{JsNumber}
use sandstorm_monorepo.Common.Text.{JsText}
use sandstorm_monorepo.Common.Dict.{set-set}
use sandstorm_monorepo.Common.Io.{change}
use sandstorm_monorepo.Common.Io.Logic.{
  Ends, Keeps, give-Ends, raise-Ends, look-Ends, bind-Ends, then-Ends, on_throw-Ends, or_raise-Ends,
  assume-Ends, relax-Ends, change-Ends, fails-Ends,
}
use sandstorm_monorepo.Core.Sandbox.{SandboxSpec}
use sandstorm_monorepo.Adapters.World.{on_provider, RunStamp}
use sandstorm_monorepo.Adapters.BareMetal.{
  ImageBuilder, build, image_for, provision_with, prepare, run_on_node, run,
}
use sandstorm_monorepo.Adapters.BareMetal.Nodes.{
  BareMetalNode, NodeStatus, available, provisioning, running, error, is_available_status, set_node,
  put_node, freed, first_provisioning, free_provisioning, available_nodes, choose,
}
use sandstorm_monorepo.Adapters.BareMetal.Machine.{Ssh, BareMetalWorld}
use sandstorm_monorepo.Adapters.BareMetal.Pool.{
  IsPool, NoneProvisioning, freed_none, freed_after_set, freed_provisioning, available-set,
  choose_sound,
}
use sandstorm_monorepo.Adapters.BareMetal.Untouched.{
  NodesAre, call-Keeps, provision-Keeps, execute-Keeps,
}

available_of : (s : NodeStatus) → is_available_status s ≡ true → s ≡ available
available_of available e = refl
available_of provisioning e = cc
available_of running e = cc
available_of error e = cc

module _ {A R : Type 0} ⦃n : JsNumber A⦄ ⦃t : JsText A⦄ (ssh : Ssh A R)
    (builder : ImageBuilder R) where
  module _ {nodes : List (String × BareMetalNode A)} where
    build-Keeps :
        (dockerfile : Option String) (requirements : Option (List String))
        → Keeps (NodesAre ssh nodes) (build ssh builder dockerfile requirements)
    build-Keeps none requirements = give-Ends "" (λ w p. p)
    build-Keeps (some dockerfile) requirements = elim (Bool-cases (dockerfile == "")) [
      | inl empty ↦ rw empty (give-Ends "" (λ w p. p))
      | inr text ↦ rw text (
          bind-Ends (call-Keeps ssh _) λ hash.
            bind-Ends (look-Ends _ (λ w p. p))
              λ config. bind-Ends (call-Keeps ssh _) λ pushed. give-Ends hash (λ w p. p))
    ]

    image-Keeps :
        (hash : Option String) (spec : SandboxSpec A)
        → Keeps (NodesAre ssh nodes) (image_for ssh builder hash spec)
    image-Keeps none spec = build-Keeps spec.dockerfile spec.requirements
    image-Keeps (some hash) spec = elim (Bool-cases (hash == "")) [
      | inl empty ↦ rw empty (build-Keeps spec.dockerfile spec.requirements)
      | inr text ↦ rw text (give-Ends hash (λ w p. p))
    ]

    provision_with-Keeps :
        (node : BareMetalNode A) (hash : String)
        → Keeps (NodesAre ssh nodes) (provision_with ssh builder node hash)
    provision_with-Keeps node hash = elim (Bool-cases (hash == "")) [
      | inl empty ↦ rw empty (raise-Ends _ (λ w p. p))
      | inr text ↦
          rw text (then-Ends (provision-Keeps ssh node.id hash) (give-Ends hash (λ w p. p)))
    ]

    prepare-Keeps :
        (node : BareMetalNode A) (spec : SandboxSpec A)
        → Keeps (NodesAre ssh nodes) (prepare ssh builder node spec)
    unfolding prepare
    prepare-Keeps node spec =
        bind-Ends (image-Keeps spec.bootc_hash spec) (provision_with-Keeps node)

  module _ (nodes : List (String × BareMetalNode A)) (spec : SandboxSpec A) where
    abbrev pub provisioned : BareMetalNode A → List (String × BareMetalNode A)
    provisioned node = set_node (record node { status = provisioning }) nodes

    abbrev pub claimed : BareMetalNode A → String → List (String × BareMetalNode A)
    claimed node hash = set_node (record node { status = running; bootc_hash = some hash }) nodes

    -- The node that is chosen runs an image, and no other node has changed.
    pub record Claimed (w : BareMetalWorld ssh) : Type 0 where
      pub node : BareMetalNode A
      pub hash : String
      pub is_chosen : choose spec nodes ≡ some node
      pub now : NodesAre ssh (claimed node hash) w

    -- Where the body of `run` may throw.
    Broken : BareMetalWorld ssh → Type 0
    Broken w =
        NodesAre ssh nodes w
        ⊎ (((node : BareMetalNode A) × (choose spec nodes ≡ some node)
              × NodesAre ssh (provisioned node) w)
            ⊎ Claimed w)

    run_on_node-Ends :
        (stamp : RunStamp A) (work_id : String)
        → Ends
            (NodesAre ssh nodes)
            (run_on_node ssh builder stamp work_id spec)
            (λ _. Claimed)
            Broken
    unfolding run_on_node Broken
    run_on_node-Ends stamp work_id =
        bind-Ends
          (look-Ends _ {Q = λ found w. NodesAre ssh nodes w × (found ≡ choose spec nodes)}
            (λ w p. (p, ap (choose spec) p.nodes_are)))
          λ found. assume-Ends λ e.
            bind-Ends
              (or_raise-Ends {Q = λ node w. NodesAre ssh nodes w × (found ≡ some node)} found _
                (λ _ w p. inl p) (λ node is w p. (p, is)))
              λ node. assume-Ends λ is.
                then-Ends (change-Ends _ λ w p. put (record node { status = provisioning }) p) (
                  bind-Ends
                    (fails-Ends (prepare-Keeps node spec) λ w p. inr (inl (node, sym e ∙ is, p)))
                    λ hash. then-Ends (change-Ends _ λ w p. put_again node hash p) (
                      relax-Ends
                        (fails-Ends
                          (bind-Ends (execute-Keeps ssh work_id node spec)
                            λ result. give-Ends _ (λ w p. p))
                          λ w p. inr (
                            inr (record {
                              node = node;
                              hash = hash;
                              is_chosen = sym e ∙ is;
                              now = p;
                            })))
                        λ _ w p. record {
                          node = node;
                          hash = hash;
                          is_chosen = sym e ∙ is;
                          now = p;
                        }))
      where
        put :
            (node : BareMetalNode A) {w : BareMetalWorld ssh}
            → NodesAre ssh nodes w
            → NodesAre ssh (set_node node nodes) (on_provider (put_node node) w)
        put node p = record { nodes_are = ap (set_node node) p.nodes_are }

        put_again :
            (node : BareMetalNode A) (hash : String) {w : BareMetalWorld ssh}
            → NodesAre ssh (provisioned node) w
            → NodesAre ssh (claimed node hash) (
                on_provider (put_node (record node { status = running; bootc_hash = some hash })) w)
        put_again node hash p = record {
          nodes_are =
              ap (set_node (record node { status = running; bootc_hash = some hash })) p.nodes_are
              ∙ set-set node.id _ _ nodes;
        }

    module _ (pool : IsPool nodes) (idle : NoneProvisioning nodes) where
      free-Ends :
          Ends Broken
            (change (on_provider free_provisioning))
            (λ _ w. NodesAre ssh nodes w ⊎ Claimed w)
            (λ w. NodesAre ssh nodes w ⊎ Claimed w)
      unfolding Broken
      free-Ends = change-Ends _ λ w b. go w b
        where
          go :
              (w : BareMetalWorld ssh)
              → Broken w
              → NodesAre ssh nodes (on_provider free_provisioning w)
                ⊎ Claimed (on_provider free_provisioning w)
          go w (inl p) = inl (record {
            nodes_are =
                ap (λ m. freed (first_provisioning m) m) p.nodes_are ∙ freed_none nodes idle;
          })
          go w (inr (inl (node, chosen, p))) =
              let (there, free, _) = choose_sound spec nodes node pool chosen in
              inl (record {
                nodes_are =
                    ap (λ m. freed (first_provisioning m) m) p.nodes_are
                    ∙ freed_provisioning node nodes idle there (available_of node.status free);
              })
          go w (inr (inr c)) = inr (record {
            node = c.node;
            hash = c.hash;
            is_chosen = c.is_chosen;
            now = record {
              nodes_are =
                  ap (λ m. freed (first_provisioning m) m) c.now.nodes_are
                  ∙ freed_after_set (record c.node { status = running; bootc_hash = some c.hash })
                      nodes idle refl;
            };
          })

      -- From a map of nodes with its keys the nodes' ids and none being provisioned: a run of the bare
      -- metal adapter that returns leaves the first node that is available and meets the specification
      -- running, and every other node as it was; a run that throws leaves the map as it was, or that
      -- same node running.
      pub run-claims :
          (stamp : RunStamp A) (work_id : String)
          → Ends
              (NodesAre ssh nodes)
              (run ssh builder stamp work_id spec)
              (λ _. Claimed)
              (λ w. NodesAre ssh nodes w ⊎ Claimed w)
      unfolding run
      run-claims stamp work_id = on_throw-Ends _ (run_on_node-Ends stamp work_id) free-Ends

      -- A run of the bare metal adapter that returns leaves one available node fewer, from a map of
      -- nodes as it was at the start, with none being provisioned.
      pub run-exhausts :
          (stamp : RunStamp A) (work_id : String)
          → Ends
              (NodesAre ssh nodes)
              (run ssh builder stamp work_id spec)
              (λ _ w.
                suc (length (available_nodes w.provider.active_nodes))
                ≡ length (available_nodes nodes))
              (λ w. NodesAre ssh nodes w ⊎ Claimed w)
      run-exhausts stamp work_id = relax-Ends (run-claims stamp work_id) λ _ w c.
          let (there, free, _) = choose_sound spec nodes c.node pool c.is_chosen in
          ap (λ m. suc (length (available_nodes m))) c.now.nodes_are
          ∙ available-set c.node.id c.node _ nodes there free refl
