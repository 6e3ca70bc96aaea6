-- ===== src/Adapters/BareMetal/Pool.antt =====
-- packages/adapters/bare-metal: the map of nodes. Its keys are the nodes' ids, each once.
use mathlib.Core.List.Memᴰ
use sandstorm_monorepo.Common.{
  suc, String, true, false, Bool-cases, none, some, List, [], ◌∷◌, Memᴰ, ◌≡◌, refl, sym, ap, ◌∙◌,
  inl, inr, ◌==◌, string_eq, arith, length, filter, head?, All, mem-filter_sound,
}
use sandstorm_monorepo.Common.Number.{JsNumber}
use sandstorm_monorepo.Common.Dict.{get, set, values, get-set, set-set, set-get}
use sandstorm_monorepo.Core.Sandbox.{SandboxSpec}
use sandstorm_monorepo.Adapters.BareMetal.Nodes.{
  BareMetalNode, BareMetalConfig, available, provisioning, is_available_status,
  is_provisioning_status, set_node, set_all, new_provider, freed, first_provisioning,
  available_nodes, meets, choose,
}

head?_sound : {B : Type 0} {b : B} (xs : List B) → head? xs ≡ some b → Memᴰ b xs
head?_sound [] h = absurd (cc h)
head?_sound (x ∷ xs) h = Memᴰ.head (ground (arith, h))

module _ {A : Type 0} where
  abbrev pub IsPool : List (String × BareMetalNode A) → Type 0
  IsPool [] = Unit
  IsPool ((k, node) ∷ nodes) = (node.id ≡ k) × (get k nodes ≡ none) × IsPool nodes

  abbrev pub NoneProvisioning : List (String × BareMetalNode A) → Type 0
  NoneProvisioning nodes =
      All (λ (node : BareMetalNode A). is_provisioning_status node.status ≡ false) (values nodes)

  pub set_node-IsPool :
      (node : BareMetalNode A) (nodes : List (String × BareMetalNode A))
      → IsPool nodes
      → IsPool (set_node node nodes)
  set_node-IsPool node [] h = (refl, refl, tt)
  set_node-IsPool node ((k, v) ∷ nodes) (same, once, rest) = elim (Bool-cases (k == node.id)) [
    | inl e ↦ rw e (sym ((string_eq.beq_iff k node.id).0 e), once, rest)
    | inr e ↦ rw e (
      same,
      ground (
        arith,
        get-set node.id k node nodes,
        string_eq.beq_iff k node.id,
        string_eq.beq_iff node.id k,
      ),
      set_node-IsPool node nodes rest,
    )
  ]

  set_all-IsPool :
      (list : List (BareMetalNode A)) (nodes : List (String × BareMetalNode A))
      → IsPool nodes
      → IsPool (set_all list nodes)
  set_all-IsPool [] nodes h = h
  set_all-IsPool (node ∷ rest) nodes h =
      set_all-IsPool rest (set_node node nodes) (set_node-IsPool node nodes h)

  pub new_provider-IsPool : (config : BareMetalConfig A) → IsPool (new_provider config).active_nodes
  new_provider-IsPool config = set_all-IsPool config.nodes [] tt

  -- A node of the map is the one under its id.
  get_of_mem :
      (node : BareMetalNode A) (nodes : List (String × BareMetalNode A))
      → IsPool nodes
      → Memᴰ node (values nodes)
      → get node.id nodes ≡ some node
  get_of_mem node [] h m = absurd (Memᴰ.not-nil m)
  get_of_mem node ((k, v) ∷ nodes) (same, once, rest) m = elim (Memᴰ.cases_cons m) [
    | inl e ↦ rw e (ground (arith, same, (string_eq.beq_iff k v.id).1 (sym same)))
    | inr later ↦
        let there = get_of_mem node nodes rest later in
        ground (arith, there, once, string_eq.beq_iff k node.id)
  ]

  -- A change of the map's node under an id that is there.
  set-first_provisioning :
      (k : String) (node : BareMetalNode A) (nodes : List (String × BareMetalNode A))
      → NoneProvisioning nodes
      → is_provisioning_status node.status ≡ true
      → first_provisioning (set k node nodes) ≡ some node
  set-first_provisioning k node [] h e = rw e
  set-first_provisioning k node ((j, v) ∷ nodes) (h, hs) e = elim (Bool-cases (j == k)) [
    | inl same ↦ rw (same, e) refl
    | inr other ↦ rw (other, h) (set-first_provisioning k node nodes hs e)
  ]

  no_first_provisioning :
      (nodes : List (String × BareMetalNode A))
      → NoneProvisioning nodes
      → first_provisioning nodes ≡ none
  no_first_provisioning [] h = refl
  no_first_provisioning ((k, v) ∷ nodes) (h, hs) = rw h (no_first_provisioning nodes hs)

  set-NoneProvisioning :
      (k : String) (node : BareMetalNode A) (nodes : List (String × BareMetalNode A))
      → NoneProvisioning nodes
      → is_provisioning_status node.status ≡ false
      → NoneProvisioning (set k node nodes)
  set-NoneProvisioning k node [] h e = (e, tt)
  set-NoneProvisioning k node ((j, v) ∷ nodes) (h, hs) e = elim (Bool-cases (j == k)) [
    | inl same ↦ rw same (e, hs)
    | inr other ↦ rw other (h, set-NoneProvisioning k node nodes hs e)
  ]

  -- What the `catch` does where nothing is being provisioned, and where the node is that was available.
  pub freed_none :
      (nodes : List (String × BareMetalNode A))
      → NoneProvisioning nodes
      → freed (first_provisioning nodes) nodes ≡ nodes
  freed_none nodes h = rw (no_first_provisioning nodes h) refl

  pub freed_after_set :
      (node : BareMetalNode A) (nodes : List (String × BareMetalNode A))
      → NoneProvisioning nodes
      → is_provisioning_status node.status ≡ false
      → freed (first_provisioning (set_node node nodes)) (set_node node nodes) ≡ set_node node nodes
  freed_after_set node nodes h e =
      freed_none (set_node node nodes) (set-NoneProvisioning node.id node nodes h e)

  pub freed_provisioning :
      (node : BareMetalNode A) (nodes : List (String × BareMetalNode A))
      → NoneProvisioning nodes
      → get node.id nodes ≡ some node
      → node.status ≡ available
      → (let claimed = set_node (record node { status = provisioning }) nodes in
          freed (first_provisioning claimed) claimed ≡ nodes)
  freed_provisioning node nodes h there e =
      let claimed = record node { status = provisioning } in
      rw (set-first_provisioning node.id claimed nodes h refl) (
        set-set node.id (record node { status = available }) claimed nodes
        ∙ ap (λ s. set node.id (record node { status = s }) nodes) (sym e)
        ∙ set-get node.id node nodes there)

  -- One node fewer is available when an available one changes its status.
  pub available-set :
      (k : String) (old node : BareMetalNode A) (nodes : List (String × BareMetalNode A))
      → get k nodes ≡ some old
      → is_available_status old.status ≡ true
      → is_available_status node.status ≡ false
      → suc (length (available_nodes (set k node nodes))) ≡ length (available_nodes nodes)
  available-set k old node [] there o e = cc
  available-set k old node ((j, v) ∷ nodes) there o e = elim (Bool-cases (j == k)) [
    | inl same ↦ let eq : v ≡ old = ground (arith, there, same) in rw (same, eq, o, e) refl
    | inr other ↦
        let rest = available-set k old node nodes (ground (arith, there, other)) o e in
        elim (Bool-cases (is_available_status v.status)) [
          | inl free ↦ rw (other, free) (ap suc rest)
          | inr taken ↦ rw (other, taken) rest
        ]
  ]

module _ {A : Type 0} ⦃n : JsNumber A⦄ where
  pub choose_sound :
      (spec : SandboxSpec A) (nodes : List (String × BareMetalNode A)) (node : BareMetalNode A)
      → IsPool nodes
      → choose spec nodes ≡ some node
      → (get node.id nodes ≡ some node)
        × (is_available_status node.status ≡ true)
        × (meets spec node ≡ true)
  choose_sound spec nodes node h e =
      let (m, suits) = mem-filter_sound (meets spec) (available_nodes nodes) (head?_sound _ e) in
      let (k, free) = mem-filter_sound _ (values nodes) m in
      (get_of_mem node nodes h k, free, suits)

  -- Where no node is chosen, none that is available meets the requirements.
  pub choose_complete :
      (spec : SandboxSpec A) (nodes : List (String × BareMetalNode A))
      → choose spec nodes ≡ none
      → filter (meets spec) (available_nodes nodes) ≡ []
  choose_complete spec nodes e =
      elim (filter (meets spec) (available_nodes nodes)) as (λ l. head? l ≡ none → l ≡ []) [
        | [] ↦ λ _. refl
        | x ∷ xs ↦ λ h. absurd (cc h)
      ]
        e
