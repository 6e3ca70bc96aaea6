-- ===== src/Adapters/Daytona/Restores.antt =====
-- packages/adapters/daytona: what `run` and `runInWorkspace` leave behind.
use sandstorm_monorepo.Common.{
  String, Bool, true, false, not, Option, none, some, List, [], ◌∷◌, ◌≡◌, ◌∙◌, ap, ◌==◌, string_eq,
  ◌⊎◌, inl, inr, Bool-cases,
}
use sandstorm_monorepo.Common.Sublists.{Sublist}
use sandstorm_monorepo.Common.Number.{JsNumber}
use sandstorm_monorepo.Common.Dict.{get, set, delete, delete-set}
use sandstorm_monorepo.Common.Io.{◌>>◌, give, change, only_if}
use sandstorm_monorepo.Common.Io.Logic.{
  Post, Ends, Keeps, give-Ends, look-Ends, bind-Ends, then-Ends, on_throw-Ends, fails-Ends,
  relax-Ends, only_if-Ends,
}
use sandstorm_monorepo.Common.Io.Logic.Loops.{for_each_in-Keeps}
use sandstorm_monorepo.Core.Language.{Language}
use sandstorm_monorepo.Core.Sandbox.{SandboxSpec}
use sandstorm_monorepo.Adapters.World.{call, on_provider, is_true}
use sandstorm_monorepo.Adapters.Leaks.{
  Held, Unended, call-Held, create-Held, end-Held, swallow_end-Held, change-Held, change-Unended,
}
use sandstorm_monorepo.Adapters.Daytona.Tables.{
  DaytonaSdk, DaytonaOptions, DaytonaWorkspace, DaytonaStamp, get_install_command,
}
use sandstorm_monorepo.Adapters.Daytona.{
  DaytonaWorld, workspace_info, install, requirements_of, delete_workspace, run_in, clean_up_after,
  run,
}

-- What the kit documents: no call but `create` starts a workspace, and that one at most the one that
-- it returns; a `destroy` with the id of a workspace that returns has ended it, if the id is not empty.
-- Any call may throw, `destroy` too, and a workspace may end by itself at any time.
pub record IsSdk {A H R : Type 0} (sdk : DaytonaSdk A H R) (live : R → List H) : Type 0 where
  pub create_live :
      (o : DaytonaOptions A) (r : R)
      → Post
          (λ h s. Sublist (live s) (h ∷ live r))
          (λ s. Sublist (live s) (live r))
          (sdk.create o r)
  pub destroy_live : (id : String) (r : R) → Sublist (live (sdk.destroy id r).1) (live r)
  pub destroy_ends :
      (h : H) (l : List H) (r : R)
      → (sdk.id_of h == "") ≡ false
      → Sublist (live r) (h ∷ l)
      → Post (λ _ s. Sublist (live s) l) (λ _. Unit {0}) (sdk.destroy (sdk.id_of h) r)
  pub set_env_live :
      (h : H) (k v : String) (r : R) → Sublist (live (sdk.set_env h k v r).1) (live r)
  pub write_live : (h : H) (p c : String) (r : R) → Sublist (live (sdk.write h p c r).1) (live r)
  pub execute_live : (h : H) (c : String) (r : R) → Sublist (live (sdk.execute h c r).1) (live r)
  pub code_run_live : (h : H) (c : String) (r : R) → Sublist (live (sdk.code_run h c r).1) (live r)

module _ {A H R : Type 0} ⦃n : JsNumber A⦄ (sdk : DaytonaSdk A H R) (live : R → List H) where
  abbrev pub DaytonaHeld : List (String × DaytonaWorkspace A) → List H → DaytonaWorld sdk → Type 0
  DaytonaHeld = Held (λ p. p.active_workspaces) live

  -- A workspace without an id, which cannot be destroyed.
  abbrev pub Nameless : H → Type 0
  Nameless h = (sdk.id_of h == "") ≡ true

  -- The last call of the kit was a `destroy` of the workspace h, and it threw: h may live on.
  abbrev pub Undestroyed :
      List (String × DaytonaWorkspace A) → H → List H → DaytonaWorld sdk → Type 0
  Undestroyed kept h = Unended (λ p. p.active_workspaces) live (sdk.destroy (sdk.id_of h)) kept h

  -- What a run that ends well leaves: a persistent run keeps its workspace h.
  abbrev pub LeftBy :
      Bool
      → DaytonaStamp A
      → SandboxSpec A
      → List (String × DaytonaWorkspace A)
      → List H
      → H
      → DaytonaWorld sdk
      → Type 0
  LeftBy true stamp spec kept on_service h w =
      DaytonaHeld (set stamp.base.id (workspace_info sdk stamp spec h) kept) (h ∷ on_service) w
  LeftBy false stamp spec kept on_service h w =
      DaytonaHeld kept on_service w ⊎ (DaytonaHeld kept (h ∷ on_service) w × Nameless h)

  -- What a run that throws leaves where it had created h: the same as without the run, or h, of which
  -- the `destroy` threw, or, still active, h without an id.
  abbrev pub BrokenBy :
      DaytonaStamp A
      → SandboxSpec A
      → List (String × DaytonaWorkspace A)
      → List H
      → H
      → DaytonaWorld sdk
      → Type 0
  BrokenBy stamp spec kept on_service h w =
      DaytonaHeld kept on_service w
      ⊎ Undestroyed kept h on_service w
      ⊎ (LeftBy true stamp spec kept on_service h w × Nameless h)

  module _ (ok : IsSdk sdk live) {kept : List (String × DaytonaWorkspace A)}
      {on_service : List H} where
    install-Keeps :
        (h : H) (language : Language) (requirements : List String)
        → Keeps (DaytonaHeld kept on_service) (install sdk h language requirements)
    unfolding install
    install-Keeps h language [] = give-Ends tt (λ w p. p)
    install-Keeps h language (x ∷ xs) = by_command (get_install_command language (x ∷ xs))
      where
        by_command :
            (command : Option String)
            → Keeps
                (DaytonaHeld kept on_service)
                (elim command [ none ↦ give tt | some c ↦ call (sdk.execute h c) ])
        by_command none = give-Ends tt (λ w p. p)
        by_command (some c) = call-Held _ _ _ (ok.execute_live h c)

  module _ (ok : IsSdk sdk live) (kept : List (String × DaytonaWorkspace A)) (on_service : List H)
      (stamp : DaytonaStamp A) (spec : SandboxSpec A) (fresh : get stamp.base.id kept ≡ none) where
    deleted :
        (h : H) (p : List (String × DaytonaWorkspace A))
        → p ≡ set stamp.base.id (workspace_info sdk stamp spec h) kept
        → delete stamp.base.id p ≡ kept
    deleted h p e =
        ap (λ m. delete stamp.base.id m) e
        ∙ delete-set stamp.base.id (workspace_info sdk stamp spec h) kept fresh

    destroy-Ends :
        (stateful : Bool) (h : H)
        → Ends
            (LeftBy true stamp spec kept on_service h)
            (only_if (not stateful) (
              call (sdk.destroy (sdk.id_of h))
              >> change (on_provider (delete_workspace sdk stamp.base.id))))
            (λ _. LeftBy stateful stamp spec kept on_service h)
            (LeftBy true stamp spec kept on_service h)
    destroy-Ends true h = only_if-Ends false (λ e. absurd cc) (λ _ w p. p)
    destroy-Ends false h =
        only_if-Ends true (λ _. by_name (Bool-cases (sdk.id_of h == ""))) (λ e. absurd cc)
      where
        by_name :
            ((sdk.id_of h == "") ≡ true) ⊎ ((sdk.id_of h == "") ≡ false)
            → Ends
                (LeftBy true stamp spec kept on_service h)
                (call (sdk.destroy (sdk.id_of h))
                  >> change (on_provider (delete_workspace sdk stamp.base.id)))
                (λ _. LeftBy false stamp spec kept on_service h)
                (LeftBy true stamp spec kept on_service h)
        by_name (inl nameless) = then-Ends (call-Held _ _ _ (ok.destroy_live (sdk.id_of h))) (
            relax-Ends (change-Held _ _ _ λ p e. deleted h p.active_workspaces e)
              λ _ w p. inr (p, nameless))
        by_name (inr named) =
            then-Ends
              (fails-Ends
                (end-Held _ _ h _ (ok.destroy_live (sdk.id_of h))
                  λ r. ok.destroy_ends h on_service r named)
                λ w p. p.held)
              (relax-Ends (change-Held _ _ _ λ p e. deleted h p.active_workspaces e) λ _ w p. inl p)

    run_in-Ends :
        (h : H)
        → Ends
            (DaytonaHeld kept (h ∷ on_service))
            (run_in sdk stamp spec h)
            (λ _. LeftBy (is_true spec.stateful) stamp spec kept on_service h)
            (LeftBy true stamp spec kept on_service h)
    unfolding run_in
    run_in-Ends h =
        then-Ends
          (change-Held _ _ _
            λ p e. ap (λ m. set stamp.base.id (workspace_info sdk stamp spec h) m) e)
          (then-Ends (change-Held _ _ _ λ p e. e) (
            then-Ends
              (for_each_in-Keeps spec.environment
                λ (key, value). call-Held _ _ _ (ok.set_env_live h key value))
              (then-Ends
                (for_each_in-Keeps spec.files
                  λ (path, content). call-Held _ _ _ (ok.write_live h path content))
                (then-Ends
                  (install-Keeps ok h spec.language (requirements_of sdk spec.requirements))
                  (bind-Ends (call-Held _ _ _ (ok.code_run_live h spec.code)) λ output.
                    then-Ends (change-Held _ _ _ λ p e. e) (
                      then-Ends (destroy-Ends (is_true spec.stateful) h)
                        (give-Ends _ (λ w p. p))))))))

    clean_up_after-Ends :
        (h : H)
        → Ends
            (LeftBy true stamp spec kept on_service h)
            (clean_up_after sdk stamp.base.id h)
            (λ _. BrokenBy stamp spec kept on_service h)
            (BrokenBy stamp spec kept on_service h)
    unfolding clean_up_after
    clean_up_after-Ends h = elim (Bool-cases (sdk.id_of h == "")) [
      | inl nameless ↦
          only_if-Ends (not (sdk.id_of h == "")) (λ e. absurd (cc (e, nameless)))
            (λ _ w p. inr (inr (p, nameless)))
      | inr named ↦
          only_if-Ends (not (sdk.id_of h == ""))
            (λ _.
              then-Ends
                (swallow_end-Held _ _ h _ (ok.destroy_live (sdk.id_of h))
                  λ r. ok.destroy_ends h on_service r named)
                (relax-Ends (change-Unended _ _ _ λ p e. deleted h p.active_workspaces e)
                  λ _ w. undestroyed w))
            (λ e. absurd (cc (e, named)))
    ]
      where
        undestroyed :
            (w : DaytonaWorld sdk)
            → DaytonaHeld kept on_service w ⊎ Undestroyed kept h on_service w
            → BrokenBy stamp spec kept on_service h w
        undestroyed w (inl p) = inl p
        undestroyed w (inr p) = inr (inl p)

    -- A run of the Daytona adapter that returns a result has created a workspace h. If the specification
    -- is stateful, the map of active workspaces has h under the run's id, and at most h lives beside the
    -- workspaces from before; otherwise the map is the one from before and at most the workspaces from
    -- before live, or also h if the kit gave it an empty id. A run that throws leaves the map and at most
    -- the workspaces from before; or its last call of the kit was a `destroy` of its workspace h that
    -- threw, and at most h lives besides; or h has an empty id and is left active. The run's id is fresh
    -- and the kit fulfils the named conditions, by which every call may throw.
    pub run-leaves :
        Ends
          (DaytonaHeld kept on_service)
          (run sdk stamp spec)
          (λ _ w. (h : H) × LeftBy (is_true spec.stateful) stamp spec kept on_service h w)
          (λ w. DaytonaHeld kept on_service w ⊎ ((h : H) × BrokenBy stamp spec kept on_service h w))
    unfolding run
    run-leaves =
        on_throw-Ends _
          (bind-Ends (look-Ends _ (λ w p. p)) λ config.
            bind-Ends (fails-Ends (create-Held _ _ _ (ok.create_live _)) λ w p. inl p) λ h.
              on_throw-Ends _ (relax-Ends (run_in-Ends h) λ _ _ left. (h, left)) (
                fails-Ends (relax-Ends (clean_up_after-Ends h) λ _ w p. inr (h, p))
                  λ w p. inr (h, p)))
          (give-Ends tt (λ w p. p))
