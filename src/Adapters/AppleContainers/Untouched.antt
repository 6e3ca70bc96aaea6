-- ===== src/Adapters/AppleContainers/Untouched.antt =====
-- packages/adapters/apple-containers: what keeps the active sandboxes and the containers of the host.
use sandstorm_monorepo.Common.{
  String, true, false, Option, none, some, List, [], ◌∷◌, ◌≡◌, string_eq,
}
use sandstorm_monorepo.Common.Sublists.{Sublist}
use sandstorm_monorepo.Common.Number.{JsNumber}
use sandstorm_monorepo.Common.Text.{JsText, trim}
use sandstorm_monorepo.Common.Dict.{get}
use sandstorm_monorepo.Common.Io.Logic.{
  Post, Keeps, give-Ends, raise-Ends, look-Ends, bind-Ends, then-Ends, on_throw-Ends, assume-Ends,
}
use sandstorm_monorepo.Common.Io.Logic.Loops.{for_each-Keeps}
use sandstorm_monorepo.Core.Sandbox.{SandboxSpec}
use sandstorm_monorepo.Adapters.Leaks.{Held, call-Held}
use sandstorm_monorepo.Adapters.AppleContainers.Commands.{get_install_commands}
use sandstorm_monorepo.Adapters.AppleContainers.{
  Host, ExecEnd, ended, failed, SandboxInstance, AppleWorld, container, pull_image, prepare_code,
  requirements_of, install_dependencies, outcome, execute_code, clean_up_instance, clean_up_after,
}

-- What the container program documents of the containers that live on the host: no call but `create`
-- adds one, and that one at most the one of which it prints the id, which may be empty; an `rm -f` that succeeds has ended
-- its container. Any call may throw, `rm -f` too, and a container may end by itself.
pub record IsHost {A R : Type 0} (host : Host A R) (live : R → List String) : Type 0 where
  pub create_live :
      (path : String) (args : List String) (r : R)
      → Post
          (λ out s. Sublist (live s) (trim out ∷ live r))
          (λ s. Sublist (live s) (live r))
          (host.execa path ("create" ∷ args) r)
  pub rm_live :
      (path : String) (args : List String) (r : R)
      → Sublist (live (host.execa path ("rm" ∷ args) r).1) (live r)
  pub rm_ends :
      (path id : String) (l : List String) (r : R)
      → Sublist (live r) (id ∷ l)
      → Post (λ _ s. Sublist (live s) l) (λ _. Unit {0}) (host.execa path ("rm" ∷ "-f" ∷ id ∷ []) r)
  pub start_live :
      (path : String) (args : List String) (r : R)
      → Sublist (live (host.execa path ("start" ∷ args) r).1) (live r)
  pub image_live :
      (path : String) (args : List String) (r : R)
      → Sublist (live (host.execa path ("image" ∷ args) r).1) (live r)
  pub cp_live :
      (path : String) (args : List String) (r : R)
      → Sublist (live (host.execa path ("cp" ∷ args) r).1) (live r)
  pub exec_live :
      (path : String) (args : List String) (r : R)
      → Sublist (live (host.execa path ("exec" ∷ args) r).1) (live r)
  pub timeout_live :
      (path : String) (args : List String) (timeout : A) (r : R)
      → Sublist (live (host.exec_timeout path args timeout r).1) (live r)
  pub make_dir_live : (d : String) (r : R) → Sublist (live (host.make_dir d r).1) (live r)
  pub write_file_live : (f c : String) (r : R) → Sublist (live (host.write_file f c r).1) (live r)
  pub remove_dir_live : (d : String) (r : R) → Sublist (live (host.remove_dir d r).1) (live r)

module _ {A R : Type 0} ⦃n : JsNumber A⦄ ⦃t : JsText A⦄ (host : Host A R)
    (live : R → List String) where
  abbrev pub AppleHeld : List (String × SandboxInstance) → List String → AppleWorld host → Type 0
  AppleHeld = Held (λ p. p.active_sandboxes) live

  module _ (ok : IsHost host live) {kept : List (String × SandboxInstance)}
      {on_host : List String} where
    pub container-Keeps :
        (args : List String)
        → ((path : String) (r : R) → Sublist (live (host.execa path args r).1) (live r))
        → Keeps (AppleHeld kept on_host) (container host args)
    unfolding container
    container-Keeps args law =
        bind-Ends (look-Ends _ (λ w p. p)) λ config. call-Held _ _ _ (law config.container_path)

    pub pull-Keeps : (image : String) → Keeps (AppleHeld kept on_host) (pull_image host image)
    unfolding pull_image
    pull-Keeps image =
        on_throw-Ends _
          (bind-Ends (container-Keeps _ λ path r. ok.image_live path _ r)
            λ _. give-Ends tt (λ w p. p))
          (give-Ends tt (λ w p. p))

    pub prepare-Keeps :
        (tmp id : String) (spec : SandboxSpec A)
        → Keeps (AppleHeld kept on_host) (prepare_code host tmp id spec)
    unfolding prepare_code
    prepare-Keeps tmp id spec =
        then-Ends (call-Held _ _ _ (ok.make_dir_live _))
          (then-Ends (call-Held _ _ _ (ok.write_file_live _ _)) (give-Ends _ (λ w p. p)))

    pub outcome-Keeps :
        (timeout : A) (e : ExecEnd A) → Keeps (AppleHeld kept on_host) (outcome host timeout e)
    outcome-Keeps timeout (ended stdout stderr) = give-Ends _ (λ w p. p)
    outcome-Keeps timeout (failed true stdout stderr code) = raise-Ends _ (λ w p. p)
    outcome-Keeps timeout (failed false stdout stderr code) = give-Ends _ (λ w p. p)

    pub execute-Keeps :
        (id : String) (spec : SandboxSpec A) (file : String)
        → Keeps (AppleHeld kept on_host) (execute_code host id spec file)
    unfolding execute_code install_dependencies
    execute-Keeps id spec file =
        bind-Ends (container-Keeps _ λ path r. ok.cp_live path _ r) λ copied.
          then-Ends
            (for_each-Keeps
              (get_install_commands spec.language (requirements_of host spec.requirements))
              λ command.
                bind-Ends (container-Keeps _ λ path r. ok.exec_live path _ r)
                  λ _. give-Ends tt (λ w p. p))
            (bind-Ends (look-Ends _ (λ w p. p))
              λ config. bind-Ends (call-Held _ _ _ (ok.timeout_live _ _ _)) λ e. outcome-Keeps _ e)

  -- The map lacks the id: there is nothing to clean up.
  pub nothing-Keeps :
      {P : AppleWorld host → Type 0} (id : String)
      → ((w : AppleWorld host) → P w → get id w.provider.active_sandboxes ≡ none)
      → Keeps P (clean_up_after host id)
  unfolding clean_up_after
  nothing-Keeps {P} id lacks =
      bind-Ends (look-Ends _ {Q = λ found w. P w × (found ≡ none)} (λ w p. (p, lacks w p)))
        λ found. assume-Ends λ e. by_found found e
    where
      by_found :
          (found : Option SandboxInstance)
          → found ≡ none
          → Keeps P (clean_up_instance host id found)
      by_found none e = give-Ends tt (λ w p. p)
      by_found (some x) e = absurd (cc e)
