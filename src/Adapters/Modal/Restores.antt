-- ===== src/Adapters/Modal/Restores.antt =====
-- packages/adapters/modal: what `run` leaves behind.
use sandstorm_monorepo.Common.{
  String, Option, none, some, List, [], ◌∷◌, ◌≡◌, refl, ◌∙◌, ap, string_eq, ◌⊎◌, inl, inr,
}
use sandstorm_monorepo.Common.Sublists.{Sublist}
use sandstorm_monorepo.Common.Number.{JsNumber}
use sandstorm_monorepo.Common.Dict.{get, set, delete, delete-set}
use sandstorm_monorepo.Common.Io.{Answer}
use sandstorm_monorepo.Common.Io.Logic.{
  Post, Ends, Keeps, give-Ends, look-Ends, bind-Ends, then-Ends, on_throw-Ends, relax-Ends,
  fails-Ends, succeeds-Keeps, or_raise-Keeps,
}
use sandstorm_monorepo.Common.Io.Logic.Loops.{for_each_in-Keeps}
use sandstorm_monorepo.Core.Language.{Language}
use sandstorm_monorepo.Core.Sandbox.{SandboxSpec}
use sandstorm_monorepo.Adapters.World.{RunStamp}
use sandstorm_monorepo.Adapters.Leaks.{
  Held, Unended, call-Held, create-Held, end-Held, swallow_end-Held, change-Held, change-Unended,
}
use sandstorm_monorepo.Adapters.Modal.{
  ModalSdk, ModalOptions, ModalWorld, is_available, app_or_raise, ready_app, get_image_for_language,
  shell_line, install_by, install, text_of, run_in, clean_up_after, run,
}
use sandstorm_monorepo.Adapters.Modal.Commands.{get_install_command}

-- What the kit documents: no call but `create_sandbox` starts a sandbox, and that one at most the one
-- that it returns; a `terminate` that returns has ended its sandbox. Any call may throw, `terminate`
-- too, and a sandbox may end by itself at any time, as by its timeout.
pub record IsSdk {A App Image H Process R : Type 0} (sdk : ModalSdk A App Image H Process R)
    (live : R → List H) : Type 0 where
  pub create_live :
      (app : App) (i : Image) (o : ModalOptions A) (r : R)
      → Post
          (λ h s. Sublist (live s) (h ∷ live r))
          (λ s. Sublist (live s) (live r))
          (sdk.create_sandbox app i o r)
  pub terminate_live : (h : H) (r : R) → Sublist (live (sdk.terminate h r).1) (live r)
  pub terminate_ends :
      (h : H) (l : List H) (r : R)
      → Sublist (live r) (h ∷ l)
      → Post (λ _ s. Sublist (live s) l) (λ _. Unit {0}) (sdk.terminate h r)
  pub lookup_live : (name : String) (r : R) → Sublist (live (sdk.lookup name r).1) (live r)
  pub image_live :
      (app : App) (name : String) (r : R)
      → Sublist (live (sdk.image_from_registry app name r).1) (live r)
  pub exec_live : (h : H) (c : List String) (r : R) → Sublist (live (sdk.exec h c r).1) (live r)
  pub wait_live : (p : Process) (r : R) → Sublist (live (sdk.wait p r).1) (live r)
  pub stdout_live :
      (p : Process) (read : R → Answer String × R)
      → sdk.stdout p ≡ some read
      → (r : R) → Sublist (live (read r).1) (live r)
  pub stderr_live :
      (p : Process) (read : R → Answer String × R)
      → sdk.stderr p ≡ some read
      → (r : R) → Sublist (live (read r).1) (live r)

module _ {A App Image H Process R : Type 0} ⦃n : JsNumber A⦄
    (sdk : ModalSdk A App Image H Process R) (live : R → List H) where
  abbrev pub ModalHeld : List (String × H) → List H → ModalWorld sdk → Type 0
  ModalHeld = Held (λ p. p.active_sandboxes) live

  -- The last call of the kit was a `terminate` of a sandbox h, and it threw: h may live on.
  abbrev pub Unterminated : List (String × H) → List H → ModalWorld sdk → Type 0
  Unterminated kept on_service w =
      (h : H) × Unended (λ p. p.active_sandboxes) live (sdk.terminate h) kept h on_service w

  module _ (ok : IsSdk sdk live) {kept : List (String × H)} {on_service : List H} where
    app-Keeps : Keeps (ModalHeld kept on_service) (app_or_raise sdk)
    app-Keeps = bind-Ends (look-Ends _ (λ w p. p)) λ app. or_raise-Keeps app _

    is_available-Keeps : Keeps (ModalHeld kept on_service) (is_available sdk)
    unfolding is_available
    is_available-Keeps = succeeds-Keeps (
        bind-Ends (look-Ends _ (λ w p. p)) λ config.
          bind-Ends (call-Held _ _ _ (ok.lookup_live config.workspace))
            λ app. change-Held _ _ _ λ p e. e)

    ready_app-Keeps : (known : Option App) → Keeps (ModalHeld kept on_service) (ready_app sdk known)
    unfolding ready_app
    ready_app-Keeps (some app) = give-Ends app (λ w p. p)
    ready_app-Keeps none = bind-Ends is_available-Keeps λ _. app-Keeps

    image-Keeps :
        (language : Language)
        → Keeps (ModalHeld kept on_service) (get_image_for_language sdk language)
    unfolding get_image_for_language
    image-Keeps language =
        bind-Ends app-Keeps
          λ app. bind-Ends (look-Ends _ (λ w p. p)) λ config. call-Held _ _ _ (ok.image_live app _)

    shell_line-Keeps :
        (h : H) (line : String) → Keeps (ModalHeld kept on_service) (shell_line sdk h line)
    shell_line-Keeps h line =
        bind-Ends (call-Held _ _ _ (ok.exec_live h _)) λ _. give-Ends tt (λ w p. p)

    install_by-Keeps :
        (h : H) (command : Option (List String))
        → Keeps (ModalHeld kept on_service) (install_by sdk h command)
    install_by-Keeps h none = give-Ends tt (λ w p. p)
    install_by-Keeps h (some command) =
        bind-Ends (call-Held _ _ _ (ok.exec_live h command))
          λ process. bind-Ends (call-Held _ _ _ (ok.wait_live process)) λ _. give-Ends tt (λ w p. p)

    install-Keeps :
        (h : H) (language : Language) (requirements : Option (List String))
        → Keeps (ModalHeld kept on_service) (install sdk h language requirements)
    install-Keeps h language none = give-Ends tt (λ w p. p)
    install-Keeps h language (some []) = give-Ends tt (λ w p. p)
    install-Keeps h language (some (r ∷ rs)) =
        install_by-Keeps h (get_install_command language (r ∷ rs))

    text-Keeps :
        (o : Option (R → Answer String × R))
        → ((read : R → Answer String × R)
            → o ≡ some read
            → (r : R) → Sublist (live (read r).1) (live r))
        → Keeps (ModalHeld kept on_service) (text_of sdk o)
    text-Keeps none law = give-Ends "" (λ w p. p)
    text-Keeps (some read) law = call-Held _ _ _ (law read refl)

  module _ (ok : IsSdk sdk live) (kept : List (String × H)) (on_service : List H)
      (stamp : RunStamp A) (temp : String) (spec : SandboxSpec A)
      (fresh : get stamp.id kept ≡ none) where
    run_in-Ends :
        (h : H)
        → Ends
            (ModalHeld kept (h ∷ on_service))
            (run_in sdk stamp temp spec h)
            (λ _. ModalHeld kept on_service)
            (ModalHeld (set stamp.id h kept) (h ∷ on_service))
    unfolding run_in
    run_in-Ends h = then-Ends (change-Held _ _ _ λ p e. ap (λ m. set stamp.id h m) e) (
        then-Ends (change-Held _ _ _ λ p e. e) (
          then-Ends (for_each_in-Keeps spec.environment λ (key, value). shell_line-Keeps ok h _) (
            then-Ends (for_each_in-Keeps spec.files λ (path, content). shell_line-Keeps ok h _) (
              then-Ends (install-Keeps ok h spec.language spec.requirements) (
                bind-Ends (call-Held _ _ _ (ok.exec_live h _)) λ process.
                  bind-Ends (text-Keeps ok _ (ok.stdout_live process)) λ stdout.
                    bind-Ends (text-Keeps ok _ (ok.stderr_live process)) λ stderr.
                      bind-Ends (call-Held _ _ _ (ok.wait_live process)) λ exit_code.
                        then-Ends (change-Held _ _ _ λ p e. e) (
                          then-Ends
                            (fails-Ends
                              (end-Held _ _ h _ (ok.terminate_live h)
                                (ok.terminate_ends h on_service))
                              λ w p. p.held)
                            (then-Ends
                              (change-Held _ _ _ λ p e.
                                ap (λ m. delete stamp.id m) e ∙ delete-set stamp.id h kept fresh)
                              (give-Ends _ (λ w p. p)))))))))

    unterminated :
        (h : H) (w : ModalWorld sdk)
        → ModalHeld kept on_service w
          ⊎ Unended (λ p. p.active_sandboxes) live (sdk.terminate h) kept h on_service w
        → ModalHeld kept on_service w ⊎ Unterminated kept on_service w
    unterminated h w (inl p) = inl p
    unterminated h w (inr p) = inr (h, p)

    clean_up_after-Ends :
        (h : H)
        → Ends
            (ModalHeld (set stamp.id h kept) (h ∷ on_service))
            (clean_up_after sdk stamp.id h)
            (λ _ w. ModalHeld kept on_service w ⊎ Unterminated kept on_service w)
            (λ w. ModalHeld kept on_service w ⊎ Unterminated kept on_service w)
    unfolding clean_up_after
    clean_up_after-Ends h =
        then-Ends (swallow_end-Held _ _ h _ (ok.terminate_live h) (ok.terminate_ends h on_service))
          (relax-Ends
            (change-Unended _ _ _
              λ p e. ap (λ m. delete stamp.id m) e ∙ delete-set stamp.id h kept fresh)
            λ _ w. unterminated h w)

    -- A run of the Modal adapter that returns, with an app that was there or is looked up first, leaves
    -- the map of active sandboxes from before the run, and on the service at most the sandboxes that
    -- lived there before. A run that throws does so too, unless its last call was a `terminate` that
    -- threw itself: then beside the sandboxes from before at most the one of that call lives. The id is
    -- fresh and the kit fulfils the named conditions, by which `terminate` may throw and a sandbox may
    -- end by its timeout.
    pub modal_run-restores :
        Ends
          (ModalHeld kept on_service)
          (run sdk stamp temp spec)
          (λ _. ModalHeld kept on_service)
          (λ w. ModalHeld kept on_service w ⊎ Unterminated kept on_service w)
    unfolding run
    modal_run-restores =
        on_throw-Ends _
          (bind-Ends (look-Ends _ (λ w p. p)) λ known.
            bind-Ends (fails-Ends (ready_app-Keeps ok known) λ w p. inl p) λ app.
              bind-Ends (fails-Ends (image-Keeps ok spec.language) λ w p. inl p) λ image.
                bind-Ends (look-Ends _ (λ w p. p)) λ config.
                  bind-Ends
                    (fails-Ends (create-Held _ _ _ (ok.create_live app image _)) λ w p. inl p)
                    λ h. on_throw-Ends _ (run_in-Ends h) (clean_up_after-Ends h))
          (give-Ends tt (λ w p. p))
