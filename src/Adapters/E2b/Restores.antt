-- ===== src/Adapters/E2b/Restores.antt =====
-- packages/adapters/e2b: what `run` leaves behind.
use sandstorm_monorepo.Common.{
  String, Option, none, some, List, ◌∷◌, ◌≡◌, ◌∙◌, ap, ◌==◌, string_eq, ◌++◌, [], ◌⊎◌, inl, inr,
  Bool-cases,
}
use sandstorm_monorepo.Common.Sublists.{Sublist}
use sandstorm_monorepo.Common.Number.{JsNumber}
use sandstorm_monorepo.Common.Dict.{get, set, delete, delete-set}
use sandstorm_monorepo.Common.Text.{◌+s◌}
use sandstorm_monorepo.Common.Io.{◌>>=◌, change}
use sandstorm_monorepo.Common.Io.Logic.{
  Post, Ends, Keeps, give-Ends, look-Ends, bind-Ends, then-Ends, on_throw-Ends, relax-Ends,
  fails-Ends,
}
use sandstorm_monorepo.Common.Io.Logic.Loops.{for_each_in-Keeps, collect-Keeps}
use sandstorm_monorepo.Core.Sandbox.{SandboxSpec}
use sandstorm_monorepo.Adapters.World.{call, on_provider, RunStamp}
use sandstorm_monorepo.Adapters.Leaks.{
  Held, Unended, call-Held, create-Held, end-Held, swallow_end-Held, change-Held, change-Unended,
}
use sandstorm_monorepo.Adapters.E2b.{
  E2bSdk, E2bWorld, E2bSandboxMetrics, Artifact, install, read_path, read_artifact, artifacts,
  run_in, clean_up_after, run, change_metrics, map_language,
}

-- What the kit documents of the sandboxes that live on the service: no call but `create` starts one,
-- and `create` at most the one that it returns; a `close` that returns has ended its sandbox. Any call
-- may throw, `close` too, and a sandbox may end by itself at any time.
pub record IsSdk {A H R : Type 0} (sdk : E2bSdk A H R) (live : R → List H) : Type 0 where
  pub create_live :
      (t : A) (r : R)
      → Post
          (λ h s. Sublist (live s) (h ∷ live r))
          (λ s. Sublist (live s) (live r))
          (sdk.create t r)
  pub close_live : (h : H) (r : R) → Sublist (live (sdk.close h r).1) (live r)
  pub close_ends :
      (h : H) (l : List H) (r : R)
      → Sublist (live r) (h ∷ l)
      → Post (λ _ s. Sublist (live s) l) (λ _. Unit {0}) (sdk.close h r)
  pub run_code_live : (h : H) (c : String) (r : R) → Sublist (live (sdk.run_code h c r).1) (live r)
  pub write_live : (h : H) (p c : String) (r : R) → Sublist (live (sdk.write h p c r).1) (live r)
  pub read_live : (h : H) (p : String) (r : R) → Sublist (live (sdk.read h p r).1) (live r)

module _ {A H R : Type 0} ⦃n : JsNumber A⦄ (sdk : E2bSdk A H R) (live : R → List H) where
  abbrev pub E2bHeld : List (String × H) → List H → E2bWorld sdk → Type 0
  E2bHeld = Held (λ p. p.active_sandboxes) live

  -- The last call of the kit was a `close` of a sandbox h, and it threw: h may live on.
  abbrev pub Unclosed : List (String × H) → List H → E2bWorld sdk → Type 0
  Unclosed kept on_service w =
      (h : H) × Unended (λ p. p.active_sandboxes) live (sdk.close h) kept h on_service w

  module _ (ok : IsSdk sdk live) where
    module _ {kept : List (String × H)} {on_service : List H} where
      metrics-Keeps :
          (id : String) (f : E2bSandboxMetrics A → E2bSandboxMetrics A)
          → Keeps (E2bHeld kept on_service) (change (on_provider (change_metrics sdk id f)))
      metrics-Keeps id f = change-Held _ _ _ λ p e. e

      install-Keeps :
          (id : String) (h : H) (language requirement : String)
          → Keeps (E2bHeld kept on_service) (install sdk id h language requirement)
      unfolding install
      install-Keeps id h language requirement = elim (Bool-cases (language == "python")) [
        | inl python ↦ rw python (install_with "!pip install ")
        | inr other ↦ elim (Bool-cases (language == "js")) [
          | inl js ↦ rw (other, js) (install_with "!npm install ")
          | inr neither ↦ rw (other, neither) (give-Ends tt (λ w p. p))
        ]
      ]
        where
          install_with :
              (command : String)
              → Keeps (E2bHeld kept on_service) (
                  call (sdk.run_code h (command +s requirement)) >>= λ _. change (
                    on_provider (
                      change_metrics sdk id (λ m. record m {
                        packages_installed = m.packages_installed ++ requirement ∷ [];
                      }))))
          install_with command =
              bind-Ends (call-Held _ _ _ (ok.run_code_live h _)) λ _. metrics-Keeps id _

      read_path-Keeps :
          (h : H) (path : Option String) → Keeps (E2bHeld kept on_service) (read_path sdk h path)
      read_path-Keeps h none = give-Ends none (λ w p. p)
      read_path-Keeps h (some path) = elim (Bool-cases (path == "")) [
        | inl empty ↦ rw empty (give-Ends none (λ w p. p))
        | inr text ↦ rw text (
            bind-Ends (call-Held _ _ _ (ok.read_live h path))
              λ content. give-Ends (some (path, content)) (λ w p. p))
      ]

      read_artifact-Keeps :
          (h : H) (a : Artifact) → Keeps (E2bHeld kept on_service) (read_artifact sdk h a)
      unfolding read_artifact
      read_artifact-Keeps h a = elim (Bool-cases (a.kind == "file")) [
        | inl file ↦ rw file (read_path-Keeps h a.path)
        | inr other ↦ rw other (give-Ends none (λ w p. p))
      ]

    module _ {kept : List (String × H)} {on_service : List H} where
      run_in-Ends :
          (stamp : RunStamp A) (spec : SandboxSpec A) (h : H)
          → get stamp.id kept ≡ none
          → Ends
              (E2bHeld kept (h ∷ on_service))
              (run_in sdk stamp spec h)
              (λ _. E2bHeld kept on_service)
              (E2bHeld (set stamp.id h kept) (h ∷ on_service))
      unfolding run_in
      run_in-Ends stamp spec h fresh =
          then-Ends (change-Held _ _ _ λ p e. ap (λ m. set stamp.id h m) e) (
            then-Ends (change-Held _ _ _ λ p e. e) (
              then-Ends
                (for_each_in-Keeps spec.environment λ (key, value).
                  bind-Ends (call-Held _ _ _ (ok.run_code_live h _)) λ _. give-Ends tt (λ w p. p))
                (then-Ends
                  (for_each_in-Keeps spec.files λ (path, content).
                    then-Ends (call-Held _ _ _ (ok.write_live h path content))
                      (metrics-Keeps stamp.id _))
                  (then-Ends
                    (for_each_in-Keeps spec.requirements
                      (install-Keeps stamp.id h (map_language spec.language)))
                    (bind-Ends (call-Held _ _ _ (ok.run_code_live h spec.code)) λ execution.
                      bind-Ends
                        (collect-Keeps (artifacts sdk execution.results) (read_artifact-Keeps h))
                        λ files. then-Ends (metrics-Keeps stamp.id _) (
                          then-Ends
                            (fails-Ends
                              (end-Held _ _ h _ (ok.close_live h) (ok.close_ends h on_service))
                              λ w p. p.held)
                            (then-Ends
                              (change-Held _ _ _ λ p e.
                                ap (λ m. delete stamp.id m) e ∙ delete-set stamp.id h kept fresh)
                              (give-Ends _ (λ w p. p)))))))))

      unclosed :
          (h : H) (w : E2bWorld sdk)
          → E2bHeld kept on_service w
            ⊎ Unended (λ p. p.active_sandboxes) live (sdk.close h) kept h on_service w
          → E2bHeld kept on_service w ⊎ Unclosed kept on_service w
      unclosed h w (inl p) = inl p
      unclosed h w (inr p) = inr (h, p)

      clean_up_after-Ends :
          (id : String) (h : H)
          → get id kept ≡ none
          → Ends
              (E2bHeld (set id h kept) (h ∷ on_service))
              (clean_up_after sdk id h)
              (λ _ w. E2bHeld kept on_service w ⊎ Unclosed kept on_service w)
              (λ w. E2bHeld kept on_service w ⊎ Unclosed kept on_service w)
      unfolding clean_up_after
      clean_up_after-Ends id h fresh =
          then-Ends (swallow_end-Held _ _ h _ (ok.close_live h) (ok.close_ends h on_service)) (
            relax-Ends
              (change-Unended _ _ _ λ p e. ap (λ m. delete id m) e ∙ delete-set id h kept fresh)
              λ _ w. unclosed h w)

      -- A run of the E2B adapter that returns leaves the map of active sandboxes from before the run, and
      -- on the service at most the sandboxes that lived there before. A run that throws, at whichever of
      -- its calls of the kit, does so too, unless its last call was a `close` that threw itself: then the
      -- map is the one from before, and beside the sandboxes from before at most the one of that `close`
      -- lives. The id is fresh and the kit fulfils the named conditions, by which `close` may throw and a
      -- sandbox may end by its timeout.
      pub run-restores :
          (stamp : RunStamp A) (spec : SandboxSpec A)
          → get stamp.id kept ≡ none
          → Ends
              (E2bHeld kept on_service)
              (run sdk stamp spec)
              (λ _. E2bHeld kept on_service)
              (λ w. E2bHeld kept on_service w ⊎ Unclosed kept on_service w)
      unfolding run
      run-restores stamp spec fresh =
          on_throw-Ends _
            (bind-Ends (look-Ends _ (λ w p. p)) λ timeout.
              bind-Ends (fails-Ends (create-Held _ _ _ (ok.create_live timeout)) λ w p. inl p) λ h.
                on_throw-Ends _ (run_in-Ends stamp spec h fresh)
                  (clean_up_after-Ends stamp.id h fresh))
            (give-Ends tt (λ w p. p))
