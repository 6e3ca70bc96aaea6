-- ===== src/Adapters/AppleContainers/Restores.antt =====
-- packages/adapters/apple-containers: what `run` leaves behind.
use sandstorm_monorepo.Common.{
  String, false, Option, none, some, List, [], ◌∷◌, ◌≡◌, refl, ap, ◌∙◌, ◌⊎◌, inl, inr, Bool, true,
  not, Bool-cases, ◌==◌, string_eq, arith,
}
use sandstorm_monorepo.Common.Sublists.{Sublist, keep, Sublist-trans}
use sandstorm_monorepo.Common.Number.{JsNumber}
use sandstorm_monorepo.Common.Text.{JsText, trim}
use sandstorm_monorepo.Common.Dict.{get, set, delete, get-set, delete-set}
use sandstorm_monorepo.Common.Io.{Answer, thrown, returned, swallow}
use sandstorm_monorepo.Common.Io.Logic.{
  Post, Ends, give-Ends, look-Ends, bind-Ends, then-Ends, on_throw-Ends, swallow-Ends, only_if-Ends,
  relax-Ends, fails-Ends, assume-Ends, either-Ends, settle-Keeps, state-Ends,
}
use sandstorm_monorepo.Core.Provider.{apple_containers}
use sandstorm_monorepo.Core.Sandbox.{SandboxSpec}
use sandstorm_monorepo.Adapters.World.{RunStamp, call}
use sandstorm_monorepo.Adapters.Leaks.{
  Unended, Refused, call-Held, end-Held, refuse-Held, change-Held, call-Ends,
}
use sandstorm_monorepo.Adapters.AppleContainers.{
  Host, SandboxInstance, AppleWorld, container, create_container, cleanup_sandbox, run_in,
  remove_code, clean_up_instance, clean_up_after, run,
}
use sandstorm_monorepo.Adapters.AppleContainers.Untouched.{
  IsHost, AppleHeld, pull-Keeps, prepare-Keeps, execute-Keeps, nothing-Keeps,
}

true_of_refuted : (b : Bool) → not b ≡ false → b ≡ true
true_of_refuted true e = refl
true_of_refuted false e = absurd cc

module _ {A R : Type 0} ⦃n : JsNumber A⦄ ⦃t : JsText A⦄ (host : Host A R)
    (live : R → List String) where
  module _ (ok : IsHost host live) (kept : List (String × SandboxInstance)) (on_host : List String)
      (stamp : RunStamp A) (tmp temp_id : String) (spec : SandboxSpec A)
      (fresh : get stamp.id kept ≡ none) where
    abbrev own_instance : String → SandboxInstance
    own_instance container_id = record {
      id = stamp.id;
      provider = apple_containers;
      container_id = container_id;
    }

    abbrev With : String → AppleWorld host → Type 0
    With container_id =
        AppleHeld host live (set stamp.id (own_instance container_id) kept) (container_id ∷ on_host)

    abbrev remove_by : String → String → R → Answer String × R
    remove_by path container_id = host.execa path ("rm" ∷ "-f" ∷ container_id ∷ [])

    -- A container that was created, and of which the last call of the host, to start it, threw: it may
    -- stay on the host, and the map does not know it.
    abbrev pub Leaked : AppleWorld host → Type 0
    Leaked w =
        (container_id : String) × (path : String) × Unended (λ p. p.active_sandboxes) live
          (host.execa path ("start" ∷ container_id ∷ [])) kept container_id on_host w

    -- The last call of the host was an `rm -f` of a container, and it threw; or only the directory of
    -- the code was removed after it.
    abbrev pub Last : String → R → Type 0
    Last container_id s =
        (path : String) × (Refused (remove_by path container_id) s
          ⊎ ((dir : String) × (r : R) × Refused (remove_by path container_id) r
              × ((host.remove_dir dir r).1 ≡ s)))

    -- A container that may stay on the host since `rm -f` threw.
    abbrev pub Unremoved : AppleWorld host → Type 0
    Unremoved w =
        (container_id : String) × AppleHeld host live kept (container_id ∷ on_host) w
        × Last container_id w.remote

    -- A container of which the host printed an empty id, which is never removed: it may stay on the host,
    -- and where the run throws also in the map.
    abbrev pub Unnamed : AppleWorld host → Type 0
    Unnamed w =
        (container_id : String) × (((container_id == "") ≡ true)
          × (AppleHeld host live kept (container_id ∷ on_host) w ⊎ With container_id w))

    -- What is left where the cleanup was run.
    abbrev pub Cleaned : AppleWorld host → Type 0
    Cleaned w = AppleHeld host live kept on_host w ⊎ Unremoved w ⊎ Unnamed w

    created-Ends :
        (args : List String)
        → Ends
            (AppleHeld host live kept on_host)
            (container host ("create" ∷ args))
            (λ out. AppleHeld host live kept (trim out ∷ on_host))
            (AppleHeld host live kept on_host)
    unfolding container
    created-Ends args =
        bind-Ends (look-Ends _ (λ w p. p))
          λ config. call-Ends _ λ w p. go w _ p (ok.create_live config.container_path args w.remote)
      where
        go :
            (w : AppleWorld host) (r : Answer String × R)
            → AppleHeld host live kept on_host w
            → Post
                (λ out s. Sublist (live s) (trim out ∷ live w.remote))
                (λ s. Sublist (live s) (live w.remote))
                r
            → Post
                (λ out s. AppleHeld host live kept (trim out ∷ on_host) (record w { remote = s }))
                (λ s. AppleHeld host live kept on_host (record w { remote = s }))
                r
        go w (thrown e, s) p less = record {
          active_is = p.active_is;
          at_most = Sublist-trans _ _ _ less p.at_most;
        }
        go w (returned out, s) p more = record {
          active_is = p.active_is;
          at_most = Sublist-trans _ _ _ more (keep (trim out) p.at_most);
        }

    started-Ends :
        (container_id : String)
        → Ends
            (AppleHeld host live kept (container_id ∷ on_host))
            (container host ("start" ∷ container_id ∷ []))
            (λ _. AppleHeld host live kept (container_id ∷ on_host))
            Leaked
    unfolding container
    started-Ends container_id = bind-Ends (look-Ends _ (λ w p. p)) λ config.
        fails-Ends (refuse-Held _ _ container_id _ λ r. ok.start_live config.container_path _ r)
          λ w p. (container_id, config.container_path, p)

    create-Ends :
        (image : String)
        → Ends
            (AppleHeld host live kept on_host)
            (create_container host stamp.id spec image)
            (λ container_id. AppleHeld host live kept (container_id ∷ on_host))
            (λ w. AppleHeld host live kept on_host w ⊎ Leaked w)
    unfolding create_container
    create-Ends image = bind-Ends (look-Ends _ (λ w p. p)) λ config.
        bind-Ends (fails-Ends (created-Ends _) λ w p. inl p) λ out.
          bind-Ends (fails-Ends (started-Ends (trim out)) λ w p. inr p)
            λ started. give-Ends _ (λ w p. p)

    -- Where the body of `run` may throw, beside what is left at the end.
    abbrev Broken : AppleWorld host → Type 0
    Broken w = (container_id : String) × With container_id w

    -- The container is gone, or its removal was the last call.
    abbrev Removed : String → AppleWorld host → Type 0
    Removed container_id w =
        AppleHeld host live kept on_host w
        ⊎ ((path : String) × Unended (λ p. p.active_sandboxes) live (remove_by path container_id)
              kept container_id on_host w)

    remove_container-Ends :
        (container_id : String)
        → Ends
            (AppleHeld host live kept (container_id ∷ on_host))
            (container host ("rm" ∷ "-f" ∷ container_id ∷ []))
            (λ _. Removed container_id)
            (Removed container_id)
    unfolding container
    remove_container-Ends container_id = bind-Ends (look-Ends _ (λ w p. p)) λ config.
        relax-Ends
          (fails-Ends
            (end-Held _ _ container_id _ (λ r. ok.rm_live config.container_path _ r)
              (ok.rm_ends config.container_path container_id on_host))
            λ w p. inr (config.container_path, p))
          λ _ w p. inl p

    Removed-Cleaned :
        (container_id : String) (w : AppleWorld host) → Removed container_id w → Cleaned w
    Removed-Cleaned container_id w (inl p) = inl p
    Removed-Cleaned container_id w (inr (path, p)) =
        inr (inl (container_id, p.held, (path, inl p.at_fault)))

    remove_dir-Ends :
        (container_id dir : String) {E : AppleWorld host → Type 0}
        → Ends (Removed container_id) (swallow (call (host.remove_dir dir))) (λ _. Cleaned) E
    unfolding call
    remove_dir-Ends container_id dir = swallow-Ends (state-Ends go)
      where
        go :
            (w : AppleWorld host)
            → Removed container_id w
            → Cleaned (call (host.remove_dir dir) w).1
        go w (inl p) = inl (record {
          active_is = p.active_is;
          at_most = Sublist-trans _ _ _ (ok.remove_dir_live dir w.remote) p.at_most;
        })
        go w (inr (path, p)) = inr (
            inl (
              container_id,
              record {
                active_is = p.held.active_is;
                at_most = Sublist-trans _ _ _ (ok.remove_dir_live dir w.remote) p.held.at_most;
              },
              (path, inr (dir, w.remote, p.at_fault, refl)),
            ))

    remove_code-Ends :
        (container_id : String) (file : Option String) {E : AppleWorld host → Type 0}
        → Ends (Removed container_id) (remove_code host file) (λ _. Cleaned) E
    remove_code-Ends container_id none = give-Ends tt (Removed-Cleaned container_id)
    remove_code-Ends container_id (some file) =
        only_if-Ends _ (λ _. remove_dir-Ends container_id _) (λ _. Removed-Cleaned container_id)

    keep_code-Ends :
        {E : AppleWorld host → Type 0} (container_id : String) (file : Option String)
        → Ends
            (AppleHeld host live kept (container_id ∷ on_host))
            (remove_code host file)
            (λ _. AppleHeld host live kept (container_id ∷ on_host))
            E
    keep_code-Ends container_id none = give-Ends tt (λ w p. p)
    keep_code-Ends container_id (some file) =
        only_if-Ends _ (λ _. swallow-Ends (call-Held _ _ _ (ok.remove_dir_live _))) (λ _ w p. p)

    cleanup-Ends :
        {E : AppleWorld host → Type 0} (container_id : String) (file : Option String)
        → Ends
            (With container_id)
            (cleanup_sandbox host stamp.id container_id file)
            (λ _. Cleaned)
            E
    unfolding cleanup_sandbox
    cleanup-Ends container_id file =
        then-Ends
          (change-Held _ _ _ λ p e.
            ap (λ m. delete stamp.id m) e
            ∙ delete-set stamp.id (own_instance container_id) kept fresh)
          (elim (Bool-cases (container_id == "")) [
            | inl unnamed ↦
                then-Ends
                  (only_if-Ends (not (container_id == "")) (λ e. absurd (cc (e, unnamed)))
                    (λ _ w p. p))
                  (relax-Ends (keep_code-Ends container_id file)
                    λ _ w p. inr (inr (container_id, (unnamed, inl p))))
            | inr named ↦
                then-Ends
                  (only_if-Ends (not (container_id == ""))
                    (λ _. swallow-Ends (remove_container-Ends container_id))
                    (λ e. absurd (cc (e, named))))
                  (remove_code-Ends container_id file)
          ])

    run_in-Ends :
        (container_id : String)
        → Ends
            (AppleHeld host live kept (container_id ∷ on_host))
            (run_in host stamp tmp temp_id spec container_id)
            (λ _. Cleaned)
            (With container_id)
    unfolding run_in
    run_in-Ends container_id =
        then-Ends (change-Held _ _ _ λ p e. ap (λ m. set stamp.id (own_instance container_id) m) e)
          (bind-Ends (prepare-Keeps host live ok tmp temp_id spec) λ file.
            bind-Ends (execute-Keeps host live ok container_id spec file) λ result.
              bind-Ends (look-Ends _ (λ w p. p)) λ config.
                bind-Ends (settle-Keeps _) λ cost.
                  then-Ends (cleanup-Ends container_id (some file)) (give-Ends _ (λ w p. p)))

    own_cleanup-Ends :
        (container_id : String)
        → Ends (With container_id) (clean_up_after host stamp.id) (λ _. Cleaned) Cleaned
    unfolding clean_up_after
    own_cleanup-Ends container_id =
        bind-Ends
          (look-Ends _
            {Q = λ found w. With container_id w × (found ≡ some (own_instance container_id))}
            (λ w p. (p, ap (λ m. get stamp.id m) p.active_is ∙ get-own)))
          λ found. assume-Ends λ e. by_found found e
      where
        get-own :
            get stamp.id (set stamp.id (own_instance container_id) kept)
            ≡ some (own_instance container_id)
        get-own =
            let same = (string_eq.beq_iff stamp.id stamp.id).1 refl in
            get-set stamp.id stamp.id (own_instance container_id) kept ∙ rw same refl

        by_found :
            (found : Option SandboxInstance)
            → found ≡ some (own_instance container_id)
            → Ends
                (With container_id)
                (clean_up_instance host stamp.id found)
                (λ _. Cleaned)
                Cleaned
        by_found none e = absurd (cc e)
        by_found (some x) e =
            let same : x ≡ own_instance container_id = ground (arith, e) in
            rw same (
              only_if-Ends (not (container_id == "")) (λ _. cleanup-Ends container_id none)
                (λ unnamed w p.
                  inr (inr (container_id, (true_of_refuted (container_id == "") unnamed, inr p)))))

    lacks :
        (w : AppleWorld host)
        → w.provider.active_sandboxes ≡ kept
        → get stamp.id w.provider.active_sandboxes ≡ none
    lacks w e = ap (λ m. get stamp.id m) e ∙ fresh

    lacks_own :
        (w : AppleWorld host)
        → AppleHeld host live kept on_host w ⊎ Leaked w
        → get stamp.id w.provider.active_sandboxes ≡ none
    lacks_own w (inl p) = lacks w p.active_is
    lacks_own w (inr (c, path, p)) = lacks w p.held.active_is

    unstarted :
        (w : AppleWorld host) → AppleHeld host live kept on_host w ⊎ Leaked w → Cleaned w ⊎ Leaked w
    unstarted w (inl p) = inl (inl p)
    unstarted w (inr p) = inr p

    -- After a run of the Apple Containers adapter, whether it returns or throws, the active sandboxes are
    -- those from before, and on the host are at most the containers from before, but in three cases. One
    -- container more may be there, since an `rm -f` of it threw, with at most the removal of a directory
    -- after it: `run` swallows that error. Or one of which `create` printed an empty id, which may then
    -- be in the map too. Or, where the run throws, one of which the last call, to start it, threw. The
    -- run's id is fresh, and the container program fulfils the named conditions.
    pub apple_run-restores :
        Ends
          (AppleHeld host live kept on_host)
          (run host stamp tmp temp_id spec)
          (λ _. Cleaned)
          (λ w. Cleaned w ⊎ Leaked w)
    unfolding run
    apple_run-restores =
        on_throw-Ends {F = λ w. (AppleHeld host live kept on_host w ⊎ Leaked w) ⊎ Broken w} _
          (then-Ends (fails-Ends (pull-Keeps host live ok _) λ w p. inl (inl p)) (
            bind-Ends (fails-Ends (create-Ends _) λ w p. inl p)
              λ container_id. fails-Ends (run_in-Ends container_id) λ w p. inr (container_id, p)))
          (either-Ends
            (fails-Ends
              (relax-Ends (nothing-Keeps host live stamp.id lacks_own) λ _ w p. unstarted w p)
              unstarted)
            (record {
              run = λ w (container_id, p).
                  (fails-Ends (relax-Ends (own_cleanup-Ends container_id) λ _ w p. inl p)
                      λ w p. inl p).run
                    w p;
            }))
