-- ===== src/Adapters/Daytona/Workspaces.antt =====
-- packages/adapters/daytona: `runInWorkspace`.
use sandstorm_monorepo.Common.{
  String, true, Option, none, some, List, ◌∷◌, ◌≡◌, refl, ap, ◌∙◌, string_eq, arith, ◌⊎◌,
}
use sandstorm_monorepo.Common.Number.{JsNumber}
use sandstorm_monorepo.Common.Dict.{get, set, get-set}
use sandstorm_monorepo.Common.Io.Logic.{
  Ends, look-Ends, bind-Ends, then-Ends, or_raise-Ends, assume-Ends,
}
use sandstorm_monorepo.Core.Sandbox.{SandboxSpec}
use sandstorm_monorepo.Adapters.World.{updated, update}
use sandstorm_monorepo.Adapters.Leaks.{change-Held}
use sandstorm_monorepo.Adapters.Daytona.Tables.{DaytonaSdk, DaytonaWorkspace, DaytonaStamp}
use sandstorm_monorepo.Adapters.Daytona.{workspace_info, run_in_workspace}
use sandstorm_monorepo.Adapters.Daytona.Restores.{IsSdk, DaytonaHeld, BrokenBy, run-leaves}

update-none :
    {V : Type 0} (k j : String) (f : V → V) (m : List (String × V))
    → get j m ≡ none
    → get j (update k f m) ≡ none
update-none {V} k j f m h = by_value (get k m) refl
  where
    by_value : (o : Option V) → get k m ≡ o → get j (updated k f o m) ≡ none
    by_value none e = h
    by_value (some v) e = ground (arith, e, h, get-set k j (f v) m, string_eq.beq_iff k j)

module _ {A H R : Type 0} ⦃n : JsNumber A⦄ (sdk : DaytonaSdk A H R) (live : R → List H)
    (ok : IsSdk sdk live) where
  module _ (kept : List (String × DaytonaWorkspace A)) (on_service : List H)
      (stamp : DaytonaStamp A) (spec : SandboxSpec A) (fresh : get stamp.base.id kept ≡ none) where
    -- The active workspaces, with a new date for one of them.
    abbrev pub touched : String → String → List (String × DaytonaWorkspace A)
    touched now workspace_id = update workspace_id (λ w. record w { last_activity = now }) kept

    abbrev pub lasting : SandboxSpec A
    lasting = record spec { stateful = some true }

    -- Running code in a workspace that the provider has only gives that workspace a new date, and then
    -- does as a stateful run: if it returns, the map has another workspace h, which the run has created,
    -- under the run's id, and at most h lives beside the workspaces from before. If it throws, the map has
    -- the new date, and the rest is as after a run that throws. The run's id is fresh and the kit fulfils
    -- the named conditions, by which every call may throw.
    pub run_in_workspace-creates :
        (now workspace_id : String) (workspace : DaytonaWorkspace A)
        → get workspace_id kept ≡ some workspace
        → Ends
            (DaytonaHeld sdk live kept on_service)
            (run_in_workspace sdk stamp now workspace_id spec)
            (λ _ w.
              (h : H) × DaytonaHeld sdk live
                (set stamp.base.id (workspace_info sdk stamp lasting h) (touched now workspace_id))
                (h ∷ on_service)
                w)
            (λ w.
              DaytonaHeld sdk live (touched now workspace_id) on_service w
              ⊎ ((h : H) × BrokenBy sdk live stamp lasting
                    (touched now workspace_id)
                    on_service
                    h
                    w))
    unfolding run_in_workspace
    run_in_workspace-creates now workspace_id workspace there =
        bind-Ends
          (look-Ends _
            {Q = λ found w. DaytonaHeld sdk live kept on_service w × (found ≡ some workspace)}
            (λ w p. (p, ap (λ m. get workspace_id m) p.active_is ∙ there)))
          λ found. assume-Ends λ e.
            bind-Ends
              (or_raise-Ends {Q = λ _. DaytonaHeld sdk live kept on_service} found _
                (λ missing w p. absurd (cc (e, missing))) (λ _ _ w p. p))
              λ _.
                then-Ends
                  (change-Held _ _ _ λ p same.
                    ap (λ m. update workspace_id (λ w. record w { last_activity = now }) m) same)
                  (run-leaves sdk live ok _ on_service stamp lasting
                    (update-none workspace_id stamp.base.id _ kept fresh))
