-- ===== src/Adapters/Tests/Kits.antt =====
-- packages/adapters: kits of services whose state is the list of what lives on them.
use sandstorm_monorepo.Common.{
  ℕ, String, true, Option, none, some, List, [], ◌∷◌, refl, subst, ◌⊎◌, if◌then◌else◌, ◌==◌,
  string_eq, length,
}
use sandstorm_monorepo.Common.Number.{micro}
use sandstorm_monorepo.Common.Io.{Answer, thrown, returned, error_of}
use sandstorm_monorepo.Common.Io.Logic.{Post, Ends}
use sandstorm_monorepo.Common.Sublists.{Sublist, keep, skip, all_of, Sublist-trans}
use sandstorm_monorepo.Common.Dict.{set}
use sandstorm_monorepo.Core.Sandbox.{SandboxSpec}
use sandstorm_monorepo.Adapters.E2b.{E2bSdk, run as run_e2b}
use sandstorm_monorepo.Adapters.E2b.Restores.{IsSdk as IsE2b, E2bHeld, Unclosed, run-restores}
use sandstorm_monorepo.Adapters.Daytona.Tables.{
  DaytonaSdk, DaytonaWorkspace, DaytonaStamp, ready, python_template,
}
use sandstorm_monorepo.Adapters.Daytona.{run as run_daytona, run_in_workspace, workspace_info}
use sandstorm_monorepo.Adapters.Daytona.Restores.{
  IsSdk as IsDaytona, DaytonaHeld, LeftBy, BrokenBy, run-leaves,
}
use sandstorm_monorepo.Adapters.Daytona.Workspaces.{run_in_workspace-creates}
use sandstorm_monorepo.Adapters.Modal.{ModalSdk, run as run_modal}
use sandstorm_monorepo.Adapters.Modal.Restores.{
  IsSdk as IsModal, ModalHeld, Unterminated, modal_run-restores,
}
use sandstorm_monorepo.Adapters.AppleContainers.{Host, ended, run as run_apple}
use sandstorm_monorepo.Adapters.AppleContainers.Untouched.{IsHost, AppleHeld}
use sandstorm_monorepo.Adapters.AppleContainers.Restores.{apple_run-restores, Cleaned, Leaked}
use sandstorm_monorepo.Adapters.AppleContainers.Rejects.{apple_run-throws}
use sandstorm_monorepo.Adapters.Tests.{digits, stamp, one_file}

-- A service's state: what lives on it, the newest first.
abbrev create : List ℕ → Answer ℕ × List ℕ
create r = (returned (length r), length r ∷ r)

abbrev end : {K : Type 0} → List K → Answer (Unit {0}) × List K
end [] = (thrown (error_of "not found"), [])
end (x ∷ r) = (returned tt, r)

end_keeps : {K : Type 0} (r : List K) → Sublist (end r).1 r
end_keeps [] = all_of []
end_keeps (x ∷ r) = skip x (all_of r)

-- The one that is ended is the newest.
end_ends :
    {K : Type 0} (h : K) (l r : List K)
    → Sublist r (h ∷ l)
    → Post (λ _ s. Sublist s l) (λ _. Unit {0}) (end r)
end_ends h l [] s = tt
end_ends h l (x ∷ r) (keep _ s) = s
end_ends h l (x ∷ r) (skip _ s) = Sublist-trans _ _ _ (skip x (all_of r)) s

abbrev done : {B S : Type 0} → B → S → Answer B × S
done b r = (returned b, r)

abbrev e2b_sdk : E2bSdk ℕ ℕ (List ℕ)
e2b_sdk = record {
  create = λ t. create;
  close = λ h. end;
  run_code = λ h c. done (record { results = none; text = some "1"; error = none; logs = none });
  write = λ h p c r. (thrown (error_of "disk quota"), r);
  read = λ h p. done "";
  list = λ h p. done [];
}

e2b_sdk-IsE2b : IsE2b e2b_sdk (λ r. r)
e2b_sdk-IsE2b = record {
  create_live = λ t r. all_of (length r ∷ r);
  close_live = λ h r. end_keeps r;
  close_ends = λ h l r e. end_ends h l r e;
  run_code_live = λ h c r. all_of r;
  write_live = λ h p c r. all_of r;
  read_live = λ h p r. all_of r;
}

run-restores_example :
    Ends
      (E2bHeld e2b_sdk (λ r. r) (("old", 7) ∷ []) (7 ∷ []))
      (run_e2b e2b_sdk stamp one_file)
      (λ _. E2bHeld e2b_sdk (λ r. r) (("old", 7) ∷ []) (7 ∷ []))
      (λ w.
        E2bHeld e2b_sdk (λ r. r) (("old", 7) ∷ []) (7 ∷ []) w
        ⊎ Unclosed e2b_sdk (λ r. r) (("old", 7) ∷ []) (7 ∷ []) w)
run-restores_example = run-restores e2b_sdk (λ r. r) e2b_sdk-IsE2b stamp one_file refl

abbrev daytona_sdk : DaytonaSdk ℕ ℕ (List ℕ)
daytona_sdk = record {
  create = λ o. create;
  id_of = λ h. "w";
  destroy = λ id. end;
  set_env = λ h k v. done tt;
  write = λ h p c. done tt;
  execute = λ h c. done tt;
  code_run = λ h c. done (record { result = some "1"; error = none; logs = none });
}

daytona_sdk-IsDaytona : IsDaytona daytona_sdk (λ r. r)
daytona_sdk-IsDaytona = record {
  create_live = λ o r. all_of (length r ∷ r);
  destroy_live = λ id r. end_keeps r;
  destroy_ends = λ h l r named e. end_ends h l r e;
  set_env_live = λ h k v r. all_of r;
  write_live = λ h p c r. all_of r;
  execute_live = λ h c r. all_of r;
  code_run_live = λ h c r. all_of r;
}

abbrev daytona_stamp : DaytonaStamp ℕ
daytona_stamp = record {
  base = stamp;
  created_at = "2025";
  last_activity = "2025";
  random = 500000;
}

abbrev stateful_spec : SandboxSpec ℕ
stateful_spec = record one_file { stateful = some true }

run-leaves_example :
    Ends
      (DaytonaHeld daytona_sdk (λ r. r) [] [])
      (run_daytona daytona_sdk daytona_stamp stateful_spec)
      (λ _ w. (h : ℕ) × LeftBy daytona_sdk (λ r. r) true daytona_stamp stateful_spec [] [] h w)
      (λ w.
        DaytonaHeld daytona_sdk (λ r. r) [] [] w
        ⊎ ((h : ℕ) × BrokenBy daytona_sdk (λ r. r) daytona_stamp stateful_spec [] [] h w))
run-leaves_example =
    run-leaves daytona_sdk (λ r. r) daytona_sdk-IsDaytona [] [] daytona_stamp stateful_spec refl

abbrev workspace : DaytonaWorkspace ℕ
workspace = record {
  id = "w";
  name = "mine";
  status = ready;
  template = python_template;
  created_at = "2024";
  last_activity = "2024";
  cpu = 2000000;
  memory = 2048000000;
  disk = 10240000000;
}

abbrev touched_workspace : List (String × DaytonaWorkspace ℕ)
touched_workspace = ("w", record workspace { last_activity = "2025" }) ∷ []

run_in_workspace-creates_example :
    Ends
      (DaytonaHeld daytona_sdk (λ r. r) (("w", workspace) ∷ []) (0 ∷ []))
      (run_in_workspace daytona_sdk daytona_stamp "2025" "w" one_file)
      (λ _ w.
        (h : ℕ) × DaytonaHeld daytona_sdk
          (λ r. r)
          (set "run1" (workspace_info daytona_sdk daytona_stamp stateful_spec h) touched_workspace)
          (h ∷ 0 ∷ [])
          w)
      (λ w.
        DaytonaHeld daytona_sdk (λ r. r) touched_workspace (0 ∷ []) w
        ⊎ ((h : ℕ) × BrokenBy daytona_sdk
              (λ r. r)
              daytona_stamp
              stateful_spec
              touched_workspace
              (0 ∷ [])
              h
              w))
run_in_workspace-creates_example =
    run_in_workspace-creates daytona_sdk (λ r. r) daytona_sdk-IsDaytona (("w", workspace) ∷ [])
      (0 ∷ []) daytona_stamp one_file refl "2025" "w" workspace refl

abbrev modal_sdk : ModalSdk ℕ ℕ ℕ ℕ ℕ (List ℕ)
modal_sdk = record {
  lookup = λ name. done 1;
  image_from_registry = λ app name. done 2;
  create_sandbox = λ app image o. create;
  exec = λ h c. done 3;
  stdout = λ p. some (done "1");
  stderr = λ p. none;
  wait = λ p. done 0;
  terminate = λ h. end;
}

modal_sdk-IsModal : IsModal modal_sdk (λ r. r)
modal_sdk-IsModal = record {
  create_live = λ app i o r. all_of (length r ∷ r);
  terminate_live = λ h r. end_keeps r;
  terminate_ends = λ h l r e. end_ends h l r e;
  lookup_live = λ name r. all_of r;
  image_live = λ app name r. all_of r;
  exec_live = λ h c r. all_of r;
  wait_live = λ p r. all_of r;
  stdout_live = λ p read e r.
      subst (λ (o : Option (List ℕ → Answer String × List ℕ)). Sublist (after r o) r) e (all_of r);
  stderr_live = λ p read e. absurd (cc e);
}
  where
    after : List ℕ → Option (List ℕ → Answer String × List ℕ) → List ℕ
    after r none = r
    after r (some read) = (read r).1

modal_run-restores_example :
    Ends
      (ModalHeld modal_sdk (λ r. r) [] [])
      (run_modal modal_sdk stamp "t1" one_file)
      (λ _. ModalHeld modal_sdk (λ r. r) [] [])
      (λ w. ModalHeld modal_sdk (λ r. r) [] [] w ⊎ Unterminated modal_sdk (λ r. r) [] [] w)
modal_run-restores_example =
    modal_run-restores modal_sdk (λ r. r) modal_sdk-IsModal [] [] stamp "t1" one_file refl

-- The container program, by its first argument.
abbrev container_program : List String → List String → Answer String × List String
container_program [] r = done "" r
container_program (command ∷ args) r =
    if command == "create"
    then (returned "c1\n", "c1" ∷ r)
    else if command == "rm"
    then removed (end r)
    else if command == "start"
    then (thrown (error_of "no kernel"), r)
    else done "" r
  where
    removed : Answer (Unit {0}) × List String → Answer String × List String
    removed (thrown e, s) = (thrown e, s)
    removed (returned _, s) = (returned "", s)

abbrev host : Host ℕ (List String)
host = record {
  execa = λ path. container_program;
  exec_status = λ path args. done (some 0);
  exec_timeout = λ path args timeout. done (ended "1" "");
  make_dir = λ d. done tt;
  write_file = λ f c. done tt;
  remove_dir = λ d. done tt;
  describe = λ e. "Error";
}

host-IsHost : IsHost host (λ r. r)
host-IsHost = record {
  create_live = λ path args r. all_of ("c1" ∷ r);
  rm_live = λ path args r. rm_live args r;
  rm_ends = λ path id l r e. rm_ends id l r e;
  start_live = λ path args r. all_of r;
  image_live = λ path args r. all_of r;
  cp_live = λ path args r. all_of r;
  exec_live = λ path args r. all_of r;
  timeout_live = λ path args timeout r. all_of r;
  make_dir_live = λ d r. all_of r;
  write_file_live = λ f c r. all_of r;
  remove_dir_live = λ d r. all_of r;
}
  where
    rm_live : (args r : List String) → Sublist (container_program ("rm" ∷ args) r).1 r
    rm_live args [] = all_of []
    rm_live args (x ∷ r) = skip x (all_of r)

    rm_ends :
        (id : String) (l r : List String)
        → Sublist r (id ∷ l)
        → Post (λ _ s. Sublist s l) (λ _. Unit {0}) (container_program ("rm" ∷ "-f" ∷ id ∷ []) r)
    rm_ends id l [] e = tt
    rm_ends id l (x ∷ r) e = end_ends id l (x ∷ r) e

apple_run-restores_example :
    Ends
      (AppleHeld host (λ r. r) [] [])
      (run_apple host stamp "/tmp" "t1" one_file)
      (λ _. Cleaned host (λ r. r) host-IsHost [] [] stamp "/tmp" "t1" one_file refl)
      (λ w.
        Cleaned host (λ r. r) host-IsHost [] [] stamp "/tmp" "t1" one_file refl w
        ⊎ Leaked host (λ r. r) host-IsHost [] [] stamp "/tmp" "t1" one_file refl w)
apple_run-restores_example =
    apple_run-restores host (λ r. r) host-IsHost [] [] stamp "/tmp" "t1" one_file refl

abbrev gpu_spec : SandboxSpec ℕ
gpu_spec = record one_file { gpu = some true }

apple_run-throws_example :
    Ends (λ _. Unit {0}) (run_apple host stamp "/tmp" "t1" gpu_spec) (λ _ _. ⊥) (λ _. Unit {0})
apple_run-throws_example = apple_run-throws host gpu_spec refl stamp "/tmp" "t1"
