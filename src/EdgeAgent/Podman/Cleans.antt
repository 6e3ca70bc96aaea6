-- ===== src/EdgeAgent/Podman/Cleans.antt =====
-- packages/edge-agent/src/adapters/podman.ts: how a run ends on the host.
use sandstorm_monorepo.Common.{String, ◌≡◌, ◌⊎◌}
use sandstorm_monorepo.Common.Number.{JsNumber}
use sandstorm_monorepo.Common.Text.{◌+s◌, JsText}
use sandstorm_monorepo.Common.Io.{Answer}
use sandstorm_monorepo.Common.Io.Logic.{Threw}
use sandstorm_monorepo.EdgeAgent.Podman.{PodmanHost}

module _ {A R : Type 0} ⦃n : JsNumber A⦄ ⦃t : JsText A⦄ (host : PodmanHost A R) where
  -- The state r after the directory was removed, or could not be, and after the stop command.
  abbrev pub without_dir : String → R → R
  without_dir dir r = (host.remove_dir dir r).1

  abbrev pub stop : String → R → Answer String × R
  stop id r = host.exec_async ("podman stop " +s id +s " || true") r

  abbrev pub remove : String → R → Answer String × R
  remove id r = host.exec_async ("podman rm " +s id +s " || true") r

  -- The last calls of the host: the directory's removal, the stop command and, unless that one threw,
  -- the command that removes the container.
  abbrev pub CleanedUp : String → String → R → Type 0
  CleanedUp dir id s =
      (r : R) × ((Threw (stop id (without_dir dir r)).0 × (s ≡ (stop id (without_dir dir r)).1))
        ⊎ ((s ≡ (remove id (stop id (without_dir dir r)).1).1)
            × (Threw (stop id (without_dir dir r)).0 → ⊥)))

  abbrev Removed : String → R → Type 0
  Removed dir s = (r : R) × (s ≡ without_dir dir r)

  abbrev Stopped : String → String → R → Type 0
  Stopped dir id s =
      (r : R) × ((s ≡ (stop id (without_dir dir r)).1)
        × (Threw (stop id (without_dir dir r)).0 → ⊥))
