-- ===== src/EdgeAgent/Podman/Tests.antt =====
-- packages/edge-agent/src/adapters/podman.ts: a host with no directories on which no container stays.
use sandstorm_monorepo.Common.{
  ℕ, String, true, some, List, [], ◌∷◌, if◌then◌else◌, ◌==◌, nat_eq, string_eq,
}
use sandstorm_monorepo.Common.Number.{micro}
use sandstorm_monorepo.Common.Text.{JsText}
use sandstorm_monorepo.Common.Io.{returned, thrown, error_of}
use sandstorm_monorepo.EdgeAgent.Podman.{PodmanHost, PodmanConfig}

instance abbrev digits : JsText ℕ
digits = record { show = λ a. if a == 0 then "0" else "1"; number = λ s. 0; parse = λ s. 0 }

-- The host's directories and containers. A container stays until a command is given.
abbrev Machine : Type 0
Machine = List String × List String

abbrev host : PodmanHost ℕ Machine
host = record {
  make_dir = λ d (dirs, containers). (returned tt, (d ∷ dirs, containers));
  write_file = λ f c r. (returned tt, r);
  read_dir = λ d r. (returned [], r);
  read_file = λ f r. (returned "", r);
  remove_dir = λ d (dirs, containers). (returned tt, ([], containers));
  exec_async = λ c (dirs, containers). (returned "", (dirs, []));
  spawn = λ args timeout (dirs, containers).
      (thrown (error_of "spawn podman ENOENT"), (dirs, "c1" ∷ containers));
  fixed = λ a. some a;
  minus_one = 0;
}

abbrev config : PodmanConfig
config = record { rootless = true; temp_dir = "/tmp"; enable_network_isolation = true }
