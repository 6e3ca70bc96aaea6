-- ===== src/Adapters/Tests.antt =====
-- packages/adapters: small services on which the theorems are applied.
mod Kits
mod Machines
use sandstorm_monorepo.Common.{
  ℕ, String, true, some, ◌∷◌, [], if◌then◌else◌, ◌==◌, nat_eq, string_eq,
}
use sandstorm_monorepo.Common.Number.{micro}
use sandstorm_monorepo.Common.Text.{JsText}
use sandstorm_monorepo.Core.Sandbox.{SandboxSpec, plain_spec}
use sandstorm_monorepo.Adapters.World.{RunStamp}

instance abbrev pub digits : JsText ℕ
digits = record {
  show = λ a. if a == 0 then "0" else "1";
  number = λ s. if s == "0" then 0 else 15000000;
  parse = λ s. if s == "0" then 0 else 1000000;
}

abbrev pub stamp : RunStamp ℕ
stamp = record { id = "run1"; duration = 2000000; now = "2025-01-01T00:00:00Z" }

abbrev pub one_file : SandboxSpec ℕ
one_file = record (plain_spec ℕ "print(1)") {
  files = some (("a.txt", "text") ∷ []);
  requirements = some ("numpy" ∷ []);
  bootc_hash = some "h1";
}
