-- ===== src/Sdk.antt =====
-- packages/sdk/src: the classes `Sandstorm`, `EdgeModeClient` and `SandstormEdge`. The HTTP client `axios` is the
-- parameter `Http`, one operation for each request that the code makes. Requests that the code starts
-- together are made in the order of the list. Logging is left out.
pub mod Edge
mod Tests
use sandstorm_monorepo.Common.{
  ℕ, String, Bool, true, false, ◌&&◌, ◌||◌, not, Option, none, some, List, [], ◌∷◌, filter, map,
  head?, if◌then◌else◌,
}
use sandstorm_monorepo.Common.Text.{◌+s◌}
use sandstorm_monorepo.Common.Io.{Thrown, Answer}
use sandstorm_monorepo.Core.Language.{Language, python, standard}
use sandstorm_monorepo.Core.Sandbox.{SandboxSpec, SandboxResult, SandboxConstraints, plain_spec}

-- The constraints of a run, with the resources that it asks for.
pub record RunConstraints (A : Type 0) : Type 0 where
  pub constraints : SandboxConstraints A
  pub cpu : Option A
  pub memory : Option A
  pub timeout : Option A
  pub gpu : Option Bool

pub record RunOptions (A : Type 0) : Type 0 where
  pub code : String
  pub language : Option Language
  pub requirements : Option (List String)
  pub environment : Option (List (String × String))
  pub files : Option (List (String × String))
  pub constraints : Option (RunConstraints A)

abbrev pub language_or : Option Language → Language
language_or none = python
language_or (some language) = language

module _ {A : Type 0} where
  -- What `run` makes of its options: they always have a `code`, a `SandboxSpec` too, so the resources
  -- are left behind.
  abbrev pub spec_of : RunOptions A → SandboxSpec A
  spec_of options = record (plain_spec A options.code) {
    language = language_or options.language;
    requirements = options.requirements;
    environment = options.environment;
    files = options.files;
    isolation_level = standard;
  }

  abbrev pub with_resources : Option (RunConstraints A) → SandboxSpec A → SandboxSpec A
  with_resources none spec = spec
  with_resources (some c) spec = record spec {
    cpu = c.cpu;
    memory = c.memory;
    timeout = c.timeout;
    gpu = c.gpu;
  }

  -- What `runWithOptions` makes of them.
  abbrev pub full_spec_of : RunOptions A → SandboxSpec A
  full_spec_of options = with_resources options.constraints (spec_of options)
