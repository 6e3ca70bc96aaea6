-- ===== src/Core/Provider.antt =====
-- packages/core/src/types.ts: the enumeration of sandbox providers.
use sandstorm_monorepo.Common.{ℕ, zero, suc, ◌≡◌, refl, Eq, eq_of_code}

pub data SandboxProvider : Type 0 where
  e2b modal daytona morph kubernetes bare_metal edge apple_containers custom : SandboxProvider

abbrev pub position : SandboxProvider → ℕ
position e2b = 0
position modal = 1
position daytona = 2
position morph = 3
position kubernetes = 4
position bare_metal = 5
position edge = 6
position apple_containers = 7
position custom = 8

abbrev pub at_position : ℕ → SandboxProvider
at_position zero = e2b
at_position (suc zero) = modal
at_position (suc (suc zero)) = daytona
at_position (suc (suc (suc zero))) = morph
at_position (suc (suc (suc (suc zero)))) = kubernetes
at_position (suc (suc (suc (suc (suc zero))))) = bare_metal
at_position (suc (suc (suc (suc (suc (suc zero)))))) = edge
at_position (suc (suc (suc (suc (suc (suc (suc zero))))))) = apple_containers
at_position _ = custom

pub at_position-position : (p : SandboxProvider) → at_position (position p) ≡ p
at_position-position e2b = refl
at_position-position _ = refl

instance abbrev pub provider_eq : Eq SandboxProvider
provider_eq = eq_of_code position at_position at_position-position
