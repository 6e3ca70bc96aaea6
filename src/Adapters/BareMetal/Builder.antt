-- ===== src/Adapters/BareMetal/Builder.antt =====
-- packages/adapters/bare-metal/src/provider.ts: `BootcBuilder` of packages/bootc-builder as the builder of
-- images that the adapter uses.
use sandstorm_monorepo.Common.{String, Bool, none}
use sandstorm_monorepo.Common.Number.{JsNumber}
use sandstorm_monorepo.Common.Io.{Answer, thrown, returned}
use sandstorm_monorepo.Adapters.World.{World}
use sandstorm_monorepo.Adapters.BareMetal.{ImageRequest, ImageBuilder}
use sandstorm_monorepo.BootcBuilder.{
  BootcImageSpec, BootcBuildResult, BootcBuilder, efi, Docker, build_image, push_image,
}

-- The adapter asks for no units and no kernel arguments, and always for `efi`.
abbrev pub spec_of : ImageRequest → BootcImageSpec
spec_of request = record {
  base_image = request.base_image;
  dockerfile = request.dockerfile;
  packages = request.packages;
  systemd_units = none;
  kernel_args = none;
  boot_type = efi;
}

-- `buildResult.imageHash`
abbrev hash_of : {A W : Type 0} → Answer (BootcBuildResult A) × W → Answer String × W
hash_of (thrown e, w) = (thrown e, w)
hash_of (returned r, w) = (returned r.image_hash, w)

module _ {A R : Type 0} ⦃n : JsNumber A⦄ (docker : Docker A R) (locale_le : String → String → Bool)
    (digest : BootcImageSpec → String) (build_time : A) where
  abbrev pub image_builder : ImageBuilder (World (BootcBuilder A) R)
  image_builder = record {
    build_image =
        λ request w. hash_of (build_image docker locale_le digest build_time (spec_of request) w);
    push_image = λ hash registry. push_image docker hash registry;
  }
