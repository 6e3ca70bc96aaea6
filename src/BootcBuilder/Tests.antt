-- ===== src/BootcBuilder/Tests.antt =====
-- packages/bootc-builder: a host that counts the images it has built.
use sandstorm_monorepo.Common.{
  ℕ, suc, String, Bool, true, none, some, [], ◌∷◌, ◌≡◌, refl, string_eq,
}
use sandstorm_monorepo.Common.Number.{micro}
use sandstorm_monorepo.Common.Io.{returned, ◌>>=◌, ◌>>◌, look, give, change}
use sandstorm_monorepo.Common.Io.Logic.{Ends}
use sandstorm_monorepo.Adapters.World.{call}
use sandstorm_monorepo.Adapters.BareMetal.{ImageRequest}
use sandstorm_monorepo.BootcBuilder.{
  BootcImageSpec, BootcBuildResult, efi, Docker, BuilderWorld, build_image, create_bootc_dockerfile,
  sorted_spec,
}
use sandstorm_monorepo.BootcBuilder.Cache.{IsCache, Built, build_image-Built, build_image-twice}

abbrev docker : Docker ℕ ℕ
docker = record {
  build_image = λ file tag kind r. (returned tt, suc r);
  inspect = λ tag r.
      (returned (record { id = "sha256:1"; size = 8000000; layers = "l1" ∷ "l2" ∷ [] }), r);
  tag = λ image repo tag r. (returned tt, r);
  push = λ tag r. (returned tt, r);
  list_images = λ r. (returned [], r);
  remove = λ id r. (returned tt, r);
}

abbrev spec : BootcImageSpec
spec = record {
  base_image = "fedora-bootc:40";
  dockerfile = "RUN true";
  packages = some ("vim" ∷ "gcc" ∷ []);
  systemd_units = none;
  kernel_args = none;
  boot_type = efi;
}

abbrev name_le : String → String → Bool
name_le a b = true

abbrev digest : BootcImageSpec → String
digest s = "0123456789abcdef"

abbrev start : BuilderWorld docker
start = record { provider = record { image_cache = [] }; remote = 0 }

start-IsCache : IsCache docker start
start-IsCache = record { own_hash = λ hash r e. absurd (cc e) }

abbrev built : BootcBuildResult ℕ
built = record {
  image_hash = "0123456789ab";
  image_size = 8000000;
  oci_digest = "sha256:1";
  build_time = 1;
  layers =
      (record { digest = "l1"; size = 4000000 }) ∷ (record { digest = "l2"; size = 4000000 }) ∷ [];
}

abbrev after : BuilderWorld docker
after = record { provider = record { image_cache = ("0123456789ab", built) ∷ [] }; remote = 1 }

first_build : build_image docker name_le digest 1 spec start ≡ (returned built, after)
unfolding build_image ◌>>=◌ look ◌>>◌ call give change
first_build = refl

build_image-Built_example :
    Ends
      (IsCache docker)
      (build_image docker name_le digest 1 spec)
      (Built docker "0123456789ab")
      (IsCache docker)
build_image-Built_example = build_image-Built docker name_le digest spec 1

build_image-twice_example : build_image docker name_le digest 2 spec after ≡ (returned built, after)
build_image-twice_example =
    build_image-twice docker name_le digest spec 1 2 built start after start-IsCache first_build

abbrev request : ImageRequest
request = record {
  base_image = "fedora-bootc:40";
  dockerfile = "RUN true";
  packages = none;
  boot_type = "efi";
}

dockerfile_text :
    create_bootc_dockerfile (sorted_spec spec)
    ≡ "FROM fedora-bootc:40\n\nLABEL sandstorm.type=\"bootc\"\nLABEL org.opencontainers.image.source=\"sandstorm\"\n\nRUN dnf -y install bootc || true\n\nRUN dnf -y install gcc vim\n\n\n# User-provided Dockerfile content\nRUN true\n\n# Ensure bootc compatibility\nRUN bootc status || true\n"
dockerfile_text = refl
