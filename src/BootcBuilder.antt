-- ===== src/BootcBuilder.antt =====
-- packages/bootc-builder/src/builder.ts, packages/core/src/types.ts: the class `BootcBuilder`. The
-- client `dockerode` is the parameter `Docker`, where a build includes the wait for its end; the text
-- that is hashed and its hash are `digest`, and times are arguments.
pub mod Cache
mod Tests
use sandstorm_monorepo.Common.{
  ℕ, suc, String, Bool, true, false, not, Option, none, some, List, [], ◌∷◌, map, length,
  if◌then◌else◌, ◌==◌, string_eq, ltb,
}
use sandstorm_monorepo.Common.Number.{JsNumber, ◌⊖◌, ◌⊗◌, ◌⊘◌, ◌≺◌, num}
use sandstorm_monorepo.Common.Text.{◌+s◌, join, replace_all, substring, text_le}
use sandstorm_monorepo.Common.Sorting.{sort_by}
use sandstorm_monorepo.Common.Dict.{get, set}
use sandstorm_monorepo.Common.Io.{Answer, Io, ◌>>=◌, ◌>>◌, give, change, look, succeeds, recover}
use sandstorm_monorepo.Adapters.World.{World, call, on_provider}

pub data BootType : Type 0 where
  efi bios : BootType

pub record SystemdUnit : Type 0 where
  pub name : String
  pub content : String

pub record BootcImageSpec : Type 0 where
  pub base_image : String
  pub dockerfile : String
  pub packages : Option (List String)
  pub systemd_units : Option (List SystemdUnit)
  pub kernel_args : Option (List String)
  pub boot_type : BootType

pub record Layer (A : Type 0) : Type 0 where
  pub digest : String
  pub size : A

pub record BootcBuildResult (A : Type 0) : Type 0 where
  pub image_hash : String
  pub image_size : A
  pub oci_digest : String
  pub build_time : A
  pub layers : List (Layer A)

pub record BootcBuilder (A : Type 0) : Type 0 where
  pub image_cache : List (String × BootcBuildResult A)

pub record Inspection (A : Type 0) : Type 0 where
  pub id : String
  pub size : A
  pub layers : List String

-- An image of the list, with its time in seconds.
pub record ListedImage (A : Type 0) : Type 0 where
  pub id : String
  pub created : A

pub record Docker (A R : Type 0) : Type 0 where
  pub build_image : String → String → BootType → R → Answer (Unit {0}) × R
  pub inspect : String → R → Answer (Inspection A) × R
  pub tag : String → String → String → R → Answer (Unit {0}) × R
  pub push : String → R → Answer (Unit {0}) × R
  pub list_images : R → Answer (List (ListedImage A)) × R
  pub remove : String → R → Answer (Unit {0}) × R

abbrev pub sorted : Option (List String) → Option (List String)
sorted none = none
sorted (some list) = some (sort_by text_le list)

-- The packages and the kernel arguments are sorted in place: the build goes on with the sorted lists.
abbrev pub sorted_spec : BootcImageSpec → BootcImageSpec
sorted_spec spec = record spec {
  packages = sorted spec.packages;
  kernel_args = sorted spec.kernel_args;
}

-- The units are copied before they are sorted by name, which `locale_le` does.
abbrev pub sorted_units :
    (String → String → Bool) → Option (List SystemdUnit) → Option (List SystemdUnit)
sorted_units locale_le none = none
sorted_units locale_le (some units) = some (sort_by (λ a b. locale_le a.name b.name) units)

abbrev pub generate_spec_hash :
    (String → String → Bool) → (BootcImageSpec → String) → BootcImageSpec → String
generate_spec_hash locale_le digest spec =
    substring
      (digest
        (record (sorted_spec spec) { systemd_units = sorted_units locale_le spec.systemd_units }))
      0 12

abbrev pub packages_part : Option (List String) → String
packages_part none = ""
packages_part (some []) = ""
packages_part (some (p ∷ ps)) = "RUN dnf -y install " +s join " " (p ∷ ps) +s "\n\n"

abbrev pub units_part : Option (List SystemdUnit) → String
units_part none = ""
units_part (some []) = ""
units_part (some (unit ∷ units)) =
    "RUN echo '"
    +s replace_all "'" "\\'" unit.content
    +s "' > /etc/systemd/system/"
    +s unit.name
    +s "\n"
    +s "RUN systemctl enable "
    +s unit.name
    +s "\n\n"
    +s units_part (some units)

abbrev pub kernel_args_part : Option (List String) → String
kernel_args_part none = ""
kernel_args_part (some []) = ""
kernel_args_part (some (a ∷ rest)) =
    "RUN bootc kargs --append=\"" +s join " " (a ∷ rest) +s "\"\n\n"

abbrev pub user_part : String → String
user_part dockerfile =
    if dockerfile == "" then "" else "\n# User-provided Dockerfile content\n" +s dockerfile

abbrev pub create_bootc_dockerfile : BootcImageSpec → String
create_bootc_dockerfile spec =
    "FROM "
    +s spec.base_image
    +s "\n\n"
    +s "LABEL sandstorm.type=\"bootc\"\n"
    +s "LABEL org.opencontainers.image.source=\"sandstorm\"\n\n"
    +s "RUN dnf -y install bootc || true\n\n"
    +s packages_part spec.packages
    +s units_part spec.systemd_units
    +s kernel_args_part spec.kernel_args
    +s user_part spec.dockerfile
    +s "\n\n# Ensure bootc compatibility\n"
    +s "RUN bootc status || true\n"

module _ {A R : Type 0} ⦃n : JsNumber A⦄ (docker : Docker A R) where
  abbrev pub BuilderWorld : Type 0
  BuilderWorld = World (BootcBuilder A) R

  -- The image's digest, size and layers, each of them with an equal share of the size.
  unfoldable pub convert_to_bootc : String → Io BuilderWorld (Inspection A × List (Layer A))
  convert_to_bootc tag = do
    image ← call (docker.inspect tag)
    give (
      image,
      map (λ layer. record { digest = layer; size = image.size ⊘ num (length image.layers) })
          image.layers,
    )

  abbrev pub cache_image : String → BootcBuildResult A → BootcBuilder A → BootcBuilder A
  cache_image hash result builder = record builder {
    image_cache = set hash result builder.image_cache;
  }

  abbrev pub result_of : String → A → Inspection A × List (Layer A) → BootcBuildResult A
  result_of hash build_time (image, layers) = record {
    image_hash = hash;
    image_size = image.size;
    oci_digest = image.id;
    build_time = build_time;
    layers = layers;
  }

  -- A build where the cache has nothing for the hash.
  unfoldable pub build_uncached : A → String → BootcImageSpec → Io BuilderWorld (BootcBuildResult A)
  unfolding convert_to_bootc
  build_uncached build_time hash spec = do
    call (
        docker.build_image (create_bootc_dockerfile (sorted_spec spec)) ("bootc-" +s hash)
          spec.boot_type)
    bootc ← convert_to_bootc ("bootc-" +s hash)
    change (on_provider (cache_image hash (result_of hash build_time bootc)))
    give (result_of hash build_time bootc)

  unfoldable pub build_or :
      A
      → String
      → BootcImageSpec
      → Option (BootcBuildResult A)
      → Io BuilderWorld (BootcBuildResult A)
  unfolding build_uncached
  build_or build_time hash spec (some cached) = give cached
  build_or build_time hash spec none = build_uncached build_time hash spec

  unfoldable pub build_image :
      (String → String → Bool)
      → (BootcImageSpec → String)
      → A
      → BootcImageSpec
      → Io BuilderWorld (BootcBuildResult A)
  unfolding build_or
  build_image locale_le digest build_time spec =
      look (λ (w : BuilderWorld).
        get (generate_spec_hash locale_le digest spec) w.provider.image_cache)
      >>= build_or build_time (generate_spec_hash locale_le digest spec) spec

  unfoldable pub push_image : String → String → Io BuilderWorld String
  push_image hash registry = do
    let remote_tag = registry +s "/sandstorm/bootc-" +s hash
    call (docker.tag ("bootc-" +s hash) remote_tag "latest")
    call (docker.push remote_tag)
    give remote_tag

  -- What the builder knows of an image that is on the host and not in the cache.
  abbrev pub inspected : String → Inspection A → BootcBuildResult A
  inspected hash image = record {
    image_hash = hash;
    image_size = image.size;
    oci_digest = image.id;
    build_time = num 0;
    layers = map (λ layer. record { digest = layer; size = num 0 }) image.layers;
  }

  abbrev pub info_or :
      String → Option (BootcBuildResult A) → Io BuilderWorld (Option (BootcBuildResult A))
  info_or hash (some cached) = give (some cached)
  info_or hash none =
      recover
        (call (docker.inspect ("bootc-" +s hash)) >>= λ image. give (some (inspected hash image)))
        none

  unfoldable pub get_image_info : String → Io BuilderWorld (Option (BootcBuildResult A))
  get_image_info hash =
      look (λ (w : BuilderWorld). get hash w.provider.image_cache) >>= info_or hash

  abbrev pub is_old : A → ListedImage A → Bool
  is_old cutoff image = (image.created ⊗ num 1000) ≺ cutoff

  -- The images that are removed of a list, counted.
  abbrev pub remove_old : A → List (ListedImage A) → ℕ → Io BuilderWorld ℕ
  remove_old cutoff [] deleted = give deleted
  remove_old cutoff (image ∷ images) deleted = elim (is_old cutoff image) [
    | true ↦ succeeds (call (docker.remove image.id)) >>= λ removed.
        remove_old cutoff images (if removed then suc deleted else deleted)
    | false ↦ remove_old cutoff images deleted
  ]

  unfoldable pub cleanup_images : A → A → Io BuilderWorld ℕ
  cleanup_images now older_than_days = do
    images ← call docker.list_images
    remove_old (now ⊖ older_than_days ⊗ num 24 ⊗ num 60 ⊗ num 60 ⊗ num 1000) images 0
