-- ===== src/BootcBuilder/Cache.antt =====
-- packages/bootc-builder/src/builder.ts: the cache of images.
use sandstorm_monorepo.Common.{
  String, Bool, Bool-cases, Option, none, some, ◌≡◌, refl, sym, subst, ap, ◌∙◌, inl, inr,
  if◌then◌else◌, ◌==◌, string_eq, arith,
}
use sandstorm_monorepo.Common.Number.{JsNumber}
use sandstorm_monorepo.Common.Dict.{get, get-set}
use sandstorm_monorepo.Common.Io.{Answer, thrown, returned, ◌>>=◌, look, give}
use sandstorm_monorepo.Common.Io.Logic.{
  Post, Ends, Keeps, give-Ends, look-Ends, bind-Ends, then-Ends, change-Ends,
}
use sandstorm_monorepo.Adapters.World.{call, on_provider}
use sandstorm_monorepo.Adapters.Leaks.{call-Ends}
use sandstorm_monorepo.BootcBuilder.{
  BootcImageSpec, BootcBuildResult, Docker, BuilderWorld, generate_spec_hash, convert_to_bootc,
  cache_image, result_of, build_uncached, build_or, build_image,
}

module _ {A R : Type 0} ⦃n : JsNumber A⦄ (docker : Docker A R) where
  -- Under each hash is a result with that hash.
  pub record IsCache (w : BuilderWorld docker) : Type 0 where
    pub own_hash :
        (hash : String) (r : BootcBuildResult A)
        → get hash w.provider.image_cache ≡ some r
        → r.image_hash ≡ hash

  call-Keeps : {B : Type 0} (op : R → Answer B × R) → Keeps IsCache (call op)
  call-Keeps {B} op = call-Ends op λ w p. go w (op w.remote) p
    where
      go :
          (w : BuilderWorld docker) (r : Answer B × R)
          → IsCache w
          → Post
              (λ _ s. IsCache (record w { remote = s }))
              (λ s. IsCache (record w { remote = s }))
              r
      go w (thrown e, s) p = record { own_hash = p.own_hash }
      go w (returned b, s) p = record { own_hash = p.own_hash }

  -- What a build for a hash leaves: its result, in the cache.
  pub record Built (hash : String) (r : BootcBuildResult A) (w : BuilderWorld docker) : Type 0 where
    pub is_cache : IsCache w
    pub has_hash : r.image_hash ≡ hash
    pub is_cached : get hash w.provider.image_cache ≡ some r

  cached-Built :
      (hash : String) (r : BootcBuildResult A) (w : BuilderWorld docker)
      → r.image_hash ≡ hash
      → IsCache w
      → Built hash r (on_provider (cache_image docker hash r) w)
  cached-Built hash r w e p = record {
    is_cache = record {
      own_hash = λ h x found. own h x (sym (get-set hash h r w.provider.image_cache) ∙ found);
    };
    has_hash = e;
    is_cached =
        let same = (string_eq.beq_iff hash hash).1 refl in
        get-set hash hash r w.provider.image_cache ∙ rw same refl;
  }
    where
      own :
          (h : String) (x : BootcBuildResult A)
          → (if hash == h then some r else get h w.provider.image_cache) ≡ some x
          → x.image_hash ≡ h
      own h x found = elim (Bool-cases (hash == h)) [
        | inl same ↦
            let is : r ≡ x = ground (arith, same, found) in
            ap (λ y. y.image_hash) (sym is) ∙ e ∙ (string_eq.beq_iff hash h).0 same
        | inr other ↦ p.own_hash h x (ground (arith, other, found))
      ]

  uncached-Ends :
      (build_time : A) (hash : String) (spec : BootcImageSpec)
      → Ends IsCache (build_uncached docker build_time hash spec) (Built hash) IsCache
  unfolding build_uncached convert_to_bootc
  uncached-Ends build_time hash spec = then-Ends (call-Keeps _) (
      bind-Ends (bind-Ends (call-Keeps _) λ image. give-Ends _ (λ w p. p)) λ bootc.
        then-Ends
          (change-Ends _ λ w p. cached-Built hash (result_of docker hash build_time bootc) w refl p)
          (give-Ends _ (λ w p. p)))

  module _ (locale_le : String → String → Bool) (digest : BootcImageSpec → String)
      (spec : BootcImageSpec) where
    abbrev hash_of : String
    hash_of = generate_spec_hash locale_le digest spec

    -- From a cache that has under each hash a result with that hash, a build that returns has given the
    -- image the hash of its specification and has the result in the cache; and however it ends, the cache
    -- has under each hash a result with that hash.
    pub build_image-Built :
        (build_time : A)
        → Ends IsCache
            (build_image docker locale_le digest build_time spec)
            (Built (generate_spec_hash locale_le digest spec))
            IsCache
    unfolding build_image build_or
    build_image-Built build_time =
        bind-Ends
          (look-Ends _ {Q = λ found w. IsCache w × (get hash_of w.provider.image_cache ≡ found)}
            (λ w p. (p, refl)))
          λ found. by_found found
      where
        by_found :
            (found : Option (BootcBuildResult A))
            → Ends
                (λ w. IsCache w × (get hash_of w.provider.image_cache ≡ found))
                (build_or docker build_time hash_of spec found)
                (Built hash_of)
                IsCache
        by_found none = record { run = λ w (p, e). (uncached-Ends build_time hash_of spec).run w p }
        by_found (some r) =
            give-Ends r (λ w (p, e). record {
              is_cache = p;
              has_hash = p.own_hash hash_of r e;
              is_cached = e;
            })

    -- A build of a specification that is in the cache returns what is there and changes nothing, whatever
    -- the service would answer.
    pub build_image-cached :
        (build_time : A) (r : BootcBuildResult A) (w : BuilderWorld docker)
        → get (generate_spec_hash locale_le digest spec) w.provider.image_cache ≡ some r
        → build_image docker locale_le digest build_time spec w ≡ (returned r, w)
    unfolding build_image build_or ◌>>=◌ look give
    build_image-cached build_time r w e = ap (λ o. build_or docker build_time hash_of spec o w) e

    -- Two builds of one specification, the second right after the first one returned: the second returns
    -- the same result and changes nothing, in the builder and on the service.
    pub build_image-twice :
        (first second : A) (r : BootcBuildResult A) (w v : BuilderWorld docker)
        → IsCache w
        → build_image docker locale_le digest first spec w ≡ (returned r, v)
        → build_image docker locale_le digest second spec v ≡ (returned r, v)
    build_image-twice first second r w v p e =
        build_image-cached second r v
          (subst (Post (Built hash_of) IsCache) e ((build_image-Built first).run w p)).is_cached
