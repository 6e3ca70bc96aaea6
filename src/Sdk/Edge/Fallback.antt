-- ===== src/Sdk/Edge/Fallback.antt =====
-- packages/sdk/src/edge-mode.ts: a run with the cloud behind it.
use sandstorm_monorepo.Common.{
  ℕ, Bool, true, false, Option, none, some, List, [], ◌∷◌, length, ◌≡◌, refl, ◌∙◌, nat_eq, arith,
}
use sandstorm_monorepo.Common.Number.{JsNumber}
use sandstorm_monorepo.Common.Sorting.{sort_by, sort_by-not_nil}
use sandstorm_monorepo.Common.Dict.{get, set, get-set}
use sandstorm_monorepo.Common.Io.{Thrown, Answer, thrown, returned, recover, recovered, Io}
use sandstorm_monorepo.Common.Io.Logic.{
  Post, Ends, Keeps, give-Ends, look-Ends, bind-Ends, then-Ends, change-Ends, on_throw-Ends,
  or_raise-Ends, assume-Ends, relax-Ends, catch-Ends, never-Ends,
}
use sandstorm_monorepo.Common.Io.Logic.Loops.{collect-Ends}
use sandstorm_monorepo.Core.Sandbox.{SandboxSpec}
use sandstorm_monorepo.Adapters.World.{call}
use sandstorm_monorepo.Adapters.Leaks.{call-Ends}
use sandstorm_monorepo.Sdk.{RunOptions, RunConstraints, spec_of}
use sandstorm_monorepo.Sdk.Edge.{
  EdgeAgentConfig, EdgeAgentInfo, EdgeModeClient, Http, EdgeWorld, no_later, first_client, closest,
  get_status, connect, is_available, info_or_connect, ready_info, estimate_latency, run_on,
  get_available_edge_clients, select_best_edge_client, cloud_or_raise, run_on_cloud_client,
  after_failure, run_or_fall_back, run_on_best, run_preferring, run,
}

module _ {A R : Type 0} ⦃n : JsNumber A⦄ (http : Http A R) where
  -- There is a client of the cloud, and the configuration falls back to it.
  pub record HasFallback (w : EdgeWorld http) : Type 0 where
    pub has_cloud : w.provider.has_cloud ≡ true
    pub falls_back : w.provider.config.edge_fallback_to_cloud ≡ true

  -- Every agent tells its status, and the cloud answers.
  pub record Answers : Type 0 where
    pub status_answers :
        (c : EdgeAgentConfig A) (r : R) → Post (λ _ _. Unit {0}) (λ _. ⊥) (http.status c r)
    pub cloud_answers :
        (s : SandboxSpec A) (c : Option (RunConstraints A)) (r : R)
        → Post (λ _ _. Unit {0}) (λ _. ⊥) (http.run_on_cloud s c r)

  call-Keeps : {B : Type 0} (op : R → Answer B × R) → Keeps HasFallback (call op)
  call-Keeps {B} op = call-Ends op λ w p. go w (op w.remote) p
    where
      go :
          (w : EdgeWorld http) (r : Answer B × R)
          → HasFallback w
          → Post
              (λ _ s. HasFallback (record w { remote = s }))
              (λ s. HasFallback (record w { remote = s }))
              r
      go w (thrown e, s) p = record { has_cloud = p.has_cloud; falls_back = p.falls_back }
      go w (returned b, s) p = record { has_cloud = p.has_cloud; falls_back = p.falls_back }

  answered-Keeps :
      {B : Type 0} {E : EdgeWorld http → Type 0} (op : R → Answer B × R)
      → ((r : R) → Post (λ _ _. Unit {0}) (λ _. ⊥) (op r))
      → Ends HasFallback (call op) (λ _. HasFallback) E
  answered-Keeps {B} {E} op law = call-Ends op λ w p. go w (op w.remote) p (law w.remote)
    where
      go :
          (w : EdgeWorld http) (r : Answer B × R)
          → HasFallback w
          → Post (λ _ _. Unit {0}) (λ _. ⊥) r
          → Post (λ _ s. HasFallback (record w { remote = s })) (λ s. E (record w { remote = s })) r
      go w (thrown e, s) p never = absurd never
      go w (returned b, s) p _ = record { has_cloud = p.has_cloud; falls_back = p.falls_back }

  recover-Keeps :
      {B : Type 0} {E : EdgeWorld http → Type 0} {m : Io (EdgeWorld http) B} (b : B)
      → Keeps HasFallback m
      → Ends HasFallback (recover m b) (λ _. HasFallback) E
  unfolding recover
  recover-Keeps {B} {E} {m} b h = record { run = λ w p. go (m w) (h.run w p) }
    where
      go :
          (r : Answer B × EdgeWorld http)
          → Post (λ _. HasFallback) HasFallback r
          → Post (λ _. HasFallback) E (recovered b r)
      go (thrown e, v) q = q
      go (returned a, v) q = q

  available-Keeps :
      (client : EdgeModeClient A)
      → Ends HasFallback (is_available http client) (λ _. HasFallback) (λ _. ⊥)
  unfolding is_available
  available-Keeps client =
      recover-Keeps false (bind-Ends (call-Keeps _) λ status. give-Ends _ (λ w p. p))

  module _ (ok : Answers) where
    -- The connection has set what the client knows of its agent.
    Known : ℕ → EdgeWorld http → Type 0
    Known place w =
        HasFallback w × ((info : EdgeAgentInfo A) × (get place w.provider.infos ≡ some info))

    connect-Ends :
        (client : EdgeModeClient A)
        → Ends HasFallback (connect http client) (λ _. Known client.place) (λ _. ⊥)
    unfolding connect get_status Known
    connect-Ends client =
        on_throw-Ends {F = λ _. ⊥} _
          (bind-Ends
            (bind-Ends (answered-Keeps _ (ok.status_answers client.config)) λ info.
              then-Ends
                (change-Ends {Q = Known client.place} _ λ w p. (
                  record { has_cloud = p.has_cloud; falls_back = p.falls_back },
                  (info, own info w.provider.infos),
                ))
                (give-Ends info (λ w p. p)))
            λ info. give-Ends tt (λ w p. p))
          (never-Ends _)
      where
        own :
            (info : EdgeAgentInfo A) (infos : List (ℕ × EdgeAgentInfo A))
            → get client.place (set client.place info infos) ≡ some info
        own info infos =
            let same = (nat_eq.beq_iff client.place client.place).1 refl in
            get-set client.place client.place info infos ∙ rw same refl

    ready-Keeps :
        (client : EdgeModeClient A)
        → Ends HasFallback (ready_info http client) (λ _. HasFallback) (λ _. ⊥)
    unfolding ready_info Known
    ready-Keeps client = bind-Ends (look-Ends _ (λ w p. p)) by_found
      where
        by_found :
            (found : Option (EdgeAgentInfo A))
            → Ends HasFallback (info_or_connect http client found) (λ _. HasFallback) (λ _. ⊥)
        by_found (some info) = give-Ends info (λ w p. p)
        by_found none = then-Ends (connect-Ends client) (
            bind-Ends
              (look-Ends _
                {Q = λ found w. HasFallback w × ((info : EdgeAgentInfo A) × (found ≡ some info))}
                (λ w p. p))
              λ found.
                assume-Ends λ (info, e). or_raise-Ends found _ (λ f w p. cc (e, f)) (λ _ _ w p. p))

    latency-Keeps :
        (client : EdgeModeClient A)
        → Ends HasFallback (estimate_latency http client) (λ _. HasFallback) (λ _. ⊥)
    unfolding estimate_latency
    latency-Keeps client = bind-Ends (ready-Keeps client) λ info. give-Ends _ (λ w p. p)

    -- Of one latency at least, one is the lowest.
    closest_there :
        (latencies : List (EdgeModeClient A × A))
        → closest {A = A} latencies ≡ none
        → length latencies ≡ 0
    closest_there latencies e = by_sorted (sort_by no_later latencies) refl e
      where
        by_sorted :
            (sorted : List (EdgeModeClient A × A))
            → sort_by no_later latencies ≡ sorted
            → first_client sorted ≡ none
            → length latencies ≡ 0
        by_sorted [] same f = rw (sort_by-not_nil no_later latencies same)
        by_sorted ((c, l) ∷ rest) same f = absurd (cc f)

    select-Keeps :
        (c : EdgeModeClient A) (cs : List (EdgeModeClient A))
        → Ends HasFallback (select_best_edge_client http (c ∷ cs)) (λ _. HasFallback) (λ _. ⊥)
    unfolding select_best_edge_client
    select-Keeps c cs =
        bind-Ends
          (collect-Ends (c ∷ cs)
            λ client. bind-Ends (latency-Keeps client) λ latency. give-Ends _ (λ w p. p))
          λ latencies. assume-Ends λ many.
            or_raise-Ends (closest {A = A} latencies) _
              (λ f w p. absurd (omega (arith, many, closest_there latencies f))) (λ _ _ w p. p)

    cloud-Ends :
        (options : RunOptions A)
        → Ends HasFallback (run_on_cloud_client http options) (λ _ _. Unit {0}) (λ _. ⊥)
    unfolding run_on_cloud_client
    cloud-Ends options =
        bind-Ends
          (look-Ends _ {Q = λ has_cloud w. HasFallback w × (has_cloud ≡ true)}
            (λ w p. (p, p.has_cloud)))
          λ has_cloud. assume-Ends λ e. by_cloud has_cloud e
      where
        by_cloud :
            (b : Bool)
            → b ≡ true
            → Ends HasFallback
                (cloud_or_raise http b (spec_of options) options.constraints)
                (λ _ _. Unit {0})
                (λ _. ⊥)
        by_cloud false e = absurd (cc e)
        by_cloud true e =
            relax-Ends (answered-Keeps _ (ok.cloud_answers _ options.constraints)) λ _ w p. tt

    fall_back-Ends :
        (client : EdgeModeClient A) (options : RunOptions A)
        → Ends HasFallback (run_or_fall_back http client options) (λ _ _. Unit {0}) (λ _. ⊥)
    unfolding run_or_fall_back run_on
    fall_back-Ends client options =
        bind-Ends
          (look-Ends _ {Q = λ b w. HasFallback w × (b ≡ true)}
            (λ w p. (p, ground (arith, p.has_cloud, p.falls_back))))
          λ b.
            assume-Ends λ e.
              catch-Ends (relax-Ends (call-Keeps _) λ _ w p. tt) λ thrown. by_fallback b e thrown
      where
        by_fallback :
            (b : Bool)
            → b ≡ true
            → (e : Thrown)
            → Ends HasFallback (after_failure http b options e) (λ _ _. Unit {0}) (λ _. ⊥)
        by_fallback false e t = absurd (cc e)
        by_fallback true e t = cloud-Ends options

    best-Ends :
        (options : RunOptions A) (clients : List (EdgeModeClient A))
        → Ends HasFallback (run_on_best http options clients) (λ _ _. Unit {0}) (λ _. ⊥)
    best-Ends options [] = cloud-Ends options
    best-Ends options (c ∷ cs) =
        bind-Ends (select-Keeps c cs) λ client. fall_back-Ends client options

    -- A run of `SandstormEdge` with a client of the cloud and a configuration that falls back to it returns
    -- a result, whatever the health checks and the runs on the edge do, if every agent that is asked tells
    -- its status and the cloud answers.
    pub run-returns :
        (options : RunOptions A) → Ends HasFallback (run http options) (λ _ _. Unit {0}) (λ _. ⊥)
    unfolding run get_available_edge_clients
    run-returns options = bind-Ends (look-Ends _ (λ w p. p)) by_preference
      where
        by_preference :
            (prefers : Bool)
            → Ends HasFallback (run_preferring http prefers options) (λ _ _. Unit {0}) (λ _. ⊥)
        by_preference false = cloud-Ends options
        by_preference true =
            bind-Ends
              (bind-Ends (look-Ends _ (λ w p. p)) λ clients.
                bind-Ends
                  (collect-Ends clients λ client.
                    bind-Ends (available-Keeps client) λ available. give-Ends _ (λ w p. p))
                  λ checks. give-Ends _ (λ w p. p.0))
              λ clients. best-Ends options clients
