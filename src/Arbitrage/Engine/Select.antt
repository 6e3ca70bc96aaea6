-- ===== src/Arbitrage/Engine/Select.antt =====
-- What `selectProvider` returns, and when it returns.
use mathlib.Core.List.Memᴰ
use sandstorm_monorepo.Common.{
  ◌≡◌, refl, sym, inl, inr, Bool, true, false, not, none, some, List, [], ◌∷◌, filter, find,
  find_sound, mem-filter_sound, mem-filter, All, All-filter, All-mem, Memᴰ, arith, Option-cases, ap,
  subst, if◌then◌else◌,
}
use sandstorm_monorepo.Common.Number.{JsNumber}
use sandstorm_monorepo.Common.Result.{Result, ok, ◌>>=◌, bind-eq-ok}
use sandstorm_monorepo.Core.Provider.{SandboxProvider}
use sandstorm_monorepo.Core.Sandbox.{SandboxSpec, SandboxConstraints}
use sandstorm_monorepo.Arbitrage.Engine.{
  ISandboxProvider, ArbitrageEngine, register, estimate_optimal_provider, check_all, named,
  pick_candidate, fallback_among, checked_or, select_fallback_provider, select_provider,
}

-- The check of this provider resolves, to this answer.
abbrev pub Answers : ISandboxProvider → Bool → Type 0
Answers p b = p.is_available ≡ ok b

mem_either :
    (b : Bool) (p : ISandboxProvider) (rest : List ISandboxProvider) {q : ISandboxProvider}
    → Memᴰ q rest
    → Memᴰ q (if b then p ∷ rest else rest)
mem_either true p rest m = Memᴰ.tail m
mem_either false p rest m = m

answer_of : {p q : ISandboxProvider} {b c : Bool} → q ≡ p → Answers p b → Answers q c → b ≡ c
answer_of {p} {q} same asked a =
    let e : q.is_available ≡ p.is_available = ap (λ (r : ISandboxProvider). r.is_available) same in
    cc

-- The providers that come through the checks are listed ones that answered yes.
check_all_sound :
    (ps qs : List ISandboxProvider) (q : ISandboxProvider)
    → check_all ps ≡ ok qs
    → Memᴰ q qs
    → Memᴰ q ps × Answers q true
unfolding check_all
check_all_sound [] qs q h m =
    let e : qs ≡ [] = cc in absurd (Memᴰ.not-nil (subst (λ l. Memᴰ q l) e m))
check_all_sound (p ∷ ps) qs q h m =
    let (b, asked, h') = bind-eq-ok p.is_available _ h in
    let (rest, others, h'') = bind-eq-ok (check_all ps) _ h' in
    let e : qs ≡ (if b then p ∷ rest else rest) = cc in
    go b asked (check_all_sound ps rest q others) (subst (λ l. Memᴰ q l) e m)
  where
    go :
        {rest : List ISandboxProvider} (b : Bool)
        → p.is_available ≡ ok b
        → (Memᴰ q rest → Memᴰ q ps × Answers q true)
        → Memᴰ q (if b then p ∷ rest else rest)
        → Memᴰ q (p ∷ ps) × Answers q true
    go true asked ih k = elim (Memᴰ.cases_cons k) [
      | inl same ↦ (Memᴰ.head same, rw same asked)
      | inr later ↦ let (there, yes_it_is) = ih later in (Memᴰ.tail there, yes_it_is)
    ]
    go false asked ih k = let (there, yes_it_is) = ih k in (Memᴰ.tail there, yes_it_is)

-- If all checks resolve, so does their collection, and it keeps who answered yes.
check_all_total :
    (ps : List ISandboxProvider) (q : ISandboxProvider)
    → All (λ p. (b : Bool) × Answers p b) ps
    → (qs : List ISandboxProvider) × (check_all ps ≡ ok qs)
      × (Memᴰ q ps → Answers q true → Memᴰ q qs)
unfolding check_all
check_all_total [] q h = ([], refl, λ m _. m)
check_all_total (p ∷ ps) q ((b, asked), h) =
    let (rest, e, keeps) = check_all_total ps q h in
    (
      if b then p ∷ rest else rest,
      rw asked (rw e),
      λ m a. elim (Memᴰ.cases_cons m) [
        | inl same ↦
            let e : b ≡ true = answer_of same asked a in
            subst (λ c. Memᴰ q (if c then p ∷ rest else rest)) (sym e) (Memᴰ.head same)
        | inr later ↦ mem_either b p rest (keeps later a)
      ],
    )

pick_candidate_sound :
    (name : SandboxProvider) (ps : List ISandboxProvider) (q : ISandboxProvider)
    → pick_candidate name ps ≡ ok q
    → Memᴰ q ps
unfolding pick_candidate
pick_candidate_sound name [] q h = cc
pick_candidate_sound name (first ∷ rest) q h =
    elim (Option-cases (find (named name) (first ∷ rest))) [
      | inl e ↦ let same : q ≡ first = ground arith in Memᴰ.head same
      | inr (p, e) ↦
          let same : q ≡ p = ground arith in
          Memᴰ.cast same (find_sound (named name) (first ∷ rest) e).0
    ]

pick_candidate_total :
    (name : SandboxProvider) (ps : List ISandboxProvider) (q : ISandboxProvider)
    → Memᴰ q ps
    → (r : ISandboxProvider) × (pick_candidate name ps ≡ ok r)
unfolding pick_candidate
pick_candidate_total name [] q m = absurd (Memᴰ.not-nil m)
pick_candidate_total name (first ∷ rest) q m =
    elim (Option-cases (find (named name) (first ∷ rest))) [
      | inl e ↦ (first, ground arith)
      | inr (p, e) ↦ (p, ground arith)
    ]

-- The fallback is a listed provider that answered yes and has another name.
fallback_among_sound :
    (excluded next : SandboxProvider) (providers : List ISandboxProvider) (p : ISandboxProvider)
    → fallback_among excluded next providers ≡ ok p
    → Memᴰ p providers × Answers p true × (named excluded p ≡ false)
unfolding fallback_among
fallback_among_sound excluded next providers p h =
    let others = filter (λ q. not (named excluded q)) providers in
    let (candidates, checked, picked) = bind-eq-ok (check_all others) (pick_candidate next) h in
    let (listed, answered) =
      check_all_sound others candidates p checked (pick_candidate_sound next candidates p picked) in
    let (there, other) = mem-filter_sound (λ q. not (named excluded q)) providers listed in
    (there, answered, ground (arith, other))

fallback_among_total :
    (excluded next : SandboxProvider) (providers : List ISandboxProvider) (q : ISandboxProvider)
    → All (λ p. (b : Bool) × Answers p b) providers
    → Memᴰ q providers
    → Answers q true
    → named excluded q ≡ false
    → (r : ISandboxProvider) × (fallback_among excluded next providers ≡ ok r)
unfolding fallback_among
fallback_among_total excluded next providers q h m a other =
    let others = filter (λ p. not (named excluded p)) providers in
    let (candidates, checked, keeps) =
      check_all_total others q
        (All-filter (λ p. (b : Bool) × Answers p b) (λ p. not (named excluded p)) providers h) in
    let there : Memᴰ q others = mem-filter (λ p. not (named excluded p)) providers m (rw other) in
    let (r, picked) = pick_candidate_total next candidates q (keeps there a) in
    (r, rw checked picked)

checked_or_total :
    (name next : SandboxProvider) (providers : List ISandboxProvider) (first q : ISandboxProvider)
    → All (λ p. (b : Bool) × Answers p b) providers
    → find (named name) providers ≡ some first
    → Memᴰ q providers
    → Answers q true
    → named name q ≡ false
    → (r : ISandboxProvider) × (checked_or (fallback_among name next providers) name providers
        ≡ ok r)
unfolding checked_or
checked_or_total name next providers first q h e m a other =
    let (b, asked) =
      All-mem (λ p. (b : Bool) × Answers p b) providers h (find_sound (named name) providers e).0 in
    rw (e, checked_or) (go b asked)
  where
    go :
        (b : Bool)
        → Answers first b
        → (r : ISandboxProvider) × ((first.is_available >>= λ available.
              if available then ok first else fallback_among name next providers)
            ≡ ok r)
    go true asked = (first, ground arith)
    go false asked =
        let (r, k) = fallback_among_total name next providers q h m a other in (r, ground arith)

-- The two ways in which a provider is chosen.
pub data Chosen (name : SandboxProvider) (providers : List ISandboxProvider) (p : ISandboxProvider)
    : Type 0 where
  -- The given provider of the estimated name is available.
  estimated : named name p ≡ true → Chosen name providers p
  -- It is not, and another one is taken.
  replaced :
      (first : ISandboxProvider)
      → find (named name) providers ≡ some first
      → Answers first false
      → named name p ≡ false
      → Chosen name providers p

checked_or_sound :
    (name next : SandboxProvider) (providers : List ISandboxProvider) (p : ISandboxProvider)
    → checked_or (fallback_among name next providers) name providers ≡ ok p
    → Memᴰ p providers × Answers p true × Chosen name providers p
unfolding checked_or
checked_or_sound name next providers p h = elim (Option-cases (find (named name) providers)) [
  | inl e ↦ absurd (the_throw e)
  | inr (first, e) ↦
      let h' : (first.is_available >>= branch first) ≡ ok p = rw (e, checked_or) at h in
      let (b, asked, h'') = bind-eq-ok first.is_available (branch first) h' in
      let (there, same) = find_sound (named name) providers e in go first e there same b asked h''
]
  where
    the_throw : find (named name) providers ≡ none → ⊥
    the_throw e = ground (arith, e, h)

    branch : ISandboxProvider → Bool → Result ISandboxProvider
    branch first b = if b then ok first else fallback_among name next providers

    go :
        (first : ISandboxProvider)
        → find (named name) providers ≡ some first
        → Memᴰ first providers
        → named name first ≡ true
        → (b : Bool) → Answers first b
        → branch first b ≡ ok p
        → Memᴰ p providers × Answers p true × Chosen name providers p
    go first e there same true asked k =
        let eq : p ≡ first = cc in (Memᴰ.cast eq there, rw eq asked, estimated (rw eq same))
    go first e there same false asked k =
        let (listed, answered, other) = fallback_among_sound name next providers p k in
        (listed, answered, replaced first e asked other)

module _ {A : Type 0} ⦃n : JsNumber A⦄ (engine : ArbitrageEngine A) (spec : SandboxSpec A)
    (constraints : SandboxConstraints A) (providers : List ISandboxProvider) where
  -- The provider that the engine estimates to be optimal for this call.
  abbrev pub estimate : SandboxProvider
  estimate = (estimate_optimal_provider (register providers engine) spec constraints).provider

  -- A provider that `selectProvider` returns is one of the given ones and answered that it is
  -- available; it has the estimated name, or it has another and the first given provider of the
  -- estimated name answered that it is not available.
  pub select_provider_sound :
      (p : ISandboxProvider)
      → (select_provider engine spec constraints providers).1 ≡ ok p
      → Memᴰ p providers × Answers p true × Chosen estimate providers p
  unfolding select_provider select_fallback_provider
  select_provider_sound p h = checked_or_sound estimate _ providers p h

  -- If every given provider answers the question whether it is available, one of the estimated
  -- name is given, and one of another name is available, then `selectProvider` returns a provider.
  pub select_provider_total :
      (first q : ISandboxProvider)
      → All (λ p. (b : Bool) × Answers p b) providers
      → find (named estimate) providers ≡ some first
      → Memᴰ q providers
      → Answers q true
      → named estimate q ≡ false
      → (r : ISandboxProvider) × ((select_provider engine spec constraints providers).1 ≡ ok r)
  unfolding select_provider select_fallback_provider
  select_provider_total first q h e m a other =
      checked_or_total estimate _ providers first q h e m a other
