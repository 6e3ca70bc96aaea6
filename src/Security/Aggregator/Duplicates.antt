-- ===== src/Security/Aggregator/Duplicates.antt =====
-- packages/security/src/aggregator.ts: what `deduplicate` keeps.
use mathlib.Core.List.Memᴰ
use sandstorm_monorepo.Common.{
  ℕ, ◌+◌, ◌≤◌, ◌<◌, String, ◌≡◌, refl, sym, subst, ◌⊎◌, inl, inr, Bool, true, false, Option, none,
  some, List, [], ◌∷◌, ◌==◌, string_eq, Memᴰ, Bool-cases, arith, ltb→lt,
}
use sandstorm_monorepo.Common.Dict.{get, set, get-set}
use sandstorm_monorepo.Common.Sublists.{Sublist, none_left, keep, skip}
use sandstorm_monorepo.Core.Security.{SecurityEvent}
use sandstorm_monorepo.Security.Aggregator.{get_event_key, is_new, dedup_from, deduplicate}

module _ (get_time : String → ℕ) where
  -- An event of the same key that is more than the window later.
  abbrev pub Later : ℕ → SecurityEvent → SecurityEvent → Type 0
  Later window d e =
      get_event_key d ≡ get_event_key e → window + get_time d.timestamp < get_time e.timestamp

  -- Each item is later than all items before it.
  pub data Spaced (window : ℕ) : List SecurityEvent → Type 0 where
    nothing : Spaced window []
    next :
        {e : SecurityEvent} {es : List SecurityEvent}
        → ((d : SecurityEvent) → Memᴰ d es → Later window e d)
        → Spaced window es
        → Spaced window (e ∷ es)

  after_last :
      (window : ℕ) (e s : SecurityEvent) (o : Option SecurityEvent)
      → is_new get_time window e o ≡ true
      → o ≡ some s
      → window + get_time s.timestamp < get_time e.timestamp
  after_last window e s none new f = absurd (cc)
  after_last window e s (some t) new f =
      let same : t ≡ s = cc in
      subst (λ (x : SecurityEvent). window + get_time x.timestamp < get_time e.timestamp) same
        (ltb→lt _ _ new)

  -- What is kept from here on is later than what was seen last under its key.
  dedup_from-later :
      (window : ℕ) (seen : List (String × SecurityEvent)) (es : List SecurityEvent)
      (s d : SecurityEvent)
      → get (get_event_key d) seen ≡ some s
      → Memᴰ d (dedup_from get_time window seen es)
      → window + get_time s.timestamp < get_time d.timestamp
  unfolding dedup_from
  dedup_from-later window seen [] s d found m = absurd (Memᴰ.not-nil m)
  dedup_from-later window seen (e ∷ es) s d found m =
      go (is_new get_time window e (get (get_event_key e) seen)) refl
        (dedup_from-later window seen es s d found)
        (λ t. dedup_from-later window (set (get_event_key e) e seen) es t d) m
    where
      In : List SecurityEvent → Type 0
      In es = Memᴰ d es

      Goal : SecurityEvent → Type 0
      Goal t = window + get_time t.timestamp < get_time d.timestamp

      kept :
          ((t : SecurityEvent)
            → get (get_event_key d) (set (get_event_key e) e seen) ≡ some t
            → In (dedup_from get_time window (set (get_event_key e) e seen) es)
            → Goal t)
          → is_new get_time window e (get (get_event_key e) seen) ≡ true
          → In (e ∷ dedup_from get_time window (set (get_event_key e) e seen) es)
          → Goal s
      kept rec new k = elim (Memᴰ.cases_cons k) [
        | inl same ↦
            let f = subst (λ x. get (get_event_key x) seen ≡ some s) same found in
            subst (λ (x : SecurityEvent). window + get_time s.timestamp < get_time x.timestamp)
              (sym same) (after_last window e s _ new f)
        | inr later ↦ elim (Bool-cases (get_event_key e == get_event_key d)) [
          | inl eq ↦
              let q = (string_eq.beq_iff (get_event_key e) (get_event_key d)).0 eq in
              let f = subst (λ k. get k seen ≡ some s) (sym q) found in
              let g =
                rec e (rw (get-set (get_event_key e) (get_event_key d) e seen) (rw eq refl))
                  later in
              omega (arith, after_last window e s _ new f, g)
          | inr other ↦
              rec s (rw (get-set (get_event_key e) (get_event_key d) e seen) (rw other found)) later
        ]
      ]

      go :
          (b : Bool)
          → is_new get_time window e (get (get_event_key e) seen) ≡ b
          → (In (dedup_from get_time window seen es) → Goal s)
          → ((t : SecurityEvent)
              → get (get_event_key d) (set (get_event_key e) e seen) ≡ some t
              → In (dedup_from get_time window (set (get_event_key e) e seen) es)
              → Goal t)
          → In (elim b [
            | true ↦ e ∷ dedup_from get_time window (set (get_event_key e) e seen) es
            | false ↦ dedup_from get_time window seen es
          ])
          → Goal s
      go true new old rec k = kept rec new k
      go false new old rec k = old k

  dedup_from-Spaced :
      (window : ℕ) (seen : List (String × SecurityEvent)) (es : List SecurityEvent)
      → Spaced window (dedup_from get_time window seen es)
  unfolding dedup_from
  dedup_from-Spaced window seen [] = nothing
  dedup_from-Spaced window seen (e ∷ es) =
      let k = get_event_key e in
      let rest = dedup_from-Spaced window (set k e seen) es in
      elim (Bool-cases (is_new get_time window e (get k seen))) [
        | inl new ↦
            rw (new, dedup_from)
              (next
                (λ d m same.
                  dedup_from-later window (set k e seen) es e d
                    (rw (get-set k (get_event_key d) e seen)
                      (rw ((string_eq.beq_iff k (get_event_key d)).1 same) refl))
                    m)
                rest)
        | inr old ↦ rw (old, dedup_from) (dedup_from-Spaced window seen es)
      ]

  dedup_from-Sublist :
      (window : ℕ) (seen : List (String × SecurityEvent)) (es : List SecurityEvent)
      → Sublist (dedup_from get_time window seen es) es
  unfolding dedup_from
  dedup_from-Sublist window seen [] = none_left
  dedup_from-Sublist window seen (e ∷ es) =
      elim (Bool-cases (is_new get_time window e (get (get_event_key e) seen))) [
        | inl new ↦
            rw (new, dedup_from)
              (keep e (dedup_from-Sublist window (set (get_event_key e) e seen) es))
        | inr old ↦ rw (old, dedup_from) (skip e (dedup_from-Sublist window seen es))
      ]

  -- The event d stands for e: it has the same key, and e is not more than the window later.
  abbrev pub StandsFor : ℕ → SecurityEvent → SecurityEvent → Type 0
  StandsFor window e d =
      (get_event_key d ≡ get_event_key e) × (get_time e.timestamp ≤ window + get_time d.timestamp)

  abbrev Covered : ℕ → List (String × SecurityEvent) → List SecurityEvent → SecurityEvent → Type 0
  Covered window seen ds e =
      ((d : SecurityEvent) × Memᴰ d ds × StandsFor window e d)
      ⊎ ((s : SecurityEvent) × (get (get_event_key e) seen ≡ some s)
          × (get_time e.timestamp ≤ window + get_time s.timestamp))

  old_last :
      (window : ℕ) (e : SecurityEvent) (o : Option SecurityEvent)
      → is_new get_time window e o ≡ false
      → (s : SecurityEvent) × (o ≡ some s) × (get_time e.timestamp ≤ window + get_time s.timestamp)
  old_last window e none old = absurd (cc)
  old_last window e (some s) old = (s, refl, ground (arith, old))

  -- An event that is covered once x is kept is covered by x or was so before.
  Covered-by_kept :
      (window : ℕ) (seen : List (String × SecurityEvent)) (x e : SecurityEvent)
      (ds : List SecurityEvent)
      → Covered window (set (get_event_key x) x seen) ds e
      → Covered window seen (x ∷ ds) e
  Covered-by_kept window seen x e ds (inl (d, m, s)) = inl (d, Memᴰ.tail m, s)
  Covered-by_kept window seen x e ds (inr (s, f, le)) =
      elim (Bool-cases (get_event_key x == get_event_key e)) [
        | inl eq ↦
            let q = (string_eq.beq_iff (get_event_key x) (get_event_key e)).0 eq in
            let same : s ≡ x =
              ground (arith, f, eq, get-set (get_event_key x) (get_event_key e) x seen) in
            inl (
              x,
              Memᴰ.head refl,
              (
                q,
                subst (λ (y : SecurityEvent). get_time e.timestamp ≤ window + get_time y.timestamp)
                    same le,
              ),
            )
        | inr other ↦
            inr
              (s, ground (arith, f, other, get-set (get_event_key x) (get_event_key e) x seen), le)
      ]

  dedup_from-Covered :
      (window : ℕ) (seen : List (String × SecurityEvent)) (es : List SecurityEvent)
      (e : SecurityEvent)
      → Memᴰ e es
      → Covered window seen (dedup_from get_time window seen es) e
  unfolding dedup_from
  dedup_from-Covered window seen [] e m = absurd (Memᴰ.not-nil m)
  dedup_from-Covered window seen (x ∷ es) e m =
      elim (Bool-cases (is_new get_time window x (get (get_event_key x) seen))) [
        | inl new ↦
            rw (new, dedup_from)
              (elim (Memᴰ.cases_cons m) [
                | inl same ↦ inl (x, Memᴰ.head refl, rw same (refl, omega arith))
                | inr later ↦
                    Covered-by_kept window seen x e _
                      (dedup_from-Covered window (set (get_event_key x) x seen) es e later)
              ])
        | inr old ↦
            rw (old, dedup_from)
              (elim (Memᴰ.cases_cons m) [
                | inl same ↦
                    let (s, f, le) = old_last window x (get (get_event_key x) seen) old in
                    inr (s, (rw same f), (rw same le))
                | inr later ↦ dedup_from-Covered window seen es e later
              ])
      ]

  -- What `deduplicate` returns are some of the events, in their order; of two of them with the same
  -- key, the later one in the list is more than the window later in time; and each event has one of
  -- its key among them that it is not more than the window later than.
  pub deduplicate-Spaced :
      (events : List SecurityEvent) (window : ℕ)
      → let kept = deduplicate get_time events window in
        Sublist kept events
        × Spaced window kept
        × ((e : SecurityEvent)
            → Memᴰ e events
            → (d : SecurityEvent) × Memᴰ d kept × StandsFor window e d)
  unfolding deduplicate
  deduplicate-Spaced events window = (
    dedup_from-Sublist window [] events,
    dedup_from-Spaced window [] events,
    λ e m. elim (dedup_from-Covered window [] events e m) [
      | inl d ↦ d
      | inr (s, f, le) ↦ absurd (cc)
    ],
  )
