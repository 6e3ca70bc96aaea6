-- ===== src/Security/Aggregator/Sequences.antt =====
-- packages/security/src/aggregator.ts: what `findSequence` finds.
use sandstorm_monorepo.Common.{
  String, ◌≡◌, ◌≢◌, ◌⊎◌, refl, subst, ap, inl, inr, true, false, Option, none, some, List, [], ◌∷◌,
  ◌==◌, string_eq, Bool-cases,
}
use sandstorm_monorepo.Common.Sublists.{Sublist, none_left, keep, skip, nothing_of}
use sandstorm_monorepo.Core.Security.{SecurityEvent, type_name}
use sandstorm_monorepo.Security.Aggregator.{prepend, or_nothing, find_next, find_sequence}

abbrev pub types_of : List SecurityEvent → List String
types_of [] = []
types_of (e ∷ es) = type_name e.event_type ∷ types_of es

-- What is found is some of the events, in order, of the types of the sequence.
pub record Found (es : List SecurityEvent) (sequence : List String) (found : List SecurityEvent)
    : Type 0 where
  pub among : Sublist found es
  pub types : types_of found ≡ sequence

Found-skip :
    (e : SecurityEvent) (es : List SecurityEvent) (ts : List String) (xs : List SecurityEvent)
    → Found es ts xs
    → Found (e ∷ es) ts xs
Found-skip e es ts xs f = record { among = skip e f.among; types = f.types }

-- Finding one more item, with what was found after it.
find_next-Found_one :
    (e : SecurityEvent) (es : List SecurityEvent) (t : String) (xs : List SecurityEvent)
    → ((ys : List SecurityEvent) → find_next es (t ∷ []) ≡ some ys → Found es (t ∷ []) ys)
    → find_next (e ∷ es) (t ∷ []) ≡ some xs
    → Found (e ∷ es) (t ∷ []) xs
unfolding find_next
find_next-Found_one e es t xs rec h = elim (Bool-cases (type_name e.event_type == t)) [
  | inl same ↦
      let eq : type_name e.event_type ≡ t = (string_eq.beq_iff (type_name e.event_type) t).0 same in
      let only : some (e ∷ []) ≡ some xs = rw (same, find_next) at h in
      let it : e ∷ [] ≡ xs = cc in
      subst (Found (e ∷ es) (t ∷ [])) it
        (record { among = keep e (nothing_of es); types = ap (λ x. x ∷ []) eq })
  | inr other ↦ Found-skip e es (t ∷ []) xs (rec xs (rw (other, find_next) at h))
]

find_next-Found_more :
    (e : SecurityEvent) (es : List SecurityEvent) (t u : String) (ts : List String)
    (xs : List SecurityEvent)
    → ((rs : List String) (ys : List SecurityEvent) → find_next es rs ≡ some ys → Found es rs ys)
    → find_next (e ∷ es) (t ∷ u ∷ ts) ≡ some xs
    → Found (e ∷ es) (t ∷ u ∷ ts) xs
unfolding find_next
find_next-Found_more e es t u ts xs rec h = elim (Bool-cases (type_name e.event_type == t)) [
  | inl same ↦
      let eq : type_name e.event_type ≡ t = (string_eq.beq_iff (type_name e.event_type) t).0 same in
      go eq (find_next es (u ∷ ts)) (rec (u ∷ ts)) (rw (same, find_next) at h)
  | inr other ↦ Found-skip e es (t ∷ u ∷ ts) xs (rec (t ∷ u ∷ ts) xs (rw (other, find_next) at h))
]
  where
    go :
        type_name e.event_type ≡ t
        → (rest : Option (List SecurityEvent))
        → ((ys : List SecurityEvent) → rest ≡ some ys → Found es (u ∷ ts) ys)
        → prepend e rest ≡ some xs
        → Found (e ∷ es) (t ∷ u ∷ ts) xs
    go eq none f k = absurd (cc)
    go eq (some ys) f k =
        let g = f ys refl in
        let it : e ∷ ys ≡ xs = cc in
        subst (Found (e ∷ es) (t ∷ u ∷ ts)) it
          (record { among = keep e g.among; types = rw (eq, g.types) refl })

find_next-Found :
    (es : List SecurityEvent) (ts : List String) (xs : List SecurityEvent)
    → find_next es ts ≡ some xs
    → Found es ts xs
unfolding find_next
find_next-Found [] ts xs h = absurd (cc)
find_next-Found (e ∷ es) [] xs h = absurd (cc)
find_next-Found (e ∷ es) (t ∷ []) xs h =
    find_next-Found_one e es t xs (find_next-Found es (t ∷ [])) h
find_next-Found (e ∷ es) (t ∷ u ∷ ts) xs h =
    find_next-Found_more e es t u ts xs (find_next-Found es) h

-- A sublist whose types begin with t and go on with ts starts here or later.
Starts : List SecurityEvent → List String → Type 0
Starts es ts = (zs : List SecurityEvent) × Sublist zs es × (types_of zs ≡ ts)

tail-Starts :
    (ys es : List SecurityEvent) (t : String) (ts : List String)
    → Sublist ys es
    → types_of ys ≡ t ∷ ts
    → Starts es ts
unfolding Starts
tail-Starts _ _ t ts none_left h = absurd (cc)
tail-Starts _ _ t ts (keep {xs} y s) h = (xs, skip y s, cc)
tail-Starts ys _ t ts (skip {ys = es} y s) h =
    let (zs, k, e) = tail-Starts ys es t ts s h in (zs, skip y k, e)

here_or_later :
    (e : SecurityEvent) (ys es : List SecurityEvent) (t : String) (ts : List String)
    → Sublist ys (e ∷ es)
    → types_of ys ≡ t ∷ ts
    → ((type_name e.event_type ≡ t) × Starts es ts) ⊎ Sublist ys es
unfolding Starts
here_or_later e _ es t ts (keep {xs} _ s) h = inl (cc, (xs, s, cc))
here_or_later e ys es t ts (skip _ s) h = inr s

tail_after :
    (e : SecurityEvent) (ys es : List SecurityEvent) (t : String) (ts : List String)
    → Sublist ys (e ∷ es)
    → types_of ys ≡ t ∷ ts
    → Starts es ts
tail_after e ys es t ts s h = elim (here_or_later e ys es t ts s h) [
  | inl (_, later) ↦ later
  | inr later ↦ tail-Starts ys es t ts later h
]

clash :
    (e : SecurityEvent) (t : String)
    → type_name e.event_type ≡ t
    → (type_name e.event_type == t) ≡ false
    → ⊥
clash e t eq other =
    let same : (type_name e.event_type == t) ≡ true =
      (string_eq.beq_iff (type_name e.event_type) t).1 eq in
    cc

exists-find_next :
    (es ys : List SecurityEvent) (t : String) (ts : List String)
    → Sublist ys es
    → types_of ys ≡ t ∷ ts
    → (xs : List SecurityEvent) × (find_next es (t ∷ ts) ≡ some xs)
unfolding find_next Starts
exists-find_next [] _ t ts none_left h = absurd (cc)
exists-find_next (e ∷ es) ys t [] s h = elim (Bool-cases (type_name e.event_type == t)) [
  | inl same ↦ (e ∷ [], rw (same, find_next) refl)
  | inr other ↦ elim (here_or_later e ys es t [] s h) [
    | inl (eq, _) ↦ absurd (clash e t eq other)
    | inr later ↦ let (xs, f) = exists-find_next es ys t [] later h in (xs, rw (other, find_next) f)
  ]
]
exists-find_next (e ∷ es) ys t (u ∷ ts) s h = elim (Bool-cases (type_name e.event_type == t)) [
  | inl same ↦
      let (zs, k, types) = tail_after e ys es t (u ∷ ts) s h in
      let (xs, f) = exists-find_next es zs u ts k types in
      (e ∷ xs, rw (same, find_next) (rw f refl))
  | inr other ↦ elim (here_or_later e ys es t (u ∷ ts) s h) [
    | inl (eq, _) ↦ absurd (clash e t eq other)
    | inr later ↦
        let (xs, f) = exists-find_next es ys t (u ∷ ts) later h in (xs, rw (other, find_next) f)
  ]
]

-- For a sequence of at least one type: `findSequence` returns events of exactly these types in the
-- order in which they stand among the events, or the empty list; and it returns the empty list only
-- where no events of these types stand in this order.
pub find_sequence-Found :
    (events : List SecurityEvent) (t : String) (ts : List String)
    → let found = find_sequence events (t ∷ ts) in
      (Found events (t ∷ ts) found ⊎ (found ≡ []))
      × (found ≡ [] → (ys : List SecurityEvent) → Sublist ys events → types_of ys ≢ t ∷ ts)
unfolding find_sequence
find_sequence-Found events t ts =
    go (find_next events (t ∷ ts)) (find_next-Found events (t ∷ ts))
      (λ ys s h. exists-find_next events ys t ts s h)
  where
    go :
        (o : Option (List SecurityEvent))
        → ((xs : List SecurityEvent) → o ≡ some xs → Found events (t ∷ ts) xs)
        → ((ys : List SecurityEvent)
            → Sublist ys events
            → types_of ys ≡ t ∷ ts
            → (xs : List SecurityEvent) × (o ≡ some xs))
        → (Found events (t ∷ ts) (or_nothing o) ⊎ (or_nothing o ≡ []))
          × (or_nothing o ≡ []
              → (ys : List SecurityEvent) → Sublist ys events
              → types_of ys ≢ t ∷ ts)
    go none sound complete = (inr refl, λ e ys s h. let (xs, f) = complete ys s h in cc)
    go (some xs) sound complete =
        let f = sound xs refl in
        (
          inl f,
          λ e ys s h.
              let none_of : types_of [] ≡ t ∷ ts = subst (λ z. types_of z ≡ t ∷ ts) e f.types in cc,
        )
