-- ===== src/Security/Dashboard/Alerts.antt =====
-- packages/security/src/dashboard.ts: which alerts the dashboard keeps.
use sandstorm_monorepo.Common.{
  ℕ, zero, suc, ◌+◌, ◌-◌, ◌≤◌, ◌<◌, String, ◌≡◌, refl, ◌∙◌, sym, ap, inl, inr, List, [], ◌∷◌, ◌++◌,
  if◌then◌else◌, ltb, ltb→lt, ◌==◌, string_eq, length, drop, slice_last, arith, Bool-cases,
  length-append, length-drop,
}
use sandstorm_monorepo.Security.Dashboard.{Alert, new_alert, create_alert, acknowledge_alert}

abbrev pub ids : List Alert → List String
ids [] = []
ids (a ∷ es) = a.id ∷ ids es

ids-append : (es bs : List Alert) → ids (es ++ bs) ≡ ids es ++ ids bs
ids-append [] bs = refl
ids-append (a ∷ es) bs = rw (ids-append es bs) refl

ids-drop : (n : ℕ) (es : List Alert) → ids (drop n es) ≡ drop n (ids es)
ids-drop zero es = refl
ids-drop (suc n) [] = refl
ids-drop (suc n) (a ∷ es) = ids-drop n es

length-ids : (es : List Alert) → length (ids es) ≡ length es
length-ids [] = refl
length-ids (a ∷ es) = omega (arith, length-ids es)

drop-append : (n : ℕ) (xs ys : List String) → n ≤ length xs → drop n xs ++ ys ≡ drop n (xs ++ ys)
drop-append zero xs ys h = refl
drop-append (suc n) [] ys h = absurd (omega (arith, h))
drop-append (suc n) (x ∷ xs) ys h = drop-append n xs ys (omega (arith, h))

drop_one-drop : (n : ℕ) (xs : List String) → drop 1 (drop n xs) ≡ drop (suc n) xs
drop_one-drop zero xs = refl
drop_one-drop (suc n) [] = refl
drop_one-drop (suc n) (x ∷ xs) = drop_one-drop n xs

-- Keeping the last n, then adding one and keeping the last n again, is keeping the last n of all.
slice_last-slice_last :
    (n : ℕ) (xs : List String) (x : String)
    → slice_last n (slice_last n xs ++ x ∷ []) ≡ slice_last n (xs ++ x ∷ [])
slice_last-slice_last n xs x = elim (Bool-cases (ltb n (length xs))) [
  | inl more ↦
      let k = length xs - n in
      let all = xs ++ x ∷ [] in
      let longer : n < length xs = ltb→lt _ _ more in
      let whole : length all ≡ length xs + 1 = length-append xs (x ∷ []) in
      let one_more : length (drop k all) - n ≡ 1 =
        omega (arith, longer, whole, length-drop k all) in
      let next : length all - n ≡ suc k = omega (arith, longer, whole) in
      ap (slice_last n) (drop-append k xs (x ∷ []) (omega arith))
      ∙ ap (λ j. drop j (drop k all)) one_more
      ∙ drop_one-drop k all
      ∙ ap (λ j. drop j all) (sym next)
  | inr few ↦
      let short : length xs - n ≡ 0 = ground (arith, few) in
      ap (λ j. slice_last n (drop j xs ++ x ∷ [])) short
]

acknowledge_alert-ids : (id : String) (es : List Alert) → ids (acknowledge_alert id es) ≡ ids es
unfolding acknowledge_alert
acknowledge_alert-ids id [] = refl
acknowledge_alert-ids id (a ∷ es) = elim (Bool-cases (a.id == id)) [
  | inl same ↦ rw same refl
  | inr other ↦ rw other (ap (λ x. a.id ∷ x) (acknowledge_alert-ids id es))
]

keep_last_ids :
    (es : List Alert)
    → ids (if ltb 1000 (length es) then slice_last 1000 es else es) ≡ slice_last 1000 (ids es)
keep_last_ids es = elim (Bool-cases (ltb 1000 (length es))) [
  | inl more ↦
      rw more
        (ids-drop (length es - 1000) es ∙ ap (λ j. drop (j - 1000) (ids es)) (sym (length-ids es)))
  | inr few ↦
      let short : length (ids es) - 1000 ≡ 0 = ground (arith, few, length-ids es) in
      rw few (ap (λ j. drop j (ids es)) (sym short))
]

create_alert-ids :
    (id now severity message : String) (es : List Alert)
    → ids (create_alert id now severity message es) ≡ slice_last 1000 (ids es ++ id ∷ [])
unfolding create_alert
create_alert-ids id now severity message es =
    let last = new_alert id now severity message ∷ [] in
    keep_last_ids (es ++ last) ∙ ap (slice_last 1000) (ids-append es last)

-- The alerts after calls of `createAlert`, with the ids drawn, and of `acknowledgeAlert`.
pub data Reach : List String → List Alert → Type 0 where
  start : Reach [] []
  create :
      {drawn : List String} {es : List Alert} (id now severity message : String)
      → Reach drawn es
      → Reach (drawn ++ id ∷ []) (create_alert id now severity message es)
  acknowledge :
      {drawn : List String} {es : List Alert} (id : String)
      → Reach drawn es
      → Reach drawn (acknowledge_alert id es)

-- However alerts are created and acknowledged, the ids of the alerts that the dashboard holds are
-- those drawn for the last 1000 that were created, in the order of their creation.
pub Reach-ids :
    (drawn : List String) (es : List Alert) → Reach drawn es → ids es ≡ slice_last 1000 drawn
Reach-ids _ _ start = refl
Reach-ids _ _ (create {drawn} {es} id now severity message r) =
    create_alert-ids id now severity message es
    ∙ ap (λ x. slice_last 1000 (x ++ id ∷ [])) (Reach-ids drawn es r)
    ∙ slice_last-slice_last 1000 drawn id
Reach-ids _ _ (acknowledge {drawn} {es} id r) = acknowledge_alert-ids id es ∙ Reach-ids drawn es r
