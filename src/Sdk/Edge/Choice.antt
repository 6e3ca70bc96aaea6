-- ===== src/Sdk/Edge/Choice.antt =====
-- packages/sdk/src/edge-mode.ts: the choice among the available agents.
use sandstorm_monorepo.Common.{true, false, some, List, [], ◌∷◌, Memᴰ, ◌≡◌, All, arith}
use sandstorm_monorepo.Common.Number.{JsNumber, IsOrdered}
use sandstorm_monorepo.Common.Sorting.{sort_by, IsFirst, sort_by-IsFirst}
use sandstorm_monorepo.Sdk.Edge.{first_client, no_later, closest}

module _ {A : Type 0} ⦃n : JsNumber A⦄ (ordered : IsOrdered n) {B : Type 0} where
  -- Where a client is chosen by its latency, it is one of those asked, and none of them has a lower one.
  -- The order of the latencies is a strict weak one.
  pub closest-least :
      (latencies : List (B × A)) (client : B)
      → closest latencies ≡ some client
      → (latency : A) × Memᴰ (client, latency) latencies
        × All (λ (entry : B × A). n.lt entry.1 latency ≡ false) latencies
  closest-least latencies client e = chosen (sort_by no_later latencies) first e
    where
      first : IsFirst no_later latencies (sort_by no_later latencies)
      first =
          sort_by-IsFirst no_later (λ (b, l). ground (arith, ordered.lt_irrefl l))
            (λ (b, l) (c, k) h. ground (arith, h, ordered.lt_asymm k l))
            (λ (b, l) (c, k) (d, j) h g. ground (arith, h, g, ordered.le_trans l k j)) latencies

      none_lower :
          (b : B) (l : A) (xs : List (B × A))
          → All (λ x. no_later (b, l) x ≡ true) xs
          → All (λ (entry : B × A). n.lt entry.1 l ≡ false) xs
      none_lower b l [] h = tt
      none_lower b l ((c, k) ∷ xs) (h, hs) = (ground (arith, h), none_lower b l xs hs)

      chosen :
          (sorted : List (B × A))
          → IsFirst no_later latencies sorted
          → first_client sorted ≡ some client
          → (latency : A) × Memᴰ (client, latency) latencies
            × All (λ (entry : B × A). n.lt entry.1 latency ≡ false) latencies
      chosen [] h e = absurd (cc e)
      chosen ((b, l) ∷ rest) (m, h) e =
          let same : b ≡ client = ground (arith, e) in
          (l, rw (← same) m, none_lower b l latencies h)
