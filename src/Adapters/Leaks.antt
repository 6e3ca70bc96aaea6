-- ===== src/Adapters/Leaks.antt =====
-- What a run leaves behind, for every adapter: the sandboxes that the provider keeps as active and
-- those that live on the service.
use sandstorm_monorepo.Common.{List, ◌∷◌, ◌≡◌, refl, sym, subst, ap, ◌⊎◌, inl, inr}
use sandstorm_monorepo.Common.Sublists.{Sublist, keep, Sublist-trans}
use sandstorm_monorepo.Common.Io.{Answer, thrown, returned, change, swallow}
use sandstorm_monorepo.Common.Io.Logic.{
  Threw, Post, Ends, Keeps, change-Ends, swallow-Ends, relax-Ends, fails-Ends,
}
use sandstorm_monorepo.Adapters.World.{World, with_remote, call, on_provider}

module _ {S R : Type 0} where
  with_remote-Post :
      {A : Type 0} (Q : A → World S R → Type 0) (E : World S R → Type 0) (s : S) (r : Answer A × R)
      → Post
          (λ a t. Q a (record { provider = s; remote = t }))
          (λ t. E (record { provider = s; remote = t }))
          r
      → Post Q E (with_remote s r)
  with_remote-Post Q E s (thrown e, t) q = q
  with_remote-Post Q E s (returned a, t) q = q

  pub call-Ends :
      {A : Type 0} {P : World S R → Type 0} {Q : A → World S R → Type 0} {E : World S R → Type 0}
      (op : R → Answer A × R)
      → ((w : World S R)
          → P w
          → Post
              (λ a t. Q a (record w { remote = t }))
              (λ t. E (record w { remote = t }))
              (op w.remote))
      → Ends P (call op) Q E
  unfolding call
  call-Ends {Q = Q} {E} op h = record {
    run = λ w p. with_remote-Post Q E w.provider (op w.remote) (h w p);
  }

-- The last call of the service was this one, it threw, and its state is what that call left.
pub record Refused {R A : Type 0} (op : R → Answer A × R) (s : R) : Type 0 where
  pub before : R
  pub refused : Threw (op before).0
  pub after_is : (op before).1 ≡ s

-- The active sandboxes of the provider are `active`, and those on the service are at most `on_service`:
-- a service may end a sandbox by itself at any time, by its timeout.
module _ {S R H : Type 0} {K : Type 0} (active : S → List K) (live : R → List H) where
  pub record Held (kept : List K) (on_service : List H) (w : World S R) : Type 0 where
    pub active_is : active w.provider ≡ kept
    pub at_most : Sublist (live w.remote) on_service

  -- The sandbox h may still live, since the call that should have ended it threw.
  pub record Unended {A : Type 0} (op : R → Answer A × R) (kept : List K) (h : H)
      (on_service : List H) (w : World S R) : Type 0 where
    pub held : Held kept (h ∷ on_service) w
    pub at_fault : Refused op w.remote

  module _ {kept : List K} {on_service : List H} where
    -- A call that creates no sandbox.
    pub call-Held :
        {A : Type 0} (op : R → Answer A × R)
        → ((r : R) → Sublist (live (op r).1) (live r))
        → Keeps (Held kept on_service) (call op)
    call-Held {A = A} op h = call-Ends op λ w p. go w (op w.remote) p (h w.remote)
      where
        go :
            (w : World S R) (r : Answer A × R)
            → Held kept on_service w
            → Sublist (live r.1) (live w.remote)
            → Post
                (λ _ t. Held kept on_service (record w { remote = t }))
                (λ t. Held kept on_service (record w { remote = t }))
                r
        go w (thrown e, t) p less = record {
          active_is = p.active_is;
          at_most = Sublist-trans _ _ _ less p.at_most;
        }
        go w (returned a, t) p less = record {
          active_is = p.active_is;
          at_most = Sublist-trans _ _ _ less p.at_most;
        }

    -- A change of the provider that keeps the active sandboxes, and one that does not.
    pub change-Held :
        {E : World S R → Type 0} {next : List K} (f : S → S)
        → ((s : S) → active s ≡ kept → active (f s) ≡ next)
        → Ends (Held kept on_service) (change (on_provider f)) (λ _. Held next on_service) E
    change-Held f h =
        change-Ends _ λ w p. record { active_is = h w.provider p.active_is; at_most = p.at_most }

    -- The same where a sandbox could not be ended.
    pub change-Unended :
        {A : Type 0} {op : R → Answer A × R} {E : World S R → Type 0} {next : List K} {h : H}
        (f : S → S)
        → ((s : S) → active s ≡ kept → active (f s) ≡ next)
        → Ends
            (λ w. Held kept on_service w ⊎ Unended op kept h on_service w)
            (change (on_provider f))
            (λ _ w. Held next on_service w ⊎ Unended op next h on_service w)
            E
    change-Unended {A} {op} {next = next} {h} f law = change-Ends _ go
      where
        go :
            (w : World S R)
            → Held kept on_service w ⊎ Unended op kept h on_service w
            → Held next on_service (on_provider f w)
              ⊎ Unended op next h on_service (on_provider f w)
        go w (inl p) = inl (record { active_is = law w.provider p.active_is; at_most = p.at_most })
        go w (inr p) = inr (record {
          held = record { active_is = law w.provider p.held.active_is; at_most = p.held.at_most };
          at_fault = p.at_fault;
        })

  -- A call that creates a sandbox.
  pub create-Held :
      {kept : List K} {on_service : List H} (op : R → Answer H × R)
      → ((r : R)
          → Post (λ h t. Sublist (live t) (h ∷ live r)) (λ t. Sublist (live t) (live r)) (op r))
      → Ends
          (Held kept on_service)
          (call op)
          (λ h. Held kept (h ∷ on_service))
          (Held kept on_service)
  create-Held {kept} {on_service} op law = call-Ends op λ w p. go w (op w.remote) p (law w.remote)
    where
      go :
          (w : World S R) (r : Answer H × R)
          → Held kept on_service w
          → Post
              (λ h t. Sublist (live t) (h ∷ live w.remote))
              (λ t. Sublist (live t) (live w.remote))
              r
          → Post
              (λ h t. Held kept (h ∷ on_service) (record w { remote = t }))
              (λ t. Held kept on_service (record w { remote = t }))
              r
      go w (thrown e, t) p less = record {
        active_is = p.active_is;
        at_most = Sublist-trans _ _ _ less p.at_most;
      }
      go w (returned h, t) p more = record {
        active_is = p.active_is;
        at_most = Sublist-trans _ _ _ more (keep h p.at_most);
      }

  -- A call that ends the sandbox h where it returns, and may throw.
  pub end-Held :
      {kept : List K} {on_service : List H} {A : Type 0} (h : H) (op : R → Answer A × R)
      → ((r : R) → Sublist (live (op r).1) (live r))
      → ((r : R)
          → Sublist (live r) (h ∷ on_service)
          → Post (λ _ t. Sublist (live t) on_service) (λ _. Unit {0}) (op r))
      → Ends
          (Held kept (h ∷ on_service))
          (call op)
          (λ _. Held kept on_service)
          (Unended op kept h on_service)
  end-Held {kept} {on_service} {A} h op keeps ends =
      call-Ends op λ w p. go w (op w.remote) refl p (keeps w.remote) (ends w.remote p.at_most)
    where
      go :
          (w : World S R) (r : Answer A × R)
          → op w.remote ≡ r
          → Held kept (h ∷ on_service) w
          → Sublist (live r.1) (live w.remote)
          → Post (λ _ t. Sublist (live t) on_service) (λ _. Unit {0}) r
          → Post
              (λ _ t. Held kept on_service (record w { remote = t }))
              (λ t. Unended op kept h on_service (record w { remote = t }))
              r
      go w (thrown e, t) same p less _ = record {
        held = record { active_is = p.active_is; at_most = Sublist-trans _ _ _ less p.at_most };
        at_fault = record {
          before = w.remote;
          refused = subst (λ (x : Answer A × R). Threw x.0) (sym same) tt;
          after_is = ap (λ (x : Answer A × R). x.1) same;
        };
      }
      go w (returned a, t) same p less gone = record { active_is = p.active_is; at_most = gone }

  -- A call that neither creates nor ends a sandbox, where its throw is a failure of h.
  pub refuse-Held :
      {kept : List K} {on_service : List H} {A : Type 0} (h : H) (op : R → Answer A × R)
      → ((r : R) → Sublist (live (op r).1) (live r))
      → Ends
          (Held kept (h ∷ on_service))
          (call op)
          (λ _. Held kept (h ∷ on_service))
          (Unended op kept h on_service)
  refuse-Held {kept} {on_service} {A} h op keeps =
      call-Ends op λ w p. go w (op w.remote) refl p (keeps w.remote)
    where
      less_than :
          (w : World S R) (t : R)
          → Held kept (h ∷ on_service) w
          → Sublist (live t) (live w.remote)
          → Held kept (h ∷ on_service) (record w { remote = t })
      less_than w t p less = record {
        active_is = p.active_is;
        at_most = Sublist-trans _ _ _ less p.at_most;
      }

      go :
          (w : World S R) (r : Answer A × R)
          → op w.remote ≡ r
          → Held kept (h ∷ on_service) w
          → Sublist (live r.1) (live w.remote)
          → Post
              (λ _ t. Held kept (h ∷ on_service) (record w { remote = t }))
              (λ t. Unended op kept h on_service (record w { remote = t }))
              r
      go w (thrown e, t) same p less = record {
        held = less_than w t p less;
        at_fault = record {
          before = w.remote;
          refused = subst (λ (x : Answer A × R). Threw x.0) (sym same) tt;
          after_is = ap (λ (x : Answer A × R). x.1) same;
        };
      }
      go w (returned a, t) same p less = less_than w t p less

  -- The same, with the error swallowed.
  pub swallow_end-Held :
      {kept : List K} {on_service : List H} {A : Type 0} {E : World S R → Type 0} (h : H)
      (op : R → Answer A × R)
      → ((r : R) → Sublist (live (op r).1) (live r))
      → ((r : R)
          → Sublist (live r) (h ∷ on_service)
          → Post (λ _ t. Sublist (live t) on_service) (λ _. Unit {0}) (op r))
      → Ends
          (Held kept (h ∷ on_service))
          (swallow (call op))
          (λ _ w. Held kept on_service w ⊎ Unended op kept h on_service w)
          E
  swallow_end-Held h op keeps ends =
      swallow-Ends (relax-Ends (fails-Ends (end-Held h op keeps ends) λ w p. inr p) λ _ w p. inl p)
