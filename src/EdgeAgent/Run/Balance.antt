-- ===== src/EdgeAgent/Run/Balance.antt =====
-- packages/edge-agent/src/agent.ts: the counters against the runs that really are in the runtime.
use sandstorm_monorepo.Common.{
  ℕ, suc, ◌+◌, ◌≤◌, ◌<◌, ◌≡◌, refl, ap, Bool, true, false, inl, inr, arith, leb, Bool-cases,
}
use sandstorm_monorepo.EdgeAgent.Run.{
  Stats, no_runs, Begun, admitted, rejected, at_least, begin_run, finish_run, used_quota,
}

-- The counters, the runs that the runtime works on, and the calls rejected and ended so far.
pub record World : Type 0 where
  pub stats : Stats
  pub active : ℕ
  pub refused : ℕ
  pub ended : ℕ

abbrev pub begun : Begun → Stats → World → World
begun admitted s w = record w { stats = s; active = suc w.active }
begun rejected s w = record w { stats = s; refused = suc w.refused }

abbrev pub begin : ℕ → World → World
begin max w = let (s, b) = begin_run max w.stats in begun b s w

abbrev pub finish : Bool → ℕ → World → World
finish success active w = record w {
  stats = finish_run success w.stats;
  active = active;
  ended = suc w.ended;
}

pub data Reach (max : ℕ) : World → Type 0 where
  start : Reach max (record { stats = no_runs; active = 0; refused = 0; ended = 0 })
  call : {w : World} → Reach max w → Reach max (begin max w)
  answer :
      {w : World} (success : Bool) (active : ℕ)
      → w.active ≡ suc active
      → Reach max w
      → Reach max (finish success active w)

-- What the counters say: `running` is off by the number of rejected calls, and so is `queued`.
pub record Balanced (max : ℕ) (w : World) : Type 0 where
  pub running : w.stats.running.down + w.active ≡ w.stats.running.up + w.refused
  pub queued : w.stats.queued.up ≡ w.stats.queued.down + w.refused
  pub counted : used_quota w.stats ≡ w.ended + w.refused
  pub bounded : w.active ≤ max + w.refused

begin-Balanced : (max : ℕ) (w : World) → Balanced max w → Balanced max (begin max w)
unfolding begin_run
begin-Balanced max w h = elim (Bool-cases (at_least max w.stats.running)) [
  | inl full ↦ rw full (record {
    running = omega (arith, h.running);
    queued = omega (arith, h.queued);
    counted = omega (arith, h.counted);
    bounded = omega (arith, h.bounded);
  })
  | inr free ↦
      let room : w.stats.running.up < max + w.stats.running.down = ground (arith, free) in
      rw free (record {
        running = omega (arith, h.running);
        queued = omega (arith, h.queued);
        counted = omega (arith, h.counted);
        bounded = omega (arith, h.running, room);
      })
]

-- However calls and answers follow each other: `running` is the number of runs in the runtime less
-- the number of rejected calls, `queued` is the number of rejected calls, `completed` and `failed`
-- together count the calls that are over, and the runtime has at most the configured number of runs
-- plus the number of rejected calls; so before the first rejection the limit is kept and the
-- counters are right.
pub Reach-Balanced : (max : ℕ) (w : World) → Reach max w → Balanced max w
unfolding finish_run
Reach-Balanced max _ start = record {
  running = refl;
  queued = refl;
  counted = refl;
  bounded = omega arith;
}
Reach-Balanced max _ (call {w} r) = begin-Balanced max w (Reach-Balanced max w r)
Reach-Balanced max _ (answer {w} true k e r) =
    let h = Reach-Balanced max w r in
    record {
      running = omega (arith, h.running, e);
      queued = h.queued;
      counted = omega (arith, h.counted);
      bounded = omega (arith, h.bounded, e);
    }
Reach-Balanced max _ (answer {w} false k e r) =
    let h = Reach-Balanced max w r in
    record {
      running = omega (arith, h.running, e);
      queued = h.queued;
      counted = omega (arith, h.counted);
      bounded = omega (arith, h.bounded, e);
    }

-- Where no call was rejected so far and the runtime has as many runs as configured, a call is
-- rejected; but the next one is admitted, and the runtime then has one run more than configured.
pub begin-overadmits :
    (max : ℕ) (w : World)
    → Reach max w
    → w.refused ≡ 0
    → w.active ≡ max
    → ((begin_run max w.stats).1 ≡ rejected)
      × ((begin_run max (begin max w).stats).1 ≡ admitted)
      × ((begin max (begin max w)).active ≡ suc max)
unfolding begin_run
begin-overadmits max w r none_refused full =
    let h = Reach-Balanced max w r in
    let first : at_least max w.stats.running ≡ true =
      ground (arith, h.running, none_refused, full) in
    let second : leb (max + suc w.stats.running.down) w.stats.running.up ≡ false =
      ground (arith, h.running, none_refused, full) in
    rw first (rw second (refl, refl, ap suc full))
