-- ===== src/EdgeAgent/Run.antt =====
-- packages/edge-agent/src/agent.ts: the counters of `EdgeAgent.run`. A call runs in two parts,
-- before and after it awaits the runtime; other calls run in between. Log entries and run metrics
-- are left out.
pub mod Balance
use sandstorm_monorepo.Common.{ℕ, suc, ◌+◌, Bool, true, false, leb, if◌then◌else◌}

-- A number that is counted up and down, as the numbers of times that each was done: the code's
-- value is `up - down`, which may be negative.
pub record Counter : Type 0 where
  pub up : ℕ
  pub down : ℕ

abbrev pub inc : Counter → Counter
inc c = record c { up = suc c.up }

abbrev pub dec : Counter → Counter
dec c = record c { down = suc c.down }

-- `value >= limit`
abbrev pub at_least : ℕ → Counter → Bool
at_least limit c = leb (limit + c.down) c.up

pub record Stats : Type 0 where
  pub running : Counter
  pub completed : ℕ
  pub failed : ℕ
  pub queued : Counter

abbrev pub no_runs : Stats
no_runs = record {
  running = record { up = 0; down = 0 };
  completed = 0;
  failed = 0;
  queued = record { up = 0; down = 0 };
}

-- Whether the call went on to the runtime, or threw and was counted by the `catch`.
pub data Begun : Type 0 where
  admitted rejected : Begun

-- The `catch`.
abbrev pub count_failure : Stats → Stats
count_failure s = record s { failed = suc s.failed; running = dec s.running }

-- Up to the call of the runtime.
unfoldable pub begin_run : ℕ → Stats → Stats × Begun
begin_run max_concurrent s =
    let entered = record s { queued = inc s.queued } in
    if at_least max_concurrent entered.running
    then (count_failure entered, rejected)
    else (record entered { running = inc entered.running; queued = dec entered.queued }, admitted)

-- Once the runtime has answered; false stands for a rejected promise.
unfoldable pub finish_run : Bool → Stats → Stats
finish_run true s = record s { completed = suc s.completed; running = dec s.running }
finish_run false s = count_failure s

-- `getQuota().used`
abbrev pub used_quota : Stats → ℕ
used_quota s = s.completed + s.failed
