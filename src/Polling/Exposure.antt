-- ===== src/Polling/Exposure.antt =====
-- What an executed order risks: the cycle of the polling runtime with the budgets of the risk engine.
use bot_ea.Base.{◌≡◌, ◌≢◌, true}
use bot_ea.Base.Number.{Number}
use bot_ea.Base.Library.{Library}
use bot_ea.Risk.Models.{PositionSizeResult}
use bot_ea.Risk.Budget.{IsTotal}
use bot_ea.Risk.Loss.{IsExact, IsBounded, risk_stays_within}
use bot_ea.Session.Stop.{SessionPerformance}
use bot_ea.Polling.Models.{
  open_trade, RuntimeSnapshot, AiIntent, SizeResult, sized, lifecycle, PollingRuntime,
}
use bot_ea.Polling.Cycle.{run_cycle, position_request, lifecycle_size}
use bot_ea.Polling.Cleared.{executes, Cleared, Permitted, opens, manages, run_cycle-Cleared}

module _ {R : Type 0} ⦃num : Number R⦄ ⦃lib : Library R⦄ where
  -- A new position keeps to the budgets of its request; any other order changes what is there.
  pub data Bounded (s : RuntimeSnapshot R) (i : AiIntent R) : SizeResult R → Type 0 where
    within : (r : PositionSizeResult R) → IsBounded (position_request s i) r → Bounded s i (sized r)
    managed : i.action ≢ open_trade → Bounded s i (lifecycle (lifecycle_size s i))

  module _ {E : Type 0} (order : IsTotal R) (exact : IsExact R) (p : PollingRuntime R E) where
    Permitted-Bounded :
        (s : RuntimeSnapshot R) (i : AiIntent R) {size : SizeResult R}
        → Permitted p s i size
        → Bounded s i size
    Permitted-Bounded s i (opens r _ computed accepted) =
        within r (risk_stays_within order exact (position_request s i) r computed accepted)
    Permitted-Bounded s i (manages other) = managed other

    -- In numbers with exact arithmetic, a cycle that writes a row for an execution has cleared its
    -- checks with an order that changes a position or order, or with an order that opens a position
    -- whose risk cash is positive and within the base risk of its capital and what the limits of daily
    -- loss and of open risk have left in the snapshot of that same cycle, and whose volume loses at most
    -- that cash at the stop, but for the slack of the sizing.
    pub run_cycle-Bounded :
        (performance : SessionPerformance R) (e : E)
        → executes (run_cycle p performance e).rows ≡ true
        → (c : Cleared p performance e (run_cycle p performance e).world) × Bounded c.snapshot
            c.order c.ordered.size
    run_cycle-Bounded performance e h =
        let c = run_cycle-Cleared p performance e h in
        (c, Permitted-Bounded c.snapshot c.order c.ordered.permitted)
