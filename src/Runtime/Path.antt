-- ===== src/Runtime/Path.antt =====
-- What became of a signal: `resolve_signal_path` of gold_engine_core/causal_replay.py, over the numbers
-- of its prices. Times are integers, as in a signal plan.
use bot_ea.Base.{Bool, Option, none, some, String, List, [], ◌∷◌, if◌then◌else◌}
use bot_ea.Base.Int.{ℤ, leb_ℤ, ltb_ℤ}
use bot_ea.Base.Number.{Number, ◌≤R◌}
use bot_ea.Execution.Signal.{is_buy, Tick, SignalPlan}

pub data ReplayTradeResult : Type 0 where
  target stop still_open no_post_entry_path : ReplayTradeResult

pub record ReplayTradeOutcome (R : Type 0) : Type 0 where
  pub signal_id : String
  pub result : ReplayTradeResult
  pub resolved_at : Option ℤ
  pub resolved_price : Option R
  pub source : String

-- Of a bar, what the function reads.
pub record PriceBar (R : Type 0) : Type 0 where
  pub close_time : ℤ
  pub high : R
  pub low : R

unfoldable pub first_hit : {A O : Type 0} → (A → Option O) → List A → Option O
first_hit hit [] = none
first_hit hit (x ∷ xs) = elim (hit x) [ some o ↦ some o | none ↦ first_hit hit xs ]

-- `tuple(item for item in items if test)`
unfoldable pub keep_if : {A : Type 0} → (A → Bool) → List A → List A
keep_if test [] = []
keep_if test (x ∷ xs) = if test x then x ∷ keep_if test xs else keep_if test xs

module _ {R : Type 0} ⦃num : Number R⦄ (plan : SignalPlan R) where
  abbrev pub post_ticks : List (Tick R) → List (Tick R)
  post_ticks = keep_if (λ t. leb_ℤ plan.entry_ready_at t.time)

  abbrev pub post_bars : List (PriceBar R) → List (PriceBar R)
  post_bars = keep_if (λ b. ltb_ℤ plan.entry_ready_at b.close_time)

  abbrev pub tick_price : Tick R → R
  tick_price t = if is_buy plan.side then t.bid else t.ask

  abbrev pub tick_stops : Tick R → Bool
  tick_stops t = if is_buy plan.side then t.bid ≤R plan.planned_stop else plan.planned_stop ≤R t.ask

  abbrev pub tick_targets : Tick R → Bool
  tick_targets t =
      if is_buy plan.side then plan.planned_target ≤R t.bid else t.ask ≤R plan.planned_target

  abbrev pub bar_stops : PriceBar R → Bool
  bar_stops b = if is_buy plan.side then b.low ≤R plan.planned_stop else plan.planned_stop ≤R b.high

  abbrev pub bar_targets : PriceBar R → Bool
  bar_targets b =
      if is_buy plan.side then plan.planned_target ≤R b.high else b.low ≤R plan.planned_target

  abbrev pub outcome : ReplayTradeResult → Option ℤ → Option R → String → ReplayTradeOutcome R
  outcome result at price source = record {
    signal_id = plan.signal_id;
    result = result;
    resolved_at = at;
    resolved_price = price;
    source = source;
  }

  unfoldable pub tick_hit : Tick R → Option (ReplayTradeOutcome R)
  tick_hit t =
      if tick_stops t
      then some (outcome stop (some t.time) (some (tick_price t)) "TICK")
      else if tick_targets t
      then some (outcome target (some t.time) (some (tick_price t)) "TICK")
      else none

  unfoldable pub bar_hit : PriceBar R → Option (ReplayTradeOutcome R)
  bar_hit b =
      if bar_stops b
      then some (outcome stop (some b.close_time) (some plan.planned_stop) "BAR_CONSERVATIVE")
      else if bar_targets b
      then some (outcome target (some b.close_time) (some plan.planned_target) "BAR_CONSERVATIVE")
      else none

  -- The outcome of a path that hits neither price.
  abbrev pub unresolved : List (Tick R) → List (PriceBar R) → ReplayTradeOutcome R
  unresolved [] [] = outcome no_post_entry_path none none "NONE"
  unresolved (_ ∷ _) bars = outcome still_open none none "UNRESOLVED"
  unresolved [] (_ ∷ _) = outcome still_open none none "UNRESOLVED"

  abbrev pub or_outcome :
      Option (ReplayTradeOutcome R) → ReplayTradeOutcome R → ReplayTradeOutcome R
  or_outcome (some o) other = o
  or_outcome none other = other

  -- `resolve_signal_path`
  unfoldable pub resolve_signal_path : List (Tick R) → List (PriceBar R) → ReplayTradeOutcome R
  resolve_signal_path ticks bars = or_outcome (first_hit tick_hit (post_ticks ticks)) (
      or_outcome (first_hit bar_hit (post_bars bars))
        (unresolved (post_ticks ticks) (post_bars bars)))
