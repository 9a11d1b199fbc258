-- ===== src/Execution/Order.antt =====
-- `validate_execution` of gold_engine_core/execution.py: its checks in their order, the reasons to
-- reject, and the order that is sent when there is none.
use bot_ea.Base.{Bool, not, ◌&&◌, ◌||◌, none, some, List, [], ◌∷◌, str_eq, one_of, if◌then◌else◌}
use bot_ea.Base.Int.{pos, ◌-ℤ◌, leb_ℤ, ltb_ℤ}
use bot_ea.Base.Number.{Number, ◌+R◌, ◌-R◌, ◌*R◌, ◌/R◌, ◌<R◌, ◌≤R◌, ◌=R◌, zero_R, max_R, abs_R}
use bot_ea.Execution.Signal.{Side, buy, sell, TradeMode, SignalPlan, ProfileConfig, aligned}
use bot_ea.Execution.Contract.{ExecutionPolicy, ExecutionContext}
pub use bot_ea.Execution.Reasons.{ExecutionOrder, ExecutionReject, ExecutionValidation, spread}
unfoldable pub use bot_ea.Execution.Reasons.{
  appended, microseconds, no_reasons, same_mode, same_reject, same_ℤ, unique, validation_error,
  without_reject,
}
use bot_ea.Execution.Reasons.{
  max_ℤ, profile, policy, age, drift, invalidation, account, server_mode, terminal, duplicate,
  broker_constraint, geometry,
}

module _ {R : Type 0} ⦃num : Number R⦄ where
  -- `a - b` for a BUY plan, `b - a` for a SELL plan
  abbrev pub directed : Side → R → R → R
  directed buy a b = a -R b
  directed sell a b = b -R a

  abbrev pub executable_of : SignalPlan R → ExecutionContext R → R
  executable_of plan c = elim plan.side [ buy ↦ c.quote.ask | sell ↦ c.quote.bid ]

  abbrev pub risk_of : SignalPlan R → ExecutionContext R → R
  risk_of plan c = directed plan.side (executable_of plan c) plan.planned_stop

  abbrev pub reward_of : SignalPlan R → ExecutionContext R → R
  reward_of plan c = directed plan.side plan.planned_target (executable_of plan c)

  abbrev pub gains : SignalPlan R → ExecutionContext R → Bool
  gains plan c = (zero_R <R risk_of plan c) && (zero_R <R reward_of plan c)

  abbrev pub rr_of : SignalPlan R → ExecutionContext R → R
  rr_of plan c = if gains plan c then reward_of plan c /R risk_of plan c else zero_R

  abbrev pub drift_of : SignalPlan R → ExecutionContext R → R
  drift_of plan c =
      max_R zero_R (directed plan.side (executable_of plan c) plan.planned_entry)
      /R plan.planned_risk

  abbrev pub maximum_drift_of : SignalPlan R → R
  maximum_drift_of plan =
      let rr = plan.minimum_executable_rr in
      let boundary =
        (plan.planned_target +R rr *R plan.planned_stop) /R (num.of_int (pos 1) +R rr) in
      max_R zero_R (directed plan.side boundary plan.planned_entry) /R plan.planned_risk

  abbrev pub expected_mode : ProfileConfig R → ExecutionContext R → TradeMode
  expected_mode p c = if c.engineering_demo then p.engineering_trade_mode else p.expected_trade_mode

  abbrev pub minimum_distance : ExecutionContext R → R
  minimum_distance c =
      num.of_int (max_ℤ c.symbol.stops_level_points c.symbol.freeze_level_points) *R c.symbol.point

  unfoldable pub constraints_ok : SignalPlan R → ProfileConfig R → ExecutionContext R → Bool
  constraints_ok plan p c =
      c.symbol.trade_enabled
      && (c.symbol.tick_size =R p.tick_size)
      && (p.tick_size =R plan.tick_size)
      && (c.symbol.volume_minimum ≤R plan.volume)
      && (plan.volume ≤R c.symbol.volume_maximum)
      && aligned plan.volume c.symbol.volume_step
      && aligned plan.planned_entry c.symbol.tick_size
      && aligned plan.planned_stop c.symbol.tick_size
      && aligned plan.planned_target c.symbol.tick_size
      && (minimum_distance c ≤R abs_R (executable_of plan c -R plan.planned_stop))
      && (minimum_distance c ≤R abs_R (plan.planned_target -R executable_of plan c))

  unfoldable pub invalidated : SignalPlan R → ExecutionContext R → Bool
  invalidated plan c = elim plan.side [
    | buy ↦ executable_of plan c ≤R plan.invalidation
    | sell ↦ plan.invalidation ≤R executable_of plan c
  ]

  unfoldable pub geometry_ok : SignalPlan R → ExecutionContext R → Bool
  geometry_ok plan c = elim plan.side [
    | buy ↦
        (plan.planned_stop <R executable_of plan c) && (executable_of plan c <R plan.planned_target)
    | sell ↦
        (plan.planned_target <R executable_of plan c) && (executable_of plan c <R plan.planned_stop)
  ]

  -- The tests in the order of the code, each with the reason that it appends.
  unfoldable pub tests :
      SignalPlan R
      → ProfileConfig R
      → ExecutionPolicy R
      → ExecutionContext R
      → List (Bool × ExecutionReject)
  unfolding ◌-ℤ◌ constraints_ok invalidated geometry_ok
  tests plan p pol c =
      (
        not (str_eq plan.profile_id p.profile_id)
            || not (str_eq plan.profile_version p.profile_version)
            || not (str_eq plan.profile_fingerprint p.manifest_fingerprint),
        profile,
      )
      ∷ (
        not (str_eq pol.profile_id p.profile_id)
            || not (str_eq pol.profile_fingerprint p.manifest_fingerprint)
            || not (plan.maximum_spread =R pol.maximum_spread),
        policy,
      )
      ∷ (
        ltb_ℤ c.quote.time plan.entry_ready_at
            || ltb_ℤ plan.valid_until c.quote.time
            || ltb_ℤ (microseconds pol.maximum_signal_age_seconds)
                (plan.valid_until -ℤ plan.entry_ready_at),
        age,
      )
      ∷ (gains plan c && (rr_of plan c <R plan.minimum_executable_rr), drift)
      ∷ (pol.maximum_spread <R (c.quote.ask -R c.quote.bid), spread)
      ∷ (invalidated plan c, invalidation)
      ∷ (not (same_ℤ c.account.login plan.account_login), account)
      ∷ (
        not (str_eq c.account.server plan.account_server)
            || not (same_mode c.account.trade_mode plan.trade_mode)
            || not (same_mode plan.trade_mode (expected_mode p c)),
        server_mode,
      )
      ∷ (not (str_eq c.account.terminal_identity plan.terminal_identity), terminal)
      ∷ (
        not (str_eq c.symbol.symbol plan.symbol) || not (str_eq plan.symbol p.symbol),
        ExecutionReject.symbol,
      )
      ∷ (not (same_ℤ plan.magic p.magic), ExecutionReject.magic)
      ∷ (leb_ℤ p.max_positions c.exposure.position_count, ExecutionReject.position_count)
      ∷ (p.max_total_lot <R (c.exposure.total_volume +R plan.volume), ExecutionReject.total_volume)
      ∷ (c.account.free_margin <R c.required_margin, ExecutionReject.free_margin)
      ∷ (one_of plan.signal_id c.exposure.active_signal_ids, duplicate)
      ∷ (not (constraints_ok plan p c), broker_constraint)
      ∷ (not (geometry_ok plan c), geometry)
      ∷ (not c.broker_check.allowed, ExecutionReject.broker_check)
      ∷ []

  abbrev pub order_of : SignalPlan R → ProfileConfig R → ExecutionContext R → ExecutionOrder R
  order_of plan p c = record {
    signal_id = plan.signal_id;
    symbol = plan.symbol;
    side = plan.side;
    volume = plan.volume;
    price = executable_of plan c;
    stop = plan.planned_stop;
    target = plan.planned_target;
    magic = plan.magic;
    deviation_points = p.deviation_points;
  }

  -- `validate_execution`
  unfoldable pub validate_execution :
      SignalPlan R
      → ProfileConfig R
      → ExecutionPolicy R
      → ExecutionContext R
      → ExecutionValidation R
  unfolding tests unique appended
  validate_execution plan p pol c =
      let reasons = unique (appended (tests plan p pol c)) in
      record {
        allowed = no_reasons reasons;
        reasons = reasons;
        adverse_drift_r = drift_of plan c;
        maximum_adverse_drift_r = maximum_drift_of plan;
        executable_price = executable_of plan c;
        quote_bid = c.quote.bid;
        quote_ask = c.quote.ask;
        actual_risk = max_R zero_R (risk_of plan c);
        actual_reward = max_R zero_R (reward_of plan c);
        actual_rr = rr_of plan c;
        order = if no_reasons reasons then some (order_of plan p c) else none;
      }
