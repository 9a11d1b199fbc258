-- ===== src/Execution/Contract.antt =====
-- The inputs of gold_engine_core/execution.py, with the checks of their constructors.
use bot_ea.Base.{Bool, not, ◌&&◌, ◌||◌, Option, String, List, [], ◌∷◌, ◌++◌, ◌==◌, is_empty, count}
use bot_ea.Base.Int.{ℤ, pos, leb_ℤ, ltb_ℤ}
use bot_ea.Base.Errors.{first_error}
use bot_ea.Base.Number.{Number, ◌<R◌}
use bot_ea.Execution.Signal.{
  TradeMode, ContractError, schema, identity, fingerprint, maximum_age, account_identity,
  symbol_required, volume_range, levels, position_count, Tick, positive, not_negative,
}

pub record ExecutionPolicy (R : Type 0) : Type 0 where
  pub schema_version : ℤ
  pub profile_id : String
  pub profile_fingerprint : String
  pub policy_version : String
  pub maximum_spread : R
  pub maximum_signal_age_seconds : ℤ

pub record ExecutionAccount (R : Type 0) : Type 0 where
  pub login : ℤ
  pub server : String
  pub trade_mode : TradeMode
  pub terminal_identity : String
  pub free_margin : R

pub record ExecutionSymbol (R : Type 0) : Type 0 where
  pub symbol : String
  pub tick_size : R
  pub point : R
  pub volume_minimum : R
  pub volume_maximum : R
  pub volume_step : R
  pub stops_level_points : ℤ
  pub freeze_level_points : ℤ
  pub trade_enabled : Bool

pub record ExecutionExposure (R : Type 0) : Type 0 where
  pub position_count : ℤ
  pub total_volume : R
  pub active_signal_ids : List String

pub record BrokerCheck : Type 0 where
  pub allowed : Bool
  pub retcode : ℤ
  pub comment : String

pub record ExecutionContext (R : Type 0) : Type 0 where
  pub quote : Tick R
  pub account : ExecutionAccount R
  pub symbol : ExecutionSymbol R
  pub exposure : ExecutionExposure R
  pub required_margin : R
  pub broker_check : BrokerCheck
  pub engineering_demo : Bool

abbrev pub is_two : ℤ → Bool
is_two n = leb_ℤ n (pos 2) && leb_ℤ (pos 2) n

module _ {R : Type 0} ⦃num : Number R⦄ where
  -- `ExecutionPolicy.__post_init__`: its tests, each with the error that it raises
  abbrev pub policy_checks : ExecutionPolicy R → List (Bool × ContractError)
  policy_checks p =
      (not (is_two p.schema_version), schema)
      ∷ (is_empty p.profile_id || is_empty p.policy_version, identity)
      ∷ (not (count p.profile_fingerprint == 64), fingerprint)
      ∷ (positive p.maximum_spread "policy.maximum_spread"
          ++ ((ltb_ℤ p.maximum_signal_age_seconds (pos 1), maximum_age) ∷ []))

  unfoldable pub policy_error : ExecutionPolicy R → Option ContractError
  unfolding first_error
  policy_error p = first_error (policy_checks p)

  -- `ExecutionAccount.__post_init__`
  unfoldable pub account_error : ExecutionAccount R → Option ContractError
  unfolding first_error
  account_error a = first_error (
      (leb_ℤ a.login (pos 0) || is_empty a.server || is_empty a.terminal_identity, account_identity)
      ∷ not_negative a.free_margin "account.free_margin")

  -- `ExecutionSymbol.__post_init__`
  unfoldable pub symbol_error : ExecutionSymbol R → Option ContractError
  unfolding first_error
  symbol_error s = first_error (
      ((is_empty s.symbol, symbol_required) ∷ [])
      ++ positive s.tick_size "symbol.tick_size"
      ++ positive s.point "symbol.point"
      ++ positive s.volume_minimum "symbol.volume_minimum"
      ++ positive s.volume_maximum "symbol.volume_maximum"
      ++ positive s.volume_step "symbol.volume_step"
      ++ ((s.volume_maximum <R s.volume_minimum, volume_range)
          ∷ (ltb_ℤ s.stops_level_points (pos 0) || ltb_ℤ s.freeze_level_points (pos 0), levels)
          ∷ []))

  -- `ExecutionExposure.__post_init__`
  unfoldable pub exposure_error : ExecutionExposure R → Option ContractError
  unfolding first_error
  exposure_error x = first_error (
      (ltb_ℤ x.position_count (pos 0), position_count)
      ∷ not_negative x.total_volume "exposure.total_volume")

  -- `ExecutionContext.__post_init__`
  unfoldable pub context_error : ExecutionContext R → Option ContractError
  unfolding first_error
  context_error c = first_error (positive c.required_margin "required_margin")
