-- ===== src/Execution/Signal.antt =====
-- The quote, the signal plan and the profile of gold_engine_core/contracts.py, with the checks of
-- their constructors. Decimals, and the tick's float, are a `Number`; times are microseconds since
-- the epoch, so that the check for a UTC offset has nothing to refuse.
use bot_ea.Base.{
  Bool, true, false, not, ◌&&◌, ◌||◌, Option, none, some, String, List, [], ◌∷◌, ◌++◌, is_empty,
}
use bot_ea.Base.Int.{ℤ, pos, leb_ℤ, ltb_ℤ}
use bot_ea.Base.Errors.{first_error}
use bot_ea.Base.Number.{Number, ◌-R◌, ◌/R◌, ◌<R◌, ◌=R◌, zero_R, abs_R}

pub data Side : Type 0 where
  buy sell : Side

pub data TradeMode : Type 0 where
  demo real : TradeMode

-- The messages of ContractError and ExecutionContractError.
pub data ContractError : Type 0 where
  not_finite not_positive not_above_zero field_required : String → ContractError
  schema identity fingerprint maximum_age account_identity : ContractError
  symbol_required volume_range levels position_count inconsistent : ContractError
  crossed_quote integer_limits signal_identity not_causal wrong_risk planned_rr : ContractError
  buy_geometry sell_geometry unaligned account_ownership : ContractError
  not_a_mapping wrong_keys not_an_integer not_a_string not_a_decimal : ContractError

pub record Tick (R : Type 0) : Type 0 where
  pub time : ℤ
  pub bid : R
  pub ask : R
  pub last : Option R
  pub volume : R

pub record SignalPlan (R : Type 0) : Type 0 where
  pub profile_id : String
  pub profile_version : String
  pub profile_fingerprint : String
  pub strategy_id : String
  pub strategy_version : String
  pub component : String
  pub reason : String
  pub setup_id : String
  pub signal_id : String
  pub side : Side
  pub symbol : String
  pub setup_created_at : ℤ
  pub entry_ready_at : ℤ
  pub valid_until : ℤ
  pub planned_entry : R
  pub planned_stop : R
  pub planned_target : R
  pub planned_risk : R
  pub invalidation : R
  pub maximum_spread : R
  pub minimum_executable_rr : R
  pub tick_size : R
  pub volume : R
  pub account_login : ℤ
  pub account_server : String
  pub trade_mode : TradeMode
  pub terminal_identity : String
  pub magic : ℤ

pub record ProfileConfig (R : Type 0) : Type 0 where
  pub profile_id : String
  pub profile_version : String
  pub manifest_fingerprint : String
  pub symbol : String
  pub expected_trade_mode : TradeMode
  pub engineering_trade_mode : TradeMode
  pub terminal_identity : String
  pub magic : ℤ
  pub max_positions : ℤ
  pub max_total_lot : R
  pub deviation_points : ℤ
  pub tick_size : R
  pub telegram_audience : String

abbrev pub is_buy : Side → Bool
is_buy buy = true
is_buy sell = false

abbrev pub any_empty : List String → Bool
any_empty [] = false
any_empty (s ∷ ss) = is_empty s || any_empty ss

module _ {R : Type 0} ⦃num : Number R⦄ where
  -- `_positive` and `_positive_decimal`
  abbrev pub positive : R → String → List (Bool × ContractError)
  positive v field =
      (not (num.is_finite v), not_finite field)
      ∷ (v <R zero_R || (v =R zero_R), not_above_zero field)
      ∷ []

  -- the same with `allow_zero=True`
  abbrev pub not_negative : R → String → List (Bool × ContractError)
  not_negative v field =
      (not (num.is_finite v), not_finite field) ∷ (v <R zero_R, not_positive field) ∷ []

  abbrev pub last_tests : Option R → List (Bool × ContractError)
  last_tests none = []
  last_tests (some v) = positive v "tick.last"

  -- `Tick.__post_init__`
  unfoldable pub tick_error : Tick R → Option ContractError
  unfolding first_error
  tick_error t = first_error (
      positive t.bid "tick.bid"
      ++ positive t.ask "tick.ask"
      ++ ((t.ask <R t.bid, crossed_quote) ∷ [])
      ++ last_tests t.last
      ++ not_negative t.volume "tick.volume")

  -- `value % step == 0`
  abbrev pub aligned : R → R → Bool
  aligned v step = num.modulo v step =R zero_R

  -- The checks of `SignalPlan.__post_init__` before and after those of the decimals.
  abbrev pub plan_identity : SignalPlan R → List (Bool × ContractError)
  plan_identity s =
      (
        any_empty (
            s.profile_id ∷ s.profile_version ∷ s.profile_fingerprint ∷ s.strategy_id
            ∷ s.strategy_version ∷ s.component ∷ s.reason ∷ s.setup_id ∷ s.signal_id ∷ s.symbol
            ∷ s.account_server ∷ s.terminal_identity ∷ []),
        signal_identity,
      )
      ∷ (
        not (leb_ℤ s.setup_created_at s.entry_ready_at && ltb_ℤ s.entry_ready_at s.valid_until),
        not_causal,
      )
      ∷ []

  abbrev pub plan_decimals : SignalPlan R → List (Bool × ContractError)
  plan_decimals s =
      positive s.planned_entry "signal.planned_entry"
      ++ positive s.planned_stop "signal.stop"
      ++ positive s.planned_target "signal.target"
      ++ positive s.planned_risk "signal.planned_risk"
      ++ positive s.invalidation "signal.invalidation"
      ++ positive s.tick_size "signal.tick_size"
      ++ positive s.volume "signal.volume"
      ++ not_negative s.maximum_spread "signal.maximum_spread"
      ++ positive s.minimum_executable_rr "signal.minimum_executable_rr"

  abbrev pub plan_geometry : SignalPlan R → List (Bool × ContractError)
  plan_geometry s =
      (not (s.planned_risk =R abs_R (s.planned_entry -R s.planned_stop)), wrong_risk)
      ∷ (
        (abs_R (s.planned_target -R s.planned_entry) /R s.planned_risk) <R s.minimum_executable_rr,
        planned_rr,
      )
      ∷ (
        is_buy s.side
            && not ((s.planned_stop <R s.planned_entry) && (s.planned_entry <R s.planned_target)),
        buy_geometry,
      )
      ∷ (
        not (is_buy s.side)
            && not ((s.planned_target <R s.planned_entry) && (s.planned_entry <R s.planned_stop)),
        sell_geometry,
      )
      ∷ (
        not (aligned s.planned_entry s.tick_size)
            || not (aligned s.planned_stop s.tick_size)
            || not (aligned s.planned_target s.tick_size)
            || not (aligned s.invalidation s.tick_size),
        unaligned,
      )
      ∷ (leb_ℤ s.account_login (pos 0) || leb_ℤ s.magic (pos 0), account_ownership)
      ∷ []

  -- `SignalPlan.__post_init__`
  unfoldable pub plan_error : SignalPlan R → Option ContractError
  unfolding first_error
  plan_error s = first_error (plan_identity s ++ plan_decimals s ++ plan_geometry s)

  -- `ProfileConfig.__post_init__`
  unfoldable pub profile_error : ProfileConfig R → Option ContractError
  unfolding first_error
  profile_error p = first_error (
      (is_empty p.profile_id, field_required "profile_id")
      ∷ (is_empty p.profile_version, field_required "profile_version")
      ∷ (is_empty p.manifest_fingerprint, field_required "manifest_fingerprint")
      ∷ (is_empty p.symbol, field_required "symbol")
      ∷ (is_empty p.terminal_identity, field_required "terminal_identity")
      ∷ (is_empty p.telegram_audience, field_required "telegram_audience")
      ∷ (
        leb_ℤ p.magic (pos 0) || leb_ℤ p.max_positions (pos 0) || ltb_ℤ p.deviation_points (pos 0),
        integer_limits,
      )
      ∷ (positive p.max_total_lot "profile.max_total_lot"
          ++ positive p.tick_size "profile.tick_size"))
