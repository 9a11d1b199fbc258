-- ===== src/Risk/Gates.antt =====
-- When the execution guards let an order through.
use bot_ea.Base.{
  ◌≡◌, refl, ◌∙◌, ap, Bool, true, not, ◌&&◌, ◌||◌, Option, none, some, List, [], ◌∷◌, ◌++◌, arith,
  if◌then◌else◌, is_empty,
}
use bot_ea.Base.Number.{Number, ◌/R◌, ◌<R◌, ◌≤R◌}
use bot_ea.Base.Library.{Library}
use bot_ea.Base.Choices.{all_of}
use bot_ea.Risk.Models.{OperatingMode, AccountSnapshot, SymbolSnapshot, RiskPolicy, GateCheck}
use bot_ea.Risk.Guard.{
  all_passed, allowed_ratio, is_volatile, opens_positions, takes_market_orders, account_checks,
  trade_mode_checks, order_mode_checks, spread_check, spread_checks, evaluate_execution_guards,
}

all_passed-append :
    (cs ds : List GateCheck) (b : Bool)
    → all_passed ds ≡ b
    → all_passed (cs ++ ds) ≡ (all_passed cs && b)
unfolding all_passed
all_passed-append [] ds b h = h
all_passed-append (c ∷ cs) ds b h = ground (arith, all_passed-append cs ds b)

all_passed_unless :
    (e : Bool) (c : GateCheck) → all_passed (if e then [] else c ∷ []) ≡ (e || c.passed)
unfolding all_passed
all_passed_unless e c = ground arith

all_passed_when :
    (e : Bool) (c : GateCheck) → all_passed (if e then c ∷ [] else []) ≡ (not e || c.passed)
unfolding all_passed
all_passed_when e c = ground arith

regroup :
    (a b c d e f g h i j k : Bool)
    → ((a && (b && (c && ((d && e) && (f && (g && (h && true))))))) && (i && (j && k)))
      ≡ all_of (a ∷ b ∷ c ∷ d ∷ e ∷ f ∷ g ∷ h ∷ (i && j) ∷ k ∷ [])
regroup a b c d e f g h i j k = ground arith

module _ {R : Type 0} ⦃num : Number R⦄ ⦃lib : Library R⦄ where
  -- The symbol's spread is within the mode's ratio of its volatility, where it has one.
  abbrev pub spread_fits : SymbolSnapshot R → RiskPolicy R → OperatingMode → Option R → Bool
  spread_fits s p m none = true
  spread_fits s p m (some v) = not (is_volatile v) || ((s.spread_points /R v) ≤R allowed_ratio p m)

  -- An unknown trade or order mode is let through.
  abbrev pub modes_fit : SymbolSnapshot R → Bool
  modes_fit s =
      let trade = lib.lower s.trade_mode in
      let order = lib.lower s.order_mode in
      (is_empty trade || opens_positions trade)
      && (is_empty order || takes_market_orders order (lib.is_digits order))

  spread_check_passes :
      (s : SymbolSnapshot R) (p : RiskPolicy R) (m : OperatingMode) (o : Option R)
      → all_passed (spread_check s p m o) ≡ spread_fits s p m o
  unfolding all_passed
  spread_check_passes s p m none = refl
  spread_check_passes s p m (some v) = all_passed_when (is_volatile v) _

  spread_checks_pass :
      (s : SymbolSnapshot R) (p : RiskPolicy R) (m : OperatingMode)
      → all_passed (spread_checks s p m) ≡ spread_fits s p m s.volatility_points
  unfolding spread_checks
  spread_checks_pass s p m = spread_check_passes s p m s.volatility_points

  trade_mode_passes :
      (s : SymbolSnapshot R)
      → all_passed (trade_mode_checks s)
        ≡ (is_empty (lib.lower s.trade_mode) || opens_positions (lib.lower s.trade_mode))
  unfolding trade_mode_checks
  trade_mode_passes s = all_passed_unless (is_empty (lib.lower s.trade_mode)) _

  order_mode_passes :
      (s : SymbolSnapshot R)
      → all_passed (order_mode_checks s) ≡ (
          is_empty (lib.lower s.order_mode)
          || takes_market_orders (lib.lower s.order_mode) (lib.is_digits (lib.lower s.order_mode)))
  unfolding order_mode_checks
  order_mode_passes s = all_passed_unless (is_empty (lib.lower s.order_mode)) _

  -- The guards allow an order exactly when the account, the expert and the symbol may trade, both
  -- sessions are active, the stop keeps the broker's distance, daily loss and open risk are below
  -- their limits, neither mode of the symbol forbids it, and the spread fits the mode's ratio.
  pub guards_exact :
      (a : AccountSnapshot R) (s : SymbolSnapshot R) (p : RiskPolicy R) (m : OperatingMode)
      (stop : R)
      → (evaluate_execution_guards a s p m stop).allowed
        ≡ all_of (
            a.trade_allowed
            ∷ a.trade_expert
            ∷ s.trade_allowed
            ∷ s.quote_session_active
            ∷ s.trade_session_active
            ∷ (s.stops_level_points ≤R stop)
            ∷ (a.daily_realized_loss_pct <R p.daily_loss_limit_pct)
            ∷ (a.current_open_risk_pct <R p.max_total_open_risk_pct)
            ∷ modes_fit s
            ∷ spread_fits s p m s.volatility_points
            ∷ [])
  unfolding evaluate_execution_guards all_passed account_checks
  guards_exact a s p m stop =
      let trade = is_empty (lib.lower s.trade_mode) || opens_positions (lib.lower s.trade_mode) in
      let order =
        is_empty (lib.lower s.order_mode)
        || takes_market_orders (lib.lower s.order_mode) (lib.is_digits (lib.lower s.order_mode)) in
      let spread = spread_fits s p m s.volatility_points in
      all_passed-append (account_checks a s p stop)
        (trade_mode_checks s ++ (order_mode_checks s ++ spread_checks s p m))
        (trade && (order && spread))
        (all_passed-append (trade_mode_checks s) (order_mode_checks s ++ spread_checks s p m)
            (order && spread)
            (all_passed-append (order_mode_checks s) (spread_checks s p m) spread
                (spread_checks_pass s p m)
              ∙ ap (λ b. b && spread) (order_mode_passes s))
          ∙ ap (λ b. b && (order && spread)) (trade_mode_passes s))
      ∙ regroup a.trade_allowed a.trade_expert s.trade_allowed s.quote_session_active
          s.trade_session_active (s.stops_level_points ≤R stop)
          (a.daily_realized_loss_pct <R p.daily_loss_limit_pct)
          (a.current_open_risk_pct <R p.max_total_open_risk_pct) trade order spread
