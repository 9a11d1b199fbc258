-- ===== src/Risk/Size.antt =====
-- `compute_position_size` of RiskEngine. `none` stands for the exception of `math.floor`.
use Prim.Native.String.{◌++◌ as append}
use bot_ea.Base.{
  Bool, true, false, ◌&&◌, Option, none, some, String, List, [], ◌∷◌, ◌++◌, if◌then◌else◌,
}
use bot_ea.Base.Int.{ℤ}
use bot_ea.Base.Number.{Number, ◌+R◌, ◌*R◌, ◌/R◌, ◌<R◌, ◌≤R◌, zero_R, max_R}
use bot_ea.Base.Library.{Library, choose}
use bot_ea.Risk.Models.{
  OperatingMode, recommend, caution, strict, SuitabilityAssessment, PositionSizeRequest,
  PositionSizeResult, mode_value,
}
use bot_ea.Risk.Allocation.{AllocationAssessment, is_rejection, is_warning, evaluate_allocation}
use bot_ea.Risk.Suitability.{assess_suitability}
unfoldable pub use bot_ea.Risk.Cash.{
  allocated, base_budget, capital_base_cash, effective_risk_pct, hundredth, loss_per_lot_of, min_R,
  remaining_daily, remaining_open, risk_cash_budget, share_of,
}
use bot_ea.Risk.Cash.{with_message}

abbrev pub is_recommend : OperatingMode → Bool
is_recommend recommend = true
is_recommend caution = false
is_recommend strict = false

module _ {R : Type 0} ⦃num : Number R⦄ where
  -- The fields that a result copies from its request, with those that the defaults fill.
  abbrev pub refused :
      PositionSizeRequest R
      → OperatingMode
      → R
      → R
      → R
      → R
      → Option String
      → List String
      → R
      → R
      → PositionSizeResult R
  refused q m capital recommended pct budget why ws raw per_lot = record {
    accepted = false;
    mode = m;
    capital_base_cash = capital;
    recommended_minimum_allocation_cash = recommended;
    effective_risk_pct = pct;
    risk_cash_budget = budget;
    normalized_volume = zero_R;
    estimated_loss_cash = zero_R;
    stop_distance_points = q.stop_distance_points;
    rejection_reason = why;
    warnings = ws;
    raw_volume = raw;
    loss_per_lot = per_lot;
    volume_min = q.symbol.volume_min;
    volume_max = q.symbol.volume_max;
    volume_step = q.symbol.volume_step;
  }

  module _ ⦃lib : Library R⦄ where
    abbrev pub steps_to_volume : R → R → ℤ → R
    steps_to_volume volume_min volume_step steps =
        let normalized = num.of_int steps *R volume_step in
        if (zero_R <R normalized) && (normalized <R volume_min)
        then zero_R
        else lib.round normalized 8

    -- `_normalize_volume`
    unfoldable pub normalize_volume : R → R → R → R → Option R
    normalize_volume volume volume_min volume_max volume_step =
        if volume_step ≤R zero_R
        then some zero_R
        else elim (lib.floor
            ((min_R (max_R volume zero_R) volume_max +R lib.literal 1 12) /R volume_step)) [
              | none ↦ none
              | some steps ↦ some (steps_to_volume volume_min volume_step steps)
            ]

    -- The results behind `_normalize_volume`.
    abbrev pub sized :
        PositionSizeRequest R
        → AllocationAssessment R
        → SuitabilityAssessment
        → R
        → R
        → R
        → R
        → R
        → PositionSizeResult R
    sized q alloc suits capital pct budget per_lot volume =
        let warned =
          with_message (is_warning alloc.status) alloc.message suits.warnings
          ++ (if is_recommend suits.mode
              then []
              else append "operating mode downgraded to " (mode_value suits.mode) ∷ []) in
        if volume <R q.symbol.volume_min
        then refused q suits.mode capital alloc.recommended_minimum pct budget
            (some "allocated capital too small for minimum volume and stop distance") suits.warnings
            (budget /R per_lot) per_lot
        else record {
          accepted = true;
          mode = suits.mode;
          capital_base_cash = capital;
          recommended_minimum_allocation_cash = alloc.recommended_minimum;
          effective_risk_pct = pct;
          risk_cash_budget = budget;
          normalized_volume = volume;
          estimated_loss_cash = volume *R per_lot;
          stop_distance_points = q.stop_distance_points;
          rejection_reason = none;
          warnings = warned;
          raw_volume = budget /R per_lot;
          loss_per_lot = per_lot;
          volume_min = q.symbol.volume_min;
          volume_max = q.symbol.volume_max;
          volume_step = q.symbol.volume_step;
        }

    abbrev pub with_volume :
        PositionSizeRequest R
        → AllocationAssessment R
        → SuitabilityAssessment
        → R
        → R
        → R
        → R
        → Option R
        → Option (PositionSizeResult R)
    with_volume q alloc suits capital pct budget per_lot none = none
    with_volume q alloc suits capital pct budget per_lot (some volume) =
        some (sized q alloc suits capital pct budget per_lot volume)

    -- The early returns that read the risk budget.
    unfoldable pub budget_returns :
        PositionSizeRequest R
        → AllocationAssessment R
        → SuitabilityAssessment
        → R
        → R
        → R
        → R
        → List (Bool × Option (PositionSizeResult R))
    budget_returns q alloc suits capital pct budget per_lot =
        let refuse : R → String → R → Option (PositionSizeResult R) = λ cash why lot. some (
          refused q suits.mode capital alloc.recommended_minimum pct cash (some why) suits.warnings
            zero_R lot) in
        (budget ≤R zero_R, refuse zero_R "no remaining risk budget" zero_R)
        ∷ (per_lot ≤R zero_R, refuse budget "invalid symbol tick configuration" zero_R)
        ∷ (
          budget <R q.policy.min_effective_risk_cash,
          refuse budget "allocated risk cash below minimum effective risk threshold" per_lot,
        )
        ∷ []

    unfoldable pub size_in_mode :
        PositionSizeRequest R
        → AllocationAssessment R
        → SuitabilityAssessment
        → R
        → Option (PositionSizeResult R)
    unfolding choose budget_returns
    size_in_mode q alloc suits capital =
        let pct = effective_risk_pct q.policy suits.mode in
        let budget = risk_cash_budget q pct capital in
        let per_lot = loss_per_lot_of q in
        choose (budget_returns q alloc suits capital pct budget per_lot) (
          with_volume q alloc suits capital pct budget per_lot (
            normalize_volume (budget /R per_lot) q.symbol.volume_min q.symbol.volume_max
              q.symbol.volume_step))

    -- The early returns before the mode is known.
    unfoldable pub request_returns :
        PositionSizeRequest R
        → AllocationAssessment R
        → R
        → List (Bool × Option (PositionSizeResult R))
    request_returns q alloc capital =
        let refuse : R → Option String → Option (PositionSizeResult R) = λ cash why.
          some
            (refused q strict cash alloc.recommended_minimum zero_R zero_R why [] zero_R zero_R) in
        (capital ≤R zero_R, refuse zero_R (some "allocated capital must be positive"))
        ∷ (q.stop_distance_points ≤R zero_R, refuse capital (some "stop distance must be positive"))
        ∷ (
          q.stop_distance_points <R q.symbol.stops_level_points,
          refuse capital (some "stop distance below broker stop level"),
        )
        ∷ (is_rejection alloc.status, refuse capital alloc.message)
        ∷ []

    -- The assessments that a request leads to.
    abbrev pub allocation_of : PositionSizeRequest R → AllocationAssessment R
    allocation_of q = evaluate_allocation q.symbol q.trading_style (capital_base_cash q)

    abbrev pub suitability_of : PositionSizeRequest R → SuitabilityAssessment
    suitability_of q =
        assess_suitability q.account q.symbol q.policy q.trading_style (some (capital_base_cash q))
          q.force_symbol q.requested_mode

    -- `compute_position_size`
    unfoldable pub compute_position_size : PositionSizeRequest R → Option (PositionSizeResult R)
    unfolding choose request_returns
    compute_position_size q =
        choose (request_returns q (allocation_of q) (capital_base_cash q))
          (size_in_mode q (allocation_of q) (suitability_of q) (capital_base_cash q))
