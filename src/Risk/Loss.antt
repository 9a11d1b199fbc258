-- ===== src/Risk/Loss.antt =====
-- The loss of an accepted position at its stop, and the volume of it, against the risk budget.
use bot_ea.Base.{◌≡◌, sym, ap, ◌∙◌, inl, inr, true, false, ◌&&◌, some, Bool-cases, Option-cases}
use bot_ea.Base.Int.{ℤ}
use bot_ea.Base.Number.{Number, ◌+R◌, ◌*R◌, ◌/R◌, ◌<R◌, ◌≤R◌, zero_R, max_R}
use bot_ea.Base.Library.{Library}
use bot_ea.Base.Choices.{all_of-All, not-true}
use bot_ea.Risk.Models.{PositionSizeRequest, PositionSizeResult}
use bot_ea.Risk.Size.{
  min_R, base_budget, remaining_daily, remaining_open, loss_per_lot_of, steps_to_volume,
  normalize_volume, compute_position_size,
}
use bot_ea.Risk.Accepted.{accepts, pct_of, budget_of, volume_of, acceptance, accepts_exactly}
use bot_ea.Risk.Results.{Holds, is_refused, is_accepted, results_hold}
use bot_ea.Risk.Budget.{IsTotal, min-le_left, min-le_right, le-max_zero, budget_stays_within}

-- Numbers with exact arithmetic. A decimal literal is not negative, and `round` to eight decimals adds
-- at most half of the last one.
pub record IsExact (R : Type 0) ⦃num : Number R⦄ ⦃lib : Library R⦄ : Type 0 where
  pub add_mono : (a b c : R) → (a ≤R b) ≡ true → ((a +R c) ≤R (b +R c)) ≡ true
  pub mul_mono :
      (a b l : R) → (zero_R ≤R l) ≡ true → (a ≤R b) ≡ true → ((a *R l) ≤R (b *R l)) ≡ true
  pub add_mul :
      (a b l : R)
      → (zero_R ≤R a) ≡ true
      → (zero_R ≤R b) ≡ true
      → (zero_R ≤R l) ≡ true
      → (((a +R b) *R l) ≤R ((a *R l) +R (b *R l))) ≡ true
  pub div_positive :
      (a l : R) → (zero_R ≤R a) ≡ true → (zero_R <R l) ≡ true → (zero_R ≤R (a /R l)) ≡ true
  pub div_mul :
      (a l : R) → (zero_R ≤R a) ≡ true → (zero_R <R l) ≡ true → (((a /R l) *R l) ≤R a) ≡ true
  pub floor_mul :
      (a s : R) (k : ℤ)
      → (zero_R <R s) ≡ true
      → lib.floor (a /R s) ≡ some k
      → ((num.of_int k *R s) ≤R a) ≡ true
  pub literal_positive : (zero_R ≤R lib.literal 1 12) ≡ true
  pub half_positive : (zero_R ≤R lib.literal 5 9) ≡ true
  pub slack : (a b : R) → (zero_R ≤R b) ≡ true → (a ≤R (a +R b)) ≡ true
  pub rounded : (a : R) → (lib.round a 8 ≤R (a +R lib.literal 5 9)) ≡ true

module _ {R : Type 0} ⦃num : Number R⦄ ⦃lib : Library R⦄ where
  -- What the 1e-12 of `_normalize_volume` and its rounding may add to a volume, and to a loss.
  abbrev pub with_slack : R → R
  with_slack v = (v +R lib.literal 1 12) +R lib.literal 5 9

  abbrev pub with_slack_of : R → R → R
  with_slack_of per_lot cash = (cash +R lib.literal 1 12 *R per_lot) +R lib.literal 5 9 *R per_lot

  -- What an accepted result keeps to.
  pub record IsBounded (q : PositionSizeRequest R) (r : PositionSizeResult R) : Type 0 where
    pub positive : (zero_R <R r.risk_cash_budget) ≡ true
    pub in_mode : (r.risk_cash_budget ≤R base_budget (pct_of q) r.capital_base_cash) ≡ true
    pub in_day : (r.risk_cash_budget ≤R remaining_daily q r.capital_base_cash) ≡ true
    pub in_open : (r.risk_cash_budget ≤R remaining_open q r.capital_base_cash) ≡ true
    pub loss :
        (r.estimated_loss_cash ≤R with_slack_of (loss_per_lot_of q) r.risk_cash_budget) ≡ true
    pub is_loss : r.estimated_loss_cash ≡ r.normalized_volume *R loss_per_lot_of q
    pub volume : (r.normalized_volume ≤R with_slack (max_R q.symbol.volume_max zero_R)) ≡ true

  module _ (order : IsTotal R) (exact : IsExact R) where
    zero-le-with_slack : (top : R) → (zero_R ≤R top) ≡ true → (zero_R ≤R with_slack top) ≡ true
    zero-le-with_slack top h = order.le_trans _ _ _ h (
        order.le_trans _ _ _ (exact.slack top _ exact.literal_positive)
          (exact.slack _ _ exact.half_positive))

    steps_to_volume-le :
        (low step x top : R) (k : ℤ)
        → (zero_R ≤R top) ≡ true
        → ((num.of_int k *R step) ≤R x) ≡ true
        → (x ≤R (top +R lib.literal 1 12)) ≡ true
        → (steps_to_volume low step k ≤R with_slack top) ≡ true
    steps_to_volume-le low step x top k positive fits within =
        let n = num.of_int k *R step in
        elim (Bool-cases ((zero_R <R n) && (n <R low))) [
          | inl small ↦ rw small (zero-le-with_slack top positive)
          | inr e ↦ rw e (
              order.le_trans _ _ _ (exact.rounded n)
                (exact.add_mono _ _ _ (order.le_trans _ _ _ fits within)))
        ]

    normalize_volume-le :
        (v low high step top w : R)
        → normalize_volume v low high step ≡ some w
        → (zero_R ≤R top) ≡ true
        → (min_R (max_R v zero_R) high ≤R top) ≡ true
        → (w ≤R with_slack top) ≡ true
    unfolding normalize_volume
    normalize_volume-le v low high step top w h positive within =
        let x = min_R (max_R v zero_R) high +R lib.literal 1 12 in
        elim (Bool-cases (step ≤R zero_R)) [
          | inl e ↦
              let none_at_all : zero_R ≡ w = (let same = rw e at h in cc) in
              rw (sym none_at_all) (zero-le-with_slack top positive)
          | inr e ↦ elim (Option-cases (lib.floor (x /R step))) [
            | inl failed ↦ absurd (let no_volume = rw (e, failed) at h in cc)
            | inr (k, floored) ↦
                let made : steps_to_volume low step k ≡ w =
                  (let same = rw (e, floored) at h in cc) in
                rw (sym made) (
                  steps_to_volume-le low step x top k positive
                    (exact.floor_mul x step k (order.not_le _ _ e) floored)
                    (exact.add_mono _ _ _ within))
          ]
        ]

    -- A volume within a budget's loses at most that budget and the slack.
    loss-le :
        (budget per_lot w : R)
        → (zero_R ≤R budget) ≡ true
        → (zero_R <R per_lot) ≡ true
        → (w ≤R with_slack (budget /R per_lot)) ≡ true
        → ((w *R per_lot) ≤R with_slack_of per_lot budget) ≡ true
    loss-le budget per_lot w b l h =
        let raw = budget /R per_lot in
        let positive = order.lt_le _ _ l in
        let raw_positive = exact.div_positive budget per_lot b l in
        let some_positive =
          order.le_trans _ _ _ raw_positive (exact.slack raw _ exact.literal_positive) in
        order.le_trans _ _ _ (exact.mul_mono _ _ per_lot positive h) (
          order.le_trans _ _ _
            (exact.add_mul _ _ per_lot some_positive exact.half_positive positive)
            (exact.add_mono _ _ _ (
              order.le_trans _ _ _
                (exact.add_mul _ _ per_lot raw_positive exact.literal_positive positive)
                (exact.add_mono _ _ _ (exact.div_mul budget per_lot b l)))))

    volume_of-le :
        (q : PositionSizeRequest R) (w : R)
        → (zero_R ≤R budget_of q) ≡ true
        → (zero_R <R loss_per_lot_of q) ≡ true
        → volume_of q ≡ some w
        → ((w ≤R with_slack (budget_of q /R loss_per_lot_of q)) ≡ true)
          × ((w ≤R with_slack (max_R q.symbol.volume_max zero_R)) ≡ true)
    volume_of-le q w b l made =
        let raw = budget_of q /R loss_per_lot_of q in
        let raw_positive = exact.div_positive _ _ b l in
        let top = max_R raw zero_R in
        (
          normalize_volume-le raw _ _ _ raw w made raw_positive
              (order.le_trans _ _ _ (min-le_left order _ _) (max-le raw raw_positive)),
          normalize_volume-le raw _ _ _ _ w made (le-max_zero order q.symbol.volume_max)
              (order.le_trans _ _ _ (min-le_right order _ _) (le-max q.symbol.volume_max)),
        )
      where
        max-le : (a : R) → (zero_R ≤R a) ≡ true → (max_R a zero_R ≤R a) ≡ true
        max-le a h = elim (Bool-cases (a <R zero_R)) [
          | inl e ↦ rw e h
          | inr e ↦ rw e (order.le_refl a)
        ]

        le-max : (a : R) → (a ≤R max_R a zero_R) ≡ true
        le-max a = elim (Bool-cases (a <R zero_R)) [
          | inl e ↦ rw e (order.lt_le a zero_R e)
          | inr e ↦ rw e (order.le_refl a)
        ]

    Holds-IsBounded :
        (q : PositionSizeRequest R) (r : PositionSizeResult R)
        → compute_position_size q ≡ some r
        → r.accepted ≡ true
        → (budget_of q ≤R zero_R) ≡ false
        → (loss_per_lot_of q ≤R zero_R) ≡ false
        → Holds q r
        → IsBounded q r
    Holds-IsBounded q r h a b l (is_refused fails _ _ _) = absurd (let both = a in cc)
    Holds-IsBounded q r h a b l (is_accepted _ _ _ _ budget volume loss) =
        let some_budget = order.not_le _ _ b in
        let some_loss = order.not_le _ _ l in
        let positive = order.lt_le _ _ some_budget in
        let sized = volume_of-le q r.normalized_volume positive some_loss volume in
        let within = budget_stays_within order q r h a in
        record {
          positive = within.0;
          in_mode = within.1;
          in_day = within.2;
          in_open = within.3;
          loss = rw (loss, budget) (loss-le _ _ r.normalized_volume positive some_loss sized.0);
          is_loss = loss;
          volume = sized.1;
        }

    -- In numbers with exact arithmetic, the risk cash of an accepted request is positive and never above
    -- any of its three budgets: the base risk of its capital in its mode, and what the limits of daily
    -- loss and of open risk have left. Its loss is that of its volume at the stop and at most that cash,
    -- and its volume is at most the symbol's largest, or zero if that is negative, but for the slack of
    -- the sizing: 1e-12 of a lot, and half of the eighth decimal of a lot.
    pub risk_stays_within :
        (q : PositionSizeRequest R) (r : PositionSizeResult R)
        → compute_position_size q ≡ some r
        → r.accepted ≡ true
        → IsBounded q r
    risk_stays_within q r h a =
        let met = all_of-All (acceptance q) (sym (accepts_exactly q) ∙ ap accepts h ∙ a) in
        Holds-IsBounded q r h a (not-true _ met.1.1.1.1.0) (not-true _ met.1.1.1.1.1.0)
          (results_hold q r h)
