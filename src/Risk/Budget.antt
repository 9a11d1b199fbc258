-- ===== src/Risk/Budget.antt =====
-- The capital and the risk budget of a request stay within its account and its policy.
use bot_ea.Base.{◌≡◌, refl, sym, ap, ◌∙◌, inl, inr, true, false, Option, none, some, Bool-cases}
use bot_ea.Base.Number.{Number, ◌*R◌, ◌<R◌, ◌≤R◌, zero_R, max_R}
use bot_ea.Base.Library.{Library}
use bot_ea.Base.Choices.{all_of-All, not-true}
use bot_ea.Risk.Models.{
  PositionSizeRequest, PositionSizeResult, CapitalAllocationMode, full_equity, percent_equity,
  fixed_cash, CapitalAllocation,
}
use bot_ea.Risk.Tables.{dollars}
use bot_ea.Risk.Size.{
  min_R, hundredth, share_of, allocated, capital_base_cash, risk_cash_budget, base_budget,
  remaining_daily, remaining_open, compute_position_size,
}
use bot_ea.Risk.Accepted.{accepts, pct_of, acceptance, accepts_exactly}
use bot_ea.Risk.Results.{Holds, is_refused, is_accepted, results_hold}

-- A total order of numbers, which excludes a NaN.
pub record IsTotal (R : Type 0) ⦃num : Number R⦄ : Type 0 where
  pub le_refl : (a : R) → (a ≤R a) ≡ true
  pub le_trans : (a b c : R) → (a ≤R b) ≡ true → (b ≤R c) ≡ true → (a ≤R c) ≡ true
  pub not_lt : (a b : R) → (a <R b) ≡ false → (b ≤R a) ≡ true
  pub not_le : (a b : R) → (a ≤R b) ≡ false → (b <R a) ≡ true
  pub lt_le : (a b : R) → (a <R b) ≡ true → (a ≤R b) ≡ true

-- A percentage between zero and a hundred does not increase a number that is not negative.
pub record IsShare (R : Type 0) ⦃num : Number R⦄ : Type 0 where
  pub hundred : (zero_R ≤R dollars {R = R} 100) ≡ true
  pub share :
      (e p : R)
      → (zero_R ≤R e) ≡ true
      → (zero_R ≤R p) ≡ true
      → (p ≤R dollars 100) ≡ true
      → ((e *R hundredth p) ≤R e) ≡ true

module _ {R : Type 0} ⦃num : Number R⦄ (order : IsTotal R) where
  pub min-le_left : (a b : R) → (min_R a b ≤R a) ≡ true
  min-le_left a b = elim (Bool-cases (b <R a)) [
    | inl e ↦ rw e (order.lt_le b a e)
    | inr e ↦ rw e (order.le_refl a)
  ]

  pub min-le_right : (a b : R) → (min_R a b ≤R b) ≡ true
  min-le_right a b = elim (Bool-cases (b <R a)) [
    | inl e ↦ rw e (order.le_refl b)
    | inr e ↦ rw e (order.not_lt b a e)
  ]

  max_zero : (m : R) → (max_R m zero_R ≤R zero_R) ≡ false → max_R m zero_R ≡ m
  max_zero m h = elim (Bool-cases (m <R zero_R)) [
    | inl e ↦ absurd (let same = rw e at h in let both = order.le_refl zero_R in cc)
    | inr e ↦ rw e refl
  ]

  pub le-max_zero : (m : R) → (zero_R ≤R max_R m zero_R) ≡ true
  le-max_zero m = elim (Bool-cases (m <R zero_R)) [
    | inl e ↦ rw e (order.le_refl zero_R)
    | inr e ↦ rw e (order.not_lt m zero_R e)
  ]

  le-min_max : (v top : R) → (zero_R ≤R top) ≡ true → (zero_R ≤R min_R (max_R v zero_R) top) ≡ true
  le-min_max v top h = elim (Bool-cases (top <R max_R v zero_R)) [
    | inl e ↦ rw e h
    | inr e ↦ rw e (le-max_zero v)
  ]

  share_of-le :
      (equity value : R) (m : CapitalAllocationMode)
      → IsShare R
      → (zero_R ≤R equity) ≡ true
      → (share_of equity m value ≤R equity) ≡ true
  share_of-le equity value full_equity share h = order.le_refl equity
  share_of-le equity value percent_equity share h =
      share.share _ _ h (le-min_max value _ share.hundred) (min-le_right _ _)
  share_of-le equity value fixed_cash share h = min-le_right _ _

  allocated-le :
      (equity : R) (o : Option (CapitalAllocation R))
      → IsShare R
      → (zero_R ≤R equity) ≡ true
      → (allocated equity o ≤R equity) ≡ true
  allocated-le equity none share h = order.le_refl equity
  allocated-le equity (some c) share h = share_of-le equity c.value c.mode share h

  -- The capital base of a request is never above its account's equity, nor above zero for an account
  -- with none, in numbers without a NaN where a share of a number is not larger than
  -- the number.
  capital_base_cash-le :
      (q : PositionSizeRequest R)
      → IsShare R
      → (capital_base_cash q ≤R max_R q.account.equity zero_R) ≡ true
  unfolding capital_base_cash
  capital_base_cash-le q share =
      allocated-le _ q.capital_allocation share (le-max_zero q.account.equity)

  budget-le :
      (q : PositionSizeRequest R) (pct capital : R)
      → (risk_cash_budget q pct capital ≤R zero_R) ≡ false
      → ((zero_R <R risk_cash_budget q pct capital) ≡ true)
        × ((risk_cash_budget q pct capital ≤R base_budget pct capital) ≡ true)
        × ((risk_cash_budget q pct capital ≤R remaining_daily q capital) ≡ true)
        × ((risk_cash_budget q pct capital ≤R remaining_open q capital) ≡ true)
  unfolding risk_cash_budget
  budget-le q pct capital h =
      let same = max_zero _ h in
      let inner = min_R (base_budget pct capital) (remaining_daily q capital) in
      let least = min-le_left inner (remaining_open q capital) in
      (
        order.not_le _ _ h,
        rw same (order.le_trans _ _ _ least (min-le_left _ _)),
        rw same (order.le_trans _ _ _ least (min-le_right _ _)),
        rw same (min-le_right _ _),
      )

  module _ ⦃lib : Library R⦄ where
    accepted-within :
        (q : PositionSizeRequest R) (r : PositionSizeResult R)
        → accepts (compute_position_size q) ≡ true
        → Holds q r
        → r.accepted ≡ true
        → ((zero_R <R r.risk_cash_budget) ≡ true)
          × ((r.risk_cash_budget ≤R base_budget (pct_of q) r.capital_base_cash) ≡ true)
          × ((r.risk_cash_budget ≤R remaining_daily q r.capital_base_cash) ≡ true)
          × ((r.risk_cash_budget ≤R remaining_open q r.capital_base_cash) ≡ true)
    accepted-within q r a (is_refused fails _ _ _) h = cc
    accepted-within q r a (is_accepted _ _ _ capital budget _ _) h =
        rw (capital, budget)
          (budget-le q (pct_of q) (capital_base_cash q)
            (not-true _ (all_of-All (acceptance q) (sym (accepts_exactly q) ∙ a)).1.1.1.1.0))

    -- The risk cash of an accepted request is positive and within its three budgets.
    pub budget_stays_within :
        (q : PositionSizeRequest R) (r : PositionSizeResult R)
        → compute_position_size q ≡ some r
        → r.accepted ≡ true
        → ((zero_R <R r.risk_cash_budget) ≡ true)
          × ((r.risk_cash_budget ≤R base_budget (pct_of q) r.capital_base_cash) ≡ true)
          × ((r.risk_cash_budget ≤R remaining_daily q r.capital_base_cash) ≡ true)
          × ((r.risk_cash_budget ≤R remaining_open q r.capital_base_cash) ≡ true)
    budget_stays_within q r h a = accepted-within q r (ap accepts h ∙ a) (results_hold q r h) a
