-- ===== src/Position/Profit.antt =====
-- The stop of a milestone never lies on the losing side of the entry.
use mathlib.Core.Path.{subst}
use bot_ea.Base.{◌≡◌, ap, ◌∙◌, inl, inr, true, Bool-cases}
use bot_ea.Base.Int.{pos, negsuc}
use bot_ea.Base.Number.{Number, ◌+R◌, ◌-R◌, ◌*R◌, ◌≤R◌, zero_R, abs_R}
use bot_ea.Position.Policy.{PositionSide, buy, sell, ManagedPosition, fine}
use bot_ea.Position.Plan.{direction_of, stop_for_r}
use bot_ea.Position.Cases.{fine_injective}

-- Order laws of the numbers, for results that are finite: rounding keeps them, and a result that is
-- finite has finite parts.
pub record IsOrdered (R : Type 0) ⦃num : Number R⦄ : Type 0 where
  pub one : (zero_R ≤R num.of_int (pos 1)) ≡ true
  pub minus_one : (num.of_int (negsuc 0) ≤R zero_R) ≡ true
  pub factors :
      (a b : R)
      → num.is_finite (a *R b) ≡ true
      → (num.is_finite a ≡ true) × (num.is_finite b ≡ true)
  pub term : (a b : R) → num.is_finite (a +R b) ≡ true → num.is_finite b ≡ true
  pub distance : (a : R) → num.is_finite (abs_R a) ≡ true → (zero_R ≤R abs_R a) ≡ true
  pub product :
      (a b : R)
      → num.is_finite (a *R b) ≡ true
      → (zero_R ≤R a) ≡ true
      → (zero_R ≤R b) ≡ true
      → (zero_R ≤R (a *R b)) ≡ true
  pub negative_product :
      (a b : R)
      → num.is_finite (a *R b) ≡ true
      → (a ≤R zero_R) ≡ true
      → (zero_R ≤R b) ≡ true
      → ((a *R b) ≤R zero_R) ≡ true
  pub gain :
      (a b : R) → num.is_finite (a +R b) ≡ true → (zero_R ≤R b) ≡ true → (a ≤R (a +R b)) ≡ true
  pub loss :
      (a b : R) → num.is_finite (a +R b) ≡ true → (b ≤R zero_R) ≡ true → ((a +R b) ≤R a) ≡ true

module _ {R : Type 0} ⦃num : Number R⦄ where
  -- The stop on the side of the entry where the position gains.
  abbrev pub Gains : PositionSide → R → R → Type 0
  Gains buy entry stop = (entry ≤R stop) ≡ true
  Gains sell entry stop = (stop ≤R entry) ≡ true

  sum-Gains :
      IsOrdered R
      → (side : PositionSide) (entry lock gap : R)
      → let t = entry +R direction_of side *R lock *R abs_R gap in
        num.is_finite t ≡ true → (zero_R ≤R lock) ≡ true → Gains side entry t
  sum-Gains law buy entry lock gap f l =
      let all = law.term _ _ f in
      let parts = law.factors _ _ all in
      law.gain entry _ f (
        law.product _ (abs_R gap) all (law.product _ lock parts.0 law.one l)
          (law.distance gap parts.1))
  sum-Gains law sell entry lock gap f l =
      let all = law.term _ _ f in
      let parts = law.factors _ _ all in
      law.loss entry _ f (
        law.negative_product _ (abs_R gap) all (law.negative_product _ lock parts.0 law.minus_one l)
          (law.distance gap parts.1))

  -- Where the numbers are ordered and the lock is not negative, a finite stop that `stop_for_r` returns
  -- is at the entry or on its profit side: for a BUY not below it, for a SELL not above it.
  pub stop_for_r-Gains :
      (p : ManagedPosition R) (lock t : R)
      → IsOrdered R
      → (zero_R ≤R lock) ≡ true
      → num.is_finite t ≡ true
      → stop_for_r p lock ≡ fine t
      → Gains p.side p.actual_entry t
  unfolding stop_for_r
  stop_for_r-Gains p lock t law l f h = elim (Bool-cases (num.is_finite lock)) [
    | inr e ↦ absurd (let failed = rw e at h in cc)
    | inl e ↦
        let same = fine_injective _ _ (rw e at h) in
        subst (λ q. Gains p.side p.actual_entry q) same
          (sum-Gains law p.side p.actual_entry lock (p.actual_entry -R p.initial_stop)
            (ap num.is_finite same ∙ f) l)
  ]
