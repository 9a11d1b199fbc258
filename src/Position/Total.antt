-- ===== src/Position/Total.antt =====
-- A valid position, policy and quote always give a plan.
use bot_ea.Base.{
  ◌≡◌, refl, inl, inr, Bool, true, false, not, ◌&&◌, ◌||◌, Option, none, some, List, arith,
  Bool-cases,
}
use bot_ea.Base.Errors.{first_error-AllPass}
use bot_ea.Base.Number.{Number, ◌<R◌, ◌≤R◌, ◌-R◌, ◌=R◌, zero_R, abs_R}
use bot_ea.Position.Policy.{
  PositionManagementPolicy, ManagedPosition, MilestoneState, fine, policy_tests, policy_error,
  PositionSide, buy, sell, is_buy, position_tests, position_error, initial_risk_distance,
}
use bot_ea.Position.Plan.{
  Milestone, r2, BrokerActionPlan, calculate_current_r, stop_for_r, highest_due_protection,
  newly_reached_of, plan_due, plan_at, resolved_policy, plan_position_management,
}

last_two : (a b c d e : Bool) → not (a && b && c && d && e) ≡ false → (d ≡ true) × (e ≡ true)
last_two a b c d e h = ground arith

first_two :
    (a b c d e f : Bool) → not (a && b && c && d && e && f) ≡ false → (a ≡ true) × (b ≡ true)
first_two a b c d e f h = ground arith

-- The distance of a finite price from another that is above or below it is not zero.
pub record IsApart (R : Type 0) ⦃num : Number R⦄ : Type 0 where
  pub above :
      (a b : R)
      → num.is_finite a ≡ true
      → num.is_finite b ≡ true
      → (a ≤R b) ≡ false
      → (abs_R (a -R b) =R zero_R) ≡ false
  pub below :
      (a b : R)
      → num.is_finite a ≡ true
      → num.is_finite b ≡ true
      → (b ≤R a) ≡ false
      → (abs_R (a -R b) =R zero_R) ≡ false

module _ {R : Type 0} ⦃num : Number R⦄ where
  policy_error-locks :
      (policy : PositionManagementPolicy R)
      → policy_error policy ≡ none
      → (num.is_finite policy.r1_lock_r ≡ true) × (num.is_finite policy.r2_lock_r ≡ true)
  unfolding policy_error
  policy_error-locks policy h =
      last_two (num.is_finite policy.r1_threshold) (num.is_finite policy.r2_threshold)
        (num.is_finite policy.r3_threshold) (num.is_finite policy.r1_lock_r)
        (num.is_finite policy.r2_lock_r) (first_error-AllPass (policy_tests policy) h).0

  stop_for_r-fine :
      (p : ManagedPosition R) (lock : R)
      → num.is_finite lock ≡ true
      → (t : R) × (stop_for_r p lock ≡ fine t)
  unfolding stop_for_r
  stop_for_r-fine p lock h = rw h (_, refl)

  plan_due-fine :
      (p : ManagedPosition R) (m : MilestoneState) (policy : PositionManagementPolicy R) (r : R)
      (newly : List Milestone) (due : Option Milestone)
      → policy_error policy ≡ none
      → (pl : BrokerActionPlan R) × (plan_due p m policy r newly due ≡ fine pl)
  unfolding plan_due
  plan_due-fine p m policy r newly none h = (_, refl)
  plan_due-fine p m policy r newly (some r2) h =
      let (t, e) = stop_for_r-fine p policy.r2_lock_r (policy_error-locks policy h).1 in
      rw e (_, refl)
  plan_due-fine p m policy r newly (some _) h =
      let (t, e) = stop_for_r-fine p policy.r1_lock_r (policy_error-locks policy h).0 in
      rw e (_, refl)

  plan_at-fine :
      (p : ManagedPosition R) (m : MilestoneState) (policy : PositionManagementPolicy R) (r : R)
      → policy_error policy ≡ none
      → (pl : BrokerActionPlan R) × (plan_at p m policy r ≡ fine pl)
  unfolding plan_at
  plan_at-fine p m policy r h =
      elim (Bool-cases (policy.r3_close_enabled && (m.r3_reached || (policy.r3_threshold ≤R r)))) [
        | inl e ↦ rw e (_, refl)
        | inr e ↦
            let (pl, made) =
              plan_due-fine p m policy r (newly_reached_of r m policy)
                (highest_due_protection r policy m.r1_reached m.r2_reached) h in
            rw e (pl, made)
      ]

  -- The entry of a position that its constructor accepts is apart from its stop.
  position_error-risk :
      (p : ManagedPosition R)
      → IsApart R
      → position_error p ≡ none
      → (initial_risk_distance p =R zero_R) ≡ false
  unfolding position_error
  position_error-risk p law h =
      let tests = first_error-AllPass (position_tests p) h in
      let finite =
        first_two (num.is_finite p.actual_entry) (num.is_finite p.initial_stop)
          (num.is_finite p.current_stop) (num.is_finite p.current_take_profit)
          (num.is_finite p.initial_volume) (num.is_finite p.remaining_volume) tests.0 in
      on_side p.side tests.1.1.1.1.0 tests.1.1.1.1.1.0 finite.0 finite.1
    where
      on_side :
          (side : PositionSide)
          → (is_buy side && (p.actual_entry ≤R p.initial_stop)) ≡ false
          → (not (is_buy side) && (p.initial_stop ≤R p.actual_entry)) ≡ false
          → num.is_finite p.actual_entry ≡ true
          → num.is_finite p.initial_stop ≡ true
          → (initial_risk_distance p =R zero_R) ≡ false
      on_side buy above _ e f = law.above _ _ e f above
      on_side sell _ below e f = law.below _ _ e f below

  calculate_current_r-fine :
      (p : ManagedPosition R) (bid ask : R)
      → (num.is_finite bid && (zero_R <R bid) && num.is_finite ask && (zero_R <R ask)) ≡ true
      → (ask <R bid) ≡ false
      → (initial_risk_distance p =R zero_R) ≡ false
      → (r : R) × (calculate_current_r p bid ask ≡ fine r)
  unfolding calculate_current_r
  calculate_current_r-fine p bid ask q o d = rw (q, o, d) (_, refl)

  -- With a position and a policy that their constructors accept and a quote of finite positive prices
  -- that is not crossed, a plan is always returned, where the distance of different finite prices is
  -- not zero: no check raises, and nothing is divided by zero.
  pub always_plans :
      (p : ManagedPosition R) (m : MilestoneState) (bid ask : R)
      (policy : Option (PositionManagementPolicy R))
      → IsApart R
      → position_error p ≡ none
      → policy_error (resolved_policy policy) ≡ none
      → (num.is_finite bid && (zero_R <R bid) && num.is_finite ask && (zero_R <R ask)) ≡ true
      → (ask <R bid) ≡ false
      → (pl : BrokerActionPlan R) × (plan_position_management p m bid ask policy ≡ fine pl)
  unfolding plan_position_management
  always_plans p m bid ask policy law accepted v q o =
      let (r, e) = calculate_current_r-fine p bid ask q o (position_error-risk p law accepted) in
      let (pl, made) = plan_at-fine p m (resolved_policy policy) r v in rw e (pl, made)
