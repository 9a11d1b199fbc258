-- ===== src/Position/Actions.antt =====
-- When a plan closes a position or moves its stop.
use mathlib.Core.Path.{subst}
use bot_ea.Base.{◌≡◌, ◌≢◌, sym, ap, ◌∙◌, ◌⊎◌, inl, inr, ◌↔◌, Bool, true, false, ◌&&◌, Option, some}
use bot_ea.Base.Number.{Number}
use bot_ea.Position.Policy.{
  no_action, confirmed, PositionManagementPolicy, ManagedPosition, MilestoneState, fine,
}
use bot_ea.Position.Plan.{
  nothing, modify_protection, close_full, Milestone, BrokerActionPlan, calculate_current_r,
  is_stop_at_least_as_protective, newly_reached_of, r3_due, plan_at, resolved_policy,
  plan_position_management,
}
use bot_ea.Position.Cases.{
  PlanCases, IsMove, >>=-fine, plan_at-cases, plan_close-action, plan_close-current_r,
  plan_close-modify, plan_protection-IsMove, plan_protection-keeps, status_of,
}

module _ {R : Type 0} ⦃num : Number R⦄ where
  -- Whether the close at R3 is enabled and due.
  abbrev pub closing : PositionManagementPolicy R → MilestoneState → R → Bool
  closing policy m r = policy.r3_close_enabled && r3_due r m policy

  abbrev CloseExact : MilestoneState → PositionManagementPolicy R → BrokerActionPlan R → Type 0
  CloseExact m policy pl =
      (pl.action ≡ close_full)
      ↔ ((closing policy m pl.current_r ≡ true) × (m.r3_close_status ≡ no_action))

  never_closes :
      (m : MilestoneState) (policy : PositionManagementPolicy R) (r : R) (pl : BrokerActionPlan R)
      → closing policy m r ≡ false
      → pl.current_r ≡ r
      → pl.action ≢ close_full
      → CloseExact m policy pl
  never_closes m policy r pl e same keeps = (
    λ h. absurd (keeps h),
    λ c. absurd (let clash : true ≡ false = sym c.0 ∙ ap (closing policy m) same ∙ e in cc),
  )

  plan_at-CloseExact :
      (p : ManagedPosition R) (m : MilestoneState) (policy : PositionManagementPolicy R) (r : R)
      (pl : BrokerActionPlan R)
      → PlanCases p m policy r pl
      → CloseExact m policy pl
  plan_at-CloseExact p m policy r pl (inl (e, made)) =
      let newly = newly_reached_of r m policy in
      let at : pl.current_r ≡ r =
        ap (λ q. q.current_r) made ∙ plan_close-current_r m.r3_close_status r newly in
      let exact = plan_close-action m.r3_close_status r newly in
      (
        λ h. (ap (closing policy m) at ∙ e, exact.0 (sym (ap (λ q. q.action) made) ∙ h)),
        λ c. ap (λ q. q.action) made ∙ exact.1 c.1,
      )
  plan_at-CloseExact p m policy r pl (inr (inl (e, made))) =
      never_closes m policy r pl e (ap (λ q. q.current_r) made)
        (λ h. let clash : nothing ≡ close_full = sym (ap (λ q. q.action) made) ∙ h in cc)
  plan_at-CloseExact p m policy r pl (inr (inr (e, (k, t, made)))) =
      let keeps = plan_protection-keeps p r (newly_reached_of r m policy) k t (status_of k m) in
      never_closes m policy r pl e (ap (λ q. q.current_r) made ∙ keeps.1)
        (λ h. keeps.0 (sym (ap (λ q. q.action) made) ∙ h))

  plan-cases :
      (p : ManagedPosition R) (m : MilestoneState) (bid ask : R)
      (policy : Option (PositionManagementPolicy R)) (pl : BrokerActionPlan R)
      → plan_position_management p m bid ask policy ≡ fine pl
      → (r : R) × PlanCases p m (resolved_policy policy) r pl
  unfolding plan_position_management
  plan-cases p m bid ask policy pl h =
      let (r, _, made) =
        >>=-fine (calculate_current_r p bid ask) (plan_at p m (resolved_policy policy)) pl h in
      (r, plan_at-cases p m (resolved_policy policy) r pl made)

  -- A plan closes the position exactly when the close at R3 is enabled, R3 was reached or is reached
  -- by the current R, and no close has been asked for: an order to close is never repeated while one
  -- is pending, submitted, unknown, failed or confirmed.
  pub closes_exactly :
      (p : ManagedPosition R) (m : MilestoneState) (bid ask : R)
      (policy : Option (PositionManagementPolicy R)) (pl : BrokerActionPlan R)
      → plan_position_management p m bid ask policy ≡ fine pl
      → (pl.action ≡ close_full) ↔ (
          (closing (resolved_policy policy) m pl.current_r ≡ true)
          × (m.r3_close_status ≡ no_action))
  closes_exactly p m bid ask policy pl h =
      let (r, made) = plan-cases p m bid ask policy pl h in
      plan_at-CloseExact p m (resolved_policy policy) r pl made

  plan_at-IsMove :
      (p : ManagedPosition R) (m : MilestoneState) (policy : PositionManagementPolicy R) (r : R)
      (pl : BrokerActionPlan R)
      → PlanCases p m policy r pl
      → pl.action ≡ modify_protection
      → (k : Milestone) × (t : R) × (closing policy m pl.current_r ≡ false)
        × (pl.milestone ≡ some k)
        × IsMove p t (status_of k m) pl
  plan_at-IsMove p m policy r pl (inl (e, made)) h = absurd (
      plan_close-modify m.r3_close_status r (newly_reached_of r m policy)
        (sym (ap (λ q. q.action) made) ∙ h))
  plan_at-IsMove p m policy r pl (inr (inl (e, made))) h =
      let clash : nothing ≡ modify_protection = sym (ap (λ q. q.action) made) ∙ h in absurd cc
  plan_at-IsMove p m policy r pl (inr (inr (e, (k, t, made)))) h =
      let newly = newly_reached_of r m policy in
      let keeps = plan_protection-keeps p r newly k t (status_of k m) in
      let at : pl.current_r ≡ r = ap (λ q. q.current_r) made ∙ keeps.1 in
      let moves =
        plan_protection-IsMove p r newly k t (status_of k m) (sym (ap (λ q. q.action) made) ∙ h) in
      (
        k,
        t,
        ap (closing policy m) at ∙ e,
        ap (λ q. q.milestone) made ∙ keeps.2,
        subst (λ q. IsMove p t (status_of k m) q) (sym made) moves,
      )

  -- A plan that modifies the stop has no close due, asks for a stop that the present one does not
  -- already satisfy, keeps the take profit, and is for a milestone for which nothing was asked yet or
  -- whose confirmed change the broker has lost: never for one in flight or failed.
  pub moves_only_to_tighten :
      (p : ManagedPosition R) (m : MilestoneState) (bid ask : R)
      (policy : Option (PositionManagementPolicy R)) (pl : BrokerActionPlan R)
      → plan_position_management p m bid ask policy ≡ fine pl
      → pl.action ≡ modify_protection
      → (k : Milestone) × (t : R) × (closing (resolved_policy policy) m pl.current_r ≡ false)
        × (pl.milestone ≡ some k)
        × (is_stop_at_least_as_protective p t ≡ false)
        × (pl.target_stop ≡ some t)
        × (pl.preserve_take_profit ≡ some p.current_take_profit)
        × ((status_of k m ≡ no_action) ⊎ (status_of k m ≡ confirmed))
  moves_only_to_tighten p m bid ask policy pl h move =
      let (r, made) = plan-cases p m bid ask policy pl h in
      let (k, t, unclosed, at, moves) =
        plan_at-IsMove p m (resolved_policy policy) r pl made move in
      (k, t, unclosed, at, moves.0, moves.1, moves.2, moves.3)
