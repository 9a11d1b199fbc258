-- ===== src/Position/Cases.antt =====
-- The parts of a plan of goldm_signal/position_management.py, and what each does.
use mathlib.Core.Path.{subst}
use bot_ea.Base.{
  ◌≡◌, ◌≢◌, refl, sym, ap, ◌∙◌, ◌⊎◌, inl, inr, ◌↔◌, true, false, ◌&&◌, Option, none, some, List,
  Bool-cases,
}
use bot_ea.Base.Number.{Number}
use bot_ea.Position.Policy.{
  BrokerActionStatus, no_action, pending, submitted, confirmed, failed, unknown,
  PositionManagementPolicy, ManagedPosition, MilestoneState, Checked, fine, error, ◌>>=◌,
}
use bot_ea.Position.Plan.{
  acknowledge_protection, modify_protection, close_full, Milestone, r1, r2, BrokerActionPlan,
  stop_for_r, is_stop_at_least_as_protective, highest_due_protection, newly_reached_of, plan_close,
  idle_plan, plan_protection, status_plan, r3_due, plan_due, plan_at,
}

pub >>=-fine {ℓ κ} :
    {A : Type ℓ} {B : Type κ} (m : Checked A) (f : A → Checked B) (b : B)
    → (m >>= f) ≡ fine b
    → (a : A) × (m ≡ fine a) × (f a ≡ fine b)
unfolding ◌>>=◌
>>=-fine (fine a) f b h = (a, refl, h)
>>=-fine (error e) f b h = absurd cc

pub fine_injective {ℓ} : {A : Type ℓ} (a b : A) → fine a ≡ fine b → a ≡ b
fine_injective a b h = cc

-- The status that belongs to a milestone of protection.
abbrev pub status_of : Milestone → MilestoneState → BrokerActionStatus
status_of r2 m = m.r2_protection_status
status_of _ m = m.r1_protection_status

module _ {R : Type 0} ⦃num : Number R⦄ where
  -- What a plan is made of.
  abbrev pub PlanCases :
      ManagedPosition R
      → MilestoneState
      → PositionManagementPolicy R
      → R
      → BrokerActionPlan R
      → Type 0
  PlanCases p m policy r pl =
      let newly = newly_reached_of r m policy in
      let closing = policy.r3_close_enabled && r3_due r m policy in
      ((closing ≡ true) × (pl ≡ plan_close m.r3_close_status r newly))
      ⊎ ((closing ≡ false) × (pl ≡ idle_plan r newly))
      ⊎ ((closing ≡ false)
          × ((k : Milestone) × (t : R) × (pl ≡ plan_protection p r newly k t (status_of k m))))

  plan_due-cases :
      (p : ManagedPosition R) (m : MilestoneState) (policy : PositionManagementPolicy R) (r : R)
      (pl : BrokerActionPlan R) (due : Option Milestone)
      → (policy.r3_close_enabled && r3_due r m policy) ≡ false
      → plan_due p m policy r (newly_reached_of r m policy) due ≡ fine pl
      → PlanCases p m policy r pl
  unfolding plan_due
  plan_due-cases p m policy r pl none e h = inr (inl (e, sym (fine_injective _ _ h)))
  plan_due-cases p m policy r pl (some r2) e h =
      let (t, _, made) = >>=-fine (stop_for_r p policy.r2_lock_r) _ pl h in
      inr (inr (e, (r2, t, sym (fine_injective _ _ made))))
  plan_due-cases p m policy r pl (some _) e h =
      let (t, _, made) = >>=-fine (stop_for_r p policy.r1_lock_r) _ pl h in
      inr (inr (e, (r1, t, sym (fine_injective _ _ made))))

  pub plan_at-cases :
      (p : ManagedPosition R) (m : MilestoneState) (policy : PositionManagementPolicy R) (r : R)
      (pl : BrokerActionPlan R)
      → plan_at p m policy r ≡ fine pl
      → PlanCases p m policy r pl
  unfolding plan_at
  plan_at-cases p m policy r pl h =
      elim (Bool-cases (policy.r3_close_enabled && r3_due r m policy)) [
        | inl e ↦ inl (e, sym (fine_injective _ _ (rw e at h)))
        | inr e ↦
            plan_due-cases p m policy r pl
              (highest_due_protection r policy m.r1_reached m.r2_reached) e (rw e at h)
      ]

  pub plan_close-action :
      (s : BrokerActionStatus) (r : R) (newly : List Milestone)
      → ((plan_close s r newly).action ≡ close_full) ↔ (s ≡ no_action)
  unfolding plan_close
  plan_close-action no_action r newly = (λ _. refl, λ _. refl)
  plan_close-action pending r newly = (λ h. absurd cc, λ h. absurd cc)
  plan_close-action submitted r newly = (λ h. absurd cc, λ h. absurd cc)
  plan_close-action confirmed r newly = (λ h. absurd cc, λ h. absurd cc)
  plan_close-action failed r newly = (λ h. absurd cc, λ h. absurd cc)
  plan_close-action unknown r newly = (λ h. absurd cc, λ h. absurd cc)

  pub plan_close-current_r :
      (s : BrokerActionStatus) (r : R) (newly : List Milestone)
      → (plan_close s r newly).current_r ≡ r
  unfolding plan_close
  plan_close-current_r no_action r newly = refl
  plan_close-current_r _ r newly = refl

  pub plan_close-modify :
      (s : BrokerActionStatus) (r : R) (newly : List Milestone)
      → (plan_close s r newly).action ≢ modify_protection
  unfolding plan_close
  plan_close-modify no_action r newly h = cc
  plan_close-modify _ r newly h = cc

  -- What a plan that modifies the stop has found.
  abbrev pub IsMove : ManagedPosition R → R → BrokerActionStatus → BrokerActionPlan R → Type 0
  IsMove p t s pl =
      (is_stop_at_least_as_protective p t ≡ false)
      × (pl.target_stop ≡ some t)
      × (pl.preserve_take_profit ≡ some p.current_take_profit)
      × ((s ≡ no_action) ⊎ (s ≡ confirmed))

  status_plan-IsMove :
      (p : ManagedPosition R) (r : R) (newly : List Milestone) (k : Milestone) (t : R)
      (s : BrokerActionStatus)
      → is_stop_at_least_as_protective p t ≡ false
      → (status_plan p r newly k t s).action ≡ modify_protection
      → IsMove p t s (status_plan p r newly k t s)
  status_plan-IsMove p r newly k t confirmed w h = (w, refl, refl, inr refl)
  status_plan-IsMove p r newly k t no_action w h = (w, refl, refl, inl refl)
  status_plan-IsMove p r newly k t _ w h = absurd cc

  pub plan_protection-IsMove :
      (p : ManagedPosition R) (r : R) (newly : List Milestone) (k : Milestone) (t : R)
      (s : BrokerActionStatus)
      → (plan_protection p r newly k t s).action ≡ modify_protection
      → IsMove p t s (plan_protection p r newly k t s)
  unfolding plan_protection
  plan_protection-IsMove p r newly k t s h =
      elim (Bool-cases (is_stop_at_least_as_protective p t)) [
        | inl e ↦ let clash : acknowledge_protection ≡ modify_protection = rw e at h in absurd cc
        | inr e ↦
            let same : plan_protection p r newly k t s ≡ status_plan p r newly k t s = rw e refl in
            subst (λ pl. IsMove p t s pl) (sym same)
              (status_plan-IsMove p r newly k t s e (sym (ap (λ pl. pl.action) same) ∙ h))
      ]

  status_plan-keeps :
      (p : ManagedPosition R) (r : R) (newly : List Milestone) (k : Milestone) (t : R)
      (s : BrokerActionStatus)
      → ((status_plan p r newly k t s).action ≢ close_full)
        × ((status_plan p r newly k t s).current_r ≡ r)
        × ((status_plan p r newly k t s).milestone ≡ some k)
  status_plan-keeps p r newly k t confirmed = (λ h. cc, refl, refl)
  status_plan-keeps p r newly k t no_action = (λ h. cc, refl, refl)
  status_plan-keeps p r newly k t _ = (λ h. cc, refl, refl)

  pub plan_protection-keeps :
      (p : ManagedPosition R) (r : R) (newly : List Milestone) (k : Milestone) (t : R)
      (s : BrokerActionStatus)
      → ((plan_protection p r newly k t s).action ≢ close_full)
        × ((plan_protection p r newly k t s).current_r ≡ r)
        × ((plan_protection p r newly k t s).milestone ≡ some k)
  unfolding plan_protection
  plan_protection-keeps p r newly k t s = elim (Bool-cases (is_stop_at_least_as_protective p t)) [
    | inl e ↦ rw e (λ h. cc, refl, refl)
    | inr e ↦ rw e (status_plan-keeps p r newly k t s)
  ]
