-- ===== src/Position/Plan.antt =====
-- `plan_position_management` of goldm_signal/position_management.py and the functions it calls.
use bot_ea.Base.{Bool, false, not, ◌&&◌, ◌||◌, Option, none, some, List, [], ◌∷◌, if◌then◌else◌}
use bot_ea.Base.Int.{pos, negsuc}
use bot_ea.Base.Number.{Number, ◌+R◌, ◌-R◌, ◌*R◌, ◌/R◌, ◌<R◌, ◌≤R◌, ◌=R◌, zero_R}
use bot_ea.Position.Policy.{
  buy, sell, BrokerActionStatus, no_action, pending, submitted, confirmed, failed, unknown,
  PositionManagementPolicy, PositionSide, quote_not_positive, quote_crossed, lock_not_finite,
  zero_division, ManagedPosition, MilestoneState, Checked, fine, error, ◌>>=◌, default_policy,
  initial_risk_distance,
}

pub data ManagementAction : Type 0 where
  nothing wait acknowledge_protection modify_protection close_full : ManagementAction

pub data Milestone : Type 0 where
  r1 r2 r3 : Milestone

-- The texts of `reason`.
pub data Reason : Type 0 where
  close_confirmed close_failed close_reached nothing_reached : Reason
  close_is : BrokerActionStatus → Reason
  satisfied diverged reached : Milestone → Reason
  protection_is : Milestone → BrokerActionStatus → Reason

pub record BrokerActionPlan (R : Type 0) : Type 0 where
  pub action : ManagementAction
  pub current_r : R
  pub newly_reached : List Milestone
  pub milestone : Option Milestone
  pub target_stop : Option R
  pub preserve_take_profit : Option R
  pub target_remaining_volume : Option R
  pub reason : Reason

-- The members whose test holds, in their order.
unfoldable pub chosen : List (Bool × Milestone) → List Milestone
chosen [] = []
chosen ((b, m) ∷ rest) = let tail = chosen rest in if b then m ∷ tail else tail

module _ {R : Type 0} ⦃num : Number R⦄ where
  -- `calculate_current_r`
  unfoldable pub calculate_current_r : ManagedPosition R → R → R → Checked R
  calculate_current_r p bid ask =
      if not (num.is_finite bid && (zero_R <R bid) && num.is_finite ask && (zero_R <R ask))
      then error quote_not_positive
      else if ask <R bid
      then error quote_crossed
      else (let move : R = elim p.side [
        | buy ↦ bid -R p.actual_entry
        | sell ↦ p.actual_entry -R ask
      ] in
          if initial_risk_distance p =R zero_R
          then error zero_division
          else fine (move /R initial_risk_distance p))

  abbrev pub direction_of : PositionSide → R
  direction_of buy = num.of_int (pos 1)
  direction_of sell = num.of_int (negsuc 0)

  -- `stop_for_r`
  unfoldable pub stop_for_r : ManagedPosition R → R → Checked R
  stop_for_r p lock_r =
      if not (num.is_finite lock_r)
      then error lock_not_finite
      else fine (p.actual_entry +R direction_of p.side *R lock_r *R initial_risk_distance p)

  -- `is_stop_at_least_as_protective`
  unfoldable pub is_stop_at_least_as_protective : ManagedPosition R → R → Bool
  is_stop_at_least_as_protective p target =
      if p.current_stop ≤R zero_R
      then false
      else elim p.side [ buy ↦ target ≤R p.current_stop | sell ↦ p.current_stop ≤R target ]

  -- `_highest_due_protection`
  unfoldable pub highest_due_protection :
      R → PositionManagementPolicy R → Bool → Bool → Option Milestone
  highest_due_protection current_r policy r1_reached r2_reached =
      if policy.r2_protection_enabled && (r2_reached || (policy.r2_threshold ≤R current_r))
      then some r2
      else if policy.r1_protection_enabled && (r1_reached || (policy.r1_threshold ≤R current_r))
      then some r1
      else none

  unfoldable pub newly_reached_of : R → MilestoneState → PositionManagementPolicy R → List Milestone
  unfolding chosen
  newly_reached_of current_r m policy = chosen (
      ((policy.r1_threshold ≤R current_r) && not m.r1_reached, r1)
      ∷ ((policy.r2_threshold ≤R current_r) && not m.r2_reached, r2)
      ∷ ((policy.r3_threshold ≤R current_r) && not m.r3_reached, r3)
      ∷ [])

  -- A plan for the close at R3.
  abbrev pub close_plan : ManagementAction → R → List Milestone → Reason → BrokerActionPlan R
  close_plan action current_r newly why = record {
    action = action;
    current_r = current_r;
    newly_reached = newly;
    milestone = some r3;
    target_stop = none;
    preserve_take_profit = none;
    target_remaining_volume = some zero_R;
    reason = why;
  }

  -- The branches on `r3_close_status`.
  unfoldable pub plan_close : BrokerActionStatus → R → List Milestone → BrokerActionPlan R
  plan_close confirmed r newly = close_plan nothing r newly close_confirmed
  plan_close pending r newly = close_plan wait r newly (close_is pending)
  plan_close submitted r newly = close_plan wait r newly (close_is submitted)
  plan_close unknown r newly = close_plan wait r newly (close_is unknown)
  plan_close failed r newly = close_plan wait r newly close_failed
  plan_close no_action r newly = close_plan close_full r newly close_reached

  abbrev pub idle_plan : R → List Milestone → BrokerActionPlan R
  idle_plan current_r newly = record {
    action = nothing;
    current_r = current_r;
    newly_reached = newly;
    milestone = none;
    target_stop = none;
    preserve_take_profit = none;
    target_remaining_volume = none;
    reason = nothing_reached;
  }

  -- A plan for the protection at R1 or R2.
  abbrev pub stop_plan :
      ManagedPosition R
      → R
      → List Milestone
      → Milestone
      → R
      → ManagementAction
      → Reason
      → BrokerActionPlan R
  stop_plan p current_r newly m target action why = record {
    action = action;
    current_r = current_r;
    newly_reached = newly;
    milestone = some m;
    target_stop = some target;
    preserve_take_profit = some p.current_take_profit;
    target_remaining_volume = none;
    reason = why;
  }

  abbrev pub status_plan :
      ManagedPosition R
      → R
      → List Milestone
      → Milestone
      → R
      → BrokerActionStatus
      → BrokerActionPlan R
  status_plan p r newly m target confirmed =
      stop_plan p r newly m target modify_protection (diverged m)
  status_plan p r newly m target no_action =
      stop_plan p r newly m target modify_protection (reached m)
  status_plan p r newly m target s = stop_plan p r newly m target wait (protection_is m s)

  -- The branches on the stop at the broker, and then on the status of the milestone.
  unfoldable pub plan_protection :
      ManagedPosition R
      → R
      → List Milestone
      → Milestone
      → R
      → BrokerActionStatus
      → BrokerActionPlan R
  unfolding is_stop_at_least_as_protective
  plan_protection p r newly m target status =
      if is_stop_at_least_as_protective p target
      then stop_plan p r newly m target acknowledge_protection (satisfied m)
      else status_plan p r newly m target status

  abbrev pub r3_due : R → MilestoneState → PositionManagementPolicy R → Bool
  r3_due current_r m policy = m.r3_reached || (policy.r3_threshold ≤R current_r)

  -- `plan_position_management` after the close at R3, from the due protection on.
  unfoldable pub plan_due :
      ManagedPosition R
      → MilestoneState
      → PositionManagementPolicy R
      → R
      → List Milestone
      → Option Milestone
      → Checked (BrokerActionPlan R)
  unfolding stop_for_r plan_protection ◌>>=◌
  plan_due p m policy current_r newly none = fine (idle_plan current_r newly)
  plan_due p m policy current_r newly (some r2) = stop_for_r p policy.r2_lock_r >>= λ target.
      fine (plan_protection p current_r newly r2 target m.r2_protection_status)
  plan_due p m policy current_r newly (some _) = stop_for_r p policy.r1_lock_r >>= λ target.
      fine (plan_protection p current_r newly r1 target m.r1_protection_status)

  -- `plan_position_management` once the current R is known.
  unfoldable pub plan_at :
      ManagedPosition R
      → MilestoneState
      → PositionManagementPolicy R
      → R
      → Checked (BrokerActionPlan R)
  unfolding plan_close highest_due_protection plan_due
  plan_at p m policy current_r =
      let newly = newly_reached_of current_r m policy in
      if policy.r3_close_enabled && r3_due current_r m policy
      then fine (plan_close m.r3_close_status current_r newly)
      else plan_due p m policy current_r newly
          (highest_due_protection current_r policy m.r1_reached m.r2_reached)

  -- `policy or PositionManagementPolicy()`
  abbrev pub resolved_policy : Option (PositionManagementPolicy R) → PositionManagementPolicy R
  resolved_policy none = default_policy
  resolved_policy (some policy) = policy

  -- `plan_position_management`
  unfoldable pub plan_position_management :
      ManagedPosition R
      → MilestoneState
      → R
      → R
      → Option (PositionManagementPolicy R)
      → Checked (BrokerActionPlan R)
  unfolding calculate_current_r plan_at ◌>>=◌
  plan_position_management p m bid ask policy =
      calculate_current_r p bid ask >>= plan_at p m (resolved_policy policy)
