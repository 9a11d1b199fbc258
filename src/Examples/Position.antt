-- ===== src/Examples/Position.antt =====
-- The position management of goldm_signal on concrete quotes.
use bot_ea.Base.{arith, ◌≡◌, refl, ◌↔◌, ◌⊎◌, true, false, none, some, [], ◌∷◌}
use bot_ea.Base.Int.{ℤ, pos}
use bot_ea.Position.Policy.{
  PositionSide, buy, sell, BrokerActionStatus, no_action, confirmed, PositionManagementPolicy,
  ManagedPosition, MilestoneState, Checked, fine,
}
use bot_ea.Position.Plan.{
  Milestone, r1, close_full, modify_protection, BrokerActionPlan, newly_reached_of,
  is_stop_at_least_as_protective, close_plan, stop_plan, close_reached, reached,
  plan_position_management, resolved_policy, r2, r3,
}
use bot_ea.Position.Actions.{closing, closes_exactly, moves_only_to_tighten}
use bot_ea.Position.Cases.{status_of}
use bot_ea.Position.Total.{IsApart, always_plans}
use bot_ea.Examples.Numbers.{integers}

abbrev pub position : ManagedPosition ℤ
position = record {
  position_identifier = pos 1;
  side = buy;
  actual_entry = pos 2000;
  initial_stop = pos 1990;
  current_stop = pos 1990;
  current_take_profit = pos 2050;
  initial_volume = pos 1;
  remaining_volume = pos 1;
}

abbrev milestones : MilestoneState
milestones = record {
  r1_reached = false;
  r2_reached = false;
  r3_reached = false;
  r1_protection_status = no_action;
  r2_protection_status = no_action;
  r3_close_status = no_action;
}

abbrev close_at_r3 : BrokerActionPlan ℤ
close_at_r3 = close_plan close_full (pos 3) (r1 ∷ r2 ∷ r3 ∷ []) close_reached

abbrev move_at_r1 : BrokerActionPlan ℤ
move_at_r1 = stop_plan position (pos 1) (r1 ∷ []) r1 (pos 2000) modify_protection (reached r1)

closes_exactly_example : (close_at_r3.action ≡ close_full) ↔ (
    (closing (resolved_policy none) milestones (pos 3) ≡ true)
    × (milestones.r3_close_status ≡ no_action))
unfolding plan_position_management integers newly_reached_of
closes_exactly_example =
    closes_exactly position milestones (pos 2030) (pos 2031) none close_at_r3 refl

moves_only_to_tighten_example :
    (k : Milestone) × (t : ℤ) × (closing (resolved_policy none) milestones (pos 1) ≡ false)
    × (move_at_r1.milestone ≡ some k)
    × (is_stop_at_least_as_protective position t ≡ false)
    × (move_at_r1.target_stop ≡ some t)
    × (move_at_r1.preserve_take_profit ≡ some (pos 2050))
    × ((status_of k milestones ≡ no_action) ⊎ (status_of k milestones ≡ confirmed))
unfolding plan_position_management integers newly_reached_of
moves_only_to_tighten_example =
    moves_only_to_tighten position milestones (pos 2011) (pos 2012) none move_at_r1 refl refl

apart : IsApart ℤ
unfolding integers
apart = record { above = λ a b _ _ h. ground arith; below = λ a b _ _ h. ground arith }

always_plans_example :
    (pl : BrokerActionPlan ℤ) × (plan_position_management position milestones
        (pos 2011)
        (pos 2012)
        none
      ≡ fine pl)
unfolding bot_ea.Position.Policy.policy_error bot_ea.Position.Policy.position_error integers
always_plans_example =
    always_plans position milestones (pos 2011) (pos 2012) none apart refl refl refl refl
