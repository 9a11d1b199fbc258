-- ===== src/Execution/Geometry.antt =====
-- What the constructor of a signal plan guarantees.
use bot_ea.Base.{◌≡◌, ◌⊎◌, Bool, true, false, not, ◌&&◌, ◌||◌, none, List, [], ◌∷◌, ◌++◌, arith}
use bot_ea.Base.Int.{leb_ℤ, ltb_ℤ}
use bot_ea.Base.Errors.{AllPass, first_error-AllPass}
use bot_ea.Base.Number.{Number, ◌-R◌, ◌/R◌, ◌<R◌, ◌=R◌, abs_R}
use bot_ea.Execution.Signal.{
  SignalPlan, is_buy, aligned, plan_identity, plan_decimals, plan_geometry, plan_error,
}

AllPass-right {ℓ} : {E : Type ℓ} (ts us : List (Bool × E)) → AllPass (ts ++ us) → AllPass us
AllPass-right [] us h = h
AllPass-right (t ∷ ts) us h = AllPass-right ts us h.1

AllPass-left {ℓ} : {E : Type ℓ} (ts us : List (Bool × E)) → AllPass (ts ++ us) → AllPass ts
AllPass-left [] us h = tt
AllPass-left (t ∷ ts) us h = (h.0, AllPass-left ts us h.1)

causal : (a b : Bool) → not (a && b) ≡ false → (a ≡ true) × (b ≡ true)
causal a b h = ground arith

ordered :
    (b x y z w : Bool)
    → (b && not (x && y)) ≡ false
    → (not b && not (z && w)) ≡ false
    → ((b ≡ true) × (x ≡ true) × (y ≡ true)) ⊎ ((b ≡ false) × (z ≡ true) × (w ≡ true))
ordered b x y z w h k = ground arith

all_aligned :
    (a b c d : Bool)
    → (not a || not b || not c || not d) ≡ false
    → (a ≡ true) × (b ≡ true) × (c ≡ true) × (d ≡ true)
all_aligned a b c d h = ground arith

not-not : (b : Bool) → not b ≡ false → b ≡ true
not-not b h = ground arith

module _ {R : Type 0} ⦃num : Number R⦄ where
  -- A plan that its constructor accepts is ready no earlier than its setup and before it expires; its
  -- entry lies between stop and target on the right sides; its risk is the distance of entry and
  -- stop; its reward for that risk is not below its minimum; and its prices lie on the tick grid.
  accepted_plan_is_sound :
      (s : SignalPlan R)
      → plan_error s ≡ none
      → (leb_ℤ s.setup_created_at s.entry_ready_at ≡ true)
        × (ltb_ℤ s.entry_ready_at s.valid_until ≡ true)
        × (((is_buy s.side ≡ true)
              × ((s.planned_stop <R s.planned_entry) ≡ true)
              × ((s.planned_entry <R s.planned_target) ≡ true))
            ⊎ ((is_buy s.side ≡ false)
                × ((s.planned_target <R s.planned_entry) ≡ true)
                × ((s.planned_entry <R s.planned_stop) ≡ true)))
        × ((s.planned_risk =R abs_R (s.planned_entry -R s.planned_stop)) ≡ true)
        × (((abs_R (s.planned_target -R s.planned_entry) /R s.planned_risk)
              <R s.minimum_executable_rr)
            ≡ false)
        × ((aligned s.planned_entry s.tick_size ≡ true)
            × (aligned s.planned_stop s.tick_size ≡ true)
            × (aligned s.planned_target s.tick_size ≡ true)
            × (aligned s.invalidation s.tick_size ≡ true))
  unfolding plan_error
  accepted_plan_is_sound s h =
      let all = first_error-AllPass (plan_identity s ++ plan_decimals s ++ plan_geometry s) h in
      let later =
        AllPass-right (plan_decimals s) (plan_geometry s)
          (AllPass-right (plan_identity s) (plan_decimals s ++ plan_geometry s) all) in
      let first = AllPass-left (plan_identity s) (plan_decimals s ++ plan_geometry s) all in
      let (risk, (rr, (on_buy, (on_sell, (grid, _))))) = later in
      let (_, (in_time, _)) = first in
      let when = causal _ _ in_time in
      (
        when.0,
        when.1,
        ordered _ _ _ _ _ on_buy on_sell,
        not-not _ risk,
        rr,
        all_aligned _ _ _ _ grid,
      )
