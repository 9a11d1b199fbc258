-- ===== src/Setup/Order.antt =====
-- How the calls on one setup machine may follow one another.
use bot_ea.Base.{
  ℕ, suc, ◌+◌, ◌-◌, ◌≤◌, ◌<◌, ◌≡◌, refl, true, false, Option, none, some, Option-cases, inl, inr,
  List, [], ◌∷◌, arith,
}
use bot_ea.Base.Text.{Text, strip, is_nil}
use bot_ea.Setup.Machine.{
  SetupState, scanning, level_approach, breakout_detected, waiting_retest, retest_valid,
  waiting_m5_trigger, early_candidate, confirmed_a_plus, telegram_sent, active_signal, expired,
  ordinal, state_in, transitions, SetupStateMachine, SetupError, transition, record_retest_bar,
  retest_limit_reason,
}

-- How far along a state is; the terminal states come last.
abbrev pub rank : SetupState → ℕ
rank scanning = 0
rank level_approach = 1
rank breakout_detected = 2
rank waiting_retest = 3
rank retest_valid = 4
rank waiting_m5_trigger = 5
rank early_candidate = 6
rank confirmed_a_plus = 7
rank telegram_sent = 8
rank active_signal = 9
rank _ = 10

-- A state of the table is further along than the one it is reached from.
pub rank-transitions : (s t : SetupState) → state_in t (transitions s) ≡ true → rank s < rank t
unfolding state_in transitions
rank-transitions scanning t h = ground arith
rank-transitions _ t h = ground arith

rank-le : (s : SetupState) → rank s ≤ 10
rank-le scanning = omega arith
rank-le _ = omega arith

pub limit_reason_kept : is_nil (strip retest_limit_reason) ≡ false
unfolding strip
limit_reason_kept = refl

-- A client's call.
pub data Call : Type 0 where
  move : SetupState → Text → Call
  bar : Call

module _ {L T : Type 0} where
  abbrev pub apply : Call → SetupStateMachine L T → Option SetupError × SetupStateMachine L T
  apply (move target why) m = transition target why m
  apply bar m = record_retest_bar m

  -- The calls that return normally.
  abbrev pub accepted : List Call → SetupStateMachine L T → ℕ
  accepted [] m = 0
  accepted (c ∷ cs) m =
      let rest = accepted cs (apply c m).1 in elim (apply c m).0 [ none ↦ suc rest | some _ ↦ rest ]

  -- What is left to do: states ahead, and retest bars below the limit.
  abbrev pub remaining : SetupStateMachine L T → ℕ
  remaining m = (10 - rank m.setup.state) + (m.maximum_retest_bars - m.setup.retest_bars_elapsed)

  transition-remaining :
      (target : SetupState) (why : Text) (m : SetupStateMachine L T)
      → (transition target why m).0 ≡ none
      → remaining (transition target why m).1 < remaining m
  unfolding transition
  transition-remaining target why m h =
      ground (arith, rank-transitions m.setup.state target, rank-le target)

  -- A call that raises leaves the machine as it was; the limit's own transition never raises.
  transition-error :
      (target : SetupState) (why : Text) (m : SetupStateMachine L T) (e : SetupError)
      → (transition target why m).0 ≡ some e
      → (transition target why m).1 ≡ m
  unfolding transition
  transition-error target why m e h = ground arith

  limit_expires :
      (m : SetupStateMachine L T)
      → m.setup.state ≡ waiting_retest
      → (transition expired retest_limit_reason m).0 ≡ none
  unfolding transition
  limit_expires m h = rw (h, limit_reason_kept)

  transition-maximum :
      (target : SetupState) (why : Text) (m : SetupStateMachine L T)
      → (transition target why m).1.maximum_retest_bars ≡ m.maximum_retest_bars
  unfolding transition
  transition-maximum target why m = ground arith

  bar-remaining :
      (m : SetupStateMachine L T)
      → (record_retest_bar m).0 ≡ none
      → remaining (record_retest_bar m).1 < remaining m
  unfolding record_retest_bar transition ordinal
  bar-remaining m h = ground (arith, rank-le m.setup.state)

  bar-error :
      (m : SetupStateMachine L T) (e : SetupError)
      → (record_retest_bar m).0 ≡ some e
      → (record_retest_bar m).1 ≡ m
  unfolding record_retest_bar transition ordinal
  bar-error m e h = ground (arith, limit_reason_kept)

  apply-remaining :
      (c : Call) (m : SetupStateMachine L T)
      → (apply c m).0 ≡ none
      → remaining (apply c m).1 < remaining m
  apply-remaining (move target why) m h = transition-remaining target why m h
  apply-remaining bar m h = bar-remaining m h

  -- A call that raises leaves the machine as it was.
  apply-error :
      (c : Call) (m : SetupStateMachine L T) (e : SetupError)
      → (apply c m).0 ≡ some e
      → (apply c m).1 ≡ m
  apply-error (move target why) m e h = transition-error target why m e h
  apply-error bar m e h = bar-error m e h

  -- However often it is called, a machine accepts at most as many calls as there are ranks of states
  -- ahead of it and retest bars left below its limit.
  pub accepted-le-remaining :
      (cs : List Call) (m : SetupStateMachine L T) → accepted cs m ≤ remaining m
  accepted-le-remaining [] m = omega arith
  accepted-le-remaining (c ∷ cs) m = elim (Option-cases (apply c m).0) [
    | inl ok ↦
        rw (ok, accepted)
          (omega (arith, apply-remaining c m ok, accepted-le-remaining cs (apply c m).1))
    | inr (e, bad) ↦ rw (bad, accepted, apply-error c m e bad) (accepted-le-remaining cs m)
  ]
