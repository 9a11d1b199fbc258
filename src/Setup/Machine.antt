-- ===== src/Setup/Machine.antt =====
-- `SetupState`, `TERMINAL_STATES`, `_TRANSITIONS`, `SetupRecord` and `SetupStateMachine` of
-- goldm_signal/strategy/state_machine.py. A method returns the exception it raised, if any, and
-- the machine as it was left; what was written before a raise stays written.
use bot_ea.Base.{
  ℕ, ◌+◌, Bool, false, ◌||◌, Option, none, some, String, List, [], ◌∷◌, leb, ◌==◌, if◌then◌else◌,
}
use bot_ea.Base.Text.{Text, strip, is_nil, codes}

pub data SetupState : Type 0 where
  scanning level_approach breakout_detected waiting_retest retest_valid : SetupState
  waiting_m5_trigger early_candidate confirmed_a_plus telegram_sent active_signal : SetupState
  expired cancelled manually_entered missed closed : SetupState

-- The position in the enumeration, by which states are compared.
unfoldable pub ordinal : SetupState → ℕ
ordinal scanning = 0
ordinal level_approach = 1
ordinal breakout_detected = 2
ordinal waiting_retest = 3
ordinal retest_valid = 4
ordinal waiting_m5_trigger = 5
ordinal early_candidate = 6
ordinal confirmed_a_plus = 7
ordinal telegram_sent = 8
ordinal active_signal = 9
ordinal expired = 10
ordinal cancelled = 11
ordinal manually_entered = 12
ordinal missed = 13
ordinal closed = 14

unfoldable pub state_in : SetupState → List SetupState → Bool
unfolding ordinal
state_in s [] = false
state_in s (t ∷ ts) = ordinal s == ordinal t || state_in s ts

abbrev pub terminal_states : List SetupState
terminal_states = expired ∷ cancelled ∷ manually_entered ∷ missed ∷ closed ∷ []

-- `_TRANSITIONS.get(state, frozenset())`
unfoldable pub transitions : SetupState → List SetupState
transitions scanning = level_approach ∷ []
transitions level_approach = breakout_detected ∷ expired ∷ cancelled ∷ []
transitions breakout_detected = waiting_retest ∷ expired ∷ cancelled ∷ []
transitions waiting_retest = retest_valid ∷ expired ∷ cancelled ∷ []
transitions retest_valid = waiting_m5_trigger ∷ expired ∷ cancelled ∷ []
transitions waiting_m5_trigger = early_candidate ∷ confirmed_a_plus ∷ expired ∷ cancelled ∷ []
transitions early_candidate = confirmed_a_plus ∷ expired ∷ cancelled ∷ missed ∷ []
transitions confirmed_a_plus = telegram_sent ∷ expired ∷ cancelled ∷ missed ∷ []
transitions telegram_sent = active_signal ∷ cancelled ∷ manually_entered ∷ missed ∷ []
transitions active_signal = cancelled ∷ manually_entered ∷ missed ∷ closed ∷ []
transitions _ = []

-- The level is a float and `breakout_at` a datetime; the machine only carries them.
pub record SetupRecord (Level Time : Type 0) : Type 0 where
  pub setup_id : String
  pub symbol : String
  pub side : String
  pub level : Level
  pub breakout_at : Time
  pub state : SetupState
  pub retest_bars_elapsed : ℕ
  pub reason : Text

pub record SetupStateMachine (Level Time : Type 0) : Type 0 where
  pub setup : SetupRecord Level Time
  pub maximum_retest_bars : ℕ

pub data SetupError : Type 0 where
  reason_required terminal_state invalid_transition not_waiting : SetupError

abbrev pub retest_limit_reason : Text
retest_limit_reason = codes "retest did not occur within the bar limit"

module _ {Level Time : Type 0} where
  -- `SetupStateMachine.__init__`
  unfoldable pub new_machine : SetupRecord Level Time → ℕ → Option (SetupStateMachine Level Time)
  new_machine r maximum =
      if maximum == 0 then none else some (record { setup = r; maximum_retest_bars = maximum })

  -- `SetupStateMachine.transition`
  unfoldable pub transition :
      SetupState
      → Text
      → SetupStateMachine Level Time
      → Option SetupError × SetupStateMachine Level Time
  unfolding state_in transitions
  transition target why m =
      if is_nil (strip why)
      then (some reason_required, m)
      else if state_in m.setup.state terminal_states
      then (some terminal_state, m)
      else if state_in target (transitions m.setup.state)
      then (none, record m { setup = record (m.setup) { state = target; reason = strip why } })
      else (some invalid_transition, m)

  -- `SetupStateMachine.record_retest_bar`
  unfoldable pub record_retest_bar :
      SetupStateMachine Level Time → Option SetupError × SetupStateMachine Level Time
  record_retest_bar m =
      if ordinal m.setup.state == ordinal waiting_retest
      then (let elapsed = m.setup.retest_bars_elapsed + 1 in
          let m' : SetupStateMachine Level Time = record m {
            setup = record (m.setup) { retest_bars_elapsed = elapsed };
          } in
          if leb m.maximum_retest_bars elapsed
          then transition expired retest_limit_reason m'
          else (none, m'))
      else (some not_waiting, m)
