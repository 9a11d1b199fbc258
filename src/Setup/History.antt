-- ===== src/Setup/History.antt =====
-- The states that a setup has gone through when it reaches a given state, and the retest limit.
use mathlib.Core.Path.{subst}
use bot_ea.Base.{
  zero, ◌⊎◌, sym, ◌∙◌, ℕ, suc, ◌+◌, ◌≤◌, ◌<◌, ◌≡◌, refl, true, List, [], ◌∷◌, arith, All, inl, inr,
}
use bot_ea.Base.Text.{Text}
use bot_ea.Setup.Machine.{
  SetupState, scanning, level_approach, breakout_detected, waiting_retest, retest_valid,
  waiting_m5_trigger, early_candidate, confirmed_a_plus, telegram_sent, active_signal, expired,
  cancelled, manually_entered, missed, closed, ordinal, state_in, transitions, SetupStateMachine,
  transition, record_retest_bar,
}
use bot_ea.Setup.Order.{Call, move, bar, apply, limit_reason_kept}

abbrev pub watched : List SetupState
watched = level_approach ∷ scanning ∷ []

abbrev pub retested : List SetupState
retested =
    waiting_m5_trigger ∷ retest_valid ∷ waiting_retest ∷ breakout_detected ∷ level_approach
    ∷ scanning ∷ []

-- The states that a setup has been in before it is in this one.
abbrev pub required : SetupState → List SetupState
required scanning = []
required level_approach = scanning ∷ []
required breakout_detected = watched
required waiting_retest = breakout_detected ∷ watched
required retest_valid = waiting_retest ∷ breakout_detected ∷ watched
required waiting_m5_trigger = retest_valid ∷ waiting_retest ∷ breakout_detected ∷ watched
required early_candidate = retested
required confirmed_a_plus = retested
required missed = retested
required telegram_sent = confirmed_a_plus ∷ retested
required active_signal = telegram_sent ∷ confirmed_a_plus ∷ retested
required manually_entered = telegram_sent ∷ confirmed_a_plus ∷ retested
required closed = active_signal ∷ telegram_sent ∷ confirmed_a_plus ∷ retested
required expired = watched
required cancelled = watched

abbrev pub AllSeen : List SetupState → List SetupState → Type 0
AllSeen seen ws = All (λ w. state_in w seen ≡ true) ws

AllSeen-cons :
    (s : SetupState) (seen ws : List SetupState) → AllSeen seen ws → AllSeen (s ∷ seen) ws
unfolding state_in
AllSeen-cons s seen [] h = tt
AllSeen-cons s seen (w ∷ ws) h = (ground (arith, h.0), AllSeen-cons s seen ws h.1)

required-transitions :
    (s t : SetupState) (seen : List SetupState)
    → state_in t (transitions s) ≡ true
    → AllSeen seen (required s)
    → AllSeen (s ∷ seen) (required t)
unfolding state_in transitions
required-transitions scanning t seen h p = ground arith
required-transitions _ t seen h p = ground arith

module _ {L T : Type 0} where
  -- The states before each call, the last first, and the machine at the end.
  abbrev pub visited :
      List Call → List SetupState → SetupStateMachine L T → List SetupState × SetupStateMachine L T
  visited [] seen m = (seen, m)
  visited (c ∷ cs) seen m = visited cs (m.setup.state ∷ seen) (apply c m).1

  transition-state :
      (target : SetupState) (why : Text) (m : SetupStateMachine L T)
      → ((transition target why m).1.setup.state ≡ m.setup.state)
        ⊎ (state_in (transition target why m).1.setup.state (transitions m.setup.state) ≡ true)
  unfolding transition
  transition-state target why m = ground arith

  bar-state :
      (m : SetupStateMachine L T)
      → ((record_retest_bar m).1.setup.state ≡ m.setup.state)
        ⊎ (state_in (record_retest_bar m).1.setup.state (transitions m.setup.state) ≡ true)
  unfolding record_retest_bar transition
  bar-state m = ground arith

  apply-state :
      (c : Call) (m : SetupStateMachine L T)
      → ((apply c m).1.setup.state ≡ m.setup.state)
        ⊎ (state_in (apply c m).1.setup.state (transitions m.setup.state) ≡ true)
  apply-state (move target why) m = transition-state target why m
  apply-state bar m = bar-state m

  apply-AllSeen :
      (c : Call) (m : SetupStateMachine L T) (seen : List SetupState)
      → AllSeen seen (required m.setup.state)
      → AllSeen (m.setup.state ∷ seen) (required (apply c m).1.setup.state)
  apply-AllSeen c m seen h = elim (apply-state c m) [
    | inl same ↦
        subst (λ s. AllSeen (m.setup.state ∷ seen) (required s)) (sym same)
          (AllSeen-cons m.setup.state seen (required m.setup.state) h)
    | inr next ↦ required-transitions m.setup.state (apply c m).1.setup.state seen next h
  ]

  visited-AllSeen :
      (cs : List Call) (seen : List SetupState) (m : SetupStateMachine L T)
      → AllSeen seen (required m.setup.state)
      → let (seen', m') = visited cs seen m in AllSeen seen' (required m'.setup.state)
  visited-AllSeen [] seen m h = h
  visited-AllSeen (c ∷ cs) seen m h =
      visited-AllSeen cs (m.setup.state ∷ seen) (apply c m).1 (apply-AllSeen c m seen h)

  -- A machine that starts at SCANNING, whatever is called and whatever raises, has been in every
  -- state that its present one requires: a sent signal in CONFIRMED_A_PLUS and in each stage of the
  -- retest, a closed one in ACTIVE_SIGNAL too.
  pub history_is_complete :
      (cs : List Call) (m : SetupStateMachine L T)
      → m.setup.state ≡ scanning
      → let (seen, m') = visited cs [] m in AllSeen seen (required m'.setup.state)
  history_is_complete cs m h = visited-AllSeen cs [] m (rw h tt)

  abbrev pub bars : ℕ → SetupStateMachine L T → SetupStateMachine L T
  bars zero m = m
  bars (suc n) m = bars n (record_retest_bar m).1

  waiting_bar :
      (m : SetupStateMachine L T)
      → m.setup.state ≡ waiting_retest
      → m.setup.retest_bars_elapsed + 1 < m.maximum_retest_bars
      → ((record_retest_bar m).1.setup.state ≡ waiting_retest)
        × ((record_retest_bar m).1.setup.retest_bars_elapsed ≡ m.setup.retest_bars_elapsed + 1)
        × ((record_retest_bar m).1.maximum_retest_bars ≡ m.maximum_retest_bars)
  unfolding record_retest_bar ordinal
  waiting_bar m w h = ground arith

  last_bar :
      (m : SetupStateMachine L T)
      → m.setup.state ≡ waiting_retest
      → m.maximum_retest_bars ≤ m.setup.retest_bars_elapsed + 1
      → (record_retest_bar m).1.setup.state ≡ expired
  unfolding record_retest_bar transition ordinal state_in transitions
  last_bar m w h = ground (arith, limit_reason_kept)

  waiting_bars :
      (n : ℕ) (m : SetupStateMachine L T)
      → m.setup.state ≡ waiting_retest
      → m.setup.retest_bars_elapsed + n < m.maximum_retest_bars
      → ((bars n m).setup.state ≡ waiting_retest)
        × ((bars n m).setup.retest_bars_elapsed ≡ m.setup.retest_bars_elapsed + n)
        × ((bars n m).maximum_retest_bars ≡ m.maximum_retest_bars)
  waiting_bars zero m w h = (w, omega arith, refl)
  waiting_bars (suc n) m w h =
      let b = waiting_bar m w (omega arith) in
      let rest = waiting_bars n (record_retest_bar m).1 b.0 (omega (arith, b.1, b.2)) in
      (rest.0, omega (arith, rest.1, b.1), rest.2 ∙ b.2)

  -- A machine that waits for a retest and has counted `e` bars still waits after `n` more while
  -- `e + n` is below the limit, with the count `e + n`; and if one more bar reaches the limit, that
  -- bar expires the setup.
  retest_expires_at_limit :
      (n : ℕ) (m : SetupStateMachine L T)
      → m.setup.state ≡ waiting_retest
      → m.setup.retest_bars_elapsed + n < m.maximum_retest_bars
      → ((bars n m).setup.state ≡ waiting_retest)
        × ((bars n m).setup.retest_bars_elapsed ≡ m.setup.retest_bars_elapsed + n)
        × (m.maximum_retest_bars ≡ m.setup.retest_bars_elapsed + n + 1
            → (record_retest_bar (bars n m)).1.setup.state ≡ expired)
  retest_expires_at_limit n m w h =
      let b = waiting_bars n m w h in
      (b.0, b.1, λ e. last_bar (bars n m) b.0 (omega (arith, b.1, b.2)))
