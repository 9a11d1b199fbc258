-- ===== src/Examples/Setup.antt =====
-- The setup machine of goldm_signal on concrete calls.
use bot_ea.Base.{ℕ, ◌≡◌, ◌≤◌, ◌<◌, refl, none, some, String, List, [], ◌∷◌, ◌+◌, arith, true}
use bot_ea.Base.Text.{codes}
use bot_ea.Setup.Machine.{
  SetupState, scanning, level_approach, breakout_detected, waiting_retest, expired, closed,
  SetupRecord, SetupStateMachine, SetupError, invalid_transition, record_retest_bar, state_in,
}
use bot_ea.Setup.Order.{Call, move, bar, remaining, accepted, accepted-le-remaining}
use bot_ea.Setup.History.{visited, required, AllSeen, history_is_complete}

abbrev machine : SetupStateMachine ℕ ℕ
machine = record {
  setup = record {
    setup_id = "setup-1";
    symbol = "GOLDm";
    side = "BUY";
    level = 2000;
    breakout_at = 0;
    state = scanning;
    retest_bars_elapsed = 0;
    reason = codes "start";
  };
  maximum_retest_bars = 3;
}

abbrev waiting : SetupStateMachine ℕ ℕ
waiting = record machine { setup = record (machine.setup) { state = waiting_retest } }

abbrev calls : List Call
calls =
    move level_approach (codes "near")
    ∷ move closed (codes "no")
    ∷ bar
    ∷ move breakout_detected (codes "broke")
    ∷ move waiting_retest (codes "wait")
    ∷ bar
    ∷ bar
    ∷ bar
    ∷ bar
    ∷ []

ends_expired : (visited calls [] machine).1.setup.state ≡ expired
unfolding record_retest_bar bot_ea.Setup.Machine.ordinal bot_ea.Setup.Machine.transition
    bot_ea.Base.Text.strip
ends_expired = refl

six_calls : accepted calls machine ≡ 6
unfolding record_retest_bar bot_ea.Setup.Machine.ordinal bot_ea.Setup.Machine.transition
    bot_ea.Base.Text.strip
six_calls = refl

history_is_complete_example :
    let (seen, m') = visited calls [] machine in AllSeen seen (required m'.setup.state)
history_is_complete_example = history_is_complete calls machine refl

accepted-le-remaining_example : accepted calls machine ≤ remaining machine
accepted-le-remaining_example = accepted-le-remaining calls machine
