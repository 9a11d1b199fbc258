-- ===== src/Examples/Execution.antt =====
-- The order check of gold_engine_core on a concrete plan and quote.
use bot_ea.Base.{◌≡◌, refl, ◌↔◌, ◌⊎◌, Bool, true, false, none, some, Option, List, [], ◌∷◌}
use bot_ea.Base.Int.{ℤ, pos, leb_ℤ, ltb_ℤ}
use bot_ea.Base.Number.{◌/R◌, ◌<R◌}
use bot_ea.Execution.Signal.{buy, demo, SignalPlan, ProfileConfig}
use bot_ea.Execution.Contract.{ExecutionPolicy, ExecutionContext}
use bot_ea.Execution.Order.{validate_execution, gains, reward_of, risk_of}
use bot_ea.Execution.Conditions.{IsExecutable}
use bot_ea.Execution.Allowed.{allowed_exact, allowed_pays}
use bot_ea.Examples.Numbers.{integers, gap_is_positive}

abbrev pub plan : SignalPlan ℤ
plan = record {
  profile_id = "GOLDM";
  profile_version = "1";
  profile_fingerprint = "f";
  strategy_id = "m1";
  strategy_version = "1";
  component = "core";
  reason = "retest";
  setup_id = "u-1";
  signal_id = "s-1";
  side = buy;
  symbol = "GOLDm";
  setup_created_at = pos 0;
  entry_ready_at = pos 0;
  valid_until = pos 1000000;
  planned_entry = pos 2000;
  planned_stop = pos 1990;
  planned_target = pos 2030;
  planned_risk = pos 10;
  invalidation = pos 1985;
  maximum_spread = pos 2;
  minimum_executable_rr = pos 2;
  tick_size = pos 1;
  volume = pos 1;
  account_login = pos 7;
  account_server = "demo";
  trade_mode = demo;
  terminal_identity = "t";
  magic = pos 5;
}

abbrev profile : ProfileConfig ℤ
profile = record {
  profile_id = "GOLDM";
  profile_version = "1";
  manifest_fingerprint = "f";
  symbol = "GOLDm";
  expected_trade_mode = demo;
  engineering_trade_mode = demo;
  terminal_identity = "t";
  magic = pos 5;
  max_positions = pos 1;
  max_total_lot = pos 3;
  deviation_points = pos 10;
  tick_size = pos 1;
  telegram_audience = "admin";
}

abbrev policy : ExecutionPolicy ℤ
policy = record {
  schema_version = pos 2;
  profile_id = "GOLDM";
  profile_fingerprint = "f";
  policy_version = "1";
  maximum_spread = pos 2;
  maximum_signal_age_seconds = pos 1;
}

abbrev context : ExecutionContext ℤ
context = record {
  quote = record { time = pos 10; bid = pos 1999; ask = pos 2000; last = none; volume = pos 0 };
  account = record {
    login = pos 7;
    server = "demo";
    trade_mode = demo;
    terminal_identity = "t";
    free_margin = pos 100;
  };
  symbol = record {
    symbol = "GOLDm";
    tick_size = pos 1;
    point = pos 1;
    volume_minimum = pos 1;
    volume_maximum = pos 10;
    volume_step = pos 1;
    stops_level_points = pos 2;
    freeze_level_points = pos 3;
    trade_enabled = true;
  };
  exposure = record { position_count = pos 0; total_volume = pos 0; active_signal_ids = [] };
  required_margin = pos 10;
  broker_check = record { allowed = true; retcode = pos 0; comment = "" };
  engineering_demo = false;
}

allowed_exact_example :
    ((validate_execution plan profile policy context).allowed ≡ true)
    ↔ IsExecutable plan profile policy context
allowed_exact_example = allowed_exact plan profile policy context

context-IsExecutable : IsExecutable plan profile policy context
unfolding validate_execution integers
context-IsExecutable = (allowed_exact plan profile policy context).0 refl

allowed_pays_example :
    (gains plan context ≡ true)
    × (((reward_of plan context /R risk_of plan context) <R plan.minimum_executable_rr) ≡ false)
unfolding integers bot_ea.Base.Int.◌-ℤ◌ validate_execution
allowed_pays_example = allowed_pays plan profile policy context gap_is_positive refl
