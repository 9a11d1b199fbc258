-- ===== src/Execution/Conditions.antt =====
-- The conditions of an order that gold_engine_core/execution.py allows, and its list of tests.
use bot_ea.Base.{◌≡◌, ◌⊎◌, ◌↔◌, true, false, not, ◌||◌, str_eq, one_of}
use bot_ea.Base.Int.{◌-ℤ◌, leb_ℤ, ltb_ℤ}
use bot_ea.Base.Number.{Number, ◌+R◌, ◌-R◌, ◌<R◌, ◌=R◌}
use bot_ea.Execution.Signal.{SignalPlan, ProfileConfig}
use bot_ea.Execution.Contract.{ExecutionPolicy, ExecutionContext}
use bot_ea.Execution.Order.{
  same_ℤ, microseconds, gains, rr_of, expected_mode, constraints_ok, invalidated, geometry_ok,
  tests,
}
use bot_ea.Execution.Exact.{
  AllFail, not_exact, none_of_three, same_text_exact, not_at_most, not_both, in_time_exact,
  own_server_exact, own_symbol_exact,
}

module _ {R : Type 0} ⦃num : Number R⦄ where
  -- The conditions of an order.
  pub record IsExecutable (plan : SignalPlan R) (p : ProfileConfig R) (pol : ExecutionPolicy R)
      (c : ExecutionContext R) : Type 0 where
    pub own_profile :
        (plan.profile_id ≡ p.profile_id)
        × (plan.profile_version ≡ p.profile_version)
        × (plan.profile_fingerprint ≡ p.manifest_fingerprint)
    pub own_policy :
        (pol.profile_id ≡ p.profile_id)
        × (pol.profile_fingerprint ≡ p.manifest_fingerprint)
        × ((plan.maximum_spread =R pol.maximum_spread) ≡ true)
    pub in_time :
        (leb_ℤ plan.entry_ready_at c.quote.time ≡ true)
        × (leb_ℤ c.quote.time plan.valid_until ≡ true)
        × (leb_ℤ
              (plan.valid_until -ℤ plan.entry_ready_at)
              (microseconds pol.maximum_signal_age_seconds)
            ≡ true)
    pub rewards : (gains plan c ≡ false) ⊎ ((rr_of plan c <R plan.minimum_executable_rr) ≡ false)
    pub narrow : (pol.maximum_spread <R (c.quote.ask -R c.quote.bid)) ≡ false
    pub valid_setup : invalidated plan c ≡ false
    pub own_account : same_ℤ c.account.login plan.account_login ≡ true
    pub own_server :
        (c.account.server ≡ plan.account_server)
        × (c.account.trade_mode ≡ plan.trade_mode)
        × (plan.trade_mode ≡ expected_mode p c)
    pub own_terminal : c.account.terminal_identity ≡ plan.terminal_identity
    pub own_symbol : (c.symbol.symbol ≡ plan.symbol) × (plan.symbol ≡ p.symbol)
    pub own_magic : same_ℤ plan.magic p.magic ≡ true
    pub room : ltb_ℤ c.exposure.position_count p.max_positions ≡ true
    pub room_for_volume : (p.max_total_lot <R (c.exposure.total_volume +R plan.volume)) ≡ false
    pub covered : (c.account.free_margin <R c.required_margin) ≡ false
    pub fresh : one_of plan.signal_id c.exposure.active_signal_ids ≡ false
    pub placeable : constraints_ok plan p c ≡ true
    pub in_order : geometry_ok plan c ≡ true
    pub broker_agrees : c.broker_check.allowed ≡ true

  own_profile_exact :
      (plan : SignalPlan R) (p : ProfileConfig R)
      → ((not (str_eq plan.profile_id p.profile_id)
            || not (str_eq plan.profile_version p.profile_version)
            || not (str_eq plan.profile_fingerprint p.manifest_fingerprint))
          ≡ false)
        ↔ ((plan.profile_id ≡ p.profile_id)
            × (plan.profile_version ≡ p.profile_version)
            × (plan.profile_fingerprint ≡ p.manifest_fingerprint))
  own_profile_exact plan p =
      none_of_three (same_text_exact plan.profile_id p.profile_id)
        (same_text_exact plan.profile_version p.profile_version)
        (same_text_exact plan.profile_fingerprint p.manifest_fingerprint)

  own_policy_exact :
      (plan : SignalPlan R) (p : ProfileConfig R) (pol : ExecutionPolicy R)
      → ((not (str_eq pol.profile_id p.profile_id)
            || not (str_eq pol.profile_fingerprint p.manifest_fingerprint)
            || not (plan.maximum_spread =R pol.maximum_spread))
          ≡ false)
        ↔ ((pol.profile_id ≡ p.profile_id)
            × (pol.profile_fingerprint ≡ p.manifest_fingerprint)
            × ((plan.maximum_spread =R pol.maximum_spread) ≡ true))
  own_policy_exact plan p pol =
      none_of_three (same_text_exact pol.profile_id p.profile_id)
        (same_text_exact pol.profile_fingerprint p.manifest_fingerprint)
        (not_exact (plan.maximum_spread =R pol.maximum_spread))

  pub AllFail-IsExecutable :
      (plan : SignalPlan R) (p : ProfileConfig R) (pol : ExecutionPolicy R) (c : ExecutionContext R)
      → AllFail (tests plan p pol c)
      → IsExecutable plan p pol c
  unfolding tests
  AllFail-IsExecutable plan p pol c
        (
          t0,
          (
            t1,
            (
              t2,
              (
                t3,
                (
                  t4,
                  (
                    t5,
                    (
                      t6,
                      (t7, (t8, (t9, (t10, (t11, (t12, (t13, (t14, (t15, (t16, (t17, _))))))))))),
                    ),
                  ),
                ),
              ),
            ),
          ),
        ) =
      record {
        own_profile = (own_profile_exact plan p).0 t0;
        own_policy = (own_policy_exact plan p pol).0 t1;
        in_time =
            (in_time_exact plan.entry_ready_at plan.valid_until c.quote.time
                (microseconds pol.maximum_signal_age_seconds)).0
              t2;
        rewards = (not_both _ _).0 t3;
        narrow = t4;
        valid_setup = t5;
        own_account = (not_exact _).0 t6;
        own_server = (own_server_exact _ _ _ _ _).0 t7;
        own_terminal = (same_text_exact _ _).0 t8;
        own_symbol = (own_symbol_exact _ _ _).0 t9;
        own_magic = (not_exact _).0 t10;
        room = (not_at_most p.max_positions c.exposure.position_count).0 t11;
        room_for_volume = t12;
        covered = t13;
        fresh = t14;
        placeable = (not_exact _).0 t15;
        in_order = (not_exact _).0 t16;
        broker_agrees = (not_exact _).0 t17;
      }

  pub IsExecutable-AllFail :
      (plan : SignalPlan R) (p : ProfileConfig R) (pol : ExecutionPolicy R) (c : ExecutionContext R)
      → IsExecutable plan p pol c
      → AllFail (tests plan p pol c)
  unfolding tests
  IsExecutable-AllFail plan p pol c v =
      let t8 = (same_text_exact _ _).1 v.own_terminal in
      (
        (own_profile_exact plan p).1 v.own_profile,
        (
          (own_policy_exact plan p pol).1 v.own_policy,
          (
            (in_time_exact plan.entry_ready_at plan.valid_until c.quote.time
                  (microseconds pol.maximum_signal_age_seconds)).1
                v.in_time,
            (
              (not_both _ _).1 v.rewards,
              (
                v.narrow,
                (
                  v.valid_setup,
                  (
                    (not_exact _).1 v.own_account,
                    (
                      (own_server_exact _ _ _ _ _).1 v.own_server,
                      (
                        t8,
                        (
                          (own_symbol_exact _ _ _).1 v.own_symbol,
                          (
                            (not_exact _).1 v.own_magic,
                            (
                              (not_at_most p.max_positions c.exposure.position_count).1 v.room,
                              (
                                v.room_for_volume,
                                (
                                  v.covered,
                                  (
                                    v.fresh,
                                    (
                                      (not_exact _).1 v.placeable,
                                      (
                                        (not_exact _).1 v.in_order,
                                        ((not_exact _).1 v.broker_agrees, tt),
                                      ),
                                    ),
                                  ),
                                ),
                              ),
                            ),
                          ),
                        ),
                      ),
                    ),
                  ),
                ),
              ),
            ),
          ),
        ),
      )
